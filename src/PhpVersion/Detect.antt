-- ===== src/PhpVersion/Detect.antt =====
-- server/phpstrom/php_version.go: the version that the settings and the composer.json files give.
use vscode_php_strom.Base.{◌||◌, Option, none, some, List, [], ◌∷◌, ◌==◌, if◌then◌else◌, length}
use vscode_php_strom.Text.{Bytes, codes, beq, has_prefix, trim_prefix}
use vscode_php_strom.Exclusions.{contains_code}
use vscode_php_strom.PhpVersion.{supported_php_versions, fallback_php_version, major_minor_version}
use vscode_php_strom.PhpVersion.Constraint.{first_allowed}

module _ (trim_space lower : Bytes → Bytes) (fields : Bytes → List Bytes) where
  -- The supported versions are listed in the order in which they are sorted.
  unfoldable pub version_from_constraint : Bytes → Bytes
  unfolding first_allowed beq
  version_from_constraint given =
      let constraint = trim_space (lower given) in
      if length constraint == 0 || beq constraint (codes "*")
      then []
      else first_allowed trim_space fields constraint supported_php_versions

  unfoldable pub normalize_supported_php_version : Bytes → Bytes
  unfolding major_minor_version beq
  normalize_supported_php_version given =
      let version = trim_space (lower given) in
      if length version == 0 || beq version (codes "auto")
      then []
      else if contains_code supported_php_versions (major_minor_version version)
      then major_minor_version version
      else []

-- The entries of a composer.json for the key "php", "" for a missing key, and `none` where `config.platform`
-- or `require` is missing.
pub record ComposerManifest : Type 0 where
  pub platform : Option Bytes
  pub requires : Option Bytes

-- What is read first, or else the second.
abbrev pub or_else : Bytes → Bytes → Bytes
or_else [] second = second
or_else (c ∷ cs) second = c ∷ cs

module _ (trim_space lower : Bytes → Bytes) (fields : Bytes → List Bytes) where
  unfoldable pub version_of : Option Bytes → Bytes
  unfolding version_from_constraint
  version_of none = []
  version_of (some constraint) = version_from_constraint trim_space lower fields constraint

module _ (trim_space lower : Bytes → Bytes) (fields : Bytes → List Bytes)
    (read_manifest : Bytes → Option ComposerManifest) where
  -- A file that cannot be read or decoded is `none`.
  unfoldable pub detect_composer_php_version_at : Bytes → Bytes
  unfolding version_of
  detect_composer_php_version_at path = elim (read_manifest path) [
    | none ↦ []
    | some manifest ↦
        or_else (version_of trim_space lower fields manifest.platform)
          (version_of trim_space lower fields manifest.requires)
  ]

module _ (unescape : Bytes → Option Bytes) where
  unfoldable pub workspace_folder_path : Bytes → Bytes
  unfolding has_prefix trim_prefix
  workspace_folder_path uri =
      let rest = trim_prefix (codes "file://") uri in
      if has_prefix (codes "file://") uri
      then elim (unescape rest) [ none ↦ rest | some path ↦ path ]
      else []

module _ (trim_space lower : Bytes → Bytes) (fields : Bytes → List Bytes)
    (read_manifest : Bytes → Option ComposerManifest) (folder_path : Bytes → Bytes)
    (join : Bytes → Bytes → Bytes) where
  -- The folders are given by their URIs; `folder_path` is workspaceFolderPath.
  unfoldable pub detect_composer_php_version : List Bytes → Bytes
  unfolding detect_composer_php_version_at
  detect_composer_php_version [] = []
  detect_composer_php_version (uri ∷ folders) =
      let later = detect_composer_php_version folders in
      elim (folder_path uri) [
        | [] ↦ later
        | c ∷ cs ↦
            or_else
              (detect_composer_php_version_at trim_space lower fields read_manifest
                (join (c ∷ cs) (codes "composer.json")))
              later
      ]

  unfoldable pub effective_php_version : Bytes → Bytes → List Bytes → Bytes
  unfolding normalize_supported_php_version detect_composer_php_version
  effective_php_version configured override folders =
      or_else (normalize_supported_php_version trim_space lower fields override) (
        or_else (normalize_supported_php_version trim_space lower fields configured)
          (or_else (detect_composer_php_version folders) fallback_php_version))
