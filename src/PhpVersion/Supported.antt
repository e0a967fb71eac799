-- ===== src/PhpVersion/Supported.antt =====
-- server/phpstrom/php_version.go: the versions that effectivePHPVersion gives.
use vscode_php_strom.Base.{
  ◌≡◌, refl, Bool, true, ◌&&◌, ◌||◌, Option, none, some, List, [], ◌∷◌, arith, ◌==◌, if◌then◌else◌,
  length, inl, inr, Bool-cases, Option-cases, List-cases,
}
use vscode_php_strom.Text.{Bytes, codes, beq}
use vscode_php_strom.Exclusions.{contains_code}
use vscode_php_strom.PhpVersion.{supported_php_versions, fallback_php_version, major_minor_version}
use vscode_php_strom.PhpVersion.Constraint.{constraint_allows_major_minor, first_allowed}
use vscode_php_strom.PhpVersion.Detect.{
  version_from_constraint, normalize_supported_php_version, ComposerManifest, or_else, version_of,
  detect_composer_php_version_at, detect_composer_php_version, effective_php_version,
}

abbrev is_supported : Bytes → Bool
is_supported = contains_code supported_php_versions

-- A version is supported, or it is "", which stands for none.
abbrev is_supported_or_none : Bytes → Bool
is_supported_or_none [] = true
is_supported_or_none (c ∷ cs) = is_supported (c ∷ cs)

or_else-supported :
    (a b : Bytes)
    → is_supported_or_none a ≡ true
    → is_supported b ≡ true
    → is_supported (or_else a b) ≡ true
or_else-supported [] b h k = k
or_else-supported (c ∷ cs) b h k = h

or_else-supported_or_none :
    (a b : Bytes)
    → is_supported_or_none a ≡ true
    → is_supported_or_none b ≡ true
    → is_supported_or_none (or_else a b) ≡ true
or_else-supported_or_none [] b h k = k
or_else-supported_or_none (c ∷ cs) b h k = h

-- All versions of a list are supported.
abbrev all_supported : List Bytes → Bool
all_supported [] = true
all_supported (v ∷ versions) = is_supported_or_none v && all_supported versions

module _ (trim_space : Bytes → Bytes) (fields : Bytes → List Bytes) where
  first_allowed-supported :
      (constraint : Bytes) (candidates : List Bytes)
      → all_supported candidates ≡ true
      → is_supported_or_none (first_allowed trim_space fields constraint candidates) ≡ true
  unfolding first_allowed
  first_allowed-supported constraint [] h = refl
  first_allowed-supported constraint (v ∷ candidates) h =
      let later = first_allowed-supported constraint candidates (ground (arith, h)) in
      elim (Bool-cases (constraint_allows_major_minor trim_space fields constraint v)) [
        | inl e ↦ rw (e, first_allowed) (ground (arith, h))
        | inr e ↦ rw (e, first_allowed) later
      ]

supported_branch :
    (v : Bytes)
    → is_supported_or_none (if contains_code supported_php_versions v then v else []) ≡ true
supported_branch [] = ground arith
supported_branch (c ∷ cs) = elim (Bool-cases (is_supported (c ∷ cs))) [
  | inl e ↦ rw (e) e
  | inr e ↦ rw (e) refl
]

fallback-supported : is_supported fallback_php_version ≡ true
unfolding beq
fallback-supported = refl

module _ (trim_space lower : Bytes → Bytes) (fields : Bytes → List Bytes) where
  version_from_constraint-supported :
      (given : Bytes)
      → is_supported_or_none (version_from_constraint trim_space lower fields given) ≡ true
  unfolding version_from_constraint
  version_from_constraint-supported given =
      let constraint = trim_space (lower given) in
      elim (Bool-cases (length constraint == 0 || beq constraint (codes "*"))) [
        | inl e ↦ rw (e, version_from_constraint) refl
        | inr e ↦
            rw (e, version_from_constraint)
              (first_allowed-supported trim_space fields constraint supported_php_versions refl)
      ]

  normalize-supported :
      (given : Bytes)
      → is_supported_or_none (normalize_supported_php_version trim_space lower fields given) ≡ true
  unfolding normalize_supported_php_version
  normalize-supported given =
      let version = trim_space (lower given) in
      elim (Bool-cases (length version == 0 || beq version (codes "auto"))) [
        | inl e ↦ rw (e, normalize_supported_php_version) refl
        | inr e ↦
            rw (e, normalize_supported_php_version) (supported_branch (major_minor_version version))
      ]

module _ (trim_space lower : Bytes → Bytes) (fields : Bytes → List Bytes)
    (read_manifest : Bytes → Option ComposerManifest) where
  version_of-supported :
      (found : Option Bytes)
      → is_supported_or_none (version_of trim_space lower fields found) ≡ true
  unfolding version_of
  version_of-supported none = refl
  version_of-supported (some constraint) =
      version_from_constraint-supported trim_space lower fields constraint

  detect_at-supported :
      (path : Bytes)
      → is_supported_or_none
          (detect_composer_php_version_at trim_space lower fields read_manifest path)
        ≡ true
  unfolding detect_composer_php_version_at
  detect_at-supported path = elim (Option-cases (read_manifest path)) [
    | inl e ↦ rw (e, detect_composer_php_version_at) refl
    | inr (manifest, e) ↦
        rw (e, detect_composer_php_version_at)
          (or_else-supported_or_none (version_of trim_space lower fields manifest.platform)
            (version_of trim_space lower fields manifest.requires)
            (version_of-supported manifest.platform) (version_of-supported manifest.requires))
  ]

module _ (trim_space lower : Bytes → Bytes) (fields : Bytes → List Bytes)
    (read_manifest : Bytes → Option ComposerManifest) (folder_path : Bytes → Bytes)
    (join : Bytes → Bytes → Bytes) where
  detect-supported :
      (folders : List Bytes)
      → is_supported_or_none (
          detect_composer_php_version trim_space lower fields read_manifest folder_path join
            folders)
        ≡ true
  unfolding detect_composer_php_version
  detect-supported [] = refl
  detect-supported (uri ∷ folders) = elim (List-cases (folder_path uri)) [
    | inl e ↦ rw (e, detect_composer_php_version) (detect-supported folders)
    | inr (c, cs, e) ↦
        rw (e, detect_composer_php_version)
          (or_else-supported_or_none
            (detect_composer_php_version_at trim_space lower fields read_manifest
              (join (c ∷ cs) (codes "composer.json")))
            (detect_composer_php_version trim_space lower fields read_manifest folder_path join
              folders)
            (detect_at-supported trim_space lower fields read_manifest
              (join (c ∷ cs) (codes "composer.json")))
            (detect-supported folders))
  ]

  -- Whatever the settings and the composer.json files say, the version is one of the supported ones.
  pub effective_php_version-supported :
      (configured override : Bytes) (folders : List Bytes)
      → contains_code supported_php_versions (
          effective_php_version trim_space lower fields read_manifest folder_path join configured
            override folders)
        ≡ true
  unfolding effective_php_version
  effective_php_version-supported configured override folders =
      let found =
        detect_composer_php_version trim_space lower fields read_manifest folder_path join
          folders in
      let set = normalize_supported_php_version trim_space lower fields configured in
      or_else-supported (normalize_supported_php_version trim_space lower fields override)
        (or_else set (or_else found fallback_php_version))
        (normalize-supported trim_space lower fields override)
        (or_else-supported set (or_else found fallback_php_version)
          (normalize-supported trim_space lower fields configured)
          (or_else-supported found fallback_php_version (detect-supported folders)
            (fallback-supported)))
