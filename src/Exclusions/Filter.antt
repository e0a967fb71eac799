-- ===== src/Exclusions/Filter.antt =====
-- server/providers/diagnostics_exclusions.go: the filter of the diagnostics of a file and how it is built.
-- filepath.Clean and filepath.Rel, url.PathUnescape, filepath.FromSlash and the file system are
-- parameters, beside those of the parent.
use vscode_php_strom.Base.{
  Bool, true, false, ◌||◌, Option, none, some, List, [], ◌∷◌, ◌++◌, ◌==◌, if◌then◌else◌, length,
}
use vscode_php_strom.Dict.{Dict}
use vscode_php_strom.Lsp.{Diagnostic}
use vscode_php_strom.Text.{Bytes, codes, beq, has_prefix, trim_prefix}
use vscode_php_strom.Ignore.Parse.{slash}
use vscode_php_strom.Exclusions.{
  DiagnosticPathRule, WorkspaceGitignore, DiagnosticsPathExclusions, filter_codes,
  parse_gitignore_rules, build_explicit, ignored_from_last, match_simple,
}

abbrev pub dot_dot : Bytes
dot_dot = b'.' ∷ b'.' ∷ []

-- The rules from the last to the first.
unfoldable pub from_last : {A : Type 0} → List A → List A → List A
from_last [] before = before
from_last (x ∷ xs) before = from_last xs (x ∷ before)

module _ (to_slash clean : Bytes → Bytes) (rel_path : Bytes → Bytes → Option Bytes) where
  -- `none` for a path that is the root or not below it.
  unfoldable pub relative_workspace_path : Bytes → Bytes → Option Bytes
  unfolding beq has_prefix
  relative_workspace_path root filename = elim (rel_path (clean root) (clean filename)) [
    | none ↦ none
    | some rel ↦
        if beq rel (b'.' ∷ []) || beq rel []
        then none
        else if beq rel dot_dot || has_prefix (dot_dot ++ slash) rel
        then none
        else some (to_slash rel)
  ]

module _ (path_match : Bytes → Bytes → Option Bool) (to_slash clean : Bytes → Bytes)
    (rel_path : Bytes → Bytes → Option Bytes) where
  unfoldable pub ignores : WorkspaceGitignore → Bytes → Bool
  unfolding relative_workspace_path ignored_from_last from_last
  ignores m filename = elim (relative_workspace_path to_slash clean rel_path m.root filename) [
    | none ↦ false
    | some rel ↦ ignored_from_last path_match to_slash (from_last m.rules []) rel
  ]

  unfoldable pub matches_gitignore : List WorkspaceGitignore → Bytes → Bool
  unfolding ignores
  matches_gitignore [] filename = false
  matches_gitignore (m ∷ matchers) filename =
      ignores m filename || matches_gitignore matchers filename

module _ (path_match : Bytes → Bytes → Option Bool) (to_slash : Bytes → Bytes) where
  -- Whether the file is excluded, and the codes that are suppressed for it, those of the earlier rules
  -- given.
  unfoldable pub match_explicit : List DiagnosticPathRule → Bytes → List Bytes → Bool × List Bytes
  unfolding match_simple
  match_explicit [] filename suppressed = (false, suppressed)
  match_explicit (rule ∷ rules) filename suppressed =
      let skip = match_explicit rules filename suppressed in
      let more = match_explicit rules filename (suppressed ++ rule.codes) in
      if match_simple path_match to_slash rule.pattern filename
      then (if rule.ignore_all then (true, []) else if length rule.codes == 0 then skip else more)
      else skip

module _ (path_match : Bytes → Bytes → Option Bool) (to_slash clean : Bytes → Bytes)
    (rel_path : Bytes → Bytes → Option Bytes) where
  unfoldable pub ignores_all : DiagnosticsPathExclusions → Bytes → Bool
  unfolding matches_gitignore match_explicit
  ignores_all e [] = false
  ignores_all e (c ∷ cs) =
      matches_gitignore path_match to_slash clean rel_path e.gitignores (c ∷ cs)
      || (match_explicit path_match to_slash e.explicit (c ∷ cs) []).0

  unfoldable pub filter_found :
      DiagnosticsPathExclusions → Bytes → List Diagnostic → List Diagnostic
  unfolding matches_gitignore match_explicit filter_codes
  filter_found e filename diagnostics =
      let (ignore_all, suppressed) = match_explicit path_match to_slash e.explicit filename [] in
      if matches_gitignore path_match to_slash clean rel_path e.gitignores filename
      then []
      else if ignore_all
      then []
      else if length suppressed == 0
      then diagnostics
      else filter_codes suppressed diagnostics

  -- An empty result that is excluded is a new empty list, the same as the one given.
  unfoldable pub filter : DiagnosticsPathExclusions → Bytes → List Diagnostic → List Diagnostic
  unfolding filter_found ignores_all
  filter e filename [] = if ignores_all e filename then [] else []
  filter e filename (d ∷ ds) = filter_found e filename (d ∷ ds)

module _ (unescape : Bytes → Option Bytes) (from_slash : Bytes → Bytes) where
  -- A path that cannot be unescaped stays as it is.
  unfoldable pub uri_to_path : Bytes → Bytes
  unfolding trim_prefix
  uri_to_path uri =
      let p = trim_prefix (codes "file://") uri in
      from_slash (elim (unescape p) [ none ↦ p | some unescaped ↦ unescaped ])

module _ (trim_space to_slash clean : Bytes → Bytes) (uri_path : Bytes → Bytes)
    (join : Bytes → Bytes → Bytes) (read_file : Bytes → Option Bytes) where
  unfoldable pub load_workspace_gitignore : Bytes → Option WorkspaceGitignore
  unfolding parse_gitignore_rules
  load_workspace_gitignore uri = elim (uri_path uri) [
    | [] ↦ none
    | c ∷ cs ↦ elim (read_file (join (c ∷ cs) (codes ".gitignore"))) [
      | none ↦ none
      | some content ↦ elim (parse_gitignore_rules to_slash trim_space content) [
        | [] ↦ none
        | r ∷ rs ↦ some (record { root = clean (c ∷ cs); rules = r ∷ rs })
      ]
    ]
  ]

  unfoldable pub load_all : List Bytes → List WorkspaceGitignore
  unfolding load_workspace_gitignore
  load_all [] = []
  load_all (uri ∷ uris) =
      let rest = load_all uris in
      elim (load_workspace_gitignore uri) [ none ↦ rest | some m ↦ m ∷ rest ]

  -- The folders are given by their URIs.
  unfoldable pub build_diagnostics_path_exclusions :
      Dict (List Bytes) → List Bytes → DiagnosticsPathExclusions
  unfolding build_explicit load_all
  build_diagnostics_path_exclusions config folders = record {
    explicit = build_explicit to_slash config;
    gitignores = load_all folders;
  }
