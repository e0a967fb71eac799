-- ===== src/Exclusions/Suppression.antt =====
-- server/providers/diagnostics_exclusions.go: the filter against the rules read one by one.
use mathlib.Core.List.{Permᴰ}
use vscode_php_strom.Base.{
  ◌≡◌, refl, ap, sym, ◌∙◌, Bool, true, false, not, ◌&&◌, ◌||◌, Option, List, [], ◌∷◌, ◌++◌, arith,
  ◌==◌, if◌then◌else◌, length, inl, inr, Bool-cases,
}
use vscode_php_strom.Dict.{Dict}
use vscode_php_strom.Lsp.{Diagnostic}
use vscode_php_strom.Text.{Bytes}
use vscode_php_strom.Exclusions.{
  DiagnosticPathRule, WorkspaceGitignore, DiagnosticsPathExclusions, contains_code, code_of,
  filter_codes, build_explicit, match_simple,
}
use vscode_php_strom.Exclusions.Filter.{matches_gitignore, match_explicit, filter_found, filter}

-- The diagnostics that a test keeps.
abbrev pub keep : (Diagnostic → Bool) → List Diagnostic → List Diagnostic
keep f [] = []
keep f (d ∷ ds) = if f d then d ∷ keep f ds else keep f ds

contains_code-append :
    (a b : List Bytes) (code : Bytes)
    → contains_code (a ++ b) code ≡ (contains_code a code || contains_code b code)
contains_code-append [] b code = refl
contains_code-append (c ∷ a) b code = ground (arith, contains_code-append a b code)

contains_code-empty :
    (cs : List Bytes) (code : Bytes) → (length cs == 0) ≡ true → contains_code cs code ≡ false
contains_code-empty [] code h = refl
contains_code-empty (c ∷ cs) code h = ground (arith, h)

filter_codes_lem :
    (suppressed : List Bytes) (ds : List Diagnostic)
    → filter_codes suppressed ds ≡ keep (λ d. not (contains_code suppressed (code_of d))) ds
unfolding filter_codes
filter_codes_lem suppressed [] = refl
filter_codes_lem suppressed (d ∷ ds) = elim (Bool-cases (contains_code suppressed (code_of d))) [
  | inl e ↦ rw e (filter_codes_lem suppressed ds)
  | inr e ↦ rw e (ap (λ xs. d ∷ xs) (filter_codes_lem suppressed ds))
]

keep_ext :
    (f g : Diagnostic → Bool) (ds : List Diagnostic)
    → ((d : Diagnostic) → f d ≡ g d)
    → keep f ds ≡ keep g ds
keep_ext f g [] h = refl
keep_ext f g (d ∷ ds) h = rw (h d, keep_ext f g ds h)

keep_all : (ds : List Diagnostic) → keep (λ d. true) ds ≡ ds
keep_all [] = refl
keep_all (d ∷ ds) = rw (keep_all ds)

-- The shortcut for no suppressed codes returns what the loop would.
filter_codes-empty :
    (suppressed : List Bytes) (ds : List Diagnostic)
    → (length suppressed == 0) ≡ true
    → ds ≡ filter_codes suppressed ds
filter_codes-empty suppressed ds h =
    sym (keep_all ds)
    ∙ keep_ext _ _ ds (λ d. sym (ap not (contains_code-empty suppressed (code_of d) h)))
    ∙ sym (filter_codes_lem suppressed ds)

module _ (path_match : Bytes → Bytes → Option Bool) (to_slash : Bytes → Bytes) where
  -- Some rule that matches the file ignores every code.
  abbrev pub excluded_by : List DiagnosticPathRule → Bytes → Bool
  excluded_by [] filename = false
  excluded_by (rule ∷ rules) filename =
      match_simple path_match to_slash rule.pattern filename && rule.ignore_all
      || excluded_by rules filename

  -- Some rule that matches the file lists the code.
  abbrev pub suppressed_by : List DiagnosticPathRule → Bytes → Bytes → Bool
  suppressed_by [] filename code = false
  suppressed_by (rule ∷ rules) filename code =
      match_simple path_match to_slash rule.pattern filename && contains_code rule.codes code
      || suppressed_by rules filename code

  match_explicit-excluded :
      (rules : List DiagnosticPathRule) (filename : Bytes) (suppressed : List Bytes)
      → (match_explicit path_match to_slash rules filename suppressed).0
        ≡ excluded_by rules filename
  unfolding match_explicit
  match_explicit-excluded [] filename suppressed = refl
  match_explicit-excluded (rule ∷ rules) filename suppressed = ground (
    arith,
    match_explicit-excluded rules filename suppressed,
    match_explicit-excluded rules filename (suppressed ++ rule.codes),
  )

  match_explicit-suppressed :
      (rules : List DiagnosticPathRule) (filename : Bytes) (suppressed : List Bytes) (code : Bytes)
      → excluded_by rules filename ≡ false
      → contains_code (match_explicit path_match to_slash rules filename suppressed).1 code
        ≡ (contains_code suppressed code || suppressed_by rules filename code)
  unfolding match_explicit
  match_explicit-suppressed [] filename suppressed code h = ground arith
  match_explicit-suppressed (rule ∷ rules) filename suppressed code h =
      let skip = match_explicit-suppressed rules filename suppressed code in
      let more = match_explicit-suppressed rules filename (suppressed ++ rule.codes) code in
      let both = contains_code-append suppressed rule.codes code in
      elim (Bool-cases (match_simple path_match to_slash rule.pattern filename)) [
        | inr e ↦ rw (e, match_explicit) (skip (ground (arith, e, h)))
        | inl e ↦
            let not_all : rule.ignore_all ≡ false = ground (arith, e, h) in
            let later : excluded_by rules filename ≡ false = ground (arith, e, h) in
            elim (Bool-cases (length rule.codes == 0)) [
              | inl f ↦
                  rw (e, match_explicit)
                    (rw (not_all, match_explicit)
                      (rw (f, contains_code-empty rule.codes code f) (skip later)))
              | inr f ↦
                  rw (e, match_explicit)
                    (rw (not_all, match_explicit) (rw f (ground (arith, more later, both))))
            ]
      ]

  -- The code of a diagnostic is not among the suppressed ones.
  abbrev pub is_kept : List DiagnosticPathRule → Bytes → Diagnostic → Bool
  is_kept rules filename d = not (suppressed_by rules filename (code_of d))

  filter_codes-match_explicit :
      (rules : List DiagnosticPathRule) (filename : Bytes) (ds : List Diagnostic)
      → excluded_by rules filename ≡ false
      → filter_codes (match_explicit path_match to_slash rules filename []).1 ds
        ≡ keep (is_kept rules filename) ds
  filter_codes-match_explicit rules filename ds h =
      filter_codes_lem (match_explicit path_match to_slash rules filename []).1 ds
      ∙ keep_ext _ _ ds (λ d. ap not (match_explicit-suppressed rules filename [] (code_of d) h))

module _ (path_match : Bytes → Bytes → Option Bool) (to_slash clean : Bytes → Bytes)
    (rel_path : Bytes → Bytes → Option Bytes) where
  -- Whether a file is excluded as a whole.
  abbrev pub is_excluded : DiagnosticsPathExclusions → Bytes → Bool
  is_excluded e filename =
      matches_gitignore path_match to_slash clean rel_path e.gitignores filename
      || excluded_by path_match to_slash e.explicit filename

  filter_found_lem :
      (e : DiagnosticsPathExclusions) (filename : Bytes) (ds : List Diagnostic)
      → filter_found path_match to_slash clean rel_path e filename ds ≡ (
          if is_excluded e filename
          then []
          else keep (is_kept path_match to_slash e.explicit filename) ds)
  unfolding filter_found
  filter_found_lem e filename ds =
      let excluded = match_explicit-excluded path_match to_slash e.explicit filename [] in
      let codes = filter_codes-match_explicit path_match to_slash e.explicit filename ds in
      let shortcut =
        filter_codes-empty (match_explicit path_match to_slash e.explicit filename []).1 ds in
      ground (arith, excluded, codes, shortcut)

  -- What the filter of a file sends: nothing where a .gitignore or a rule without codes excludes the file,
  -- and else the diagnostics, in their order, whose code no matching rule lists.
  pub filter_lem :
      (e : DiagnosticsPathExclusions) (filename : Bytes) (ds : List Diagnostic)
      → filter path_match to_slash clean rel_path e filename ds ≡ (
          if is_excluded e filename
          then []
          else keep (is_kept path_match to_slash e.explicit filename) ds)
  unfolding filter
  filter_lem e filename [] = ground arith
  filter_lem e filename (d ∷ ds) = filter_found_lem e filename (d ∷ ds)

-- The order in which a Go map is ranged over.
module _ (path_match : Bytes → Bytes → Option Bool) (to_slash : Bytes → Bytes) where
  excluded_by-Permᴰ :
      {m n : Dict (List Bytes)} (filename : Bytes)
      → Permᴰ m n
      → excluded_by path_match to_slash (build_explicit to_slash m) filename
        ≡ excluded_by path_match to_slash (build_explicit to_slash n) filename
  unfolding build_explicit
  excluded_by-Permᴰ filename Permᴰ.nil = refl
  excluded_by-Permᴰ filename (Permᴰ.cons e p) = rw (e, excluded_by-Permᴰ filename p)
  excluded_by-Permᴰ filename (Permᴰ.swap e f) = rw (e, f) (ground arith)
  excluded_by-Permᴰ filename (Permᴰ.trans p q) =
      excluded_by-Permᴰ filename p ∙ excluded_by-Permᴰ filename q

  suppressed_by-Permᴰ :
      {m n : Dict (List Bytes)} (filename code : Bytes)
      → Permᴰ m n
      → suppressed_by path_match to_slash (build_explicit to_slash m) filename code
        ≡ suppressed_by path_match to_slash (build_explicit to_slash n) filename code
  unfolding build_explicit
  suppressed_by-Permᴰ filename code Permᴰ.nil = refl
  suppressed_by-Permᴰ filename code (Permᴰ.cons e p) = rw (e, suppressed_by-Permᴰ filename code p)
  suppressed_by-Permᴰ filename code (Permᴰ.swap e f) = rw (e, f) (ground arith)
  suppressed_by-Permᴰ filename code (Permᴰ.trans p q) =
      suppressed_by-Permᴰ filename code p ∙ suppressed_by-Permᴰ filename code q

-- The result does not depend on the order in which the rules of the setting, a Go map, are ranged over.
pub filter-order :
    (path_match : Bytes → Bytes → Option Bool) (to_slash clean : Bytes → Bytes)
    (rel_path : Bytes → Bytes → Option Bytes) {m n : Dict (List Bytes)}
    (gitignores : List WorkspaceGitignore) (filename : Bytes) (ds : List Diagnostic)
    → Permᴰ m n
    → filter path_match to_slash clean rel_path
        (record { explicit = build_explicit to_slash m; gitignores = gitignores })
        filename
        ds
      ≡ filter path_match to_slash clean rel_path
          (record { explicit = build_explicit to_slash n; gitignores = gitignores })
          filename
          ds
filter-order path_match to_slash clean rel_path {m} {n} gitignores filename ds p =
    let one : DiagnosticsPathExclusions = record {
      explicit = build_explicit to_slash m;
      gitignores = gitignores;
    } in
    let other : DiagnosticsPathExclusions = record {
      explicit = build_explicit to_slash n;
      gitignores = gitignores;
    } in
    let kept =
      keep_ext (is_kept path_match to_slash one.explicit filename)
        (is_kept path_match to_slash other.explicit filename) ds
        (λ d. ap not (suppressed_by-Permᴰ path_match to_slash filename (code_of d) p)) in
    let excluded = excluded_by-Permᴰ path_match to_slash filename p in
    filter_lem path_match to_slash clean rel_path one filename ds
    ∙ rw (excluded, kept) (sym (filter_lem path_match to_slash clean rel_path other filename ds))
