-- ===== src/Analysis/Ranking.antt =====
-- server/providers/providers.go: the order of symbols with one name. strings.ToLower and sort.SliceStable
-- are parameters, the second as a function of the test `less`.
use vscode_php_strom.Base.{
  ℕ, Bool, not, ◌&&◌, ◌||◌, Option, none, some, List, [], ◌∷◌, ◌==◌, ltb, if◌then◌else◌,
}
use vscode_php_strom.Index.{
  Symbol, SymbolKind, kind_class, kind_interface, kind_module, kind_enum, kind_constructor,
  kind_method, kind_property, kind_function,
}
use vscode_php_strom.Exclusions.{contains_code}
use vscode_php_strom.PhpVersion.{Comparison, less, equal, greater, is_less, compare_text}
use vscode_php_strom.Text.{Bytes, beq, trim_prefix}

unfoldable pub is_class_like_kind : SymbolKind → Bool
is_class_like_kind kind =
    kind == kind_class || kind == kind_interface || kind == kind_module || kind == kind_enum

unfoldable pub kind_rank : SymbolKind → ℕ
unfolding is_class_like_kind
kind_rank kind =
    if is_class_like_kind kind
    then 0
    else if kind == kind_constructor
    then 1
    else if kind == kind_method
    then 2
    else if kind == kind_property
    then 3
    else if kind == kind_function
    then 4
    else 5

abbrev pub smaller : Bool → Comparison
smaller b = if b then less else greater

-- No symbol is nil.
unfoldable pub compare_symbols : Symbol → Symbol → Comparison
unfolding kind_rank compare_text beq
compare_symbols left right =
    if not (left.kind == right.kind)
    then smaller (ltb (kind_rank left.kind) (kind_rank right.kind))
    else if not (beq left.fqn right.fqn)
    then smaller (is_less (compare_text left.fqn right.fqn))
    else if not (beq left.uri right.uri)
    then smaller (is_less (compare_text left.uri right.uri))
    else if not (left.start_line == right.start_line)
    then smaller (ltb left.start_line right.start_line)
    else if not (left.start_char == right.start_char)
    then smaller (ltb left.start_char right.start_char)
    else equal

-- The symbols with a kind, or of a class.
abbrev pub of_kind : SymbolKind → List Symbol → List Symbol
of_kind kind [] = []
of_kind kind (sym ∷ rest) =
    if not (kind == 0) && sym.kind == kind then sym ∷ of_kind kind rest else of_kind kind rest

unfoldable pub class_like : List Symbol → List Symbol
unfolding is_class_like_kind
class_like [] = []
class_like (sym ∷ rest) =
    let later = class_like rest in if is_class_like_kind sym.kind then sym ∷ later else later

unfoldable pub ensure_leading_slash : Bytes → Bytes
ensure_leading_slash [] = []
ensure_leading_slash (c ∷ cs) = if c == b'\\' then c ∷ cs else b'\\' ∷ c ∷ cs

-- What is behind the last backslash.
unfoldable pub behind_backslash : Bytes → Option Bytes
behind_backslash [] = none
behind_backslash (c ∷ cs) = elim (behind_backslash cs) [
  | some rest ↦ some rest
  | none ↦ if c == b'\\' then some cs else none
]

unfoldable pub unqualified_name : Bytes → Bytes
unfolding trim_prefix behind_backslash
unqualified_name given =
    let name = trim_prefix (b'\\' ∷ []) given in
    elim (behind_backslash name) [ none ↦ name | some rest ↦ rest ]

module _ (lower : Bytes → Bytes)
    (sort_stable : (Symbol → Symbol → Bool) → List Symbol → List Symbol) where
  unfoldable pub sort_symbols : List Symbol → List Symbol
  unfolding compare_symbols
  sort_symbols symbols = sort_stable (λ left right. is_less (compare_symbols left right)) symbols

  -- The symbols with the name, the first of each FQN.
  unfoldable pub exact_matches : Bytes → List Symbol → List Bytes → List Symbol
  unfolding beq
  exact_matches lookup [] seen = []
  exact_matches lookup (sym ∷ symbols) seen =
      let skip = exact_matches lookup symbols seen in
      let add = sym ∷ exact_matches lookup symbols (sym.fqn ∷ seen) in
      if not (beq (lower sym.name) (lower lookup)) || contains_code seen sym.fqn then skip else add

  unfoldable pub prioritize_definition_matches : List Symbol → Bytes → SymbolKind → List Symbol
  unfolding exact_matches sort_symbols class_like
  prioritize_definition_matches symbols lookup prefer_kind =
      let exact = exact_matches lookup symbols [] in
      elim (of_kind prefer_kind exact) [
        | p ∷ ps ↦ sort_symbols (p ∷ ps)
        | [] ↦ elim (class_like exact) [
          | c ∷ cs ↦ sort_symbols (c ∷ cs)
          | [] ↦ elim exact [ e ∷ es ↦ sort_symbols (e ∷ es) | [] ↦ sort_symbols symbols ]
        ]
      ]
