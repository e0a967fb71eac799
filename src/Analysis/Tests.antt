-- ===== src/Analysis/Tests.antt =====
-- Runs of server/providers/diagnostics.go at concrete inputs.
use vscode_php_strom.Base.{
  ◌≡◌, refl, ap, sym, ◌∙◌, arith, Bool, true, false, not, Option, none, some, List, [], ◌∷◌, inl,
  inr, Bool-cases, Option-cases, List-cases,
}
use vscode_php_strom.Dict.{lookup}
use vscode_php_strom.Index.{Index, Symbol, kind_class}
use vscode_php_strom.Index.Queries.{get_by_fqn, get_by_name}
use vscode_php_strom.Lsp.{Diagnostic}
use vscode_php_strom.Text.{Bytes, codes, beq}
use vscode_php_strom.Text.Split.{split_byte}
use vscode_php_strom.Analysis.{collect_inline_diagnostic_suppressions, filter_suppressed}
use vscode_php_strom.Ignore.Parse.{has_byte}
use vscode_php_strom.Analysis.Inline.{keep_if, suppressed_at, filter_suppressed-collect}
use vscode_php_strom.Analysis.Ranking.{
  is_class_like_kind, exact_matches, class_like, prioritize_definition_matches, sort_symbols,
  unqualified_name,
}
use vscode_php_strom.Analysis.Resolver.{
  first_by_fqn, resolve_class_symbol, resolve_workspace_type_candidates,
}
use vscode_php_strom.Analysis.Lineage.{parents, parents_of, class_lineage}
use vscode_php_strom.Analysis.Ends.{all_known, class_lineage-ends}

abbrev same : Bytes → Bytes
same s = s

abbrev problem : Diagnostic
problem = record {
  range = record {
    start = record { line = 1; character = 0 };
    end = record { line = 1; character = 1 };
  };
  severity = none;
  code = none;
  source = [];
  message = codes "m";
  tags = [];
}

abbrev commented : Bytes
commented = codes "// @phpstan-ignore-next-line\nf();"

filter_suppressed-collect_example :
    filter_suppressed (collect_inline_diagnostic_suppressions same commented) (problem ∷ [])
    ≡ keep_if
        (λ d. not (suppressed_at same (split_byte b'\n' commented) d.range.start.line))
        (problem ∷ [])
unfolding split_byte
filter_suppressed-collect_example =
    filter_suppressed-collect same commented (problem ∷ []) (omega arith)

-- The marker for the next line holds the marker for its own.
own_line_run :
    collect_inline_diagnostic_suppressions same (codes "// @psalm-suppress-next-line") ≡ 0 ∷ 1 ∷ []
unfolding collect_inline_diagnostic_suppressions
own_line_run = refl

abbrev class_of : Bytes → Bytes → Symbol
class_of fqn parent = record {
  fqn = fqn;
  name = fqn;
  kind = kind_class;
  namespace = [];
  uri = codes "u";
  start_line = 0;
  start_char = 0;
  end_line = 0;
  end_char = 0;
  extends = parent ∷ [];
  implements = [];
  traits = [];
  templates = [];
  generic_parents = [];
  doc_comment = [];
  return_type = [];
  type = [];
  params = [];
  type_fqn = [];
  is_static = false;
  is_abstract = false;
  is_final = false;
  is_readonly = false;
  visibility = [];
  set_visibility = [];
}

-- Two classes that extend each other.
abbrev cyclic : Index
cyclic = record {
  shards = λ _. record {
    by_fqn =
        (codes "\\A", class_of (codes "\\A") (codes "\\B"))
        ∷ (codes "\\B", class_of (codes "\\B") (codes "\\A"))
        ∷ [];
    by_owner_lower = [];
  };
  name_shards = λ _. [];
  uri_to_fqns = [];
}

abbrev known : List Bytes
known = codes "\\A" ∷ codes "\\B" ∷ []

abbrev parents_or_none : Option Symbol → List Bytes
parents_or_none none = []
parents_or_none (some s) = parents s

found_known :
    (candidates : List Bytes)
    → all_known known (parents_or_none (first_by_fqn is_class_like_kind cyclic candidates)) ≡ true
unfolding first_by_fqn get_by_fqn lookup is_class_like_kind beq
found_known [] = refl
found_known (c ∷ candidates) = elim (Bool-cases (beq (codes "\\A") c)) [
  | inl e ↦ rw e refl
  | inr e ↦ elim (Bool-cases (beq (codes "\\B") c)) [
    | inl f ↦ rw (e, f) refl
    | inr f ↦ rw (e, f) (found_known candidates)
  ]
]

abbrev unsorted : (Symbol → Symbol → Bool) → List Symbol → List Symbol
unsorted less symbols = symbols

cyclic_closed :
    (name : Bytes) → all_known known (parents_of same same beq unsorted cyclic name) ≡ true
unfolding parents_of resolve_class_symbol get_by_name prioritize_definition_matches exact_matches
    class_like sort_symbols lookup
cyclic_closed name =
    let candidates = resolve_workspace_type_candidates same name in
    elim (Option-cases (first_by_fqn is_class_like_kind cyclic candidates)) [
      | inr (s, e) ↦
          let found : all_known known (parents s) ≡ true =
            ap (λ o. all_known known (parents_or_none o)) (sym e) ∙ found_known candidates in
          rw (e, parents_of, resolve_class_symbol) found
      | inl e ↦ elim (Bool-cases (has_byte b'\\' name)) [
        | inl f ↦ rw (e, parents_of, resolve_class_symbol) (rw (f, resolve_class_symbol) refl)
        | inr f ↦ elim (List-cases (unqualified_name name)) [
          | inl g ↦
              rw (e, parents_of, resolve_class_symbol)
                (rw (f, resolve_class_symbol) (rw (g, resolve_class_symbol) refl))
          | inr (c, cs, g) ↦
              rw (e, parents_of, resolve_class_symbol)
                (rw (f, resolve_class_symbol) (rw (g, resolve_class_symbol) refl))
        ]
      ]
    ]

class_lineage-ends_example :
    (lineage : List Bytes) × (class_lineage same same beq unsorted cyclic 3 (codes "\\A")
      ≡ some lineage)
unfolding beq
class_lineage-ends_example =
    class_lineage-ends same same beq unsorted cyclic known (codes "\\A") refl cyclic_closed
