-- ===== src/Completion/Members.antt =====
-- server/providers/completion.go: the members of a class, and the items that Provide gives. The store is
-- there, and holds what IndexDocument put into it.
use vscode_php_strom.Base.{
  ℕ, suc, ◌<◌, arith, Bool, true, false, not, ◌&&◌, ◌||◌, Option, none, some, List, [], ◌∷◌, ◌++◌,
  ◌==◌, leb, if◌then◌else◌, length, take,
}
use vscode_php_strom.Index.{
  Index, Symbol, SymbolKind, kind_method, kind_property, kind_constructor, kind_constant,
  kind_field, kind_enum_member,
}
use vscode_php_strom.Index.Queries.{get_by_uri, search}
use vscode_php_strom.Exclusions.{contains_code}
use vscode_php_strom.Server.Number.{ℤ, pos, negsuc}
use vscode_php_strom.Lsp.{CompletionItem}
use vscode_php_strom.Text.{Bytes, codes, has_prefix}
use vscode_php_strom.Analysis.Resolver.{resolve_class_symbol}
use vscode_php_strom.Analysis.Lineage.{class_lineage}
use vscode_php_strom.Completion.{
  member_matches_access, member_kind_rank, symbol_to_completion_item, php_keyword_completions,
}

unfoldable pub max_items : ℤ → ℕ
max_items (pos n) = if n == 0 then 100 else n
max_items (negsuc n) = 100

pub max_items_positive : (setting : ℤ) → 0 < max_items setting
unfolding max_items
max_items_positive (pos n) = ground arith
max_items_positive (negsuc n) = omega arith

unfoldable pub is_member_kind : SymbolKind → Bool
is_member_kind kind =
    kind == kind_method
    || kind == kind_constructor
    || kind == kind_property
    || kind == kind_field
    || kind == kind_constant
    || kind == kind_enum_member

-- The names that were seen, and the members in the order in which they were found.
abbrev pub Found : Type 0
Found = List Bytes × List Symbol

module _ (lower : Bytes → Bytes) where
  -- One round of the loop over the symbols of a file.
  unfoldable pub collect_member : Bytes → Symbol → Found → Found
  unfolding is_member_kind has_prefix
  collect_member member_prefix sym found =
      if not (has_prefix member_prefix (lower sym.fqn))
      then found
      else if not (is_member_kind sym.kind)
      then found
      else if contains_code found.0 (lower sym.name)
      then found
      else (lower sym.name ∷ found.0, found.1 ++ sym ∷ [])

  unfoldable pub collect_from : Bytes → List Symbol → Found → Found
  unfolding collect_member
  collect_from member_prefix [] found = found
  collect_from member_prefix (sym ∷ symbols) found =
      collect_from member_prefix symbols (collect_member member_prefix sym found)

module _ (lower trim_space : Bytes → Bytes) (equal_fold : Bytes → Bytes → Bool)
    (sort_stable : (Symbol → Symbol → Bool) → List Symbol → List Symbol) (idx : Index) where
  unfoldable pub collect_class : Bytes → Found → Found
  unfolding resolve_class_symbol get_by_uri collect_from
  collect_class ancestor found =
      elim (resolve_class_symbol lower trim_space equal_fold sort_stable idx ancestor) [
        | none ↦ found
        | some class_sym ↦
            collect_from lower (lower (class_sym.fqn ++ codes "::")) (get_by_uri idx class_sym.uri)
              found
      ]

  unfoldable pub collect_classes : List Bytes → Found → Found
  unfolding collect_class
  collect_classes [] found = found
  collect_classes (ancestor ∷ lineage) found =
      collect_classes lineage (collect_class ancestor found)

  -- `none` is for a lack of fuel.
  unfoldable pub class_member_symbols : ℕ → Bytes → Option (List Symbol)
  unfolding class_lineage collect_classes
  class_member_symbols fuel [] = some []
  class_member_symbols fuel (c ∷ cs) =
      elim (class_lineage lower trim_space equal_fold sort_stable idx fuel (c ∷ cs)) [
        | none ↦ none
        | some lineage ↦ some (collect_classes lineage ([], [])).1
      ]

module _ (lower : Bytes → Bytes) where
  unfoldable pub member_item : Symbol → CompletionItem
  unfolding symbol_to_completion_item member_kind_rank
  member_item sym = record (symbol_to_completion_item sym) {
    sort_text = codes "0_" ++ (member_kind_rank sym.kind ++ lower sym.name);
  }

  unfoldable pub symbol_item : Symbol → CompletionItem
  unfolding symbol_to_completion_item
  symbol_item sym = record (symbol_to_completion_item sym) {
    sort_text = codes "1_" ++ lower sym.name;
  }

  -- A member that the access sees and whose name starts with the word.
  unfoldable pub member_fits : (Bytes → Bytes → Bool) → Bool → Bool → Bytes → Symbol → Bool
  unfolding member_matches_access has_prefix
  member_fits equal_fold static from_this word sym =
      if not (member_matches_access equal_fold sym static from_this)
      then false
      else if not (length word == 0) && not (has_prefix (lower word) (lower sym.name))
      then false
      else true

  -- The loop over the members, after `count` items.
  unfoldable pub member_loop : (Symbol → Bool) → ℤ → ℕ → List Symbol → List CompletionItem
  unfolding member_item
  member_loop fits setting count [] = []
  member_loop fits setting count (sym ∷ symbols) = elim (fits sym) [
    | false ↦ member_loop fits setting count symbols
    | true ↦ elim (leb (max_items setting) (suc count)) [
      | true ↦ member_item sym ∷ []
      | false ↦ member_item sym ∷ member_loop fits setting (suc count) symbols
    ]
  ]

  -- The loop over the symbols of a search, and whether it returned.
  unfoldable pub symbol_loop : ℤ → ℕ → List Symbol → List CompletionItem × Bool
  unfolding symbol_item
  symbol_loop setting count [] = ([], false)
  symbol_loop setting count (sym ∷ symbols) = elim (leb (max_items setting) (suc count)) [
    | true ↦ (symbol_item sym ∷ [], true)
    | false ↦
        let rest = symbol_loop setting (suc count) symbols in (symbol_item sym ∷ rest.0, rest.1)
  ]

  -- The keywords after the symbols, unless their loop returned.
  unfoldable pub with_keywords :
      ℤ → List CompletionItem × Bool → List CompletionItem → List CompletionItem
  with_keywords setting looped keyword_items =
      let items = looped.0 ++ keyword_items in
      if looped.1
      then looped.0
      else if leb (max_items setting) (length items)
      then take (max_items setting) items
      else items

  -- Provide where there is no access to a member.
  unfoldable pub provide_symbols : Index → ℤ → Bytes → List CompletionItem
  unfolding with_keywords symbol_loop search php_keyword_completions
  provide_symbols idx setting word =
      let found : List Symbol = if length word == 0 then [] else search lower idx word in
      with_keywords setting (symbol_loop setting 0 found) (php_keyword_completions lower word)
