-- ===== src/Completion/Receiver.antt =====
-- server/providers/completion.go: the class of a receiver, and Provide. What is read from the syntax tree is
-- a parameter: the start of a symbol's range, the name of the enclosing class, the type of a variable.
use vscode_php_strom.Base.{
  ℕ, ◌-◌, Bool, true, false, not, ◌&&◌, ◌||◌, Option, none, some, List, [], ◌∷◌, ◌==◌, leb, ltb,
  if◌then◌else◌, length, take,
}
use vscode_php_strom.Index.{Index, Symbol}
use vscode_php_strom.Index.Queries.{get_by_uri}
use vscode_php_strom.Server.Number.{ℤ}
use vscode_php_strom.Lsp.{Position, CompletionItem, to_u32}
use vscode_php_strom.Text.{Bytes, codes, index_byte, has_prefix, trim_prefix, trim_suffix}
use vscode_php_strom.Text.Split.{split_byte, replace_all}
use vscode_php_strom.Analysis.Ranking.{is_class_like_kind, ensure_leading_slash}
use vscode_php_strom.Analysis.Resolver.{resolve_class_symbol, resolve_class}
use vscode_php_strom.Analysis.Lineage.{resolve_property}
use vscode_php_strom.Completion.{
  MemberAccess, one_of, word_at, member_access_at, split_object_chain, receiver_is_this,
}
use vscode_php_strom.Completion.Members.{
  class_member_symbols, member_fits, member_loop, provide_symbols,
}

-- The range of a symbol starts at a line and a column, from one.
unfoldable pub symbol_start : ℕ × ℕ → Symbol → ℕ × ℕ
unfolding to_u32
symbol_start (line, column) sym =
    if sym.start_line == 0 && sym.start_char == 0 && ltb 0 line
    then (to_u32 (line - 1), to_u32 (column - 1))
    else (sym.start_line, sym.start_char)

unfoldable pub position_before_symbol_start : Position → ℕ × ℕ → Bool
position_before_symbol_start pos (line, char) =
    ltb pos.line line || pos.line == line && ltb pos.character char

unfoldable pub symbol_rank_closer : Symbol → Symbol → Bool
symbol_rank_closer candidate current =
    if ltb current.start_line candidate.start_line
    then true
    else if candidate.start_line == current.start_line
        && leb current.start_char candidate.start_char
    then true
    else false

-- The better of the best symbol so far and one more.
unfoldable pub closer_of : Option Symbol → Symbol → Option Symbol
unfolding symbol_rank_closer
closer_of none sym = some sym
closer_of (some best) sym = if symbol_rank_closer sym best then some sym else some best

module _ (range_start : Symbol → ℕ × ℕ) where
  unfoldable pub class_like_before : Option Symbol → List Symbol → Position → Option Symbol
  unfolding is_class_like_kind symbol_start position_before_symbol_start closer_of
  class_like_before best [] pos = best
  class_like_before best (sym ∷ symbols) pos =
      class_like_before
        (if not (is_class_like_kind sym.kind)
          then best
          else if position_before_symbol_start pos (symbol_start (range_start sym) sym)
          then best
          else closer_of best sym)
        symbols pos

module _ (lower : Bytes → Bytes) where
  unfoldable pub is_completion_scalar_type : Bytes → Bool
  unfolding trim_prefix
  is_completion_scalar_type name =
      one_of
        (codes "array"
          ∷ codes "bool"
          ∷ codes "boolean"
          ∷ codes "callable"
          ∷ codes "false"
          ∷ codes "float"
          ∷ codes "int"
          ∷ codes "integer"
          ∷ codes "iterable"
          ∷ codes "mixed"
          ∷ codes "never"
          ∷ codes "null"
          ∷ codes "object"
          ∷ codes "resource"
          ∷ codes "string"
          ∷ codes "true"
          ∷ codes "void"
          ∷ codes "self"
          ∷ codes "static"
          ∷ codes "parent"
          ∷ [])
        (lower (trim_prefix (b'\\' ∷ []) name))

abbrev pub before_generic : Bytes → Bytes
before_generic part = elim (index_byte b'<' part) [ none ↦ part | some i ↦ take i part ]

module _ (lower trim_space : Bytes → Bytes) where
  unfoldable pub first_class_name : List Bytes → Bytes
  unfolding trim_suffix is_completion_scalar_type ensure_leading_slash
  first_class_name [] = []
  first_class_name (part ∷ parts) =
      let name = trim_suffix (codes "[]") (before_generic (trim_space part)) in
      let rest = first_class_name parts in
      if length name == 0 || is_completion_scalar_type lower name
      then rest
      else ensure_leading_slash name

  unfoldable pub class_name_from_type : Bytes → Bytes
  unfolding first_class_name trim_prefix split_byte replace_all
  class_name_from_type raw = first_class_name (
      split_byte b'|'
        (replace_all (codes "&") (codes "|") 0 (trim_prefix (codes "?") (trim_space raw))))

module _ (lower trim_space : Bytes → Bytes) (equal_fold : Bytes → Bytes → Bool)
    (sort_stable : (Symbol → Symbol → Bool) → List Symbol → List Symbol) (idx : Index)
    (range_start : Symbol → ℕ × ℕ) (uri : Bytes) (pos : Position) (class_in_tree : Bytes)
    (variable_type : Bytes → Bytes) where
  unfoldable pub enclosing_class_name : Bytes
  unfolding class_like_before get_by_uri ensure_leading_slash
  enclosing_class_name = elim (class_like_before range_start none (get_by_uri idx uri) pos) [
    | some sym ↦ sym.fqn
    | none ↦ elim class_in_tree [ [] ↦ [] | c ∷ cs ↦ ensure_leading_slash (c ∷ cs) ]
  ]

  abbrev pub first_or_empty : List Bytes → Bytes
  first_or_empty [] = []
  first_or_empty (name ∷ names) = name

  unfoldable pub enclosing_parent_class_name : Bytes
  unfolding enclosing_class_name resolve_class
  enclosing_parent_class_name = elim enclosing_class_name [
    | [] ↦ []
    | c ∷ cs ↦ elim (resolve_class lower trim_space equal_fold sort_stable idx (c ∷ cs)) [
      | none ↦ []
      | some class ↦ first_or_empty class.extends
    ]
  ]

  -- A variable without a name has no type.
  abbrev pub type_at : Bytes → Bytes
  type_at [] = []
  type_at (c ∷ cs) = variable_type (c ∷ cs)

  unfoldable pub resolve_root_receiver : Bytes → Bytes
  unfolding enclosing_class_name enclosing_parent_class_name has_prefix trim_prefix
      class_name_from_type resolve_class_symbol ensure_leading_slash
  resolve_root_receiver root =
      let word = lower (trim_space root) in
      if one_of (codes "$this" ∷ codes "self" ∷ codes "static" ∷ []) word
      then enclosing_class_name
      else if one_of (codes "parent" ∷ []) word
      then enclosing_parent_class_name
      else if has_prefix (codes "$") root
      then class_name_from_type lower trim_space (type_at (trim_prefix (codes "$") root))
      else if length root == 0
      then []
      else elim (resolve_class_symbol lower trim_space equal_fold sort_stable idx root) [
        | some sym ↦ sym.fqn
        | none ↦ ensure_leading_slash root
      ]

  -- The functions from here on have `none` for a lack of fuel.
  unfoldable pub property_class_name : ℕ → Bytes → Bytes → Option Bytes
  unfolding resolve_property class_name_from_type
  property_class_name fuel class_name property_name =
      if length class_name == 0 || length property_name == 0
      then some []
      else elim (resolve_property lower trim_space equal_fold sort_stable idx fuel class_name
          property_name) [
            | none ↦ none
            | some found ↦ elim found [
              | none ↦ some []
              | some property ↦ some (class_name_from_type lower trim_space property.type)
            ]
          ]

  unfoldable pub property_chain : ℕ → Bytes → List Bytes → Option Bytes
  unfolding property_class_name
  property_chain fuel class_name [] = some class_name
  property_chain fuel class_name (part ∷ parts) = elim (property_class_name fuel class_name part) [
    | none ↦ none
    | some next ↦ elim next [ [] ↦ some [] | c ∷ cs ↦ property_chain fuel (c ∷ cs) parts ]
  ]

  unfoldable pub resolve_receiver_class : ℕ → MemberAccess → Option Bytes
  unfolding split_object_chain resolve_root_receiver property_chain
  resolve_receiver_class fuel access = elim (split_object_chain trim_space access.receiver) [
    | [] ↦ some []
    | root ∷ parts ↦ property_chain fuel (resolve_root_receiver root) parts
  ]

  unfoldable pub members_of_access : ℕ → MemberAccess → Option (List Symbol)
  unfolding resolve_receiver_class class_member_symbols
  members_of_access fuel access = elim (resolve_receiver_class fuel access) [
    | none ↦ none
    | some class_name ↦
        class_member_symbols lower trim_space equal_fold sort_stable idx fuel class_name
  ]

  unfoldable pub member_completions : ℕ → ℤ → MemberAccess → Bytes → Option (List CompletionItem)
  unfolding members_of_access member_fits member_loop receiver_is_this
  member_completions fuel setting access word = elim (members_of_access fuel access) [
    | none ↦ none
    | some members ↦ some (
        member_loop lower
          (member_fits lower equal_fold access.static (receiver_is_this lower trim_space access)
            word)
          setting 0 members)
  ]

  -- Provide with a store that holds the symbols of the document. The white space at the end is taken
  -- off by a parameter.
  unfoldable pub provide_indexed : (Bytes → Bytes) → ℕ → ℤ → Bytes → Option (List CompletionItem)
  unfolding word_at member_access_at member_completions provide_symbols
  provide_indexed trim_right_space fuel setting text =
      elim (member_access_at trim_space trim_right_space text pos) [
        | some access ↦ member_completions fuel setting access (word_at text pos)
        | none ↦ some (provide_symbols lower idx setting (word_at text pos))
      ]
