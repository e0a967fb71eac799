-- ===== src/Completion.antt =====
-- server/providers/completion.go: the word and the member access before the cursor, and the items. The
-- functions strings.ToLower, strings.TrimSpace and unicode.IsSpace are parameters.
pub mod Members
pub mod Access
pub mod Cursor
pub mod Receiver
pub mod Provide
pub mod Provided
pub mod Offered
pub mod Overrides
mod Tests
use vscode_php_strom.Base.{
  ℕ, zero, suc, ◌-◌, min, Bool, true, false, not, ◌&&◌, ◌||◌, Option, none, some, List, [], ◌∷◌,
  ◌++◌, ◌==◌, leb, ltb, if◌then◌else◌, length, take, drop,
}
use vscode_php_strom.Index.{
  Symbol, SymbolKind, kind_module, kind_class, kind_method, kind_property, kind_constructor,
  kind_enum, kind_interface, kind_constant, kind_function, kind_field, kind_struct,
  kind_enum_member,
}
use vscode_php_strom.Lsp.{Position, MarkupContent, CompletionItem}
use vscode_php_strom.Signature.{is_ident_char, trim_right}
use vscode_php_strom.Text.{Bytes, codes, beq, index_byte, has_prefix, trim_suffix, has_suffix}
use vscode_php_strom.Text.Split.{split_text, replace_all}

abbrev pub until_newline : Bytes → Bytes
until_newline text = elim (index_byte b'\n' text) [ none ↦ text | some i ↦ take i text ]

-- A line number is not negative here.
unfoldable pub line_at : Bytes → ℕ → Option Bytes
unfolding index_byte
line_at text zero = some (until_newline text)
line_at text (suc n) = elim (index_byte b'\n' text) [
  | none ↦ none
  | some i ↦ line_at (drop (suc i) text) n
]

-- The identifier bytes at the end of a text.
unfoldable pub ident_suffix : Bytes → Bytes
unfolding trim_right is_ident_char
ident_suffix s = drop (length (trim_right is_ident_char s)) s

unfoldable pub word_at : Bytes → Position → Bytes
unfolding line_at ident_suffix
word_at text pos = elim (line_at text pos.line) [
  | none ↦ []
  | some line ↦ ident_suffix (take (min pos.character (length line)) line)
]

pub record MemberAccess : Type 0 where
  pub receiver : Bytes
  pub static : Bool

module _ (trim_space trim_right_space : Bytes → Bytes) where
  -- The text before the word, without white space at its end.
  abbrev pub access_in : Bytes → Option MemberAccess
  access_in head =
      if has_suffix (codes "?->") head
      then some (record { receiver = trim_space (take (length head - 3) head); static = false })
      else if has_suffix (codes "->") head
      then some (record { receiver = trim_space (take (length head - 2) head); static = false })
      else if has_suffix (codes "::") head
      then some (record { receiver = trim_space (take (length head - 2) head); static = true })
      else none

  unfoldable pub member_access_at : Bytes → Position → Option MemberAccess
  unfolding line_at word_at
  member_access_at text pos = elim (line_at text pos.line) [
    | none ↦ none
    | some line ↦
        access_in (
          trim_right_space
            (take (min pos.character (length line) - length (word_at text pos)) line))
  ]

module _ (trim_space : Bytes → Bytes) where
  abbrev pub chain_parts : List Bytes → List Bytes
  chain_parts [] = []
  chain_parts (part ∷ parts) =
      let rest = chain_parts parts in
      elim (trim_space part) [ [] ↦ rest | c ∷ cs ↦ trim_suffix (codes "()") (c ∷ cs) ∷ rest ]

  unfoldable pub split_object_chain : Bytes → List Bytes
  unfolding split_text replace_all
  split_object_chain expr = elim (trim_space expr) [
    | [] ↦ []
    | c ∷ cs ↦
        chain_parts (split_text (codes "->") 0 (replace_all (codes "?->") (codes "->") 0 (c ∷ cs)))
  ]

abbrev pub one_of : List Bytes → Bytes → Bool
one_of [] s = false
one_of (t ∷ ts) s = beq s t || one_of ts s

module _ (lower trim_space : Bytes → Bytes) where
  unfoldable pub receiver_is_this : MemberAccess → Bool
  unfolding split_object_chain
  receiver_is_this access =
      let root : Bytes = elim (split_object_chain trim_space access.receiver) [
        | [] ↦ []
        | part ∷ parts ↦ part
      ] in
      one_of (codes "$this" ∷ codes "self" ∷ codes "static" ∷ codes "parent" ∷ []) (lower root)

-- strings.EqualFold is a parameter.
module _ (equal_fold : Bytes → Bytes → Bool) where
  unfoldable pub member_matches_access : Symbol → Bool → Bool → Bool
  member_matches_access sym static_access from_this =
      if not from_this && equal_fold sym.visibility (codes "private")
      then false
      else if not from_this && not static_access && equal_fold sym.visibility (codes "protected")
      then false
      else if sym.kind == kind_method || sym.kind == kind_constructor
      then true
      else if sym.kind == kind_property || sym.kind == kind_field
      then if static_access then sym.is_static else (not sym.is_static || from_this)
      else if sym.kind == kind_constant || sym.kind == kind_enum_member
      then static_access
      else false

unfoldable pub member_kind_rank : SymbolKind → Bytes
member_kind_rank kind =
    if kind == kind_method || kind == kind_constructor
    then codes "m_"
    else if kind == kind_property || kind == kind_field
    then codes "p_"
    else codes "z_"

-- The CompletionItemKind constants.
unfoldable pub item_kind : SymbolKind → ℕ
item_kind kind =
    if kind == kind_class || kind == kind_struct
    then 7
    else if kind == kind_interface
    then 8
    else if kind == kind_function
    then 3
    else if kind == kind_method
    then 2
    else if kind == kind_constructor
    then 4
    else if kind == kind_property
    then 10
    else if kind == kind_field
    then 5
    else if kind == kind_constant
    then 21
    else if kind == kind_enum
    then 13
    else if kind == kind_enum_member
    then 20
    else if kind == kind_module
    then 9
    else 1

unfoldable pub symbol_to_completion_item : Symbol → CompletionItem
unfolding item_kind
symbol_to_completion_item sym = record {
  label = sym.name;
  kind = item_kind sym.kind;
  detail = sym.fqn;
  documentation = some (record { kind = codes "markdown"; value = sym.doc_comment });
  sort_text = [];
}

abbrev pub keywords : List Bytes
keywords =
    codes "abstract"
    ∷ codes "array"
    ∷ codes "as"
    ∷ codes "break"
    ∷ codes "callable"
    ∷ codes "case"
    ∷ codes "catch"
    ∷ codes "class"
    ∷ codes "clone"
    ∷ codes "const"
    ∷ codes "continue"
    ∷ codes "declare"
    ∷ codes "default"
    ∷ codes "do"
    ∷ codes "echo"
    ∷ codes "else"
    ∷ codes "elseif"
    ∷ codes "empty"
    ∷ codes "enum"
    ∷ codes "extends"
    ∷ codes "final"
    ∷ codes "finally"
    ∷ codes "fn"
    ∷ codes "for"
    ∷ codes "foreach"
    ∷ codes "function"
    ∷ codes "global"
    ∷ codes "goto"
    ∷ codes "if"
    ∷ codes "implements"
    ∷ codes "include"
    ∷ codes "include_once"
    ∷ codes "instanceof"
    ∷ codes "interface"
    ∷ codes "isset"
    ∷ codes "list"
    ∷ codes "match"
    ∷ codes "namespace"
    ∷ codes "new"
    ∷ codes "null"
    ∷ codes "print"
    ∷ codes "private"
    ∷ codes "protected"
    ∷ codes "public"
    ∷ codes "readonly"
    ∷ codes "require"
    ∷ codes "require_once"
    ∷ codes "return"
    ∷ codes "self"
    ∷ codes "static"
    ∷ codes "switch"
    ∷ codes "throw"
    ∷ codes "trait"
    ∷ codes "true"
    ∷ codes "false"
    ∷ codes "try"
    ∷ codes "unset"
    ∷ codes "use"
    ∷ codes "var"
    ∷ codes "while"
    ∷ codes "yield"
    ∷ codes "yield from"
    ∷ []

abbrev pub keyword_items : Bytes → List Bytes → List CompletionItem
keyword_items lookup [] = []
keyword_items lookup (kw ∷ kws) =
    let items = keyword_items lookup kws in
    if not (length lookup == 0) && not (has_prefix lookup kw)
    then items
    else record {
      label = kw;
      kind = 14;
      detail = [];
      documentation = none;
      sort_text = codes "9_" ++ kw;
    }
      ∷ items

module _ (lower : Bytes → Bytes) where
  unfoldable pub php_keyword_completions : Bytes → List CompletionItem
  php_keyword_completions given = keyword_items (lower given) keywords
