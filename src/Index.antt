-- ===== src/Index.antt =====
-- server/indexer/symbol.go and server/indexer/index.go: symbols, and the sharded store of them. The
-- folding of letters, strings.ToLower, is a parameter. An operation is one step: how two writers
-- interleave is not modelled. PutFile and RemoveFile collect their entries by shard so that a shard is
-- locked once; no entry is in two shards, and here they are taken in the order of the file.
pub mod Update
pub mod Queries
pub mod ByFqn
pub mod Listed
pub mod ByUri
mod Tests
use Prim.Native.Nat.{bit_xor}
use vscode_php_strom.Base.{
  ℕ, zero, suc, ◌+◌, ◌*◌, ◌%◌, ◌^◌, Bool, true, false, Option, none, some, List, [], ◌∷◌, ◌==◌,
  if◌then◌else◌,
}
use vscode_php_strom.Dict
use vscode_php_strom.Dict.{Dict}
use vscode_php_strom.Text.{Bytes, has_prefix}

abbrev pub SymbolKind : Type 0
SymbolKind = ℕ

abbrev pub kind_module : SymbolKind
kind_module = 2

abbrev pub kind_class : SymbolKind
kind_class = 5

abbrev pub kind_method : SymbolKind
kind_method = 6

abbrev pub kind_property : SymbolKind
kind_property = 7

abbrev pub kind_constructor : SymbolKind
kind_constructor = 9

abbrev pub kind_enum : SymbolKind
kind_enum = 10

abbrev pub kind_interface : SymbolKind
kind_interface = 11

abbrev pub kind_constant : SymbolKind
kind_constant = 14

abbrev pub kind_function : SymbolKind
kind_function = 12

abbrev pub kind_field : SymbolKind
kind_field = 8

abbrev pub kind_enum_member : SymbolKind
kind_enum_member = 22

abbrev pub kind_struct : SymbolKind
kind_struct = 23

pub record GenericParent : Type 0 where
  pub fqn : Bytes
  pub type_arguments : List Bytes

pub record SymbolParam : Type 0 where
  pub name : Bytes
  pub type : Bytes
  pub type_fqn : Bytes
  pub has_default : Bool
  pub is_variadic : Bool
  pub is_pass_by_ref : Bool

-- The fields but those that lead back to the syntax tree.
pub record Symbol : Type 0 where
  pub fqn : Bytes
  pub name : Bytes
  pub kind : SymbolKind
  pub namespace : Bytes
  pub uri : Bytes
  pub start_line : ℕ
  pub start_char : ℕ
  pub end_line : ℕ
  pub end_char : ℕ
  pub extends : List Bytes
  pub implements : List Bytes
  pub traits : List Bytes
  pub templates : List Bytes
  pub generic_parents : List GenericParent
  pub doc_comment : Bytes
  pub return_type : Bytes
  pub type : Bytes
  pub params : List SymbolParam
  pub type_fqn : Bytes
  pub is_static : Bool
  pub is_abstract : Bool
  pub is_final : Bool
  pub is_readonly : Bool
  pub visibility : Bytes
  pub set_visibility : Bytes

pub record Shard : Type 0 where
  pub by_fqn : Dict Symbol
  pub by_owner_lower : Dict (Dict Symbol)

pub record Index : Type 0 where
  pub shards : ℕ → Shard
  pub name_shards : ℕ → Dict (List Symbol)
  pub uri_to_fqns : Dict (List Bytes)

abbrev pub shard_count : ℕ
shard_count = 64

unfoldable pub new_index : Index
new_index = record {
  shards = λ _. record { by_fqn = []; by_owner_lower = [] };
  name_shards = λ _. [];
  uri_to_fqns = [];
}

-- `h ^= c; h *= 16777619` on 32 bits, byte after byte.
unfoldable pub fnv32_from : ℕ → Bytes → ℕ
fnv32_from h [] = h
fnv32_from h (c ∷ cs) = fnv32_from (bit_xor h c * 16777619 % 2 ^ 32) cs

unfoldable pub fnv32 : Bytes → ℕ
unfolding fnv32_from
fnv32 s = fnv32_from 2166136261 s

-- The number of the shard of a key, for `shards` and for `name_shards`.
unfoldable pub shard_for : Bytes → ℕ
unfolding fnv32
shard_for key = fnv32 key % shard_count

-- The text before the first "::".
unfoldable pub before_colons : Bytes → Option Bytes
unfolding has_prefix
before_colons [] = none
before_colons (c ∷ cs) =
    let rest = before_colons cs in
    if has_prefix (b':' ∷ b':' ∷ []) (c ∷ cs)
    then some []
    else elim rest [ none ↦ none | some owner ↦ some (c ∷ owner) ]

-- One entry of an array replaced.
abbrev pub update {ℓ} : {A : Type ℓ} → (ℕ → A) → ℕ → A → ℕ → A
update f k a j = if j == k then a else f j

module _ (lower : Bytes → Bytes) where
  unfoldable pub symbol_owner_lower : Bytes → Option Bytes
  symbol_owner_lower fqn = elim (before_colons fqn) [
    | none ↦ none
    | some owner ↦ some (lower owner)
  ]
