-- ===== src/Index/Queries.antt =====
-- server/indexer/index.go: the readers. A Go map is ranged over in an order that is left open; here in
-- the order of the association list.
use vscode_php_strom.Base.{
  ℕ, zero, suc, ◌+◌, Bool, ◌&&◌, Option, none, some, List, [], ◌∷◌, ◌++◌, ◌==◌, if◌then◌else◌,
  length,
}
use vscode_php_strom.Dict
use vscode_php_strom.Dict.{Dict}
use vscode_php_strom.Text.{Bytes, contains_text}
use vscode_php_strom.Index.{Symbol, SymbolKind, Index, shard_count, shard_for}
use vscode_php_strom.Index.Update.{or_empty}

abbrev pub values {ℓ} : {V : Type ℓ} → Dict V → List V
values [] = []
values ((_, v) ∷ m) = v ∷ values m

unfoldable pub get_by_fqn : Index → Bytes → Option Symbol
get_by_fqn idx fqn = Dict.lookup fqn (idx.shards (shard_for fqn)).by_fqn

-- The symbols behind the FQNs of a file that are still in the store.
unfoldable pub found_fqns : Index → List Bytes → List Symbol
unfolding get_by_fqn
found_fqns idx [] = []
found_fqns idx (fqn ∷ rest) =
    let all = found_fqns idx rest in elim (get_by_fqn idx fqn) [ none ↦ all | some sym ↦ sym ∷ all ]

unfoldable pub get_by_uri : Index → Bytes → List Symbol
get_by_uri idx uri = found_fqns idx (or_empty (Dict.lookup uri idx.uri_to_fqns))

-- The loop over the first `n` shards.
unfoldable pub size_below : Index → ℕ → ℕ
size_below idx zero = 0
size_below idx (suc n) = size_below idx n + length (idx.shards n).by_fqn

unfoldable pub size : Index → ℕ
unfolding size_below
size idx = size_below idx shard_count

unfoldable pub symbols_below : Index → ℕ → List Symbol
symbols_below idx zero = []
symbols_below idx (suc n) = symbols_below idx n ++ values (idx.shards n).by_fqn

unfoldable pub all_symbols : Index → List Symbol
unfolding symbols_below
all_symbols idx = symbols_below idx shard_count

unfoldable pub first_member :
    (Bytes → Bytes → Bool) → Bytes → SymbolKind → List Symbol → Option Symbol
first_member equal_fold name kind [] = none
first_member equal_fold name kind (sym ∷ rest) =
    if sym.kind == kind && equal_fold sym.name name
    then some sym
    else first_member equal_fold name kind rest

module _ (lower : Bytes → Bytes) where
  unfoldable pub names_containing : Bytes → List Symbol → List Symbol
  unfolding contains_text
  names_containing query [] = []
  names_containing query (sym ∷ rest) =
      let results = names_containing query rest in
      if contains_text (lower sym.name) query then sym ∷ results else results

  unfoldable pub search : Index → Bytes → List Symbol
  unfolding names_containing all_symbols
  search idx query = names_containing (lower query) (all_symbols idx)

  unfoldable pub get_by_name : Index → Bytes → List Symbol
  get_by_name idx name =
      let name_lower = lower name in
      or_empty (Dict.lookup name_lower (idx.name_shards (shard_for name_lower)))

  -- The members of an owner, by FQN.
  unfoldable pub members_of : Index → Bytes → Dict Symbol
  members_of idx owner_lower =
      or_empty (Dict.lookup owner_lower (idx.shards (shard_for owner_lower)).by_owner_lower)

  unfoldable pub methods_by_owner : Index → Bytes → List Symbol
  unfolding members_of
  methods_by_owner idx owner_fqn = values (members_of idx (lower owner_fqn))

  -- strings.EqualFold is a parameter.
  unfoldable pub member_by_owner :
      (Bytes → Bytes → Bool) → Index → Bytes → Bytes → SymbolKind → Option Symbol
  unfolding members_of first_member
  member_by_owner equal_fold idx owner_fqn name kind =
      first_member equal_fold name kind (values (members_of idx (lower owner_fqn)))
