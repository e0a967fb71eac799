-- ===== src/Index/Update.antt =====
-- server/indexer/index.go: PutFile and RemoveFile.
use vscode_php_strom.Base.{Option, none, some, List, [], ◌∷◌, ◌++◌, if◌then◌else◌}
use vscode_php_strom.Dict
use vscode_php_strom.Dict.{Dict}
use vscode_php_strom.Text.{Bytes, beq}
use vscode_php_strom.Index.{Symbol, Index, shard_for, symbol_owner_lower, update}

-- `s.byFQN[sym.FQN] = sym`
unfoldable pub put_fqn : Index → Symbol → Index
put_fqn idx sym =
    let k = shard_for sym.fqn in
    let s = idx.shards k in
    record idx {
      shards = update idx.shards k (record s { by_fqn = Dict.insert sym.fqn sym s.by_fqn });
    }

unfoldable pub put_fqns : Index → List Symbol → Index
unfolding put_fqn
put_fqns idx [] = idx
put_fqns idx (sym ∷ rest) = put_fqns (put_fqn idx sym) rest

abbrev pub or_empty {ℓ} : {A : Type ℓ} → Option (List A) → List A
or_empty none = []
or_empty (some xs) = xs

-- The names and the FQNs in the order of the file.
unfoldable pub fqns_of : List Symbol → List Bytes
fqns_of [] = []
fqns_of (sym ∷ rest) = sym.fqn ∷ fqns_of rest

-- The entries of other files.
unfoldable pub other_files : Bytes → List Symbol → List Symbol
other_files uri [] = []
other_files uri (sym ∷ rest) =
    let kept = other_files uri rest in if beq sym.uri uri then kept else sym ∷ kept

-- `delete(s.byFQN, fqn)`
unfoldable pub delete_fqn : Index → Bytes → Index
delete_fqn idx fqn =
    let k = shard_for fqn in
    let s = idx.shards k in
    record idx { shards = update idx.shards k (record s { by_fqn = Dict.delete fqn s.by_fqn }) }

-- A list that becomes empty is deleted from its map.
abbrev pub put_or_delete {ℓ} : {A : Type ℓ} → Bytes → List A → Dict (List A) → Dict (List A)
put_or_delete key [] m = Dict.delete key m
put_or_delete key (x ∷ xs) m = Dict.insert key (x ∷ xs) m

unfoldable pub drop_name : Bytes → Index → Bytes → Index
unfolding other_files
drop_name uri idx name_lower =
    let k = shard_for name_lower in
    let ns = idx.name_shards k in
    let updated = other_files uri (or_empty (Dict.lookup name_lower ns)) in
    record idx { name_shards = update idx.name_shards k (put_or_delete name_lower updated ns) }

unfoldable pub drop_names : Bytes → Index → List Bytes → Index
unfolding drop_name
drop_names uri idx [] = idx
drop_names uri idx (name ∷ rest) = drop_names uri (drop_name uri idx name) rest

-- `idx.uriToFQNs[uri] = fqns`, or its deletion.
unfoldable pub list_file : Index → Bytes → List Bytes → Index
list_file idx uri fqns = record idx { uri_to_fqns = put_or_delete uri fqns idx.uri_to_fqns }

module _ (lower : Bytes → Bytes) where
  unfoldable pub put_name : Index → Symbol → Index
  put_name idx sym =
      let name_lower = lower sym.name in
      let k = shard_for name_lower in
      let ns = idx.name_shards k in
      let entries = or_empty (Dict.lookup name_lower ns) ++ sym ∷ [] in
      record idx { name_shards = update idx.name_shards k (Dict.insert name_lower entries ns) }

  unfoldable pub put_names : Index → List Symbol → Index
  unfolding put_name
  put_names idx [] = idx
  put_names idx (sym ∷ rest) = put_names (put_name idx sym) rest

  unfoldable pub put_owner : Index → Symbol → Index
  put_owner idx sym = elim (symbol_owner_lower lower sym.fqn) [
    | none ↦ idx
    | some owner ↦
        let k = shard_for owner in
        let s = idx.shards k in
        let members = Dict.insert sym.fqn sym (or_empty (Dict.lookup owner s.by_owner_lower)) in
        record idx {
          shards =
              update idx.shards k
                (record s { by_owner_lower = Dict.insert owner members s.by_owner_lower });
        }
  ]

  unfoldable pub put_owners : Index → List Symbol → Index
  unfolding put_owner
  put_owners idx [] = idx
  put_owners idx (sym ∷ rest) = put_owners (put_owner idx sym) rest

  -- The FQNs of the file, deleted, and the lowered names of the symbols that were there.
  unfoldable pub delete_fqns : Index → List Bytes → Index × List Bytes
  unfolding delete_fqn
  delete_fqns idx [] = (idx, [])
  delete_fqns idx (fqn ∷ rest) = elim (Dict.lookup fqn (idx.shards (shard_for fqn)).by_fqn) [
    | none ↦ delete_fqns idx rest
    | some sym ↦
        let (after, names) = delete_fqns (delete_fqn idx fqn) rest in
        (after, lower sym.name ∷ names)
  ]

  unfoldable pub drop_owner : Index → Bytes → Index
  drop_owner idx fqn = elim (symbol_owner_lower lower fqn) [
    | none ↦ idx
    | some owner ↦
        let k = shard_for owner in
        let s = idx.shards k in
        elim (Dict.lookup owner s.by_owner_lower) [
          | none ↦ idx
          | some members ↦ record idx {
            shards = update idx.shards k (record s {
              by_owner_lower = put_or_delete owner (Dict.delete fqn members) s.by_owner_lower;
            });
          }
        ]
  ]

  unfoldable pub drop_owners : Index → List Bytes → Index
  unfolding drop_owner
  drop_owners idx [] = idx
  drop_owners idx (fqn ∷ rest) = drop_owners (drop_owner idx fqn) rest

  unfoldable pub remove_file : Index → Bytes → Index
  remove_file idx uri = elim (Dict.lookup uri idx.uri_to_fqns) [
    | none ↦ idx
    | some fqns ↦
        let unlisted = record idx { uri_to_fqns = Dict.delete uri idx.uri_to_fqns } in
        let (deleted, names) = delete_fqns unlisted fqns in
        drop_owners (drop_names uri deleted names) fqns
  ]

  unfoldable pub put_file : Index → Bytes → List Symbol → Index
  put_file idx uri symbols =
      let removed = remove_file idx uri in
      let named = put_names (put_fqns removed symbols) symbols in
      list_file (put_owners named symbols) uri (fqns_of symbols)
