-- ===== src/Index/Listed.antt =====
-- server/indexer/index.go: how PutFile and RemoveFile change the FQNs that a file lists.
use vscode_php_strom.Base.{
  ◌≡◌, refl, sym, ap, ◌∙◌, false, none, List, [], ◌∷◌, arith, if◌then◌else◌, inl, inr, Option-cases,
  Bool-cases,
}
use vscode_php_strom.Dict
use vscode_php_strom.Dict.{Dict}
use vscode_php_strom.Text.{Bytes, beq, beq_iff, beq_refl}
use vscode_php_strom.Index.{Symbol, Index, shard_for}
use vscode_php_strom.Index.Update.{
  put_fqn, put_fqns, put_name, put_names, put_owner, put_owners, or_empty, fqns_of, delete_fqn,
  delete_fqns, drop_name, drop_names, drop_owner, drop_owners, put_or_delete, remove_file,
  list_file, put_file,
}

-- The FQNs that a file lists.
abbrev pub listed : Index → Bytes → List Bytes
listed idx uri = or_empty (Dict.lookup uri idx.uri_to_fqns)

put_fqns-uri_to_fqns :
    (ss : List Symbol) (idx : Index) → (put_fqns idx ss).uri_to_fqns ≡ idx.uri_to_fqns
unfolding put_fqns put_fqn
put_fqns-uri_to_fqns [] idx = refl
put_fqns-uri_to_fqns (s ∷ ss) idx = put_fqns-uri_to_fqns ss (put_fqn idx s)

drop_names-uri_to_fqns :
    (uri : Bytes) (ns : List Bytes) (idx : Index)
    → (drop_names uri idx ns).uri_to_fqns ≡ idx.uri_to_fqns
unfolding drop_names drop_name
drop_names-uri_to_fqns uri [] idx = refl
drop_names-uri_to_fqns uri (n ∷ ns) idx = drop_names-uri_to_fqns uri ns (drop_name uri idx n)

pub put_or_delete-own :
    (uri : Bytes) (fqns : List Bytes) (m : Dict (List Bytes))
    → or_empty (Dict.lookup uri (put_or_delete uri fqns m)) ≡ fqns
put_or_delete-own uri [] m = rw (Dict.lookup-delete uri uri m, beq_refl uri) refl
put_or_delete-own uri (f ∷ fs) m = rw (Dict.lookup-insert uri uri (f ∷ fs) m, beq_refl uri) refl

pub put_or_delete-other :
    (uri other : Bytes) (fqns : List Bytes) (m : Dict (List Bytes))
    → beq uri other ≡ false
    → Dict.lookup other (put_or_delete uri fqns m) ≡ Dict.lookup other m
put_or_delete-other uri other [] m h = rw (Dict.lookup-delete uri other m, h) refl
put_or_delete-other uri other (f ∷ fs) m h = rw (Dict.lookup-insert uri other (f ∷ fs) m, h) refl

absent-listed :
    (idx : Index) (uri other : Bytes)
    → Dict.lookup uri idx.uri_to_fqns ≡ none
    → listed idx other ≡ (if beq uri other then [] else listed idx other)
absent-listed idx uri other e = elim (Bool-cases (beq uri other)) [
  | inl b ↦ rw (b, sym ((beq_iff uri other).0 b)) (ap or_empty e)
  | inr b ↦ rw b refl
]

deleted-listed :
    (uri other : Bytes) (m : Dict (List Bytes))
    → or_empty (Dict.lookup other (Dict.delete uri m))
      ≡ (if beq uri other then [] else or_empty (Dict.lookup other m))
deleted-listed uri other m = ground (arith, Dict.lookup-delete uri other m)

module _ (lower : Bytes → Bytes) where
  put_names-uri_to_fqns :
      (ss : List Symbol) (idx : Index) → (put_names lower idx ss).uri_to_fqns ≡ idx.uri_to_fqns
  unfolding put_names put_name
  put_names-uri_to_fqns [] idx = refl
  put_names-uri_to_fqns (s ∷ ss) idx = put_names-uri_to_fqns ss (put_name lower idx s)

  put_owner-uri_to_fqns :
      (idx : Index) (s : Symbol) → (put_owner lower idx s).uri_to_fqns ≡ idx.uri_to_fqns
  unfolding put_owner
  put_owner-uri_to_fqns idx s = ground arith

  put_owners-uri_to_fqns :
      (ss : List Symbol) (idx : Index) → (put_owners lower idx ss).uri_to_fqns ≡ idx.uri_to_fqns
  unfolding put_owners
  put_owners-uri_to_fqns [] idx = refl
  put_owners-uri_to_fqns (s ∷ ss) idx =
      put_owners-uri_to_fqns ss (put_owner lower idx s) ∙ put_owner-uri_to_fqns idx s

  delete_fqns-uri_to_fqns :
      (gs : List Bytes) (idx : Index) → (delete_fqns lower idx gs).0.uri_to_fqns ≡ idx.uri_to_fqns
  unfolding delete_fqns delete_fqn
  delete_fqns-uri_to_fqns [] idx = refl
  delete_fqns-uri_to_fqns (g ∷ gs) idx =
      elim (Option-cases (Dict.lookup g (idx.shards (shard_for g)).by_fqn)) [
        | inl e ↦ rw (e, delete_fqns) (delete_fqns-uri_to_fqns gs idx)
        | inr (s, e) ↦ rw (e, delete_fqns) (delete_fqns-uri_to_fqns gs (delete_fqn idx g))
      ]

  drop_owner-uri_to_fqns :
      (idx : Index) (g : Bytes) → (drop_owner lower idx g).uri_to_fqns ≡ idx.uri_to_fqns
  unfolding drop_owner
  drop_owner-uri_to_fqns idx g = ground arith

  drop_owners-uri_to_fqns :
      (gs : List Bytes) (idx : Index) → (drop_owners lower idx gs).uri_to_fqns ≡ idx.uri_to_fqns
  unfolding drop_owners
  drop_owners-uri_to_fqns [] idx = refl
  drop_owners-uri_to_fqns (g ∷ gs) idx =
      drop_owners-uri_to_fqns gs (drop_owner lower idx g) ∙ drop_owner-uri_to_fqns idx g

  pub remove_file-listed :
      (idx : Index) (uri other : Bytes)
      → listed (remove_file lower idx uri) other ≡ (if beq uri other then [] else listed idx other)
  unfolding remove_file
  remove_file-listed idx uri other = elim (Option-cases (Dict.lookup uri idx.uri_to_fqns)) [
    | inl e ↦ rw (e, remove_file) (absent-listed idx uri other e)
    | inr (fqns, e) ↦
        let unlisted = record idx { uri_to_fqns = Dict.delete uri idx.uri_to_fqns } in
        let deleted = delete_fqns lower unlisted fqns in
        rw (e, remove_file)
          (ap (λ m. or_empty (Dict.lookup other m))
              (drop_owners-uri_to_fqns fqns (drop_names uri deleted.0 deleted.1)
                ∙ drop_names-uri_to_fqns uri deleted.1 deleted.0
                ∙ delete_fqns-uri_to_fqns fqns unlisted)
            ∙ deleted-listed uri other idx.uri_to_fqns)
  ]

  -- The map of files after PutFile.
  pub put_file-uri_to_fqns :
      (idx : Index) (uri : Bytes) (symbols : List Symbol)
      → (put_file lower idx uri symbols).uri_to_fqns
        ≡ put_or_delete uri (fqns_of symbols) (remove_file lower idx uri).uri_to_fqns
  unfolding put_file list_file
  put_file-uri_to_fqns idx uri symbols =
      let removed = remove_file lower idx uri in
      let named = put_names lower (put_fqns removed symbols) symbols in
      ap (put_or_delete uri (fqns_of symbols)) (
        put_owners-uri_to_fqns symbols named
        ∙ put_names-uri_to_fqns symbols (put_fqns removed symbols)
        ∙ put_fqns-uri_to_fqns symbols removed)
