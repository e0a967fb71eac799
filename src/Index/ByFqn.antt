-- ===== src/Index/ByFqn.antt =====
-- server/indexer/index.go: what GetByFQN finds after PutFile and RemoveFile.
use vscode_php_strom.Base.{
  ◌≡◌, refl, ap, ◌∙◌, Bool, false, ◌||◌, Option, none, some, List, [], ◌∷◌, arith, if◌then◌else◌,
  inl, inr, Option-cases,
}
use vscode_php_strom.Dict
use vscode_php_strom.Dict.{Dict}
use vscode_php_strom.Text.{Bytes, beq, beq_iff}
use vscode_php_strom.Index.{Symbol, Index, shard_for}
use vscode_php_strom.Index.Update.{
  put_fqn, put_fqns, put_name, put_names, put_owner, put_owners, or_empty, delete_fqn, delete_fqns,
  drop_name, drop_names, drop_owner, drop_owners, remove_file, list_file, put_file,
}
use vscode_php_strom.Index.Queries.{get_by_fqn}

abbrev pub contains : List Bytes → Bytes → Bool
contains [] f = false
contains (g ∷ gs) f = beq g f || contains gs f

-- The last symbol of the list with FQN `f`, or else `o`.
abbrev pub latest : Bytes → List Symbol → Option Symbol → Option Symbol
latest f [] o = o
latest f (s ∷ ss) o = latest f ss (if beq s.fqn f then some s else o)

pub get_by_fqn-put_fqn :
    (idx : Index) (s : Symbol) (f : Bytes)
    → get_by_fqn (put_fqn idx s) f ≡ (if beq s.fqn f then some s else get_by_fqn idx f)
unfolding get_by_fqn put_fqn
get_by_fqn-put_fqn idx s f =
    ground
      (arith, beq_iff s.fqn f, Dict.lookup-insert s.fqn f s (idx.shards (shard_for s.fqn)).by_fqn)

get_by_fqn-delete_fqn :
    (idx : Index) (g f : Bytes)
    → get_by_fqn (delete_fqn idx g) f ≡ (if beq g f then none else get_by_fqn idx f)
unfolding get_by_fqn delete_fqn
get_by_fqn-delete_fqn idx g f =
    ground (arith, beq_iff g f, Dict.lookup-delete g f (idx.shards (shard_for g)).by_fqn)

get_by_fqn-absent :
    (idx : Index) (g : Bytes)
    → Dict.lookup g (idx.shards (shard_for g)).by_fqn ≡ none
    → get_by_fqn idx g ≡ none
unfolding get_by_fqn
get_by_fqn-absent idx g e = e

get_by_fqn-put_fqns :
    (ss : List Symbol) (idx : Index) (f : Bytes)
    → get_by_fqn (put_fqns idx ss) f ≡ latest f ss (get_by_fqn idx f)
unfolding put_fqns
get_by_fqn-put_fqns [] idx f = refl
get_by_fqn-put_fqns (s ∷ ss) idx f =
    get_by_fqn-put_fqns ss (put_fqn idx s) f ∙ ap (latest f ss) (get_by_fqn-put_fqn idx s f)

module _ (lower : Bytes → Bytes) where
  get_by_fqn-put_names :
      (ss : List Symbol) (idx : Index) (f : Bytes)
      → get_by_fqn (put_names lower idx ss) f ≡ get_by_fqn idx f
  unfolding put_names get_by_fqn
  get_by_fqn-put_names [] idx f = refl
  get_by_fqn-put_names (s ∷ ss) idx f = get_by_fqn-put_names ss (put_name lower idx s) f

  get_by_fqn-put_owner :
      (idx : Index) (s : Symbol) (f : Bytes)
      → get_by_fqn (put_owner lower idx s) f ≡ get_by_fqn idx f
  unfolding put_owner get_by_fqn
  get_by_fqn-put_owner idx s f = ground arith

  get_by_fqn-put_owners :
      (ss : List Symbol) (idx : Index) (f : Bytes)
      → get_by_fqn (put_owners lower idx ss) f ≡ get_by_fqn idx f
  unfolding put_owners
  get_by_fqn-put_owners [] idx f = refl
  get_by_fqn-put_owners (s ∷ ss) idx f =
      get_by_fqn-put_owners ss (put_owner lower idx s) f ∙ get_by_fqn-put_owner idx s f

  get_by_fqn-drop_owner :
      (idx : Index) (g f : Bytes) → get_by_fqn (drop_owner lower idx g) f ≡ get_by_fqn idx f
  unfolding drop_owner get_by_fqn
  get_by_fqn-drop_owner idx g f = ground arith

  get_by_fqn-drop_owners :
      (gs : List Bytes) (idx : Index) (f : Bytes)
      → get_by_fqn (drop_owners lower idx gs) f ≡ get_by_fqn idx f
  unfolding drop_owners
  get_by_fqn-drop_owners [] idx f = refl
  get_by_fqn-drop_owners (g ∷ gs) idx f =
      get_by_fqn-drop_owners gs (drop_owner lower idx g) f ∙ get_by_fqn-drop_owner idx g f

  get_by_fqn-drop_names :
      (uri : Bytes) (names : List Bytes) (idx : Index) (f : Bytes)
      → get_by_fqn (drop_names uri idx names) f ≡ get_by_fqn idx f
  unfolding drop_names get_by_fqn
  get_by_fqn-drop_names uri [] idx f = refl
  get_by_fqn-drop_names uri (n ∷ ns) idx f = get_by_fqn-drop_names uri ns (drop_name uri idx n) f

  get_by_fqn-delete_fqns :
      (gs : List Bytes) (idx : Index) (f : Bytes)
      → get_by_fqn (delete_fqns lower idx gs).0 f
        ≡ (if contains gs f then none else get_by_fqn idx f)
  unfolding delete_fqns
  get_by_fqn-delete_fqns [] idx f = refl
  get_by_fqn-delete_fqns (g ∷ gs) idx f =
      elim (Option-cases (Dict.lookup g (idx.shards (shard_for g)).by_fqn)) [
        | inl e ↦
            rw (e, delete_fqns) ground
              (arith, get_by_fqn-delete_fqns gs idx f, beq_iff g f, get_by_fqn-absent idx g e)
        | inr (s, e) ↦
            rw (e, delete_fqns) ground
              (arith, get_by_fqn-delete_fqns gs (delete_fqn idx g) f, get_by_fqn-delete_fqn idx g f)
      ]

  get_by_fqn-unlist :
      (idx : Index) (uri : Bytes) (fqns : List Bytes) (f : Bytes)
      → get_by_fqn
          (drop_owners lower
            (drop_names uri
              (delete_fqns lower
                (record idx { uri_to_fqns = Dict.delete uri idx.uri_to_fqns })
                fqns).0
              (delete_fqns lower
                (record idx { uri_to_fqns = Dict.delete uri idx.uri_to_fqns })
                fqns).1)
            fqns)
          f
        ≡ (if contains fqns f then none else get_by_fqn idx f)
  unfolding get_by_fqn
  get_by_fqn-unlist idx uri fqns f =
      let unlisted = record idx { uri_to_fqns = Dict.delete uri idx.uri_to_fqns } in
      let deleted = delete_fqns lower unlisted fqns in
      get_by_fqn-drop_owners fqns (drop_names uri deleted.0 deleted.1) f
      ∙ get_by_fqn-drop_names uri deleted.1 deleted.0 f
      ∙ get_by_fqn-delete_fqns fqns unlisted f

  -- RemoveFile deletes every FQN that the file lists, whatever file its symbol is of, and no other.
  pub get_by_fqn-remove_file :
      (idx : Index) (uri f : Bytes)
      → get_by_fqn (remove_file lower idx uri) f ≡ (
          if contains (or_empty (Dict.lookup uri idx.uri_to_fqns)) f
          then none
          else get_by_fqn idx f)
  unfolding remove_file
  get_by_fqn-remove_file idx uri f = elim (Option-cases (Dict.lookup uri idx.uri_to_fqns)) [
    | inl e ↦ rw (e, remove_file) refl
    | inr (fqns, e) ↦ rw (e, remove_file) (get_by_fqn-unlist idx uri fqns f)
  ]

  -- After PutFile an FQN has the file's last symbol of that FQN; else none, if the file listed it
  -- before; else the symbol that it had.
  pub get_by_fqn-put_file :
      (idx : Index) (uri : Bytes) (symbols : List Symbol) (f : Bytes)
      → get_by_fqn (put_file lower idx uri symbols) f
        ≡ latest f symbols (
            if contains (or_empty (Dict.lookup uri idx.uri_to_fqns)) f
            then none
            else get_by_fqn idx f)
  unfolding put_file list_file get_by_fqn
  get_by_fqn-put_file idx uri symbols f =
      let removed = remove_file lower idx uri in
      let named = put_names lower (put_fqns removed symbols) symbols in
      get_by_fqn-put_owners symbols named f
      ∙ get_by_fqn-put_names symbols (put_fqns removed symbols) f
      ∙ get_by_fqn-put_fqns symbols removed f
      ∙ ap (latest f symbols) (get_by_fqn-remove_file idx uri f)
