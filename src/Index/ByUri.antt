-- ===== src/Index/ByUri.antt =====
-- server/indexer/index.go: what GetByURI finds after PutFile and RemoveFile.
use vscode_php_strom.Base.{
  ◌≡◌, refl, ap, ◌∙◌, Bool, true, false, not, ◌&&◌, Option, none, some, List, [], ◌∷◌, arith,
  if◌then◌else◌, inl, inr, Option-cases, Bool-cases,
}
use vscode_php_strom.Dict
use vscode_php_strom.Dict.{Dict}
use vscode_php_strom.Text.{Bytes, beq, beq_iff, beq_refl}
use vscode_php_strom.Index.{Symbol, Index}
use vscode_php_strom.Index.Update.{or_empty, fqns_of, remove_file, put_file}
use vscode_php_strom.Index.Queries.{get_by_fqn, found_fqns, get_by_uri}
use vscode_php_strom.Index.ByFqn.{contains, latest, get_by_fqn-put_file}
use vscode_php_strom.Index.Listed.{
  listed, put_or_delete-own, put_or_delete-other, remove_file-listed, put_file-uri_to_fqns,
}

-- No two symbols of the file have one FQN.
abbrev pub distinct : List Symbol → Bool
unfolding fqns_of
distinct [] = true
distinct (s ∷ ss) = not (contains (fqns_of ss) s.fqn) && distinct ss

-- No FQN of the first list is in the second.
abbrev pub disjoint : List Bytes → List Bytes → Bool
disjoint [] gs = true
disjoint (f ∷ fs) gs = not (contains gs f) && disjoint fs gs

latest-absent :
    (ss : List Symbol) (f : Bytes) (o : Option Symbol)
    → contains (fqns_of ss) f ≡ false
    → latest f ss o ≡ o
unfolding fqns_of
latest-absent [] f o h = refl
latest-absent (s ∷ ss) f o h = elim (Bool-cases (beq s.fqn f)) [
  | inl e ↦ absurd (ground (arith, e, h))
  | inr e ↦ rw e (latest-absent ss f o (ground (arith, e, h)))
]

latest-present :
    (ss : List Symbol) (f : Bytes) (o p : Option Symbol)
    → contains (fqns_of ss) f ≡ true
    → latest f ss o ≡ latest f ss p
unfolding fqns_of
latest-present [] f o p h = absurd (ground (arith, h))
latest-present (s ∷ ss) f o p h = elim (Bool-cases (beq s.fqn f)) [
  | inl e ↦ rw e refl
  | inr e ↦ rw e (latest-present ss f o p (ground (arith, e, h)))
]

found_fqns-latest :
    (ss : List Symbol) (idx : Index)
    → ((f : Bytes) → contains (fqns_of ss) f ≡ true → get_by_fqn idx f ≡ latest f ss none)
    → distinct ss ≡ true
    → found_fqns idx (fqns_of ss) ≡ ss
unfolding fqns_of found_fqns
found_fqns-latest [] idx h d = refl
found_fqns-latest (s ∷ ss) idx h d =
    let fresh : contains (fqns_of ss) s.fqn ≡ false = ground (arith, d) in
    let own : get_by_fqn idx s.fqn ≡ some s =
      h s.fqn (ground (arith, beq_refl s.fqn))
      ∙ rw (beq_refl s.fqn) (latest-absent ss s.fqn (some s) fresh) in
    let rest : found_fqns idx (fqns_of ss) ≡ ss =
      found_fqns-latest ss idx
        (λ f k.
          h f (ground (arith, k))
          ∙ latest-present ss f (if beq s.fqn f then some s else none) none k)
        (ground (arith, d)) in
    rw (own, rest, found_fqns) refl

found_fqns-agree :
    (fs : List Bytes) (idx other : Index)
    → ((f : Bytes) → contains fs f ≡ true → get_by_fqn idx f ≡ get_by_fqn other f)
    → found_fqns idx fs ≡ found_fqns other fs
unfolding found_fqns
found_fqns-agree [] idx other h = refl
found_fqns-agree (f ∷ fs) idx other h =
    let one : get_by_fqn idx f ≡ get_by_fqn other f = h f (ground (arith, beq_refl f)) in
    let rest : found_fqns idx fs ≡ found_fqns other fs =
      found_fqns-agree fs idx other (λ g k. h g (ground (arith, k))) in
    elim (Option-cases (get_by_fqn other f)) [
      | inl e ↦ rw (one ∙ e, e, found_fqns) rest
      | inr (s, e) ↦ rw (one ∙ e, e, found_fqns) (ap (λ ss. s ∷ ss) rest)
    ]

disjoint-contains :
    (fs gs : List Bytes) (f : Bytes)
    → disjoint fs gs ≡ true
    → contains fs f ≡ true
    → contains gs f ≡ false
disjoint-contains [] gs f d k = absurd (ground (arith, k))
disjoint-contains (g ∷ fs) gs f d k = elim (Bool-cases (beq g f)) [
  | inl e ↦ ground (arith, d, ap (contains gs) ((beq_iff g f).0 e))
  | inr e ↦ disjoint-contains fs gs f (ground (arith, d)) (ground (arith, e, k))
]

module _ (lower : Bytes → Bytes) where
  -- After PutFile with no FQN twice, GetByURI of the file gives back just the symbols that were put,
  -- in their order, whatever the store held before.
  pub get_by_uri-put_file :
      (idx : Index) (uri : Bytes) (symbols : List Symbol)
      → distinct symbols ≡ true
      → get_by_uri (put_file lower idx uri symbols) uri ≡ symbols
  unfolding get_by_uri
  get_by_uri-put_file idx uri symbols d =
      let m = (remove_file lower idx uri).uri_to_fqns in
      let put = put_file lower idx uri symbols in
      ap (λ m. found_fqns put (or_empty (Dict.lookup uri m)))
        (put_file-uri_to_fqns lower idx uri symbols)
      ∙ ap (found_fqns put) (put_or_delete-own uri (fqns_of symbols) m)
      ∙ found_fqns-latest symbols put
          (λ f k.
            get_by_fqn-put_file lower idx uri symbols f
            ∙ latest-present symbols f
                (if contains (listed idx uri) f then none else get_by_fqn idx f) none k)
          d

  -- After RemoveFile GetByURI finds nothing for the file.
  pub get_by_uri-remove_file :
      (idx : Index) (uri : Bytes) → get_by_uri (remove_file lower idx uri) uri ≡ []
  unfolding get_by_uri found_fqns
  get_by_uri-remove_file idx uri =
      let gone : listed (remove_file lower idx uri) uri ≡ [] =
        remove_file-listed lower idx uri uri ∙ rw (beq_refl uri) refl in
      ap (found_fqns (remove_file lower idx uri)) gone

  -- PutFile leaves what GetByURI finds for another file, if that file lists no FQN that the put file
  -- listed before or lists now.
  pub get_by_uri-put_file-other :
      (idx : Index) (uri other : Bytes) (symbols : List Symbol)
      → beq uri other ≡ false
      → disjoint (listed idx other) (listed idx uri) ≡ true
      → disjoint (listed idx other) (fqns_of symbols) ≡ true
      → get_by_uri (put_file lower idx uri symbols) other ≡ get_by_uri idx other
  unfolding get_by_uri
  get_by_uri-put_file-other idx uri other symbols u d e =
      let put = put_file lower idx uri symbols in
      let removed = remove_file lower idx uri in
      ap (found_fqns put) (
        ap (λ m. or_empty (Dict.lookup other m)) (put_file-uri_to_fqns lower idx uri symbols)
        ∙ ap or_empty (put_or_delete-other uri other (fqns_of symbols) removed.uri_to_fqns u)
        ∙ remove_file-listed lower idx uri other
        ∙ rw u refl)
      ∙ found_fqns-agree (listed idx other) put idx (λ f k.
        get_by_fqn-put_file lower idx uri symbols f
        ∙ latest-absent symbols f (if contains (listed idx uri) f then none else get_by_fqn idx f)
            (disjoint-contains (listed idx other) (fqns_of symbols) f e k)
        ∙ rw (disjoint-contains (listed idx other) (listed idx uri) f d k) refl)
