-- ===== src/Completion/Overrides.antt =====
-- server/providers/completion.go: the members that classMemberSymbols collects from a class and its ancestors.
use vscode_php_strom.Base.{
  ◌≡◌, refl, ap, ◌∙◌, Bool, true, false, not, ◌&&◌, ◌||◌, List, [], ◌∷◌, ◌++◌, arith, inl, inr,
  Bool-cases, Option-cases,
}
use vscode_php_strom.Exclusions.{contains_code}
use vscode_php_strom.Index.{Index, Symbol}
use vscode_php_strom.Index.Queries.{get_by_uri}
use vscode_php_strom.Text.{Bytes, codes, beq, beq_iff, has_prefix}
use vscode_php_strom.Analysis.Resolver.{resolve_class_symbol}
use vscode_php_strom.Completion.Members.{
  Found, is_member_kind, collect_member, collect_from, collect_class, collect_classes,
}

beq_sym : (a b : Bytes) → beq a b ≡ beq b a
beq_sym a b = ground (arith, beq_iff a b, beq_iff b a)

module _ (lower : Bytes → Bytes) where
  -- A member has the name, in lower case.
  abbrev pub named : Bytes → List Symbol → Bool
  named n [] = false
  named n (s ∷ members) = beq (lower s.name) n || named n members

  -- No two members have the same name but for the case of its letters, and each is of a kind of member.
  abbrev pub distinct_members : List Symbol → Bool
  distinct_members [] = true
  distinct_members (s ∷ members) =
      is_member_kind s.kind && not (named (lower s.name) members) && distinct_members members

  pub record IsSound (found : Found) : Type 0 where
    pub seen : (n : Bytes) → named n found.1 ≡ contains_code found.0 n
    pub distinct : distinct_members found.1 ≡ true

  named-append :
      (n : Bytes) (members : List Symbol) (s : Symbol)
      → named n (members ++ s ∷ []) ≡ (beq (lower s.name) n || named n members)
  named-append n [] s = refl
  named-append n (m ∷ members) s = ground (arith, named-append n members s)

  distinct_members-append :
      (members : List Symbol) (s : Symbol)
      → is_member_kind s.kind ≡ true
      → named (lower s.name) members ≡ false
      → distinct_members members ≡ true
      → distinct_members (members ++ s ∷ []) ≡ true
  distinct_members-append [] s k h d = ground (arith, k)
  distinct_members-append (m ∷ members) s k h d = ground (
    arith,
    d,
    h,
    beq_sym (lower s.name) (lower m.name),
    named-append (lower m.name) members s,
    distinct_members-append members s k (ground (arith, h)) (ground (arith, d)),
  )

  collect_member-IsSound :
      (member_prefix : Bytes) (s : Symbol) (found : Found)
      → IsSound found
      → IsSound (collect_member lower member_prefix s found)
  unfolding collect_member
  collect_member-IsSound member_prefix s found sound =
      elim (Bool-cases (has_prefix member_prefix (lower s.fqn))) [
        | inr e ↦ rw e sound
        | inl e ↦ elim (Bool-cases (is_member_kind s.kind)) [
          | inr f ↦ rw (e, f) sound
          | inl f ↦ elim (Bool-cases (contains_code found.0 (lower s.name))) [
            | inl g ↦ rw (e, f, g) sound
            | inr g ↦
                rw (e, f, g)
                  record {
                    seen = λ n.
                        named-append n found.1 s
                        ∙ ap (λ b. beq (lower s.name) n || b) (sound.seen n);
                    distinct =
                        distinct_members-append found.1 s f (sound.seen (lower s.name) ∙ g)
                          sound.distinct;
                  }
          ]
        ]
      ]

  collect_from-IsSound :
      (member_prefix : Bytes) (symbols : List Symbol) (found : Found)
      → IsSound found
      → IsSound (collect_from lower member_prefix symbols found)
  unfolding collect_from
  collect_from-IsSound member_prefix [] found sound = sound
  collect_from-IsSound member_prefix (s ∷ symbols) found sound =
      collect_from-IsSound member_prefix symbols (collect_member lower member_prefix s found)
        (collect_member-IsSound member_prefix s found sound)

module _ (lower trim_space : Bytes → Bytes) (equal_fold : Bytes → Bytes → Bool)
    (sort_stable : (Symbol → Symbol → Bool) → List Symbol → List Symbol) (idx : Index) where
  collect_class-IsSound :
      (ancestor : Bytes) (found : Found)
      → IsSound lower found
      → IsSound lower (collect_class lower trim_space equal_fold sort_stable idx ancestor found)
  unfolding collect_class
  collect_class-IsSound ancestor found sound =
      elim (Option-cases
        (resolve_class_symbol lower trim_space equal_fold sort_stable idx ancestor)) [
          | inl e ↦ rw (e, collect_class) sound
          | inr (class_sym, e) ↦
              rw (e, collect_class)
                (collect_from-IsSound lower (lower (class_sym.fqn ++ codes "::"))
                  (get_by_uri idx class_sym.uri) found sound)
        ]

  collect_classes-IsSound :
      (lineage : List Bytes) (found : Found)
      → IsSound lower found
      → IsSound lower (collect_classes lower trim_space equal_fold sort_stable idx lineage found)
  unfolding collect_classes
  collect_classes-IsSound [] found sound = sound
  collect_classes-IsSound (ancestor ∷ lineage) found sound =
      collect_classes-IsSound lineage
        (collect_class lower trim_space equal_fold sort_stable idx ancestor found)
        (collect_class-IsSound ancestor found sound)

  -- The members that are collected from the classes of a lineage all are of a kind of member, and no two
  -- of them have names that are the same in lower case.
  pub collect_classes-distinct_members :
      (lineage : List Bytes)
      → distinct_members lower
          (collect_classes lower trim_space equal_fold sort_stable idx lineage ([], [])).1
        ≡ true
  collect_classes-distinct_members lineage =
      let sound =
        collect_classes-IsSound lineage ([], []) record { seen = λ n. refl; distinct = refl } in
      sound.distinct
