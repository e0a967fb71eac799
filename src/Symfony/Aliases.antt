-- ===== src/Symfony/Aliases.antt =====
-- server/indexer/symfony_services.go: resolveSymfonyServiceClass and the chains of aliases.
use vscode_php_strom.Base.{
  ℕ, zero, suc, ◌≤◌, ◌<◌, ◌≡◌, refl, ap, ◌∙◌, true, false, some, List, [], ◌∷◌, arith,
  if◌then◌else◌, length, inl, inr, Bool-cases, Option-cases, List-cases, ◌↔◌,
}
use vscode_php_strom.Dict.{Dict, lookup}
use vscode_php_strom.Text.{Bytes, beq, beq_iff, beq_refl}
use vscode_php_strom.Exclusions.{contains_code}
use vscode_php_strom.Symfony.{
  SymfonyServiceDefinition, resolve_loop, or_no_class, resolve_symfony_service_class,
}

-- The id stands for the class at the end of a chain of that many aliases.
pub data Resolves (definitions : Dict SymfonyServiceDefinition) : ℕ → Bytes → Bytes → Type 0 where
  direct :
      {id : Bytes} {d : SymfonyServiceDefinition} {c : ℕ} {cs : Bytes}
      → lookup id definitions ≡ some d
      → d.class ≡ c ∷ cs
      → Resolves definitions 0 id (c ∷ cs)
  alias :
      {n : ℕ} {id class : Bytes} {d : SymfonyServiceDefinition} {c : ℕ} {cs : Bytes}
      → lookup id definitions ≡ some d
      → d.class ≡ []
      → d.alias ≡ c ∷ cs
      → Resolves definitions n (c ∷ cs) class
      → Resolves definitions (suc n) id class

-- The definitions whose id was not seen.
abbrev pub unseen : Dict SymfonyServiceDefinition → List Bytes → ℕ
unseen [] seen = 0
unseen ((id, d) ∷ definitions) seen =
    if contains_code seen id then unseen definitions seen else suc (unseen definitions seen)

unseen-cons_le :
    (definitions : Dict SymfonyServiceDefinition) (id : Bytes) (seen : List Bytes)
    → unseen definitions (id ∷ seen) ≤ unseen definitions seen
unseen-cons_le [] id seen = omega arith
unseen-cons_le ((k, d) ∷ definitions) id seen = ground (arith, unseen-cons_le definitions id seen)

unseen-cons_lt :
    (definitions : Dict SymfonyServiceDefinition) (id : Bytes) (seen : List Bytes)
    (d : SymfonyServiceDefinition)
    → lookup id definitions ≡ some d
    → contains_code seen id ≡ false
    → unseen definitions (id ∷ seen) < unseen definitions seen
unfolding lookup
unseen-cons_lt [] id seen d h e = cc
unseen-cons_lt ((k, w) ∷ definitions) id seen d h e = elim (Bool-cases (beq k id)) [
  | inl f ↦
      let same = (beq_iff k id).0 f in
      let new : contains_code seen k ≡ false = ap (contains_code seen) same ∙ e in
      let itself : beq id k ≡ true = ap (beq id) same ∙ beq_refl id in
      ground (arith, new, itself, unseen-cons_le definitions id seen)
  | inr f ↦ ground (arith, f, e, unseen-cons_lt definitions id seen d (ground (arith, f, h)))
]

unseen_le :
    (definitions : Dict SymfonyServiceDefinition) (seen : List Bytes)
    → unseen definitions seen ≤ length definitions
unseen_le [] seen = omega arith
unseen_le ((k, d) ∷ definitions) seen = ground (arith, unseen_le definitions seen)

module _ (definitions : Dict SymfonyServiceDefinition) where
  Resolves-rank :
      {n m : ℕ} {id jd a b : Bytes}
      → Resolves definitions n id a
      → Resolves definitions m jd b
      → id ≡ jd
      → n ≡ m
  Resolves-rank (direct h f) (direct k g) e = refl
  Resolves-rank (direct h f) (alias k g a r) e = absurd (cc)
  Resolves-rank (alias k g a r) (direct h f) e = absurd (cc)
  Resolves-rank (alias h f a r) (alias k g b s) e = ap suc (Resolves-rank r s (cc))

  resolve_loop-ends :
      (fuel : ℕ) (id : Bytes) (seen : List Bytes)
      → unseen definitions seen < fuel
      → resolve_loop fuel id definitions seen
        ≡ some (or_no_class (resolve_loop fuel id definitions seen))
  unfolding resolve_loop
  resolve_loop-ends zero id seen h = absurd (omega arith)
  resolve_loop-ends (suc fuel) id seen h = elim (Bool-cases (contains_code seen id)) [
    | inl e ↦ rw (e, resolve_loop) refl
    | inr e ↦ elim (Option-cases (lookup id definitions)) [
      | inl f ↦ rw (e, resolve_loop) (rw (f, resolve_loop) refl)
      | inr (d, f) ↦ elim (List-cases d.class) [
        | inr (c, cs, g) ↦ rw (e, resolve_loop) (rw (f, resolve_loop) (rw (g, resolve_loop) refl))
        | inl g ↦ elim (List-cases d.alias) [
          | inl a ↦
              rw (e, resolve_loop)
                (rw (f, resolve_loop) (rw (g, resolve_loop) (rw (a, resolve_loop) refl)))
          | inr (c, cs, a) ↦
              rw (e, resolve_loop)
                (rw (f, resolve_loop)
                  (rw (g, resolve_loop)
                    (rw (a, resolve_loop)
                      (resolve_loop-ends fuel (c ∷ cs) (id ∷ seen)
                        (omega (arith, h, unseen-cons_lt definitions id seen d f e))))))
        ]
      ]
    ]
  ]

  loop-Resolves :
      (fuel : ℕ) (id : Bytes) (seen : List Bytes) (c : ℕ) (cs : Bytes)
      → resolve_loop fuel id definitions seen ≡ some (c ∷ cs)
      → (n : ℕ) × Resolves definitions n id (c ∷ cs)
  unfolding resolve_loop
  loop-Resolves zero id seen c cs h = cc
  loop-Resolves (suc fuel) id seen c cs h = elim (Bool-cases (contains_code seen id)) [
    | inl e ↦ absurd (ground (arith, e, h))
    | inr e ↦ elim (Option-cases (lookup id definitions)) [
      | inl f ↦ absurd (ground (arith, e, f, h))
      | inr (d, f) ↦ elim (List-cases d.class) [
        | inr (b, bs, g) ↦ (0, direct f (ground (arith, e, f, g, h)))
        | inl g ↦ elim (List-cases d.alias) [
          | inl a ↦ absurd (ground (arith, e, f, g, a, h))
          | inr (b, bs, a) ↦
              let (n, r) =
                loop-Resolves fuel (b ∷ bs) (id ∷ seen) c cs (ground (arith, e, f, g, a, h)) in
              (suc n, alias f g a r)
        ]
      ]
    ]
  ]

  -- Every id that was seen is farther from its class than `n` aliases.
  abbrev IsBefore : ℕ → List Bytes → Type 0
  IsBefore n seen =
      (s e : Bytes) (m : ℕ) → contains_code seen s ≡ true → Resolves definitions m s e → n < m

  not_seen :
      (n : ℕ) (id class : Bytes) (seen : List Bytes)
      → IsBefore n seen
      → Resolves definitions n id class
      → contains_code seen id ≡ false
  not_seen n id class seen before r = elim (Bool-cases (contains_code seen id)) [
    | inl e ↦ absurd (omega (arith, before id class n e r))
    | inr e ↦ e
  ]

  IsBefore-cons :
      (n : ℕ) (id class : Bytes) (seen : List Bytes)
      → IsBefore (suc n) seen
      → Resolves definitions (suc n) id class
      → IsBefore n (id ∷ seen)
  IsBefore-cons n id class seen before r s e m h k = elim (Bool-cases (beq id s)) [
    | inl f ↦ omega (arith, Resolves-rank r k ((beq_iff id s).0 f))
    | inr f ↦ omega (arith, before s e m (ground (arith, f, h)) k)
  ]

  Resolves-loop :
      (fuel n : ℕ) (id class : Bytes) (seen : List Bytes)
      → unseen definitions seen < fuel
      → IsBefore n seen
      → Resolves definitions n id class
      → resolve_loop fuel id definitions seen ≡ some class
  unfolding resolve_loop
  Resolves-loop zero n id class seen h before r = absurd (omega arith)
  Resolves-loop (suc fuel) zero id [] seen h before r = elim r [ ]
  Resolves-loop (suc fuel) zero id (c ∷ cs) seen h before (direct f g) =
      rw (not_seen zero id (c ∷ cs) seen before (direct f g), resolve_loop)
        (rw (f, resolve_loop) (rw (g, resolve_loop) refl))
  Resolves-loop (suc fuel) (suc n) id class seen h before (alias {d} {c} {cs} f g a r) =
      let new = not_seen (suc n) id class seen before (alias f g a r) in
      let later =
        Resolves-loop fuel n (c ∷ cs) class (id ∷ seen)
          (omega (arith, h, unseen-cons_lt definitions id seen d f new))
          (IsBefore-cons n id class seen before (alias f g a r)) r in
      rw (new, resolve_loop)
        (rw (f, resolve_loop) (rw (g, resolve_loop) (rw (a, resolve_loop) later)))

  enough : unseen definitions [] < suc (length definitions)
  enough = omega (arith, unseen_le definitions [])

  -- The search along the aliases ends for every id, cycles of aliases included: it calls itself at most as
  -- often as there are definitions.
  pub resolve_symfony_service_class-ends :
      (id : Bytes)
      → resolve_loop (suc (length definitions)) id definitions []
        ≡ some (resolve_symfony_service_class id definitions)
  unfolding resolve_symfony_service_class
  resolve_symfony_service_class-ends id = resolve_loop-ends (suc (length definitions)) id [] enough

  -- An id resolves to a class, which is not "", if and only if a chain of aliases leads from the id to a
  -- definition with that class.
  pub resolve_symfony_service_class_iff :
      (id : Bytes) (c : ℕ) (cs : Bytes)
      → (resolve_symfony_service_class id definitions ≡ c ∷ cs)
        ↔ ((n : ℕ) × Resolves definitions n id (c ∷ cs))
  unfolding resolve_symfony_service_class
  resolve_symfony_service_class_iff id c cs = (
    λ h.
        loop-Resolves (suc (length definitions)) id [] c cs
          (resolve_symfony_service_class-ends id ∙ ap some h),
    λ (n, r). ap or_no_class (
        Resolves-loop (suc (length definitions)) n id (c ∷ cs) [] enough
          (λ s e m h k. absurd (cc h)) r),
  )
