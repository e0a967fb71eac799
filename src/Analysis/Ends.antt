-- ===== src/Analysis/Ends.antt =====
-- server/providers/diagnostics.go: classLineage ends, cycles of classes included.
use vscode_php_strom.Base.{
  ℕ, zero, suc, ◌≤◌, ◌<◌, ◌≡◌, refl, ap, ◌∙◌, Bool, true, false, ◌&&◌, Option, some, List, [], ◌∷◌,
  ◌++◌, arith, if◌then◌else◌, length, inl, inr, Bool-cases,
}
use vscode_php_strom.Exclusions.{contains_code}
use vscode_php_strom.Index.{Index, Symbol}
use vscode_php_strom.Text.{Bytes, beq, beq_iff, beq_refl}
use vscode_php_strom.Analysis.Lineage.{
  State, walk_each, parents_of, lineage_key, visit_once, walk, class_lineage,
}

-- Every name is among the known ones.
abbrev pub all_known : List Bytes → List Bytes → Bool
all_known known [] = true
all_known known (name ∷ names) = contains_code known name && all_known known names

-- The known names whose key was not seen.
abbrev unseen : (Bytes → Bytes) → List Bytes → List Bytes → ℕ
unseen key [] seen = 0
unseen key (n ∷ known) seen =
    if contains_code seen (key n) then unseen key known seen else suc (unseen key known seen)

unseen_le : (key : Bytes → Bytes) (known seen : List Bytes) → unseen key known seen ≤ length known
unseen_le key [] seen = omega arith
unseen_le key (n ∷ known) seen = ground (arith, unseen_le key known seen)

unseen-cons_le :
    (key : Bytes → Bytes) (known seen : List Bytes) (k : Bytes)
    → unseen key known (k ∷ seen) ≤ unseen key known seen
unseen-cons_le key [] seen k = omega arith
unseen-cons_le key (n ∷ known) seen k = ground (arith, unseen-cons_le key known seen k)

unseen-cons_lt :
    (key : Bytes → Bytes) (known seen : List Bytes) (name : Bytes)
    → contains_code known name ≡ true
    → contains_code seen (key name) ≡ false
    → unseen key known (key name ∷ seen) < unseen key known seen
unseen-cons_lt key [] seen name h e = absurd (ground (arith, h))
unseen-cons_lt key (n ∷ known) seen name h e = elim (Bool-cases (beq n name)) [
  | inl f ↦
      let same = ap key ((beq_iff n name).0 f) in
      let new : contains_code seen (key n) ≡ false = ap (contains_code seen) same ∙ e in
      let itself : beq (key name) (key n) ≡ true = ap (beq (key name)) same ∙ beq_refl (key name) in
      ground (arith, new, itself, unseen-cons_le key known seen (key name))
  | inr f ↦ ground (arith, f, e, unseen-cons_lt key known seen name (ground (arith, f, h)))
]

-- It gives a state in which no more names are unseen.
abbrev Ends : (Bytes → Bytes) → List Bytes → State → Option State → Type 0
Ends key known state result =
    (next : State) × (result ≡ some next) × (unseen key known next.0 ≤ unseen key known state.0)

walk_each-Ends :
    (key : Bytes → Bytes) (known : List Bytes) (n : ℕ) (f : Bytes → State → Option State)
    → ((name : Bytes) (state : State)
        → contains_code known name ≡ true
        → unseen key known state.0 ≤ n
        → Ends key known state (f name state))
    → (names : List Bytes) (state : State) → all_known known names ≡ true
    → unseen key known state.0 ≤ n
    → Ends key known state (walk_each f names state)
unfolding walk_each
walk_each-Ends key known n f ends [] state h few = (state, refl, omega arith)
walk_each-Ends key known n f ends (name ∷ names) state h few =
    let (next, e, less) = ends name state (ground (arith, h)) few in
    let (last, g, rest) =
      walk_each-Ends key known n f ends names next (ground (arith, h)) (omega (arith, few, less)) in
    (last, rw (e, walk_each) g, omega (arith, less, rest))

visit_once-Ends :
    (key : Bytes → Bytes) (known : List Bytes) (k : Bytes) (state : State) (visited : Option State)
    → (contains_code state.0 k ≡ false → Ends key known state visited)
    → Ends key known state (visit_once k state visited)
unfolding visit_once
visit_once-Ends key known [] state visited h = (state, refl, omega arith)
visit_once-Ends key known (c ∷ cs) state visited h =
    elim (Bool-cases (contains_code state.0 (c ∷ cs))) [
      | inl e ↦ rw e (state, refl, omega arith)
      | inr e ↦ rw e (h e)
    ]

module _ (lower trim_space : Bytes → Bytes) (equal_fold : Bytes → Bytes → Bool)
    (sort_stable : (Symbol → Symbol → Bool) → List Symbol → List Symbol) (idx : Index) where
  walk-Ends :
      (known : List Bytes)
      → ((name : Bytes)
          → all_known known (parents_of lower trim_space equal_fold sort_stable idx name) ≡ true)
      → (fuel : ℕ) (name : Bytes) (state : State) → contains_code known name ≡ true
      → unseen (lineage_key lower trim_space) known state.0 < fuel
      → Ends
          (lineage_key lower trim_space)
          known
          state
          (walk lower trim_space equal_fold sort_stable idx fuel name state)
  unfolding walk
  walk-Ends known closed zero name state k few = absurd (omega (arith, few))
  walk-Ends known closed (suc fuel) name state k few =
      let key = lineage_key lower trim_space in
      let visited =
        walk_each (walk lower trim_space equal_fold sort_stable idx fuel)
          (parents_of lower trim_space equal_fold sort_stable idx name)
          (key name ∷ state.0, state.1 ++ name ∷ []) in
      visit_once-Ends key known (key name) state visited (λ new.
        let less = unseen-cons_lt key known state.0 name k new in
        let (last, e, rest) =
          walk_each-Ends key known (unseen key known (key name ∷ state.0))
            (walk lower trim_space equal_fold sort_stable idx fuel)
            (λ n s h l. walk-Ends known closed fuel n s h (omega (arith, few, less, l)))
            (parents_of lower trim_space equal_fold sort_stable idx name)
            (key name ∷ state.0, state.1 ++ name ∷ []) (closed name) (omega arith) in
        (last, e, omega (arith, less, rest)))

  -- With names that hold the class and the parents of every class of the store, one more than their number
  -- is enough fuel: the lineage of a class is found, whatever cycles its parents form.
  pub class_lineage-ends :
      (known : List Bytes) (class_name : Bytes)
      → contains_code known class_name ≡ true
      → ((name : Bytes)
          → all_known known (parents_of lower trim_space equal_fold sort_stable idx name) ≡ true)
      → (lineage : List Bytes) × (class_lineage lower trim_space equal_fold sort_stable idx
            (suc (length known))
            class_name
          ≡ some lineage)
  unfolding class_lineage
  class_lineage-ends known class_name k closed =
      let few = unseen_le (lineage_key lower trim_space) known [] in
      let (state, e, _) =
        walk-Ends known closed (suc (length known)) class_name ([], []) k (omega (arith, few)) in
      (state.1, rw (e, class_lineage) refl)
