-- ===== src/Semantics/Identifiers.antt =====
-- server/indexer/indexer.go: containsPHPIdentifier and the places where an identifier stands alone.
use vscode_php_strom.Base.{
  ℕ, zero, suc, ◌+◌, ◌-◌, ◌≤◌, ◌<◌, ◌≡◌, refl, ap, sym, ◌∙◌, Bool, true, false, ◌&&◌, none, some,
  [], ◌∷◌, ◌++◌, &&-true, take, take-append-drop, length-take, drop-append, ◌==◌, leb,
  if◌then◌else◌, length, drop, drop-drop, drop-nil, length-drop, arith, inl, inr, Bool-cases,
  Option-cases, ◌↔◌, le→leb, ==_iff,
}
use vscode_php_strom.Text.{Bytes, has_prefix}
use vscode_php_strom.Semantics.Alone.{OccursAlone, stands_alone_iff}
use vscode_php_strom.Semantics.{index, stands_alone, identifier_loop, contains_php_identifier}

-- The tests of the code at byte `k`.
abbrev occurs_alone : Bytes → Bytes → ℕ → Bool
occurs_alone text identifier k =
    has_prefix identifier (drop k text) && stands_alone text identifier k

index-has_prefix : (s p : Bytes) (i : ℕ) → index s p ≡ some i → has_prefix p (drop i s) ≡ true
unfolding index
index-has_prefix [] p i h = elim (Bool-cases (has_prefix p [])) [
  | inl e ↦ rw (drop-nil {A = ℕ} i) e
  | inr e ↦ absurd (ground (arith, e, h))
]
index-has_prefix (c ∷ cs) p zero h = elim (Bool-cases (has_prefix p (c ∷ cs))) [
  | inl e ↦ e
  | inr e ↦ absurd (ground (arith, e, h))
]
index-has_prefix (c ∷ cs) p (suc i) h = elim (Bool-cases (has_prefix p (c ∷ cs))) [
  | inl e ↦ absurd (ground (arith, e, h))
  | inr e ↦ index-has_prefix cs p i (ground (arith, e, h))
]

-- The first place is not behind any other.
index-first :
    (s p : Bytes) (j : ℕ)
    → has_prefix p (drop j s) ≡ true
    → (i : ℕ) × (index s p ≡ some i) × (i ≤ j)
unfolding index
index-first [] p j h = (0, rw (sym (drop-nil {A = ℕ} j), h) refl, omega arith)
index-first (c ∷ cs) p zero h = (0, rw h refl, omega arith)
index-first (c ∷ cs) p (suc j) h = elim (Bool-cases (has_prefix p (c ∷ cs))) [
  | inl e ↦ (0, rw e refl, omega arith)
  | inr e ↦ let (i, f, le) = index-first cs p j h in (suc i, rw (e, f) refl, omega (arith, le))
]

length-has_prefix : (p s : Bytes) → has_prefix p s ≡ true → length p ≤ length s
unfolding has_prefix
length-has_prefix [] s h = omega arith
length-has_prefix (c ∷ p) [] h = cc
length-has_prefix (c ∷ p) (d ∷ s) h = ground (arith, length-has_prefix p s)

loop-short :
    (fuel : ℕ) (text p : Bytes) (start : ℕ)
    → leb (start + length p) (length text) ≡ false
    → identifier_loop (suc fuel) text p start ≡ false
unfolding identifier_loop
loop-short fuel text p start e = rw (e, identifier_loop) refl

loop-none :
    (fuel : ℕ) (text p : Bytes) (start : ℕ)
    → leb (start + length p) (length text) ≡ true
    → index (drop start text) p ≡ none
    → identifier_loop (suc fuel) text p start ≡ false
unfolding identifier_loop
loop-none fuel text p start e f = rw (e, identifier_loop) (rw (f, identifier_loop) refl)

loop-found :
    (fuel : ℕ) (text p : Bytes) (start i : ℕ)
    → leb (start + length p) (length text) ≡ true
    → index (drop start text) p ≡ some i
    → identifier_loop (suc fuel) text p start ≡ (
        if stands_alone text p (start + i)
        then true
        else identifier_loop fuel text p (start + i + 1))
unfolding identifier_loop
loop-found fuel text p start i e f = rw (e, identifier_loop) (rw (f, identifier_loop) refl)

prefix-found :
    (text p : Bytes) (start i : ℕ)
    → index (drop start text) p ≡ some i
    → has_prefix p (drop (start + i) text) ≡ true
prefix-found text p start i f =
    ap (has_prefix p) (sym (drop-drop i start text)) ∙ index-has_prefix (drop start text) p i f

loop-occurs :
    (fuel : ℕ) (text p : Bytes) (start : ℕ)
    → identifier_loop fuel text p start ≡ true
    → (k : ℕ) × (occurs_alone text p k ≡ true)
unfolding identifier_loop
loop-occurs zero text p start h = cc
loop-occurs (suc fuel) text p start h = elim (Bool-cases (leb (start + length p) (length text))) [
  | inr e ↦ cc (loop-short fuel text p start e)
  | inl e ↦ elim (Option-cases (index (drop start text) p)) [
    | inl f ↦ cc (loop-none fuel text p start e f)
    | inr (i, f) ↦
        let step = loop-found fuel text p start i e f in
        elim (Bool-cases (stands_alone text p (start + i))) [
          | inl a ↦ (start + i, rw (prefix-found text p start i f) a)
          | inr a ↦ loop-occurs fuel text p (start + i + 1) (ground (arith, a, h, step))
        ]
  ]
]

present : (text p : Bytes) (k : ℕ) → occurs_alone text p k ≡ true → length p ≤ length (drop k text)
present text p k o = length-has_prefix p (drop k text) (ground (arith, o))

behind_start :
    (text p : Bytes) (start k : ℕ)
    → start ≤ k
    → occurs_alone text p k ≡ true
    → has_prefix p (drop (k - start) (drop start text)) ≡ true
behind_start text p start k l o =
    let at : start + (k - start) ≡ k = omega arith in
    rw (drop-drop (k - start) start text, at) (ground (arith, o))

-- A match that does not stand alone is before one that does.
passed :
    (text p : Bytes) (start i k : ℕ)
    → start ≤ k
    → i ≤ k - start
    → stands_alone text p (start + i) ≡ false
    → occurs_alone text p k ≡ true
    → start + i + 1 ≤ k
passed text p start i k l le a o = elim (Bool-cases (start + i == k)) [
  | inl e ↦ absurd (ground (arith, a, o, ap (stands_alone text p) ((==_iff _ _).0 e)))
  | inr e ↦ ground (arith, e)
]

occurs-loop :
    (fuel : ℕ) (text p : Bytes) (start k : ℕ)
    → 0 < length p
    → start ≤ k
    → length text < fuel + start
    → occurs_alone text p k ≡ true
    → identifier_loop fuel text p start ≡ true
unfolding identifier_loop
occurs-loop zero text p start k h l m o =
    absurd (omega (arith, present text p k o, length-drop k text))
occurs-loop (suc fuel) text p start k h l m o =
    let fits = present text p k o in
    let long : leb (start + length p) (length text) ≡ true =
      le→leb _ _ (omega (arith, fits, length-drop k text)) in
    let (i, f, le) =
      index-first (drop start text) p (k - start) (behind_start text p start k l o) in
    let step = loop-found fuel text p start i long f in
    elim (Bool-cases (stands_alone text p (start + i))) [
      | inl a ↦ ground (arith, step, a)
      | inr a ↦
          let later : identifier_loop fuel text p (start + i + 1) ≡ true =
            occurs-loop fuel text p (start + i + 1) k h (passed text p start i k l le a o)
              (omega (arith, m)) o in
          ground (arith, step, a, later)
    ]

append-has_prefix : (p s : Bytes) → has_prefix p s ≡ true → s ≡ p ++ drop (length p) s
unfolding has_prefix
append-has_prefix [] s h = refl
append-has_prefix (c ∷ p) [] h = cc
append-has_prefix (c ∷ p) (d ∷ s) h = ground (arith, append-has_prefix p s)

has_prefix-append : (p s : Bytes) → has_prefix p (p ++ s) ≡ true
unfolding has_prefix
has_prefix-append [] s = refl
has_prefix-append (c ∷ p) s = ground (arith, has_prefix-append p s)

occurs_alone-OccursAlone :
    (text : Bytes) (c : ℕ) (cs : Bytes) (k : ℕ)
    → occurs_alone text (c ∷ cs) k ≡ true
    → OccursAlone text (c ∷ cs)
occurs_alone-OccursAlone text c cs k o =
    let p : Bytes = c ∷ cs in
    let (x, y) = &&-true (has_prefix p (drop k text)) (stands_alone text p k) o in
    let before = take k text in
    let after = drop (length p) (drop k text) in
    let e : text ≡ before ++ (p ++ after) =
      sym (take-append-drop k text) ∙ ap (λ r. before ++ r) (append-has_prefix p (drop k text) x) in
    let long : length before ≡ k =
      omega (arith, length-take k text, length-drop k text, present text p k o) in
    let parts = (stands_alone_iff before p after).0 (
      ap (stands_alone (before ++ (p ++ after)) p) long
      ∙ ap (λ t. stands_alone t p k) (sym e)
      ∙ y) in
    (before, after, e, parts.0, parts.1)

OccursAlone-occurs_alone :
    (text p : Bytes) → OccursAlone text p → (k : ℕ) × (occurs_alone text p k ≡ true)
OccursAlone-occurs_alone text p (before, after, e, x, y) = (
  length before,
  ap (λ t. occurs_alone t p (length before)) e
      ∙ rw (drop-append before (p ++ after), has_prefix-append p after)
          ((stands_alone_iff before p after).1 (x, y)),
)

-- An identifier that is not empty is found if and only if it stands in the text between two parts, of
-- which the one before does not end in, and the one behind does not begin with, a letter, a digit, `_`
-- or a byte outside ASCII.
pub contains_php_identifier_iff :
    (text : Bytes) (c : ℕ) (cs : Bytes)
    → (contains_php_identifier text (c ∷ cs) ≡ true) ↔ OccursAlone text (c ∷ cs)
unfolding contains_php_identifier
contains_php_identifier_iff text c cs = (
  λ h.
      let (k, o) = loop-occurs (suc (length text)) text (c ∷ cs) 0 h in
      occurs_alone-OccursAlone text c cs k o,
  λ a.
      let (k, o) = OccursAlone-occurs_alone text (c ∷ cs) a in
      occurs-loop (suc (length text)) text (c ∷ cs) 0 k (omega arith) (omega arith) (omega arith) o,
)
