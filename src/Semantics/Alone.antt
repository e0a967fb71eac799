-- ===== src/Semantics/Alone.antt =====
-- server/indexer/indexer.go: when an identifier stands alone in a text, and the tests of
-- containsPHPIdentifier around a match.
use vscode_php_strom.Base.{
  ℕ, suc, ◌+◌, ◌-◌, ◌≤◌, ◌≡◌, refl, ap, sym, ◌∙◌, Bool, true, false, not, ◌||◌, [], ◌∷◌, ◌++◌, ◌==◌,
  ◌⊎◌, inl, inr, ◌↔◌, arith, length, length-append, append_assoc, append-nil, &&-true, ==_refl,
  Bool-cases, last_cases, last_unique,
}
use vscode_php_strom.Text.{Bytes, byte_at}
use vscode_php_strom.Semantics.{is_php_identifier_byte, stands_alone}

-- The bytes of PHP identifiers.
abbrev pub IsWordByte : ℕ → Type 0
IsWordByte b =
    (b ≡ b'_')
    ⊎ (128 ≤ b)
    ⊎ ((b'a' ≤ b) × (b ≤ b'z'))
    ⊎ ((b'A' ≤ b) × (b ≤ b'Z'))
    ⊎ ((b'0' ≤ b) × (b ≤ b'9'))

-- A text that is empty or ends in another byte.
abbrev pub EndsOutside : Bytes → Type 0
EndsOutside s = (s ≡ []) ⊎ ((t : Bytes) × (b : ℕ) × (s ≡ t ++ b ∷ []) × (¬ IsWordByte b))

-- A text that is empty or begins with another byte.
abbrev pub BeginsOutside : Bytes → Type 0
BeginsOutside s = (s ≡ []) ⊎ ((b : ℕ) × (t : Bytes) × (s ≡ b ∷ t) × (¬ IsWordByte b))

-- The identifier is in the text, between two parts of it that do not go on with it.
abbrev pub OccursAlone : Bytes → Bytes → Type 0
OccursAlone text identifier =
    (before : Bytes) × (after : Bytes) × (text ≡ before ++ (identifier ++ after))
    × EndsOutside before
    × BeginsOutside after

is_php_identifier_byte_iff : (b : ℕ) → (is_php_identifier_byte b ≡ true) ↔ IsWordByte b
unfolding is_php_identifier_byte
is_php_identifier_byte_iff b = ground arith

byte_at-append : (t : Bytes) (b : ℕ) (s : Bytes) → byte_at (t ++ b ∷ s) (length t) ≡ b
byte_at-append [] b s = refl
byte_at-append (x ∷ t) b s = byte_at-append t b s

-- The test of the byte before a match.
abbrev free_before : Bytes → ℕ → Bool
free_before text start = start == 0 || not (is_php_identifier_byte (byte_at text (start - 1)))

-- The test of the byte behind a match.
abbrev free_behind : Bytes → ℕ → Bool
free_behind text end = end == length text || not (is_php_identifier_byte (byte_at text end))

outside_iff : (b : ℕ) → (not (is_php_identifier_byte b) ≡ true) ↔ (¬ IsWordByte b)
outside_iff b = elim (Bool-cases (is_php_identifier_byte b)) [
  | inl e ↦ (λ h. cc, λ h. absurd (h ((is_php_identifier_byte_iff b).0 e)))
  | inr e ↦ (λ h w. cc ((is_php_identifier_byte_iff b).1 w), λ h. rw e refl)
]

free_before-last :
    (t : Bytes) (b : ℕ) (rest : Bytes)
    → free_before ((t ++ b ∷ []) ++ rest) (length (t ++ b ∷ [])) ≡ not (is_php_identifier_byte b)
free_before-last t b rest =
    let long : length (t ++ b ∷ []) ≡ suc (length t) = omega (arith, length-append t (b ∷ [])) in
    let less : suc (length t) - 1 ≡ length t = omega arith in
    let positive : (suc (length t) == 0) ≡ false = ground arith in
    rw (long, positive, less, append_assoc t (b ∷ []) rest, byte_at-append t b rest) refl

last_outside :
    (before t : Bytes) (b : ℕ) → before ≡ t ++ b ∷ [] → EndsOutside before → ¬ IsWordByte b
last_outside before [] b e (inl f) = cc
last_outside before (x ∷ t) b e (inl f) = cc
last_outside before t b e (inr (u, c, f, h)) =
    let same : c ≡ b = last_unique u t c b (sym f ∙ e) in rw (← same) h

first_outside : (b : ℕ) (t : Bytes) → BeginsOutside (b ∷ t) → ¬ IsWordByte b
first_outside b t (inl f) = cc
first_outside b t (inr (c, u, f, h)) = let same : c ≡ b = cc in rw (← same) h

free_before_iff :
    (before rest : Bytes)
    → (free_before (before ++ rest) (length before) ≡ true) ↔ EndsOutside before
free_before_iff before rest = elim (last_cases before) [
  | inl e ↦ (λ h. inl e, λ h. rw e refl)
  | inr (t, b, e) ↦
      let last : free_before (before ++ rest) (length before) ≡ not (is_php_identifier_byte b) =
        ap (λ s. free_before (s ++ rest) (length s)) e ∙ free_before-last t b rest in
      (
        λ h. inr (t, b, e, (outside_iff b).0 (sym last ∙ h)),
        λ o. last ∙ (outside_iff b).1 (last_outside before t b e o),
      )
]

free_behind_iff :
    (front after : Bytes)
    → (free_behind (front ++ after) (length front) ≡ true) ↔ BeginsOutside after
free_behind_iff front [] = (λ h. inl refl, λ h. rw (append-nil front, ==_refl (length front)) refl)
free_behind_iff front (b ∷ t) =
    let here : free_behind (front ++ b ∷ t) (length front) ≡ not (is_php_identifier_byte b) =
      let more : (length front == length (front ++ b ∷ t)) ≡ false =
        ground (arith, length-append front (b ∷ t)) in
      rw (more, byte_at-append front b t) refl in
    (
      λ h. inr (b, t, refl, (outside_iff b).0 (sym here ∙ h)),
      λ o. here ∙ (outside_iff b).1 (first_outside b t o),
    )

pub stands_alone_iff :
    (before p after : Bytes)
    → (stands_alone (before ++ (p ++ after)) p (length before) ≡ true)
      ↔ (EndsOutside before × BeginsOutside after)
unfolding stands_alone
stands_alone_iff before p after =
    let text = before ++ (p ++ after) in
    let front = free_before_iff before (p ++ after) in
    let same : free_behind text (length before + length p)
        ≡ free_behind ((before ++ p) ++ after) (length (before ++ p)) =
      rw (append_assoc before p after, length-append before p) refl in
    let behind = free_behind_iff (before ++ p) after in
    (
      λ h.
          let (x, y) =
            &&-true (free_before text (length before)) (free_behind text (length before + length p))
              h in
          (front.0 x, behind.0 (sym same ∙ y)),
      λ o. rw (front.1 o.0, same ∙ behind.1 o.1) refl,
    )
