-- ===== src/Server/Number.antt =====
-- server/phpstrom/server.go: the numbers of a header, strconv.Atoi on 64 bits and the verb %d.
use vscode_php_strom.Base.{
  ℕ, zero, suc, ◌+◌, ◌-◌, ◌*◌, ◌/◌, ◌%◌, ◌≤◌, ◌<◌, ◌≡◌, refl, ap, ◌∙◌, Option, none, some, [], ◌∷◌,
  ◌++◌, arith, ◌==◌, ltb, leb, ◌&&◌, if◌then◌else◌, inl, inr, Bool-cases, ltb→lt, sym, ==_ne,
}
use vscode_php_strom.Text.{Bytes}

-- `negsuc n` is -(n + 1).
pub data ℤ : Type 0 where
  pos : ℕ → ℤ
  negsuc : ℕ → ℤ

abbrev pub neg : ℕ → ℤ
neg zero = ℤ.pos 0
neg (suc n) = ℤ.negsuc n

abbrev pub int_max : ℕ
int_max = 9223372036854775807

-- The digits behind a value that was read.
unfoldable pub digits_from : ℕ → Bytes → Option ℕ
digits_from v [] = some v
digits_from v (c ∷ cs) =
    if leb b'0' c && leb c b'9' then digits_from (v * 10 + (c - b'0')) cs else none

unfoldable pub magnitude : Bytes → Option ℕ
unfolding digits_from
magnitude [] = none
magnitude (c ∷ cs) = digits_from 0 (c ∷ cs)

-- `strconv.Atoi`, with `none` for its errors of syntax and of range.
unfoldable pub atoi : Bytes → Option ℤ
unfolding magnitude
atoi s = elim s [
  | [] ↦ none
  | c ∷ cs ↦
      if c == b'-'
      then elim (magnitude cs) [
        | none ↦ none
        | some n ↦ if leb n (int_max + 1) then some (neg n) else none
      ]
      else elim (magnitude (if c == b'+' then cs else c ∷ cs)) [
        | none ↦ none
        | some n ↦ if leb n int_max then some (ℤ.pos n) else none
      ]
]

-- The digits of `n`, which has at most `fuel` of them.
unfoldable pub decimal_loop : ℕ → ℕ → Bytes
decimal_loop zero n = []
decimal_loop (suc fuel) n =
    let high = decimal_loop fuel (n / 10) in
    if ltb n 10 then (b'0' + n) ∷ [] else high ++ (b'0' + n % 10) ∷ []

-- A number has no more digits than its successor.
unfoldable pub decimal : ℕ → Bytes
unfolding decimal_loop
decimal n = decimal_loop (suc n) n

digits_from-append :
    (v w d : ℕ) (xs : Bytes)
    → digits_from v xs ≡ some w
    → d < 10
    → digits_from v (xs ++ (b'0' + d) ∷ []) ≡ some (w * 10 + d)
unfolding digits_from
digits_from-append v w d [] h k = ground arith
digits_from-append v w d (c ∷ cs) h k =
    ground (arith, digits_from-append (v * 10 + (c - b'0')) w d cs)

last_digit : (n : ℕ) → n < 10 → digits_from 0 ((b'0' + n) ∷ []) ≡ some n
unfolding digits_from
last_digit n h = ground arith

digits_from-decimal_loop : (fuel n : ℕ) → n < fuel → digits_from 0 (decimal_loop fuel n) ≡ some n
unfolding decimal_loop
digits_from-decimal_loop zero n h = absurd (omega arith)
digits_from-decimal_loop (suc fuel) n h = elim (Bool-cases (ltb n 10)) [
  | inl e ↦ rw e (last_digit n (ltb→lt n 10 e))
  | inr e ↦ rw e (
      digits_from-append 0 (n / 10) (n % 10) (decimal_loop fuel (n / 10))
        (digits_from-decimal_loop fuel (n / 10) (ground (arith, e))) (omega arith)
      ∙ ap some (omega arith))
]

-- The first character of a number is a digit.
digit_first :
    (fuel n : ℕ)
    → n < fuel
    → (c : ℕ) × (cs : Bytes) × (decimal_loop fuel n ≡ c ∷ cs) × (b'0' ≤ c) × (c ≤ b'9')
unfolding decimal_loop
digit_first zero n h = absurd (omega arith)
digit_first (suc fuel) n h = elim (Bool-cases (ltb n 10)) [
  | inl e ↦ rw e (b'0' + n, [], refl, omega arith, omega (arith, ltb→lt n 10 e))
  | inr e ↦
      let (c, cs, f, lo, hi) = digit_first fuel (n / 10) (ground (arith, e)) in
      rw (e, f) (c, cs ++ (b'0' + n % 10) ∷ [], refl, lo, hi)
]

atoi_digits :
    (c : ℕ) (cs : Bytes) (n : ℕ)
    → b'0' ≤ c
    → c ≤ b'9'
    → digits_from 0 (c ∷ cs) ≡ some n
    → n ≤ int_max
    → atoi (c ∷ cs) ≡ some (ℤ.pos n)
unfolding atoi
atoi_digits c cs n lo hi h small =
    rw (==_ne c b'-' (omega arith), ==_ne c b'+' (omega arith), atoi)
      (rw (h, magnitude) (ground (arith, h, small)))

-- Atoi reads back what %d prints.
pub atoi-decimal : (n : ℕ) → n ≤ int_max → atoi (decimal n) ≡ some (ℤ.pos n)
unfolding decimal
atoi-decimal n h =
    let (c, cs, f, lo, hi) = digit_first (suc n) n (omega arith) in
    ap atoi f
    ∙ atoi_digits c cs n lo hi
        (ap (digits_from 0) (sym f) ∙ digits_from-decimal_loop (suc n) n (omega arith)) h
