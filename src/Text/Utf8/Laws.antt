-- ===== src/Text/Utf8/Laws.antt =====
-- Laws of decoding: widths, and what an appended tail changes.
use vscode_php_strom.Base.{
  ℕ, zero, suc, ◌+◌, ◌-◌, ◌≤◌, ◌<◌, ◌≡◌, refl, ap, true, false, ◌&&◌, List, [], ◌∷◌, ◌++◌, arith,
  length, lt→ltb,
}
use vscode_php_strom.Text.Utf8.{
  decode_rune, runes_after, runes, rune_len, utf16_len, invalid, valid_runes, valid_string, units,
  widths,
}

pub decode_rune-pos : (c : ℕ) (cs : List ℕ) → 1 ≤ (decode_rune (c ∷ cs)).1
unfolding decode_rune
decode_rune-pos c (d ∷ e ∷ f ∷ ds) = ground arith
decode_rune-pos c _ = ground arith

pub decode_rune-le : (c : ℕ) (cs : List ℕ) → (decode_rune (c ∷ cs)).1 ≤ length (c ∷ cs)
unfolding decode_rune
decode_rune-le c (d ∷ e ∷ f ∷ ds) = ground arith
decode_rune-le c _ = ground arith

-- Decoding looks past a byte only at bytes that continue a sequence.
decode_rune-ascii :
    (c : ℕ) (cs : List ℕ) (n : ℕ) (rest : List ℕ)
    → n < 128
    → decode_rune (c ∷ (cs ++ n ∷ rest)) ≡ decode_rune (c ∷ cs)
unfolding decode_rune
decode_rune-ascii c [] n [] h = ground arith
decode_rune-ascii c [] n (r ∷ []) h = ground arith
decode_rune-ascii c [] n (r ∷ q ∷ rest) h = ground arith
decode_rune-ascii c (d ∷ []) n [] h = ground arith
decode_rune-ascii c (d ∷ []) n (r ∷ rest) h = ground arith
decode_rune-ascii c (d ∷ e ∷ []) n rest h = ground arith
decode_rune-ascii c (d ∷ e ∷ f ∷ ds) n rest h = ground arith

-- A well-formed first rune does not depend on what follows.
decode_rune-append :
    (c : ℕ) (cs rest : List ℕ)
    → invalid (decode_rune (c ∷ cs)) ≡ false
    → decode_rune (c ∷ (cs ++ rest)) ≡ decode_rune (c ∷ cs)
unfolding decode_rune
decode_rune-append c [] rest h = ground arith
decode_rune-append c (d ∷ []) rest h = ground arith
decode_rune-append c (d ∷ e ∷ []) rest h = ground arith
decode_rune-append c (d ∷ e ∷ f ∷ ds) rest h = ground arith

-- The rune's own length is the width that it was read with, if it is well formed.
pub rune_len-decode_rune :
    (c : ℕ) (cs : List ℕ)
    → invalid (decode_rune (c ∷ cs)) ≡ false
    → rune_len (decode_rune (c ∷ cs)).0 ≡ (decode_rune (c ∷ cs)).1
unfolding decode_rune rune_len
rune_len-decode_rune c (d ∷ e ∷ f ∷ ds) h = ground arith
rune_len-decode_rune c (d ∷ e ∷ []) h = ground arith
rune_len-decode_rune c (d ∷ []) h = ground arith
rune_len-decode_rune c [] h = ground arith

pub utf16_len-pos : (r : ℕ) → 1 ≤ utf16_len r
unfolding utf16_len
utf16_len-pos r = ground arith

pub utf16_len-decode_rune :
    (c : ℕ) (cs : List ℕ) → utf16_len (decode_rune (c ∷ cs)).0 ≤ (decode_rune (c ∷ cs)).1
unfolding decode_rune utf16_len
utf16_len-decode_rune c (d ∷ e ∷ f ∷ ds) = ground arith
utf16_len-decode_rune c (d ∷ e ∷ []) = ground arith
utf16_len-decode_rune c (d ∷ []) = ground arith
utf16_len-decode_rune c [] = ground arith

widths-runes_after :
    (skip : ℕ) (s : List ℕ) → skip ≤ length s → skip + widths (runes_after skip s) ≡ length s
unfolding runes_after
widths-runes_after zero [] h = omega arith
widths-runes_after (suc skip) [] h = absurd (omega arith)
widths-runes_after (suc skip) (c ∷ cs) h = omega (arith, widths-runes_after skip cs (omega arith))
widths-runes_after zero (c ∷ cs) h =
    let lo = decode_rune-pos c cs in
    let hi = decode_rune-le c cs in
    omega (arith, widths-runes_after ((decode_rune (c ∷ cs)).1 - 1) cs (omega arith))

-- The runes of a string cover its bytes.
pub widths-runes : (s : List ℕ) → widths (runes s) ≡ length s
widths-runes s = omega (arith, widths-runes_after 0 s (omega arith))

pub valid_runes-append :
    (xs ys : List (ℕ × ℕ)) → valid_runes (xs ++ ys) ≡ (valid_runes xs && valid_runes ys)
valid_runes-append [] ys = refl
valid_runes-append (x ∷ xs) ys = ground (arith, valid_runes-append xs ys)

pub units-append : (xs ys : List (ℕ × ℕ)) → units (xs ++ ys) ≡ units xs + units ys
units-append [] ys = omega arith
units-append (x ∷ xs) ys = omega (arith, units-append xs ys)

runes_after-ascii :
    (skip : ℕ) (a : List ℕ) (n : ℕ) (rest : List ℕ)
    → n < 128
    → skip ≤ length a
    → runes_after skip (a ++ n ∷ rest) ≡ runes_after skip a ++ runes (n ∷ rest)
unfolding runes_after
runes_after-ascii zero [] n rest h k = refl
runes_after-ascii (suc skip) [] n rest h k = absurd (omega arith)
runes_after-ascii (suc skip) (c ∷ cs) n rest h k = runes_after-ascii skip cs n rest h (omega arith)
runes_after-ascii zero (c ∷ cs) n rest h k =
    let hi = decode_rune-le c cs in
    let lo = decode_rune-pos c cs in
    rw (decode_rune-ascii c cs n rest h) (
      ap (◌∷◌ (decode_rune (c ∷ cs)))
        (runes_after-ascii ((decode_rune (c ∷ cs)).1 - 1) cs n rest h (omega arith)))

-- A string may be cut before an ASCII byte.
pub runes_ascii :
    (a : List ℕ) (n : ℕ) (rest : List ℕ)
    → n < 128
    → runes (a ++ n ∷ rest) ≡ runes a ++ runes (n ∷ rest)
runes_ascii a n rest h = runes_after-ascii 0 a n rest h (omega arith)

runes_after-append :
    (skip : ℕ) (a b : List ℕ)
    → skip ≤ length a
    → valid_runes (runes_after skip a) ≡ true
    → runes_after skip (a ++ b) ≡ runes_after skip a ++ runes b
unfolding runes_after
runes_after-append zero [] b k v = refl
runes_after-append (suc skip) [] b k v = absurd (omega arith)
runes_after-append (suc skip) (c ∷ cs) b k v = runes_after-append skip cs b (omega arith) v
runes_after-append zero (c ∷ cs) b k v =
    let hi = decode_rune-le c cs in
    let lo = decode_rune-pos c cs in
    rw (decode_rune-append c cs b (ground arith)) (
      ap (◌∷◌ (decode_rune (c ∷ cs)))
        (runes_after-append ((decode_rune (c ∷ cs)).1 - 1) cs b (omega arith) (ground arith)))

-- A well-formed string may be cut off in front.
pub runes-append : (a b : List ℕ) → valid_string a ≡ true → runes (a ++ b) ≡ runes a ++ runes b
runes-append a b v = runes_after-append 0 a b (omega arith) v

pub runes-cons_ascii : (n : ℕ) (rest : List ℕ) → n < 128 → runes (n ∷ rest) ≡ (n, 1) ∷ runes rest
unfolding runes_after decode_rune
runes-cons_ascii n rest h = rw (lt→ltb n 128 h)
