-- ===== src/Signature/Callee.antt =====
-- server/providers/signature_help.go: findCalleeAndParam on the arguments of an open call.
use vscode_php_strom.Base.{
  ℕ, zero, suc, ◌+◌, ◌-◌, ◌≤◌, ◌<◌, ◌≡◌, refl, ap, sym, ◌∙◌, Bool, true, false, not, ◌&&◌, ◌||◌, [],
  ◌∷◌, ◌++◌, append_assoc, append-nil, arith, ◌==◌, ltb, if◌then◌else◌, length, take, length-append,
  take-append, take-append_le,
}
use vscode_php_strom.Text.{Bytes, byte_at}
use vscode_php_strom.Signature.{extract_callee, closes, find_loop, find_callee_and_param}

-- A byte that is no bracket.
abbrev pub plain : ℕ → Bool
plain c = not (closes c || c == b'(' || c == b'[' || c == b'{')

-- Text in which every parenthesis is closed, without other brackets.
pub data Balanced : Bytes → Type 0 where
  empty : Balanced []
  char : {t : Bytes} (c : ℕ) → plain c ≡ true → Balanced t → Balanced (t ++ c ∷ [])
  group : {t u : Bytes} → Balanced t → Balanced u → Balanced (t ++ b'(' ∷ (u ++ b')' ∷ []))

-- Arguments up to the cursor, with so many commas that are not in parentheses. A colon stands behind the
-- name of a named argument, or is one of two.
pub data Arguments : ℕ → Bytes → Type 0 where
  start : Arguments 0 []
  char :
      {n : ℕ} {t : Bytes} (c : ℕ)
      → plain c ≡ true
      → (c == b',' || c == b':') ≡ false
      → Arguments n t
      → Arguments n (t ++ c ∷ [])
  colon : {n : ℕ} {t : Bytes} → Arguments n t → Arguments n (t ++ b':' ∷ [])
  comma : {n : ℕ} {t : Bytes} → Arguments n t → Arguments (suc n) (t ++ b',' ∷ [])
  group :
      {n : ℕ} {t u : Bytes}
      → Arguments n t
      → Balanced u
      → Arguments n (t ++ b'(' ∷ (u ++ b')' ∷ []))

byte_at-append_lt : (i : ℕ) (a z : Bytes) → i < length a → byte_at (a ++ z) i ≡ byte_at a i
byte_at-append_lt i [] z h = absurd (omega arith)
byte_at-append_lt zero (c ∷ a) z h = refl
byte_at-append_lt (suc i) (c ∷ a) z h = byte_at-append_lt i a z (omega arith)

byte_at-last : (a : Bytes) (c : ℕ) → byte_at (a ++ c ∷ []) (length a) ≡ c
byte_at-last [] c = refl
byte_at-last (b ∷ a) c = byte_at-last a c

-- The scan of a whole text.
abbrev scan : Bytes → ℕ → ℕ → Bytes × ℕ
scan src depth commas = find_loop src (length src) depth commas

-- The depth and the commas before a byte.
abbrev depth_before : ℕ → ℕ → ℕ
depth_before c depth =
    if closes c then suc depth else if c == b'(' && ltb 0 depth then depth - 1 else depth

abbrev commas_before : ℕ → ℕ → ℕ → ℕ
commas_before c depth commas = if c == b',' && depth == 0 then suc commas else commas

-- The result at a byte, for the callee before it and the result of the rest.
abbrev at_byte : ℕ → ℕ → ℕ → Bytes → Bytes × ℕ → Bytes × ℕ
at_byte c depth commas callee outer =
    if c == b'(' && depth == 0
    then elim callee [ [] ↦ outer | b ∷ bs ↦ (b ∷ bs, commas) ]
    else outer

find_loop-zero :
    (a b : Bytes) (depth commas : ℕ) → find_loop a zero depth commas ≡ find_loop b zero depth commas
unfolding find_loop
find_loop-zero a b depth commas = refl

find_loop-suc :
    (src : Bytes) (i depth commas : ℕ)
    → find_loop src (suc i) depth commas
      ≡ at_byte (byte_at src i) depth commas (extract_callee (take i src)) (
          find_loop src i
            (depth_before (byte_at src i) depth)
            (commas_before (byte_at src i) depth commas))
unfolding find_loop
find_loop-suc src i depth commas = refl

find_loop-step :
    (src : Bytes) (i depth commas c : ℕ) (before : Bytes) (outer : Bytes × ℕ)
    → byte_at src i ≡ c
    → take i src ≡ before
    → find_loop src i (depth_before c depth) (commas_before c depth commas) ≡ outer
    → find_loop src (suc i) depth commas ≡ at_byte c depth commas (extract_callee before) outer
find_loop-step src i depth commas c before outer e f g =
    find_loop-suc src i depth commas
    ∙ ap
        (λ x.
          at_byte x depth commas (extract_callee (take i src))
            (find_loop src i (depth_before x depth) (commas_before x depth commas)))
        e
    ∙ ap
        (λ t.
          at_byte c depth commas (extract_callee t)
            (find_loop src i (depth_before c depth) (commas_before c depth commas)))
        f
    ∙ ap (at_byte c depth commas (extract_callee before)) g

-- The scan reads nothing behind its place.
find_loop-append :
    (i : ℕ) (a z : Bytes) (depth commas : ℕ)
    → i ≤ length a
    → find_loop (a ++ z) i depth commas ≡ find_loop a i depth commas
find_loop-append zero a z depth commas h = find_loop-zero (a ++ z) a depth commas
find_loop-append (suc i) a z depth commas h =
    let c = byte_at a i in
    find_loop-step (a ++ z) i depth commas c (take i a)
      (find_loop a i (depth_before c depth) (commas_before c depth commas))
      (byte_at-append_lt i a z (omega (arith, h))) (take-append_le i a z (omega (arith, h)))
      (find_loop-append i a z (depth_before c depth) (commas_before c depth commas)
        (omega (arith, h)))
    ∙ sym (find_loop-suc a i depth commas)

scan-step :
    (a : Bytes) (c depth commas : ℕ)
    → scan (a ++ c ∷ []) depth commas
      ≡ at_byte c depth commas
          (extract_callee a)
          (scan a (depth_before c depth) (commas_before c depth commas))
scan-step a c depth commas =
    ap (λ n. find_loop (a ++ c ∷ []) n depth commas)
      (let e : length (a ++ c ∷ []) ≡ suc (length a) = omega (arith, length-append a (c ∷ [])) in e)
    ∙ find_loop-step (a ++ c ∷ []) (length a) depth commas c a
        (scan a (depth_before c depth) (commas_before c depth commas)) (byte_at-last a c)
        (take-append a (c ∷ []))
        (find_loop-append (length a) a (c ∷ []) (depth_before c depth)
          (commas_before c depth commas) (omega arith))

scan-plain :
    (a : Bytes) (c depth commas : ℕ)
    → plain c ≡ true
    → (c == b',' && depth == 0) ≡ false
    → scan (a ++ c ∷ []) depth commas ≡ scan a depth commas
scan-plain a c depth commas p h =
    let closing : closes c ≡ false = ground (arith, p) in
    let opening : (c == b'(') ≡ false = ground (arith, p) in
    scan-step a c depth commas ∙ rw opening (rw closing (rw h refl))

scan-open :
    (a : Bytes) (depth commas : ℕ) → scan (a ++ b'(' ∷ []) (suc depth) commas ≡ scan a depth commas
scan-open a depth commas =
    let positive : (suc depth == 0) ≡ false = ground arith in
    let above : ltb 0 (suc depth) ≡ true = ground arith in
    let less : suc depth - 1 ≡ depth = omega arith in
    scan-step a b'(' (suc depth) commas ∙ rw (positive, above, less) refl

scan-close :
    (a : Bytes) (depth commas : ℕ) → scan (a ++ b')' ∷ []) depth commas ≡ scan a (suc depth) commas
scan-close a depth commas = scan-step a b')' depth commas

-- A group in parentheses, behind some text.
group-append :
    (a t u : Bytes)
    → a ++ (t ++ b'(' ∷ (u ++ b')' ∷ [])) ≡ (((a ++ t) ++ b'(' ∷ []) ++ u) ++ b')' ∷ []
group-append a t u =
    sym (append_assoc a t (b'(' ∷ (u ++ b')' ∷ [])))
    ∙ sym (append_assoc (a ++ t) (b'(' ∷ []) (u ++ b')' ∷ []))
    ∙ sym (append_assoc ((a ++ t) ++ b'(' ∷ []) u (b')' ∷ []))

-- Balanced text is passed over inside parentheses.
scan-Balanced :
    {t : Bytes} (a : Bytes) (depth commas : ℕ)
    → Balanced t
    → scan (a ++ t) (suc depth) commas ≡ scan a (suc depth) commas
scan-Balanced a depth commas empty = ap (λ s. scan s (suc depth) commas) (append-nil a)
scan-Balanced a depth commas (char {t} c p b) =
    ap (λ s. scan s (suc depth) commas) (sym (append_assoc a t (c ∷ [])))
    ∙ scan-plain (a ++ t) c (suc depth) commas p (ground arith)
    ∙ scan-Balanced a depth commas b
scan-Balanced a depth commas (group {t} {u} b d) =
    ap (λ s. scan s (suc depth) commas) (group-append a t u)
    ∙ scan-close (((a ++ t) ++ b'(' ∷ []) ++ u) (suc depth) commas
    ∙ scan-Balanced ((a ++ t) ++ b'(' ∷ []) (suc depth) commas d
    ∙ scan-open (a ++ t) (suc depth) commas
    ∙ scan-Balanced a depth commas b

-- The commas of arguments are counted on the way to the call.
scan-Arguments :
    {n : ℕ} {t : Bytes} (a : Bytes) (commas : ℕ)
    → Arguments n t
    → scan (a ++ t) 0 commas ≡ scan a 0 (n + commas)
scan-Arguments a commas start =
    ap (λ s. scan s 0 commas) (append-nil a)
    ∙ ap (scan a 0) (let e : commas ≡ 0 + commas = omega arith in e)
scan-Arguments a commas (char {n} {t} c p h b) =
    ap (λ s. scan s 0 commas) (sym (append_assoc a t (c ∷ [])))
    ∙ scan-plain (a ++ t) c 0 commas p (ground (arith, h))
    ∙ scan-Arguments a commas b
scan-Arguments a commas (colon {n} {t} b) =
    ap (λ s. scan s 0 commas) (sym (append_assoc a t (b':' ∷ [])))
    ∙ scan-plain (a ++ t) b':' 0 commas refl refl
    ∙ scan-Arguments a commas b
scan-Arguments a commas (comma {n} {t} b) =
    ap (λ s. scan s 0 commas) (sym (append_assoc a t (b',' ∷ [])))
    ∙ scan-step (a ++ t) b',' 0 commas
    ∙ scan-Arguments a (suc commas) b
    ∙ ap (scan a 0) (let e : n + suc commas ≡ suc n + commas = omega arith in e)
scan-Arguments a commas (group {n} {t} {u} b d) =
    ap (λ s. scan s 0 commas) (group-append a t u)
    ∙ scan-close (((a ++ t) ++ b'(' ∷ []) ++ u) 0 commas
    ∙ scan-Balanced ((a ++ t) ++ b'(' ∷ []) 0 commas d
    ∙ scan-open (a ++ t) 0 commas
    ∙ scan-Arguments a commas b

-- Behind a callee, an open parenthesis and arguments whose only brackets are closed parentheses, the
-- callee is found, and the active parameter is the number of commas that are not in parentheses, also
-- where arguments are named: a name and its colon change nothing.
pub find_callee_and_param-Arguments :
    (before : Bytes) (c : ℕ) (cs : Bytes) {n : ℕ} {arguments : Bytes}
    → extract_callee before ≡ c ∷ cs
    → Arguments n arguments
    → find_callee_and_param (before ++ b'(' ∷ arguments) ≡ (c ∷ cs, n)
unfolding find_callee_and_param
find_callee_and_param-Arguments before c cs {n} {arguments} h b =
    ap (λ s. scan s 0 0) (sym (append_assoc before (b'(' ∷ []) arguments))
    ∙ scan-Arguments (before ++ b'(' ∷ []) 0 b
    ∙ scan-step before b'(' 0 (n + 0)
    ∙ rw h (ap (λ k. (c ∷ cs, k)) (let e : n + 0 ≡ n = omega arith in e))
