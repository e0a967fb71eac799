-- ===== src/SourcePosition/Lines.antt =====
-- server/providers/source_position.go and server/phpstrom/documents.go: where the lines of a text
-- start and end, by recursion on the text, and the line table and the newline search as the same.
use native.Mathlib.Nat.{add-zero}
use vscode_php_strom.Base.{
  ℕ, zero, suc, ◌+◌, ◌-◌, ◌≤◌, ◌<◌, ◌≡◌, refl, sym, ap, ◌∙◌, Option, none, some, List, [], ◌∷◌,
  arith, ◌==◌, if◌then◌else◌, length, get_elem?, get_or, take, drop, inl, inr, Bool-cases,
  Option-cases, length-drop, take_all,
}
use vscode_php_strom.Text.{Bytes, index_byte, slice}
use vscode_php_strom.SourcePosition.{newline_ends, new_source_position_mapper, line_end}

abbrev pub shift : ℕ → Option ℕ → Option ℕ
shift k none = none
shift k (some n) = some (k + n)

-- The number of newlines.
abbrev pub newlines : Bytes → ℕ
newlines [] = 0
newlines (c ∷ cs) = (if c == b'\n' then 1 else 0) + newlines cs

-- The offset at which line `n` starts.
unfoldable pub line_start : ℕ → Bytes → Option ℕ
line_start zero s = some 0
line_start (suc n) [] = none
line_start (suc n) (c ∷ cs) =
    let behind = shift 1 (line_start n cs) in
    let further = shift 1 (line_start (suc n) cs) in if c == b'\n' then behind else further

pub shift-shift : (a b c : ℕ) (o : Option ℕ) → c ≡ a + b → shift a (shift b o) ≡ shift c o
shift-shift a b c none h = refl
shift-shift a b c (some n) h = ground arith

newline_ends-line_start :
    (i : ℕ) (s : Bytes) (n : ℕ) → get_elem? (newline_ends i s) n ≡ shift i (line_start (suc n) s)
unfolding newline_ends line_start
newline_ends-line_start i [] n = refl
newline_ends-line_start i (c ∷ cs) zero =
    ground
      (arith, newline_ends-line_start (i + 1) cs zero, shift-shift i 1 (i + 1) (line_start 1 cs))
newline_ends-line_start i (c ∷ cs) (suc n) = ground (
  arith,
  newline_ends-line_start (i + 1) cs n,
  newline_ends-line_start (i + 1) cs (suc n),
  shift-shift i 1 (i + 1) (line_start (suc n) cs),
  shift-shift i 1 (i + 1) (line_start (suc (suc n)) cs),
)

shift-zero : (o : Option ℕ) → shift 0 o ≡ o
shift-zero none = refl
shift-zero (some n) = ground arith

-- Entry `n` of the line table is where line `n` starts.
pub line_starts-line_start :
    (s : Bytes) (n : ℕ) → get_elem? (new_source_position_mapper s).line_starts n ≡ line_start n s
unfolding new_source_position_mapper line_start
line_starts-line_start s zero = refl
line_starts-line_start s (suc n) = newline_ends-line_start 0 s n ∙ shift-zero (line_start (suc n) s)

pub get_elem?-some :
    (xs : List ℕ) (n : ℕ) {k : ℕ} → get_elem? xs n ≡ some k → (n < length xs) × (get_or xs n 0 ≡ k)
get_elem?-some [] n h = cc
get_elem?-some (x ∷ xs) zero h = (omega arith, ground arith)
get_elem?-some (x ∷ xs) (suc n) h = let (a, b) = get_elem?-some xs n h in (omega arith, b)

pub get_elem?-none : (xs : List ℕ) (n : ℕ) → get_elem? xs n ≡ none → length xs ≤ n
get_elem?-none [] n h = omega arith
get_elem?-none (x ∷ xs) zero h = absurd (cc)
get_elem?-none (x ∷ xs) (suc n) h = omega (arith, get_elem?-none xs n h)

abbrev newline_after : ℕ → Bytes → Option ℕ
newline_after k s = elim (index_byte b'\n' (drop k s)) [ none ↦ none | some i ↦ some (k + (i + 1)) ]

newline_after-suc :
    (k c : ℕ) (s : Bytes) → newline_after (suc k) (c ∷ s) ≡ shift 1 (newline_after k s)
newline_after-suc k c s = ground arith

line_start_one : (s : Bytes) → line_start 1 s ≡ newline_after 0 s
unfolding line_start index_byte
line_start_one [] = refl
line_start_one (c ∷ cs) = ground (arith, line_start_one cs)

shift-none : (o : Option ℕ) → shift 1 o ≡ none → o ≡ none
shift-none none h = refl
shift-none (some j) h = cc

pub shift-some : (o : Option ℕ) {k : ℕ} → shift 1 o ≡ some k → (j : ℕ) × (o ≡ some j) × (k ≡ suc j)
shift-some none h = cc
shift-some (some j) h = (j, refl, ground arith)

line_start_next_zero : (s : Bytes) {k : ℕ} → some 0 ≡ some k → line_start 1 s ≡ newline_after k s
line_start_next_zero s h = cc (line_start_one s)

line_start_cons :
    (n c : ℕ) (cs : Bytes)
    → line_start (suc n) (c ∷ cs)
      ≡ (if c == b'\n' then shift 1 (line_start n cs) else shift 1 (line_start (suc n) cs))
unfolding line_start
line_start_cons n c cs = refl

-- The next line starts behind the line's newline.
pub line_start_next :
    (n : ℕ) (s : Bytes) {k : ℕ} → line_start n s ≡ some k → line_start (suc n) s ≡ newline_after k s
unfolding line_start
line_start_next zero s h = line_start_next_zero s h
line_start_next (suc n) [] h = cc
line_start_next (suc n) (c ∷ cs) {k} h = elim (Bool-cases (c == b'\n')) [
  | inl e ↦
      let (j, f, g) = shift-some (line_start n cs) {k = k} (ground arith) in
      rw (g, newline_after-suc, ← line_start_next n cs f) (ground arith)
  | inr e ↦
      let (j, f, g) = shift-some (line_start (suc n) cs) {k = k} (ground arith) in
      rw (g, newline_after-suc, ← line_start_next (suc n) cs f) (ground arith)
]

line_start-none_next : (n : ℕ) (s : Bytes) → line_start n s ≡ none → line_start (suc n) s ≡ none
unfolding line_start
line_start-none_next zero s h = cc
line_start-none_next (suc n) [] h = refl
line_start-none_next (suc n) (c ∷ cs) h = elim (Bool-cases (c == b'\n')) [
  | inl e ↦ rw e (ap (shift 1) (line_start-none_next n cs (shift-none _ (rw e at h))))
  | inr e ↦ rw e (ap (shift 1) (line_start-none_next (suc n) cs (shift-none _ (rw e at h))))
]

-- Behind a missing line every line is missing.
pub line_start-none : (k n : ℕ) (s : Bytes) → line_start n s ≡ none → line_start (n + k) s ≡ none
line_start-none zero n s h = rw add-zero h
line_start-none (suc k) n s h =
    rw (let e : n + suc k ≡ suc n + k = omega arith in e)
      (line_start-none k (suc n) s (line_start-none_next n s h))

pub line_start-le : (n : ℕ) (s : Bytes) (k : ℕ) → line_start n s ≡ some k → k ≤ length s
unfolding line_start
line_start-le zero s k h = ground arith
line_start-le (suc n) [] k h = cc
line_start-le (suc n) (c ∷ cs) k h =
    ground (arith, line_start-le n cs (k - 1), line_start-le (suc n) cs (k - 1))

-- A line up to its newline.
abbrev pub first_line : Bytes → Bytes
first_line t = elim (index_byte b'\n' t) [ none ↦ t | some i ↦ take i t ]

-- The line table has no line `n`.
pub no_line :
    (s : Bytes) (n : ℕ)
    → line_start n s ≡ none
    → length (new_source_position_mapper s).line_starts ≤ n
no_line s n h =
    get_elem?-none (new_source_position_mapper s).line_starts n (line_starts-line_start s n ∙ h)

-- Line `n` of the table starts at `k`.
pub record HasLine (s : Bytes) (n k : ℕ) : Type 0 where
  pub in_table : n < length (new_source_position_mapper s).line_starts
  pub starts : get_or (new_source_position_mapper s).line_starts n 0 ≡ k
  pub in_text : k ≤ length s
  pub text : slice s k (line_end (new_source_position_mapper s) n) ≡ first_line (drop k s)
  pub ends : k ≤ line_end (new_source_position_mapper s) n

pub source-mapper : (s : Bytes) → (new_source_position_mapper s).source ≡ s
unfolding new_source_position_mapper
source-mapper s = refl

-- The end of line `n`, by the entry behind it.
line_end-entry :
    (s : Bytes) (n : ℕ) (o : Option ℕ)
    → line_start (suc n) s ≡ o
    → line_end (new_source_position_mapper s) n ≡ elim o [ none ↦ length s | some i ↦ i - 1 ]
unfolding line_end
line_end-entry s n none h = ground (arith, no_line s (suc n) h, source-mapper s)
line_end-entry s n (some i) h =
    let starts = (new_source_position_mapper s).line_starts in
    let e : get_elem? starts (suc n) ≡ some i = line_starts-line_start s (suc n) ∙ h in
    ground (arith, get_elem?-some starts (suc n) e)

line_end-next :
    (s : Bytes) (n : ℕ) (k : ℕ)
    → line_start n s ≡ some k
    → line_end (new_source_position_mapper s) n
      ≡ elim (index_byte b'\n' (drop k s)) [ none ↦ length s | some i ↦ k + i ]
line_end-next s n k h = elim (Option-cases (index_byte b'\n' (drop k s))) [
  | inl e ↦ rw e (line_end-entry s n none (ground (arith, line_start_next n s h)))
  | inr (i, e) ↦ rw e (
      line_end-entry s n (some (k + (i + 1))) (ground (arith, line_start_next n s h)) ∙ omega arith)
]

line_text :
    (s : Bytes) (k : ℕ) (e : ℕ)
    → k ≤ length s
    → e ≡ elim (index_byte b'\n' (drop k s)) [ none ↦ length s | some i ↦ k + i ]
    → (slice s k e ≡ first_line (drop k s)) × (k ≤ e)
line_text s k e le h = elim (Option-cases (index_byte b'\n' (drop k s))) [
  | inl p ↦ (ground (arith, take_all (e - k) (drop k s), length-drop k s), ground arith)
  | inr (i, p) ↦ (ground arith, ground arith)
]

pub has_line : (s : Bytes) (n k : ℕ) → line_start n s ≡ some k → HasLine s n k
has_line s n k h =
    let (a, b) =
      get_elem?-some (new_source_position_mapper s).line_starts n {k = k}
        (line_starts-line_start s n ∙ h) in
    let le = line_start-le n s k h in
    let (t, u) = line_text s k _ le (line_end-next s n k h) in
    record { in_table = a; starts = b; in_text = le; text = t; ends = u }

get_elem?-get_or : (xs : List ℕ) (n : ℕ) → n < length xs → get_elem? xs n ≡ some (get_or xs n 0)
get_elem?-get_or [] n h = absurd (omega arith)
get_elem?-get_or (x ∷ xs) zero h = refl
get_elem?-get_or (x ∷ xs) (suc n) h = get_elem?-get_or xs n (omega arith)

-- An entry of the table is the start of its line.
pub line_start-get_or :
    (s : Bytes) (n : ℕ)
    → n < length (new_source_position_mapper s).line_starts
    → line_start n s ≡ some (get_or (new_source_position_mapper s).line_starts n 0)
line_start-get_or s n h =
    sym (line_starts-line_start s n)
    ∙ get_elem?-get_or (new_source_position_mapper s).line_starts n h

pub line_end-le :
    (s : Bytes) (n : ℕ)
    → n < length (new_source_position_mapper s).line_starts
    → line_end (new_source_position_mapper s) n ≤ length s
line_end-le s n h = elim (Option-cases (line_start (suc n) s)) [
  | inl e ↦ omega (arith, line_end-entry s n none e)
  | inr (k, e) ↦ omega (arith, line_end-entry s n (some k) e, line_start-le (suc n) s k e)
]
