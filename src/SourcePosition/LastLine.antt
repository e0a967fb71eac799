-- ===== src/SourcePosition/LastLine.antt =====
-- server/providers/source_position.go: the line that a part of a text ends
-- in, in the line table and for the binary search.
use vscode_php_strom.Base.{
  ℕ, zero, suc, ◌+◌, ◌-◌, ◌/◌, ◌≤◌, ◌<◌, ◌≡◌, refl, sym, ap, ◌∙◌, Bool, true, false, some, [], ◌∷◌,
  ◌++◌, arith, ◌==◌, ltb, if◌then◌else◌, length, ◌⊎◌, inl, inr, length-append, Bool-cases,
  append_assoc,
}
use vscode_php_strom.Text.{Bytes}
use vscode_php_strom.Text.Utf8.{runes, valid_string, valid_runes}
use vscode_php_strom.Text.Utf8.Laws.{runes_ascii, runes-cons_ascii, valid_runes-append}
use vscode_php_strom.SourcePosition.{search_loop}
use vscode_php_strom.SourcePosition.Lines.{line_start, newlines}

-- The bytes behind the last newline.
unfoldable pub last_line : Bytes → Bytes
last_line [] = []
last_line (c ∷ cs) = if newlines (c ∷ cs) == 0 then c ∷ cs else last_line cs

ge_of_true :
    (n t : ℕ) (f : ℕ → Bool) → ((x : ℕ) → x < t → f x ≡ false) → (h : ℕ) → f h ≡ true → t ≤ h
ge_of_true n t f lo h p = ground (arith, lo h)

lt_of_false :
    (n t : ℕ) (f : ℕ → Bool)
    → ((x : ℕ) → t ≤ x → x < n → f x ≡ true)
    → (h : ℕ) → h < n
    → f h ≡ false
    → h + 1 ≤ t
lt_of_false n t f hi h l p = ground (arith, hi h)

-- `sort.Search` finds the first index of a test that is false below it and true from it on.
pub search_loop_lem :
    (n t : ℕ) (f : ℕ → Bool)
    → ((x : ℕ) → x < t → f x ≡ false)
    → ((x : ℕ) → t ≤ x → x < n → f x ≡ true)
    → (fuel i j : ℕ) → i ≤ t
    → t ≤ j
    → j ≤ n
    → j ≤ i + fuel
    → search_loop fuel f i j ≡ t
unfolding search_loop
search_loop_lem n t f lo hi zero i j a b c d = omega arith
search_loop_lem n t f lo hi (suc fuel) i j a b c d = elim (Bool-cases (ltb i j)) [
  | inl e ↦ elim (Bool-cases (f ((i + j) / 2))) [
    | inl p ↦
        rw (e, p)
          (search_loop_lem n t f lo hi fuel i ((i + j) / 2) a (ge_of_true n t f lo ((i + j) / 2) p)
            (omega arith) (ground arith))
    | inr p ↦
        rw (e, p)
          (search_loop_lem n t f lo hi fuel ((i + j) / 2 + 1) j
            (lt_of_false n t f hi ((i + j) / 2) (ground arith) p) b c (ground arith))
  ]
  | inr e ↦ rw e (ground arith)
]

pub newlines-append : (a b : Bytes) → newlines (a ++ b) ≡ newlines a + newlines b
newlines-append [] b = omega arith
newlines-append (c ∷ cs) b = omega (arith, newlines-append cs b)

pub newlines-le : (a : Bytes) → newlines a ≤ length a
newlines-le [] = omega arith
newlines-le (c ∷ cs) = ground (arith, newlines-le cs)

-- A line starts at or before the end of `a` exactly if it is one of the lines that `a` reaches.
pub line_start-append-le :
    (a b : Bytes) (i k : ℕ) → line_start i (a ++ b) ≡ some k → i ≤ newlines a → k ≤ length a
unfolding line_start
line_start-append-le a b zero k h q = ground arith
line_start-append-le [] b (suc i) k h q = absurd (omega arith)
line_start-append-le (c ∷ a) b (suc i) k h q =
    ground (arith, line_start-append-le a b i (k - 1), line_start-append-le a b (suc i) (k - 1))

line_start-pos : (s : Bytes) (i k : ℕ) → line_start (suc i) s ≡ some k → 0 < k
unfolding line_start
line_start-pos [] i k h = cc
line_start-pos (c ∷ s) i k h = ground arith

pub line_start-append-lt :
    (a b : Bytes) (i k : ℕ) → line_start i (a ++ b) ≡ some k → newlines a < i → length a < k
unfolding line_start
line_start-append-lt a b zero k h q = absurd (omega arith)
line_start-append-lt [] b (suc i) k h q = line_start-pos b i k h
line_start-append-lt (c ∷ a) b (suc i) k h q =
    ground (arith, line_start-append-lt a b i (k - 1), line_start-append-lt a b (suc i) (k - 1))

-- `a` has no newline, or its last line follows a newline.
split_last :
    (a : Bytes)
    → (newlines a ≡ 0) ⊎ ((q : Bytes) × (l : Bytes) × (a ≡ q ++ (b'\n' ∷ l)) × (newlines l ≡ 0))
split_last [] = inl refl
split_last (c ∷ cs) = elim (split_last cs) [
  | inl e ↦ elim (Bool-cases (c == b'\n')) [
    | inl n ↦ inr ([], cs, ground arith, e)
    | inr n ↦ inl (ground arith)
  ]
  | inr (q, l, e, n) ↦ inr (c ∷ q, l, ap (◌∷◌ c) e, n)
]

pub last_line_all : (a : Bytes) → newlines a ≡ 0 → last_line a ≡ a
unfolding last_line
last_line_all [] h = refl
last_line_all (c ∷ cs) h = ground arith

last_line-append : (q l : Bytes) → newlines l ≡ 0 → last_line (q ++ (b'\n' ∷ l)) ≡ l
unfolding last_line
last_line-append [] l h = ground (arith, last_line_all l h)
last_line-append (c ∷ q) l h = ground (arith, last_line-append q l h, newlines-append q (b'\n' ∷ l))

line_start_behind :
    (q t : Bytes) (n : ℕ)
    → n ≡ newlines q
    → line_start (suc n) (q ++ (b'\n' ∷ t)) ≡ some (suc (length q))
unfolding line_start
line_start_behind [] t zero h = refl
line_start_behind [] t (suc n) h = absurd (omega arith)
line_start_behind (c ∷ q) t zero h = ground (arith, line_start_behind q t 0)
line_start_behind (c ∷ q) t (suc n) h =
    ground (arith, line_start_behind q t n, line_start_behind q t (suc n))

newlines_behind : (q l : Bytes) → newlines (q ++ (b'\n' ∷ l)) ≡ suc (newlines q + newlines l)
newlines_behind q l = omega (arith, newlines-append q (b'\n' ∷ l))

valid_behind : (q l : Bytes) → valid_string (q ++ (b'\n' ∷ l)) ≡ true → valid_string l ≡ true
valid_behind q l v =
    let e =
      runes_ascii q b'\n' l (omega arith)
      ∙ ap (◌++◌ (runes q)) (runes-cons_ascii b'\n' l (omega arith)) in
    ground (arith, ap valid_runes e, valid_runes-append (runes q) ((b'\n', 1) ∷ runes l))

starts_behind :
    (q l b : Bytes)
    → newlines l ≡ 0
    → line_start (newlines (q ++ (b'\n' ∷ l))) ((q ++ (b'\n' ∷ l)) ++ b)
      ≡ some (length (q ++ b'\n' ∷ []))
starts_behind q l b h =
    rw (newlines_behind q l, append_assoc q (b'\n' ∷ l) b)
      (line_start_behind q (l ++ b) (newlines q + newlines l) (omega arith)
        ∙ ap some (omega (arith, length-append q (b'\n' ∷ []))))

-- Line and column of the place behind `a`: the line starts where the last line of `a` does.
pub record EndsAt (a : Bytes) : Type 0 where
  pub before : Bytes
  pub splits : a ≡ before ++ last_line a
  pub unbroken : newlines (last_line a) ≡ 0
  pub starts : (b : Bytes) → line_start (newlines a) (a ++ b) ≡ some (length before)
  pub valid : valid_string a ≡ true → valid_string (last_line a) ≡ true

pub ends_at : (a : Bytes) → EndsAt a
unfolding line_start
ends_at a = elim (split_last a) [
  | inl e ↦ record {
    before = [];
    splits = sym (last_line_all a e);
    unbroken = rw (last_line_all a e) e;
    starts = λ b. rw e;
    valid = λ v. rw (last_line_all a e) v;
  }
  | inr (q, l, e, n) ↦
      let f : last_line a ≡ l = ap last_line e ∙ last_line-append q l n in
      record {
        before = q ++ b'\n' ∷ [];
        splits = rw f (e ∙ sym (append_assoc q (b'\n' ∷ []) l));
        unbroken = rw f n;
        starts = λ b. rw e (starts_behind q l b n);
        valid = λ v. rw f (valid_behind q l (rw e at v));
      }
]
