-- ===== src/Completion/Cursor.antt =====
-- server/providers/completion.go: what wordAt and memberAccessAt find before a cursor.
use vscode_php_strom.Base.{
  ℕ, suc, ◌-◌, ◌≤◌, ◌≡◌, ◌≢◌, refl, ap, sym, ◌∙◌, true, some, [], ◌∷◌, ◌++◌, ◌⊎◌, ◌↔◌, inl, inr,
  arith, min, length, length-append, append_assoc, take, take-append, drop, drop-append, Bool-cases,
}
use vscode_php_strom.Lsp.{Position}
use vscode_php_strom.Signature.{is_ident_char, trim_right}
use vscode_php_strom.Text.{Bytes, index_byte}
use vscode_php_strom.Completion.{
  access_in, until_newline, line_at, ident_suffix, word_at, member_access_at,
}

abbrev pub IsIdentByte : ℕ → Type 0
IsIdentByte b =
    ((b'a' ≤ b) × (b ≤ b'z'))
    ⊎ ((b'A' ≤ b) × (b ≤ b'Z'))
    ⊎ ((b'0' ≤ b) × (b ≤ b'9'))
    ⊎ (b ≡ b'_')
    ⊎ (b ≡ b'\\')

abbrev pub All : (ℕ → Type 0) → Bytes → Type 0
All P [] = Unit {0}
All P (c ∷ s) = P c × All P s

abbrev pub IsInLine : Bytes → Type 0
IsInLine s = All (λ c. c ≢ b'\n') s

-- So many whole lines.
pub data Lines : ℕ → Bytes → Type 0 where
  start : Lines 0 []
  line : {n : ℕ} {s : Bytes} (l : Bytes) → IsInLine l → Lines n s → Lines (suc n) (l ++ b'\n' ∷ s)

-- The text goes on with another line, or not at all.
abbrev pub EndsLine : Bytes → Type 0
EndsLine s = (s ≡ []) ⊎ ((t : Bytes) × (s ≡ b'\n' ∷ t))

-- The cursor is behind the identifier bytes `word`, which no other stand before, and behind `head` on
-- its line. The column counts bytes, and may be beyond the end of the line.
pub record IsCursor (text : Bytes) (pos : Position) (head word : Bytes) : Type 0 where
  pub lines : Bytes
  pub after : Bytes
  pub whole : text ≡ lines ++ ((head ++ word) ++ after)
  pub line : Lines pos.line lines
  pub in_line : IsInLine (head ++ word)
  pub column :
      (pos.character ≡ length (head ++ word))
      ⊎ ((length (head ++ word) ≤ pos.character) × EndsLine after)
  pub word_bytes : All IsIdentByte word
  pub head_end : (head ≡ []) ⊎ ((t : Bytes) × (b : ℕ) × (head ≡ t ++ b ∷ []) × (¬ IsIdentByte b))

is_ident_char_iff : (b : ℕ) → (is_ident_char b ≡ true) ↔ IsIdentByte b
unfolding is_ident_char
is_ident_char_iff b = ground arith

index_byte-line : (l s : Bytes) → IsInLine l → index_byte b'\n' (l ++ b'\n' ∷ s) ≡ some (length l)
unfolding index_byte
index_byte-line [] s h = refl
index_byte-line (c ∷ l) s h = ground (arith, index_byte-line l s h.1)

drop-line : (l s : Bytes) → drop (suc (length l)) (l ++ b'\n' ∷ s) ≡ s
drop-line [] s = refl
drop-line (c ∷ l) s = drop-line l s

line_at-Lines :
    {n : ℕ} {lines : Bytes} (s : Bytes)
    → Lines n lines
    → line_at (lines ++ s) n ≡ some (until_newline s)
unfolding line_at
line_at-Lines s Lines.start = refl
line_at-Lines s (Lines.line {n} {s = r} l h k) =
    ap (λ t. line_at t (suc n)) (append_assoc l (b'\n' ∷ r) s)
    ∙ rw (index_byte-line l (r ++ s) h, line_at)
        (ap (λ t. line_at t n) (drop-line l (r ++ s)) ∙ line_at-Lines s k)

until_newline-in_line :
    (s after : Bytes) → IsInLine s → until_newline (s ++ after) ≡ s ++ until_newline after
unfolding index_byte
until_newline-in_line [] after h = refl
until_newline-in_line (c ∷ s) after h = ground (arith, until_newline-in_line s after h.1)

until_newline-EndsLine : (s : Bytes) → EndsLine s → until_newline s ≡ []
unfolding index_byte
until_newline-EndsLine s (inl e) = ap until_newline e
until_newline-EndsLine s (inr (t, e)) = ap until_newline e

trim_right-All : (s : Bytes) → All IsIdentByte s → trim_right is_ident_char s ≡ []
unfolding trim_right
trim_right-All [] h = refl
trim_right-All (c ∷ s) h = rw (trim_right-All s h.1, (is_ident_char_iff c).1 h.0) refl

trim_right-append :
    (s w : Bytes)
    → All IsIdentByte w
    → trim_right is_ident_char (s ++ w) ≡ trim_right is_ident_char s
unfolding trim_right
trim_right-append [] w h = trim_right-All w h
trim_right-append (c ∷ s) w h = rw (trim_right-append s w h) refl

trim_right-cons :
    (c : ℕ) (s : Bytes) (d : ℕ) (ds : Bytes)
    → trim_right is_ident_char s ≡ d ∷ ds
    → trim_right is_ident_char (c ∷ s) ≡ c ∷ d ∷ ds
unfolding trim_right
trim_right-cons c s d ds e = rw (e, trim_right) refl

trim_right-last :
    (t : Bytes) (b : ℕ) → ¬ IsIdentByte b → trim_right is_ident_char (t ++ b ∷ []) ≡ t ++ b ∷ []
unfolding trim_right
trim_right-last [] b h = elim (Bool-cases (is_ident_char b)) [
  | inl e ↦ absurd (h ((is_ident_char_iff b).0 e))
  | inr e ↦ rw e refl
]
trim_right-last (c ∷ []) b h = trim_right-cons c (b ∷ []) b [] (trim_right-last [] b h)
trim_right-last (c ∷ d ∷ t) b h =
    trim_right-cons c (d ∷ (t ++ b ∷ [])) d (t ++ b ∷ []) (trim_right-last (d ∷ t) b h)

-- The line of a cursor, and what is before the cursor on it.
module _ {text : Bytes} {pos : Position} {head word : Bytes} (c : IsCursor text pos head word) where
  line_at-cursor : line_at text pos.line ≡ some ((head ++ word) ++ until_newline c.after)
  line_at-cursor =
      ap (λ t. line_at t pos.line) c.whole
      ∙ line_at-Lines ((head ++ word) ++ c.after) c.line
      ∙ ap some (until_newline-in_line (head ++ word) c.after c.in_line)

  column_in_line :
      min pos.character (length ((head ++ word) ++ until_newline c.after)) ≡ length (head ++ word)
  column_in_line = elim c.column [
    | inl e ↦ omega (arith, e, length-append (head ++ word) (until_newline c.after))
    | inr (h, e) ↦ omega (
      arith,
      h,
      ap length (until_newline-EndsLine c.after e),
      length-append (head ++ word) (until_newline c.after),
    )
  ]

  take-column :
      take
        (min pos.character (length ((head ++ word) ++ until_newline c.after)))
        ((head ++ word) ++ until_newline c.after)
      ≡ head ++ word
  take-column =
      ap (λ n. take n ((head ++ word) ++ until_newline c.after)) column_in_line
      ∙ take-append (head ++ word) (until_newline c.after)

  trim_right-head : trim_right is_ident_char head ≡ head
  trim_right-head = elim c.head_end [
    | inl e ↦ ap (trim_right is_ident_char) e ∙ trim_right-All [] tt ∙ sym e
    | inr (t, b, e, h) ↦ ap (trim_right is_ident_char) e ∙ trim_right-last t b h ∙ sym e
  ]

  ident_suffix-cursor : ident_suffix (head ++ word) ≡ word
  unfolding ident_suffix
  ident_suffix-cursor =
      ap (λ s. drop (length s) (head ++ word))
        (trim_right-append head word c.word_bytes ∙ trim_right-head)
      ∙ drop-append head word

  pub word_at-cursor : word_at text pos ≡ word
  unfolding word_at
  word_at-cursor = rw (line_at-cursor, word_at) (ap ident_suffix take-column ∙ ident_suffix-cursor)

  take-head :
      take
        (min pos.character (length ((head ++ word) ++ until_newline c.after)) - length word)
        ((head ++ word) ++ until_newline c.after)
      ≡ head
  take-head =
      let rest = until_newline c.after in
      let e : min pos.character (length ((head ++ word) ++ rest)) - length word ≡ length head =
        omega (arith, column_in_line, length-append head word) in
      ap (λ n. take n ((head ++ word) ++ rest)) e
      ∙ ap (take (length head)) (append_assoc head word rest)
      ∙ take-append head (word ++ rest)

  pub member_access_at-head :
      (trim_space trim_right_space : Bytes → Bytes)
      → member_access_at trim_space trim_right_space text pos
        ≡ access_in trim_space trim_right_space (trim_right_space head)
  unfolding member_access_at
  member_access_at-head trim_space trim_right_space =
      rw (line_at-cursor, member_access_at)
        (rw word_at-cursor
          (ap (λ s. access_in trim_space trim_right_space (trim_right_space s)) take-head))
