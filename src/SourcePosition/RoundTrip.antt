-- ===== src/SourcePosition/RoundTrip.antt =====
-- server/providers/source_position.go: a byte offset, its protocol position, and the offset again.
use vscode_php_strom.Base.{
  ℕ, zero, suc, ◌+◌, ◌-◌, ◌<◌, ◌≡◌, refl, sym, ap, ◌∙◌, true, false, List, [], ◌∷◌, ◌++◌, arith,
  ◌==◌, length, drop, inl, inr, length-append, Bool-cases, append_assoc, append-nil, drop-append,
}
use vscode_php_strom.Lsp.{u32_mod}
use vscode_php_strom.Text.{Bytes, index_byte, has_suffix, has_prefix, beq, trim_suffix}
use vscode_php_strom.Text.Search.{trim_suffix-none}
use vscode_php_strom.Text.Utf8.{
  runes, units, widths, rune_len, utf16_len, valid_string, valid_runes, decode_rune, runes_after,
}
use vscode_php_strom.Text.Utf8.Laws.{
  runes-append, widths-runes, rune_len-decode_rune, utf16_len-pos,
}
use vscode_php_strom.SourcePosition.{
  new_source_position_mapper, carriage_return, offset_loop, position_from_byte_offset,
  byte_offset_from_position, utf16_code_units,
}
use vscode_php_strom.SourcePosition.Offsets.{line_text, offset_in_line, offset_line}
use vscode_php_strom.SourcePosition.LastLine.{last_line, ends_at}
use vscode_php_strom.SourcePosition.Positions.{
  at_line_break, position_from_byte_offset_lem, length_before,
}
use vscode_php_strom.SourcePosition.Lines.{newlines, first_line}

-- Every rune has the length that it was read with.
abbrev AllExact : List (ℕ × ℕ) → Type 0
AllExact [] = Unit
AllExact (d ∷ ds) = (rune_len d.0 ≡ d.1) × AllExact ds

runes_after-AllExact :
    (skip : ℕ) (s : Bytes) → valid_runes (runes_after skip s) ≡ true → AllExact (runes_after skip s)
unfolding runes_after
runes_after-AllExact zero [] v = tt
runes_after-AllExact (suc skip) [] v = tt
runes_after-AllExact (suc skip) (c ∷ cs) v = runes_after-AllExact skip cs v
runes_after-AllExact zero (c ∷ cs) v = (
  rune_len-decode_rune c cs (ground arith),
  runes_after-AllExact ((decode_rune (c ∷ cs)).1 - 1) cs (ground arith),
)

-- The loop stops behind the runes whose code units make up the target.
offset_loop-widths :
    (target limit : ℕ) (rest : List (ℕ × ℕ)) (d : ℕ × ℕ) (ds : List (ℕ × ℕ)) (column pos : ℕ)
    → AllExact (d ∷ ds)
    → column + units (d ∷ ds) ≡ target
    → offset_loop target limit column pos ((d ∷ ds) ++ rest) ≡ pos + widths (d ∷ ds)
unfolding offset_loop
offset_loop-widths target limit rest (r, w) [] column pos a h =
    let e = a.0 in ground (arith, utf16_len-pos r, e)
offset_loop-widths target limit rest (r, w) ((q, x) ∷ ds) column pos a h =
    let e = a.0 in
    let later =
      offset_loop-widths target limit rest (q, x) ds (column + utf16_len r) (pos + rune_len r) a.1
        (omega arith) in
    ground (arith, utf16_len-pos r, utf16_len-pos q, e, later)

offset_loop-stop :
    (limit pos : ℕ) (rest : List (ℕ × ℕ))
    → (rest ≡ [] → limit ≡ pos)
    → offset_loop 0 limit 0 pos rest ≡ pos
unfolding offset_loop
offset_loop-stop limit pos [] h = h refl
offset_loop-stop limit pos (d ∷ ds) h = ground arith

offset_loop-units :
    (ds rest : List (ℕ × ℕ)) (limit k : ℕ)
    → AllExact ds
    → (ds ≡ [] → rest ≡ [] → limit ≡ k)
    → offset_loop (units ds) limit 0 k (ds ++ rest) ≡ k + widths ds
offset_loop-units [] rest limit k a h = offset_loop-stop limit k rest (h refl) ∙ omega arith
offset_loop-units (d ∷ ds) rest limit k a h =
    offset_loop-widths (units (d ∷ ds)) limit rest d ds 0 k a (omega arith)

no_runes : (s : Bytes) → runes s ≡ [] → length s ≡ 0
no_runes s h = sym (widths-runes s) ∙ ap widths h

-- Looking the code units of `l` up in a line that begins with `l` gives the place behind `l`.
offset_in_line-units :
    (l r : Bytes) (k : ℕ)
    → valid_string l ≡ true
    → offset_in_line (l ++ r) k (utf16_code_units l) ≡ k + length l
unfolding utf16_code_units
offset_in_line-units l r k v = rw (runes-append l r v) (
    offset_loop-units (runes l) (runes r) (k + length (l ++ r)) k (runes_after-AllExact 0 l v)
      (λ p q. omega (arith, length-append l r, no_runes l p, no_runes r q))
    ∙ ap (λ w. k + w) (widths-runes l))

trim_cr-append :
    (l : Bytes) (c : ℕ) (r : Bytes)
    → trim_suffix carriage_return (l ++ (c ∷ r)) ≡ l ++ trim_suffix carriage_return (c ∷ r)
unfolding trim_suffix beq
trim_cr-append [] c r = refl
trim_cr-append (d ∷ []) c r = ground (arith, trim_cr-append [] c r)
trim_cr-append (d ∷ e ∷ l) c r = ground (arith, trim_cr-append (e ∷ l) c r)

first_line-append : (l b : Bytes) → newlines l ≡ 0 → first_line (l ++ b) ≡ l ++ first_line b
unfolding index_byte
first_line-append [] b h = refl
first_line-append (c ∷ l) b h = ground (arith, first_line-append l b)

first_line_newline : (c : ℕ) (b : Bytes) → (c == b'\n') ≡ true → first_line (c ∷ b) ≡ []
unfolding index_byte
first_line_newline c b h = ground arith

first_line_other :
    (c : ℕ) (b : Bytes) → (c == b'\n') ≡ false → first_line (c ∷ b) ≡ c ∷ first_line b
unfolding index_byte
first_line_other c b h = ground arith

has_suffix-behind : (t p l : Bytes) → has_suffix t (p ++ l) ≡ false → has_suffix t l ≡ false
unfolding has_suffix
has_suffix-behind t [] l h = h
has_suffix-behind t (c ∷ p) l h = has_suffix-behind t p l (ground arith)

-- The line around the place between `a` and `b` begins with the last line of `a`.
line_around :
    (l b : Bytes)
    → newlines l ≡ 0
    → at_line_break l b ≡ false
    → (r : Bytes) × (trim_suffix carriage_return (first_line (l ++ b)) ≡ l ++ r)
unfolding at_line_break beq has_prefix index_byte
line_around l [] n h = (
  [],
  rw (first_line-append l [] n) (rw append-nil (trim_suffix-none carriage_return l (ground arith))),
)
line_around l (c ∷ b) n h = elim (Bool-cases (c == b'\n')) [
  | inl e ↦ (
    [],
    rw (first_line-append l (c ∷ b) n, first_line_newline c b e, append-nil)
        (trim_suffix-none carriage_return l (ground arith)),
  )
  | inr e ↦ (
    trim_suffix carriage_return (c ∷ first_line b),
    rw (first_line-append l (c ∷ b) n, first_line_other c b e) (trim_cr-append l c (first_line b)),
  )
]

at_line_break-behind :
    (a p l b : Bytes) → a ≡ p ++ l → at_line_break a b ≡ false → at_line_break l b ≡ false
unfolding at_line_break
at_line_break-behind a p l b e h = ground (arith, has_suffix-behind carriage_return p l)

drop_before : (a p l b : Bytes) → a ≡ p ++ l → drop (length p) (a ++ b) ≡ l ++ b
drop_before a p l b e = rw (e, append_assoc p l b) (drop-append p (l ++ b))

line_text-last_line :
    (a b : Bytes)
    → at_line_break a b ≡ false
    → (r : Bytes) × (line_text (a ++ b) (length (ends_at a).before) ≡ last_line a ++ r)
line_text-last_line a b h =
    let s = ends_at a in
    let (r, e) =
      line_around (last_line a) b s.unbroken
        (at_line_break-behind a s.before (last_line a) b s.splits h) in
    (r, rw (drop_before a s.before (last_line a) b s.splits) e)

-- From a byte offset to the protocol position and back: the place behind `a` is found again, if `a`
-- is well-formed and shorter than 2^32 bytes and the place is not inside or behind a line break.
pub byte_offset-position :
    (a b : Bytes)
    → valid_string a ≡ true
    → length a < u32_mod
    → at_line_break a b ≡ false
    → byte_offset_from_position
        (new_source_position_mapper (a ++ b))
        (position_from_byte_offset (new_source_position_mapper (a ++ b)) (length a))
      ≡ length a
byte_offset-position a b v small h =
    let s = ends_at a in
    let (r, e) = line_text-last_line a b h in
    rw (position_from_byte_offset_lem a b v small h) (
      offset_line (a ++ b) (newlines a) (length s.before) (utf16_code_units (last_line a))
        (s.starts b)
      ∙ rw e (offset_in_line-units (last_line a) r (length s.before) (s.valid v))
      ∙ length_before a)
