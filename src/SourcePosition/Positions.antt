-- ===== src/SourcePosition/Positions.antt =====
-- server/providers/source_position.go: positionFromByteOffset at a place between two parts of a text.
use vscode_php_strom.Base.{
  ℕ, zero, suc, ◌+◌, ◌-◌, ◌≤◌, ◌<◌, ◌≡◌, refl, ap, ◌∙◌, Bool, true, false, ◌&&◌, ◌||◌, List, [],
  ◌∷◌, ◌++◌, arith, ◌==◌, ltb, length, get_or, length-append, append_assoc, le→ltb, lt→ltb,
  drop-append, take_all,
}
use vscode_php_strom.Lsp.{u32_mod, to_u32, to_u32_small}
use vscode_php_strom.Text.{Bytes, byte_at, slice, has_suffix, has_prefix, beq}
use vscode_php_strom.Text.Utf8.{
  runes, units, widths, utf16_len, valid_string, decode_rune, runes_after,
}
use vscode_php_strom.Text.Utf8.Laws.{
  runes-append, widths-runes, decode_rune-pos, utf16_len-decode_rune,
}
use vscode_php_strom.SourcePosition.{
  SourcePositionMapper, new_source_position_mapper, carriage_return, sort_search, column_loop,
  position_from_byte_offset, at, utf16_code_units,
}
use vscode_php_strom.SourcePosition.LastLine.{
  last_line, search_loop_lem, newlines-le, line_start-append-le, line_start-append-lt, ends_at,
}
use vscode_php_strom.SourcePosition.Lines.{newlines, has_line, line_start-get_or}

-- The place between `a` and `b` is inside or behind a line break.
unfoldable pub at_line_break : Bytes → Bytes → Bool
at_line_break a b = has_suffix carriage_return a && (beq b [] || has_prefix (b'\n' ∷ []) b)

-- Every rune has a width.
abbrev pub AllWide : List (ℕ × ℕ) → Type 0
AllWide [] = Unit
AllWide (d ∷ ds) = (1 ≤ d.1) × AllWide ds

runes_after-AllWide : (skip : ℕ) (s : Bytes) → AllWide (runes_after skip s)
unfolding runes_after
runes_after-AllWide zero [] = tt
runes_after-AllWide (suc skip) [] = tt
runes_after-AllWide (suc skip) (c ∷ cs) = runes_after-AllWide skip cs
runes_after-AllWide zero (c ∷ cs) =
    (decode_rune-pos c cs, runes_after-AllWide ((decode_rune (c ∷ cs)).1 - 1) cs)

-- What stops the loop one byte before `offset`: a line break of two bytes around it.
abbrev splits_break : Bytes → ℕ → Bool
splits_break source offset =
    byte_at source (offset - 1) == b'\r'
    && ltb offset (length source)
    && byte_at source offset == b'\n'

column_loop_stop :
    (source : Bytes) (offset i column : ℕ) (rest : List (ℕ × ℕ))
    → offset ≤ i
    → column_loop source offset i column rest ≡ column
unfolding column_loop
column_loop_stop source offset i column [] h = refl
column_loop_stop source offset i column (d ∷ ds) h = ground arith

-- The loop adds up the code units of the runes in front of `offset`.
column_loop-units :
    (source : Bytes) (offset : ℕ) (rest ds : List (ℕ × ℕ)) (i column : ℕ)
    → (1 ≤ offset → splits_break source offset ≡ false)
    → AllWide ds
    → i + widths ds ≡ offset
    → column_loop source offset i column (ds ++ rest) ≡ column + units ds
unfolding column_loop
column_loop-units source offset rest [] i column s w h =
    column_loop_stop source offset i column rest (omega arith) ∙ omega arith
column_loop-units source offset rest ((r, size) ∷ ds) i column s w h =
    let later =
      column_loop-units source offset rest ds (i + size) (column + utf16_len r) s w.1
        (omega arith) in
    let whole = s (omega arith) in let wide = w.0 in ground (arith, later, whole, wide)

byte_at-append : (a b : Bytes) → byte_at (a ++ b) (length a) ≡ byte_at b 0
byte_at-append [] b = refl
byte_at-append (c ∷ a) b = byte_at-append a b

ends_in-byte_at :
    (c : ℕ) (a b : Bytes) (n : ℕ)
    → suc n ≡ length a
    → (byte_at (a ++ b) n == c) ≡ has_suffix (c ∷ []) a
unfolding has_suffix beq
ends_in-byte_at c [] b n h = absurd (omega arith)
ends_in-byte_at c (d ∷ []) b zero h = ground arith
ends_in-byte_at c (d ∷ []) b (suc n) h = absurd (omega arith)
ends_in-byte_at c (d ∷ e ∷ a) b zero h = absurd (omega arith)
ends_in-byte_at c (d ∷ e ∷ a) b (suc n) h =
    ground (arith, ends_in-byte_at c (e ∷ a) b n (omega arith))

not_split :
    (a b : Bytes)
    → at_line_break a b ≡ false
    → 1 ≤ length a
    → splits_break (a ++ b) (length a) ≡ false
unfolding at_line_break has_prefix beq
not_split a [] h le = ground (arith, length-append a [])
not_split a (c ∷ b) h le =
    ground (
      arith,
      byte_at-append a (c ∷ b),
      ends_in-byte_at b'\r' a (c ∷ b) (length a - 1) (omega arith),
    )

module _ (a b : Bytes) where
  abbrev starts : List ℕ
  starts = (new_source_position_mapper (a ++ b)).line_starts

  last_in_table : newlines a < length starts
  last_in_table =
      (has_line (a ++ b) (newlines a) (length (ends_at a).before) ((ends_at a).starts b)).in_table

  entry_before : (x : ℕ) → x < suc (newlines a) → ltb (length a) (get_or starts x 0) ≡ false
  entry_before x h =
      let l = last_in_table in
      let e = line_start-get_or (a ++ b) x (omega arith) in
      le→ltb _ _ (line_start-append-le a b x _ e (omega arith))

  entry_behind :
      (x : ℕ) → suc (newlines a) ≤ x → x < length starts → ltb (length a) (get_or starts x 0) ≡ true
  entry_behind x h k = lt→ltb _ _ (line_start-append-lt a b x _ (line_start-get_or (a ++ b) x k) h)

  -- The search finds the entry behind the last one that is at most `length a`.
  search_line :
      sort_search (length starts) (λ i. ltb (length a) (get_or starts i 0)) ≡ suc (newlines a)
  unfolding sort_search
  search_line =
      search_loop_lem (length starts) (suc (newlines a)) (λ i. ltb (length a) (get_or starts i 0))
        entry_before entry_behind (length starts) 0 (length starts) (omega arith) last_in_table
        (omega arith) (omega arith)

units-le-widths : (skip : ℕ) (s : Bytes) → units (runes_after skip s) ≤ widths (runes_after skip s)
unfolding runes_after
units-le-widths zero [] = omega arith
units-le-widths (suc skip) [] = omega arith
units-le-widths (suc skip) (c ∷ cs) = units-le-widths skip cs
units-le-widths zero (c ∷ cs) =
    omega (arith, utf16_len-decode_rune c cs, units-le-widths ((decode_rune (c ∷ cs)).1 - 1) cs)

position_by_table :
    (m : SourcePositionMapper) (offset line start : ℕ) (t : Bytes)
    → ltb (length m.source) offset ≡ false
    → sort_search (length m.line_starts) (λ i. ltb offset (get_or m.line_starts i 0)) ≡ suc line
    → get_or m.line_starts line 0 ≡ start
    → slice m.source start (length m.source) ≡ t
    → position_from_byte_offset m offset
      ≡ at (to_u32 line) (to_u32 (column_loop m.source offset start 0 (runes t)))
unfolding position_from_byte_offset
position_by_table m offset line start t h s e f =
    let p : suc line - 1 ≡ line = omega arith in rw (h, s, p, e, f)

slice_rest : (a p l b : Bytes) → a ≡ p ++ l → slice (a ++ b) (length p) (length (a ++ b)) ≡ l ++ b
slice_rest a p l b h =
    rw (h, append_assoc p l b, drop-append p (l ++ b))
      (take_all (length (p ++ (l ++ b)) - length p) (l ++ b)
        (omega (arith, length-append p (l ++ b))))

pub length_before : (a : Bytes) → length (ends_at a).before + length (last_line a) ≡ length a
length_before a =
    omega (arith, ap length (ends_at a).splits, length-append (ends_at a).before (last_line a))

column_behind :
    (a b : Bytes)
    → valid_string a ≡ true
    → at_line_break a b ≡ false
    → column_loop (a ++ b) (length a) (length (ends_at a).before) 0 (runes (last_line a ++ b))
      ≡ utf16_code_units (last_line a)
unfolding utf16_code_units
column_behind a b v h = rw (runes-append (last_line a) b ((ends_at a).valid v)) (
    column_loop-units (a ++ b) (length a) (runes b) (runes (last_line a))
      (length (ends_at a).before) 0 (not_split a b h) (runes_after-AllWide 0 (last_line a))
      (omega (arith, length_before a, widths-runes (last_line a)))
    ∙ omega arith)

utf16_code_units-le : (s : Bytes) → utf16_code_units s ≤ length s
unfolding utf16_code_units
utf16_code_units-le s = omega (arith, units-le-widths 0 s, widths-runes s)

-- The place behind `a` is on the line with as many newlines before it as `a` has, and its column
-- counts the UTF-16 code units behind the last of them, if `a` is well-formed and shorter than 2^32
-- bytes and the place is not inside or behind a line break.
pub position_from_byte_offset_lem :
    (a b : Bytes)
    → valid_string a ≡ true
    → length a < u32_mod
    → at_line_break a b ≡ false
    → position_from_byte_offset (new_source_position_mapper (a ++ b)) (length a)
      ≡ at (newlines a) (utf16_code_units (last_line a))
unfolding new_source_position_mapper
position_from_byte_offset_lem a b v small h =
    let l = has_line (a ++ b) (newlines a) (length (ends_at a).before) ((ends_at a).starts b) in
    let m = new_source_position_mapper (a ++ b) in
    position_by_table m (length a) (newlines a) (length (ends_at a).before) (last_line a ++ b)
      (le→ltb _ _ (omega (arith, length-append a b))) (search_line a b) l.starts
      (slice_rest a (ends_at a).before (last_line a) b (ends_at a).splits)
    ∙ rw (
      column_behind a b v h,
      to_u32_small (newlines a) (omega (arith, newlines-le a)),
      to_u32_small (utf16_code_units (last_line a))
          (omega (arith, utf16_code_units-le (last_line a), length_before a)),
    )
