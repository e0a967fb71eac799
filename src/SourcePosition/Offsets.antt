-- ===== src/SourcePosition/Offsets.antt =====
-- server/providers/source_position.go: byteOffsetFromPosition on the line that a position names.
use vscode_php_strom.Base.{
  ℕ, ◌+◌, ◌≡◌, ap, false, none, some, leb, ltb, length, get_or, drop, le→ltb, lt→leb, le→leb,
}
use vscode_php_strom.Text.{Bytes, slice, trim_suffix}
use vscode_php_strom.Text.Utf8.{runes}
use vscode_php_strom.SourcePosition.{
  SourcePositionMapper, new_source_position_mapper, carriage_return, line_end, offset_loop,
  byte_offset_from_position, at,
}
use vscode_php_strom.SourcePosition.Lines.{line_start, first_line, has_line, no_line, source-mapper}

-- The text of a line, without its line break, and the offset of a character in it.
abbrev pub line_text : Bytes → ℕ → Bytes
line_text s k = trim_suffix carriage_return (first_line (drop k s))

abbrev pub offset_in_line : Bytes → ℕ → ℕ → ℕ
offset_in_line t k char = offset_loop char (k + length t) 0 k (runes t)

pub offset_no_line :
    (s : Bytes) (n char : ℕ)
    → line_start n s ≡ none
    → byte_offset_from_position (new_source_position_mapper s) (at n char) ≡ length s
unfolding byte_offset_from_position
offset_no_line s n char h = rw (le→leb _ _ (no_line s n h)) (ap length (source-mapper s))

-- What the code computes from an entry of the line table, whatever the table.
offset_by_entry :
    (m : SourcePositionMapper) (n char k : ℕ) (t : Bytes)
    → get_or m.line_starts n 0 ≡ k
    → ltb (line_end m n) k ≡ false
    → leb (length m.line_starts) n ≡ false
    → slice m.source k (line_end m n) ≡ t
    → byte_offset_from_position m (at n char)
      ≡ offset_in_line (trim_suffix carriage_return t) k char
unfolding byte_offset_from_position
offset_by_entry m n char k t a b c d = rw (c, a, b, d)

pub offset_line :
    (s : Bytes) (n k char : ℕ)
    → line_start n s ≡ some k
    → byte_offset_from_position (new_source_position_mapper s) (at n char)
      ≡ offset_in_line (line_text s k) k char
unfolding new_source_position_mapper
offset_line s n k char h =
    let l = has_line s n k h in
    offset_by_entry (new_source_position_mapper s) n char k _ l.starts (le→ltb _ _ l.ends)
      (lt→leb _ _ l.in_table) l.text
