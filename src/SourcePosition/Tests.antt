-- ===== src/SourcePosition/Tests.antt =====
-- Runs of the position mapper of server/providers/source_position.go at concrete inputs.
use vscode_php_strom.Base.{◌≤◌, ◌≡◌, refl, [], ◌∷◌, ◌++◌, arith, length}
use vscode_php_strom.Lsp.{to_u32}
use vscode_php_strom.Text.{Bytes, beq, trim_suffix, has_suffix, has_prefix}
use vscode_php_strom.Text.Utf8.{runes_after, decode_rune, rune_len, utf16_len}
use vscode_php_strom.SourcePosition.{
  new_source_position_mapper, newline_ends, line_end, at, search_loop, sort_search, column_loop,
  position_from_byte_offset, offset_loop, byte_offset_from_position, utf16_code_units,
}
use vscode_php_strom.SourcePosition.Spans.{byte_span_from_rune_positions}
use vscode_php_strom.SourcePosition.LastLine.{last_line}
use vscode_php_strom.SourcePosition.Lines.{newlines}
use vscode_php_strom.SourcePosition.Positions.{at_line_break, position_from_byte_offset_lem}
use vscode_php_strom.SourcePosition.RoundTrip.{byte_offset-position}
use vscode_php_strom.SourcePosition.Ranges.{byte_span_bounds}

-- A line, its line break, and two characters of two and of four bytes.
abbrev before : Bytes
before = b'a' ∷ b'\r' ∷ b'\n' ∷ 0xc3 ∷ 0xa9 ∷ 0xf0 ∷ 0x9f ∷ 0x98 ∷ 0x80 ∷ []

abbrev after : Bytes
after = b'b' ∷ b'\n' ∷ []

-- Three code units: one for the first character and two for the second.
position_run : position_from_byte_offset (new_source_position_mapper (before ++ after)) 9 ≡ at 1 3
unfolding new_source_position_mapper newline_ends sort_search search_loop column_loop runes_after
    decode_rune utf16_len position_from_byte_offset to_u32
position_run = refl

offset_run : byte_offset_from_position (new_source_position_mapper (before ++ after)) (at 1 3) ≡ 9
unfolding new_source_position_mapper newline_ends offset_loop runes_after decode_rune utf16_len
    rune_len byte_offset_from_position line_end trim_suffix beq
offset_run = refl

position_from_byte_offset_example :
    position_from_byte_offset (new_source_position_mapper (before ++ after)) (length before)
    ≡ at (newlines before) (utf16_code_units (last_line before))
unfolding runes_after decode_rune has_suffix has_prefix at_line_break beq
position_from_byte_offset_example =
    position_from_byte_offset_lem before after refl (omega arith) refl

byte_offset-position_example :
    byte_offset_from_position
      (new_source_position_mapper (before ++ after))
      (position_from_byte_offset (new_source_position_mapper (before ++ after)) (length before))
    ≡ length before
unfolding runes_after decode_rune has_suffix has_prefix at_line_break beq
byte_offset-position_example = byte_offset-position before after refl (omega arith) refl

byte_span_bounds_example :
    (let span =
        byte_span_from_rune_positions (new_source_position_mapper (before ++ after)) 2 1 2 3 in
      (span.start ≤ span.end) × (span.end ≤ length (before ++ after)))
byte_span_bounds_example = byte_span_bounds (before ++ after) 2 1 2 3
