-- ===== src/SourcePosition/Spans.antt =====
-- server/providers/source_position.go: byte spans and offsets from the parser's rune coordinates, and
-- the diagnostics that are sent to the client.
use vscode_php_strom.Base.{
  ℕ, ◌+◌, ◌-◌, not, ◌&&◌, ◌||◌, Option, none, some, List, [], ◌∷◌, ◌==◌, leb, ltb, if◌then◌else◌,
  length, get_or,
}
use vscode_php_strom.Lsp.{Range}
use vscode_php_strom.Text.{byte_at, slice, trim_suffix}
use vscode_php_strom.Text.Utf8.{runes}
use vscode_php_strom.SourcePosition.{
  SourcePositionMapper, carriage_return, line_end, position_from_byte_offset,
}

-- `goparser.ByteSpan`
pub record ByteSpan : Type 0 where
  pub start : ℕ
  pub end : ℕ

unfoldable pub rune_offset_loop : ℕ → ℕ → ℕ → List (ℕ × ℕ) → Option ℕ
rune_offset_loop target offset count [] = if count == target then some offset else none
rune_offset_loop target offset count ((_, size) ∷ rest) =
    if count == target
    then some offset
    else rune_offset_loop target (offset + size) (count + 1) rest

-- `none` is the failure, `(0, false)`.
unfoldable pub rune_position_to_byte : SourcePositionMapper → ℕ → ℕ → Option ℕ
rune_position_to_byte m line column =
    if line == 0 || column == 0 || ltb (length m.line_starts) line
    then none
    else let line_start = get_or m.line_starts (line - 1) 0 in
      let raw_end = line_end m (line - 1) in
      let line_end =
        if ltb line_start raw_end && byte_at m.source (raw_end - 1) == b'\r'
        then raw_end - 1
        else raw_end in
      rune_offset_loop (column - 1) line_start 0 (runes (slice m.source line_start line_end))

-- The end of a span that starts at byte `start`.
abbrev pub span_end : SourcePositionMapper → ℕ → ℕ → ℕ → ℕ
span_end m start end_line end_column =
    if not (end_line == 0) && not (end_column == 0)
    then elim (rune_position_to_byte m end_line end_column) [
      | none ↦ start
      | some candidate ↦ if leb start candidate then candidate else start
    ]
    else start

unfoldable pub byte_span_from_rune_positions : SourcePositionMapper → ℕ → ℕ → ℕ → ℕ → ByteSpan
byte_span_from_rune_positions m start_line start_column end_line end_column =
    elim (rune_position_to_byte m start_line start_column) [
      | none ↦ record { start = 0; end = 0 }
      | some start ↦ record { start = start; end = span_end m start end_line end_column }
    ]

unfoldable pub skip_runes : ℕ → ℕ → ℕ → ℕ → List (ℕ × ℕ) → ℕ
skip_runes target limit offset count [] = offset
skip_runes target limit offset count ((_, size) ∷ rest) =
    if ltb count target && ltb offset limit
    then skip_runes target limit (offset + size) (count + 1) rest
    else offset

unfoldable pub byte_offset_from_rune_position : SourcePositionMapper → ℕ → ℕ → ℕ
unfolding line_end skip_runes
byte_offset_from_rune_position m line column =
    if line == 0
    then 0
    else let line_index = line - 1 in
      if leb (length m.line_starts) line_index
      then length m.source
      else let start = get_or m.line_starts line_index 0 in
        let line_text =
          trim_suffix carriage_return (slice m.source start (line_end m line_index)) in
        skip_runes (column - 1) (start + length line_text) start 0 (runes line_text)

unfoldable pub diagnostic_range : SourcePositionMapper → ByteSpan → Range
diagnostic_range m span = record {
  start = position_from_byte_offset m span.start;
  end = position_from_byte_offset m span.end;
}
