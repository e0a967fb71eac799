-- ===== src/SourcePosition/Ranges.antt =====
-- server/providers/source_position.go: the order and the bounds of ranges and spans.
use vscode_php_strom.Base.{
  ℕ, ◌+◌, ◌-◌, ◌≤◌, ◌<◌, ◌≡◌, true, false, ◌||◌, none, some, List, [], ◌∷◌, arith, ◌==◌, ltb,
  length, get_or, drop, length-take, inl, inr, Option-cases, Bool-cases,
}
use vscode_php_strom.Lsp.{Position}
use vscode_php_strom.Text.{Bytes, slice}
use vscode_php_strom.Text.Utf8.{runes, widths}
use vscode_php_strom.Text.Utf8.Laws.{widths-runes}
use vscode_php_strom.SourcePosition.{
  SourcePositionMapper, new_source_position_mapper, position, position_before, span_range, line_end,
}
use vscode_php_strom.SourcePosition.Spans.{
  rune_offset_loop, rune_position_to_byte, span_end, byte_span_from_rune_positions,
}
use vscode_php_strom.SourcePosition.Lines.{has_line, line_start-get_or, line_end-le}

position_before_irrefl : (p : Position) → position_before p p ≡ false
unfolding position_before
position_before_irrefl p = ground arith

-- No range that is made from parser coordinates ends before it starts.
pub span_range_ordered :
    (m : SourcePositionMapper) (start_line start_column end_line end_column : ℕ)
    → (let r = span_range m start_line start_column end_line end_column in
        position_before r.end r.start)
      ≡ false
unfolding span_range
span_range_ordered m a b c d = ground (arith, position_before_irrefl (position m a b).0)

rune_offset_loop-bounds :
    (target offset count r : ℕ) (ds : List (ℕ × ℕ))
    → rune_offset_loop target offset count ds ≡ some r
    → (offset ≤ r) × (r ≤ offset + widths ds)
unfolding rune_offset_loop
rune_offset_loop-bounds target offset count r [] h = (ground arith, ground arith)
rune_offset_loop-bounds target offset count r ((v, size) ∷ ds) h =
    let later = rune_offset_loop-bounds target (offset + size) (count + 1) r ds in
    ground (arith, rune_offset_loop-bounds target (offset + size) (count + 1) r ds)

widths-slice : (s : Bytes) (i j : ℕ) → i ≤ j → i + widths (runes (slice s i j)) ≤ j
widths-slice s i j h = omega (arith, widths-runes (slice s i j), length-take (j - i) (drop i s))

-- What the code computes from an entry of the line table, whatever the table.
rune_position_by_table :
    (m : SourcePositionMapper) (line column r : ℕ)
    → (line == 0 || column == 0 || ltb (length m.line_starts) line) ≡ false
    → get_or m.line_starts (line - 1) 0 ≤ line_end m (line - 1)
    → rune_position_to_byte m line column ≡ some r
    → r ≤ line_end m (line - 1)
unfolding rune_position_to_byte
rune_position_by_table m line column r e le h =
    let start = get_or m.line_starts (line - 1) 0 in
    let stop = line_end m (line - 1) in
    ground (
      arith,
      rune_offset_loop-bounds (column - 1) start 0 r (runes (slice m.source start stop)),
      rune_offset_loop-bounds (column - 1) start 0 r (runes (slice m.source start (stop - 1))),
      widths-slice m.source start stop,
      widths-slice m.source start (stop - 1),
    )

no_rune_position :
    (m : SourcePositionMapper) (line column : ℕ)
    → (line == 0 || column == 0 || ltb (length m.line_starts) line) ≡ true
    → rune_position_to_byte m line column ≡ none
unfolding rune_position_to_byte
no_rune_position m line column e = rw e

line_entry :
    (m : SourcePositionMapper) (line column : ℕ)
    → (line == 0 || column == 0 || ltb (length m.line_starts) line) ≡ false
    → line - 1 < length m.line_starts
line_entry m line column h = ground arith

-- A byte that rune coordinates are found at is in the text.
pub rune_position_to_byte-le :
    (s : Bytes) (line column r : ℕ)
    → rune_position_to_byte (new_source_position_mapper s) line column ≡ some r
    → r ≤ length s
rune_position_to_byte-le s line column r h =
    let m = new_source_position_mapper s in
    elim (Bool-cases (line == 0 || column == 0 || ltb (length m.line_starts) line)) [
      | inl e ↦ cc (no_rune_position m line column e)
      | inr e ↦
          let k = line_entry m line column e in
          let l = has_line s (line - 1) _ (line_start-get_or s (line - 1) k) in
          let ends = l.ends in
          omega (arith, rune_position_by_table m line column r e ends h, line_end-le s (line - 1) k)
    ]

span_end-bounds :
    (s : Bytes) (start end_line end_column : ℕ)
    → start ≤ length s
    → (let e = span_end (new_source_position_mapper s) start end_line end_column in
        (start ≤ e) × (e ≤ length s))
span_end-bounds s start c d h =
    let m = new_source_position_mapper s in
    elim (Option-cases (rune_position_to_byte m c d)) [
      | inl e ↦ ground (arith, e)
      | inr (r, e) ↦ ground (arith, e, rune_position_to_byte-le s c d r e)
    ]

-- A byte span from rune coordinates is ordered and in the text, found or not.
pub byte_span_bounds :
    (s : Bytes) (start_line start_column end_line end_column : ℕ)
    → (let span =
          byte_span_from_rune_positions
            (new_source_position_mapper s)
            start_line
            start_column
            end_line
            end_column in
        (span.start ≤ span.end) × (span.end ≤ length s))
unfolding byte_span_from_rune_positions
byte_span_bounds s a b c d =
    let m = new_source_position_mapper s in
    elim (Option-cases (rune_position_to_byte m a b)) [
      | inl e ↦ rw (e, byte_span_from_rune_positions) (omega arith)
      | inr (r, e) ↦
          rw (e, byte_span_from_rune_positions)
            (span_end-bounds s r c d (rune_position_to_byte-le s a b r e))
    ]
