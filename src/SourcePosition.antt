-- ===== src/SourcePosition.antt =====
-- server/providers/source_position.go: between the parser's one-based rune coordinates, the
-- protocol's zero-based UTF-16 coordinates and byte offsets, through a table of line starts. An int
-- argument is a number here: the code treats every value below 1 (of a line or a column) and below 0
-- (of an offset) as it treats 0. A loop that decodes a rune at a position and advances by its width
-- is a recursion over the runes from that position.
pub mod Spans
pub mod Lines
pub mod Offsets
mod LastLine
pub mod Positions
pub mod RoundTrip
pub mod Ranges
mod Tests
use vscode_php_strom.Base.{
  ℕ, zero, suc, ◌+◌, ◌-◌, ◌/◌, Bool, true, false, not, ◌&&◌, ◌||◌, Option, none, some, List, [],
  ◌∷◌, ◌==◌, leb, ltb, if◌then◌else◌, length, get_or,
}
use vscode_php_strom.Lsp.{Position, Range, to_u32}
use vscode_php_strom.Text.{Bytes, byte_at, slice, trim_suffix}
use vscode_php_strom.Text.Utf8.{runes, rune_len, utf16_len, units}

pub record SourcePositionMapper : Type 0 where
  pub source : Bytes
  pub line_starts : List ℕ

-- The positions behind the newlines of the bytes from `index` on.
unfoldable pub newline_ends : ℕ → Bytes → List ℕ
newline_ends index [] = []
newline_ends index (c ∷ cs) =
    let rest = newline_ends (index + 1) cs in if c == b'\n' then (index + 1) ∷ rest else rest

unfoldable pub new_source_position_mapper : Bytes → SourcePositionMapper
new_source_position_mapper source = record {
  source = source;
  line_starts = 0 ∷ newline_ends 0 source;
}

abbrev pub carriage_return : Bytes
carriage_return = b'\r' ∷ []

-- The end of a line, before its newline.
unfoldable pub line_end : SourcePositionMapper → ℕ → ℕ
line_end m line_index =
    if ltb (line_index + 1) (length m.line_starts)
    then get_or m.line_starts (line_index + 1) 0 - 1
    else length m.source

abbrev pub at : ℕ → ℕ → Position
at line character = record { line = line; character = character }

unfoldable pub position_loop : ℕ → ℕ → ℕ → ℕ → List (ℕ × ℕ) → Position × Bool
position_loop line_index target_rune rune_index utf16_column [] =
    (at (to_u32 line_index) (to_u32 utf16_column), rune_index == target_rune)
position_loop line_index target_rune rune_index utf16_column ((value, _) ∷ rest) =
    if rune_index == target_rune
    then (at (to_u32 line_index) (to_u32 utf16_column), true)
    else position_loop line_index target_rune (rune_index + 1) (utf16_column + utf16_len value) rest

unfoldable pub position : SourcePositionMapper → ℕ → ℕ → Position × Bool
unfolding line_end position_loop
position m line column =
    if line == 0 || ltb (length m.line_starts) line
    then (at 0 0, false)
    else let line_index = line - 1 in
      let start = get_or m.line_starts line_index 0 in
      let line_text = trim_suffix carriage_return (slice m.source start (line_end m line_index)) in
      if column == 0
      then (at (to_u32 line_index) 0, false)
      else position_loop line_index (column - 1) 0 0 (runes line_text)

unfoldable pub position_before : Position → Position → Bool
position_before left right =
    ltb left.line right.line || left.line == right.line && ltb left.character right.character

unfoldable pub point_range : SourcePositionMapper → ℕ → ℕ → Range
point_range m line column = let (p, _) = position m line column in record { start = p; end = p }

unfoldable pub span_range : SourcePositionMapper → ℕ → ℕ → ℕ → ℕ → Range
unfolding position_before
span_range m start_line start_column end_line end_column =
    let (start, start_valid) = position m start_line start_column in
    if end_line == 0 || end_column == 0
    then record { start = start; end = start }
    else let (end, end_valid) = position m end_line end_column in
      if not start_valid || not end_valid || position_before end start
      then record { start = start; end = start }
      else record { start = start; end = end }

-- `sort.Search`: the loop of the package, its rounds bounded by `n`.
unfoldable pub search_loop : ℕ → (ℕ → Bool) → ℕ → ℕ → ℕ
search_loop zero f i j = i
search_loop (suc fuel) f i j =
    let h = (i + j) / 2 in
    let right = search_loop fuel f (h + 1) j in
    let left = search_loop fuel f i h in if ltb i j then (if not (f h) then right else left) else i

unfoldable pub sort_search : ℕ → (ℕ → Bool) → ℕ
unfolding search_loop
sort_search n f = search_loop n f 0 n

-- The loop of positionFromByteOffset, from byte `i`.
unfoldable pub column_loop : Bytes → ℕ → ℕ → ℕ → List (ℕ × ℕ) → ℕ
column_loop source offset i column [] = column
column_loop source offset i column ((r, size) ∷ rest) =
    if not (ltb i offset)
    then column
    else if byte_at source i == b'\r'
        && i + 1 == offset
        && ltb offset (length source)
        && byte_at source offset == b'\n'
    then column
    else if ltb size 1 || ltb offset (i + size)
    then column
    else column_loop source offset (i + size) (column + utf16_len r) rest

unfoldable pub position_from_byte_offset : SourcePositionMapper → ℕ → Position
position_from_byte_offset m given =
    let offset = if ltb (length m.source) given then length m.source else given in
    let line =
      sort_search (length m.line_starts) (λ i. ltb offset (get_or m.line_starts i 0)) - 1 in
    let start = get_or m.line_starts line 0 in
    at (to_u32 line) (
      to_u32 (column_loop m.source offset start 0 (runes (slice m.source start (length m.source)))))

-- The loop over a line's runes until `target` code units are passed; `limit` is the result behind
-- the last one.
unfoldable pub offset_loop : ℕ → ℕ → ℕ → ℕ → List (ℕ × ℕ) → ℕ
offset_loop target limit utf16_column byte_pos [] = limit
offset_loop target limit utf16_column byte_pos ((value, _) ∷ rest) =
    if leb target utf16_column
    then byte_pos
    else let size = rune_len value in
      let column = utf16_column + utf16_len value in
      if leb target column
      then byte_pos + size
      else offset_loop target limit column (byte_pos + size) rest

unfoldable pub byte_offset_from_position : SourcePositionMapper → Position → ℕ
unfolding offset_loop
byte_offset_from_position m pos =
    let line = pos.line in
    if leb (length m.line_starts) line
    then length m.source
    else let line_start = get_or m.line_starts line 0 in
      let raw_end = line_end m line in
      let line_end = if ltb raw_end line_start then line_start else raw_end in
      let line_text = trim_suffix carriage_return (slice m.source line_start line_end) in
      offset_loop pos.character (line_start + length line_text) 0 line_start (runes line_text)

-- `utf16CodeUnits`
unfoldable pub utf16_code_units : Bytes → ℕ
utf16_code_units s = units (runes s)
