-- ===== src/Documents.antt =====
-- server/phpstrom/documents.go: the store of open documents and the edits that the client sends. The
-- store's lock makes each operation one step. The map holds pointers, which Open, Change, Get and
-- SetText return: a document read later through one of them is the store's entry of that time.
-- A position is two unsigned numbers, so its tests for negative values never hold.
pub mod Store
pub mod Agreement
pub mod Edits
pub mod IllFormed
mod Tests
use vscode_php_strom.Base.{
  ℕ, zero, suc, ◌+◌, ◌||◌, Option, none, some, List, [], ◌∷◌, ◌++◌, leb, ltb, if◌then◌else◌, length,
  take, drop,
}
use vscode_php_strom.Lsp.{Range}
use vscode_php_strom.Text.{Bytes, index_byte, trim_suffix}
use vscode_php_strom.Text.Utf8.{runes, rune_len, utf16_len}

-- The loop over `line`, with `none` where the text has fewer newlines.
unfoldable pub skip_lines : Bytes → ℕ → ℕ → Option ℕ
skip_lines src zero off = some off
skip_lines src (suc line) off = elim (index_byte b'\n' (drop off src)) [
  | none ↦ none
  | some idx ↦ skip_lines src line (off + (idx + 1))
]

-- The line that `content` begins with, without its line break.
unfoldable pub editable : Bytes → Bytes
editable content = elim (index_byte b'\n' content) [
  | none ↦ content
  | some idx ↦ trim_suffix (b'\r' ∷ []) (take idx content)
]

unfoldable pub column_offset : ℕ → ℕ → ℕ → ℕ → ℕ → List (ℕ × ℕ) → ℕ
column_offset char off limit utf16_column byte_pos [] = limit
column_offset char off limit utf16_column byte_pos ((r, _) ∷ rest) =
    if leb char utf16_column
    then off + byte_pos
    else let size = rune_len r in
      let column = utf16_column + utf16_len r in
      if leb char column
      then off + (byte_pos + size)
      else column_offset char off limit column (byte_pos + size) rest

unfoldable pub byte_offset_from_utf16_position : Bytes → ℕ → ℕ → ℕ
unfolding skip_lines editable column_offset
byte_offset_from_utf16_position src line char = elim (skip_lines src line 0) [
  | none ↦ length src
  | some off ↦
      let content = editable (drop off src) in
      column_offset char off (off + length content) 0 0 (runes content)
]

unfoldable pub apply_edit : Bytes → Range → Bytes → Bytes
apply_edit src r new_text =
    let start_off = byte_offset_from_utf16_position src r.start.line r.start.character in
    let end_off = byte_offset_from_utf16_position src r.end.line r.end.character in
    if ltb end_off start_off || ltb (length src) end_off
    then src
    else take start_off src ++ (new_text ++ drop end_off src)
