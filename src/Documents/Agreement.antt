-- ===== src/Documents/Agreement.antt =====
-- server/phpstrom/documents.go and server/providers/source_position.go: the two maps from a protocol
-- position to a byte offset.
use native.Mathlib.Nat.{add-zero}
use vscode_php_strom.Base.{
  ℕ, zero, suc, ◌+◌, ◌≡◌, refl, sym, ap, ◌∙◌, false, none, some, List, [], ◌∷◌, arith, length, drop,
  inl, inr, Option-cases,
}
use vscode_php_strom.Text.{Bytes, index_byte, has_suffix, trim_suffix}
use vscode_php_strom.Text.Search.{trim_suffix-none, has_suffix-drop}
use vscode_php_strom.Text.Utf8.{rune_len, utf16_len}
use vscode_php_strom.Text.Utf8.{runes}
use vscode_php_strom.SourcePosition.{
  new_source_position_mapper, carriage_return, offset_loop, byte_offset_from_position, at,
}
use vscode_php_strom.SourcePosition.Offsets.{offset_in_line, offset_line, offset_no_line}
use vscode_php_strom.SourcePosition.Lines.{line_start, line_start_next, line_start-none, first_line}
use vscode_php_strom.Documents.{
  skip_lines, editable, column_offset, byte_offset_from_utf16_position,
}

-- The search for newlines from the start of line `n` finds the start of line `n + line`.
skip_lines-line_start_from :
    (src : Bytes) (line n off : ℕ)
    → line_start n src ≡ some off
    → skip_lines src line off ≡ line_start (n + line) src
unfolding skip_lines
skip_lines-line_start_from src zero n off h = rw (add-zero, h)
skip_lines-line_start_from src (suc line) n off h =
    elim (Option-cases (index_byte b'\n' (drop off src))) [
      | inl e ↦
          rw (e, skip_lines)
            (sym (
              rw (let p : n + suc line ≡ suc n + line = omega arith in p)
                (line_start-none line (suc n) src (ground (arith, line_start_next n src h)))))
      | inr (i, e) ↦
          rw (e, skip_lines, let p : n + suc line ≡ suc n + line = omega arith in p)
            (skip_lines-line_start_from src line (suc n) (off + (i + 1))
              (ground (arith, line_start_next n src h)))
    ]

pub skip_lines-line_start : (src : Bytes) (line : ℕ) → skip_lines src line 0 ≡ line_start line src
unfolding line_start
skip_lines-line_start src line =
    skip_lines-line_start_from src line 0 0 refl ∙ ap (λ k. line_start k src) (omega arith)

column_offset-offset_loop :
    (char off limit column pos : ℕ) (rs : List (ℕ × ℕ))
    → column_offset char off limit column pos rs ≡ offset_loop char limit column (off + pos) rs
unfolding column_offset offset_loop
column_offset-offset_loop char off limit column pos [] = refl
column_offset-offset_loop char off limit column pos ((r, w) ∷ rest) =
    ground (
      arith,
      column_offset-offset_loop char off limit (column + utf16_len r) (pos + rune_len r) rest,
    )

-- Without a carriage return at its end a last line is not trimmed.
editable-trim_suffix :
    (t : Bytes)
    → has_suffix carriage_return t ≡ false
    → editable t ≡ trim_suffix carriage_return (first_line t)
unfolding editable
editable-trim_suffix t h = ground (arith, trim_suffix-none carriage_return t)

-- The document store's offset on a line of the text.
offset_by_line :
    (src : Bytes) (line char k : ℕ)
    → skip_lines src line 0 ≡ some k
    → byte_offset_from_utf16_position src line char ≡ offset_in_line (editable (drop k src)) k char
unfolding byte_offset_from_utf16_position
offset_by_line src line char k h =
    let t = editable (drop k src) in
    rw (h, byte_offset_from_utf16_position)
      (column_offset-offset_loop char k (k + length t) 0 0 (runes t)
        ∙ ap (λ p. offset_loop char (k + length t) 0 p (runes t)) (add-zero k))

offset_by_no_line :
    (src : Bytes) (line char : ℕ)
    → skip_lines src line 0 ≡ none
    → byte_offset_from_utf16_position src line char ≡ length src
unfolding byte_offset_from_utf16_position
offset_by_no_line src line char h = rw (h, byte_offset_from_utf16_position)

-- The document store and the providers map every position of a text to the same byte, unless the
-- text ends in a carriage return.
pub byte_offset-agree :
    (src : Bytes) (line char : ℕ)
    → has_suffix carriage_return src ≡ false
    → byte_offset_from_utf16_position src line char
      ≡ byte_offset_from_position (new_source_position_mapper src) (at line char)
byte_offset-agree src line char h = elim (Option-cases (line_start line src)) [
  | inl e ↦
      offset_by_no_line src line char (skip_lines-line_start src line ∙ e)
      ∙ sym (offset_no_line src line char e)
  | inr (k, e) ↦
      offset_by_line src line char k (skip_lines-line_start src line ∙ e)
      ∙ rw (editable-trim_suffix (drop k src) (has_suffix-drop _ k src h))
          (sym (offset_line src line k char e))
]
