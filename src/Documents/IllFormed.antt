-- ===== src/Documents/IllFormed.antt =====
-- server/phpstrom/documents.go: positions in a text that is not well-formed UTF-8, as SetText may store
-- it from a file.
use vscode_php_strom.Base.{
  ℕ, ◌+◌, ◌≤◌, ◌<◌, ◌≡◌, [], ◌∷◌, arith, length, take, Option-cases, inl, inr,
}
use vscode_php_strom.Text.{Bytes, index_byte, trim_suffix, beq}
use vscode_php_strom.Text.Utf8.{runes, runes_after, decode_rune, rune_len, utf16_len}
use vscode_php_strom.Documents.{editable, column_offset, byte_offset_from_utf16_position}

editable-cons : (x : ℕ) (t : Bytes) → 128 ≤ x → (r : Bytes) × (editable (x ∷ t) ≡ x ∷ r)
unfolding editable index_byte trim_suffix beq
editable-cons x t h = elim (Option-cases (index_byte b'\n' t)) [
  | inl e ↦ (t, ground (arith, e))
  | inr (i, e) ↦ (trim_suffix (b'\r' ∷ []) (take i t), ground (arith, e))
]

column_offset_ill_formed :
    (x : ℕ) (r : Bytes) (limit : ℕ)
    → 128 ≤ x
    → x < 192
    → column_offset 1 0 limit 0 0 (runes (x ∷ r)) ≡ 3
unfolding column_offset runes_after decode_rune rune_len utf16_len
column_offset_ill_formed x r limit h k = ground arith

-- A continuation byte that begins a text counts as three bytes, the length of the rune that stands
-- for it: the store takes the place behind it for byte 3.
pub byte_offset_ill_formed :
    (x : ℕ) (t : Bytes) → 128 ≤ x → x < 192 → byte_offset_from_utf16_position (x ∷ t) 0 1 ≡ 3
unfolding byte_offset_from_utf16_position
byte_offset_ill_formed x t h k =
    let (r, e) = editable-cons x t h in
    rw (e, byte_offset_from_utf16_position) (column_offset_ill_formed x r (0 + length (x ∷ r)) h k)
