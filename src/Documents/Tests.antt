-- ===== src/Documents/Tests.antt =====
-- Runs of the document store of server/phpstrom/documents.go at concrete inputs.
use vscode_php_strom.Base.{◌≡◌, refl, none, some, [], ◌∷◌, ◌++◌, arith, length}
use vscode_php_strom.Lsp.{TextDocumentContentChangeEvent, TextDocumentItem}
use vscode_php_strom.Text.{Bytes, beq, has_suffix, has_prefix}
use vscode_php_strom.Text.Utf8.{runes_after, decode_rune}
use vscode_php_strom.SourcePosition.{
  new_source_position_mapper, position_from_byte_offset, byte_offset_from_position, at,
}
use vscode_php_strom.SourcePosition.Positions.{at_line_break}
use vscode_php_strom.Documents.{apply_edit, byte_offset_from_utf16_position}
use vscode_php_strom.Documents.Store.{DocumentStore, new_document_store, open_document}
use vscode_php_strom.Documents.Agreement.{byte_offset-agree}
use vscode_php_strom.Documents.Edits.{IsPlace, apply_edit-splice}
use vscode_php_strom.Documents.IllFormed.{byte_offset_ill_formed}

abbrev first : Bytes
first = b'a' ∷ b'\n' ∷ 0xc3 ∷ 0xa9 ∷ []

abbrev second : Bytes
second = b'b' ∷ b'\n' ∷ b'c' ∷ []

abbrev third : Bytes
third = b'd' ∷ b'\n' ∷ []

first-IsPlace : IsPlace first (second ++ third)
unfolding runes_after decode_rune has_suffix has_prefix at_line_break beq
first-IsPlace = record { well_formed = refl; short = omega arith; not_break = refl }

second-IsPlace : IsPlace (first ++ second) third
unfolding runes_after decode_rune has_suffix has_prefix at_line_break beq
second-IsPlace = record { well_formed = refl; short = omega arith; not_break = refl }

apply_edit-splice_example :
    (let m = new_source_position_mapper (first ++ (second ++ third)) in
      apply_edit
        (first ++ (second ++ third))
        (record {
          start = position_from_byte_offset m (length first);
          end = position_from_byte_offset m (length (first ++ second));
        })
        (b'x' ∷ []))
    ≡ first ++ ((b'x' ∷ []) ++ third)
unfolding has_suffix beq
apply_edit-splice_example =
    apply_edit-splice first second third (b'x' ∷ []) first-IsPlace second-IsPlace refl

byte_offset-agree_example :
    byte_offset_from_utf16_position (first ++ second) 1 1
    ≡ byte_offset_from_position (new_source_position_mapper (first ++ second)) (at 1 1)
unfolding has_suffix beq
byte_offset-agree_example = byte_offset-agree (first ++ second) 1 1 refl

abbrev whole : TextDocumentContentChangeEvent
whole = record { range = none; text = second }

abbrev part : TextDocumentContentChangeEvent
part = record { range = some (record { start = at 0 0; end = at 0 1 }); text = third }

abbrev item : TextDocumentItem
item = record { uri = b'u' ∷ []; version = 1; text = first }

abbrev opened : DocumentStore
opened = (open_document new_document_store item).0

byte_offset_ill_formed_example :
    byte_offset_from_utf16_position (0x80 ∷ b'a' ∷ b'b' ∷ b'c' ∷ []) 0 1 ≡ 3
byte_offset_ill_formed_example =
    byte_offset_ill_formed 0x80 (b'a' ∷ b'b' ∷ b'c' ∷ []) (omega arith) (omega arith)
