-- ===== src/Documents/Edits.antt =====
-- server/phpstrom/documents.go: applyEdit, Change and SetText.
use vscode_php_strom.Base.{
  ℕ, ◌<◌, ◌≡◌, refl, sym, ◌∙◌, true, false, Option, none, some, List, [], ◌∷◌, ◌++◌, arith,
  if◌then◌else◌, length, take, drop, length-append, append_assoc, take-append, drop-append,
  Option-cases, inl, inr,
}
use vscode_php_strom.Dict
use vscode_php_strom.Lsp.{TextDocumentContentChangeEvent, TextDocumentItem, u32_mod}
use vscode_php_strom.Text.{Bytes, has_suffix, beq, beq_iff}
use vscode_php_strom.Text.Utf8.{valid_string}
use vscode_php_strom.SourcePosition.{
  new_source_position_mapper, carriage_return, position_from_byte_offset,
}
use vscode_php_strom.SourcePosition.Positions.{at_line_break}
use vscode_php_strom.SourcePosition.RoundTrip.{byte_offset-position}
use vscode_php_strom.Documents.{byte_offset_from_utf16_position, apply_edit}
use vscode_php_strom.Documents.Agreement.{byte_offset-agree}
use vscode_php_strom.Documents.Store.{
  Document, DocumentStore, open_document, apply_change, apply_changes, or_new, change_document,
  get_document, set_text, close_document,
}

-- The place behind `a` is a character of its line: `a` is well formed and short enough, and the place
-- is not inside or behind a line break.
pub record IsPlace (a b : Bytes) : Type 0 where
  pub well_formed : valid_string a ≡ true
  pub short : length a < u32_mod
  pub not_break : at_line_break a b ≡ false

offset_of_place :
    (src a b : Bytes)
    → src ≡ a ++ b
    → IsPlace a b
    → has_suffix carriage_return src ≡ false
    → (let p = position_from_byte_offset (new_source_position_mapper src) (length a) in
        byte_offset_from_utf16_position src p.line p.character)
      ≡ length a
offset_of_place src a b e p h =
    let pos = position_from_byte_offset (new_source_position_mapper src) (length a) in
    byte_offset-agree src pos.line pos.character h
    ∙ rw e (byte_offset-position a b p.well_formed p.short p.not_break)

splice :
    (a b c new : Bytes)
    → take (length a) (a ++ (b ++ c)) ++ (new ++ drop (length (a ++ b)) (a ++ (b ++ c)))
      ≡ a ++ (new ++ c)
splice a b c new = rw (take-append a (b ++ c), ← append_assoc a b c, drop-append (a ++ b) c) refl

-- An edit whose range is the server's own positions of the two ends of `b` replaces `b` and keeps
-- what is around it, in a text that does not end in a carriage return: what is before each end is
-- well-formed and shorter than 2^32 bytes, and neither end is inside or behind a line break.
pub apply_edit-splice :
    (a b c new : Bytes)
    → IsPlace a (b ++ c)
    → IsPlace (a ++ b) c
    → has_suffix carriage_return (a ++ (b ++ c)) ≡ false
    → (let m = new_source_position_mapper (a ++ (b ++ c)) in
        apply_edit
          (a ++ (b ++ c))
          (record {
            start = position_from_byte_offset m (length a);
            end = position_from_byte_offset m (length (a ++ b));
          })
          new)
      ≡ a ++ (new ++ c)
unfolding apply_edit
apply_edit-splice a b c new p q h =
    rw
      (
        offset_of_place (a ++ (b ++ c)) a (b ++ c) refl p h,
        offset_of_place (a ++ (b ++ c)) (a ++ b) c (sym (append_assoc a b c)) q h,
      )
      (ground
        (arith, splice a b c new, length-append a b, length-append a (b ++ c), length-append b c))

-- A change without a range discards the text and the changes before it.
pub apply_changes-whole :
    (text : Bytes) (before after : List TextDocumentContentChangeEvent)
    (c : TextDocumentContentChangeEvent)
    → c.range ≡ none
    → apply_changes text (before ++ (c ∷ after)) ≡ apply_changes c.text after
unfolding apply_changes
apply_changes-whole text [] after c h = rw (h, apply_change) refl
apply_changes-whole text (d ∷ before) after c h =
    apply_changes-whole (apply_change text d) before after c h

-- The changes of two notifications, one after the other, are the changes of one.
pub apply_changes-append :
    (text : Bytes) (xs ys : List TextDocumentContentChangeEvent)
    → apply_changes text (xs ++ ys) ≡ apply_changes (apply_changes text xs) ys
unfolding apply_changes
apply_changes-append text [] ys = refl
apply_changes-append text (x ∷ xs) ys = apply_changes-append (apply_change text x) xs ys

abbrev pub replaced : Bytes → Option Document → Option Document
replaced text none = none
replaced text (some doc) = some (record doc { text = text })

get_document-set_text :
    (s : DocumentStore) (j uri text : Bytes)
    → get_document (set_text s uri text).0 j
      ≡ (if beq uri j then replaced text (get_document s uri) else get_document s j)
unfolding get_document set_text
get_document-set_text s j uri text = elim (Option-cases (Dict.lookup uri s.docs)) [
  | inl e ↦ ground (arith, beq_iff uri j, e)
  | inr (doc, e) ↦ ground (arith, e, Dict.lookup-insert uri j (record doc { text = text }) s.docs)
]

-- What a reader of the document at `j` finds after each operation on the document at `uri`.
pub get_document-operations :
    (s : DocumentStore) (item : TextDocumentItem) (j uri text : Bytes) (version : ℕ)
    (changes : List TextDocumentContentChangeEvent)
    → (get_document (open_document s item).0 j ≡ (
        if beq item.uri j
        then some (record { uri = item.uri; version = item.version; text = item.text })
        else get_document s j))
      × (get_document (change_document s uri version changes).0 j ≡ (
          if beq uri j
          then (let doc = or_new uri (get_document s uri) in
              some (record doc { version = version; text = apply_changes doc.text changes }))
          else get_document s j))
      × (get_document (set_text s uri text).0 j
          ≡ (if beq uri j then replaced text (get_document s uri) else get_document s j))
      × (get_document (close_document s uri) j ≡ (if beq uri j then none else get_document s j))
unfolding get_document open_document change_document set_text close_document
get_document-operations s item j uri text version changes = (
  Dict.lookup-insert item.uri j _ s.docs,
  Dict.lookup-insert uri j _ s.docs,
  get_document-set_text s j uri text,
  Dict.lookup-delete uri j s.docs,
)
