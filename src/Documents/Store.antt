-- ===== src/Documents/Store.antt =====
-- server/phpstrom/documents.go: the operations of DocumentStore.
use vscode_php_strom.Base.{Option, none, some, List, [], ◌∷◌, ℕ}
use vscode_php_strom.Dict
use vscode_php_strom.Dict.{Dict}
use vscode_php_strom.Lsp.{TextDocumentItem, TextDocumentContentChangeEvent}
use vscode_php_strom.Text.{Bytes}
use vscode_php_strom.Documents.{apply_edit}

pub record Document : Type 0 where
  pub uri : Bytes
  pub version : ℕ
  pub text : Bytes

pub record DocumentStore : Type 0 where
  pub docs : Dict Document

unfoldable pub new_document_store : DocumentStore
new_document_store = record { docs = [] }

unfoldable pub open_document : DocumentStore → TextDocumentItem → DocumentStore × Document
open_document s item =
    let doc : Document = record { uri = item.uri; version = item.version; text = item.text } in
    (record s { docs = Dict.insert item.uri doc s.docs }, doc)

unfoldable pub apply_change : Bytes → TextDocumentContentChangeEvent → Bytes
apply_change text c = elim c.range [ none ↦ c.text | some r ↦ apply_edit text r c.text ]

unfoldable pub apply_changes : Bytes → List TextDocumentContentChangeEvent → Bytes
unfolding apply_change
apply_changes text [] = text
apply_changes text (c ∷ cs) = apply_changes (apply_change text c) cs

-- The document that Change starts from: the open one, or a new empty one.
abbrev pub or_new : Bytes → Option Document → Document
or_new uri none = record { uri = uri; version = 0; text = [] }
or_new uri (some doc) = doc

unfoldable pub change_document :
    DocumentStore → Bytes → ℕ → List TextDocumentContentChangeEvent → DocumentStore × Document
change_document s uri version changes =
    let doc = or_new uri (Dict.lookup uri s.docs) in
    let changed = record doc { version = version; text = apply_changes doc.text changes } in
    (record s { docs = Dict.insert uri changed s.docs }, changed)

-- `Get`, and `Snapshot` with the document copied.
unfoldable pub get_document : DocumentStore → Bytes → Option Document
get_document s uri = Dict.lookup uri s.docs

unfoldable pub set_text : DocumentStore → Bytes → Bytes → DocumentStore × Option Document
set_text s uri text = elim (Dict.lookup uri s.docs) [
  | none ↦ (s, none)
  | some doc ↦
      let updated = record doc { text = text } in
      (record s { docs = Dict.insert uri updated s.docs }, some updated)
]

unfoldable pub close_document : DocumentStore → Bytes → DocumentStore
close_document s uri = record s { docs = Dict.delete uri s.docs }
