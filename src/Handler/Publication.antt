-- ===== src/Handler/Publication.antt =====
-- server/phpstrom/handler.go: the diagnostics that the client was sent, and the documents that it shows
-- some for. An operation is one step; a notification and the note of it are not under one lock, and how
-- two of them interleave is not modelled. The analyser and the clock are parameters.
use vscode_php_strom.Base.{
  ℕ, Bool, true, false, ◌&&◌, Option, none, some, List, [], ◌∷◌, ◌==◌, ◌≡◌, ◌↔◌, inl, inr, refl, ap,
  sym, ◌∙◌, arith, Bool-cases, ==_iff, if◌then◌else◌, length,
}
use vscode_php_strom.Dict.{Dict, lookup, insert, delete}
use vscode_php_strom.Documents.Store.{Document, DocumentStore, get_document}
use vscode_php_strom.Handler.Trace.{EditorTraceEvent, EditorTraceRecorder, record_event}
use vscode_php_strom.Lsp.{Diagnostic, PublishDiagnosticsParams}
use vscode_php_strom.Text.{Bytes, codes, beq, beq_iff}

-- `struct{}`, the value of a map that is a set.
pub data Present : Type 0 where
  present : Present

abbrev pub is_some {ℓ} : {A : Type ℓ} → Option A → Bool
is_some none = false
is_some (some _) = true

-- The notifications, the last one first, and `publishedDiagnostics`.
pub record Publication : Type 0 where
  pub sent : List PublishDiagnosticsParams
  pub published : Dict Present

abbrev pub no_publication : Publication
no_publication = record { sent = []; published = [] }

unfoldable pub notify_diagnostics : Publication → Bytes → List Diagnostic → Publication
unfolding insert delete
notify_diagnostics s uri diagnostics = record {
  sent = record { uri = uri; diagnostics = diagnostics } ∷ s.sent;
  published = elim diagnostics [
    | [] ↦ delete uri s.published
    | d ∷ ds ↦ insert uri present s.published
  ];
}

-- The loop that sends no diagnostics for each URI.
unfoldable pub send_empty :
    Dict Present → List PublishDiagnosticsParams → List PublishDiagnosticsParams
send_empty [] sent = sent
send_empty ((uri, _) ∷ uris) sent = send_empty uris (record { uri = uri; diagnostics = [] } ∷ sent)

unfoldable pub clear_published_diagnostics : Publication → Publication
unfolding send_empty
clear_published_diagnostics s = record { sent = send_empty s.published s.sent; published = [] }

-- The URIs of a map that are among those seen, or are not.
unfoldable pub select : Bool → Dict Present → Dict Present → Dict Present
unfolding lookup
select among seen [] = []
select among seen ((uri, p) ∷ uris) =
    let rest = select among seen uris in
    if is_some (lookup uri seen)
    then (if among then (uri, p) ∷ rest else rest)
    else if among
    then rest
    else (uri, p) ∷ rest

unfoldable pub clear_diagnostics_outside_workspace : Dict Present → Publication → Publication
unfolding send_empty select
clear_diagnostics_outside_workspace seen s = record {
  sent = send_empty (select false seen s.published) s.sent;
  published = select true seen s.published;
}

unfoldable pub published_diagnostics_count : Publication → ℕ
published_diagnostics_count s = length s.published

unfoldable pub has_published_diagnostics : Publication → Bytes → Bool
unfolding lookup
has_published_diagnostics s uri = is_some (lookup uri s.published)

abbrev pub trace_event : Bytes → Bytes → Bytes → ℕ → ℕ → EditorTraceEvent
trace_event operation outcome uri version micros = record {
  sequence = 0;
  operation = operation;
  outcome = outcome;
  uri = uri;
  version = version;
  duration_micros = micros;
  queue_micros = 0;
}

-- The open document has the version and the text that were analysed.
abbrev pub is_current : Option Document → Bytes → ℕ → Bool
unfolding beq
is_current none text version = false
is_current (some doc) text version = doc.version == version && beq doc.text text

-- The document is open with the version and the text.
abbrev pub IsOpen : Option Document → Bytes → ℕ → Type 0
IsOpen found text version =
    (doc : Document) × (found ≡ some doc) × (doc.version ≡ version) × (doc.text ≡ text)

is_current_iff :
    (found : Option Document) (text : Bytes) (version : ℕ)
    → (is_current found text version ≡ true) ↔ IsOpen found text version
unfolding is_current
is_current_iff none text version =
    (λ h. absurd (ground (arith, h)), λ (doc, e, _, _). absurd (cc e))
is_current_iff (some doc) text version = (
  λ h. (
    doc,
    refl,
    (==_iff doc.version version).0 (ground (arith, h)),
    (beq_iff doc.text text).0 (ground (arith, h)),
  ),
  λ (other, e, v, t).
      let same : other ≡ doc = cc e in
      let version_same = (==_iff doc.version version).1 (ap (λ d. d.version) (sym same) ∙ v) in
      let text_same = (beq_iff doc.text text).1 (ap (λ d. d.text) (sym same) ∙ t) in
      ground (arith, version_same, text_same),
)

-- What publishDiagnostics leaves behind, and its result.
pub record Outcome : Type 0 where
  pub publication : Publication
  pub trace : EditorTraceRecorder
  pub result : Bool

module _ (analyse : Bytes → Bytes → List Diagnostic) (micros : ℕ) where
  -- The store is the one behind the analysis, in which edits may have come in.
  unfoldable pub publish_diagnostics :
      Publication → EditorTraceRecorder → DocumentStore → Bytes → Bytes → ℕ → Outcome
  unfolding notify_diagnostics record_event get_document
  publish_diagnostics s trace documents uri text version =
      if is_current (get_document documents uri) text version
      then record {
        publication = notify_diagnostics s uri (analyse uri text);
        trace =
            record_event trace (
              trace_event (codes "diagnostics_publication") (codes "published") uri version micros);
        result = true;
      }
      else record {
        publication = s;
        trace = record_event trace (
            trace_event (codes "diagnostics_publication") (codes "stale_dropped") uri version
              micros);
        result = false;
      }

  -- The result says whether the document is open with the version and the text that were analysed; the
  -- client is then sent what the analysis of this text gave, and else nothing.
  pub publish_diagnostics_iff :
      (s : Publication) (trace : EditorTraceRecorder) (documents : DocumentStore) (uri text : Bytes)
      (version : ℕ)
      → (((publish_diagnostics s trace documents uri text version).result ≡ true)
          ↔ IsOpen (get_document documents uri) text version)
        × ((publish_diagnostics s trace documents uri text version).publication.sent ≡ (
            if (publish_diagnostics s trace documents uri text version).result
            then record { uri = uri; diagnostics = analyse uri text } ∷ s.sent
            else s.sent))
  unfolding publish_diagnostics notify_diagnostics
  publish_diagnostics_iff s trace documents uri text version =
      let (opens, current) = is_current_iff (get_document documents uri) text version in
      elim (Bool-cases (is_current (get_document documents uri) text version)) [
        | inl f ↦ rw f ((λ h. opens f, λ h. refl), refl)
        | inr f ↦ rw f ((λ h. opens (ground (arith, f, h)), λ h. absurd (cc (f, current h))), refl)
      ]
