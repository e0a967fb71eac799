-- ===== src/Handler/Published.antt =====
-- server/phpstrom/handler.go: what publishedDiagnostics says of the notifications.
use vscode_php_strom.Base.{
  ◌≡◌, refl, ap, Bool, true, false, not, ◌&&◌, Option, none, some, List, [], ◌∷◌, arith,
  if◌then◌else◌, inl, inr, Bool-cases,
}
use vscode_php_strom.Dict.{Dict, lookup, lookup-insert, lookup-delete}
use vscode_php_strom.Lsp.{Diagnostic, PublishDiagnosticsParams}
use vscode_php_strom.Text.{Bytes, beq, beq_iff}
use vscode_php_strom.Handler.Publication.{
  Present, is_some, Publication, no_publication, notify_diagnostics, send_empty,
  clear_published_diagnostics, select, clear_diagnostics_outside_workspace,
  has_published_diagnostics,
}

-- The last diagnostics that were sent for a URI.
abbrev pub last_sent : Bytes → List PublishDiagnosticsParams → Option (List Diagnostic)
last_sent uri [] = none
last_sent uri (p ∷ sent) = if beq p.uri uri then some p.diagnostics else last_sent uri sent

-- There are some that the client shows.
abbrev pub shown : Option (List Diagnostic) → Bool
shown none = false
shown (some []) = false
shown (some (d ∷ ds)) = true

-- The operations of the handler on what it published.
pub data Operation : Type 0 where
  notify : Bytes → List Diagnostic → Operation
  clear : Operation
  clear_outside : Dict Present → Operation

unfoldable pub after : Publication → Operation → Publication
unfolding notify_diagnostics clear_published_diagnostics clear_diagnostics_outside_workspace
after s (notify uri diagnostics) = notify_diagnostics s uri diagnostics
after s clear = clear_published_diagnostics s
after s (clear_outside seen) = clear_diagnostics_outside_workspace seen s

abbrev pub after_all : Publication → List Operation → Publication
unfolding after
after_all s [] = s
after_all s (o ∷ operations) = after_all (after s o) operations

last_sent-send_empty :
    (uris : Dict Present) (sent : List PublishDiagnosticsParams) (uri : Bytes)
    → shown (last_sent uri (send_empty uris sent))
      ≡ (if is_some (lookup uri uris) then false else shown (last_sent uri sent))
unfolding send_empty lookup
last_sent-send_empty [] sent uri = refl
last_sent-send_empty ((j, p) ∷ uris) sent uri =
    ground (arith, last_sent-send_empty uris (record { uri = j; diagnostics = [] } ∷ sent) uri)

lookup-select :
    (among : Bool) (seen uris : Dict Present) (uri : Bytes)
    → is_some (lookup uri (select among seen uris)) ≡ (
        is_some (lookup uri uris)
        && (if among then is_some (lookup uri seen) else not (is_some (lookup uri seen))))
unfolding select lookup
lookup-select among seen [] uri = refl
lookup-select among seen ((j, p) ∷ uris) uri = elim (Bool-cases (beq j uri)) [
  | inl e ↦
      let same : lookup j seen ≡ lookup uri seen = ap (λ k. lookup k seen) ((beq_iff j uri).0 e) in
      ground (arith, e, same, lookup-select among seen uris uri)
  | inr e ↦ ground (arith, e, lookup-select among seen uris uri)
]

-- The set says of every URI whether the client shows diagnostics.
abbrev pub IsAccurate : Publication → Type 0
IsAccurate s = (uri : Bytes) → has_published_diagnostics s uri ≡ shown (last_sent uri s.sent)

after-IsAccurate : (s : Publication) (o : Operation) → IsAccurate s → IsAccurate (after s o)
unfolding after has_published_diagnostics
after-IsAccurate s (notify j []) h uri = ground (arith, lookup-delete j uri s.published, h uri)
after-IsAccurate s (notify j (d ∷ ds)) h uri =
    ground (arith, lookup-insert j uri Present.present s.published, h uri)
after-IsAccurate s clear h uri = ground (arith, last_sent-send_empty s.published s.sent uri, h uri)
after-IsAccurate s (clear_outside seen) h uri = ground (
  arith,
  last_sent-send_empty (select false seen s.published) s.sent uri,
  lookup-select false seen s.published uri,
  lookup-select true seen s.published uri,
  h uri,
)

after_all-IsAccurate :
    (s : Publication) (operations : List Operation)
    → IsAccurate s
    → IsAccurate (after_all s operations)
unfolding after
after_all-IsAccurate s [] h = h
after_all-IsAccurate s (o ∷ operations) h =
    after_all-IsAccurate (after s o) operations (after-IsAccurate s o h)

published-IsAccurate :
    (operations : List Operation) → IsAccurate (after_all no_publication operations)
unfolding has_published_diagnostics lookup after
published-IsAccurate operations = after_all-IsAccurate no_publication operations (λ uri. refl)

-- However notifications and clearings come one after another: the set of published diagnostics says of
-- every URI whether the last notification for it had diagnostics; clearing what is outside the workspace
-- leaves diagnostics shown for the URIs that were seen and had some, and clearing everything for none.
pub published_lem :
    (operations : List Operation) (seen : Dict Present) (uri : Bytes)
    → (has_published_diagnostics (after_all no_publication operations) uri
        ≡ shown (last_sent uri (after_all no_publication operations).sent))
      × (shown
            (last_sent uri (after (after_all no_publication operations) (clear_outside seen)).sent)
          ≡ (shown (last_sent uri (after_all no_publication operations).sent)
              && is_some (lookup uri seen)))
      × (shown (last_sent uri (after (after_all no_publication operations) clear).sent) ≡ false)
unfolding after has_published_diagnostics
published_lem operations seen uri =
    let s = after_all no_publication operations in
    let accurate = published-IsAccurate operations uri in
    let stale = last_sent-send_empty (select false seen s.published) s.sent uri in
    let selected = lookup-select false seen s.published uri in
    let all = last_sent-send_empty s.published s.sent uri in
    (accurate, ground (arith, accurate, stale, selected), ground (arith, accurate, all))
