-- ===== src/Exclusions/Agreement.antt =====
-- server/providers/diagnostics_exclusions.go and server/indexer/indexer.go: the two matchers of patterns
-- and the two loops over the rules of a .gitignore.
use vscode_php_strom.Base.{
  ◌≡◌, refl, ◌∙◌, Bool, true, false, not, Option, List, [], ◌∷◌, arith, if◌then◌else◌, inl, inr,
  Bool-cases,
}
use vscode_php_strom.Text.{Bytes, beq}
use vscode_php_strom.Ignore.{double_star, any_suffix, is_empty, match_segment_sequence}
use vscode_php_strom.Exclusions.{GitignoreRule, match_segment_slice, matches, ignored_from_last}
use vscode_php_strom.Exclusions.Filter.{from_last}

module _ (path_match : Bytes → Bytes → Option Bool) where
  -- The matcher by skipped segments finds what the search over suffixes finds.
  slice-any_suffix :
      (s : Bytes) (pattern candidate : List Bytes)
      → beq s double_star ≡ true
      → match_segment_slice path_match (s ∷ pattern) candidate
        ≡ any_suffix (match_segment_slice path_match pattern) candidate
  unfolding match_segment_slice any_suffix
  slice-any_suffix s pattern [] e = rw e refl
  slice-any_suffix s pattern (c ∷ candidate) e =
      ground (arith, e, slice-any_suffix s pattern candidate e)

  any_suffix_ext :
      (f g : List Bytes → Bool) (candidate : List Bytes)
      → ((rest : List Bytes) → f rest ≡ g rest)
      → any_suffix f candidate ≡ any_suffix g candidate
  unfolding any_suffix
  any_suffix_ext f g [] h = h []
  any_suffix_ext f g (c ∷ candidate) h = rw (h (c ∷ candidate), any_suffix_ext f g candidate h) refl

  any_suffix-empty :
      (pattern candidate : List Bytes)
      → is_empty pattern ≡ true
      → any_suffix (match_segment_slice path_match pattern) candidate ≡ true
  unfolding any_suffix match_segment_slice
  any_suffix-empty [] [] h = refl
  any_suffix-empty [] (c ∷ candidate) h = ground (arith, any_suffix-empty [] candidate h)
  any_suffix-empty (s ∷ pattern) candidate h = cc

  one_segment :
      (s : Bytes) (pattern candidate : List Bytes)
      → beq s double_star ≡ false
      → ((rest : List Bytes)
          → match_segment_slice path_match pattern rest
            ≡ match_segment_sequence path_match pattern rest)
      → match_segment_slice path_match (s ∷ pattern) candidate
        ≡ match_segment_sequence path_match (s ∷ pattern) candidate
  unfolding match_segment_slice match_segment_sequence
  one_segment s pattern [] e h = rw e refl
  one_segment s pattern (c ∷ rest) e h = rw e (rw (h rest) refl)

  -- The matchers of the two packages agree on every pattern and path, whatever path.Match says of single
  -- segments.
  pub match_segment_slice-agrees :
      (pattern candidate : List Bytes)
      → match_segment_slice path_match pattern candidate
        ≡ match_segment_sequence path_match pattern candidate
  unfolding match_segment_slice match_segment_sequence
  match_segment_slice-agrees [] candidate = refl
  match_segment_slice-agrees (s ∷ pattern) candidate = elim (Bool-cases (beq s double_star)) [
    | inl e ↦
        let same =
          any_suffix_ext (match_segment_slice path_match pattern)
            (match_segment_sequence path_match pattern) candidate
            (match_segment_slice-agrees pattern) in
        let skip = slice-any_suffix s pattern candidate e in
        let all = any_suffix-empty pattern candidate in
        elim (Bool-cases (is_empty pattern)) [
          | inl f ↦ skip ∙ all f ∙ rw (e, match_segment_sequence) (rw f refl)
          | inr f ↦ skip ∙ same ∙ rw (e, match_segment_sequence) (rw f refl)
        ]
    | inr e ↦ one_segment s pattern candidate e (match_segment_slice-agrees pattern)
  ]

  -- The loop from the first rule to the last, in which each match overrides those before.
  abbrev pub last_wins : (Bytes → Bytes) → List GitignoreRule → Bytes → Bool → Bool
  last_wins to_slash [] rel ignored = ignored
  last_wins to_slash (r ∷ rules) rel ignored =
      last_wins to_slash rules rel
        (if matches path_match to_slash r rel then not r.negated else ignored)

  from_last-append :
      (to_slash : Bytes → Bytes) (rules before : List GitignoreRule) (rel : Bytes)
      → ignored_from_last path_match to_slash (from_last rules before) rel
        ≡ last_wins to_slash rules rel (ignored_from_last path_match to_slash before rel)
  unfolding from_last ignored_from_last
  from_last-append to_slash [] before rel = refl
  from_last-append to_slash (r ∷ rules) before rel =
      from_last-append to_slash rules (r ∷ before) rel

  -- Going through the rules of a file from the last to the first and stopping at a match gives what the
  -- loop in their order gives, in which the last match decides, as the indexer's does.
  pub ignored_from_last-last_wins :
      (to_slash : Bytes → Bytes) (rules : List GitignoreRule) (rel : Bytes)
      → ignored_from_last path_match to_slash (from_last rules []) rel
        ≡ last_wins to_slash rules rel false
  unfolding ignored_from_last
  ignored_from_last-last_wins to_slash rules rel = from_last-append to_slash rules [] rel
