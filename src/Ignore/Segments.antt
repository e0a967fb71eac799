-- ===== src/Ignore/Segments.antt =====
-- server/indexer/indexer.go: matchSegmentSequence against what a pattern means.
use vscode_php_strom.Base.{
  ◌≡◌, refl, ap, sym, ◌∙◌, Bool, true, false, ◌&&◌, ◌||◌, Option, List, [], ◌∷◌, ◌++◌, arith, inl,
  inr, Bool-cases, ◌↔◌, append-nil,
}
use vscode_php_strom.Text.{Bytes, beq}
use vscode_php_strom.Ignore.{double_star, any_suffix, is_empty, glob, match_segment_sequence}

-- What a pattern matches: `**` any number of segments, and any other segment of a pattern one segment,
-- as path.Match has it.
pub data Matches (path_match : Bytes → Bytes → Option Bool) : List Bytes → List Bytes → Type 0 where
  both_end : Matches path_match [] []
  many :
      {segment : Bytes} {pattern candidate : List Bytes} (skipped rest : List Bytes)
      → beq segment double_star ≡ true
      → candidate ≡ skipped ++ rest
      → Matches path_match pattern rest
      → Matches path_match (segment ∷ pattern) candidate
  one :
      {segment c : Bytes} {pattern rest : List Bytes}
      → beq segment double_star ≡ false
      → glob path_match segment c ≡ true
      → Matches path_match pattern rest
      → Matches path_match (segment ∷ pattern) (c ∷ rest)

-- The search over suffixes finds every one.
any_suffix-some :
    (f : List Bytes → Bool) (cs : List Bytes)
    → any_suffix f cs ≡ true
    → (skipped : List Bytes) × (rest : List Bytes) × (cs ≡ skipped ++ rest) × (f rest ≡ true)
unfolding any_suffix
any_suffix-some f [] h = ([], [], refl, h)
any_suffix-some f (c ∷ cs) h = elim (Bool-cases (f (c ∷ cs))) [
  | inl e ↦ ([], c ∷ cs, refl, e)
  | inr e ↦
      let (skipped, rest, p, q) = any_suffix-some f cs (ground (arith, e, h)) in
      (c ∷ skipped, rest, ap (λ xs. c ∷ xs) p, q)
]

some-any_suffix :
    (f : List Bytes → Bool) (skipped rest : List Bytes)
    → f rest ≡ true
    → any_suffix f (skipped ++ rest) ≡ true
unfolding any_suffix
some-any_suffix f [] [] h = h
some-any_suffix f [] (r ∷ rest) h = rw h refl
some-any_suffix f (s ∷ skipped) rest h = ground (arith, some-any_suffix f skipped rest h)

module _ (path_match : Bytes → Bytes → Option Bool) where
  match-double_star :
      (segment : Bytes) (pattern candidate : List Bytes)
      → beq segment double_star ≡ true
      → match_segment_sequence path_match (segment ∷ pattern) candidate
        ≡ (is_empty pattern || any_suffix (match_segment_sequence path_match pattern) candidate)
  unfolding match_segment_sequence
  match-double_star segment pattern candidate e = rw e refl

  match-one :
      (segment c : Bytes) (pattern rest : List Bytes)
      → beq segment double_star ≡ false
      → match_segment_sequence path_match (segment ∷ pattern) (c ∷ rest)
        ≡ (glob path_match segment c && match_segment_sequence path_match pattern rest)
  unfolding match_segment_sequence
  match-one segment c pattern rest e = rw e refl

  match-end :
      (segment : Bytes) (pattern : List Bytes)
      → beq segment double_star ≡ false
      → match_segment_sequence path_match (segment ∷ pattern) [] ≡ false
  unfolding match_segment_sequence
  match-end segment pattern e = rw e refl

  match-many :
      (s : Bytes) (pattern candidate : List Bytes)
      → beq s double_star ≡ true
      → ((rest : List Bytes)
          → match_segment_sequence path_match pattern rest ≡ true
          → Matches path_match pattern rest)
      → match_segment_sequence path_match (s ∷ pattern) candidate ≡ true
      → Matches path_match (s ∷ pattern) candidate
  match-many s [] candidate e found h = many candidate [] e (sym (append-nil candidate)) both_end
  match-many s (p ∷ pattern) candidate e found h =
      let (skipped, rest, splits, q) =
        any_suffix-some (match_segment_sequence path_match (p ∷ pattern)) candidate
          (sym (match-double_star s (p ∷ pattern) candidate e) ∙ h) in
      many skipped rest e splits (found rest q)

  match-Matches :
      (pattern candidate : List Bytes)
      → match_segment_sequence path_match pattern candidate ≡ true
      → Matches path_match pattern candidate
  unfolding match_segment_sequence
  match-Matches [] [] h = both_end
  match-Matches [] (c ∷ cs) h = cc
  match-Matches (s ∷ pattern) [] h = elim (Bool-cases (beq s double_star)) [
    | inl e ↦ match-many s pattern [] e (match-Matches pattern) h
    | inr e ↦ cc (match-end s pattern e)
  ]
  match-Matches (s ∷ pattern) (c ∷ rest) h = elim (Bool-cases (beq s double_star)) [
    | inl e ↦ match-many s pattern (c ∷ rest) e (match-Matches pattern) h
    | inr e ↦
        let step = match-one s c pattern rest e in
        one e (ground (arith, h, step)) (match-Matches pattern rest (ground (arith, h, step)))
  ]

  Matches-match :
      (pattern candidate : List Bytes)
      → Matches path_match pattern candidate
      → match_segment_sequence path_match pattern candidate ≡ true
  unfolding match_segment_sequence
  Matches-match [] [] both_end = refl
  Matches-match [] (c ∷ rest) m = elim m [ ]
  Matches-match (s ∷ pattern) candidate (many skipped rest e p m) =
      let f = match_segment_sequence path_match pattern in
      let found : any_suffix f candidate ≡ true =
        ap (any_suffix f) p ∙ some-any_suffix f skipped rest (Matches-match pattern rest m) in
      match-double_star s pattern candidate e ∙ ground (arith, found)
  Matches-match (s ∷ pattern) (c ∷ rest) (one e g m) =
      match-one s c pattern rest e ∙ ground (arith, g, Matches-match pattern rest m)

  -- The code says that a pattern matches a path if and only if it does so by its meaning, whatever
  -- path.Match says of single segments.
  pub match_segment_sequence_iff :
      (pattern candidate : List Bytes)
      → (match_segment_sequence path_match pattern candidate ≡ true)
        ↔ Matches path_match pattern candidate
  match_segment_sequence_iff pattern candidate =
      (match-Matches pattern candidate, Matches-match pattern candidate)
