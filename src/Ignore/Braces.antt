-- ===== src/Ignore/Braces.antt =====
-- server/indexer/indexer.go and server/providers/diagnostics_exclusions.go: expandBracePattern, which both
-- packages have.
use vscode_php_strom.Base.{
  ℕ, zero, suc, ◌+◌, ◌-◌, ◌≤◌, ◌<◌, ◌≡◌, refl, ap, sym, ◌∙◌, true, Option, none, some, List, [],
  ◌∷◌, ◌++◌, arith, take, drop, drop-drop, inl, inr, Option-cases,
}
use vscode_php_strom.Text.{Bytes, index_byte, slice}
use vscode_php_strom.Text.Split.{
  split_byte, count_byte, count_byte-append, parts_have, parts_have-split_byte, index_byte-split,
  index_byte-drop,
}
use vscode_php_strom.Index.Update.{or_empty}

-- The variants of every part, one after the other; `none` where one of them ran out of fuel.
unfoldable pub append_variants : (Bytes → Option (List Bytes)) → List Bytes → Option (List Bytes)
append_variants expand [] = some []
append_variants expand (part ∷ parts) =
    let rest = append_variants expand parts in
    elim (expand part) [
      | none ↦ none
      | some variants ↦ elim rest [ none ↦ none | some later ↦ some (variants ++ later) ]
    ]

unfoldable pub expand_loop : ℕ → Bytes → Option (List Bytes)
unfolding append_variants
expand_loop zero pattern = none
expand_loop (suc fuel) pattern = elim (index_byte b'{' pattern) [
  | none ↦ some (pattern ∷ [])
  | some start ↦ elim (index_byte b'}' (drop start pattern)) [
    | none ↦ some (pattern ∷ [])
    | some relative ↦
        let end = relative + start in
        append_variants
          (λ part. expand_loop fuel (take start pattern ++ part ++ drop (end + 1) pattern))
          (split_byte b',' (slice pattern (start + 1) end))
  ]
]

-- Each call drops a brace, so that the braces of the pattern bound the depth of the calls.
unfoldable pub expand_brace_pattern : Bytes → List Bytes
unfolding expand_loop
expand_brace_pattern pattern = or_empty (expand_loop (suc (count_byte b'{' pattern)) pattern)

append_variants-some :
    (expand : Bytes → Option (List Bytes)) (n : ℕ) (parts : List Bytes)
    → parts_have b'{' n parts ≡ true
    → ((part : Bytes) → count_byte b'{' part ≤ n → expand part ≡ some (or_empty (expand part)))
    → append_variants expand parts ≡ some (or_empty (append_variants expand parts))
unfolding append_variants
append_variants-some expand n [] h f = refl
append_variants-some expand n (part ∷ parts) h f =
    let later = append_variants-some expand n parts (ground (arith, h)) f in
    let first = f part (ground (arith, h)) in ground (arith, later, first)

-- The parts of a pattern around its first braces.
record Parts (pattern : Bytes) (start relative : ℕ) : Type 0 where
  inner : Bytes
  behind : Bytes
  inside : slice pattern (start + 1) (relative + start) ≡ inner
  rest : drop (relative + start + 1) pattern ≡ behind
  before_brace : count_byte b'{' (take start pattern) ≡ 0
  counts : count_byte b'{' inner + count_byte b'{' behind + 1 ≡ count_byte b'{' pattern

closing :
    (t : Bytes) (relative : ℕ)
    → index_byte b'}' (b'{' ∷ t) ≡ some relative
    → index_byte b'}' t ≡ some (relative - 1) × (suc (relative - 1) ≡ relative)
unfolding index_byte
closing t zero h = ground (arith, h)
closing t (suc r) h = ground (arith, h)

count-around :
    (t inner behind : Bytes)
    → t ≡ inner ++ b'}' ∷ behind
    → count_byte b'{' t ≡ count_byte b'{' inner + count_byte b'{' behind
unfolding count_byte
count-around t inner behind e =
    ap (count_byte b'{') e ∙ count_byte-append b'{' inner (b'}' ∷ behind)

count-opening :
    (pattern before t : Bytes)
    → pattern ≡ before ++ b'{' ∷ t
    → count_byte b'{' pattern ≡ count_byte b'{' before + suc (count_byte b'{' t)
unfolding count_byte
count-opening pattern before t e = ap (count_byte b'{') e ∙ count_byte-append b'{' before (b'{' ∷ t)

surroundings :
    (pattern : Bytes) (start relative : ℕ)
    → index_byte b'{' pattern ≡ some start
    → index_byte b'}' (drop start pattern) ≡ some relative
    → Parts pattern start relative
surroundings pattern start relative h k =
    let t = drop (suc start) pattern in
    let (opened, before) = index_byte-split b'{' pattern start h in
    let (found, after) =
      closing t relative (ap (index_byte b'}') (sym (index_byte-drop b'{' pattern start h)) ∙ k) in
    let (closed, _) = index_byte-split b'}' t (relative - 1) found in
    let one : start + 1 ≡ suc start = omega arith in
    let size : relative + start - (start + 1) ≡ relative - 1 = omega (arith, after) in
    let place : relative + start + 1 ≡ suc start + suc (relative - 1) = omega (arith, after) in
    record {
      inner = take (relative - 1) t;
      behind = drop (suc (relative - 1)) t;
      inside =
          ap (λ n. take n (drop (start + 1) pattern)) size
          ∙ ap (λ n. take (relative - 1) (drop n pattern)) one;
      rest =
          ap (λ n. drop n pattern) place ∙ sym (drop-drop (suc (relative - 1)) (suc start) pattern);
      before_brace = before;
      counts = omega (
        arith,
        before,
        count-opening pattern (take start pattern) t opened,
        count-around t _ _ closed,
      );
    }

expand_loop-some :
    (fuel : ℕ) (pattern : Bytes)
    → count_byte b'{' pattern < fuel
    → expand_loop fuel pattern ≡ some (or_empty (expand_loop fuel pattern))
unfolding expand_loop
expand_loop-some zero pattern h = absurd (omega arith)
expand_loop-some (suc fuel) pattern h = elim (Option-cases (index_byte b'{' pattern)) [
  | inl e ↦ rw (e, expand_loop) refl
  | inr (start, e) ↦ elim (Option-cases (index_byte b'}' (drop start pattern))) [
    | inl f ↦ rw (e, expand_loop) (rw (f, expand_loop) refl)
    | inr (relative, f) ↦
        let p = surroundings pattern start relative e f in
        rw (e, expand_loop)
          (rw (f, expand_loop)
            (rw (p.inside, p.rest)
              (append_variants-some
                (λ part. expand_loop fuel (take start pattern ++ part ++ p.behind))
                (count_byte b'{' p.inner) (split_byte b',' p.inner)
                (parts_have-split_byte b'{' b',' p.inner)
                (λ part few. expand_loop-some fuel (take start pattern ++ part ++ p.behind) (
                  omega (
                    arith,
                    few,
                    h,
                    p.counts,
                    p.before_brace,
                    count_byte-append b'{' (take start pattern ++ part) p.behind,
                    count_byte-append b'{' (take start pattern) part,
                  ))))))
  ]
]

-- The expansion of braces ends for every pattern: the calls go no deeper than the pattern has opening
-- braces, and the variants are those of a depth of as many calls and one more.
pub expand_brace_pattern-ends :
    (pattern : Bytes)
    → expand_loop (suc (count_byte b'{' pattern)) pattern ≡ some (expand_brace_pattern pattern)
unfolding expand_brace_pattern
expand_brace_pattern-ends pattern =
    expand_loop-some (suc (count_byte b'{' pattern)) pattern (omega arith)
