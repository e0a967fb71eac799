-- ===== src/Text/Split.antt =====
-- The functions of the package strings that cut a string at a byte, and their laws.
use vscode_php_strom.Base.{
  ℕ, zero, suc, ◌+◌, ◌≤◌, ◌≡◌, refl, ap, Bool, true, false, ◌&&◌, some, List, [], ◌∷◌, ◌++◌, ◌-◌,
  length, arith, ◌==◌, leb, if◌then◌else◌, take, drop, inl, inr, ==_iff, Bool-cases,
}
use vscode_php_strom.Text.{Bytes, index_byte, has_prefix}

-- A byte put before the first part.
abbrev pub onto_first : ℕ → List Bytes → List Bytes
onto_first c [] = (c ∷ []) ∷ []
onto_first c (part ∷ parts) = (c ∷ part) ∷ parts

-- `strings.Split`, after which so many bytes of a separator are still to be passed.
unfoldable pub split_text : Bytes → ℕ → Bytes → List Bytes
unfolding has_prefix
split_text sep k [] = [] ∷ []
split_text sep (suc k) (c ∷ cs) = split_text sep k cs
split_text sep zero (c ∷ cs) = elim (has_prefix sep (c ∷ cs)) [
  | true ↦ [] ∷ split_text sep (length sep - 1) cs
  | false ↦ onto_first c (split_text sep zero cs)
]

-- `strings.ReplaceAll`, in the same way.
unfoldable pub replace_all : Bytes → Bytes → ℕ → Bytes → Bytes
unfolding has_prefix
replace_all old new k [] = []
replace_all old new (suc k) (c ∷ cs) = replace_all old new k cs
replace_all old new zero (c ∷ cs) = elim (has_prefix old (c ∷ cs)) [
  | true ↦ new ++ replace_all old new (length old - 1) cs
  | false ↦ c ∷ replace_all old new zero cs
]

-- `strings.Split(s, sep)` for a separator of one byte.
unfoldable pub split_byte : ℕ → Bytes → List Bytes
split_byte b [] = [] ∷ []
split_byte b (c ∷ cs) =
    let rest = split_byte b cs in if c == b then [] ∷ rest else onto_first c rest

-- `strings.Count` of a byte.
unfoldable pub count_byte : ℕ → Bytes → ℕ
count_byte b [] = 0
count_byte b (c ∷ cs) = let rest = count_byte b cs in if c == b then suc rest else rest

pub count_byte-append :
    (b : ℕ) (s t : Bytes) → count_byte b (s ++ t) ≡ count_byte b s + count_byte b t
unfolding count_byte
count_byte-append b [] t = omega arith
count_byte-append b (c ∷ s) t = ground (arith, count_byte-append b s t)

-- Each part has at most `n` of the byte.
abbrev pub parts_have : ℕ → ℕ → List Bytes → Bool
parts_have b n [] = true
parts_have b n (part ∷ parts) = leb (count_byte b part) n && parts_have b n parts

parts_have_mono :
    (b m n : ℕ) (parts : List Bytes)
    → m ≤ n
    → parts_have b m parts ≡ true
    → parts_have b n parts ≡ true
parts_have_mono b m n [] h k = refl
parts_have_mono b m n (part ∷ parts) h k = ground (arith, parts_have_mono b m n parts)

parts_have-onto_first :
    (b c n : ℕ) (parts : List Bytes)
    → parts_have b n parts ≡ true
    → parts_have b (suc n) (onto_first c parts) ≡ true
unfolding count_byte
parts_have-onto_first b c n [] k = ground arith
parts_have-onto_first b c n (part ∷ parts) k = ground (arith, k, parts_have_mono b n (suc n) parts)

parts_have-onto_first_other :
    (b c n : ℕ) (parts : List Bytes)
    → (c == b) ≡ false
    → parts_have b n parts ≡ true
    → parts_have b n (onto_first c parts) ≡ true
unfolding count_byte
parts_have-onto_first_other b c n [] e k = ground (arith, e)
parts_have-onto_first_other b c n (part ∷ parts) e k = ground (arith, e, k)

-- No part has more of a byte than the whole.
pub parts_have-split_byte :
    (b sep : ℕ) (s : Bytes) → parts_have b (count_byte b s) (split_byte sep s) ≡ true
unfolding count_byte split_byte
parts_have-split_byte b sep [] = refl
parts_have-split_byte b sep (c ∷ cs) =
    let rest = parts_have-split_byte b sep cs in
    let up =
      parts_have_mono b (count_byte b cs) (suc (count_byte b cs)) (split_byte sep cs) (omega arith)
        rest in
    let first = parts_have-onto_first b c (count_byte b cs) (split_byte sep cs) rest in
    let other = parts_have-onto_first_other b c (count_byte b cs) (split_byte sep cs) in
    ground (arith, rest, up, first, other)

-- What `strings.IndexByte` finds is at its place, and not before.
pub index_byte-split :
    (b : ℕ) (s : Bytes) (i : ℕ)
    → index_byte b s ≡ some i
    → (s ≡ take i s ++ b ∷ drop (suc i) s) × (count_byte b (take i s) ≡ 0)
unfolding index_byte count_byte
index_byte-split b [] i h = cc
index_byte-split b (c ∷ cs) zero h = elim (Bool-cases (c == b)) [
  | inl e ↦ (ap (λ x. x ∷ cs) ((==_iff c b).0 e), refl)
  | inr e ↦ absurd (ground (arith, e, h))
]
index_byte-split b (c ∷ cs) (suc i) h = elim (Bool-cases (c == b)) [
  | inl e ↦ absurd (ground (arith, e, h))
  | inr e ↦
      let (splits, none_before) = index_byte-split b cs i (ground (arith, e, h)) in
      (ap (λ xs. c ∷ xs) splits, rw e none_before)
]

pub index_byte-drop :
    (b : ℕ) (s : Bytes) (i : ℕ) → index_byte b s ≡ some i → drop i s ≡ b ∷ drop (suc i) s
unfolding index_byte
index_byte-drop b [] i h = cc
index_byte-drop b (c ∷ cs) zero h = elim (Bool-cases (c == b)) [
  | inl e ↦ ap (λ x. x ∷ cs) ((==_iff c b).0 e)
  | inr e ↦ absurd (ground (arith, e, h))
]
index_byte-drop b (c ∷ cs) (suc i) h = elim (Bool-cases (c == b)) [
  | inl e ↦ absurd (ground (arith, e, h))
  | inr e ↦ index_byte-drop b cs i (ground (arith, e, h))
]

-- `strings.TrimLeft` and `strings.Trim` of one byte.
unfoldable pub trim_left_byte : ℕ → Bytes → Bytes
trim_left_byte b [] = []
trim_left_byte b (c ∷ cs) = let rest = trim_left_byte b cs in if c == b then rest else c ∷ cs

unfoldable pub trim_right_byte : ℕ → Bytes → Bytes
trim_right_byte b [] = []
trim_right_byte b (c ∷ cs) = elim (trim_right_byte b cs) [
  | [] ↦ if c == b then [] else c ∷ []
  | d ∷ ds ↦ c ∷ d ∷ ds
]

unfoldable pub trim_byte : ℕ → Bytes → Bytes
unfolding trim_left_byte trim_right_byte
trim_byte b s = trim_right_byte b (trim_left_byte b s)
