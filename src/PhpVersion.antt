-- ===== src/PhpVersion.antt =====
-- server/phpstrom/php_version.go: the version of PHP that a workspace is for. strings.ToLower,
-- strings.TrimSpace, strings.Fields, url.PathUnescape, the file system and encoding/json are parameters,
-- the last as the versions that composer.json gives for the key "php".
pub mod Constraint
pub mod Detect
pub mod Supported
mod Tests
use vscode_php_strom.Base.{
  ℕ, zero, suc, ◌+◌, Bool, true, false, not, ◌&&◌, ◌||◌, Option, none, some, List, [], ◌∷◌, ◌++◌,
  ◌==◌, leb, ltb, if◌then◌else◌, length, drop,
}
use vscode_php_strom.Server.Number.{ℤ, pos, negsuc, int_max, atoi, decimal}
use vscode_php_strom.Text.{Bytes, codes, beq, has_prefix, trim_prefix, has_suffix, trim_suffix}
use vscode_php_strom.Text.Split.{split_byte, onto_first}
use vscode_php_strom.Exclusions.{contains_code}

abbrev pub supported_php_versions : List Bytes
supported_php_versions = codes "8.2" ∷ codes "8.3" ∷ codes "8.4" ∷ codes "8.5" ∷ []

abbrev pub fallback_php_version : Bytes
fallback_php_version = codes "8.3"

abbrev pub is_digit : ℕ → Bool
is_digit c = leb b'0' c && leb c b'9'

-- The digits that a text begins with.
unfoldable pub leading_digits : Bytes → Bytes
leading_digits [] = []
leading_digits (c ∷ cs) = let rest = leading_digits cs in if is_digit c then c ∷ rest else []

-- The minor version behind the major one: a point and digits, which are not empty.
unfoldable pub minor_behind : Bytes → Bytes
unfolding leading_digits
minor_behind [] = []
minor_behind (c ∷ cs) = if c == b'.' then leading_digits cs else []

-- `(\d+)\.(\d+)`: the first place where it matches.
unfoldable pub major_minor_version : Bytes → Bytes
unfolding leading_digits minor_behind
major_minor_version [] = []
major_minor_version (c ∷ cs) =
    let later = major_minor_version cs in
    let major = leading_digits (c ∷ cs) in
    let minor = minor_behind (drop (length major) (c ∷ cs)) in
    if length major == 0 || length minor == 0 then later else major ++ b'.' ∷ minor

-- The sign of a comparison.
pub data Comparison : Type 0 where
  less : Comparison
  equal : Comparison
  greater : Comparison

-- `strings.Compare`
unfoldable pub compare_text : Bytes → Bytes → Comparison
compare_text [] [] = equal
compare_text [] (d ∷ ds) = less
compare_text (c ∷ cs) [] = greater
compare_text (c ∷ cs) (d ∷ ds) =
    let rest = compare_text cs ds in if ltb c d then less else if ltb d c then greater else rest

-- The place of a version in a list.
unfoldable pub place : Bytes → List Bytes → Option ℕ
unfolding beq
place version [] = none
place version (v ∷ versions) =
    let rest = place version versions in
    if beq v version then some 0 else elim rest [ none ↦ none | some i ↦ some (suc i) ]

unfoldable pub compare_major_minor : Bytes → Bytes → Comparison
unfolding beq place compare_text
compare_major_minor a b = if beq a b then equal else elim (place a supported_php_versions) [
  | none ↦ compare_text a b
  | some index ↦ elim (place b supported_php_versions) [
    | none ↦ compare_text a b
    | some other_index ↦ if ltb index other_index then less else greater
  ]
]

abbrev pub is_less : Comparison → Bool
is_less less = true
is_less equal = false
is_less greater = false

abbrev pub is_greater : Comparison → Bool
is_greater less = false
is_greater equal = false
is_greater greater = true

abbrev pub trim_v : Bytes → Bytes
unfolding trim_prefix
trim_v raw = trim_prefix (b'V' ∷ []) (trim_prefix (b'v' ∷ []) raw)

-- `strconv.Itoa(n + 1)` of an int of 64 bits.
abbrev pub next_text : ℕ → Bytes
unfolding decimal
next_text n = if n == int_max then codes "-9223372036854775808" else decimal (n + 1)

module _ (trim_space : Bytes → Bytes) where
  unfoldable pub tilde_has_patch : Bytes → Bool
  unfolding split_byte trim_v
  tilde_has_patch raw = leb 3 (length (split_byte b'.' (trim_v (trim_space raw))))

  -- The first version that is too high.
  unfoldable pub upper_version : ℕ → Bytes → ℕ → ℕ → Bytes
  unfolding tilde_has_patch
  upper_version op raw major minor =
      if op == b'~'
      then (if tilde_has_patch raw
          then decimal major ++ b'.' ∷ next_text minor
          else next_text major ++ codes ".0")
      else if major == 0
      then codes "0." ++ next_text minor
      else next_text major ++ codes ".0"

  -- A number too large for an int is no bound.
  unfoldable pub below_upper : ℕ → Bytes → Option ℤ → Option ℤ → Bytes → Bool
  unfolding upper_version compare_major_minor
  below_upper op raw (some (pos major)) (some (pos minor)) candidate =
      is_less (compare_major_minor candidate (upper_version op raw major minor))
  below_upper op raw _ _ candidate = true

  -- `op` is `^` or `~`.
  unfoldable pub caret_or_tilde_allows : ℕ → Bytes → Bytes → Bool
  unfolding major_minor_version compare_major_minor below_upper split_byte atoi
  caret_or_tilde_allows op raw candidate =
      let base = major_minor_version raw in
      if length base == 0
      then true
      else if is_less (compare_major_minor candidate base)
      then false
      else elim (split_byte b'.' base) [
        | [] ↦ true
        | major ∷ rest ↦ elim rest [
          | [] ↦ true
          | minor ∷ more ↦ elim more [
            | [] ↦ below_upper op raw (atoi major) (atoi minor) candidate
            | _ ∷ _ ↦ true
          ]
        ]
      ]
