-- ===== src/PhpVersion/Constraint.antt =====
-- server/phpstrom/php_version.go: which versions a constraint allows. strings.TrimSpace and strings.Fields
-- are parameters.
use vscode_php_strom.Base.{
  Bool, true, false, not, ◌&&◌, ◌||◌, List, [], ◌∷◌, ◌==◌, if◌then◌else◌, length,
}
use vscode_php_strom.Text.{Bytes, codes, beq, has_prefix, trim_prefix, has_suffix, trim_suffix}
use vscode_php_strom.Text.Split.{onto_first}
use vscode_php_strom.PhpVersion.{
  major_minor_version, Comparison, compare_major_minor, is_less, is_greater, caret_or_tilde_allows,
}

-- `strings.TrimLeft(token, "^~")`
unfoldable pub trim_operators : Bytes → Bytes
trim_operators [] = []
trim_operators (c ∷ cs) =
    let rest = trim_operators cs in if c == b'^' || c == b'~' then rest else c ∷ cs

abbrev pub operators : List Bytes
operators = codes ">=" ∷ codes "<=" ∷ codes ">" ∷ codes "<" ∷ codes "=" ∷ []

-- The first operator that a token begins with, and "" for none.
unfoldable pub operator_of : List Bytes → Bytes → Bytes
unfolding has_prefix
operator_of [] token = []
operator_of (op ∷ ops) token =
    let rest = operator_of ops token in if has_prefix op token then op else rest

unfoldable pub comparison_allows : Bytes → Comparison → Bool
unfolding beq
comparison_allows op cmp =
    if beq op [] || beq op (codes "=")
    then not (is_less cmp) && not (is_greater cmp)
    else if beq op (codes ">=")
    then not (is_less cmp)
    else if beq op (codes ">")
    then is_greater cmp
    else if beq op (codes "<=")
    then not (is_greater cmp)
    else is_less cmp

-- `strings.ReplaceAll(group, ",", " ")`
unfoldable pub commas_to_spaces : Bytes → Bytes
commas_to_spaces [] = []
commas_to_spaces (c ∷ cs) = (if c == b',' then b' ' else c) ∷ commas_to_spaces cs

-- `strings.Split(constraint, "||")`; the second of two bars is passed over.
unfoldable pub split_bars : Bool → Bytes → List Bytes
split_bars passed [] = [] ∷ []
split_bars passed (c ∷ []) = if passed then [] ∷ [] else (c ∷ []) ∷ []
split_bars passed (c ∷ d ∷ cs) =
    let bars = not passed && c == b'|' && d == b'|' in
    let rest = split_bars bars (d ∷ cs) in
    if bars then [] ∷ rest else if passed then rest else onto_first c rest

module _ (trim_space : Bytes → Bytes) (fields : Bytes → List Bytes) where
  unfoldable pub version_token_allows : Bytes → Bytes → Bool
  unfolding operator_of trim_prefix major_minor_version comparison_allows compare_major_minor
  version_token_allows token candidate =
      let op = operator_of operators token in
      let rest = if length op == 0 then token else trim_space (trim_prefix op token) in
      let version = major_minor_version rest in
      if length version == 0
      then true
      else comparison_allows op (compare_major_minor candidate version)

  unfoldable pub constraint_token_allows_major_minor : Bytes → Bytes → Bool
  unfolding caret_or_tilde_allows trim_operators version_token_allows major_minor_version
      trim_suffix has_suffix beq
  constraint_token_allows_major_minor given candidate = elim (trim_space given) [
    | [] ↦ true
    | c ∷ cs ↦
        let token = c ∷ cs in
        if beq token (codes "*")
        then true
        else if c == b'^' || c == b'~'
        then caret_or_tilde_allows trim_space c (trim_operators token) candidate
        else if has_suffix (codes ".*") token || has_suffix (codes ".x") token
        then beq candidate
            (major_minor_version (trim_suffix (codes ".x") (trim_suffix (codes ".*") token)))
        else version_token_allows token candidate
  ]

  unfoldable pub all_tokens_allow : List Bytes → Bytes → Bool
  unfolding constraint_token_allows_major_minor
  all_tokens_allow [] candidate = true
  all_tokens_allow (token ∷ tokens) candidate =
      constraint_token_allows_major_minor token candidate && all_tokens_allow tokens candidate

  unfoldable pub constraint_group_allows_major_minor : Bytes → Bytes → Bool
  unfolding commas_to_spaces all_tokens_allow
  constraint_group_allows_major_minor group candidate = elim (fields (commas_to_spaces group)) [
    | [] ↦ false
    | token ∷ tokens ↦ all_tokens_allow (token ∷ tokens) candidate
  ]

  unfoldable pub any_group_allows : List Bytes → Bytes → Bool
  unfolding constraint_group_allows_major_minor
  any_group_allows [] candidate = false
  any_group_allows (group ∷ groups) candidate =
      let later = any_group_allows groups candidate in
      elim (trim_space group) [
        | [] ↦ later
        | c ∷ cs ↦ constraint_group_allows_major_minor (c ∷ cs) candidate || later
      ]

  unfoldable pub constraint_allows_major_minor : Bytes → Bytes → Bool
  unfolding split_bars any_group_allows
  constraint_allows_major_minor constraint candidate =
      any_group_allows (split_bars false constraint) candidate

  unfoldable pub first_allowed : Bytes → List Bytes → Bytes
  unfolding constraint_allows_major_minor
  first_allowed constraint [] = []
  first_allowed constraint (candidate ∷ candidates) =
      let later = first_allowed constraint candidates in
      if constraint_allows_major_minor constraint candidate then candidate else later
