-- ===== src/PhpVersion/Tests.antt =====
-- Runs of server/phpstrom/php_version.go at concrete inputs.
use vscode_php_strom.Base.{◌≡◌, refl, true, Option, some, List, [], ◌∷◌}
use vscode_php_strom.Text.{Bytes, codes, beq, has_prefix, trim_prefix, has_suffix, trim_suffix}
use vscode_php_strom.Text.Split.{split_byte}
use vscode_php_strom.Exclusions.{contains_code}
use vscode_php_strom.PhpVersion.{
  supported_php_versions, major_minor_version, leading_digits, minor_behind, compare_major_minor,
  place, compare_text,
}
use vscode_php_strom.PhpVersion.Constraint.{
  first_allowed, constraint_allows_major_minor, any_group_allows,
  constraint_group_allows_major_minor, all_tokens_allow, constraint_token_allows_major_minor,
  version_token_allows, operator_of, comparison_allows, commas_to_spaces, split_bars,
}
use vscode_php_strom.PhpVersion.Detect.{
  ComposerManifest, version_from_constraint, effective_php_version,
}
use vscode_php_strom.PhpVersion.Supported.{effective_php_version-supported}

-- Text in lower case, and split at spaces.
abbrev same : Bytes → Bytes
same s = s

abbrev fields : Bytes → List Bytes
unfolding split_byte
fields s = split_byte b' ' s

abbrev manifest : Bytes → Option ComposerManifest
manifest path = some (record { platform = some (codes "8.4.1"); requires = some (codes ">=8.2") })

abbrev join : Bytes → Bytes → Bytes
join root name = name

effective_php_version-supported_example :
    contains_code supported_php_versions
      (effective_php_version same same fields manifest same join (codes "auto") [] (codes "w" ∷ []))
    ≡ true
effective_php_version-supported_example =
    effective_php_version-supported same same fields manifest same join (codes "auto") []
      (codes "w" ∷ [])

lowest_run : version_from_constraint same same fields (codes ">=8.3,<9.0") ≡ codes "8.3"
unfolding fields beq has_prefix trim_prefix has_suffix trim_suffix split_byte major_minor_version
    leading_digits minor_behind compare_major_minor place compare_text version_from_constraint
    first_allowed constraint_allows_major_minor any_group_allows constraint_group_allows_major_minor
    all_tokens_allow constraint_token_allows_major_minor version_token_allows operator_of
    comparison_allows commas_to_spaces split_bars
lowest_run = refl

-- Majors of two digits are compared as text: 8.2 is taken for at least 10.0.
two_digits_run : version_from_constraint same same fields (codes ">=10.0") ≡ codes "8.2"
unfolding fields beq has_prefix trim_prefix has_suffix trim_suffix split_byte major_minor_version
    leading_digits minor_behind compare_major_minor place compare_text version_from_constraint
    first_allowed constraint_allows_major_minor any_group_allows constraint_group_allows_major_minor
    all_tokens_allow constraint_token_allows_major_minor version_token_allows operator_of
    comparison_allows commas_to_spaces split_bars
two_digits_run = refl

-- What is excluded is read as what is required.
excluded_run : version_from_constraint same same fields (codes "!=8.2") ≡ codes "8.2"
unfolding fields beq has_prefix trim_prefix has_suffix trim_suffix split_byte major_minor_version
    leading_digits minor_behind compare_major_minor place compare_text version_from_constraint
    first_allowed constraint_allows_major_minor any_group_allows constraint_group_allows_major_minor
    all_tokens_allow constraint_token_allows_major_minor version_token_allows operator_of
    comparison_allows commas_to_spaces split_bars
excluded_run = refl
