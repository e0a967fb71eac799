-- ===== src/Exclusions/Tests.antt =====
-- Runs of server/providers/diagnostics_exclusions.go at concrete inputs.
use mathlib.Core.List.{Permᴰ}
use vscode_php_strom.Base.{◌≡◌, refl, Bool, Option, none, some, List, [], ◌∷◌, if◌then◌else◌}
use vscode_php_strom.Dict.{Dict}
use vscode_php_strom.Lsp.{Diagnostic}
use vscode_php_strom.Text.{Bytes, codes, beq, index_byte}
use vscode_php_strom.Text.Split.{split_byte, count_byte}
use vscode_php_strom.Ignore.{double_star, match_segment_sequence}
use vscode_php_strom.Ignore.Braces.{expand_loop, expand_brace_pattern, expand_brace_pattern-ends}
use vscode_php_strom.Exclusions.{DiagnosticsPathExclusions, match_segment_slice, build_explicit}
use vscode_php_strom.Exclusions.Agreement.{match_segment_slice-agrees}
use vscode_php_strom.Exclusions.Filter.{filter}
use vscode_php_strom.Exclusions.Suppression.{filter_lem, filter-order, is_excluded, keep, is_kept}

-- Patterns without wildcards in a segment, paths that are clean and files below the root `w`.
abbrev literal : Bytes → Bytes → Option Bool
unfolding beq
literal pattern name = some (beq pattern name)

abbrev same : Bytes → Bytes
same p = p

abbrev below : Bytes → Bytes → Option Bytes
below root filename = none

abbrev unused : Diagnostic
unused = record {
  range = record {
    start = record { line = 1; character = 0 };
    end = record { line = 1; character = 4 };
  };
  severity = some 4;
  code = some (codes "unused");
  source = codes "phpstrom";
  message = codes "m";
  tags = [];
}

abbrev setting : Dict (List Bytes)
setting = (codes "**/a.php", codes "unused" ∷ []) ∷ (codes "vendor/**", []) ∷ []

abbrev swapped_setting : Dict (List Bytes)
swapped_setting = (codes "vendor/**", []) ∷ (codes "**/a.php", codes "unused" ∷ []) ∷ []

abbrev exclusions : DiagnosticsPathExclusions
exclusions = record { explicit = build_explicit same setting; gitignores = [] }

filter_lem_example : filter literal same same below exclusions (codes "src/a.php") (unused ∷ []) ≡ (
    if is_excluded literal same same below exclusions (codes "src/a.php")
    then []
    else keep (is_kept literal same exclusions.explicit (codes "src/a.php")) (unused ∷ []))
filter_lem_example = filter_lem literal same same below exclusions (codes "src/a.php") (unused ∷ [])

filter-order_example :
    filter literal same same below
      (record { explicit = build_explicit same setting; gitignores = [] })
      (codes "src/a.php")
      (unused ∷ [])
    ≡ filter literal same same below
        (record { explicit = build_explicit same swapped_setting; gitignores = [] })
        (codes "src/a.php")
        (unused ∷ [])
filter-order_example =
    filter-order literal same same below [] (codes "src/a.php") (unused ∷ []) (Permᴰ.swap refl refl)

match_segment_slice-agrees_example :
    match_segment_slice literal (double_star ∷ codes "a" ∷ []) (codes "b" ∷ codes "a" ∷ [])
    ≡ match_segment_sequence literal (double_star ∷ codes "a" ∷ []) (codes "b" ∷ codes "a" ∷ [])
match_segment_slice-agrees_example =
    match_segment_slice-agrees literal (double_star ∷ codes "a" ∷ []) (codes "b" ∷ codes "a" ∷ [])

expand_brace_pattern-ends_example :
    expand_loop 2 (codes "a.{b,c}") ≡ some (expand_brace_pattern (codes "a.{b,c}"))
unfolding expand_loop index_byte count_byte
expand_brace_pattern-ends_example = expand_brace_pattern-ends (codes "a.{b,c}")

expand_run :
    expand_brace_pattern (codes "a{b,c}d{e,f}")
    ≡ codes "abde" ∷ codes "abdf" ∷ codes "acde" ∷ codes "acdf" ∷ []
unfolding expand_brace_pattern index_byte split_byte count_byte
expand_run = refl
