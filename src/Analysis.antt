-- ===== src/Analysis.antt =====
-- server/providers/diagnostics.go: what surrounds the analyser, which is a package of another project:
-- the codes that settings turn off, the comments in a file that suppress diagnostics, and paths.
-- strings.ToLower is a parameter.
pub mod Inline
pub mod Types
pub mod Ranking
pub mod Resolver
pub mod Lineage
pub mod Ends
mod Tests
use vscode_php_strom.Base.{
  ℕ, suc, ◌+◌, ◌-◌, Bool, true, false, not, ◌&&◌, ◌||◌, List, [], ◌∷◌, ◌++◌, ◌==◌, leb, ltb,
  if◌then◌else◌, length, drop,
}
use vscode_php_strom.Config.Toggles.{DisabledAnalysis}
use vscode_php_strom.Lsp.{Position, Range, to_u32, Diagnostic}
use vscode_php_strom.Text.{Bytes, codes, beq, contains_text}
use vscode_php_strom.Text.Split.{split_byte}

-- The set of codes, as the list of those that are added; `none` of them is the nil map.
abbrev pub codes_if : Bool → List Bytes → List Bytes
codes_if off added = if off then added else []

unfoldable pub disabled_analysis_issue_codes : DisabledAnalysis → List Bytes
disabled_analysis_issue_codes d =
    codes_if d.undefined_symbols
      (codes "Level0.Symbols" ∷ codes "Level2.MethodExistence" ∷ codes "Level7.MethodUnion" ∷ [])
    ++ (codes_if d.undefined_variables (codes "Level1.Variables" ∷ [])
        ++ (codes_if d.class_model (codes "Level0.ClassModel" ∷ [])
            ++ (codes_if d.invalid_calls (codes "Level0.Invocation" ∷ [])
                ++ (codes_if d.language (codes "Level0.Language" ∷ [])
                    ++ (codes_if d.type_errors (
                          codes "A.RETURN.TYPE"
                          ∷ codes "A.RETURN.VOID"
                          ∷ codes "A.RETURN.NEVER"
                          ∷ codes "A.VOID.PURE"
                          ∷ codes "A.PROP.TYPE"
                          ∷ codes "A.ARG.TYPE"
                          ∷ codes "A.ARG.COUNT"
                          ∷ codes "Level0.PropertyCallableType"
                          ∷ codes "A.ASSIGN.OP.INVALID"
                          ∷ codes "A.BINARY.OP.INVALID"
                          ∷ codes "Level2.PHPDocClass"
                          ∷ codes "Level2.PHPDocParamName"
                          ∷ codes "Level2.PHPDocParamType"
                          ∷ codes "Level2.PHPDocPropertyType"
                          ∷ codes "Level2.PHPDocReturnType"
                          ∷ codes "Level2.PHPDocGenericLessTypes"
                          ∷ codes "Level2.PHPDocGenericMoreTypes"
                          ∷ codes "Level2.PHPDocNotGeneric"
                          ∷ codes "Level2.PHPDocGenericNotSubtype"
                          ∷ codes "Level6.MissingGenericType"
                          ∷ codes "Level6.MissingIterableValueType"
                          ∷ codes "Level6.MissingParameterType"
                          ∷ codes "Level6.MissingReturnType"
                          ∷ codes "Level6.MissingPropertyType"
                          ∷ codes "Level2.MethodNonObject"
                          ∷ codes "Level8.MethodNonObject"
                          ∷ [])
                        ++ (codes_if d.method_visibility (codes "Level2.MethodVisibility" ∷ [])
                            ++ (codes_if d.throw_types (codes "Level3.ThrowType" ∷ [])
                                ++ (codes_if d.deprecated (codes "A.DEPRECATED.CALL" ∷ [])
                                    ++ (codes_if d.unreachable_code
                                          (codes "Generic.CodeAnalysis.UnreachableCode" ∷ [])
                                        ++ (codes_if d.empty_statements
                                              (codes "Generic.CodeAnalysis.EmptyStatement" ∷ [])
                                            ++ (codes_if d.assignment_in_condition (
                                                  codes "Generic.CodeAnalysis.AssignmentInCondition"
                                                  ∷ [])
                                                ++ (codes_if d.side_effects (
                                                    codes "PSR1.Files.SideEffects" ∷ [])))))))))))))

unfoldable pub line_col_to_range : ℕ → ℕ → Range
unfolding to_u32
line_col_to_range line col =
    let pos : Position = record {
      line = to_u32 ((if ltb line 1 then 1 else line) - 1);
      character = to_u32 ((if ltb col 1 then 1 else col) - 1);
    } in
    record { start = pos; end = pos }

-- The set of line numbers.
abbrev pub has_line : ℕ → List ℕ → Bool
has_line n [] = false
has_line n (m ∷ lines) = m == n || has_line n lines

module _ (lower : Bytes → Bytes) where
  -- The marker is for its own line, or for the next.
  unfoldable pub marks_own : Bytes → Bool
  unfolding contains_text
  marks_own line =
      contains_text (lower line) (codes "@phpstan-ignore-line")
      || contains_text (lower line) (codes "@psalm-suppress")
      || contains_text (lower line) (codes "@phpcs:ignore")

  unfoldable pub marks_next : Bytes → Bool
  unfolding contains_text
  marks_next line =
      contains_text (lower line) (codes "@phpstan-ignore-next-line")
      || contains_text (lower line) (codes "@psalm-suppress-next-line")

  -- The lines that one line adds.
  unfoldable pub lines_of : ℕ → Bytes → List ℕ
  unfolding marks_own marks_next to_u32 contains_text
  lines_of idx line =
      if contains_text line (b'@' ∷ [])
      then (if marks_own line then to_u32 idx ∷ [] else [])
        ++ (if marks_next line then to_u32 (to_u32 idx + 1) ∷ [] else [])
      else []

  unfoldable pub suppressions_loop : ℕ → List Bytes → List ℕ
  unfolding lines_of
  suppressions_loop idx [] = []
  suppressions_loop idx (line ∷ lines) = lines_of idx line ++ suppressions_loop (suc idx) lines

  unfoldable pub collect_inline_diagnostic_suppressions : Bytes → List ℕ
  unfolding suppressions_loop split_byte
  collect_inline_diagnostic_suppressions text = suppressions_loop 0 (split_byte b'\n' text)

unfoldable pub filter_loop : List ℕ → List Diagnostic → List Diagnostic
filter_loop ignore_lines [] = []
filter_loop ignore_lines (diag ∷ diags) =
    let filtered = filter_loop ignore_lines diags in
    if has_line diag.range.start.line ignore_lines then filtered else diag ∷ filtered

unfoldable pub filter_suppressed : List ℕ → List Diagnostic → List Diagnostic
unfolding filter_loop
filter_suppressed ignore_lines diags =
    if length ignore_lines == 0 || length diags == 0 then diags else filter_loop ignore_lines diags

-- `strings.ReplaceAll(path, "\\", "/")`
unfoldable pub backslashes_to_slashes : Bytes → Bytes
backslashes_to_slashes [] = []
backslashes_to_slashes (c ∷ cs) = (if c == b'\\' then b'/' else c) ∷ backslashes_to_slashes cs

abbrev pub any_vendor : List Bytes → Bool
unfolding beq
any_vendor [] = false
any_vendor (segment ∷ segments) = beq segment (codes "vendor") || any_vendor segments

-- The path "" has one segment, which is not "vendor".
unfoldable pub is_vendored_analysis_path : Bytes → Bool
unfolding split_byte backslashes_to_slashes any_vendor
is_vendored_analysis_path [] = false
is_vendored_analysis_path (c ∷ cs) = any_vendor (split_byte b'/' (backslashes_to_slashes (c ∷ cs)))

-- Seven bytes are dropped, whatever they are.
unfoldable pub uri_to_filename : Bytes → Bytes
uri_to_filename uri = if ltb 7 (length uri) then drop 7 uri else uri
