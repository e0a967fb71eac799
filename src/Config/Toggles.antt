-- ===== src/Config/Toggles.antt =====
-- server/phpstrom/analysis_toggles.go: which families of diagnostics run.
use vscode_php_strom.Base.{ℕ, Bool, true, false, not, Option, some}
use vscode_php_strom.Text.{codes}
use vscode_php_strom.Config.{Members, get, section, apply_bool, apply_analysis_level}

abbrev pub default_analysis_level : ℕ
default_analysis_level = 9

pub record AnalysisToggles : Type 0 where
  pub level : Option ℕ
  pub syntax_errors : Bool
  pub undefined_symbols : Bool
  pub undefined_variables : Bool
  pub class_model : Bool
  pub invalid_calls : Bool
  pub language : Bool
  pub type_errors : Bool
  pub method_visibility : Bool
  pub throw_types : Bool
  pub deprecated : Bool
  pub unreachable_code : Bool
  pub empty_statements : Bool
  pub assignment_in_condition : Bool
  pub side_effects : Bool
  pub style : Bool

unfoldable pub default_analysis_toggles : AnalysisToggles
default_analysis_toggles = record {
  level = some default_analysis_level;
  syntax_errors = true;
  undefined_symbols = true;
  undefined_variables = true;
  class_model = true;
  invalid_calls = true;
  language = true;
  type_errors = true;
  method_visibility = true;
  throw_types = true;
  deprecated = true;
  unreachable_code = true;
  empty_statements = true;
  assignment_in_condition = true;
  side_effects = false;
  style = false;
}

-- server/providers/registry.go: the families that do not run.
pub record DisabledAnalysis : Type 0 where
  pub syntax_errors : Bool
  pub undefined_symbols : Bool
  pub undefined_variables : Bool
  pub class_model : Bool
  pub invalid_calls : Bool
  pub language : Bool
  pub type_errors : Bool
  pub method_visibility : Bool
  pub throw_types : Bool
  pub deprecated : Bool
  pub unreachable_code : Bool
  pub empty_statements : Bool
  pub assignment_in_condition : Bool
  pub side_effects : Bool
  pub style : Bool

unfoldable pub to_provider_disables : AnalysisToggles → DisabledAnalysis
to_provider_disables a = record {
  syntax_errors = not a.syntax_errors;
  undefined_symbols = not a.undefined_symbols;
  undefined_variables = not a.undefined_variables;
  class_model = not a.class_model;
  invalid_calls = not a.invalid_calls;
  language = not a.language;
  type_errors = not a.type_errors;
  method_visibility = not a.method_visibility;
  throw_types = not a.throw_types;
  deprecated = not a.deprecated;
  unreachable_code = not a.unreachable_code;
  empty_statements = not a.empty_statements;
  assignment_in_condition = not a.assignment_in_condition;
  side_effects = not a.side_effects;
  style = not a.style;
}

unfoldable pub apply_legacy_analysis_toggles : AnalysisToggles → Members → AnalysisToggles
unfolding apply_bool get
apply_legacy_analysis_toggles dst diagnostics = record dst {
  undefined_symbols = apply_bool dst.undefined_symbols (get diagnostics (codes "undefinedSymbols"));
  undefined_variables =
      apply_bool dst.undefined_variables (get diagnostics (codes "undefinedVariables"));
  type_errors = apply_bool dst.type_errors (get diagnostics (codes "typeErrors"));
}

unfoldable pub apply_analysis_map : AnalysisToggles → Members → AnalysisToggles
unfolding apply_bool apply_analysis_level get
apply_analysis_map dst analysis = record {
  level = apply_analysis_level dst.level (get analysis (codes "level"));
  syntax_errors = apply_bool dst.syntax_errors (get analysis (codes "syntaxErrors"));
  undefined_symbols = apply_bool dst.undefined_symbols (get analysis (codes "undefinedSymbols"));
  undefined_variables =
      apply_bool dst.undefined_variables (get analysis (codes "undefinedVariables"));
  class_model = apply_bool dst.class_model (get analysis (codes "classModel"));
  invalid_calls = apply_bool dst.invalid_calls (get analysis (codes "invalidCalls"));
  language = apply_bool dst.language (get analysis (codes "language"));
  type_errors = apply_bool dst.type_errors (get analysis (codes "typeErrors"));
  method_visibility = apply_bool dst.method_visibility (get analysis (codes "methodVisibility"));
  throw_types = apply_bool dst.throw_types (get analysis (codes "throwTypes"));
  deprecated = apply_bool dst.deprecated (get analysis (codes "deprecated"));
  unreachable_code = apply_bool dst.unreachable_code (get analysis (codes "unreachableCode"));
  empty_statements = apply_bool dst.empty_statements (get analysis (codes "emptyStatements"));
  assignment_in_condition =
      apply_bool dst.assignment_in_condition (get analysis (codes "assignmentInCondition"));
  side_effects = apply_bool dst.side_effects (get analysis (codes "sideEffects"));
  style = apply_bool dst.style (get analysis (codes "style"));
}

unfoldable pub apply_analysis_toggles : AnalysisToggles → Members → AnalysisToggles
unfolding apply_legacy_analysis_toggles apply_analysis_map section
apply_analysis_toggles dst diagnostics =
    apply_analysis_map (apply_legacy_analysis_toggles dst diagnostics)
      (section diagnostics (codes "analysis"))

unfoldable pub apply_flattened_analysis_toggles : AnalysisToggles → Members → AnalysisToggles
unfolding apply_bool apply_analysis_level get
apply_flattened_analysis_toggles dst settings = record {
  level = apply_analysis_level dst.level (get settings (codes "diagnostics.analysis.level"));
  syntax_errors =
      apply_bool dst.syntax_errors (get settings (codes "diagnostics.analysis.syntaxErrors"));
  undefined_symbols =
      apply_bool
        (apply_bool dst.undefined_symbols (get settings (codes "diagnostics.undefinedSymbols")))
        (get settings (codes "diagnostics.analysis.undefinedSymbols"));
  undefined_variables =
      apply_bool
        (apply_bool dst.undefined_variables (get settings (codes "diagnostics.undefinedVariables")))
        (get settings (codes "diagnostics.analysis.undefinedVariables"));
  class_model = apply_bool dst.class_model (get settings (codes "diagnostics.analysis.classModel"));
  invalid_calls =
      apply_bool dst.invalid_calls (get settings (codes "diagnostics.analysis.invalidCalls"));
  language = apply_bool dst.language (get settings (codes "diagnostics.analysis.language"));
  type_errors =
      apply_bool (apply_bool dst.type_errors (get settings (codes "diagnostics.typeErrors")))
        (get settings (codes "diagnostics.analysis.typeErrors"));
  method_visibility =
      apply_bool dst.method_visibility
        (get settings (codes "diagnostics.analysis.methodVisibility"));
  throw_types = apply_bool dst.throw_types (get settings (codes "diagnostics.analysis.throwTypes"));
  deprecated = apply_bool dst.deprecated (get settings (codes "diagnostics.analysis.deprecated"));
  unreachable_code =
      apply_bool dst.unreachable_code (get settings (codes "diagnostics.analysis.unreachableCode"));
  empty_statements =
      apply_bool dst.empty_statements (get settings (codes "diagnostics.analysis.emptyStatements"));
  assignment_in_condition =
      apply_bool dst.assignment_in_condition
        (get settings (codes "diagnostics.analysis.assignmentInCondition"));
  side_effects =
      apply_bool dst.side_effects (get settings (codes "diagnostics.analysis.sideEffects"));
  style = apply_bool dst.style (get settings (codes "diagnostics.analysis.style"));
}
