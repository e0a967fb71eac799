-- ===== src/Config/Sections.antt =====
-- server/phpstrom/config.go: the sections of the configuration, and how settings change each of them.
use vscode_php_strom.Base.{Bool, List}
use vscode_php_strom.Dict.{Dict}
use vscode_php_strom.Server.Number.{ℤ}
use vscode_php_strom.Text.{Bytes, codes}
use vscode_php_strom.Config.{
  Members, get, section, assign, as_text, to_int64, to_string_slice_setting, apply_bool,
  apply_nested_enable, parse_diagnostics_exclude, parse_rule_overrides,
}
use vscode_php_strom.Config.Toggles.{
  AnalysisToggles, apply_analysis_toggles, apply_flattened_analysis_toggles,
}

pub record Environment : Type 0 where
  pub php_version : Bytes
  pub php_version_override : Bytes
  pub effective_php_version : Bytes
  pub include_paths : List Bytes
  pub document_root : Bytes

pub record Files : Type 0 where
  pub associations : List Bytes
  pub exclude : List Bytes
  pub max_size : ℤ

-- The overrides of a rule, of another package, are the classes that this code sets.
pub record Diagnostics : Type 0 where
  pub enable : Bool
  pub run : Bytes
  pub workspace_scan_on_start : Bool
  pub analysis : AnalysisToggles
  pub exclude : Dict (List Bytes)
  pub overrides : Dict (List Bytes)

pub record Completion : Type 0 where
  pub insert_use_declaration : Bool
  pub fully_qualify_global_symbols : Bool
  pub trigger_parameter_hints : Bool
  pub max_items : ℤ

pub record Format : Type 0 where
  pub brace_style : Bytes
  pub insert_spaces : Bool
  pub tab_size : ℤ

pub record CodeLens : Type 0 where
  pub references : Bool
  pub implementations : Bool
  pub overrides : Bool
  pub parent : Bool
  pub usages : Bool

pub record InlayHints : Type 0 where
  pub parameter_names : Bool
  pub parameter_types : Bool
  pub return_types : Bool

unfoldable pub apply_environment_config : Environment → Members → Environment
unfolding get to_string_slice_setting
apply_environment_config dst settings = record dst {
  php_version = assign dst.php_version (as_text (get settings (codes "phpVersion")));
  php_version_override =
      assign dst.php_version_override (as_text (get settings (codes "phpVersionOverride")));
  include_paths =
      assign dst.include_paths (to_string_slice_setting (get settings (codes "includePaths")));
  document_root = assign dst.document_root (as_text (get settings (codes "documentRoot")));
}

-- The section, and then the keys with dots.
unfoldable pub update_environment : Environment → Members → Environment
unfolding apply_environment_config section get
update_environment old inner =
    let nested = apply_environment_config old (section inner (codes "environment")) in
    record nested {
      php_version =
          assign nested.php_version (as_text (get inner (codes "environment.phpVersion")));
      php_version_override =
          assign nested.php_version_override
            (as_text (get inner (codes "environment.phpVersionOverride")));
    }

unfoldable pub apply_files_config : Files → Members → Files
unfolding get to_string_slice_setting
apply_files_config dst settings = record {
  associations =
      assign dst.associations (to_string_slice_setting (get settings (codes "associations")));
  exclude = assign dst.exclude (to_string_slice_setting (get settings (codes "exclude")));
  max_size = assign dst.max_size (to_int64 (get settings (codes "maxSize")));
}

unfoldable pub update_files : Files → Members → Files
unfolding apply_files_config section get to_string_slice_setting
update_files old inner =
    let nested = apply_files_config old (section inner (codes "files")) in
    record {
      associations =
          assign nested.associations
            (to_string_slice_setting (get inner (codes "files.associations")));
      exclude = assign nested.exclude (to_string_slice_setting (get inner (codes "files.exclude")));
      max_size = assign nested.max_size (to_int64 (get inner (codes "files.maxSize")));
    }

-- The section "diagnostics".
unfoldable pub apply_diagnostics : Diagnostics → Members → Diagnostics
unfolding apply_bool get apply_analysis_toggles parse_rule_overrides parse_diagnostics_exclude
apply_diagnostics old diagnostics = record {
  enable = apply_bool old.enable (get diagnostics (codes "enable"));
  run = assign old.run (as_text (get diagnostics (codes "run")));
  workspace_scan_on_start =
      apply_bool old.workspace_scan_on_start (get diagnostics (codes "workspaceScanOnStart"));
  analysis = apply_analysis_toggles old.analysis diagnostics;
  exclude = assign old.exclude (parse_diagnostics_exclude (get diagnostics (codes "exclude")));
  overrides = assign old.overrides (parse_rule_overrides (get diagnostics (codes "overrides")));
}

unfoldable pub update_diagnostics : Diagnostics → Members → Diagnostics
unfolding apply_diagnostics section apply_bool get apply_flattened_analysis_toggles
    parse_rule_overrides parse_diagnostics_exclude
update_diagnostics old inner =
    let nested = apply_diagnostics old (section inner (codes "diagnostics")) in
    record {
      enable = apply_bool nested.enable (get inner (codes "diagnostics.enable"));
      run = assign nested.run (as_text (get inner (codes "diagnostics.run")));
      workspace_scan_on_start =
          apply_bool nested.workspace_scan_on_start
            (get inner (codes "diagnostics.workspaceScanOnStart"));
      analysis = apply_flattened_analysis_toggles nested.analysis inner;
      exclude =
          assign nested.exclude
            (parse_diagnostics_exclude (get inner (codes "diagnostics.exclude")));
      overrides =
          assign nested.overrides
            (parse_rule_overrides (get inner (codes "diagnostics.overrides")));
    }

unfoldable pub update_completion : Completion → Members → Completion
unfolding section apply_bool get
update_completion old inner =
    let nested = section inner (codes "completion") in
    record {
      insert_use_declaration =
          apply_bool
            (apply_bool old.insert_use_declaration (get nested (codes "insertUseDeclaration")))
            (get inner (codes "completion.insertUseDeclaration"));
      fully_qualify_global_symbols =
          apply_bool
            (apply_bool old.fully_qualify_global_symbols
              (get nested (codes "fullyQualifyGlobalSymbols")))
            (get inner (codes "completion.fullyQualifyGlobalSymbols"));
      trigger_parameter_hints =
          apply_bool
            (apply_bool old.trigger_parameter_hints (get nested (codes "triggerParameterHints")))
            (get inner (codes "completion.triggerParameterHints"));
      max_items =
          assign (assign old.max_items (to_int64 (get nested (codes "maxItems"))))
            (to_int64 (get inner (codes "completion.maxItems")));
    }

unfoldable pub update_format : Format → Members → Format
unfolding section apply_bool get
update_format old inner =
    let nested = section inner (codes "format") in
    record {
      brace_style =
          assign (assign old.brace_style (as_text (get nested (codes "braceStyle"))))
            (as_text (get inner (codes "format.braceStyle")));
      insert_spaces =
          apply_bool (apply_bool old.insert_spaces (get nested (codes "insertSpaces")))
            (get inner (codes "format.insertSpaces"));
      tab_size =
          assign (assign old.tab_size (to_int64 (get nested (codes "tabSize"))))
            (to_int64 (get inner (codes "format.tabSize")));
    }

unfoldable pub update_code_lens : CodeLens → Members → CodeLens
unfolding apply_nested_enable
update_code_lens old inner = record {
  references = apply_nested_enable old.references inner (codes "codeLens") (codes "references");
  implementations =
      apply_nested_enable old.implementations inner (codes "codeLens") (codes "implementations");
  overrides = apply_nested_enable old.overrides inner (codes "codeLens") (codes "overrides");
  parent = apply_nested_enable old.parent inner (codes "codeLens") (codes "parent");
  usages = apply_nested_enable old.usages inner (codes "codeLens") (codes "usages");
}

unfoldable pub update_inlay_hints : InlayHints → Members → InlayHints
unfolding apply_nested_enable
update_inlay_hints old inner = record {
  parameter_names =
      apply_nested_enable old.parameter_names inner (codes "inlayHints") (codes "parameterNames");
  parameter_types =
      apply_nested_enable old.parameter_types inner (codes "inlayHints") (codes "parameterTypes");
  return_types =
      apply_nested_enable old.return_types inner (codes "inlayHints") (codes "returnTypes");
}
