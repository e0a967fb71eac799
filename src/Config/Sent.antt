-- ===== src/Config/Sent.antt =====
-- server/phpstrom/config.go: the settings that say a configuration, in sections and in keys with dots, as
-- package.json names them.
use vscode_php_strom.Base.{ℕ, ◌≡◌, refl, Option, none, some, List, [], ◌∷◌, Bool}
use vscode_php_strom.Server.Number.{pos, negsuc}
use vscode_php_strom.Text.{Bytes, codes}
use vscode_php_strom.Config.{
  Value, Values, Members, bool, number, text, array, object, no_values, value, no_members, member,
  all_texts, assign, as_level, to_int64,
}
use vscode_php_strom.Config.Toggles.{AnalysisToggles}
use vscode_php_strom.Config.Update.{Config}

abbrev pub texts_of : List Bytes → Values
texts_of [] = no_values
texts_of (s ∷ texts) = value (text s) (texts_of texts)

pub all_texts-texts_of : (texts : List Bytes) → all_texts (texts_of texts) ≡ some texts
unfolding all_texts
all_texts-texts_of [] = refl
all_texts-texts_of (s ∷ texts) = rw (all_texts-texts_of texts) refl

-- A level that is left open is sent as -1, which is no level.
abbrev pub level_of : Option ℕ → Value
level_of none = number (negsuc 0)
level_of (some n) = number (pos n)

-- The level that is set, or else the one before.
abbrev pub or_level : Option ℕ → Option ℕ → Option ℕ
or_level none old = old
or_level (some n) old = some n

pub assign-level_of :
    (level old : Option ℕ) → assign old (as_level (to_int64 (level_of level))) ≡ or_level level old
assign-level_of none old = refl
assign-level_of (some n) old = refl

-- A key with its value.
abbrev pub Entry : Type 0
Entry = Bytes × Value

abbrev pub members_of : List Entry → Members → Members
members_of [] rest = rest
members_of ((key, v) ∷ entries) rest = member key v (members_of entries rest)

abbrev pub section_of : List Entry → Value
section_of entries = object (members_of entries no_members)

abbrev pub enabled : Bool → Value
enabled b = section_of ((codes "enable", bool b) ∷ [])

abbrev analysis_section : AnalysisToggles → Value
analysis_section t = section_of (
    (codes "level", level_of t.level)
    ∷ (codes "syntaxErrors", bool t.syntax_errors)
    ∷ (codes "undefinedSymbols", bool t.undefined_symbols)
    ∷ (codes "undefinedVariables", bool t.undefined_variables)
    ∷ (codes "classModel", bool t.class_model)
    ∷ (codes "invalidCalls", bool t.invalid_calls)
    ∷ (codes "language", bool t.language)
    ∷ (codes "typeErrors", bool t.type_errors)
    ∷ (codes "methodVisibility", bool t.method_visibility)
    ∷ (codes "throwTypes", bool t.throw_types)
    ∷ (codes "deprecated", bool t.deprecated)
    ∷ (codes "unreachableCode", bool t.unreachable_code)
    ∷ (codes "emptyStatements", bool t.empty_statements)
    ∷ (codes "assignmentInCondition", bool t.assignment_in_condition)
    ∷ (codes "sideEffects", bool t.side_effects)
    ∷ (codes "style", bool t.style)
    ∷ [])

-- In sections, all settings but the exclusions and the overrides of rules.
abbrev pub in_sections : Config → List Entry
in_sections d =
    (
      codes "environment",
      section_of (
          (codes "phpVersion", text d.environment.php_version)
          ∷ (codes "phpVersionOverride", text d.environment.php_version_override)
          ∷ (codes "includePaths", array (texts_of d.environment.include_paths))
          ∷ (codes "documentRoot", text d.environment.document_root)
          ∷ []),
    )
    ∷ (
      codes "files",
      section_of (
          (codes "associations", array (texts_of d.files.associations))
          ∷ (codes "exclude", array (texts_of d.files.exclude))
          ∷ (codes "maxSize", number d.files.max_size)
          ∷ []),
    )
    ∷ (codes "stubs", array (texts_of d.stubs))
    ∷ (
      codes "diagnostics",
      section_of (
          (codes "enable", bool d.diagnostics.enable)
          ∷ (codes "run", text d.diagnostics.run)
          ∷ (codes "workspaceScanOnStart", bool d.diagnostics.workspace_scan_on_start)
          ∷ (codes "analysis", analysis_section d.diagnostics.analysis)
          ∷ []),
    )
    ∷ (
      codes "completion",
      section_of (
          (codes "insertUseDeclaration", bool d.completion.insert_use_declaration)
          ∷ (codes "fullyQualifyGlobalSymbols", bool d.completion.fully_qualify_global_symbols)
          ∷ (codes "triggerParameterHints", bool d.completion.trigger_parameter_hints)
          ∷ (codes "maxItems", number d.completion.max_items)
          ∷ []),
    )
    ∷ (
      codes "format",
      section_of (
          (codes "braceStyle", text d.format.brace_style)
          ∷ (codes "insertSpaces", bool d.format.insert_spaces)
          ∷ (codes "tabSize", number d.format.tab_size)
          ∷ []),
    )
    ∷ (
      codes "codeLens",
      section_of (
          (codes "references", enabled d.code_lens.references)
          ∷ (codes "implementations", enabled d.code_lens.implementations)
          ∷ (codes "overrides", enabled d.code_lens.overrides)
          ∷ (codes "parent", enabled d.code_lens.parent)
          ∷ (codes "usages", enabled d.code_lens.usages)
          ∷ []),
    )
    ∷ (
      codes "inlayHints",
      section_of (
          (codes "parameterNames.enable", bool d.inlay_hints.parameter_names)
          ∷ (codes "parameterTypes.enable", bool d.inlay_hints.parameter_types)
          ∷ (codes "returnTypes.enable", bool d.inlay_hints.return_types)
          ∷ []),
    )
    ∷ (
      codes "compatibility",
      section_of (
          (
            codes "preferPsalmPhpstanPrefixedAnnotations",
            bool d.prefer_psalm_phpstan_prefixed_annotations,
          )
          ∷ []),
    )
    ∷ []

-- In keys with dots; the include paths, the document root and the stubs have none.
abbrev pub with_dots : Config → List Entry
with_dots d =
    (codes "environment.phpVersion", text d.environment.php_version)
    ∷ (codes "environment.phpVersionOverride", text d.environment.php_version_override)
    ∷ (codes "files.associations", array (texts_of d.files.associations))
    ∷ (codes "files.exclude", array (texts_of d.files.exclude))
    ∷ (codes "files.maxSize", number d.files.max_size)
    ∷ (codes "diagnostics.enable", bool d.diagnostics.enable)
    ∷ (codes "diagnostics.run", text d.diagnostics.run)
    ∷ (codes "diagnostics.workspaceScanOnStart", bool d.diagnostics.workspace_scan_on_start)
    ∷ (codes "diagnostics.analysis.level", level_of d.diagnostics.analysis.level)
    ∷ (codes "diagnostics.analysis.syntaxErrors", bool d.diagnostics.analysis.syntax_errors)
    ∷ (codes "diagnostics.analysis.undefinedSymbols", bool d.diagnostics.analysis.undefined_symbols)
    ∷ (
      codes "diagnostics.analysis.undefinedVariables",
      bool d.diagnostics.analysis.undefined_variables,
    )
    ∷ (codes "diagnostics.analysis.classModel", bool d.diagnostics.analysis.class_model)
    ∷ (codes "diagnostics.analysis.invalidCalls", bool d.diagnostics.analysis.invalid_calls)
    ∷ (codes "diagnostics.analysis.language", bool d.diagnostics.analysis.language)
    ∷ (codes "diagnostics.analysis.typeErrors", bool d.diagnostics.analysis.type_errors)
    ∷ (codes "diagnostics.analysis.methodVisibility", bool d.diagnostics.analysis.method_visibility)
    ∷ (codes "diagnostics.analysis.throwTypes", bool d.diagnostics.analysis.throw_types)
    ∷ (codes "diagnostics.analysis.deprecated", bool d.diagnostics.analysis.deprecated)
    ∷ (codes "diagnostics.analysis.unreachableCode", bool d.diagnostics.analysis.unreachable_code)
    ∷ (codes "diagnostics.analysis.emptyStatements", bool d.diagnostics.analysis.empty_statements)
    ∷ (
      codes "diagnostics.analysis.assignmentInCondition",
      bool d.diagnostics.analysis.assignment_in_condition,
    )
    ∷ (codes "diagnostics.analysis.sideEffects", bool d.diagnostics.analysis.side_effects)
    ∷ (codes "diagnostics.analysis.style", bool d.diagnostics.analysis.style)
    ∷ (codes "completion.insertUseDeclaration", bool d.completion.insert_use_declaration)
    ∷ (codes "completion.fullyQualifyGlobalSymbols", bool d.completion.fully_qualify_global_symbols)
    ∷ (codes "completion.triggerParameterHints", bool d.completion.trigger_parameter_hints)
    ∷ (codes "completion.maxItems", number d.completion.max_items)
    ∷ (codes "format.braceStyle", text d.format.brace_style)
    ∷ (codes "format.insertSpaces", bool d.format.insert_spaces)
    ∷ (codes "format.tabSize", number d.format.tab_size)
    ∷ (codes "codeLens.references.enable", bool d.code_lens.references)
    ∷ (codes "codeLens.implementations.enable", bool d.code_lens.implementations)
    ∷ (codes "codeLens.overrides.enable", bool d.code_lens.overrides)
    ∷ (codes "codeLens.parent.enable", bool d.code_lens.parent)
    ∷ (codes "codeLens.usages.enable", bool d.code_lens.usages)
    ∷ (codes "inlayHints.parameterNames.enable", bool d.inlay_hints.parameter_names)
    ∷ (codes "inlayHints.parameterTypes.enable", bool d.inlay_hints.parameter_types)
    ∷ (codes "inlayHints.returnTypes.enable", bool d.inlay_hints.return_types)
    ∷ (
      codes "compatibility.preferPsalmPhpstanPrefixedAnnotations",
      bool d.prefer_psalm_phpstan_prefixed_annotations,
    )
    ∷ []
