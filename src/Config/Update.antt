-- ===== src/Config/Update.antt =====
-- server/phpstrom/config.go: Config, Update and what reads the configuration. The package overrides, of
-- another project, is a parameter.
use vscode_php_strom.Base.{ℕ, Bool, true, false, Option, some, none, List, [], ◌∷◌}
use vscode_php_strom.Dict.{Dict}
use vscode_php_strom.Server.Number.{ℤ, pos}
use vscode_php_strom.Text.{Bytes, codes}
use vscode_php_strom.Exclusions.{DiagnosticsPathExclusions}
use vscode_php_strom.PhpVersion.{fallback_php_version}
use vscode_php_strom.Config.{Members, get, section, assign, as_bool, as_text, as_object, apply_bool}
use vscode_php_strom.Config.Toggles.{
  default_analysis_toggles, DisabledAnalysis, to_provider_disables,
}
use vscode_php_strom.Config.Sections.{
  Environment, Files, Diagnostics, Completion, Format, CodeLens, InlayHints, update_environment,
  update_files, update_diagnostics, update_completion, update_format, update_code_lens,
  update_inlay_hints,
}
use vscode_php_strom.Config.{to_string_slice_setting}

pub record Config : Type 0 where
  pub environment : Environment
  pub files : Files
  pub stubs : List Bytes
  pub diagnostics : Diagnostics
  pub completion : Completion
  pub format : Format
  pub code_lens : CodeLens
  pub inlay_hints : InlayHints
  pub prefer_psalm_phpstan_prefixed_annotations : Bool
  pub storage_path : Bytes
  pub global_storage_path : Bytes
  pub extension_path : Bytes
  pub clear_cache : Bool

unfoldable pub default_config : Config
unfolding default_analysis_toggles
default_config = record {
  environment = record {
    php_version = codes "auto";
    php_version_override = [];
    effective_php_version = fallback_php_version;
    include_paths = [];
    document_root = [];
  };
  files = record {
    associations = codes "**/*.php" ∷ codes "**/*.phtml" ∷ codes "**/*.phar" ∷ [];
    exclude =
        codes "**/.git/**"
        ∷ codes "**/node_modules/**"
        ∷ codes "**/vendor/**/{Tests,tests}/**"
        ∷ [];
    max_size = pos 1000000;
  };
  stubs = codes "Core" ∷ codes "SPL" ∷ codes "Reflection" ∷ [];
  diagnostics = record {
    enable = true;
    run = codes "onSave";
    workspace_scan_on_start = false;
    analysis = default_analysis_toggles;
    exclude = [];
    overrides = [];
  };
  completion = record {
    insert_use_declaration = true;
    fully_qualify_global_symbols = false;
    trigger_parameter_hints = true;
    max_items = pos 100;
  };
  format = record { brace_style = codes "per"; insert_spaces = true; tab_size = pos 4 };
  code_lens = record {
    references = false;
    implementations = false;
    overrides = false;
    parent = false;
    usages = false;
  };
  inlay_hints = record { parameter_names = true; parameter_types = false; return_types = false };
  prefer_psalm_phpstan_prefixed_annotations = false;
  storage_path = [];
  global_storage_path = [];
  extension_path = [];
  clear_cache = false;
}

unfoldable pub update_inner : Config → Members → Config
unfolding update_environment update_files update_diagnostics update_completion update_format
    update_code_lens update_inlay_hints to_string_slice_setting get section apply_bool
update_inner c inner = record c {
  environment = update_environment c.environment inner;
  files = update_files c.files inner;
  stubs = assign c.stubs (to_string_slice_setting (get inner (codes "stubs")));
  diagnostics = update_diagnostics c.diagnostics inner;
  completion = update_completion c.completion inner;
  format = update_format c.format inner;
  code_lens = update_code_lens c.code_lens inner;
  inlay_hints = update_inlay_hints c.inlay_hints inner;
  prefer_psalm_phpstan_prefixed_annotations =
      apply_bool
        (apply_bool c.prefer_psalm_phpstan_prefixed_annotations (
          get (section inner (codes "compatibility"))
            (codes "preferPsalmPhpstanPrefixedAnnotations")))
        (get inner (codes "compatibility.preferPsalmPhpstanPrefixedAnnotations"));
}

-- The settings are those of the section "phpstrom", if there is one.
abbrev pub inner_settings : Members → Members
unfolding get
inner_settings settings = assign settings (as_object (get settings (codes "phpstrom")))

unfoldable pub update : Config → Members → Config
unfolding update_inner inner_settings
update c settings = update_inner c (inner_settings settings)

unfoldable pub apply_init_options : Config → Members → Config
unfolding update get
apply_init_options c opts =
    let set : Config = record c {
      storage_path = assign c.storage_path (as_text (get opts (codes "storagePath")));
      global_storage_path =
          assign c.global_storage_path (as_text (get opts (codes "globalStoragePath")));
      extension_path = assign c.extension_path (as_text (get opts (codes "extensionPath")));
      clear_cache = assign c.clear_cache (as_bool (get opts (codes "clearCache")));
    } in
    elim (as_object (get opts (codes "settings"))) [
      | none ↦ set
      | some settings ↦ update set settings
    ]

-- server/indexer/config.go
pub record IndexerConfig : Type 0 where
  pub associations : List Bytes
  pub exclude : List Bytes
  pub max_size : ℤ
  pub stubs : List Bytes
  pub php_version : Bytes

unfoldable pub to_indexer_config : Config → IndexerConfig
to_indexer_config c = record {
  associations = c.files.associations;
  exclude = c.files.exclude;
  max_size = c.files.max_size;
  stubs = c.stubs;
  php_version = c.environment.effective_php_version;
}

-- `effective` is effectivePHPVersion at the folders.
unfoldable pub resolve_php_version : (Bytes → Bytes → Bytes) → Config → Config × Bytes
resolve_php_version effective c =
    let version = effective c.environment.php_version c.environment.php_version_override in
    (record c { environment = record c.environment { effective_php_version = version } }, version)

-- server/providers/registry.go; `C` are the compiled overrides.
pub record ProviderConfig (C : Type 0) : Type 0 where
  pub php_version : Bytes
  pub insert_use_declaration : Bool
  pub max_completion_items : ℤ
  pub document_root : Bytes
  pub brace_style : Bytes
  pub insert_spaces : Bool
  pub tab_size : ℤ
  pub code_lens_references : Bool
  pub code_lens_implementations : Bool
  pub code_lens_overrides : Bool
  pub code_lens_parent : Bool
  pub inlay_hints_param_names : Bool
  pub inlay_hints_param_types : Bool
  pub inlay_hints_return_types : Bool
  pub disabled_analysis : DisabledAnalysis
  pub analysis_level : Option ℕ
  pub diagnostics_exclusions : DiagnosticsPathExclusions
  pub diagnostics_overrides : Option C

-- `compile` is overrides.Compile, and `build` BuildDiagnosticsPathExclusions at the folders.
unfoldable pub to_provider_config :
    {C : Type 0}
    → (Dict (List Bytes) → Option C)
    → (Dict (List Bytes) → DiagnosticsPathExclusions)
    → Config
    → ProviderConfig C
unfolding to_provider_disables
to_provider_config compile build c = record {
  php_version = c.environment.effective_php_version;
  insert_use_declaration = c.completion.insert_use_declaration;
  max_completion_items = c.completion.max_items;
  document_root = c.environment.document_root;
  brace_style = c.format.brace_style;
  insert_spaces = c.format.insert_spaces;
  tab_size = c.format.tab_size;
  code_lens_references = c.code_lens.references;
  code_lens_implementations = c.code_lens.implementations;
  code_lens_overrides = c.code_lens.overrides;
  code_lens_parent = c.code_lens.parent;
  inlay_hints_param_names = c.inlay_hints.parameter_names;
  inlay_hints_param_types = c.inlay_hints.parameter_types;
  inlay_hints_return_types = c.inlay_hints.return_types;
  disabled_analysis = to_provider_disables c.diagnostics.analysis;
  analysis_level = c.diagnostics.analysis.level;
  diagnostics_exclusions = build c.diagnostics.exclude;
  diagnostics_overrides = compile c.diagnostics.overrides;
}
