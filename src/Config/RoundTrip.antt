-- ===== src/Config/RoundTrip.antt =====
-- server/phpstrom/config.go: a configuration that is sent is the one that Update leaves.
use vscode_php_strom.Base.{◌≡◌}
use vscode_php_strom.Text.{codes, beq}
use vscode_php_strom.Config.{
  member, no_members, get, section, to_string_slice_setting, apply_bool, apply_analysis_level,
  apply_nested_enable, parse_diagnostics_exclude, parse_rule_overrides,
}
use vscode_php_strom.Config.Toggles.{
  apply_legacy_analysis_toggles, apply_analysis_map, apply_analysis_toggles,
  apply_flattened_analysis_toggles,
}
use vscode_php_strom.Config.Sections.{
  apply_environment_config, update_environment, apply_files_config, update_files, apply_diagnostics,
  update_diagnostics, update_completion, update_format, update_code_lens, update_inlay_hints,
}
use vscode_php_strom.Config.Update.{Config, update_inner, update}
use vscode_php_strom.Config.Sent.{
  in_sections, with_dots, members_of, section_of, or_level, all_texts-texts_of, assign-level_of,
}

-- The configuration `d`, with what the settings do not say as it is in `c`: the exclusions, the
-- overrides, a level that `d` leaves open, and what is no setting.
abbrev pub taken : Config → Config → Config
taken c d = record d {
  environment = record d.environment {
    effective_php_version = c.environment.effective_php_version;
  };
  diagnostics = record d.diagnostics {
    analysis = record d.diagnostics.analysis {
      level = or_level d.diagnostics.analysis.level c.diagnostics.analysis.level;
    };
    exclude = c.diagnostics.exclude;
    overrides = c.diagnostics.overrides;
  };
  storage_path = c.storage_path;
  global_storage_path = c.global_storage_path;
  extension_path = c.extension_path;
  clear_cache = c.clear_cache;
}

-- As before, with what no key with dots says as it is in `c`.
abbrev pub taken_with_dots : Config → Config → Config
taken_with_dots c d = record (taken c d) {
  environment = record (taken c d).environment {
    include_paths = c.environment.include_paths;
    document_root = c.environment.document_root;
  };
  stubs = c.stubs;
}

update-in_sections :
    (c d : Config)
    → update c (member (codes "phpstrom") (section_of (in_sections d)) no_members) ≡ taken c d
unfolding update update_inner get section to_string_slice_setting apply_bool apply_analysis_level
    apply_nested_enable parse_diagnostics_exclude parse_rule_overrides apply_legacy_analysis_toggles
    apply_analysis_map apply_analysis_toggles apply_flattened_analysis_toggles
    apply_environment_config update_environment apply_files_config update_files apply_diagnostics
    update_diagnostics update_completion update_format update_code_lens update_inlay_hints beq
update-in_sections c d = simp (all_texts-texts_of, assign-level_of)

update-with_dots :
    (c d : Config) → update c (members_of (with_dots d) no_members) ≡ taken_with_dots c d
unfolding update update_inner get section to_string_slice_setting apply_bool apply_analysis_level
    apply_nested_enable parse_diagnostics_exclude parse_rule_overrides apply_legacy_analysis_toggles
    apply_analysis_map apply_analysis_toggles apply_flattened_analysis_toggles
    apply_environment_config update_environment apply_files_config update_files apply_diagnostics
    update_diagnostics update_completion update_format update_code_lens update_inlay_hints beq
update-with_dots c d = simp (all_texts-texts_of, assign-level_of)

update-both :
    (c d e : Config)
    → update c (members_of (with_dots d) (members_of (in_sections e) no_members))
      ≡ taken_with_dots (taken c e) d
unfolding update update_inner get section to_string_slice_setting apply_bool apply_analysis_level
    apply_nested_enable parse_diagnostics_exclude parse_rule_overrides apply_legacy_analysis_toggles
    apply_analysis_map apply_analysis_toggles apply_flattened_analysis_toggles
    apply_environment_config update_environment apply_files_config update_files apply_diagnostics
    update_diagnostics update_completion update_format update_code_lens update_inlay_hints beq
update-both c d e = simp (all_texts-texts_of, assign-level_of)

-- A configuration that a client sends is the one that Update leaves, whatever was there before: in the
-- sections of "phpstrom"; in keys with dots, of what these can say; and where keys with dots and
-- sections say different things, the keys with dots decide. The exclusions and the overrides are not
-- sent, and stay.
pub update-sent :
    (c d e : Config)
    → (update c (member (codes "phpstrom") (section_of (in_sections d)) no_members) ≡ taken c d)
      × (update c (members_of (with_dots d) no_members) ≡ taken_with_dots c d)
      × (update c (members_of (with_dots d) (members_of (in_sections e) no_members))
          ≡ taken_with_dots (taken c e) d)
update-sent c d e = (update-in_sections c d, update-with_dots c d, update-both c d e)
