-- ===== src/Config/Tests.antt =====
-- Runs of server/phpstrom/config.go at concrete inputs.
use vscode_php_strom.Base.{◌≡◌, refl, false, [], ◌∷◌}
use vscode_php_strom.Server.Number.{pos}
use vscode_php_strom.Text.{beq, codes}
use vscode_php_strom.Config.{Members, number, object, no_members, member, get, section, apply_bool}
use vscode_php_strom.Config.Sections.{update_format}
use vscode_php_strom.Config.Update.{Config, default_config, update, update_inner}
use vscode_php_strom.Config.Sent.{in_sections, with_dots, members_of, section_of}
use vscode_php_strom.Config.RoundTrip.{taken, taken_with_dots, update-sent}
use vscode_php_strom.Config.Toggles.{default_analysis_toggles}

-- A section and a key with dots that disagree.
abbrev settings : Members
settings =
    member (codes "format") (object (member (codes "tabSize") (number (pos 2)) no_members))
      (member (codes "format.tabSize") (number (pos 8)) no_members)

dotted_key_run : (update default_config settings).format.tab_size ≡ pos 8
unfolding update update_inner update_format get section apply_bool beq default_config
dotted_key_run = refl

-- What another client sends.
abbrev other_config : Config
unfolding default_config default_analysis_toggles
other_config = record default_config {
  format = record { brace_style = codes "psr12"; insert_spaces = false; tab_size = pos 2 };
  stubs = codes "Core" ∷ [];
}

update-sent_example :
    (update default_config
        (member (codes "phpstrom") (section_of (in_sections other_config)) no_members)
      ≡ taken default_config other_config)
    × (update default_config (members_of (with_dots other_config) no_members)
        ≡ taken_with_dots default_config other_config)
    × (update default_config
          (members_of (with_dots other_config) (members_of (in_sections default_config) no_members))
        ≡ taken_with_dots (taken default_config default_config) other_config)
update-sent_example = update-sent default_config other_config default_config
