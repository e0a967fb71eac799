-- ===== src/Signature/Tests.antt =====
-- Runs of server/providers/signature_help.go at concrete inputs.
use vscode_php_strom.Base.{◌≡◌, refl, arith, true, false, [], ◌∷◌, ◌++◌}
use vscode_php_strom.Index.{Symbol, SymbolParam, kind_function}
use vscode_php_strom.Lsp.{SignatureInformation}
use vscode_php_strom.Text.{Bytes, codes, has_suffix}
use vscode_php_strom.Signature.{
  extract_callee, trim_right, is_ident_char, find_loop, find_callee_and_param,
  signature_information, build_signature_help, clamp_active, label_loop, render_param,
}
use vscode_php_strom.Signature.Callee.{Balanced, Arguments, find_callee_and_param-Arguments}
use vscode_php_strom.Signature.Label.{cut_all, render_all, build_signature_help-cuts}

abbrev param : Bytes → SymbolParam
param name = record {
  name = name;
  type = codes "int";
  type_fqn = [];
  has_default = false;
  is_variadic = true;
  is_pass_by_ref = false;
}

abbrev function : Symbol
function = record {
  fqn = codes "\\f";
  name = codes "f";
  kind = kind_function;
  namespace = [];
  uri = codes "u";
  start_line = 0;
  start_char = 0;
  end_line = 0;
  end_char = 0;
  extends = [];
  implements = [];
  traits = [];
  templates = [];
  generic_parents = [];
  doc_comment = [];
  return_type = codes "int";
  type = [];
  params = param (codes "a") ∷ param (codes "b") ∷ [];
  type_fqn = [];
  is_static = false;
  is_abstract = false;
  is_final = false;
  is_readonly = false;
  visibility = [];
  set_visibility = [];
}

abbrev signature : SignatureInformation
signature = signature_information function 1

build_signature_help-cuts_example :
    cut_all signature.label signature.parameters ≡ render_all function.params
unfolding build_signature_help clamp_active signature_information label_loop render_param
build_signature_help-cuts_example =
    build_signature_help-cuts function 5 signature refl (omega arith)

-- The second argument is named.
find_callee_and_param-Arguments_example :
    find_callee_and_param (codes "x = f" ++ b'(' ∷ codes "(2),b:1") ≡ (codes "f", 1)
unfolding extract_callee trim_right is_ident_char has_suffix
find_callee_and_param-Arguments_example =
    find_callee_and_param-Arguments (codes "x = f") b'f' [] refl (
      Arguments.char b'1' refl refl (
        Arguments.colon (
          Arguments.char b'b' refl refl (
            Arguments.comma
              (Arguments.group Arguments.start (Balanced.char b'2' refl Balanced.empty))))))

-- A closed array before the cursor hides the call that it is an argument of.
hidden_call : find_callee_and_param (codes "f([1],") ≡ ([], 0)
unfolding find_callee_and_param find_loop extract_callee trim_right is_ident_char has_suffix
hidden_call = refl
