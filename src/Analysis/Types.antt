-- ===== src/Analysis/Types.antt =====
-- server/providers/diagnostics.go: what the analyser is told of a class member, and the template names in
-- a type. The records are those of the analyser, with the fields that are set here.
use vscode_php_strom.Base.{
  ℕ, Bool, ◌&&◌, ◌||◌, Option, none, some, List, [], ◌∷◌, ◌++◌, ◌==◌, leb, if◌then◌else◌, length,
}
use vscode_php_strom.Dict.{Dict, lookup, insert}
use vscode_php_strom.Index.{
  Symbol, SymbolKind, SymbolParam, GenericParent, kind_interface, kind_module, kind_enum,
}
use vscode_php_strom.Text.{Bytes, codes, trim_prefix, trim_suffix}

pub record ResolvedParam : Type 0 where
  pub name : Bytes
  pub type : Bytes
  pub has_default : Bool
  pub is_variadic : Bool

pub record ResolvedMethod : Type 0 where
  pub name : Bytes
  pub declaring_class : Bytes
  pub return_type : Bytes
  pub params : List ResolvedParam
  pub visibility : Bytes
  pub is_static : Bool
  pub is_abstract : Bool

pub record ResolvedFunction : Type 0 where
  pub name : Bytes
  pub return_type : Bytes
  pub params : List ResolvedParam

pub record ResolvedProperty : Type 0 where
  pub name : Bytes
  pub type : Bytes
  pub visibility : Bytes
  pub is_static : Bool
  pub readonly : Bool

pub record ResolvedConstant : Type 0 where
  pub name : Bytes
  pub declaring_class : Bytes
  pub type : Bytes
  pub visibility : Bytes
  pub final : Bool

pub record ResolvedClass : Type 0 where
  pub name : Bytes
  pub extends : List Bytes
  pub implements : List Bytes
  pub traits : List Bytes
  pub kind : Bytes
  pub final : Bool
  pub is_abstract : Bool
  pub readonly : Bool

abbrev pub resolved_params : List SymbolParam → List ResolvedParam
resolved_params [] = []
resolved_params (p ∷ params) =
    record {
      name = p.name;
      type = p.type;
      has_default = p.has_default;
      is_variadic = p.is_variadic;
    }
    ∷ resolved_params params

unfoldable pub declaring_class : Symbol → Bytes
unfolding trim_suffix
declaring_class sym = trim_suffix (codes "::" ++ sym.name) sym.fqn

unfoldable pub resolved_method : Symbol → ResolvedMethod
unfolding declaring_class
resolved_method sym = record {
  name = sym.name;
  declaring_class = declaring_class sym;
  return_type = sym.return_type;
  params = resolved_params sym.params;
  visibility = sym.visibility;
  is_static = sym.is_static;
  is_abstract = sym.is_abstract;
}

unfoldable pub resolved_function : Symbol → ResolvedFunction
resolved_function sym = record {
  name = sym.name;
  return_type = sym.return_type;
  params = resolved_params sym.params;
}

unfoldable pub resolved_property : Symbol → ResolvedProperty
resolved_property sym = record {
  name = sym.name;
  type = sym.type;
  visibility = sym.visibility;
  is_static = sym.is_static;
  readonly = sym.is_readonly;
}

unfoldable pub resolved_constant : Symbol → ResolvedConstant
unfolding declaring_class
resolved_constant sym = record {
  name = sym.name;
  declaring_class = declaring_class sym;
  type = sym.type;
  visibility = sym.visibility;
  final = sym.is_final;
}

unfoldable pub resolved_class_kind : SymbolKind → Bytes
resolved_class_kind kind =
    if kind == kind_interface
    then codes "interface"
    else if kind == kind_module
    then codes "trait"
    else if kind == kind_enum
    then codes "enum"
    else codes "class"

unfoldable pub resolved_class : Symbol → ResolvedClass
unfolding resolved_class_kind
resolved_class sym = record {
  name = sym.fqn;
  extends = sym.extends;
  implements = sym.implements;
  traits = sym.traits;
  kind = resolved_class_kind sym.kind;
  final = sym.is_final;
  is_abstract = sym.is_abstract;
  readonly = sym.is_readonly;
}

unfoldable pub is_generic_identifier_byte : ℕ → Bool
is_generic_identifier_byte value =
    value == b'\\'
    || value == b'_'
    || leb b'0' value && leb value b'9'
    || leb b'A' value && leb value b'Z'
    || leb b'a' value && leb value b'z'
    || leb 0x80 value

-- A token, or what is bound to it.
unfoldable pub bound : Dict Bytes → Bytes → Bytes
unfolding lookup
bound bindings token = elim (lookup token bindings) [
  | none ↦ token
  | some replacement ↦ replacement
]

-- The loop, behind a token that was begun.
unfoldable pub bindings_loop : Dict Bytes → Bytes → Bytes → Bytes
unfolding bound is_generic_identifier_byte
bindings_loop bindings token [] = elim token [ [] ↦ [] | t ∷ ts ↦ bound bindings (t ∷ ts) ]
bindings_loop bindings token (c ∷ raw) =
    let inside = is_generic_identifier_byte c in
    let rest = bindings_loop bindings (if inside then token ++ c ∷ [] else []) raw in
    let before : Bytes = elim token [ [] ↦ [] | t ∷ ts ↦ bound bindings (t ∷ ts) ] in
    if inside then rest else before ++ c ∷ rest

unfoldable pub apply_template_bindings : Bytes → Dict Bytes → Bytes
unfolding bindings_loop
apply_template_bindings raw bindings =
    if length raw == 0 || length bindings == 0 then raw else bindings_loop bindings [] raw

-- The templates with the type arguments that are there for them.
unfoldable pub bind_templates : List Bytes → List Bytes → Dict Bytes → Dict Bytes
unfolding insert
bind_templates [] arguments bindings = bindings
bind_templates (template ∷ templates) [] bindings = bindings
bind_templates (template ∷ templates) (argument ∷ arguments) bindings =
    bind_templates templates arguments (insert template argument bindings)

-- The same with the bindings of a class put into the arguments.
unfoldable pub apply_all : Dict Bytes → List Bytes → List Bytes
unfolding apply_template_bindings
apply_all bindings [] = []
apply_all bindings (argument ∷ arguments) =
    apply_template_bindings argument bindings ∷ apply_all bindings arguments

unfoldable pub bind_param_types : Dict Bytes → List ResolvedParam → List ResolvedParam
unfolding apply_template_bindings
bind_param_types bindings [] = []
bind_param_types bindings (p ∷ params) =
    record p { type = apply_template_bindings p.type bindings } ∷ bind_param_types bindings params

module _ (equal_fold : Bytes → Bytes → Bool) where
  unfoldable pub find_relation : List GenericParent → Bytes → Option GenericParent
  unfolding trim_prefix
  find_relation [] parent_name = none
  find_relation (relation ∷ relations) parent_name =
      let later = find_relation relations parent_name in
      if equal_fold (trim_prefix (b'\\' ∷ []) relation.fqn) (trim_prefix (b'\\' ∷ []) parent_name)
      then some relation
      else later

  unfoldable pub generic_parent_relation : Symbol → Bytes → Option GenericParent
  unfolding find_relation
  generic_parent_relation class_sym parent_name =
      find_relation class_sym.generic_parents parent_name
