-- ===== src/Analysis/Resolver.antt =====
-- server/providers/diagnostics.go: workspaceSymbolResolver, which looks up names in the store for the
-- analyser. strings.ToLower, strings.TrimSpace, strings.EqualFold and sort.SliceStable are parameters.
use vscode_php_strom.Base.{
  Bool, true, false, not, ◌&&◌, Option, none, some, List, [], ◌∷◌, ◌++◌, ◌==◌, if◌then◌else◌,
  length,
}
use vscode_php_strom.Index.{
  Index, Symbol, SymbolKind, kind_interface, kind_method, kind_property, kind_constant,
  kind_function,
}
use vscode_php_strom.Index.Queries.{get_by_fqn, get_by_name, member_by_owner}
use vscode_php_strom.Text.{Bytes, codes, beq, trim_prefix}
use vscode_php_strom.Ignore.Parse.{has_byte}
use vscode_php_strom.Analysis.Types.{
  ResolvedMethod, ResolvedFunction, ResolvedProperty, ResolvedConstant, ResolvedClass,
  resolved_method, resolved_function, resolved_property, resolved_constant, resolved_class,
}
use vscode_php_strom.Analysis.Ranking.{
  is_class_like_kind, ensure_leading_slash, unqualified_name, prioritize_definition_matches,
}

module _ (trim_space : Bytes → Bytes) where
  -- The second candidate only if it is another one.
  unfoldable pub resolve_workspace_type_candidates : Bytes → List Bytes
  unfolding ensure_leading_slash trim_prefix beq
  resolve_workspace_type_candidates given = elim (trim_space given) [
    | [] ↦ []
    | c ∷ cs ↦
        let first = ensure_leading_slash (c ∷ cs) in
        let second = ensure_leading_slash (trim_prefix (b'\\' ∷ []) (c ∷ cs)) in
        if beq first second then first ∷ [] else first ∷ second ∷ []
  ]

-- The first candidate whose symbol passes a test.
unfoldable pub first_by_fqn : (SymbolKind → Bool) → Index → List Bytes → Option Symbol
unfolding get_by_fqn
first_by_fqn f idx [] = none
first_by_fqn f idx (candidate ∷ candidates) =
    let later = first_by_fqn f idx candidates in
    elim (get_by_fqn idx candidate) [
      | none ↦ later
      | some sym ↦ if f sym.kind then some sym else later
    ]

module _ (equal_fold : Bytes → Bytes → Bool) where
  -- The first symbol of a kind with the name.
  abbrev pub first_named : (SymbolKind → Bool) → Bytes → List Symbol → Option Symbol
  first_named f lookup [] = none
  first_named f lookup (sym ∷ symbols) =
      if f sym.kind && equal_fold sym.name lookup then some sym else first_named f lookup symbols

module _ (lower trim_space : Bytes → Bytes) (equal_fold : Bytes → Bytes → Bool)
    (sort_stable : (Symbol → Symbol → Bool) → List Symbol → List Symbol) (idx : Index) where
  unfoldable pub resolve_class_symbol : Bytes → Option Symbol
  unfolding first_by_fqn resolve_workspace_type_candidates is_class_like_kind unqualified_name
      prioritize_definition_matches get_by_name
  resolve_class_symbol name =
      elim (first_by_fqn is_class_like_kind idx
        (resolve_workspace_type_candidates trim_space name)) [
          | some sym ↦ some sym
          | none ↦ if has_byte b'\\' name then none else elim (unqualified_name name) [
            | [] ↦ none
            | c ∷ cs ↦ first_named equal_fold is_class_like_kind (c ∷ cs) (
                prioritize_definition_matches lower sort_stable (get_by_name lower idx (c ∷ cs))
                  (c ∷ cs) 0)
          ]
        ]

  unfoldable pub class_exists : Bytes → Bool
  unfolding resolve_class_symbol
  class_exists name = elim (resolve_class_symbol name) [ none ↦ false | some sym ↦ true ]

  unfoldable pub resolve_class : Bytes → Option ResolvedClass
  unfolding resolve_class_symbol resolved_class
  resolve_class name = elim (resolve_class_symbol name) [
    | none ↦ none
    | some sym ↦ some (resolved_class sym)
  ]

  unfoldable pub resolve_function : Bytes → Option ResolvedFunction
  unfolding first_by_fqn resolve_workspace_type_candidates unqualified_name get_by_name
      resolved_function
  resolve_function name =
      let is_function : SymbolKind → Bool = λ kind. kind == kind_function in
      elim (first_by_fqn is_function idx (resolve_workspace_type_candidates trim_space name)) [
        | some sym ↦ some (resolved_function sym)
        | none ↦
            if has_byte b'\\' name
            then none
            else elim (first_named equal_fold is_function (unqualified_name name)
                (get_by_name lower idx (unqualified_name name))) [
                  | none ↦ none
                  | some sym ↦ some (resolved_function sym)
                ]
      ]

  unfoldable pub function_exists : Bytes → Bool
  unfolding resolve_function
  function_exists name = elim (resolve_function name) [
    | none ↦ false
    | some fn ↦ not (length fn.name == 0)
  ]

  unfoldable pub constant_exists : Bytes → Bool
  unfolding first_by_fqn resolve_workspace_type_candidates unqualified_name get_by_name
  constant_exists name =
      let is_constant : SymbolKind → Bool = λ kind. kind == kind_constant in
      elim (first_by_fqn is_constant idx (resolve_workspace_type_candidates trim_space name)) [
        | some sym ↦ true
        | none ↦
            elim (first_named equal_fold is_constant (unqualified_name name)
              (get_by_name lower idx (unqualified_name name))) [ none ↦ false | some sym ↦ true ]
      ]

  -- The member of a class: by its full name, or by the name in any letters.
  unfoldable pub direct_member : Symbol → Bytes → Bytes → SymbolKind → Option Symbol
  unfolding get_by_fqn member_by_owner
  direct_member class_sym separator name kind =
      let by_owner = member_by_owner lower equal_fold idx class_sym.fqn name kind in
      elim (get_by_fqn idx (class_sym.fqn ++ (separator ++ name))) [
        | none ↦ by_owner
        | some sym ↦ if sym.kind == kind then some sym else by_owner
      ]

  -- A method of an interface is abstract.
  abbrev pub method_of : Symbol → Symbol → ResolvedMethod
  unfolding resolved_method
  method_of class_sym sym =
      if class_sym.kind == kind_interface
      then record (resolved_method sym) { is_abstract = true }
      else resolved_method sym

  unfoldable pub resolve_direct_method : Bytes → Bytes → Option ResolvedMethod
  unfolding resolve_class_symbol direct_member method_of
  resolve_direct_method class_name method_name = elim (resolve_class_symbol class_name) [
    | none ↦ none
    | some class_sym ↦ elim (direct_member class_sym (codes "::") method_name kind_method) [
      | none ↦ none
      | some sym ↦ some (method_of class_sym sym)
    ]
  ]

  unfoldable pub resolve_own_constant : Bytes → Bytes → Option ResolvedConstant
  unfolding resolve_class_symbol direct_member resolved_constant
  resolve_own_constant class_name constant_name = elim (resolve_class_symbol class_name) [
    | none ↦ none
    | some class_sym ↦ elim (direct_member class_sym (codes "::") constant_name kind_constant) [
      | none ↦ none
      | some sym ↦ some (resolved_constant sym)
    ]
  ]

  unfoldable pub resolve_direct_property : Bytes → Bytes → Option ResolvedProperty
  unfolding resolve_class_symbol direct_member resolved_property
  resolve_direct_property class_name property_name = elim (resolve_class_symbol class_name) [
    | none ↦ none
    | some class_sym ↦ elim (direct_member class_sym (codes "::$") property_name kind_property) [
      | none ↦ none
      | some sym ↦ some (resolved_property sym)
    ]
  ]
