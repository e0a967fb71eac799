-- ===== src/Analysis/Lineage.antt =====
-- server/providers/diagnostics.go: the classes that a class inherits from, and the members that it has from
-- them. The recursions have fuel, and `none` stands for the lack of it.
use vscode_php_strom.Base.{
  ℕ, zero, suc, Bool, Option, none, some, List, [], ◌∷◌, ◌++◌, if◌then◌else◌,
}
use vscode_php_strom.Dict.{Dict}
use vscode_php_strom.Exclusions.{contains_code}
use vscode_php_strom.Index.{Index, Symbol}
use vscode_php_strom.Text.{Bytes, trim_prefix}
use vscode_php_strom.Analysis.Types.{
  ResolvedMethod, ResolvedProperty, ResolvedConstant, apply_template_bindings, bind_templates,
  apply_all, bind_param_types, generic_parent_relation,
}
use vscode_php_strom.Analysis.Resolver.{
  resolve_class_symbol, resolve_direct_method, resolve_own_constant, resolve_direct_property,
}

-- The keys that were seen, and the names in the order in which they were found.
abbrev pub State : Type 0
State = List Bytes × List Bytes

-- The recursive function for one name after another.
unfoldable pub walk_each : (Bytes → State → Option State) → List Bytes → State → Option State
walk_each f [] state = some state
walk_each f (name ∷ names) state = elim (f name state) [
  | none ↦ none
  | some next ↦ walk_each f names next
]

-- The first result for one name after another, which may be none.
unfoldable pub first_found {ℓ} :
    {A : Type ℓ} → (Bytes → Option (Option A)) → List Bytes → Option (Option A)
first_found f [] = some none
first_found f (name ∷ names) = elim (f name) [
  | none ↦ none
  | some found ↦ elim found [ some r ↦ some (some r) | none ↦ first_found f names ]
]

-- The first result for one name after another.
abbrev pub first_some {ℓ} : {A : Type ℓ} → (Bytes → Option A) → List Bytes → Option A
first_some f [] = none
first_some f (name ∷ names) = elim (f name) [ none ↦ first_some f names | some r ↦ some r ]

abbrev pub parents : Symbol → List Bytes
parents s = s.extends ++ (s.implements ++ s.traits)

module _ (lower trim_space : Bytes → Bytes) where
  unfoldable pub lineage_key : Bytes → Bytes
  unfolding trim_prefix
  lineage_key name = lower (trim_prefix (b'\\' ∷ []) (trim_space name))

-- A visit of a name with a key, which is left out for the key "" and for one that was seen.
unfoldable pub visit_once : Bytes → State → Option State → Option State
visit_once [] state visited = some state
visit_once (c ∷ cs) state visited = if contains_code state.0 (c ∷ cs) then some state else visited

module _ (lower trim_space : Bytes → Bytes) (equal_fold : Bytes → Bytes → Bool)
    (sort_stable : (Symbol → Symbol → Bool) → List Symbol → List Symbol) (idx : Index) where
  -- None for a name that is no class.
  unfoldable pub parents_of : Bytes → List Bytes
  unfolding resolve_class_symbol
  parents_of name = elim (resolve_class_symbol lower trim_space equal_fold sort_stable idx name) [
    | none ↦ []
    | some s ↦ parents s
  ]

  unfoldable pub walk : ℕ → Bytes → State → Option State
  unfolding visit_once walk_each parents_of lineage_key
  walk zero name state = none
  walk (suc fuel) name state =
      let key = lineage_key lower trim_space name in
      visit_once key state
        (walk_each (walk fuel) (parents_of name) (key ∷ state.0, state.1 ++ name ∷ []))

  unfoldable pub class_lineage : ℕ → Bytes → Option (List Bytes)
  unfolding walk
  class_lineage fuel class_name = elim (walk fuel class_name ([], [])) [
    | none ↦ none
    | some state ↦ some state.1
  ]

  unfoldable pub resolve_property : ℕ → Bytes → Bytes → Option (Option ResolvedProperty)
  unfolding class_lineage resolve_direct_property
  resolve_property fuel class_name property_name = elim (class_lineage fuel class_name) [
    | none ↦ none
    | some lineage ↦ some (
        first_some
          (λ candidate.
            resolve_direct_property lower trim_space equal_fold sort_stable idx candidate
              property_name)
          lineage)
  ]

  unfoldable pub resolve_constant : ℕ → Bytes → Bytes → Option (Option ResolvedConstant)
  unfolding class_lineage resolve_own_constant
  resolve_constant fuel class_name constant_name = elim (class_lineage fuel class_name) [
    | none ↦ none
    | some lineage ↦ some (
        first_some
          (λ candidate.
            resolve_own_constant lower trim_space equal_fold sort_stable idx candidate
              constant_name)
          lineage)
  ]

  -- The bindings of a parent, where the class gives it type arguments.
  unfoldable pub parent_bindings : Symbol → Symbol → Bytes → Dict Bytes → Dict Bytes
  unfolding generic_parent_relation bind_templates apply_all
  parent_bindings class_sym parent_sym parent_name bindings =
      elim (generic_parent_relation equal_fold class_sym parent_name) [
        | none ↦ []
        | some relation ↦
            bind_templates parent_sym.templates (apply_all bindings relation.type_arguments) []
      ]

  -- The types of a method with the bindings put in.
  unfoldable pub bind_method : Dict Bytes → ResolvedMethod → ResolvedMethod
  unfolding apply_template_bindings bind_param_types
  bind_method bindings method = record method {
    return_type = apply_template_bindings method.return_type bindings;
    params = bind_param_types bindings method.params;
  }

  -- `seen` are the classes on the way, which the deferred delete takes out again.
  unfoldable pub resolve_method_with_templates :
      ℕ → Bytes → Bytes → Dict Bytes → List Bytes → Option (Option ResolvedMethod)
  unfolding resolve_class_symbol resolve_direct_method parent_bindings bind_method first_found
      trim_prefix
  resolve_method_with_templates zero class_name method_name bindings seen = none
  resolve_method_with_templates (suc fuel) class_name method_name bindings seen =
      elim (resolve_class_symbol lower trim_space equal_fold sort_stable idx class_name) [
        | none ↦ some none
        | some class_sym ↦
            let key = lower (trim_prefix (b'\\' ∷ []) class_sym.fqn) in
            if contains_code seen key
            then some none
            else elim (resolve_direct_method lower trim_space equal_fold sort_stable idx
                class_sym.fqn method_name) [
                  | some method ↦ some (some (bind_method bindings method))
                  | none ↦
                      first_found
                        (λ parent_name.
                          elim (resolve_class_symbol lower trim_space equal_fold sort_stable idx
                            parent_name) [
                              | none ↦ some none
                              | some parent_sym ↦
                                  resolve_method_with_templates fuel parent_sym.fqn method_name
                                    (parent_bindings class_sym parent_sym parent_name bindings)
                                    (key ∷ seen)
                            ])
                        (parents class_sym)
                ]
      ]

  unfoldable pub resolve_method : ℕ → Bytes → Bytes → Option (Option ResolvedMethod)
  unfolding resolve_method_with_templates
  resolve_method fuel class_name method_name =
      resolve_method_with_templates fuel class_name method_name [] []

  unfoldable pub resolve_method_with_generics :
      ℕ → Bytes → Bytes → List Bytes → Option (Option ResolvedMethod)
  unfolding resolve_class_symbol resolve_method_with_templates bind_templates
  resolve_method_with_generics fuel class_name method_name type_arguments =
      elim (resolve_class_symbol lower trim_space equal_fold sort_stable idx class_name) [
        | none ↦ some none
        | some class_sym ↦
            resolve_method_with_templates fuel class_name method_name
              (bind_templates class_sym.templates type_arguments []) []
      ]
