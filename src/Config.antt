-- ===== src/Config.antt =====
-- server/phpstrom/config.go: the settings that the client sends, decoded JSON, and what is read from them.
-- A float64 and the integer types are the integer that the conversion int64 gives.
pub mod Toggles
pub mod Sections
pub mod Update
pub mod Sent
pub mod RoundTrip
mod Tests
use vscode_php_strom.Base.{
  ℕ, Bool, true, false, Option, none, some, List, [], ◌∷◌, ◌++◌, if◌then◌else◌,
}
use vscode_php_strom.Dict.{Dict, insert}
use vscode_php_strom.Server.Number.{ℤ, pos, negsuc}
use vscode_php_strom.Text.{Bytes, codes, beq}

-- The types of an interface{} that the code looks at. `string_list` and `string_lists` are the Go types
-- []string and map[string][]string, which only Go code passes.
mutual
  pub data Value : Type 0 where
    null : Value
    bool : Bool → Value
    number : ℤ → Value
    text : Bytes → Value
    array : Values → Value
    object : Members → Value
    string_list : List Bytes → Value
    string_lists : Dict (List Bytes) → Value

  pub data Values : Type 0 where
    no_values : Values
    value : Value → Values → Values

  pub data Members : Type 0 where
    no_members : Members
    member : Bytes → Value → Members → Members

-- `settings[key]`, with `null` for a missing key.
unfoldable pub get : Members → Bytes → Value
unfolding beq
get no_members key = null
get (member k v members) key = let rest = get members key in if beq k key then v else rest

abbrev pub as_bool : Value → Option Bool
as_bool (bool b) = some b
as_bool _ = none

abbrev pub as_text : Value → Option Bytes
as_text (text s) = some s
as_text _ = none

abbrev pub as_object : Value → Option Members
as_object (object m) = some m
as_object _ = none

-- toInt64
abbrev pub to_int64 : Value → Option ℤ
to_int64 (number n) = some n
to_int64 _ = none

-- The texts of an array, if all of its values are.
unfoldable pub all_texts : Values → Option (List Bytes)
all_texts no_values = some []
all_texts (value v values) =
    let rest = all_texts values in
    elim (as_text v) [
      | none ↦ none
      | some s ↦ elim rest [ none ↦ none | some texts ↦ some (s ∷ texts) ]
    ]

unfoldable pub to_string_slice_setting : Value → Option (List Bytes)
unfolding all_texts
to_string_slice_setting (array values) = all_texts values
to_string_slice_setting (string_list texts) = some texts
to_string_slice_setting _ = none

-- The texts among the values of an array.
unfoldable pub texts_among : Values → List Bytes
texts_among no_values = []
texts_among (value v values) =
    let rest = texts_among values in elim (as_text v) [ none ↦ rest | some s ↦ s ∷ rest ]

unfoldable pub to_string_slice : Value → List Bytes
unfolding texts_among
to_string_slice (array values) = texts_among values
to_string_slice (string_list texts) = texts
to_string_slice _ = []

-- A pattern whose codes are no list of texts is left out.
unfoldable pub exclude_members : Members → Dict (List Bytes)
unfolding to_string_slice_setting insert
exclude_members no_members = []
exclude_members (member pattern raw members) =
    let rest = exclude_members members in
    elim (to_string_slice_setting raw) [ none ↦ rest | some codes ↦ insert pattern codes rest ]

unfoldable pub parse_diagnostics_exclude : Value → Option (Dict (List Bytes))
unfolding exclude_members
parse_diagnostics_exclude (object members) = some (exclude_members members)
parse_diagnostics_exclude (string_lists lists) = some lists
parse_diagnostics_exclude _ = none

-- The classes of each rule; a rule that is no object is left out.
unfoldable pub override_members : Members → Dict (List Bytes)
unfolding to_string_slice insert get
override_members no_members = []
override_members (member code raw members) =
    let rest = override_members members in
    elim (as_object raw) [
      | none ↦ rest
      | some override ↦ insert code (to_string_slice (get override (codes "classes"))) rest
    ]

unfoldable pub parse_rule_overrides : Value → Option (Dict (List Bytes))
unfolding override_members
parse_rule_overrides (object members) = some (override_members members)
parse_rule_overrides _ = none

-- An assignment that is made only if a setting is there and has the right type.
abbrev pub assign {ℓ} : {A : Type ℓ} → A → Option A → A
assign old none = old
assign old (some v) = v

unfoldable pub apply_bool : Bool → Value → Bool
apply_bool dst raw = assign dst (as_bool raw)

-- A section of the settings, if it is an object; nothing is set by one that is not there.
unfoldable pub section : Members → Bytes → Members
unfolding get
section settings key = elim (as_object (get settings key)) [ none ↦ no_members | some m ↦ m ]

-- A level that is set, which is not negative.
abbrev pub as_level : Option ℤ → Option (Option ℕ)
as_level none = none
as_level (some (negsuc n)) = none
as_level (some (pos n)) = some (some n)

unfoldable pub apply_analysis_level : Option ℕ → Value → Option ℕ
apply_analysis_level dst raw = assign dst (as_level (to_int64 raw))

unfoldable pub apply_nested_enable : Bool → Members → Bytes → Bytes → Bool
unfolding apply_bool section get
apply_nested_enable dst settings name key =
    let nested = section settings name in
    let item = apply_bool dst (get (section nested key) (codes "enable")) in
    let dotted = apply_bool item (get nested (key ++ codes ".enable")) in
    apply_bool dotted (get settings (name ++ b'.' ∷ (key ++ codes ".enable")))
