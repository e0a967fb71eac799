-- ===== src/Symfony.antt =====
-- server/indexer/symfony_services.go: the classes of the services of a Symfony container. The XML decoder,
-- the file system, filepath.Glob, sort.Strings and uriToPath are parameters. A Go map is ranged over in
-- the order of its list.
pub mod Aliases
pub mod Classes
mod Tests
use vscode_php_strom.Base.{
  ℕ, zero, suc, Bool, true, false, ◌||◌, Option, none, some, List, [], ◌∷◌, ◌++◌, if◌then◌else◌,
  length,
}
use vscode_php_strom.Dict.{Dict, lookup, insert}
use vscode_php_strom.Text.{Bytes, codes, beq, trim_prefix}
use vscode_php_strom.Exclusions.{contains_code}

pub record SymfonyServiceXml : Type 0 where
  pub id : Bytes
  pub class : Bytes
  pub alias : Bytes
  pub public : Bytes

pub record SymfonyServiceDefinition : Type 0 where
  pub class : Bytes
  pub alias : Bytes
  pub public : Bool

-- What the decoder gives before the end of the file: an error, a `service` element, which may not be
-- decoded, or anything else.
pub data Token : Type 0 where
  failed : Token
  service : Option SymfonyServiceXml → Token
  other : Token

abbrev pub definition_of : SymfonyServiceXml → SymfonyServiceDefinition
unfolding trim_prefix beq
definition_of s = record {
  class = trim_prefix (b'\\' ∷ []) s.class;
  alias = s.alias;
  public = beq s.public (codes "true") || beq s.public (codes "1");
}

-- The loop over the tokens; `none` after an error.
unfoldable pub definitions_loop :
    List Token → Dict SymfonyServiceDefinition → Option (Dict SymfonyServiceDefinition)
unfolding insert
definitions_loop [] definitions = some definitions
definitions_loop (failed ∷ tokens) definitions = none
definitions_loop (other ∷ tokens) definitions = definitions_loop tokens definitions
definitions_loop (service none ∷ tokens) definitions = definitions_loop tokens definitions
definitions_loop (service (some s) ∷ tokens) definitions =
    let skip = definitions_loop tokens definitions in
    let add = definitions_loop tokens (insert s.id (definition_of s) definitions) in
    elim s.id [ [] ↦ skip | c ∷ cs ↦ add ]

-- The chain of aliases; `none` where it ran out of fuel, and "" for no class.
unfoldable pub resolve_loop : ℕ → Bytes → Dict SymfonyServiceDefinition → List Bytes → Option Bytes
unfolding lookup
resolve_loop zero id definitions seen = none
resolve_loop (suc fuel) id definitions seen =
    if contains_code seen id then some [] else elim (lookup id definitions) [
      | none ↦ some []
      | some definition ↦ elim definition.class [
        | c ∷ cs ↦ some (c ∷ cs)
        | [] ↦ elim definition.alias [
          | c ∷ cs ↦ resolve_loop fuel (c ∷ cs) definitions (id ∷ seen)
          | [] ↦ some []
        ]
      ]
    ]

abbrev pub or_no_class : Option Bytes → Bytes
or_no_class none = []
or_no_class (some c) = c

unfoldable pub resolve_symfony_service_class : Bytes → Dict SymfonyServiceDefinition → Bytes
unfolding resolve_loop
resolve_symfony_service_class id definitions =
    or_no_class (resolve_loop (suc (length definitions)) id definitions [])

-- The loop over the definitions that keeps the public ones with a class.
unfoldable pub public_loop :
    Dict SymfonyServiceDefinition → Dict SymfonyServiceDefinition → Dict Bytes
unfolding resolve_symfony_service_class insert
public_loop all [] = []
public_loop all ((id, definition) ∷ definitions) =
    let resolved = public_loop all definitions in
    if definition.public
    then elim (resolve_symfony_service_class id all) [
      | [] ↦ resolved
      | c ∷ cs ↦ insert id (c ∷ cs) resolved
    ]
    else resolved

-- A file that cannot be opened is `none`.
unfoldable pub read_symfony_service_types : Option (List Token) → Dict Bytes
unfolding definitions_loop public_loop
read_symfony_service_types none = []
read_symfony_service_types (some tokens) = elim (definitions_loop tokens []) [
  | none ↦ []
  | some definitions ↦ public_loop definitions definitions
]

-- A class put into the set of the classes of an id, which begins empty.
abbrev pub add_class : Bytes → Option (List Bytes) → List Bytes
add_class c none = c ∷ []
add_class c (some classes) = if contains_code classes c then classes else c ∷ classes

unfoldable pub add_types : Dict Bytes → Dict (List Bytes) → Dict (List Bytes)
unfolding insert lookup
add_types [] candidates = candidates
add_types ((id, class) ∷ types) candidates =
    add_types types (insert id (add_class class (lookup id candidates)) candidates)

-- The class of the ids that have one class only.
unfoldable pub resolve_candidates : Dict (List Bytes) → Dict Bytes
unfolding insert
resolve_candidates [] = []
resolve_candidates ((id, classes) ∷ candidates) =
    let resolved = resolve_candidates candidates in
    elim classes [
      | [] ↦ resolved
      | c ∷ cs ↦ elim cs [ [] ↦ insert id c resolved | d ∷ ds ↦ resolved ]
    ]

module _ (read : Bytes → Option (List Token)) (uri_to_path : Bytes → Bytes)
    (sorted_containers : Bytes → List Bytes) where
  unfoldable pub add_files : List Bytes → Dict (List Bytes) → Dict (List Bytes)
  unfolding add_types read_symfony_service_types
  add_files [] candidates = candidates
  add_files (path ∷ paths) candidates =
      add_files paths (add_types (read_symfony_service_types (read path)) candidates)

  -- The folders are given by their URIs; `sorted_containers` gives the sorted files of a root.
  unfoldable pub add_folders : List Bytes → Dict (List Bytes) → Dict (List Bytes)
  unfolding add_files
  add_folders [] candidates = candidates
  add_folders (uri ∷ folders) candidates =
      let skip = add_folders folders candidates in
      let add = add_folders folders (add_files (sorted_containers (uri_to_path uri)) candidates) in
      elim (uri_to_path uri) [ [] ↦ skip | c ∷ cs ↦ add ]

  unfoldable pub load_symfony_service_types : List Bytes → Dict Bytes
  unfolding add_folders resolve_candidates
  load_symfony_service_types folders = resolve_candidates (add_folders folders [])
