-- ===== src/Symfony/Classes.antt =====
-- server/indexer/symfony_services.go: loadSymfonyServiceTypes against the services of all files.
use vscode_php_strom.Base.{
  ◌≡◌, refl, ap, sym, ◌∙◌, Bool, true, false, ◌&&◌, Option, none, some, List, [], ◌∷◌, ◌++◌, arith,
  if◌then◌else◌, inl, inr, Bool-cases, List-cases,
}
use vscode_php_strom.Dict.{Dict, lookup, insert, lookup-insert}
use vscode_php_strom.Text.{Bytes, beq, beq_iff, beq_refl}
use vscode_php_strom.Exclusions.{contains_code}
use vscode_php_strom.Symfony.{
  Token, read_symfony_service_types, add_class, add_types, add_files, add_folders,
  resolve_candidates, load_symfony_service_types,
}

-- The class of the first service with the id.
abbrev pub first_class : Bytes → Dict Bytes → Option Bytes
first_class id [] = none
first_class id ((j, c) ∷ services) = if beq j id then some c else first_class id services

-- Every service with the id has the class.
abbrev pub all_have : Bytes → Bytes → Dict Bytes → Bool
all_have id c [] = true
all_have id c ((j, d) ∷ services) = (if beq j id then beq c d else true) && all_have id c services

-- The class that all the services with the id have, if there are any and they agree.
abbrev pub agreed_class : Bytes → Dict Bytes → Option Bytes
agreed_class id services = elim (first_class id services) [
  | none ↦ none
  | some c ↦ if all_have id c services then some c else none
]

-- The class of a set of one class.
abbrev single : Option (List Bytes) → Option Bytes
single none = none
single (some []) = none
single (some (c ∷ [])) = some c
single (some (c ∷ d ∷ ds)) = none

-- The classes of one id after some services more.
abbrev classes_after : Bytes → Dict Bytes → Option (List Bytes) → Option (List Bytes)
classes_after id [] classes = classes
classes_after id ((j, c) ∷ services) classes =
    classes_after id services (if beq j id then some (add_class c classes) else classes)

lookup-add_types :
    (types : Dict Bytes) (candidates : Dict (List Bytes)) (id : Bytes)
    → lookup id (add_types types candidates) ≡ classes_after id types (lookup id candidates)
unfolding add_types
lookup-add_types [] candidates id = refl
lookup-add_types ((j, c) ∷ types) candidates id =
    lookup-add_types types (insert j (add_class c (lookup j candidates)) candidates) id
    ∙ ap (classes_after id types)
        (lookup-insert j id (add_class c (lookup j candidates)) candidates ∙ same)
  where
    same :
        (if beq j id then some (add_class c (lookup j candidates)) else lookup id candidates)
        ≡ (if beq j id then some (add_class c (lookup id candidates)) else lookup id candidates)
    same = elim (Bool-cases (beq j id)) [
      | inl e ↦
          ap
            (λ k.
              if beq j id then some (add_class c (lookup k candidates)) else lookup id candidates)
            ((beq_iff j id).0 e)
      | inr e ↦ rw e refl
    ]

classes_after-append :
    (id : Bytes) (a b : Dict Bytes) (classes : Option (List Bytes))
    → classes_after id (a ++ b) classes ≡ classes_after id b (classes_after id a classes)
classes_after-append id [] b classes = refl
classes_after-append id ((j, c) ∷ a) b classes =
    classes_after-append id a b (if beq j id then some (add_class c classes) else classes)

single-many :
    (id : Bytes) (services : Dict Bytes) (c d : Bytes) (ds : List Bytes)
    → single (classes_after id services (some (c ∷ d ∷ ds))) ≡ none
single-many id [] c d ds = refl
single-many id ((j, e) ∷ services) c d ds = elim (Bool-cases (beq j id)) [
  | inr f ↦ rw f (single-many id services c d ds)
  | inl f ↦ elim (Bool-cases (contains_code (c ∷ d ∷ ds) e)) [
    | inl g ↦ rw (f, g) (single-many id services c d ds)
    | inr g ↦ rw (f, g) (single-many id services e c (d ∷ ds))
  ]
]

single-one :
    (id : Bytes) (services : Dict Bytes) (c : Bytes)
    → single (classes_after id services (some (c ∷ [])))
      ≡ (if all_have id c services then some c else none)
single-one id [] c = refl
single-one id ((j, e) ∷ services) c = elim (Bool-cases (beq j id)) [
  | inr f ↦ rw f (single-one id services c)
  | inl f ↦ elim (Bool-cases (beq c e)) [
    | inl g ↦ rw (f, g) (single-one id services c)
    | inr g ↦ rw (f, g) (single-many id services e c [])
  ]
]

single-none :
    (id : Bytes) (services : Dict Bytes)
    → single (classes_after id services none) ≡ agreed_class id services
single-none id [] = refl
single-none id ((j, e) ∷ services) = elim (Bool-cases (beq j id)) [
  | inr f ↦ ground (arith, f, single-none id services)
  | inl f ↦ ground (arith, f, beq_refl e, single-one id services e)
]

-- The keys of the candidates are distinct.
abbrev is_distinct : Dict (List Bytes) → Bool
is_distinct [] = true
is_distinct ((id, classes) ∷ candidates) =
    elim (lookup id candidates) [ none ↦ true | some _ ↦ false ] && is_distinct candidates

is_distinct-insert :
    (id : Bytes) (classes : List Bytes) (candidates : Dict (List Bytes))
    → is_distinct candidates ≡ true
    → is_distinct (insert id classes candidates) ≡ true
unfolding insert lookup
is_distinct-insert id classes [] h = refl
is_distinct-insert id classes ((j, w) ∷ candidates) h = ground (
  arith,
  h,
  is_distinct-insert id classes candidates,
  lookup-insert id j classes candidates,
  beq_iff id j,
  beq_iff j id,
)

is_distinct-add_types :
    (types : Dict Bytes) (candidates : Dict (List Bytes))
    → is_distinct candidates ≡ true
    → is_distinct (add_types types candidates) ≡ true
unfolding add_types
is_distinct-add_types [] candidates h = h
is_distinct-add_types ((j, c) ∷ types) candidates h =
    is_distinct-add_types types (insert j (add_class c (lookup j candidates)) candidates)
      (is_distinct-insert j (add_class c (lookup j candidates)) candidates h)

lookup-resolve_candidates :
    (candidates : Dict (List Bytes)) (id : Bytes)
    → is_distinct candidates ≡ true
    → lookup id (resolve_candidates candidates) ≡ single (lookup id candidates)
unfolding resolve_candidates lookup
lookup-resolve_candidates [] id h = refl
lookup-resolve_candidates ((j, []) ∷ candidates) id h =
    ground (arith, h, lookup-resolve_candidates candidates id, beq_iff j id)
lookup-resolve_candidates ((j, c ∷ []) ∷ candidates) id h = ground (
  arith,
  h,
  lookup-resolve_candidates candidates id,
  lookup-insert j id c (resolve_candidates candidates),
)
lookup-resolve_candidates ((j, c ∷ d ∷ ds) ∷ candidates) id h =
    ground (arith, h, lookup-resolve_candidates candidates id, beq_iff j id)

module _ (read : Bytes → Option (List Token)) (uri_to_path : Bytes → Bytes)
    (sorted_containers : Bytes → List Bytes) where
  -- The services of the files of all folders, in their order.
  abbrev pub services_of_files : List Bytes → Dict Bytes
  services_of_files [] = []
  services_of_files (path ∷ paths) =
      read_symfony_service_types (read path) ++ services_of_files paths

  abbrev pub services_of_folders : List Bytes → Dict Bytes
  services_of_folders [] = []
  services_of_folders (uri ∷ folders) = elim (uri_to_path uri) [
    | [] ↦ services_of_folders folders
    | c ∷ cs ↦ services_of_files (sorted_containers (c ∷ cs)) ++ services_of_folders folders
  ]

  add_files_lem :
      (paths : List Bytes) (candidates : Dict (List Bytes)) (id : Bytes)
      → is_distinct candidates ≡ true
      → (lookup id (add_files read uri_to_path sorted_containers paths candidates)
          ≡ classes_after id (services_of_files paths) (lookup id candidates))
        × (is_distinct (add_files read uri_to_path sorted_containers paths candidates) ≡ true)
  unfolding add_files
  add_files_lem [] candidates id h = (refl, h)
  add_files_lem (path ∷ paths) candidates id h =
      let types = read_symfony_service_types (read path) in
      let (found, distinct) =
        add_files_lem paths (add_types types candidates) id
          (is_distinct-add_types types candidates h) in
      (
        found
            ∙ ap (classes_after id (services_of_files paths)) (lookup-add_types types candidates id)
            ∙ sym (classes_after-append id types (services_of_files paths) (lookup id candidates)),
        distinct,
      )

  add_folders_lem :
      (folders : List Bytes) (candidates : Dict (List Bytes)) (id : Bytes)
      → is_distinct candidates ≡ true
      → (lookup id (add_folders read uri_to_path sorted_containers folders candidates)
          ≡ classes_after id (services_of_folders folders) (lookup id candidates))
        × (is_distinct (add_folders read uri_to_path sorted_containers folders candidates) ≡ true)
  unfolding add_folders
  add_folders_lem [] candidates id h = (refl, h)
  add_folders_lem (uri ∷ folders) candidates id h = elim (List-cases (uri_to_path uri)) [
    | inl e ↦
        rw (e, add_folders)
          (rw (e, classes_after, services_of_folders) (add_folders_lem folders candidates id h))
    | inr (c, cs, e) ↦
        let files = sorted_containers (c ∷ cs) in
        let (found, distinct) = add_files_lem files candidates id h in
        let (later, still) =
          add_folders_lem folders (add_files read uri_to_path sorted_containers files candidates) id
            distinct in
        rw (e, add_folders)
          (rw (e, classes_after, services_of_folders)
            (
              later
                  ∙ ap (classes_after id (services_of_folders folders)) found
                  ∙ sym (
                      classes_after-append id (services_of_files files)
                        (services_of_folders folders) (lookup id candidates)),
              still,
            ))
  ]

  -- A service gets a class if and only if some file of the folders has a class for it and every file that
  -- has one has the same.
  pub load_symfony_service_types_lem :
      (folders : List Bytes) (id : Bytes)
      → lookup id (load_symfony_service_types read uri_to_path sorted_containers folders)
        ≡ agreed_class id (services_of_folders folders)
  unfolding load_symfony_service_types lookup
  load_symfony_service_types_lem folders id =
      let (found, distinct) = add_folders_lem folders [] id refl in
      lookup-resolve_candidates (add_folders read uri_to_path sorted_containers folders []) id
        distinct
      ∙ ap single found
      ∙ single-none id (services_of_folders folders)
