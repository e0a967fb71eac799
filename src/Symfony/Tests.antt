-- ===== src/Symfony/Tests.antt =====
-- Runs of server/indexer/symfony_services.go at concrete inputs.
use vscode_php_strom.Base.{ℕ, ◌≡◌, ◌↔◌, true, Option, some, List, [], ◌∷◌}
use vscode_php_strom.Dict.{Dict, lookup}
use vscode_php_strom.Text.{Bytes, codes}
use vscode_php_strom.Symfony.{
  SymfonyServiceDefinition, Token, service, other, resolve_loop, resolve_symfony_service_class,
  load_symfony_service_types,
}
use vscode_php_strom.Symfony.Aliases.{
  Resolves, resolve_symfony_service_class-ends, resolve_symfony_service_class_iff,
}
use vscode_php_strom.Symfony.Classes.{
  agreed_class, services_of_folders, load_symfony_service_types_lem,
}

abbrev class_of : Bytes → SymfonyServiceDefinition
class_of c = record { class = c; alias = []; public = true }

abbrev alias_of : Bytes → SymfonyServiceDefinition
alias_of a = record { class = []; alias = a; public = true }

-- Two ids that stand for each other, and one that stands for a class.
abbrev definitions : Dict SymfonyServiceDefinition
definitions =
    (codes "a", alias_of (codes "b"))
    ∷ (codes "b", alias_of (codes "a"))
    ∷ (codes "c", alias_of (codes "d"))
    ∷ (codes "d", class_of (codes "D"))
    ∷ []

resolve_symfony_service_class-ends_example :
    resolve_loop 5 (codes "a") definitions []
    ≡ some (resolve_symfony_service_class (codes "a") definitions)
resolve_symfony_service_class-ends_example =
    resolve_symfony_service_class-ends definitions (codes "a")

resolve_symfony_service_class_iff_example :
    (resolve_symfony_service_class (codes "c") definitions ≡ codes "D")
    ↔ ((n : ℕ) × Resolves definitions n (codes "c") (codes "D"))
resolve_symfony_service_class_iff_example =
    resolve_symfony_service_class_iff definitions (codes "c") b'D' []

-- One file, which has a service.
abbrev container : Bytes → Option (List Token)
container path = some (
    other
    ∷ service (
        some (record { id = codes "s"; class = codes "\\A\\S"; alias = []; public = codes "true" }))
    ∷ [])

abbrev same : Bytes → Bytes
same p = p

abbrev one_file : Bytes → List Bytes
one_file root = root ∷ []

load_symfony_service_types_example :
    lookup (codes "s") (load_symfony_service_types container same one_file (codes "w" ∷ []))
    ≡ agreed_class (codes "s") (services_of_folders container same one_file (codes "w" ∷ []))
load_symfony_service_types_example =
    load_symfony_service_types_lem container same one_file (codes "w" ∷ []) (codes "s")
