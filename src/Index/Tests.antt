-- ===== src/Index/Tests.antt =====
-- Runs of the symbol store of server/indexer/index.go at concrete inputs.
use vscode_php_strom.Base.{◌≡◌, refl, if◌then◌else◌, false, none, [], ◌∷◌}
use vscode_php_strom.Dict
use vscode_php_strom.Text.{Bytes, beq, has_prefix}
use vscode_php_strom.Index.{
  Symbol, Index, new_index, shard_for, fnv32, fnv32_from, before_colons, symbol_owner_lower,
}
use vscode_php_strom.Index.Update.{
  put_fqn, put_fqns, put_name, put_names, put_owner, put_owners, fqns_of, delete_fqn, delete_fqns,
  drop_name, drop_names, drop_owner, drop_owners, other_files, remove_file, list_file, put_file,
}
use vscode_php_strom.Index.Queries.{get_by_fqn, get_by_name, get_by_uri}
use vscode_php_strom.Index.Update.{or_empty}
use vscode_php_strom.Index.ByFqn.{contains, latest, get_by_fqn-put_file, get_by_fqn-remove_file}
use vscode_php_strom.Index.ByUri.{get_by_uri-put_file, get_by_uri-put_file-other}

abbrev foo : Bytes → Symbol
foo uri = record {
  fqn = b'\\' ∷ b'F' ∷ [];
  name = b'F' ∷ [];
  kind = 0;
  namespace = [];
  uri = uri;
  start_line = 0;
  start_char = 0;
  end_line = 0;
  end_char = 0;
  extends = [];
  implements = [];
  traits = [];
  templates = [];
  generic_parents = [];
  doc_comment = [];
  return_type = [];
  type = [];
  params = [];
  type_fqn = [];
  is_static = false;
  is_abstract = false;
  is_final = false;
  is_readonly = false;
  visibility = [];
  set_visibility = [];
}

abbrev bar : Symbol
bar = record (foo (b'b' ∷ [])) { fqn = b'\\' ∷ b'G' ∷ []; name = b'G' ∷ [] }

abbrev one_file : Index
one_file = put_file (λ x. x) new_index (b'a' ∷ []) (foo (b'a' ∷ []) ∷ [])

abbrev two_files : Index
two_files = put_file (λ x. x) one_file (b'b' ∷ []) (foo (b'b' ∷ []) ∷ [])

-- The second file still declares the symbol, and it is gone.
lost_symbol : get_by_fqn (remove_file (λ x. x) two_files (b'a' ∷ [])) (b'\\' ∷ b'F' ∷ []) ≡ none
unfolding new_index shard_for fnv32 fnv32_from before_colons symbol_owner_lower has_prefix beq
    Dict.lookup Dict.insert Dict.delete put_fqn put_fqns put_name put_names put_owner put_owners
    fqns_of delete_fqn delete_fqns drop_name drop_names drop_owner drop_owners other_files
    remove_file list_file put_file get_by_fqn get_by_name
lost_symbol = refl

-- Both files are removed, and a name of the second is left.
stale_name :
    get_by_name
      (λ x. x)
      (remove_file (λ x. x) (remove_file (λ x. x) two_files (b'a' ∷ [])) (b'b' ∷ []))
      (b'F' ∷ [])
    ≡ foo (b'b' ∷ []) ∷ []
unfolding new_index shard_for fnv32 fnv32_from before_colons symbol_owner_lower has_prefix beq
    Dict.lookup Dict.insert Dict.delete put_fqn put_fqns put_name put_names put_owner put_owners
    fqns_of delete_fqn delete_fqns drop_name drop_names drop_owner drop_owners other_files
    remove_file list_file put_file get_by_fqn get_by_name
stale_name = refl

get_by_uri-put_file_example :
    get_by_uri (put_file (λ x. x) two_files (b'a' ∷ []) (foo (b'a' ∷ []) ∷ [])) (b'a' ∷ [])
    ≡ foo (b'a' ∷ []) ∷ []
unfolding fqns_of
get_by_uri-put_file_example =
    get_by_uri-put_file (λ x. x) two_files (b'a' ∷ []) (foo (b'a' ∷ []) ∷ []) refl

get_by_uri-put_file-other_example :
    get_by_uri (put_file (λ x. x) one_file (b'b' ∷ []) (bar ∷ [])) (b'a' ∷ [])
    ≡ get_by_uri one_file (b'a' ∷ [])
unfolding new_index shard_for fnv32 fnv32_from before_colons symbol_owner_lower has_prefix beq
    Dict.lookup Dict.insert Dict.delete put_fqn put_fqns put_name put_names put_owner put_owners
    fqns_of delete_fqn delete_fqns drop_name drop_names drop_owner drop_owners other_files
    remove_file list_file put_file
get_by_uri-put_file-other_example =
    get_by_uri-put_file-other (λ x. x) one_file (b'b' ∷ []) (b'a' ∷ []) (bar ∷ []) refl refl refl

get_by_fqn-put_file_example :
    get_by_fqn (put_file (λ x. x) two_files (b'a' ∷ []) (bar ∷ [])) (b'\\' ∷ b'F' ∷ [])
    ≡ latest (b'\\' ∷ b'F' ∷ []) (bar ∷ []) (
        if contains (or_empty (Dict.lookup (b'a' ∷ []) two_files.uri_to_fqns)) (b'\\' ∷ b'F' ∷ [])
        then none
        else get_by_fqn two_files (b'\\' ∷ b'F' ∷ []))
get_by_fqn-put_file_example =
    get_by_fqn-put_file (λ x. x) two_files (b'a' ∷ []) (bar ∷ []) (b'\\' ∷ b'F' ∷ [])

get_by_fqn-remove_file_example :
    get_by_fqn (remove_file (λ x. x) two_files (b'a' ∷ [])) (b'\\' ∷ b'F' ∷ []) ≡ (
      if contains (or_empty (Dict.lookup (b'a' ∷ []) two_files.uri_to_fqns)) (b'\\' ∷ b'F' ∷ [])
      then none
      else get_by_fqn two_files (b'\\' ∷ b'F' ∷ []))
get_by_fqn-remove_file_example =
    get_by_fqn-remove_file (λ x. x) two_files (b'a' ∷ []) (b'\\' ∷ b'F' ∷ [])
