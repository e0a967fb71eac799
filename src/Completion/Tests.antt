-- ===== src/Completion/Tests.antt =====
-- Runs of server/providers/completion.go at concrete inputs.
use vscode_php_strom.Base.{
  ℕ, ◌≡◌, ◌≢◌, ◌++◌, refl, inl, inr, arith, Bool, true, false, Option, some, List, [], ◌∷◌, length,
}
use vscode_php_strom.Index.{Index, Symbol, new_index}
use vscode_php_strom.Server.Number.{pos}
use vscode_php_strom.Lsp.{Position}
use vscode_php_strom.Text.{Bytes, codes, beq, has_suffix, trim_suffix, index_byte}
use vscode_php_strom.Completion.{
  MemberAccess, keywords, word_at, member_access_at, split_object_chain,
}
use vscode_php_strom.Completion.Receiver.{class_name_from_type}
use vscode_php_strom.Completion.Provide.{provide}
use vscode_php_strom.Completion.Members.{collect_classes}
use vscode_php_strom.Completion.Provided.{at_most}
use vscode_php_strom.Completion.Offered.{items_with, provide_lem}
use vscode_php_strom.Completion.Cursor.{IsCursor, Lines}
use vscode_php_strom.Completion.Access.{IsAccess}
use vscode_php_strom.Completion.Overrides.{distinct_members, collect_classes-distinct_members}

abbrev same : Bytes → Bytes
same s = s

abbrev unsorted : (Symbol → Symbol → Bool) → List Symbol → List Symbol
unsorted less symbols = symbols

abbrev from_start : Symbol → ℕ × ℕ
from_start s = (1, 1)

abbrev no_type : Bytes → Bytes
no_type name = []

abbrev typed : Bytes
typed = codes "x\n$this->na"

abbrev cursor : Position
cursor = record { line = 1; character = 9 }

word_at-typed : word_at typed cursor ≡ codes "na"
unfolding word_at
word_at-typed = refl

typed_access :
    member_access_at same same typed cursor
    ≡ some (record { receiver = codes "$this"; static = false })
unfolding member_access_at has_suffix
typed_access = refl

chain_parts_of :
    split_object_chain same (codes "$a->b()?->c") ≡ codes "$a" ∷ codes "b" ∷ codes "c" ∷ []
unfolding split_object_chain trim_suffix
chain_parts_of = refl

class_of_nullable : class_name_from_type same same (codes "?Foo<int>") ≡ codes "\\Foo"
unfolding class_name_from_type index_byte
class_of_nullable = refl

class_of_union : class_name_from_type same same (codes "null|Bar[]") ≡ codes "\\Bar"
unfolding class_name_from_type index_byte
class_of_union = refl

keywords_in_number : length keywords ≡ 62
keywords_in_number = refl

abbrev this_access : Option MemberAccess
this_access = some (record { receiver = codes "$this"; static = false })

typed-IsCursor : IsCursor typed cursor (codes "$this->") (codes "na")
typed-IsCursor = record {
  lines = codes "x\n";
  after = [];
  whole = refl;
  line = Lines.line (codes "x") (omega arith) Lines.start;
  in_line = omega arith;
  column = inl refl;
  word_bytes = (inl (omega arith), (inl (omega arith), tt));
  head_end = inr (codes "$this-", b'>', refl, λ h. absurd (ground (arith, h)));
}

this_end : (q : Bytes) → codes "$this->" ≢ q ++ codes "?->"
this_end [] e = cc
this_end (a ∷ []) e = cc
this_end (a ∷ b ∷ []) e = cc
this_end (a ∷ b ∷ c ∷ []) e = cc
this_end (a ∷ b ∷ c ∷ d ∷ []) e = absurd (ground (arith, e))
this_end (a ∷ b ∷ c ∷ d ∷ f ∷ []) e = cc
this_end (a ∷ b ∷ c ∷ d ∷ f ∷ g ∷ []) e = cc
this_end (a ∷ b ∷ c ∷ d ∷ f ∷ g ∷ h ∷ []) e = cc
this_end (a ∷ b ∷ c ∷ d ∷ f ∷ g ∷ h ∷ i ∷ q) e = cc

typed-IsAccess : IsAccess same (codes "$this->") this_access
typed-IsAccess = IsAccess.arrow (codes "$this") refl (λ q e. absurd (this_end q e)) refl

abbrev unparsed : Bytes → Bytes → Index → Index
unparsed uri text idx = idx

provide_lem_example :
    provide same same beq unsorted unparsed from_start
      (codes "u")
      cursor
      (codes "A")
      no_type
      same
      2
      (pos 5)
      (some new_index)
      typed
    ≡ at_most 5 (
        items_with same same beq unsorted unparsed from_start
          (codes "u")
          cursor
          (codes "A")
          no_type
          same
          2
          (some new_index)
          typed
          (codes "na")
          this_access)
provide_lem_example =
    provide_lem same same beq unsorted unparsed from_start (codes "u") cursor (codes "A") no_type
      same 2 (pos 5) (some new_index) typed (codes "$this->") (codes "na") this_access 5
      typed-IsCursor typed-IsAccess (inl (refl, omega arith))

collect_classes-distinct_members_example :
    distinct_members same
      (collect_classes same same beq unsorted new_index (codes "\\A" ∷ []) ([], [])).1
    ≡ true
collect_classes-distinct_members_example =
    collect_classes-distinct_members same same beq unsorted new_index (codes "\\A" ∷ [])
