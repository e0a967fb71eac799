-- ===== src/Completion/Offered.antt =====
-- server/providers/completion.go: what Provide offers at a cursor, described without the code's tests.
use vscode_php_strom.Base.{
  take, zero, suc, ℕ, ◌<◌, ◌≡◌, refl, ap, sym, ◌∙◌, Bool, not, ◌&&◌, ◌||◌, Option, none, some, List,
  [], ◌∷◌, ◌==◌, ◌⊎◌, inl, inr, arith, length,
}
use vscode_php_strom.Index.{
  Index, Symbol, kind_method, kind_property, kind_constructor, kind_constant, kind_field,
  kind_enum_member,
}
use vscode_php_strom.Server.Number.{ℤ, pos, negsuc}
use vscode_php_strom.Lsp.{Position, CompletionItem}
use vscode_php_strom.Text.{Bytes, codes, has_prefix}
use vscode_php_strom.Completion.{
  MemberAccess, member_access_at, php_keyword_completions, member_matches_access, receiver_is_this,
}
use vscode_php_strom.Completion.Access.{IsAccess, access_in-IsAccess}
use vscode_php_strom.Completion.Cursor.{IsCursor, word_at-cursor, member_access_at-head}
use vscode_php_strom.Completion.Members.{max_items, member_item, member_fits}
use vscode_php_strom.Completion.Provided.{
  at_most, candidates, fitting, fitting_members, items_of, offered, provide-candidates,
  with_keywords-nil,
}
use vscode_php_strom.Completion.Receiver.{members_of_access}
use vscode_php_strom.Completion.Provide.{provide_without_store, provide}

-- The number of items that a setting allows: 100, unless it is positive.
abbrev pub IsLimit : ℤ → ℕ → Type 0
IsLimit setting limit =
    ((setting ≡ pos limit) × (0 < limit))
    ⊎ (((setting ≡ pos 0) ⊎ ((n : ℕ) × (setting ≡ negsuc n))) × (limit ≡ 100))

max_items-IsLimit : (setting : ℤ) (limit : ℕ) → IsLimit setting limit → max_items setting ≡ limit
unfolding max_items
max_items-IsLimit setting limit (inl (e, h)) = rw e (ground (arith, h))
max_items-IsLimit setting limit (inr (inl e, h)) = rw e (sym h)
max_items-IsLimit setting limit (inr (inr (n, e), h)) = rw e (sym h)

module _ (lower : Bytes → Bytes) (equal_fold : Bytes → Bytes → Bool) (static from_this : Bool)
    (word : Bytes) (member : Symbol) where
  -- Private members are for the class, and protected ones for the class and for `::`.
  abbrev pub is_visible : Bool
  is_visible =
      from_this
      || not (equal_fold member.visibility (codes "private"))
        && (static || not (equal_fold member.visibility (codes "protected")))

  -- Methods always, the properties that are static or not, and constants for `::`.
  abbrev pub is_reachable : Bool
  is_reachable =
      (member.kind == kind_method || member.kind == kind_constructor)
      || ((member.kind == kind_property || member.kind == kind_field)
          && (static && member.is_static || not static && (from_this || not member.is_static)))
      || ((member.kind == kind_constant || member.kind == kind_enum_member) && static)

  abbrev pub starts_with_word : Bool
  starts_with_word = length word == 0 || has_prefix (lower word) (lower member.name)

  abbrev pub is_offered : Bool
  is_offered = is_visible && is_reachable && starts_with_word

  matches_lem :
      member_matches_access equal_fold member static from_this ≡ (is_visible && is_reachable)
  unfolding member_matches_access
  matches_lem = ground arith

  member_fits_lem : member_fits lower equal_fold static from_this word member ≡ is_offered
  unfolding member_fits
  member_fits_lem = ground arith

fitting_ext :
    (f g : Symbol → Bool) (members : List Symbol)
    → ((s : Symbol) → f s ≡ g s)
    → fitting f members ≡ fitting g members
fitting_ext f g [] h = refl
fitting_ext f g (s ∷ members) h = rw (h s, fitting_ext f g members h) refl

module _ (lower trim_space : Bytes → Bytes) (equal_fold : Bytes → Bytes → Bool)
    (sort_stable : (Symbol → Symbol → Bool) → List Symbol → List Symbol) (idx : Index)
    (range_start : Symbol → ℕ × ℕ) (uri : Bytes) (pos : Position) (class_in_tree : Bytes)
    (variable_type : Bytes → Bytes) where
  -- The items of the members that are offered, of those of the receiver's class.
  abbrev pub member_items :
      MemberAccess → Bytes → Option (List Symbol) → Option (List CompletionItem)
  member_items access word none = none
  member_items access word (some members) = some (
      items_of (member_item lower) (
        fitting
          (is_offered lower equal_fold access.static (receiver_is_this lower trim_space access)
            word)
          members))

  -- All that there is to offer, for an access to a member and without one.
  abbrev pub all_items : ℕ → Bytes → Option MemberAccess → Option (List CompletionItem)
  all_items fuel word none = some (offered lower idx word)
  all_items fuel word (some access) = member_items access word (
      members_of_access lower trim_space equal_fold sort_stable idx range_start uri pos
        class_in_tree variable_type fuel access)

  member_items-fitting_members :
      (access : MemberAccess) (word : Bytes) (members : Option (List Symbol))
      → fitting_members lower trim_space equal_fold sort_stable idx range_start uri pos
          class_in_tree variable_type access word members
        ≡ member_items access word members
  member_items-fitting_members access word none = refl
  member_items-fitting_members access word (some members) =
      let from_this = receiver_is_this lower trim_space access in
      ap (λ kept. some (items_of (member_item lower) kept))
        (fitting_ext (member_fits lower equal_fold access.static from_this word)
          (is_offered lower equal_fold access.static from_this word) members
          (member_fits_lem lower equal_fold access.static from_this word))

  all_items-candidates :
      (fuel : ℕ) (word : Bytes) (access : Option MemberAccess)
      → candidates lower trim_space equal_fold sort_stable idx range_start uri pos class_in_tree
          variable_type fuel word access
        ≡ all_items fuel word access
  all_items-candidates fuel word none = refl
  all_items-candidates fuel word (some access) = member_items-fitting_members access word (
      members_of_access lower trim_space equal_fold sort_stable idx range_start uri pos
        class_in_tree variable_type fuel access)

access_before :
    (trim_space trim_right_space : Bytes → Bytes) {text : Bytes} {pos : Position}
    {head word : Bytes} {access : Option MemberAccess}
    → IsCursor text pos head word
    → IsAccess trim_space (trim_right_space head) access
    → member_access_at trim_space trim_right_space text pos ≡ access
access_before trim_space trim_right_space {head} {access} c a =
    member_access_at-head c trim_space trim_right_space
    ∙ access_in-IsAccess trim_space trim_right_space (trim_right_space head) access a

-- The items of a store, or of none: then there are the keywords alone.
module _ (lower trim_space : Bytes → Bytes) (equal_fold : Bytes → Bytes → Bool)
    (sort_stable : (Symbol → Symbol → Bool) → List Symbol → List Symbol)
    (index_document : Bytes → Bytes → Index → Index) (range_start : Symbol → ℕ × ℕ) (uri : Bytes)
    (pos : Position) (class_in_tree : Bytes) (variable_type trim_right_space : Bytes → Bytes) where
  abbrev pub items_with :
      ℕ → Option Index → Bytes → Bytes → Option MemberAccess → Option (List CompletionItem)
  items_with fuel none text word none = some (php_keyword_completions lower word)
  items_with fuel none text word (some access) = some []
  items_with fuel (some idx) text word access =
      all_items lower trim_space equal_fold sort_stable (index_document uri text idx) range_start
        uri pos class_in_tree variable_type fuel word access

  provide_without_store_lem :
      (fuel : ℕ) (setting : ℤ) (text head word : Bytes) (access : Option MemberAccess) (limit : ℕ)
      → IsCursor text pos head word
      → IsAccess trim_space (trim_right_space head) access
      → IsLimit setting limit
      → some (
          provide_without_store lower trim_space equal_fold sort_stable index_document range_start
            uri pos class_in_tree variable_type trim_right_space setting text)
        ≡ at_most limit (items_with fuel none text word access)
  unfolding provide_without_store
  provide_without_store_lem fuel setting text head word none limit c a l =
      rw (access_before trim_space trim_right_space c a, provide_without_store)
        (rw (word_at-cursor c) (
          ap some (
            with_keywords-nil lower setting (php_keyword_completions lower word)
            ∙ ap (λ n. take n (php_keyword_completions lower word))
                (max_items-IsLimit setting limit l))))
  provide_without_store_lem fuel setting text head word (some access) zero c a l =
      rw (access_before trim_space trim_right_space c a, provide_without_store) refl
  provide_without_store_lem fuel setting text head word (some access) (suc limit) c a l =
      rw (access_before trim_space trim_right_space c a, provide_without_store) refl

  -- At a cursor behind `word` and, before it, `head` on its line, the column counting bytes or
  -- being beyond the end of the line, Provide gives the first items, 100 or as many as a positive
  -- setting says: if `head` ends, but for white space, in `?->`, `->` or `::`, of the members of
  -- the receiver's class that are visible there, reachable by that access and begin with the word,
  -- in their order (`none` where the fuel is not enough to find these); and else of the symbols
  -- that the search for the word finds, followed by the keywords. The store is the one that
  -- IndexDocument leaves; without a store there are the keywords alone, and no members.
  pub provide_lem :
      (fuel : ℕ) (setting : ℤ) (store : Option Index) (text head word : Bytes)
      (access : Option MemberAccess) (limit : ℕ)
      → IsCursor text pos head word
      → IsAccess trim_space (trim_right_space head) access
      → IsLimit setting limit
      → provide lower trim_space equal_fold sort_stable index_document range_start uri pos
          class_in_tree variable_type trim_right_space fuel setting store text
        ≡ at_most limit (items_with fuel store text word access)
  unfolding provide
  provide_lem fuel setting none text head word access limit c a l =
      provide_without_store_lem fuel setting text head word access limit c a l
  provide_lem fuel setting (some idx) text head word access limit c a l =
      let indexed = index_document uri text idx in
      provide-candidates lower trim_space equal_fold sort_stable indexed range_start uri pos
        class_in_tree variable_type trim_right_space fuel setting text
      ∙ rw
          (
            word_at-cursor c,
            access_before trim_space trim_right_space c a,
            max_items-IsLimit setting limit l,
          )
          (ap (at_most limit) (
            all_items-candidates lower trim_space equal_fold sort_stable indexed range_start uri pos
              class_in_tree variable_type fuel word access))
