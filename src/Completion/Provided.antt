-- ===== src/Completion/Provided.antt =====
-- server/providers/completion.go: Provide gives the first of the items that fit.
use vscode_php_strom.Base.{
  ℕ, zero, suc, ◌+◌, ◌≤◌, ◌<◌, ◌≡◌, refl, ap, sym, ◌∙◌, Bool, true, false, Option, none, some, List,
  [], ◌∷◌, ◌++◌, arith, ◌==◌, leb, if◌then◌else◌, length, take, take_all, take-append_le, inl, inr,
  Bool-cases, Option-cases,
}
use vscode_php_strom.Index.{Index, Symbol}
use vscode_php_strom.Index.Queries.{search}
use vscode_php_strom.Server.Number.{ℤ}
use vscode_php_strom.Lsp.{Position, CompletionItem}
use vscode_php_strom.Text.{Bytes}
use vscode_php_strom.Completion.{
  MemberAccess, word_at, member_access_at, receiver_is_this, php_keyword_completions,
}
use vscode_php_strom.Completion.Members.{
  max_items, max_items_positive, member_item, symbol_item, member_fits, member_loop, symbol_loop,
  with_keywords, provide_symbols,
}
use vscode_php_strom.Completion.Receiver.{members_of_access, member_completions, provide_indexed}

abbrev pub items_of : (Symbol → CompletionItem) → List Symbol → List CompletionItem
items_of f [] = []
items_of f (s ∷ symbols) = f s ∷ items_of f symbols

abbrev pub fitting : (Symbol → Bool) → List Symbol → List Symbol
fitting f [] = []
fitting f (s ∷ symbols) = if f s then s ∷ fitting f symbols else fitting f symbols

length-items_of :
    (f : Symbol → CompletionItem) (symbols : List Symbol)
    → length (items_of f symbols) ≡ length symbols
length-items_of f [] = refl
length-items_of f (s ∷ symbols) = rw (length-items_of f symbols)

positive_suc : (n : ℕ) → 0 < n → (k : ℕ) × (n ≡ suc k)
positive_suc zero h = absurd (omega arith)
positive_suc (suc k) h = (k, refl)

cut_lem :
    (n : ℕ) (xs : List CompletionItem) → (if leb n (length xs) then take n xs else xs) ≡ take n xs
cut_lem n xs = elim (Bool-cases (leb n (length xs))) [
  | inl e ↦ rw e refl
  | inr e ↦ rw e (sym (take_all n xs (ground (arith, e))))
]

module _ (lower : Bytes → Bytes) where
  full :
      (setting : ℤ) (count : ℕ)
      → max_items setting ≡ count + 1
      → leb (max_items setting) (suc count) ≡ true
  full setting count h = ground (arith, h)

  not_full :
      (setting : ℤ) (count k : ℕ)
      → max_items setting ≡ count + suc (suc k)
      → leb (max_items setting) (suc count) ≡ false
  not_full setting count k h = ground (arith, h)

  member_loop_lem :
      (fits : Symbol → Bool) (setting : ℤ) (count k : ℕ) (symbols : List Symbol)
      → max_items setting ≡ count + suc k
      → member_loop lower fits setting count symbols
        ≡ take (suc k) (items_of (member_item lower) (fitting fits symbols))
  unfolding member_loop
  member_loop_lem fits setting count k [] h = refl
  member_loop_lem fits setting count zero (s ∷ symbols) h = elim (Bool-cases (fits s)) [
    | inr e ↦ rw (e, member_loop) (member_loop_lem fits setting count zero symbols h)
    | inl e ↦ rw (e, member_loop) (rw (full setting count h, member_loop) refl)
  ]
  member_loop_lem fits setting count (suc k) (s ∷ symbols) h = elim (Bool-cases (fits s)) [
    | inr e ↦ rw (e, member_loop) (member_loop_lem fits setting count (suc k) symbols h)
    | inl e ↦
        rw (e, member_loop)
          (rw (not_full setting count k h, member_loop)
            (ap (λ items. member_item lower s ∷ items)
              (member_loop_lem fits setting (suc count) k symbols (omega (arith, h)))))
  ]

  symbol_loop_items :
      (setting : ℤ) (count k : ℕ) (symbols : List Symbol)
      → max_items setting ≡ count + suc k
      → (symbol_loop lower setting count symbols).0
        ≡ take (suc k) (items_of (symbol_item lower) symbols)
  unfolding symbol_loop
  symbol_loop_items setting count k [] h = refl
  symbol_loop_items setting count zero (s ∷ symbols) h = rw (full setting count h, symbol_loop) refl
  symbol_loop_items setting count (suc k) (s ∷ symbols) h =
      rw (not_full setting count k h, symbol_loop)
        (ap (λ items. symbol_item lower s ∷ items)
          (symbol_loop_items setting (suc count) k symbols (omega (arith, h))))

  symbol_loop_returned :
      (setting : ℤ) (count k : ℕ) (symbols : List Symbol)
      → max_items setting ≡ count + suc k
      → (symbol_loop lower setting count symbols).1 ≡ leb (suc k) (length symbols)
  unfolding symbol_loop
  symbol_loop_returned setting count k [] h = ground arith
  symbol_loop_returned setting count zero (s ∷ symbols) h =
      rw (full setting count h, symbol_loop) (ground arith)
  symbol_loop_returned setting count (suc k) (s ∷ symbols) h =
      rw (not_full setting count k h, symbol_loop)
        (symbol_loop_returned setting (suc count) k symbols (omega (arith, h)) ∙ ground arith)

  -- The symbols that a search for the word finds; there is none for no word.
  abbrev pub found_for : Index → Bytes → List Symbol
  found_for idx word = if length word == 0 then [] else search lower idx word

  -- What is offered where there is no access to a member.
  abbrev pub offered : Index → Bytes → List CompletionItem
  offered idx word =
      items_of (symbol_item lower) (found_for idx word) ++ php_keyword_completions lower word

  with_keywords_lem :
      (setting : ℤ) (k : ℕ) (found : List Symbol) (added : List CompletionItem)
      → max_items setting ≡ suc k
      → with_keywords lower setting (symbol_loop lower setting 0 found) added
        ≡ take (suc k) (items_of (symbol_item lower) found ++ added)
  unfolding with_keywords
  with_keywords_lem setting k found added h =
      let looped : List CompletionItem = items_of (symbol_item lower) found in
      let items = symbol_loop_items setting 0 k found (omega (arith, h)) in
      let returned = symbol_loop_returned setting 0 k found (omega (arith, h)) in
      let same_length = length-items_of (symbol_item lower) found in
      elim (Bool-cases (leb (suc k) (length found))) [
        | inl e ↦
            let long : suc k ≤ length looped = ground (arith, e, same_length) in
            rw (returned, e) (items ∙ sym (take-append_le (suc k) looped added long))
        | inr e ↦
            let short : length looped ≤ suc k = ground (arith, e, same_length) in
            rw (returned, e, items, take_all (suc k) looped short, h)
              (cut_lem (suc k) (looped ++ added))
      ]

  -- Without a store there are the keywords.
  pub with_keywords-nil :
      (setting : ℤ) (added : List CompletionItem)
      → with_keywords lower setting ([], false) added ≡ take (max_items setting) added
  unfolding with_keywords
  with_keywords-nil setting added = cut_lem (max_items setting) added

  provide_symbols_lem :
      (idx : Index) (setting : ℤ) (word : Bytes)
      → provide_symbols lower idx setting word ≡ take (max_items setting) (offered idx word)
  unfolding provide_symbols
  provide_symbols_lem idx setting word =
      let (k, h) = positive_suc (max_items setting) (max_items_positive setting) in
      with_keywords_lem setting k (found_for idx word) (php_keyword_completions lower word) h
      ∙ ap (λ n. take n (offered idx word)) (sym h)

-- The first items that the setting allows.
abbrev pub at_most : ℕ → Option (List CompletionItem) → Option (List CompletionItem)
at_most n none = none
at_most n (some items) = some (take n items)

module _ (lower trim_space : Bytes → Bytes) (equal_fold : Bytes → Bytes → Bool)
    (sort_stable : (Symbol → Symbol → Bool) → List Symbol → List Symbol) (idx : Index)
    (range_start : Symbol → ℕ × ℕ) (uri : Bytes) (pos : Position) (class_in_tree : Bytes)
    (variable_type : Bytes → Bytes) where
  -- The items of the members that fit the access and the word.
  abbrev pub fitting_members :
      MemberAccess → Bytes → Option (List Symbol) → Option (List CompletionItem)
  fitting_members access word none = none
  fitting_members access word (some members) = some (
      items_of (member_item lower) (
        fitting
          (member_fits lower equal_fold access.static (receiver_is_this lower trim_space access)
            word)
          members))

  -- All that could be offered.
  abbrev pub candidates : ℕ → Bytes → Option MemberAccess → Option (List CompletionItem)
  candidates fuel word none = some (offered lower idx word)
  candidates fuel word (some access) = fitting_members access word (
      members_of_access lower trim_space equal_fold sort_stable idx range_start uri pos
        class_in_tree variable_type fuel access)

  member_completions_lem :
      (fuel : ℕ) (setting : ℤ) (access : MemberAccess) (word : Bytes)
      → member_completions lower trim_space equal_fold sort_stable idx range_start uri pos
          class_in_tree variable_type fuel setting access word
        ≡ at_most (max_items setting) (candidates fuel word (some access))
  unfolding member_completions
  member_completions_lem fuel setting access word =
      let (k, h) = positive_suc (max_items setting) (max_items_positive setting) in
      let fits =
        member_fits lower equal_fold access.static (receiver_is_this lower trim_space access)
          word in
      elim (Option-cases (
        members_of_access lower trim_space equal_fold sort_stable idx range_start uri pos
          class_in_tree variable_type fuel access)) [
            | inl e ↦ rw (e, member_completions) refl
            | inr (members, e) ↦
                rw (e, member_completions)
                  (ap some (
                    member_loop_lem lower fits setting 0 k members (omega (arith, h))
                    ∙ ap (λ n. take n (items_of (member_item lower) (fitting fits members)))
                        (sym h)))
          ]

  pub provide-candidates :
      (trim_right_space : Bytes → Bytes) (fuel : ℕ) (setting : ℤ) (text : Bytes)
      → provide_indexed lower trim_space equal_fold sort_stable idx range_start uri pos
          class_in_tree variable_type trim_right_space fuel setting text
        ≡ at_most (max_items setting) (
            candidates fuel
              (word_at text pos)
              (member_access_at trim_space trim_right_space text pos))
  unfolding provide_indexed
  provide-candidates trim_right_space fuel setting text =
      elim (Option-cases (member_access_at trim_space trim_right_space text pos)) [
        | inl e ↦
            rw (e, provide_indexed)
              (ap some (provide_symbols_lem lower idx setting (word_at text pos)))
        | inr (access, e) ↦
            rw (e, provide_indexed) (member_completions_lem fuel setting access (word_at text pos))
      ]
