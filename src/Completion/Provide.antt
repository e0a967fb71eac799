-- ===== src/Completion/Provide.antt =====
-- server/providers/completion.go: Provide. The store may be missing, and IndexDocument, which puts the symbols
-- of the document into it, is a parameter, since it parses the text.
use vscode_php_strom.Base.{ℕ, Bool, false, Option, none, some, List, []}
use vscode_php_strom.Index.{Index, Symbol}
use vscode_php_strom.Server.Number.{ℤ}
use vscode_php_strom.Lsp.{Position, CompletionItem}
use vscode_php_strom.Text.{Bytes}
use vscode_php_strom.Completion.{word_at, member_access_at, php_keyword_completions}
use vscode_php_strom.Completion.Members.{with_keywords}
use vscode_php_strom.Completion.Receiver.{provide_indexed}

module _ (lower trim_space : Bytes → Bytes) (equal_fold : Bytes → Bytes → Bool)
    (sort_stable : (Symbol → Symbol → Bool) → List Symbol → List Symbol)
    (index_document : Bytes → Bytes → Index → Index) (range_start : Symbol → ℕ × ℕ) (uri : Bytes)
    (pos : Position) (class_in_tree : Bytes) (variable_type trim_right_space : Bytes → Bytes) where
  -- Without a store a class has no members that memberCompletions could give, whatever the class.
  unfoldable pub provide_without_store : ℤ → Bytes → List CompletionItem
  unfolding word_at member_access_at with_keywords php_keyword_completions
  provide_without_store setting text =
      elim (member_access_at trim_space trim_right_space text pos) [
        | some access ↦ []
        | none ↦
            with_keywords lower setting ([], false)
              (php_keyword_completions lower (word_at text pos))
      ]

  unfoldable pub provide : ℕ → ℤ → Option Index → Bytes → Option (List CompletionItem)
  unfolding provide_indexed provide_without_store
  provide fuel setting none text = some (provide_without_store setting text)
  provide fuel setting (some idx) text =
      provide_indexed lower trim_space equal_fold sort_stable (index_document uri text idx)
        range_start uri pos class_in_tree variable_type trim_right_space fuel setting text
