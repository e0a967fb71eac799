-- ===== src/Analysis/Inline.antt =====
-- server/providers/diagnostics.go: the diagnostics that comments in a file suppress.
use vscode_php_strom.Base.{
  ℕ, zero, suc, ◌+◌, ◌<◌, ◌≡◌, refl, ap, ◌∙◌, Bool, true, false, not, ◌&&◌, ◌||◌, Option, none,
  some, List, [], ◌∷◌, ◌++◌, arith, ◌==◌, if◌then◌else◌, length, get_elem?, inl, inr, Bool-cases,
}
use vscode_php_strom.Lsp.{Diagnostic, u32_mod, to_u32_small}
use vscode_php_strom.Text.{Bytes, contains_text}
use vscode_php_strom.Text.Split.{split_byte}
use vscode_php_strom.Analysis.{
  has_line, marks_own, marks_next, lines_of, suppressions_loop,
  collect_inline_diagnostic_suppressions, filter_loop, filter_suppressed,
}

-- The diagnostics that a test keeps.
abbrev pub keep_if : (Diagnostic → Bool) → List Diagnostic → List Diagnostic
keep_if f [] = []
keep_if f (d ∷ ds) = if f d then d ∷ keep_if f ds else keep_if f ds

has_line-append : (n : ℕ) (a b : List ℕ) → has_line n (a ++ b) ≡ (has_line n a || has_line n b)
has_line-append n [] b = refl
has_line-append n (m ∷ a) b = ground (arith, has_line-append n a b)

module _ (lower : Bytes → Bytes) where
  -- The line, if there is one, has a marker for itself, or for the next.
  abbrev pub own_at : Option Bytes → Bool
  unfolding contains_text marks_own
  own_at none = false
  own_at (some line) = contains_text line (b'@' ∷ []) && marks_own lower line

  abbrev pub next_at : Option Bytes → Bool
  unfolding contains_text marks_next
  next_at none = false
  next_at (some line) = contains_text line (b'@' ∷ []) && marks_next lower line

  -- A line of the text is suppressed by a marker on it, or by one on the line before.
  abbrev pub suppressed_at : List Bytes → ℕ → Bool
  suppressed_at lines zero = own_at (get_elem? lines zero)
  suppressed_at lines (suc n) = own_at (get_elem? lines (suc n)) || next_at (get_elem? lines n)

  -- The loop's lines, as tests.
  abbrev in_loop : ℕ → List Bytes → ℕ → Bool
  in_loop idx [] n = false
  in_loop idx (line ∷ lines) n =
      (idx == n && own_at (some line) || idx + 1 == n && next_at (some line))
      || in_loop (suc idx) lines n

  has_line-lines_of :
      (n idx : ℕ) (line : Bytes)
      → idx + 1 < u32_mod
      → has_line n (lines_of lower idx line)
        ≡ ((idx == n && own_at (some line)) || (idx + 1 == n && next_at (some line)))
  unfolding lines_of
  has_line-lines_of n idx line h =
      ground (arith, h, to_u32_small idx (omega (arith, h)), to_u32_small (idx + 1) h)

  has_line-loop :
      (n idx : ℕ) (lines : List Bytes)
      → idx + length lines < u32_mod
      → has_line n (suppressions_loop lower idx lines) ≡ in_loop idx lines n
  unfolding suppressions_loop
  has_line-loop n idx [] h = refl
  has_line-loop n idx (line ∷ lines) h =
      has_line-append n (lines_of lower idx line) (suppressions_loop lower (suc idx) lines)
      ∙ ground (
        arith,
        has_line-lines_of n idx line (omega (arith, h)),
        has_line-loop n (suc idx) lines (omega (arith, h)),
      )

  in_loop-before : (idx : ℕ) (lines : List Bytes) (n : ℕ) → n < idx → in_loop idx lines n ≡ false
  in_loop-before idx [] n h = refl
  in_loop-before idx (line ∷ lines) n h =
      ground (arith, h, in_loop-before (suc idx) lines n (omega (arith, h)))

  in_loop-at :
      (lines : List Bytes) (idx n k : ℕ) → n ≡ idx + k → in_loop idx lines n ≡ suppressed_at lines k
  unfolding own_at next_at
  in_loop-at [] idx n zero h = refl
  in_loop-at [] idx n (suc k) h = refl
  in_loop-at (line ∷ lines) idx n zero h =
      ground (arith, h, in_loop-before (suc idx) lines n (omega (arith, h)))
  in_loop-at (line ∷ lines) idx n (suc zero) h =
      ground (arith, h, in_loop-at lines (suc idx) n zero (omega (arith, h)))
  in_loop-at (line ∷ lines) idx n (suc (suc k)) h =
      ground (arith, h, in_loop-at lines (suc idx) n (suc k) (omega (arith, h)))

  suppressed_lem :
      (text : Bytes) (n : ℕ)
      → length (split_byte b'\n' text) < u32_mod
      → has_line n (collect_inline_diagnostic_suppressions lower text)
        ≡ suppressed_at (split_byte b'\n' text) n
  unfolding collect_inline_diagnostic_suppressions
  suppressed_lem text n h =
      has_line-loop n 0 (split_byte b'\n' text) (omega (arith, h))
      ∙ in_loop-at (split_byte b'\n' text) 0 n n (omega arith)

filter_loop-keep_if :
    (lines : List ℕ) (f : Diagnostic → Bool) (ds : List Diagnostic)
    → ((d : Diagnostic) → not (has_line d.range.start.line lines) ≡ f d)
    → filter_loop lines ds ≡ keep_if f ds
unfolding filter_loop
filter_loop-keep_if lines f [] h = refl
filter_loop-keep_if lines f (d ∷ ds) h = elim (Bool-cases (has_line d.range.start.line lines)) [
  | inl e ↦
      let no : f d ≡ false = ground (arith, e, h d) in rw (e, no) (filter_loop-keep_if lines f ds h)
  | inr e ↦
      let yes : f d ≡ true = ground (arith, e, h d) in
      rw (e, yes) (ap (λ xs. d ∷ xs) (filter_loop-keep_if lines f ds h))
]

filter_loop-nil : (ds : List Diagnostic) → filter_loop [] ds ≡ ds
unfolding filter_loop
filter_loop-nil [] = refl
filter_loop-nil (d ∷ ds) = ap (λ xs. d ∷ xs) (filter_loop-nil ds)

-- The shortcut for no lines returns what the loop would.
filter_suppressed-loop :
    (lines : List ℕ) (ds : List Diagnostic) → filter_suppressed lines ds ≡ filter_loop lines ds
unfolding filter_suppressed filter_loop
filter_suppressed-loop [] [] = ground arith
filter_suppressed-loop (n ∷ lines) [] = ground arith
filter_suppressed-loop [] (d ∷ ds) = ground (arith, filter_loop-nil (d ∷ ds))
filter_suppressed-loop (n ∷ lines) (d ∷ ds) = ground arith

-- In a text of fewer than 2^32 lines, the diagnostics that are kept are those that begin on a line without
-- a marker for itself, behind no line with a marker for the next.
pub filter_suppressed-collect :
    (lower : Bytes → Bytes) (text : Bytes) (ds : List Diagnostic)
    → length (split_byte b'\n' text) < u32_mod
    → filter_suppressed (collect_inline_diagnostic_suppressions lower text) ds
      ≡ keep_if (λ d. not (suppressed_at lower (split_byte b'\n' text) d.range.start.line)) ds
filter_suppressed-collect lower text ds h =
    filter_suppressed-loop (collect_inline_diagnostic_suppressions lower text) ds
    ∙ filter_loop-keep_if (collect_inline_diagnostic_suppressions lower text) _ ds
        (λ d. ap not (suppressed_lem lower text d.range.start.line h))
