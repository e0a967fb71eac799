-- ===== src/Handler/Scan.antt =====
-- server/phpstrom/handler.go: workspaceDiagnosticsScanState.allow, which many goroutines call at once.
-- A step is one atomic operation of one of them; counts are not negative, as lengths of lists, and
-- stay below 2^63.
use vscode_php_strom.Base.{
  ℕ, ◌+◌, ◌≤◌, ◌≡◌, refl, ap, sym, ◌∙◌, Bool, true, false, not, ◌||◌, List, [], ◌∷◌, ◌++◌, ◌==◌,
  leb, ltb, arith, if◌then◌else◌, inl, inr, Bool-cases, leb→le, ==_iff,
}

-- A call of `allow` with a count: before it, in the loop, after the load of a total, before the flag
-- is stored, and back with its result.
pub data Call : Type 0 where
  entered : ℕ → Call
  trying : ℕ → Call
  loaded : ℕ → ℕ → Call
  refusing : ℕ → Call
  returned : ℕ → Bool → Call

pub record ScanState : Type 0 where
  pub total_diagnostics : ℕ
  pub is_capped : Bool
  pub limit : ℕ
  pub calls : List Call

abbrev pub workspace_diagnostics_limit : ℕ
workspace_diagnostics_limit = 20000

abbrev pub entered_all : List ℕ → List Call
entered_all [] = []
entered_all (n ∷ ns) = entered n ∷ entered_all ns

-- No diagnostics are counted, and the calls are to begin.
abbrev pub new_scan_state_with_limit : ℕ → List ℕ → ScanState
new_scan_state_with_limit limit counts = record {
  total_diagnostics = 0;
  is_capped = false;
  limit = limit;
  calls = entered_all counts;
}

abbrev pub new_scan_state : List ℕ → ScanState
new_scan_state counts = new_scan_state_with_limit workspace_diagnostics_limit counts

-- The next atomic operation of a call.
unfoldable pub allow_step : ScanState → Call → ScanState × Call
allow_step s (entered count) =
    if leb count 0 then (s, returned count (not s.is_capped)) else (s, trying count)
allow_step s (trying count) = (s, loaded count s.total_diagnostics)
allow_step s (loaded count current) =
    if leb s.limit current || ltb s.limit (current + count)
    then (s, refusing count)
    else if s.total_diagnostics == current
    then (record s { total_diagnostics = current + count }, returned count true)
    else (s, trying count)
allow_step s (refusing count) = (record s { is_capped = true }, returned count false)
allow_step s (returned count allowed) = (s, returned count allowed)

unfoldable pub after_step : ScanState → List Call → Call → List Call → ScanState
unfolding allow_step
after_step s before c after = record (allow_step s c).0 {
  calls = before ++ (allow_step s c).1 ∷ after;
}

pub data Step : ScanState → ScanState → Type 0 where
  ran :
      {s : ScanState} (before : List Call) (c : Call) (after : List Call)
      → s.calls ≡ before ++ c ∷ after
      → Step s (after_step s before c after)

pub data Reachable (limit : ℕ) (counts : List ℕ) : ScanState → Type 0 where
  start : Reachable limit counts (new_scan_state_with_limit limit counts)
  next : {s t : ScanState} → Reachable limit counts s → Step s t → Reachable limit counts t

-- What one call, and what all of them, were allowed.
abbrev pub granted_to : Call → ℕ
granted_to (returned count true) = count
granted_to _ = 0

abbrev pub granted : List Call → ℕ
granted [] = 0
granted (c ∷ cs) = granted_to c + granted cs

granted-append : (xs ys : List Call) → granted (xs ++ ys) ≡ granted xs + granted ys
granted-append [] ys = omega arith
granted-append (x ∷ xs) ys = omega (arith, granted-append xs ys)

granted-entered_all : (counts : List ℕ) → granted (entered_all counts) ≡ 0
granted-entered_all [] = refl
granted-entered_all (n ∷ ns) = omega (arith, granted-entered_all ns)

-- The total is what the calls were allowed, and is within the limit.
pub record IsWithin (limit : ℕ) (s : ScanState) : Type 0 where
  pub same_limit : s.limit ≡ limit
  pub counted : s.total_diagnostics ≡ granted s.calls
  pub within : s.total_diagnostics ≤ limit

-- An operation adds to the total what it allows, and no more than the limit leaves.
record AddsGranted (s : ScanState) (c : Call) (r : ScanState × Call) : Type 0 where
  keeps_limit : r.0.limit ≡ s.limit
  adds : r.0.total_diagnostics + granted_to c ≡ s.total_diagnostics + granted_to r.1
  stays : s.total_diagnostics ≤ s.limit → r.0.total_diagnostics ≤ s.limit

granted_to-zero : (count : ℕ) (allowed : Bool) → count ≤ 0 → granted_to (returned count allowed) ≡ 0
granted_to-zero count true h = omega arith
granted_to-zero count false h = refl

allow_step-AddsGranted : (s : ScanState) (c : Call) → AddsGranted s c (allow_step s c)
unfolding allow_step
allow_step-AddsGranted s (entered count) = elim (Bool-cases (leb count 0)) [
  | inl e ↦ rw e (record {
    keeps_limit = refl;
    adds = omega (arith, granted_to-zero count (not s.is_capped) (leb→le count 0 e));
    stays = λ h. h;
  })
  | inr e ↦ rw e (record { keeps_limit = refl; adds = refl; stays = λ h. h })
]
allow_step-AddsGranted s (trying count) = record { keeps_limit = refl; adds = refl; stays = λ h. h }
allow_step-AddsGranted s (loaded count current) =
    elim (Bool-cases (leb s.limit current || ltb s.limit (current + count))) [
      | inl e ↦ rw e (record { keeps_limit = refl; adds = refl; stays = λ h. h })
      | inr e ↦ elim (Bool-cases (s.total_diagnostics == current)) [
        | inl f ↦
            rw (e, f)
              (record {
                keeps_limit = refl;
                adds = omega (arith, (==_iff s.total_diagnostics current).0 f);
                stays = λ h. ground (arith, e);
              })
        | inr f ↦ rw (e, f) (record { keeps_limit = refl; adds = refl; stays = λ h. h })
      ]
    ]
allow_step-AddsGranted s (refusing count) = record {
  keeps_limit = refl;
  adds = refl;
  stays = λ h. h;
}
allow_step-AddsGranted s (returned count allowed) = record {
  keeps_limit = refl;
  adds = refl;
  stays = λ h. h;
}

after_step-IsWithin :
    (limit : ℕ) (s : ScanState) (before : List Call) (c : Call) (after : List Call)
    → s.calls ≡ before ++ c ∷ after
    → IsWithin limit s
    → IsWithin limit (after_step s before c after)
unfolding after_step
after_step-IsWithin limit s before c after e w =
    let a = allow_step-AddsGranted s c in
    let moved = (allow_step s c).1 in
    record {
      same_limit = a.keeps_limit ∙ w.same_limit;
      counted = omega (
        arith,
        a.adds,
        w.counted,
        ap granted e,
        granted-append before (c ∷ after),
        granted-append before (moved ∷ after),
      );
      within =
          let kept = a.stays (omega (arith, w.within, w.same_limit)) in
          omega (arith, kept, w.same_limit);
    }

Step-IsWithin : (limit : ℕ) {s t : ScanState} → Step s t → IsWithin limit s → IsWithin limit t
Step-IsWithin limit (Step.ran {s} before c after e) w =
    after_step-IsWithin limit s before c after e w

-- However the calls of `allow` interleave, the total is the sum of the counts that were allowed,
-- and it is never above the limit.
pub Reachable-IsWithin :
    {limit : ℕ} {counts : List ℕ} {s : ScanState} → Reachable limit counts s → IsWithin limit s
Reachable-IsWithin {limit} {counts} Reachable.start = record {
  same_limit = refl;
  counted = sym (granted-entered_all counts);
  within = omega arith;
}
Reachable-IsWithin {limit} (Reachable.next r e) = Step-IsWithin limit e (Reachable-IsWithin r)
