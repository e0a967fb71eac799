-- ===== src/Handler/Armed.antt =====
-- Lists of scheduled work, of server/phpstrom/handler.go.
use vscode_php_strom.Base.{
  ℕ, ◌≡◌, refl, ap, Bool, true, false, not, ◌&&◌, List, [], ◌∷◌, ◌++◌, ◌==◌, arith,
}
use vscode_php_strom.Handler.Schedule.{Work, disarm, is_armed}

abbrev pub all : (Work → Bool) → List Work → Bool
all f [] = true
all f (w ∷ ws) = f w && all f ws

pub all_imp :
    {f g h : Work → Bool} (ws : List Work)
    → ((w : Work) → f w ≡ true → g w ≡ true → h w ≡ true)
    → all f ws ≡ true
    → all g ws ≡ true
    → all h ws ≡ true
all_imp [] i a b = refl
all_imp (w ∷ ws) i a b = ground (arith, a, b, i w, all_imp ws i)

pub all-disarm :
    (f : Work → Bool) (timer : ℕ) (ws : List Work)
    → all f ws ≡ true
    → all (λ w. f w && not (w.timer == timer)) (disarm timer ws) ≡ true
all-disarm f timer [] a = refl
all-disarm f timer (w ∷ ws) a = ground (arith, a, all-disarm f timer ws)

pub all-append : (f : Work → Bool) (xs ys : List Work) → all f (xs ++ ys) ≡ (all f xs && all f ys)
all-append f [] ys = refl
all-append f (x ∷ xs) ys = ground (arith, all-append f xs ys)

pub is_armed-disarm :
    (t timer : ℕ) (ws : List Work)
    → is_armed t (disarm timer ws) ≡ (is_armed t ws && not (t == timer))
is_armed-disarm t timer [] = refl
is_armed-disarm t timer (w ∷ ws) = ground (arith, is_armed-disarm t timer ws)

pub not_armed :
    (timer : ℕ) (ws : List Work)
    → is_armed timer ws ≡ false
    → all (λ w. not (w.timer == timer)) ws ≡ true
not_armed timer [] h = refl
not_armed timer (w ∷ ws) h = ground (arith, h, not_armed timer ws)

pub without :
    (f : Work → Bool) (w : Work) (before after ws : List Work)
    → ws ≡ before ++ w ∷ after
    → all f ws ≡ true
    → all f (before ++ after) ≡ true
without f w before after ws e h =
    let same : all f ws ≡ all f (before ++ w ∷ after) = ap (all f) e in
    ground (arith, same, h, all-append f before after, all-append f before (w ∷ after))
