-- ===== src/Completion/Access.antt =====
-- server/providers/completion.go: the access to a member that memberAccessAt reads off the end of a text.
use vscode_php_strom.Base.{
  ℕ, ◌-◌, ◌≡◌, ◌≢◌, refl, ap, sym, ◌∙◌, true, false, Option, none, some, [], ◌∷◌, ◌++◌, inl, inr,
  arith, length, length-append, append_assoc, take, take-append, Bool-cases, last_unique,
}
use vscode_php_strom.Text.{Bytes, codes, beq, beq_iff, beq_refl, has_suffix}
use vscode_php_strom.Completion.{MemberAccess, access_in}

-- The access to a member at the end of a text: `?->`, `->` or `::` behind a receiver.
pub data IsAccess (trim_space : Bytes → Bytes) (s : Bytes) (access : Option MemberAccess)
    : Type 0 where
  nullsafe :
      (r : Bytes)
      → s ≡ r ++ codes "?->"
      → access ≡ some (record { receiver = trim_space r; static = false })
      → IsAccess trim_space s access
  arrow :
      (r : Bytes)
      → s ≡ r ++ codes "->"
      → ((q : Bytes) → s ≢ q ++ codes "?->")
      → access ≡ some (record { receiver = trim_space r; static = false })
      → IsAccess trim_space s access
  colons :
      (r : Bytes)
      → s ≡ r ++ codes "::"
      → access ≡ some (record { receiver = trim_space r; static = true })
      → IsAccess trim_space s access
  no_access :
      ((q : Bytes) → s ≢ q ++ codes "->")
      → ((q : Bytes) → s ≢ q ++ codes "::")
      → access ≡ none
      → IsAccess trim_space s access

has_suffix-append : (t r : Bytes) → has_suffix t (r ++ t) ≡ true
unfolding has_suffix
has_suffix-append [] [] = beq_refl []
has_suffix-append (c ∷ t) [] = rw (beq_refl (c ∷ t)) refl
has_suffix-append t (d ∷ r) = elim (Bool-cases (beq (d ∷ (r ++ t)) t)) [
  | inl e ↦ rw e refl
  | inr e ↦ rw e (has_suffix-append t r)
]

has_suffix-split : (t s : Bytes) → has_suffix t s ≡ true → (r : Bytes) × (s ≡ r ++ t)
unfolding has_suffix
has_suffix-split t [] h = ([], (beq_iff [] t).0 h)
has_suffix-split t (c ∷ s) h = elim (Bool-cases (beq (c ∷ s) t)) [
  | inl e ↦ ([], (beq_iff (c ∷ s) t).0 e)
  | inr e ↦
      let later : has_suffix t s ≡ true = ground (arith, e, h) in
      let (r, f) = has_suffix-split t s later in (c ∷ r, ap (λ u. c ∷ u) f)
]

has_suffix-none : (t s : Bytes) → ((r : Bytes) → s ≢ r ++ t) → has_suffix t s ≡ false
has_suffix-none t s h = elim (Bool-cases (has_suffix t s)) [
  | inl e ↦ let (r, f) = has_suffix-split t s e in absurd (h r f)
  | inr e ↦ e
]

take-before : (r t : Bytes) → take (length (r ++ t) - length t) (r ++ t) ≡ r
take-before r t =
    let e : length (r ++ t) - length t ≡ length r = omega (arith, length-append r t) in
    ap (λ n. take n (r ++ t)) e ∙ take-append r t

-- Two texts with different last bytes.
other_end : (r q : Bytes) (t u : Bytes) (b c : ℕ) → b ≢ c → r ++ (t ++ b ∷ []) ≢ q ++ (u ++ c ∷ [])
other_end r q t u b c h e = h (
    last_unique (r ++ t) (q ++ u) b c
      (append_assoc r t (b ∷ []) ∙ e ∙ sym (append_assoc q u (c ∷ []))))

module _ (trim_space trim_right_space : Bytes → Bytes) where
  access_in-nullsafe :
      (r : Bytes)
      → access_in trim_space trim_right_space (r ++ codes "?->")
        ≡ some (record { receiver = trim_space r; static = false })
  access_in-nullsafe r =
      rw (has_suffix-append (codes "?->") r) (rw (take-before r (codes "?->")) refl)

  access_in-arrow :
      (r : Bytes)
      → ((q : Bytes) → r ++ codes "->" ≢ q ++ codes "?->")
      → access_in trim_space trim_right_space (r ++ codes "->")
        ≡ some (record { receiver = trim_space r; static = false })
  access_in-arrow r h =
      rw (has_suffix-none (codes "?->") (r ++ codes "->") h, has_suffix-append (codes "->") r)
        (rw (take-before r (codes "->")) refl)

  access_in-colons :
      (r : Bytes)
      → access_in trim_space trim_right_space (r ++ codes "::")
        ≡ some (record { receiver = trim_space r; static = true })
  access_in-colons r =
      let differ : b':' ≢ b'>' = λ e. absurd (omega (arith, e)) in
      let no_nullsafe : has_suffix (codes "?->") (r ++ codes "::") ≡ false =
        has_suffix-none (codes "?->") (r ++ codes "::")
          (λ q. other_end r q (codes ":") (codes "?-") b':' b'>' differ) in
      let no_arrow : has_suffix (codes "->") (r ++ codes "::") ≡ false =
        has_suffix-none (codes "->") (r ++ codes "::")
          (λ q. other_end r q (codes ":") (codes "-") b':' b'>' differ) in
      rw (no_nullsafe, no_arrow, has_suffix-append (codes "::") r)
        (rw (take-before r (codes "::")) refl)

  pub access_in-IsAccess :
      (s : Bytes) (access : Option MemberAccess)
      → IsAccess trim_space s access
      → access_in trim_space trim_right_space s ≡ access
  access_in-IsAccess s access (IsAccess.nullsafe r e a) =
      ap (access_in trim_space trim_right_space) e ∙ access_in-nullsafe r ∙ sym a
  access_in-IsAccess s access (IsAccess.arrow r e h a) =
      ap (access_in trim_space trim_right_space) e ∙ access_in-arrow r (λ q f. h q (e ∙ f)) ∙ sym a
  access_in-IsAccess s access (IsAccess.colons r e a) =
      ap (access_in trim_space trim_right_space) e ∙ access_in-colons r ∙ sym a
  access_in-IsAccess s access (IsAccess.no_access h k a) =
      rw
        (
          has_suffix-none (codes "?->") s
              (λ q e. h (q ++ codes "?") (e ∙ sym (append_assoc q (codes "?") (codes "->")))),
          has_suffix-none (codes "->") s h,
          has_suffix-none (codes "::") s k,
        )
        (sym a)
