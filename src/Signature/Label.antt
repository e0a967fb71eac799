-- ===== src/Signature/Label.antt =====
-- server/providers/signature_help.go: the spans of the parameters in the label of a signature, and the
-- active parameter.
use vscode_php_strom.Base.{
  ℕ, suc, ◌-◌, ◌<◌, ◌≡◌, refl, ap, sym, ◌∙◌, Bool, true, false, none, some, List, [], ◌∷◌, ◌++◌,
  append_assoc, append-nil, arith, ltb, if◌then◌else◌, length, take, drop, length-append,
  take-append, drop-append, List-cases, inl, inr,
}
use vscode_php_strom.Index.{Symbol, SymbolParam}
use vscode_php_strom.Lsp.{u32_mod, to_u32, to_u32_small, ParameterInformation, SignatureInformation}
use vscode_php_strom.Text.{Bytes, codes, slice}
use vscode_php_strom.Signature.{
  render_param, label_loop, signature_information, is_last_variadic, clamp_active,
  build_signature_help,
}

-- What the spans cut out of a label.
abbrev pub cut_all : Bytes → List ParameterInformation → List Bytes
cut_all label [] = []
cut_all label (info ∷ infos) = slice label info.label.0 info.label.1 ∷ cut_all label infos

abbrev pub render_all : List SymbolParam → List Bytes
render_all [] = []
render_all (p ∷ params) = render_param p ∷ render_all params

slice-append : (a b c : Bytes) → slice (a ++ b ++ c) (length a) (length (a ++ b)) ≡ b
slice-append a b c =
    let size : length (a ++ b) - length a ≡ length b = omega (arith, length-append a b) in
    ap (λ t. take (length (a ++ b) - length a) t)
      (ap (drop (length a)) (append_assoc a b c) ∙ drop-append a (b ++ c))
    ∙ ap (λ n. take n (b ++ c)) size
    ∙ take-append b c

abbrev opened : Bool → Bytes → Bytes
opened first sb = if first then sb else sb ++ codes ", "

-- The loop writes behind what it is given.
label_loop-extends :
    (params : List SymbolParam) (first : Bool) (sb : Bytes)
    → (rest : Bytes) × ((label_loop params first sb).0 ≡ sb ++ rest)
unfolding label_loop
label_loop-extends [] first sb = ([], sym (append-nil sb))
label_loop-extends (p ∷ params) true sb =
    let (rest, e) = label_loop-extends params false (sb ++ render_param p) in
    (render_param p ++ rest, e ∙ append_assoc sb (render_param p) rest)
label_loop-extends (p ∷ params) false sb =
    let (rest, e) = label_loop-extends params false (sb ++ codes ", " ++ render_param p) in
    (
      codes ", " ++ (render_param p ++ rest),
      e
          ∙ append_assoc (sb ++ codes ", ") (render_param p) rest
          ∙ append_assoc sb (codes ", ") (render_param p ++ rest),
    )

label_loop-cuts :
    (params : List SymbolParam) (first : Bool) (sb tail : Bytes)
    → length (label_loop params first sb).0 < u32_mod
    → cut_all ((label_loop params first sb).0 ++ tail) (label_loop params first sb).1
      ≡ render_all params
unfolding label_loop
label_loop-cuts [] first sb tail h = refl
label_loop-cuts (p ∷ params) first sb tail h =
    let a = opened first sb in
    let closed = a ++ render_param p in
    let (rest, e) = label_loop-extends params false closed in
    let total = length-append closed rest in
    let whole : length (label_loop params false closed).0 ≡ length (closed ++ rest) = ap length e in
    let part = length-append a (render_param p) in
    let start = to_u32_small (length a) (omega (arith, h, total, part, whole)) in
    let end = to_u32_small (length closed) (omega (arith, h, total, part, whole)) in
    let text : (label_loop params false closed).0 ++ tail ≡ closed ++ (rest ++ tail) =
      ap (λ t. t ++ tail) e ∙ append_assoc closed rest tail in
    let first_cut : slice ((label_loop params false closed).0 ++ tail) (to_u32 (length a))
          (to_u32 (length closed))
        ≡ render_param p =
      rw (text, start, end) (slice-append a (render_param p) (rest ++ tail)) in
    rw (first_cut, label_loop-cuts params false closed tail h) refl

label_loop-length :
    (params : List SymbolParam) (first : Bool) (sb : Bytes)
    → length (label_loop params first sb).1 ≡ length params
unfolding label_loop
label_loop-length [] first sb = refl
label_loop-length (p ∷ params) first sb =
    ap suc (label_loop-length params false (opened first sb ++ render_param p))

abbrev head_or : SignatureInformation → List SignatureInformation → SignatureInformation
head_or d [] = d
head_or d (sig ∷ sigs) = sig

-- The help has one signature.
one_signature :
    (symbol : Symbol) (given : ℕ) (sig : SignatureInformation)
    → (build_signature_help symbol given).signatures ≡ sig ∷ []
    → signature_information symbol (clamp_active symbol.params given) ≡ sig
unfolding build_signature_help
one_signature symbol given sig h = ap (head_or sig) h

label-extends :
    (symbol : Symbol) (active : ℕ)
    → (tail : Bytes) × ((signature_information symbol active).label
        ≡ (label_loop symbol.params true (symbol.name ++ b'(' ∷ [])).0 ++ tail)
unfolding signature_information
label-extends symbol active =
    let listed = (label_loop symbol.params true (symbol.name ++ b'(' ∷ [])).0 in
    elim (List-cases symbol.return_type) [
      | inl e ↦ (b')' ∷ [], rw e refl)
      | inr (c, cs, e) ↦ (
        b')' ∷ (codes ": " ++ c ∷ cs),
        rw e (append_assoc listed (b')' ∷ []) (codes ": " ++ c ∷ cs)),
      )
    ]

signature_information-cuts :
    (symbol : Symbol) (active : ℕ)
    → length (signature_information symbol active).label < u32_mod
    → cut_all
        (signature_information symbol active).label
        (signature_information symbol active).parameters
      ≡ render_all symbol.params
unfolding signature_information
signature_information-cuts symbol active h =
    let sb = symbol.name ++ b'(' ∷ [] in
    let (tail, e) = label-extends symbol active in
    let listed = (label_loop symbol.params true sb).0 in
    let size : length (signature_information symbol active).label ≡ length (listed ++ tail) =
      ap length e in
    ap (λ t. cut_all t (label_loop symbol.params true sb).1) e
    ∙ label_loop-cuts symbol.params true sb tail (omega (arith, h, size, length-append listed tail))

-- The spans of the parameters cut, one after the other, the text of each parameter out of the label, for a
-- label of fewer than 2^32 bytes. The spans count bytes.
pub build_signature_help-cuts :
    (symbol : Symbol) (given : ℕ) (sig : SignatureInformation)
    → (build_signature_help symbol given).signatures ≡ sig ∷ []
    → length sig.label < u32_mod
    → cut_all sig.label sig.parameters ≡ render_all symbol.params
build_signature_help-cuts symbol given sig h small =
    let e = one_signature symbol given sig h in
    rw (sym e) (
      signature_information-cuts symbol (clamp_active symbol.params given) (
        let same : length (signature_information symbol (clamp_active symbol.params given)).label
            ≡ length sig.label =
          ap (λ s. length s.label) e in
        omega (arith, small, same)))

variadic_some : (params : List SymbolParam) → is_last_variadic params ≡ true → 0 < length params
variadic_some [] h = cc
variadic_some (p ∷ params) h = omega arith

-- The active parameter of the signature is the one at the position of the cursor; behind the last
-- parameter it is the last if that takes any number of arguments, and there is none if not.
pub build_signature_help-active :
    (symbol : Symbol) (given : ℕ) (sig : SignatureInformation)
    → (build_signature_help symbol given).signatures ≡ sig ∷ []
    → sig.active_parameter ≡ (
        if ltb given (length symbol.params)
        then some given
        else if is_last_variadic symbol.params
        then some (length symbol.params - 1)
        else none)
unfolding signature_information clamp_active
build_signature_help-active symbol given sig h =
    sym (ap (λ s. s.active_parameter) (one_signature symbol given sig h))
    ∙ ground (
      arith,
      variadic_some symbol.params,
      label_loop-length symbol.params true (symbol.name ++ b'(' ∷ []),
    )
