-- ===== src/Server/Fuel.antt =====
-- server/phpstrom/server.go: the loops of readMessage and Run, and what they leave unread.
use vscode_php_strom.Base.{
  ℕ, zero, suc, ◌≤◌, ◌<◌, ◌≡◌, ◌≢◌, refl, Option, some, [], ◌∷◌, arith, ltb, length, length-drop,
  ◌⊎◌, inl, inr, List-cases, Option-cases, Bool-cases,
}
use mathlib.Core.Path.{subst}
use vscode_php_strom.Text.{Bytes}
use vscode_php_strom.Server.Number.{ℤ}
use vscode_php_strom.Server.{
  ReadError, read_string, trim_right, header_length, Header, Read, header_loop, read_body,
  read_after, read_message, RequestMessage, Server, dispatch, run_loop, run,
}

-- What is left behind a header or a message is shorter than `n`, and the fuel was enough.
abbrev pub HeaderWithin : ℕ → Header → Type 0
HeaderWithin n (Header.stopped e) = e ≢ ReadError.out_of_fuel
HeaderWithin n (Header.body m rest) = length rest < n

abbrev pub ReadWithin : ℕ → Read → Type 0
ReadWithin n (Read.failed e) = e ≢ ReadError.out_of_fuel
ReadWithin n (Read.message msg rest) = length rest < n

read_string-shorter :
    (input line rest : Bytes) → read_string input ≡ some (line, rest) → length rest < length input
unfolding read_string
read_string-shorter [] line rest h = cc
read_string-shorter (c ∷ cs) line rest h = elim (Option-cases (read_string cs)) [
  | inl e ↦ ground (arith, h, e)
  | inr ((l, r), e) ↦ ground (arith, h, e, read_string-shorter cs l r e)
]

HeaderWithin-le : (m n : ℕ) (h : Header) → m ≤ n → HeaderWithin m h → HeaderWithin n h
HeaderWithin-le m n (Header.stopped e) k w = w
HeaderWithin-le m n (Header.body z rest) k w = omega arith

header_loop-within :
    (fuel : ℕ) (n : ℤ) (input : Bytes)
    → length input < fuel
    → HeaderWithin (length input) (header_loop fuel n input)
unfolding header_loop
header_loop-within zero n input h = absurd (omega arith)
header_loop-within (suc fuel) n input h = elim (Option-cases (read_string input)) [
  | inl e ↦ rw (e, header_loop) (λ p. cc)
  | inr ((line, rest), e) ↦
      let shorter = read_string-shorter input line rest e in
      elim (List-cases (trim_right line)) [
        | inl t ↦ rw (e, header_loop) (rw (t, header_loop) shorter)
        | inr (c, cs, t) ↦ elim (Option-cases (header_length (c ∷ cs) n)) [
          | inl k ↦ rw (e, header_loop) (rw (t, header_loop) (rw (k, header_loop) (λ p. cc)))
          | inr (m, k) ↦
              rw (e, header_loop)
                (rw (t, header_loop)
                  (rw (k, header_loop)
                    (HeaderWithin-le (length rest) (length input) (header_loop fuel m rest)
                      (omega (arith, shorter))
                      (header_loop-within fuel m rest (omega (arith, shorter))))))
        ]
      ]
]

read_body-within :
    (n : ℤ) (input : Bytes) (k : ℕ) → length input < k → ReadWithin k (read_body n input)
unfolding read_body
read_body-within (ℤ.pos zero) input k h = λ p. cc
read_body-within (ℤ.negsuc n) input k h = λ p. cc
read_body-within (ℤ.pos (suc n)) [] k h = λ p. cc
read_body-within (ℤ.pos (suc n)) (c ∷ cs) k h = elim (Bool-cases (ltb (length (c ∷ cs)) (suc n))) [
  | inl e ↦ rw (e, read_body) (λ p. cc)
  | inr e ↦ rw (e, read_body) (omega (arith, h, length-drop n cs))
]

read_after-within : (h : Header) (k : ℕ) → HeaderWithin k h → ReadWithin k (read_after h)
unfolding read_after
read_after-within (Header.stopped e) k w = w
read_after-within (Header.body n rest) k w = read_body-within n rest k w

-- A message that is read leaves less than there was, and no headers run out of fuel.
read_message-within : (input : Bytes) → ReadWithin (length input) (read_message input)
unfolding read_message
read_message-within input =
    read_after-within (header_loop (suc (length input)) (ℤ.pos 0) input) (length input)
      (header_loop-within (suc (length input)) (ℤ.pos 0) input (omega arith))

pub Read-cases :
    (r : Read)
    → ((e : ReadError) × (r ≡ Read.failed e))
      ⊎ ((m : Bytes) × (rest : Bytes) × (r ≡ Read.message m rest))
Read-cases (Read.failed e) = inl (e, refl)
Read-cases (Read.message m rest) = inr (m, rest, refl)

module _ {ℓ} {Handler : Type ℓ} (unmarshal : Bytes → Option RequestMessage)
    (handle_notification : Bytes → Bytes → Server Handler → Server Handler)
    (handle_request : Bytes → Bytes → Bytes → Server Handler → Server Handler × Option Bytes) where
  run_loop-ends :
      (fuel : ℕ) (s : Server Handler) (input : Bytes)
      → length input < fuel
      → (run_loop unmarshal handle_notification handle_request fuel s input).1
        ≢ ReadError.out_of_fuel
  unfolding run_loop
  run_loop-ends zero s input h = absurd (omega arith)
  run_loop-ends (suc fuel) s input h =
      let within = read_message-within input in
      elim (Read-cases (read_message input)) [
        | inl (e, p) ↦ rw (p, run_loop) (subst (ReadWithin (length input)) p within)
        | inr (m, rest, p) ↦
            rw (p, run_loop)
              (run_loop-ends fuel (dispatch unmarshal handle_notification handle_request s m) rest (
                let shorter = subst (ReadWithin (length input)) p within in omega (arith, shorter)))
      ]

  -- Run ends on every input: the fuel, one more than the bytes of the input, is enough for the loop
  -- over the messages and for each loop over headers.
  pub run-ends :
      (s : Server Handler) (input : Bytes)
      → (run unmarshal handle_notification handle_request s input).1 ≢ ReadError.out_of_fuel
  unfolding run
  run-ends s input = run_loop-ends (suc (length input)) s input (omega arith)
