-- ===== src/Server/Frames.antt =====
-- server/phpstrom/server.go: readMessage and Run on messages as writeJSON frames them.
use vscode_php_strom.Base.{
  ℕ, zero, suc, ◌+◌, ◌/◌, ◌%◌, ◌≤◌, ◌<◌, ◌≡◌, refl, ◌∙◌, Bool, true, not, ◌&&◌, ◌||◌, Option, some,
  List, [], ◌∷◌, ◌++◌, arith, ◌==◌, ltb, leb, length, length-append, take-append, drop-append,
  append_assoc, le→ltb, inl, inr, Bool-cases,
}
use vscode_php_strom.Text.{Bytes, has_prefix, trim_prefix}
use vscode_php_strom.Server.Number.{ℤ, decimal, decimal_loop, int_max, atoi-decimal}
use vscode_php_strom.Server.{
  ReadError, read_string, trim_right, content_length, header_length, Header, Read, header_loop,
  read_body, read_after, read_message, frame, RequestMessage, Server, dispatch, run_loop, run,
}

-- No character of a line break.
abbrev plain : Bytes → Bool
plain [] = true
plain (c ∷ cs) = not (c == b'\r' || c == b'\n') && plain cs

plain-append : (a b : Bytes) → plain a ≡ true → plain b ≡ true → plain (a ++ b) ≡ true
plain-append [] b h k = k
plain-append (c ∷ a) b h k = ground (arith, h, plain-append a b)

plain-decimal_loop : (fuel n : ℕ) → plain (decimal_loop fuel n) ≡ true
unfolding decimal_loop
plain-decimal_loop zero n = refl
plain-decimal_loop (suc fuel) n = elim (Bool-cases (ltb n 10)) [
  | inl e ↦ rw e (ground (arith, e))
  | inr e ↦ rw e (
      plain-append (decimal_loop fuel (n / 10)) ((b'0' + n % 10) ∷ [])
        (plain-decimal_loop fuel (n / 10)) (ground arith))
]

read_string-line :
    (l rest : Bytes)
    → plain l ≡ true
    → read_string (l ++ b'\r' ∷ b'\n' ∷ rest) ≡ some (l ++ b'\r' ∷ b'\n' ∷ [], rest)
unfolding read_string
read_string-line [] rest h = refl
read_string-line (c ∷ l) rest h =
    rw (read_string-line l rest (ground (arith, h)), read_string) (ground (arith, h))

trim_right-line : (l : Bytes) → plain l ≡ true → trim_right (l ++ b'\r' ∷ b'\n' ∷ []) ≡ l
unfolding trim_right
trim_right-line [] h = refl
trim_right-line (c ∷ []) h = ground (arith, h)
trim_right-line (c ∷ d ∷ l) h = rw (trim_right-line (d ∷ l) (ground (arith, h)), trim_right) refl

header_length-content_length :
    (n : ℕ) (m : ℤ) → n ≤ int_max → header_length (content_length ++ decimal n) m ≡ some (ℤ.pos n)
unfolding header_length trim_prefix has_prefix
header_length-content_length n m h = atoi-decimal n h

header_loop-line :
    (fuel c : ℕ) (n m : ℤ) (input line rest cs : Bytes)
    → read_string input ≡ some (line, rest)
    → trim_right line ≡ c ∷ cs
    → header_length (c ∷ cs) n ≡ some m
    → header_loop (suc fuel) n input ≡ header_loop fuel m rest
unfolding header_loop
header_loop-line fuel c n m input line rest cs h k l =
    rw (h, header_loop) (rw (k, header_loop) (rw (l, header_loop) refl))

header_loop-end :
    (fuel : ℕ) (n : ℤ) (rest : Bytes)
    → header_loop (suc fuel) n (b'\r' ∷ b'\n' ∷ rest) ≡ Header.body n rest
unfolding header_loop read_string trim_right
header_loop-end fuel n rest = refl

plain-length_line : (n : ℕ) → plain (content_length ++ decimal n) ≡ true
unfolding decimal
plain-length_line n = plain-decimal_loop (suc n) n

-- Two lines of header, the length and the empty one.
header_loop-lines :
    (fuel n : ℕ) (rest : Bytes)
    → n ≤ int_max
    → header_loop
        (suc (suc fuel))
        (ℤ.pos 0)
        ((content_length ++ decimal n) ++ b'\r' ∷ b'\n' ∷ b'\r' ∷ b'\n' ∷ rest)
      ≡ Header.body (ℤ.pos n) rest
header_loop-lines fuel n rest h =
    header_loop-line (suc fuel) _ (ℤ.pos 0) (ℤ.pos n) _ _ (b'\r' ∷ b'\n' ∷ rest) _
      (read_string-line (content_length ++ decimal n) (b'\r' ∷ b'\n' ∷ rest) (plain-length_line n))
      (trim_right-line (content_length ++ decimal n) (plain-length_line n))
      (header_length-content_length n (ℤ.pos 0) h)
    ∙ header_loop-end fuel (ℤ.pos n) rest

read_body-all :
    (msg rest : Bytes)
    → 0 < length msg
    → read_body (ℤ.pos (length msg)) (msg ++ rest) ≡ Read.message msg rest
unfolding read_body
read_body-all [] rest h = absurd (omega arith)
read_body-all (c ∷ msg) rest h =
    rw
      (
        le→ltb (length (c ∷ msg ++ rest)) (suc (length msg))
            (omega (arith, length-append msg rest)),
        take-append msg rest,
        drop-append msg rest,
      )
      refl

message_lines :
    (msg rest : Bytes)
    → length msg ≤ int_max
    → header_loop (suc (length (frame msg ++ rest))) (ℤ.pos 0) (frame msg ++ rest)
      ≡ Header.body (ℤ.pos (length msg)) (msg ++ rest)
unfolding frame
message_lines msg rest k =
    rw (append_assoc (decimal (length msg)) (b'\r' ∷ b'\n' ∷ b'\r' ∷ b'\n' ∷ msg) rest)
      (header_loop-lines _ (length msg) (msg ++ rest) k)

-- A framed message that is not empty, and not longer than an int can say, is read back, whatever
-- follows it.
pub read_message-frame :
    (msg rest : Bytes)
    → 0 < length msg
    → length msg ≤ int_max
    → read_message (frame msg ++ rest) ≡ Read.message msg rest
unfolding read_message read_after
read_message-frame msg rest h k = rw (message_lines msg rest k) (read_body-all msg rest h)

-- What a client sends that frames its messages as writeJSON does.
abbrev pub frames : List Bytes → Bytes
unfolding frame
frames [] = []
frames (m ∷ ms) = frame m ++ frames ms

-- No message is empty, or longer than an int can say.
abbrev pub sized : List Bytes → Bool
sized [] = true
sized (m ∷ ms) = ltb 0 (length m) && leb (length m) int_max && sized ms

length-frame : (m rest : Bytes) → length rest < length (frame m ++ rest)
unfolding frame
length-frame m rest = omega (arith, length-append (frame m) rest)

module _ {ℓ} {Handler : Type ℓ} (unmarshal : Bytes → Option RequestMessage)
    (handle_notification : Bytes → Bytes → Server Handler → Server Handler)
    (handle_request : Bytes → Bytes → Bytes → Server Handler → Server Handler × Option Bytes) where
  abbrev pub dispatch_all : Server Handler → List Bytes → Server Handler
  dispatch_all s [] = s
  dispatch_all s (m ∷ ms) =
      dispatch_all (dispatch unmarshal handle_notification handle_request s m) ms

  run_loop-frames :
      (ms : List Bytes) (fuel : ℕ) (s : Server Handler)
      → sized ms ≡ true
      → length (frames ms) < fuel
      → run_loop unmarshal handle_notification handle_request fuel s (frames ms)
        ≡ (dispatch_all s ms, ReadError.eof)
  unfolding run_loop
  run_loop-frames ms zero s h k = absurd (omega arith)
  run_loop-frames [] (suc fuel) s h k = refl
  run_loop-frames (m ∷ ms) (suc fuel) s h k =
      let read = read_message-frame m (frames ms) (ground (arith, h)) (ground (arith, h)) in
      let after = dispatch unmarshal handle_notification handle_request s m in
      rw (read, run_loop)
        (run_loop-frames ms fuel after (ground (arith, h))
          (omega (arith, k, length-frame m (frames ms))))

  -- From a client that frames its messages, none of them empty or longer than an int can say, Run
  -- dispatches each of them once, in their order, and then ends without an error.
  pub run-frames :
      (s : Server Handler) (ms : List Bytes)
      → sized ms ≡ true
      → run unmarshal handle_notification handle_request s (frames ms)
        ≡ (dispatch_all s ms, ReadError.eof)
  unfolding run
  run-frames s ms h = run_loop-frames ms (suc (length (frames ms))) s h (omega arith)
