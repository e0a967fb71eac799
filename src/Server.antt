-- ===== src/Server.antt =====
-- server/phpstrom/server.go: the JSON-RPC transport. The reader is the list of the bytes that the client
-- still sends, and its end is the end of the stream; the writer keeps what is written and never fails.
-- encoding/json is a parameter, and so is the handler, which may write to the client too.
pub mod Number
pub mod Fuel
pub mod Frames
mod Tests
use vscode_php_strom.Base.{
  ℕ, zero, suc, ◌||◌, Option, none, some, List, [], ◌∷◌, ◌++◌, ◌==◌, ltb, if◌then◌else◌, length,
  take, drop,
}
use vscode_php_strom.Text.{Bytes, codes, has_prefix, trim_prefix}
use vscode_php_strom.Server.Number.{ℤ, atoi, decimal}

-- `io.EOF`, `io.ErrUnexpectedEOF`, the errors that the code makes, and the panic of `make` with a
-- negative length. The last is of the model only.
pub data ReadError : Type 0 where
  eof : ReadError
  unexpected_eof : ReadError
  bad_content_length : ReadError
  missing_content_length : ReadError
  negative_length : ReadError
  out_of_fuel : ReadError

-- `ReadString('\n')`: the line with its newline, and what is behind it.
unfoldable pub read_string : Bytes → Option (Bytes × Bytes)
read_string [] = none
read_string (c ∷ cs) =
    let later = read_string cs in
    if c == b'\n'
    then some (c ∷ [], cs)
    else elim later [ none ↦ none | some (line, rest) ↦ some (c ∷ line, rest) ]

-- `strings.TrimRight(line, "\r\n")`
unfoldable pub trim_right : Bytes → Bytes
trim_right [] = []
trim_right (c ∷ cs) = elim (trim_right cs) [
  | [] ↦ if c == b'\r' || c == b'\n' then [] else c ∷ []
  | d ∷ ds ↦ c ∷ d ∷ ds
]

abbrev pub content_length : Bytes
content_length = codes "Content-Length: "

-- The content length after a header line, or `none` for a bad one.
unfoldable pub header_length : Bytes → ℤ → Option ℤ
header_length line n =
    if has_prefix content_length line then atoi (trim_prefix content_length line) else some n

pub data Header : Type 0 where
  body : ℤ → Bytes → Header
  stopped : ReadError → Header

pub data Read : Type 0 where
  message : Bytes → Bytes → Read
  failed : ReadError → Read

unfoldable pub header_loop : ℕ → ℤ → Bytes → Header
unfolding read_string trim_right header_length
header_loop zero n input = Header.stopped ReadError.out_of_fuel
header_loop (suc fuel) n input = elim (read_string input) [
  | none ↦ Header.stopped ReadError.eof
  | some (line, rest) ↦ elim (trim_right line) [
    | [] ↦ Header.body n rest
    | c ∷ cs ↦ elim (header_length (c ∷ cs) n) [
      | none ↦ Header.stopped ReadError.bad_content_length
      | some m ↦ header_loop fuel m rest
    ]
  ]
]

-- From the headers on: `make` and `io.ReadFull`.
unfoldable pub read_body : ℤ → Bytes → Read
read_body (ℤ.pos zero) input = Read.failed ReadError.missing_content_length
read_body (ℤ.negsuc n) input = Read.failed ReadError.negative_length
read_body (ℤ.pos (suc n)) [] = Read.failed ReadError.eof
read_body (ℤ.pos (suc n)) (c ∷ cs) =
    if ltb (length (c ∷ cs)) (suc n)
    then Read.failed ReadError.unexpected_eof
    else Read.message (take (suc n) (c ∷ cs)) (drop (suc n) (c ∷ cs))

unfoldable pub read_after : Header → Read
unfolding read_body
read_after (Header.stopped e) = Read.failed e
read_after (Header.body n rest) = read_body n rest

unfoldable pub read_message : Bytes → Read
unfolding header_loop read_after
read_message input = read_after (header_loop (suc (length input)) (ℤ.pos 0) input)

-- What writeJSON writes for the JSON text `data`.
unfoldable pub frame : Bytes → Bytes
frame data_text =
    content_length ++ decimal (length data_text) ++ b'\r' ∷ b'\n' ∷ b'\r' ∷ b'\n' ∷ data_text

pub record RequestMessage : Type 0 where
  pub id : Option Bytes
  pub method : Bytes
  pub params : Bytes

pub record Server {ℓ} (Handler : Type ℓ) : Type ℓ where
  pub handler : Handler
  pub out : Bytes

-- `none` is an error of json.Marshal, after which nothing is written.
unfoldable pub write_json {ℓ} : {Handler : Type ℓ} → Server Handler → Option Bytes → Server Handler
unfolding frame
write_json s none = s
write_json s (some data_text) = record s { out = s.out ++ frame data_text }

module _ {ℓ} {Handler : Type ℓ} (unmarshal : Bytes → Option RequestMessage)
    (handle_notification : Bytes → Bytes → Server Handler → Server Handler)
    (handle_request : Bytes → Bytes → Bytes → Server Handler → Server Handler × Option Bytes) where
  -- HandleRequest with the JSON text of the response to the request of that id.
  unfoldable pub dispatch : Server Handler → Bytes → Server Handler
  unfolding write_json
  dispatch s raw = elim (unmarshal raw) [
    | none ↦ s
    | some msg ↦ elim msg.id [
      | none ↦ handle_notification msg.method msg.params s
      | some id ↦
          let (after, response) = handle_request id msg.method msg.params s in
          write_json after response
    ]
  ]

  unfoldable pub run_loop : ℕ → Server Handler → Bytes → Server Handler × ReadError
  unfolding read_message dispatch
  run_loop zero s input = (s, ReadError.out_of_fuel)
  run_loop (suc fuel) s input = elim (read_message input) [
    | Read.failed e ↦ (s, e)
    | Read.message msg rest ↦ run_loop fuel (dispatch s msg) rest
  ]

  -- The server at its end, and the error that ended it; Run returns nil for `eof`.
  unfoldable pub run : Server Handler → Bytes → Server Handler × ReadError
  unfolding run_loop
  run s input = run_loop (suc (length input)) s input
