-- ===== src/Server/Tests.antt =====
-- Runs of the transport of server/phpstrom/server.go at concrete inputs.
use vscode_php_strom.Base.{ℕ, ◌≡◌, ◌≢◌, refl, Option, some, List, [], ◌∷◌, ◌++◌}
use vscode_php_strom.Text.{Bytes, codes, has_prefix, trim_prefix}
use vscode_php_strom.Server.Number.{digits_from, magnitude, atoi}
use vscode_php_strom.Server.{
  ReadError, read_string, trim_right, header_length, Read, header_loop, read_body, read_after,
  read_message, RequestMessage, Server, run,
}
use vscode_php_strom.Server.Fuel.{run-ends}
use vscode_php_strom.Server.Frames.{frames, dispatch_all, run-frames}

-- A negative length is read, and the allocation panics.
negative_length_run :
    read_message (codes "Content-Length: -1" ++ b'\r' ∷ b'\n' ∷ b'\r' ∷ b'\n' ∷ [])
    ≡ Read.failed ReadError.negative_length
unfolding read_string trim_right header_length has_prefix trim_prefix digits_from magnitude atoi
    header_loop read_body read_after read_message
negative_length_run = refl

-- A header that no message of its length follows.
short_body_run :
    read_message (codes "Content-Length: 3" ++ b'\n' ∷ b'\n' ∷ b'{' ∷ [])
    ≡ Read.failed ReadError.unexpected_eof
unfolding read_string trim_right header_length has_prefix trim_prefix digits_from magnitude atoi
    header_loop read_body read_after read_message
short_body_run = refl

-- Every message is a to_request, and its response is the message.
abbrev to_request : Bytes → Option RequestMessage
to_request raw = some (record { id = some raw; method = raw; params = [] })

abbrev notified : Bytes → Bytes → Server ℕ → Server ℕ
notified method params s = s

abbrev echo : Bytes → Bytes → Bytes → Server ℕ → Server ℕ × Option Bytes
echo id method params s = (s, some id)

abbrev idle : Server ℕ
idle = record { handler = 0; out = [] }

abbrev sent : List Bytes
sent = (b'1' ∷ []) ∷ (b'{' ∷ b'}' ∷ []) ∷ []

run-ends_example : (run to_request notified echo idle (frames sent)).1 ≢ ReadError.out_of_fuel
run-ends_example = run-ends to_request notified echo idle (frames sent)

run-frames_example :
    run to_request notified echo idle (frames sent)
    ≡ (dispatch_all to_request notified echo idle sent, ReadError.eof)
run-frames_example = run-frames to_request notified echo idle sent refl
