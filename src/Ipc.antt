-- ===== src/Ipc.antt =====
-- src-server/src/ipc.rs: the frames between the server and a PHP worker, a length of four bytes before
-- the payload. The JSON of the payloads and the socket are parameters; no connection is kept.
pub mod Frames
pub mod Exchange
use bakpia_run.Prelude.{
  ℕ, ◌+◌, ◌*◌, ◌/◌, ◌%◌, ◌^◌, Bool, true, false, Option, none, some, List, [], ◌∷◌, ◌++◌, ltb, leb,
  if◌then◌else◌, length, take, drop,
}
use bakpia_run.Text.{Text, codes}
use bakpia_run.Handler.Request.{PhpRequest, PhpResponse}

pub data SendResult (A : Type 0) : Type 0 where
  ok : A → SendResult A
  err : Text → SendResult A

-- `to_be_bytes` of a `u32`
abbrev pub to_be_bytes : ℕ → List ℕ
to_be_bytes n = (n / 2 ^ 24 % 256) ∷ (n / 2 ^ 16 % 256) ∷ (n / 2 ^ 8 % 256) ∷ (n % 256) ∷ []

abbrev pub from_be_bytes : ℕ → ℕ → ℕ → ℕ → ℕ
from_be_bytes b1 b2 b3 b4 = b1 * 2 ^ 24 + b2 * 2 ^ 16 + b3 * 2 ^ 8 + b4

-- What is written: the length as a `u32`, which wraps, and the payload.
unfoldable pub frame : List ℕ → List ℕ
frame payload = to_be_bytes (length payload % 2 ^ 32) ++ payload

-- `read_exact` of so many bytes from the bytes that come until the end of the stream.
abbrev pub read_exact : ℕ → List ℕ → Option (List ℕ)
read_exact n stream = if leb n (length stream) then some (take n stream) else none

-- The two reads: of the length, and of the payload.
unfoldable pub read_frame : Text → List ℕ → SendResult (List ℕ)
read_frame io_error (b1 ∷ b2 ∷ b3 ∷ b4 ∷ rest) =
    elim (read_exact (from_be_bytes b1 b2 b3 b4) rest) [
      | some payload ↦ ok payload
      | none ↦ err (codes "Failed to read response payload: " ++ io_error)
    ]
read_frame io_error (b1 ∷ b2 ∷ b3 ∷ []) = err (codes "Failed to read response length: " ++ io_error)
read_frame io_error (b1 ∷ b2 ∷ []) = err (codes "Failed to read response length: " ++ io_error)
read_frame io_error (b1 ∷ []) = err (codes "Failed to read response length: " ++ io_error)
read_frame io_error [] = err (codes "Failed to read response length: " ++ io_error)

-- One exchange over a new connection: `connect` and the writes may fail with an error, `to_json` and
-- `from_json` are serde's, and `peer` is what comes back for the bytes written.
pub record Peer : Type 0 where
  pub connect : Text → Option Text
  pub write : List ℕ → Option Text
  pub reply : List ℕ → List ℕ
  pub io_error : Text
  pub to_json : PhpRequest → SendResult (List ℕ)
  pub from_json : List ℕ → SendResult PhpResponse

parse_reply : Peer → SendResult (List ℕ) → SendResult PhpResponse
parse_reply p (err e) = err e
parse_reply p (ok payload) = elim (p.from_json payload) [
  | err e ↦ err (codes "Failed to deserialize response: " ++ e)
  | ok response ↦ ok response
]

-- The writes of the length and of the payload, then the reply.
write_and_read : Peer → List ℕ → SendResult PhpResponse
unfolding frame read_frame parse_reply
write_and_read p payload = elim (p.write (to_be_bytes (length payload % 2 ^ 32))) [
  | some e ↦ err (codes "Failed to write length: " ++ e)
  | none ↦ elim (p.write payload) [
    | some e ↦ err (codes "Failed to write payload: " ++ e)
    | none ↦ parse_reply p (read_frame p.io_error (p.reply (frame payload)))
  ]
]

unfoldable pub send_to_php_worker : Peer → Text → PhpRequest → SendResult PhpResponse
unfolding write_and_read
send_to_php_worker p socket_path request = elim (p.connect socket_path) [
  | some e ↦ err (codes "Failed to connect to PHP worker: " ++ e)
  | none ↦ elim (p.to_json request) [
    | err e ↦ err (codes "Failed to serialize request: " ++ e)
    | ok payload ↦ write_and_read p payload
  ]
]
