-- ===== src/DbProxy/Params/Offsets.antt =====
-- Where the parameter behind a string is read from.
use bakpia_run.Prelude.{ℕ, ◌<◌, ◌≡◌, false, ◌∙◌, some, [], ◌∷◌, ◌++◌, arith, leb, length, drop}
use bakpia_run.Text.{Text, codes}
use bakpia_run.Text.Utf8.{from_utf8_lossy}
use bakpia_run.DbProxy.Packet.{Bytes, lenenc_str, lenenc_int}
use bakpia_run.DbProxy.Params.{
  slice_from, slice, lenenc_prefix, lenenc_body, read_lenenc_string_safe, double_quotes, quoted,
  string_param, read_param, params_loop, parse_binary_parameters_safe,
}
use bakpia_run.DbProxy.Params.Encoding.{execute_payload, parse-payload}

read_param-string :
    (payload rest : Bytes) (off : ℕ) (val : Text) (k : ℕ)
    → off < length payload
    → slice_from payload off ≡ some rest
    → read_lenenc_string_safe rest ≡ some (val, k)
    → read_param payload 0xfd off ≡ some (quoted val, k)
unfolding read_param string_param
read_param-string payload rest off val k h sl e =
    let inside : leb (length payload) off ≡ false = ground arith in rw (inside, sl, e)

empty_string : (r : Bytes) → read_lenenc_string_safe (0 ∷ r) ≡ some ([], 1)
unfolding read_lenenc_string_safe lenenc_prefix lenenc_body slice from_utf8_lossy
empty_string r = ground arith

one_byte_string : (r : Bytes) → read_lenenc_string_safe (1 ∷ 0 ∷ r) ≡ some (0 ∷ [], 2)
unfolding read_lenenc_string_safe lenenc_prefix lenenc_body slice from_utf8_lossy
one_byte_string r = ground arith

-- The packet's bytes up to the first parameter, which is empty, and what follows it.
abbrev two_strings : Bytes → Bytes
two_strings r = execute_payload (0xfd ∷ 0xfd ∷ []) (0 ∷ r)

tail_at_12 : (r : Bytes) → slice_from (two_strings r) 11 ≡ some (0 ∷ r)
unfolding slice_from
tail_at_12 r = ground arith

tail_at_1 : (r : Bytes) → (t : Bytes) × (slice_from (two_strings r) 1 ≡ some (1 ∷ 0 ∷ t))
unfolding slice_from
tail_at_1 r = (drop 3 (two_strings r), ground arith)

loop_two_strings :
    (r : Bytes)
    → params_loop (two_strings r) (0 ∷ []) 0 (0xfd ∷ 0xfd ∷ []) 11
      ≡ some (quoted [] ∷ quoted (0 ∷ []) ∷ [])
unfolding params_loop
loop_two_strings r =
    let (t, at_1) = tail_at_1 r in
    rw
      (read_param-string (two_strings r) (0 ∷ r) 11 [] 1 (omega arith) (tail_at_12 r)
        (empty_string r))
      (rw (
        read_param-string (two_strings r) (1 ∷ 0 ∷ t) 1 (0 ∷ []) 2 (omega arith) at_1
          (one_byte_string t)))

-- The offset after a string is taken from the start of the packet, so that behind an empty string the
-- next string parameter is read out of the packet's head: it becomes one zero byte, whatever was sent.
pub parse_second_string :
    (b : Bytes)
    → parse_binary_parameters_safe
        (execute_payload (0xfd ∷ 0xfd ∷ []) (lenenc_str [] ++ lenenc_str b))
        2
      ≡ some (codes "''" ∷ (b'\'' ∷ 0 ∷ b'\'' ∷ []) ∷ [])
unfolding lenenc_str lenenc_int double_quotes
parse_second_string b =
    parse-payload 0xfd (0xfd ∷ []) (lenenc_str [] ++ lenenc_str b) ∙ loop_two_strings (lenenc_str b)
