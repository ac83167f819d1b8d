-- ===== src/DbProxy/Params.antt =====
-- The parameters of COM_STMT_EXECUTE. `none` is a panic: an index or a slice out of bounds.
pub mod Total
pub mod Encoding
pub mod Integers
pub mod Offsets
pub mod Strings
use bakpia_run.Prelude.{
  ℕ, zero, suc, ◌+◌, ◌-◌, ◌*◌, ◌/◌, ◌%◌, ◌^◌, Bool, true, false, ◌&&◌, ◌||◌, Option, none, some,
  List, [], ◌∷◌, ◌++◌, ltb, leb, ◌==◌, if◌then◌else◌, ◌>>=◌, length, take, drop, replicate,
  get_elem?,
}
use bakpia_run.Text.{Text, codes}
use bakpia_run.Text.Decimal.{signed_decimal}
use bakpia_run.Text.Utf8.{from_utf8_lossy}
use bakpia_run.DbProxy.Packet.{Bytes}

abbrev pub null_text : Text
null_text = b'N' ∷ b'U' ∷ b'L' ∷ b'L' ∷ []

-- `payload[from..]` and `payload[from..to]`
unfoldable pub slice_from : Bytes → ℕ → Option Bytes
slice_from s from = if leb from (length s) then some (drop from s) else none

pub slice : Bytes → ℕ → ℕ → Option Bytes
slice s from to =
    if leb from to && leb to (length s) then some (take (to - from) (drop from s)) else none

-- `uN::from_le_bytes` of the `n` bytes at an offset
unfoldable pub le_at : ℕ → Bytes → ℕ → Option ℕ
le_at zero s off = some 0
le_at (suc n) s off = do b ← get_elem? s off; r ← le_at n s (off + 1); some (b + r * 256)

-- The length that a first byte announces, and the bytes that announce it.
pub lenenc_prefix : ℕ → Bytes → Option (Option (ℕ × ℕ))
lenenc_prefix first_byte s =
    if ltb first_byte 251
    then some (some (first_byte, 1))
    else if first_byte == 0xfc && leb 3 (length s)
    then (do len ← le_at 2 s 1; some (some (len, 3)))
    else if first_byte == 0xfd && leb 4 (length s)
    then (do len ← le_at 3 s 1; some (some (len, 4)))
    else some none

lenenc_body : Bytes → Option (ℕ × ℕ) → Option (Text × ℕ)
lenenc_body s none = some ([], 0)
lenenc_body s (some (len, off)) =
    if ltb (length s) (off + len)
    then some ([], length s)
    else do body ← slice s off (off + len); some (from_utf8_lossy body, off + len)

pub read_lenenc_string_safe : Bytes → Option (Text × ℕ)
read_lenenc_string_safe [] = some ([], 0)
read_lenenc_string_safe (first_byte ∷ s) = do
  p ← lenenc_prefix first_byte (first_byte ∷ s)
  lenenc_body (first_byte ∷ s) p

-- `val.replace("'", "''")`
pub double_quotes : Text → Text
double_quotes [] = []
double_quotes (c ∷ s) = if c == b'\'' then c ∷ c ∷ double_quotes s else c ∷ double_quotes s

abbrev quoted : Text → Text
quoted s = b'\'' ∷ double_quotes s ++ b'\'' ∷ []

-- A signed number of `n` bytes at the offset, or NULL where the payload ends before.
fixed_param : ℕ → Bytes → ℕ → Option (Text × ℕ)
fixed_param n payload off =
    if leb (off + n) (length payload)
    then (do v ← le_at n payload off; some (signed_decimal (8 * n) v, off + n))
    else some (null_text, off)

-- The offset after a string is the one that `read_lenenc_string_safe` counts from the slice's start.
string_param : Bytes → ℕ → Option (Text × ℕ)
string_param payload off = do
  rest ← slice_from payload off
  (val, new_offset) ← read_lenenc_string_safe rest
  some (quoted val, new_offset)

pub read_param : Bytes → ℕ → ℕ → Option (Text × ℕ)
read_param payload param_type off =
    if leb (length payload) off
    then some (null_text, off)
    else if param_type == 0x01
    then fixed_param 1 payload off
    else if param_type == 0x02 || param_type == 0x03
    then fixed_param 4 payload off
    else if param_type == 0x08
    then fixed_param 8 payload off
    else string_param payload off

-- `byte & (1 << bit) != 0`
abbrev bit_set : ℕ → ℕ → Bool
bit_set byte bit = byte / 2 ^ bit % 2 == 1

-- The loop over the parameters, from the `i`th on.
pub params_loop : Bytes → Bytes → ℕ → List ℕ → ℕ → Option (List Text)
params_loop payload null_bitmap i [] off = some []
params_loop payload null_bitmap i (t ∷ types) off = do
  byte ← get_elem? null_bitmap (i / 8)
  (text, off') ← if bit_set byte (i % 8) then some (null_text, off) else read_param payload t off
  rest ← params_loop payload null_bitmap (i + 1) types off'
  some (text ∷ rest)

pub read_types : ℕ → Bytes → ℕ → Option (List ℕ)
read_types zero payload off = some []
read_types (suc n) payload off = do
  t ← get_elem? payload off
  rest ← read_types n payload (off + 2)
  some (t ∷ rest)

-- From the flag behind the bitmap on, which stands at `off`.
params_after_bitmap : Bytes → Bytes → ℕ → ℕ → Option (List Text)
params_after_bitmap payload null_bitmap num_params off =
    if leb (length payload) off then some (replicate num_params null_text) else do
      flag ← get_elem? payload off
      if flag == 1 && leb (off + 1 + num_params * 2) (length payload)
          then (do
            types ← read_types num_params payload (off + 1)
            params_loop payload null_bitmap 0 types (off + 1 + num_params * 2))
          else params_loop payload null_bitmap 0 (replicate num_params 0xfd) (off + 1)

pub parse_binary_parameters_safe : Bytes → ℕ → Option (List Text)
parse_binary_parameters_safe payload num_params =
    if num_params == 0 || ltb (length payload) 6
    then some []
    else let bitmap_len = (num_params + 7) / 8 in
      if ltb (length payload) (5 + bitmap_len) then some (replicate num_params null_text) else do
        null_bitmap ← slice payload 5 (5 + bitmap_len)
        params_after_bitmap payload null_bitmap num_params (5 + bitmap_len)

-- To run the parse in a test, unfold this.
unfoldable pub params_code : Unit {0}
unfolding parse_binary_parameters_safe params_after_bitmap read_types params_loop read_param
    string_param fixed_param double_quotes read_lenenc_string_safe lenenc_body lenenc_prefix le_at
    slice slice_from
params_code = tt
