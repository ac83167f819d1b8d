-- ===== src/DbProxy/Rows.antt =====
-- Rows of a result set in the text and in the binary form.
pub mod Nulls
use bakpia_run.Prelude.{ℕ, ◌+◌, ◌/◌, ◌^◌, List, [], ◌∷◌, ◌++◌, length, replicate}
use bakpia_run.Text.{Text, codes}
use bakpia_run.Text.Decimal.{decimal, signed_decimal}
use bakpia_run.DbProxy.Packet.{Bytes, lenenc_str, build_packet, to_le_bytes}

-- The values that the match names; `other` stands for dates and times. Signed numbers and floats are
-- bit patterns.
pub data Value : Type 0 where
  null : Value
  bytes : Bytes → Value
  int uint float double : ℕ → Value
  other : Value

-- How the standard library prints an `f32` and an `f64`.
module _ (f32_text f64_text : ℕ → Text) where
  pub row_value : Value → Bytes
  row_value null = 0xfb ∷ []
  row_value (bytes b) = lenenc_str b
  row_value (int i) = lenenc_str (signed_decimal 64 i)
  row_value (uint u) = lenenc_str (decimal u)
  row_value (float f) = lenenc_str (f32_text f)
  row_value (double d) = lenenc_str (f64_text d)
  row_value other = lenenc_str (codes "?")

  pub row_values : List Value → Bytes
  row_values [] = []
  row_values (v ∷ vs) = row_value v ++ row_values vs

  unfoldable pub build_row_packet : ℕ → List Value → Bytes
  build_row_packet seq_id values = build_packet seq_id (row_values values)

unfoldable pub binary_value : Value → Bytes
binary_value null = []
binary_value (bytes b) = lenenc_str b
binary_value (int i) = to_le_bytes 8 i
binary_value (uint u) = to_le_bytes 8 u
binary_value (float f) = to_le_bytes 4 f
binary_value (double d) = to_le_bytes 8 d
binary_value other = lenenc_str (codes "?")

unfoldable pub binary_values : List Value → Bytes
unfolding binary_value
binary_values [] = []
binary_values (v ∷ vs) = binary_value v ++ binary_values vs

unfoldable pub build_row_packet_binary : ℕ → List Value → Bytes
unfolding binary_values
build_row_packet_binary seq_id values =
    build_packet seq_id (0x00 ∷ replicate ((length values + 7) / 8) 0 ++ binary_values values)
