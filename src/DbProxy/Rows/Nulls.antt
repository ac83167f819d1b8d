-- ===== src/DbProxy/Rows/Nulls.antt =====
-- NULLs in binary rows.

use bakpia_run.Prelude.{ℕ, ◌≡◌, refl, ap, List, [], ◌∷◌, ◌++◌, arith, length, length-append}
use bakpia_run.DbProxy.Rows.{Value, null, binary_value, binary_values, build_row_packet_binary}

binary_values-null :
    (xs ys : List Value) → binary_values (xs ++ (null ∷ ys)) ≡ binary_values (xs ++ ys)
unfolding binary_values
binary_values-null [] ys = refl
binary_values-null (x ∷ xs) ys = ap (◌++◌ (binary_value x)) (binary_values-null xs ys)

length-middle : (xs ys : List Value) → length (xs ++ (null ∷ ys)) ≡ length (null ∷ (xs ++ ys))
length-middle xs ys = omega (arith, length-append xs (null ∷ ys), length-append xs ys)

-- The packet of a binary row does not show which column is NULL: wherever the NULL stands in the row,
-- the bytes are those of the row that begins with it.
pub build_row_packet_binary-null :
    (seq_id : ℕ) (xs ys : List Value)
    → build_row_packet_binary seq_id (xs ++ (null ∷ ys))
      ≡ build_row_packet_binary seq_id (null ∷ (xs ++ ys))
unfolding build_row_packet_binary
build_row_packet_binary-null seq_id xs ys = rw (binary_values-null xs ys, length-middle xs ys) refl
