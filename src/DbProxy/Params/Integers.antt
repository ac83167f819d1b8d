-- ===== src/DbProxy/Params/Integers.antt =====
-- Statements whose parameters are all integers.
use mathlib.Core.List.{append_assoc}
use bakpia_run.Prelude.{
  ℕ, zero, suc, ◌+◌, ◌*◌, ◌/◌, ◌%◌, ◌^◌, ◌≤◌, ◌<◌, ◌≡◌, refl, sym, ap, ◌∙◌, false, some, List, [],
  ◌∷◌, ◌++◌, map, arith, All, length, replicate, get_elem?, length-append, length-map,
}
use bakpia_run.Text.{Text}
use bakpia_run.Text.Decimal.{signed_decimal}
use bakpia_run.DbProxy.Packet.{Bytes, to_le_bytes}
use bakpia_run.DbProxy.Params.{
  fixed_param, read_param, params_loop, parse_binary_parameters_safe, bit_set,
}
use bakpia_run.DbProxy.Params.Encoding.{
  le_at-to_le_bytes, execute_payload, parse-payload, payload_head,
}

-- The bit patterns of an `i8`, an `i32` and an `i64` parameter.
pub data Fixed : Type 0 where
  tiny long longlong : ℕ → Fixed

abbrev pub type_of : Fixed → ℕ
type_of (tiny v) = 0x01
type_of (long v) = 0x03
type_of (longlong v) = 0x08

abbrev pub width_of : Fixed → ℕ
width_of (tiny v) = 1
width_of (long v) = 4
width_of (longlong v) = 8

abbrev pub pattern_of : Fixed → ℕ
pattern_of (tiny v) = v
pattern_of (long v) = v
pattern_of (longlong v) = v

abbrev pub FitsWidth : Fixed → Type 0
FitsWidth p = pattern_of p < 256 ^ width_of p

abbrev pub body_of : List Fixed → Bytes
body_of [] = []
body_of (p ∷ ps) = to_le_bytes (width_of p) (pattern_of p) ++ body_of ps

length-to_le_bytes : (n v : ℕ) → length (to_le_bytes n v) ≡ n
length-to_le_bytes zero v = refl
length-to_le_bytes (suc n) v = ap suc (length-to_le_bytes n (v / 256))

abbrev pub printed : Fixed → Text
printed p = signed_decimal (8 * width_of p) (pattern_of p)

fixed_param-body :
    (n v : ℕ) (pre rest : Bytes)
    → v < 256 ^ n
    → fixed_param n (pre ++ (to_le_bytes n v ++ rest)) (length pre)
      ≡ some (signed_decimal (8 * n) v, length pre + n)
unfolding fixed_param
fixed_param-body n v pre rest h = rw (le_at-to_le_bytes n v pre rest h) (
    ground (
      arith,
      length-append pre (to_le_bytes n v ++ rest),
      length-append (to_le_bytes n v) rest,
      length-to_le_bytes n v,
    ))

read_param-body :
    (p : Fixed) (pre rest : Bytes)
    → FitsWidth p
    → read_param (pre ++ (to_le_bytes (width_of p) (pattern_of p) ++ rest)) (type_of p) (length pre)
      ≡ some (printed p, length pre + width_of p)
unfolding read_param
read_param-body (tiny v) pre rest h =
    ground (arith, fixed_param-body 1 v pre rest h, length-append pre (to_le_bytes 1 v ++ rest))
read_param-body (long v) pre rest h =
    ground (arith, fixed_param-body 4 v pre rest h, length-append pre (to_le_bytes 4 v ++ rest))
read_param-body (longlong v) pre rest h =
    ground (arith, fixed_param-body 8 v pre rest h, length-append pre (to_le_bytes 8 v ++ rest))

get_elem?-zeros : (k j : ℕ) → j < k → get_elem? {A = ℕ} (replicate k 0) j ≡ some 0
get_elem?-zeros zero j h = absurd (omega arith)
get_elem?-zeros (suc k) zero h = refl
get_elem?-zeros (suc k) (suc j) h = get_elem?-zeros k j (omega arith)

bit_set-zero : (b : ℕ) → bit_set 0 b ≡ false
bit_set-zero b = ground (arith, zero_div (2 ^ b))
  where
    zero_div : (m : ℕ) → 0 / m ≡ 0
    zero_div m = grind arith

params_loop-body :
    (ps : List Fixed) (i k : ℕ) (pre : Bytes)
    → All FitsWidth ps
    → (i + length ps + 7) / 8 ≤ k
    → params_loop (pre ++ body_of ps) (replicate k 0) i (map type_of ps) (length pre)
      ≡ some (map printed ps)
unfolding params_loop
params_loop-body [] i k pre fit h = refl
params_loop-body (p ∷ ps) i k pre (f, fit) h =
    let v = to_le_bytes (width_of p) (pattern_of p) in
    let ih : params_loop (pre ++ (v ++ body_of ps)) (replicate k 0) (i + 1) (map type_of ps)
          (length pre + width_of p)
        ≡ some (map printed ps) =
      rw
        (
          append_assoc pre v (body_of ps),
          length-append pre v,
          length-to_le_bytes (width_of p) (pattern_of p),
        )
        at (params_loop-body ps (i + 1) k (pre ++ v) fit (omega arith)) in
    rw (get_elem?-zeros k (i / 8) (omega arith), bit_set-zero (i % 8))
      (rw (read_param-body p pre (body_of ps) f) (rw ih))

-- For one or more integers of one, four or eight bytes, whose bit patterns fit their widths, the
-- parse prints the values that the client encoded, in their order.
pub parse-execute_payload :
    (p : Fixed) (ps : List Fixed)
    → All FitsWidth (p ∷ ps)
    → parse_binary_parameters_safe
        (execute_payload (map type_of (p ∷ ps)) (body_of (p ∷ ps)))
        (length (p ∷ ps))
      ≡ some (map printed (p ∷ ps))
parse-execute_payload p ps fit =
    let ts = map type_of (p ∷ ps) in
    let n : length ts ≡ length (p ∷ ps) = length-map (p ∷ ps) type_of in
    ap (parse_binary_parameters_safe (execute_payload ts (body_of (p ∷ ps)))) (sym n)
    ∙ parse-payload (type_of p) (map type_of ps) (body_of (p ∷ ps))
    ∙ params_loop-body (p ∷ ps) 0 ((length ts + 7) / 8) (payload_head ts) fit (omega (arith, n))
