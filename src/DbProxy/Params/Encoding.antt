-- ===== src/DbProxy/Params/Encoding.antt =====
-- What a client sends for the parameters of a statement: no NULLs, and the types given.
use bakpia_run.Prelude.{
  ℕ, zero, suc, ◌+◌, ◌-◌, ◌*◌, ◌/◌, ◌%◌, ◌^◌, ◌<◌, ◌≡◌, refl, sym, ap, ◌∙◌, true, false, some, List,
  [], ◌∷◌, ◌++◌, arith, ltb, leb, ◌==◌, ◌||◌, length, replicate, get_elem?, length-append,
  length-replicate, take-length-append, drop-length-append,
}
use mathlib.Core.Path.{subst}
use mathlib.Core.List.{append_assoc}
use bakpia_run.DbProxy.Packet.{Bytes, to_le_bytes}
use bakpia_run.DbProxy.Params.{
  slice, slice_from, le_at, read_types, params_loop, params_after_bitmap,
  parse_binary_parameters_safe,
}

-- Reading behind a prefix.
pub get_elem?-prefix :
    (pre : Bytes) (x : ℕ) (t : Bytes) → get_elem? (pre ++ (x ∷ t)) (length pre) ≡ some x
get_elem?-prefix [] x t = refl
get_elem?-prefix (y ∷ pre) x t = get_elem?-prefix pre x t

move : (pre : Bytes) (x : ℕ) (t : Bytes) → (pre ++ (x ∷ [])) ++ t ≡ pre ++ (x ∷ t)
move pre x t = append_assoc pre (x ∷ []) t

pub length-snoc : (pre : Bytes) (x : ℕ) → length (pre ++ (x ∷ [])) ≡ length pre + 1
length-snoc pre x = omega (arith, length-append pre (x ∷ []))

pub le_at-to_le_bytes :
    (n v : ℕ) (pre rest : Bytes)
    → v < 256 ^ n
    → le_at n (pre ++ (to_le_bytes n v ++ rest)) (length pre) ≡ some v
unfolding le_at
le_at-to_le_bytes zero v pre rest h = ground arith
le_at-to_le_bytes (suc n) v pre rest h =
    let x = v % 256 in
    let t = to_le_bytes n (v / 256) ++ rest in
    let ih : le_at n (pre ++ (x ∷ t)) (length pre + 1) ≡ some (v / 256) =
      rw (move pre x t, length-snoc pre x) at
        (le_at-to_le_bytes n (v / 256) (pre ++ (x ∷ [])) rest (omega arith)) in
    rw (get_elem?-prefix pre x t) (rw ih (ap some (omega arith)))

pub slice-prefix :
    (pre s rest : Bytes) → slice (pre ++ (s ++ rest)) (length pre) (length pre + length s) ≡ some s
unfolding slice
slice-prefix pre s rest =
    rw (drop-length-append pre (s ++ rest), same, take-length-append s rest)
      (ground (arith, length-append pre (s ++ rest), length-append s rest))
  where
    same : length pre + length s - length pre ≡ length s
    same = omega arith

pub slice_from-prefix : (pre rest : Bytes) → slice_from (pre ++ rest) (length pre) ≡ some rest
unfolding slice_from
slice_from-prefix pre rest =
    rw (drop-length-append pre rest) (ground (arith, length-append pre rest))

-- Types are sent in two bytes each.
abbrev pub type_bytes : List ℕ → Bytes
type_bytes [] = []
type_bytes (t ∷ ts) = t ∷ 0 ∷ type_bytes ts

length-type_bytes : (ts : List ℕ) → length (type_bytes ts) ≡ length ts * 2
length-type_bytes [] = refl
length-type_bytes (t ∷ ts) = omega (arith, length-type_bytes ts)

abbrev bitmap : List ℕ → Bytes
bitmap ts = replicate ((length ts + 7) / 8) 0

-- Flags, iteration count, the NULL bitmap with no bit set, the flag for new types, and the types.
abbrev pub payload_head : List ℕ → Bytes
payload_head ts = ((0 ∷ 1 ∷ 0 ∷ 0 ∷ 0 ∷ []) ++ bitmap ts) ++ (1 ∷ type_bytes ts)

-- The part of the packet behind the statement's number.
abbrev pub execute_payload : List ℕ → Bytes → Bytes
execute_payload ts body = payload_head ts ++ body

read_types-type_bytes :
    (ts : List ℕ) (pre rest : Bytes)
    → read_types (length ts) (pre ++ (type_bytes ts ++ rest)) (length pre) ≡ some ts
unfolding read_types
read_types-type_bytes [] pre rest = refl
read_types-type_bytes (t ∷ ts) pre rest =
    let ih : read_types (length ts) (pre ++ (t ∷ 0 ∷ (type_bytes ts ++ rest))) (length pre + 2)
        ≡ some ts =
      rw (append_assoc pre (t ∷ 0 ∷ []) (type_bytes ts ++ rest), length-append pre (t ∷ 0 ∷ [])) at
        (read_types-type_bytes ts (pre ++ (t ∷ 0 ∷ [])) rest) in
    rw (get_elem?-prefix pre t (0 ∷ (type_bytes ts ++ rest))) (rw ih)

after_bitmap-types :
    (pre nulls : Bytes) (ts : List ℕ) (body : Bytes)
    → (let payload = pre ++ (1 ∷ (type_bytes ts ++ body)) in
        params_after_bitmap payload nulls (length ts) (length pre)
        ≡ params_loop payload nulls 0 ts (length pre + 1 + length ts * 2))
unfolding params_after_bitmap
after_bitmap-types pre nulls ts body =
    let payload = pre ++ (1 ∷ (type_bytes ts ++ body)) in
    let len : length payload ≡ length pre + 1 + length ts * 2 + length body = omega (
      arith,
      length-append pre (1 ∷ (type_bytes ts ++ body)),
      length-append (type_bytes ts) body,
      length-type_bytes ts,
    ) in
    let types : read_types (length ts) payload (length pre + 1) ≡ some ts =
      rw (move pre 1 (type_bytes ts ++ body), length-snoc pre 1) at
        (read_types-type_bytes ts (pre ++ (1 ∷ [])) body) in
    let inside : leb (length payload) (length pre) ≡ false = ground arith in
    let all : leb (length pre + 1 + length ts * 2) (length payload) ≡ true = ground arith in
    rw (inside, get_elem?-prefix pre 1 (type_bytes ts ++ body), all, types)

abbrev five : Bytes
five = 0 ∷ 1 ∷ 0 ∷ 0 ∷ 0 ∷ []

parse_flat :
    (nulls : Bytes) (t : ℕ) (ts : List ℕ) (body : Bytes)
    → length nulls ≡ (length (t ∷ ts) + 7) / 8
    → (let payload = five ++ (nulls ++ (1 ∷ (type_bytes (t ∷ ts) ++ body))) in
        parse_binary_parameters_safe payload (length (t ∷ ts))
        ≡ params_after_bitmap payload nulls (length (t ∷ ts)) (length (five ++ nulls)))
unfolding parse_binary_parameters_safe
parse_flat nulls t ts body e =
    let n = length (t ∷ ts) in
    let flagged : Bytes = 1 ∷ (type_bytes (t ∷ ts) ++ body) in
    let payload : Bytes = five ++ (nulls ++ flagged) in
    let longer : 5 + (n + 7) / 8 < length payload = omega (arith, length-append nulls flagged, e) in
    let one : (n == 0 || ltb (length payload) 6) ≡ false = ground arith in
    let two : ltb (length payload) (5 + (n + 7) / 8) ≡ false = ground arith in
    let three : slice payload 5 (5 + (n + 7) / 8) ≡ some nulls =
      rw e at (slice-prefix five nulls flagged) in
    rw (one, two, three) (ap (params_after_bitmap payload nulls n) (omega (arith, e)))

-- The parse of such a packet comes down to the loop over the parameters, from the body on.
pub parse-payload :
    (t : ℕ) (ts : List ℕ) (body : Bytes)
    → parse_binary_parameters_safe (execute_payload (t ∷ ts) body) (length (t ∷ ts))
      ≡ params_loop
          (execute_payload (t ∷ ts) body)
          (bitmap (t ∷ ts))
          0
          (t ∷ ts)
          (length (payload_head (t ∷ ts)))
parse-payload t ts body =
    let n = length (t ∷ ts) in
    let nulls = bitmap (t ∷ ts) in
    let flagged : Bytes = 1 ∷ (type_bytes (t ∷ ts) ++ body) in
    let whole : execute_payload (t ∷ ts) body ≡ five ++ (nulls ++ flagged) =
      append_assoc (five ++ nulls) (1 ∷ type_bytes (t ∷ ts)) body
      ∙ append_assoc five nulls flagged in
    let head_len : length (payload_head (t ∷ ts)) ≡ length (five ++ nulls) + 1 + n * 2 = omega (
      arith,
      length-append (five ++ nulls) (1 ∷ type_bytes (t ∷ ts)),
      length-type_bytes (t ∷ ts),
    ) in
    subst
      (λ w.
        parse_binary_parameters_safe w n
        ≡ params_loop w nulls 0 (t ∷ ts) (length (payload_head (t ∷ ts))))
      (sym whole)
      (parse_flat nulls t ts body (length-replicate {A = ℕ} ((n + 7) / 8) 0)
        ∙ after_bitmap-types (five ++ nulls) nulls (t ∷ ts) body
        ∙ ap (params_loop (five ++ (nulls ++ flagged)) nulls 0 (t ∷ ts)) (sym head_len))
