-- ===== src/DbProxy/Params/Strings.antt =====
-- Length-encoded strings: what `lenenc_str` writes and `read_lenenc_string_safe` reads.
use bakpia_run.Prelude.{
  ℕ, ◌+◌, ◌^◌, ◌≤◌, ◌<◌, ◌≡◌, refl, sym, ap, ◌∙◌, inl, inr, some, [], ◌∷◌, ◌++◌, arith, ltb,
  Bool-cases, lt→ltb, ge→ltb, length, length-append,
}
use mathlib.Core.List.{append_assoc}
use bakpia_run.Text.Utf8.{from_utf8_lossy}
use bakpia_run.DbProxy.Packet.{Bytes, byte_at, lenenc_int, lenenc_str}
use bakpia_run.DbProxy.Params.{lenenc_prefix, lenenc_body, read_lenenc_string_safe, le_at}
use bakpia_run.DbProxy.Params.Encoding.{slice-prefix}

lenenc_body-prefix :
    (pre s rest : Bytes)
    → lenenc_body (pre ++ (s ++ rest)) (some (length s, length pre))
      ≡ some (from_utf8_lossy s, length pre + length s)
unfolding lenenc_body
lenenc_body-prefix pre s rest =
    rw (slice-prefix pre s rest)
      (ground (arith, length-append pre (s ++ rest), length-append s rest))

-- With the prefix of a string read, the string follows.
read_known :
    (b : ℕ) (pre s rest : Bytes)
    → lenenc_prefix b ((b ∷ pre) ++ (s ++ rest)) ≡ some (some (length s, length (b ∷ pre)))
    → read_lenenc_string_safe ((b ∷ pre) ++ (s ++ rest))
      ≡ some (from_utf8_lossy s, length (b ∷ pre) + length s)
unfolding read_lenenc_string_safe
read_known b pre s rest e = rw e (lenenc_body-prefix (b ∷ pre) s rest)

one_byte : (n : ℕ) (s : Bytes) → n < 251 → lenenc_prefix (byte_at 0 n) s ≡ some (some (n, 1))
unfolding lenenc_prefix
one_byte n s h = ground arith

two_bytes :
    (n : ℕ) (s : Bytes)
    → n < 65536
    → lenenc_prefix 0xfc (0xfc ∷ byte_at 0 n ∷ byte_at 8 n ∷ s) ≡ some (some (n, 3))
unfolding lenenc_prefix le_at
two_bytes n s h = ground arith

three_bytes :
    (n : ℕ) (s : Bytes)
    → n < 16777216
    → lenenc_prefix 0xfd (0xfd ∷ byte_at 0 n ∷ byte_at 8 n ∷ byte_at 16 n ∷ s) ≡ some (some (n, 4))
unfolding lenenc_prefix le_at
three_bytes n s h = ground arith

module _ (s rest : Bytes) where
  read_with :
      (b : ℕ) (pre : Bytes)
      → lenenc_int (length s) ≡ b ∷ pre
      → lenenc_prefix b ((b ∷ pre) ++ (s ++ rest)) ≡ some (some (length s, length (b ∷ pre)))
      → read_lenenc_string_safe (lenenc_str s ++ rest)
        ≡ some (from_utf8_lossy s, length (lenenc_str s))
  unfolding lenenc_str
  read_with b pre e h =
      rw (e, append_assoc (b ∷ pre) s rest)
        (read_known b pre s rest h
          ∙ ap (λ n. some (from_utf8_lossy s, n)) (sym (length-append (b ∷ pre) s)))

  -- A string of less than 2^24 bytes that `lenenc_str` wrote is read back, up to the repair of
  -- ill-formed UTF-8, and the count of bytes taken is that of the bytes written.
  read_lenenc-lenenc_str :
      length s < 2 ^ 24
      → read_lenenc_string_safe (lenenc_str s ++ rest)
        ≡ some (from_utf8_lossy s, length (lenenc_str s))
  read_lenenc-lenenc_str h =
      let n = length s in
      elim (Bool-cases (ltb n 251)) [
        | inl one ↦
            read_with (byte_at 0 n) [] (unfold lenenc_int in rw one) (one_byte n _ (ground arith))
        | inr more ↦ elim (Bool-cases (ltb n 65536)) [
          | inl two ↦
              read_with 0xfc (byte_at 0 n ∷ byte_at 8 n ∷ []) (unfold lenenc_int in rw (more, two))
                (two_bytes n _ (ground arith))
          | inr still ↦
              read_with 0xfd (byte_at 0 n ∷ byte_at 8 n ∷ byte_at 16 n ∷ [])
                (unfold lenenc_int in rw (more, still, lt→ltb n 16777216 (omega arith)))
                (three_bytes n _ (omega arith))
        ]
      ]

  -- From 2^24 bytes on the string is lost: the reader does not know the prefix that is written.
  pub read_lenenc-lenenc_str_long :
      2 ^ 24 ≤ length s → read_lenenc_string_safe (lenenc_str s ++ rest) ≡ some ([], 0)
  unfolding lenenc_str
  read_lenenc-lenenc_str_long h =
      let n = length s in
      rw (large n h) (unfold read_lenenc_string_safe lenenc_prefix lenenc_body in refl)
    where
      large :
          (n : ℕ)
          → 2 ^ 24 ≤ n
          → lenenc_int n
            ≡ 0xfe
              ∷ byte_at 0 n
              ∷ byte_at 8 n
              ∷ byte_at 16 n
              ∷ byte_at 24 n
              ∷ byte_at 32 n
              ∷ byte_at 40 n
              ∷ byte_at 48 n
              ∷ byte_at 56 n
              ∷ []
      large n h =
          unfold lenenc_int in
          rw (ge→ltb n 251 (omega arith), ge→ltb n 65536 (omega arith), ge→ltb n 16777216 h)
