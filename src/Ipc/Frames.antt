-- ===== src/Ipc/Frames.antt =====
-- src-server/src/ipc.rs: the frame of a payload and its reading.
use bakpia_run.Prelude.{
  ℕ, ◌/◌, ◌%◌, ◌^◌, ◌<◌, ◌≡◌, refl, ◌∙◌, arith, List, ◌++◌, length, some, take-length-append,
  length-append,
}
use bakpia_run.Text.{Text}
use bakpia_run.Ipc.{ok, from_be_bytes, frame, read_exact, read_frame}

be_bytes_roundtrip :
    (n : ℕ)
    → n < 2 ^ 32
    → from_be_bytes (n / 2 ^ 24 % 256) (n / 2 ^ 16 % 256) (n / 2 ^ 8 % 256) (n % 256) ≡ n
be_bytes_roundtrip n h = omega (arith, h)

read_exact-append : (xs ys : List ℕ) → read_exact (length xs) (xs ++ ys) ≡ some xs
read_exact-append xs ys = ground (arith, length-append xs ys, take-length-append xs ys)

-- A payload of less than 4 GiB that is framed is read back as it is, whatever comes behind it; a
-- longer one has its length cut to 32 bits in the frame.
pub read_frame-frame :
    (io_error : Text) (payload more : List ℕ)
    → length payload < 2 ^ 32
    → read_frame io_error (frame payload ++ more) ≡ ok payload
unfolding read_frame frame
read_frame-frame io_error payload more h =
    let n = length payload in
    let whole : n % 2 ^ 32 ≡ n = omega (arith, h) in
    let size : from_be_bytes (n % 2 ^ 32 / 2 ^ 24 % 256) (n % 2 ^ 32 / 2 ^ 16 % 256)
          (n % 2 ^ 32 / 2 ^ 8 % 256) (n % 2 ^ 32 % 256)
        ≡ n =
      be_bytes_roundtrip (n % 2 ^ 32) (omega (arith, h)) ∙ whole in
    rw (read_frame, size, read_exact-append payload more) refl
