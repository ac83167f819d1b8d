-- ===== src/Text/Utf8.antt =====
-- `String::from_utf8_lossy`: each maximal ill-formed piece becomes U+FFFD.
use bakpia_run.Prelude.{
  ℕ, zero, suc, ◌≡◌, refl, ◌<◌, Bool, ◌&&◌, [], ◌∷◌, ◌++◌, arith, ltb, leb, ◌==◌, if◌then◌else◌,
  take, All,
}
use bakpia_run.Text.{Text}

abbrev between : ℕ → ℕ → ℕ → Bool
between lo hi c = leb lo c && leb c hi

-- The bytes that may follow the first byte of a sequence of three or four.
second_ok : ℕ → ℕ → Bool
second_ok a b =
    if a == 0xe0
    then between 0xa0 0xbf b
    else if a == 0xed
    then between 0x80 0x9f b
    else if a == 0xf0
    then between 0x90 0xbf b
    else if a == 0xf4
    then between 0x80 0x8f b
    else between 0x80 0xbf b

-- How many of the next bytes are as they should be, of at most `n`.
continuations : ℕ → Text → ℕ
continuations zero s = zero
continuations (suc n) [] = zero
continuations (suc n) (b ∷ s) =
    let r = continuations n s in if between 0x80 0xbf b then suc r else zero

after_second : ℕ → ℕ → Text → ℕ
unfolding second_ok continuations
after_second a n [] = zero
after_second a n (b ∷ s) = if second_ok a b then suc (continuations n s) else zero

-- How many bytes a first byte asks for behind it; 0xff marks a byte that begins nothing.
width : ℕ → ℕ
width a =
    if ltb a 0x80
    then 0
    else if between 0xc2 0xdf a
    then 1
    else if between 0xe0 0xef a
    then 2
    else if between 0xf0 0xf4 a
    then 3
    else 0xff

-- How many of those are there.
present : ℕ → Text → ℕ
unfolding continuations after_second width
present a s =
    if width a == 1
    then continuations 1 s
    else if width a == 2
    then after_second a 1 s
    else if width a == 3
    then after_second a 2 s
    else 0

-- The first argument counts the bytes of the current piece that are still to be passed over.
lossy_loop : ℕ → Text → Text
unfolding present width
lossy_loop k [] = []
lossy_loop (suc k) (a ∷ s) = lossy_loop k s
lossy_loop zero (a ∷ s) =
    let n = present a s in
    (if n == width a then a ∷ take n s else 0xef ∷ 0xbf ∷ 0xbd ∷ []) ++ lossy_loop n s

unfoldable pub from_utf8_lossy : Text → Text
unfolding lossy_loop
from_utf8_lossy s = lossy_loop 0 s

abbrev pub IsAscii : Text → Type 0
IsAscii s = All (λ c. c < 128) s

-- ASCII text is unchanged.
pub from_utf8_lossy_ascii : (s : Text) → IsAscii s → from_utf8_lossy s ≡ s
unfolding from_utf8_lossy
from_utf8_lossy_ascii s h = loop s h
  where
    loop : (s : Text) → IsAscii s → lossy_loop 0 s ≡ s
    loop [] h = refl
    loop (a ∷ s) (p, h) = ground (arith, loop s h)
