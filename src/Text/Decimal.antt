-- ===== src/Text/Decimal.antt =====
-- Decimal numbers: `to_string` of an integer, and `str::parse` of an unsigned one.
use bakpia_run.Prelude.{
  ℕ, zero, suc, ◌+◌, ◌-◌, ◌*◌, ◌/◌, ◌%◌, ◌^◌, ◌<◌, ◌≡◌, refl, Bool, ◌&&◌, Option, none, some, [],
  ◌∷◌, ◌++◌, arith, ltb, leb, if◌then◌else◌, Bool-cases, inl, inr, ◌∙◌, ◌≤◌,
}
use bakpia_run.Text.{Text, codes}

digits_loop : ℕ → ℕ → Text → Text
digits_loop zero n acc = acc
digits_loop (suc f) n acc =
    let rest = digits_loop f (n / 10) ((48 + n % 10) ∷ acc) in
    if ltb n 10 then (48 + n) ∷ acc else rest

-- `n.to_string()`; no number of 64 bits has more than 20 digits.
unfoldable pub decimal : ℕ → Text
unfolding digits_loop
decimal n = digits_loop 20 n []

-- `to_string` of the `w`-bit two's complement integer with the bit pattern `u`.
unfoldable pub signed_decimal : ℕ → ℕ → Text
unfolding decimal
signed_decimal w u = if ltb (u + u) (2 ^ w) then decimal u else b'-' ∷ decimal (2 ^ w - u)

unfoldable pub is_digit : ℕ → Bool
is_digit c = leb 48 c && leb c 57

-- Overflow past `bound` is an error, as are other characters.
unfoldable pub parse_digits : ℕ → ℕ → Text → Option ℕ
unfolding is_digit
parse_digits bound acc [] = some acc
parse_digits bound acc (c ∷ s) =
    let v = acc * 10 + (c - 48) in
    let rest = parse_digits bound v s in if is_digit c && ltb v bound then rest else none

strip_plus : Text → Text
strip_plus [] = []
strip_plus (c ∷ s) = if ltb c 44 && ltb 42 c then s else c ∷ s

parse_nonempty : ℕ → Text → Option ℕ
unfolding parse_digits
parse_nonempty bound [] = none
parse_nonempty bound (c ∷ s) = parse_digits bound 0 (c ∷ s)

-- `format!("{}:{}", host, port)`
unfoldable pub address : Text → ℕ → Text
address host port = host ++ (codes ":" ++ decimal port)

-- `s.parse::<uN>()` with `bound` 2 ^ N: one `+` may stand in front, and a digit has to follow.
unfoldable pub parse_uint : ℕ → Text → Option ℕ
unfolding strip_plus parse_nonempty
parse_uint bound s = parse_nonempty bound (strip_plus s)

parse-digits_loop :
    (f n : ℕ) (bound : ℕ) (tail : Text)
    → n < 10 ^ f
    → n < bound
    → parse_digits bound 0 (digits_loop f n tail) ≡ parse_digits bound n tail
unfolding digits_loop parse_digits
parse-digits_loop zero n bound tail h k = ground arith
parse-digits_loop (suc f) n bound tail h k =
    ground (arith, parse-digits_loop f (n / 10) bound ((48 + n % 10) ∷ tail))

-- The first character printed is a digit, so it is no sign.
abbrev StartsWithDigit : Text → Type 0
StartsWithDigit s = (c : ℕ) × (t : Text) × (s ≡ c ∷ t) × (47 < c)

digits_loop_digit :
    (f n : ℕ) (c : ℕ) (tail : Text) → 47 < c → StartsWithDigit (digits_loop f n (c ∷ tail))
unfolding digits_loop
digits_loop_digit zero n c tail h = (c, tail, refl, h)
digits_loop_digit (suc f) n c tail h = elim (Bool-cases (ltb n 10)) [
  | inl e ↦ (48 + n, c ∷ tail, rw e, omega arith)
  | inr e ↦ rw e (digits_loop_digit f (n / 10) (48 + n % 10) (c ∷ tail) (omega arith))
]

parse_uint_digit :
    (bound : ℕ) (s : Text) → StartsWithDigit s → parse_uint bound s ≡ parse_digits bound 0 s
unfolding parse_uint
parse_uint_digit bound s (c, t, e, h) = rw e (ground arith)

digits_loop_first : (f n : ℕ) → StartsWithDigit (digits_loop (suc f) n [])
unfolding digits_loop
digits_loop_first f n = elim (Bool-cases (ltb n 10)) [
  | inl e ↦ (48 + n, [], rw e, omega arith)
  | inr e ↦ rw e (digits_loop_digit f (n / 10) (48 + n % 10) [] (omega arith))
]

parse-digits :
    (f n bound : ℕ)
    → n < 10 ^ suc f
    → n < bound
    → parse_uint bound (digits_loop (suc f) n []) ≡ some n
parse-digits f n bound h k =
    parse_uint_digit bound _ (digits_loop_first f n)
    ∙ parse-digits_loop (suc f) n bound [] h k
    ∙ unfold parse_digits in refl

-- A printed number is read back, at every width of at most 64 bits.
pub parse-decimal :
    (bound n : ℕ) → bound ≤ 2 ^ 64 → n < bound → parse_uint bound (decimal n) ≡ some n
unfolding decimal
parse-decimal bound n h k = parse-digits 19 n bound (omega arith) k
