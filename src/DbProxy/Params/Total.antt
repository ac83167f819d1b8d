-- ===== src/DbProxy/Params/Total.antt =====
-- The bounds of the reads in the parse of the parameters.
use bakpia_run.Prelude.{
  ℕ, zero, suc, ◌+◌, ◌-◌, ◌*◌, ◌/◌, ◌%◌, ◌≤◌, ◌<◌, ◌≡◌, refl, ap, ◌∙◌, Bool, true, false, Option,
  none, some, List, [], ◌∷◌, arith, ltb, leb, ◌==◌, ◌&&◌, ◌||◌, if◌then◌else◌, leb→le, ◌>>=◌,
  length, take, drop, get_elem?, get_elem?-some, length-drop, length-take, length-replicate,
}
use bakpia_run.Text.{Text}
use bakpia_run.DbProxy.Packet.{Bytes}
use bakpia_run.DbProxy.Params.{
  slice_from, slice, le_at, lenenc_prefix, lenenc_body, read_lenenc_string_safe, fixed_param,
  string_param, read_param, params_loop, read_types, params_after_bitmap,
  parse_binary_parameters_safe, null_text, bit_set,
}

-- A value is there, and it is as `P` says.
abbrev pub Yields {ℓ κ} : {A : Type ℓ} → (A → Type κ) → Option A → Type (ℓ ⊔ κ)
Yields {A = A} P o = (a : A) × (o ≡ some a) × P a

abbrev Any {ℓ} : {A : Type ℓ} → A → Type 0
Any a = Unit {0}

>>=-Yields {ℓ κ μ ν} :
    {A : Type ℓ} {B : Type κ} (P : A → Type μ) (Q : B → Type ν) (m : Option A) (f : A → Option B)
    → Yields P m
    → ((a : A) → P a → Yields Q (f a))
    → Yields Q (m >>= f)
>>=-Yields P Q m f (a, e, p) k = rw e (k a p)

if-Yields {ℓ κ} :
    {A : Type ℓ} (P : A → Type κ) (b : Bool) (x y : Option A)
    → (b ≡ true → Yields P x)
    → (b ≡ false → Yields P y)
    → Yields P (if b then x else y)
if-Yields P true x y f g = f refl
if-Yields P false x y f g = g refl

get_elem?-Yields : (s : Bytes) (i : ℕ) → i < length s → Yields Any (get_elem? s i)
get_elem?-Yields s i h = let (a, e) = get_elem?-some s i h in (a, e, tt)

slice_from-Yields : (s : Bytes) (n : ℕ) → n ≤ length s → Yields Any (slice_from s n)
unfolding slice_from
slice_from-Yields s n h = (drop n s, ground arith, tt)

slice-Yields :
    (s : Bytes) (n m : ℕ) → n ≤ m → m ≤ length s → Yields (λ t. length t ≡ m - n) (slice s n m)
unfolding slice
slice-Yields s n m h k = (
  take (m - n) (drop n s),
  ground arith,
  omega (arith, length-take (m - n) (drop n s), length-drop n s),
)

le_at-Yields : (n : ℕ) (s : Bytes) (off : ℕ) → off + n ≤ length s → Yields Any (le_at n s off)
unfolding le_at
le_at-Yields zero s off h = (0, refl, tt)
le_at-Yields (suc n) s off h = >>=-Yields Any Any _ _ (get_elem?-Yields s off (omega arith)) λ b _.
    >>=-Yields Any Any _ _ (le_at-Yields n s (off + 1) (omega arith)) λ r _. (b + r * 256, refl, tt)

announced-Yields :
    (n k : ℕ) (s : Bytes)
    → n + 1 ≤ length s
    → Yields {A = Option (ℕ × ℕ)} Any (le_at n s 1 >>= λ len. some (some (len, k)))
announced-Yields n k s h =
    >>=-Yields Any Any _ _ (le_at-Yields n s 1 (omega arith)) λ len _. (some (len, k), refl, tt)

lenenc_prefix-Yields : (b : ℕ) (s : Bytes) → Yields Any (lenenc_prefix b s)
unfolding lenenc_prefix
lenenc_prefix-Yields b s =
    if-Yields Any (ltb b 251) _ _ (λ _. (some (b, 1), refl, tt))
      λ _.
        if-Yields Any (b == 0xfc && leb 3 (length s)) _ _
          (λ h. announced-Yields 2 3 s (ground arith))
          λ _.
            if-Yields Any (b == 0xfd && leb 4 (length s)) _ _
              (λ h. announced-Yields 3 4 s (ground arith)) λ _. (none, refl, tt)

lenenc_body-Yields : (s : Bytes) (p : Option (ℕ × ℕ)) → Yields Any (lenenc_body s p)
unfolding lenenc_body
lenenc_body-Yields s none = (([], 0), refl, tt)
lenenc_body-Yields s (some (len, off)) =
    if-Yields Any (ltb (length s) (off + len)) _ _ (λ _. (([], length s), refl, tt))
      λ h.
        >>=-Yields _ Any _ _ (slice-Yields s off (off + len) (omega arith) (ground arith))
          λ t _. (_, refl, tt)

read_lenenc-Yields : (s : Bytes) → Yields Any (read_lenenc_string_safe s)
unfolding read_lenenc_string_safe
read_lenenc-Yields [] = (([], 0), refl, tt)
read_lenenc-Yields (b ∷ s) =
    >>=-Yields Any Any _ _ (lenenc_prefix-Yields b (b ∷ s)) λ p _. lenenc_body-Yields (b ∷ s) p

fixed_param-Yields : (n : ℕ) (payload : Bytes) (off : ℕ) → Yields Any (fixed_param n payload off)
unfolding fixed_param
fixed_param-Yields n payload off =
    if-Yields Any _ _ _
      (λ h. >>=-Yields Any Any _ _ (le_at-Yields n payload off (leb→le _ _ h)) λ v _. (_, refl, tt))
      (λ _. (_, refl, tt))

string_param-Yields :
    (payload : Bytes) (off : ℕ) → off ≤ length payload → Yields Any (string_param payload off)
unfolding string_param
string_param-Yields payload off h =
    >>=-Yields Any Any _ _ (slice_from-Yields payload off h)
      λ rest _. >>=-Yields Any Any _ _ (read_lenenc-Yields rest) λ r _. (_, refl, tt)

read_param-Yields : (payload : Bytes) (t off : ℕ) → Yields Any (read_param payload t off)
unfolding read_param
read_param-Yields payload t off =
    if-Yields Any (leb (length payload) off) _ _ (λ _. (_, refl, tt))
      λ h.
        if-Yields Any (t == 0x01) _ _ (λ _. fixed_param-Yields 1 payload off)
          λ _.
            if-Yields Any (t == 0x02 || t == 0x03) _ _ (λ _. fixed_param-Yields 4 payload off)
              λ _.
                if-Yields Any (t == 0x08) _ _ (λ _. fixed_param-Yields 8 payload off)
                  λ _. string_param-Yields payload off (ground arith)

params_loop-Yields :
    (payload bitmap : Bytes) (i : ℕ) (types : List ℕ) (off : ℕ)
    → (i + length types + 7) / 8 ≤ length bitmap
    → Yields (λ ps. length ps ≡ length types) (params_loop payload bitmap i types off)
unfolding params_loop
params_loop-Yields payload bitmap i [] off h = ([], refl, refl)
params_loop-Yields payload bitmap i (t ∷ types) off h =
    >>=-Yields Any _ _ _ (get_elem?-Yields bitmap (i / 8) (omega arith)) λ byte _.
      >>=-Yields Any _ _ _
        (if-Yields Any (bit_set byte (i % 8)) _ _ (λ _. (_, refl, tt))
          (λ _. read_param-Yields payload t off))
        λ r _.
          >>=-Yields (λ ps. length ps ≡ length types) _ _ _
            (params_loop-Yields payload bitmap (i + 1) types r.1 (omega arith))
            λ ps e. (r.0 ∷ ps, refl, ap suc e)

read_types-Yields :
    (n : ℕ) (payload : Bytes) (off : ℕ)
    → off + n * 2 ≤ length payload
    → Yields (λ ts. length ts ≡ n) (read_types n payload off)
unfolding read_types
read_types-Yields zero payload off h = ([], refl, refl)
read_types-Yields (suc n) payload off h =
    >>=-Yields Any _ _ _ (get_elem?-Yields payload off (omega arith)) λ t _.
      >>=-Yields (λ ts. length ts ≡ n) _ _ _ (read_types-Yields n payload (off + 2) (omega arith))
        λ ts e. (t ∷ ts, refl, ap suc e)

params_after_bitmap-Yields :
    (payload bitmap : Bytes) (n off : ℕ)
    → (n + 7) / 8 ≤ length bitmap
    → Yields (λ ps. length ps ≡ n) (params_after_bitmap payload bitmap n off)
unfolding params_after_bitmap
params_after_bitmap-Yields payload bitmap n off h =
    if-Yields P (leb (length payload) off) _ _ (λ _. (_, refl, length-replicate n null_text))
      λ more. >>=-Yields Any P _ _ (get_elem?-Yields payload off (ground arith)) λ flag _.
        if-Yields P (flag == 1 && leb (off + 1 + n * 2) (length payload)) _ _
          (λ b.
            >>=-Yields (λ ts. length ts ≡ n) P _ _
              (read_types-Yields n payload (off + 1) (ground arith)) λ ts e. loop ts e _)
          (λ _. loop _ (length-replicate n 0xfd) _)
  where
    P : List Text → Type 0
    P ps = length ps ≡ n

    loop :
        (ts : List ℕ)
        → length ts ≡ n
        → (from : ℕ) → Yields (λ ps. length ps ≡ n) (params_loop payload bitmap 0 ts from)
    loop ts e from =
        let (ps, run, k) = params_loop-Yields payload bitmap 0 ts from (omega arith) in
        (ps, run, k ∙ e)

-- For every payload and every count the parse ends without a panic. Below six bytes it gives no
-- parameter at all, and from there on as many as the statement has marks.
pub parse_binary_parameters_safe_total :
    (payload : Bytes) (num_params : ℕ)
    → (ps : List Text) × (parse_binary_parameters_safe payload num_params ≡ some ps)
      × (length ps ≡ (if ltb (length payload) 6 then 0 else num_params))
unfolding parse_binary_parameters_safe
parse_binary_parameters_safe_total payload n =
    if-Yields P (n == 0 || ltb (length payload) 6) _ _ (λ h. ([], refl, ground arith))
      λ h.
        if-Yields P (ltb (length payload) (5 + (n + 7) / 8)) _ _
          (λ _. (_, refl, long _ h (length-replicate n null_text)))
          λ fits.
            >>=-Yields (λ (t : Bytes). length t ≡ 5 + (n + 7) / 8 - 5) P _ _
              (slice-Yields payload 5 (5 + (n + 7) / 8) (omega arith) (ground arith))
              λ bitmap e.
                let (ps, run, k) =
                  params_after_bitmap-Yields payload bitmap n (5 + (n + 7) / 8) (omega arith) in
                (ps, run, long ps h k)
  where
    P : List Text → Type 0
    P ps = length ps ≡ (if ltb (length payload) 6 then 0 else n)

    long : (ps : List Text) → (n == 0 || ltb (length payload) 6) ≡ false → length ps ≡ n → P ps
    long ps h e = ground arith
