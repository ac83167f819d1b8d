-- ===== src/Text/Matching.antt =====
-- What the comparisons of texts decide.
use bakpia_run.Prelude.Maps.{Eq}
use bakpia_run.Prelude.{
  ℕ, zero, suc, ◌-◌, ◌≡◌, ◌↔◌, refl, sym, ap, ◌∙◌, take-length-append, true, [], ◌∷◌, ◌++◌, arith,
  ◌==◌, &&-true, length, take, drop, length-append, drop-length-append, leb,
}
use bakpia_run.Text.{Text, text_eq, starts_with, ends_with}

pub text_eq_refl : (s : Text) → text_eq s s ≡ true
unfolding text_eq
text_eq_refl [] = refl
text_eq_refl (a ∷ s) = ground (arith, text_eq_refl s)

pub text_eq→eq : (s t : Text) → text_eq s t ≡ true → s ≡ t
unfolding text_eq
text_eq→eq [] [] h = refl
text_eq→eq [] (b ∷ t) h = cc
text_eq→eq (a ∷ s) [] h = cc
text_eq→eq (a ∷ s) (b ∷ t) h = ground (arith, text_eq→eq s t)

-- A text begins with another exactly when it is that text with something behind it.
pub starts_with_split : (s t : Text) → starts_with s t ≡ true → (r : Text) × (s ≡ t ++ r)
unfolding starts_with
starts_with_split s [] h = (s, refl)
starts_with_split [] (b ∷ t) h = absurd (ground arith)
starts_with_split (a ∷ s) (b ∷ t) h =
    let (r, e) = starts_with_split s t (&&-true (a == b) _ h).1 in (r, ground arith)

pub starts_with-append : (t r : Text) → starts_with (t ++ r) t ≡ true
unfolding starts_with
starts_with-append [] r = refl
starts_with-append (a ∷ t) r = ground (arith, starts_with-append t r)

take-append-drop : (n : ℕ) (xs : Text) → take n xs ++ drop n xs ≡ xs
take-append-drop zero xs = refl
take-append-drop (suc n) [] = refl
take-append-drop (suc n) (x ∷ xs) = ap (◌∷◌ x) (take-append-drop n xs)

pub ends_with_split : (s t : Text) → ends_with s t ≡ true → (r : Text) × (s ≡ r ++ t)
unfolding ends_with
ends_with_split s t h =
    let n = length s - length t in
    let e : drop n s ≡ t = text_eq→eq _ t (&&-true (leb (length t) (length s)) _ h).1 in
    (take n s, sym (ap (◌++◌ (take n s)) (sym e) ∙ take-append-drop n s))

drop-append_back : (r t : Text) → drop (length (r ++ t) - length t) (r ++ t) ≡ t
drop-append_back r t = rw (back_length) (drop-length-append r t)
  where
    back_length : length (r ++ t) - length t ≡ length r
    back_length = omega (arith, length-append r t)

pub ends_with-append : (r t : Text) → ends_with (r ++ t) t ≡ true
unfolding ends_with
ends_with-append r t = rw (drop-append_back r t, text_eq_refl t) (ground (arith, length-append r t))

pub text_eq_iff : (s t : Text) → (text_eq s t ≡ true) ↔ (s ≡ t)
text_eq_iff s t = (text_eq→eq s t, λ e. rw e (text_eq_refl t))

-- Texts as the keys of maps.
instance abbrev pub text_keys : Eq Text
text_keys = record { beq = text_eq; beq_iff = text_eq_iff }

pub append_cancel_left : (s t u : Text) → s ++ t ≡ s ++ u → t ≡ u
append_cancel_left s t u e =
    sym (drop-length-append s t) ∙ (ap (drop (length s)) e ∙ drop-length-append s u)

pub append_cancel_right : (s t u : Text) → s ++ u ≡ t ++ u → s ≡ t
append_cancel_right s t u e =
    let same : length s ≡ length t =
      omega (arith, ap length e, length-append s u, length-append t u) in
    sym (take-length-append s u) ∙ (ap (take (length s)) e ∙ (rw same (take-length-append t u)))
