-- ===== src/StaticFile/Mime.antt =====
-- The table of the types and the list of the extensions.
use bakpia_run.Prelude.{
  ◌≡◌, ◌≢◌, ◌↔◌, ◌⊎◌, refl, sym, ◌∙◌, ap, inl, inr, Bool, true, false, not, ◌||◌, List, [], ◌∷◌,
  ◌++◌, arith, any, Bool-cases,
}
use bakpia_run.Text.{Text, codes, text_eq, to_lowercase}
use bakpia_run.Text.Matching.{text_eq→eq, text_eq_refl}
use bakpia_run.StaticFile.{
  mime_types, octet_stream, first_arm, get_mime_type, static_extensions, extension_of,
  is_static_file,
}

-- A text found in a list has what no element lacks.
any-none :
    (q : Text → Bool) (e : Text) (xs : List Text)
    → any q xs ≡ false
    → any (text_eq e) xs ≡ true
    → q e ≡ false
any-none q e [] h k = absurd (ground (arith, k))
any-none q e (x ∷ xs) h k = elim (Bool-cases (text_eq e x)) [
  | inl hit ↦ let same : e ≡ x = text_eq→eq e x hit in ap q same ∙ ground (arith, h)
  | inr miss ↦ any-none q e xs (ground (arith, h)) (ground (arith, k, miss))
]

abbrev patterns_of : List (List Text × Text) → List Text
patterns_of [] = []
patterns_of ((patterns, mime) ∷ arms) = patterns ++ patterns_of arms

any-append : (p : Text → Bool) (xs ys : List Text) → any p (xs ++ ys) ≡ (any p xs || any p ys)
any-append p [] ys = refl
any-append p (x ∷ xs) ys = ground (arith, any-append p xs ys)

-- A text with a type of its own is a pattern of some arm.
first_arm_cases :
    (arms : List (List Text × Text)) (e : Text)
    → (first_arm arms e ≡ octet_stream) ⊎ (any (text_eq e) (patterns_of arms) ≡ true)
unfolding first_arm
first_arm_cases [] e = inl refl
first_arm_cases ((patterns, mime) ∷ arms) e = elim (Bool-cases (any (text_eq e) patterns)) [
  | inl hit ↦ inr (any-append (text_eq e) patterns (patterns_of arms) ∙ ground (arith, hit))
  | inr miss ↦ elim (first_arm_cases arms e) [
    | inl o ↦ inl (rw miss o)
    | inr h ↦ inr (any-append (text_eq e) patterns (patterns_of arms) ∙ ground (arith, h))
  ]
]

abbrev is_untyped : Text → Bool
is_untyped e = text_eq (first_arm mime_types e) octet_stream

abbrev is_gzip : Text → Bool
is_gzip e = text_eq e (codes "gzip")

abbrev is_forgotten : Text → Bool
is_forgotten e = not (any (text_eq e) static_extensions || is_gzip e)

all_typed : any is_untyped static_extensions ≡ false
unfolding first_arm text_eq
all_typed = refl

no_gzip : any is_gzip static_extensions ≡ false
unfolding text_eq
no_gzip = refl

none_forgotten : any is_forgotten (patterns_of mime_types) ≡ false
unfolding text_eq
none_forgotten = refl

-- The same of an extension in lower case.
static_typed :
    (e : Text)
    → any (text_eq e) static_extensions ≡ true
    → (first_arm mime_types e ≢ octet_stream) × (e ≢ codes "gzip")
static_typed e h = (
  λ o.
      let typed = any-none is_untyped e static_extensions all_typed h in
      absurd
        (ground (arith, sym typed ∙ ap (λ t. text_eq t octet_stream) o, text_eq_refl octet_stream)),
  λ g.
      let other = any-none is_gzip e static_extensions no_gzip h in
      absurd (ground (arith, sym other ∙ ap is_gzip g, text_eq_refl (codes "gzip"))),
)

typed_static :
    (e : Text)
    → first_arm mime_types e ≢ octet_stream
    → e ≢ codes "gzip"
    → any (text_eq e) static_extensions ≡ true
typed_static e typed other = elim (first_arm_cases mime_types e) [
  | inl o ↦ absurd (typed o)
  | inr h ↦ elim (Bool-cases (is_gzip e)) [
    | inl g ↦ absurd (other (text_eq→eq e (codes "gzip") g))
    | inr n ↦
        let known = any-none is_forgotten e (patterns_of mime_types) none_forgotten h in
        elim (Bool-cases (any (text_eq e) static_extensions)) [
          | inl s ↦ s
          | inr s ↦ absurd (ground (arith, known, n, s))
        ]
  ]
]

-- A path is one of a static file exactly if its extension, in lower case, has a MIME type of its own
-- and is not gzip.
pub is_static_file_iff :
    (path : Text)
    → (is_static_file path ≡ true) ↔ (
        (get_mime_type (extension_of path) ≢ octet_stream)
        × (to_lowercase (extension_of path) ≢ codes "gzip"))
unfolding is_static_file get_mime_type
is_static_file_iff path = (
  λ h. static_typed (to_lowercase (extension_of path)) h,
  λ (typed, other). typed_static (to_lowercase (extension_of path)) typed other,
)
