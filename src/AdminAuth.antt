-- ===== src/AdminAuth.antt =====
-- src-server/src/middleware/admin_auth.rs: who may call the admin routes. The environment variable
-- BAKPIA_ADMIN_TOKEN is an argument.
use bakpia_run.Prelude.{
  Bool, true, [], ◌∷◌, ◌≡◌, ◌↔◌, ◌⊎◌, inl, inr, refl, Option, none, some, if◌then◌else◌, arith,
}
use mathlib.Core.Option
use bakpia_run.Config.{or_else}
use bakpia_run.Text.{Text, codes, text_eq, is_empty, trim}
use bakpia_run.Text.Splitting.{strip_prefix}
use bakpia_run.Text.Matching.{text_eq_iff}
use bakpia_run.Http.{Headers}

-- The value of a header that is there and visible ASCII: `get(..).and_then(|v| v.to_str().ok())`.
abbrev pub visible : Headers → Text → Option Text
visible headers name = elim (headers name) [ none ↦ none | some v ↦ v ]

abbrev pub bearer : Text → Text
bearer s = trim (or_else (strip_prefix s (codes "Bearer ")) s)

unfoldable pub provided_token : Headers → Text
unfolding strip_prefix trim
provided_token headers = elim (visible headers (codes "X-Admin-Token")) [
  | some t ↦ t
  | none ↦ or_else (Option.map bearer (visible headers (codes "Authorization"))) []
]

-- Whether the request goes on to its handler; it is answered with status 401 otherwise.
unfoldable pub admin_auth : Option Text → Headers → Bool
unfolding is_empty text_eq
admin_auth env headers =
    let expected_token = or_else env [] in
    if is_empty expected_token then true else text_eq (provided_token headers) expected_token

-- A request goes on exactly if no token, or the empty one, is configured, or the token that it
-- provides is the configured one.
pub admin_auth_iff :
    (env : Option Text) (headers : Headers)
    → (admin_auth env headers ≡ true)
      ↔ ((or_else env [] ≡ []) ⊎ (provided_token headers ≡ or_else env []))
unfolding admin_auth
admin_auth_iff env headers = cases (or_else env [])
  where
    cases :
        (t : Text)
        → ((if is_empty t then true else text_eq (provided_token headers) t) ≡ true)
          ↔ ((t ≡ []) ⊎ (provided_token headers ≡ t))
    cases [] = (λ _. inl refl, λ _. refl)
    cases (c ∷ t) = (
      λ h. inr ((text_eq_iff (provided_token headers) (c ∷ t)).0 h),
      elim [
        | inl e ↦ absurd (ground (arith, e))
        | inr e ↦ (text_eq_iff (provided_token headers) (c ∷ t)).1 e
      ],
    )
