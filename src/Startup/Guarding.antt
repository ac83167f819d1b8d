-- ===== src/Startup/Guarding.antt =====
-- Which handlers a request reaches.
use bakpia_run.Prelude.{
  ℕ, ◌≡◌, refl, sym, ◌∙◌, ◌⊎◌, inl, inr, arith, Bool, true, false, Bool-cases, ◌&&◌, not, Option,
  Option-cases, List, [], All, if◌then◌else◌, map, get_elem?,
}
use mathlib.Core.Path.{subst}
use bakpia_run.Text.{Text}
use bakpia_run.Config.{Config, Env, or_else}
use bakpia_run.Http.{Headers}
use bakpia_run.AdminAuth.{provided_token, admin_auth_iff}
use bakpia_run.App.Pools.{get_elem?-All}
use bakpia_run.Startup.{
  Method, Endpoint, php, health, metrics, reload, submit_job, get_job_status, Route, app_routes,
  token_env, admin_allows, unauthorized, method_not_allowed, reached, dispatch,
}

-- The handlers of the queue, where it is enabled.
abbrev pub IsOffered : Bool → Endpoint → Type 0
IsOffered enabled submit_job = enabled ≡ true
IsOffered enabled get_job_status = enabled ≡ true
IsOffered enabled php = Unit {0}
IsOffered enabled health = Unit {0}
IsOffered enabled metrics = Unit {0}
IsOffered enabled reload = Unit {0}

abbrev IsProper : Bool → Route → Type 0
IsProper enabled r = ((r.endpoint ≡ php) ⊎ (r.behind_auth ≡ true)) × IsOffered enabled r.endpoint

app_routes-IsProper : (c : Config) → All (IsProper c.queue.enabled) (app_routes c)
unfolding app_routes
app_routes-IsProper c = elim (Bool-cases c.queue.enabled) [
  | inl on ↦ rw on (
    (inl refl, tt),
    (
      (inl refl, tt),
      (
        (inr refl, tt),
        ((inr refl, tt), ((inr refl, tt), ((inr refl, refl), ((inr refl, refl), tt)))),
      ),
    ),
  )
  | inr off ↦
      rw off
        ((inl refl, tt), ((inl refl, tt), ((inr refl, tt), ((inr refl, tt), ((inr refl, tt), tt)))))
]

passed :
    (r : Route) (allowed accepted : Bool) (e : Endpoint)
    → (if r.behind_auth && not allowed
        then unauthorized
        else if accepted
        then reached r.endpoint
        else method_not_allowed)
      ≡ reached e
    → (r.endpoint ≡ e) × ((r.behind_auth ≡ false) ⊎ (allowed ≡ true))
passed r allowed accepted e h = elim (Bool-cases r.behind_auth) [
  | inr free ↦ elim (Bool-cases accepted) [
    | inl on ↦ (ground (arith, (rw (free, on) at h)), inl free)
    | inr off ↦ absurd (ground (arith, (rw (free, off) at h)))
  ]
  | inl behind ↦ elim (Bool-cases allowed) [
    | inr barred ↦ absurd (ground (arith, (rw (behind, barred) at h)))
    | inl let_in ↦ elim (Bool-cases accepted) [
      | inl on ↦ (ground (arith, (rw (behind, let_in, on) at h)), inr let_in)
      | inr off ↦ absurd (ground (arith, (rw (behind, let_in, off) at h)))
    ]
  ]
]

guarded :
    (c : Config) (env : Env) (headers : Headers) (r : Route) (e : Endpoint)
    → IsProper c.queue.enabled r
    → r.endpoint ≡ e
    → (r.behind_auth ≡ false) ⊎ (admin_allows env c headers ≡ true)
    → ((e ≡ php)
        ⊎ (or_else (token_env env c) [] ≡ [])
        ⊎ (provided_token headers ≡ or_else (token_env env c) []))
      × IsOffered c.queue.enabled e
unfolding admin_allows
guarded c env headers r e (kind, offered) same allowed = (
  elim kind [
    | inl page ↦ inl (sym same ∙ page)
    | inr behind ↦ elim allowed [
      | inl free ↦ absurd (ground (arith, behind, free))
      | inr let_in ↦ inr ((admin_auth_iff (token_env env c) headers).0 let_in)
    ]
  ],
  subst (IsOffered c.queue.enabled) same offered,
)

-- However axum matches paths and methods: a request that reaches a handler reaches that of the PHP
-- pages, or no token, or the empty one, is in force, or it provides the token in force, which is that
-- of the environment where it is set and that of the configuration where it is not; and it reaches a
-- handler of the queue only where the queue is enabled.
pub dispatch_guards :
    (matching : List Text → Text → Option ℕ) (accepts : List Method → Method → Bool) (env : Env)
    (c : Config) (method : Method) (path : Text) (headers : Headers) (e : Endpoint)
    → dispatch matching accepts env c method path headers ≡ reached e
    → ((e ≡ php)
        ⊎ (or_else (token_env env c) [] ≡ [])
        ⊎ (provided_token headers ≡ or_else (token_env env c) []))
      × IsOffered c.queue.enabled e
unfolding dispatch admin_allows
dispatch_guards matching accepts env c method path headers e h =
    elim (Option-cases (matching (map (λ r. r.path) (app_routes c)) path)) [
      | inl lost ↦ absurd (ground (arith, (rw (lost, dispatch) at h)))
      | inr (i, fits) ↦ elim (Option-cases (get_elem? (app_routes c) i)) [
        | inl lost ↦ absurd (ground (arith, (rw (fits, dispatch, lost) at h)))
        | inr (r, at) ↦
            let (same, allowed) =
              passed r (admin_allows env c headers) (accepts r.methods method) e
                (rw (fits, dispatch, at) at h) in
            guarded c env headers r e
              (get_elem?-All (IsProper c.queue.enabled) (app_routes c) i r (app_routes-IsProper c)
                at)
              same allowed
      ]
    ]
