-- ===== src/DbProxy/Listener/Local.antt =====
-- Whom the proxy serves.
use bakpia_run.Prelude.{
  ℕ, ◌≡◌, refl, sym, ap, ◌∙◌, ◌⊎◌, inl, inr, arith, Bool, true, false, Bool-cases, ◌&&◌, not,
  Option, Option-cases, List, [], ◌∷◌,
}
use bakpia_run.Text.{Text, codes, text_eq}
use bakpia_run.Text.Matching.{text_eq_iff}
use bakpia_run.Text.Decimal.{address}
use bakpia_run.Config.{Config}
use bakpia_run.Prelude.{refl, sym, ap, ◌∙◌, ◌⊎◌, inl, inr, arith, Bool-cases, Option-cases, ◌≡◌}
use bakpia_run.Text.Matching.{text_eq_iff}
use bakpia_run.DbProxy.Listener.{
  url, Backend, server_version, Accepted, client, accept_error, Served, accept_loop, listening,
  start,
}

-- What comes before the first error of `accept`.
abbrev pub before_error : List Accepted → List Accepted
before_error [] = []
before_error (accept_error e ∷ rest) = []
before_error (client addr is_loopback ∷ rest) = client addr is_loopback ∷ before_error rest

-- The clients with a loopback address.
abbrev pub loopbacks : List Accepted → List Text
loopbacks [] = []
loopbacks (accept_error e ∷ rest) = loopbacks rest
loopbacks (client addr true ∷ rest) = addr ∷ loopbacks rest
loopbacks (client addr false ∷ rest) = loopbacks rest

accept_loop-clients :
    (accepts : List Accepted) → (accept_loop accepts).clients ≡ loopbacks (before_error accepts)
unfolding accept_loop
accept_loop-clients [] = refl
accept_loop-clients (accept_error e ∷ rest) = refl
accept_loop-clients (client addr true ∷ rest) = ap (λ t. addr ∷ t) (accept_loop-clients rest)
accept_loop-clients (client addr false ∷ rest) = accept_loop-clients rest

-- A listen address that is not refused.
abbrev is_foreign : Text → Bool
is_foreign a = not (text_eq a (codes "127.0.0.1")) && not (text_eq a (codes "localhost"))

is_foreign-local :
    (a : Text) (port : ℕ)
    → is_foreign a ≡ false
    → (address a port ≡ address (codes "127.0.0.1") port)
      ⊎ (address a port ≡ address (codes "localhost") port)
is_foreign-local a port h = elim (Bool-cases (text_eq a (codes "127.0.0.1"))) [
  | inl home ↦ inl (ap (λ t. address t port) ((text_eq_iff a (codes "127.0.0.1")).0 home))
  | inr other ↦
      inr (
        ap (λ t. address t port) ((text_eq_iff a (codes "localhost")).0 (ground (arith, h, other))))
]

listened : {a b v w : Text} {s t : Served} → listening a v s ≡ listening b w t → s ≡ t
listened h = ground (arith, h)

-- A proxy that listens does so on the port of the configuration at 127.0.0.1 or localhost, was
-- enabled, and, whoever connects, serves just the clients with a loopback address that come before the
-- first error of `accept`: that error ends it.
pub start-IsLocal :
    (from_url : Text → Option Text) (backend : Backend) (bind : Text → Option Text)
    (accepts : List Accepted) (config : Config) (addr version : Text) (served : Served)
    → start from_url backend bind accepts config ≡ listening addr version served
    → (config.db_proxy.enabled ≡ true)
      × ((addr ≡ address (codes "127.0.0.1") config.db_proxy.listen_port)
          ⊎ (addr ≡ address (codes "localhost") config.db_proxy.listen_port))
      × (version ≡ server_version config.db_proxy backend)
      × (served.clients ≡ loopbacks (before_error accepts))
unfolding start
start-IsLocal from_url backend bind accepts config addr version served h =
    let db = config.db_proxy in
    elim (Bool-cases db.enabled) [
      | inr off ↦ absurd (ground (arith, (rw (off, start) at h)))
      | inl on ↦ elim (Bool-cases (is_foreign db.listen_address)) [
        | inl foreign ↦ absurd (ground (arith, (rw (on, start, foreign) at h)))
        | inr near ↦ elim (Option-cases (from_url (url db.target))) [
          | inr (e, bad) ↦ absurd (ground (arith, (rw (on, start, near, bad) at h)))
          | inl fine ↦ elim (Option-cases (bind (address db.listen_address db.listen_port))) [
            | inr (e, bad) ↦ absurd (ground (arith, (rw (on, start, near, fine, bad) at h)))
            | inl bound ↦
                let up = (rw (on, start, near, fine, bound) at h) in
                (
                  on,
                  elim (is_foreign-local db.listen_address db.listen_port near) [
                    | inl home ↦ inl (ground (arith, up, home))
                    | inr home ↦ inr (ground (arith, up, home))
                  ],
                  ground (arith, up),
                  ap (λ s. s.clients) (sym (listened up)) ∙ accept_loop-clients accepts,
                )
          ]
        ]
      ]
    ]
