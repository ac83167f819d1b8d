-- ===== src/RateLimiter/Burst.antt =====
-- What a client gets at one instant.
use bakpia_run.Prelude.{
  ℕ, zero, suc, ◌-◌, ◌^◌, ◌≤◌, ◌<◌, ◌≡◌, refl, sym, ap, ◌∙◌, Bool, true, false, arith, min, leb,
  ltb, ◌==◌, ==_refl, Bool-cases, inl, inr, none, some,
}
use mathlib.Core.Path.{subst}
use bakpia_run.Prelude.Maps.{get, insert, get-insert, nat_eq}
use bakpia_run.Float.{F64}
use bakpia_run.RateLimiter.{
  RateLimitInfo, RateLimiter, Checked, allowed, limited, entry, refill_rate, refilled, take_token,
  check_rate_limit,
}

abbrev pub is_allowed : Checked → Bool
is_allowed (allowed h) = true
is_allowed (limited e) = false

-- `f64` is exact on the values of a `u32`, and no time adds no tokens.
pub record IsExact {F : Type 0} (f : F64 F) : Type 0 where
  pub no_time :
      (n m : ℕ)
      → n < 2 ^ 32
      → m < 2 ^ 32
      → f.add (f.of_nat n) (f.mul (f.secs 0) (f.div (f.of_nat m) (f.of_nat 60))) ≡ f.of_nat n
  pub fmin_of :
      (n m : ℕ) → n < 2 ^ 32 → m < 2 ^ 32 → f.fmin (f.of_nat n) (f.of_nat m) ≡ f.of_nat (min n m)
  pub sub_one : (n : ℕ) → 1 ≤ n → n < 2 ^ 32 → f.sub (f.of_nat n) (f.of_nat 1) ≡ f.of_nat (n - 1)
  pub ge_one : (n : ℕ) → n < 2 ^ 32 → f.ge (f.of_nat n) (f.of_nat 1) ≡ leb 1 n

module _ {F : Type 0} (f : F64 F) where
  -- The limiter after some checks of one client at one instant.
  pub checks : ℕ → ℕ → ℕ → RateLimiter F → RateLimiter F
  checks zero ip now l = l
  checks (suc n) ip now l = checks n ip now (check_rate_limit f ip now l).1

  -- A check writes the entry of its own client only.
  check_rate_limit-get :
      (ip j now : ℕ) (l : RateLimiter F)
      → (ip == j) ≡ false
      → get j (check_rate_limit f ip now l).1.clients ≡ get j l.clients
  unfolding check_rate_limit take_token
  check_rate_limit-get ip j now l h =
      let y = refilled f now l (entry f ip now l) in
      elim (Bool-cases l.enabled) [
        | inr off ↦ simp (off, check_rate_limit) refl
        | inl on ↦ elim (Bool-cases (f.ge y (f.of_nat 1))) [
          | inl e ↦
              simp (on, e, check_rate_limit, take_token)
                (get-insert ip j _ l.clients ∙ ground (arith, h))
          | inr e ↦
              simp (on, e, check_rate_limit, take_token)
                (get-insert ip j _ l.clients ∙ ground (arith, h))
        ]
      ]

  enabled_check :
      (ip now : ℕ) (l : RateLimiter F)
      → l.enabled ≡ true
      → check_rate_limit f ip now l ≡ take_token f ip now l (refilled f now l (entry f ip now l))
  unfolding check_rate_limit
  enabled_check ip now l on = simp (on, check_rate_limit) refl

  new_entry :
      (ip now : ℕ) (l : RateLimiter F)
      → get ip l.clients ≡ none
      → entry f ip now l ≡ record { tokens = f.of_nat l.burst_size; last_update = now }
  unfolding entry
  new_entry ip now l e = simp (e, entry) refl

  entry_written :
      (ip now : ℕ) (info : RateLimitInfo F) (l : RateLimiter F)
      → entry f ip now (record l { clients = insert ip info l.clients }) ≡ info
  unfolding entry
  entry_written ip now info l =
      let there : get ip (insert ip info l.clients) ≡ some info =
        get-insert ip ip info l.clients ∙ rw (==_refl ip) refl in
      simp (there, entry) refl

module _ {F : Type 0} (f : F64 F) (x : IsExact f) where
  refilled-full :
      (now t : ℕ) (l : RateLimiter F)
      → t ≤ l.burst_size
      → l.burst_size < 2 ^ 32
      → l.requests_per_minute < 2 ^ 32
      → refilled f now l (record { tokens = f.of_nat t; last_update = now }) ≡ f.of_nat t
  unfolding refilled refill_rate
  refilled-full now t l h b r =
      ap
        (λ n.
          f.fmin
            (f.add (f.of_nat t)
              (f.mul (f.secs n) (f.div (f.of_nat l.requests_per_minute) (f.of_nat 60))))
            (f.of_nat l.burst_size))
        (omega arith)
      ∙ ap (λ y. f.fmin y (f.of_nat l.burst_size))
          (x.no_time t l.requests_per_minute (omega (arith, h, b)) r)
      ∙ x.fmin_of t l.burst_size (omega (arith, h, b)) b
      ∙ ap f.of_nat (omega (arith, h))

  -- With `t` whole tokens: a check is allowed if there is one, and one less is left.
  IsSpent : ℕ → ℕ → ℕ → RateLimiter F → Checked × RateLimiter F → Type 0
  IsSpent ip now t l r =
      (is_allowed r.0 ≡ ltb 0 t)
      × (entry f ip now r.1 ≡ record { tokens = f.of_nat (t - 1); last_update = now })
      × (r.1.enabled ≡ l.enabled)
      × (r.1.burst_size ≡ l.burst_size)
      × (r.1.requests_per_minute ≡ l.requests_per_minute)

  take_token-IsSpent :
      (ip now t : ℕ) (l : RateLimiter F)
      → t < 2 ^ 32
      → IsSpent ip now t l (take_token f ip now l (f.of_nat t))
  unfolding IsSpent take_token
  take_token-IsSpent ip now zero l b =
      let none_left : f.ge (f.of_nat 0) (f.of_nat 1) ≡ false = x.ge_one 0 b in
      simp (none_left, take_token)
        (
          refl,
          entry_written f ip now (record { tokens = f.of_nat 0; last_update = now }) l,
          refl,
          refl,
          refl,
        )
  take_token-IsSpent ip now (suc t) l b =
      let one : f.ge (f.of_nat (suc t)) (f.of_nat 1) ≡ true = x.ge_one (suc t) b ∙ ground arith in
      let less = x.sub_one (suc t) (omega arith) b in
      simp (one, take_token)
        (
          ground arith,
          entry_written f ip now
                (record { tokens = f.sub (f.of_nat (suc t)) (f.of_nat 1); last_update = now }) l
              ∙ ap (λ y. record { tokens = y; last_update = now }) less,
          refl,
          refl,
          refl,
        )

  check-IsSpent :
      (ip now t : ℕ) (l : RateLimiter F)
      → l.enabled ≡ true
      → t ≤ l.burst_size
      → l.burst_size < 2 ^ 32
      → l.requests_per_minute < 2 ^ 32
      → entry f ip now l ≡ record { tokens = f.of_nat t; last_update = now }
      → IsSpent ip now t l (check_rate_limit f ip now l)
  check-IsSpent ip now t l on h b r e =
      let tokens : refilled f now l (entry f ip now l) ≡ f.of_nat t =
        ap (refilled f now l) e ∙ refilled-full now t l h b r in
      subst (IsSpent ip now t l)
        (sym (enabled_check f ip now l on ∙ ap (take_token f ip now l) tokens))
        (take_token-IsSpent ip now t l (omega (arith, h, b)))

  checks-allowed :
      (k ip now t : ℕ) (l : RateLimiter F)
      → l.enabled ≡ true
      → t ≤ l.burst_size
      → l.burst_size < 2 ^ 32
      → l.requests_per_minute < 2 ^ 32
      → entry f ip now l ≡ record { tokens = f.of_nat t; last_update = now }
      → is_allowed (check_rate_limit f ip now (checks f k ip now l)).0 ≡ ltb k t
  unfolding checks IsSpent
  checks-allowed zero ip now t l on h b r e = (check-IsSpent ip now t l on h b r e).0
  checks-allowed (suc k) ip now t l on h b r e =
      let (answer, left, on', burst, rpm) = check-IsSpent ip now t l on h b r e in
      checks-allowed k ip now (t - 1) (check_rate_limit f ip now l).1 (on' ∙ on)
        (omega (arith, h, burst)) (omega (arith, b, burst)) (omega (arith, r, rpm)) left
      ∙ ground arith

  -- With exact arithmetic on whole numbers, a client that the enabled limiter does not know gets as
  -- many requests through at one instant as the burst has tokens: request number `k`, counted from
  -- 0, is allowed exactly if `k` is less than the burst size.
  pub fresh_client_burst :
      (k ip now : ℕ) (l : RateLimiter F)
      → l.enabled ≡ true
      → l.burst_size < 2 ^ 32
      → l.requests_per_minute < 2 ^ 32
      → get ip l.clients ≡ none
      → is_allowed (check_rate_limit f ip now (checks f k ip now l)).0 ≡ ltb k l.burst_size
  fresh_client_burst k ip now l on b r fresh =
      checks-allowed k ip now l.burst_size l on (omega arith) b r (new_entry f ip now l fresh)
