-- ===== src/RateLimiter.antt =====
-- src-server/src/rate_limiter.rs: a bucket of tokens for each client address. The arithmetic of `f64` is
-- a parameter, an address is a number, and instants are nanoseconds of the monotonic clock.
pub mod Burst
use bakpia_run.Prelude.{
  ℕ, ◌-◌, ◌==◌, Bool, true, false, Option, none, some, List, [], if◌then◌else◌,
}
use bakpia_run.Float.{F64}
use bakpia_run.Prelude.Maps.{get, insert, nat_eq}

pub record RateLimitInfo (F : Type 0) : Type 0 where
  pub tokens : F
  pub last_update : ℕ

pub record RateLimitHeaders : Type 0 where
  pub limit : ℕ
  pub remaining : ℕ
  pub reset : ℕ

pub record RateLimitError : Type 0 where
  pub limit : ℕ
  pub reset : ℕ

pub record RateLimiter (F : Type 0) : Type 0 where
  pub enabled : Bool
  pub requests_per_minute : ℕ
  pub burst_size : ℕ
  pub clients : List (ℕ × RateLimitInfo F)

pub data Checked : Type 0 where
  allowed : RateLimitHeaders → Checked
  limited : RateLimitError → Checked

module _ {F : Type 0} where
  abbrev pub new : Bool → ℕ → ℕ → RateLimiter F
  new enabled requests_per_minute burst_size = record {
    enabled = enabled;
    requests_per_minute = requests_per_minute;
    burst_size = burst_size;
    clients = [];
  }

module _ {F : Type 0} (f : F64 F) where
  -- `entry(ip).or_insert(..)`
  pub entry : ℕ → ℕ → RateLimiter F → RateLimitInfo F
  entry ip now l = elim (get ip l.clients) [
    | none ↦ record { tokens = f.of_nat l.burst_size; last_update = now }
    | some info ↦ info
  ]

  pub refill_rate : RateLimiter F → F
  refill_rate l = f.div (f.of_nat l.requests_per_minute) (f.of_nat 60)

  -- The tokens of an entry at the instant `now`.
  pub refilled : ℕ → RateLimiter F → RateLimitInfo F → F
  refilled now l info =
      let tokens_to_add = f.mul (f.secs (now - info.last_update)) (refill_rate l) in
      f.fmin (f.add info.tokens tokens_to_add) (f.of_nat l.burst_size)

  reset_seconds : RateLimiter F → F → ℕ
  reset_seconds l tokens =
      if f.to_u32 tokens == 0
      then f.ceil_u64 (f.div (f.sub (f.of_nat l.burst_size) tokens) (refill_rate l))
      else 60

  -- From the refilled tokens on: a token is taken, if there is one, and the entry is written back.
  pub take_token : ℕ → ℕ → RateLimiter F → F → Checked × RateLimiter F
  take_token ip now l tokens =
      let reset = reset_seconds l tokens in
      let left = f.sub tokens (f.of_nat 1) in
      if f.ge tokens (f.of_nat 1)
      then (
        allowed
            (record { limit = l.requests_per_minute; remaining = f.to_u32 left; reset = reset }),
        record l { clients = insert ip (record { tokens = left; last_update = now }) l.clients },
      )
      else (
        limited (record { limit = l.requests_per_minute; reset = reset }),
        record l { clients = insert ip (record { tokens = tokens; last_update = now }) l.clients },
      )

  pub check_rate_limit : ℕ → ℕ → RateLimiter F → Checked × RateLimiter F
  check_rate_limit ip now l =
      if l.enabled
      then take_token ip now l (refilled now l (entry ip now l))
      else (allowed (record { limit = 0; remaining = 0; reset = 0 }), l)
