-- ===== src/Tests/Limits.antt =====
-- The rate limiter: src-server/src/rate_limiter.rs, with whole numbers in place of `f64`.
use bakpia_run.Prelude.{ℕ, ◌≡◌, refl, ltb, true, arith, [], ◌∷◌, none}
use bakpia_run.Prelude.Maps.{get, nat_eq}
use bakpia_run.Tests.Samples.{whole}
use bakpia_run.RateLimiter.{RateLimiter, check_rate_limit}
use bakpia_run.RateLimiter.Burst.{IsExact, is_allowed, checks, fresh_client_burst}

whole-IsExact : IsExact whole
whole-IsExact = record {
  no_time = λ n m h k. omega arith;
  fmin_of = λ n m h k. refl;
  sub_one = λ n h k. refl;
  ge_one = λ n h. refl;
}

-- Client 9 has used up its tokens.
abbrev sample_limiter : RateLimiter ℕ
sample_limiter = record {
  enabled = true;
  requests_per_minute = 60;
  burst_size = 3;
  clients = (9, record { tokens = 0; last_update = 5 }) ∷ [];
}

client_unknown : get 7 sample_limiter.clients ≡ none
unfolding get
client_unknown = refl

fresh_client_burst_example :
    is_allowed (check_rate_limit whole 7 100 (checks whole 2 7 100 sample_limiter)).0 ≡ ltb 2 3
fresh_client_burst_example =
    fresh_client_burst whole whole-IsExact 2 7 100 sample_limiter refl (omega arith) (omega arith)
      client_unknown
