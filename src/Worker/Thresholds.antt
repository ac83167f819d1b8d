-- ===== src/Worker/Thresholds.antt =====
-- When a worker is to be recycled.
use bakpia_run.Prelude.{
  ℕ, ◌*◌, ◌/◌, ◌%◌, ◌^◌, ◌≤◌, ◌<◌, ◌≡◌, ◌↔◌, ◌⊎◌, inl, inr, min, max, Bool-cases, false, none,
  arith,
}
use bakpia_run.Config.{Config}
use bakpia_run.Worker.{Worker, clamp, threshold_bytes, should_restart}

-- A limit of at most 2^36 MB keeps both products below 2^64.
abbrev pub FitsLimit : Config → Type 0
FitsLimit c = c.php.memory_limit_mb ≤ 2 ^ 36

clamp_bounds : (x : ℕ) → (1 ≤ clamp x) × (clamp x ≤ 100)
clamp_bounds x = omega arith

product_bound : (m p : ℕ) → p ≤ 100 → m * p ≤ m * 100
product_bound m p h = grind arith

-- With no wrap the products are exact, and the percentage of at most 100 keeps the limit.
exact_share :
    (m p : ℕ)
    → m ≤ 2 ^ 36
    → p ≤ 100
    → (m * 1024 % 2 ^ 64 * 1024 % 2 ^ 64 * p % 2 ^ 64 / 100 ≡ m * 2 ^ 20 * p / 100)
      × (m * 2 ^ 20 * p / 100 ≤ m * 2 ^ 20)
exact_share m p h k =
    let limit : m * 1024 % 2 ^ 64 * 1024 % 2 ^ 64 ≡ m * 2 ^ 20 = omega arith in
    (rw limit (omega (arith, product_bound m p k)), omega (arith, product_bound m p k))

-- With a limit of at most 2^36 MB, the threshold is the exact share of the limit in bytes, rounded
-- down, and is at most the limit; the percentage counts as 1 below 1 and as 100 above 100.
threshold_bytes_exact :
    (c : Config)
    → FitsLimit c
    → (threshold_bytes c
        ≡ c.php.memory_limit_mb
          * 2 ^ 20
          * max 1 (min c.anti_oom.worker_threshold_percent 100)
          / 100)
      × (threshold_bytes c ≤ c.php.memory_limit_mb * 2 ^ 20)
unfolding threshold_bytes
threshold_bytes_exact c h =
    let (e, k) =
      exact_share c.php.memory_limit_mb (clamp c.anti_oom.worker_threshold_percent) h
        (clamp_bounds c.anti_oom.worker_threshold_percent).1 in
    (e, rw e k)

-- With the engine enabled, a worker is left alone exactly if its resident memory and both figures that
-- PHP reported are within the threshold and it has handled fewer requests than its limit; with the
-- engine disabled, always.
should_restart_iff :
    (c : Config) (w : Worker)
    → (should_restart c w ≡ none) ↔ (
        (c.anti_oom.enabled ≡ false)
        ⊎ ((w.rss_bytes ≤ threshold_bytes c)
            × (w.last_memory ≤ threshold_bytes c)
            × (w.last_peak ≤ threshold_bytes c)
            × (w.requests_handled < c.php.max_requests)))
unfolding should_restart
should_restart_iff c w = (
  λ h. elim (Bool-cases c.anti_oom.enabled) [ inr off ↦ inl off | inl on ↦ inr (ground arith) ],
  λ h. ground arith,
)
