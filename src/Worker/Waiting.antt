-- ===== src/Worker/Waiting.antt =====
-- How long the operations of a worker sleep.
use bakpia_run.Prelude.{
  ℕ, zero, suc, ◌+◌, ◌*◌, ◌≤◌, ◌<◌, ◌≡◌, refl, ◌⊎◌, inl, inr, Bool, true, false, ◌&&◌, not, arith,
  ltb, Bool-cases, none, some, Option, ltb→lt, if◌then◌else◌,
}
use bakpia_run.Text.{Text}
use bakpia_run.Config.{Config}
use bakpia_run.Worker.{
  Worker, Os, Spawned, child, failed, startup_wait, start_with, start, drain_wait, replace_process,
  graceful_recycle,
}

-- The loop ended by its own test, no more than one sleep past its limit.
abbrev pub IsOver : ℕ → (ℕ → Bool) → ℕ → Type 0
IsOver max_wait_ms exists t = ((max_wait_ms ≤ t) ⊎ (exists t ≡ true)) × (t < max_wait_ms + 10)

startup_wait-IsOver :
    (rounds max_wait_ms : ℕ) (exists : ℕ → Bool) (waited_ms : ℕ)
    → max_wait_ms ≤ waited_ms + rounds * 10
    → waited_ms < max_wait_ms + 10
    → IsOver max_wait_ms exists (startup_wait rounds max_wait_ms exists waited_ms)
unfolding startup_wait
startup_wait-IsOver zero m exists t h k = (inl (omega arith), k)
startup_wait-IsOver (suc rounds) m exists t h k = elim (Bool-cases (ltb t m && not (exists t))) [
  | inl more ↦ rw more (startup_wait-IsOver rounds m exists (t + 10) (omega arith) (ground arith))
  | inr done ↦ rw done (stop_reason done, k)
]
  where
    stop_reason : (ltb t m && not (exists t)) ≡ false → (m ≤ t) ⊎ (exists t ≡ true)
    stop_reason done = elim (Bool-cases (exists t)) [
      | inl there ↦ inr there
      | inr gone ↦ inl (ground arith)
    ]

-- What a start sleeps, by its error.
abbrev pub Waited : ℕ → (ℕ → Bool) → Option Text → ℕ → Type 0
Waited max_wait_ms exists none t = IsOver max_wait_ms exists t
Waited max_wait_ms exists (some e) t = t ≡ 0

-- A start whose process was spawned sleeps until the socket is there or the startup delay has passed,
-- and less than ten milliseconds longer than that delay; a failed spawn does not sleep.
start_waits :
    (os : Os) (c : Config) (w : Worker)
    → Waited c.php.worker_startup_delay_ms os.socket_exists
        (start os c w).error
        (start os c w).slept_ms
unfolding start start_with
start_waits os c w = cases os.spawn
  where
    cases :
        (s : Spawned)
        → Waited c.php.worker_startup_delay_ms os.socket_exists
            (start_with os c w s).error
            (start_with os c w s).slept_ms
    cases (failed e) = refl
    cases (child p) =
        startup_wait-IsOver _ c.php.worker_startup_delay_ms os.socket_exists 0 (omega arith)
          (omega arith)

drain_wait-idle : (rounds t : ℕ) → drain_wait rounds 0 t ≡ t
unfolding drain_wait
drain_wait-idle zero t = refl
drain_wait-idle (suc rounds) t = refl

drain_wait-busy :
    (rounds active t : ℕ) → 0 < active → t + rounds * 20 ≡ 2000 → drain_wait rounds active t ≡ 2000
unfolding drain_wait
drain_wait-busy zero active t h e = omega arith
drain_wait-busy (suc rounds) active t h e =
    ground (arith, drain_wait-busy rounds active (t + 20) h (omega arith))

-- Recycling a worker that is not draining sleeps the whole two seconds before the process is
-- replaced if it has requests in flight, since the count of these requests cannot fall while the
-- recycling task holds the worker; with none in flight it does not sleep before.
pub graceful_recycle_waits :
    (os : Os) (c : Config) (w : Worker)
    → w.draining ≡ false
    → (graceful_recycle os c w).slept_ms
      ≡ (if ltb 0 w.active_requests then 2000 else 0)
        + (replace_process os c (record w { draining = true })).slept_ms
unfolding graceful_recycle
graceful_recycle_waits os c w h = elim (Bool-cases (ltb 0 w.active_requests)) [
  | inl busy ↦
      ground (arith, drain_wait-busy 100 w.active_requests 0 (ltb→lt 0 w.active_requests busy) refl)
  | inr idle ↦ ground (arith, drain_wait-idle 100 0)
]
