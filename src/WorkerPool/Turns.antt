-- ===== src/WorkerPool/Turns.antt =====
-- The turns of the workers when none of them is locked or draining.
use bakpia_run.Prelude.{
  ℕ, zero, suc, ◌+◌, ◌%◌, ◌^◌, ◌<◌, ◌≤◌, ◌≡◌, refl, ◌∙◌, ap, Bool, true, arith, some, List, length,
  get_elem?,
}
use native.Mathlib.Nat.{mod-lt}
use bakpia_run.Worker.{Worker}
use bakpia_run.WorkerPool.{WorkerPool, fetch_add, is_free, attempts, get_next_worker}
use bakpia_run.WorkerPool.Choice.{tried, choose_found, reach}

-- The pool after some calls.
pub calls : (ℕ → ℕ → Bool) → ℕ → WorkerPool → WorkerPool
calls locked zero p = p
calls locked (suc n) p = calls locked n (get_next_worker locked p).1

-- Every worker of the pool is free at every attempt.
abbrev pub AllFree : (ℕ → ℕ → Bool) → List Worker → Type 0
AllFree locked ws =
    (attempt k : ℕ) → k < length ws → is_free (locked attempt k) (get_elem? ws k) ≡ true

attempts_first :
    (locked : ℕ → ℕ → Bool) (ws : List Worker) (left attempt current : ℕ)
    → 0 < left
    → tried locked ws attempt current ≡ true
    → attempts locked ws left attempt current ≡ (current % length ws, true, fetch_add current)
unfolding attempts
attempts_first locked ws zero attempt current h e = absurd (omega (arith, h))
attempts_first locked ws (suc left) attempt current h e = simp (e, attempts) refl

first_free :
    (locked : ℕ → ℕ → Bool) (p : WorkerPool)
    → 0 < length p.workers
    → AllFree locked p.workers
    → get_next_worker locked p ≡ (
      some (p.current_index % length p.workers),
      record p { current_index = fetch_add p.current_index },
    )
first_free locked p h free =
    let first =
      attempts_first locked p.workers (length p.workers) 0 p.current_index h
        (free 0 (p.current_index % length p.workers) (mod-lt p.current_index h)) in
    choose_found locked p (ground (arith, h)) (ap (λ r. r.1) first)
    ∙ ap (λ r. (some r.0, record p { current_index = r.2 })) first

calls_lem :
    (locked : ℕ → ℕ → Bool) (n : ℕ) (p : WorkerPool)
    → 0 < length p.workers
    → AllFree locked p.workers
    → p.current_index + n < 2 ^ 64
    → calls locked n p ≡ record p { current_index = p.current_index + n }
unfolding calls
calls_lem locked zero p h free b = ap (λ c. record p { current_index = c }) (omega arith)
calls_lem locked (suc n) p h free b =
    let step : (get_next_worker locked p).1 ≡ record p { current_index = p.current_index + 1 } =
      ap (λ r. r.1) (first_free locked p h free)
      ∙ ap (λ c. record p { current_index = c }) (omega (arith, b)) in
    ap (calls locked n) step
    ∙ calls_lem locked n (record p { current_index = p.current_index + 1 }) h free
        (omega (arith, b))
    ∙ ap (λ c. record p { current_index = c }) (omega arith)

-- When no worker is locked or draining and the counter does not overflow, each worker of the pool
-- is the choice of one of as many successive calls as there are workers.
pub calls_reach_every_worker :
    (locked : ℕ → ℕ → Bool) (p : WorkerPool) (k : ℕ)
    → AllFree locked p.workers
    → p.current_index + length p.workers ≤ 2 ^ 64
    → k < length p.workers
    → (i : ℕ) × (i < length p.workers) × ((get_next_worker locked (calls locked i p)).0 ≡ some k)
calls_reach_every_worker locked p k free b l =
    let (i, li, at) = reach (length p.workers) p.current_index k l in
    let some_workers : 0 < length p.workers = omega (arith, l) in
    let there = calls_lem locked i p some_workers free (omega (arith, b, li)) in
    (
      i,
      li,
      ap (λ q. (get_next_worker locked q).0) there
          ∙ ap (λ r. r.0)
              (first_free locked (record p { current_index = p.current_index + i }) some_workers
                free)
          ∙ ap some at,
    )
