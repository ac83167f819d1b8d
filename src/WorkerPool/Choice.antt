-- ===== src/WorkerPool/Choice.antt =====
-- Which worker gets the request.
use bakpia_run.Prelude.{
  ℕ, ◌⊎◌, zero, suc, ◌+◌, ◌-◌, ◌%◌, ◌^◌, ◌<◌, ◌≤◌, ◌≡◌, refl, sym, ◌∙◌, ap, Bool, true, false,
  arith, Bool-cases, none, some, List, inl, inr, leb, leb→le, ◌==◌, length, get_elem?,
}
use native.Mathlib.Nat.{mod-lt, mod-add-mod, mod-eq_of_lt, add-mod_right}
use bakpia_run.Worker.{Worker}
use bakpia_run.WorkerPool.{WorkerPool, fetch_add, is_free, attempts, get_next_worker}

-- An index that the attempts report is the one of an attempt at which its worker was free.
attempts-free :
    (locked : ℕ → ℕ → Bool) (ws : List Worker) (left attempt current : ℕ)
    → current + left ≤ 2 ^ 64
    → (attempts locked ws left attempt current).1 ≡ true
    → (i : ℕ) × (i < left)
      × ((attempts locked ws left attempt current).0 ≡ (current + i) % length ws)
      × (is_free
            (locked (attempt + i) (attempts locked ws left attempt current).0)
            (get_elem? ws (attempts locked ws left attempt current).0)
          ≡ true)
unfolding attempts
attempts-free locked ws zero attempt current b h = absurd (ground (arith, h))
attempts-free locked ws (suc left) attempt current b h =
    let here = current % length ws in
    elim (Bool-cases (is_free (locked attempt here) (get_elem? ws here))) [
      | inl e ↦ rw e (
        0,
        omega arith,
        ap (λ n. n % length ws) (omega arith),
        ap (λ a. is_free (locked a here) (get_elem? ws here)) (omega arith) ∙ e,
      )
      | inr e ↦
          let (i, li, at, free) =
            attempts-free locked ws left (suc attempt) (fetch_add current) (omega (arith, b))
              (rw e at h) in
          let next : fetch_add current ≡ current + 1 = omega (arith, b, li) in
          let index = (attempts locked ws left (suc attempt) (fetch_add current)).0 in
          rw e (
            suc i,
            omega (arith, li),
            at ∙ ap (λ n. n % length ws) (omega (arith, next)),
            ap (λ a. is_free (locked a index) (get_elem? ws index)) (omega arith) ∙ free,
          )
    ]

-- The attempt that reaches worker `k`.
pub reach : (len current k : ℕ) → k < len → (i : ℕ) × (i < len) × ((current + i) % len ≡ k)
reach len current k h =
    let low : current % len < len = mod-lt current (omega (arith, h)) in
    elim (Bool-cases (leb (current % len) k)) [
      | inl e ↦
          let le = leb→le (current % len) k e in
          (
            k - current % len,
            omega (arith, h),
            sym (mod-add-mod current len (k - current % len))
                ∙ ap (λ n. n % len) (omega (arith, le))
                ∙ mod-eq_of_lt h,
          )
      | inr e ↦
          let gt : k < current % len = ground (arith, e) in
          let i = (k + len) - current % len in
          (
            i,
            omega (arith, gt, low),
            sym (mod-add-mod current len i)
                ∙ ap (λ n. n % len) (omega (arith, low))
                ∙ add-mod_right k len
                ∙ mod-eq_of_lt h,
          )
    ]

-- What an attempt finds.
abbrev pub tried : (ℕ → ℕ → Bool) → List Worker → ℕ → ℕ → Bool
tried locked ws attempt current =
    is_free (locked attempt (current % length ws)) (get_elem? ws (current % length ws))

missed :
    (locked : ℕ → ℕ → Bool) (ws : List Worker) (left attempt current : ℕ)
    → (attempts locked ws (suc left) attempt current).1 ≡ false
    → (tried locked ws attempt current ≡ false)
      × ((attempts locked ws left (suc attempt) (fetch_add current)).1 ≡ false)
unfolding attempts
missed locked ws left attempt current h = elim (Bool-cases (tried locked ws attempt current)) [
  | inl e ↦ absurd (ground (arith, (rw e at h)))
  | inr e ↦ (e, rw e at h)
]

-- Attempts that find nobody tried every worker they reached in vain.
attempts-none :
    (locked : ℕ → ℕ → Bool) (ws : List Worker) (left attempt current : ℕ)
    → current + left ≤ 2 ^ 64
    → (attempts locked ws left attempt current).1 ≡ false
    → (i : ℕ) → i < left
    → tried locked ws (attempt + i) (current + i) ≡ false
unfolding attempts
attempts-none locked ws zero attempt current b h i l = absurd (omega (arith, l))
attempts-none locked ws (suc left) attempt current b h zero l =
    ap (λ a. tried locked ws a (current + 0)) (omega arith)
    ∙ ap (λ x. tried locked ws attempt x) (omega arith)
    ∙ (missed locked ws left attempt current h).0
attempts-none locked ws (suc left) attempt current b h (suc i) l =
    let next : fetch_add current ≡ current + 1 = omega (arith, b, l) in
    ap (λ a. tried locked ws a (current + suc i)) (omega arith)
    ∙ ap (λ x. tried locked ws (suc attempt + i) x) (omega (arith, next))
    ∙ attempts-none locked ws left (suc attempt) (fetch_add current) (omega (arith, b, l, next))
        (missed locked ws left attempt current h).1 i (omega (arith, l))

-- A worker that is free throughout is chosen, or another one that was free when it was tried.
pub attempts-found :
    (locked : ℕ → ℕ → Bool) (ws : List Worker) (current k : ℕ)
    → current + length ws ≤ 2 ^ 64
    → k < length ws
    → ((attempt : ℕ) → is_free (locked attempt k) (get_elem? ws k) ≡ true)
    → (attempts locked ws (length ws) 0 current).1 ≡ true
attempts-found locked ws current k b l h =
    elim (Bool-cases (attempts locked ws (length ws) 0 current).1) [
      | inl e ↦ e
      | inr e ↦
          let (i, li, at) = reach (length ws) current k l in
          let taken : tried locked ws (0 + i) (current + i) ≡ false =
            attempts-none locked ws (length ws) 0 current b e i li in
          let free : is_free (locked (0 + i) ((current + i) % length ws))
                (get_elem? ws ((current + i) % length ws))
              ≡ true =
            ap (λ n. is_free (locked (0 + i) n) (get_elem? ws n)) at ∙ h (0 + i) in
          absurd (ground (arith, (sym taken ∙ free)))
    ]

attempts-bounds :
    (locked : ℕ → ℕ → Bool) (ws : List Worker) (left attempt current : ℕ)
    → 0 < length ws
    → (attempts locked ws left attempt current).0 < length ws
unfolding attempts
attempts-bounds locked ws zero attempt current h = h
attempts-bounds locked ws (suc left) attempt current h =
    elim (Bool-cases (tried locked ws attempt current)) [
      | inl e ↦ rw e (mod-lt current h)
      | inr e ↦ rw e (attempts-bounds locked ws left (suc attempt) (fetch_add current) h)
    ]

-- The two ways to choose, when there are workers.
pub choose_found :
    (locked : ℕ → ℕ → Bool) (p : WorkerPool)
    → (length p.workers == 0) ≡ false
    → (attempts locked p.workers (length p.workers) 0 p.current_index).1 ≡ true
    → get_next_worker locked p ≡ (
      some (attempts locked p.workers (length p.workers) 0 p.current_index).0,
      record p {
        current_index = (attempts locked p.workers (length p.workers) 0 p.current_index).2;
      },
    )
unfolding get_next_worker
choose_found locked p h e = simp (h, e, get_next_worker) refl

choose_fallback :
    (locked : ℕ → ℕ → Bool) (p : WorkerPool)
    → (length p.workers == 0) ≡ false
    → (attempts locked p.workers (length p.workers) 0 p.current_index).1 ≡ false
    → (let current = (attempts locked p.workers (length p.workers) 0 p.current_index).2 in
        get_next_worker locked p
        ≡ (some (current % length p.workers), record p { current_index = fetch_add current }))
unfolding get_next_worker
choose_fallback locked p h e = simp (h, e, get_next_worker) refl

-- `get_next_worker` panics, on a pool without workers, or it answers with the index of a worker of the
-- pool; in both cases it leaves the workers and the configuration as they are.
pub get_next_worker-bounds :
    (locked : ℕ → ℕ → Bool) (p : WorkerPool)
    → (let (chosen, after) = get_next_worker locked p in
        (((chosen ≡ none) × (length p.workers ≡ 0))
          ⊎ ((k : ℕ) × (chosen ≡ some k) × (k < length p.workers)))
        × (after.workers ≡ p.workers)
        × (after.config ≡ p.config))
unfolding get_next_worker
get_next_worker-bounds locked p =
    let tries = attempts locked p.workers (length p.workers) 0 p.current_index in
    elim (Bool-cases (length p.workers == 0)) [
      | inl empty ↦ simp (empty, get_next_worker) (inl (refl, ground (arith, empty)), refl, refl)
      | inr full ↦
          let many : 0 < length p.workers = ground (arith, full) in
          elim (Bool-cases tries.1) [
            | inl e ↦ rw (choose_found locked p full e) (
              inr (
                tries.0,
                refl,
                attempts-bounds locked p.workers (length p.workers) 0 p.current_index many,
              ),
              refl,
              refl,
            )
            | inr e ↦
                rw (choose_fallback locked p full e)
                  (inr (tries.2 % length p.workers, refl, mod-lt tries.2 many), refl, refl)
          ]
    ]

-- When some worker is neither locked nor draining at any attempt of the call, and the counter does
-- not overflow during the call, the worker chosen is the one that an attempt of the call reaches, the
-- counter being advanced by one at each, and was neither locked nor draining at this attempt.
pub get_next_worker-free :
    (locked : ℕ → ℕ → Bool) (p : WorkerPool) (k : ℕ)
    → p.current_index + length p.workers ≤ 2 ^ 64
    → k < length p.workers
    → ((attempt : ℕ) → is_free (locked attempt k) (get_elem? p.workers k) ≡ true)
    → (j : ℕ) × (attempt : ℕ) × (attempt < length p.workers)
      × (j ≡ (p.current_index + attempt) % length p.workers)
      × ((get_next_worker locked p).0 ≡ some j)
      × (is_free (locked attempt j) (get_elem? p.workers j) ≡ true)
get_next_worker-free locked p k b l h =
    let found = attempts-found locked p.workers p.current_index k b l h in
    let (attempt, below, at, free) =
      attempts-free locked p.workers (length p.workers) 0 p.current_index b found in
    let c = choose_found locked p (ground (arith, l)) found in
    let index = (attempts locked p.workers (length p.workers) 0 p.current_index).0 in
    (
      index,
      attempt,
      below,
      at,
      ap (λ r. r.0) c,
      ap (λ a. is_free (locked a index) (get_elem? p.workers index)) (omega arith) ∙ free,
    )
