-- ===== src/AntiOom/Heaviest.antt =====
-- src-server/src/anti_oom.rs: the worker that a round recycles because the container is short of memory.
use bakpia_run.Prelude.{
  ℕ, suc, ◌≤◌, ◌≡◌, inl, inr, refl, ap, ◌++◌, Bool, true, arith, Bool-cases, Option, none, some,
  List, [], ◌∷◌, All, ltb, leb, if◌then◌else◌,
}
use bakpia_run.Text.{Text}
use bakpia_run.Config.{Config}
use bakpia_run.Worker.{Worker, Os}
use bakpia_run.WorkerPool.{WorkerPool}
use bakpia_run.AntiOom.{Candidate, inspect, heavier, inspect_workers, inspect_pools}

-- The workers that are inspected and not recycled for their own limits, each with its place, its
-- pool's configuration and its memory, the last one first, before the `seen` ones.
abbrev pub spared : ℕ → Config → ℕ → Worker × Bool → List Candidate → List Candidate
spared k c i (w, recycled) seen =
    if recycled then seen else record { pool = k; index = i; config = c; rss = w.rss_bytes } ∷ seen

abbrev pub spared_workers :
    (ℕ → Os) → ℕ → Config → ℕ → List Worker → List Candidate → List Candidate
spared_workers os k c i [] seen = seen
spared_workers os k c i (w ∷ ws) seen =
    spared_workers os k c (suc i) ws (spared k c i (inspect (os i) c w) seen)

abbrev pub spared_pools :
    (ℕ → ℕ → Os) → ℕ → List (Text × WorkerPool) → List Candidate → List Candidate
spared_pools os k [] seen = seen
spared_pools os k ((name, p) ∷ ps) seen =
    spared_pools os (suc k) ps (spared_workers (os k) k p.config 0 p.workers seen)

abbrev IsAmong : Candidate → List Candidate → Type 0
IsAmong b seen = (before after : List Candidate) × (seen ≡ before ++ (b ∷ after))

-- A candidate is one of them, with its place, and none has more memory; without a candidate none has
-- any.
abbrev pub IsHeaviest : List Candidate → Option Candidate → Type 0
IsHeaviest seen none = All (λ (n : Candidate). n.rss ≡ 0) seen
IsHeaviest seen (some b) = All (λ (n : Candidate). n.rss ≤ b.rss) seen × IsAmong b seen

All-below :
    (seen : List Candidate) (m n : ℕ)
    → m ≤ n
    → All (λ (k : Candidate). k.rss ≤ m) seen
    → All (λ (k : Candidate). k.rss ≤ n) seen
All-below [] m n le h = h
All-below (k ∷ ks) m n le (hk, h) = (omega (arith, le, hk), All-below ks m n le h)

All-zero :
    (seen : List Candidate) (n : ℕ)
    → All (λ (k : Candidate). k.rss ≡ 0) seen
    → All (λ (k : Candidate). k.rss ≤ n) seen
All-zero [] n h = h
All-zero (k ∷ ks) n (hk, h) = (omega (arith, hk), All-zero ks n h)

IsAmong-later :
    (new b : Candidate) (seen : List Candidate) → IsAmong b seen → IsAmong b (new ∷ seen)
IsAmong-later new b seen (before, after, split) = (new ∷ before, after, ap (λ cs. new ∷ cs) split)

heavier-IsHeaviest :
    (seen : List Candidate) (best : Option Candidate) (new : Candidate)
    → IsHeaviest seen best
    → IsHeaviest (new ∷ seen) (heavier true best new)
unfolding heavier
heavier-IsHeaviest seen none new h = elim (Bool-cases (ltb 0 new.rss)) [
  | inl some_memory ↦
      rw (some_memory, heavier) ((omega arith, All-zero seen new.rss h), ([], seen, refl))
  | inr no_memory ↦ rw (no_memory, heavier) (ground (arith, no_memory), h)
]
heavier-IsHeaviest seen (some b) new (below, there) = elim (Bool-cases (ltb 0 new.rss)) [
  | inr no_memory ↦
      rw (no_memory, heavier) ((ground (arith, no_memory), below), IsAmong-later new b seen there)
  | inl some_memory ↦ elim (Bool-cases (leb new.rss b.rss)) [
    | inl lighter ↦
        rw (some_memory, lighter, heavier)
          ((ground (arith, lighter), below), IsAmong-later new b seen there)
    | inr more ↦
        rw (some_memory, more, heavier)
          (
            (omega arith, All-below seen b.rss new.rss (ground (arith, more)) below),
            ([], seen, refl),
          )
  ]
]

inspect_workers-IsHeaviest :
    (os : ℕ → Os) (k : ℕ) (c : Config) (i : ℕ) (ws : List Worker) (seen : List Candidate)
    (best : Option Candidate)
    → IsHeaviest seen best
    → IsHeaviest (spared_workers os k c i ws seen) (inspect_workers os true k c i ws best).1
unfolding inspect_workers
inspect_workers-IsHeaviest os k c i [] seen best h = h
inspect_workers-IsHeaviest os k c i (w ∷ ws) seen best h =
    elim (Bool-cases (inspect (os i) c w).1) [
      | inl recycled ↦
          rw (recycled, inspect_workers) (inspect_workers-IsHeaviest os k c (suc i) ws seen best h)
      | inr stays ↦
          rw (stays, inspect_workers)
            (inspect_workers-IsHeaviest os k c (suc i) ws _ _ (heavier-IsHeaviest seen best _ h))
    ]

-- When the container is short of memory, the candidate that the inspection of all the pools finds is
-- one of the workers that were not recycled for their own limits, with its pool, its number in it and
-- its memory, and no such worker is heavier; there is no candidate only when none of them has any memory. The inspection goes on from a
-- candidate of which the same holds for the workers seen before.
pub inspect_pools-IsHeaviest :
    (os : ℕ → ℕ → Os) (k : ℕ) (ps : List (Text × WorkerPool)) (seen : List Candidate)
    (best : Option Candidate)
    → IsHeaviest seen best
    → IsHeaviest (spared_pools os k ps seen) (inspect_pools os true k ps best).1
unfolding inspect_pools
inspect_pools-IsHeaviest os k [] seen best h = h
inspect_pools-IsHeaviest os k ((name, p) ∷ ps) seen best h =
    inspect_pools-IsHeaviest os (suc k) ps _ _
      (inspect_workers-IsHeaviest (os k) k p.config 0 p.workers seen best h)
