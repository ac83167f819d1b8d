-- ===== src/Metrics/Counting.antt =====
-- What the counters count.
use bakpia_run.Prelude.{
  ℕ, zero, suc, ◌+◌, ◌%◌, ◌^◌, ◌<◌, ◌≡◌, refl, ap, ◌∙◌, some, List, [], ◌∷◌, arith, ltb, ◌==◌,
  if◌then◌else◌, length, get_elem?, replicate, Bool-cases, inl, inr,
}
use bakpia_run.Metrics.{Metrics, new, increment, record_request}

-- The requests recorded one after the other, each with its worker and the memory it reported.
pub record_all : List (ℕ × ℕ) → Metrics → Metrics
record_all [] m = m
record_all ((worker, memory) ∷ rs) m = record_all rs (record_request worker memory m)

-- The requests of one worker.
pub requests_of : ℕ → List (ℕ × ℕ) → ℕ
requests_of k [] = 0
requests_of k ((worker, memory) ∷ rs) =
    let rest = requests_of k rs in if worker == k then rest + 1 else rest

get_elem?-increment :
    (ns : List ℕ) (i k n : ℕ)
    → get_elem? ns k ≡ some n
    → n + 1 < 2 ^ 64
    → get_elem? (increment ns i) k ≡ some (if i == k then n + 1 else n)
get_elem?-increment [] i k n h b = absurd (ground (arith, h))
get_elem?-increment (m ∷ ns) zero zero n h b = ground arith
get_elem?-increment (m ∷ ns) zero (suc k) n h b = ground (arith, h)
get_elem?-increment (m ∷ ns) (suc i) zero n h b = ground (arith, h)
get_elem?-increment (m ∷ ns) (suc i) (suc k) n h b = get_elem?-increment ns i k n h b ∙ ground arith

length-increment : (ns : List ℕ) (i : ℕ) → length (increment ns i) ≡ length ns
length-increment [] i = refl
length-increment (n ∷ ns) zero = refl
length-increment (n ∷ ns) (suc i) = ap suc (length-increment ns i)

get_elem?-lt : (ns : List ℕ) (k n : ℕ) → get_elem? ns k ≡ some n → k < length ns
get_elem?-lt [] k n h = absurd (ground (arith, h))
get_elem?-lt (m ∷ ns) zero n h = omega arith
get_elem?-lt (m ∷ ns) (suc k) n h = omega (arith, get_elem?-lt ns k n h)

record_request_count :
    (worker memory k n : ℕ) (m : Metrics)
    → get_elem? m.requests_per_worker k ≡ some n
    → n + 1 < 2 ^ 64
    → get_elem? (record_request worker memory m).requests_per_worker k
      ≡ some (if worker == k then n + 1 else n)
unfolding record_request
record_request_count worker memory k n m h b =
    elim (Bool-cases (ltb worker (length m.requests_per_worker))) [
      | inl e ↦ rw e (get_elem?-increment m.requests_per_worker worker k n h b)
      | inr e ↦ rw e (h ∙ ground (arith, e, get_elem?-lt m.requests_per_worker k n h))
    ]

total_step :
    (worker memory : ℕ) (m : Metrics)
    → (record_request worker memory m).total_requests ≡ (m.total_requests + 1) % 2 ^ 64
unfolding record_request
total_step worker memory m = ground arith

record_all_total :
    (rs : List (ℕ × ℕ)) (m : Metrics)
    → m.total_requests + length rs < 2 ^ 64
    → (record_all rs m).total_requests ≡ m.total_requests + length rs
unfolding record_all
record_all_total [] m b = omega arith
record_all_total ((worker, memory) ∷ rs) m b =
    let step = total_step worker memory m in
    record_all_total rs (record_request worker memory m) (omega (arith, b, step))
    ∙ omega (arith, b, step)

record_all_count :
    (rs : List (ℕ × ℕ)) (k n : ℕ) (m : Metrics)
    → get_elem? m.requests_per_worker k ≡ some n
    → n + length rs < 2 ^ 64
    → get_elem? (record_all rs m).requests_per_worker k ≡ some (n + requests_of k rs)
unfolding record_all requests_of
record_all_count [] k n m h b = h ∙ ap some (omega arith)
record_all_count ((worker, memory) ∷ rs) k n m h b =
    record_all_count rs k (if worker == k then n + 1 else n) (record_request worker memory m)
      (record_request_count worker memory k n m h (omega (arith, b))) (ground (arith, b))
    ∙ ground arith

get_elem?-replicate : (w k : ℕ) → k < w → get_elem? (replicate {A = ℕ} w 0) k ≡ some 0
get_elem?-replicate zero k h = absurd (omega (arith, h))
get_elem?-replicate (suc w) zero h = refl
get_elem?-replicate (suc w) (suc k) h = get_elem?-replicate w k (omega (arith, h))

-- After fewer than 2^64 requests the total is their number, and the counter of each worker below the
-- configured count is the number of the requests with that index. Requests with other indices are in
-- the total only.
record_all_lem :
    (now worker_count : ℕ) (rs : List (ℕ × ℕ)) (k : ℕ)
    → length rs < 2 ^ 64
    → k < worker_count
    → ((record_all rs (new now worker_count)).total_requests ≡ length rs)
      × (get_elem? (record_all rs (new now worker_count)).requests_per_worker k
          ≡ some (requests_of k rs))
record_all_lem now w rs k b h = (
  record_all_total rs (new now w) (omega (arith, b)) ∙ omega arith,
  record_all_count rs k 0 (new now w) (get_elem?-replicate w k h) (omega (arith, b))
      ∙ ap some (omega arith),
)
