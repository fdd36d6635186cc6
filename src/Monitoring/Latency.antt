-- ===== src/Monitoring/Latency.antt =====
-- backend/shared/monitoring/latency_tracker.py: the last hundred durations of each operation. A
-- sample is kept as its text; durations are read in whole units by a parameter.
use contract_agent_capstone.Prelude.{
  ℕ, zero, suc, ◌+◌, ◌-◌, ◌*◌, ◌/◌, ◌≤◌, ◌<◌, ◌≡◌, inl, inr, true, List, [], ◌∷◌, ◌++◌, map, arith,
  length, leb, ltb, lt→ltb, All, Bool-cases, if◌then◌else◌,
}
use contract_agent_capstone.Prelude.Text.{Text, codes, text_eq}
use contract_agent_capstone.Prelude.Dict.{lookup}
use contract_agent_capstone.Exec.{◌>>◌}
use contract_agent_capstone.Cache.Slices.{at, last, slice}
use contract_agent_capstone.Cache.Memory.{Store, as_list, sadd, rpush, ltrim}
use contract_agent_capstone.Monitoring.{swallow}

abbrev pub operations_key : Text
operations_key = codes "latency_tracking:operations"

abbrev pub samples_key : Text → Text
samples_key operation = codes "latency_tracking:" ++ (operation ++ codes ":samples")

unfoldable pub record_duration : Text → Text → Store → Store
record_duration operation duration = swallow (
    sadd operations_key (operation ∷ [])
    >> (rpush (samples_key operation) (duration ∷ [])
        >> ltrim (samples_key operation) (last 99) (last 0)))

unfoldable pub insert_sample : ℕ → List ℕ → List ℕ
insert_sample n [] = n ∷ []
insert_sample n (m ∷ ms) = let rest = insert_sample n ms in if leb n m then n ∷ m ∷ ms else m ∷ rest

unfoldable pub sort_samples : List ℕ → List ℕ
sort_samples [] = []
sort_samples (n ∷ ns) = insert_sample n (sort_samples ns)

pub record LatencyStats : Type 0 where
  pub sample_count : ℕ
  pub sum : ℕ
  pub p50 : ℕ
  pub p95 : ℕ
  pub max : ℕ

abbrev sample_at : ℕ → List ℕ → ℕ
sample_at i [] = 0
sample_at zero (n ∷ ns) = n
sample_at (suc i) (n ∷ ns) = sample_at i ns

-- `samples[min(int(len(samples) * p), len(samples) - 1)]`, for `p` in hundredths.
unfoldable pub percentile : ℕ → List ℕ → ℕ
percentile p samples =
    let index = length samples * p / 100 in
    sample_at (if ltb index (length samples) then index else length samples - 1) samples

abbrev sum : List ℕ → ℕ
sum [] = 0
sum (n ∷ ns) = n + sum ns

-- All are 0 where there is no sample.
unfoldable pub read_operation : (Text → ℕ) → Store → Text → LatencyStats
read_operation read s operation =
    let samples =
      sort_samples
        (map read (slice (as_list (lookup (samples_key operation) s)) (at 0) (last 0))) in
    record {
      sample_count = length samples;
      sum = sum samples;
      p50 = percentile 50 samples;
      p95 = percentile 95 samples;
      max = sample_at (length samples - 1) samples;
    }

-- Sorted from small to large, as bounds on what follows.
abbrev IsAscending : List ℕ → Type 0
IsAscending [] = Unit
IsAscending (n ∷ ns) = All (λ m. n ≤ m) ns × IsAscending ns

insert_sample-All :
    (b n : ℕ) (ns : List ℕ) → b ≤ n → All (λ m. b ≤ m) ns → All (λ m. b ≤ m) (insert_sample n ns)
unfolding insert_sample
insert_sample-All b n [] h all = (h, tt)
insert_sample-All b n (m ∷ ms) h (here, all) = elim (Bool-cases (leb n m)) [
  | inl p ↦ rw p (h, (here, all))
  | inr p ↦ rw p (here, insert_sample-All b n ms h all)
]

All-above : (a b : ℕ) (ns : List ℕ) → a ≤ b → All (λ m. b ≤ m) ns → All (λ m. a ≤ m) ns
All-above a b [] h all = tt
All-above a b (m ∷ ms) h (here, all) = (omega (arith, h, here), All-above a b ms h all)

insert_sample-IsAscending :
    (n : ℕ) (ns : List ℕ) → IsAscending ns → IsAscending (insert_sample n ns)
unfolding insert_sample
insert_sample-IsAscending n [] h = (tt, tt)
insert_sample-IsAscending n (m ∷ ms) (all, rest) = elim (Bool-cases (leb n m)) [
  | inl p ↦
      let below : n ≤ m = ground (arith, p) in
      rw p ((below, All-above n m ms below all), (all, rest))
  | inr p ↦
      let above : m ≤ n = ground (arith, p) in
      rw p (insert_sample-All m n ms above all, insert_sample-IsAscending n ms rest)
]

sort_samples-IsAscending : (ns : List ℕ) → IsAscending (sort_samples ns)
unfolding sort_samples
sort_samples-IsAscending [] = tt
sort_samples-IsAscending (n ∷ ns) =
    insert_sample-IsAscending n (sort_samples ns) (sort_samples-IsAscending ns)

sample_at-bound : (b i : ℕ) (ns : List ℕ) → i < length ns → All (λ m. b ≤ m) ns → b ≤ sample_at i ns
sample_at-bound b i [] h all = ground (arith, h)
sample_at-bound b zero (n ∷ ns) h (here, all) = here
sample_at-bound b (suc i) (n ∷ ns) h (here, all) = sample_at-bound b i ns (omega (arith, h)) all

sample_at_mono :
    (i j : ℕ) (ns : List ℕ)
    → IsAscending ns
    → i ≤ j
    → j < length ns
    → sample_at i ns ≤ sample_at j ns
sample_at_mono i j [] h le lt = ground (arith, lt)
sample_at_mono zero zero (n ∷ ns) h le lt = omega arith
sample_at_mono zero (suc j) (n ∷ ns) (all, rest) le lt =
    sample_at-bound n j ns (omega (arith, lt)) all
sample_at_mono (suc i) zero (n ∷ ns) h le lt = ground (arith, le)
sample_at_mono (suc i) (suc j) (n ∷ ns) (all, rest) le lt =
    sample_at_mono i j ns rest (omega (arith, le)) (omega (arith, lt))

ordered :
    (ns : List ℕ)
    → IsAscending ns
    → (percentile 50 ns ≤ percentile 95 ns) × (percentile 95 ns ≤ sample_at (length ns - 1) ns)
unfolding percentile
ordered [] h = (omega arith, omega arith)
ordered (n ∷ ns) h =
    let size = length (n ∷ ns) in
    let low : ltb (size * 50 / 100) size ≡ true = lt→ltb (size * 50 / 100) size (omega arith) in
    let high : ltb (size * 95 / 100) size ≡ true = lt→ltb (size * 95 / 100) size (omega arith) in
    rw (low, high)
      (
        sample_at_mono (size * 50 / 100) (size * 95 / 100) (n ∷ ns) h (omega arith) (omega arith),
        sample_at_mono (size * 95 / 100) (size - 1) (n ∷ ns) h (omega arith) (omega arith),
      )

-- For the samples that are kept, whatever they are, the median is not above the 95th percentile,
-- nor that above the maximum.
pub percentiles_ordered :
    (read : Text → ℕ) (s : Store) (operation : Text)
    → ((read_operation read s operation).p50 ≤ (read_operation read s operation).p95)
      × ((read_operation read s operation).p95 ≤ (read_operation read s operation).max)
unfolding read_operation
percentiles_ordered read s operation =
    let samples =
      sort_samples
        (map read (slice (as_list (lookup (samples_key operation) s)) (at 0) (last 0))) in
    ordered samples (sort_samples-IsAscending _)
