-- ===== src/PsUtil/Average.antt =====
-- internal/psutil.go: what the average load is divided by.
use abschlussarbeit.Common.{
  ℕ, ◌+◌, ◌≤◌, ◌<◌, Bool, true, false, Option, none, some, List, [], ◌∷◌, ◌≡◌, refl, arith, Result,
  ok, err, Result-cases, inl, inr, length,
}
use abschlussarbeit.PsUtil.{
  Tick, ended, answered, Stat, Sample, Reading, only_stat, sampled, sample_cpu_times, Floats,
  averages, last_of, average_of, average_cpu_deltas,
}

module _ {Float : Type 0} where
  -- Samples with numbers that rise, from above `n` on.
  abbrev pub AreRising : ℕ → List (Sample Float) → Type 0
  AreRising n [] = Unit
  AreRising n (s ∷ ss) = (n < s.index) × AreRising s.index ss

  AreRising-weaken : (n m : ℕ) (ss : List (Sample Float)) → n ≤ m → AreRising m ss → AreRising n ss
  AreRising-weaken n m [] h k = tt
  AreRising-weaken n m (s ∷ ss) h k = (omega arith, k.1)

  sampled-AreRising :
      (n : ℕ) (r : Result (Stat Float)) (receiving : Bool) (ss : List (Sample Float))
      → AreRising (n + 1) ss
      → AreRising n (sampled (n + 1) r receiving ss)
  sampled-AreRising n (err e) receiving ss h = (omega arith, tt)
  sampled-AreRising n (ok stat) true ss h = (omega arith, h)
  sampled-AreRising n (ok stat) false ss h = AreRising-weaken n (n + 1) ss (omega arith) h

  sample_cpu_times-AreRising :
      (n : ℕ) (ts : List (Tick (Reading Float))) → AreRising n (sample_cpu_times n ts)
  unfolding sample_cpu_times
  sample_cpu_times-AreRising n [] = tt
  sample_cpu_times-AreRising n (ended e ∷ ts) = tt
  sample_cpu_times-AreRising n (answered r ∷ ts) =
      sampled-AreRising n (only_stat r.times) r.receiving _ (sample_cpu_times-AreRising (n + 1) ts)

  abbrev pub last_sample : Sample Float → List (Sample Float) → Sample Float
  last_sample s [] = s
  last_sample s (t ∷ ts) = last_sample t ts

  -- No more samples than ticks.
  AreRising-length :
      (s : Sample Float) (ss : List (Sample Float))
      → AreRising s.index ss
      → s.index + length ss ≤ (last_sample s ss).index
  AreRising-length s [] h = omega arith
  AreRising-length s (t ∷ ts) h = omega (arith, AreRising-length t ts h.1)

module _ (floats : Floats) where
  open floats use {Float}

  last_of_ok :
      (stat : Stat Float) (n : ℕ) (s : Sample Float) (ss : List (Sample Float))
      (last : Option (Stat Float)) (count : ℕ)
      → s.times ≡ ok stat
      → last_of floats (some stat) n ss ≡ ok (last, count)
      → (count ≡ n + length ss)
        × ((x : Stat Float) × (last ≡ some x) × ((last_sample s ss).times ≡ ok x))
  last_of_ok stat n s [] last count h e = (ground arith, (stat, ground arith, h))
  last_of_ok stat n s (t ∷ ts) last count h e = elim (Result-cases t.times) [
    | inl (x, k) ↦
        let later : last_of floats (some x) (n + 1) ts ≡ ok (last, count) = ground arith in
        let (c, (y, p, q)) = last_of_ok x (n + 1) t ts last count k later in
        (omega arith, (y, p, q))
    | inr (x, k) ↦ absurd (ground arith)
  ]

  average_ok :
      (first avg : Stat Float) (s : Sample Float) (ss : List (Sample Float))
      → s.times ≡ ok first
      → average_of floats first (last_of floats none 0 ss) ≡ ok avg
      → (last : Stat Float) × ((last_sample s ss).times ≡ ok last)
        × (avg ≡ averages floats (length ss) first last)
  average_ok first avg s [] h e = absurd (ground arith)
  average_ok first avg s (t ∷ ts) h e = elim (Result-cases t.times) [
    | inl (x, k) ↦ elim (Result-cases (last_of floats (some x) 1 ts)) [
      | inl ((found, count), j) ↦
          let (c, (y, p, q)) = last_of_ok x 1 t ts found count k j in (y, q, ground arith)
      | inr (z, j) ↦ absurd (ground arith)
    ]
    | inr (x, k) ↦ absurd (ground arith)
  ]

  abbrev pub IsAverage : List (Sample Float) → Stat Float → Type 0
  IsAverage samples avg =
      (s : Sample Float) × (ss : List (Sample Float)) × (first last : Stat Float) × (samples
        ≡ s ∷ ss)
      × (s.times ≡ ok first)
      × ((last_sample s ss).times ≡ ok last)
      × (avg ≡ averages floats (length ss) first last)
      × (s.index + length ss ≤ (last_sample s ss).index)

  average_cpu_deltas-IsAverage :
      (samples : List (Sample Float)) (avg : Stat Float)
      → AreRising 0 samples
      → average_cpu_deltas floats samples ≡ ok avg
      → IsAverage samples avg
  unfolding average_cpu_deltas
  average_cpu_deltas-IsAverage [] avg h e = absurd (ground arith)
  average_cpu_deltas-IsAverage (s ∷ ss) avg h e = elim (Result-cases s.times) [
    | inl (first, k) ↦
        let here : average_of floats first (last_of floats none 0 ss) ≡ ok avg = ground arith in
        let (last, p, q) = average_ok first avg s ss k here in
        (s, ss, first, last, refl, k, p, q, AreRising-length s ss h.1)
    | inr (x, k) ↦ absurd (ground arith)
  ]

  -- If `AverageCPUDeltas` gives an average, whatever the ticks meet: there was a first sample and a
  -- later last one, both without an error, and each number of the average is the difference of the
  -- two, divided by the number of samples received behind the first. That is at most the number of
  -- intervals between the two; the samples that were skipped are not counted.
  pub average_cpu_deltas_lem :
      (ts : List (Tick (Reading Float))) (avg : Stat Float)
      → average_cpu_deltas floats (sample_cpu_times 0 ts) ≡ ok avg
      → IsAverage (sample_cpu_times 0 ts) avg
  average_cpu_deltas_lem ts avg e =
      average_cpu_deltas-IsAverage (sample_cpu_times 0 ts) avg (sample_cpu_times-AreRising 0 ts) e
