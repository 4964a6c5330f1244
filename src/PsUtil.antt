-- ===== src/PsUtil.antt =====
-- internal/psutil.go: waiting for processes, and the average load. A loop runs over the ticks of its
-- timer; what the packages cpu and process answer at a tick is an argument. Floating-point numbers are
-- a type with two operations.
pub mod Waiting
pub mod Average
use abschlussarbeit.Common.{
  ℕ, zero, suc, ◌+◌, String, Bool, true, false, Option, none, some, List, [], ◌∷◌, ◌++◌,
  if◌then◌else◌, Error, errorf, Result, ok, err,
}

-- A tick of a timer: the context may have ended, with its error, or there is an answer.
pub data Tick (A : Type 0) : Type 0 where
  ended : Option Error → Tick A
  answered : A → Tick A

-- Whether a function has returned.
pub data Waited (A : Type 0) : Type 0 where
  waiting : Waited A
  returned : A → Waited A

abbrev pub on_exists : Result Bool → Waited (Option Error) → Waited (Option Error)
on_exists (err e) rest = returned (some e)
on_exists (ok false) rest = returned none
on_exists (ok true) rest = rest

-- `WaitForPidToExit`: the answer of a tick is whether the process exists.
unfoldable pub wait_for_pid_to_exit : List (Tick (Result Bool)) → Waited (Option Error)
wait_for_pid_to_exit [] = waiting
wait_for_pid_to_exit (ended e ∷ ts) = returned e
wait_for_pid_to_exit (answered r ∷ ts) = let rest = wait_for_pid_to_exit ts in on_exists r rest

module _ {P : Type 0} (matcher : P → Result Bool) where
  abbrev pub with_match : P → Result Bool → Result (List P) → Result (List P)
  with_match p (err e) rest = err e
  with_match p (ok true) (ok ps) = ok (p ∷ ps)
  with_match p (ok true) (err e) = err e
  with_match p (ok false) rest = rest

  -- The loop over the processes.
  unfoldable pub matches : List P → Result (List P)
  matches [] = ok []
  matches (p ∷ ps) = with_match p (matcher p) (matches ps)

  abbrev pub with_matches :
      Result (List P) → Waited (Option Error × List P) → Waited (Option Error × List P)
  with_matches (err e) rest = returned (some e, [])
  with_matches (ok []) rest = rest
  with_matches (ok (p ∷ ps)) rest = returned (none, p ∷ ps)

  abbrev pub matches_of : Result (List P) → Result (List P)
  matches_of (ok ps) = matches ps
  matches_of (err e) = err e

  -- `WaitForProcessToExist`: the answer of a tick is the list of processes. Where the context has
  -- ended, the code returns no process with the context's error, whatever it is.
  unfoldable pub wait_for_process_to_exist :
      List (Tick (Result (List P))) → Waited (Option Error × List P)
  unfolding matches
  wait_for_process_to_exist [] = waiting
  wait_for_process_to_exist (ended e ∷ ts) = returned (e, [])
  wait_for_process_to_exist (answered r ∷ ts) =
      with_matches (matches_of r) (wait_for_process_to_exist ts)

-- `cpu.TimesStat`, with the ten numbers as a list.
abbrev pub Stat : Type 0 → Type 0
Stat Float = List Float

-- `cpuTimesSample`
pub record Sample (Float : Type 0) : Type 0 where
  pub index : ℕ
  pub times : Result (Stat Float)

-- What a tick of `sampleCPUTimes` meets: what `cpu.Times` returns, and whether someone is receiving.
pub record Reading (Float : Type 0) : Type 0 where
  pub times : Result (List (Stat Float))
  pub receiving : Bool

-- Of the statistics there is to be one.
unfoldable pub only_stat : {Float : Type 0} → Result (List (Stat Float)) → Result (Stat Float)
only_stat (err e) = err e
only_stat (ok (stat ∷ [])) = ok stat
only_stat (ok stats) = err (errorf "unexpected number of cpu times in sample %d" [])

abbrev pub sampled :
    {Float : Type 0} → ℕ → Result (Stat Float) → Bool → List (Sample Float) → List (Sample Float)
sampled index (err e) receiving rest = record { index = index; times = err e } ∷ []
sampled index (ok stat) true rest = record { index = index; times = ok stat } ∷ rest
sampled index (ok stat) false rest = rest

-- `sampleCPUTimes`: the samples that are received, until the context ends or one has an error. A
-- sample that nobody is waiting for is skipped; one with an error waits.
unfoldable pub sample_cpu_times :
    {Float : Type 0} → ℕ → List (Tick (Reading Float)) → List (Sample Float)
unfolding only_stat
sample_cpu_times index [] = []
sample_cpu_times index (ended e ∷ ts) = []
sample_cpu_times index (answered r ∷ ts) =
    sampled (index + 1) (only_stat r.times) r.receiving (sample_cpu_times (index + 1) ts)

-- Floating-point numbers: `(last - first) / float64(count)`.
pub record Floats : Type 1 where
  pub Float : Type 0
  pub minus : Float → Float → Float
  pub divided : Float → ℕ → Float

module _ (floats : Floats) where
  open floats use {Float, minus, divided}

  abbrev pub averages : ℕ → Stat Float → Stat Float → Stat Float
  averages count (a ∷ first) (b ∷ last) = divided (minus b a) count ∷ averages count first last
  averages count _ _ = []

  -- The loop over the samples behind the first: the last of them, and how many.
  abbrev pub last_of :
      Option (Stat Float) → ℕ → List (Sample Float) → Result (Option (Stat Float) × ℕ)
  last_of last count [] = ok (last, count)
  last_of last count (s ∷ ss) = elim s.times [
    | ok stat ↦ last_of (some stat) (count + 1) ss
    | err e ↦ err e
  ]

  abbrev pub average_of : Stat Float → Result (Option (Stat Float) × ℕ) → Result (Stat Float)
  average_of first (err e) = err e
  average_of first (ok (none, count)) =
      err (errorf "only got one data point, cannot calculate average" [])
  average_of first (ok (some last, count)) = ok (averages count first last)

  abbrev pub average_from : Result (Stat Float) → List (Sample Float) → Result (Stat Float)
  average_from (err e) rest = err e
  average_from (ok first) rest = average_of first (last_of none 0 rest)

  -- `AverageCPUDeltas`, of the samples that are received.
  unfoldable pub average_cpu_deltas : List (Sample Float) → Result (Stat Float)
  average_cpu_deltas [] = err (errorf "sample channel closed before first data point" [])
  average_cpu_deltas (s ∷ ss) = average_from s.times ss
