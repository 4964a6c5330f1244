-- ===== src/PsUtil/Waiting.antt =====
-- internal/psutil.go: at which tick the two waiting functions return, and with what.
use abschlussarbeit.Common.{
  Bool, true, false, Option, none, some, List, [], ◌∷◌, ◌++◌, ◌≡◌, ◌⊎◌, inl, inr, refl, ap, Error,
  Result, ok, err, All,
}
use abschlussarbeit.PsUtil.{
  Tick, ended, answered, Waited, waiting, returned, wait_for_pid_to_exit, matches, with_match,
  with_matches, wait_for_process_to_exist,
}

-- A wait with a relation that says of one tick whether it ends the wait (`some`), and with what, or
-- not (`none`): either no tick ends it and it goes on, or the first that does gives the result.
abbrev pub IsFirstEnd :
    {A B : Type 0} → (Tick A → Option B → Type 0) → List (Tick A) → Waited B → Type 0
IsFirstEnd {A} {B} Ends ts w =
    ((w ≡ waiting) × All (λ t. Ends t none) ts)
    ⊎ ((before : List (Tick A)) × (t : Tick A) × (after : List (Tick A)) × (b : B) × (ts
          ≡ before ++ t ∷ after)
        × All (λ t. Ends t none) before
        × Ends t (some b)
        × (w ≡ returned b))

module _ {A B : Type 0} (Ends : Tick A → Option B → Type 0) where
  now :
      (t : Tick A) (ts : List (Tick A)) (b : B)
      → Ends t (some b)
      → IsFirstEnd Ends (t ∷ ts) (returned b)
  now t ts b h = inr ([], t, ts, b, refl, tt, h, refl)

  later :
      (t : Tick A) (ts : List (Tick A)) (w : Waited B)
      → Ends t none
      → IsFirstEnd Ends ts w
      → IsFirstEnd Ends (t ∷ ts) w
  later t ts w h (inl (e, all)) = inl (e, (h, all))
  later t ts w h (inr (before, u, after, b, e, all, k, r)) =
      inr (t ∷ before, u, after, b, ap (λ l. t ∷ l) e, (h, all), k, r)

-- The process is gone, or cannot be asked about, or the context has ended.
pub data PidEnds : Tick (Result Bool) → Option (Option Error) → Type 0 where
  pid_context : (e : Option Error) → PidEnds (ended e) (some e)
  pid_unknown : (e : Error) → PidEnds (answered (err e)) (some (some e))
  pid_gone : PidEnds (answered (ok false)) (some none)
  pid_there : PidEnds (answered (ok true)) none

-- `WaitForPidToExit` waits exactly while the process exists and the context has not ended: it returns
-- at the first other tick, without an error if the process is gone then.
wait_for_pid_to_exit-first :
    (ts : List (Tick (Result Bool))) → IsFirstEnd PidEnds ts (wait_for_pid_to_exit ts)
unfolding wait_for_pid_to_exit
wait_for_pid_to_exit-first [] = inl (refl, tt)
wait_for_pid_to_exit-first (ended e ∷ ts) = now PidEnds _ ts e (pid_context e)
wait_for_pid_to_exit-first (answered (err e) ∷ ts) = now PidEnds _ ts (some e) (pid_unknown e)
wait_for_pid_to_exit-first (answered (ok false) ∷ ts) = now PidEnds _ ts none pid_gone
wait_for_pid_to_exit-first (answered (ok true) ∷ ts) =
    later PidEnds _ ts _ pid_there (wait_for_pid_to_exit-first ts)

module _ {P : Type 0} (matcher : P → Result Bool) where
  -- `Matching ps qs`: the matcher answers for each of ps, and qs are those that match, in their order.
  pub data Matching : List P → List P → Type 0 where
    no_more : Matching [] []
    other : (p : P) (ps qs : List P) → matcher p ≡ ok false → Matching ps qs → Matching (p ∷ ps) qs
    one :
        (p : P) (ps qs : List P) → matcher p ≡ ok true → Matching ps qs → Matching (p ∷ ps) (p ∷ qs)

  -- The matcher answers for some processes, and then fails with e.
  abbrev pub IsBroken : List P → Error → Type 0
  IsBroken ps e =
      (before qs : List P) × (p : P) × (after : List P) × (ps ≡ before ++ p ∷ after)
      × Matching before qs
      × (matcher p ≡ err e)

  -- What a tick means to the wait.
  pub data Ends : Tick (Result (List P)) → Option (Option Error × List P) → Type 0 where
    context : (e : Option Error) → Ends (ended e) (some (e, []))
    unlisted : (e : Error) → Ends (answered (err e)) (some (some e, []))
    broken : (ps : List P) (e : Error) → IsBroken ps e → Ends (answered (ok ps)) (some (some e, []))
    nobody : (ps : List P) → Matching ps [] → Ends (answered (ok ps)) none
    found :
        (ps : List P) (q : P) (qs : List P)
        → Matching ps (q ∷ qs)
        → Ends (answered (ok ps)) (some (none, q ∷ qs))

  -- What the loop over the processes comes to.
  abbrev IsMatched : List P → Result (List P) → Type 0
  IsMatched ps (ok qs) = Matching ps qs
  IsMatched ps (err e) = IsBroken ps e

  with_match-IsMatched :
      (p : P) (ps : List P) (m : Result Bool) (r : Result (List P))
      → matcher p ≡ m
      → IsMatched ps r
      → IsMatched (p ∷ ps) (with_match matcher p m r)
  with_match-IsMatched p ps (err e) r h k = ([], [], p, ps, refl, no_more, h)
  with_match-IsMatched p ps (ok true) (ok qs) h k = one p ps qs h k
  with_match-IsMatched p ps (ok false) (ok qs) h k = other p ps qs h k
  with_match-IsMatched p ps (ok true) (err e) h (before, qs, q, after, s, m, f) =
      (p ∷ before, p ∷ qs, q, after, ap (λ l. p ∷ l) s, one p before qs h m, f)
  with_match-IsMatched p ps (ok false) (err e) h (before, qs, q, after, s, m, f) =
      (p ∷ before, qs, q, after, ap (λ l. p ∷ l) s, other p before qs h m, f)

  matches-IsMatched : (ps : List P) → IsMatched ps (matches matcher ps)
  unfolding matches
  matches-IsMatched [] = no_more
  matches-IsMatched (p ∷ ps) =
      with_match-IsMatched p ps (matcher p) (matches matcher ps) refl (matches-IsMatched ps)

  with_matches-first :
      (ps : List P) (r : Result (List P)) (ts : List (Tick (Result (List P))))
      (rest : Waited (Option Error × List P))
      → IsMatched ps r
      → IsFirstEnd Ends ts rest
      → IsFirstEnd Ends (answered (ok ps) ∷ ts) (with_matches matcher r rest)
  with_matches-first ps (ok []) ts rest h k = later Ends (answered (ok ps)) ts rest (nobody ps h) k
  with_matches-first ps (ok (q ∷ qs)) ts rest h k =
      now Ends (answered (ok ps)) ts (none, q ∷ qs) (found ps q qs h)
  with_matches-first ps (err e) ts rest h k =
      now Ends (answered (ok ps)) ts (some e, []) (broken ps e h)

  -- `WaitForProcessToExist` waits exactly while no process matches, the matcher and the listing do not
  -- fail, and the context has not ended: it returns at the first other tick, with all the processes
  -- that match then, in their order, or with the first error and no process.
  pub wait_for_process_to_exist-first :
      (ts : List (Tick (Result (List P))))
      → IsFirstEnd Ends ts (wait_for_process_to_exist matcher ts)
  unfolding wait_for_process_to_exist
  wait_for_process_to_exist-first [] = inl (refl, tt)
  wait_for_process_to_exist-first (ended e ∷ ts) = now Ends _ ts (e, []) (context e)
  wait_for_process_to_exist-first (answered (err e) ∷ ts) = now Ends _ ts (some e, []) (unlisted e)
  wait_for_process_to_exist-first (answered (ok ps) ∷ ts) =
      with_matches-first ps (matches matcher ps) ts _ (matches-IsMatched ps)
        (wait_for_process_to_exist-first ts)
