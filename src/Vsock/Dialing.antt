-- ===== src/Vsock/Dialing.antt =====
-- internal/vm/vsock.go: the retries of `VSockDial`, and the one wait of `Accept`.
use abschlussarbeit.Common.{
  ℕ, zero, suc, String, true, Option, none, some, List, [], ◌∷◌, ◌++◌, ◌≡◌, refl, subst, Error,
  Result, ok, err, inl, inr, arith, Option-cases,
}
use abschlussarbeit.Common.Act.{Act}
use abschlussarbeit.Common.Bytes.{Bytes, codes}
use abschlussarbeit.Common.FilePath.{has_prefix}
use abschlussarbeit.Vsock.{
  Sockets, Net, SocketCall, Turn, ctx_done, tick, settled, retry, vsock_dial, vsock_accept,
  try_accept, try_connect,
}
use abschlussarbeit.Vsock.Handshake.{Outcome, connected, failed, refused, try_connect-Outcome}

-- The loop has come to a result.
abbrev pub Returns : Option (Result ℕ) × Sockets → Type 0
Returns o = (r : Result ℕ) × (o.0 ≡ some r)

module _ (net : Net) (msg : String) (try : Act Sockets ℕ) where
  -- A run of the attempts: every one but the last met an error to retry on.
  pub data Attempts : ℕ → Sockets → Sockets → Type 0 where
    start : (s : Sockets) → Attempts zero s s
    again :
        (n : ℕ) (s t : Sockets)
        → settled net msg (try s).0 ≡ none
        → Attempts n (try s).1 t
        → Attempts (suc n) s t

  abbrev pub ticks : ℕ → List Turn → List Turn
  ticks zero turns = turns
  ticks (suc n) turns = tick ∷ ticks n turns

  -- After attempts that are to be retried, the loop stands where it stood, in the new state.
  pub retry-ticks :
      (n : ℕ) (turns : List Turn) (s t : Sockets)
      → Attempts n s t
      → retry net msg try (ticks n turns) s ≡ retry net msg try turns t
  unfolding retry
  retry-ticks _ turns _ _ (start s) = refl
  retry-ticks _ turns _ t (again n s _ e r) = rw (e, retry) (retry-ticks n turns (try s).1 t r)

  retry-Returns :
      (front back : List Turn) (e : Error) (s : Sockets)
      → Returns (retry net msg try (front ++ ctx_done e ∷ back) s)
  unfolding retry
  retry-Returns [] back e s = (err e, refl)
  retry-Returns (ctx_done e' ∷ front) back e s = (err e', refl)
  retry-Returns (tick ∷ front) back e s = elim (Option-cases (settled net msg (try s).0)) [
    | inl more ↦ rw (more, retry) (retry-Returns front back e (try s).1)
    | inr (r, done) ↦ rw (done, retry) (r, refl)
  ]

  -- A result of the loop is what the first attempt that is not to be retried means, or the error of
  -- the context.
  pub data Ending (s : Sockets) : Result ℕ → Sockets → Type 0 where
    canceled : (n : ℕ) (t : Sockets) (e : Error) → Attempts n s t → Ending s (err e) t
    settles :
        (n : ℕ) (t : Sockets) (r : Result ℕ)
        → Attempts n s t
        → settled net msg (try t).0 ≡ some r
        → Ending s r (try t).1

  more-Ending :
      (s : Sockets) (r : Result ℕ) (t : Sockets)
      → settled net msg (try s).0 ≡ none
      → Ending (try s).1 r t
      → Ending s r t
  more-Ending s _ _ h (canceled n t e a) = canceled (suc n) t e (again n s t h a)
  more-Ending s _ _ h (settles n t r a d) = settles (suc n) t r (again n s t h a) d

  -- The three ways in which the loop can stand when its turns are over.
  pub data Standing (s : Sockets) : Option (Result ℕ) → Sockets → Type 0 where
    waiting : (n : ℕ) (t : Sockets) → Attempts n s t → Standing s none t
    returned : (r : Result ℕ) (t : Sockets) → Ending s r t → Standing s (some r) t

  more-Standing :
      (s : Sockets) (o : Option (Result ℕ)) (t : Sockets)
      → settled net msg (try s).0 ≡ none
      → Standing (try s).1 o t
      → Standing s o t
  more-Standing s _ _ h (waiting n t a) = waiting (suc n) t (again n s t h a)
  more-Standing s _ _ h (returned r t e) = returned r t (more-Ending s r t h e)

  pub retry-Standing :
      (turns : List Turn) (s : Sockets)
      → Standing s (retry net msg try turns s).0 (retry net msg try turns s).1
  unfolding retry
  retry-Standing [] s = waiting zero s (start s)
  retry-Standing (ctx_done e ∷ turns) s = returned (err e) s (canceled zero s e (start s))
  retry-Standing (tick ∷ turns) s = elim (Option-cases (settled net msg (try s).0)) [
    | inl more ↦ rw (more, retry) (more-Standing s _ _ more (retry-Standing turns (try s).1))
    | inr (r, done) ↦ rw (done, retry) (returned r (try s).1 (settles zero s r (start s) done))
  ]

-- A dial returns a result once its context is done, at the latest; each of its calls has a deadline.
vsock_dial-return :
    (net : Net) (path : Bytes) (port : ℕ) (front back : List Turn) (e : Error) (s : Sockets)
    → Returns (vsock_dial net path port (front ++ ctx_done e ∷ back) s)
unfolding vsock_dial
vsock_dial-return net path port front back e s = retry-Returns net _ _ front back e s

-- An accept that has begun to wait for a connection, where none comes, does not return, whatever
-- happens to its context.
vsock_accept-waits :
    (net : Net) (port : ℕ) (turns : List Turn) (s : Sockets)
    → net.accept s.calls port ≡ none
    → (vsock_accept net port (tick ∷ turns) s).0 ≡ none
unfolding vsock_accept try_accept
vsock_accept-waits net port turns s h = rw h refl

-- Firecracker answers a connection request with "OK " and a port, if it answers with a line.
abbrev pub IsPolite : Net → Type 0
IsPolite net =
    (calls : List SocketCall) (conn : ℕ) (line : Bytes)
    → net.read_string calls conn ≡ (line, none)
    → has_prefix line (codes "OK ") ≡ true

-- What is open: what was open before, and the connection that was returned.
abbrev pub IsKept : List ℕ → Option (Result ℕ) → List ℕ → Type 0
IsKept before none after = after ≡ before
IsKept before (some (ok c)) after = after ≡ c ∷ before
IsKept before (some (err e)) after = after ≡ before

module _ (net : Net) (polite : IsPolite net) (path : Bytes) (port : ℕ) where
  abbrev dial : Act Sockets ℕ
  dial = try_connect net path port

  abbrev msg : String
  msg = "non-temporary vsock dial failure"

  Outcome-IsKept :
      (s : Sockets) (r : Result ℕ) (after : List ℕ)
      → Outcome net path s r after
      → IsKept s.open_conns (some r) after
  Outcome-IsKept s _ _ (connected c line d a g) = refl
  Outcome-IsKept s _ _ (failed e) = refl
  Outcome-IsKept s _ _ (refused c line e d (calls, a) g) = cc (polite calls c line a)

  -- An attempt that did not settle the loop left nothing open; one that did, its connection at most.
  attempt-IsKept :
      (r : Result ℕ) (o : Option (Result ℕ)) (before after : List ℕ)
      → IsKept before (some r) after
      → settled net msg r ≡ o
      → IsKept before o after
  attempt-IsKept (ok c) none before after h e = cc
  attempt-IsKept (ok c) (some (ok c')) before after h e = ground arith
  attempt-IsKept (ok c) (some (err e')) before after h e = cc
  attempt-IsKept (err e') none before after h e = h
  attempt-IsKept (err e') (some (ok c)) before after h e = ground arith
  attempt-IsKept (err e') (some (err e'')) before after h e = h

  -- If Firecracker answers a request for a connection with "OK " or not at all, then a dial leaves
  -- open what was open before and the connection that it returns, and nothing else: not while it
  -- waits, not after an error, and not after the context was cancelled.
  pub vsock_dial-IsKept :
      (turns : List Turn) (s : Sockets)
      → (let (o, t) = vsock_dial net path port turns s in IsKept s.open_conns o t.open_conns)
  unfolding vsock_dial retry
  vsock_dial-IsKept [] s = refl
  vsock_dial-IsKept (ctx_done e ∷ turns) s = refl
  vsock_dial-IsKept (tick ∷ turns) s =
      let kept : IsKept s.open_conns (some (dial s).0) (dial s).1.open_conns =
        Outcome-IsKept s (dial s).0 (dial s).1.open_conns (try_connect-Outcome net path port s) in
      elim (Option-cases (settled net msg (dial s).0)) [
        | inl more ↦
            rw (more, retry)
              (subst
                (λ l.
                  IsKept l (vsock_dial net path port turns (dial s).1).0
                    (vsock_dial net path port turns (dial s).1).1.open_conns)
                (attempt-IsKept (dial s).0 none _ _ kept more) (vsock_dial-IsKept turns (dial s).1))
        | inr (r, done) ↦ rw (done, retry) (attempt-IsKept (dial s).0 (some r) _ _ kept done)
      ]
