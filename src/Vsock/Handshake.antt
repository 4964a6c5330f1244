-- ===== src/Vsock/Handshake.antt =====
-- internal/vm/vsock.go: which connections are open after one attempt of `tryConnect`.
use abschlussarbeit.Common.{
  ℕ, true, false, Option, none, some, List, ◌∷◌, ◌≡◌, refl, inl, inr, Error, vsock_ack_error,
  vsock_connect_msg_error, Result, ok, err, Result-cases, Bool-cases, arith,
}
use abschlussarbeit.Common.Act.{close_on_error, continue, lift, bind-Leaves, bind_ok}
use abschlussarbeit.Common.Bytes.{Bytes, codes}
use abschlussarbeit.Common.FilePath.{has_prefix}
use abschlussarbeit.Vsock.{
  Sockets, Net, SocketCall, map_error, line_of, opened, called, dial_timeout, close_conn, without,
  exchange, try_conn_write, try_conn_read_until, try_connect, dial_timeout_at, accepted,
  failing_with, vsock_connect_msg, newline,
}

pub without-first : (c : ℕ) (ds : List ℕ) → without c (c ∷ ds) ≡ ds
without-first c ds = ground arith

module _ (net : Net) where
  -- Writing and reading open and close nothing.
  exchange-open_conns :
      (conn port : ℕ) (s : Sockets) → (exchange net conn port s).1.open_conns ≡ s.open_conns
  unfolding exchange try_conn_write try_conn_read_until
  exchange-open_conns conn port s =
      bind-Leaves (λ (t : Sockets). t.open_conns)
        (failing_with vsock_connect_msg_error (try_conn_write net conn (vsock_connect_msg port)))
        (λ _. failing_with vsock_ack_error (try_conn_read_until net conn newline)) (λ t. refl)
        (λ a t. refl) s

  line_of_ok :
      (p : Bytes × Option Error) (line : Bytes)
      → map_error vsock_ack_error (line_of net p) ≡ ok line
      → p ≡ (line, none)
  line_of_ok (l, none) line h = ground arith
  line_of_ok (l, some e) line h = cc

  -- The line was read from the connection, with no error.
  abbrev pub Answered : ℕ → Bytes → Type 0
  Answered conn line = (calls : List SocketCall) × (net.read_string calls conn ≡ (line, none))

  exchange-Answered :
      (conn port : ℕ) (s : Sockets) (line : Bytes)
      → (exchange net conn port s).0 ≡ ok line
      → Answered conn line
  unfolding exchange try_conn_read_until
  exchange-Answered conn port s line h =
      let (_, _, k) =
        bind_ok
          (failing_with vsock_connect_msg_error (try_conn_write net conn (vsock_connect_msg port)))
          (λ _. failing_with vsock_ack_error (try_conn_read_until net conn newline)) s line h in
      (_, line_of_ok _ line k)

  -- How an attempt can end: with the connection, with nothing left open, or with an answer that is
  -- not "OK ..." and the connection still open behind the error.
  pub data Outcome (path : Bytes) (s : Sockets) : Result ℕ → List ℕ → Type 0 where
    connected :
        (c : ℕ) (line : Bytes)
        → net.dial s.calls path ≡ ok c
        → Answered c line
        → has_prefix line (codes "OK ") ≡ true
        → Outcome path s (ok c) (c ∷ s.open_conns)
    failed : (e : Error) → Outcome path s (err e) s.open_conns
    refused :
        (c : ℕ) (line : Bytes) (e : Error)
        → net.dial s.calls path ≡ ok c
        → Answered c line
        → has_prefix line (codes "OK ") ≡ false
        → Outcome path s (err (vsock_ack_error e)) (c ∷ s.open_conns)

  -- What follows the exchange in `tryConnect`.
  abbrev finish : ℕ → Result Bytes × Sockets → Result ℕ × Sockets
  finish c (r, t) =
      let (r', t') = close_on_error r (close_conn c) t in
      continue r' (λ line. lift (accepted net c line)) t'

  finish-Outcome :
      (path : Bytes) (s : Sockets) (c : ℕ) (x : Result Bytes × Sockets)
      → net.dial s.calls path ≡ ok c
      → x.1.open_conns ≡ c ∷ s.open_conns
      → ((line : Bytes) → x.0 ≡ ok line → Answered c line)
      → Outcome path s (finish c x).0 (finish c x).1.open_conns
  unfolding close_conn
  finish-Outcome path s c (err e, t) d h a = rw (h, without-first c s.open_conns) (failed e)
  finish-Outcome path s c (ok line, t) d h a = elim (Bool-cases (has_prefix line (codes "OK "))) [
    | inl good ↦ rw (good, h) (connected c line d (a line refl) good)
    | inr bad ↦ rw (bad, h) (refused c line _ d (a line refl) bad)
  ]

  -- Every attempt ends in one of these three ways, and opens no other connection.
  pub try_connect-Outcome :
      (path : Bytes) (port : ℕ) (s : Sockets)
      → Outcome path s (try_connect net path port s).0 (try_connect net path port s).1.open_conns
  unfolding try_connect dial_timeout_at
  try_connect-Outcome path port s = elim (Result-cases (net.dial s.calls path)) [
    | inl (c, d) ↦
        let t : Sockets = opened (ok c) (called (dial_timeout path) s) in
        rw d (
          finish-Outcome path s c (exchange net c port t) d (exchange-open_conns c port t)
            (exchange-Answered c port t))
    | inr (e, d) ↦ rw d (failed e)
  ]
