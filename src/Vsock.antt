-- ===== src/Vsock.antt =====
-- internal/vm/vsock.go: connections to a guest through Firecracker's vsock device, dialled by the host
-- and accepted in the guest. The answers of the sockets are an argument, `Net`; they may depend on
-- all the calls made so far. A wait for the ticker or the context is one `Turn`.
pub mod Handshake
pub mod Dialing
use abschlussarbeit.Common.{
  ℕ, String, Bool, true, false, Option, none, some, List, [], ◌∷◌, ◌++◌, if◌then◌else◌, eqb, length,
  Error, errorf, wrap, vsock_connect_msg_error, vsock_ack_error, Result, ok, err, of_error,
}
use abschlussarbeit.Common.Act.{Act, pure, lift, on_error, finally, ◌>>=◌, ◌>>◌}
use abschlussarbeit.Common.Bytes.{Bytes, codes}
use abschlussarbeit.Common.Decimal.{itoa}
use abschlussarbeit.Common.FilePath.{has_prefix}

-- The calls on sockets; a connection is a number. `set_deadline c true` is a time from now,
-- and `set_deadline c false` takes the deadline away.
pub data SocketCall : Type 0 where
  dial_timeout : Bytes → SocketCall
  set_deadline : ℕ → Bool → SocketCall
  write : ℕ → Bytes → SocketCall
  read_string : ℕ → ℕ → SocketCall
  close : ℕ → SocketCall
  listen : ℕ → SocketCall
  accept : ℕ → SocketCall

-- The connections that are open, and the calls made so far, both the newest first.
pub record Sockets : Type 0 where
  pub open_conns : List ℕ
  pub calls : List SocketCall

-- What the sockets answer: the `net` and `bufio` packages and the vsock package. `temporary` is the
-- `Temporary` method of an error that those packages made up, and false for an error without it.
-- `accept` has no deadline: it is `none` where it waits for ever. All else has one.
pub record Net : Type 0 where
  pub dial : List SocketCall → Bytes → Result ℕ
  pub write : List SocketCall → ℕ → Bytes → ℕ × Option Error
  pub read_string : List SocketCall → ℕ → Bytes × Option Error
  pub listen : List SocketCall → ℕ → Option Error
  pub accept : List SocketCall → ℕ → Option (Result ℕ)
  pub temporary : Error → Bool

abbrev pub without : ℕ → List ℕ → List ℕ
without c [] = []
without c (d ∷ ds) = if eqb c d then ds else d ∷ without c ds

abbrev pub called : SocketCall → Sockets → Sockets
called c s = record s { calls = c ∷ s.calls }

-- `conn.Close()`; its error is only logged.
unfoldable pub close_conn : ℕ → Sockets → Sockets
close_conn c s = record { open_conns = without c s.open_conns; calls = close c ∷ s.calls }

abbrev pub opened : Result ℕ → Sockets → Sockets
opened (ok c) s = record s { open_conns = c ∷ s.open_conns }
opened (err e) s = s

-- `vsockConnectMsg`
unfoldable pub vsock_connect_msg : ℕ → Bytes
vsock_connect_msg port = codes "CONNECT " ++ (itoa port ++ codes "\n")

abbrev pub newline : ℕ
newline = 10

-- `errors.Wrap` and the error types of the file, at an error if there is one.
abbrev pub map_error : {A : Type 0} → (Error → Error) → Result A → Result A
map_error f (ok a) = ok a
map_error f (err e) = err (f e)

abbrev pub failing_with : {A : Type 0} → (Error → Error) → Act Sockets A → Act Sockets A
failing_with f m s = let (r, s') = m s in (map_error f r, s')

module _ (net : Net) where
  -- `net.DialTimeout("unix", udsPath, ...)`
  unfoldable pub dial_timeout_at : Bytes → Act Sockets ℕ
  dial_timeout_at path s =
      let r = net.dial s.calls path in (r, opened r (called (dial_timeout path) s))

  -- What `tryConnWrite` makes of the number of bytes written and the error.
  unfoldable pub written : Bytes → ℕ × Option Error → Option Error
  written msg (n, some e) = some e
  written msg (n, none) =
      if eqb n (length msg)
      then none
      else some (errorf "incomplete write, expected %d bytes but wrote %d" [])

  -- `tryConnWrite`
  unfoldable pub try_conn_write : ℕ → Bytes → Act Sockets (Unit {0})
  unfolding written
  try_conn_write conn msg s =
      let s' = called (set_deadline conn true) s in
      finally (called (set_deadline conn false))
        (λ t. (of_error (written msg (net.write t.calls conn msg)), called (write conn msg) t)) s'

  abbrev pub line_of : Bytes × Option Error → Result Bytes
  line_of (line, none) = ok line
  line_of (line, some e) = err e

  -- `tryConnReadUntil`
  unfoldable pub try_conn_read_until : ℕ → ℕ → Act Sockets Bytes
  try_conn_read_until conn end s =
      let s' = called (set_deadline conn true) s in
      finally (called (set_deadline conn false))
        (λ t. (line_of (net.read_string t.calls conn), called (read_string conn end) t)) s'

  -- The part of `tryConnect` up to the last assignment to `err`.
  unfoldable pub exchange : ℕ → ℕ → Act Sockets Bytes
  unfolding try_conn_write try_conn_read_until
  exchange conn port = do
    failing_with vsock_connect_msg_error (try_conn_write conn (vsock_connect_msg port))
    failing_with vsock_ack_error (try_conn_read_until conn newline)

  -- The answer must begin with "OK ". Nothing is assigned to `err` here.
  abbrev pub accepted : ℕ → Bytes → Result ℕ
  accepted conn line =
      if has_prefix line (codes "OK ")
      then ok conn
      else err (vsock_ack_error (errorf "expected to read \"OK <port>\", but instead read %q" []))

  -- `tryConnect`: the deferred function looks at `err`, which is nil once the line has been read.
  unfoldable pub try_connect : Bytes → ℕ → Act Sockets ℕ
  unfolding dial_timeout_at exchange close_conn
  try_connect uds_path port = do
    conn ← dial_timeout_at uds_path
    line ← on_error (close_conn conn) (exchange conn port)
    lift (accepted conn line)

  -- `tryAccept`: nothing can fail behind the call, so that the deferred function never closes. `none`
  -- means that it does not return.
  abbrev pub arrived : Option (Result ℕ) → Sockets → Sockets
  arrived none s = s
  arrived (some r) s = opened r s

  unfoldable pub try_accept : ℕ → Sockets → Option (Result ℕ) × Sockets
  try_accept port s = let r = net.accept s.calls port in (r, arrived r (called (accept port) s))

  -- `isTemporaryNetErr`
  unfoldable pub is_temporary_net_err : Error → Bool
  is_temporary_net_err (vsock_connect_msg_error e) = false
  is_temporary_net_err (vsock_ack_error e) = true
  is_temporary_net_err e = net.temporary e

-- What a `select` of the loops picks: the context is done, or the ticker fires.
pub data Turn : Type 0 where
  ctx_done : Error → Turn
  tick : Turn

-- What one attempt means to a loop: go on, or return.
abbrev pub settled : Net → String → Result ℕ → Option (Result ℕ)
settled net msg (ok conn) = some (ok conn)
settled net msg (err e) = if is_temporary_net_err net e then none else some (err (wrap msg e))

-- The loop of `VSockDial` over the turns of its `select`; `none` means that it goes on waiting when the
-- turns are over.
unfoldable pub retry :
    Net → String → Act Sockets ℕ → List Turn → Sockets → Option (Result ℕ) × Sockets
retry net msg try [] s = (none, s)
retry net msg try (ctx_done e ∷ turns) s = (some (err e), s)
retry net msg try (tick ∷ turns) s = elim (settled net msg (try s).0) [
  | none ↦ retry net msg try turns (try s).1
  | some r ↦ (some r, (try s).1)
]

-- `VSockDial`
unfoldable pub vsock_dial : Net → Bytes → ℕ → List Turn → Sockets → Option (Result ℕ) × Sockets
unfolding retry try_connect
vsock_dial net uds_path port =
    retry net "non-temporary vsock dial failure" (try_connect net uds_path port)

-- `Accept` of `vsockListener`, over the turns of its `select`. An attempt that does not return is the
-- end: the loop never sees its context again. `none` also means that it goes on waiting.
unfoldable pub vsock_accept : Net → ℕ → List Turn → Sockets → Option (Result ℕ) × Sockets
unfolding try_accept
vsock_accept net port [] s = (none, s)
vsock_accept net port (ctx_done e ∷ turns) s = (some (err e), s)
vsock_accept net port (tick ∷ turns) s = elim (try_accept net port s).0 [
  | none ↦ (none, (try_accept net port s).1)
  | some r ↦ elim (settled net "non-temporary vsock accept failure" r) [
    | none ↦ vsock_accept net port turns (try_accept net port s).1
    | some q ↦ (some q, (try_accept net port s).1)
  ]
]

-- `VSockListener`
unfoldable pub vsock_listener : Net → ℕ → Act Sockets (Unit {0})
vsock_listener net port s = (of_error (net.listen s.calls port), called (listen port) s)
