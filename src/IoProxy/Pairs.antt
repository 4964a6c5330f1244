-- ===== src/IoProxy/Pairs.antt =====
-- internal/vm/ioproxy.go: what the two ends of a stream come to, whichever is connected first.
use mathlib.Core.List.{append-nil}
use abschlussarbeit.Common.{
  sym, ℕ, ◌+◌, ◌≤◌, false, Option, none, some, List, [], ◌∷◌, ◌++◌, ◌≡◌, refl, ◌↔◌, if◌then◌else◌,
  Error, Result, length, length-append, All, arith, inl, inr, Option-cases, wrap,
}
use abschlussarbeit.IoProxy.{
  IoConnectorResult, Connected, fifo_connector, vsock_accept_connector, Initializing, initializing,
  Arrival, reader_result, writer_result, note_error, receive, receive_all, StreamCall, close_stream,
  copy_buffer, TimeOut, never, while_copying, afterwards, log_close, finish, proxy, init_result,
  wait_group,
}

-- The results of the two connectors of a pair, in one of the two orders.
pub data Both (r w : IoConnectorResult) : List Arrival → Type 0 where
  reader_first : Both r w (reader_result r ∷ writer_result w ∷ [])
  writer_first : Both r w (writer_result w ∷ reader_result r ∷ [])

-- A connector has a stream exactly if it has no error.
pub data IsResult : IoConnectorResult → Type 0 where
  connected : (s : ℕ) → IsResult (record { stream = some s; error = none })
  failed : (e : Error) → IsResult (record { stream = none; error = some e })

abbrev pub streams_of : Option ℕ → List ℕ
streams_of none = []
streams_of (some s) = s ∷ []

abbrev pub closed_in : List StreamCall → List ℕ
closed_in [] = []
closed_in (close_stream s ∷ calls) = s ∷ closed_in calls
closed_in (copy_buffer r w ∷ calls) = closed_in calls

abbrev pub copies_in : List StreamCall → List (ℕ × ℕ)
copies_in [] = []
copies_in (close_stream s ∷ calls) = copies_in calls
copies_in (copy_buffer r w ∷ calls) = (r, w) ∷ copies_in calls

abbrev pub pairs_of : Option ℕ → Option ℕ → List (ℕ × ℕ)
pairs_of (some r) (some w) = (r, w) ∷ []
pairs_of none w = []
pairs_of (some r) none = []

-- How often the streams are closed by the timer after the end of the process.
abbrev pub closed_again : TimeOut → Option ℕ → Option ℕ → List ℕ
closed_again never r w = []
closed_again _ (some r) (some w) = r ∷ w ∷ []
closed_again _ none w = []
closed_again _ (some r) none = []

only_one : (time_out : TimeOut) (s : ℕ) → (s ∷ []) ≡ (s ∷ []) ++ closed_again time_out (some s) none
only_one never s = refl
only_one while_copying s = refl
only_one afterwards s = refl

none_again :
    (time_out : TimeOut) (streams : List ℕ) (w : Option ℕ)
    → streams ≡ streams ++ closed_again time_out none w
none_again never streams w = sym (append-nil streams)
none_again while_copying streams w = sym (append-nil streams)
none_again afterwards streams w = sym (append-nil streams)

-- Whichever end of a stream is connected first, and whenever the process ends: each end that was
-- opened is closed, reader before writer, and a second time exactly if both were opened and the timer
-- after the end of the process fires; the reader is copied to the writer, once, exactly if both ends
-- were opened; and `initDone` brings an error exactly if one of them was not.
pub proxy_lem :
    {r w : IoConnectorResult} {arrivals : List Arrival} (time_out : TimeOut) (copied : Option Error)
    → IsResult r
    → IsResult w
    → Both r w arrivals
    → (closed_in (proxy arrivals time_out copied).calls
        ≡ (streams_of r.stream ++ streams_of w.stream) ++ closed_again time_out r.stream w.stream)
      × (copies_in (proxy arrivals time_out copied).calls ≡ pairs_of r.stream w.stream)
      × ((init_result arrivals ≡ none) ↔ ((r.error ≡ none) × (w.error ≡ none)))
unfolding proxy receive_all receive finish log_close init_result
proxy_lem never copied (connected s) (connected t) reader_first =
    (refl, refl, (λ _. (refl, refl), λ _. refl))
proxy_lem never copied (connected s) (connected t) writer_first =
    (refl, refl, (λ _. (refl, refl), λ _. refl))
proxy_lem while_copying copied (connected s) (connected t) reader_first =
    (refl, refl, (λ _. (refl, refl), λ _. refl))
proxy_lem while_copying copied (connected s) (connected t) writer_first =
    (refl, refl, (λ _. (refl, refl), λ _. refl))
proxy_lem afterwards copied (connected s) (connected t) reader_first =
    (refl, refl, (λ _. (refl, refl), λ _. refl))
proxy_lem afterwards copied (connected s) (connected t) writer_first =
    (refl, refl, (λ _. (refl, refl), λ _. refl))
proxy_lem time_out copied (connected s) (failed e) reader_first =
    (only_one time_out s, refl, (λ h. cc h, λ h. cc h.1))
proxy_lem time_out copied (connected s) (failed e) writer_first =
    (only_one time_out s, refl, (λ h. cc h, λ h. cc h.1))
proxy_lem time_out copied (failed e) (connected s) reader_first =
    (none_again time_out (s ∷ []) (some s), refl, (λ h. cc h, λ h. cc h.0))
proxy_lem time_out copied (failed e) (connected s) writer_first =
    (none_again time_out (s ∷ []) (some s), refl, (λ h. cc h, λ h. cc h.0))
proxy_lem time_out copied (failed e) (failed e') reader_first =
    (none_again time_out [] none, refl, (λ h. cc h, λ h. cc))
proxy_lem time_out copied (failed e) (failed e') writer_first =
    (none_again time_out [] none, refl, (λ h. cc h, λ h. cc))

-- The order in which the ends are connected shows neither in what is copied and closed nor in what
-- `copyDone` brings.
pub proxy_order :
    (r w : IoConnectorResult) (time_out : TimeOut) (copied : Option Error)
    → proxy (reader_result r ∷ writer_result w ∷ []) time_out copied
      ≡ proxy (writer_result w ∷ reader_result r ∷ []) time_out copied
unfolding proxy receive_all receive finish log_close
proxy_order r w time_out copied = elim (Option-cases r.error) [
  | inl a ↦ elim (Option-cases w.error) [
    | inl b ↦ rw (a, b, note_error) refl
    | inr (e, b) ↦ rw (a, b, note_error) refl
  ]
  | inr (e, a) ↦ elim (Option-cases w.error) [
    | inl b ↦ rw (a, b, note_error) refl
    | inr (e', b) ↦ rw (a, b, note_error) refl
  ]
]

abbrev waits : Initializing → ℕ
waits p = (if p.reader_waits then 1 else 0) + (if p.writer_waits then 1 else 0)

note_error-room :
    (o : Option Error) (p : Initializing)
    → length (note_error o p).init_done + waits (note_error o p) ≤ length p.init_done + waits p + 1
note_error-room none p = omega arith
note_error-room (some e) p =
    omega (arith, length-append p.init_done (wrap "error initializing io" e ∷ []))

receive-room :
    (a : Arrival) (p : Initializing)
    → length p.init_done + waits p ≤ 2
    → length (receive a p).init_done + waits (receive a p) ≤ 2
unfolding receive
receive-room (reader_result r) p h =
    ground (arith, note_error-room r.error (record p { reader_waits = false; reader = r.stream }))
receive-room (writer_result r) p h =
    ground (arith, note_error-room r.error (record p { writer_waits = false; writer = r.stream }))

receive_all-room :
    (arrivals : List Arrival) (p : Initializing)
    → length p.init_done + waits p ≤ 2
    → length (receive_all arrivals p).init_done + waits (receive_all arrivals p) ≤ 2
unfolding receive_all
receive_all-room [] p h = h
receive_all-room (a ∷ arrivals) p h = receive_all-room arrivals (receive a p) (receive-room a p h)

-- Whatever comes in, at most two errors are sent on `initDone`: its buffer has room for them, so that
-- the goroutine never waits for a receiver.
pub init_done-fits :
    (arrivals : List Arrival) → length (receive_all arrivals initializing).init_done ≤ 2
init_done-fits arrivals = omega (arith, receive_all-room arrivals initializing (omega arith))

-- A connector that returns.
abbrev pub Yields : Connected → Type 0
Yields none = ⊥
Yields (some c) = Unit

-- A connector to a FIFO always returns, since its channel has room for the result. The connector that
-- accepts a vsock connection returns exactly if it can listen: otherwise it sends the error on a
-- channel with no room that nobody else has yet, and waits for ever.
connectors_yield :
    (opened : Result ℕ) (listening : Option Error)
    → Yields (fifo_connector opened)
      × (Yields (vsock_accept_connector listening) ↔ (listening ≡ none))
unfolding fifo_connector vsock_accept_connector
connectors_yield opened none = (tt, (λ _. refl, λ _. tt))
connectors_yield opened (some e) = (tt, (λ h. absurd h, λ h. cc h))

-- A group waits without an error exactly if no member returned one.
pub wait_group-none :
    (returned : List (Option Error)) → (wait_group returned ≡ none) ↔ All (λ o. o ≡ none) returned
unfolding wait_group
wait_group-none [] = (λ _. tt, λ _. refl)
wait_group-none (none ∷ returned) =
    let (to, from) = wait_group-none returned in (λ h. (refl, to h), λ h. from h.1)
wait_group-none (some e ∷ returned) = (λ h. cc h, λ h. cc h.0)
