-- ===== src/IoProxy.antt =====
-- internal/vm/ioproxy.go, fifo.go and agent.go, and the connectors of vsock.go: how the stdio of a
-- process in a VM is connected and copied. A connector gives back a channel on which its result
-- will come; the goroutine of a proxy is a state that takes one message at a time.
pub mod Pairs
use abschlussarbeit.Common.{
  ℕ, zero, suc, ◌+◌, String, Bool, true, false, Option, none, some, List, [], ◌∷◌, ◌++◌, map,
  if◌then◌else◌, ltb, length, ◌||◌, Error, wrap, Result, ok, err, error_of,
}
use abschlussarbeit.Common.Bytes.{Bytes, codes, bytes_eq}

-- `IOConnectorResult`: a stream is known by its number, and nil where the connection failed.
pub record IoConnectorResult : Type 0 where
  pub stream : Option ℕ
  pub error : Option Error

abbrev pub result_of : Result ℕ → IoConnectorResult
result_of (ok c) = record { stream = some c; error = none }
result_of (err e) = record { stream = none; error = some e }

-- A channel of results, with what stands in its buffer.
pub record Channel : Type 0 where
  pub capacity : ℕ
  pub queue : List IoConnectorResult
  pub closed : Bool

abbrev pub make : ℕ → Channel
make n = record { capacity = n; queue = []; closed = false }

-- A send while nobody else has the channel: with no room in the buffer it waits for ever, `none`.
abbrev pub send : IoConnectorResult → Channel → Option Channel
send r ch =
    if ltb (length ch.queue) ch.capacity
    then some (record ch { queue = ch.queue ++ r ∷ [] })
    else none

abbrev pub close : Channel → Channel
close ch = record ch { closed = true }

-- What a connector does before it returns: the channel that it returns and whether a goroutine was
-- started that will send on it. `none` means that the connector never returns.
abbrev pub Connected : Type 0
Connected = Option (Channel × Bool)

abbrev pub returning : Bool → Option Channel → Connected
returning async none = none
returning async (some ch) = some (ch, async)

abbrev pub closing : Option Channel → Option Channel
closing none = none
closing (some ch) = some (close ch)

-- `fifoConnector`, where `opened` is the answer of `fifo.OpenFifo`.
unfoldable pub fifo_connector : Result ℕ → Connected
fifo_connector opened = returning false (closing (send (result_of opened) (make 1)))

-- `VSockDialConnector`: its goroutine dials, and sends the result of `VSockDial`.
unfoldable pub vsock_dial_connector : Connected
vsock_dial_connector = returning true (some (make 0))

-- `VSockAcceptConnector`, where `listening` is the answer of `VSockListener`.
unfoldable pub vsock_accept_connector : Option Error → Connected
vsock_accept_connector none = returning true (some (make 0))
vsock_accept_connector (some e) = returning false (closing (send (result_of (err e)) (make 0)))

-- `IsAgentOnlyIO`, where `parsed` is the scheme that `url.Parse` finds.
unfoldable pub is_agent_only_io : Result Bytes → Bool
is_agent_only_io (err e) = false
is_agent_only_io (ok scheme) = bytes_eq scheme (codes "binary") || bytes_eq scheme (codes "file")

-- The connectors, by what they connect to.
pub data Connector : Type 0 where
  read_fifo write_fifo : Bytes → Connector
  vsock_dial : Bytes → ℕ → Connector
  vsock_accept : ℕ → Connector

-- `IOConnectorPair`
pub record IoConnectorPair : Type 0 where
  pub read_connector : Connector
  pub write_connector : Connector

-- `ioConnectorSet` and `nullIOProxy`
pub data IoProxy : Type 0 where
  connector_set : (stdin stdout stderr : Option IoConnectorPair) → IoProxy
  null_io_proxy : IoProxy

-- The goroutine of `proxy` while it waits for the results. A channel is nil once it was read.
pub record Initializing : Type 0 where
  pub reader_waits : Bool
  pub writer_waits : Bool
  pub reader : Option ℕ
  pub writer : Option ℕ
  pub io_init_err : Option Error
  pub init_done : List Error

abbrev pub initializing : Initializing
initializing = record {
  reader_waits = true;
  writer_waits = true;
  reader = none;
  writer = none;
  io_init_err = none;
  init_done = [];
}

pub data Arrival : Type 0 where
  reader_result writer_result : IoConnectorResult → Arrival

-- `if err != nil` at the end of the loop's body: `init_done` has the oldest error first.
abbrev pub note_error : Option Error → Initializing → Initializing
note_error none p = p
note_error (some e) p =
    let e' = wrap "error initializing io" e in
    record p { io_init_err = some e'; init_done = p.init_done ++ e' ∷ [] }

-- The body of the loop. A nil channel is never ready, so that a second result is not taken.
unfoldable pub receive : Arrival → Initializing → Initializing
receive (reader_result r) p =
    if p.reader_waits
    then note_error r.error (record p { reader_waits = false; reader = r.stream })
    else p
receive (writer_result r) p =
    if p.writer_waits
    then note_error r.error (record p { writer_waits = false; writer = r.stream })
    else p

unfoldable pub receive_all : List Arrival → Initializing → Initializing
unfolding receive
receive_all [] p = p
receive_all (a ∷ arrivals) p = receive_all arrivals (receive a p)

-- What the goroutine does once both results are in: closing and copying streams.
pub data StreamCall : Type 0 where
  close_stream : ℕ → StreamCall
  copy_buffer : (reader writer : ℕ) → StreamCall

-- `logClose`: the streams that are not nil, in order; their errors are logged.
unfoldable pub log_close : List (Option ℕ) → List StreamCall
log_close [] = []
log_close (none ∷ streams) = log_close streams
log_close (some s ∷ streams) = close_stream s ∷ log_close streams

-- `copy_done` is what the channel of that name carries before it is closed.
pub record Finished : Type 0 where
  pub calls : List StreamCall
  pub copy_done : Option Error

abbrev pub copy : Option ℕ → Option ℕ → List StreamCall
copy (some r) (some w) = copy_buffer r w ∷ []
copy _ _ = []

-- Whether the process ends, and the time that its streams are given after that runs out: not at all,
-- before the copying is over, or after it. `time.AfterFunc` then closes both streams, too.
pub data TimeOut : Type 0 where
  never while_copying afterwards : TimeOut

-- What is called from the start of the copying on; the copy stands where it ends.
abbrev pub copy_until : TimeOut → List StreamCall → List StreamCall → List StreamCall
copy_until never copied closed = copied ++ closed
copy_until while_copying copied closed = closed ++ (copied ++ closed)
copy_until afterwards copied closed = copied ++ (closed ++ closed)

-- The rest of the goroutine, with the one that it starts for the end of the process, where `copied` is
-- the answer of `io.CopyBuffer`.
unfoldable pub finish : TimeOut → Option Error → Option Error → Initializing → Finished
finish time_out (some e) copied p = record {
  calls = log_close (p.reader ∷ p.writer ∷ []);
  copy_done = none;
}
finish time_out none copied p = record {
  calls = copy_until time_out (copy p.reader p.writer) (log_close (p.reader ∷ p.writer ∷ []));
  copy_done = copied;
}

-- `proxy`, from the results in the order in which they come.
unfoldable pub proxy : List Arrival → TimeOut → Option Error → Finished
unfolding receive_all finish
proxy arrivals time_out copied =
    let p = receive_all arrivals initializing in finish time_out p.io_init_err copied p

-- The first message on `initDone`, which a receiver gets, or nil from the closed channel.
abbrev pub first_of : List Error → Option Error
first_of [] = none
first_of (e ∷ es) = some e

unfoldable pub init_result : List Arrival → Option Error
unfolding receive_all
init_result arrivals = first_of (receive_all arrivals initializing).init_done

-- `errgroup.Group.Wait`: the first error that a member returned, in the order of their returns.
unfoldable pub wait_group : List (Option Error) → Option Error
wait_group [] = none
wait_group (none ∷ returned) = wait_group returned
wait_group (some e ∷ returned) = some e

-- What `start` sends on `initDone` and on `copyDone`, from the goroutines of the pairs in the order
-- in which they report; for `copyDone` each pair comes with its time-out and the answer of
-- `io.CopyBuffer`.
unfoldable pub start_init : List (List Arrival) → Option Error
unfolding init_result wait_group
start_init pairs = wait_group (map init_result pairs)

abbrev pub copied_by : List Arrival × TimeOut × Option Error → Option Error
copied_by (arrivals, time_out, copied) = (proxy arrivals time_out copied).copy_done

unfoldable pub start_copy : List (List Arrival × TimeOut × Option Error) → Option Error
unfolding proxy wait_group
start_copy pairs = wait_group (map copied_by pairs)

-- The streams of `start` for which a proxy is started, with the time that is left to them after the
-- exit of the process: none to stdin, `defaultIOFlushTimeout` to the others.
abbrev pub started : String → Bool → Option IoConnectorPair → List (String × Bool × IoConnectorPair)
started name flushed none = []
started name flushed (some pair) = (name, flushed, pair) ∷ []

unfoldable pub start : IoProxy → List (String × Bool × IoConnectorPair)
start null_io_proxy = []
start (connector_set stdin stdout stderr) =
    started "stdin" false stdin ++ started "stdout" true stdout ++ started "stderr" true stderr
