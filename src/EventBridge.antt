-- ===== src/EventBridge.antt =====
-- eventbridge/eventbridge.go, and `startEventForwarders` of runtime/service.go: the events of the agent go
-- to the shim's exchange, and from there to containerd. A loop runs over what its selects and calls
-- come to, turn by turn. The exchange and the publisher are other packages'.
pub mod Delivery
pub mod Mixes
use abschlussarbeit.Common.{
  ℕ, String, Bool, true, false, Option, none, some, List, [], ◌∷◌, ◌++◌, if◌then◌else◌, Error,
  canceled, Result, ok, err,
}

-- `events.Envelope`, with an event that is encoded.
pub record Envelope (Any : Type 0) : Type 0 where
  pub timestamp : ℕ
  pub namespace : String
  pub topic : String
  pub event : Any

-- What a Go function with the results `*Envelope` and `error` returns.
abbrev pub Got : Type 0 → Type 0
Got Any = Option (Envelope Any) × Option Error

-- The case that a `select` on a subscription takes: an event, something on the channel for errors,
-- or the end of the context.
pub data Case (Any : Type 0) : Type 0 where
  received : Envelope Any → Case Any
  failed : Option Error → Case Any
  done : Case Any

-- A nil error from the exchange means that the context ended.
abbrev pub or_context : Option Error → Option Error → Option Error
or_context (some e) ctx_err = some e
or_context none ctx_err = ctx_err

-- How a loop stands: it goes on, it has sent this on its channel and closed it, or it has read
-- through a nil pointer.
pub data Ending : Type 0 where
  running : Ending
  sent : Option Error → Ending
  crashed : Ending

-- One turn of the loop of `Attach`: whether the context has ended, with its error, and else what
-- the source returns and what the sink answers.
pub record Turn (Any : Type 0) : Type 0 where
  pub ended : Bool
  pub ctx_err : Option Error
  pub got : Got Any
  pub answer : Option Error

-- What is forwarded, and how the loop stands.
abbrev pub Forwarded : Type 0 → Type 0
Forwarded Any = List (Envelope Any) × Ending

module _ {Any : Type 0} where
  -- `getterService.GetEvent`, where `ctx_err` is `ctx.Err()`.
  unfoldable pub get_event : Option Error → Case Any → Got Any
  get_event ctx_err (received e) = (
    some (record {
      timestamp = e.timestamp;
      namespace = e.namespace;
      topic = e.topic;
      event = e.event;
    }),
    none,
  )
  get_event ctx_err (failed e) = (none, or_context e ctx_err)
  get_event ctx_err done = (none, ctx_err)

  -- `getterClient.GetEvent`: what the call of the server comes to.
  unfoldable pub client_get_event : Result (Envelope Any) → Got Any
  client_get_event (ok e) = (some e, none)
  client_get_event (err e) = (none, some e)

  abbrev pub after_forward : Envelope Any → Option Error → Forwarded Any → Forwarded Any
  after_forward e (some x) rest = (e ∷ [], sent (some x))
  after_forward e none rest = (e ∷ rest.0, rest.1)

  abbrev pub on_got : Got Any → Option Error → Forwarded Any → Forwarded Any
  on_got (e, some x) answer rest = ([], sent (some x))
  on_got (none, none) answer rest = ([], crashed)
  on_got (some e, none) answer rest =
      after_forward
        (record {
          timestamp = e.timestamp;
          namespace = e.namespace;
          topic = e.topic;
          event = e.event;
        })
        answer rest

  -- The loop of `Attach`.
  unfoldable pub attach : List (Turn Any) → Forwarded Any
  attach [] = ([], running)
  attach (t ∷ ts) =
      let rest = attach ts in if t.ended then ([], sent t.ctx_err) else on_got t.got t.answer rest

-- One turn of the loop of `Republish`: the case, the context's error, and the publisher's answer.
pub record Republishing (Any : Type 0) : Type 0 where
  pub case : Case Any
  pub ctx_err : Option Error
  pub answer : Option Error

-- What is published, with its topic, and how the loop stands.
abbrev pub Published : Type 0 → Type 0
Published Event = List (String × Event) × Ending

module _ {Any Event : Type 0} (unmarshal_any : Any → Result Event) where
  abbrev pub after_publish : String × Event → Option Error → Published Event → Published Event
  after_publish p (some x) rest = (p ∷ [], sent (some x))
  after_publish p none rest = (p ∷ rest.0, rest.1)

  abbrev pub on_decoded : String → Result Event → Option Error → Published Event → Published Event
  on_decoded topic (err e) answer rest = ([], sent (some e))
  on_decoded topic (ok event) answer rest = after_publish (topic, event) answer rest

  abbrev pub on_case : Case Any → Option Error → Option Error → Published Event → Published Event
  on_case (received e) ctx_err answer rest = on_decoded e.topic (unmarshal_any e.event) answer rest
  on_case (failed e) ctx_err answer rest = ([], sent (or_context e ctx_err))
  on_case done ctx_err answer rest = ([], sent ctx_err)

  -- The loop of `Republish`.
  unfoldable pub republish : List (Republishing Any) → Published Event
  republish [] = ([], running)
  republish (t ∷ ts) = let rest = republish ts in on_case t.case t.ctx_err t.answer rest

-- What the goroutine of `startEventForwarders` has done: the errors it logged, and whether it closed
-- the publisher.
pub record Forwarders : Type 0 where
  pub logged : List Error
  pub closed : Bool

-- `context.Canceled` is not logged, and neither is nil.
abbrev pub to_log : Option Error → List Error
to_log none = []
to_log (some canceled) = []
to_log (some e) = e ∷ []

-- What is read from a loop's channel, and done with it; while the loop runs, the reader waits.
abbrev pub await : Ending → (Option Error → Forwarders) → Forwarders
await (sent e) k = k e
await running k = record { logged = []; closed = false }
await crashed k = record { logged = []; closed = false }

-- The goroutine: it waits for the VM, then for `Attach`, and then for `Republish`.
unfoldable pub event_forwarders : Bool → Ending → Ending → Forwarders
event_forwarders false attached republished = record { logged = []; closed = false }
event_forwarders true attached republished = await attached (λ e.
    let after = await republished (λ x. record { logged = to_log x; closed = true }) in
    record after { logged = to_log e ++ after.logged })
