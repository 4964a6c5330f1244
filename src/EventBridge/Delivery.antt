-- ===== src/EventBridge/Delivery.antt =====
-- eventbridge/eventbridge.go: the way of the events from the agent's exchange to containerd.
use abschlussarbeit.Common.{
  String, Bool, Option, none, some, List, [], ◌∷◌, map, ◌≡◌, refl, sym, ap, subst, Error, Result,
  ok, All, arith, Bool-cases, inl, inr, Result-cases,
}
use abschlussarbeit.EventBridge.{
  Envelope, Case, received, failed, done, running, sent, get_event, client_get_event, Turn,
  Forwarded, after_forward, attach, Republishing, Published, after_publish, on_case, republish,
}
use abschlussarbeit.EventBridge.Mixes.{IsPrefix, Mix, prefix-Mix, trans-IsPrefix}

-- The events among the cases.
abbrev pub events_of : {Any : Type 0} → List (Case Any) → List (Envelope Any)
events_of [] = []
events_of (received e ∷ cs) = e ∷ events_of cs
events_of (failed x ∷ cs) = events_of cs
events_of (done ∷ cs) = events_of cs

-- A turn of the shim's loop with what stands behind it: the case that the agent's server took, and
-- the reply that the call came to.
pub record Link (Any : Type 0) : Type 0 where
  pub ended : Bool
  pub ctx_err : Option Error
  pub case : Case Any
  pub server_ctx_err : Option Error
  pub reply : Result (Envelope Any)
  pub answer : Option Error

module _ {Any : Type 0} where
  abbrev pub turn_of : Link Any → Turn Any
  turn_of l = record {
    ended = l.ended;
    ctx_err = l.ctx_err;
    got = client_get_event l.reply;
    answer = l.answer;
  }

  abbrev pub cases_of : List (Link Any) → List (Case Any)
  cases_of = map (λ (l : Link Any). l.case)

  -- A reply without an error is what the server returned. An error may come from anywhere.
  abbrev pub IsHonest : Link Any → Type 0
  IsHonest l =
      (e : Envelope Any) → l.reply ≡ ok e → get_event l.server_ctx_err l.case ≡ (some e, none)

  -- The event behind a reply.
  event_behind :
      (ctx_err : Option Error) (c : Case Any) (e : Envelope Any) (cs : List (Case Any))
      → get_event ctx_err c ≡ (some e, none)
      → events_of (c ∷ cs) ≡ e ∷ events_of cs
  unfolding get_event
  event_behind ctx_err (received d) e cs h = ground arith
  event_behind ctx_err (failed x) e cs h = absurd (ground arith)
  event_behind ctx_err done e cs h = absurd (ground arith)

  -- What a loop that ends in this way has done of all there was.
  abbrev pub IsDone : Forwarded Any → List (Envelope Any) → Type 0
  IsDone r all = IsPrefix r.0 all × (r.1 ≡ running → r.0 ≡ all)

  sent-IsDone : (x : Option Error) (all : List (Envelope Any)) → IsDone ([], sent x) all
  sent-IsDone x all = ((all, refl), λ r. cc)

  after_forward-IsDone :
      (e : Envelope Any) (answer : Option Error) (r : Forwarded Any) (all : List (Envelope Any))
      → IsDone r all
      → IsDone (after_forward e answer r) (e ∷ all)
  after_forward-IsDone e (some x) r all h = ((all, refl), λ p. cc)
  after_forward-IsDone e none r all h =
      let ((rest, p), q) = h in ((rest, ap (λ l. e ∷ l) p), λ k. ap (λ l. e ∷ l) (q k))

  -- What is forwarded is a first part of the events of the agent's exchange, and all of them while
  -- the loop runs.
  attach-IsDone :
      (ls : List (Link Any))
      → All IsHonest ls
      → IsDone (attach (map turn_of ls)) (events_of (cases_of ls))
  unfolding attach client_get_event
  attach-IsDone [] h = (([], refl), λ r. refl)
  attach-IsDone (l ∷ ls) h = elim (Bool-cases l.ended) [
    | inl over ↦ rw over (sent-IsDone l.ctx_err _)
    | inr more ↦ elim (Result-cases l.reply) [
      | inl (e, got) ↦
          rw (more, got)
            (subst (λ all. IsDone (after_forward e l.answer (attach (map turn_of ls))) all)
              (sym (event_behind l.server_ctx_err l.case e (cases_of ls) (h.0 e got)))
              (after_forward-IsDone e l.answer _ _ (attach-IsDone ls h.1)))
      | inr (x, lost) ↦ rw (more, lost) (sent-IsDone (some x) _)
    ]
  ]

module _ {Any Event : Type 0} (unmarshal_any : Any → Result Event) where
  -- Published events with the envelopes that they come from.
  abbrev pub AreDecoded : List (String × Event) → List (Envelope Any) → Type 0
  AreDecoded [] [] = Unit
  AreDecoded (p ∷ ps) (e ∷ es) =
      (p.0 ≡ e.topic) × (unmarshal_any e.event ≡ ok p.1) × AreDecoded ps es
  AreDecoded _ _ = ⊥

  abbrev pub IsRepublished : Published Event → List (Envelope Any) → Type 0
  IsRepublished r all =
      (es : List (Envelope Any)) × IsPrefix es all × AreDecoded r.0 es × (r.1 ≡ running → es ≡ all)

  nothing-IsRepublished :
      (x : Option Error) (all : List (Envelope Any)) → IsRepublished ([], sent x) all
  nothing-IsRepublished x all = ([], (all, refl), tt, λ r. cc)

  after_publish-IsRepublished :
      (e : Envelope Any) (event : Event) (answer : Option Error) (r : Published Event)
      (all : List (Envelope Any))
      → unmarshal_any e.event ≡ ok event
      → IsRepublished r all
      → IsRepublished (after_publish unmarshal_any (e.topic, event) answer r) (e ∷ all)
  after_publish-IsRepublished e event (some x) r all d h =
      (e ∷ [], (all, refl), (refl, d, tt), λ p. cc)
  after_publish-IsRepublished e event none r all d h =
      let (es, (rest, p), a, q) = h in
      (e ∷ es, (rest, ap (λ l. e ∷ l) p), (refl, d, a), λ k. ap (λ l. e ∷ l) (q k))

  abbrev republished_cases : List (Republishing Any) → List (Case Any)
  republished_cases = map (λ (t : Republishing Any). t.case)

  on_case-IsRepublished :
      (c : Case Any) (ctx_err answer : Option Error) (r : Published Event) (cs : List (Case Any))
      → IsRepublished r (events_of cs)
      → IsRepublished (on_case unmarshal_any c ctx_err answer r) (events_of (c ∷ cs))
  on_case-IsRepublished (received e) ctx_err answer r cs h =
      elim (Result-cases (unmarshal_any e.event)) [
        | inl (event, d) ↦ rw d (after_publish-IsRepublished e event answer r _ d h)
        | inr (x, bad) ↦ rw bad (nothing-IsRepublished (some x) _)
      ]
  on_case-IsRepublished (failed x) ctx_err answer r cs h = nothing-IsRepublished _ _
  on_case-IsRepublished done ctx_err answer r cs h = nothing-IsRepublished _ _

  republish-IsRepublished :
      (ts : List (Republishing Any))
      → IsRepublished (republish unmarshal_any ts) (events_of (republished_cases ts))
  unfolding republish
  republish-IsRepublished [] = ([], ([], refl), tt, λ r. refl)
  republish-IsRepublished (t ∷ ts) =
      on_case-IsRepublished t.case t.ctx_err t.answer _ (republished_cases ts)
        (republish-IsRepublished ts)

  -- Where the agent's replies are honest, and the shim's exchange hands out events of the shim itself
  -- (`own`) mixed in any way with a first part of what was forwarded to it: what is published to
  -- containerd is, decoded and with its topic, a mix of a first part of the shim's own events and a
  -- first part of the events that the agent's server took from its exchange, each in their order; none
  -- twice, none between left out, nothing else, whatever fails.
  pub events-delivered :
      (ls : List (Link Any)) (ts : List (Republishing Any)) (own forwarded : List (Envelope Any))
      → All IsHonest ls
      → IsPrefix forwarded (attach (map turn_of ls)).0
      → Mix own forwarded (events_of (republished_cases ts))
      → (es mine theirs : List (Envelope Any)) × IsPrefix mine own
        × IsPrefix theirs (events_of (cases_of ls))
        × Mix mine theirs es
        × AreDecoded (republish unmarshal_any ts).0 es
  events-delivered ls ts own forwarded honest handed mixed =
      let (left, all) = attach-IsDone ls honest in
      let (es, first, decoded, whole) = republish-IsRepublished ts in
      let (mine, theirs, a, b, m) = prefix-Mix es mixed first in
      (
        es,
        mine,
        theirs,
        a,
        trans-IsPrefix theirs _ _ b (trans-IsPrefix forwarded _ _ handed left),
        m,
        decoded,
      )

  -- Where, too, both loops still run and all that was forwarded was handed out: every event that the
  -- agent's server took, and every one of the shim's own, is published, decoded and with its topic.
  pub events-delivered_while_running :
      (ls : List (Link Any)) (ts : List (Republishing Any)) (own : List (Envelope Any))
      → All IsHonest ls
      → Mix own (attach (map turn_of ls)).0 (events_of (republished_cases ts))
      → (attach (map turn_of ls)).1 ≡ running
      → (republish unmarshal_any ts).1 ≡ running
      → (es : List (Envelope Any)) × Mix own (events_of (cases_of ls)) es
        × AreDecoded (republish unmarshal_any ts).0 es
  events-delivered_while_running ls ts own honest mixed a r =
      let (first, all) = attach-IsDone ls honest in
      let (es, more, decoded, whole) = republish-IsRepublished ts in
      (
        es,
        subst (λ l. Mix own (events_of (cases_of ls)) l) (sym (whole r))
            (subst (λ l. Mix own l (events_of (republished_cases ts))) (all a) mixed),
        decoded,
      )
