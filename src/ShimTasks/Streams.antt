-- ===== src/ShimTasks/Streams.antt =====
-- runtime/service.go and agent/service.go together: the shim's ends of a process's streams and the
-- agent's.
use abschlussarbeit.Common.{
  ℕ, Option, none, some, List, [], ◌∷◌, ◌≡◌, refl, subst, sym, ◌∙◌, Result, ok, if◌then◌else◌,
  Bool-cases, Result-cases, inl, inr, arith,
}
use abschlussarbeit.Common.Act.{wrap_result, continue}
use abschlussarbeit.Common.Bytes.{Bytes}
use abschlussarbeit.Bundle.{root_path}
use abschlussarbeit.Proto.{ExtraData, TaskRequest}
use abschlussarbeit.IoProxy.{
  read_fifo, write_fifo, vsock_dial, vsock_accept, IoConnectorPair, IoProxy, connector_set,
  null_io_proxy, is_agent_only_io,
}
use abschlussarbeit.AgentService.{
  Agent, FifoSet, TaskService, agent_proxy, choose_proxy, fifo_set, unless_empty, with_fifos,
}
use abschlussarbeit.VmDir.{firecracker_vsock_rel_path}
use abschlussarbeit.ShimTasks.{ShimHost, shim_proxy, new_io_proxy}

-- The shim's pair and the agent's pair of a stream towards the process: from a FIFO through a vsock
-- port, which the shim dials and the agent accepts, to a FIFO in the VM.
pub data Inward : ℕ → Option IoConnectorPair → Option IoConnectorPair → Type 0 where
  unset : (port : ℕ) → Inward port none none
  joined :
      (port : ℕ) (fifo path fifo' : Bytes)
      → Inward port
          (some
            (record { read_connector = read_fifo fifo; write_connector = vsock_dial path port }))
          (some (record { read_connector = vsock_accept port; write_connector = write_fifo fifo' }))

-- ... and of a stream from the process.
pub data Outward : ℕ → Option IoConnectorPair → Option IoConnectorPair → Type 0 where
  unset : (port : ℕ) → Outward port none none
  joined :
      (port : ℕ) (fifo path fifo' : Bytes)
      → Outward port
          (some
            (record { read_connector = vsock_dial path port; write_connector = write_fifo fifo }))
          (some (record { read_connector = read_fifo fifo'; write_connector = vsock_accept port }))

-- The two proxies of a process fit together.
pub data Meets (extra : ExtraData Bytes) : IoProxy → IoProxy → Type 0 where
  agent_only : Meets extra null_io_proxy null_io_proxy
  streams :
      (a b c a' b' c' : Option IoConnectorPair)
      → Inward extra.stdin_port a a'
      → Outward extra.stdout_port b b'
      → Outward extra.stderr_port c c'
      → Meets extra (connector_set a b c) (connector_set a' b' c')

stdin_meets :
    (port : ℕ) (asked path fifo' : Bytes)
    → Inward port
        (unless_empty asked
          (record { read_connector = read_fifo asked; write_connector = vsock_dial path port }))
        (unless_empty asked
          (record { read_connector = vsock_accept port; write_connector = write_fifo fifo' }))
stdin_meets port [] path fifo' = Inward.unset port
stdin_meets port (c ∷ asked) path fifo' = Inward.joined port (c ∷ asked) path fifo'

output_meets :
    (port : ℕ) (asked path fifo' : Bytes)
    → Outward port
        (unless_empty asked
          (record { read_connector = vsock_dial path port; write_connector = write_fifo asked }))
        (unless_empty asked
          (record { read_connector = read_fifo fifo'; write_connector = vsock_accept port }))
output_meets port [] path fifo' = Outward.unset port
output_meets port (c ∷ asked) path fifo' = Outward.joined port (c ∷ asked) path fifo'

proxies_meet :
    (path : Bytes) (extra : ExtraData Bytes) (fifos : FifoSet) (req : TaskRequest)
    → Meets extra (shim_proxy path extra req) (agent_proxy extra fifos req)
unfolding shim_proxy agent_proxy
proxies_meet path extra fifos req =
    streams _ _ _ _ _ _ (stdin_meets extra.stdin_port req.stdin path fifos.stdin)
      (output_meets extra.stdout_port req.stdout path fifos.stdout)
      (output_meets extra.stderr_port req.stderr path fifos.stderr)

module _ (host : ShimHost) (agent : Agent)
    (same_url : (path : Bytes) → agent.url_scheme path ≡ host.url_scheme path) where
  new_io_proxy_ok :
      (extra : ExtraData Bytes) (req : TaskRequest) (p : IoProxy)
      → new_io_proxy host extra req ≡ ok p
      → (path : Bytes) × (p ≡ (
          if is_agent_only_io (host.url_scheme req.stdout)
          then null_io_proxy
          else shim_proxy path extra req))
  unfolding new_io_proxy
  new_io_proxy_ok extra req p h =
      elim (Result-cases (firecracker_vsock_rel_path host.paths host.jail_path)) [
        | inl (path, e) ↦ (path, ground arith)
        | inr (x, e) ↦ absurd (ground arith)
      ]

  choose_proxy_ok :
      (key dir : Bytes) (extra : ExtraData Bytes) (req r : TaskRequest) (p : IoProxy)
      (after : FifoSet → TaskService → TaskService) (s : TaskService)
      → (choose_proxy agent key dir extra req after s).0 ≡ ok (r, p)
      → (fifos : FifoSet) × (p ≡ (
          if is_agent_only_io (agent.url_scheme req.stdout)
          then null_io_proxy
          else agent_proxy extra fifos req))
  unfolding choose_proxy fifo_set
  choose_proxy_ok key dir extra req r p after s h =
      elim (Bool-cases (is_agent_only_io (agent.url_scheme req.stdout))) [
        | inl only ↦
            let e : ◌≡◌ {A = Result (TaskRequest × IoProxy)} (ok (req, null_io_proxy)) (ok (r, p)) =
              rw only at h in
            (record { stdin = []; stdout = []; stderr = [] }, rw only (ground arith))
        | inr copied ↦ elim (Result-cases (agent.new_fifo_set s.calls (root_path dir))) [
          | inl (fifos, o) ↦
              let e : ◌≡◌ {A = Result (TaskRequest × IoProxy)}
                  (ok (with_fifos fifos req, agent_proxy extra fifos req)) (ok (r, p)) =
                rw (o, wrap_result, continue) at (rw copied at h) in
              (fifos, rw copied (ground arith))
          | inr (x, o) ↦ absurd (cc (rw (o, wrap_result, continue) at (rw copied at h)))
        ]
      ]

  -- The shim's proxy of a process and the agent's fit together: if both are made, from the same
  -- ports and from the request's paths for the streams, then either both are empty, because the
  -- output stays in the VM, or for each stream either both sides leave it out, or the shim dials
  -- the port that the agent accepts on, and data flow the same way on both sides.
  pub proxies-Meet :
      (key dir bundle : Bytes) (rootfs : List Bytes) (options : Option Bytes)
      (extra : ExtraData Bytes) (req r : TaskRequest) (p q : IoProxy)
      (after : FifoSet → TaskService → TaskService) (s : TaskService)
      → new_io_proxy host extra req ≡ ok p
      → (choose_proxy agent key dir extra
          (record req { bundle = bundle; rootfs = rootfs; options = options })
          after
          s).0
        ≡ ok (r, q)
      → Meets extra p q
  unfolding shim_proxy agent_proxy
  proxies-Meet key dir bundle rootfs options extra req r p q after s h k =
      let (path, a) = new_io_proxy_ok extra req p h in
      let (fifos, b) =
        choose_proxy_ok key dir extra
          (record req { bundle = bundle; rootfs = rootfs; options = options }) r q after s k in
      elim (Bool-cases (is_agent_only_io (host.url_scheme req.stdout))) [
        | inl only ↦
            subst (λ x. Meets extra x q) (sym (a ∙ rw only refl))
              (subst (λ x. Meets extra null_io_proxy x)
                (sym (b ∙ rw (same_url req.stdout, only) refl)) agent_only)
        | inr copied ↦
            subst (λ x. Meets extra x q) (sym (a ∙ rw copied refl))
              (subst (λ x. Meets extra (shim_proxy path extra req) x)
                (sym (b ∙ rw (same_url req.stdout, copied) refl))
                (proxies_meet path extra fifos
                  (record req { bundle = bundle; rootfs = rootfs; options = options })))
      ]
