-- ===== src/ShimService/History.antt =====
-- runtime/service.go: what the handlers of a shim do to the VM in a whole life of the shim, in whatever
-- order the requests come and however the calls are answered.
pub mod Orderly
pub mod Quiet
use abschlussarbeit.Common.{
  ℕ, ◌+◌, ◌≤◌, ◌≡◌, refl, sym, ap, subst, ◌∙◌, String, Bool, true, false, ◌||◌, Option, none, some,
  List, [], ◌∷◌, arith, Error, Result, ok, err, if◌then◌else◌, Bool-cases, Option-cases, inl, inr,
  All, ◌⊎◌,
}
use abschlussarbeit.Common.Act.{Act, modify, wrapping, Leaves, bind-Leaves, ◌>>◌}
use abschlussarbeit.StubDrive.Create.{StubDrive}
use abschlussarbeit.TaskManager.{TaskManager, shutdown_if_empty}
use abschlussarbeit.ShimService.{
  crashes, shut_down, ShimCall, find_dir, start_steps, ask_all, mount_one, mount_drives,
  after_create, when_empty, act, nothing_to_kill, shutdown_actions, agent_shutdown, jailer_stop,
  jailer_close, jailer_stop_timeout, machine_wait, machine_start, publish_vm_start, publish_vm_stop,
  Service, World, ask, create_vm_once, create_vm, cleanup, shutdown, shutdown_request,
  shutdown_loop, cause, is_deadline, default_shutdown_timeout, stop_vm, wait_vm_ready,
  monitor_vm_exit,
}
use abschlussarbeit.ShimService.History.Orderly.{
  no_clean_up, no_start, count, is_vm_start, is_vm_stop, is_jailer_close, Summary, summary,
  IsCleaned, IsStarted, IsOrderly, none_yet, not_ready, begun, uncleaned, either-IsOrderly,
}
use abschlussarbeit.ShimService.History.Quiet.{
  is_quiet, ask-Leaves, create_vm_once-Leaves, shutdown_actions-Leaves,
}

-- A call of a handler, with all that it is told.
pub data Handling : Type 0 where
  creating : World → (exit_after : Bool) → Handling
  stopping : World → (timeout_seconds : ℕ) → Handling
  shutting_down : World → (now : Bool) → Handling
  vm_exited : World → Handling

unfoldable pub handle : Handling → Service → Service
handle (creating w exit_after) s = (create_vm w exit_after s).1
handle (stopping w timeout_seconds) s = (stop_vm w timeout_seconds s).1
handle (shutting_down w now) s = (shutdown_request w now s).1
handle (vm_exited w) s = monitor_vm_exit w s

unfoldable pub handle_all : List Handling → Service → Service
unfolding handle
handle_all [] s = s
handle_all (h ∷ hs) s = handle_all hs (handle h s)

module _ (w : World) where
  after_create-IsOrderly :
      (x : Result (Unit {0}) × Service)
      → x.1.start_once ≡ true
      → x.1.vm_ready ≡ false
      → IsOrderly (summary x.1)
      → IsOrderly (summary (after_create w x).1)
  unfolding ask
  after_create-IsOrderly (ok tt, t) a b o =
      let none_started = none_yet t.start_once t.vm_ready _ o.once_started b in
      record { once_cleaned = o.once_cleaned; once_started = rw a (ap (λ n. 1 + n) none_started) }
  after_create-IsOrderly (err e, t) a b o = elim (Bool-cases (is_deadline (cause e))) [
    | inl q ↦ rw q o
    | inr q ↦ rw q o
  ]

  create_vm-IsOrderly :
      (exit_after : Bool) (s : Service)
      → IsOrderly (summary s)
      → IsOrderly (summary (create_vm w exit_after s).1)
  unfolding create_vm
  create_vm-IsOrderly exit_after s o = elim (Bool-cases s.start_once) [
    | inl again ↦
        let e : (create_vm w exit_after s).1 ≡ s = rw again refl in
        subst (λ t. IsOrderly (summary t)) (sym e) o
    | inr first ↦
        let s' : Service = record s { start_once = true } in
        let kept = create_vm_once-Leaves w exit_after s' in
        let o' : IsOrderly (summary s') = record {
          once_cleaned = o.once_cleaned;
          once_started = begun s.start_once s.vm_ready _ o.once_started first;
        } in
        let e : (create_vm w exit_after s).1 ≡ (after_create w (create_vm_once w exit_after s')).1 =
          rw first refl in
        subst (λ t. IsOrderly (summary t)) (sym e)
          (after_create-IsOrderly (create_vm_once w exit_after s')
            (ap (λ (m : Summary). m.started) kept)
            (ap (λ (m : Summary). m.ready) kept
              ∙ not_ready s.start_once s.vm_ready _ o.once_started first)
            (subst IsOrderly (sym kept) o'))
  ]

  -- The first clean-up.
  cleaned_first :
      (s : Service)
      → s.cleanup_once ≡ none
      → (x : Option Error) × (summary (cleanup w s).1 ≡ record (summary s) {
        cleaned = some x;
        vm_stops = 1 + (summary s).vm_stops;
        closes = 1 + (summary s).closes;
      })
  unfolding cleanup ask
  cleaned_first s first = ((cleanup w s).0, rw first refl)

  cleanup-IsOrderly : (s : Service) → IsOrderly (summary s) → IsOrderly (summary (cleanup w s).1)
  unfolding cleanup ask
  cleanup-IsOrderly s o = elim (Option-cases s.cleanup_once) [
    | inl first ↦
        let (x, e) = cleaned_first s first in
        let (p, q) = uncleaned s.cleanup_once _ _ o.once_cleaned first in
        subst IsOrderly (sym e) (record {
          once_cleaned = (ap (λ n. 1 + n) p, ap (λ n. 1 + n) q);
          once_started = o.once_started;
        })
    | inr (e, again) ↦
        let kept : (cleanup w s).1 ≡ s = rw again refl in
        subst (λ t. IsOrderly (summary t)) (sym kept) o
  ]

  shutdown-IsOrderly :
      (timeout : ℕ) (s : Service)
      → IsOrderly (summary s)
      → IsOrderly (summary (shutdown w timeout s).1)
  unfolding shutdown shutdown_loop
  shutdown-IsOrderly timeout s o = elim (Bool-cases (crashes w s)) [
    | inl q ↦ rw q o
    | inr q ↦
        let t = shutdown_loop w timeout s in
        let kept : summary t ≡ summary s =
          shutdown_actions-Leaves w 0
            ((agent_shutdown, timeout) ∷ (jailer_stop, jailer_stop_timeout) ∷ []) s
            (refl, (refl, tt)) in
        rw (q, shut_down)
          (cleanup-IsOrderly (ask w machine_wait t).1
            (subst IsOrderly (sym (ask-Leaves w machine_wait refl t ∙ kept)) o))
  ]

  when_empty-IsOrderly :
      (p : Bool × TaskManager) (s : Service)
      → IsOrderly (summary s)
      → IsOrderly (summary (when_empty w p s).1)
  when_empty-IsOrderly (true, tasks) s o =
      shutdown-IsOrderly default_shutdown_timeout (record s { tasks = tasks }) o
  when_empty-IsOrderly (false, tasks) s o = o

  shutdown_request-IsOrderly :
      (now : Bool) (s : Service)
      → IsOrderly (summary s)
      → IsOrderly (summary (shutdown_request w now s).1)
  unfolding shutdown_request
  shutdown_request-IsOrderly true s o = shutdown-IsOrderly default_shutdown_timeout s o
  shutdown_request-IsOrderly false s o =
      either-IsOrderly s.exit_after_all_tasks_deleted _ _
        (when_empty-IsOrderly (shutdown_if_empty s.tasks) s o) o

  stop_vm-IsOrderly :
      (timeout : ℕ) (s : Service)
      → IsOrderly (summary s)
      → IsOrderly (summary (stop_vm w timeout s).1)
  unfolding stop_vm wait_vm_ready
  stop_vm-IsOrderly timeout s o = elim (Bool-cases (s.vm_ready || w.ready_in_time)) [
    | inl q ↦ rw q (shutdown-IsOrderly _ s o)
    | inr q ↦ rw q o
  ]

handle-IsOrderly :
    (h : Handling) (s : Service) → IsOrderly (summary s) → IsOrderly (summary (handle h s))
unfolding handle monitor_vm_exit
handle-IsOrderly (creating w exit_after) s o = create_vm-IsOrderly w exit_after s o
handle-IsOrderly (stopping w timeout) s o = stop_vm-IsOrderly w timeout s o
handle-IsOrderly (shutting_down w now) s o = shutdown_request-IsOrderly w now s o
handle-IsOrderly (vm_exited w) s o =
    cleanup-IsOrderly w (ask w machine_wait s).1
      (subst IsOrderly (sym (ask-Leaves w machine_wait refl s)) o)

handle_all-IsOrderly :
    (hs : List Handling) (s : Service)
    → IsOrderly (summary s)
    → IsOrderly (summary (handle_all hs s))
unfolding handle_all
handle_all-IsOrderly [] s o = o
handle_all-IsOrderly (h ∷ hs) s o = handle_all-IsOrderly hs (handle h s) (handle-IsOrderly h s o)

-- However the handlers of a new shim follow one another, and however their calls are answered: the
-- start of the VM is published exactly once if the VM became ready, and else never; the jailer is
-- closed, and the end of the VM published, exactly once if the shim was cleaned up, and else never.
-- Each handler runs without another between its steps.
pub life-IsOrderly :
    (hs : List Handling) (s : Service)
    → s.calls ≡ []
    → s.start_once ≡ false
    → s.vm_ready ≡ false
    → s.cleanup_once ≡ none
    → IsOrderly (summary (handle_all hs s))
life-IsOrderly hs s calls started ready cleaned = handle_all-IsOrderly hs s record {
  once_cleaned =
      no_clean_up s.cleanup_once _ _ cleaned (ap (count is_vm_stop) calls)
        (ap (count is_jailer_close) calls);
  once_started = no_start s.start_once s.vm_ready _ started ready (ap (count is_vm_start) calls);
}
