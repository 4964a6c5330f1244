-- ===== src/AgentService/Unwinding.antt =====
-- agent/service.go: `Create`, `Exec` and `Delete` as a whole, with their clean-ups.
use abschlussarbeit.Common.{
  String, true, not, ◌&&◌, List, [], ◌∷◌, ◌++◌, map, ◌≡◌, refl, sym, subst, ◌∙◌, ap, Result, ok,
  err, is_err, if◌then◌else◌, Bool-cases, Result-cases, inl, inr,
}
use abschlussarbeit.Common.Act.{pure, wrapping, close_on_error, wrap_result, continue}
use abschlussarbeit.Common.Bytes.{Bytes, bytes_eq, codes}
use abschlussarbeit.TaskManager.{Launch, delete_process}
use abschlussarbeit.TaskManager.View.{proc_at}
use abschlussarbeit.IoProxy.{IoProxy, is_agent_only_io}
use abschlussarbeit.Proto.{TaskRequest}
use abschlussarbeit.Bundle.{root_path, rootfs_path, vm_bundle_dir}
use abschlussarbeit.AgentService.{
  Cleanup, remove_all, AgentCall, cleaned, TaskService, Agent, do_cleanup, task_exec_id, unwind,
  managing,
}
use abschlussarbeit.AgentService.Methods.{create_guarded, create, exec_guarded, exec, delete}
use abschlussarbeit.AgentService.Cleanups.{IsMore, IsUndone, if_ok, do_cleanup_lem}
use abschlussarbeit.AgentService.Failing.{create_guarded-IsUndone, exec_guarded-IsUndone}
use abschlussarbeit.AgentService.Registering.{rootfs_cleanups, fifo_removals}

-- Some calls were made that are no clean-ups, and then all the clean-ups of a process were run, those
-- registered before and `mine`, each once and the newest first; none of them is left, those of other
-- processes are, and no task shows a change.
abbrev pub IsUnwound : Bytes → List Cleanup → TaskService → TaskService → Type 0
IsUnwound key mine s t =
    ((before : List AgentCall) × IsMore s.calls before
      × (t.calls ≡ map cleaned (s.exec_cleanups key ++ mine) ++ before))
    × ((other : Bytes)
        → t.exec_cleanups other ≡ (if bytes_eq key other then [] else s.exec_cleanups other))
    × ((u e : String) → proc_at u e t.manager ≡ proc_at u e s.manager)

-- What a `Create` has to clean up, the oldest first: nothing before its extra data was read, then the
-- bundle, and the mount of the root file system once that was seen to be a directory.
abbrev pub create_cleanups : Agent → TaskRequest → List AgentCall → List Cleanup
create_cleanups agent req calls = if_ok (agent.unmarshal req.options) (λ _.
    remove_all (root_path req.bundle)
    ∷ rootfs_cleanups (rootfs_path req.bundle) (agent.stat calls (rootfs_path req.bundle)))

-- What an `Exec` has to clean up: where the streams are copied and there are FIFOs, the one of each
-- stream that the request names.
abbrev pub exec_cleanups : Agent → TaskRequest → List AgentCall → List Cleanup
exec_cleanups agent req calls = if_ok (agent.unmarshal req.options) (λ _.
    if is_agent_only_io (agent.url_scheme req.stdout)
    then []
    else if_ok (agent.new_fifo_set calls (root_path (vm_bundle_dir (codes req.id))))
        (fifo_removals req))

module _ (agent : Agent) {A : Type 0} where
  unwind-IsUnwound :
      (key : Bytes) (mine : List Cleanup) (s : TaskService) (x : Result A × TaskService)
      → IsUndone key mine s x
      → is_err (close_on_error x.0 (unwind agent key) x.1).0 ≡ true
      → IsUnwound key mine s (close_on_error x.0 (unwind agent key) x.1).1
  unwind-IsUnwound key mine s (ok a, t) u h = absurd (cc)
  unwind-IsUnwound key mine s (err e, t) u h =
      let c = do_cleanup_lem agent key t in
      unfold unwind in
      (
        (t.calls, u.called, c.0 ∙ ap (λ l. map cleaned l ++ t.calls) u.registered),
        λ other. elim (Bool-cases (bytes_eq key other)) [
          | inl same ↦ c.1 other ∙ rw same refl
          | inr differ ↦ c.1 other ∙ rw differ (u.others other differ)
        ],
        λ a b. ap (λ m. proc_at a b m) c.2 ∙ u.undone refl a b,
      )

  module _ (launch : TaskRequest → IoProxy → Launch A) (req : TaskRequest) (s : TaskService)
      (key : Bytes) where
    -- A `Create` with a valid ID that fails, wherever it does, has run every clean-up under its ID
    -- once, those of this call (for the bundle, and for the root file system if that is a directory)
    -- and those registered before it, the newest first. It leaves none of them registered, those of
    -- other processes alone, and every process of every task where it was.
    pub create-IsUnwound :
        task_exec_id agent.validate req.id "" ≡ ok key
        → is_err (create agent launch req s).0 ≡ true
        → IsUnwound key (create_cleanups agent req s.calls) s (create agent launch req s).1
    unfolding create
    create-IsUnwound k =
        rw (k, wrap_result, continue)
          (unwind-IsUnwound key _ s (create_guarded agent launch key req s)
            (create_guarded-IsUndone agent key launch req s))

    -- An `Exec` with valid IDs that fails, wherever it does, has run every clean-up under its IDs once,
    -- those of this call (one for the FIFO of each stream that the request names, if there are FIFOs)
    -- and those registered before it, the newest first. It leaves none of them registered, those of
    -- other processes alone, and every process of every task where it was.
    pub exec-IsUnwound :
        task_exec_id agent.validate req.id req.exec_id ≡ ok key
        → is_err (exec agent launch req s).0 ≡ true
        → IsUnwound key (exec_cleanups agent req s.calls) s (exec agent launch req s).1
    unfolding exec
    exec-IsUnwound k =
        rw (k, wrap_result, continue)
          (unwind-IsUnwound key _ s (exec_guarded agent launch key req s)
            (exec_guarded-IsUndone agent key launch req s))

  continue-pure :
      (r : Result (Unit {0})) (a : A) (s : TaskService) → (continue r (λ _. pure a) s).1 ≡ s
  continue-pure (ok x) a s = refl
  continue-pure (err e) a s = refl

  -- `Delete` with valid IDs does to the task manager what `DeleteProcess` does. Exactly if that
  -- succeeds, all the clean-ups of the process are run, the newest first, and forgotten; else no
  -- clean-up is run or forgotten. Those of other processes stay.
  pub delete_lem :
      (t e : String) (service : Result A) (s : TaskService) (key : Bytes)
      → task_exec_id agent.validate t e ≡ ok key
      → let gone = not (is_err (delete_process t e service s.manager).0) in
        let after = (delete agent t e service s).1 in
        (after.manager ≡ (delete_process t e service s.manager).1)
        × (after.calls ≡ (if gone then map cleaned (s.exec_cleanups key) ++ s.calls else s.calls))
        × ((other : Bytes)
            → after.exec_cleanups other
              ≡ (if gone && bytes_eq key other then [] else s.exec_cleanups other))
  unfolding delete
  delete_lem t e service s key k = elim (Result-cases (delete_process t e service s.manager).0) [
    | inl (a, good) ↦
        let u = (managing (delete_process t e service) s).1 in
        let done = wrapping "failed to cleanup task %q exec %q" (do_cleanup agent key) u in
        let c = do_cleanup_lem agent key u in
        rw (k, wrap_result, continue)
          (rw (good, continue)
            (subst
              (λ v.
                (v.manager ≡ u.manager)
                × (v.calls ≡ map cleaned (s.exec_cleanups key) ++ s.calls)
                × ((other : Bytes)
                    → v.exec_cleanups other
                      ≡ (if bytes_eq key other then [] else s.exec_cleanups other)))
              (sym (continue-pure done.0 a done.1)) (c.2, c.0, c.1)))
    | inr (x, bad) ↦ rw (k, wrap_result, continue) (rw (bad, continue) (refl, refl, λ other. refl))
  ]
