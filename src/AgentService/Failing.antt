-- ===== src/AgentService/Failing.antt =====
-- agent/service.go: what a `Create` or an `Exec` that fails leaves behind.
use abschlussarbeit.Common.{
  String, [], ◌∷◌, ◌++◌, ◌≡◌, refl, sym, ◌∙◌, Result, ok, err, is_err, Bool-cases, Result-cases,
  inl, inr, Bool, true, false, List, subst, ap, if◌then◌else◌,
}
use abschlussarbeit.Common.Act.{Act, wrapping, wrap_result, continue}
use abschlussarbeit.Common.Bytes.{Bytes, codes}
use abschlussarbeit.TaskManager.{Launch, create_task, exec_process}
use abschlussarbeit.TaskManager.Launching.{exec_process_rolls_back, create_task-eq-exec_process}
use abschlussarbeit.IoProxy.{IoProxy, is_agent_only_io}
use abschlussarbeit.Bundle.{vm_bundle_dir, Dir, root_path, rootfs_path}
use abschlussarbeit.Proto.{TaskRequest, ExtraData}
use abschlussarbeit.AgentService.{
  AgentCall, stat, must_be_dir, Cleanup, remove_all, unmount_all, FifoSet, TaskService, Agent,
  add_cleanup, fifo_cleanup, stat_rootfs, write_oci_config, fifo_set, choose_proxy,
  exec_cleanups_of, noting, managing, new_fifo_set_in_dir,
}
use abschlussarbeit.AgentService.Methods.{
  create_task_with_io, create_with_spec, create_on_rootfs, create_in_bundle, create_guarded,
  exec_with_io, exec_guarded,
}
use abschlussarbeit.AgentService.Cleanups.{
  IsStep, IsQuiet, IsUndone, if_ok, no_call, still, after-IsQuiet, continue-IsUndone,
}
use mathlib.Core.List.{append-nil}
use abschlussarbeit.AgentService.Registering.{
  add_cleanup-IsQuiet, fifo_cleanup-IsQuiet, fifo_removals, if_ok-nil, if_ok-wrap, rootfs_cleanups,
  trans-IsQuiet,
}

module _ (agent : Agent) (key : Bytes) where
  -- A call that is noted, and no more.
  noting-IsQuiet : (c : AgentCall) (s : TaskService) → IsStep c → IsQuiet key [] s (noting c s)
  noting-IsQuiet c s h = still key s (noting c s) refl refl (c ∷ [], refl, (h, tt))

  -- What is registered where the IO is chosen, if `more` is what the FIFOs bring.
  abbrev pub io_cleanups :
      Dir → TaskRequest → (FifoSet → List Cleanup) → List AgentCall → List Cleanup
  io_cleanups dir req more calls =
      if is_agent_only_io (agent.url_scheme req.stdout)
      then []
      else if_ok (agent.new_fifo_set calls (root_path dir)) more

  choose_proxy-IsQuiet :
      (dir : Dir) (extra : ExtraData Bytes) (req : TaskRequest) (more : FifoSet → List Cleanup)
      (after : FifoSet → TaskService → TaskService)
      → ((fifos : FifoSet) (s : TaskService) → IsQuiet key (more fifos) s (after fifos s))
      → (s : TaskService)
      → IsQuiet key
          (io_cleanups dir req more s.calls)
          s
          (choose_proxy agent key dir extra req after s).1
  unfolding choose_proxy fifo_set
  choose_proxy-IsQuiet dir extra req more after h s =
      elim (Bool-cases (is_agent_only_io (agent.url_scheme req.stdout))) [
        | inl only ↦ rw only (still key s s refl refl (no_call s.calls))
        | inr copied ↦ rw copied (elim (Result-cases (agent.new_fifo_set s.calls (root_path dir))) [
          | inl (fifos, e) ↦
              let c = new_fifo_set_in_dir (root_path dir) key req.terminal in
              let t : TaskService = noting c s in
              rw (e, wrap_result, continue)
                (trans-IsQuiet key [] (more fifos) s t (after fifos t) (noting-IsQuiet c s tt)
                  (h fifos t))
          | inr (x, e) ↦ rw (e, wrap_result, continue) (noting-IsQuiet _ s tt)
        ])
      ]

  io_cleanups-nil :
      (dir : Dir) (req : TaskRequest) (calls : List AgentCall)
      → io_cleanups dir req (λ _. []) calls ≡ []
  io_cleanups-nil dir req calls =
      elim (Bool-cases (is_agent_only_io (agent.url_scheme req.stdout))) [
        | inl only ↦ rw only refl
        | inr copied ↦ rw copied (if_ok-nil (agent.new_fifo_set calls (root_path dir)))
      ]

  module _ {A : Type 0} where
    exec_process-IsUndone :
        (t e : String) (l : Launch A) (s : TaskService)
        → IsUndone key [] s (managing (exec_process t e l) s)
    exec_process-IsUndone t e l s = record {
      registered = sym (append-nil (s.exec_cleanups key));
      others = λ other d. refl;
      undone = λ h. (exec_process_rolls_back t e l s.manager h).0;
      called = no_call s.calls;
    }

    wrap_result-is_err : (msg : String) (r : Result A) → is_err (wrap_result msg r) ≡ is_err r
    wrap_result-is_err msg (ok a) = refl
    wrap_result-is_err msg (err e) = refl

    wrapping-IsUndone :
        (msg : String) (xs : List Cleanup) (m : Act TaskService A) (s : TaskService)
        → IsUndone key xs s (m s)
        → IsUndone key xs s (wrapping msg m s)
    wrapping-IsUndone msg xs m s u = record {
      registered = u.registered;
      others = u.others;
      undone = λ h. u.undone (sym (wrap_result-is_err msg (m s).0) ∙ h);
      called = u.called;
    }

    create_task-IsUndone :
        (t : String) (l : Launch A) (s : TaskService)
        → IsUndone key [] s (managing (create_task t l) s)
    create_task-IsUndone t l s =
        rw (create_task-eq-exec_process t l s.manager) (exec_process-IsUndone t "" l s)

  module _ {A : Type 0} (launch : TaskRequest → IoProxy → Launch A) where
    create_task_with_io-IsUndone :
        (extra : ExtraData Bytes) (req : TaskRequest) (s : TaskService)
        → IsUndone key [] s (create_task_with_io agent launch key extra req s)
    unfolding create_task_with_io
    create_task_with_io-IsUndone extra req s =
        let x = choose_proxy agent key req.bundle extra req (λ fifos t. t) s in
        let y : TaskRequest × IoProxy → Act TaskService A = λ y.
          wrapping "failed to create runc shim" (managing (create_task y.0.id (launch y.0 y.1))) in
        subst (λ l. IsUndone key l s (continue x.0 y x.1))
          (append-nil _ ∙ io_cleanups-nil req.bundle req s.calls)
          (subst
            (λ l.
              IsUndone key (io_cleanups req.bundle req (λ _. []) s.calls ++ l) s
                (continue x.0 y x.1))
            (if_ok-nil x.0)
            (continue-IsUndone key (io_cleanups req.bundle req (λ _. []) s.calls) (λ _. []) x.0 x.1
              y s
              (choose_proxy-IsQuiet req.bundle extra req (λ _. []) (λ fifos t. t)
                (λ fifos t. still key t t refl refl (no_call t.calls)) s)
              (λ z.
                wrapping-IsUndone "failed to create runc shim" []
                  (managing (create_task z.0.id (launch z.0 z.1))) x.1
                  (create_task-IsUndone z.0.id (launch z.0 z.1) x.1))))

    create_with_spec-IsUndone :
        (extra : ExtraData Bytes) (req : TaskRequest) (s : TaskService)
        → IsUndone key [] s (create_with_spec agent launch key extra req s)
    unfolding create_with_spec write_oci_config
    create_with_spec-IsUndone extra req s =
        let x =
          wrapping "failed to write oci config file"
            (write_oci_config agent req.bundle extra.json_spec) s in
        subst
          (λ l.
            IsUndone key l s
              (continue x.0 (λ _. create_task_with_io agent launch key extra req) x.1))
          (if_ok-nil x.0)
          (continue-IsUndone key [] (λ _. []) x.0 x.1
            (λ _. create_task_with_io agent launch key extra req) s (noting-IsQuiet _ s tt)
            (λ _. create_task_with_io-IsUndone extra req x.1))

    stat_cleanups :
        (path : Bytes) (r : Result Bool)
        → if_ok (must_be_dir agent r) (λ _. unmount_all path ∷ []) ≡ rootfs_cleanups path r
    stat_cleanups path (ok true) = refl
    stat_cleanups path (ok false) = refl
    stat_cleanups path (err e) = refl

    create_on_rootfs-IsUndone :
        (extra : ExtraData Bytes) (req : TaskRequest) (s : TaskService)
        → IsUndone key
            (rootfs_cleanups (rootfs_path req.bundle) (agent.stat s.calls (rootfs_path req.bundle)))
            s
            (create_on_rootfs agent launch key extra req s)
    unfolding create_on_rootfs stat_rootfs
    create_on_rootfs-IsUndone extra req s =
        let x = stat_rootfs agent (rootfs_path req.bundle) s in
        let c = unmount_all (rootfs_path req.bundle) in
        let t = add_cleanup key c x.1 in
        let g : Unit {0} → Act TaskService A =
          λ _ u. create_with_spec agent launch key extra req (add_cleanup key c u) in
        subst (λ l. IsUndone key l s (continue x.0 g x.1))
          (stat_cleanups (rootfs_path req.bundle) (agent.stat s.calls (rootfs_path req.bundle)))
          (continue-IsUndone key [] (λ _. c ∷ []) x.0 x.1 g s
            (noting-IsQuiet (stat (rootfs_path req.bundle)) s tt)
            (λ _.
              after-IsQuiet key (c ∷ []) [] x.1 t (create_with_spec agent launch key extra req t)
                (add_cleanup-IsQuiet key c x.1) (create_with_spec-IsUndone extra req t)))

    abbrev bundle_cleanups : TaskRequest → List AgentCall → List Cleanup
    bundle_cleanups req calls =
        remove_all (root_path req.bundle)
        ∷ rootfs_cleanups (rootfs_path req.bundle) (agent.stat calls (rootfs_path req.bundle))

    create_in_bundle-IsUndone :
        (extra : ExtraData Bytes) (req : TaskRequest) (s : TaskService)
        → IsUndone key
            (bundle_cleanups req s.calls)
            s
            (create_in_bundle agent launch key req extra s)
    unfolding create_in_bundle add_cleanup
    create_in_bundle-IsUndone extra req s =
        let c = remove_all (root_path req.bundle) in
        let t = add_cleanup key c s in
        let req' : TaskRequest = record req { options = extra.runc_options } in
        after-IsQuiet key (c ∷ []) _ s t (create_on_rootfs agent launch key extra req' t)
          (add_cleanup-IsQuiet key c s) (create_on_rootfs-IsUndone extra req' t)

    pub create_guarded-IsUndone :
        (req : TaskRequest) (s : TaskService)
        → IsUndone key
            (if_ok (agent.unmarshal req.options) (λ _. bundle_cleanups req s.calls))
            s
            (create_guarded agent launch key req s)
    unfolding create_guarded
    create_guarded-IsUndone req s =
        let x = wrap_result "failed to unmarshal extra data" (agent.unmarshal req.options) in
        subst (λ l. IsUndone key l s (continue x (create_in_bundle agent launch key req) s))
          (if_ok-wrap "failed to unmarshal extra data" (agent.unmarshal req.options)
            (λ _. bundle_cleanups req s.calls))
          (continue-IsUndone key [] (λ _. bundle_cleanups req s.calls) x s
            (create_in_bundle agent launch key req) s (still key s s refl refl (no_call s.calls))
            (λ extra. create_in_bundle-IsUndone extra req s))

    exec_cleanups_of-IsQuiet :
        (req : TaskRequest) (fifos : FifoSet) (s : TaskService)
        → IsQuiet key (fifo_removals req fifos) s (exec_cleanups_of key req fifos s)
    unfolding exec_cleanups_of
    exec_cleanups_of-IsQuiet req fifos s =
        let t = fifo_cleanup key req.stdin fifos.stdin s in
        let u = fifo_cleanup key req.stdout fifos.stdout t in
        trans-IsQuiet key _ _ s t (fifo_cleanup key req.stderr fifos.stderr u)
          (fifo_cleanup-IsQuiet key req.stdin fifos.stdin s)
          (trans-IsQuiet key _ _ t u (fifo_cleanup key req.stderr fifos.stderr u)
            (fifo_cleanup-IsQuiet key req.stdout fifos.stdout t)
            (fifo_cleanup-IsQuiet key req.stderr fifos.stderr u))

    abbrev exec_io_cleanups : TaskRequest → List AgentCall → List Cleanup
    exec_io_cleanups req = io_cleanups (vm_bundle_dir (codes req.id)) req (fifo_removals req)

    exec_with_io-IsUndone :
        (req : TaskRequest) (extra : ExtraData Bytes) (s : TaskService)
        → IsUndone key (exec_io_cleanups req s.calls) s (exec_with_io agent launch key req extra s)
    unfolding exec_with_io
    exec_with_io-IsUndone req extra s =
        let req' : TaskRequest = record req { options = extra.runc_options } in
        let dir = vm_bundle_dir (codes req.id) in
        let x = choose_proxy agent key dir extra req' (exec_cleanups_of key req) s in
        let g : TaskRequest × IoProxy → Act TaskService A =
          λ y. managing (exec_process y.0.id y.0.exec_id (launch y.0 y.1)) in
        subst (λ l. IsUndone key l s (continue x.0 g x.1))
          (ap (λ l. exec_io_cleanups req s.calls ++ l) (if_ok-nil x.0) ∙ append-nil _)
          (continue-IsUndone key (exec_io_cleanups req s.calls) (λ _. []) x.0 x.1 g s
            (choose_proxy-IsQuiet dir extra req' (fifo_removals req) (exec_cleanups_of key req)
              (exec_cleanups_of-IsQuiet req) s)
            (λ y. exec_process-IsUndone y.0.id y.0.exec_id (launch y.0 y.1) x.1))

    pub exec_guarded-IsUndone :
        (req : TaskRequest) (s : TaskService)
        → IsUndone key
            (if_ok (agent.unmarshal req.options) (λ _. exec_io_cleanups req s.calls))
            s
            (exec_guarded agent launch key req s)
    unfolding exec_guarded
    exec_guarded-IsUndone req s =
        let x = wrap_result "failed to unmarshal extra data" (agent.unmarshal req.options) in
        subst (λ l. IsUndone key l s (continue x (exec_with_io agent launch key req) s))
          (if_ok-wrap "failed to unmarshal extra data" (agent.unmarshal req.options)
            (λ _. exec_io_cleanups req s.calls))
          (continue-IsUndone key [] (λ _. exec_io_cleanups req s.calls) x s
            (exec_with_io agent launch key req) s (still key s s refl refl (no_call s.calls))
            (λ extra. exec_with_io-IsUndone req extra s))
