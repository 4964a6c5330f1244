-- ===== src/ShimTasks/Drives.antt =====
-- runtime/service.go: what `Create` and `Delete` do to the stub drives and to the tasks.
use abschlussarbeit.Common.{
  String, true, false, Option, none, some, [], ◌==◌, ◌≡◌, refl, sym, ◌∙◌, ap, subst, ◌⊎◌, inl, inr,
  Result, ok, err, is_err, if◌then◌else◌, Result-cases, ◌&&◌, not, ◌||◌,
}
use abschlussarbeit.Common.Act.{Act, wrapping, wrap_result, continue, ◌>>=◌, ◌>>◌}
use abschlussarbeit.Common.Bytes.{Bytes, codes}
use abschlussarbeit.TaskManager.{VmProc, TaskManager, Launch, create_task, delete_process, is_some}
use abschlussarbeit.TaskManager.View.{proc_at, may_add, fresh}
use abschlussarbeit.TaskManager.Launching.{
  exec_process_rolls_back, exec_process_lands, create_task-eq-exec_process, delete_process_lem,
}
use abschlussarbeit.StubDrive.Handler.{Vm, reserve}
use abschlussarbeit.StubDrive.Handler.Outcomes.{Reserved, reserve_outcome}
use abschlussarbeit.Proto.{TaskRequest}
use abschlussarbeit.IoProxy.{IoProxy}
use abschlussarbeit.Bundle.{rootfs_path, vm_bundle_dir}
use abschlussarbeit.ShimTasks.Steps.{core, find_rootfs-Leaves, prepare_io-Leaves}
use abschlussarbeit.ShimTasks.{
  ShimTasks, ShimHost, managing, oci_config_bytes, prepare_io, find_rootfs, reserve_drive,
  create_reserved, create, sent,
}
use abschlussarbeit.ShimTasks.Deletion.{delete}

-- What the rest of `Create` may do once the container has its drive, from the drives and the tasks
-- that it starts with.
record IsRest {A : Type 0} (req : TaskRequest) (c : Vm × TaskManager) (x : Result A × ShimTasks)
    : Type 0 where
  kept : x.1.drives ≡ c.0
  failed : is_err x.0 ≡ true → (u f : String) → proc_at u f x.1.manager ≡ proc_at u f c.1
  landed :
      is_err x.0 ≡ false
      → (may_add req.id "" c.1 ≡ true)
        × ((u f : String)
            → proc_at u f x.1.manager
              ≡ (if req.id == u && "" == f then some (fresh req.id "" c.1) else proc_at u f c.1))

continue-IsRest :
    {A B : Type 0} (req : TaskRequest) (r : Result A) (t : ShimTasks) (g : A → Act ShimTasks B)
    (s : ShimTasks)
    → core t ≡ core s
    → ((a : A) → IsRest req (core t) (g a t))
    → IsRest req (core s) (continue r g t)
continue-IsRest req (ok a) t g s c h = subst (λ x. IsRest req x (g a t)) c (h a)
continue-IsRest req (err e) t g s c h = record {
  kept = ap (λ (x : Vm × TaskManager). x.0) c;
  failed = λ _ u f. ap (λ (x : Vm × TaskManager). proc_at u f x.1) c;
  landed = λ k. absurd (cc);
}

wrap_result-is_err :
    {A : Type 0} (msg : String) (r : Result A) → is_err (wrap_result msg r) ≡ is_err r
wrap_result-is_err msg (ok a) = refl
wrap_result-is_err msg (err e) = refl

create_task-IsRest :
    {A : Type 0} (msg : String) (req : TaskRequest) (l : Launch A) (s : ShimTasks)
    → IsRest req (core s) (wrapping msg (managing (create_task req.id l)) s)
create_task-IsRest msg req l s = rw (create_task-eq-exec_process req.id l s.manager) (record {
  kept = refl;
  failed =
      λ h. (exec_process_rolls_back req.id "" l s.manager (sym (wrap_result-is_err msg _) ∙ h)).0;
  landed = λ h.
      let k = exec_process_lands req.id "" l s.manager (sym (wrap_result-is_err msg _) ∙ h) in
      (k.0, k.2);
})

refused :
    {B : Type 0} (service : Result B) (r : Result B) (a : B) {o : Option VmProc}
    → is_err r ≡ (is_err service || not (is_some o))
    → o ≡ none
    → r ≡ ok a
    → ⊥
refused (ok b) r a p q e = cc
refused (err x) r a p q e = cc

-- `Delete` of a process that is not there.
delete_absent :
    {B : Type 0} (host : ShimHost) (t e : String) (service : Result B) (s : ShimTasks)
    → proc_at t e s.manager ≡ none
    → (is_err (delete host t e service s).0 ≡ true)
      × ((delete host t e service s).1.drives ≡ s.drives)
unfolding delete
delete_absent host t e service s h = elim (Result-cases (delete_process t e service s.manager).0) [
  | inl (a, good) ↦ absurd (refused service _ a (delete_process_lem t e service s.manager).0 h good)
  | inr (x, bad) ↦ rw (bad, continue) (refl, refl)
]

module _ (host : ShimHost) {A : Type 0} (launch : TaskRequest → IoProxy → Launch A)
    (req : TaskRequest) where
  create_reserved-IsRest : (s : ShimTasks) → IsRest req (core s) (create_reserved host launch req s)
  unfolding create_reserved oci_config_bytes
  create_reserved-IsRest s =
      let x = oci_config_bytes host req.bundle s in
      continue-IsRest req x.0 x.1
        (λ json. prepare_io host json req >>= λ y.
          wrapping "failed to create task"
            (managing (create_task req.id (launch (sent host launch req y.0) y.1))))
        s refl
        (λ json.
          let y = prepare_io host json req x.1 in
          continue-IsRest req y.0 y.1
            (λ z.
              wrapping "failed to create task"
                (managing (create_task req.id (launch (sent host launch req z.0) z.1))))
            x.1 (prepare_io-Leaves host json req x.1)
            (λ z.
              create_task-IsRest "failed to create task" req (launch (sent host launch req z.0) z.1)
                y.1))

  abbrev pub vm_path : Bytes
  vm_path = rootfs_path (vm_bundle_dir (codes req.id))

  abbrev pub SameTasks : TaskManager → TaskManager → Type 0
  SameTasks m n = (u f : String) → proc_at u f n ≡ proc_at u f m

  -- The two ways in which `Create` can end, from the drives and tasks at its start: it took no
  -- drive, or it took the first free one.
  abbrev pub Ends : Vm × TaskManager → Result A × ShimTasks → Type 0
  Ends c x =
      ((is_err x.0 ≡ true) × (x.1.drives.handler ≡ c.0.handler) × SameTasks c.1 x.1.manager)
      ⊎ ((source : Bytes) × Reserved host.vm_answers req.id source vm_path "ext4" [] c.0.handler
            x.1.drives.handler
          × (is_err x.0 ≡ true → SameTasks c.1 x.1.manager)
          × (is_err x.0 ≡ false
              → (may_add req.id "" c.1 ≡ true)
                × ((u f : String)
                    → proc_at u f x.1.manager ≡ (
                        if req.id == u && "" == f
                        then some (fresh req.id "" c.1)
                        else proc_at u f c.1))))

  after_reserve-Ends :
      (source : Bytes) (t : ShimTasks) (r : Result (Unit {0})) (v : Vm)
      → ((is_err r ≡ true) × (v.handler ≡ t.drives.handler))
        ⊎ ((is_err r ≡ false)
            × Reserved host.vm_answers req.id source vm_path "ext4" [] t.drives.handler v.handler)
      → Ends (core t) (
          continue
            (wrap_result "failed to get stub drive for task %q" r)
            (λ _. create_reserved host launch req)
            (record t { drives = v }))
  after_reserve-Ends source t (ok a) v (inl (bad, h)) = absurd (cc)
  after_reserve-Ends source t (err e) v (inl (bad, h)) = inl (refl, h, λ u f. refl)
  after_reserve-Ends source t (err e) v (inr (good, h)) = absurd (cc)
  after_reserve-Ends source t (ok a) v (inr (good, h)) =
      let rest = create_reserved-IsRest (record t { drives = v }) in
      inr (
        source,
        subst
            (λ (w : Vm).
              Reserved host.vm_answers req.id source vm_path "ext4" [] t.drives.handler w.handler)
            (sym rest.kept) h,
        rest.failed,
        rest.landed,
      )

  found-Ends :
      (r : Result Bytes) (t : ShimTasks)
      → Ends (core t) (
          continue r (λ source. reserve_drive host req source >> create_reserved host launch req) t)
  unfolding reserve_drive
  found-Ends (err e) t = inl (refl, refl, λ u f. refl)
  found-Ends (ok source) t =
      let x = reserve host.vm_answers req.id source vm_path "ext4" [] t.drives in
      after_reserve-Ends source t x.0 x.1
        (reserve_outcome host.vm_answers req.id source vm_path "ext4" [] t.drives)

  -- `Create` fails with the drives and the processes as they were; or it takes the first free drive
  -- for the task, and then fails with the processes as they were, the drive still taken, or succeeds
  -- with exactly its own process added.
  pub create_outcome : (s : ShimTasks) → Ends (core s) (create host launch req s)
  unfolding create
  create_outcome s =
      let x = find_rootfs host req s in
      subst (λ c. Ends c (create host launch req s)) (find_rootfs-Leaves host req s)
        (found-Ends x.0 x.1)

  create-SameTasks :
      (s : ShimTasks)
      → is_err (create host launch req s).0 ≡ true
      → SameTasks s.manager (create host launch req s).1.manager
  create-SameTasks s h = elim (create_outcome s) [
    | inl (_, _, same) ↦ same
    | inr (_, _, failed, _) ↦ failed h
  ]

  -- After a `Create` that failed for a task that was not there, no `Delete` of the task can help,
  -- whatever the agent answers: it fails, and a drive that the `Create` took stays taken.
  pub create_failed-delete :
      {B : Type 0} (s : ShimTasks) (service : Result B)
      → proc_at req.id "" s.manager ≡ none
      → is_err (create host launch req s).0 ≡ true
      → (is_err (delete host req.id "" service (create host launch req s).1).0 ≡ true)
        × ((delete host req.id "" service (create host launch req s).1).1.drives
            ≡ (create host launch req s).1.drives)
  create_failed-delete s service absent h =
      delete_absent host req.id "" service (create host launch req s).1
        (create-SameTasks s h req.id "" ∙ absent)
