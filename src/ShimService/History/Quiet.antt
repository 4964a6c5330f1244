-- ===== src/ShimService/History/Quiet.antt =====
-- runtime/service.go: the steps of the handlers that make none of the calls that are to be made once.
use abschlussarbeit.Common.{
  ℕ, ◌+◌, ◌≡◌, refl, ◌∙◌, String, Bool, true, false, List, [], ◌∷◌, arith, Bool-cases, Option-cases,
  inl, inr, All,
}
use abschlussarbeit.Common.Act.{Act, modify, wrapping, Leaves, bind-Leaves, ◌>>◌}
use abschlussarbeit.StubDrive.Create.{StubDrive}
use abschlussarbeit.ShimService.{
  ShimCall, find_dir, start_steps, ask_all, mount_one, mount_drives, act, nothing_to_kill,
  shutdown_actions, jailer_close, publish_vm_start, publish_vm_stop, Service, World, ask,
  create_vm_once,
}
use abschlussarbeit.ShimService.History.Orderly.{
  count, is_vm_start, is_vm_stop, is_jailer_close, summary,
}

abbrev pub is_quiet : ShimCall → Bool
is_quiet publish_vm_start = false
is_quiet publish_vm_stop = false
is_quiet jailer_close = false
is_quiet _ = true

quiet-count :
    (c : ShimCall) (cs : List ShimCall)
    → is_quiet c ≡ true
    → (count is_vm_start (c ∷ cs) ≡ count is_vm_start cs)
      × (count is_vm_stop (c ∷ cs) ≡ count is_vm_stop cs)
      × (count is_jailer_close (c ∷ cs) ≡ count is_jailer_close cs)
quiet-count publish_vm_start cs h = cc
quiet-count publish_vm_stop cs h = cc
quiet-count jailer_close cs h = cc
quiet-count _ cs h = (refl, refl, refl)

module _ (w : World) where
  pub ask-Leaves : (c : ShimCall) → is_quiet c ≡ true → Leaves summary (ask w c)
  unfolding ask
  ask-Leaves c h s = let (p, q, r) = quiet-count c s.calls h in ground arith

  ask_all-Leaves :
      (steps : List (String × ShimCall))
      → All (λ (p : String × ShimCall). is_quiet p.1 ≡ true) steps
      → Leaves summary (ask_all w steps)
  unfolding ask_all
  ask_all-Leaves [] h = λ s. refl
  ask_all-Leaves ((msg, c) ∷ rest) h =
      bind-Leaves summary (wrapping msg (ask w c)) (λ _. ask_all w rest) (ask-Leaves c h.0)
        (λ _. ask_all-Leaves rest h.1)

  mount_drives-Leaves : (ds : List StubDrive) → Leaves summary (mount_drives w ds)
  unfolding mount_drives
  mount_drives-Leaves [] = λ s. refl
  mount_drives-Leaves (d ∷ ds) =
      bind-Leaves summary (wrapping "failed to patch drive mount stub" (mount_one w d))
        (λ _. mount_drives w ds) (λ s. refl) (λ _. mount_drives-Leaves ds)

  pub create_vm_once-Leaves : (exit_after : Bool) → Leaves summary (create_vm_once w exit_after)
  unfolding create_vm_once
  create_vm_once-Leaves exit_after s =
      let flag : Act Service (Unit {0}) =
        modify (λ t. record t { connected = true; exit_after_all_tasks_deleted = exit_after }) in
      let mounts : Act Service (Unit {0}) = mount_drives w s.drive_mount_stubs in
      bind-Leaves summary (ask w find_dir) (λ _. ask_all w start_steps >> (flag >> mounts))
        (ask-Leaves find_dir refl)
        (λ _.
          bind-Leaves summary (ask_all w start_steps) (λ _. flag >> mounts)
            (ask_all-Leaves start_steps (refl, (refl, (refl, (refl, (refl, (refl, (refl, tt))))))))
            λ _.
              bind-Leaves summary flag (λ _. mounts) (λ t. refl)
                λ _. mount_drives-Leaves s.drive_mount_stubs)
        s

  act-Leaves :
      (c : ShimCall) (timeout : ℕ) (s : Service)
      → is_quiet c ≡ true
      → summary (act w c timeout s) ≡ summary s
  unfolding ask
  act-Leaves c timeout s h = elim (Option-cases (w.answers s.calls c)) [
    | inl q ↦ rw (q, act) (ask-Leaves c h s)
    | inr (e, q) ↦ rw (q, act) (ask-Leaves c h s)
  ]

  pub shutdown_actions-Leaves :
      (n : ℕ) (actions : List (ShimCall × ℕ)) (s : Service)
      → All (λ (p : ShimCall × ℕ). is_quiet p.0 ≡ true) actions
      → summary (shutdown_actions w n actions s) ≡ summary s
  unfolding shutdown_actions
  shutdown_actions-Leaves n [] s h = refl
  shutdown_actions-Leaves n ((c, timeout) ∷ rest) s h =
      elim (Bool-cases (nothing_to_kill w (w.pid n))) [
        | inl q ↦ rw q refl
        | inr q ↦ rw q (
            shutdown_actions-Leaves (n + 1) rest (act w c timeout s) h.1
            ∙ act-Leaves c timeout s h.0)
      ]
