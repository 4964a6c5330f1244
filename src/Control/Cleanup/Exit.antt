-- ===== src/Control/Cleanup/Exit.antt =====
-- What the plugin of firecracker-control/local.go still holds when the process of a shim has ended.
use abschlussarbeit.Common.{ℕ, String, ◌≡◌, ap, ◌∙◌, List, ◌∷◌, ok, none}
use abschlussarbeit.Common.Bytes.{Bytes}
use abschlussarbeit.Control.{
  HostCall, set_oom_score, remove_all, close_file, dir_removed, remove_dir, Resource, directory,
  process, Local, Host, give_back, free, new_shim, shim_exited,
}
use abschlussarbeit.Control.Cleanup.Resources.{give_back-first}
use abschlussarbeit.Control.Cleanup.Shim.{new_shim-Obtains}

-- When the out-of-memory score can be set, the VM's directory can be removed, and the plugin holds it:
-- after a `newShim` that ended well, and after the process has ended, neither the process nor the
-- directory is held, and the table of processes is as it was.
shim_exited-new_shim :
    (host : Host) (base : Bytes) (ns vm_id containerd : String) (shim_socket fc_socket dir : Bytes)
    (held : List Resource) (number : ℕ) (s : Local)
    → ((calls : List HostCall) (n : ℕ) → host.answers calls (set_oom_score n) ≡ none)
    → ((calls : List HostCall) → host.answers calls (remove_all dir) ≡ none)
    → s.held ≡ directory dir ∷ held
    → (new_shim host base ns vm_id containerd shim_socket fc_socket s).0 ≡ ok number
    → let t = (new_shim host base ns vm_id containerd shim_socket fc_socket s).1 in
      ((shim_exited host number shim_socket fc_socket dir t).held ≡ held)
      × ((shim_exited host number shim_socket fc_socket dir t).processes ≡ s.processes)
unfolding shim_exited remove_dir free
shim_exited-new_shim host base ns vm_id containerd shim_socket fc_socket dir held number s scored
      removes d h =
    let h' =
      (new_shim-Obtains host scored base ns vm_id containerd shim_socket fc_socket).on_ok s number
        h in
    let t = (new_shim host base ns vm_id containerd shim_socket fc_socket s).1 in
    rw (removes (close_file fc_socket ∷ close_file shim_socket ∷ t.calls), dir_removed)
      (
        ap (λ x. give_back (directory dir) (give_back (process number) x))
              (h'.now_held ∙ ap (λ l. process number ∷ l) d)
            ∙ (ap (give_back (directory dir))
                  (give_back-first (process number) (directory dir ∷ held))
                ∙ give_back-first (directory dir) held),
        h'.same_processes,
      )
