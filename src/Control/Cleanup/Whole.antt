-- ===== src/Control/Cleanup/Whole.antt =====
-- `CreateVM` of firecracker-control/local.go as a whole: what it leaves behind when it fails.
use abschlussarbeit.Common.{ℕ, String, ◌≡◌, refl, true, none, List, arith, Result, ok, err, is_err}
use abschlussarbeit.Common.Act.{Act, attempt, lift, modify, on_error, finally, wrapping, ◌>>=◌}
use abschlussarbeit.Common.Bytes.{Bytes, codes}
use abschlussarbeit.Common.FilePath
use abschlussarbeit.Control.{
  HostCall, set_oom_score, listen, mkdir_all, remove_all, share, remove_dir, socket, directory,
  process, client, Local, Host, obtain, free, new_shim, shim_dir, shim_firecracker_client,
  fc_control_socket_address,
}
use abschlussarbeit.Control.Vm.{
  open_shim_socket, make_base, with_client, with_shim, with_fc_socket, with_dir, with_socket,
  create_vm,
}
use abschlussarbeit.Control.Cleanup.{
  Unmoved, here, Clean, bind-Clean, on_error-Clean, finally-Clean, wrapping-Obtains,
}
use abschlussarbeit.Control.Cleanup.Resources.{free-Returns, obtain-Obtains}
use abschlussarbeit.Control.Cleanup.Shim.{shim_dir-Keeps, new_shim-Obtains}
use abschlussarbeit.Control.Cleanup.Opening.{
  client-Obtains, make_base-Keeps, open-Obtains, remove_dir-Returns,
}

module _ (host : Host) where
  with_client-Clean :
      {A : Type 0} (address : String) (reply : Result A) (number : ℕ)
      → Clean (with_client host address reply number)
  unfolding with_client
  with_client-Clean address (ok a) number s h = absurd (ground arith)
  with_client-Clean address (err e) number s h = record { same_processes = refl; same_held = refl }

  with_shim-Clean :
      {A : Type 0} (vm_id address : String) (reply : Result A) (number : ℕ)
      → Clean (with_shim host vm_id address reply number)
  unfolding with_shim
  with_shim-Clean vm_id address reply number =
      finally-Clean
        (wrapping "failed to create firecracker shim client" (shim_firecracker_client host vm_id))
        client (λ a. free (client a)) (λ _. with_client host address reply number)
        (wrapping-Obtains "failed to create firecracker shim client"
          (shim_firecracker_client host vm_id) client (client-Obtains host vm_id))
        (λ _. with_client-Clean address reply number) (λ a. free-Returns (client a))

  module _
      (scored : (calls : List HostCall) (number : ℕ)
        → host.answers calls (set_oom_score number) ≡ none) where
    with_fc_socket-Clean :
        {A : Type 0} (base : Bytes) (containerd ns vm_id address : String) (fc_address : Bytes)
        (reply : Result A)
        → Clean (with_fc_socket host base containerd ns vm_id address fc_address reply)
    unfolding with_fc_socket
    with_fc_socket-Clean base containerd ns vm_id address fc_address reply =
        on_error-Clean (new_shim host base ns vm_id containerd (codes address) fc_address) process
          (λ n. free (process n)) (with_shim host vm_id address reply)
          (new_shim-Obtains host scored base ns vm_id containerd (codes address) fc_address)
          (with_shim-Clean vm_id address reply) (λ n. free-Returns (process n))

    with_dir-Clean :
        {A : Type 0} (base : Bytes) (containerd ns vm_id address : String) (reply : Result A)
        → Clean (with_dir host base containerd ns vm_id address reply)
    unfolding with_dir
    with_dir-Clean base containerd ns vm_id address reply =
        bind-Clean
          (wrapping "failed to obtain shim socket address"
            (lift (fc_control_socket_address host vm_id)))
          (λ fc.
            wrapping "failed to open fccontrol socket at address %q"
              (obtain host (listen fc) (socket fc))
            >>= λ _.
                finally (free (socket fc))
                  (with_fc_socket host base containerd ns vm_id address fc reply))
          (λ s. here s)
          λ fc.
            finally-Clean
              (wrapping "failed to open fccontrol socket at address %q"
                (obtain host (listen fc) (socket fc)))
              (λ _. socket fc) (λ _. free (socket fc))
              (λ _. with_fc_socket host base containerd ns vm_id address fc reply)
              (wrapping-Obtains "failed to open fccontrol socket at address %q"
                (obtain host (listen fc) (socket fc)) (λ _. socket fc)
                (obtain-Obtains host (listen fc) (socket fc)))
              (λ _. with_fc_socket-Clean base containerd ns vm_id address fc reply)
              (λ _. free-Returns (socket fc))

    module _
        (removes : (calls : List HostCall) (dir : Bytes)
          → host.answers calls (remove_all dir) ≡ none) where
      with_socket-Clean :
          {A : Type 0} (base : Bytes) (containerd ns vm_id address : String) (reply : Result A)
          → Clean (with_socket host base containerd ns vm_id address reply)
      unfolding with_socket
      with_socket-Clean base containerd ns vm_id address reply =
          let own : Bytes → Act Local _ = λ dir.
            wrapping "failed to create VM dir %q" (obtain host (mkdir_all dir) (directory dir))
            >>= λ _.
                on_error (remove_dir host dir)
                  (with_dir host base containerd ns vm_id address reply) in
          let above : Bytes → Act Local _ =
            λ dir. modify (share (FilePath.dir dir)) >>= λ _. own dir in
          bind-Clean (make_base host base)
            (λ _. wrapping "failed to build shim path" (shim_dir host base ns vm_id) >>= above)
            (make_base-Keeps host base)
            λ _.
              bind-Clean (wrapping "failed to build shim path" (shim_dir host base ns vm_id)) above
                (λ s. shim_dir-Keeps host base ns vm_id s)
                λ dir.
                  bind-Clean (modify (share (FilePath.dir dir))) (λ _. own dir)
                    (λ s. record { same_processes = refl; same_held = refl })
                    λ _.
                      on_error-Clean
                        (wrapping "failed to create VM dir %q"
                          (obtain host (mkdir_all dir) (directory dir)))
                        (λ _. directory dir) (λ _. remove_dir host dir)
                        (λ _. with_dir host base containerd ns vm_id address reply)
                        (wrapping-Obtains "failed to create VM dir %q"
                          (obtain host (mkdir_all dir) (directory dir)) (λ _. directory dir)
                          (obtain-Obtains host (mkdir_all dir) (directory dir)))
                        (λ _. with_dir-Clean base containerd ns vm_id address reply)
                        (λ _. remove_dir-Returns host removes dir)

      -- When the out-of-memory score of the shim can be set, and `os.RemoveAll` does not fail: if
      -- `CreateVM` fails, for whatever reason, then every socket, process and client that it took, and
      -- the directory of the VM, was given back, and the table of processes is as it was. The
      -- directories above that of the VM stay, and the files that `newShim` makes of the two sockets
      -- are not counted.
      pub create_vm-Clean :
          {A : Type 0} (base : Bytes) (containerd vm_id : String) (reply : Result A) (s : Local)
          → is_err (create_vm host base containerd vm_id reply s).0 ≡ true
          → Unmoved s (create_vm host base containerd vm_id reply s).1
      unfolding create_vm
      create_vm-Clean base containerd vm_id reply =
          let rest : String → String → Act Local _ = λ ns address.
            open_shim_socket host vm_id address >>= λ _.
            finally (free (socket (codes address)))
              (with_socket host base containerd ns vm_id address reply) in
          let named : String → Act Local _ = λ ns.
            wrapping "failed to obtain shim socket address" (lift (host.socket_address vm_id))
            >>= rest ns in
          bind-Clean (attempt (host.validate vm_id))
            (λ _. wrapping "error retrieving namespace of request" (lift host.namespace) >>= named)
            (λ s. here s)
            λ _.
              bind-Clean (wrapping "error retrieving namespace of request" (lift host.namespace))
                named (λ s. here s)
                λ ns.
                  bind-Clean
                    (wrapping "failed to obtain shim socket address"
                      (lift (host.socket_address vm_id)))
                    (rest ns) (λ s. here s)
                    λ address.
                      finally-Clean (open_shim_socket host vm_id address)
                        (λ _. socket (codes address)) (λ _. free (socket (codes address)))
                        (λ _. with_socket host base containerd ns vm_id address reply)
                        (open-Obtains host vm_id address)
                        (λ _. with_socket-Clean base containerd ns vm_id address reply)
                        (λ _. free-Returns (socket (codes address)))
