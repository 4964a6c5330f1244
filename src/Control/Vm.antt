-- ===== src/Control/Vm.antt =====
-- firecracker-control/local.go: `CreateVM`, `StopVM` and the calls that are passed on to the shim.
use abschlussarbeit.Common.{
  ℕ, String, Option, none, some, [], ◌∷◌, if◌then◌else◌, Error, errorf, wrap, status, exist,
  already_exists, both, Result, ok, err,
}
use abschlussarbeit.Common.Act.{
  Act, pure, lift, attempt, modify, on_error, finally, wrapping, ◌>>=◌, ◌>>◌,
}
use abschlussarbeit.Common.Assoc.{lookup, remove}
use abschlussarbeit.Common.Bytes.{Bytes, codes}
use abschlussarbeit.Common.FilePath
use abschlussarbeit.Control.{
  listen, mkdir, mkdir_all, socket, directory, process, client, Local, Host, free, share,
  remove_dir, ask, obtain, is_eaddrinuse, fc_control_socket_address, shim_dir, new_shim,
  shim_firecracker_client, call_shim, add_shim,
}

module _ (host : Host) where
  -- Opening the shim's socket: an address in use means that there is a shim for the VM.
  abbrev pub listened : String → String → Result (Unit {0}) → Result (Unit {0})
  listened vm_id address (ok tt) = ok tt
  listened vm_id address (err e) =
      if is_eaddrinuse host e
      then err (status already_exists "VM with ID %q already exists (socket: %q)")
      else err (wrap "failed to open shim socket at address %q" e)

  unfoldable pub open_shim_socket : String → String → Act Local (Unit {0})
  open_shim_socket vm_id address s =
      let (r, s') = obtain host (listen (codes address)) (socket (codes address)) s in
      (listened vm_id address r, s')

  -- `os.Mkdir` of the base directory, where one that exists will do.
  abbrev unless_exist : Result (Unit {0}) → Result (Unit {0})
  unless_exist (ok tt) = ok tt
  unless_exist (err exist) = ok tt
  unless_exist (err e) = err (wrap "failed to make shim base directory: %s" e)

  abbrev made : Bytes → Result (Unit {0}) → Local → Local
  made base (ok tt) s = share base s
  made base (err e) s = s

  unfoldable pub make_base : Bytes → Act Local (Unit {0})
  make_base base s = let (r, s') = ask host (mkdir base) s in (unless_exist r, made base r s')

  -- `CreateVM` from the inside out: the client's call, whose reply is an argument, ...
  unfoldable pub with_client : {A : Type 0} → String → Result A → ℕ → Act Local A
  with_client address reply number = do
    resp ← call_shim host "CreateVM" reply
    modify (add_shim host address number)
    pure resp

  -- ... the shim, which is killed on an error, ...
  unfoldable pub with_shim : {A : Type 0} → String → String → Result A → ℕ → Act Local A
  unfolding with_client
  with_shim vm_id address reply number = do
    connected ←
        wrapping "failed to create firecracker shim client" (shim_firecracker_client host vm_id)
    finally (free (client connected)) (with_client address reply number)

  -- ... the control socket, which is closed in any case, ...
  unfoldable pub with_fc_socket :
      {A : Type 0} → Bytes → String → String → String → String → Bytes → Result A → Act Local A
  unfolding with_shim
  with_fc_socket base containerd ns vm_id address fc_address reply = do
    number ← new_shim host base ns vm_id containerd (codes address) fc_address
    on_error (free (process number)) (with_shim vm_id address reply number)

  -- ... the VM's directory, which is removed on an error, ...
  unfoldable pub with_dir :
      {A : Type 0} → Bytes → String → String → String → String → Result A → Act Local A
  unfolding with_fc_socket
  with_dir base containerd ns vm_id address reply = do
    fc_address ←
        wrapping "failed to obtain shim socket address"
          (lift (fc_control_socket_address host vm_id))
    wrapping "failed to open fccontrol socket at address %q"
        (obtain host (listen fc_address) (socket fc_address))
    finally (free (socket fc_address))
        (with_fc_socket base containerd ns vm_id address fc_address reply)

  -- ... and the shim's socket, which is closed in any case. `os.MkdirAll` also makes the directory of
  -- the namespace.
  unfoldable pub with_socket :
      {A : Type 0} → Bytes → String → String → String → String → Result A → Act Local A
  unfolding make_base remove_dir with_dir
  with_socket base containerd ns vm_id address reply = do
    make_base base
    dir ← wrapping "failed to build shim path" (shim_dir host base ns vm_id)
    modify (share (FilePath.dir dir))
    wrapping "failed to create VM dir %q" (obtain host (mkdir_all dir) (directory dir))
    on_error (remove_dir host dir) (with_dir base containerd ns vm_id address reply)

  -- `CreateVM`
  unfoldable pub create_vm : {A : Type 0} → Bytes → String → String → Result A → Act Local A
  unfolding open_shim_socket with_socket
  create_vm base containerd vm_id reply = do
    attempt (host.validate vm_id)
    ns ← wrapping "error retrieving namespace of request" (lift host.namespace)
    address ← wrapping "failed to obtain shim socket address" (lift (host.socket_address vm_id))
    open_shim_socket vm_id address
    finally (free (socket (codes address))) (with_socket base containerd ns vm_id address reply)

  -- `waitForShimToExit`, where `exited` is how `WaitForPidToExit` ends.
  wait_at : String → Option Error → Option ℕ → Local → Option Error × Local
  wait_at address exited none s =
      (some (errorf "failed to find a shim process for %q" (address ∷ [])), s)
  wait_at address exited (some number) s =
      (exited, record s { processes = remove address s.processes })

  abbrev wait_on : Option Error → Result String → Local → Option Error × Local
  wait_on exited (ok address) s = wait_at address exited (lookup address s.processes) s
  wait_on exited (err e) s = (some e, s)

  unfoldable pub wait_for_shim_to_exit : String → Option Error → Local → Option Error × Local
  unfolding wait_at
  wait_for_shim_to_exit vm_id exited s = wait_on exited (host.socket_address vm_id) s

  abbrev stop_reply : {A : Type 0} → Result A → Option Error × Local → Result A × Local
  stop_reply reply (none, s) = (reply, s)
  stop_reply (ok a) (some e, s) = (err e, s)
  stop_reply (err e) (some e', s) = (err (both e e'), s)

  -- `StopVM`
  unfoldable pub stop_vm : {A : Type 0} → String → Result A → Option Error → Act Local A
  unfolding wait_for_shim_to_exit
  stop_vm vm_id reply exited = do
    connected ← shim_firecracker_client host vm_id
    finally (free (client connected)) (λ s.
        stop_reply reply (wait_for_shim_to_exit vm_id exited (call_shim host "StopVM" reply s).1))

  -- The calls that only pass a request on.
  pass_on : {A : Type 0} → String → String → String → Result A → Act Local A
  pass_on name msg vm_id reply = do
    connected ← shim_firecracker_client host vm_id
    finally (free (client connected)) (wrapping msg (call_shim host name reply))

  -- `GetVMInfo`
  unfoldable pub get_vm_info : {A : Type 0} → String → Result A → Act Local A
  unfolding pass_on
  get_vm_info = pass_on "GetVMInfo" "shim client failed to get vm info"

  -- `SetVMMetadata`
  unfoldable pub set_vm_metadata : {A : Type 0} → String → Result A → Act Local A
  unfolding pass_on
  set_vm_metadata = pass_on "SetVMMetadata" "shim client failed to set vm metadata"

  -- `UpdateVMMetadata`
  unfoldable pub update_vm_metadata : {A : Type 0} → String → Result A → Act Local A
  unfolding pass_on
  update_vm_metadata = pass_on "UpdateVMMetadata" "shim client failed to update vm metadata"

  -- `GetVMMetadata`
  unfoldable pub get_vm_metadata : {A : Type 0} → String → Result A → Act Local A
  unfolding pass_on
  get_vm_metadata = pass_on "GetVMMetadata" "shim client failed to get vm metadata"
