-- ===== src/Control/Stopping.antt =====
-- `StopVM` of firecracker-control/local.go, and `CreateVM` for a VM that is there already.
use abschlussarbeit.Common.{
  ℕ, String, ◌≡◌, refl, true, Option, none, some, List, ◌∷◌, Error, both, status, already_exists,
  Result, ok, err,
}
use abschlussarbeit.Common.Assoc.{lookup, remove}
use abschlussarbeit.Common.Bytes.{Bytes, codes}
use abschlussarbeit.Control.{
  HostCall, listen, connect, Local, Host, ask, free, is_eaddrinuse, shim_firecracker_client,
  fc_control_socket_address,
}
use abschlussarbeit.Control.Vm.{open_shim_socket, create_vm, wait_for_shim_to_exit, stop_vm}
use abschlussarbeit.Control.Cleanup.Resources.{give_back-first}

-- The error of the shim and the error of the wait, as one.
abbrev pub settled : {A : Type 0} → Result A → Option Error → Result A
settled reply none = reply
settled (ok a) (some e) = err e
settled (err e) (some e') = err (both e e')

module _ (host : Host) where
  -- When the shim can be reached and is in the table, `StopVM` takes it out of the table whether or
  -- not the shim's reply or the wait is an error, gives its client back, and returns the shim's reply
  -- joined with the error of the wait.
  pub stop_vm_lem :
      {A : Type 0} (vm_id address : String) (number : ℕ) (reply : Result A) (exited : Option Error)
      (s : Local)
      → host.validate vm_id ≡ none
      → host.socket_address vm_id ≡ ok address
      → ((calls : List HostCall) (a : Bytes) → host.answers calls (connect a) ≡ none)
      → lookup address s.processes ≡ some number
      → ((stop_vm host vm_id reply exited s).0 ≡ settled reply exited)
        × ((stop_vm host vm_id reply exited s).1.processes ≡ remove address s.processes)
        × ((stop_vm host vm_id reply exited s).1.held ≡ s.held)
  unfolding stop_vm wait_for_shim_to_exit shim_firecracker_client fc_control_socket_address ask free
  stop_vm_lem vm_id address number (ok x) none s v a c l =
      simp (v, a, c, l, give_back-first) (refl, refl, refl)
  stop_vm_lem vm_id address number (ok x) (some e') s v a c l =
      simp (v, a, c, l, give_back-first) (refl, refl, refl)
  stop_vm_lem vm_id address number (err e) none s v a c l =
      simp (v, a, c, l, give_back-first) (refl, refl, refl)
  stop_vm_lem vm_id address number (err e) (some e') s v a c l =
      simp (v, a, c, l, give_back-first) (refl, refl, refl)

  -- When the ID is valid, the request has a namespace, and the address of the shim's socket is in use,
  -- `CreateVM` returns the status `AlreadyExists`,
  -- and all it did was to try that address.
  pub create_vm_exists :
      {A : Type 0} (base : Bytes) (containerd vm_id ns address : String) (reply : Result A)
      (e : Error) (s : Local)
      → host.validate vm_id ≡ none
      → host.namespace ≡ ok ns
      → host.socket_address vm_id ≡ ok address
      → host.answers s.calls (listen (codes address)) ≡ some e
      → is_eaddrinuse host e ≡ true
      → create_vm host base containerd vm_id reply s ≡ (
        err (status already_exists "VM with ID %q already exists (socket: %q)"),
        record s { calls = listen (codes address) ∷ s.calls },
      )
  unfolding create_vm open_shim_socket ask is_eaddrinuse
  create_vm_exists base containerd vm_id ns address reply e s v n a c u = rw (v, n, a, c, u) refl
