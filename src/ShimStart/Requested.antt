-- ===== src/ShimStart/Requested.antt =====
-- runtime/service.go: what `StartShim` asks the plugin for, and what it makes of the answer.
use abschlussarbeit.Common.{
  String, true, false, none, some, ◌∷◌, ◌==◌, ◌≡◌, ◌⊎◌, ap, ◌∙◌, arith, Error, status,
  already_exists, Result, ok, err, error_of,
}
use abschlussarbeit.Common.Bytes.{Bytes, codes}
use abschlussarbeit.OciConfig.{vm_id}
use abschlussarbeit.ShimStart.{World, Starting, request_for, choose_vm, request_vm, start_shim}
use abschlussarbeit.Control.{Host, Local, listen, is_eaddrinuse, ask}
use abschlussarbeit.Control.Vm.{create_vm, open_shim_socket}

module _ (w : World) where
  -- What a start that went well has found and sent, for a bundle that names the VM `asked`.
  abbrev pub IsStarted : String → Starting → String → Starting → Type 0
  IsStarted asked s address t =
      (w.socket_address t.vm_id ≡ ok address)
      × (((asked == "" ≡ false)
            × (t.vm_id ≡ asked)
            × (t.requests ≡ request_for false asked ∷ s.requests))
          ⊎ ((asked == "" ≡ true)
              × (w.new_uuid ≡ ok t.vm_id)
              × (t.requests ≡ request_for true t.vm_id ∷ s.requests)))

module _ (w : World) (host : Host) (base : Bytes) (containerd : String) where
  -- A bundle names a VM whose shim runs already, so that the plugin finds the shim's socket in use.
  -- Then `StartShim` gives the address of that VM, and all that the plugin did was to try to listen:
  -- it holds what it held, and knows the shims that it knew.
  pub start_shim-joins :
      (s : Starting) (p : Local) (bundle : Bytes) (id ns address : String) (e : Error)
      (reply : Result String)
      → w.open_log ≡ none
      → w.getwd ≡ ok bundle
      → vm_id w.files bundle ≡ ok id
      → (id == "") ≡ false
      → w.new_client ≡ none
      → w.create_vm (request_for false id) ≡ error_of (create_vm host base containerd id reply p).0
      → host.validate id ≡ none
      → host.namespace ≡ ok ns
      → host.socket_address id ≡ ok address
      → host.answers p.calls (listen (codes address)) ≡ some e
      → is_eaddrinuse host e ≡ true
      → ((start_shim w s).0 ≡ w.socket_address id)
        × ((create_vm host base containerd id reply p).1
            ≡ record p { calls = listen (codes address) ∷ p.calls })
  unfolding start_shim choose_vm request_vm create_vm open_shim_socket ask
  start_shim-joins s p bundle id ns address e reply log wd found named client plugin valid space at
        used text =
      let refused : create_vm host base containerd id reply p ≡ (
        err (status already_exists "VM with ID %q already exists (socket: %q)"),
        record p { calls = listen (codes address) ∷ p.calls },
      ) =
        ground arith in
      let exists : w.create_vm (request_for false id)
          ≡ some (status already_exists "VM with ID %q already exists (socket: %q)") =
        plugin ∙ ap (λ r. error_of r.0) refused in
      (ground arith, ap (λ r. r.1) refused)
