-- ===== src/Examples/Plugin.antt =====
-- The control plugin on concrete inputs.
use abschlussarbeit.Common.{
  ℕ, refl, Option, none, some, List, [], ◌∷◌, Error, external, Result, ok, err,
}
use abschlussarbeit.Common.Bytes.{codes}
use abschlussarbeit.Control
use abschlussarbeit.Control.{
  HostCall, listen, set_oom_score, Local, Host, Resource, process, new_shim,
}
use abschlussarbeit.Control.Vm
use abschlussarbeit.Control.Cleanup.{Unmoved}
use abschlussarbeit.Control.Cleanup.Leak.{Outcome, new_shim_outcome}
use abschlussarbeit.Control.Cleanup.Whole.{create_vm-Clean}
use abschlussarbeit.Examples.Vms.{no_links}

abbrev host : (List HostCall → HostCall → Option Error) → Host
host answers = record {
  validate = λ name. none;
  namespace = ok "ns";
  socket_address = λ name. ok "shim";
  eval_symlinks = no_links;
  error_text = λ e. codes "address already in use";
  pid = λ calls. 42;
  answers = answers;
}

abbrev fine : List HostCall → HostCall → Option Error
fine calls c = none

abbrev plugin : Local
plugin = record { processes = ("shim", 42) ∷ []; held = []; shared = []; calls = [] }

abbrev refused : Result ℕ
refused = err (external 1)

create_vm-Clean_example :
    Unmoved plugin (Vm.create_vm (host fine) (codes "/base") "sock" "vm" refused plugin).1
unfolding Vm.create_vm Vm.open_shim_socket Vm.with_socket Vm.make_base Control.ask Control.shim_dir
    Vm.with_dir Control.fc_control_socket_address Vm.with_fc_socket Control.new_shim
    Control.start_process Vm.with_shim Control.shim_firecracker_client Vm.with_client
    Control.remove_dir
create_vm-Clean_example =
    create_vm-Clean (host fine) (λ calls n. refl) (λ calls dir. refl) (codes "/base") "sock" "vm"
      refused plugin refl

-- The score of no process can be set.
abbrev no_score : List HostCall → HostCall → Option Error
no_score calls (set_oom_score n) = some (external 1)
no_score calls _ = none

new_shim_outcome_example :
    (let (r, t) = new_shim (host no_score) (codes "/base") "ns" "vm" "sock" [] [] plugin in
      Outcome (host no_score) plugin r t)
new_shim_outcome_example =
    new_shim_outcome (host no_score) (codes "/base") "ns" "vm" "sock" [] [] plugin
