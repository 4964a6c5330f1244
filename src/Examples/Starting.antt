-- ===== src/Examples/Starting.antt =====
-- Starting a shim, and waiting for processes, on concrete inputs.
use abschlussarbeit.Common.{
  ℕ, String, Bool, true, none, some, List, [], ◌∷◌, ◌≡◌, refl, eqb, external, Result, ok, error_of,
}
use abschlussarbeit.Common.Bytes.{Bytes, codes}
use abschlussarbeit.Common.Assoc.{lookup}
use abschlussarbeit.Common.FilePath
use abschlussarbeit.OciConfig.{vm_id, file}
use abschlussarbeit.ShimStart.{World, Starting, start_shim}
use abschlussarbeit.ShimStart.Requested.{start_shim-joins}
use abschlussarbeit.Control.{Host, Local, listen, is_eaddrinuse, contains}
use abschlussarbeit.Control.Vm.{create_vm}
use abschlussarbeit.PsUtil.{Tick, answered, wait_for_process_to_exist}
use abschlussarbeit.PsUtil.Waiting.{IsFirstEnd, Ends, wait_for_process_to_exist-first}

-- A host on which the socket of every shim is in use.
abbrev host : Host
host = record {
  validate = λ id. none;
  namespace = ok "default";
  socket_address = λ id. ok id;
  eval_symlinks = λ path. ok path;
  error_text = λ e. codes "listen: address already in use";
  pid = λ calls. 7;
  answers = λ calls c. some (external 98);
}

abbrev plugin : Local
plugin = record { processes = ("vm", 7) ∷ []; held = []; shared = []; calls = [] }

abbrev reply : Result String
reply = ok "created"

-- A bundle whose config.json names the VM.
abbrev world : World
world = record {
  open_log = none;
  getwd = ok (codes "/bundle");
  files = record {
    open_error = λ path. none;
    decode = λ path. ok (some (("aws.firecracker.vm.id", "vm") ∷ []));
  };
  new_uuid = ok "fresh";
  new_client = none;
  create_vm =
      λ req. error_of (create_vm host (codes "/base") "containerd" req.vm_id reply plugin).0;
  socket_address = λ id. ok id;
}

abbrev start : Starting
start = record { vm_id = ""; requests = [] }

named : vm_id world.files (codes "/bundle") ≡ ok "vm"
unfolding vm_id file lookup
named = refl

in_use : is_eaddrinuse host (external 98) ≡ true
unfolding is_eaddrinuse contains FilePath.has_prefix
in_use = refl

start_shim-joins_example :
    ((start_shim world start).0 ≡ ok "vm")
    × ((create_vm host (codes "/base") "containerd" "vm" reply plugin).1
        ≡ record plugin { calls = listen (codes "vm") ∷ [] })
start_shim-joins_example =
    start_shim-joins world host (codes "/base") "containerd" start plugin (codes "/bundle") "vm"
      "default" "vm" (external 98) reply refl refl named refl refl refl refl refl refl refl in_use

-- A process is a number; the one that is waited for is 7.
abbrev is_seven : ℕ → Result Bool
is_seven p = ok (eqb p 7)

abbrev ticks : List (Tick (Result (List ℕ)))
ticks = answered (ok (3 ∷ 4 ∷ [])) ∷ answered (ok (3 ∷ 7 ∷ [])) ∷ []

wait_for_process_to_exist-first_example :
    IsFirstEnd (Ends is_seven) ticks (wait_for_process_to_exist is_seven ticks)
wait_for_process_to_exist-first_example = wait_for_process_to_exist-first is_seven ticks
