-- ===== src/Control.antt =====
-- firecracker-control/local.go, with internal/shim/shim.go and `ShimDir` of internal/vm/dir.go: the
-- plugin that starts a shim for each VM and forwards calls to it. What the system holds for the
-- plugin (sockets, directories, processes, clients) is part of the state, and its answers are
-- arguments.
pub mod Vm
pub mod Cleanup
pub mod Stopping
use abschlussarbeit.Common.{
  ℕ, String, Bool, true, false, not, ◌&&◌, ◌||◌, Option, none, some, List, [], ◌∷◌, ◌==◌, eqb,
  if◌then◌else◌, Error, errorf, wrap, status, exist, already_exists, join, Result, ok, err,
}
use abschlussarbeit.Common.Act.{
  Act, pure, raise, lift, attempt, modify, on_error, finally, wrapping, caught, ◌>>=◌, ◌>>◌,
}
use abschlussarbeit.Common.Assoc.{Assoc, lookup, insert, remove}
use abschlussarbeit.Common.Bytes.{Bytes, codes, bytes_eq}
use abschlussarbeit.Common.FilePath
use abschlussarbeit.Common.FilePath.{has_prefix}
use abschlussarbeit.Settings.{Config, Source, load_config}

-- What the plugin asks of the system and of the shim.
pub data HostCall : Type 0 where
  listen : Bytes → HostCall
  mkdir : Bytes → HostCall
  mkdir_all : Bytes → HostCall
  remove_all : Bytes → HostCall
  socket_file : Bytes → HostCall
  close_file : Bytes → HostCall
  start : Bytes → List String → HostCall
  set_oom_score : ℕ → HostCall
  connect : Bytes → HostCall
  forward : String → HostCall

-- What the system holds for the plugin until it is given back.
pub data Resource : Type 0 where
  socket : Bytes → Resource
  directory : Bytes → Resource
  process : ℕ → Resource
  client : Bytes → Resource

-- `local`: its `processes`, what is held for it, the newest first, the directories above those of the
-- VMs that it has made sure of and never removes, and the calls made so far.
pub record Local : Type 0 where
  pub processes : Assoc ℕ
  pub held : List Resource
  pub shared : List Bytes
  pub calls : List HostCall

-- The packages that the plugin calls: `identifiers.Validate`, `namespaces.NamespaceRequired` of the
-- request's context, containerd's `SocketAddress`, `filepath.EvalSymlinks`, the text of an error, the
-- number of the process that a call starts, and the error of each call.
pub record Host : Type 0 where
  pub validate : String → Option Error
  pub namespace : Result String
  pub socket_address : String → Result String
  pub eval_symlinks : Bytes → Result Bytes
  pub error_text : Error → Bytes
  pub pid : List HostCall → ℕ
  pub answers : List HostCall → HostCall → Option Error

abbrev pub same : Resource → Resource → Bool
same (socket a) (socket b) = bytes_eq a b
same (directory a) (directory b) = bytes_eq a b
same (process a) (process b) = eqb a b
same (client a) (client b) = bytes_eq a b
same _ _ = false

-- A resource is given back.
unfoldable pub give_back : Resource → List Resource → List Resource
give_back r [] = []
give_back r (x ∷ xs) = if same r x then xs else x ∷ give_back r xs

unfoldable pub free : Resource → Local → Local
free r s = record s { held = give_back r s.held }

abbrev pub hold : Resource → Local → Local
hold r s = record s { held = r ∷ s.held }

abbrev pub share : Bytes → Local → Local
share dir s = record s { shared = dir ∷ s.shared }

-- What is held once `os.RemoveAll` has answered: a directory that it failed to remove is still there.
abbrev pub dir_removed : Option Error → Bytes → Local → Local
dir_removed none dir s = free (directory dir) s
dir_removed (some e) dir s = s

-- `strings.Contains`
unfoldable pub contains : Bytes → Bytes → Bool
contains [] p = has_prefix [] p
contains (c ∷ s) p = has_prefix (c ∷ s) p || contains s p

-- `os.MkdirAll` of the root directory, where one that exists will do.
abbrev made_root : Option Error → Bool
made_root (some exist) = true
made_root (some _) = false
made_root none = true

-- `newLocal`
unfoldable pub new_local :
    {Interface : Type 0} → Option Error → Source Interface → Result (Config Interface × Local)
new_local root_made source =
    if made_root root_made
    then elim (load_config source []) [
      | ok cfg ↦ ok (cfg, record { processes = []; held = []; shared = []; calls = [] })
      | err e ↦ err (wrap "failed to load config" e)
    ]
    else err
        (wrap "failed to create root directory: %s" (elim root_made [ some e ↦ e | none ↦ exist ]))

module _ (host : Host) where
  -- A call, and a call that leaves a resource when it succeeds.
  unfoldable pub ask : HostCall → Act Local (Unit {0})
  ask c s = attempt (host.answers s.calls c) (record s { calls = c ∷ s.calls })

  abbrev pub obtain : HostCall → Resource → Act Local (Unit {0})
  obtain c r = ask c >> modify (hold r)

  -- `isEADDRINUSE`
  unfoldable pub is_eaddrinuse : Error → Bool
  is_eaddrinuse e = contains (host.error_text e) (codes "address already in use")

  -- `FCControlSocketAddress`
  abbrev in_fccontrol : Result String → Result Bytes
  in_fccontrol (ok address) = ok (FilePath.join (codes address) (codes "fccontrol"))
  in_fccontrol (err e) = err e

  unfoldable pub fc_control_socket_address : String → Result Bytes
  fc_control_socket_address vm_id = in_fccontrol (host.socket_address vm_id)

  -- `ShimDir`
  unfoldable pub shim_dir : Bytes → String → String → Act Local Bytes
  shim_dir var_run_dir ns vm_id = do
    wrapping "invalid namespace" (attempt (host.validate ns))
    wrapping "invalid vm id" (attempt (host.validate vm_id))
    resolved ←
        wrapping "failed evaluating any symlinks in path %q" (lift (host.eval_symlinks var_run_dir))
    pure (FilePath.join (FilePath.join resolved (codes ns)) (codes vm_id))

  -- The process of `cmd.Start()`, under the number that the system gives it.
  unfoldable pub start_process : Bytes → List String → Act Local ℕ
  unfolding ask
  start_process dir args s =
      let number = host.pid s.calls in
      (do
        wrapping "failed to start shim child process" (ask (start dir args))
        modify (hold (process number))
        pure number)
        s

  -- `newShim`, without its goroutine. Files of the sockets are closed only when the process ends.
  unfoldable pub new_shim : Bytes → String → String → String → Bytes → Bytes → Act Local ℕ
  unfolding ask start_process
  new_shim base ns vm_id containerd_address shim_socket fc_socket = do
    dir ← wrapping "failed to create shim dir" (shim_dir base ns vm_id)
    wrapping "failed to get shim socket fd" (ask (socket_file shim_socket))
    wrapping "failed to get shim fccontrol socket fd" (ask (socket_file fc_socket))
    number ← start_process dir ("-namespace" ∷ ns ∷ "-address" ∷ containerd_address ∷ [])
    ask (set_oom_score number)
    pure number

  -- `os.RemoveAll`, whose error is only logged.
  unfoldable pub remove_dir : Bytes → Local → Local
  remove_dir dir s =
      dir_removed (host.answers s.calls (remove_all dir)) dir
        (record s { calls = remove_all dir ∷ s.calls })

  -- What the goroutine of `newShim` does when the shim's process, which it waits for, has ended: errors
  -- are only logged.
  unfoldable pub shim_exited : ℕ → Bytes → Bytes → Bytes → Local → Local
  unfolding remove_dir
  shim_exited number shim_socket fc_socket dir s = remove_dir dir (
      free (process number)
        (record s { calls = close_file fc_socket ∷ close_file shim_socket ∷ s.calls }))

  -- `shimFirecrackerClient`; a client is known by its address.
  unfoldable pub shim_firecracker_client : String → Act Local Bytes
  unfolding ask
  shim_firecracker_client vm_id = do
    wrapping "invalid id" (attempt (host.validate vm_id))
    address ←
        wrapping "failed to get shim's fccontrol socket address"
          (lift (fc_control_socket_address vm_id))
    obtain (connect address) (client address)
    pure address

  -- A call to the shim over the client, whose reply is an argument.
  abbrev pub call_shim : {A : Type 0} → String → Result A → Act Local A
  call_shim name reply s = (reply, record s { calls = forward name ∷ s.calls })

  -- `addShim`
  unfoldable pub add_shim : String → ℕ → Local → Local
  add_shim address number s = record s { processes = insert address number s.processes }
