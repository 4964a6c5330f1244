-- ===== src/Jailer/Noop.antt =====
-- runtime/noop_jailer.go, and `jailerCommand` of runtime/runc_jailer.go: the processes in which the
-- jailers run Firecracker. The SDK's `VMCommandBuilder` and the system's signals are arguments.
use abschlussarbeit.Common.{
  ℕ, Bool, Option, none, some, List, [], ◌∷◌, eqb, if◌then◌else◌, Error, errorf, Result, ok, err,
}
use abschlussarbeit.Common.Act.{Act}
use abschlussarbeit.Common.Bytes.{Bytes, codes, bytes_eq}
use abschlussarbeit.Jailer.{JailConfig}
use abschlussarbeit.VmDir.{Dir, Paths, firecracker_sock_rel_path, root_path}

-- `exec.Cmd`, as far as the jailers set it: the command line, the directory, and whether the output
-- goes to the log.
pub record Command : Type 0 where
  pub args : List Bytes
  pub dir : Bytes
  pub logged : Bool

-- `noopJailer`, with the processes that it has signalled and the directories that it has removed.
pub record NoopJailer : Type 0 where
  pub shim_dir : Dir
  pub pid : ℕ
  pub signalled : List ℕ
  pub removed : List Bytes

-- `newNoopJailer`
abbrev pub new_noop_jailer : Dir → NoopJailer
new_noop_jailer shim_dir = record { shim_dir = shim_dir; pid = 0; signalled = []; removed = [] }

-- The options for the machine: the process, and the handler that notes its number.
pub data MachineOpt : Type 0 where
  with_process_runner : Command → MachineOpt
  append_pid_handler : MachineOpt

module _ (command : Bytes → Bytes → List Bytes) where
  abbrev pub noop_opts : Bytes → Bool → Result Bytes → Result (List MachineOpt)
  noop_opts binary log_output (err e) = err e
  noop_opts binary log_output (ok sock) = ok (
      with_process_runner (record { args = command binary sock; dir = []; logged = log_output })
      ∷ append_pid_handler
      ∷ [])

  -- `BuildJailedMachine`; without a path to the binary there is nothing to do.
  unfoldable pub build_noop_machine : Paths → Bytes → Bool → NoopJailer → Result (List MachineOpt)
  build_noop_machine paths binary log_output j =
      if bytes_eq binary []
      then ok []
      else noop_opts binary log_output (firecracker_sock_rel_path paths j.shim_dir)

-- The handler, where `number` is what `PID` of the machine returns.
unfoldable pub pid_handler : Result ℕ → Act NoopJailer (Unit {0})
pid_handler (ok number) j = (ok tt, record j { pid = number })
pid_handler (err e) j = (err e, j)

-- The answer to a signal: a process that has ended will do.
abbrev pub unless_finished : (Error → Bytes) → Option Error → Result (Unit {0})
unless_finished text none = ok tt
unless_finished text (some e) =
    if bytes_eq (text e) (codes "os: process already finished") then ok tt else err e

abbrev pub terminate :
    (Error → Bytes)
    → Option Error
    → (ℕ → Option Error)
    → NoopJailer
    → Result (Unit {0}) × NoopJailer
terminate text (some e) answer j = (err e, j)
terminate text none answer j =
    (unless_finished text (answer j.pid), record j { signalled = j.pid ∷ j.signalled })

-- `Stop`, where `found` is the error of `os.FindProcess`.
unfoldable pub stop_noop :
    (Error → Bytes) → Option Error → (ℕ → Option Error) → Act NoopJailer (Unit {0})
stop_noop text found answer j =
    if eqb j.pid 0
    then (err (errorf "the machine hasn't been started" []), j)
    else terminate text found answer j

-- `Close`, with the answer of `os.RemoveAll`.
unfoldable pub close_noop : (Bytes → Option Error) → NoopJailer → Option Error × NoopJailer
close_noop remove_all j =
    let dir = root_path j.shim_dir in (remove_all dir, record j { removed = dir ∷ j.removed })

-- `jailerCommand` of the runc jailer
unfoldable pub jailer_command : JailConfig → Bytes → Bool → Command
jailer_command cfg container_name is_debug = record {
  args = cfg.runc_bin_path ∷ codes "run" ∷ container_name ∷ [];
  dir = cfg.oci_bundle_path;
  logged = is_debug;
}
