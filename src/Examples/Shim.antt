-- ===== src/Examples/Shim.antt =====
-- The shim's task service of runtime/service.go on concrete inputs.
use abschlussarbeit.Common.{
  ℕ, true, false, none, some, List, [], ◌∷◌, ◌≡◌, refl, external, Result, ok, err, is_err,
}
use abschlussarbeit.Common.Bytes.{Bytes, codes}
use abschlussarbeit.Common.Assoc.{lookup, insert}
use abschlussarbeit.Common.Bytes.{bytes_eq}
use abschlussarbeit.VmDir.{create_bundle_link, create_address_link, firecracker_vsock_rel_path}
use abschlussarbeit.StubDrive.Handler.{reserve, release, patch_and_mount}
use abschlussarbeit.StubDrive.Options.{set_read_write_options}
use abschlussarbeit.ShimService.Ports.{generate_extra_data, next_vsock_port}
use abschlussarbeit.IoProxy.{is_agent_only_io}
use abschlussarbeit.Common.FilePath.{join}
use abschlussarbeit.Proto.{ExtraData, TaskRequest}
use abschlussarbeit.TaskManager.{Launch, new_task_manager, create_task, delete_process}
use abschlussarbeit.TaskManager.View.{proc_at}
use abschlussarbeit.StubDrive.Create.{StubDrive, blank_mount}
use abschlussarbeit.IoProxy.{IoProxy}
use abschlussarbeit.AgentService.{
  Agent, FifoSet, TaskService, agent_proxy, choose_proxy, with_fifos,
}
use abschlussarbeit.ShimTasks.{ShimHost, ShimTasks, create, shim_proxy, new_io_proxy}
use abschlussarbeit.ShimTasks.Deletion.{delete}
use abschlussarbeit.ShimTasks.Steps.{core}
use abschlussarbeit.ShimTasks.Drives.{Ends, create_outcome, create_failed-delete}
use abschlussarbeit.ShimTasks.Rounds.{create-delete}
use abschlussarbeit.ShimTasks.Streams.{Meets, proxies-Meet}

abbrev host : ShimHost
host = record {
  ready = none;
  validate = λ ident. none;
  shim_dir = codes "/run/vm";
  jail_path = codes "/run/jail";
  paths = record { getwd = ok (codes "/run"); rel = λ cwd path. ok path };
  url_scheme = λ url. ok [];
  symlink = λ calls old new. none;
  read_file = λ calls path. ok (codes "{}");
  stat = λ calls path. none;
  remove = λ calls path. none;
  marshal = λ extra. ok [];
  vm_answers = λ calls c. none;
}

abbrev start : ShimTasks
start = record {
  drives = record {
    handler = record {
      free_drives =
          record {
            stub_path = codes "a";
            drive_id = codes "a";
            drive_mount = blank_mount true none;
          }
          ∷ [];
      used_drives = [];
    };
    calls = [];
  };
  manager = new_task_manager;
  vsock_io_port_count = 0;
  calls = [];
}

abbrev req : TaskRequest
req = record {
  id = "task";
  exec_id = "";
  bundle = codes "/bundle";
  rootfs = codes "/dev/sdb" ∷ [];
  stdin = [];
  stdout = codes "/fifo";
  stderr = [];
  terminal = false;
  options = none;
}

abbrev answering : Result ℕ → TaskRequest → IoProxy → Launch ℕ
answering service r proxy = record { service = service; io_init = none }

create_outcome_example :
    Ends host (answering (ok 1)) req (core start) (create host (answering (ok 1)) req start)
create_outcome_example = create_outcome host (answering (ok 1)) req start

nothing_there : proc_at "task" "" start.manager ≡ none
unfolding proc_at lookup new_task_manager
nothing_there = refl

create_fails : is_err (create host (answering (err (external 1))) req start).0 ≡ true
unfolding create create_bundle_link create_address_link reserve lookup set_read_write_options
    patch_and_mount generate_extra_data next_vsock_port firecracker_vsock_rel_path is_agent_only_io
    bytes_eq create_task new_task_manager
create_fails = refl

abbrev deleted : Result ℕ
deleted = ok 0

create_failed-delete_example :
    is_err
      (delete host "task" "" deleted (create host (answering (err (external 1))) req start).1).0
    ≡ true
create_failed-delete_example =
    (create_failed-delete host (answering (err (external 1))) req start deleted nothing_there
      create_fails).0

create_works : is_err (create host (answering (ok 1)) req start).0 ≡ false
unfolding create create_bundle_link create_address_link reserve lookup set_read_write_options
    patch_and_mount generate_extra_data next_vsock_port firecracker_vsock_rel_path is_agent_only_io
    bytes_eq create_task new_task_manager
create_works = refl

delete_works :
    is_err (delete host "task" "" deleted (create host (answering (ok 1)) req start).1).0 ≡ false
unfolding delete create create_bundle_link create_address_link reserve lookup set_read_write_options
    patch_and_mount generate_extra_data next_vsock_port firecracker_vsock_rel_path is_agent_only_io
    bytes_eq create_task new_task_manager delete_process insert release
delete_works = refl

create-delete_example :
    (d : StubDrive) × (rest : List StubDrive) × (start.drives.handler.free_drives ≡ d ∷ rest)
create-delete_example =
    let (source, d, rest, free, _, _, _) =
      create-delete host (answering (ok 1)) req deleted start create_works delete_works in
    (d, rest, free)

abbrev extra : ExtraData Bytes
extra = record {
  json_spec = [];
  runc_options = none;
  stdin_port = 11000;
  stdout_port = 11001;
  stderr_port = 11002;
}

abbrev fifos : FifoSet
fifos = record { stdin = codes "/0"; stdout = codes "/1"; stderr = codes "/2" }

abbrev agent : Agent
agent = record {
  validate = λ ident. none;
  unmarshal = λ any. ok extra;
  url_scheme = λ url. ok [];
  stat = λ calls path. ok true;
  write_file = λ calls path. none;
  new_fifo_set = λ calls dir. ok fifos;
  clean = λ calls c. none;
}

abbrev service : TaskService
service = record { manager = new_task_manager; exec_cleanups = λ k. []; calls = [] }

abbrev passed : TaskRequest
passed = record req { bundle = codes "/container/task"; rootfs = []; options = some [] }

abbrev vsock : Bytes
vsock = join (codes "/run/jail") (codes "firecracker.vsock")

shim_has_proxy : new_io_proxy host extra req ≡ ok (shim_proxy vsock extra req)
unfolding new_io_proxy firecracker_vsock_rel_path is_agent_only_io bytes_eq
shim_has_proxy = refl

agent_has_proxy :
    (choose_proxy agent [] [] extra passed (λ f s. s) service).0
    ≡ ok (with_fifos fifos passed, agent_proxy extra fifos passed)
unfolding choose_proxy is_agent_only_io bytes_eq
agent_has_proxy = refl

proxies-Meet_example : Meets extra (shim_proxy vsock extra req) (agent_proxy extra fifos passed)
proxies-Meet_example =
    proxies-Meet host agent (λ path. refl) [] [] (codes "/container/task") [] (some []) extra req
      (with_fifos fifos passed) (shim_proxy vsock extra req) (agent_proxy extra fifos passed)
      (λ f s. s) service shim_has_proxy agent_has_proxy
