-- ===== src/Examples/Vms.antt =====
-- The agent's mounts and the shim's VM on concrete inputs.
use abschlussarbeit.Common.{
  ℕ, zero, suc, ◌+◌, ◌≡◌, ◌↔◌, refl, true, false, Option, none, some, List, [], ◌∷◌, ◌++◌, arith,
  inr, Error, errno, status, already_exists, Result, ok, err, is_err, inl,
}
use abschlussarbeit.Common.Bytes.{Bytes, codes, bytes_eq}
use abschlussarbeit.Common.Assoc.{is_empty}
use abschlussarbeit.Common.FilePath.Prefix.{begins}
use abschlussarbeit.Common.FilePath.{clean, split, join}
use abschlussarbeit.StubContent.{magic_stub_bytes, is_stub_drive, parse_stub_content}
use abschlussarbeit.LogLevels.Parse.{trim_space}
use abschlussarbeit.TaskManager.{new_task_manager, new_proc}
use abschlussarbeit.DriveMount.Discovery.{Drive, DriveHandler, Guest, new_drive_handler, find_drive}
use abschlussarbeit.DriveMount.Discovery.Found.{IsFound, new_drive_handler-IsFound}
use abschlussarbeit.DriveMount.SystemDir.{
  is_system_dir, is_system_dir-none, IsUnderBanned, eval_any_symlinks,
}
use abschlussarbeit.DriveMount.Retry.{
  mkdir_all, mount_all, MountDriveRequest, GuestAnswers, is_retryable_mount_error, mount_drive,
}
use abschlussarbeit.DriveMount.Retry.Settling.{
  IsReady, rounds, AllRetry, mount_drive-settles, mount_drive_refused,
}
use abschlussarbeit.ShimService.{machine_start, Service, World, create_vm, shutdown_request}
use abschlussarbeit.ShimService.History.{
  Handling, creating, stopping, shutting_down, vm_exited, handle_all, life-IsOrderly,
}
use abschlussarbeit.ShimService.History.Orderly.{IsOrderly, summary}
use abschlussarbeit.ShimService.Lifecycle.{Outcome, create_vm-once, shutdown_request-stops}
use abschlussarbeit.ShimService.Ports.{
  ports_from, generate_extra_data, next_vsock_port, Ascending, min_vsock_io_port,
  ports_from-Ascending,
}

abbrev pub no_links : Bytes → Result Bytes
no_links path = ok path

is_system_dir-none_example : (is_system_dir no_links (codes "/mnt") ≡ none) ↔ (
    (resolved : Bytes) × (eval_any_symlinks no_links (codes "/mnt") ≡ ok resolved)
    × ¬ IsUnderBanned resolved)
is_system_dir-none_example = is_system_dir-none no_links (codes "/mnt")

abbrev drive : Drive
drive = record {
  name = codes "vdb";
  drive_id = codes "ID";
  major_minor = codes "8:0";
  drive_path = codes "/dev";
}

abbrev handler : DriveHandler
handler = record {
  drives = (codes "ID", drive) ∷ [];
  block_path = codes "/sys/block";
  drive_path = codes "/dev";
}

abbrev request : MountDriveRequest
request = record {
  drive_id = codes "ID";
  destination_path = codes "/mnt";
  filesystem_type = "ext4";
  options = [];
}

abbrev answer : ℕ → Option Error
answer zero = some (errno 22)
answer (suc n) = none

abbrev guest : (ℕ → Option Error) → GuestAnswers
guest mounts = record {
  eval_symlinks = no_links;
  mkdir_answer = λ path. none;
  mount_answer = mounts;
  unmount_answer = λ path. none;
}

abbrev always : ℕ → Option Error
always n = some (errno 22)

mnt_allowed : ¬ IsUnderBanned (codes "/mnt")
unfolding split clean bytes_eq begins
mnt_allowed (inl h) = cc h
mnt_allowed (inr (inl h)) = cc h
mnt_allowed (inr (inr h)) = cc h

is_ready : (mounts : ℕ → Option Error) → IsReady (guest mounts) handler request drive
is_ready mounts = record {
  known = unfold find_drive bytes_eq in refl;
  allowed =
      (is_system_dir-none no_links (codes "/mnt")).1
        (codes "/mnt", unfold eval_any_symlinks split clean join in refl, mnt_allowed);
  made = refl;
}

all_retry : (k i : ℕ) → AllRetry (guest always) k i
all_retry zero i = tt
all_retry (suc k) i = (unfold is_retryable_mount_error in refl, all_retry k (i + 1))

mount_drive-settles_example : mount_drive (guest answer) handler request [] ≡ (
  ok tt,
  mount_all (codes "/dev/vdb") "ext4" [] (codes "/mnt")
      ∷ rounds (guest answer) 1 drive request (mkdir_all (codes "/mnt") ∷ []),
)
unfolding join
mount_drive-settles_example =
    mount_drive-settles (guest answer) handler request drive [] 1 (ok tt) (is_ready answer)
      (omega arith) (unfold is_retryable_mount_error in refl, tt) refl

abbrev unknown : MountDriveRequest
unknown = record {
  drive_id = codes "X";
  destination_path = codes "/mnt";
  filesystem_type = "ext4";
  options = [];
}

mount_drive_refused_example :
    (is_err (mount_drive (guest always) handler unknown []).0 ≡ true)
    × ((mount_drive (guest always) handler unknown []).1 ≡ [])
mount_drive_refused_example =
    mount_drive_refused (guest always) handler unknown [] (inl (unfold find_drive bytes_eq in refl))

abbrev world : World
world = record {
  answers = λ calls c. none;
  vm_answers = λ calls c. none;
  pid = λ n. (1, none);
  ready_in_time = false;
}

abbrev shim : Service
shim = record {
  tasks = new_task_manager;
  start_once = false;
  vm_ready = false;
  exit_after_all_tasks_deleted = true;
  connected = false;
  drive_mount_stubs = [];
  cleanup_once = none;
  cancelled = false;
  monitored = false;
  calls = [];
  vm_calls = [];
}

-- The shim with a VM that runs.
abbrev running : Service
running = record shim { connected = true; calls = machine_start ∷ [] }

abbrev a_life : List Handling
a_life =
    stopping world 3
    ∷ creating world true
    ∷ creating world false
    ∷ vm_exited world
    ∷ shutting_down world true
    ∷ []

life-IsOrderly_example : IsOrderly (summary (handle_all a_life shim))
life-IsOrderly_example = life-IsOrderly a_life shim refl refl refl refl

create_vm-once_example :
    Outcome world (create_vm world true shim)
    × (create_vm world false (create_vm world true shim).1 ≡ (
      err (status already_exists "shim cannot create VM more than once"),
      (create_vm world true shim).1,
    ))
create_vm-once_example = create_vm-once world true false shim refl refl

shutdown_request-stops_example :
    let t = (shutdown_request world false running).1 in
    ((e : Option Error) × (t.cleanup_once ≡ some e)) × (is_err (new_proc "t" "" t.tasks).0 ≡ true)
unfolding new_task_manager is_empty
shutdown_request-stops_example = shutdown_request-stops world running "t" "" refl refl refl refl

abbrev six_ports : List ℕ
six_ports = 11000 ∷ 11001 ∷ 11002 ∷ 11003 ∷ 11004 ∷ 11005 ∷ []

ports_from-Ascending_example : Ascending (min_vsock_io_port + 0) six_ports
unfolding ports_from generate_extra_data next_vsock_port
ports_from-Ascending_example = ports_from-Ascending 2 0 six_ports (omega arith) refl

abbrev stub_bytes : Bytes
stub_bytes = magic_stub_bytes ++ 2 ∷ codes "ID"

abbrev files : Guest
files = record { read_dir = λ dir. ok (codes "vdb" ∷ []); content = λ path. ok stub_bytes }

abbrev or_handler : Result DriveHandler → DriveHandler
or_handler (ok dh) = dh
or_handler (err e) = handler

abbrev found : DriveHandler
found = or_handler (new_drive_handler files (codes "/sys/block") (codes "/dev"))

abbrev found_drive : Drive
found_drive = record {
  name = codes "vdb";
  drive_id = codes "ID";
  major_minor = trim_space stub_bytes;
  drive_path = codes "/dev";
}

new_drive_handler-IsFound_example :
    IsFound files (codes "/sys/block") (codes "/dev") (codes "ID") found_drive
unfolding new_drive_handler is_stub_drive bytes_eq parse_stub_content find_drive
new_drive_handler-IsFound_example =
    new_drive_handler-IsFound files (codes "/sys/block") (codes "/dev") found (codes "ID")
      found_drive refl refl
