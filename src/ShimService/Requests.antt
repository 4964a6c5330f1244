-- ===== src/ShimService/Requests.antt =====
-- runtime/service.go: `GetVMInfo` and the calls about the metadata of a VM, which wait for the VM first.
use abschlussarbeit.Common.{ℕ, String, false, [], ◌||◌, ◌≡◌, arith, Error, status, deadline, err}
use abschlussarbeit.Common.Act.{Act, pure, wrapping, ◌>>◌}
use abschlussarbeit.Common.Bytes.{Bytes, codes}
use abschlussarbeit.Jailer.{Jail, noop, runc, cgroup_path}
use abschlussarbeit.ShimService.{
  Service, World, ask, wait_vm_ready, set_metadata, update_metadata, get_metadata, stop_vm,
}
use abschlussarbeit.VmDir.{Dir, firecracker_sock_path}

-- `GetVMInfoResponse`
pub record VmInfo : Type 0 where
  pub vm_id : String
  pub socket_path : Bytes
  pub log_fifo_path : Bytes
  pub metrics_fifo_path : Bytes
  pub cgroup_path : Bytes

-- Only the runc jailer is a `cgroupPather`.
abbrev pub cgroup_path_of : String → Jail → Bytes
cgroup_path_of vm_id (noop dir) = []
cgroup_path_of vm_id (runc cfg) = cgroup_path cfg (codes vm_id)

module _ (w : World) where
  -- `GetVMInfo`, for the shim's jailer, its directory and the two paths of its configuration.
  unfoldable pub get_vm_info : String → Jail → Dir → Bytes → Bytes → Act Service VmInfo
  get_vm_info vm_id jail dir log_fifo metrics_fifo = do
    wait_vm_ready w
    pure (record {
      vm_id = vm_id;
      socket_path = firecracker_sock_path dir;
      log_fifo_path = log_fifo;
      metrics_fifo_path = metrics_fifo;
      cgroup_path = cgroup_path_of vm_id jail;
    })

  -- `SetVMMetadata`
  unfoldable pub set_vm_metadata : String → Act Service (Unit {0})
  set_vm_metadata metadata = do
    wait_vm_ready w
    wrapping "failed to set VM metadata" (ask w (set_metadata metadata))

  -- `UpdateVMMetadata`
  unfoldable pub update_vm_metadata : String → Act Service (Unit {0})
  update_vm_metadata metadata = do
    wait_vm_ready w
    wrapping "failed to update VM metadata" (ask w (update_metadata metadata))

  -- `GetVMMetadata`, where `metadata` is what the VMM has.
  unfoldable pub get_vm_metadata : String → Act Service String
  get_vm_metadata metadata = do
    wait_vm_ready w
    wrapping "failed to get VM metadata" (ask w get_metadata)
    pure metadata

  abbrev pub not_ready : Error
  not_ready = status deadline "timed out waiting for VM start"

  -- While the VM is not ready, and does not become so in time, every request about it is refused with
  -- the status `DeadlineExceeded`, and nothing is asked of the VMM and nothing changes.
  pub requests_refused :
      (s : Service) (vm_id metadata : String) (jail : Jail) (dir : Dir) (log metrics : Bytes)
      (timeout : ℕ)
      → s.vm_ready || w.ready_in_time ≡ false
      → (get_vm_info vm_id jail dir log metrics s ≡ (err not_ready, s))
        × (set_vm_metadata metadata s ≡ (err not_ready, s))
        × (update_vm_metadata metadata s ≡ (err not_ready, s))
        × (get_vm_metadata metadata s ≡ (err not_ready, s))
        × (stop_vm w timeout s ≡ (err not_ready, s))
  unfolding get_vm_info set_vm_metadata update_vm_metadata get_vm_metadata stop_vm wait_vm_ready
  requests_refused s vm_id metadata jail dir log metrics timeout h =
      (ground arith, ground arith, ground arith, ground arith, ground arith)
