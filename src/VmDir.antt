-- ===== src/VmDir.antt =====
-- internal/vm/dir.go: the directory of a VM, and the links that the shim makes in it. `ShimDir`, which
-- finds the directory, stands in Control.
use abschlussarbeit.Common.{String, Option, Error, Result, ok, err, wrap}
use abschlussarbeit.Common.Act.{Act, lift, wrapping, wrap_result, ◌>>=◌}
use abschlussarbeit.Common.Bytes.{Bytes, codes}
use abschlussarbeit.Common.FilePath.{join}
use abschlussarbeit.Bundle

-- `Dir` is a path; `RootPath` is that path.
abbrev pub Dir : Type 0
Dir = Bytes

unfoldable pub root_path : Dir → Bytes
root_path d = d

-- `AddrFilePath`
unfoldable pub addr_file_path : Dir → Bytes
unfolding root_path
addr_file_path d = join (root_path d) (codes "address")

-- `LogFifoPath`
unfoldable pub log_fifo_path : Dir → Bytes
unfolding root_path
log_fifo_path d = join (root_path d) (codes "log")

-- `FirecrackerSockPath`
unfoldable pub firecracker_sock_path : Dir → Bytes
unfolding root_path
firecracker_sock_path d = join (root_path d) (codes "firecracker.sock")

-- `FirecrackerVSockPath`
unfoldable pub firecracker_vsock_path : Dir → Bytes
unfolding root_path
firecracker_vsock_path d = join (root_path d) (codes "firecracker.vsock")

-- `FirecrackerLogFifoPath`
unfoldable pub firecracker_log_fifo_path : Dir → Bytes
unfolding root_path
firecracker_log_fifo_path d = join (root_path d) (codes "fc-logs.fifo")

-- `FirecrackerMetricsFifoPath`
unfoldable pub firecracker_metrics_fifo_path : Dir → Bytes
unfolding root_path
firecracker_metrics_fifo_path d = join (root_path d) (codes "fc-metrics.fifo")

-- What `relPathTo` asks: `os.Getwd` and `filepath.Rel`.
pub record Paths : Type 0 where
  pub getwd : Result Bytes
  pub rel : Bytes → Bytes → Result Bytes

abbrev pub rel_to : (Bytes → Result Bytes) → Result Bytes → Result Bytes
rel_to rel (ok cwd) = wrap_result "failed to get relative path from %q to %q" (rel cwd)
rel_to rel (err e) = err (wrap "failed to get current working directory" e)

-- `relPathTo`
unfoldable pub rel_path_to : Paths → Bytes → Result Bytes
rel_path_to paths abs_path = rel_to (λ cwd. paths.rel cwd abs_path) paths.getwd

-- `FirecrackerSockRelPath`
unfoldable pub firecracker_sock_rel_path : Paths → Dir → Result Bytes
unfolding rel_path_to firecracker_sock_path
firecracker_sock_rel_path paths d = rel_path_to paths (firecracker_sock_path d)

-- `FirecrackerVSockRelPath`
unfoldable pub firecracker_vsock_rel_path : Paths → Dir → Result Bytes
unfolding rel_path_to firecracker_vsock_path
firecracker_vsock_rel_path paths d = rel_path_to paths (firecracker_vsock_path d)

abbrev pub link_of : Dir → String → Option Error → Result Bytes
link_of d container_id (Option.some e) = err (wrap "invalid container id %q" e)
link_of d container_id Option.none = ok (join (root_path d) (codes container_id))

-- `BundleLink`
unfoldable pub bundle_link : (String → Option Error) → Dir → String → Result Bytes
unfolding root_path
bundle_link validate d container_id = link_of d container_id (validate container_id)

-- The links that are made, in a state `S` in which `symlink` is the call of `os.Symlink`.
module _ {S : Type 0} (validate : String → Option Error)
    (symlink : Bytes → Bytes → Act S (Unit {0})) where
  -- `createSymlink`
  unfoldable pub create_symlink : Bytes → Bytes → Act S (Unit {0})
  create_symlink old_path new_path =
      wrapping "failed to create %s symlink from \"%s\"->\"%s\"" (symlink old_path new_path)

  -- `CreateBundleLink`
  unfoldable pub create_bundle_link : Dir → String → Bundle.Dir → Act S (Unit {0})
  unfolding bundle_link create_symlink
  create_bundle_link d container_id bundle_dir = do
    path ← lift (bundle_link validate d container_id)
    create_symlink (Bundle.root_path bundle_dir) (Bundle.root_path path)

  -- `CreateAddressLink`
  unfoldable pub create_address_link : Dir → String → Act S (Unit {0})
  unfolding bundle_link create_symlink addr_file_path
  create_address_link d container_id = do
    path ← lift (bundle_link validate d container_id)
    create_symlink (addr_file_path d) (Bundle.addr_file_path path)

  -- `CreateShimLogFifoLink`
  unfoldable pub create_shim_log_fifo_link : Dir → String → Act S (Unit {0})
  unfolding bundle_link create_symlink log_fifo_path
  create_shim_log_fifo_link d container_id = do
    path ← lift (bundle_link validate d container_id)
    create_symlink (Bundle.log_fifo_path path) (log_fifo_path d)
