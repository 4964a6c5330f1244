-- ===== src/Bundle.antt =====
-- internal/bundle/bundle.go: the paths in the bundle of a container.
use abschlussarbeit.Common.Bytes.{Bytes, codes}
use abschlussarbeit.Common.FilePath.{join}

-- `Dir` is a path; `RootPath` is that path.
abbrev pub Dir : Type 0
Dir = Bytes

unfoldable pub root_path : Dir → Bytes
root_path d = d

-- `VMBundleDir`
unfoldable pub vm_bundle_dir : Bytes → Dir
vm_bundle_dir task_id = join (codes "/container") task_id

-- `AddrFilePath`
unfoldable pub addr_file_path : Dir → Bytes
unfolding root_path
addr_file_path d = join (root_path d) (codes "address")

-- `LogFifoPath`
unfoldable pub log_fifo_path : Dir → Bytes
unfolding root_path
log_fifo_path d = join (root_path d) (codes "log")

-- `RootfsPath`
unfoldable pub rootfs_path : Dir → Bytes
unfolding root_path
rootfs_path d = join (root_path d) (codes "rootfs")

-- `OCIConfigPath`
unfoldable pub oci_config_path : Dir → Bytes
unfolding root_path
oci_config_path d = join (root_path d) (codes "config.json")
