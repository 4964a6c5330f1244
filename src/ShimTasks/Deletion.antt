-- ===== src/ShimTasks/Deletion.antt =====
-- runtime/service.go: `Delete` of the task service of the shim.
use abschlussarbeit.Common.{
  String, Option, none, some, [], ◌==◌, if◌then◌else◌, Error, wrap, not_exist, join, Result, ok,
  err, error_of,
}
use abschlussarbeit.Common.Act.{Act, pure, ◌>>=◌}
use abschlussarbeit.Common.Bytes.{Bytes}
use abschlussarbeit.TaskManager.{delete_process}
use abschlussarbeit.StubDrive.Handler.{release}
use abschlussarbeit.VmDir
use abschlussarbeit.VmDir.{Paths}
use abschlussarbeit.Bundle.{root_path}
use abschlussarbeit.ShimTasks.{ShimHost, ShimTasks, managing, noting, on_drives, remove, stat}

module _ (host : ShimHost) where
  -- The container's directory: what `BundleLink` finds, and the empty path beside its error.
  abbrev pub link_path : Result Bytes → Bytes
  link_path (ok path) = path
  link_path (err e) = []

  abbrev pub if_not_exist : Option Error → Option Error
  if_not_exist (some not_exist) = some not_exist
  if_not_exist _ = none

  abbrev pub wrapped : String → Option Error → Option Error
  wrapped msg none = none
  wrapped msg (some e) = some (wrap msg e)

  -- `Delete` from the point on where the container's first process is gone: all is tried, and the
  -- errors are joined.
  unfoldable pub delete_container : String → ShimTasks → Option Error × ShimTasks
  delete_container ident s =
      let (r, s1) = on_drives (release host.vm_answers ident) s in
      let link = VmDir.bundle_link host.validate host.shim_dir ident in
      let path = root_path (link_path link) in
      let found = if_not_exist (host.stat s1.calls path) in
      let s2 = noting (stat path) s1 in
      let removed = host.remove s2.calls path in
      (
        join
            (join
              (join (wrapped "failed to release stub drive for container: %s" (error_of r)) (
                wrapped "failed to find the bundle directory of the container: %s" (error_of link)))
              (wrapped "failed to find the bundle directory of the container: %s" found))
            (wrapped "failed to remove the bundle directory of the container: %s" removed),
        noting (remove path) s2,
      )

  abbrev pub replied : {A : Type 0} → A → Option Error × ShimTasks → Result A × ShimTasks
  replied resp (none, s) = (ok resp, s)
  replied resp (some e, s) = (err e, s)

  module _ {A : Type 0} where
    -- `Delete`, where `service` is what the agent answers.
    unfoldable pub delete : String → String → Result A → Act ShimTasks A
    unfolding delete_container
    delete task_id exec_id service = do
      resp ← managing (delete_process task_id exec_id service)
      if exec_id == "" then (λ s. replied resp (delete_container task_id s)) else pure resp
