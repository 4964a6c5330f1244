-- ===== src/ShimTasks/Steps.antt =====
-- runtime/service.go: the steps of `Create` that touch neither the stub drives nor the tasks.
use abschlussarbeit.Common.{ℕ, String, Option, none, some, refl}
use abschlussarbeit.Common.Act.{pure, lift, attempt, wrapping, bind-Leaves, Leaves, ◌>>=◌, ◌>>◌}
use abschlussarbeit.Common.Bytes.{Bytes}
use abschlussarbeit.TaskManager.{TaskManager}
use abschlussarbeit.StubDrive.Handler.{Vm}
use abschlussarbeit.Proto.{TaskRequest, ExtraData}
use abschlussarbeit.VmDir
use abschlussarbeit.Bundle.{root_path, addr_file_path}
use abschlussarbeit.ShimService.Ports.{generate_extra_data}
use abschlussarbeit.ShimTasks.{
  ShimTasks, ShimHost, new_io_proxy, generate, counted, make_symlink, prepare_io, link_bundle,
  only_mount, find_rootfs,
}

-- What the first steps of `Create` do not touch.
abbrev pub core : ShimTasks → Vm × TaskManager
core s = (s.drives, s.manager)

module _ (host : ShimHost) where
  create_bundle_link-Leaves :
      (ident : String) (bundle : Bytes)
      → Leaves core
          (VmDir.create_bundle_link host.validate (make_symlink host) host.shim_dir ident bundle)
  unfolding VmDir.create_bundle_link VmDir.create_symlink make_symlink
  create_bundle_link-Leaves ident bundle =
      bind-Leaves core (lift (VmDir.bundle_link host.validate host.shim_dir ident))
        (λ path.
          VmDir.create_symlink host.validate (make_symlink host) (root_path bundle)
            (root_path path))
        (λ t. refl) (λ path t. refl)

  create_address_link-Leaves :
      (ident : String)
      → Leaves core
          (VmDir.create_address_link host.validate (make_symlink host) host.shim_dir ident)
  unfolding VmDir.create_address_link VmDir.create_symlink make_symlink
  create_address_link-Leaves ident =
      bind-Leaves core (lift (VmDir.bundle_link host.validate host.shim_dir ident))
        (λ path.
          VmDir.create_symlink host.validate (make_symlink host)
            (VmDir.addr_file_path host.shim_dir) (addr_file_path path))
        (λ t. refl) (λ path t. refl)

  link_bundle-Leaves : (req : TaskRequest) → Leaves core (link_bundle host req)
  unfolding link_bundle
  link_bundle-Leaves req =
      bind-Leaves core
        (wrapping "failed to create VM dir bundle link" (
          VmDir.create_bundle_link host.validate (make_symlink host) host.shim_dir req.id
            req.bundle))
        (λ _.
          wrapping "failed to create shim address symlink"
            (VmDir.create_address_link host.validate (make_symlink host) host.shim_dir req.id))
        (create_bundle_link-Leaves req.id req.bundle) (λ _. create_address_link-Leaves req.id)

  pub find_rootfs-Leaves : (req : TaskRequest) → Leaves core (find_rootfs host req)
  unfolding find_rootfs
  find_rootfs-Leaves req =
      bind-Leaves core (attempt host.ready)
        (λ _. link_bundle host req >> lift (only_mount req.rootfs)) (λ t. refl)
        (λ _.
          bind-Leaves core (link_bundle host req) (λ _. lift (only_mount req.rootfs))
            (link_bundle-Leaves req) (λ _ t. refl))

  counted-Leaves : (o : Option (ExtraData Bytes × ℕ)) → Leaves core (counted o)
  counted-Leaves none s = refl
  counted-Leaves (some (extra, count)) s = refl

  pub prepare_io-Leaves :
      (json : Bytes) (req : TaskRequest) → Leaves core (prepare_io host json req)
  unfolding prepare_io generate
  prepare_io-Leaves json req =
      bind-Leaves core (generate json req.options)
        (λ extra. wrapping "failed to marshal extra data" (lift (host.marshal extra)) >>= λ options.
          lift (new_io_proxy host extra req) >>= λ proxy. pure (options, proxy))
        (λ s. counted-Leaves (generate_extra_data json req.options s.vsock_io_port_count) s)
        (λ extra.
          bind-Leaves core (wrapping "failed to marshal extra data" (lift (host.marshal extra)))
            (λ options. lift (new_io_proxy host extra req) >>= λ proxy. pure (options, proxy))
            (λ t. refl)
            (λ options.
              bind-Leaves core (lift (new_io_proxy host extra req)) (λ proxy. pure (options, proxy))
                (λ t. refl) (λ proxy t. refl)))
