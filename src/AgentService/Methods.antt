-- ===== src/AgentService/Methods.antt =====
-- agent/service.go: `Create`, `Exec` and `Delete` of the task service of the agent, with their deferred
-- functions.
use abschlussarbeit.Common.{String, Result}
use abschlussarbeit.Common.Act.{Act, pure, lift, modify, on_error, wrapping, ◌>>=◌, ◌>>◌}
use abschlussarbeit.Common.Bytes.{Bytes, codes}
use abschlussarbeit.TaskManager.{Launch, create_task, exec_process, delete_process}
use abschlussarbeit.IoProxy.{IoProxy}
use abschlussarbeit.Proto.{ExtraData, TaskRequest}
use abschlussarbeit.Bundle.{root_path, rootfs_path, vm_bundle_dir}
use abschlussarbeit.AgentService.{
  Agent, TaskService, add_cleanup, choose_proxy, do_cleanup, exec_cleanups_of, managing, remove_all,
  stat_rootfs, task_exec_id, unmount_all, unwind, write_oci_config,
}

module _ (agent : Agent) where
  module _ {A : Type 0} (launch : TaskRequest → IoProxy → Launch A) where
    -- `Create` from the inside out: the IO and the task, ...
    unfoldable pub create_task_with_io : Bytes → ExtraData Bytes → TaskRequest → Act TaskService A
    unfolding choose_proxy
    create_task_with_io key extra req = do
      (req', proxy) ← choose_proxy agent key req.bundle extra req (λ fifos s. s)
      wrapping "failed to create runc shim" (managing (create_task req'.id (launch req' proxy)))

    -- ... the file with the specification, ...
    unfoldable pub create_with_spec : Bytes → ExtraData Bytes → TaskRequest → Act TaskService A
    unfolding write_oci_config create_task_with_io
    create_with_spec key extra req = do
      wrapping "failed to write oci config file" (write_oci_config agent req.bundle extra.json_spec)
      create_task_with_io key extra req

    -- ... the root file system, ...
    unfoldable pub create_on_rootfs : Bytes → ExtraData Bytes → TaskRequest → Act TaskService A
    unfolding add_cleanup stat_rootfs create_with_spec
    create_on_rootfs key extra req = do
      stat_rootfs agent (rootfs_path req.bundle)
      modify (add_cleanup key (unmount_all (rootfs_path req.bundle)))
      create_with_spec key extra req

    -- ... and the bundle. From here on the deferred function waits.
    unfoldable pub create_in_bundle : Bytes → TaskRequest → ExtraData Bytes → Act TaskService A
    unfolding add_cleanup create_on_rootfs
    create_in_bundle key req extra = do
      modify (add_cleanup key (remove_all (root_path req.bundle)))
      create_on_rootfs key extra (record req { options = extra.runc_options })

    unfoldable pub create_guarded : Bytes → TaskRequest → Act TaskService A
    unfolding create_in_bundle
    create_guarded key req = do
      extra ← wrapping "failed to unmarshal extra data" (lift (agent.unmarshal req.options))
      create_in_bundle key req extra

    -- `Create`; `launch` is what runc and the IO answer.
    unfoldable pub create : TaskRequest → Act TaskService A
    unfolding create_guarded unwind
    create req = do
      key ← wrapping "invalid task and/or exec ID" (lift (task_exec_id agent.validate req.id ""))
      on_error (unwind agent key) (create_guarded key req)

    unfoldable pub exec_with_io : Bytes → TaskRequest → ExtraData Bytes → Act TaskService A
    unfolding choose_proxy exec_cleanups_of
    exec_with_io key req extra = do
      (req', proxy) ←
          choose_proxy agent key (vm_bundle_dir (codes req.id)) extra
            (record req { options = extra.runc_options }) (exec_cleanups_of key req)
      managing (exec_process req'.id req'.exec_id (launch req' proxy))

    -- `Exec` from the point on where its deferred function waits.
    unfoldable pub exec_guarded : Bytes → TaskRequest → Act TaskService A
    unfolding exec_with_io
    exec_guarded key req = do
      extra ← wrapping "failed to unmarshal extra data" (lift (agent.unmarshal req.options))
      exec_with_io key req extra

    -- `Exec`
    unfoldable pub exec : TaskRequest → Act TaskService A
    unfolding exec_guarded unwind
    exec req = do
      key ←
          wrapping "invalid task and/or exec ID"
            (lift (task_exec_id agent.validate req.id req.exec_id))
      on_error (unwind agent key) (exec_guarded key req)

  module _ {A : Type 0} where
    -- `Delete`, where `service` is what runc answers.
    unfoldable pub delete : String → String → Result A → Act TaskService A
    unfolding do_cleanup
    delete task_id exec_id service = do
      key ←
          wrapping "invalid task and/or exec ID"
            (lift (task_exec_id agent.validate task_id exec_id))
      resp ← managing (delete_process task_id exec_id service)
      wrapping "failed to cleanup task %q exec %q" (do_cleanup agent key)
      pure resp
