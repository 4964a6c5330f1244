-- ===== src/Examples/Agent.antt =====
-- The agent's task service of agent/service.go on concrete inputs.
use abschlussarbeit.Common.{
  ℕ, String, true, false, Option, none, some, [], ◌∷◌, ◌≡◌, refl, ◌==◌, eq_iff, if◌then◌else◌,
  Error, external, ok, err, is_err, Bool-cases, inl, inr, arith,
}
use abschlussarbeit.Common.Bytes.{Bytes, codes, bytes_eq}
use abschlussarbeit.Common.Assoc.{lookup}
use abschlussarbeit.Common.Base64.{encode}
use abschlussarbeit.Proto.{ExtraData, TaskRequest}
use abschlussarbeit.TaskManager.{Launch, new_task_manager, create_task, exec_process}
use abschlussarbeit.IoProxy.{IoProxy, is_agent_only_io}
use abschlussarbeit.AgentService.{Agent, TaskService, remove_all, task_exec_id, with_fifos}
use abschlussarbeit.AgentService.Methods.{create, exec}
use abschlussarbeit.AgentService.Identity.{IsStrict, task_exec_id-injective}
use abschlussarbeit.AgentService.Unwinding.{
  IsUnwound, create_cleanups, exec_cleanups, create-IsUnwound, exec-IsUnwound,
}

-- A validation that knows one good ID.
abbrev validate : String → Option Error
validate ident = if ident == "task" then none else some (external 1)

validate-IsStrict : IsStrict validate
validate-IsStrict ident h = elim (Bool-cases (ident == "task")) [
  | inl same ↦ rw ((eq_iff ident "task").0 same) (ground arith)
  | inr other ↦ absurd (cc (rw other at h))
]

abbrev key : Bytes
key = encode (codes "task/")

key_of_task : task_exec_id validate "task" "" ≡ ok key
unfolding task_exec_id encode
key_of_task = refl

task_exec_id-injective_example : ◌≡◌ {A = String} "task" "task" × ◌≡◌ {A = String} "" ""
task_exec_id-injective_example =
    task_exec_id-injective validate validate-IsStrict "task" "task" "" "" key key_of_task
      key_of_task

abbrev extra : ExtraData Bytes
extra = record {
  json_spec = codes "{}";
  runc_options = none;
  stdin_port = 11000;
  stdout_port = 11001;
  stderr_port = 11002;
}

abbrev agent : Agent
agent = record {
  validate = validate;
  unmarshal = λ any. ok extra;
  url_scheme = λ url. ok [];
  stat = λ calls path. ok true;
  write_file = λ calls path. none;
  new_fifo_set =
      λ calls dir. ok (record { stdin = codes "/0"; stdout = codes "/1"; stderr = codes "/2" });
  clean = λ calls c. none;
}

abbrev req : TaskRequest
req = record {
  id = "task";
  exec_id = "";
  bundle = codes "/container/task";
  rootfs = [];
  stdin = [];
  stdout = codes "/fifo";
  stderr = [];
  terminal = false;
  options = none;
}

-- A service with a task whose clean-ups are registered, and a runc that refuses.
abbrev running : TaskService
running = record {
  manager = new_task_manager;
  exec_cleanups = λ k. remove_all (codes "/container/task") ∷ [];
  calls = [];
}

abbrev refusing : TaskRequest → IoProxy → Launch ℕ
refusing r proxy = record { service = err (external 3); io_init = none }

create_fails : is_err (create agent refusing req running).0 ≡ true
unfolding create task_exec_id is_agent_only_io bytes_eq create_task new_task_manager lookup
create_fails = refl

create-IsUnwound_example :
    IsUnwound key
      (create_cleanups agent req running.calls)
      running
      (create agent refusing req running).1
create-IsUnwound_example = create-IsUnwound agent refusing req running key key_of_task create_fails

exec_fails : is_err (exec agent refusing req running).0 ≡ true
unfolding exec task_exec_id is_agent_only_io bytes_eq exec_process new_task_manager lookup
    with_fifos
exec_fails = refl

exec-IsUnwound_example :
    IsUnwound key
      (exec_cleanups agent req running.calls)
      running
      (exec agent refusing req running).1
exec-IsUnwound_example = exec-IsUnwound agent refusing req running key key_of_task exec_fails
