-- ===== src/Examples/Tasks.antt =====
-- The task manager of internal/vm/task.go on concrete inputs.
use abschlussarbeit.Common.{ℕ, ◌≡◌, refl, true, none, some, List, [], ◌∷◌, errorf, ok, is_err}
use abschlussarbeit.Common.Assoc.{lookup, is_empty}
use abschlussarbeit.TaskManager.{
  new_task_manager, Launch, new_proc, shutdown_if_empty, exec_process, create_task, launch,
}
use abschlussarbeit.TaskManager.View
use abschlussarbeit.TaskManager.Launching.{exec_process_rolls_back}
use abschlussarbeit.TaskManager.Refinement.{Steps, empty_table, table_of, run_refines_table}
use abschlussarbeit.TaskManager.Invariant.{
  Op, begin, delete, try_shutdown, run, IsValid, run-IsValid, shutdown_final,
}

abbrev some_ops : List Op
some_ops =
    begin "t" "" ∷ begin "t" "e" ∷ delete "t" "e" ∷ delete "t" "" ∷ try_shutdown ∷ begin "u" "" ∷ []

run-IsValid_example : IsValid (run some_ops new_task_manager)
run-IsValid_example = run-IsValid some_ops

shutdown_final_example :
    let n = run some_ops (shutdown_if_empty (run [] new_task_manager)).1 in
    (is_empty n.tasks ≡ true) × (is_err (new_proc "t" "" n).0 ≡ true) × ((new_proc "t" "" n).1 ≡ n)
unfolding run shutdown_if_empty new_task_manager is_empty
shutdown_final_example =
    shutdown_final {m = run [] new_task_manager} some_ops "t" "" (run-IsValid []) refl

abbrev good : Launch ℕ
good = record { service = ok 7; io_init = none }

abbrev no_io : Launch ℕ
no_io = record { service = ok 7; io_init = some (errorf "no io" []) }

first_task : (create_task "t" good new_task_manager).0 ≡ ok 7
unfolding create_task launch new_proc new_task_manager lookup
first_task = refl

exec_process_rolls_back_example :
    (View.proc_at "t" "" (exec_process "t" "" no_io new_task_manager).1
      ≡ View.proc_at "t" "" new_task_manager)
unfolding exec_process launch new_proc new_task_manager lookup
exec_process_rolls_back_example =
    (exec_process_rolls_back "t" "" no_io new_task_manager refl).0 "t" ""

run_refines_table_example : Steps some_ops empty_table (table_of (run some_ops new_task_manager))
run_refines_table_example = run_refines_table some_ops
