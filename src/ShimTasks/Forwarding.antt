-- ===== src/ShimTasks/Forwarding.antt =====
-- runtime/service.go: the methods of the shim's task service that only pass a request on to the agent.
use abschlussarbeit.Common.{String, Result, not_implemented}
use abschlussarbeit.Common.Act.{Act, raise}
use abschlussarbeit.ShimTasks.{ShimTasks, agent, noting}

module _ {A : Type 0} where
  -- The answer of the agent is passed back, an error as it is.
  forward : String → Result A → Act ShimTasks A
  forward name answer s = (answer, noting (agent name) s)

  unfoldable pub start : Result A → Act ShimTasks A
  unfolding forward
  start = forward "Start"

  unfoldable pub resize_pty : Result A → Act ShimTasks A
  unfolding forward
  resize_pty = forward "ResizePty"

  unfoldable pub state : Result A → Act ShimTasks A
  unfolding forward
  state = forward "State"

  unfoldable pub pause : Result A → Act ShimTasks A
  unfolding forward
  pause = forward "Pause"

  unfoldable pub resume : Result A → Act ShimTasks A
  unfolding forward
  resume = forward "Resume"

  unfoldable pub kill : Result A → Act ShimTasks A
  unfolding forward
  kill = forward "Kill"

  unfoldable pub pids : Result A → Act ShimTasks A
  unfolding forward
  pids = forward "Pids"

  unfoldable pub close_io : Result A → Act ShimTasks A
  unfolding forward
  close_io = forward "CloseIO"

  unfoldable pub checkpoint : Result A → Act ShimTasks A
  unfolding forward
  checkpoint = forward "Checkpoint"

  -- `Connect` is not passed on.
  unfoldable pub connect : Act ShimTasks A
  connect = raise not_implemented
