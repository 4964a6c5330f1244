-- ===== src/AgentService/Forwarding.antt =====
-- agent/service.go: the methods that only pass a request on to runc, and `Shutdown`.
use abschlussarbeit.Common.{String, Result}
use abschlussarbeit.Common.Act.{Act, pure, finally}
use abschlussarbeit.AgentService.{TaskService, runc, shim_cancel, noting}

module _ {A : Type 0} where
  -- The answer of runc is passed back, an error as it is.
  forward : String → Result A → Act TaskService A
  forward name answer s = (answer, noting (runc name) s)

  unfoldable pub state : Result A → Act TaskService A
  unfolding forward
  state = forward "State"

  unfoldable pub start : Result A → Act TaskService A
  unfolding forward
  start = forward "Start"

  unfoldable pub pids : Result A → Act TaskService A
  unfolding forward
  pids = forward "Pids"

  unfoldable pub pause : Result A → Act TaskService A
  unfolding forward
  pause = forward "Pause"

  unfoldable pub resume : Result A → Act TaskService A
  unfolding forward
  resume = forward "Resume"

  unfoldable pub checkpoint : Result A → Act TaskService A
  unfolding forward
  checkpoint = forward "Checkpoint"

  unfoldable pub kill : Result A → Act TaskService A
  unfolding forward
  kill = forward "Kill"

  unfoldable pub resize_pty : Result A → Act TaskService A
  unfolding forward
  resize_pty = forward "ResizePty"

  unfoldable pub close_io : Result A → Act TaskService A
  unfolding forward
  close_io = forward "CloseIO"

  unfoldable pub update : Result A → Act TaskService A
  unfolding forward
  update = forward "Update"

  unfoldable pub wait : Result A → Act TaskService A
  unfolding forward
  wait = forward "Wait"

  unfoldable pub stats : Result A → Act TaskService A
  unfolding forward
  stats = forward "Stats"

  unfoldable pub connect : Result A → Act TaskService A
  unfolding forward
  connect = forward "Connect"

-- `Shutdown` cancels the agent's context as it returns, and cannot fail.
unfoldable pub shutdown : Act TaskService (Unit {0})
shutdown = finally (noting shim_cancel) (pure tt)
