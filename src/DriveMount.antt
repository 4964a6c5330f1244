-- ===== src/DriveMount.antt =====
-- agent/drive_handler.go and agent/error.go: how the agent in the VM finds the stub drives and
-- mounts what the runtime puts behind them.
pub mod Discovery
pub mod SystemDir
pub mod Retry
