-- ===== src/Examples.antt =====
-- Runs of the modelled code on concrete inputs: of the task manager (internal/vm/task.go), of the stub
-- drives and log levels, of the agent's drives, and of the shim and the control plugin.
pub mod Plugin
mod Tasks
mod Drives
mod Vms
mod Streams
mod Agent
mod Shim
mod Jails
mod Configs
mod Runtime
mod Starting
