-- ===== src/Lib.antt =====
-- Verification of the Go program in Firecracker/firecracker-containerd: the containerd runtime that
-- runs containers in Firecracker microVMs. All paths below are relative to that directory, which
-- stands in the repository under Firecracker/firecracker-containerd.
--
-- The program has three processes. The control plugin of containerd (firecracker-control/local.go)
-- starts one shim for each VM and passes requests on to it. The shim (runtime/service.go) starts the
-- VM, hands out stub drives to its containers, and manages their tasks. The agent (agent/) runs in the
-- VM, finds the stub drives, mounts them, and runs the tasks. Both the shim and the agent use the task
-- manager of internal/vm/task.go; the runtime writes the content of a stub drive and the agent parses
-- it, both with internal/common.go.
--
-- Files, and the code they are about:
--
-- - Common and its children: errors (Error, Result), actions that change a state and may fail (Act),
--   bytes, decimal numbers (strconv.Itoa), base32 and base64 (as the program uses them), file paths
--   (path/filepath), slices with their arrays (Slices), strings.Split (Split), maps (Assoc) and recorded
--   calls (Calls).
-- - TaskManager: internal/vm/task.go. new_proc, delete_proc and shutdown_if_empty are the critical
--   sections; create_task, exec_process and delete_process are the methods. View says what a state
--   shows, Launching is about one call, Invariant about any interleaving of the critical sections,
--   and Refinement about the flat table of processes that the nested maps stand for.
-- - StubContent: internal/common.go, lines 69 to 127; RoundTrip has the theorems.
-- - Proto: the messages that are read. RateLimit: the rate limiters of runtime/helpers.go.
-- - StubDrive: runtime/drive_handler.go. Options are the mount options, Create makes the files
--   (with Sizes and Ids), and Handler is StubDriveHandler with Reserve and Release (with Outcomes,
--   Conservation, Pool and Models).
-- - LogLevels: internal/debug. Parse reads a level, the parent has the Helper; Order, Meaning and Accept
--   have the theorems.
-- - DriveMount: agent/drive_handler.go and agent/error.go. Discovery finds the stub drives (with
--   Found), SystemDir is the check of the destination, and Retry is MountDrive and UnmountDrive (with
--   Settling).
-- - Settings: config/config.go.
-- - Vsock: internal/vm/vsock.go. The parent has the handshake and the loops of VSockDial and Accept;
--   Handshake is about one attempt, Dialing about the loops.
-- - IoProxy: internal/vm/ioproxy.go, fifo.go, agent.go and the connectors of vsock.go; Pairs has the
--   theorems about the goroutine of a proxy.
-- - Bundle: the paths of internal/bundle/bundle.go. VmDir: internal/vm/dir.go.
-- - AgentService: agent/service.go. The parent has the state and the steps, Methods has Create, Exec
--   and Delete, and Forwarding the methods that only pass a request on. Identity is about TaskExecID,
--   Cleanups, Registering and Failing follow the clean-ups through Create and Exec, and Unwinding has
--   the theorems about Create, Exec and Delete.
-- - ShimTasks: the task service of runtime/service.go (Create, Exec, newIOProxy, in Deletion Delete and
--   in Forwarding the rest). Steps and Drives follow the stub drives and the tasks through Create,
--   Rounds is a Create and its Delete, Streams puts the shim's and the agent's proxies together.
-- - Control: firecracker-control/local.go, internal/shim/shim.go and ShimDir of internal/vm/dir.go. Vm
--   has CreateVM, StopVM and the calls that are passed on; Cleanup and Stopping have the theorems, the
--   former with a module for each part of CreateVM (Resources, Opening, Shim, Whole), one for the end
--   of a shim (Exit) and one for a newShim that fails (Leak).
-- - VmConfig: buildVMConfiguration of runtime/service.go, with machineConfigurationFromProto (Machine) and
--   networkConfigFromProto (Network) of runtime/helpers.go; Drives has the theorem about the drives.
-- - ShimService: the life of the VM in runtime/service.go. Ports are the vsock ports, Requests are
--   GetVMInfo and the metadata calls, Lifecycle has the theorems about CreateVM, Shutdown and the
--   clean-up, History the one about any sequence of the handlers.
-- - Jailer: runtime/jailer.go and runtime/runc_jailer.go. The parent has newJailer, ExposeFileToJail
--   and the calls they make, Spec is overwriteConfig, Machine has BuildJailedMachine and its two
--   handlers, and Noop is runtime/noop_jailer.go; Confinement and Namespaces have the theorems.
-- - ShimStart: NewService, serveFCControl and StartShim of runtime/service.go; Requested is about what
--   StartShim asks the plugin for. OciConfig: runtime/firecrackeroci and OCIConfig of
--   internal/bundle/bundle.go, the annotation that names the VM.
-- - EventBridge: eventbridge/eventbridge.go, and startEventForwarders of runtime/service.go; Delivery
--   follows the events from the agent's exchange to containerd (with Mixes).
-- - CpuSet: runtime/cpuset/cpuset_builder.go. ListFormat is the kernel's format, read by a parser of its
--   own; Chains is about calls in a chain, Forks about two calls on one builder.
-- - PsUtil: internal/psutil.go, with Waiting and Average. FsUtil: ParseProcMountLines of
--   internal/fsutil.go.
-- - Examples: runs on concrete inputs.
--
-- How the code is represented. A method that changes a state and may fail is an action Act S A, a
-- function from a state to a result and a state: what was written before a failure stays written.
-- Calls that leave the program are recorded in the state, and their answers are arguments, which may
-- depend on all calls made so far. A deferred function is on_error or finally round the rest of the
-- method. A mutex makes a critical section one step; the task manager is the one component whose
-- methods are several critical sections, and Invariant lets them interleave in any way. Machine
-- integers wrap where the code can reach the bound: the vsock port count (2^32), the byte of a length
-- (256), the milliseconds of a rate limiter (2^64). Texts that the code looks into are lists of
-- bytes; others are strings. Error messages keep their format string and not always their arguments.
-- Loops are structural on a list, or on the rounds that are left: MountDrive has the code's own bound
-- of 100 rounds, and the dial and accept loops run over the turns of their select, so that no fuel is
-- needed anywhere. A panic that ends the process is the error panic. A channel of a connector has its
-- buffer and its capacity; a send that would wait for ever is none, and so is an `Accept` of a
-- listener to which no connection comes.
-- Loops over the ticks of a timer run over a list of what these meet.
--
-- Not modelled: logging, contexts and timeouts except where they decide a result, the goroutines that
-- copy streams, generated code, the entry points, which wire servers and clients of other packages
-- together, and helpers of tests and examples. A `Close` is taken to close, and a `Kill` to kill,
-- whatever they return. The shutdown loop is taken to be over when the wait for the machine is over.
-- `json.Unmarshal`, containerd's packages and the Firecracker SDK are arguments.
pub mod Common
pub mod Vsock
pub mod IoProxy
pub mod Bundle
pub mod VmDir
pub mod TaskManager
pub mod StubContent
pub mod Proto
pub mod RateLimit
pub mod StubDrive
pub mod LogLevels
pub mod DriveMount
pub mod AgentService
pub mod ShimTasks
pub mod Jailer
pub mod Settings
pub mod Control
pub mod ShimService
mod Examples
pub mod VmConfig
pub mod CpuSet
pub mod EventBridge
pub mod OciConfig
pub mod ShimStart
pub mod PsUtil
pub mod FsUtil
