-- ===== src/Lib.antt =====
-- The instance manager of Longhorn: the process manager, which starts, stops, replaces and
-- watches the processes of a node, and the instance service, which offers engines and replicas as
-- processes (V1) or as objects of the SPDK service (V2). The proxy service carries the operations on
-- volumes, replicas, snapshots and backups to the engines, and the disk service those on disks; clients
-- call them over gRPC.
--
-- A client calls the process manager (pkg/process/process_manager.go) over gRPC. The manager keeps a
-- table from names to processes and a bitmap of the free ports; each process
-- (pkg/process/process.go) has a state, a command and goroutines that run the command, check its
-- health and stop it. They tell the manager of each change over a channel, from which it sends to its
-- subscribers.
--
-- Files:
--   Base, Base/*: Booleans, texts, lists, integers over the native numbers, errors and dictionaries.
--   Strings, Strings/*: the standard library's Split, Join, Cut, TrimPrefix, TrimSpace, Atoi, Itoa and
--     sort.Strings.
--   Bitmap: the interface of the vendored port bitmap (go-common-libs). Bitmap/FirstFit: a bitmap that
--     meets it.
--   PortRange, PortRange/*: ParsePortRange of pkg/process/process_manager.go and of pkg/util/util.go.
--   Names: ProcessNameToVolumeName of pkg/util/util.go.
--   Process, Process/*: pkg/process/process.go (Start, StopWithSignal, IsStopped, RPCResponse), one
--     definition for each section of code that holds the process's lock. Process/Health: WaitForRunning of
--     pkg/process/healthchecker.go.
--   Manager: the state of the manager and the sections of code that hold its lock (registerProcess,
--     unregisterProcess, initProcessReplace, allocateProcessPorts, releaseProcessPorts, the last part
--     of ProcessReplace). Manager/Handlers: ProcessCreate, ProcessDelete, ProcessGet, ProcessList,
--     startMonitoring and the goroutines. Manager/Replace: ProcessReplace. Manager/Conditions:
--     checkMountPointStatusForEngine. Manager/Run: NewManager and histories.
--   Manager/Invariant: when a manager is well formed. Manager/Holders counts who holds a port;
--     Allocation, Release, Grant, Move, Local, Rely, Sections, Begin, Calls, Create, Swap and History
--     show what each operation does with it. Manager/Safety and Manager/Requests: what follows for
--     ports and requests.
--   Instance, Instance/*: pkg/instance/instance.go: requests and the client of SPDK (Instance), the
--     conversions of responses (Convert), the calls of pkg/client/process_manager.go (Client), the
--     operations of the two data engines (Ops, V1, V2), the dispatch (Server) and the watch loops
--     (Watch), the streams of logs (Logs, with Manager/Logs for ProcessLog). Instance/Caller,
--     Instance/Caller/*: the client of the instance service, pkg/client/instance.go, with the
--     conversions of pkg/api/instance.go (Answers) and what its requests hold (Sent).
--     Serve, Listing and Shows state what follows for the backends and for lists.
--   Broadcaster, Broadcaster/*: pkg/util/broadcaster/broadcaster.go, through which the manager tells its
--     subscribers of changes; its interleavings as a step relation (Closes), and what an item does
--     (Deliver).
--   Proxy, Proxy/*: pkg/proxy: the requests and answers (Proxy), the allowlist of the environment (Env),
--     addresses (Address), the clients of the two data engines (Engines, Spdk), the operations of
--     volume.go and metrics.go (Volumes), replica.go (Replicas), snapshot.go (Snapshots) and backup.go
--     (Backups), of which Snapshots/First and Backups/First have the first data engine, and the handlers
--     with their dispatch (Server). Safety, Rebuild, Search, Removal and Clone state what follows.
--   Proxy/Client, Proxy/Client/*: the client of the proxy, pkg/client/proxy*.go and pkg/client/types.go;
--     Expected describes what each method is to send, Checks and Sent are about its checks and calls.
--   Proxy/BackingImages: pkg/proxy/backing_image.go, with its client and pkg/api/backing_image.go.
--   Instance/Levels: pkg/instance/log.go. Endpoints: parseEndpoint and VerifyPeerCertificate of
--     pkg/util/grpcutil.go.
--   Disk, Disk/*: pkg/disk/disk.go, its client pkg/client/disk.go (Disk/Client), and what their
--     checks make together (Disk/Reaches).
--   Names/Tests, Process/Tests, PortRange/Tests, Manager/Tests, Manager/Tests/Late, Instance/Tests,
--     Instance/Caller/Tests, Endpoints/Tests,
--     Broadcaster/Tests, Proxy/Tests, Proxy/Env/Tests, Proxy/Client/Tests, Disk/Tests, with the
--     services of Proxy/Examples: runs on concrete inputs.
--
-- How the state corresponds to the code: a *Process is a number, its place in a heap of Process
-- records, so the table, the goroutines and the channel share objects the way pointers do. Code that
-- holds a lock is one function of the state. Where a call waits, on a channel or in a sleep, the other
-- goroutines are a function of the state that the call is given (Env.others), about which a theorem
-- assumes only what it names (Rely). The one exception is cleanupReplacementProcess, where no
-- goroutine runs between its Stop and the release of the ports. The clock, the UUID
-- generator, the log file and the start of a command are arguments (Env).
--
-- Bounds: int32 values are integers, and each conversion wraps (int32). The loops that wait run 600
-- rounds (StopWithSignal, unregisterProcess) or 30 rounds (ProcessReplace), as in the code; both are
-- structural on the rounds left. Itoa has as much fuel as the number's value, which is enough.
--
-- The instance service is a function of its two backends, the process manager above and the state of
-- the SPDK service, whose client is a parameter (SpdkClient). A connection to the process manager
-- says whether it is made, whether a call arrives and whether its answer is lost (Connection).
--
-- The proxy is a function of the engines of the first kind, the SPDK services and the environment of the
-- process (Services); the clients that reach them are parameters (EngineClients, SpdkClients), whose
-- calls say what they return and what they change. A client that the proxy closes says whether that
-- fails only where the code looks at it. A Go map is a list of entries, and a loop over it runs in the
-- order of the list; where the code sorts first, the order is proved not to matter. A part of a request
-- that the code takes to be there is not optional. The disk service is a function of its SPDK client in
-- the same way.
--
-- Not modelled: the gRPC servers and connections, the operating system's processes, logging, the streams
-- of updates, the versions of the services, CleanupBackupMountPoints and RemountReadOnlyVolume, the
-- probes of health, and the command line.
mod Base
pub mod Bitmap
pub mod Process
pub mod Manager
pub mod Strings
pub mod PortRange
pub mod Instance
pub mod Broadcaster
pub mod Names
pub mod Proxy
pub mod Disk
pub mod Endpoints
