-- ===== src/Lib.antt =====
-- cri-containerd: a server of the Kubernetes container runtime interface (CRI) on containerd.
--
-- The daemon keeps in memory the containers, the sandboxes and the images that it manages, and two
-- registrars of reserved names. Handlers of the CRI read and change them, and call containerd, the
-- operating system and the network plugin; the event monitor updates the statuses of containers when
-- containerd reports that a process has exited.
--
-- Base, Base/*: shared names, Go's integers, errors, texts and decimal numbers. Map: Go's maps with
-- texts as keys, as association lists.
-- Registrar: pkg/registrar/registrar.go, one function per method. Registrar/Bijection and
-- Registrar/Operations hold its theorems.
-- Store/*: pkg/store. A container in the store holds the address of its status storage in
-- Store/Heap, because all copies of a container share one storage through a pointer.
-- Names, Paths: pkg/server/helpers.go, the names to reserve and the directories.
-- Exec: an action is a function from a state to an outcome (a value, an error or a panic) and the
-- state after; Exec/Actions has one combinator for each form of Go's error handling and deferred
-- cleanups; Exec/Keeps, Exec/Panics, Exec/Succeeds, Exec/Returns, Exec/Ends and Exec/Commits have the
-- rules for reasoning on them.
-- Service: Service/Memory is the state of criContainerdService (pkg/server/service.go) with the
-- world outside; Service/Outside is everything that the daemon calls, as parameters; Service/Frame
-- has the rules for actions that only go on with the world. Service/Stream is the loop that waits
-- for an exit on an event stream of containerd.
-- Containers/*: pkg/server/container_start.go, container_stop.go, container_remove.go,
-- container_status.go, container_list.go and events.go, with the theorems on each in its children.
-- Containers/Create: container_create.go, CreateContainer. Containers/ExecSync: container_execsync.go
-- and container_exec.go. Containers/Monitor: the two loops of startEventMonitor in events.go.
-- Streaming: pkg/server/streaming.go. Runtime: pkg/server/status.go, version.go and
-- update_runtime_config.go. Unimplemented: the handlers that only return a not-implemented error.
-- Agents: pkg/server/agents, Agents/Reader being ReadLine of bufio as logger.go uses it.
-- Store/Metadata: the checkpoints of pkg/store/container/metadata.go and pkg/store/sandbox/metadata.go.
-- Daemon/*: cmd/cri-containerd, NewCRIContainerdService of pkg/server/service.go, pkg/server/server.go
-- and pkg/version. Os: pkg/os/os.go.
-- Images/*: image_pull.go, image_list.go, image_status.go and image_remove.go of pkg/server, with the
-- helpers on references of helpers.go.
-- Spec/*: the OCI specifications of container_create.go and sandbox_run.go. Service/Specs is the
-- generator that they call.
-- Sandboxes/*: sandbox_run.go, sandbox_stop.go, sandbox_remove.go, sandbox_status.go and
-- sandbox_list.go of pkg/server.
-- Lifecycle: the transactions on one status storage as a step relation, so that the order in which
-- the handlers and the event monitor take the lock is arbitrary.
-- Consistency: the stores and the registrars together. Consistency/Invariant is what holds in every
-- state, Consistency/Reach the order of the handlers, which is arbitrary.
-- Tests: a toy world outside in which every call succeeds, and the theorems at concrete inputs.
--
-- A time is the integer that UnixNano returns; signed integers of Go are the integers they stand for,
-- and conversions and multiplications wrap around as in Go. The text of an error is kept unrendered:
-- the format, its arguments and the wrapped error. The wait of a stop polls as often as a list of
-- ticks says, which is arbitrary, so no fuel is needed; the wait of a pull likewise, and the wait for
-- an exit event reads a list of events that ends in an error. The copy loop of the log takes the
-- length of its input as fuel, since every line takes a byte. The event monitor never ends, and is a
-- number of its rounds. A handler that has several deferred
-- cleanups is one definition for each stretch between two of them, named for where it begins. A
-- decimal text has at most 20 digits, enough for every uint64.
--
-- Not modelled: the goroutines that copy streams, the logging of the daemon, the storage of checkpoints
-- that the source leaves as a TODO, and the interleaving of handlers within a handler, but for the
-- waits of a stop. The resize goroutine of an exec and those that Start spawns are actions of their
-- own. The JSON form of metadata, the back-off of reconnections, flags, sockets and the streaming
-- server are parameters. Go ranges over maps in any order: theorems on lists made from a map speak of
-- their members.
pub mod Base
pub mod Map
pub mod Registrar
pub mod Cri
pub mod Store
pub mod Names
pub mod Exec
pub mod Paths
pub mod Service
pub mod Containers
pub mod Images
pub mod Spec
pub mod Sandboxes
pub mod Streaming
pub mod Agents
pub mod Runtime
pub mod Unimplemented
pub mod Daemon
pub mod Os
pub mod Lifecycle
pub mod Consistency
pub mod Tests
