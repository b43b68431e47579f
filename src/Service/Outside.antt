-- ===== src/Service/Outside.antt =====
-- What the service calls and this repository does not hold: containerd, the operating system, the
-- network plugin, the clock and the id generator. Every operation is a parameter.
use cri_containerd.Base.{Result, ℕ, Bool, String, List, Option, Error}
use cri_containerd.Base.Int.{ℤ}
use cri_containerd.Store.Image.{ImageConfig}
use cri_containerd.Service.Specs.{Generator}
use cri_containerd.Service.Memory.{State, Op, Reply}

-- `task.Status` of containerd
pub data TaskStatus : Type 0 where
  unknown created running stopped paused : TaskStatus

abbrev pub is_running : TaskStatus → Bool
is_running running = Bool.true
is_running _ = Bool.false

abbrev pub is_stopped : TaskStatus → Bool
is_stopped stopped = Bool.true
is_stopped _ = Bool.false

-- `task.Task`, as far as the service reads it
pub record Task : Type 0 where
  pub id : String
  pub pid : ℕ
  pub status : TaskStatus

-- `types.Mount`
pub record RootMount : Type 0 where
  pub kind : String
  pub source : String
  pub options : List String

-- `tasks.CreateTaskRequest`
pub record CreateTask : Type 0 where
  pub container_id : String
  pub rootfs : List RootMount
  pub stdin : String
  pub stdout : String
  pub stderr : String
  pub terminal : Bool

-- `imagespec.Descriptor`, as far as the service reads it
pub record Descriptor : Type 0 where
  pub media_type : String
  pub digest : String

-- `images.Image` of containerd
pub record StoreImage : Type 0 where
  pub name : String
  pub target : Descriptor

-- a layer to unpack: the diff id and the blob
pub record Layer : Type 0 where
  pub diff : String
  pub blob : Descriptor

-- `runtime.AuthConfig`
pub record AuthConfig : Type 0 where
  pub username : String
  pub password : String
  pub identity_token : String
  pub auth : String

-- `events.TaskExit`; the time is what its `UnixNano` returns
pub record TaskExit : Type 0 where
  pub container_id : String
  pub id : String
  pub pid : ℕ
  pub exit_status : ℕ  -- uint32
  pub exited_at : ℤ

-- an event of the stream that a handler subscribes to: the exit of a process, or another
pub data StreamEvent : Type 0 where
  exited : TaskExit → StreamEvent
  other : StreamEvent
  undecodable : Error → StreamEvent

-- How a wait for the next poll ends, `select` in `waitContainerStop`.
pub data Wakeup : Type 0 where
  cancelled timed_out : Wakeup

-- What happens while a handler polls: at each tick the other goroutines have done something to the
-- state; after the last tick the wait is cancelled or times out.
pub record Waits (W : Type 0) : Type 0 where
  pub ticks : List (State W → State W)
  pub last : Wakeup

-- `specs.Process`, as far as the service reads it
pub record Process : Type 0 where
  pub args : List String
  pub terminal : Bool
  pub rest : String

-- `containerd.NewIOWithTerminal`, over readers and writers that are known by a number
pub record ProcessIo : Type 0 where
  pub stdin : ℕ
  pub stdout : ℕ
  pub stderr : ℕ
  pub terminal : Bool

-- `runtime.ExecRequest`
pub record ExecRequest : Type 0 where
  pub container_id : String
  pub cmd : List String
  pub tty : Bool
  pub stdin : Bool

pub record Env : Type 1 where
  pub World : Type 0
  -- the configuration of the service
  pub root_dir : String
  pub sandbox_image : String
  -- the generator of specifications, with the devices of the host
  pub generator : Generator
  -- the errors of others
  pub is_not_found : Error → Bool
  pub is_already_exists : Error → Bool
  pub os_is_not_exist : Error → Bool
  pub grpc_code : Error → ℕ
  pub grpc_desc : Error → String
  -- the clock, the ids, the waiting
  pub now : World → ℤ × World
  pub generate_id : World → String × World
  pub waits : String → ℤ → World → Waits World × World
  pub parse_signal : String → Reply ℕ
  -- references and digests: github.com/docker/distribution, opencontainers/go-digest
  pub Named : Type 0
  pub parse_normalized_named : String → Reply Named
  pub is_tagged : Named → Bool
  pub is_canonical : Named → Bool
  pub name_of : Named → String
  pub digest_of : Named → String
  pub string_of : Named → String
  pub with_name : String → Reply Named
  pub with_digest : Named → String → Reply Named
  pub tag_name_only : Named → Named
  pub is_digest : String → Bool
  pub chain_id : List String → String
  pub base64_decode : String → Reply String
  -- the image store and the content store of containerd, and the registry
  pub image_get : String → Op World StoreImage
  pub image_create : StoreImage → Op World (Unit {0})
  pub image_update : StoreImage → Op World (Unit {0})
  pub image_delete : String → Op World (Unit {0})
  pub image_config : StoreImage → Op World Descriptor
  pub image_root_fs : StoreImage → Op World (List String)
  pub image_size : StoreImage → Op World ℤ
  pub content_reader : String → Op World ℕ
  pub decode_image_config : ℕ → Op World ImageConfig
  pub read_blob : String → Op World String
  pub unmarshal_manifest : String → Reply (List Descriptor)
  pub apply_layers : List Layer → Op World (Unit {0})
  pub list_statuses : Op World (List String)
  pub download_ticks : World → ℕ × World
  pub schema1_manifest : String
  pub resolve : Result (String × String) → String → Op World Descriptor
  pub fetcher : Result (String × String) → String → Op World ℕ
  pub dispatch : Bool → ℕ → Descriptor → World → List String × World
  pub convert_schema1 : ℕ → Op World Descriptor
  -- containerd events
  pub subscribe : Op World ℕ
  pub receive_all : ℕ → World → (List StreamEvent × Error) × World
  -- containerd tasks
  pub task_get : String → Op World Task
  pub task_list : Op World (List Task)
  pub task_create : CreateTask → Op World ℕ
  pub task_start : String → Op World (Unit {0})
  pub task_kill : String → ℕ → Op World (Unit {0})
  pub task_delete : String → Op World (Unit {0})
  -- the client of containerd: a container, its process, its task, and the processes run in it
  pub load_container : String → Op World ℕ
  pub spec_process : ℕ → Op World (Option Process)
  pub container_task : ℕ → Op World ℕ
  pub task_exec : ℕ → String → Process → ProcessIo → Op World ℕ
  pub process_start : ℕ → Op World (Unit {0})
  pub process_delete : ℕ → Op World (Unit {0})
  pub process_resize : ℕ → ℕ → ℕ → Op World (Unit {0})
  pub process_wait_io : ℕ → World → Unit {0} × World
  -- the buffers of a handler, `bytes.Buffer`
  pub new_buffer : World → ℕ × World
  pub buffer_bytes : ℕ → World → String × World
  -- the streaming server
  pub get_exec : ExecRequest → Op World String
  -- the services of containerd for its health and its version; 1 is `SERVING`
  pub health_check : Op World ℕ
  pub containerd_version : Op World String
  pub network_plugin_status : Op World (Unit {0})
  -- containerd snapshots and containers
  pub snapshot_mounts : String → Op World (List RootMount)
  pub snapshot_view : String → String → Op World (List RootMount)
  pub snapshot_prepare : String → String → Op World (List RootMount)
  pub snapshot_remove : String → Op World (Unit {0})
  pub container_create : String → String → String → Op World (Unit {0})
  pub container_delete : String → Op World (Unit {0})
  -- the operating system
  pub mkdir_all : String → ℕ → Op World (Unit {0})
  pub remove_all : String → Op World (Unit {0})
  pub open_fifo : String → Bool → ℕ → Op World ℕ
  pub close : ℕ → Op World (Unit {0})
  pub open_file : String → Op World (Unit {0})
  pub stat : String → Op World (Unit {0})
  pub copy_file : String → String → ℕ → Op World (Unit {0})
  pub write_file : String → String → ℕ → Op World (Unit {0})
  pub mount : String → String → String → List String → String → Op World (Unit {0})
  pub unmount : String → Op World (Unit {0})
  -- the network plugin
  pub set_up_pod : String → String → String → String → Op World (Unit {0})
  pub tear_down_pod : String → String → String → String → Op World (Unit {0})
  pub network_status : String → String → String → String → Op World String
