-- ===== src/Tests/Toy.antt =====
-- A world outside in which every call succeeds, and a service with one sandbox and one container in
-- it. The world is the number of the calls so far.
use cri_containerd.Base.{fault, String, ℕ, ◌+◌, false, some, [], ◌∷◌}
use cri_containerd.Base.Int.{pos}
use cri_containerd.Cri.{zero_config, zero_sandbox_config}
use cri_containerd.Store.Status.{Status, empty}
use cri_containerd.Store.Container.{Container}
use cri_containerd.Store.Sandbox.{Sandbox}
use cri_containerd.Store.Image.{Image, ImageConfig}
use cri_containerd.Tests.References.{
  Reference, bare, digested, has_tag, has_digest, name_part, digest_part, text_form, add_tag,
}
use cri_containerd.Tests.Specs.{toy_generator}
use cri_containerd.Service.{Descriptor, TaskExit, exited, State, Env, Op, value, running, timed_out}

abbrev pub done : {A : Type 0} → A → Op ℕ A
done a n = (value a, n + 1)

abbrev manifest : Descriptor
manifest = record { media_type = "manifest"; digest = "m1" }

abbrev config : Descriptor
config = record { media_type = "config"; digest = "i1" }

abbrev pub image_config : ImageConfig
image_config = record {
  user = "";
  env = [];
  entrypoint = [];
  cmd = "serve" ∷ [];
  working_dir = "";
  stop_signal = "";
}

-- the exit of a process, by container, process and pid
abbrev pub exit_of : String → String → ℕ → TaskExit
exit_of container id pid = record {
  container_id = container;
  id = id;
  pid = pid;
  exit_status = 3;
  exited_at = pos 960;
}

abbrev pub toy : Env
toy = record {
  World = ℕ;
  root_dir = "/var/lib/cri-containerd";
  sandbox_image = "pause";
  generator = toy_generator;
  is_not_found = λ e. false;
  is_already_exists = λ e. false;
  os_is_not_exist = λ e. false;
  grpc_code = λ e. 2;
  grpc_desc = λ e. "";
  now = λ n. (pos (1000 + n), n + 1);
  generate_id = λ n. ("id", n + 1);
  waits = λ id timeout n. (record { ticks = []; last = timed_out }, n + 1);
  parse_signal = λ s. value 15;
  Named = Reference;
  parse_normalized_named = λ s. value (bare s);
  is_tagged = has_tag;
  is_canonical = has_digest;
  name_of = name_part;
  digest_of = digest_part;
  string_of = text_form;
  with_name = λ s. value (bare s);
  with_digest = λ n d. value (digested (name_part n) d);
  tag_name_only = add_tag;
  is_digest = λ s. false;
  chain_id = λ ids. "chain";
  base64_decode = λ s. value "user:secret";
  image_get = λ name. done (record { name = name; target = manifest });
  image_create = λ i. done tt;
  image_update = λ i. done tt;
  image_delete = λ name. done tt;
  image_config = λ i. done config;
  image_root_fs = λ i. done [];
  image_size = λ i. done (pos 10);
  content_reader = λ d. done 5;
  decode_image_config = λ r. done image_config;
  read_blob = λ d. done "{}";
  unmarshal_manifest = λ b. value [];
  apply_layers = λ ls. done tt;
  list_statuses = done [];
  download_ticks = λ n. (1, n + 1);
  schema1_manifest = "schema1";
  resolve = λ auth ref. done manifest;
  fetcher = λ auth ref. done 6;
  dispatch = λ schema1 f d n. ([], n + 1);
  convert_schema1 = λ f. done manifest;
  subscribe = done 8;
  receive_all = λ stream n. ((exited (exit_of "s1" "s1" 7) ∷ [], fault "closed"), n + 1);
  task_get = λ id. done (record { id = id; pid = 7; status = running });
  task_list = done [];
  task_create = λ r. done 42;
  task_start = λ id. done tt;
  task_kill = λ id signal. done tt;
  task_delete = λ id. done tt;
  load_container = λ id. done 20;
  spec_process = λ c. done (some (record { args = "serve" ∷ []; terminal = false; rest = "" }));
  container_task = λ c. done 21;
  task_exec = λ t id p io. done 22;
  process_start = λ p. done tt;
  process_delete = λ p. done tt;
  process_resize = λ p width height. done tt;
  process_wait_io = λ p n. (tt, n + 1);
  new_buffer = λ n. (n, n + 1);
  buffer_bytes = λ b n. ("out", n + 1);
  get_exec = λ r. done "http://host/exec";
  health_check = done 1;
  containerd_version = done "1.0.0-alpha";
  network_plugin_status = done tt;
  snapshot_mounts = λ id. done [];
  snapshot_view = λ id parent. done [];
  snapshot_prepare = λ id parent. done [];
  snapshot_remove = λ id. done tt;
  container_create = λ id image spec. done tt;
  container_delete = λ id. done tt;
  mkdir_all = λ path mode. done tt;
  remove_all = λ path. done tt;
  open_fifo = λ path writes mode. done 3;
  close = λ p. done tt;
  open_file = λ path. done tt;
  stat = λ path. done tt;
  copy_file = λ from to mode. done tt;
  write_file = λ path text mode. done tt;
  mount = λ from to kind options text. done tt;
  unmount = λ path. done tt;
  set_up_pod = λ ns space name id. done tt;
  tear_down_pod = λ ns space name id. done tt;
  network_status = λ ns space name id. done "10.0.0.2";
}

abbrev pub created_status : Status
created_status = record {
  pid = 0;
  created_at = pos 900;
  started_at = pos 0;
  finished_at = pos 0;
  exit_code = pos 0;
  reason = "";
  message = empty;
  removing = false;
}

abbrev pub running_status : Status
running_status = record created_status { pid = 42; started_at = pos 950 }

abbrev pub web : Container
web = record {
  metadata = record {
    id = "c1";
    name = "web_pod_space_uid_0";
    sandbox_id = "s1";
    config = record zero_config { log_path = "web.log" };
    image_ref = "i1";
  };
  status = some 0;
}

abbrev pub pod : Sandbox
pod = record {
  id = "s1";
  name = "pod_space_uid_0";
  config = zero_sandbox_config;
  created_at = pos 800;
  pid = 7;
  net_ns = "/proc/7/ns/net";
}

abbrev pub image : Image
image = record {
  id = "i1";
  repo_tags = [];
  repo_digests = [];
  chain_id = "chain";
  size = pos 10;
  config = image_config;
}

-- The container of the service has the given status.
abbrev pub service : Status → State ℕ
service status = record {
  world = 0;
  heap = record { next = 1; cell = λ a. status };
  containers = ("c1", web) ∷ [];
  container_names = record {
    name_to_key = ("web_pod_space_uid_0", "c1") ∷ [];
    key_to_name = ("c1", "web_pod_space_uid_0") ∷ [];
  };
  sandboxes = ("s1", pod) ∷ [];
  sandbox_names = record {
    name_to_key = ("pod_space_uid_0", "s1") ∷ [];
    key_to_name = ("s1", "pod_space_uid_0") ∷ [];
  };
  images = ("i1", image) ∷ [];
}
