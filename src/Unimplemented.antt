-- ===== src/Unimplemented.antt =====
-- The handlers of the CRI that only return a not-implemented error: pkg/server/container_attach.go,
-- container_stats.go, container_stats_list.go, sandbox_portforward.go and imagefs_info.go.
use cri_containerd.Base.{String, List, [], Result, err, errorf}

abbrev not_implemented : {A : Type 0} → Result A
not_implemented = err (errorf "not implemented" [])

-- `Attach`
unfoldable pub attach : String → Result String
attach container_id = not_implemented

-- `ContainerStats`
unfoldable pub container_stats : String → Result String
container_stats container_id = not_implemented

-- `ListContainerStats`
unfoldable pub list_container_stats : String → Result (List String)
list_container_stats filter = not_implemented

-- `PortForward`
unfoldable pub port_forward : String → Result String
port_forward pod_sandbox_id = not_implemented

-- `ImageFsInfo`
unfoldable pub image_fs_info : Result (List String)
image_fs_info = not_implemented
