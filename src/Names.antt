-- ===== src/Names.antt =====
-- pkg/server/helpers.go: the names under which sandboxes and containers are reserved.
pub mod Unique
use cri_containerd.Base.{String, List, [], ◌∷◌}
use cri_containerd.Base.Text.{join}
use cri_containerd.Base.Decimal.{show_decimal}
use cri_containerd.Cri.{PodSandboxMetadata, ContainerMetadata}

abbrev pub sandbox_name_parts : PodSandboxMetadata → List String
sandbox_name_parts s = s.name ∷ s.namespace ∷ s.uid ∷ show_decimal s.attempt ∷ []

unfoldable pub make_sandbox_name : PodSandboxMetadata → String
make_sandbox_name s = join "_" (sandbox_name_parts s)

abbrev pub container_name_parts : ContainerMetadata → PodSandboxMetadata → List String
container_name_parts c s = c.name ∷ s.name ∷ s.namespace ∷ s.uid ∷ show_decimal c.attempt ∷ []

unfoldable pub make_container_name : ContainerMetadata → PodSandboxMetadata → String
make_container_name c s = join "_" (container_name_parts c s)
