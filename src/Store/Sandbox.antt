-- ===== src/Store/Sandbox.antt =====
-- pkg/store/sandbox/sandbox.go: the sandboxes by id.
use cri_containerd.Base.{
  ℕ, String, Option, none, some, List, [], Result, ok, err, Error, already_exist, not_exist,
}
use cri_containerd.Base.Int.{ℤ}
use cri_containerd.Cri.{PodSandboxConfig}
use cri_containerd.Map.{Map, lookup, insert, erase, values}

-- `Metadata`, which is all that a `Sandbox` holds
pub record Sandbox : Type 0 where
  pub id : String
  pub name : String
  pub config : PodSandboxConfig
  pub created_at : ℤ  -- int64
  pub pid : ℕ  -- uint32
  pub net_ns : String

abbrev pub Sandboxes : Type 0
Sandboxes = Map Sandbox

abbrev pub new_store : Sandboxes
new_store = []

unfoldable pub add : Sandbox → Sandboxes → Option Error × Sandboxes
add sb s = elim (lookup sb.id s) [
  | some _ ↦ (some already_exist, s)
  | none ↦ (none, insert sb.id sb s)
]

unfoldable pub get : String → Sandboxes → Result Sandbox
get id s = elim (lookup id s) [ some sb ↦ ok sb | none ↦ err not_exist ]

unfoldable pub list : Sandboxes → List Sandbox
list s = values s

unfoldable pub delete : String → Sandboxes → Sandboxes
delete id s = erase id s
