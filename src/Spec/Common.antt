-- ===== src/Spec/Common.antt =====
-- What both specifications use: pkg/server/container_create.go and helpers.go.
pub mod Env
use cri_containerd.Base.{
  ◌==◌, not, string_eq, String, Bool, Option, none, some, List, [], ◌∷◌, if◌then◌else◌, Result, ok,
  err, panic, Error, errorf, ℕ,
}
use cri_containerd.Base.Text.{split, ◌+s+◌}
use cri_containerd.Base.Decimal.{show_decimal}
use cri_containerd.Paths.{get_cgroups_path}
use cri_containerd.Exec.{Exec, pure, raise, modify, ◌>>=◌, ◌>>◌}
use cri_containerd.Service.{Generator}

-- the key and the value of an environment variable of an image, which is to have one equals sign
unfoldable pub split_env : String → Option (String × String)
split_env e = elim (split "=" e) [
  | [] ↦ none
  | k ∷ rest ↦ elim rest [ [] ↦ none | v ∷ more ↦ elim more [ [] ↦ some (k, v) | _ ∷ _ ↦ none ] ]
]

-- `/proc/<pid>/ns/<kind>`
unfoldable pub namespace_path : String → ℕ → String
namespace_path kind pid = "/proc/" +s+ show_decimal pid +s+ "/ns/" +s+ kind

abbrev pub get_network_namespace : ℕ → String
get_network_namespace pid = namespace_path "net" pid

abbrev pub get_ipc_namespace : ℕ → String
get_ipc_namespace pid = namespace_path "ipc" pid

abbrev pub get_uts_namespace : ℕ → String
get_uts_namespace pid = namespace_path "uts" pid

abbrev pub get_pid_namespace : ℕ → String
get_pid_namespace pid = namespace_path "pid" pid

module _ (g : Generator) where
  open g use {Spec, add_process_env, set_cgroups_path}

  unfoldable pub add_image_envs : List String → Exec Spec (Unit {0})
  add_image_envs [] = pure tt
  add_image_envs (e ∷ es) = elim (split_env e) [
    | some (k, v) ↦ modify (add_process_env k v) >> add_image_envs es
    | none ↦ raise (errorf "invalid environment variable %q" (e ∷ []))
  ]

  -- the cgroups path, where there is a parent
  unfoldable pub set_cgroups : String → String → Exec Spec (Unit {0})
  set_cgroups parent id =
      if not (parent == "") then modify (set_cgroups_path (get_cgroups_path parent id)) else pure tt
