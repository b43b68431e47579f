-- ===== src/Paths.antt =====
-- pkg/server/helpers.go: the directories of sandboxes and containers, with `filepath.Join` and
-- `filepath.Clean` of the standard library on Unix.

use mathlib.Core.List.{foldl, reverse}
use cri_containerd.Base.{
  String, Bool, true, false, List, [], ◌∷◌, ◌==◌, ◌||◌, string_eq, if◌then◌else◌, refl, ◌≡◌,
}
use cri_containerd.Base.Text.{split, join, ◌+s+◌}

-- The components read so far, the last one first.
abbrev back : Bool → List String → List String
back rooted [] = if rooted then [] else ".." ∷ []
back rooted (top ∷ rest) = if top == ".." then ".." ∷ top ∷ rest else rest

enter : Bool → List String → String → List String
enter rooted stack c =
    if c == "" || c == "." then stack else if c == ".." then back rooted stack else c ∷ stack

abbrev render : Bool → List String → String
render true stack = "/" +s+ join "/" (reverse stack)
render false [] = "."
render false (c ∷ stack) = join "/" (reverse (c ∷ stack))

abbrev is_rooted : List String → Bool
is_rooted (first ∷ _ ∷ _) = first == ""
is_rooted _ = false

-- `filepath.Clean`
unfoldable pub clean : String → String
unfolding enter split join
clean path =
    let parts = split "/" path in
    let rooted = is_rooted parts in render rooted (foldl (enter rooted) [] parts)

-- `filepath.Join`
unfoldable pub path_join : List String → String
unfolding clean
path_join [] = ""
path_join (x ∷ xs) = let rest = path_join xs in if x == "" then rest else clean (join "/" (x ∷ xs))

pub get_cgroups_path : String → String → String
get_cgroups_path cgroups_parent id = path_join (cgroups_parent ∷ id ∷ [])

unfoldable pub get_sandbox_root_dir : String → String → String
get_sandbox_root_dir root_dir id = path_join (root_dir ∷ "sandboxes" ∷ id ∷ [])

unfoldable pub get_container_root_dir : String → String → String
get_container_root_dir root_dir id = path_join (root_dir ∷ "containers" ∷ id ∷ [])

unfoldable pub get_streaming_pipes : String → String × String × String
get_streaming_pipes root_dir = (
  path_join (root_dir ∷ "stdin" ∷ []),
  path_join (root_dir ∷ "stdout" ∷ []),
  path_join (root_dir ∷ "stderr" ∷ []),
)

unfoldable pub get_sandbox_hosts : String → String
get_sandbox_hosts sandbox_root_dir = path_join (sandbox_root_dir ∷ "hosts" ∷ [])

unfoldable pub get_resolv_path : String → String
get_resolv_path sandbox_root = path_join (sandbox_root ∷ "resolv.conf" ∷ [])

unfoldable pub get_sandbox_dev_shm : String → String
get_sandbox_dev_shm sandbox_root_dir = path_join (sandbox_root_dir ∷ "shm" ∷ [])

path_join_tests :
    (path_join ("/var/lib" ∷ "containers" ∷ "a" ∷ []) ≡ "/var/lib/containers/a")
    × (path_join ("" ∷ "/x/../../y/./z//" ∷ []) ≡ "/y/z")
    × (path_join ("a" ∷ "../../b" ∷ []) ≡ "../b")
unfolding path_join
path_join_tests = (refl, refl, refl)
