-- ===== src/Containers/Create/Added.antt =====
-- `CreateContainer` of pkg/server/container_create.go once its name is reserved.
use cri_containerd.Base.{
  ℕ, ◌≤◌, ◌<◌, String, ◌≡◌, string_eq, nat_eq, nat_beq_iff, refl, Option, none, some, arith, inl,
  inr, Option-cases,
}
use cri_containerd.Base.Int.{ℤ}
use cri_containerd.Cri.{ContainerConfig, PodSandboxConfig}
use cri_containerd.Map.{lookup, insert}
use cri_containerd.Store.Heap
use cri_containerd.Store.Image.{Image}
use cri_containerd.Store.Container
use cri_containerd.Store.Container.{Container, Metadata}
use cri_containerd.Store.Sandbox.{Sandbox}
use cri_containerd.Exec.Keeps.{Keeps, keeps_rules}
use cri_containerd.Exec.Commits.{Commits, Committed, Commits-weaken, commits_rules}
use cri_containerd.Service.{State, Env, Op, call, effect}
use cri_containerd.Service.Frame.{WorldFree, call-WorldFree, effect-WorldFree, Outside-WorldFree}
use cri_containerd.Images.Resolve.{local_resolve}
use cri_containerd.Images.Resolve.Frame.{local_resolve-Outside}
use cri_containerd.Containers.Remove.{delete_checkpoint}
use cri_containerd.Containers.Create.{
  created_at, found_image, record_container, store_container, create_in_containerd,
  make_container_root, snapshot_rootfs, create_reserved,
}

-- `s` is `s0` but for the world and new status storages.
pub record Grown {W : Type 0} (s0 s : State W) : Type 0 where
  pub rest : s ≡ record s0 { world = s.world; heap = s.heap }
  pub next_le : s0.heap.next ≤ s.heap.next
  pub cells : (b : ℕ) → b < s0.heap.next → s.heap.cell b ≡ s0.heap.cell b

-- The state `s` is `s0` with the container added, but for the world: its status is in a new storage,
-- with a creation time and nothing else, and no container had its id before.
pub record ContainerAdded {W : Type 0} (s0 : State W) (meta : Metadata) (s : State W) : Type 0 where
  pub address : ℕ
  pub at : ℤ
  pub is_fresh : s0.heap.next ≤ address
  pub is_allocated : address < s.heap.next
  pub status : s.heap.cell address ≡ created_at at
  pub cells : (b : ℕ) → b < s0.heap.next → s.heap.cell b ≡ s0.heap.cell b
  pub is_new : lookup meta.id s0.containers ≡ none
  pub rest : s ≡ record s0 {
    world = s.world;
    heap = s.heap;
    containers = insert meta.id (record { metadata = meta; status = some address }) s0.containers;
  }

module _ {W : Type 0} (s0 : State W) where
  Grown-WorldFree : WorldFree (Grown s0)
  Grown-WorldFree = record {
    at = λ s w h. record { rest = ground (arith, h.rest); next_le = h.next_le; cells = h.cells };
  }

  call-Grown : {A : Type 0} (op : Op W A) → Keeps (Grown s0) (call op)
  call-Grown op = call-WorldFree op Grown-WorldFree

  effect-Grown : {A : Type 0} (op : W → A × W) → Keeps (Grown s0) (effect op)
  effect-Grown op = effect-WorldFree op Grown-WorldFree

  pub Grown-refl : Grown s0 s0
  Grown-refl = record { rest = refl; next_le = omega arith; cells = λ b lt. refl }

  -- the value returned is the id
  abbrev Added : Metadata → String → State W → Type 0
  Added meta r s = (r ≡ meta.id) × ContainerAdded s0 meta s

  record_container-Commits :
      (meta : Metadata) (at : ℤ) → Commits (Grown s0) (Added meta) (record_container meta at)
  unfolding record_container Heap.store_status Container.add delete_checkpoint
  record_container-Commits meta at = record {
    at = λ s h. elim (Option-cases (lookup meta.id s.containers)) [
      | inl free ↦
          rw (free, Committed, record_container)
            (
              refl,
              record {
                address = s.heap.next;
                at = at;
                is_fresh = h.next_le;
                is_allocated = ground (arith, free);
                status = ground (arith, free, nat_beq_iff s.heap.next s.heap.next);
                cells = λ b lt.
                    ground (arith, free, h.cells b lt, h.next_le, nat_beq_iff b s.heap.next);
                is_new = ground (arith, h.rest, free);
                rest = ground (arith, h.rest, free);
              },
            )
      | inr (old, taken) ↦
          rw (taken, Committed, record_container)
            (record {
              rest = ground (arith, taken, h.rest);
              next_le = ground (arith, taken, h.next_le);
              cells =
                  λ b lt. ground (arith, taken, h.cells b lt, h.next_le, nat_beq_iff b s.heap.next);
            })
    ];
  }

ruleset grown_rules = (keeps_rules, call-Grown, effect-Grown)

module _ (env : Env) (s0 : State env.World) where
  store_container-Commits :
      (meta : Metadata) → Commits (Grown s0) (Added s0 meta) (store_container env meta)
  unfolding store_container
  store_container-Commits meta =
      search (commits_rules, grown_rules, record_container-Commits) depth 8

  create_in_containerd-Commits :
      (meta : Metadata) (raw : String)
      → Commits (Grown s0) (Added s0 meta) (create_in_containerd env meta raw)
  unfolding create_in_containerd
  create_in_containerd-Commits meta raw =
      search (commits_rules, grown_rules, store_container-Commits) depth 8

  make_container_root-Commits :
      (meta : Metadata) (raw : String)
      → Commits (Grown s0) (Added s0 meta) (make_container_root env meta raw)
  unfolding make_container_root
  make_container_root-Commits meta raw =
      search (commits_rules, grown_rules, create_in_containerd-Commits) depth 8

  found_image-Grown : (ref : String) (o : Option Image) → Keeps (Grown s0) (found_image ref o)
  unfolding found_image
  found_image-Grown ref none = search keeps_rules
  found_image-Grown ref (some i) = search keeps_rules

  snapshot_rootfs-Grown :
      (config : ContainerConfig) (id chain : String)
      → Keeps (Grown s0) (snapshot_rootfs env config id chain)
  unfolding snapshot_rootfs
  snapshot_rootfs-Grown config id chain = search grown_rules depth 8

  local_resolve-Grown : (ref : String) → Keeps (Grown s0) (local_resolve env ref)
  local_resolve-Grown ref =
      Outside-WorldFree _ (λ s. local_resolve-Outside env s ref) (Grown-WorldFree s0)

-- the metadata that is stored
abbrev pub made : Sandbox → ContainerConfig → String → String → String → Metadata
made sandbox config id name image = record {
  id = id;
  name = name;
  sandbox_id = sandbox.id;
  config = config;
  image_ref = image;
}

module _ (env : Env) (s0 : State env.World) (sandbox : Sandbox) (config : ContainerConfig)
    (id name : String) where
  abbrev pub Created : String → State env.World → Type 0
  Created r s = (image : String) × Added s0 (made sandbox config id name image) r s

  made-Commits :
      (image raw : String)
      → Commits (Grown s0) Created (make_container_root env (made sandbox config id name image) raw)
  made-Commits image raw =
      Commits-weaken (Grown s0) (λ r s h. (image, h)) _
        (make_container_root-Commits env s0 (made sandbox config id name image) raw)

  pub create_reserved-Commits :
      (sandbox_config : PodSandboxConfig)
      → Commits (Grown s0) Created (create_reserved env sandbox config sandbox_config id name)
  unfolding create_reserved
  create_reserved-Commits sandbox_config =
      let resolved : (ref : String) → Keeps (Grown s0) (local_resolve env ref) =
        local_resolve-Grown env s0 in
      let found : (ref : String) (o : Option Image) → Keeps (Grown s0) (found_image ref o) =
        found_image-Grown env s0 in
      let snapped : (chain : String) → Keeps (Grown s0) (snapshot_rootfs env config id chain) =
        snapshot_rootfs-Grown env s0 config id in
      search (commits_rules, grown_rules, resolved, found, snapped, made-Commits) depth 16
