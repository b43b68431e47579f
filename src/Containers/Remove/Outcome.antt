-- ===== src/Containers/Remove/Outcome.antt =====
-- How `RemoveContainer` ends, and what it leaves behind.
use cri_containerd.Base.{
  ℕ, String, ◌≡◌, refl, true, some, ok, err, panic, Result, arith, nat_beq_iff,
}
use cri_containerd.Store.Container
use cri_containerd.Store.Container.{Container}
use cri_containerd.Exec.Keeps.{Keeps}
use cri_containerd.Service.{State, Env}
use cri_containerd.Service.Frame.{Outside, outside_rules, safe_rules}
use cri_containerd.Registrar.{release_by_key}
use cri_containerd.Store.Heap
use cri_containerd.Exec.Panics.{NoPanic}
use cri_containerd.Containers.Remove.{
  remove_container, set_removing, reset_removing, remove_resources, delete_checkpoint,
}

module _ (env : Env) (c : Container) (a : ℕ) (stored : c.status ≡ some a) where
  delete_checkpoint-Outside : (s0 : State env.World) → Keeps (Outside s0) (delete_checkpoint c)
  unfolding delete_checkpoint
  delete_checkpoint-Outside s0 = rw stored (search outside_rules)

  delete_checkpoint-NoPanic : NoPanic (delete_checkpoint {W = env.World} c)
  unfolding delete_checkpoint
  delete_checkpoint-NoPanic = rw stored (search safe_rules)

  remove_resources-Outside : (s0 : State env.World) → Keeps (Outside s0) (remove_resources env c)
  unfolding remove_resources
  remove_resources-Outside s0 = search (outside_rules, delete_checkpoint-Outside) depth 14

  remove_resources-NoPanic : NoPanic (remove_resources env c)
  unfolding remove_resources
  remove_resources-NoPanic = search (safe_rules, delete_checkpoint-NoPanic) depth 14

-- the state in which the resources are removed
abbrev marked : {W : Type 0} → ℕ → State W → State W
marked a s = record s { heap = Heap.write a (record (s.heap.cell a) { removing = true }) s.heap }

-- What a removal of the container `c`, whose status is at `a`, leaves of the state `s0`, by how it
-- ends.
abbrev pub Removed : {W : Type 0} → Container → ℕ → State W → Result (Unit {0}) × State W → Type 0
Removed c a s0 (ok _, s) =
    (s.containers ≡ Container.delete c.metadata.id s0.containers)
    × (s.container_names ≡ release_by_key c.metadata.id s0.container_names)
    × (s.sandboxes ≡ s0.sandboxes)
    × (s.sandbox_names ≡ s0.sandbox_names)
    × (s.images ≡ s0.images)
    × (s.heap.next ≡ s0.heap.next)
    × ((s.heap.cell a).removing ≡ true)
Removed c a s0 (err _, s) =
    (s.containers ≡ s0.containers)
    × (s.container_names ≡ s0.container_names)
    × (s.sandboxes ≡ s0.sandboxes)
    × (s.sandbox_names ≡ s0.sandbox_names)
    × (s.images ≡ s0.images)
    × (s.heap.next ≡ s0.heap.next)
    × ((b : ℕ) → s.heap.cell b ≡ s0.heap.cell b)
Removed c a s0 (panic, s) = ⊥

-- `RemoveContainer` of a container in the store ends in one of two ways. It succeeds: the container
-- is out of the store, its name is free, and its status stays marked as being removed. Or it fails:
-- the stores, the names and every status are as they were, so the removal can be tried again. It
-- never panics, and it never touches the sandboxes or the images.
pub remove_container_outcome :
    (env : Env) (id : String) (c : Container) (a : ℕ) (s0 : State env.World)
    → Container.get id s0.containers ≡ ok c
    → c.status ≡ some a
    → Removed c a s0 (remove_container env id s0)
unfolding remove_container set_removing reset_removing Heap.update
remove_container_outcome env id c a s0 found stored =
    let s1 : State env.World = marked a s0 in
    ground (
      arith,
      found,
      stored,
      (remove_resources-Outside env c a stored s1).at s1 refl,
      (remove_resources-NoPanic env c a stored).at s1,
      nat_beq_iff a a,
    )
