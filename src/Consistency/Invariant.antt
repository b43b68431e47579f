-- ===== src/Consistency/Invariant.antt =====
-- The invariant of the service, and the changes of the state that it does not read.
use cri_containerd.Base.{ℕ, ◌≤◌, String, ◌≡◌, arith}
use cri_containerd.Map.{Map}
use cri_containerd.Registrar.{Registrar}
use cri_containerd.Store.Container.{Container, Containers}
use cri_containerd.Store.Sandbox.{Sandbox}
use cri_containerd.Service.{State}
use cri_containerd.Service.Frame.{WorldFree, ImagesOnly}
use cri_containerd.Consistency.Registered.{Registered}
use cri_containerd.Consistency.Storages.{Storages, Storages-grow}

abbrev pub id_of_container : Container → String
id_of_container c = c.metadata.id

abbrev pub name_of_container : Container → String
name_of_container c = c.metadata.name

abbrev pub id_of_sandbox : Sandbox → String
id_of_sandbox sb = sb.id

abbrev pub name_of_sandbox : Sandbox → String
name_of_sandbox sb = sb.name

-- Containers and sandboxes are stored under their ids, which hold the reservations of their names;
-- the registrars are one-to-one; and every container has a status storage of its own.
pub record IsConsistent {W : Type 0} (s : State W) : Type 0 where
  pub containers : Registered id_of_container name_of_container s.containers s.container_names
  pub sandboxes : Registered id_of_sandbox name_of_sandbox s.sandboxes s.sandbox_names
  pub storages : Storages s.containers s.heap.next

pub Registered-same :
    {V : Type 0} (id name : V → String) (m m' : Map V) (r r' : Registrar)
    → m' ≡ m
    → r' ≡ r
    → Registered id name m r
    → Registered id name m' r'
Registered-same id name m m' r r' e f h = rw e (rw f h)

pub Storages-same :
    (cs cs' : Containers) (next next' : ℕ)
    → cs' ≡ cs
    → next ≤ next'
    → Storages cs next
    → Storages cs' next'
Storages-same cs cs' next next' e le h = rw e (Storages-grow cs next h next' le)

-- The invariant reads the stores, the names and how many storages there are.
pub IsConsistent-same :
    {W : Type 0} (s t : State W)
    → t.containers ≡ s.containers
    → t.container_names ≡ s.container_names
    → t.sandboxes ≡ s.sandboxes
    → t.sandbox_names ≡ s.sandbox_names
    → s.heap.next ≤ t.heap.next
    → IsConsistent s
    → IsConsistent t
IsConsistent-same s t a b c d e h = record {
  containers = Registered-same id_of_container name_of_container _ _ _ _ a b h.containers;
  sandboxes = Registered-same id_of_sandbox name_of_sandbox _ _ _ _ c d h.sandboxes;
  storages = Storages-same _ _ _ _ a e h.storages;
}

pub IsConsistent-WorldFree : {W : Type 0} → WorldFree {W = W} IsConsistent
IsConsistent-WorldFree = record {
  at =
      λ s w h. record { containers = h.containers; sandboxes = h.sandboxes; storages = h.storages };
}

pub ImagesOnly-IsConsistent :
    {W : Type 0} (s t : State W) → ImagesOnly s t → IsConsistent s → IsConsistent t
ImagesOnly-IsConsistent s t e =
    IsConsistent-same s t (ground (arith, e)) (ground (arith, e)) (ground (arith, e))
      (ground (arith, e)) (ground (arith, e))
