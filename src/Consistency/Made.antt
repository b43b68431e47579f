-- ===== src/Consistency/Made.antt =====
-- The outcomes of `CreateContainer` and `RunPodSandbox` against the invariant of the service.
use mathlib.Core.Path.{sym}
use cri_containerd.Base.{
  String, ◌≡◌, ◌≢◌, inl, inr, refl, none, some, ok, err, panic, Result, arith,
}
use cri_containerd.Cri.{ContainerConfig, PodSandboxConfig}
use cri_containerd.Map.{lookup, insert}
use cri_containerd.Registrar.{Registrar}
use cri_containerd.Registrar.Operations.{IsReservable}
use cri_containerd.Store.Container.{Container}
use cri_containerd.Store.Sandbox.{Sandbox}
use cri_containerd.Service.{State}
use cri_containerd.Sandboxes.Run.Outcome.{SandboxRun}
use cri_containerd.Containers.Create.Added.{made}
use cri_containerd.Containers.Create.Outcome.{ContainerMade}
use cri_containerd.Consistency.Registered.{Registered-names, Registered-insert}
use cri_containerd.Consistency.Storages.{Storages-insert}
use cri_containerd.Consistency.Invariant.{
  IsConsistent, IsConsistent-same, Registered-same, Storages-same, id_of_container,
  name_of_container, id_of_sandbox, name_of_sandbox,
}

-- a name that could be reserved for a key that no name leads to was free
reservable_free :
    (name key : String) (r : Registrar)
    → IsReservable name key r
    → lookup key r.key_to_name ≡ none
    → lookup name r.name_to_key ≡ none
reservable_free name key r (inl paired) unused = absurd (ground (arith, paired, unused))
reservable_free name key r (inr free) unused = free.0

module _ {W : Type 0} (s0 : State W) (h : IsConsistent s0) (id name : String) where
  pub ContainerMade-IsConsistent :
      (sandbox : Sandbox) (config : ContainerConfig) (o : Result String × State W)
      → lookup id s0.container_names.key_to_name ≡ none
      → ContainerMade s0 sandbox config id name o
      → o.0 ≢ panic
      → IsConsistent o.1
  ContainerMade-IsConsistent sandbox config (ok r, s) fresh c alive =
      let (e, leads, back, was, inverse, others, (image, added)) = c in
      let made_here : Container = record {
        metadata = made sandbox config id name image;
        status = some added.address;
      } in
      record {
        containers =
            Registered-same id_of_container name_of_container (insert id made_here s0.containers) _
              s.container_names _ (ground (arith, added.rest)) refl
              (Registered-insert id_of_container name_of_container s0.containers s0.container_names
                h.containers made_here s.container_names
                (reservable_free name id s0.container_names was fresh) leads others inverse);
        sandboxes =
            Registered-same id_of_sandbox name_of_sandbox s0.sandboxes _ s0.sandbox_names _
              (ground (arith, added.rest)) (ground (arith, added.rest)) h.sandboxes;
        storages =
            Storages-same (insert id made_here s0.containers) _ s.heap.next _
              (ground (arith, added.rest)) (omega arith)
              (Storages-insert s0.containers s0.heap.next h.storages id made_here added.address
                s.heap.next refl added.is_fresh added.is_allocated);
      }
  ContainerMade-IsConsistent sandbox config (err x, s) fresh c alive =
      let (grown, names, inverse, others) = c in
      elim names [
        | inl same ↦
            IsConsistent-same s0 s (ground (arith, grown.rest)) same (ground (arith, grown.rest))
              (ground (arith, grown.rest)) grown.next_le h
        | inr (free, was) ↦ record {
          containers =
              Registered-same id_of_container name_of_container s0.containers _ s.container_names _
                (ground (arith, grown.rest)) refl
                (Registered-names id_of_container name_of_container s0.containers s0.container_names
                  h.containers name s.container_names
                  (reservable_free name id s0.container_names was fresh) others inverse);
          sandboxes =
              Registered-same id_of_sandbox name_of_sandbox s0.sandboxes _ s0.sandbox_names _
                (ground (arith, grown.rest)) (ground (arith, grown.rest)) h.sandboxes;
          storages =
              Storages-same s0.containers _ s0.heap.next _ (ground (arith, grown.rest))
                grown.next_le h.storages;
        }
      ]
  ContainerMade-IsConsistent sandbox config (panic, s) fresh c alive = absurd (alive refl)

  pub SandboxRun-IsConsistent :
      (config : PodSandboxConfig) (o : Result String × State W)
      → lookup id s0.sandbox_names.key_to_name ≡ none
      → SandboxRun s0 id name config o
      → o.0 ≢ panic
      → IsConsistent o.1
  SandboxRun-IsConsistent config (ok r, s) fresh c alive =
      let (
        e,
        leads,
        back,
        was,
        inverse,
        others,
        (sb, same_id, same_name, same_config, free, same),
      ) =
        c in
      record {
        containers =
            Registered-same id_of_container name_of_container s0.containers _ s0.container_names _
              (ground (arith, same)) (ground (arith, same)) h.containers;
        sandboxes =
            Registered-same id_of_sandbox name_of_sandbox (insert id sb s0.sandboxes) _
              s.sandbox_names _ (ground (arith, same)) refl
              (rw (sym same_id) (
                Registered-insert id_of_sandbox name_of_sandbox s0.sandboxes s0.sandbox_names
                  h.sandboxes sb s.sandbox_names
                  (rw same_name (reservable_free name id s0.sandbox_names was fresh))
                  (rw same_name (rw same_id leads)) (rw same_name others) inverse));
        storages =
            Storages-same s0.containers _ s0.heap.next _ (ground (arith, same))
              (ground (arith, same)) h.storages;
      }
  SandboxRun-IsConsistent config (err x, s) fresh c alive =
      let (same, names, inverse, others) = c in
      elim names [
        | inl kept ↦
            IsConsistent-same s0 s (ground (arith, same)) (ground (arith, same))
              (ground (arith, same)) kept (ground (arith, same)) h
        | inr (free, was) ↦ record {
          containers =
              Registered-same id_of_container name_of_container s0.containers _ s0.container_names _
                (ground (arith, same)) (ground (arith, same)) h.containers;
          sandboxes =
              Registered-same id_of_sandbox name_of_sandbox s0.sandboxes _ s.sandbox_names _
                (ground (arith, same)) refl
                (Registered-names id_of_sandbox name_of_sandbox s0.sandboxes s0.sandbox_names
                  h.sandboxes name s.sandbox_names
                  (reservable_free name id s0.sandbox_names was fresh) others inverse);
          storages =
              Storages-same s0.containers _ s0.heap.next _ (ground (arith, same))
                (ground (arith, same)) h.storages;
        }
      ]
  SandboxRun-IsConsistent config (panic, s) fresh c alive = absurd (alive refl)
