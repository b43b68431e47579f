-- ===== src/Sandboxes/Stop/Undisturbed.antt =====
-- What `StopPodSandbox` leaves alone: whatever neither the world outside nor the other goroutines
-- change.
use cri_containerd.Base.{String, Option, none, some, List, [], ◌∷◌}
use cri_containerd.Store.Container.{Container}
use cri_containerd.Store.Sandbox.{Sandbox}
use cri_containerd.Exec.Keeps.{Keeps, Keeps-bind, Keeps-then, Keeps-wrap, Keeps-reads, keeps_rules}
use cri_containerd.Service.{State, Env}
use cri_containerd.Service.Frame.{call-WorldFree, Outside-WorldFree}
use cri_containerd.Containers.Common.{list_containers_in_store}
use cri_containerd.Containers.Stop.Undisturbed.{Undisturbed, run_stop-Keeps}
use cri_containerd.Sandboxes.Files.Frame.{unmount_sandbox_files-Outside}
use cri_containerd.Sandboxes.Stop.{
  stop_member, stop_members, tear_down_if, tear_down, release_sandbox, stop_pod_sandbox,
}
use cri_containerd.Sandboxes.Stop.Frame.{stop_sandbox_container-Outside}

module _ (env : Env) (P : State env.World → Type 0) (u : Undisturbed env P) where
  open env use {World}

  stop_member-Keeps : (id : String) (d : Container) → Keeps P (stop_member env id d)
  unfolding stop_member
  stop_member-Keeps id d = search (keeps_rules, run_stop-Keeps env P u) depth 10

  pub stop_members-Keeps : (id : String) (ds : List Container) → Keeps P (stop_members env id ds)
  unfolding stop_members
  stop_members-Keeps id [] = search keeps_rules
  stop_members-Keeps id (d ∷ ds) =
      let rest = stop_members-Keeps id ds in search (keeps_rules, stop_member-Keeps) depth 8

  tear_down_if-Keeps : (sb : Sandbox) (o : Option (Unit {0})) → Keeps P (tear_down_if env sb o)
  unfolding tear_down_if
  tear_down_if-Keeps sb none = search keeps_rules
  tear_down_if-Keeps sb (some _) = search (keeps_rules, call-WorldFree, u.free) depth 8

  tear_down-Keeps : (sb : Sandbox) → Keeps P (tear_down env sb)
  unfolding tear_down
  tear_down-Keeps sb = search (keeps_rules, call-WorldFree, u.free, tear_down_if-Keeps) depth 10

  pub release_sandbox-Keeps : (sb : Sandbox) → Keeps P (release_sandbox env sb)
  unfolding release_sandbox
  release_sandbox-Keeps sb =
      search
        (
          keeps_rules, tear_down-Keeps, Outside-WorldFree, u.free, unmount_sandbox_files-Outside,
          stop_sandbox_container-Outside,
        )
        depth 12

  pub stop_pod_sandbox-Keeps : (id : String) → Keeps P (stop_pod_sandbox env id)
  unfolding stop_pod_sandbox
  stop_pod_sandbox-Keeps id = Keeps-bind _ _ (Keeps-wrap _ _ (Keeps-reads _)) λ sb.
      Keeps-bind list_containers_in_store _ (record { at = λ s h. h })
        λ cs.
          Keeps-then (stop_members env sb.id cs) (release_sandbox env sb)
            (stop_members-Keeps sb.id cs) (release_sandbox-Keeps sb)
