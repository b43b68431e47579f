-- ===== src/Sandboxes/Stop/Outcome.antt =====
-- `StopPodSandbox` of pkg/server/sandbox_stop.go and the containers of its sandbox.
use mathlib.Core.List.{Memᴰ}
use mathlib.Core.Path.{sym}
use text.Mathlib.TextPositions.{eq_refl}
use cri_containerd.Base.{
  ℕ, string_eq, String, ◌≡◌, ◌≢◌, ◌⊎◌, inl, inr, some, ok, Result, arith, List, [], ◌∷◌,
}
use cri_containerd.Base.Int.{pos}
use cri_containerd.Cri.{running}
use cri_containerd.Store.Status.{state}
use cri_containerd.Store.Container
use cri_containerd.Store.Container.{Container}
use cri_containerd.Store.Sandbox
use cri_containerd.Store.Sandbox.{Sandbox}
use cri_containerd.Exec.{Exec, ◌>>◌}
use cri_containerd.Exec.Keeps.{Keeps}
use cri_containerd.Exec.Succeeds.{Ensures, Ensures-wrap}
use cri_containerd.Exec.Ends.{bind_ends, wrapped_bind}
use cri_containerd.Service.{State, Env}
use cri_containerd.Service.Frame.{WorldFree}
use cri_containerd.Containers.Stop.{run_stop}
use cri_containerd.Containers.Stop.Outcome.{IsStopped, run_stop_stops}
use cri_containerd.Containers.Stop.Undisturbed.{Undisturbed}
use cri_containerd.Sandboxes.Stop.{stop_member, stop_members, release_sandbox, stop_pod_sandbox}
use cri_containerd.Sandboxes.Stop.Undisturbed.{stop_members-Keeps, release_sandbox-Keeps}

-- The container, with its status at `a`, is not running, or it has exited or is out of the store.
abbrev pub Down : {W : Type 0} → Container → ℕ → State W → Type 0
Down c a s = (state (s.heap.cell a) ≢ running) ⊎ IsStopped c.metadata.id s

pub Down-WorldFree : {W : Type 0} (c : Container) (a : ℕ) → WorldFree {W = W} (Down c a)
Down-WorldFree c a = record {
  at = λ s w h. elim h [ inl n ↦ inl n | inr stopped ↦ inr (record { at = stopped.at }) ];
}

module _ (env : Env) (c : Container) (a : ℕ) (u : Undisturbed env (Down c a)) where
  open env use {World}

  -- the container is down if the action has succeeded
  abbrev DownIf : Result (Unit {0}) × State World → Type 0
  DownIf (r, s) = r ≡ ok tt → Down c a s

  run_stop-Ensures : c.status ≡ some a → Ensures (Down c a) (run_stop env c (pos 0))
  run_stop-Ensures stored = record {
    at = λ s u h. elim (run_stop_stops env c a (pos 0) s stored h) [
      | inl (n, e) ↦ inl (rw e n)
      | inr stopped ↦ inr stopped
    ];
  }

  stop_member-Down :
      (s : State World) → c.status ≡ some a → DownIf (stop_member env c.metadata.sandbox_id c s)
  unfolding stop_member
  stop_member-Down s stored =
      rw (eq_refl c.metadata.sandbox_id, stop_member)
        ((Ensures-wrap _ (run_stop env c (pos 0)) (run_stop-Ensures stored)).at s tt)

  same_member-Down :
      (d : Container) (s : State World)
      → c.status ≡ some a
      → c ≡ d
      → DownIf (stop_member env c.metadata.sandbox_id d s)
  same_member-Down d s stored e = rw (sym e) (stop_member-Down s stored)

  stop_members-Down :
      (ds : List Container) (s : State World)
      → c.status ≡ some a
      → Memᴰ c ds
      → DownIf (stop_members env c.metadata.sandbox_id ds s)
  unfolding stop_members
  stop_members-Down [] s stored m = elim m [ ]
  stop_members-Down (d ∷ ds) s stored (Memᴰ.head e) =
      bind_ends DownIf (λ _. stop_members env c.metadata.sandbox_id ds)
        (stop_member env c.metadata.sandbox_id d s)
        (λ x h k.
          (stop_members-Keeps env (Down c a) u c.metadata.sandbox_id ds).at _
            (same_member-Down d s stored e h))
        (λ f h k. cc) (λ h k. cc)
  stop_members-Down (d ∷ ds) s stored (Memᴰ.tail m) =
      bind_ends DownIf (λ _. stop_members env c.metadata.sandbox_id ds)
        (stop_member env c.metadata.sandbox_id d s) (λ x h. stop_members-Down ds _ stored m)
        (λ f h k. cc) (λ h k. cc)

  stop_then-Down :
      (id : String) (ds : List Container) (after : Exec (State World) (Unit {0})) (s : State World)
      → Keeps (Down c a) after
      → c.status ≡ some a
      → c.metadata.sandbox_id ≡ id
      → Memᴰ c ds
      → DownIf ((stop_members env id ds >> after) s)
  stop_then-Down id ds after s kept stored member listed = rw (sym member) (
      bind_ends DownIf (λ _. after) (stop_members env c.metadata.sandbox_id ds s)
        (λ x h k. kept.at _ (stop_members-Down ds s stored listed h)) (λ f h k. cc) (λ h k. cc))

  -- A stop of a sandbox that succeeds has brought down every container that the sandbox had when it
  -- began: the container is not running, or it has exited or is out of the store. This is so unless
  -- the other goroutines start the container again between two polls, which `Undisturbed` excludes.
  pub stop_pod_sandbox-Down :
      (id : String) (sb : Sandbox) (s : State World)
      → Sandbox.get id s.sandboxes ≡ ok sb
      → c.status ≡ some a
      → c.metadata.sandbox_id ≡ sb.id
      → Memᴰ c (Container.list s.containers)
      → (stop_pod_sandbox env id s).0 ≡ ok tt
      → Down c a (stop_pod_sandbox env id s).1
  unfolding stop_pod_sandbox
  stop_pod_sandbox-Down id sb s found stored member listed =
      wrapped_bind DownIf _
        (λ x t. (stop_members env x.id (Container.list t.containers) >> release_sandbox env x) t)
        (Sandbox.get id s.sandboxes, s)
        (λ x e.
          let same : sb ≡ x = ground (arith, found, e) in
          stop_then-Down x.id (Container.list s.containers) (release_sandbox env x) s
            (release_sandbox-Keeps env (Down c a) u x) stored (ground (arith, member, same)) listed)
        (λ e h k. cc) (λ h k. cc)
