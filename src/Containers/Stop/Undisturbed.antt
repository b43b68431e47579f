-- ===== src/Containers/Stop/Undisturbed.antt =====
-- What a stop leaves alone: whatever neither the world outside nor the other goroutines change.
use mathlib.Core.List.{Memᴰ}
use cri_containerd.Base.{String, refl, arith, List, [], ◌∷◌}
use cri_containerd.Base.Int.{ℤ}
use cri_containerd.Store.Container.{Container}
use cri_containerd.Exec.Keeps.{Keeps, keeps_rules}
use cri_containerd.Service.{State, Env, Wakeup}
use cri_containerd.Service.Frame.{WorldFree, call-WorldFree}
use cri_containerd.Containers.Stop.{
  poll_loop, wait_container_stop, kill_container, wait_or_kill, stop_gracefully, run_stop,
}
use cri_containerd.Containers.Stop.Outcome.{poll-state}

poll_loop_keeps :
    {W : Type 0} (P : State W → Type 0) (id : String) (ticks : List (State W → State W))
    (last : Wakeup) (s : State W)
    → ((tick : State W → State W) → Memᴰ tick ticks → (t : State W) → P t → P (tick t))
    → P s
    → P (poll_loop id ticks last s).1
unfolding poll_loop
poll_loop_keeps P id [] last s steady h = ground (arith, h, poll-state id s)
poll_loop_keeps P id (tick ∷ ticks) last s steady h = ground (
  arith,
  h,
  poll-state id s,
  poll_loop_keeps P id ticks last (tick s) (λ t m. steady t (Memᴰ.tail m))
      (steady tick (Memᴰ.head refl) s h),
)

-- Neither the world outside nor what the other goroutines do between two polls changes `P`.
pub record Undisturbed (env : Env) (P : State env.World → Type 0) : Type 0 where
  pub free : WorldFree P
  pub ticks :
      (id : String) (timeout : ℤ) (w : env.World) (tick : State env.World → State env.World)
      → Memᴰ tick (env.waits id timeout w).0.ticks
      → (s : State env.World) → P s
      → P (tick s)

module _ (env : Env) (P : State env.World → Type 0) (u : Undisturbed env P) where
  wait-Keeps : (id : String) (timeout : ℤ) → Keeps P (wait_container_stop env id timeout)
  unfolding wait_container_stop
  wait-Keeps id timeout = record {
    at = λ s h. poll_loop_keeps P id _ _ _ (u.ticks id timeout s.world) (u.free.at s _ h);
  }

  kill-Keeps : (id : String) → Keeps P (kill_container env id)
  unfolding kill_container
  kill-Keeps id = search (keeps_rules, call-WorldFree, u.free, wait-Keeps) depth 10

  wait_or_kill-Keeps : (id : String) (timeout : ℤ) → Keeps P (wait_or_kill env id timeout)
  unfolding wait_or_kill
  wait_or_kill-Keeps id timeout = record {
    at = λ s h. ground (
      arith,
      (wait-Keeps id timeout).at s h,
      (kill-Keeps id).at (wait_container_stop env id timeout s).1,
    );
  }

  gracefully-Keeps : (c : Container) (timeout : ℤ) → Keeps P (stop_gracefully env c timeout)
  unfolding stop_gracefully
  gracefully-Keeps c timeout =
      search (keeps_rules, call-WorldFree, u.free, wait_or_kill-Keeps) depth 12

  pub run_stop-Keeps : (c : Container) (timeout : ℤ) → Keeps P (run_stop env c timeout)
  unfolding run_stop
  run_stop-Keeps c timeout = record {
    at = λ s h.
        ground (arith, h, (kill-Keeps c.metadata.id).at s h, (gracefully-Keeps c timeout).at s h);
  }
