-- ===== src/Containers/Stop/Outcome.antt =====
-- A stop of pkg/server/container_stop.go when it returns.
use cri_containerd.Base.{ℕ, String, ◌≡◌, ◌≢◌, ◌⊎◌, true, some, ok, arith, List, [], ◌∷◌}
use cri_containerd.Base.Int.{ℤ}
use cri_containerd.Cri.{running, exited, state_eq, state_beq_iff}
use cri_containerd.Store.Status.{state}
use cri_containerd.Store.Container
use cri_containerd.Store.Container.{Container}
use cri_containerd.Exec.Succeeds.{Ensures, ensures_rules}
use cri_containerd.Service.{State, Env, Wakeup}
use cri_containerd.Containers.Stop.{
  poll, poll_loop, wait_container_stop, kill_container, wait_or_kill, stop_gracefully, run_stop,
}

-- A container that is still in the store has exited.
pub record IsStopped {W : Type 0} (id : String) (s : State W) : Type 0 where
  pub at :
      (c : Container) (a : ℕ)
      → Container.get id s.containers ≡ ok c
      → c.status ≡ some a
      → state (s.heap.cell a) ≡ exited

module _ {W : Type 0} where
  pub poll-state : (id : String) (s : State W) → (poll id s).1 ≡ s
  unfolding poll
  poll-state id s = ground arith

  poll-IsStopped : (id : String) (s : State W) → (poll id s).0 ≡ ok true → IsStopped id s
  unfolding poll
  poll-IsStopped id s h = record {
    at = λ c a g p. ground (arith, h, g, p, state_beq_iff (state (s.heap.cell a)) exited);
  }

  poll_loop-IsStopped :
      (id : String) (ticks : List (State W → State W)) (last : Wakeup) (s : State W)
      → (poll_loop id ticks last s).0 ≡ ok tt
      → IsStopped id (poll_loop id ticks last s).1
  unfolding poll_loop
  poll_loop-IsStopped id [] last s h = ground (arith, h, poll-state id s, poll-IsStopped id s)
  poll_loop-IsStopped id (tick ∷ ticks) last s h =
      ground
        (arith, h, poll-state id s, poll-IsStopped id s, poll_loop-IsStopped id ticks last (tick s))

module _ (env : Env) where
  open env use {World}

  wait_container_stop-Ensures :
      (id : String) (timeout : ℤ) → Ensures (IsStopped id) (wait_container_stop env id timeout)
  unfolding wait_container_stop
  wait_container_stop-Ensures id timeout = record { at = λ s a h. poll_loop-IsStopped id _ _ _ h }

  kill_container-Ensures : (id : String) → Ensures (IsStopped id) (kill_container env id)
  unfolding kill_container
  kill_container-Ensures id = search (ensures_rules, wait_container_stop-Ensures)

  wait_or_kill-Ensures :
      (id : String) (timeout : ℤ) → Ensures (IsStopped id) (wait_or_kill env id timeout)
  unfolding wait_or_kill
  wait_or_kill-Ensures id timeout = record {
    at = λ s a h. ground (
      arith,
      h,
      (wait_container_stop-Ensures id timeout).at s tt,
      (kill_container-Ensures id).at (wait_container_stop env id timeout s).1 tt,
    );
  }

  stop_gracefully-Ensures :
      (c : Container) (timeout : ℤ)
      → Ensures (IsStopped c.metadata.id) (stop_gracefully env c timeout)
  unfolding stop_gracefully
  stop_gracefully-Ensures c timeout = search (ensures_rules, wait_or_kill-Ensures)

  -- A stop that returns without an error has done its work: either the container was not running
  -- and nothing has been touched, or at the last poll it had exited or was no longer in the store,
  -- whatever the other goroutines did between the polls.
  pub run_stop_stops :
      (c : Container) (a : ℕ) (timeout : ℤ) (s : State World)
      → c.status ≡ some a
      → (run_stop env c timeout s).0 ≡ ok tt
      → ((state (s.heap.cell a) ≢ running) × ((run_stop env c timeout s).1 ≡ s))
        ⊎ IsStopped c.metadata.id (run_stop env c timeout s).1
  unfolding run_stop
  run_stop_stops c a timeout s stored h = ground (
    arith,
    h,
    stored,
    state_beq_iff (state (s.heap.cell a)) running,
    (stop_gracefully-Ensures c timeout).at s tt,
    (kill_container-Ensures c.metadata.id).at s tt,
  )
