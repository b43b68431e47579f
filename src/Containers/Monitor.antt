-- ===== src/Containers/Monitor.antt =====
-- The event monitor, `startEventMonitor` and `handleEventStream` of pkg/server/events.go.
use cri_containerd.Base.{ℕ, zero, suc, ◌*◌}
use cri_containerd.Exec.{Exec, pure, ◌>>=◌, ◌>>◌}
use cri_containerd.Service.{State, Env, Op, Reply, value, failure, effect}
use cri_containerd.Containers.Stop.{second}
use cri_containerd.Containers.Events.{Event, handle_event}

-- github.com/jpillora/backoff, the receipt of the next event of a stream, and the sleep
pub record Backoff (W : Type 0) : Type 1 where
  pub Delay : Type 0
  pub new_delay : ℕ → ℕ → ℕ → Delay
  pub duration : Delay → ℕ × Delay
  pub reset : Delay → Delay
  pub sleep : ℕ → W → Unit {0} × W
  pub recv : ℕ → Op W Event

-- times in nanoseconds
abbrev pub min_retry_interval : ℕ
min_retry_interval = 100 * 1000000

abbrev pub max_retry_interval : ℕ
max_retry_interval = 30 * second

abbrev pub exponential_factor : ℕ
exponential_factor = 2

module _ (env : Env) (backoff : Backoff env.World) where
  open env use {World, subscribe}
  open backoff use {Delay, new_delay, duration, reset, sleep, recv}

  -- where the goroutine stands: it connects, or receives from a stream
  pub data Phase : Type 0 where
    connecting : Delay → Phase
    receiving : ℕ → Delay → Phase

  pub first_phase : Phase
  first_phase = connecting (new_delay min_retry_interval max_retry_interval exponential_factor)

  -- after `Subscribe`: a failure is slept over, with a delay that grows; a success resets it
  connected : Delay → Reply ℕ → Exec (State World) Phase
  connected delay (value stream) = pure (receiving stream (reset delay))
  connected delay (failure e) =
      effect (sleep (duration delay).0) >> pure (connecting (duration delay).1)

  -- `handleEventStream`: an error of the stream leads back to a new connection
  received : ℕ → Delay → Reply Event → Exec (State World) Phase
  received stream delay (value e) = handle_event env e >> pure (receiving stream delay)
  received stream delay (failure e) = pure (connecting delay)

  -- one round of either of the two endless loops
  unfoldable pub monitor_round : Phase → Exec (State World) Phase
  unfolding connected received
  monitor_round (connecting delay) = do r ← effect subscribe; connected delay r
  monitor_round (receiving stream delay) = do r ← effect (recv stream); received stream delay r

  -- the first rounds of the goroutine that `startEventMonitor` starts
  unfoldable pub monitor : ℕ → Phase → Exec (State World) Phase
  unfolding monitor_round
  monitor zero phase = pure phase
  monitor (suc rounds) phase = do next ← monitor_round phase; monitor rounds next
