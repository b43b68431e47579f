-- ===== src/Lifecycle/Invariant.antt =====
-- Statuses along the interleavings of transactions.
use cri_containerd.Base.{◌≡◌, ◌≢◌, ◌⊎◌, inl, refl, false, arith}
use cri_containerd.Base.Int.{ℤ, pos, int_eq, int_beq_iff}
use cri_containerd.Cri.{running, exited}
use cri_containerd.Store.Status.{Status, state}
use cri_containerd.Containers.Remove.{set_removing, reset_removing}
use cri_containerd.Containers.Events.{set_exited, set_oom_killed}
use cri_containerd.Lifecycle.{
  Step, start, fail, exit, oom, remove, restore, Reach, here, next, initial,
}

-- A created container never loses its creation time; a running one is not being removed; an exited
-- one has no init process.
pub record IsSound (s : Status) : Type 0 where
  pub made : s.created_at ≢ pos 0
  pub run_or_remove : state s ≡ running → s.removing ≡ false
  pub reaped : state s ≡ exited → s.pid ≡ 0

initial-IsSound : (at : ℤ) → at ≢ pos 0 → IsSound (initial at)
unfolding state
initial-IsSound at h = ground (arith, int_beq_iff at (pos 0))

Step-IsSound : {s t : Status} → Step s t → IsSound s → IsSound t
unfolding state set_removing reset_removing set_exited set_oom_killed
Step-IsSound {s} (start pid at c r h e) v = ground (
  arith,
  int_beq_iff at (pos 0),
  int_beq_iff s.finished_at (pos 0),
  int_beq_iff s.started_at (pos 0),
  int_beq_iff s.created_at (pos 0),
)
Step-IsSound {s} (fail at x c r h e) v = ground (
  arith,
  int_beq_iff at (pos 0),
  int_beq_iff s.finished_at (pos 0),
  int_beq_iff s.started_at (pos 0),
  int_beq_iff s.created_at (pos 0),
)
Step-IsSound {s} (exit e h p) v = ground (
  arith,
  int_beq_iff e.exited_at (pos 0),
  int_beq_iff s.finished_at (pos 0),
  int_beq_iff s.started_at (pos 0),
  int_beq_iff s.created_at (pos 0),
)
Step-IsSound {s} (oom p) v = ground (arith)
Step-IsSound {s} (remove p) v = ground (arith)
Step-IsSound {s} (restore p) v = ground (arith)

Reach-IsSound : {s t : Status} → IsSound s → Reach s t → IsSound t
Reach-IsSound h here = h
Reach-IsSound h (next r st) = Step-IsSound st (Reach-IsSound h r)

-- However the transactions on a new container interleave: it keeps a creation time, it is never
-- running while it is being removed, and once it has exited it has no init process.
pub Reach-initial-IsSound : (at : ℤ) (t : Status) → at ≢ pos 0 → Reach (initial at) t → IsSound t
Reach-initial-IsSound at t h = Reach-IsSound (initial-IsSound at h)

-- What a later status keeps of an earlier one.
pub record Follows (s t : Status) : Type 0 where
  pub same_creation : t.created_at ≡ s.created_at
  pub started_once : s.started_at ≢ pos 0 → t.started_at ≡ s.started_at
  pub finished_once :
      state s ≡ exited → (t.finished_at ≡ s.finished_at) × (t.exit_code ≡ s.exit_code)
  pub still_running : state s ≡ running → (state t ≡ running) ⊎ (state t ≡ exited)
  pub still_exited : state s ≡ exited → state t ≡ exited

Follows-refl : (s : Status) → Follows s s
Follows-refl s = record {
  same_creation = refl;
  started_once = λ _. refl;
  finished_once = λ _. (refl, refl);
  still_running = λ h. inl h;
  still_exited = λ h. h;
}

Follows-trans : (s t u : Status) → Follows s t → Follows t u → Follows s u
Follows-trans s t u a b = ground (arith, a, b)

Step-Follows : {s t : Status} → Step s t → Follows s t
unfolding state set_removing reset_removing set_exited set_oom_killed
Step-Follows {s} (start pid at c r h e) = ground (
  arith,
  int_beq_iff at (pos 0),
  int_beq_iff s.finished_at (pos 0),
  int_beq_iff s.started_at (pos 0),
)
Step-Follows {s} (fail at x c r h e) = ground (
  arith,
  int_beq_iff at (pos 0),
  int_beq_iff s.finished_at (pos 0),
  int_beq_iff s.started_at (pos 0),
)
Step-Follows {s} (exit e h p) = ground (
  arith,
  int_beq_iff e.exited_at (pos 0),
  int_beq_iff s.finished_at (pos 0),
  int_beq_iff s.started_at (pos 0),
)
Step-Follows (oom p) = ground arith
Step-Follows (remove p) = ground arith
Step-Follows (restore p) = ground arith

-- However the transactions interleave, the creation time stays, the start time is set at most once,
-- a running container stays running or exits, and an exited one stays exited, with the finish time
-- and the exit code that it got first.
pub Reach-Follows : (s t : Status) → Reach s t → Follows s t
Reach-Follows s t r = go r
  where
    go : {u : Status} → Reach s u → Follows s u
    go here = Follows-refl s
    go (next {t = m} {u} r st) = Follows-trans s m u (go r) (Step-Follows st)
