-- ===== src/Lifecycle/Refinement.antt =====
-- The handlers' transactions against the steps of the life of a status.
use cri_containerd.Base.{
  ℕ, String, ◌≡◌, ◌≢◌, inl, inr, refl, false, ok, err, panic, arith, Error, errorf, [], ◌∷◌, Result,
  ◌==◌, Bool-cases,
}
use cri_containerd.Base.Int.{ℤ, pos, int_eq, int_beq_iff}
use cri_containerd.Cri.{created, running, exited, state_eq, state_beq_iff}
use cri_containerd.Store.Status.{Status, state, text_of}
use cri_containerd.Store.Container.{Metadata}
use cri_containerd.Service.{State, Env}
use cri_containerd.Containers.Start.{
  cri_container_state_to_string, run_start, finish_start, start_created,
}
use cri_containerd.Lifecycle.{Step, start, fail, started, start_failed}

module _ (s : Status) (at : ℤ) (c : state s ≡ created) (h : at ≢ pos 0) where
  state-started : (pid : ℕ) → state (started pid at s) ≡ running
  unfolding state
  state-started pid = ground (
    arith,
    int_beq_iff at (pos 0),
    int_beq_iff s.finished_at (pos 0),
    int_beq_iff s.started_at (pos 0),
  )

  state-start_failed : (e : Error) → state (start_failed at e s) ≡ exited
  unfolding state
  state-start_failed e = ground (arith, int_beq_iff at (pos 0))

module _ (env : Env) where
  open env use {World, now}

  -- No clock reads the epoch.
  abbrev pub ClockRuns : Type 0
  ClockRuns = (w : World) → (now w).0 ≢ pos 0

  -- What `startContainer` does to a status that it may start, by how it ends.
  abbrev pub Started : Status → Result (Unit {0}) × Status → Type 0
  Started s (ok _, t) = Step s t × (state t ≡ running)
  Started s (err e, t) =
      Step s t × (state t ≡ exited) × (t.exit_code ≡ pos 128) × (t.message ≡ text_of e)
  Started s (panic, t) = t ≡ s

  -- A container may be started if it has not run and nobody is removing it.
  abbrev pub MayStart : Status → Type 0
  MayStart s = (state s ≡ created) × (s.removing ≡ false)

  finish_start-Started :
      (status : Status) (o : Result ℕ × State World)
      → ClockRuns
      → MayStart status
      → Started status (finish_start env status o).0
  unfolding finish_start
  finish_start-Started status (ok pid, s) clock (c, r) = (
    start pid (now s.world).0 c r (clock s.world) refl,
    state-started status (now s.world).0 c (clock s.world) pid,
  )
  finish_start-Started status (err e, s) clock (c, r) = (
    fail (now s.world).0 e c r (clock s.world) refl,
    state-start_failed status (now s.world).0 c (clock s.world) e,
    refl,
    refl,
  )
  finish_start-Started status (panic, s) clock m = refl

  -- `startContainer` of a container that may be started is a step of its life: it is running if the
  -- start succeeds, and exited with code 128 and the error's text if the start fails.
  pub run_start-Started :
      (id : String) (meta : Metadata) (status : Status) (s : State World)
      → ClockRuns
      → MayStart status
      → Started status (run_start env id meta status s).0
  unfolding run_start
  run_start-Started id meta status s clock m =
      simp (m.0, m.1) (finish_start-Started status (start_created env id meta s) clock m)

  -- A container that has run already, or that is being removed, is not started: `startContainer`
  -- returns an error, leaves the status as it is and calls nothing outside.
  pub run_start_refused :
      (id : String) (meta : Metadata) (status : Status) (s : State World)
      → ¬ MayStart status
      → (e : Error) × (run_start env id meta status s ≡ ((err e, status), s))
  unfolding run_start
  run_start_refused id meta status s refused = elim (Bool-cases (state status == created)) [
    | inl c ↦ elim (Bool-cases status.removing) [
      | inl r ↦ (errorf "container %q is in removing state" (id ∷ []), simp (c, r))
      | inr r ↦ absurd (refused ((state_beq_iff (state status) created).0 c, r))
    ]
    | inr n ↦ (
      errorf "container %q is in %s state" (id ∷ cri_container_state_to_string (state status) ∷ []),
      simp n,
    )
  ]
