-- ===== src/Sandboxes/Stop/Wait.antt =====
-- The wait for the exit of a sandbox container, `waitSandboxContainer` of
-- pkg/server/sandbox_stop.go, against the events of its stream.
use text.Mathlib.TextEquality.{eq_iff}
use cri_containerd.Base.{
  ℕ, ◌==◌, ◌&&◌, nat_eq, string_eq, String, ◌≡◌, ◌↔◌, inl, inr, Bool, List, Error, ok, arith,
  Result-cases,
}
use cri_containerd.Service.{StreamEvent, TaskExit}
use cri_containerd.Service.Stream.{wait_for}
use cri_containerd.Service.Stream.Delivered.{Delivered, wait_for_lem}
use cri_containerd.Sandboxes.Stop.{wait_exit}

-- the exits of the process `pid` of the container `id`
abbrev pub is_exit_of : String → ℕ → TaskExit → Bool
is_exit_of id pid e = e.container_id == id && e.pid == pid

-- The wait succeeds exactly when the stream delivers the exit of that very process of that container
-- before an event that cannot be decoded and before it ends; exits of others are passed over.
pub wait_exit_lem :
    (id : String) (pid : ℕ) (events : List StreamEvent) (last : Error)
    → (wait_exit id pid events last ≡ ok tt) ↔ (
        (e : TaskExit) × (e.container_id ≡ id)
        × (e.pid ≡ pid)
        × Delivered (is_exit_of id pid) events e)
unfolding wait_exit
wait_exit_lem id pid events last = (
  λ h. elim (Result-cases (wait_for (is_exit_of id pid) events last)) [
    | inl (e, found) ↦
        let d = (wait_for_lem (is_exit_of id pid) events last e).0 found in
        (e, ground (arith, d.is_mine, eq_iff e.container_id id), ground (arith, d.is_mine), d)
    | inr (inl (f, failed)) ↦ absurd (ground (arith, failed, h))
    | inr (inr panics) ↦ absurd (ground (arith, panics, h))
  ],
  λ h. ground (arith, (wait_for_lem (is_exit_of id pid) events last h.0).1 h.3),
)
