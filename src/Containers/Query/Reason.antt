-- ===== src/Containers/Query/Reason.antt =====
-- The reason that `ContainerStatus` of pkg/server/container_status.go reports.
use text.Mathlib.TextEquality.{eq_iff}
use cri_containerd.Base.{
  ℕ, String, ◌≡◌, ◌≢◌, ◌⊎◌, ◌↔◌, refl, some, ok, true, arith, string_eq, ◌==◌,
}
use cri_containerd.Base.Int.{pos, int_eq, int_beq_iff}
use cri_containerd.Cri.{exited, state_eq, state_beq, state_beq_iff}
use cri_containerd.Store.Status.{Status, state}
use cri_containerd.Store.Container
use cri_containerd.Store.Container.{Container}
use cri_containerd.Service.{State}
use cri_containerd.Containers.Query.{
  CriStatus, exit_reason, container_status, to_cri_container_status,
}

-- The container has exited, and its status has no reason of its own.
abbrev pub HasNoReason : Status → Type 0
HasNoReason s = (state s ≡ exited) × (s.reason ≡ "")

-- Which text is reported as the reason of the status: each text is characterised by the statuses
-- that it is reported for.
abbrev pub Reports : Status → String → Type 0
Reports s reported =
    ((reported ≡ "") ↔ ((state s ≢ exited) × (s.reason ≡ "")))
    × ((reported ≡ "Completed")
        ↔ ((s.reason ≡ "Completed") ⊎ (HasNoReason s × (s.exit_code ≡ pos 0))))
    × ((reported ≡ "Error") ↔ ((s.reason ≡ "Error") ⊎ (HasNoReason s × (s.exit_code ≢ pos 0))))
    × ((r : String) → r ≢ "" → r ≢ "Completed" → r ≢ "Error" → (reported ≡ r) ↔ (s.reason ≡ r))

exit_reason-Reports : (s : Status) → Reports s (exit_reason s)
unfolding exit_reason
exit_reason-Reports s =
    let facts : (state_beq (state s) exited ≡ true) ↔ (state s ≡ exited) =
      state_beq_iff (state s) exited in
    let none_given : (s.reason == "" ≡ true) ↔ (s.reason ≡ "") = eq_iff s.reason "" in
    let zero_code : (s.exit_code == pos 0 ≡ true) ↔ (s.exit_code ≡ pos 0) =
      int_beq_iff s.exit_code (pos 0) in
    (
      (
        λ e. ground (arith, facts, none_given, zero_code, eq_iff "Completed" "", eq_iff "Error" ""),
        λ h. ground (arith, facts, none_given),
      ),
      (
        λ e. ground (arith, facts, none_given, zero_code, eq_iff "Error" "Completed"),
        λ h. ground (arith, facts, none_given, zero_code, eq_iff "Completed" ""),
      ),
      (
        λ e. ground (arith, facts, none_given, zero_code, eq_iff "Completed" "Error"),
        λ h. ground (arith, facts, none_given, zero_code, eq_iff "Error" ""),
      ),
      λ r full other another. (
        λ e. ground (arith, facts, none_given, zero_code),
        λ e. ground (arith, facts, none_given, zero_code),
      ),
    )

-- `ContainerStatus` of a container in the store succeeds, changes nothing, and reports the state and
-- the exit code of its status. The reason is empty exactly if the container has not exited and its
-- status has none; "Completed" exactly if that is the status's own, or the container has exited with
-- code 0 and has none; "Error" exactly if that is its own, or it has exited with another code and has
-- none; and any other text exactly if it is its own.
pub container_status_lem :
    {W : Type 0} (id : String) (c : Container) (a : ℕ) (s : State W)
    → Container.get id s.containers ≡ ok c
    → c.status ≡ some a
    → (r : CriStatus) × (container_status id s ≡ (ok r, s))
      × (r.state ≡ state (s.heap.cell a))
      × (r.exit_code ≡ (s.heap.cell a).exit_code)
      × Reports (s.heap.cell a) r.reason
unfolding container_status to_cri_container_status
container_status_lem id c a s found stored = (
  to_cri_container_status c (s.heap.cell a),
  ground (arith, found, stored),
  refl,
  refl,
  exit_reason-Reports (s.heap.cell a),
)
