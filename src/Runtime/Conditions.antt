-- ===== src/Runtime/Conditions.antt =====
-- What the conditions of `Status` say.
use cri_containerd.Base.{
  ℕ, ◌≡◌, ◌≢◌, ◌↔◌, ◌⊎◌, inl, inr, refl, true, false, [], ◌∷◌, ok, arith, ◌==◌, nat_eq, nat_beq_iff,
  Bool-cases,
}
use cri_containerd.Store.Status.{empty}
use cri_containerd.Service.{State, Env, Reply, value, failure}
use cri_containerd.Runtime.{
  RuntimeCondition, runtime_ready, network_ready, serving, runtime_condition, network_condition,
  status,
}

-- A condition has a reason and a message exactly if it does not hold.
abbrev pub Explains : RuntimeCondition → Type 0
Explains c =
    ((c.status ≡ true) × (c.reason ≡ "") × (c.message ≡ empty))
    ⊎ ((c.status ≡ false) × (c.reason ≢ "") × (c.message ≢ empty))

runtime_kind : (r : Reply ℕ) → (runtime_condition r).kind ≡ runtime_ready
unfolding runtime_condition
runtime_kind (value n) = refl
runtime_kind (failure e) = refl

network_kind : (r : Reply (Unit {0})) → (network_condition r).kind ≡ network_ready
unfolding network_condition
network_kind (value u) = refl
network_kind (failure e) = refl

runtime_condition-Explains :
    (r : Reply ℕ)
    → Explains (runtime_condition r) × ((runtime_condition r).status ≡ true ↔ r ≡ value serving)
unfolding runtime_condition
runtime_condition-Explains (value n) = elim (Bool-cases (n == serving)) [
  | inl up ↦ (
    inl (
      rw (up, runtime_condition) refl,
      rw (up, runtime_condition) refl,
      rw (up, runtime_condition) refl,
    ),
    (λ h. ground (arith, up, nat_beq_iff n serving), λ h. ground (arith, up)),
  )
  | inr down ↦ (
    inr (
      rw (down, runtime_condition) refl,
      rw (down, runtime_condition) (λ h. cc),
      rw (down, runtime_condition) (λ h. cc),
    ),
    (λ h. ground (arith, down, h), λ h. ground (arith, down, h, nat_beq_iff n serving)),
  )
]
runtime_condition-Explains (failure e) = (inr (refl, (λ h. cc), (λ h. cc)), (λ h. cc, λ h. cc))

network_condition-Explains :
    (r : Reply (Unit {0}))
    → Explains (network_condition r) × ((network_condition r).status ≡ true ↔ r ≡ value tt)
unfolding network_condition
network_condition-Explains (value u) = (inl (refl, refl, refl), (λ h. refl, λ h. refl))
network_condition-Explains (failure e) = (inr (refl, (λ h. cc), (λ h. cc)), (λ h. cc, λ h. cc))

-- `Status` never fails, and reports two conditions: the runtime is ready exactly if the health
-- service answers that it is serving, the network exactly if its plugin answers without an error. A
-- condition has a reason and a message exactly if it does not hold.
pub status_lem :
    (env : Env) (s : State env.World)
    → let health = env.health_check s.world in
      let network = env.network_plugin_status health.1 in
      (c : RuntimeCondition) × (d : RuntimeCondition) × ((status env s).0 ≡ ok (c ∷ d ∷ []))
      × (c.kind ≡ runtime_ready)
      × (d.kind ≡ network_ready)
      × Explains c
      × Explains d
      × (c.status ≡ true ↔ health.0 ≡ value serving)
      × (d.status ≡ true ↔ network.0 ≡ value tt)
unfolding status
status_lem env s =
    let health : Reply ℕ × env.World = env.health_check s.world in
    let network : Reply (Unit {0}) × env.World = env.network_plugin_status health.1 in
    let first = runtime_condition-Explains health.0 in
    let next = network_condition-Explains network.0 in
    (
      runtime_condition health.0,
      network_condition network.0,
      refl,
      runtime_kind health.0,
      network_kind network.0,
      first.0,
      next.0,
      first.1,
      next.1,
    )
