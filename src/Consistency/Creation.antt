-- ===== src/Consistency/Creation.antt =====
-- `CreateContainer` and `RunPodSandbox` against the invariant of the service.
use mathlib.Core.Path.{sym, subst}
use cri_containerd.Base.{
  String, ◌≡◌, ◌≢◌, ◌⊎◌, inl, inr, Option-cases, refl, none, ok, panic, Result, arith, wrap, [],
  ◌∷◌,
}
use cri_containerd.Cri.{ContainerConfig, PodSandboxConfig}
use cri_containerd.Map.{lookup}
use cri_containerd.Store.Sandbox.{Sandbox}
use cri_containerd.Store.Sandbox
use cri_containerd.Names.{make_container_name, make_sandbox_name}
use cri_containerd.Sandboxes.Run.{sandbox_name, run_named, run_pod_sandbox}
use cri_containerd.Exec.{Exec, ◌>>=◌}
use cri_containerd.Exec.Ends.{wrapped_bind}
use cri_containerd.Service.{State, Env, effect}
use cri_containerd.Containers.Create.{create_named, create_container, container_name}
use cri_containerd.Sandboxes.Run.Outcome.{run_named-SandboxRun}
use cri_containerd.Containers.Create.Outcome.{create_named-ContainerMade}
use cri_containerd.Consistency.Invariant.{IsConsistent, IsConsistent-WorldFree}
use cri_containerd.Consistency.Made.{ContainerMade-IsConsistent, SandboxRun-IsConsistent}

module _ (env : Env) where
  open env use {World, generate_id}

  -- what an action that does not panic leaves is consistent
  abbrev KeptAlive : Result String × State World → Type 0
  KeptAlive o = o.0 ≢ panic → IsConsistent o.1

  -- A name is found without a change of the state, or there is a panic.
  abbrev IsNaming : Exec (State World) String → State World → Type 0
  IsNaming m s = ((name : String) × (m s ≡ (ok name, s))) ⊎ (m s ≡ (panic, s))

  container_name-IsNaming :
      (config : ContainerConfig) (sandbox_config : PodSandboxConfig) (s : State World)
      → IsNaming (container_name config sandbox_config) s
  unfolding container_name
  container_name-IsNaming config sandbox_config s = elim (Option-cases config.metadata) [
    | inl missing ↦ inr (ground (arith, missing))
    | inr (c, named) ↦ elim (Option-cases sandbox_config.metadata) [
      | inl missing ↦ inr (ground (arith, named, missing))
      | inr (m, named_too) ↦ inl (make_container_name c m, ground (arith, named, named_too))
    ]
  ]

  sandbox_name-IsNaming :
      (config : PodSandboxConfig) (s : State World) → IsNaming (sandbox_name config) s
  unfolding sandbox_name
  sandbox_name-IsNaming config s = elim (Option-cases config.metadata) [
    | inl missing ↦ inr (ground (arith, missing))
    | inr (m, named) ↦ inl (make_sandbox_name m, ground (arith, named))
  ]

  named_kept :
      (m : Exec (State World) String) (g : String → Exec (State World) String) (s : State World)
      → IsNaming m s
      → ((name : String) → KeptAlive (g name s))
      → KeptAlive ((m >>= g) s)
  named_kept m g s (inl (name, e)) kept =
      subst (λ o. KeptAlive (((λ _. o) >>= g) s)) (sym e) (kept name)
  named_kept m g s (inr e) kept =
      subst (λ o. KeptAlive (((λ _. o) >>= g) s)) (sym e) (λ alive. absurd (alive refl))

  -- once there is an id
  identified-IsConsistent :
      (sb : Sandbox) (config : ContainerConfig) (sandbox_config : PodSandboxConfig) (id : String)
      (s : State World)
      → IsConsistent s
      → lookup id s.container_names.key_to_name ≡ none
      → KeptAlive (
          (container_name config sandbox_config >>= create_named env sb config sandbox_config id) s)
  identified-IsConsistent sb config sandbox_config id s h fresh =
      named_kept (container_name config sandbox_config)
        (create_named env sb config sandbox_config id) s
        (container_name-IsNaming config sandbox_config s)
        (λ name.
          ContainerMade-IsConsistent s h id name sb config
            (create_named env sb config sandbox_config id name s) fresh
            (create_named-ContainerMade env sb config id name s sandbox_config
              h.containers.inverse))

  pub create_container-IsConsistent :
      (sandbox : String) (config : ContainerConfig) (sandbox_config : PodSandboxConfig)
      (s : State World)
      → IsConsistent s
      → lookup (generate_id s.world).0 s.container_names.key_to_name ≡ none
      → KeptAlive (create_container env sandbox config sandbox_config s)
  unfolding create_container
  create_container-IsConsistent sandbox config sandbox_config s h fresh =
      let id : String = (generate_id s.world).0 in
      let s1 : State World = record s { world = (generate_id s.world).1 } in
      let h1 : IsConsistent s1 = IsConsistent-WorldFree.at s (generate_id s.world).1 h in
      wrapped_bind KeptAlive (wrap "failed to find sandbox id %q: %v" (sandbox ∷ []))
        (λ sb. effect generate_id >>= λ i. container_name config sandbox_config >>= λ name.
          create_named env sb config sandbox_config i name)
        (Sandbox.get sandbox s.sandboxes, s)
        (λ sb e. identified-IsConsistent sb config sandbox_config id s1 h1 fresh) (λ x e alive. h)
        (λ e alive. h)

  pub run_pod_sandbox-IsConsistent :
      (config : PodSandboxConfig) (s : State World)
      → IsConsistent s
      → lookup (generate_id s.world).0 s.sandbox_names.key_to_name ≡ none
      → KeptAlive (run_pod_sandbox env config s)
  unfolding run_pod_sandbox
  run_pod_sandbox-IsConsistent config s h fresh =
      let id : String = (generate_id s.world).0 in
      let s1 : State World = record s { world = (generate_id s.world).1 } in
      let h1 : IsConsistent s1 = IsConsistent-WorldFree.at s (generate_id s.world).1 h in
      named_kept (sandbox_name config) (run_named env config id) s1
        (sandbox_name-IsNaming config s1)
        (λ name.
          SandboxRun-IsConsistent s1 h1 id name config (run_named env config id name s1) fresh
            (run_named-SandboxRun env id name config s1 h1.sandboxes.inverse))
