-- ===== src/Sandboxes/Run/Outcome.antt =====
-- What `RunPodSandbox` leaves behind, whatever fails on the way.
use text.Mathlib.TextEquality.{eq_iff}
use text.Mathlib.TextPositions.{eq_refl}
use cri_containerd.Base.{
  wrap, ◌==◌, string_eq, if◌then◌else◌, String, ◌≡◌, ◌≢◌, ◌⊎◌, refl, none, some, [], ◌∷◌, ok, err,
  panic, Result, arith, inl, inr, Option-cases,
}
use cri_containerd.Cri.{PodSandboxConfig}
use cri_containerd.Map.{lookup}
use cri_containerd.Registrar.{Registrar, reserve}
use cri_containerd.Registrar.Bijection.{IsBijection, reserve-IsBijection, release-IsBijection}
use cri_containerd.Registrar.Operations.{
  IsReservable, reserve_succeeds, reserve_effect, release_by_name_frees,
}
use cri_containerd.Exec.{on_error}
use cri_containerd.Exec.Ends.{wrapped_bind}
use cri_containerd.Exec.Commits.{Committed}
use cri_containerd.Service.{State, Env}
use cri_containerd.Service.Frame.{ImagesOnly}
use cri_containerd.Sandboxes.Run.{
  run_reserved, run_named, release_sandbox_name, reserve_sandbox_name,
}
use cri_containerd.Sandboxes.Run.Added.{Added, SandboxAdded, run_reserved-Commits}

-- What a run of a sandbox under a name leaves of the state `s0`, by how it ends. On success the sandbox
-- is in the store under the id that is returned, and its name is reserved for it. On an error no
-- sandbox has been added; the names are as they were, or the name, which was free or the id's own, is
-- free. In both cases the other names stay, and the two indexes of
-- the names are inverse to one another.
abbrev pub SandboxRun :
    {W : Type 0} → State W → String → String → PodSandboxConfig → Result String × State W → Type 0
SandboxRun s0 id name config (ok r, s) =
    (r ≡ id)
    × (lookup name s.sandbox_names.name_to_key ≡ some id)
    × (lookup id s.sandbox_names.key_to_name ≡ some name)
    × IsReservable name id s0.sandbox_names
    × IsBijection s.sandbox_names
    × ((n : String)
        → n ≢ name
        → lookup n s.sandbox_names.name_to_key ≡ lookup n s0.sandbox_names.name_to_key)
    × SandboxAdded (record s0 { sandbox_names = s.sandbox_names }) id name config s
SandboxRun s0 id name config (err _, s) =
    (s ≡ record s0 { world = s.world; images = s.images; sandbox_names = s.sandbox_names })
    × ((s.sandbox_names ≡ s0.sandbox_names)
        ⊎ ((lookup name s.sandbox_names.name_to_key ≡ none)
            × IsReservable name id s0.sandbox_names))
    × IsBijection s.sandbox_names
    × ((n : String)
        → n ≢ name
        → lookup n s.sandbox_names.name_to_key ≡ lookup n s0.sandbox_names.name_to_key)
SandboxRun s0 id name config (panic, s) = Unit

module _ (env : Env) (id name : String) (config : PodSandboxConfig) (s0 : State env.World) where
  -- the outcome of the run once the name is reserved, before it is released after an error
  released-SandboxRun :
      (names : Registrar) (o : Result String × State env.World)
      → let s1 = record s0 { sandbox_names = names } in
        (lookup id names.key_to_name ≡ some name)
        → IsReservable name id s0.sandbox_names
        → IsBijection names
        → ((n : String)
            → lookup n names.name_to_key
              ≡ (if name == n then some id else lookup n s0.sandbox_names.name_to_key))
        → Committed (ImagesOnly s1) (Added env s1 id name config) o
        → SandboxRun s0 id name config (on_error (release_sandbox_name name) (λ _. o) o.1)
  unfolding release_sandbox_name
  released-SandboxRun names (ok r, s) back was inverse reserved c =
      let (e, (sb, a, b, d, free, same)) = c in
      (
        e,
        ground (arith, same, reserved name, eq_refl name),
        ground (arith, same, back),
        was,
        ground (arith, same, inverse),
        λ n other. ground (arith, same, reserved n, eq_iff name n),
        (sb, a, b, d, free, ground (arith, same)),
      )
  released-SandboxRun names (err e, s) back was inverse reserved c =
      let (gone, others) = release_by_name_frees name names in
      (
        ground (arith, c),
        inr (ground (arith, c, gone), was),
        ground (arith, c, (release-IsBijection name id names inverse).0),
        λ n other. ground (arith, c, others n other, reserved n, eq_iff name n),
      )
  released-SandboxRun names (panic, s) back was inverse reserved c = tt

  -- `RunPodSandbox` under a fresh id, whichever of its calls fails: either the sandbox is in the store
  -- under its id with its name reserved for it, or an error is returned, no sandbox has been added
  -- and the name is free again (or was not reserved at all). Containers and statuses never change.
  pub run_named-SandboxRun :
      IsBijection s0.sandbox_names → SandboxRun s0 id name config (run_named env config id name s0)
  unfolding run_named reserve_sandbox_name
  run_named-SandboxRun h =
      let names : Registrar = (reserve name id s0.sandbox_names).0 in
      let s1 : State env.World = record s0 { sandbox_names = names } in
      elim (Option-cases (reserve name id s0.sandbox_names).1) [
        | inl done ↦
            wrapped_bind (SandboxRun s0 id name config)
              (wrap "failed to reserve sandbox name %q: %v" (name ∷ []))
              (λ _. on_error (release_sandbox_name name) (run_reserved env id name config))
              (reserve_sandbox_name name id s0)
              (λ a e.
                released-SandboxRun names (run_reserved env id name config s1)
                  (ground (arith, done, reserve_effect name id name s0.sandbox_names h))
                  ((reserve_succeeds name id s0.sandbox_names h).0 done).2
                  (reserve-IsBijection name id s0.sandbox_names h)
                  (λ n. ground (arith, done, reserve_effect name id n s0.sandbox_names h))
                  ((run_reserved-Commits env s1 id name config).at s1 refl))
              (λ x e. ground (arith, done, e)) (λ e. tt)
        | inr (x, refused) ↦
            let kept : names ≡ s0.sandbox_names =
              ground (arith, refused, reserve_effect name id name s0.sandbox_names h) in
            wrapped_bind (SandboxRun s0 id name config)
              (wrap "failed to reserve sandbox name %q: %v" (name ∷ []))
              (λ _. on_error (release_sandbox_name name) (run_reserved env id name config))
              (reserve_sandbox_name name id s0) (λ a e. absurd (ground (arith, refused, e)))
              (λ y e. (
                ground (arith, kept),
                inl kept,
                ground (arith, kept, h),
                λ n other. ground (arith, kept),
              ))
              (λ e. tt)
      ]
