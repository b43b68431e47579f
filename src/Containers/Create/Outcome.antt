-- ===== src/Containers/Create/Outcome.antt =====
-- What `CreateContainer` leaves behind, whatever fails on the way.
use text.Mathlib.TextEquality.{eq_iff}
use text.Mathlib.TextPositions.{eq_refl}
use cri_containerd.Base.{
  String, ◌≡◌, ◌≢◌, ◌⊎◌, ◌==◌, string_eq, nat_eq, if◌then◌else◌, none, some, [], ◌∷◌, ok, err,
  panic, Result, arith, inl, inr, Option-cases, wrap,
}
use cri_containerd.Cri.{ContainerConfig, PodSandboxConfig}
use cri_containerd.Map.{lookup}
use cri_containerd.Registrar.{Registrar, reserve}
use cri_containerd.Registrar.Bijection.{IsBijection, reserve-IsBijection, release-IsBijection}
use cri_containerd.Registrar.Operations.{
  IsReservable, reserve_succeeds, reserve_effect, reserve_succeeds, IsReservable,
  release_by_name_frees,
}
use cri_containerd.Store.Sandbox.{Sandbox}
use cri_containerd.Exec.{Exec, on_error}
use cri_containerd.Exec.Ends.{wrapped_bind}
use cri_containerd.Exec.Commits.{Committed}
use cri_containerd.Service.{State, Env}
use cri_containerd.Containers.Create.{
  create_reserved, create_named, reserve_container_name, release_container_name,
}
use cri_containerd.Containers.Create.Added.{
  ContainerAdded, Created, Grown, Grown-refl, create_reserved-Commits, made,
}

-- What the creation of a container under a name leaves of the state `s0`, by how it ends. On success
-- the container is in the store with a fresh status, and its name is reserved for it. On an error no
-- container has been added; the names are as they were, or the name, which was free or the id's own,
-- is free. In both cases the other names stay, and the two indexes of
-- the names are inverse to one another.
abbrev pub ContainerMade :
    {W : Type 0}
    → State W
    → Sandbox
    → ContainerConfig
    → String
    → String
    → Result String × State W
    → Type 0
ContainerMade s0 sandbox config id name (ok r, s) =
    (r ≡ id)
    × (lookup name s.container_names.name_to_key ≡ some id)
    × (lookup id s.container_names.key_to_name ≡ some name)
    × IsReservable name id s0.container_names
    × IsBijection s.container_names
    × ((n : String)
        → n ≢ name
        → lookup n s.container_names.name_to_key ≡ lookup n s0.container_names.name_to_key)
    × ((image : String) × ContainerAdded (record s0 { container_names = s.container_names })
          (made sandbox config id name image) s)
ContainerMade s0 sandbox config id name (err _, s) =
    Grown (record s0 { container_names = s.container_names }) s
    × ((s.container_names ≡ s0.container_names)
        ⊎ ((lookup name s.container_names.name_to_key ≡ none)
            × IsReservable name id s0.container_names))
    × IsBijection s.container_names
    × ((n : String)
        → n ≢ name
        → lookup n s.container_names.name_to_key ≡ lookup n s0.container_names.name_to_key)
ContainerMade s0 sandbox config id name (panic, s) = Unit

module _ (env : Env) (sandbox : Sandbox) (config : ContainerConfig) (id name : String)
    (s0 : State env.World) where
  -- the outcome once the name is reserved, before it is released after an error
  released-ContainerMade :
      (names : Registrar) (o : Result String × State env.World)
      → let s1 = record s0 { container_names = names } in
        (lookup id names.key_to_name ≡ some name)
        → IsReservable name id s0.container_names
        → IsBijection names
        → ((n : String)
            → lookup n names.name_to_key
              ≡ (if name == n then some id else lookup n s0.container_names.name_to_key))
        → Committed (Grown s1) (Created env s1 sandbox config id name) o
        → ContainerMade s0 sandbox config id name
            (on_error (release_container_name name) (λ _. o) o.1)
  unfolding release_container_name
  released-ContainerMade names (ok r, s) back was inverse reserved c =
      let (image, (e, added)) = c in
      (
        e,
        ground (arith, added.rest, reserved name, eq_refl name),
        ground (arith, added.rest, back),
        was,
        ground (arith, added.rest, inverse),
        λ n other. ground (arith, added.rest, reserved n, eq_iff name n),
        (
          image,
          record {
            address = added.address;
            at = added.at;
            is_fresh = added.is_fresh;
            is_allocated = added.is_allocated;
            status = added.status;
            cells = added.cells;
            is_new = added.is_new;
            rest = ground (arith, added.rest);
          },
        ),
      )
  released-ContainerMade names (err e, s) back was inverse reserved c =
      let (gone, others) = release_by_name_frees name names in
      (
        record { rest = ground (arith, c.rest); next_le = c.next_le; cells = c.cells },
        inr (ground (arith, c.rest, gone), was),
        ground (arith, c.rest, (release-IsBijection name id names inverse).0),
        λ n other. ground (arith, c.rest, others n other, reserved n, eq_iff name n),
      )
  released-ContainerMade names (panic, s) back was inverse reserved c = tt

  -- `CreateContainer` under a fresh id, whichever of its calls fails: either the container is in the
  -- store under its id, with a new status that only has a creation time and with its name reserved
  -- for it, or an error is returned, no container has been added and the name is free again (or was
  -- not reserved at all). No other container's status changes, and no sandbox and no image.
  pub create_named-ContainerMade :
      (sandbox_config : PodSandboxConfig)
      → IsBijection s0.container_names
      → ContainerMade s0 sandbox config id name
          (create_named env sandbox config sandbox_config id name s0)
  unfolding create_named reserve_container_name
  create_named-ContainerMade sandbox_config h =
      let names : Registrar = (reserve name id s0.container_names).0 in
      let s1 : State env.World = record s0 { container_names = names } in
      let m : Exec (State env.World) String =
        create_reserved env sandbox config sandbox_config id name in
      elim (Option-cases (reserve name id s0.container_names).1) [
        | inl done ↦
            wrapped_bind (ContainerMade s0 sandbox config id name)
              (wrap "failed to reserve container name %q: %v" (name ∷ []))
              (λ _. on_error (release_container_name name) m) (reserve_container_name name id s0)
              (λ a e.
                released-ContainerMade names (m s1)
                  (ground (arith, done, reserve_effect name id name s0.container_names h))
                  ((reserve_succeeds name id s0.container_names h).0 done).2
                  (reserve-IsBijection name id s0.container_names h)
                  (λ n. ground (arith, done, reserve_effect name id n s0.container_names h))
                  ((create_reserved-Commits env s1 sandbox config id name sandbox_config).at s1
                    (Grown-refl s1)))
              (λ x e. absurd (ground (arith, done, e))) (λ e. tt)
        | inr (x, refused) ↦
            let kept : names ≡ s0.container_names =
              ground (arith, refused, reserve_effect name id name s0.container_names h) in
            wrapped_bind (ContainerMade s0 sandbox config id name)
              (wrap "failed to reserve container name %q: %v" (name ∷ []))
              (λ _. on_error (release_container_name name) m) (reserve_container_name name id s0)
              (λ a e. absurd (ground (arith, refused, e)))
              (λ y e.
                (Grown-refl s1, inl kept, ground (arith, kept, h), λ n other. ground (arith, kept)))
              (λ e. tt)
      ]
