-- ===== src/Sandboxes/Remove/Shrunk.antt =====
-- What the removal of containers does to the stores.
use text.Mathlib.TextPositions.{eq_refl}
use cri_containerd.Base.{
  ℕ, String, ◌≡◌, ◌≢◌, refl, none, some, ok, err, panic, Result, arith, inl, inr, Option-cases,
  string_eq,
}
use cri_containerd.Map.{lookup, lookup-erase}
use cri_containerd.Store.Container
use cri_containerd.Store.Container.{Container}
use cri_containerd.Service.{State}
use cri_containerd.Containers.Remove.Outcome.{Removed}

-- Every container is stored under its id, and has a status.
pub record IsStored {W : Type 0} (s : State W) : Type 0 where
  pub keyed : (j : String) (c : Container) → lookup j s.containers ≡ some c → c.metadata.id ≡ j
  pub backed : (j : String) (c : Container) → lookup j s.containers ≡ some c → c.status ≢ none

-- From `s0` to `s` no sandbox and no image has changed, and containers have only gone.
pub record Shrunk {W : Type 0} (s0 s : State W) : Type 0 where
  pub same_sandboxes : s.sandboxes ≡ s0.sandboxes
  pub same_sandbox_names : s.sandbox_names ≡ s0.sandbox_names
  pub same_images : s.images ≡ s0.images
  pub only_old :
      (j : String) (c : Container)
      → lookup j s.containers ≡ some c
      → lookup j s0.containers ≡ some c

module _ {W : Type 0} where
  pub Shrunk-refl : (s : State W) → Shrunk s s
  Shrunk-refl s = record {
    same_sandboxes = refl;
    same_sandbox_names = refl;
    same_images = refl;
    only_old = λ j c h. h;
  }

  pub Shrunk-trans : (s t u : State W) → Shrunk s t → Shrunk t u → Shrunk s u
  Shrunk-trans s t u a b = record {
    same_sandboxes = ground (arith, a, b);
    same_sandbox_names = ground (arith, a, b);
    same_images = ground (arith, a, b);
    only_old = λ j c h. a.only_old j c (b.only_old j c h);
  }

  pub Shrunk-IsStored : (s t : State W) → Shrunk s t → IsStored s → IsStored t
  Shrunk-IsStored s t a h = record {
    keyed = λ j c e. h.keyed j c (a.only_old j c e);
    backed = λ j c e. h.backed j c (a.only_old j c e);
  }

  pub Shrunk-absent :
      (s t : State W) (j : String)
      → Shrunk s t
      → lookup j s.containers ≡ none
      → lookup j t.containers ≡ none
  Shrunk-absent s t j a h = elim (Option-cases (lookup j t.containers)) [
    | inl e ↦ e
    | inr (c, e) ↦ absurd (ground (arith, h, a.only_old j c e))
  ]

  -- The container with this id is gone after a removal that succeeds; in any case the rest has shrunk.
  abbrev pub Gone : State W → String → Result (Unit {0}) × State W → Type 0
  Gone s0 id (r, s) = Shrunk s0 s × (r ≡ ok tt → lookup id s.containers ≡ none)

  pub Removed-Gone :
      (c : Container) (a : ℕ) (s0 : State W) (o : Result (Unit {0}) × State W)
      → Removed c a s0 o
      → Gone s0 c.metadata.id o
  unfolding Container.delete
  Removed-Gone c a s0 (ok u, s) h = (
    record {
      same_sandboxes = h.2;
      same_sandbox_names = h.3;
      same_images = h.4;
      only_old = λ j d e. ground (arith, h.0, e, lookup-erase c.metadata.id j s0.containers);
    },
    λ e.
        ground (
          arith,
          h.0,
          lookup-erase c.metadata.id c.metadata.id s0.containers,
          eq_refl c.metadata.id,
        ),
  )
  Removed-Gone c a s0 (err x, s) h = (
    record {
      same_sandboxes = h.2;
      same_sandbox_names = h.3;
      same_images = h.4;
      only_old = λ j d e. ground (arith, h.0, e);
    },
    λ e. cc,
  )
  Removed-Gone c a s0 (panic, s) h = absurd h
