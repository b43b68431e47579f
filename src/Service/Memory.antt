-- ===== src/Service/Memory.antt =====
-- The fields of `criContainerdService` that its handlers write (pkg/server/service.go), with the
-- world outside, and what the handlers do to them.
use cri_containerd.Base.{◌≡◌, ◌⊎◌, inl, inr, refl, Error, Result, ok, err}
use cri_containerd.Registrar.{Registrar}
use cri_containerd.Store.Heap.{Heap}
use cri_containerd.Store.Container.{Containers}
use cri_containerd.Store.Sandbox.{Sandboxes}
use cri_containerd.Store.Image.{Images}
use cri_containerd.Exec.{Exec}

pub record State (W : Type 0) : Type 0 where
  pub world : W
  pub heap : Heap
  pub containers : Containers
  pub container_names : Registrar
  pub sandboxes : Sandboxes
  pub sandbox_names : Registrar
  pub images : Images

-- What a call outside answers: it may fail, and it does not panic.
pub data Reply (A : Type 0) : Type 0 where
  value : A → Reply A
  failure : Error → Reply A

pub Reply-cases :
    {A : Type 0} (r : Reply A) → ((a : A) × (r ≡ value a)) ⊎ ((e : Error) × (r ≡ failure e))
Reply-cases (value a) = inl (a, refl)
Reply-cases (failure e) = inr (e, refl)

abbrev pub outcome : {A : Type 0} → Reply A → Result A
outcome (value a) = ok a
outcome (failure e) = err e

-- a call outside: the world goes on
abbrev pub Op : Type 0 → Type 0 → Type 0
Op W A = W → Reply A × W

module _ {W A : Type 0} where
  -- a call outside; the state of the service stays
  abbrev pub call : Op W A → Exec (State W) A
  call op s = let (r, w) = op s.world in (outcome r, record s { world = w })

  -- a call outside that cannot fail
  abbrev pub effect : (W → A × W) → Exec (State W) A
  effect op s = let (a, w) = op s.world in (ok a, record s { world = w })
