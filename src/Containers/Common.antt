-- ===== src/Containers/Common.antt =====
-- What the handlers of containers share: the stores as actions, and the tests on errors of
-- pkg/server/helpers.go.
use Prim.Native.String.{String}
use text.Mathlib.Text.{find?}
use cri_containerd.Base.{ℕ, ◌==◌, nat_eq, is_some, Bool, none, some, List, ok, Error, true}
use cri_containerd.Store.Status.{Status}
use cri_containerd.Store.Heap
use cri_containerd.Store.Heap.{UpdateFunc}
use cri_containerd.Store.Container
use cri_containerd.Store.Container.{Container}
use cri_containerd.Exec.{Exec, fault_panic, unless}
use cri_containerd.Service.{State, Env}

module _ (env : Env) where
  open env use {grpc_code, grpc_desc}

  -- 5 is `codes.NotFound`.
  unfoldable pub is_containerd_grpc_not_found_error : Error → Bool
  is_containerd_grpc_not_found_error e = grpc_code e == 5

  unfoldable pub is_runc_process_already_finished_error : Error → Bool
  is_runc_process_already_finished_error e =
      is_some (find? (grpc_desc e) "os: process already finished")

module _ {W : Type 0} where
  -- `c.containerStore.Get`
  abbrev pub get_container : String → Exec (State W) Container
  get_container id s = (Container.get id s.containers, s)

  abbrev pub list_containers_in_store : Exec (State W) (List Container)
  list_containers_in_store s = (ok (Container.list s.containers), s)

  -- `container.Status`, whose methods panic where the interface is nil
  abbrev pub with_storage : {A : Type 0} → Container → (ℕ → Exec (State W) A) → Exec (State W) A
  with_storage c f = elim c.status [ none ↦ fault_panic | some a ↦ f a ]

  -- `container.Status.Get`
  abbrev pub get_status : Container → Exec (State W) Status
  get_status c = with_storage c λ a s. (ok (s.heap.cell a), s)

  -- `container.Status.Update`
  abbrev pub update_status : Container → UpdateFunc → Exec (State W) (Unit {0})
  update_status c u =
      with_storage c λ a s. let (r, h) = Heap.update a u s.heap in (r, record s { heap = h })

-- the error of a cleanup or of a `Close` that nobody reads
abbrev pub ignore : {S : Type 0} → Exec S (Unit {0}) → Exec S (Unit {0})
ignore = unless λ _. true
