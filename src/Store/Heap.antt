-- ===== src/Store/Heap.antt =====
-- The `statusStorage` objects that `StoreStatus` allocates (pkg/store/container/status.go). A
-- container in the store and every copy of it share one storage through a pointer, here an address.
use cri_containerd.Base.{ℕ, ◌+◌, ◌==◌, nat_eq, if◌then◌else◌, Result, ok, err, panic}
use cri_containerd.Store.Status.{Status}

pub record Heap : Type 0 where
  pub next : ℕ
  pub cell : ℕ → Status

-- `StoreStatus`: a new storage. It returns no error.
unfoldable pub store_status : Status → Heap → ℕ × Heap
store_status status h =
    (h.next, record { next = h.next + 1; cell = λ a. if a == h.next then status else h.cell a })

-- `m.status = newStatus`
unfoldable pub write : ℕ → Status → Heap → Heap
write a status h = record h { cell = λ b. if b == a then status else h.cell b }

-- `UpdateFunc`
abbrev pub UpdateFunc : Type 0
UpdateFunc = Status → Result Status

-- `statusStorage.Update`: the new status is written only if the function returns no error.
unfoldable pub update : ℕ → UpdateFunc → Heap → Result (Unit {0}) × Heap
unfolding write
update a u h = elim (u (h.cell a)) [
  | ok new_status ↦ (ok tt, write a new_status h)
  | err e ↦ (err e, h)
  | panic ↦ (panic, h)
]
