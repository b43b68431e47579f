-- ===== src/Consistency/Storages.antt =====
-- The status storages of the containers in the store.
use text.Mathlib.TextEquality.{eq_iff}
use cri_containerd.Base.{
  ℕ, ◌≤◌, ◌<◌, String, ◌≡◌, some, arith, ◌==◌, string_eq, inl, inr, Bool-cases,
}
use cri_containerd.Map.{lookup, insert, erase, lookup-insert, lookup-erase}
use cri_containerd.Store.Container.{Container, Containers}

-- Every container has a storage that has been allocated, and no two containers share one; `next` is
-- the first address that is free.
pub record Storages (cs : Containers) (next : ℕ) : Type 0 where
  pub backed :
      (j : String) (c : Container)
      → lookup j cs ≡ some c
      → (a : ℕ) × (c.status ≡ some a) × (a < next)
  pub unshared :
      (j k : String) (c d : Container) (a : ℕ)
      → lookup j cs ≡ some c
      → lookup k cs ≡ some d
      → c.status ≡ some a
      → d.status ≡ some a
      → j ≡ k

module _ (cs : Containers) (next : ℕ) (h : Storages cs next) where
  pub Storages-erase : (k : String) → Storages (erase k cs) next
  Storages-erase k = record {
    backed = λ j c e. h.backed j c (ground (arith, lookup-erase k j cs, e));
    unshared = λ i j c d a e f.
        h.unshared i j c d a (ground (arith, lookup-erase k i cs, e))
          (ground (arith, lookup-erase k j cs, f));
  }

  pub Storages-grow : (next' : ℕ) → next ≤ next' → Storages cs next'
  Storages-grow next' le = record {
    backed = λ j c e. let (a, at, lt) = h.backed j c e in (a, at, omega (arith, lt, le));
    unshared = h.unshared;
  }

  -- a new container with a new storage
  pub Storages-insert :
      (id : String) (c : Container) (a next' : ℕ)
      → c.status ≡ some a
      → next ≤ a
      → a < next'
      → Storages (insert id c cs) next'
  Storages-insert id c a next' at fresh lt = record {
    backed = λ j d e. elim (Bool-cases (id == j)) [
      | inl same ↦ (a, ground (arith, lookup-insert id j c cs, same, e, at), lt)
      | inr other ↦
          let (b, bat, blt) = h.backed j d (ground (arith, lookup-insert id j c cs, other, e)) in
          (b, bat, omega (arith, blt, fresh, lt))
    ];
    unshared = λ i j d e b f g p q. elim (Bool-cases (id == i)) [
      | inl same_i ↦ elim (Bool-cases (id == j)) [
        | inl same_j ↦ ground (arith, same_i, same_j, eq_iff id i, eq_iff id j)
        | inr other_j ↦
            let (x, xat, xlt) =
              h.backed j e (ground (arith, lookup-insert id j c cs, other_j, g)) in
            absurd (ground (arith, lookup-insert id i c cs, same_i, f, at, p, q, xat, xlt, fresh))
      ]
      | inr other_i ↦
          let before : lookup i cs ≡ some d = ground (arith, lookup-insert id i c cs, other_i, f) in
          elim (Bool-cases (id == j)) [
            | inl same_j ↦
                let (x, xat, xlt) = h.backed i d before in
                absurd
                  (ground (arith, lookup-insert id j c cs, same_j, g, at, p, q, xat, xlt, fresh))
            | inr other_j ↦
                h.unshared i j d e b before (ground (arith, lookup-insert id j c cs, other_j, g)) p
                  q
          ]
    ];
  }
