-- ===== src/Base/Keep.antt =====
-- The loop that keeps the elements of a list which pass a test.
use mathlib.Core.Path.{◌≡◌, sym}
use mathlib.Core.Logic.{◌↔◌, ◌⊎◌, inl, inr}
use mathlib.Core.Bool.{Bool, true}
use mathlib.Core.List.{List, [], ◌∷◌, Memᴰ}
use cri_containerd.Base.Tests.{if◌then◌else◌, Bool-cases}

module _ {ℓ} {A : Type ℓ} where
  unfoldable pub keep : (A → Bool) → List A → List A
  keep test [] = []
  keep test (x ∷ xs) = let rest = keep test xs in if test x then x ∷ rest else rest

  pub head_or_tail : {c d : A} {cs : List A} → Memᴰ c (d ∷ cs) → (c ≡ d) ⊎ Memᴰ c cs
  head_or_tail (Memᴰ.head e) = inl e
  head_or_tail (Memᴰ.tail m) = inr m

  keep_sound :
      (test : A → Bool) (x : A) (xs : List A) → Memᴰ x (keep test xs) → Memᴰ x xs × (test x ≡ true)
  unfolding keep
  keep_sound test x [] m = elim m [ ]
  keep_sound test x (y ∷ xs) m = elim (Bool-cases (test y)) [
    | inl kept ↦ elim (head_or_tail (rw (kept, keep) at m)) [
      | inl e ↦ (Memᴰ.head e, rw e kept)
      | inr later ↦ let (here, passes) = keep_sound test x xs later in (Memᴰ.tail here, passes)
    ]
    | inr dropped ↦
        let (here, passes) = keep_sound test x xs (rw (dropped, keep) at m) in
        (Memᴰ.tail here, passes)
  ]

  keep_complete :
      (test : A → Bool) (x : A) (xs : List A) → Memᴰ x xs → test x ≡ true → Memᴰ x (keep test xs)
  unfolding keep
  keep_complete test x [] m passes = elim m [ ]
  keep_complete test x (y ∷ xs) (Memᴰ.head e) passes =
      let kept : test y ≡ true = rw (sym e) passes in rw (kept, keep) (Memᴰ.head e)
  keep_complete test x (y ∷ xs) (Memᴰ.tail m) passes = elim (Bool-cases (test y)) [
    | inl kept ↦ rw (kept, keep) (Memᴰ.tail (keep_complete test x xs m passes))
    | inr dropped ↦ rw (dropped, keep) (keep_complete test x xs m passes)
  ]

  -- What is kept is what passes the test.
  pub Memᴰ-keep :
      (test : A → Bool) (x : A) (xs : List A)
      → Memᴰ x (keep test xs) ↔ (Memᴰ x xs × (test x ≡ true))
  Memᴰ-keep test x xs = (keep_sound test x xs, λ h. keep_complete test x xs h.0 h.1)
