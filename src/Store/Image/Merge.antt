-- ===== src/Store/Image/Merge.antt =====
-- An image that is added again, `Add` of pkg/store/image/image.go.
use text.Mathlib.TextEquality.{eq_iff}
use text.Mathlib.TextPositions.{eq_refl}
use cri_containerd.Base.{
  String, ◌≡◌, ◌≢◌, refl, false, ◌||◌, List, [], ◌∷◌, ◌++◌, ok, err, arith, ◌==◌, string_eq,
  Bool-cases, inl, inr, not_exist, Option-cases,
}
use cri_containerd.Map.{lookup, lookup-insert}
use cri_containerd.Store.Image
use cri_containerd.Store.Image.{
  Image, Images, contains, add_strings, merge_string_slices, merge_into,
}

-- No element occurs twice.
abbrev pub IsDistinct : List String → Type 0
IsDistinct [] = Unit
IsDistinct (x ∷ xs) = (contains x xs ≡ false) × IsDistinct xs

contains-nil : (x : String) → contains x [] ≡ false
unfolding contains
contains-nil x = refl

contains-append :
    (x : String) (xs ys : List String) → contains x (xs ++ ys) ≡ (contains x xs || contains x ys)
unfolding contains
contains-append x [] ys = refl
contains-append x (y ∷ xs) ys = ground (arith, contains-append x xs ys)

append-IsDistinct :
    (xs : List String) (y : String)
    → IsDistinct xs
    → contains y xs ≡ false
    → IsDistinct (xs ++ y ∷ [])
unfolding contains
append-IsDistinct [] y d h = (refl, tt)
append-IsDistinct (x ∷ xs) y d h = (
  ground (arith, d, h, contains-append x xs (y ∷ []), eq_iff x y, eq_iff y x),
  append-IsDistinct xs y d.1 (ground (arith, h)),
)

contains-add_strings :
    (x : String) (set ss : List String)
    → contains x (add_strings set ss) ≡ (contains x set || contains x ss)
unfolding add_strings contains
contains-add_strings x set [] = ground arith
contains-add_strings x set (s ∷ ss) = elim (Bool-cases (contains s set)) [
  | inl old ↦ elim (Bool-cases (x == s)) [
    | inl e ↦ ground (arith, contains-add_strings x set ss, eq_iff x s, old)
    | inr n ↦ ground (arith, contains-add_strings x set ss, old)
  ]
  | inr new ↦
      ground (arith, contains-add_strings x (set ++ s ∷ []) ss, contains-append x set (s ∷ []), new)
]

add_strings-IsDistinct : (set ss : List String) → IsDistinct set → IsDistinct (add_strings set ss)
unfolding add_strings
add_strings-IsDistinct set [] d = d
add_strings-IsDistinct set (s ∷ ss) d = elim (Bool-cases (contains s set)) [
  | inl old ↦ rw old (add_strings-IsDistinct set ss d)
  | inr new ↦ rw new (add_strings-IsDistinct (set ++ s ∷ []) ss (append-IsDistinct set s d new))
]

-- `mergeStringSlices` gives the union of the two slices, without duplicates.
pub merge_string_slices_lem :
    (a b : List String)
    → IsDistinct (merge_string_slices a b)
      × ((x : String) → contains x (merge_string_slices a b) ≡ (contains x a || contains x b))
unfolding merge_string_slices
merge_string_slices_lem a b = (
  add_strings-IsDistinct (add_strings [] a) b (add_strings-IsDistinct [] a tt),
  λ x. ground (
    arith,
    contains-add_strings x (add_strings [] a) b,
    contains-add_strings x [] a,
    contains-nil x,
  ),
)

-- After an `Add` the image is found under its id. If it was there, it has its tags and digests and
-- the new ones, and the rest of it stays; if not, it is as added. Every other image stays.
pub add_lem :
    (img : Image) (s : Images)
    → ((id : String) → id ≢ img.id → Image.get id (Image.add img s) ≡ Image.get id s)
      × (Image.get img.id s ≡ err not_exist → Image.get img.id (Image.add img s) ≡ ok img)
      × ((old : Image)
          → Image.get img.id s ≡ ok old
          → (new : Image) × (Image.get img.id (Image.add img s) ≡ ok new)
            × ((tag : String)
                → contains tag new.repo_tags
                  ≡ (contains tag old.repo_tags || contains tag img.repo_tags))
            × ((digest : String)
                → contains digest new.repo_digests
                  ≡ (contains digest old.repo_digests || contains digest img.repo_digests))
            × (new.id ≡ old.id)
            × (new.chain_id ≡ old.chain_id)
            × (new.size ≡ old.size)
            × (new.config ≡ old.config))
unfolding Image.get Image.add merge_into
add_lem img s = elim (Option-cases (lookup img.id s)) [
  | inl missing ↦ (
    λ id other. ground (arith, missing, lookup-insert img.id id img s, eq_iff img.id id),
    λ h. ground (arith, missing, lookup-insert img.id img.id img s, eq_refl img.id),
    λ old h. ground (arith, missing, h),
  )
  | inr (i, found) ↦ (
    λ id other.
        ground (arith, found, lookup-insert img.id id (merge_into i img) s, eq_iff img.id id),
    λ h. ground (arith, found, h),
    λ old h. (
      merge_into i img,
      ground (arith, found, lookup-insert img.id img.id (merge_into i img) s, eq_refl img.id),
      λ tag. ground (arith, found, h, (merge_string_slices_lem i.repo_tags img.repo_tags).1 tag),
      λ digest.
          ground
            (arith, found, h, (merge_string_slices_lem i.repo_digests img.repo_digests).1 digest),
      ground (arith, found, h),
      ground (arith, found, h),
      ground (arith, found, h),
      ground (arith, found, h),
    ),
  )
]
