-- ===== src/Store/Image.antt =====
-- pkg/store/image/image.go: the images by id.
pub mod Merge
use cri_containerd.Base.{
  ◌≡◌, ◌⊎◌, inl, inr, Option-cases, String, Bool, false, none, some, List, [], ◌∷◌, ◌++◌, Result,
  ok, err, not_exist, ◌==◌, string_eq, ◌||◌, if◌then◌else◌,
}
use cri_containerd.Base.Int.{ℤ}
use cri_containerd.Map.{Map, lookup, insert, erase, values}

-- `imagespec.ImageConfig`, as far as the program reads it
pub record ImageConfig : Type 0 where
  pub user : String
  pub env : List String
  pub entrypoint : List String
  pub cmd : List String
  pub working_dir : String
  pub stop_signal : String

pub record Image : Type 0 where
  pub id : String
  pub repo_tags : List String
  pub repo_digests : List String
  pub chain_id : String
  pub size : ℤ  -- int64
  pub config : ImageConfig

abbrev pub Images : Type 0
Images = Map Image

abbrev pub new_store : Images
new_store = []

unfoldable pub contains : String → List String → Bool
contains x [] = false
contains x (y ∷ ys) = x == y || contains x ys

-- `set[s] = struct{}{}` for each element; the set's elements in the order of insertion
unfoldable pub add_strings : List String → List String → List String
unfolding contains
add_strings set [] = set
add_strings set (s ∷ ss) = add_strings (if contains s set then set else set ++ s ∷ []) ss

unfoldable pub merge_string_slices : List String → List String → List String
unfolding add_strings
merge_string_slices a b = add_strings (add_strings [] a) b

merge_into : Image → Image → Image
unfolding merge_string_slices
merge_into i img = record i {
  repo_tags = merge_string_slices i.repo_tags img.repo_tags;
  repo_digests = merge_string_slices i.repo_digests img.repo_digests;
}

unfoldable pub add : Image → Images → Images
unfolding merge_into
add img s = elim (lookup img.id s) [
  | none ↦ insert img.id img s
  | some i ↦ insert img.id (merge_into i img) s
]

unfoldable pub get : String → Images → Result Image
get id s = elim (lookup id s) [ some i ↦ ok i | none ↦ err not_exist ]

unfoldable pub list : Images → List Image
list s = values s

unfoldable pub delete : String → Images → Images
delete id s = erase id s

pub get-cases :
    (id : String) (s : Images) → ((i : Image) × (get id s ≡ ok i)) ⊎ (get id s ≡ err not_exist)
unfolding get
get-cases id s = elim (Option-cases (lookup id s)) [
  | inl e ↦ inr (rw (e, get))
  | inr (i, e) ↦ inl (i, rw (e, get))
]
