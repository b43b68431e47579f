-- ===== src/Tests/Images.antt =====
-- The theorems on images and specifications at concrete inputs.

use cri_containerd.Base.{
  inl, inr, String, ◌≡◌, ◌≢◌, ◌⊎◌, ◌↔◌, ◌<◌, ◌++◌, ◌||◌, refl, true, false, none, some, [], ◌∷◌, ok,
  err, Error, not_exist, arith, length, string_eq, List,
}
use cri_containerd.Base.Int.{negsuc}
use cri_containerd.Base.Parse.{parse_int, show_int}
use cri_containerd.Base.Text.{lacks, ◌+s+◌}
use cri_containerd.Cri.{zero_config}
use cri_containerd.Map.{lookup}
use cri_containerd.Store.Image
use cri_containerd.Store.Image.{Image, contains, merge_string_slices}
use cri_containerd.Store.Image.Merge.{IsDistinct, merge_string_slices_lem, add_lem}
use cri_containerd.Images.Resolve.{
  get_user_from_image, normalize_image_ref, get_repo_digest_and_tag, local_resolve,
}
use cri_containerd.Images.Resolve.User.{get_user_from_image_lem}
use cri_containerd.Images.Resolve.Normal.{DocumentedReferences, normalize_image_ref_lem}
use cri_containerd.Images.Pull.{pull_image}
use cri_containerd.Images.Pull.Outcome.{Pulled, pull_image-Pulled}
use cri_containerd.Images.Manage.{remove_image}
use cri_containerd.Images.Manage.Outcome.{ImageRemoved, remove_image-ImageRemoved}
use cri_containerd.Spec.Common.{add_image_envs}
use cri_containerd.Spec.Common.Env.{equals, texts, with_envs, image_env_lem}
use cri_containerd.Spec.Container.{set_oci_process_args}
use cri_containerd.Spec.Container.Args.{SetsArgs, set_oci_process_args_lem}
use cri_containerd.Sandboxes.Dns.{parse_dns_options}
use cri_containerd.Sandboxes.Dns.Text.{parse_dns_options_lem}
use cri_containerd.Service.{Reply, value}
use cri_containerd.Tests.References.{
  Reference, bare, latest, digested, has_tag, has_digest, name_part, add_tag,
}
use cri_containerd.Tests.Specs.{toy_generator, no_process}
use cri_containerd.Tests.Toy.{toy, service, image, created_status}

merge_string_slices_lem_example :
    IsDistinct (merge_string_slices ("a" ∷ []) ("b" ∷ "a" ∷ []))
    × ((x : String)
        → contains x (merge_string_slices ("a" ∷ []) ("b" ∷ "a" ∷ []))
          ≡ (contains x ("a" ∷ []) || contains x ("b" ∷ "a" ∷ [])))
merge_string_slices_lem_example = merge_string_slices_lem ("a" ∷ []) ("b" ∷ "a" ∷ [])

-- the example image under another tag
abbrev tagged : Image
tagged = record image { repo_tags = "pause:3.0" ∷ [] }

add_lem_example :
    ((id : String)
      → id ≢ "i1"
      → Image.get id (Image.add tagged (("i1", image) ∷ [])) ≡ Image.get id (("i1", image) ∷ []))
    × (Image.get "i1" (("i1", image) ∷ []) ≡ err not_exist
        → Image.get "i1" (Image.add tagged (("i1", image) ∷ [])) ≡ ok tagged)
    × ((old : Image)
        → Image.get "i1" (("i1", image) ∷ []) ≡ ok old
        → (new : Image) × (Image.get "i1" (Image.add tagged (("i1", image) ∷ [])) ≡ ok new)
          × ((tag : String)
              → contains tag new.repo_tags
                ≡ (contains tag old.repo_tags || contains tag ("pause:3.0" ∷ [])))
          × ((digest : String)
              → contains digest new.repo_digests
                ≡ (contains digest old.repo_digests || contains digest []))
          × (new.id ≡ old.id)
          × (new.chain_id ≡ old.chain_id)
          × (new.size ≡ old.size)
          × (new.config ≡ old.config))
add_lem_example = add_lem tagged (("i1", image) ∷ [])

root_is_a_name : parse_int "root" ≡ none
unfolding parse_int
root_is_a_name = refl

root_is_plain : lacks ":" "root" ≡ true
unfolding lacks
root_is_plain = refl

get_user_from_image_lem_example :
    (get_user_from_image (show_int (negsuc 6)) ≡ (some (negsuc 6), ""))
    × (get_user_from_image (show_int (negsuc 6) +s+ String.◌∷◌ ":" "users") ≡ (some (negsuc 6), ""))
    × (get_user_from_image "root" ≡ (none, "root"))
    × (get_user_from_image ("root" +s+ String.◌∷◌ ":" "users") ≡ (none, "root"))
get_user_from_image_lem_example =
    get_user_from_image_lem (negsuc 6) "users" "root" (omega arith) root_is_a_name root_is_plain

with_digest_lem :
    (plain named : Reference) (digest : String)
    → ◌≡◌ {A = Reply Reference} (value (digested (name_part plain) digest)) (value named)
    → (has_digest named ≡ true) × (has_tag named ≡ false)
with_digest_lem plain (digested name d) digest e = (refl, refl)
with_digest_lem plain (bare name) digest e = cc
with_digest_lem plain (latest name) digest e = cc

bare_lem :
    (named : Reference)
    → has_tag named ≡ false
    → has_digest named ≡ false
    → (has_tag (add_tag named) ≡ true) × (has_digest (add_tag named) ≡ false)
bare_lem (bare name) t c = (refl, refl)
bare_lem (latest name) t c = cc
bare_lem (digested name d) t c = cc

kept_lem :
    (named : Reference) → (has_tag named ≡ true) ⊎ (has_digest named ≡ true) → add_tag named ≡ named
kept_lem (bare name) (inl t) = cc
kept_lem (bare name) (inr c) = cc
kept_lem (latest name) h = refl
kept_lem (digested name d) h = refl

toy-DocumentedReferences : DocumentedReferences toy
toy-DocumentedReferences = record {
  digested = λ name plain named digest p q. with_digest_lem plain named digest q;
  tag_added = λ named t c. bare_lem named t c;
  tag_kept = λ named t. kept_lem named (inl t);
  digest_kept = λ named c. kept_lem named (inr c);
}

normal : normalize_image_ref toy "busybox" ≡ ok (latest "busybox")
unfolding normalize_image_ref
normal = refl

normalize_image_ref_lem_example :
    ((true ≡ true)
      × (false ≡ false)
      × ((get_repo_digest_and_tag toy (latest "busybox") "m1" false).1 ≡ "busybox:latest"))
    ⊎ ((false ≡ true)
        × (true ≡ false)
        × (get_repo_digest_and_tag toy (latest "busybox") "m1" false ≡ ("busybox:latest", "")))
normalize_image_ref_lem_example =
    normalize_image_ref_lem toy "busybox" "m1" false (latest "busybox") toy-DocumentedReferences
      normal

pull_image-Pulled_example :
    Pulled (service created_status) (pull_image toy "busybox" none (service created_status))
pull_image-Pulled_example = pull_image-Pulled toy "busybox" none (service created_status)

resolved : (local_resolve toy "busybox" (service created_status)).0 ≡ ok (some image)
unfolding local_resolve Image.get lookup
resolved = refl

remove_image-ImageRemoved_example :
    ImageRemoved
      (service created_status)
      (some image)
      (remove_image toy "busybox" (service created_status))
remove_image-ImageRemoved_example =
    remove_image-ImageRemoved toy "busybox" (some image) (service created_status) resolved

key_is_plain : lacks "=" "OPTS" ≡ true
unfolding lacks
key_is_plain = refl

value_is_plain : lacks "=" "-Da" ≡ true
unfolding lacks
value_is_plain = refl

-- the variable that is accepted
abbrev plain : List (String × String)
plain = ("OPTS", "-Da") ∷ []

image_env_lem_example :
    (add_image_envs toy_generator (texts plain) no_process
      ≡ (ok tt, with_envs toy_generator plain no_process))
    × ((add_image_envs toy_generator
          (texts plain ++ equals "OPTS" (equals "-Da" "1") ∷ texts plain)
          no_process).0
        ≢ ok tt)
image_env_lem_example =
    image_env_lem toy_generator plain "OPTS" "-Da" "1" (texts plain) (texts plain) no_process
      (key_is_plain, value_is_plain, tt) key_is_plain value_is_plain

set_oci_process_args_lem_example :
    SetsArgs toy_generator no_process
      ("serve" ∷ [])
      (set_oci_process_args toy_generator zero_config image.config no_process)
set_oci_process_args_lem_example =
    set_oci_process_args_lem toy_generator zero_config image.config no_process

parse_dns_options_lem_example :
    (((e : Error) × (parse_dns_options ("8.8.8.8" ∷ []) [] [] ≡ err e))
      ↔ (6 < length {A = String} []))
    × ((parse_dns_options ("8.8.8.8" ∷ []) [] [] ≡ ok "") ↔ (
        (◌≡◌ {A = List String} ("8.8.8.8" ∷ []) [])
        × (◌≡◌ {A = List String} [] [])
        × (◌≡◌ {A = List String} [] [])))
parse_dns_options_lem_example = parse_dns_options_lem ("8.8.8.8" ∷ []) [] []
