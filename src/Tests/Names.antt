-- ===== src/Tests/Names.antt =====
-- The theorems on the registrar and on names at concrete inputs.
use cri_containerd.Base.{
  String, ◌≡◌, ◌≢◌, ◌⊎◌, ◌↔◌, refl, none, some, if◌then◌else◌, ◌==◌, string_eq, arith,
}
use cri_containerd.Base.Text.{lacks, join}
use cri_containerd.Cri.{PodSandboxMetadata, ContainerMetadata}
use cri_containerd.Map.{lookup, insert}
use cri_containerd.Registrar.{Registrar, new_registrar, reserve, release_by_name, release_by_key}
use cri_containerd.Registrar.Bijection.{
  IsBijection, new_registrar-IsBijection, reserve-IsBijection, release-IsBijection,
}
use cri_containerd.Registrar.Operations.{
  IsReservable, reserve_succeeds, reserve_effect, reserve-release,
}
use cri_containerd.Names.{make_sandbox_name}
use cri_containerd.Names.Unique.{
  IsPlain, IsPlainContainer, make_sandbox_name_injective, make_container_name_injective,
  sandbox_names_clash, metadata,
}

abbrev one_pair : Registrar
one_pair = (reserve "pod" "s1" new_registrar).0

reserve-IsBijection_example : IsBijection one_pair
reserve-IsBijection_example = reserve-IsBijection "pod" "s1" new_registrar new_registrar-IsBijection

reserve-IsBijection_held : IsBijection one_pair
reserve-IsBijection_held = reserve-IsBijection "pod" "s1" new_registrar new_registrar-IsBijection

release-IsBijection_example :
    IsBijection (release_by_name "pod" one_pair) × IsBijection (release_by_key "s1" one_pair)
release-IsBijection_example = release-IsBijection "pod" "s1" one_pair reserve-IsBijection_held

reserve_succeeds_example :
    ((reserve "web" "c1" one_pair).1 ≡ none)
    ↔ (◌≢◌ {A = String} "web" "" × ◌≢◌ {A = String} "c1" "" × IsReservable "web" "c1" one_pair)
reserve_succeeds_example = reserve_succeeds "web" "c1" one_pair reserve-IsBijection_held

reserve_effect_example :
    let (r', e) = reserve "web" "c1" one_pair in
    ((e ≡ none)
      × (lookup "c1" r'.key_to_name ≡ some "web")
      × (lookup "pod" r'.name_to_key ≡ (
          if ◌==◌ {T = String} "web" "pod" then some "c1" else lookup "pod" one_pair.name_to_key)))
    ⊎ ((e ≢ none) × (r' ≡ one_pair))
reserve_effect_example = reserve_effect "web" "c1" "pod" one_pair reserve-IsBijection_held

paired : lookup "pod" one_pair.name_to_key ≡ some "s1"
unfolding lookup insert reserve
paired = refl

reserve-release_example :
    (release_by_name "pod" one_pair ≡ release_by_key "s1" one_pair)
    × ((name' key' : String)
        → name' ≢ ""
        → key' ≢ ""
        → (name' ≡ "pod") ⊎ (lookup name' one_pair.name_to_key ≡ none)
        → (key' ≡ "s1") ⊎ (lookup key' one_pair.key_to_name ≡ none)
        → (reserve name' key' (release_by_name "pod" one_pair)).1 ≡ none)
reserve-release_example = reserve-release "pod" "s1" one_pair reserve-IsBijection_held paired

abbrev pod_metadata : PodSandboxMetadata
pod_metadata = record { name = "pod"; uid = "u"; namespace = "default"; attempt = 1 }

abbrev web_metadata : ContainerMetadata
web_metadata = record { name = "web"; attempt = 0 }

pod_metadata-IsPlain : IsPlain pod_metadata
unfolding lacks
pod_metadata-IsPlain = record {
  name_plain = refl;
  namespace_plain = refl;
  uid_plain = refl;
  attempt_fits = omega arith;
}

web_metadata-IsPlainContainer : IsPlainContainer web_metadata
unfolding lacks
web_metadata-IsPlainContainer = record { name_plain = refl; attempt_fits = omega arith }

make_sandbox_name_injective_example : pod_metadata ≡ pod_metadata
make_sandbox_name_injective_example =
    make_sandbox_name_injective pod_metadata pod_metadata pod_metadata-IsPlain pod_metadata-IsPlain
      refl

make_container_name_injective_example :
    (web_metadata ≡ web_metadata)
    × (pod_metadata.name ≡ pod_metadata.name)
    × (pod_metadata.namespace ≡ pod_metadata.namespace)
    × (pod_metadata.uid ≡ pod_metadata.uid)
make_container_name_injective_example =
    make_container_name_injective web_metadata web_metadata pod_metadata pod_metadata
      web_metadata-IsPlainContainer web_metadata-IsPlainContainer pod_metadata-IsPlain
      pod_metadata-IsPlain refl

sandbox_names_clash_example :
    (metadata "a_b" "c" "u" 0 ≢ metadata "a" "b_c" "u" 0)
    × (make_sandbox_name (metadata "a_b" "c" "u" 0) ≡ make_sandbox_name (metadata "a" "b_c" "u" 0))
unfolding join
sandbox_names_clash_example = sandbox_names_clash "a" "b" "c" "u" 0
