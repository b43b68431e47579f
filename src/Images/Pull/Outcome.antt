-- ===== src/Images/Pull/Outcome.antt =====
-- What a pull of pkg/server/image_pull.go changes.
use cri_containerd.Base.{
  wrap, [], ◌∷◌, ℕ, zero, suc, String, ◌≡◌, refl, Option, none, some, List, ok, err, panic, Result,
  arith, inl, inr, Result-cases,
}
use cri_containerd.Store.Image
use cri_containerd.Store.Image.{Image, Images}
use cri_containerd.Store.Image.Merge.{add_lem}
use cri_containerd.Exec.{Exec}
use cri_containerd.Exec.Ends.{wrapped_bind}
use cri_containerd.Exec.Keeps.{Keeps, keeps_rules, Keeps-modify}
use cri_containerd.Service.{State, Env, AuthConfig, Descriptor, StoreImage}
use cri_containerd.Service.Frame.{
  Outside, outside_rules, ImagesOnly, ImagesOnly-WorldFree, Outside-WorldFree,
}
use cri_containerd.Images.Resolve.{get_image_info, local_resolve}
use cri_containerd.Images.Resolve.Frame.{get_image_info-Outside, local_resolve-Outside}
use cri_containerd.Images.Pull.{
  create_image_reference, wait_tick, wait_loop, wait_for_resources_downloading,
  create_reference_unless_empty, unpack, download, fetch_image, pulled_image, add_image,
  record_image, pull_image, pull_missing, ensure_image_exists,
}

module _ (env : Env) (s0 : State env.World) where
  create_image_reference-Outside :
      (name : String) (desc : Descriptor)
      → Keeps (Outside s0) (create_image_reference env name desc)
  unfolding create_image_reference
  create_image_reference-Outside name desc = record { at = λ s h. ground (arith, h) }

  wait_tick-Outside :
      (rs : List String) (rest : Exec (State env.World) (Unit {0}))
      → Keeps (Outside s0) rest
      → Keeps (Outside s0) (wait_tick env rs rest)
  unfolding wait_tick
  wait_tick-Outside rs rest h = search outside_rules depth 10

  wait_loop-Outside : (rs : List String) (ticks : ℕ) → Keeps (Outside s0) (wait_loop env rs ticks)
  unfolding wait_loop
  wait_loop-Outside rs zero = search outside_rules
  wait_loop-Outside rs (suc ticks) =
      wait_tick-Outside rs (wait_loop env rs ticks) (wait_loop-Outside rs ticks)

  wait-Outside : (rs : List String) → Keeps (Outside s0) (wait_for_resources_downloading env rs)
  unfolding wait_for_resources_downloading
  wait-Outside rs = search (outside_rules, wait_loop-Outside) depth 8

  create_reference-Outside :
      (desc : Descriptor) (r : String)
      → Keeps (Outside s0) (create_reference_unless_empty env desc r)
  unfolding create_reference_unless_empty
  create_reference-Outside desc r = search (outside_rules, create_image_reference-Outside) depth 8

  unpack-Outside : (i : StoreImage) → Keeps (Outside s0) (unpack env i)
  unfolding unpack
  unpack-Outside i = search outside_rules depth 14

  download-Outside :
      (ref : String) (c : Result (String × String)) → Keeps (Outside s0) (download env ref c)
  unfolding download
  download-Outside ref c = search (outside_rules, wait-Outside) depth 16

  fetch_image-Outside :
      (ref : String) (auth : Option AuthConfig) → Keeps (Outside s0) (fetch_image env ref auth)
  unfolding fetch_image
  fetch_image-Outside ref auth =
      search
        (
          outside_rules, download-Outside, create_reference-Outside, unpack-Outside,
          create_image_reference-Outside,
        )
        depth 20

module _ (env : Env) (s0 : State env.World) where
  add_image-ImagesOnly : (i : Image) → Keeps (ImagesOnly s0) (add_image env i)
  unfolding add_image
  add_image-ImagesOnly i = Keeps-modify _ (λ s h. ground (arith, h))

  fetch_image-ImagesOnly :
      (ref : String) (auth : Option AuthConfig) → Keeps (ImagesOnly s0) (fetch_image env ref auth)
  fetch_image-ImagesOnly ref auth =
      Outside-WorldFree _ (λ s. fetch_image-Outside env s ref auth) (ImagesOnly-WorldFree s0)

  get_image_info-ImagesOnly : (ref : String) → Keeps (ImagesOnly s0) (get_image_info env ref)
  get_image_info-ImagesOnly ref =
      Outside-WorldFree _ (λ s. get_image_info-Outside env s ref) (ImagesOnly-WorldFree s0)

  record_image-ImagesOnly :
      (ref : String) (pulled : String × String × String)
      → Keeps (ImagesOnly s0) (record_image env ref pulled)
  unfolding record_image
  record_image-ImagesOnly ref (id, tag, digest) =
      search (keeps_rules, add_image-ImagesOnly, get_image_info-ImagesOnly) depth 10

  pub pull_image-ImagesOnly :
      (ref : String) (auth : Option AuthConfig) → Keeps (ImagesOnly s0) (pull_image env ref auth)
  unfolding pull_image
  pull_image-ImagesOnly ref auth =
      search (keeps_rules, fetch_image-ImagesOnly, record_image-ImagesOnly) depth 10

  local_resolve-ImagesOnly : (ref : String) → Keeps (ImagesOnly s0) (local_resolve env ref)
  local_resolve-ImagesOnly ref =
      Outside-WorldFree _ (λ s. local_resolve-Outside env s ref) (ImagesOnly-WorldFree s0)

  pull_missing-ImagesOnly :
      (ref : String) (o : Option Image) → Keeps (ImagesOnly s0) (pull_missing env ref o)
  unfolding pull_missing
  pull_missing-ImagesOnly ref (some i) = search keeps_rules
  pull_missing-ImagesOnly ref none = search (keeps_rules, pull_image-ImagesOnly) depth 10

  pub ensure_image_exists-ImagesOnly :
      (ref : String) → Keeps (ImagesOnly s0) (ensure_image_exists env ref)
  unfolding ensure_image_exists
  ensure_image_exists-ImagesOnly ref =
      search (keeps_rules, local_resolve-ImagesOnly, pull_missing-ImagesOnly) depth 8

add_found :
    (img : Image) (s : Images) → (new : Image) × (Image.get img.id (Image.add img s) ≡ ok new)
add_found img s = elim (Image.get-cases img.id s) [
  | inl (old, found) ↦ let (new, e, _, _, _, _, _, _) = (add_lem img s).2 old found in (new, e)
  | inr missing ↦ (img, (add_lem img s).1 missing)
]

-- What a pull leaves of the images: on success the image is found under the id that is returned;
-- otherwise no image has changed.
abbrev pub Pulled : {W : Type 0} → State W → Result String × State W → Type 0
Pulled s0 (ok id, s) = ImagesOnly s0 s × ((img : Image) × (Image.get id s.images ≡ ok img))
Pulled s0 (err _, s) = Outside s0 s
Pulled s0 (panic, s) = Outside s0 s

Pulled-after :
    {W : Type 0} (s0 s : State W) (o : Result String × State W)
    → Outside s0 s
    → Pulled s o
    → Pulled s0 o
Pulled-after s0 s (ok id, s') h (p, q) = (ground (arith, h, p), q)
Pulled-after s0 s (err e, s') h p = ground (arith, h, p)
Pulled-after s0 s (panic, s') h p = ground (arith, h, p)

module _ (env : Env) where
  record_image-Pulled :
      (ref id tag digest : String) (s : State env.World)
      → Pulled s (record_image env ref (id, tag, digest) s)
  unfolding record_image add_image
  record_image-Pulled ref id tag digest s =
      let kept : Outside s (get_image_info env ref s).1 =
        (get_image_info-Outside env s ref).at s refl in
      elim (Result-cases (get_image_info env ref s).0) [
        | inl (info, e) ↦
            let (new, found) = add_found (pulled_image env id tag digest info) s.images in
            rw (e, Pulled) (ground (arith, e, kept), (new, ground (arith, e, kept, found)))
        | inr (inl (x, e)) ↦ rw (e, Pulled) (ground (arith, e, kept))
        | inr (inr e) ↦ rw (e, Pulled) (ground (arith, e, kept))
      ]

  -- `PullImage` changes nothing of the service but the images. If it succeeds, the image is found in
  -- the store under the reference that it returns; if it fails, no image has changed either.
  pub pull_image-Pulled :
      (ref : String) (auth : Option AuthConfig) (s : State env.World)
      → Pulled s (pull_image env ref auth s)
  unfolding pull_image
  pull_image-Pulled ref auth s =
      let kept : Outside s (fetch_image env ref auth s).1 =
        (fetch_image-Outside env s ref auth).at s refl in
      wrapped_bind (Pulled s) (wrap "failed to pull image %q: %v" (ref ∷ [])) (record_image env ref)
        (fetch_image env ref auth s)
        (λ pulled e.
          Pulled-after s (fetch_image env ref auth s).1 _ kept
            (record_image-Pulled ref pulled.0 pulled.1 pulled.2 (fetch_image env ref auth s).1))
        (λ x e. kept) (λ e. kept)
