-- ===== src/Images/Manage/Outcome.antt =====
-- What `RemoveImage` of pkg/server/image_remove.go leaves behind.

use text.Mathlib.TextEquality.{eq_iff}
use text.Mathlib.TextPositions.{eq_refl}
use cri_containerd.Base.{
  String, ◌≡◌, ◌≢◌, refl, Option, none, some, List, [], ◌∷◌, ◌++◌, ok, err, panic, Result, arith,
  wrap, inl, inr, Result-cases, not_exist,
}
use cri_containerd.Map.{lookup-erase}
use cri_containerd.Store.Image
use cri_containerd.Store.Image.{Image}
use cri_containerd.Exec.Ends.{wrapped_bind}
use cri_containerd.Exec.Keeps.{Keeps, Keeps-then, Keeps-modify}
use cri_containerd.Service.{State, Env}
use cri_containerd.Service.Frame.{
  Outside, outside_rules, ImagesOnly, images_rules, Outside-ImagesOnly,
}
use cri_containerd.Images.Resolve.{local_resolve}
use cri_containerd.Images.Resolve.Frame.{local_resolve-Outside}
use cri_containerd.Images.Manage.{
  delete_reference, delete_references, remove_resolved, remove_image,
}

module _ (env : Env) (s0 : State env.World) where
  delete_reference-Outside : (id ref : String) → Keeps (Outside s0) (delete_reference env id ref)
  unfolding delete_reference
  delete_reference-Outside id ref = search outside_rules

  delete_references-Outside :
      (id : String) (refs : List String) → Keeps (Outside s0) (delete_references env id refs)
  unfolding delete_references
  delete_references-Outside id [] = search outside_rules
  delete_references-Outside id (ref ∷ refs) =
      Keeps-then (delete_reference env id ref) (delete_references env id refs)
        (delete_reference-Outside id ref) (delete_references-Outside id refs)

-- What a removal of the image that the reference resolves to, if any, leaves of the state `s0`.
abbrev pub ImageRemoved :
    {W : Type 0} → State W → Option Image → Result (Unit {0}) × State W → Type 0
ImageRemoved s0 none (r, s) = (r ≡ ok tt) × Outside s0 s
ImageRemoved s0 (some image) (ok _, s) =
    ImagesOnly s0 s
    × (Image.get image.id s.images ≡ err not_exist)
    × ((id : String) → id ≢ image.id → Image.get id s.images ≡ Image.get id s0.images)
ImageRemoved s0 (some image) (err _, s) = Outside s0 s
ImageRemoved s0 (some image) (panic, s) = Outside s0 s

module _ (env : Env) (s0 : State env.World) where
  remove_resolved-ImagesOnly : (o : Option Image) → Keeps (ImagesOnly s0) (remove_resolved env o)
  unfolding remove_resolved
  remove_resolved-ImagesOnly none = search images_rules
  remove_resolved-ImagesOnly (some image) =
      Keeps-then (delete_references env image.id _) _
        (Outside-ImagesOnly s0 _ (λ s. delete_references-Outside env s image.id _))
        (Keeps-modify (λ s. record s { images = Image.delete image.id s.images })
          (λ s h. ground (arith, h)))

  resolve-ImagesOnly : (ref : String) → Keeps (ImagesOnly s0) (local_resolve env ref)
  resolve-ImagesOnly ref = Outside-ImagesOnly s0 _ (λ s. local_resolve-Outside env s ref)

  pub remove_image-ImagesOnly : (ref : String) → Keeps (ImagesOnly s0) (remove_image env ref)
  unfolding remove_image
  remove_image-ImagesOnly ref =
      search (images_rules, resolve-ImagesOnly, remove_resolved-ImagesOnly) depth 8

module _ (env : Env) where
  open env use {World}

  remove_resolved-ImageRemoved :
      (o : Option Image) (s0 s : State World)
      → Outside s0 s
      → ImageRemoved s0 o (remove_resolved env o s)
  unfolding remove_resolved Image.get Image.delete
  remove_resolved-ImageRemoved none s0 s h = (refl, h)
  remove_resolved-ImageRemoved (some image) s0 s h =
      let refs : List String = (image.repo_tags ++ image.repo_digests) ++ image.id ∷ [] in
      let kept : Outside s0 (delete_references env image.id refs s).1 =
        (delete_references-Outside env s0 image.id refs).at s h in
      elim (Result-cases (delete_references env image.id refs s).0) [
        | inl (a, e) ↦
            rw (e, ImageRemoved)
              (
                ground (arith, e, kept),
                ground (arith, e, kept, lookup-erase image.id image.id s0.images, eq_refl image.id),
                λ id other.
                    ground (arith, e, kept, lookup-erase image.id id s0.images, eq_iff image.id id),
              )
        | inr (inl (x, e)) ↦ rw (e, ImageRemoved) (ground (arith, e, kept))
        | inr (inr e) ↦ rw (e, ImageRemoved) (ground (arith, e, kept))
      ]

  -- `RemoveImage` of a reference that resolves to no image succeeds and changes nothing. If it
  -- resolves to an image and the removal succeeds, that image is out of the store and every other
  -- image stays; if it fails, all images stay. The containers and sandboxes stay in every case.
  pub remove_image-ImageRemoved :
      (ref : String) (o : Option Image) (s : State World)
      → (local_resolve env ref s).0 ≡ ok o
      → ImageRemoved s o (remove_image env ref s)
  unfolding remove_image
  remove_image-ImageRemoved ref o s resolved =
      wrapped_bind (ImageRemoved s o) (wrap "can not resolve %q locally: %v" (ref ∷ []))
        (remove_resolved env) (local_resolve env ref s)
        (λ found e.
          let same : found ≡ o = ground (arith, e, resolved) in
          rw same (
            remove_resolved-ImageRemoved o s (local_resolve env ref s).1
              ((local_resolve-Outside env s ref).at s refl)))
        (λ x e. ground (arith, e, resolved)) (λ e. ground (arith, e, resolved))
