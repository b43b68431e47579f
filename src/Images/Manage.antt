-- ===== src/Images/Manage.antt =====
-- pkg/server/image_list.go, image_status.go and image_remove.go
pub mod Outcome
use cri_containerd.Base.{
  ℕ, String, Bool, true, Option, none, some, List, [], ◌∷◌, ◌++◌, map, Result, ok, err, panic, wrap,
}
use mathlib.Core.Option
use cri_containerd.Base.Int.{ℤ, bits64}
use cri_containerd.Store.Image
use cri_containerd.Store.Image.{Image}
use cri_containerd.Exec.{Exec, pure, gets, wrap_error, unless, modify, ◌>>=◌, ◌>>◌}
use cri_containerd.Service.{State, Env, call}
use cri_containerd.Images.Resolve.{local_resolve, get_user_from_image}

-- `runtime.Image`
pub record CriImage : Type 0 where
  pub id : String
  pub repo_tags : List String
  pub repo_digests : List String
  pub size : ℕ  -- uint64
  pub uid : Option ℤ
  pub username : String

-- `toCRIImage`, which `ImageStatus` repeats
unfoldable pub to_cri_image : Image → CriImage
unfolding get_user_from_image
to_cri_image image =
    let (uid, username) = get_user_from_image image.config.user in
    record {
      id = image.id;
      repo_tags = image.repo_tags;
      repo_digests = image.repo_digests;
      size = bits64 image.size;
      uid = uid;
      username = username;
    }

unfoldable pub list_images : {W : Type 0} → Exec (State W) (List CriImage)
list_images = do images ← gets λ s. Image.list s.images; pure (map to_cri_image images)

module _ (env : Env) where
  open env use {World, is_not_found, image_delete}

  -- `none` is an image that is not found, which is no error.
  unfoldable pub image_status : String → Exec (State World) (Option CriImage)
  unfolding local_resolve
  image_status ref = do
    image ← wrap_error (wrap "can not resolve %q locally: %v" (ref ∷ [])) (local_resolve env ref)
    pure (Option.map to_cri_image image)

  -- one of the references of an image
  delete_reference : String → String → Exec (State World) (Unit {0})
  delete_reference id ref =
      wrap_error (wrap "failed to delete image reference %q for image %q: %v" (ref ∷ id ∷ []))
        (unless is_not_found (call (image_delete ref)))

  unfoldable pub delete_references : String → List String → Exec (State World) (Unit {0})
  unfolding delete_reference
  delete_references id [] = pure tt
  delete_references id (ref ∷ refs) = delete_reference id ref >> delete_references id refs

  unfoldable pub remove_resolved : Option Image → Exec (State World) (Unit {0})
  remove_resolved none = pure tt
  remove_resolved (some image) = do
    delete_references image.id ((image.repo_tags ++ image.repo_digests) ++ image.id ∷ [])
    modify λ s. record s { images = Image.delete image.id s.images }

  -- `RemoveImage`
  unfoldable pub remove_image : String → Exec (State World) (Unit {0})
  remove_image ref = do
    image ← wrap_error (wrap "can not resolve %q locally: %v" (ref ∷ [])) (local_resolve env ref)
    remove_resolved image
