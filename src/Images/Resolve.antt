-- ===== src/Images/Resolve.antt =====
-- pkg/server/helpers.go: references of images, their information, and the user of an image.
pub mod User
pub mod Frame
pub mod Normal
use cri_containerd.Base.{
  ◌==◌, ◌&&◌, not, string_eq, String, Bool, true, false, Option, none, some, List, [], ◌∷◌, ◌++◌,
  if◌then◌else◌, Result, ok, err, panic, Error, wrap, errorf, not_exist,
}
use cri_containerd.Base.Int.{ℤ}
use cri_containerd.Base.Text.{split, join, ◌+s+◌}
use cri_containerd.Base.Parse.{parse_int}
use cri_containerd.Store.Image
use cri_containerd.Store.Image.{Image, ImageConfig}
use cri_containerd.Exec.{Exec, pure, raise, lift, wrap_error, optional, finally, reads, ◌>>=◌, ◌>>◌}
use cri_containerd.Service.{State, Env, StoreImage, call, outcome}
use cri_containerd.Containers.Common.{ignore}

-- `err == store.ErrNotExist`
abbrev is_not_exist : Error → Bool
is_not_exist not_exist = true
is_not_exist _ = false

-- the first field of `strings.Split`
abbrev first_field : List String → String
first_field [] = ""
first_field (f ∷ _) = f

-- a numeric user is a uid, any other a user name
abbrev user_of : String → Option ℤ → Option ℤ × String
user_of user none = (none, user)
user_of user (some uid) = (some uid, "")

unfoldable pub get_user_from_image : String → Option ℤ × String
get_user_from_image user =
    if user == ""
    then (none, "")
    else (let name = first_field (split ":" user) in user_of name (parse_int name))

-- what `getImageInfo` returns
pub record ImageInfo : Type 0 where
  pub chain_id : String
  pub size : ℤ
  pub config : ImageConfig

module _ (env : Env) where
  open env use {
    World, Named, parse_normalized_named, is_tagged, is_canonical, name_of, digest_of, string_of,
    with_name, with_digest, tag_name_only, is_digest, chain_id, is_not_found, image_get,
    image_config, image_root_fs, image_size, content_reader, decode_image_config, close,
  }

  -- a reference with a tag and a digest keeps the digest only
  digest_only : Named → Result Named
  digest_only named = elim (outcome (with_name (name_of named))) [
    | ok plain ↦ outcome (with_digest plain (digest_of named))
    | err e ↦ err e
    | panic ↦ panic
  ]

  unfoldable pub normalize_image_ref : String → Result Named
  unfolding digest_only
  normalize_image_ref ref = elim (outcome (parse_normalized_named ref)) [
    | ok named ↦
        if is_tagged named && is_canonical named
        then digest_only named
        else ok (tag_name_only named)
    | err e ↦ err e
    | panic ↦ panic
  ]

  unfoldable pub get_image_info : String → Exec (State World) ImageInfo
  unfolding normalize_image_ref
  get_image_info ref = do
    normalized ←
        wrap_error (wrap "failed to normalize image reference %q: %v" (ref ∷ []))
          (lift (normalize_image_ref ref))
    image ←
        wrap_error
          (wrap "failed to get image %q from containerd image store: %v"
            (string_of normalized ∷ []))
          (call (image_get (string_of normalized)))
    desc ←
        wrap_error (wrap "failed to get image config descriptor: %v" []) (call (image_config image))
    rc ←
        wrap_error (wrap "failed to get image config reader: %v" [])
          (call (content_reader desc.digest))
    finally (ignore (call (close rc))) do
      config ←
          wrap_error (wrap "failed to decode image config: %v" []) (call (decode_image_config rc))
      diff_ids ←
          wrap_error (wrap "failed to get image diff ids: %v" []) (call (image_root_fs image))
      size ← wrap_error (wrap "failed to get image size: %v" []) (call (image_size image))
      pure (record { chain_id = chain_id diff_ids; size = size; config = config })

  unfoldable pub get_repo_digest_and_tag : Named → String → Bool → String × String
  get_repo_digest_and_tag named digest schema1 = (
    (if is_canonical named
        then string_of named
        else if not schema1
        then name_of named +s+ "@" +s+ digest
        else ""),
    if is_tagged named then string_of named else "",
  )

  -- the digest of the config of an image, if there is one
  config_digest : Option StoreImage → Exec (State World) (Option String)
  config_digest none = pure none
  config_digest (some image) = do
    desc ←
        wrap_error (wrap "failed to get image config descriptor: %v" []) (call (image_config image))
    pure (some desc.digest)

  -- the id of the image that a reference stands for, `none` if containerd has no such image
  image_id : String → Exec (State World) (Option String)
  unfolding normalize_image_ref config_digest
  image_id ref = if is_digest ref then pure (some ref) else do
    normalized ←
        wrap_error (wrap "invalid image reference %q: %v" (ref ∷ []))
          (lift (normalize_image_ref ref))
    found ←
        wrap_error
          (wrap "an error occurred when getting image %q from containerd image store: %v"
            (string_of normalized ∷ []))
          (optional is_not_found (call (image_get (string_of normalized))))
    config_digest found

  -- `localResolve` once the id is known
  look_up : Option String → Exec (State World) (Option Image)
  look_up none = pure none
  look_up (some id) =
      wrap_error (wrap "failed to get image %q metadata: %v" (id ∷ []))
        (optional is_not_exist (reads λ s. Image.get id s.images))

  unfoldable pub local_resolve : String → Exec (State World) (Option Image)
  unfolding image_id look_up
  local_resolve ref = do id ← image_id ref; look_up id
