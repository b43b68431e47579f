-- ===== src/Images/Pull.antt =====
-- pkg/server/image_pull.go, with `ensureImageExists` of helpers.go.
pub mod Outcome
use cri_containerd.Base.{
  ℕ, zero, suc, ◌==◌, ◌&&◌, ◌||◌, not, nat_eq, string_eq, String, Bool, true, false, Option, none,
  some, List, [], ◌∷◌, if◌then◌else◌, Result, ok, err, panic, Error, wrap, errorf, length,
}
use cri_containerd.Base.Text.{cut, trim}
use cri_containerd.Store.Image
use cri_containerd.Store.Image.{Image, contains, add_strings}
use cri_containerd.Exec.{
  Exec, pure, raise, lift, guard, wrap_error, unless, modify, reads, ◌>>=◌, ◌>>◌,
}
use cri_containerd.Service.{
  State, Env, AuthConfig, Descriptor, StoreImage, Layer, call, effect, outcome,
}
use cri_containerd.Images.Resolve.{
  ImageInfo, normalize_image_ref, get_image_info, get_repo_digest_and_tag, local_resolve,
}

-- `resourceSet.add` of each, from the empty set
unfoldable pub resource_set : List String → List String
resource_set rs = add_strings [] rs

-- Whether one of the statuses is of one of the resources.
unfoldable pub is_pulling : List String → List String → Bool
is_pulling resources [] = false
is_pulling resources (ref ∷ refs) = contains ref resources || is_pulling resources refs

-- the layers of an image: its diff ids beside the blobs of its manifest
make_layers : List String → List Descriptor → List Layer
make_layers (d ∷ ds) (b ∷ bs) = record { diff = d; blob = b } ∷ make_layers ds bs
make_layers _ _ = []

-- the end of `ParseAuth`: the decoded text is cut at the first colon
split_auth : Result String → Result (String × String)
split_auth (ok decoded) = elim (cut ":" decoded) [
  | some (user, passwd) ↦ ok (user, trim 0 passwd)
  | none ↦ err (errorf "invalid decoded auth: %q" (decoded ∷ []))
]
split_auth (err e) = err e
split_auth panic = panic

module _ (env : Env) where
  open env use {
    World, Named, string_of, base64_decode, is_already_exists, image_get, image_create,
    image_update, image_config, image_root_fs, read_blob, unmarshal_manifest, apply_layers,
    list_statuses, download_ticks, schema1_manifest, resolve, fetcher, dispatch, convert_schema1,
  }

  unfoldable pub parse_auth : Option AuthConfig → Result (String × String)
  unfolding split_auth
  parse_auth none = ok ("", "")
  parse_auth (some auth) =
      if not (auth.username == "")
      then ok (auth.username, auth.password)
      else if not (auth.identity_token == "")
      then ok ("", auth.identity_token)
      else if not (auth.auth == "")
      then split_auth (outcome (base64_decode auth.auth))
      else err (errorf "invalid auth config" [])

  unfoldable pub create_image_reference : String → Descriptor → Exec (State World) (Unit {0})
  create_image_reference name desc s =
      let img : StoreImage = record { name = name; target = desc } in
      let (r, s') = call (image_create img) s in
      elim r [
        | ok a ↦ (ok tt, s')
        | err e ↦ if is_already_exists e then call (image_update img) s' else (err e, s')
        | panic ↦ (panic, s')
      ]

  -- one tick of `waitForResourcesDownloading`, and what comes after it
  wait_tick : List String → Exec (State World) (Unit {0}) → Exec (State World) (Unit {0})
  unfolding is_pulling
  wait_tick resources rest = do
    statuses ← wrap_error (wrap "failed to get content status: %v" []) (call list_statuses)
    (if is_pulling resources statuses then rest else pure tt)

  -- its loop, over the ticks before the context is done
  unfoldable pub wait_loop : List String → ℕ → Exec (State World) (Unit {0})
  unfolding wait_tick
  wait_loop resources zero = raise (errorf "image resources pulling is cancelled" [])
  wait_loop resources (suc ticks) = wait_tick resources (wait_loop resources ticks)

  unfoldable pub wait_for_resources_downloading : List String → Exec (State World) (Unit {0})
  wait_for_resources_downloading resources = do
    ticks ← effect download_ticks
    wait_loop resources ticks

  create_reference_unless_empty : Descriptor → String → Exec (State World) (Unit {0})
  unfolding create_image_reference
  create_reference_unless_empty desc r =
      if r == ""
      then pure tt
      else wrap_error (wrap "failed to update image reference %q: %v" (r ∷ []))
          (create_image_reference r desc)

  -- the unpacking of the layers of an image into snapshots
  unpack : StoreImage → Exec (State World) (Unit {0})
  unfolding make_layers
  unpack image = do
    let manifest_digest = image.target.digest
    p ←
        wrap_error (wrap "readblob failed for manifest digest %q: %v" (manifest_digest ∷ []))
          (call (read_blob manifest_digest))
    layers ←
        wrap_error
          (wrap "unmarshal blob to manifest failed for manifest digest %q: %v"
            (manifest_digest ∷ []))
          (lift (outcome (unmarshal_manifest p)))
    diff_ids ← wrap_error (wrap "failed to get image rootfs: %v" []) (call (image_root_fs image))
    guard (length diff_ids == length layers)
        (errorf "mismatched image rootfs and manifest layers" [])
    wrap_error (wrap "failed to apply layers %+v: %v" [])
        (call (apply_layers (make_layers diff_ids layers)))

  -- the descriptor of the image once its resources are in the content store
  download : String → Result (String × String) → Exec (State World) (Descriptor × Bool)
  unfolding wait_for_resources_downloading resource_set
  download ref credentials = do
    desc ←
        wrap_error (wrap "failed to resolve ref %q: %v" (ref ∷ [])) (call (resolve credentials ref))
    f ←
        wrap_error (wrap "failed to get fetcher for ref %q: %v" (ref ∷ []))
          (call (fetcher credentials ref))
    let schema1 = desc.media_type == schema1_manifest
    resources ← effect (dispatch schema1 f desc)
    wrap_error (wrap "failed to wait for image %q downloading: %v" (ref ∷ []))
        (wait_for_resources_downloading (resource_set resources))
    (if not schema1 then pure (desc, false) else do
      converted ←
          wrap_error (wrap "failed to convert schema 1 image %q: %v" (ref ∷ []))
            (call (convert_schema1 f))
      pure (converted, true))

  -- `pullImage`: the image id, the repo tag and the repo digest
  unfoldable pub fetch_image :
      String → Option AuthConfig → Exec (State World) (String × String × String)
  unfolding normalize_image_ref parse_auth download create_reference_unless_empty unpack
      get_repo_digest_and_tag create_image_reference
  fetch_image raw_ref auth = do
    named ←
        wrap_error (wrap "failed to parse image reference %q: %v" (raw_ref ∷ []))
          (lift (normalize_image_ref env raw_ref))
    let ref = string_of named
    (desc, schema1) ← download ref (parse_auth auth)
    let (repo_digest, repo_tag) = get_repo_digest_and_tag env named desc.digest schema1
    guard (ref == repo_tag || ref == repo_digest) (
        errorf "unexpected repo tag %q and repo digest %q for %q"
          (repo_tag ∷ repo_digest ∷ ref ∷ []))
    create_reference_unless_empty desc repo_tag
    create_reference_unless_empty desc repo_digest
    image ←
        wrap_error (wrap "failed to get image %q from containerd image store: %v" (ref ∷ []))
          (call (image_get ref))
    unpack image
    config_desc ←
        wrap_error (wrap "failed to get config descriptor for image %q: %v" (ref ∷ []))
          (call (image_config image))
    let image_id = config_desc.digest
    wrap_error (wrap "failed to update image id %q: %v" (image_id ∷ []))
        (create_image_reference image_id desc)
    pure (image_id, repo_tag, repo_digest)

  abbrev pub unless_empty : String → List String
  unless_empty s = if s == "" then [] else s ∷ []

  abbrev pub pulled_image : String → String → String → ImageInfo → Image
  pulled_image id repo_tag repo_digest info = record {
    id = id;
    repo_tags = unless_empty repo_tag;
    repo_digests = unless_empty repo_digest;
    chain_id = info.chain_id;
    size = info.size;
    config = info.config;
  }

  -- `c.imageStore.Add`
  add_image : Image → Exec (State World) (Unit {0})
  add_image image = modify λ s. record s { images = Image.add image s.images }

  -- `PullImage` once the image is in containerd
  unfoldable pub record_image : String → String × String × String → Exec (State World) String
  unfolding add_image
  record_image image_ref (id, repo_tag, repo_digest) = do
    info ←
        wrap_error (wrap "failed to get image %q information: %v" (image_ref ∷ []))
          (get_image_info env image_ref)
    add_image (pulled_image id repo_tag repo_digest info)
    pure id

  -- `PullImage`: the reference of the image, which is its id
  unfoldable pub pull_image : String → Option AuthConfig → Exec (State World) String
  pull_image image_ref auth = do
    pulled ←
        wrap_error (wrap "failed to pull image %q: %v" (image_ref ∷ []))
          (fetch_image image_ref auth)
    record_image image_ref pulled

  unfoldable pub pull_missing : String → Option Image → Exec (State World) Image
  pull_missing ref (some image) = pure image
  pull_missing ref none = do
    id ← wrap_error (wrap "failed to pull image %q: %v" (ref ∷ [])) (pull_image ref none)
    wrap_error (wrap "failed to get image %q metadata after pulling: %v" (id ∷ []))
        (reads λ s. Image.get id s.images)

  unfoldable pub ensure_image_exists : String → Exec (State World) Image
  ensure_image_exists ref = do
    image ← wrap_error (wrap "failed to resolve image %q: %v" (ref ∷ [])) (local_resolve env ref)
    pull_missing ref image
