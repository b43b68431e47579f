-- ===== src/Images/Resolve/Normal.antt =====
-- Normalized references: what `pullImage` compares a reference with.
use cri_containerd.Base.{String, ◌≡◌, ◌⊎◌, Bool, true, false, ok, arith, Bool-cases, inl, inr}
use cri_containerd.Service.{Env, value, Reply-cases}
use cri_containerd.Images.Resolve.{normalize_image_ref, digest_only, get_repo_digest_and_tag}

module _ (env : Env) where
  open env use {
    Named, parse_normalized_named, is_tagged, is_canonical, name_of, digest_of, string_of,
    with_name, with_digest, tag_name_only,
  }

  -- What the documentation of the reference library says: a name without tag and digest can be
  -- given a digest, and has no tag then; `TagNameOnly` gives a tag to a name that has neither, and
  -- leaves any other as it is.
  pub record DocumentedReferences : Type 0 where
    pub digested :
        (name : String) (plain named : Named) (digest : String)
        → with_name name ≡ value plain
        → with_digest plain digest ≡ value named
        → (is_canonical named ≡ true) × (is_tagged named ≡ false)
    pub tag_added :
        (named : Named)
        → is_tagged named ≡ false
        → is_canonical named ≡ false
        → (is_tagged (tag_name_only named) ≡ true) × (is_canonical (tag_name_only named) ≡ false)
    pub tag_kept : (named : Named) → is_tagged named ≡ true → tag_name_only named ≡ named
    pub digest_kept : (named : Named) → is_canonical named ≡ true → tag_name_only named ≡ named

  digest_only_digested :
      (named result : Named)
      → DocumentedReferences
      → digest_only env named ≡ ok result
      → (is_canonical result ≡ true) × (is_tagged result ≡ false)
  unfolding digest_only
  digest_only_digested named result d h = elim (Reply-cases (with_name (name_of named))) [
    | inl (plain, p) ↦ elim (Reply-cases (with_digest plain (digest_of named))) [
      | inl (r, q) ↦ ground (arith, h, p, q, d.digested (name_of named) plain r (digest_of named))
      | inr (e, q) ↦ ground (arith, h, p, q)
    ]
    | inr (e, p) ↦ ground (arith, h, p)
  ]

  -- A normalized reference is either tagged or digested, never both and never neither. So it is its
  -- own repo tag or its own repo digest, and the check of `pullImage` for it never fails.
  pub normalize_image_ref_lem :
      (ref digest : String) (schema1 : Bool) (named : Named)
      → DocumentedReferences
      → normalize_image_ref env ref ≡ ok named
      → (((is_tagged named ≡ true)
            × (is_canonical named ≡ false)
            × ((get_repo_digest_and_tag env named digest schema1).1 ≡ string_of named))
          ⊎ ((is_canonical named ≡ true)
              × (is_tagged named ≡ false)
              × (get_repo_digest_and_tag env named digest schema1 ≡ (string_of named, ""))))
  unfolding normalize_image_ref get_repo_digest_and_tag
  normalize_image_ref_lem ref digest schema1 named d h =
      elim (Reply-cases (parse_normalized_named ref)) [
        | inr (e, p) ↦ ground (arith, h, p)
        | inl (parsed, p) ↦ elim (Bool-cases (is_tagged parsed)) [
          | inl t ↦ elim (Bool-cases (is_canonical parsed)) [
            | inl c ↦
                let (x, y) = digest_only_digested parsed named d (ground (arith, h, p, t, c)) in
                inr (x, y, ground (arith, x, y))
            | inr n ↦ inl (
              ground (arith, h, p, t, n, d.tag_kept parsed t),
              ground (arith, h, p, t, n, d.tag_kept parsed t),
              ground (arith, h, p, t, n, d.tag_kept parsed t),
            )
          ]
          | inr t ↦ elim (Bool-cases (is_canonical parsed)) [
            | inl c ↦ inr (
              ground (arith, h, p, t, c, d.digest_kept parsed c),
              ground (arith, h, p, t, c, d.digest_kept parsed c),
              ground (arith, h, p, t, c, d.digest_kept parsed c),
            )
            | inr n ↦ inl (
              ground (arith, h, p, t, n, d.tag_added parsed t n),
              ground (arith, h, p, t, n, d.tag_added parsed t n),
              ground (arith, h, p, t, n, d.tag_added parsed t n),
            )
          ]
        ]
      ]
