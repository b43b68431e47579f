-- ===== src/Spec/Common/Env.antt =====
-- The environment variables of an image, `addImageEnvs` of pkg/server/container_create.go.
use cri_containerd.Base.{
  String, ◌≡◌, ◌≢◌, refl, true, none, some, List, [], ◌∷◌, ◌++◌, ok, arith, ap, ◌∙◌, nat_eq, inl,
  inr, Option-cases,
}
use cri_containerd.Base.Text.{lacks, split, split-lacks, split-append, split-cons, ◌+s+◌}
use cri_containerd.Service.{Generator}
use cri_containerd.Spec.Common.{split_env, add_image_envs}

abbrev pub equals : String → String → String
equals k v = k +s+ String.◌∷◌ "=" v

-- No key and no value holds an equals sign.
abbrev pub AllPlain : List (String × String) → Type 0
AllPlain [] = Unit
AllPlain ((k, v) ∷ es) = (lacks "=" k ≡ true) × (lacks "=" v ≡ true) × AllPlain es

-- the texts of variables
abbrev pub texts : List (String × String) → List String
texts [] = []
texts ((k, v) ∷ es) = equals k v ∷ texts es

-- the specification with each of the variables added, in order
abbrev pub with_envs : (g : Generator) → List (String × String) → g.Spec → g.Spec
with_envs g [] s = s
with_envs g ((k, v) ∷ es) s = with_envs g es (g.add_process_env k v s)

split_env-equals :
    (k v : String) → lacks "=" k ≡ true → lacks "=" v ≡ true → split_env (equals k v) ≡ some (k, v)
unfolding split_env
split_env-equals k v hk hv =
    let two : split "=" (equals k v) ≡ k ∷ v ∷ [] =
      split-append "=" k v hk ∙ ap (λ r. k ∷ r) (split-lacks "=" v hv) in
    rw (two, split_env) refl

split_env_refuses :
    (k v w : String)
    → lacks "=" k ≡ true
    → lacks "=" v ≡ true
    → split_env (equals k (equals v w)) ≡ none
unfolding split_env
split_env_refuses k v w hk hv =
    let (x, xs, e) = split-cons "=" w in
    let three : split "=" (equals k (equals v w)) ≡ k ∷ v ∷ x ∷ xs =
      split-append "=" k (equals v w) hk
      ∙ ap (λ r. k ∷ r) (split-append "=" v w hv ∙ ap (λ r. v ∷ r) e) in
    rw (three, split_env) refl

module _ (g : Generator) where
  add_image_envs-texts :
      (es : List (String × String)) (s : g.Spec)
      → AllPlain es
      → add_image_envs g (texts es) s ≡ (ok tt, with_envs g es s)
  unfolding add_image_envs
  add_image_envs-texts [] s h = refl
  add_image_envs-texts ((k, v) ∷ es) s h =
      rw (split_env-equals k v h.0 h.1, add_image_envs)
        (add_image_envs-texts es (g.add_process_env k v s) h.2)

  -- a variable that is refused, wherever it stands
  add_image_envs_refuses :
      (before after : List String) (bad : String) (s : g.Spec)
      → split_env bad ≡ none
      → (add_image_envs g (before ++ bad ∷ after) s).0 ≢ ok tt
  unfolding add_image_envs
  add_image_envs_refuses [] after bad s refused h = ground (arith, refused, h)
  add_image_envs_refuses (e ∷ before) after bad s refused h = elim (Option-cases (split_env e)) [
    | inl none_here ↦ ground (arith, none_here, h)
    | inr ((k, v), pair) ↦
        add_image_envs_refuses before after bad (g.add_process_env k v s) refused
          (rw (pair, add_image_envs) at h)
  ]

-- An environment whose keys and values hold no equals sign is accepted, and every variable of it is
-- added, in order. A value with an equals sign, which the image specification allows, is refused:
-- with such a variable anywhere, whatever the others are, there is an error.
pub image_env_lem :
    (g : Generator) (es : List (String × String)) (k v w : String) (before after : List String)
    (s : g.Spec)
    → AllPlain es
    → lacks "=" k ≡ true
    → lacks "=" v ≡ true
    → (add_image_envs g (texts es) s ≡ (ok tt, with_envs g es s))
      × ((add_image_envs g (before ++ equals k (equals v w) ∷ after) s).0 ≢ ok tt)
image_env_lem g es k v w before after s plain hk hv = (
  add_image_envs-texts g es s plain,
  add_image_envs_refuses g before after (equals k (equals v w)) s (split_env_refuses k v w hk hv),
)
