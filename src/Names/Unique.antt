-- ===== src/Names/Unique.antt =====
-- The names of pkg/server/helpers.go against the metadata that they are made from.
use cri_containerd.Base.{ℕ, ◌<◌, ◌^◌, String, ap, ◌≢◌, ◌≡◌, true, List, [], ◌∷◌, arith}
use cri_containerd.Base.Text.{lacks, AllLack, join, join_injective, join_nested, append_longer}
use cri_containerd.Base.Decimal.{show_decimal, show_decimal_injective, lacks-show_decimal}
use cri_containerd.Cri.{PodSandboxMetadata, ContainerMetadata}
use cri_containerd.Names.{
  make_sandbox_name, make_container_name, sandbox_name_parts, container_name_parts,
}

-- No text of the metadata holds the delimiter, and the attempt is a `uint32`.
pub record IsPlain (s : PodSandboxMetadata) : Type 0 where
  pub name_plain : lacks "_" s.name ≡ true
  pub namespace_plain : lacks "_" s.namespace ≡ true
  pub uid_plain : lacks "_" s.uid ≡ true
  pub attempt_fits : s.attempt < 2 ^ 32

pub record IsPlainContainer (c : ContainerMetadata) : Type 0 where
  pub name_plain : lacks "_" c.name ≡ true
  pub attempt_fits : c.attempt < 2 ^ 32

module _ (c : ContainerMetadata) (s : PodSandboxMetadata) where
  abbrev rest : List String
  rest = s.namespace ∷ s.uid ∷ show_decimal c.attempt ∷ []

  rest-AllLack : IsPlain s → AllLack "_" rest
  rest-AllLack h =
      (h.namespace_plain, (h.uid_plain, (lacks-show_decimal "_" c.attempt (omega arith), tt)))

abbrev sandbox_rest : PodSandboxMetadata → List String
sandbox_rest s = s.namespace ∷ s.uid ∷ show_decimal s.attempt ∷ []

sandbox_rest-AllLack : (s : PodSandboxMetadata) → IsPlain s → AllLack "_" (sandbox_rest s)
sandbox_rest-AllLack s h =
    (h.namespace_plain, (h.uid_plain, (lacks-show_decimal "_" s.attempt (omega arith), tt)))

-- Sandboxes whose metadata hold no delimiter have the same name only if they have the same metadata.
pub make_sandbox_name_injective :
    (a b : PodSandboxMetadata)
    → IsPlain a
    → IsPlain b
    → make_sandbox_name a ≡ make_sandbox_name b
    → a ≡ b
unfolding make_sandbox_name
make_sandbox_name_injective a b ha hb e =
    let parts : sandbox_name_parts a ≡ sandbox_name_parts b =
      join_injective "_" a.name b.name (sandbox_rest a) (sandbox_rest b)
        (ha.name_plain, sandbox_rest-AllLack a ha) (hb.name_plain, sandbox_rest-AllLack b hb) e in
    ground (arith, parts, show_decimal_injective a.attempt b.attempt (omega arith) (omega arith))

-- Containers get the same name only if their metadata, and their sandbox's name, namespace and uid,
-- are the same, if none of these holds the delimiter.
pub make_container_name_injective :
    (c d : ContainerMetadata) (a b : PodSandboxMetadata)
    → IsPlainContainer c
    → IsPlainContainer d
    → IsPlain a
    → IsPlain b
    → make_container_name c a ≡ make_container_name d b
    → (c ≡ d) × (a.name ≡ b.name) × (a.namespace ≡ b.namespace) × (a.uid ≡ b.uid)
unfolding make_container_name
make_container_name_injective c d a b hc hd ha hb e =
    let parts : container_name_parts c a ≡ container_name_parts d b =
      join_injective "_" c.name d.name (a.name ∷ rest c a) (b.name ∷ rest d b)
        (hc.name_plain, (ha.name_plain, rest-AllLack c a ha))
        (hd.name_plain, (hb.name_plain, rest-AllLack d b hb)) e in
    ground (arith, parts, show_decimal_injective c.attempt d.attempt (omega arith) (omega arith))

-- the metadata of a sandbox, with its name, namespace, uid and attempt
abbrev pub metadata : String → String → String → ℕ → PodSandboxMetadata
metadata name namespace uid attempt = record {
  name = name;
  namespace = namespace;
  uid = uid;
  attempt = attempt;
}

-- Whatever the texts, two sandboxes that differ only in where a delimiter stands get one name: the
-- comment of `makeSandboxName` promises uniqueness without the condition.
pub sandbox_names_clash :
    (x y z uid : String) (attempt : ℕ)
    → let a = metadata (join "_" (x ∷ y ∷ [])) z uid attempt in
      let b = metadata x (join "_" (y ∷ z ∷ [])) uid attempt in
      (a ≢ b) × (make_sandbox_name a ≡ make_sandbox_name b)
unfolding make_sandbox_name join
sandbox_names_clash x y z uid attempt = (
  λ e. append_longer x y "_" (ap (λ m. m.name) e),
  join_nested "_" x y z uid (show_decimal attempt ∷ []),
)
