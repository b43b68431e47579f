-- ===== src/Store/Metadata.antt =====
-- The checkpoints of metadata, pkg/store/container/metadata.go and pkg/store/sandbox/metadata.go. The
-- JSON form of a record is a parameter: `encoding/json` derives it from the type.
pub mod RoundTrip
use cri_containerd.Base.{
  String, ◌==◌, string_eq, Option, none, some, [], Error, errorf, if◌then◌else◌,
}
use cri_containerd.Store.Container.{Metadata}
use cri_containerd.Store.Sandbox.{Sandbox}
use cri_containerd.Service.{Reply, value, failure}

-- `versionedMetadata`
pub record Versioned (M : Type 0) : Type 0 where
  pub version : String
  pub metadata : M

-- `json.Marshal` and `json.Unmarshal` at one type
pub record Json (A : Type 0) : Type 0 where
  pub marshal : A → Reply String
  pub unmarshal : String → Reply A

abbrev pub metadata_version : String
metadata_version = "v1"

module _ {M : Type 0} (json : Json (Versioned M)) where
  unfoldable pub encode : M → Reply String
  encode m = json.marshal (record { version = metadata_version; metadata = m })

  -- `old` is the receiver before the call; the receiver after it comes with the error.
  unfoldable pub decode : String → M → Option Error × M
  decode text old = elim (json.unmarshal text) [
    | failure e ↦ (some e, old)
    | value v ↦
        if v.version == metadata_version
        then (none, v.metadata)
        else (some (errorf "unsupported version" []), old)
  ]

-- `Encode` and `Decode` of container metadata
unfoldable pub encode_container : Json (Versioned Metadata) → Metadata → Reply String
unfolding encode
encode_container json m = encode json m

unfoldable pub decode_container :
    Json (Versioned Metadata) → String → Metadata → Option Error × Metadata
unfolding decode
decode_container json text old = decode json text old

-- `Encode` and `Decode` of sandbox metadata
unfoldable pub encode_sandbox : Json (Versioned Sandbox) → Sandbox → Reply String
unfolding encode
encode_sandbox json m = encode json m

unfoldable pub decode_sandbox : Json (Versioned Sandbox) → String → Sandbox → Option Error × Sandbox
unfolding decode
decode_sandbox json text old = decode json text old
