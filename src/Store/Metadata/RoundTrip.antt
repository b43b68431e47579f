-- ===== src/Store/Metadata/RoundTrip.antt =====
-- Metadata and their checkpoints.
use text.Mathlib.TextEquality.{eq_iff}
use cri_containerd.Base.{
  String, ◌==◌, string_eq, ◌≡◌, ◌⊎◌, inl, inr, none, some, Error, [], errorf, arith, Bool-cases,
}
use cri_containerd.Service.{value, Reply-cases}
use cri_containerd.Store.Metadata.{Versioned, Json, metadata_version, encode, decode}

-- What was marshalled is unmarshalled to the same value.
pub record IsFaithful {A : Type 0} (json : Json A) : Type 0 where
  pub back : (a : A) (text : String) → json.marshal a ≡ value text → json.unmarshal text ≡ value a

-- A checkpoint that was written is read back, whatever the receiver held. A text is accepted only if
-- it stands for metadata of the current version, which the receiver then holds; otherwise there is an
-- error and the receiver stays as it was.
pub decode-encode :
    {M : Type 0} (json : Json (Versioned M)) (m old : M) (written text : String)
    → IsFaithful json
    → encode json m ≡ value written
    → (decode json written old ≡ (none, m))
      × (((got : M) × (decode json text old ≡ (none, got))
            × (json.unmarshal text ≡ value (record { version = metadata_version; metadata = got })))
          ⊎ ((e : Error) × (decode json text old ≡ (some e, old))))
unfolding encode decode
decode-encode json m old written text faithful e = (
  ground (
    arith,
    faithful.back (record { version = metadata_version; metadata = m }) written e,
    eq_iff metadata_version metadata_version,
  ),
  elim (Reply-cases (json.unmarshal text)) [
    | inl (v, read) ↦ elim (Bool-cases (v.version == metadata_version)) [
      | inl current ↦ inl (
        v.metadata,
        ground (arith, read, current),
        ground (arith, read, current, eq_iff v.version metadata_version),
      )
      | inr stale ↦ inr (errorf "unsupported version" [], ground (arith, read, stale))
    ]
    | inr (f, unread) ↦ inr (f, ground (arith, unread))
  ],
)
