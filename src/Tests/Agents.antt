-- ===== src/Tests/Agents.antt =====
-- The log of a container and the checkpoint of its metadata at concrete inputs.
use cri_containerd.Base.{
  ℕ, String, ◌==◌, string_eq, if◌then◌else◌, ◌≤◌, ◌≡◌, ◌⊎◌, refl, none, some, List, [], ◌∷◌, Error,
  ok, fault, arith, length,
}
use text.Mathlib.TextEquality.{eq_iff}
use cri_containerd.Store.Metadata.{Versioned, Json, metadata_version, encode, decode}
use cri_containerd.Store.Metadata.RoundTrip.{IsFaithful, decode-encode}
use cri_containerd.Service.{value, failure}
use cri_containerd.Exec.Keeps.{Keeps}
use cri_containerd.Agents.Logger.{bytes, stdout, pipe_buf_size, Files, redirect_logs}
use cri_containerd.Agents.Logger.Outcome.{IsTimely, Allows, redirect_logs-Keeps, redirect_logs_ends}

-- The world is the list of the writes so far.
abbrev files : Files (List (List ℕ))
files = record {
  timestamp = λ w. (bytes "2017-09-01T00:00:00Z", w);
  write = λ text w. (value tt, text ∷ w);
  close_writer = λ w. (value tt, w);
  close_reader = λ w. (value tt, w);
}

files-IsTimely : IsTimely files
files-IsTimely = record { fits = λ w. omega arith }

-- no write so far was too long
abbrev AllShort : List (List ℕ) → Type 0
AllShort [] = Unit
AllShort (x ∷ xs) = (length x ≤ pipe_buf_size) × AllShort xs

files-Allows : Allows files AllShort
files-Allows = record {
  clock = λ w h. h;
  writes = λ text short w h. (short, h);
  writer = λ w h. h;
  reader = λ w h. h;
}

abbrev end : Error
end = fault "EOF"

redirect_logs-Keeps_example : Keeps AllShort (redirect_logs files stdout end (bytes "one line"))
redirect_logs-Keeps_example =
    redirect_logs-Keeps files stdout end AllShort files-IsTimely files-Allows (bytes "one line")

redirect_logs_ends_example :
    (redirect_logs files stdout end (bytes "one line") []).0 ≡ ok (some end)
redirect_logs_ends_example = redirect_logs_ends files stdout end (bytes "one line") []

abbrev two_lines : List (List ℕ)
two_lines = bytes "first" ∷ bytes "then" ∷ []

-- A form that stands for texts of the current version only: the text itself.
abbrev plain_json : Json (Versioned String)
plain_json = record {
  marshal =
      λ v. if v.version == metadata_version then value v.metadata else failure (fault "version");
  unmarshal = λ text. value (record { version = metadata_version; metadata = text });
}

plain_json-IsFaithful : IsFaithful plain_json
plain_json-IsFaithful = record {
  back = λ a text h. ground (arith, h, eq_iff a.version metadata_version);
}

version_checked :
    (decode plain_json "pod" "old" ≡ (none, "pod"))
    × (((got : String) × (decode plain_json "x" "old" ≡ (none, got))
          × (plain_json.unmarshal "x"
              ≡ value (record { version = metadata_version; metadata = got })))
        ⊎ ((e : Error) × (decode plain_json "x" "old" ≡ (some e, "old"))))
unfolding encode
version_checked = decode-encode plain_json "pod" "old" "pod" "x" plain_json-IsFaithful refl
