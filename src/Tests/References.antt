-- ===== src/Tests/References.antt =====
-- A library of references: a name, alone, with the tag latest, or with a digest.
use cri_containerd.Base.{String, Bool, true, false}
use cri_containerd.Base.Text.{◌+s+◌}

pub data Reference : Type 0 where
  bare latest : String → Reference
  digested : String → String → Reference

abbrev pub has_tag : Reference → Bool
has_tag (latest name) = true
has_tag _ = false

abbrev pub has_digest : Reference → Bool
has_digest (digested name digest) = true
has_digest _ = false

abbrev pub name_part : Reference → String
name_part (bare name) = name
name_part (latest name) = name
name_part (digested name digest) = name

abbrev pub digest_part : Reference → String
digest_part (digested name digest) = digest
digest_part _ = ""

abbrev pub text_form : Reference → String
text_form (bare name) = name
text_form (latest name) = name +s+ ":latest"
text_form (digested name digest) = name +s+ "@" +s+ digest

abbrev pub add_tag : Reference → Reference
add_tag (bare name) = latest name
add_tag r = r
