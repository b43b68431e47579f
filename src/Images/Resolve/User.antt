-- ===== src/Images/Resolve/User.antt =====
-- The user of an image: `getUserFromImage` of pkg/server/helpers.go.
use Prim.Native.String.append
use text.Mathlib.TextEquality.{eq_iff}
use cri_containerd.Base.{String, ◌≡◌, ◌≢◌, true, none, some, List, [], ◌∷◌, arith, string_eq}
use cri_containerd.Base.Int.{ℤ}
use cri_containerd.Base.Text.{lacks, split, split-lacks, split-append, cons_not_empty, ◌+s+◌}
use cri_containerd.Base.Parse.{
  parse_int, show_int, IsInt64, parse_int-show_int, show_int_not_empty, lacks-show_int,
}
use cri_containerd.Images.Resolve.{get_user_from_image}

append_not_empty : (s t : String) → (s +s+ String.◌∷◌ ":" t) ≢ ""
append_not_empty String.[] t e = cons_not_empty ":" t (rw append.nil at e)
append_not_empty (String.◌∷◌ c s) t e =
    cons_not_empty c (s +s+ String.◌∷◌ ":" t) (rw append.cons at e)

get_user_from_image_digits :
    (user field : String) (rest : List String) (z : ℤ)
    → user ≢ ""
    → split ":" user ≡ field ∷ rest
    → parse_int field ≡ some z
    → get_user_from_image user ≡ (some z, "")
unfolding get_user_from_image
get_user_from_image_digits user field rest z given fields number =
    ground (arith, given, fields, number, eq_iff user "")

-- A user that is the decimal text of an `int64`, with a group or without, is that uid and no name. A
-- user without a colon that `ParseInt` refuses is a name and no uid, and so it is with a group.
pub get_user_from_image_lem :
    (z : ℤ) (group name : String)
    → IsInt64 z
    → parse_int name ≡ none
    → lacks ":" name ≡ true
    → (get_user_from_image (show_int z) ≡ (some z, ""))
      × (get_user_from_image (show_int z +s+ String.◌∷◌ ":" group) ≡ (some z, ""))
      × (get_user_from_image name ≡ (none, name))
      × (get_user_from_image (name +s+ String.◌∷◌ ":" group) ≡ (none, name))
unfolding get_user_from_image
get_user_from_image_lem z group name h letters plain =
    let number : parse_int (show_int z) ≡ some z = parse_int-show_int z h in
    let digits : lacks ":" (show_int z) ≡ true = lacks-show_int z in
    (
      get_user_from_image_digits (show_int z) (show_int z) [] z (show_int_not_empty z h)
          (split-lacks ":" (show_int z) digits) number,
      get_user_from_image_digits (show_int z +s+ String.◌∷◌ ":" group) (show_int z)
          (split ":" group) z (append_not_empty (show_int z) group)
          (split-append ":" (show_int z) group digits) number,
      ground (arith, letters, eq_iff name "", split-lacks ":" name plain),
      ground (
        arith,
        letters,
        append_not_empty name group,
        eq_iff (name +s+ String.◌∷◌ ":" group) "",
        split-append ":" name group plain,
      ),
    )
