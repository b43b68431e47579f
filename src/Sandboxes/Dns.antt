-- ===== src/Sandboxes/Dns.antt =====
-- pkg/server/sandbox_run.go: the text of resolv.conf.
pub mod Text
use cri_containerd.Base.{
  String, List, [], ◌∷◌, if◌then◌else◌, Result, ok, err, Error, errorf, ltb, length, ℕ,
}
use cri_containerd.Base.Text.{◌+s+◌}

-- `strings.Join(xs, sep)` of a separator of any length
unfoldable pub join_with : String → List String → String
join_with sep [] = ""
join_with sep (x ∷ []) = x
join_with sep (x ∷ y ∷ ys) = x +s+ sep +s+ join_with sep (y ∷ ys)

-- a line for a list that is not empty
unfoldable pub line : String → String → List String → String
unfolding join_with
line key sep [] = ""
line key sep (x ∷ xs) = key +s+ " " +s+ join_with sep (x ∷ xs) +s+ "\n"

abbrev pub max_dns_searches : ℕ
max_dns_searches = 6

unfoldable pub parse_dns_options : List String → List String → List String → Result String
unfolding line
parse_dns_options servers searches options =
    if ltb max_dns_searches (length searches)
    then err (errorf "DNSOption.Searches has more than 6 domains" [])
    else ok (
        line "search" " " searches
        +s+ line "nameserver" "\nnameserver " servers
        +s+ line "options" " " options)
