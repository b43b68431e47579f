-- ===== src/Sandboxes/Dns/Text.antt =====
-- The text of a DNS configuration, `parseDNSOptions` of pkg/server/sandbox_run.go.
use Prim.Native.String.append
use text.Mathlib.TextEquality.{eq_iff}
use cri_containerd.Base.{
  ltb→lt, errorf, String, ◌≡◌, ◌≢◌, ◌↔◌, ◌<◌, refl, List, [], ◌∷◌, ok, err, Error, arith, length,
  ltb, Bool-cases, inl, inr,
}
use cri_containerd.Base.Text.{cons_not_empty, ◌+s+◌}
use cri_containerd.Sandboxes.Dns.{line, parse_dns_options, max_dns_searches}

append_empty : (s t : String) → s +s+ t ≡ "" → (s ≡ "") × (t ≡ "")
append_empty String.[] t e = (refl, rw append.nil at e)
append_empty (String.◌∷◌ c s) t e = absurd (cons_not_empty c (s +s+ t) (rw append.cons at e))

line_empty : (key sep : String) (xs : List String) → key ≢ "" → line key sep xs ≡ "" → xs ≡ []
unfolding line
line_empty key sep [] given e = refl
line_empty key sep (x ∷ xs) given e = absurd (given (append_empty key _ e).0)

empty_lines : (a b c : String) → a +s+ b +s+ c ≡ "" → (a ≡ "") × (b ≡ "") × (c ≡ "")
empty_lines a b c e =
    let (x, rest) = append_empty a (b +s+ c) e in let (y, z) = append_empty b c rest in (x, y, z)

all_empty :
    (servers searches options : List String)
    → (servers ≡ []) × (searches ≡ []) × (options ≡ [])
    → parse_dns_options servers searches options ≡ ok ""
unfolding parse_dns_options line
all_empty servers searches options (a, b, c) = rw (a, b, c, parse_dns_options, line) refl

-- An error is returned exactly for more than six search domains. Otherwise the text is empty, so that
-- the file of the host is used, exactly when there are no servers, no searches and no options.
pub parse_dns_options_lem :
    (servers searches options : List String)
    → (((e : Error) × (parse_dns_options servers searches options ≡ err e)) ↔ (6 < length searches))
      × ((parse_dns_options servers searches options ≡ ok "")
          ↔ ((servers ≡ []) × (searches ≡ []) × (options ≡ [])))
unfolding parse_dns_options
parse_dns_options_lem servers searches options =
    elim (Bool-cases (ltb max_dns_searches (length searches))) [
      | inl many ↦ (
        (
          λ h. omega (arith, ltb→lt 6 (length searches) many),
          λ h. (
            errorf "DNSOption.Searches has more than 6 domains" [],
            rw (many, parse_dns_options) refl,
          ),
        ),
        (λ h. ground (arith, many, h), λ h. ground (arith, many, h)),
      )
      | inr few ↦ (
        (λ h. ground (arith, few, h), λ h. ground (arith, few, h)),
        (
          λ h.
              let (a, b, c) =
                empty_lines (line "search" " " searches) (line "nameserver" "\nnameserver " servers)
                  (line "options" " " options) (ground (arith, few, h)) in
              (
                line_empty "nameserver" "\nnameserver " servers
                    (λ e. ground (arith, e, eq_iff "nameserver" "")) b,
                line_empty "search" " " searches (λ e. ground (arith, e, eq_iff "search" "")) a,
                line_empty "options" " " options (λ e. ground (arith, e, eq_iff "options" "")) c,
              ),
          λ h. all_empty servers searches options h,
        ),
      )
    ]
