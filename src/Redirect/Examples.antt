-- ===== src/Redirect/Examples.antt =====
-- redirect.go: policies on concrete hosts.
use req.Base.{◌≡◌, ◌≢◌, ◌⊎◌, ◌∷◌, ◌++◌, refl, false, List, [], All}
use req.Base.Bytes.{Bytes, codes}
use req.Redirect.Host.{lower, has, get_hostname, get_domain}
use req.Redirect.Fields.{Header, values}
use req.Redirect.{
  Request, RedirectPolicy, max_redirect, same_domain, sensitive_headers, follow, apply,
  check_redirect,
}
use req.Redirect.Followed.{start, next, Keeps, Followed-Keeps}
use req.Redirect.Sensitive.{IsNamed, sensitive_headers-gone}
use req.Redirect.Ports.{IsPlain, get_hostname-lower}

abbrev one_key : Header
one_key key = codes "k" ∷ []

abbrev here : Request
here = record { host = codes "req.cool"; header = one_key }

abbrev www : Request
www = record { host = codes "WWW.req.cool:443"; header = one_key }

abbrev elsewhere : Request
elsewhere = record { host = codes "example.com"; header = one_key }

abbrev policies : List RedirectPolicy
policies = max_redirect 3 ∷ same_domain ∷ []

-- Two addresses in brackets, without ports, have one host name, and two IPv4 addresses one domain.
brackets_same : get_hostname (codes "[::1]") ≡ get_hostname (codes "[::2]")
unfolding get_hostname
brackets_same = refl

addresses_same : get_domain (codes "10.0.0.1") ≡ get_domain (codes "11.0.0.1")
unfolding get_domain
addresses_same = refl

www_allowed : check_redirect policies www (here ∷ []) ≡ follow www
unfolding check_redirect
www_allowed = refl

Followed-Keeps_example : All (λ p. Keeps p here (www ∷ [])) policies
Followed-Keeps_example = Followed-Keeps policies here (www ∷ []) (next www www start www_allowed)

sensitive_headers-gone_example :
    (r : Request) × (apply (sensitive_headers (codes "x-api-key" ∷ [])) elsewhere (here ∷ [])
      ≡ follow r)
    × (((get_domain elsewhere.host ≡ get_domain here.host) × (r ≡ elsewhere))
        ⊎ ((get_domain elsewhere.host ≢ get_domain here.host)
            × (r.host ≡ elsewhere.host)
            × All (λ n. values n r.header ≡ []) (codes "x-api-key" ∷ [])
            × ((key : Bytes)
                → (r.header key ≡ elsewhere.header key) ⊎ IsNamed key (codes "x-api-key" ∷ []))))
sensitive_headers-gone_example = sensitive_headers-gone (codes "x-api-key" ∷ []) elsewhere here []

IsPlain-name : IsPlain (codes "Req.cool")
unfolding has
IsPlain-name = record { no_colon = refl; no_open = refl; no_close = refl }

IsPlain-port : IsPlain (codes "443")
unfolding has
IsPlain-port = record { no_colon = refl; no_open = refl; no_close = refl }

no_bracket : (has 91 (codes "::1") ≡ false) × (has 93 (codes "::1") ≡ false)
unfolding has
no_bracket = (refl, refl)

get_hostname-lower_example :
    (get_hostname (codes "Req.cool" ++ 58 ∷ codes "443") ≡ lower (codes "Req.cool"))
    × (get_hostname (codes "Req.cool") ≡ lower (codes "Req.cool"))
    × (get_hostname (91 ∷ (codes "::1" ++ 93 ∷ 58 ∷ codes "443")) ≡ lower (codes "::1"))
    × (get_domain (codes "Req.cool" ++ 58 ∷ codes "443") ≡ get_domain (codes "Req.cool"))
get_hostname-lower_example =
    get_hostname-lower 82 (codes "eq.cool") (codes "::1") (codes "443") IsPlain-name no_bracket.0
      no_bracket.1 IsPlain-port
