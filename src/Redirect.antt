-- ===== src/Redirect.antt =====
-- redirect.go: the redirect policies, and SetRedirectPolicy of client.go that joins them. A host is
-- in ASCII. Of a request there are the host of its URL and its header, a map from a canonical name to values.
pub mod Host
pub mod Fields
pub mod Followed
pub mod Sensitive
pub mod Ports
mod Examples
use req.Base.{ℕ, Bool, true, false, not, leb, if◌then◌else◌, List, [], ◌∷◌, ◌++◌, map, length}
use req.Base.Bytes.{Bytes, equal_names}
use req.Redirect.Host.{lower, get_hostname, get_domain}
use req.Redirect.Fields.{Header, values, add, del}

pub record Request : Type 0 where
  pub host : Bytes
  pub header : Header

-- The policies, by the functions that make them.
pub data RedirectPolicy : Type 0 where
  max_redirect : ℕ → RedirectPolicy
  no_redirect same_domain same_host : RedirectPolicy
  allowed_host allowed_domain always_copy_header sensitive_headers : List Bytes → RedirectPolicy

-- What a policy, or all of them, answer: no error, with the request as it is then; the error
-- ErrUseLastResponse or another one; or a panic.
pub data Answer : Type 0 where
  follow : Request → Answer
  use_last refuse panics : Answer

-- `DefaultRedirectPolicy`
abbrev pub default_redirect : RedirectPolicy
default_redirect = max_redirect 10

-- `_, ok := m[h]` for the map of these keys.
unfoldable pub has_key : Bytes → List Bytes → Bool
has_key h [] = false
has_key h (k ∷ ks) = if equal_names k h then true else has_key h ks

-- The loops over the values of a header, and over the headers to copy and to delete.
unfoldable pub add_values : Bytes → List Bytes → Header → Header
unfolding add
add_values name [] h = h
add_values name (v ∷ vs) h = add_values name vs (add name v h)

unfoldable pub copy_header : Bytes → Header → Header → Header
unfolding add_values values
copy_header name from h = elim (values name h) [
  | [] ↦ add_values name (values name from) h
  | v ∷ vs ↦ h
]

unfoldable pub copy_headers : List Bytes → Header → Header → Header
unfolding copy_header
copy_headers [] from h = h
copy_headers (name ∷ names) from h = copy_headers names from (copy_header name from h)

unfoldable pub del_headers : List Bytes → Header → Header
unfolding del
del_headers [] h = h
del_headers (name ∷ names) h = del_headers names (del name h)

abbrev pub unless : Bool → Request → Answer
unless true req = refuse
unless false req = follow req

-- A policy on a request, after the first request.
unfoldable pub apply_first : RedirectPolicy → Request → Request → ℕ → Answer
unfolding has_key get_hostname get_domain copy_headers del_headers
apply_first (max_redirect n) req first via = unless (leb n via) req
apply_first no_redirect req first via = use_last
apply_first same_domain req first via =
    unless (not (equal_names (get_domain req.host) (get_domain first.host))) req
apply_first same_host req first via =
    unless (not (equal_names (get_hostname req.host) (get_hostname first.host))) req
apply_first (allowed_host hosts) req first via =
    unless (not (has_key (get_hostname req.host) (map (λ h. lower (get_hostname h)) hosts))) req
apply_first (allowed_domain hosts) req first via =
    unless (not (has_key (get_domain req.host) (map (λ h. lower (get_domain h)) hosts))) req
apply_first (always_copy_header names) req first via =
    follow (record req { header = copy_headers names first.header req.header })
apply_first (sensitive_headers names) req first via =
    if equal_names (get_domain req.host) (get_domain first.host)
    then follow req
    else follow (record req { header = del_headers names req.header })

-- Without a request before, `via[0]` panics where it is needed.
unfoldable pub apply_none : RedirectPolicy → Request → Answer
unfolding has_key get_hostname get_domain
apply_none (max_redirect n) req = unless (leb n 0) req
apply_none no_redirect req = use_last
apply_none (allowed_host hosts) req =
    unless (not (has_key (get_hostname req.host) (map (λ h. lower (get_hostname h)) hosts))) req
apply_none (allowed_domain hosts) req =
    unless (not (has_key (get_domain req.host) (map (λ h. lower (get_domain h)) hosts))) req
apply_none (sensitive_headers names) req = follow req
apply_none (always_copy_header []) req = follow req
apply_none _ req = panics

unfoldable pub apply : RedirectPolicy → Request → List Request → Answer
unfolding apply_first apply_none
apply p req [] = apply_none p req
apply p req (first ∷ via) = apply_first p req first (length (first ∷ via))

abbrev pub on_follow : Answer → (Request → Answer) → Answer
on_follow (follow req) next = next req
on_follow use_last next = use_last
on_follow refuse next = refuse
on_follow panics next = panics

-- The CheckRedirect of `SetRedirectPolicy`.
unfoldable pub check_redirect : List RedirectPolicy → Request → List Request → Answer
unfolding apply
check_redirect [] req via = follow req
check_redirect (p ∷ ps) req via = on_follow (apply p req via) (λ r. check_redirect ps r via)
