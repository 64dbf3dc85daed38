-- ===== src/Redirect/Ports.antt =====
-- redirect.go: the host name and the domain of a host with a port.
use req.Base.{
  ℕ, suc, ◌==◌, ◌≡◌, refl, ap, sym, ◌∙◌, Bool, true, false, ◌||◌, none, some, [], ◌∷◌, ◌++◌, length,
  drop, take-append, arith, ==_refl, append_assoc, length-append,
}
use req.Base.Bytes.{Bytes}
use req.Redirect.Host.{
  lower, has, index, last_index, plain_host, bracket_host, host_at, split_host, get_hostname,
  get_domain, domain_of, split_dots,
}

-- Without the given byte.
or_left : (a b : Bool) → (a || b) ≡ false → (a ≡ false) × (b ≡ false)
or_left true b h = cc h
or_left false b h = (refl, h)

or_true : (a : Bool) → (a || true) ≡ true
or_true true = refl
or_true false = refl

drop-append-one : (s : Bytes) (c : ℕ) (t : Bytes) → drop (suc (length s)) (s ++ c ∷ t) ≡ t
drop-append-one [] c t = refl
drop-append-one (b ∷ s) c t = drop-append-one s c t

has-append : (c : ℕ) (s t : Bytes) → has c s ≡ false → has c t ≡ false → has c (s ++ t) ≡ false
unfolding has
has-append c [] t hs ht = ht
has-append c (b ∷ s) t hs ht =
    let (e, rest) = or_left (b == c) (has c s) hs in rw e (has-append c s t rest ht)

last_index-none : (c : ℕ) (s : Bytes) → has c s ≡ false → last_index c s ≡ none
unfolding has last_index
last_index-none c [] h = refl
last_index-none c (b ∷ s) h =
    let (e, rest) = or_left (b == c) (has c s) h in rw (last_index-none c s rest, e) refl

last_index-append :
    (c : ℕ) (s t : Bytes) → has c t ≡ false → last_index c (s ++ c ∷ t) ≡ some (length s)
unfolding last_index
last_index-append c [] t h = rw (last_index-none c t h, ==_refl c) refl
last_index-append c (b ∷ s) t h = rw (last_index-append c s t h) refl

index-append : (c : ℕ) (s t : Bytes) → has c s ≡ false → index c (s ++ c ∷ t) ≡ some (length s)
unfolding has index
index-append c [] t h = rw (==_refl c) refl
index-append c (b ∷ s) t h =
    let (e, rest) = or_left (b == c) (has c s) h in rw (e, index-append c s t rest) refl

-- A name or a port: no colon and no bracket.
pub record IsPlain (s : Bytes) : Type 0 where
  pub no_colon : has 58 s ≡ false
  pub no_open : has 91 s ≡ false
  pub no_close : has 93 s ≡ false

has-there : (c : ℕ) (s t : Bytes) → has c (s ++ c ∷ t) ≡ true
unfolding has
has-there c [] t = rw (==_refl c) refl
has-there c (b ∷ s) t = rw (has-there c s t) (or_true (b == c))

plain_host_lem :
    (h port : Bytes) → IsPlain h → IsPlain port → plain_host (h ++ 58 ∷ port) (length h) ≡ some h
unfolding plain_host has
plain_host_lem h port name plain =
    rw
      (
        take-append (length h) h (58 ∷ port) refl,
        name.no_colon,
        has-append 91 h (58 ∷ port) name.no_open plain.no_open,
        has-append 93 h (58 ∷ port) name.no_close plain.no_close,
      )
      refl

host_at-plain :
    (i b : ℕ) (s : Bytes) → (b == 91) ≡ false → host_at (some i) (b ∷ s) ≡ plain_host (b ∷ s) i
unfolding host_at
host_at-plain i b s e = rw e refl

open_differs : (b : ℕ) (h : Bytes) → has 91 (b ∷ h) ≡ false → (b == 91) ≡ false
unfolding has
open_differs b h e = (or_left (b == 91) (has 91 h) e).0

split_host-plain :
    (b : ℕ) (h port : Bytes)
    → IsPlain (b ∷ h)
    → IsPlain port
    → split_host ((b ∷ h) ++ 58 ∷ port) ≡ some (b ∷ h)
unfolding split_host
split_host-plain b h port name plain =
    ap (λ o. host_at o ((b ∷ h) ++ 58 ∷ port)) (last_index-append 58 (b ∷ h) port plain.no_colon)
    ∙ host_at-plain (length (b ∷ h)) b (h ++ 58 ∷ port) (open_differs b h name.no_open)
    ∙ plain_host_lem (b ∷ h) port name plain

bracket_host_lem :
    (h port : Bytes)
    → has 91 h ≡ false
    → IsPlain port
    → bracket_host (91 ∷ (h ++ 93 ∷ 58 ∷ port)) (suc (suc (length h))) (some (suc (length h)))
      ≡ some h
unfolding bracket_host has
bracket_host_lem h port no_open plain =
    rw
      (
        ==_refl (suc (suc (length h))),
        has-append 91 h (93 ∷ 58 ∷ port) no_open plain.no_open,
        drop-append-one h 93 (58 ∷ port),
        plain.no_close,
        take-append (length h) h (93 ∷ 58 ∷ port) refl,
      )
      refl

split_host-bracket :
    (h port : Bytes)
    → has 91 h ≡ false
    → has 93 h ≡ false
    → IsPlain port
    → split_host (91 ∷ (h ++ 93 ∷ 58 ∷ port)) ≡ some h
unfolding split_host host_at
split_host-bracket h port no_open no_close plain =
    let colon : last_index 58 (91 ∷ (h ++ 93 ∷ 58 ∷ port)) ≡ some (suc (suc (length h))) =
      ap (last_index 58) (ap (λ x. 91 ∷ x) (sym (append_assoc h (93 ∷ []) (58 ∷ port))))
      ∙ last_index-append 58 (91 ∷ (h ++ 93 ∷ [])) port plain.no_colon
      ∙ ap (λ n. some (suc n)) (omega (arith, length-append h (93 ∷ []))) in
    let close : index 93 (91 ∷ (h ++ 93 ∷ 58 ∷ port)) ≡ some (suc (length h)) =
      index-append 93 (91 ∷ h) (58 ∷ port) no_close in
    rw (colon, close) (bracket_host_lem h port no_open plain)

-- For a name that is not empty and, like the port, has no colon and no bracket, getHostname is the
-- name in lower case with and without the port, and getDomain the same for both; for an address
-- without brackets, put in brackets in front of the port, getHostname is the address in lower case.
pub get_hostname-lower :
    (b : ℕ) (h address port : Bytes)
    → IsPlain (b ∷ h)
    → has 91 address ≡ false
    → has 93 address ≡ false
    → IsPlain port
    → (get_hostname ((b ∷ h) ++ 58 ∷ port) ≡ lower (b ∷ h))
      × (get_hostname (b ∷ h) ≡ lower (b ∷ h))
      × (get_hostname (91 ∷ (address ++ 93 ∷ 58 ∷ port)) ≡ lower address)
      × (get_domain ((b ∷ h) ++ 58 ∷ port) ≡ get_domain (b ∷ h))
unfolding get_hostname get_domain has
get_hostname-lower b h address port name no_open no_close plain =
    let (not_colon, none_behind) = or_left (b == 58) (has 58 h) name.no_colon in
    let there = has-there 58 h port in
    let in_address : has 58 (address ++ 93 ∷ 58 ∷ port) ≡ true =
      ap (has 58) (sym (append_assoc address (93 ∷ []) (58 ∷ port)))
      ∙ has-there 58 (address ++ 93 ∷ []) port in
    let with_port : get_hostname ((b ∷ h) ++ 58 ∷ port) ≡ lower (b ∷ h) =
      rw (not_colon, there, split_host-plain b h port name plain) refl in
    let without : get_hostname (b ∷ h) ≡ lower (b ∷ h) = rw (not_colon, none_behind) refl in
    (
      with_port,
      without,
      rw (in_address, split_host-bracket address port no_open no_close plain) refl,
      ap (λ x. domain_of x (split_dots x)) (with_port ∙ sym without),
    )
