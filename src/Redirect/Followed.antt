-- ===== src/Redirect/Followed.antt =====
-- client.go: the chains of redirects that SetRedirectPolicy lets a client follow.
use req.Base.{
  ℕ, ◌+◌, ◌<◌, ◌≡◌, refl, ap, sym, ◌∙◌, subst, Bool, true, false, not, Bool-cases, leb, inl, inr,
  List, [], ◌∷◌, ◌++◌, map, length, All, arith, suc,
}
use req.Base.Bytes.{Bytes, equal_names, equal_names→eq}
use req.Redirect.Host.{lower, get_hostname, get_domain}
use req.Redirect.{
  Request, RedirectPolicy, max_redirect, no_redirect, same_domain, same_host, allowed_host,
  allowed_domain, always_copy_header, sensitive_headers, Answer, follow, use_last, refuse, panics,
  has_key, apply_first, apply, unless, on_follow, check_redirect,
}
use req.Base.{◌⊎◌}

-- The redirects followed behind a first request: each is a request that the policies let pass.
pub data Followed (ps : List RedirectPolicy) (first : Request) : List Request → Type 0 where
  start : Followed ps first []
  next :
      {rs : List Request} (req r : Request)
      → Followed ps first rs
      → check_redirect ps req (first ∷ rs) ≡ follow r
      → Followed ps first (rs ++ r ∷ [])

-- What a policy asks of the host of a request that is followed, behind so many others.
abbrev Allows : RedirectPolicy → Request → ℕ → Bytes → Type 0
Allows (max_redirect n) first i host = i < n
Allows no_redirect first i host = ⊥
Allows same_domain first i host = get_domain host ≡ get_domain first.host
Allows same_host first i host = get_hostname host ≡ get_hostname first.host
Allows (allowed_host hosts) first i host =
    has_key (get_hostname host) (map (λ h. lower (get_hostname h)) hosts) ≡ true
Allows (allowed_domain hosts) first i host =
    has_key (get_domain host) (map (λ h. lower (get_domain h)) hosts) ≡ true
Allows (always_copy_header names) first i host = Unit
Allows (sensitive_headers names) first i host = Unit

-- Every policy, for each request of a chain that starts behind so many others.
abbrev AllAllow : List RedirectPolicy → Request → ℕ → List Request → Type 0
AllAllow ps first i [] = Unit
AllAllow ps first i (r ∷ rs) = All (λ p. Allows p first i r.host) ps × AllAllow ps first (suc i) rs

abbrev host_of : Answer → Bytes
host_of (follow r) = r.host
host_of _ = []

on_follow_lem :
    (x : Answer) (f : Request → Answer) (r : Request)
    → on_follow x f ≡ follow r
    → (q : Request) × (x ≡ follow q) × (f q ≡ follow r)
on_follow_lem (follow q) f r h = (q, refl, h)
on_follow_lem use_last f r h = cc h
on_follow_lem refuse f r h = cc h
on_follow_lem panics f r h = cc h

unless_lem : (b : Bool) (req r : Request) → unless b req ≡ follow r → (req ≡ r) × (b ≡ false)
unless_lem true req r h = cc h
unless_lem false req r h = (cc h, refl)

not-false : (b : Bool) → not b ≡ false → b ≡ true
not-false true h = refl
not-false false h = cc h

apply_first-Allows :
    (p : RedirectPolicy) (req first r : Request) (i : ℕ)
    → apply_first p req first i ≡ follow r
    → (r.host ≡ req.host) × Allows p first i req.host
unfolding apply_first
apply_first-Allows (max_redirect n) req first r i h =
    let (e, below) = unless_lem (leb n i) req r h in
    (ap (λ q. q.host) (sym e), ground (arith, below))
apply_first-Allows no_redirect req first r i h = cc h
apply_first-Allows same_domain req first r i h =
    let same = equal_names (get_domain req.host) (get_domain first.host) in
    let (e, is) = unless_lem (not same) req r h in
    (
      ap (λ q. q.host) (sym e),
      equal_names→eq (get_domain req.host) (get_domain first.host) (not-false same is),
    )
apply_first-Allows same_host req first r i h =
    let same = equal_names (get_hostname req.host) (get_hostname first.host) in
    let (e, is) = unless_lem (not same) req r h in
    (
      ap (λ q. q.host) (sym e),
      equal_names→eq (get_hostname req.host) (get_hostname first.host) (not-false same is),
    )
apply_first-Allows (allowed_host hosts) req first r i h =
    let there = has_key (get_hostname req.host) (map (λ x. lower (get_hostname x)) hosts) in
    let (e, is) = unless_lem (not there) req r h in (ap (λ q. q.host) (sym e), not-false there is)
apply_first-Allows (allowed_domain hosts) req first r i h =
    let there = has_key (get_domain req.host) (map (λ x. lower (get_domain x)) hosts) in
    let (e, is) = unless_lem (not there) req r h in (ap (λ q. q.host) (sym e), not-false there is)
apply_first-Allows (always_copy_header names) req first r i h = (ap host_of (sym h), tt)
apply_first-Allows (sensitive_headers names) req first r i h =
    elim (Bool-cases (equal_names (get_domain req.host) (get_domain first.host))) [
      | inl e ↦ (ap host_of (sym (rw e at h)), tt)
      | inr e ↦ (ap host_of (sym (rw e at h)), tt)
    ]

check_redirect-Allows :
    (ps : List RedirectPolicy) (req first r : Request) (rs : List Request)
    → check_redirect ps req (first ∷ rs) ≡ follow r
    → (r.host ≡ req.host) × All (λ p. Allows p first (suc (length rs)) req.host) ps
unfolding check_redirect apply
check_redirect-Allows [] req first r rs h = (ap host_of (sym h), tt)
check_redirect-Allows (p ∷ ps) req first r rs h =
    let i = suc (length rs) in
    let (q, e, rest) =
      on_follow_lem (apply_first p req first i) (λ x. check_redirect ps x (first ∷ rs)) r h in
    let (same, here) = apply_first-Allows p req first q i e in
    let (same', others) = check_redirect-Allows ps q first r rs rest in
    (same' ∙ same, (here, subst (λ x. All (λ o. Allows o first i x) ps) same others))

AllAllow-append :
    (ps : List RedirectPolicy) (first : Request) (i : ℕ) (rs : List Request) (r : Request)
    → AllAllow ps first i rs
    → All (λ p. Allows p first (i + length rs) r.host) ps
    → AllAllow ps first i (rs ++ r ∷ [])
AllAllow-append ps first i [] r h here =
    let e : i + 0 ≡ i = omega arith in
    (subst (λ j. All (λ p. Allows p first j r.host) ps) e here, tt)
AllAllow-append ps first i (q ∷ rs) r h here =
    let e : i + suc (length rs) ≡ suc i + length rs = omega arith in
    (
      h.0,
      AllAllow-append ps first (suc i) rs r h.1
          (subst (λ j. All (λ p. Allows p first j r.host) ps) e here),
    )

Followed-AllAllow :
    (ps : List RedirectPolicy) (first : Request) (rs : List Request)
    → Followed ps first rs
    → AllAllow ps first 1 rs
Followed-AllAllow ps first [] start = tt
Followed-AllAllow ps first _ (next {rs = rs} req r before h) =
    let (same, here) = check_redirect-Allows ps req first r rs h in
    let e : suc (length rs) ≡ 1 + length rs = omega arith in
    let allows : All (λ p. Allows p first (suc (length rs)) r.host) ps =
      subst (λ x. All (λ p. Allows p first (suc (length rs)) x) ps) (sym same) here in
    AllAllow-append ps first 1 rs r (Followed-AllAllow ps first rs before)
      (subst (λ j. All (λ p. Allows p first j r.host) ps) e allows)

-- One of a list of names.
abbrev pub IsOneOf : Bytes → List Bytes → Type 0
IsOneOf x [] = ⊥
IsOneOf x (y ∷ ys) = (x ≡ y) ⊎ IsOneOf x ys

-- What a policy promises of a chain of redirects behind the first request.
abbrev pub Keeps : RedirectPolicy → Request → List Request → Type 0
Keeps (max_redirect n) first rs = (rs ≡ []) ⊎ (length rs < n)
Keeps no_redirect first rs = rs ≡ []
Keeps same_domain first rs = All (λ r. get_domain r.host ≡ get_domain first.host) rs
Keeps same_host first rs = All (λ r. get_hostname r.host ≡ get_hostname first.host) rs
Keeps (allowed_host hosts) first rs =
    All (λ r. IsOneOf (get_hostname r.host) (map (λ h. lower (get_hostname h)) hosts)) rs
Keeps (allowed_domain hosts) first rs =
    All (λ r. IsOneOf (get_domain r.host) (map (λ h. lower (get_domain h)) hosts)) rs
Keeps (always_copy_header names) first rs = Unit
Keeps (sensitive_headers names) first rs = Unit

has_key-IsOneOf : (h : Bytes) (ks : List Bytes) → has_key h ks ≡ true → IsOneOf h ks
unfolding has_key
has_key-IsOneOf h [] e = cc e
has_key-IsOneOf h (k ∷ ks) e = elim (Bool-cases (equal_names k h)) [
  | inl same ↦ inl (sym (equal_names→eq k h same))
  | inr other ↦ inr (has_key-IsOneOf h ks (rw other at e))
]

-- What one policy allows along a chain.
abbrev Along : RedirectPolicy → Request → ℕ → List Request → Type 0
Along p first i [] = Unit
Along p first i (r ∷ rs) = Allows p first i r.host × Along p first (suc i) rs

Along-of :
    (p : RedirectPolicy) (ps : List RedirectPolicy) (first : Request) (i : ℕ) (rs : List Request)
    → AllAllow (p ∷ ps) first i rs
    → Along p first i rs × AllAllow ps first i rs
Along-of p ps first i [] h = (tt, tt)
Along-of p ps first i (r ∷ rs) h =
    let (here, others) = Along-of p ps first (suc i) rs h.1 in ((h.0.0, here), (h.0.1, others))

All-Along :
    (p : RedirectPolicy) (first : Request) (P : Request → Type 0) (i : ℕ) (rs : List Request)
    → ((i : ℕ) (r : Request) → Allows p first i r.host → P r)
    → Along p first i rs
    → All P rs
All-Along p first P i [] f h = tt
All-Along p first P i (r ∷ rs) f h = (f i r h.0, All-Along p first P (suc i) rs f h.1)

within_limit :
    (n : ℕ) (first : Request) (i : ℕ) (r : Request) (rs : List Request)
    → Along (max_redirect n) first i (r ∷ rs)
    → i + length rs < n
within_limit n first i r [] h = omega (arith, h.0)
within_limit n first i r (q ∷ rs) h = omega (arith, within_limit n first (suc i) q rs h.1)

Along-Keeps :
    (p : RedirectPolicy) (first : Request) (rs : List Request)
    → Along p first 1 rs
    → Keeps p first rs
Along-Keeps (max_redirect n) first [] h = inl refl
Along-Keeps (max_redirect n) first (r ∷ rs) h = inr (omega (arith, within_limit n first 1 r rs h))
Along-Keeps no_redirect first [] h = refl
Along-Keeps no_redirect first (r ∷ rs) h = absurd h.0
Along-Keeps same_domain first rs h =
    All-Along same_domain first (λ r. get_domain r.host ≡ get_domain first.host) 1 rs (λ i r e. e) h
Along-Keeps same_host first rs h =
    All-Along same_host first (λ r. get_hostname r.host ≡ get_hostname first.host) 1 rs (λ i r e. e)
      h
Along-Keeps (allowed_host hosts) first rs h =
    let names = map (λ x. lower (get_hostname x)) hosts in
    All-Along (allowed_host hosts) first (λ r. IsOneOf (get_hostname r.host) names) 1 rs
      (λ i r e. has_key-IsOneOf (get_hostname r.host) names e) h
Along-Keeps (allowed_domain hosts) first rs h =
    let names = map (λ x. lower (get_domain x)) hosts in
    All-Along (allowed_domain hosts) first (λ r. IsOneOf (get_domain r.host) names) 1 rs
      (λ i r e. has_key-IsOneOf (get_domain r.host) names e) h
Along-Keeps (always_copy_header names) first rs h = tt
Along-Keeps (sensitive_headers names) first rs h = tt

each-Keeps :
    (ps : List RedirectPolicy) (first : Request) (rs : List Request)
    → AllAllow ps first 1 rs
    → All (λ p. Keeps p first rs) ps
each-Keeps [] first rs h = tt
each-Keeps (p ∷ ps) first rs h =
    let (here, others) = Along-of p ps first 1 rs h in
    (Along-Keeps p first rs here, each-Keeps ps first rs others)

-- However many redirects a client follows under SetRedirectPolicy with any list of the policies of
-- redirect.go, the chain keeps to every policy of the list: with MaxRedirectPolicy(n) it has at
-- most n - 1 redirects, with NoRedirectPolicy none; the domains or host names of all requests
-- followed are that of the first request, or equal one of the allowed ones in lower case.
pub Followed-Keeps :
    (ps : List RedirectPolicy) (first : Request) (rs : List Request)
    → Followed ps first rs
    → All (λ p. Keeps p first rs) ps
Followed-Keeps ps first rs h = each-Keeps ps first rs (Followed-AllAllow ps first rs h)
