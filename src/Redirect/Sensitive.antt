-- ===== src/Redirect/Sensitive.antt =====
-- redirect.go: what SensitiveHeadersRedirectPolicy and AlwaysCopyHeaderRedirectPolicy do to a header.
use req.Base.{◌≡◌, ◌≢◌, refl, Bool-cases, ◌⊎◌, inl, inr, List, [], ◌∷◌, All}
use req.Base.Bytes.{Bytes, equal_names, equal_names→eq, equal_names_refl, names_differ}
use req.Redirect.Host.{get_domain}
use req.Redirect.Fields.{Header, canonical, values, del}
use req.Redirect.{Request, sensitive_headers, follow, apply_first, apply, del_headers}

-- A key is the canonical name of one of these.
abbrev pub IsNamed : Bytes → List Bytes → Type 0
IsNamed key [] = ⊥
IsNamed key (n ∷ ns) = (canonical n ≡ key) ⊎ IsNamed key ns

-- Deleting names leaves no value that was not there.
gone_stays : (ns : List Bytes) (h : Header) (key : Bytes) → h key ≡ [] → del_headers ns h key ≡ []
unfolding del_headers del
gone_stays [] h key e = e
gone_stays (n ∷ ns) h key e =
    gone_stays ns (del n h) key (elim (Bool-cases (equal_names (canonical n) key)) [
      | inl same ↦ rw same refl
      | inr other ↦ rw other e
    ])

del_headers-gone : (ns : List Bytes) (h : Header) → All (λ n. values n (del_headers ns h) ≡ []) ns
unfolding del_headers del values
del_headers-gone [] h = tt
del_headers-gone (n ∷ ns) h = (
  gone_stays ns (del n h) (canonical n) (rw (equal_names_refl (canonical n)) refl),
  del_headers-gone ns (del n h),
)

del_headers-kept :
    (ns : List Bytes) (h : Header) (key : Bytes) → (del_headers ns h key ≡ h key) ⊎ IsNamed key ns
unfolding del_headers del
del_headers-kept [] h key = inl refl
del_headers-kept (n ∷ ns) h key = elim (Bool-cases (equal_names (canonical n) key)) [
  | inl same ↦ inr (inl (equal_names→eq (canonical n) key same))
  | inr other ↦ elim (del_headers-kept ns (del n h) key) [
    | inl e ↦ inl (rw other at e)
    | inr named ↦ inr (inr named)
  ]
]

-- SensitiveHeadersRedirectPolicy never stops a redirect behind a first request; in the domain of
-- the first request it changes nothing, and in another one it leaves the host, leaves no value of
-- the given headers, and leaves every other header as it was.
pub sensitive_headers-gone :
    (names : List Bytes) (req first : Request) (via : List Request)
    → (r : Request) × (apply (sensitive_headers names) req (first ∷ via) ≡ follow r)
      × (((get_domain req.host ≡ get_domain first.host) × (r ≡ req))
          ⊎ ((get_domain req.host ≢ get_domain first.host)
              × (r.host ≡ req.host)
              × All (λ n. values n r.header ≡ []) names
              × ((key : Bytes) → (r.header key ≡ req.header key) ⊎ IsNamed key names)))
unfolding apply apply_first
sensitive_headers-gone names req first via =
    elim (Bool-cases (equal_names (get_domain req.host) (get_domain first.host))) [
      | inl e ↦ (
        req,
        rw e refl,
        inl (equal_names→eq (get_domain req.host) (get_domain first.host) e, refl),
      )
      | inr e ↦ (
        record req { header = del_headers names req.header },
        rw e refl,
        inr (
          names_differ (get_domain req.host) (get_domain first.host) e,
          refl,
          del_headers-gone names req.header,
          del_headers-kept names req.header,
        ),
      )
    ]
