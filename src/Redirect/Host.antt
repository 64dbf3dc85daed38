-- ===== src/Redirect/Host.antt =====
-- redirect.go: getHostname and getDomain, with the functions of net and strings that they call.
use req.Base.{
  ℕ, suc, ◌+◌, Bool, false, not, ◌&&◌, ◌||◌, ◌==◌, leb, Option, none, some, if◌then◌else◌, List, [],
  ◌∷◌, ◌++◌, take, drop,
}
use req.Base.Bytes.{Bytes}

-- `strings.ToLower` on ASCII.
unfoldable pub lower : Bytes → Bytes
lower [] = []
lower (b ∷ s) = (if leb 65 b && leb b 90 then b + 32 else b) ∷ lower s

unfoldable pub has : ℕ → Bytes → Bool
has c [] = false
has c (b ∷ s) = b == c || has c s

-- The first and the last index of a byte.
unfoldable pub index : ℕ → Bytes → Option ℕ
index c [] = none
index c (b ∷ s) =
    if b == c then some 0 else elim (index c s) [ none ↦ none | some i ↦ some (suc i) ]

unfoldable pub last_index : ℕ → Bytes → Option ℕ
last_index c [] = none
last_index c (b ∷ s) = elim (last_index c s) [
  | some i ↦ some (suc i)
  | none ↦ if b == c then some 0 else none
]

-- The host of `net.SplitHostPort` before its last colon, without brackets; `none` is an error.
unfoldable pub plain_host : Bytes → ℕ → Option Bytes
unfolding has
plain_host s i = if has 58 (take i s) || has 91 s || has 93 s then none else some (take i s)

unfoldable pub bracket_host : Bytes → ℕ → Option ℕ → Option Bytes
unfolding has
bracket_host s i none = none
bracket_host s i (some end) =
    if not (suc end == i) || has 91 (drop 1 s) || has 93 (drop (suc end) s)
    then none
    else some (drop 1 (take end s))

-- The host of `net.SplitHostPort`, with the last colon.
unfoldable pub host_at : Option ℕ → Bytes → Option Bytes
unfolding plain_host bracket_host index
host_at none s = none
host_at (some i) [] = none
host_at (some i) (b ∷ s) =
    if b == 91 then bracket_host (b ∷ s) i (index 93 (b ∷ s)) else plain_host (b ∷ s) i

unfoldable pub split_host : Bytes → Option Bytes
unfolding host_at last_index
split_host s = host_at (last_index 58 s) s

-- `strings.Index(host, ":") > 0`
abbrev pub has_colon : Bytes → Bool
has_colon [] = false
has_colon (b ∷ s) = not (b == 58) && has 58 s

-- The variable `host` of a call of SplitHostPort that fails is empty.
abbrev pub or_empty : Option Bytes → Bytes
or_empty none = []
or_empty (some h) = h

-- `getHostname`
unfoldable pub get_hostname : Bytes → Bytes
unfolding lower split_host
get_hostname host = lower (if has_colon host then or_empty (split_host host) else host)

-- `strings.Split` at dots, and `strings.Join` with dots.
abbrev push : ℕ → List Bytes → List Bytes
push b [] = (b ∷ []) ∷ []
push b (s ∷ ss) = (b ∷ s) ∷ ss

unfoldable pub split_dots : Bytes → List Bytes
split_dots [] = [] ∷ []
split_dots (b ∷ s) = if b == 46 then [] ∷ split_dots s else push b (split_dots s)

unfoldable pub join_dots : List Bytes → Bytes
join_dots [] = []
join_dots (s ∷ []) = s
join_dots (s ∷ t ∷ ss) = s ++ 46 ∷ join_dots (t ∷ ss)

unfoldable pub domain_of : Bytes → List Bytes → Bytes
unfolding join_dots
domain_of host (a ∷ b ∷ c ∷ ss) = join_dots (b ∷ c ∷ ss)
domain_of host ss = host

-- `getDomain`
unfoldable pub get_domain : Bytes → Bytes
unfolding get_hostname domain_of split_dots
get_domain host = domain_of (get_hostname host) (split_dots (get_hostname host))
