-- ===== src/Http2/Frame/Settings.antt =====
-- The settings in the payload of a SETTINGS frame, internal/http2/frame.go: six bytes each.
use req.Base.{
  ℕ, zero, suc, ◌+◌, ◌-◌, ◌*◌, ◌/◌, ◌^◌, Bool, false, ◌||◌, ◌==◌, ltb, Option, none, some,
  if◌then◌else◌, List, [], ◌∷◌, length, drop,
}
use req.Base.Bytes.{Bytes, uint16, uint32}
use req.Http2.Errors.{Error}
use req.Http2.Frame.{Setting}

-- `Setting` and `NumSettings`
unfoldable pub setting : Bytes → ℕ → Setting
setting p i = record { id = uint16 (drop (i * 6) p); val = uint32 (drop (i * 6 + 2) p) }

unfoldable pub num_settings : Bytes → ℕ
num_settings p = length p / 6

-- The loop of `Value`, with `n` rounds left from index `i`.
unfoldable pub value_loop : Bytes → ℕ → ℕ → ℕ → Option ℕ
unfolding setting
value_loop p id i zero = none
value_loop p id i (suc n) =
    let s = setting p i in
    let rest = value_loop p id (i + 1) n in if s.id == id then some s.val else rest

unfoldable pub value : Bytes → ℕ → Option ℕ
unfolding value_loop num_settings
value p id = value_loop p id 0 (num_settings p)

-- Whether `Value` finds a window size above 2^31 - 1.
unfoldable pub window_too_big : Option ℕ → Bool
window_too_big none = false
window_too_big (some v) = ltb (2 ^ 31 - 1) v

-- The loop of `ForeachSetting`, with `n` rounds left from index `i`. What `fn` changes is `S`.
unfoldable pub foreach_loop {ℓ} :
    {S : Type ℓ} → Bytes → (Setting → S → Option Error × S) → ℕ → ℕ → S → Option Error × S
unfolding setting
foreach_loop p fn i zero s = (none, s)
foreach_loop p fn i (suc n) s =
    let (e, s') = fn (setting p i) s in
    elim e [ none ↦ foreach_loop p fn (i + 1) n s' | some x ↦ (some x, s') ]

unfoldable pub foreach_setting {ℓ} :
    {S : Type ℓ} → Bytes → (Setting → S → Option Error × S) → S → Option Error × S
unfolding foreach_loop num_settings
foreach_setting p fn s = foreach_loop p fn 0 (num_settings p) s

-- The inner loop of `HasDuplicates`: whether `id` stands at one of `n` indices from `j`.
unfoldable pub id_from : Bytes → ℕ → ℕ → ℕ → Bool
unfolding setting
id_from p id j zero = false
id_from p id j (suc n) = id == (setting p j).id || id_from p id (j + 1) n

-- The two loops over pairs of indices, for fewer than ten settings.
unfoldable pub duplicates_by_pairs : Bytes → ℕ → ℕ → Bool
unfolding id_from
duplicates_by_pairs p i zero = false
duplicates_by_pairs p i (suc n) =
    id_from p (setting p i).id (i + 1) n || duplicates_by_pairs p (i + 1) n

-- The keys of the map `seen`.
unfoldable pub is_seen : List ℕ → ℕ → Bool
is_seen [] id = false
is_seen (k ∷ seen) id = id == k || is_seen seen id

-- One loop with the map of identifiers seen so far.
unfoldable pub duplicates_by_map : Bytes → List ℕ → ℕ → ℕ → Bool
unfolding is_seen setting
duplicates_by_map p seen i zero = false
duplicates_by_map p seen i (suc n) =
    let id = (setting p i).id in is_seen seen id || duplicates_by_map p (id ∷ seen) (i + 1) n

unfoldable pub has_duplicates : Bytes → Bool
unfolding duplicates_by_pairs duplicates_by_map num_settings
has_duplicates p =
    let num = num_settings p in
    if num == 0
    then false
    else if ltb num 10
    then duplicates_by_pairs p 0 num
    else duplicates_by_map p [] 0 num
