-- ===== src/Http2/Frame/Duplicates.antt =====
-- `HasDuplicates` of internal/http2/frame.go: its two algorithms decide the same question.
use req.Base.{
  ℕ, zero, suc, ◌+◌, ◌≡◌, ◌≢◌, refl, Bool, false, ◌==◌, ltb, List, [], ◌∷◌, All, arith, ◌↔◌,
}
use req.Base.Bytes.{Bytes}
use req.Http2.Frame.{Setting}
use req.Http2.Frame.Settings.{
  setting, num_settings, id_from, duplicates_by_pairs, is_seen, duplicates_by_map, has_duplicates,
}
use req.Http2.Frame.SettingList.{settings_from, settings_of}
use req.Base.{if◌then◌else◌}

-- No later setting has the identifier of an earlier one.
abbrev pub Distinct : List Setting → Type 0
Distinct [] = Unit
Distinct (s ∷ ss) = All (λ (t : Setting). s.id ≢ t.id) ss × Distinct ss

id_from_iff :
    (p : Bytes) (id j n : ℕ)
    → (id_from p id j n ≡ false) ↔ All (λ (t : Setting). id ≢ t.id) (settings_from p j n)
unfolding id_from
id_from_iff p id j zero = (λ _. tt, λ _. refl)
id_from_iff p id j (suc n) = ground (arith, id_from_iff p id (j + 1) n)

duplicates_by_pairs_iff :
    (p : Bytes) (i n : ℕ) → (duplicates_by_pairs p i n ≡ false) ↔ Distinct (settings_from p i n)
unfolding duplicates_by_pairs
duplicates_by_pairs_iff p i zero = (λ _. tt, λ _. refl)
duplicates_by_pairs_iff p i (suc n) =
    ground (arith, id_from_iff p (setting p i).id (i + 1) n, duplicates_by_pairs_iff p (i + 1) n)

-- No setting has an identifier among those seen.
abbrev Unseen : List ℕ → List Setting → Type 0
Unseen seen = All (λ (t : Setting). is_seen seen t.id ≡ false)

Unseen-cons :
    (k : ℕ) (seen : List ℕ) (ss : List Setting)
    → Unseen (k ∷ seen) ss ↔ (All (λ (t : Setting). k ≢ t.id) ss × Unseen seen ss)
unfolding is_seen
Unseen-cons k seen [] = (λ _. (tt, tt), λ _. tt)
Unseen-cons k seen (s ∷ ss) = ground (arith, Unseen-cons k seen ss)

duplicates_by_map_iff :
    (p : Bytes) (seen : List ℕ) (i n : ℕ)
    → (duplicates_by_map p seen i n ≡ false)
      ↔ (Unseen seen (settings_from p i n) × Distinct (settings_from p i n))
unfolding duplicates_by_map
duplicates_by_map_iff p seen i zero = (λ _. (tt, tt), λ _. refl)
duplicates_by_map_iff p seen i (suc n) = ground (
  arith,
  duplicates_by_map_iff p ((setting p i).id ∷ seen) (i + 1) n,
  Unseen-cons (setting p i).id seen (settings_from p (i + 1) n),
)

Unseen-nil : (ss : List Setting) → Unseen [] ss
unfolding is_seen
Unseen-nil [] = tt
Unseen-nil (s ∷ ss) = (refl, Unseen-nil ss)

-- The choice between the two algorithms, for `n` settings.
abbrev by_number : Bytes → ℕ → Bool
by_number p n =
    if n == 0
    then false
    else if ltb n 10
    then duplicates_by_pairs p 0 n
    else duplicates_by_map p [] 0 n

by_number_iff : (p : Bytes) (n : ℕ) → (by_number p n ≡ false) ↔ Distinct (settings_from p 0 n)
by_number_iff p zero = (λ _. tt, λ _. refl)
by_number_iff p (suc n) = ground (
  arith,
  duplicates_by_pairs_iff p 0 (suc n),
  duplicates_by_map_iff p [] 0 (suc n),
  Unseen-nil (settings_from p 0 (suc n)),
)

-- Whichever of its two algorithms the number of settings selects, HasDuplicates says no exactly
-- when the identifiers of the payload's settings are all distinct.
pub has_duplicates_iff : (p : Bytes) → (has_duplicates p ≡ false) ↔ Distinct (settings_of p)
unfolding has_duplicates
has_duplicates_iff p = by_number_iff p (num_settings p)
