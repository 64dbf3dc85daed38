-- ===== src/Transport/WantConnQueue/Refine.antt =====
-- transport.go: wantConnQueue against a list, call by call.
use req.Base.{
  ℕ, ◌≡◌, refl, ap, sym, ◌∙◌, Bool, Option, none, some, List, [], ◌∷◌, ◌++◌, map, length, drop,
  append-nil, append_assoc,
}
use req.Transport.WantConnQueue.{
  WantConnQueue, new_queue, len, push_back, pop_front, peek_front, clean_front, each, all_items,
}
use req.Transport.WantConnQueue.Shows.{
  Shows, new_queue-Shows, len-Shows, push_back-Shows, pop_front-cons, pop_front-nil,
  peek_front-cons, peek_front-nil, from_kept, some_dropped, clean_front-Shows,
}

pub data Op {ℓ} (A : Type ℓ) : Type ℓ where
  push_op : A → Op A
  pop_op peek_op len_op all_op : Op A
  clean_op : (A → Bool) → Op A

pub data Outcome {ℓ} (A : Type ℓ) : Type ℓ where
  nothing failed : Outcome A
  item : Option A → Outcome A
  count : ℕ → Outcome A
  items : List (Option A) → Outcome A
  cleaned : Bool → Outcome A

module _ {ℓ} {A : Type ℓ} where
  -- What `all` hands to its function.
  abbrev collect : Option A → List (Option A) → List (Option A)
  collect w ws = ws ++ w ∷ []

  abbrev pub outcomes : List (Op A) → WantConnQueue A → List (Outcome A)
  outcomes [] q = []
  outcomes (push_op w ∷ ops) q = nothing ∷ outcomes ops (push_back w q)
  outcomes (pop_op ∷ ops) q = let (w, q') = pop_front q in item w ∷ outcomes ops q'
  outcomes (peek_op ∷ ops) q = item (peek_front q) ∷ outcomes ops q
  outcomes (len_op ∷ ops) q = count (len q) ∷ outcomes ops q
  outcomes (all_op ∷ ops) q = items (all_items collect q []) ∷ outcomes ops q
  outcomes (clean_op keep ∷ ops) q = elim (clean_front keep q) [
    | none ↦ failed ∷ []
    | some (some_gone, q') ↦ cleaned some_gone ∷ outcomes ops q'
  ]

  abbrev pub list_outcomes : List (Op A) → List A → List (Outcome A)
  list_outcomes [] vs = []
  list_outcomes (push_op w ∷ ops) vs = nothing ∷ list_outcomes ops (vs ++ w ∷ [])
  list_outcomes (pop_op ∷ ops) [] = item none ∷ list_outcomes ops []
  list_outcomes (pop_op ∷ ops) (v ∷ vs) = item (some v) ∷ list_outcomes ops vs
  list_outcomes (peek_op ∷ ops) [] = item none ∷ list_outcomes ops []
  list_outcomes (peek_op ∷ ops) (v ∷ vs) = item (some v) ∷ list_outcomes ops (v ∷ vs)
  list_outcomes (len_op ∷ ops) vs = count (length vs) ∷ list_outcomes ops vs
  list_outcomes (all_op ∷ ops) vs = items (map some vs) ∷ list_outcomes ops vs
  list_outcomes (clean_op keep ∷ ops) vs =
      cleaned (some_dropped keep vs) ∷ list_outcomes ops (from_kept keep vs)

  each-append :
      (ws us vs : List (Option A)) → each collect us (each collect ws vs) ≡ vs ++ (ws ++ us)
  unfolding each
  each-append [] [] vs = sym (append-nil vs)
  each-append [] (u ∷ us) vs = each-append [] us (vs ++ u ∷ []) ∙ append_assoc vs (u ∷ []) us
  each-append (w ∷ ws) us vs =
      each-append ws us (vs ++ w ∷ []) ∙ append_assoc vs (w ∷ []) (ws ++ us)

  all_items-Shows :
      (q : WantConnQueue A) (vs : List A) → Shows q vs → all_items collect q [] ≡ map some vs
  unfolding all_items
  all_items-Shows q vs h = each-append (drop q.head_pos q.head) q.tail [] ∙ h.shown

  outcomes-Shows :
      (ops : List (Op A)) (q : WantConnQueue A) (vs : List A)
      → Shows q vs
      → outcomes ops q ≡ list_outcomes ops vs
  outcomes-Shows [] q vs h = refl
  outcomes-Shows (push_op w ∷ ops) q vs h =
      ap (λ r. nothing ∷ r)
        (outcomes-Shows ops (push_back w q) (vs ++ w ∷ []) (push_back-Shows w q vs h))
  outcomes-Shows (pop_op ∷ ops) q [] h =
      rw (pop_front-nil q h) (ap (λ r. item none ∷ r) (outcomes-Shows ops q [] h))
  outcomes-Shows (pop_op ∷ ops) q (v ∷ vs) h =
      let (e, left) = pop_front-cons q v vs h in
      rw e (ap (λ r. item (some v) ∷ r) (outcomes-Shows ops (pop_front q).1 vs left))
  outcomes-Shows (peek_op ∷ ops) q [] h =
      rw (peek_front-nil q h) (ap (λ r. item none ∷ r) (outcomes-Shows ops q [] h))
  outcomes-Shows (peek_op ∷ ops) q (v ∷ vs) h =
      rw (peek_front-cons q v vs h) (ap (λ r. item (some v) ∷ r) (outcomes-Shows ops q (v ∷ vs) h))
  outcomes-Shows (len_op ∷ ops) q vs h =
      rw (len-Shows q vs h) (ap (λ r. count (length vs) ∷ r) (outcomes-Shows ops q vs h))
  outcomes-Shows (all_op ∷ ops) q vs h =
      rw (all_items-Shows q vs h) (ap (λ r. items (map some vs) ∷ r) (outcomes-Shows ops q vs h))
  outcomes-Shows (clean_op keep ∷ ops) q vs h =
      let (q', e, shows) = clean_front-Shows keep q vs h in
      rw (e, outcomes)
        (ap (λ r. cleaned (some_dropped keep vs) ∷ r)
          (outcomes-Shows ops q' (from_kept keep vs) shows))

  -- Calls of pushBack, popFront, peekFront, len, all and the two loops that clean the front, in any
  -- order, on an empty wantConnQueue have the outcomes of a list: popFront and peekFront give its
  -- first item, or nil if there is none, the loops drop its items up to the first one that is kept
  -- and say whether there were any, and no call runs on.
  pub outcomes-list_outcomes : (ops : List (Op A)) → outcomes ops new_queue ≡ list_outcomes ops []
  outcomes-list_outcomes ops = outcomes-Shows ops new_queue [] new_queue-Shows
