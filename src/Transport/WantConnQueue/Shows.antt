-- ===== src/Transport/WantConnQueue/Shows.antt =====
-- The list of items that a wantConnQueue of transport.go stands for, and each operation on it.
use req.Base.{
  ℕ, zero, suc, ◌+◌, ◌≤◌, ◌<◌, ◌≡◌, refl, ap, sym, ◌∙◌, Bool, true, false, Bool-cases, ltb, lt→ltb,
  le→ltb, Option, none, some, ◌⊎◌, inl, inr, List, [], ◌∷◌, ◌++◌, map, length, drop, length-append,
  length-drop, append_assoc, append-nil, arith, if◌then◌else◌, ◌||◌, not,
}
use req.Transport.WantConnQueue.{
  WantConnQueue, new_queue, len, push_back, item_at, clear_at, pop_head, pop_tail, pop_front,
  peek_front, clean_round, clean_loop, clean_front,
}

pub record Shows {ℓ} {A : Type ℓ} (q : WantConnQueue A) (vs : List A) : Type ℓ where
  pub placed : q.head_pos ≤ length q.head
  pub shown : drop q.head_pos q.head ++ q.tail ≡ map some vs

or_false : (b : Bool) → (b || false) ≡ b
or_false true = refl
or_false false = refl

or_true : (b : Bool) → (b || true) ≡ true
or_true true = refl
or_true false = refl

module _ {ℓ} {A : Type ℓ} where
  pub new_queue-Shows : Shows (new_queue {A = A}) []
  new_queue-Shows = record { placed = omega arith; shown = refl }

  map-append : (vs us : List A) → map some (vs ++ us) ≡ map some vs ++ map some us
  map-append [] us = refl
  map-append (v ∷ vs) us = ap (λ r. some v ∷ r) (map-append vs us)

  length-map : (vs : List A) → length (map some vs) ≡ length vs
  length-map [] = refl
  length-map (v ∷ vs) = ap suc (length-map vs)

  pub len-Shows : (q : WantConnQueue A) (vs : List A) → Shows q vs → len q ≡ length vs
  unfolding len
  len-Shows q vs h = omega (
    arith,
    ap length h.shown,
    length-map vs,
    length-append (drop q.head_pos q.head) q.tail,
    length-drop q.head_pos q.head,
  )

  pub push_back-Shows :
      (w : A) (q : WantConnQueue A) (vs : List A)
      → Shows q vs
      → Shows (push_back w q) (vs ++ w ∷ [])
  unfolding push_back
  push_back-Shows w q vs h = record {
    placed = h.placed;
    shown =
        sym (append_assoc (drop q.head_pos q.head) q.tail (some w ∷ []))
        ∙ ap (λ r. r ++ some w ∷ []) h.shown
        ∙ sym (map-append vs (w ∷ []));
  }

  -- The item at a position, as the first of those from there on.
  front :
      (n : ℕ) (ws : List (Option A)) (w : Option A) (us : List (Option A))
      → drop n ws ≡ w ∷ us
      → (item_at n ws ≡ w) × (drop (suc n) (clear_at n ws) ≡ us) × (suc n ≤ length (clear_at n ws))
  unfolding item_at clear_at
  front zero [] w us e = absurd (omega (arith, ap length e))
  front (suc n) [] w us e = absurd (omega (arith, ap length e))
  front zero (x ∷ ws) w us e = (cc e, cc e, omega arith)
  front (suc n) (x ∷ ws) w us e = let (a, b, c) = front n ws w us e in (a, b, omega (arith, c))

  pop_head-Shows :
      (q : WantConnQueue A) (v : A) (vs : List A) (ws : List (Option A))
      → drop q.head_pos q.head ≡ some v ∷ ws
      → ws ++ q.tail ≡ map some vs
      → ((pop_head q).0 ≡ some v) × Shows (pop_head q).1 vs
  unfolding pop_head
  pop_head-Shows q v vs ws e rest =
      let (item, left, room) = front q.head_pos q.head (some v) ws e in
      (item, record { placed = room; shown = ap (λ r. r ++ q.tail) left ∙ rest })

  -- The first item is in the first stage, or the first stage is used up.
  Front : WantConnQueue A → List A → Type ℓ
  Front q vs =
      ((ltb q.head_pos (length q.head) ≡ false) × (q.tail ≡ map some vs))
      ⊎ ((v : A) × (us : List A) × (ws : List (Option A)) × (vs ≡ v ∷ us)
          × (ltb q.head_pos (length q.head) ≡ true)
          × (drop q.head_pos q.head ≡ some v ∷ ws)
          × (ws ++ q.tail ≡ map some us))

  drop-Front :
      (q : WantConnQueue A) (vs : List A) (ws : List (Option A))
      → drop q.head_pos q.head ≡ ws
      → ws ++ q.tail ≡ map some vs
      → Front q vs
  unfolding Front
  drop-Front q vs [] e h = inl (
    le→ltb q.head_pos (length q.head) (omega (arith, ap length e, length-drop q.head_pos q.head)),
    h,
  )
  drop-Front q [] (w ∷ ws) e h = absurd (omega (arith, ap length h))
  drop-Front q (v ∷ us) (w ∷ ws) e h =
      let same : w ≡ some v = cc h in
      inr (
        v,
        us,
        ws,
        refl,
        lt→ltb q.head_pos (length q.head)
            (omega (arith, ap length e, length-drop q.head_pos q.head)),
        e ∙ ap (λ x. x ∷ ws) same,
        cc h,
      )

  pub pop_front-cons :
      (q : WantConnQueue A) (v : A) (vs : List A)
      → Shows q (v ∷ vs)
      → ((pop_front q).0 ≡ some v) × Shows (pop_front q).1 vs
  unfolding pop_front pop_tail Front
  pop_front-cons q v vs h = elim (drop-Front q (v ∷ vs) (drop q.head_pos q.head) refl h.shown) [
    | inl (used, e) ↦
        rw (used, e)
          (pop_head-Shows (record { head = some v ∷ map some vs; head_pos = 0; tail = [] }) v vs
            (map some vs) refl (append-nil (map some vs)))
    | inr (u, us, ws, same, there, e, rest) ↦
        rw there (
          pop_head-Shows q v vs ws (e ∙ ap (λ x. x ∷ ws) (cc same))
            (rest ∙ ap (map some) (cc same)))
  ]

  pub pop_front-nil : (q : WantConnQueue A) → Shows q [] → pop_front q ≡ (none, q)
  unfolding pop_front pop_tail Front
  pop_front-nil q h = elim (drop-Front q [] (drop q.head_pos q.head) refl h.shown) [
    | inl (used, e) ↦ rw (used, e) refl
    | inr (u, us, ws, same, there, e, rest) ↦ absurd (omega (arith, ap length same))
  ]

  pub peek_front-cons :
      (q : WantConnQueue A) (v : A) (vs : List A) → Shows q (v ∷ vs) → peek_front q ≡ some v
  unfolding peek_front Front item_at
  peek_front-cons q v vs h = elim (drop-Front q (v ∷ vs) (drop q.head_pos q.head) refl h.shown) [
    | inl (used, e) ↦ rw (used, e) refl
    | inr (u, us, ws, same, there, e, rest) ↦
        rw there ((front q.head_pos q.head (some u) ws e).0 ∙ cc same)
  ]

  pub peek_front-nil : (q : WantConnQueue A) → Shows q [] → peek_front q ≡ none
  unfolding peek_front Front item_at
  peek_front-nil q h = elim (drop-Front q [] (drop q.head_pos q.head) refl h.shown) [
    | inl (used, e) ↦ rw (used, e) refl
    | inr (u, us, ws, same, there, e, rest) ↦ absurd (omega (arith, ap length same))
  ]

  -- The items from the first one that is kept.
  abbrev pub from_kept : (A → Bool) → List A → List A
  from_kept keep [] = []
  from_kept keep (v ∷ vs) = if keep v then v ∷ vs else from_kept keep vs

  -- Whether there are others before it.
  abbrev pub some_dropped : (A → Bool) → List A → Bool
  some_dropped keep [] = false
  some_dropped keep (v ∷ vs) = not (keep v)

  pub clean_loop-Shows :
      (keep : A → Bool) (fuel : ℕ) (cleaned : Bool) (q : WantConnQueue A) (vs : List A)
      → Shows q vs
      → length vs < fuel
      → (q' : WantConnQueue A) × (clean_loop keep fuel cleaned q
          ≡ some (cleaned || some_dropped keep vs, q'))
        × Shows q' (from_kept keep vs)
  unfolding clean_loop clean_round
  clean_loop-Shows keep zero cleaned q vs h enough = absurd (omega arith)
  clean_loop-Shows keep (suc fuel) cleaned q [] h enough =
      (q, rw (peek_front-nil q h) (ap (λ c. some (c, q)) (sym (or_false cleaned))), h)
  clean_loop-Shows keep (suc fuel) cleaned q (v ∷ vs) h enough = elim (Bool-cases (keep v)) [
    | inl e ↦ (
      q,
      rw (peek_front-cons q v vs h, e) (ap (λ c. some (c, q)) (sym (or_false cleaned))),
      rw e h,
    )
    | inr e ↦
        let (item, left) = pop_front-cons q v vs h in
        let (q', runs, shows) =
          clean_loop-Shows keep fuel true (pop_front q).1 vs left (omega arith) in
        (
          q',
          rw (peek_front-cons q v vs h, e) (runs ∙ ap (λ c. some (c, q')) (sym (or_true cleaned))),
          rw e shows,
        )
  ]

  pub clean_front-Shows :
      (keep : A → Bool) (q : WantConnQueue A) (vs : List A)
      → Shows q vs
      → (q' : WantConnQueue A) × (clean_front keep q ≡ some (some_dropped keep vs, q'))
        × Shows q' (from_kept keep vs)
  unfolding clean_front
  clean_front-Shows keep q vs h =
      clean_loop-Shows keep (len q + 1) false q vs h (omega (arith, len-Shows q vs h))
