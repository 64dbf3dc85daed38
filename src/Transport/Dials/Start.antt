-- ===== src/Transport/Dials/Start.antt =====
-- transport.go: what startDialConnForLocked, the wait of queueForDial and the loop of
-- decConnsPerHost make of the queues.
use req.Base.{
  ℕ, zero, suc, ◌==◌, ◌<◌, ◌≡◌, refl, ap, Bool, true, false, Bool-cases, Option, none, some, ◌⊎◌,
  inl, inr, List, [], ◌∷◌, ◌++◌, length, All, arith, if◌then◌else◌, subst, sym,
}
use req.Transport.WantConnQueue.{WantConnQueue, push_back}
use req.Transport.WantConnQueue.Shows.{
  Shows, len-Shows, push_back-Shows, pop_front-cons, from_kept, clean_front-Shows,
}
use req.Transport.Dials.{
  WantConn, Transport, waiting, put, start_dial_conn_for_locked, wait_to_dial, pop_waiting,
  pop_round, pop_front,
}
use req.Transport.Dials.Accounts.{IsAmong}

-- The first item that is waiting, and the items behind it.
abbrev pub first_waiting : (WantConn → Bool) → List WantConn → Option WantConn
first_waiting is_waiting [] = none
first_waiting is_waiting (v ∷ vs) = if is_waiting v then some v else first_waiting is_waiting vs

abbrev pub behind_waiting : (WantConn → Bool) → List WantConn → List WantConn
behind_waiting is_waiting [] = []
behind_waiting is_waiting (v ∷ vs) = if is_waiting v then vs else behind_waiting is_waiting vs

pub pop_waiting-Shows :
    (is_waiting : WantConn → Bool) (fuel : ℕ) (q : WantConnQueue WantConn) (vs : List WantConn)
    → Shows q vs
    → length vs < fuel
    → (q' : WantConnQueue WantConn) × (pop_waiting is_waiting fuel q
        ≡ some (first_waiting is_waiting vs, q'))
      × Shows q' (behind_waiting is_waiting vs)
unfolding pop_waiting pop_round
pop_waiting-Shows is_waiting zero q vs h enough = absurd (omega arith)
pop_waiting-Shows is_waiting (suc fuel) q [] h enough = (q, rw (len-Shows q [] h) refl, h)
pop_waiting-Shows is_waiting (suc fuel) q (v ∷ vs) h enough =
    let some_left : (suc (length vs) == 0) ≡ false = ground arith in
    let (item, left) = pop_front-cons q v vs h in
    elim (Bool-cases (is_waiting v)) [
      | inl e ↦ ((pop_front q).1, rw (len-Shows q (v ∷ vs) h, some_left, item, e) refl, rw e left)
      | inr e ↦
          let (q', runs, shows) =
            pop_waiting-Shows is_waiting fuel (pop_front q).1 vs left (omega arith) in
          (q', rw (len-Shows q (v ∷ vs) h, some_left, item, e) runs, rw e shows)
    ]

pub All-from_kept {κ} :
    (P : WantConn → Type κ) (keep : WantConn → Bool) (vs : List WantConn)
    → All P vs
    → All P (from_kept keep vs)
All-from_kept P keep [] h = tt
All-from_kept P keep (v ∷ vs) h = elim (Bool-cases (keep v)) [
  | inl e ↦ rw e h
  | inr e ↦ rw e (All-from_kept P keep vs h.1)
]

pub All-behind_waiting {κ} :
    (P : WantConn → Type κ) (keep : WantConn → Bool) (vs : List WantConn)
    → All P vs
    → All P (behind_waiting keep vs)
All-behind_waiting P keep [] h = tt
All-behind_waiting P keep (v ∷ vs) h = elim (Bool-cases (keep v)) [
  | inl e ↦ rw e h.1
  | inr e ↦ rw e (All-behind_waiting P keep vs h.1)
]

pub All-first_waiting {κ} :
    (P : WantConn → Type κ) (keep : WantConn → Bool) (vs : List WantConn) (w : WantConn)
    → All P vs
    → first_waiting keep vs ≡ some w
    → P w × (keep w ≡ true)
All-first_waiting P keep [] w h e = absurd (ground arith)
All-first_waiting P keep (v ∷ vs) w h e = elim (Bool-cases (keep v)) [
  | inl is ↦
      let same : v ≡ w =
        cc (subst (λ b. (if b then some v else first_waiting keep vs) ≡ some w) is e) in
      (subst P same h.0, subst (λ x. keep x ≡ true) same is)
  | inr is ↦
      All-first_waiting P keep vs w h.1
        (subst (λ b. (if b then some v else first_waiting keep vs) ≡ some w) is e)
]

pub IsAmong-All {κ} :
    (P : WantConn → Type κ) (w : WantConn) (vs : List WantConn) → IsAmong w vs → All P vs → P w
IsAmong-All P w [] m h = absurd m
IsAmong-All P w (v ∷ vs) (inl e) h = subst P (sym e) h.0
IsAmong-All P w (v ∷ vs) (inr m) h = IsAmong-All P w vs m h.1

-- An item that the loops take out is not waiting, but for the last one of `pop_waiting`.
pub IsAmong-from_kept :
    (keep : WantConn → Bool) (w : WantConn) (vs : List WantConn)
    → IsAmong w vs
    → (keep w ≡ false) ⊎ IsAmong w (from_kept keep vs)
IsAmong-from_kept keep w [] m = absurd m
IsAmong-from_kept keep w (v ∷ vs) m = elim (Bool-cases (keep v)) [
  | inl e ↦ inr (rw e m)
  | inr e ↦ elim m [
    | inl same ↦ inl (rw same e)
    | inr there ↦ rw e (IsAmong-from_kept keep w vs there)
  ]
]

pub IsAmong-behind_waiting :
    (keep : WantConn → Bool) (w : WantConn) (vs : List WantConn)
    → IsAmong w vs
    → (keep w ≡ false) ⊎ ((first_waiting keep vs ≡ some w) ⊎ IsAmong w (behind_waiting keep vs))
IsAmong-behind_waiting keep w [] m = absurd m
IsAmong-behind_waiting keep w (v ∷ vs) m = elim (Bool-cases (keep v)) [
  | inl e ↦ elim m [
    | inl same ↦ inr (inl (rw e (ap some (sym same))))
    | inr there ↦ inr (inr (rw e there))
  ]
  | inr e ↦ elim m [
    | inl same ↦ inl (rw same e)
    | inr there ↦ rw e (IsAmong-behind_waiting keep w vs there)
  ]
]

pub none_waiting :
    (keep : WantConn → Bool) (vs : List WantConn)
    → first_waiting keep vs ≡ none
    → behind_waiting keep vs ≡ []
none_waiting keep [] e = refl
none_waiting keep (v ∷ vs) e = elim (Bool-cases (keep v)) [
  | inl is ↦ absurd (cc (subst (λ b. (if b then some v else first_waiting keep vs) ≡ none) is e))
  | inr is ↦ rw is (
      none_waiting keep vs (subst (λ b. (if b then some v else first_waiting keep vs) ≡ none) is e))
]

module _ {C E : Type 0} where
  pub start_dial_lem :
      (w : WantConn) (t : Transport C E) (ds : List WantConn)
      → Shows t.dials_in_progress ds
      → (q : WantConnQueue WantConn) × (us : List WantConn) × (start_dial_conn_for_locked w t
          ≡ some (record t { dials_in_progress = q; dialing = t.dialing ++ w ∷ [] }))
        × Shows q us
  unfolding start_dial_conn_for_locked
  start_dial_lem w t ds h =
      let keep : WantConn → Bool = λ v. (t.wants v.id).cancel_ctx in
      let (q, e, shows) = clean_front-Shows keep t.dials_in_progress ds h in
      (
        push_back w q,
        from_kept keep ds ++ w ∷ [],
        rw e refl,
        push_back-Shows w q (from_kept keep ds) shows,
      )

  pub wait_to_dial_lem :
      (w : WantConn) (t : Transport C E) (vs : List WantConn)
      → Shows (t.conns_per_host_wait w.key) vs
      → (q : WantConnQueue WantConn) × (wait_to_dial w t
          ≡ some (record t { conns_per_host_wait = put w.key q t.conns_per_host_wait }))
        × Shows q (from_kept (waiting t) vs ++ w ∷ [])
  unfolding wait_to_dial
  wait_to_dial_lem w t vs h =
      let (q, e, shows) = clean_front-Shows (waiting t) (t.conns_per_host_wait w.key) vs h in
      (push_back w q, rw e refl, push_back-Shows w q (from_kept (waiting t) vs) shows)
