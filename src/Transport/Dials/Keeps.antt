-- ===== src/Transport/Dials/Keeps.antt =====
-- transport.go: each call keeps the accounts of the places and of the wantConns.
use req.Base.{
  ℕ, ◌+◌, ◌==◌, ==_iff, ==_refl, ◌≡◌, refl, subst, Bool, true, false, not, Bool-cases, some, ◌⊎◌,
  inl, inr, List, [], ◌∷◌, ◌++◌, All-map, arith, if◌then◌else◌,
}
use req.Transport.Dials.{ConnOrError, WantConn, Want, put, try_deliver, cancel, receive, end_dial}
use req.Transport.Dials.Accounts.{State, started, IsAmong, Stands, Accounts}

pub started-append :
    (k : ℕ) (ws : List WantConn) (w : WantConn)
    → started k (ws ++ w ∷ []) ≡ started k ws + (if w.key == k then 1 else 0)
started-append k [] w = omega arith
started-append k (v ∷ ws) w = omega (arith, started-append k ws w)

pub IsAmong-left : (w : WantConn) (vs us : List WantConn) → IsAmong w vs → IsAmong w (vs ++ us)
IsAmong-left w [] us m = absurd m
IsAmong-left w (v ∷ vs) us (inl e) = inl e
IsAmong-left w (v ∷ vs) us (inr m) = inr (IsAmong-left w vs us m)

pub IsAmong-last : (w : WantConn) (vs : List WantConn) → IsAmong w (vs ++ w ∷ [])
IsAmong-last w [] = inl refl
IsAmong-last w (v ∷ vs) = inr (IsAmong-last w vs)

pub not-false : (b : Bool) → not b ≡ false → b ≡ true
not-false true h = refl
not-false false h = cc h

-- A property of every entry of a map, after one entry is put.
pub put_all {ℓ κ} :
    {A : Type ℓ} (P : ℕ → A → Type κ) (k : ℕ) (a : A) (f : ℕ → A)
    → P k a
    → ((j : ℕ) → P j (f j))
    → (j : ℕ) → P j (put k a f j)
unfolding put
put_all P k a f here there j = elim (Bool-cases (k == j)) [
  | inl e ↦ rw e (subst (λ i. P i a) ((==_iff k j).0 e) here)
  | inr e ↦ rw e (there j)
]

pub put_same {ℓ} : {A : Type ℓ} (k : ℕ) (a : A) (f : ℕ → A) → put k a f k ≡ a
unfolding put
put_same k a f = rw (==_refl k) refl

pub put_two {ℓ κ μ} :
    {A : Type ℓ} {B : Type κ} (P : ℕ → A → B → Type μ) (k : ℕ) (a : A) (b : B) (f : ℕ → A)
    (g : ℕ → B)
    → P k a b
    → ((j : ℕ) → P j (f j) (g j))
    → (j : ℕ) → P j (put k a f j) (put k b g j)
unfolding put
put_two P k a b f g here there j = elim (Bool-cases (k == j)) [
  | inl e ↦ rw e (subst (λ i. P i a b) ((==_iff k j).0 e) here)
  | inr e ↦ rw e (there j)
]

module _ {C E : Type 0} where
  still :
      (wants f : ℕ → Want C E) (ws : List WantConn) (items : ℕ → List WantConn)
      → ((i : ℕ) → (wants i).done ≡ true → (f i).done ≡ true)
      → (w : WantConn) → Stands wants ws items w
      → Stands f ws items w
  still wants f ws items later w (inl d) = inl (later w.id d)
  still wants f ws items later w (inr m) = inr m

  wants-Accounts :
      {size : ℕ} (s : State C E) (f : ℕ → Want C E)
      → ((i : ℕ) → (s.t.wants i).done ≡ true → (f i).done ≡ true)
      → Accounts size s
      → Accounts size (record s { t = record s.t { wants = f } })
  wants-Accounts s f later a = record {
    fixed = a.fixed;
    items = a.items;
    dials = a.dials;
    queues = λ k.
        let q = a.queues k in
        record {
          shows = q.shows;
          of_host = q.of_host;
          none_waits = λ h.
              All-map (λ w. (s.t.wants w.id).done ≡ true) (λ w. (f w.id).done ≡ true)
                (λ w. later w.id) (a.items k) (q.none_waits h);
        };
    dials_shown = a.dials_shown;
    limited = a.limited;
    counted = a.counted;
    standing =
        All-map (Stands s.t.wants s.t.dialing a.items) (Stands f s.t.dialing a.items)
          (still s.t.wants f s.t.dialing a.items later) s.wanted a.standing;
  }

  put_later :
      (i : ℕ) (v : Want C E) (f : ℕ → Want C E)
      → ((f i).done ≡ true → v.done ≡ true)
      → (j : ℕ) → (f j).done ≡ true
      → (put i v f j).done ≡ true
  put_later i v f h = put_all (λ j x. (f j).done ≡ true → x.done ≡ true) i v f h (λ j d. d)

  pub deliver-Accounts :
      {size : ℕ} (w : WantConn) (r : ConnOrError C E) (s : State C E)
      → Accounts size s
      → Accounts size (record s { t = (try_deliver w r s.t).1 })
  unfolding try_deliver
  deliver-Accounts w r s a = elim (Bool-cases (s.t.wants w.id).done) [
    | inl d ↦ rw d a
    | inr d ↦ rw d (
        wants-Accounts s
          (put w.id (record (s.t.wants w.id) { ctx = false; done = true; result = some r })
            s.t.wants)
          (put_later w.id (record (s.t.wants w.id) { ctx = false; done = true; result = some r })
            s.t.wants (λ h. refl))
          a)
  ]

  pub cancel-Accounts :
      {size : ℕ} (w : WantConn) (s : State C E)
      → Accounts size s
      → Accounts size (record s { t = (cancel w s.t).1 })
  unfolding cancel
  cancel-Accounts w s a =
      wants-Accounts s ((cancel w s.t).1).wants (put_later w.id _ s.t.wants (λ h. refl)) a

  pub receive-Accounts :
      {size : ℕ} (w : WantConn) (s : State C E)
      → Accounts size s
      → Accounts size (record s { t = (receive w s.t).1 })
  unfolding receive
  receive-Accounts w s a =
      wants-Accounts s ((receive w s.t).1).wants (put_later w.id _ s.t.wants (λ h. h)) a

  pub end_dial-Accounts :
      {size : ℕ} (w : WantConn) (s : State C E)
      → Accounts size s
      → Accounts size (record s { t = end_dial w s.t })
  unfolding end_dial
  end_dial-Accounts w s a =
      wants-Accounts s (end_dial w s.t).wants (put_later w.id _ s.t.wants (λ h. h)) a

  -- A queue is replaced, and maybe a dial started for what is taken out of it.
  pub moved :
      (wants : ℕ → Want C E) (ws ws' : List WantConn) (items : ℕ → List WantConn) (k : ℕ)
      (vs : List WantConn)
      → ((w : WantConn)
          → IsAmong w (items k)
          → ((wants w.id).done ≡ true) ⊎ (IsAmong w ws' ⊎ IsAmong w vs))
      → ((w : WantConn) → IsAmong w ws → IsAmong w ws')
      → (w : WantConn) → Stands wants ws items w
      → Stands wants ws' (put k vs items) w
  moved wants ws ws' items k vs out grown w (inl d) = inl d
  moved wants ws ws' items k vs out grown w (inr (inl m)) = inr (inl (grown w m))
  moved wants ws ws' items k vs out grown w (inr (inr m)) =
      put_all
        (λ j x. IsAmong w (items j) → ((wants w.id).done ≡ true) ⊎ (IsAmong w ws' ⊎ IsAmong w x)) k
        vs items (out w) (λ j there. inr (inr there)) w.key m

  pub grown :
      (wants : ℕ → Want C E) (ws : List WantConn) (v : WantConn) (items : ℕ → List WantConn)
      (w : WantConn)
      → Stands wants ws items w
      → Stands wants (ws ++ v ∷ []) items w
  grown wants ws v items w (inl d) = inl d
  grown wants ws v items w (inr (inl m)) = inr (inl (IsAmong-left w ws (v ∷ []) m))
  grown wants ws v items w (inr (inr m)) = inr (inr m)
