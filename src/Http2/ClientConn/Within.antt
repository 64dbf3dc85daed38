-- ===== src/Http2/ClientConn/Within.antt =====
-- internal/http2/transport.go: what holds of a client connection between any two calls, against the
-- windows of its peer.
use req.Base.{
  ℕ, suc, ◌^◌, ◌<◌, ◌≤◌, ◌≡◌, refl, ap, sym, ◌∙◌, subst, true, false, Bool-cases, ◌==◌, ==_iff,
  none, some, ◌⊎◌, inl, inr, List, [], ◌∷◌, map, length, All, arith,
}
use req.Base.Int.{ℤ, pos, ◌≤ℤ◌, IsInt32}
use req.Http2.ClientConn.{ClientStream, ClientConn, stream_at, change_at, delete_at}
use req.Http2.ClientConn.Windows.{WithinStream}
use req.Http2.ClientConn.Runs.{Peer}

-- The identifier of a stream with its window.
abbrev pub win : {B : Type 0} → ClientStream B → ℕ × ℤ
win cs = (cs.id, cs.flow)

-- Identifiers that fall, from below a bound, and are not 0.
abbrev pub Falls : ℕ → List (ℕ × ℤ) → Type 0
Falls n [] = Unit
Falls n ((id, w) ∷ ws) = (id < n) × (0 < id) × Falls id ws

-- The windows of a connection are within those of its peer.
pub record Within {B : Type 0} (conn : ClientConn B) (p : Peer) : Type 0 where
  pub frame_size : conn.max_frame_size < 2 ^ 31
  pub conn_int : IsInt32 conn.flow
  pub conn_below : conn.flow ≤ℤ p.window
  pub initial_int : conn.initial_window_size < 2 ^ 31
  pub initial_same : p.initial ≡ pos conn.initial_window_size
  pub of_streams : All (λ w. WithinStream p.initial (p.offset w.0) w.1) (map win conn.streams)
  pub of_others : (id : ℕ) → conn.next_stream_id ≤ id → pos 0 ≤ℤ p.offset id

-- The windows matter as long as the connection is not closed.
pub record Holds {B : Type 0} (conn : ClientConn B) (p : Peer) : Type 0 where
  pub falls : Falls conn.next_stream_id (map win conn.streams)
  pub next_pos : 0 < conn.next_stream_id
  pub within : (conn.closed ≡ true) ⊎ Within conn p

-- A call that leaves alone what `Holds` is about; it may close the connection.
pub record Alike {B : Type 0} (conn conn' : ClientConn B) : Type 0 where
  pub next : conn'.next_stream_id ≡ conn.next_stream_id
  pub flow : conn'.flow ≡ conn.flow
  pub initial : conn'.initial_window_size ≡ conn.initial_window_size
  pub frame : conn'.max_frame_size ≡ conn.max_frame_size
  pub wins : map win conn'.streams ≡ map win conn.streams
  pub closed : conn.closed ≡ true → conn'.closed ≡ true

pub Falls-weaken : (n m : ℕ) (ws : List (ℕ × ℤ)) → n ≤ m → Falls n ws → Falls m ws
Falls-weaken n m [] le h = tt
Falls-weaken n m ((id, w) ∷ ws) le h = (omega (arith, h.0), h.1, h.2)

pub Falls-All : (n : ℕ) (ws : List (ℕ × ℤ)) → Falls n ws → All (λ w. w.0 < n) ws
Falls-All n [] h = tt
Falls-All n ((id, w) ∷ ws) h = (h.0, Falls-All n ws (Falls-weaken id n ws (omega (arith, h.0)) h.2))

module _ {B : Type 0} where
  Alike-Within :
      (conn conn' : ClientConn B) (p : Peer) → Alike conn conn' → Within conn p → Within conn' p
  Alike-Within conn conn' p a w = record {
    frame_size = rw a.frame w.frame_size;
    conn_int = rw a.flow w.conn_int;
    conn_below = rw a.flow w.conn_below;
    initial_int = rw a.initial w.initial_int;
    initial_same = rw a.initial w.initial_same;
    of_streams = rw a.wins w.of_streams;
    of_others = rw a.next w.of_others;
  }

  pub Alike-Holds :
      (conn conn' : ClientConn B) (p : Peer) → Alike conn conn' → Holds conn p → Holds conn' p
  Alike-Holds conn conn' p a h = record {
    falls = rw (a.next, a.wins) h.falls;
    next_pos = rw a.next h.next_pos;
    within = elim h.within [
      | inl c ↦ inl (a.closed c)
      | inr w ↦ inr (Alike-Within conn conn' p a w)
    ];
  }

  -- A change of all streams, or of one, that keeps the windows.
  pub map-win :
      (f : ClientStream B → ClientStream B) (ss : List (ClientStream B))
      → ((cs : ClientStream B) → win (f cs) ≡ win cs)
      → map win (map f ss) ≡ map win ss
  map-win f [] h = refl
  map-win f (cs ∷ ss) h = rw (h cs) (ap (λ r. win cs ∷ r) (map-win f ss h))

  pub change_at-win :
      (id : ℕ) (f : ClientStream B → ClientStream B) (ss : List (ClientStream B))
      → ((cs : ClientStream B) → win (f cs) ≡ win cs)
      → map win (change_at id f ss) ≡ map win ss
  unfolding change_at
  change_at-win id f [] h = refl
  change_at-win id f (cs ∷ ss) h = elim (Bool-cases (cs.id == id)) [
    | inl e ↦ rw (e, h cs) (ap (λ r. win cs ∷ r) (change_at-win id f ss h))
    | inr e ↦ rw e (ap (λ r. win cs ∷ r) (change_at-win id f ss h))
  ]

  -- The stream that is found.
  pub stream_at-All :
      (P : ℕ × ℤ → Type 0) (id : ℕ) (ss : List (ClientStream B)) (cs : ClientStream B)
      → All P (map win ss)
      → stream_at id ss ≡ some cs
      → (cs.id ≡ id) × P (win cs)
  unfolding stream_at
  stream_at-All P id [] cs h e = absurd (ground arith)
  stream_at-All P id (s ∷ ss) cs h e = elim (Bool-cases (s.id == id)) [
    | inl is ↦
        let same : s ≡ cs = cc (rw is at e) in
        (sym (ap (λ x. x.id) same) ∙ (==_iff s.id id).0 is, subst (λ x. P (win x)) same h.0)
    | inr is ↦ stream_at-All P id ss cs h.1 (rw is at e)
  ]

  -- Deleting a stream.
  pub delete_at-All :
      (P : ℕ × ℤ → Type 0) (id : ℕ) (ss : List (ClientStream B))
      → All P (map win ss)
      → All P (map win (delete_at id ss))
  unfolding delete_at
  delete_at-All P id [] h = tt
  delete_at-All P id (s ∷ ss) h = elim (Bool-cases (s.id == id)) [
    | inl e ↦ rw e (delete_at-All P id ss h.1)
    | inr e ↦ rw e (h.0, delete_at-All P id ss h.1)
  ]

  pub delete_at-Falls :
      (n id : ℕ) (ss : List (ClientStream B))
      → Falls n (map win ss)
      → Falls n (map win (delete_at id ss))
  unfolding delete_at
  delete_at-Falls n id [] h = tt
  delete_at-Falls n id (s ∷ ss) h = elim (Bool-cases (s.id == id)) [
    | inl e ↦ rw e (
        Falls-weaken s.id n (map win (delete_at id ss)) (omega (arith, h.0))
          (delete_at-Falls s.id id ss h.2))
    | inr e ↦ rw e (h.0, h.1, delete_at-Falls s.id id ss h.2)
  ]

  -- An identifier above the bound.
  pub delete_at_above :
      (n id : ℕ) (ss : List (ClientStream B)) → n ≤ id → Falls n (map win ss) → delete_at id ss ≡ ss
  unfolding delete_at
  delete_at_above n id [] le h = refl
  delete_at_above n id (s ∷ ss) le h =
      let other : (s.id == id) ≡ false = ground (arith, le, h.0) in
      rw other (ap (λ r. s ∷ r) (delete_at_above s.id id ss (omega (arith, le, h.0)) h.2))

  pub length-delete_at :
      (n id : ℕ) (ss : List (ClientStream B)) (cs : ClientStream B)
      → Falls n (map win ss)
      → stream_at id ss ≡ some cs
      → suc (length (delete_at id ss)) ≡ length ss
  unfolding delete_at stream_at
  length-delete_at n id [] cs h e = absurd (ground arith)
  length-delete_at n id (s ∷ ss) cs h e = elim (Bool-cases (s.id == id)) [
    | inl is ↦ rw is (
        ap (λ r. suc (length r))
          (delete_at_above s.id id ss (omega (arith, (==_iff s.id id).0 is)) h.2))
    | inr is ↦ rw is (ap suc (length-delete_at s.id id ss cs h.2 (rw is at e)))
  ]

  pub not_found :
      (n : ℕ) (ss : List (ClientStream B)) → Falls n (map win ss) → stream_at 0 ss ≡ none
  unfolding stream_at
  not_found n [] h = refl
  not_found n (s ∷ ss) h =
      let other : (s.id == 0) ≡ false = ground (arith, h.1) in rw other (not_found s.id ss h.2)
