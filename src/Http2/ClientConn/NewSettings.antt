-- ===== src/Http2/ClientConn/NewSettings.antt =====
-- internal/http2/transport.go: lemmas on a SETTINGS frame, with the initial window that it grants.
use req.Base.{
  ℕ, ◌-◌, ◌^◌, ◌<◌, ◌≡◌, refl, sym, subst, Bool, true, false, ltb, Bool-cases, ◌==◌, ==_iff, Option,
  none, some, inl, inr, if◌then◌else◌, if-either, List, [], ◌∷◌, map, All, arith,
}
use req.Base.Bytes.{Bytes}
use req.Base.Int.{ℤ, pos, ◌-ℤ◌, int32}
use req.Http2.Errors.{Error, connection, err_code_protocol}
use req.Http2.Frame.{Setting, setting_initial_window_size}
use req.Http2.Frame.Settings.{foreach_setting}
use req.Http2.Frame.SettingList.{settings_of, each_until_error, foreach_setting-settings_of}
use req.Http2.ClientConn.{
  ClientStream, ClientConn, setting_max_frame_size, setting_max_concurrent_streams,
  setting_max_header_list_size, default_max_concurrent_streams,
}
use req.Http2.ClientConn.Control.{shift_flow, apply_setting, end_settings, process_settings}
use req.Http2.ClientConn.Windows.{WithinStream, shift-WithinStream}
use req.Http2.ClientConn.Runs.{Peer, granted_initial}
use req.Http2.ClientConn.Within.{win, Holds, Alike-Holds}
use req.Http2.ClientConn.WindowUpdates.{Ids, Framed, map-Falls}

abbrev pub AllMild : List Setting → Type 0
AllMild ss = All (λ s. s.id ≡ setting_max_frame_size → s.val < 2 ^ 31) ss

-- The windows behind a setting.
abbrev behind : Setting → Peer → Peer
behind s p = record p {
  initial = if s.id == setting_initial_window_size then pos s.val else p.initial;
}

module _ {B : Type 0} where
  -- A setting, and all settings of a frame.
  abbrev After : Peer → Option Error × (Bool × ClientConn B) → Type 0
  After p (none, (seen, conn)) = Holds conn p
  After p (some e, (seen, conn)) = Ids conn

  shift_streams :
      (new old : ℕ) (p : Peer) (ss : List (ClientStream B))
      → new < 2 ^ 31
      → old < 2 ^ 31
      → All (λ x. WithinStream (pos old) (p.offset x.0) x.1) (map win ss)
      → All
          (λ x. WithinStream (pos new) (p.offset x.0) x.1)
          (map win (map (shift_flow (int32 (int32 (pos new) -ℤ int32 (pos old)))) ss))
  unfolding shift_flow
  shift_streams new old p [] hn ho h = tt
  shift_streams new old p (cs ∷ ss) hn ho h = (
    shift-WithinStream new old (p.offset cs.id) cs.flow hn ho h.0,
    shift_streams new old p ss hn ho h.1,
  )

  shift_flow-id : (delta : ℤ) (cs : ClientStream B) → (shift_flow delta cs).id ≡ cs.id
  unfolding shift_flow
  shift_flow-id delta cs = refl

  initial-Holds :
      (new : ℕ) (conn : ClientConn B) (p : Peer)
      → new < 2 ^ 31
      → Holds conn p
      → Holds
          (record conn {
            streams =
                map
                  (shift_flow (int32 (int32 (pos new) -ℤ int32 (pos conn.initial_window_size))))
                  conn.streams;
            initial_window_size = new;
          })
          (record p { initial = pos new })
  initial-Holds new conn p small h =
      let delta = int32 (int32 (pos new) -ℤ int32 (pos conn.initial_window_size)) in
      record {
        falls =
            map-Falls (shift_flow delta) conn.next_stream_id conn.streams (shift_flow-id delta)
              h.falls;
        next_pos = h.next_pos;
        within = elim h.within [
          | inl c ↦ inl c
          | inr w ↦ inr (record {
            frame_size = w.frame_size;
            conn_int = w.conn_int;
            conn_below = w.conn_below;
            initial_int = small;
            initial_same = refl;
            of_streams =
                shift_streams new conn.initial_window_size p conn.streams small w.initial_int (
                  subst (λ i. All (λ x. WithinStream i (p.offset x.0) x.1) (map win conn.streams))
                    w.initial_same w.of_streams);
            of_others = w.of_others;
          })
        ];
      }

  frame_size-Holds :
      (n : ℕ) (conn : ClientConn B) (p : Peer)
      → n < 2 ^ 31
      → Holds conn p
      → Holds (record conn { max_frame_size = n }) p
  frame_size-Holds n conn p small h = record {
    falls = h.falls;
    next_pos = h.next_pos;
    within = elim h.within [
      | inl c ↦ inl c
      | inr w ↦ inr (record {
        frame_size = small;
        conn_int = w.conn_int;
        conn_below = w.conn_below;
        initial_int = w.initial_int;
        initial_same = w.initial_same;
        of_streams = w.of_streams;
        of_others = w.of_others;
      })
    ];
  }

  -- Settings that no window depends on.
  abbrev limits : ℕ → ℕ → Bool → ClientConn B → ClientConn B
  limits streams headers seen conn = record conn {
    max_concurrent_streams = streams;
    peer_max_header_list_size = headers;
    seen_settings = seen;
  }

  limits-Holds :
      (streams headers : ℕ) (seen : Bool) (conn : ClientConn B) (p : Peer)
      → Holds conn p
      → Holds (limits streams headers seen conn) p
  limits-Holds streams headers seen conn p h =
      Alike-Holds conn (limits streams headers seen conn) p
        (record {
          next = refl;
          flow = refl;
          initial = refl;
          frame = refl;
          wins = refl;
          closed = λ e. e;
        })
        h

  apply_setting-After :
      (s : Setting) (seen : Bool) (conn : ClientConn B) (p : Peer)
      → (s.id ≡ setting_max_frame_size → s.val < 2 ^ 31)
      → Holds conn p
      → After (behind s p) (apply_setting s (seen, conn))
  unfolding apply_setting
  apply_setting-After s seen conn p mild h = elim (Bool-cases (s.id == setting_max_frame_size)) [
    | inl e ↦
        let not_initial : (s.id == setting_initial_window_size) ≡ false = ground (arith, e) in
        rw (e, not_initial)
          (frame_size-Holds s.val conn p (mild ((==_iff s.id setting_max_frame_size).0 e)) h)
    | inr e5 ↦ elim (Bool-cases (s.id == setting_max_concurrent_streams)) [
      | inl e ↦
          let not_initial : (s.id == setting_initial_window_size) ≡ false = ground (arith, e) in
          rw (e5, e, not_initial)
            (limits-Holds s.val conn.peer_max_header_list_size conn.seen_settings conn p h)
      | inr e3 ↦ elim (Bool-cases (s.id == setting_max_header_list_size)) [
        | inl e ↦
            let not_initial : (s.id == setting_initial_window_size) ≡ false = ground (arith, e) in
            rw (e5, e3, e, not_initial)
              (limits-Holds conn.max_concurrent_streams s.val conn.seen_settings conn p h)
        | inr e6 ↦ elim (Bool-cases (s.id == setting_initial_window_size)) [
          | inr e4 ↦ rw (e5, e3, e6, e4) h
          | inl e4 ↦ elim (Bool-cases (ltb (2 ^ 31 - 1) s.val)) [
            | inl big ↦ rw (e5, e3, e6, e4, big) (h.falls, h.next_pos)
            | inr fine ↦
                rw (e5, e3, e6, e4, fine) (initial-Holds s.val conn p (ground (arith, fine)) h)
          ]
        ]
      ]
    ]
  ]

  -- The loop over the settings, from the answer of the first on.
  rest-After :
      (ss : List Setting) (p q : Peer) (r : Option Error × (Bool × ClientConn B))
      → After p r
      → ((seen : Bool) (conn : ClientConn B)
          → Holds conn p
          → After q (each_until_error apply_setting ss (seen, conn)))
      → After q (elim r.0 [ none ↦ each_until_error apply_setting ss r.1 | some e ↦ (some e, r.1) ])
  rest-After ss p q (none, (seen, conn)) h go_on = go_on seen conn h
  rest-After ss p q (some e, (seen, conn)) h go_on = h

  each-After :
      (ss : List Setting) (seen : Bool) (conn : ClientConn B) (p : Peer)
      → AllMild ss
      → Holds conn p
      → After
          (record p { initial = granted_initial ss p.initial })
          (each_until_error apply_setting ss (seen, conn))
  each-After [] seen conn p mild h = h
  each-After (s ∷ ss) seen conn p mild h =
      rest-After ss (behind s p) (record p { initial = granted_initial (s ∷ ss) p.initial })
        (apply_setting s (seen, conn)) (apply_setting-After s seen conn p mild.0 h)
        (λ seen' conn' h'. each-After ss seen' conn' (behind s p) mild.1 h')

  end_settings-Framed :
      (r : Option Error × (Bool × ClientConn B)) (p : Peer) → After p r → Framed p (end_settings r)
  unfolding end_settings
  end_settings-Framed (some e, (seen, conn)) p h = h
  end_settings-Framed (none, (seen, conn)) p h =
      if-either (Framed p) conn.seen_settings (none, conn)
        (
          none,
          limits (if seen then conn.max_concurrent_streams else default_max_concurrent_streams)
              conn.peer_max_header_list_size true conn,
        )
        h
        (limits-Holds (if seen then conn.max_concurrent_streams else default_max_concurrent_streams)
          conn.peer_max_header_list_size true conn p h)

  pub new_settings-Framed :
      (b : Bytes) (conn : ClientConn B) (p : Peer)
      → AllMild (settings_of b)
      → Holds conn p
      → Framed
          (record p { initial = granted_initial (settings_of b) p.initial })
          (process_settings false b conn)
  unfolding process_settings
  new_settings-Framed b conn p mild h =
      let q = record p { initial = granted_initial (settings_of b) p.initial } in
      end_settings-Framed (foreach_setting b apply_setting (false, conn)) q (
        subst (After q) (sym (foreach_setting-settings_of b apply_setting (false, conn)))
          (each-After (settings_of b) false conn p mild h))

  pub settings_ack-Framed :
      (b : Bytes) (conn : ClientConn B) (p : Peer)
      → Holds conn p
      → Framed p (process_settings true b conn)
  unfolding process_settings
  settings_ack-Framed b conn p h =
      if-either (Framed p) conn.want_settings_ack (none, record conn { want_settings_ack = false })
        (some (connection err_code_protocol), conn)
        (Alike-Holds conn (record conn { want_settings_ack = false }) p
          (record {
            next = refl;
            flow = refl;
            initial = refl;
            frame = refl;
            wins = refl;
            closed = λ e. e;
          })
          h)
        (h.falls, h.next_pos)
