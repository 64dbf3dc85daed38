-- ===== src/Http2/ClientConn/FrameKeeps.antt =====
-- internal/http2/transport.go: SETTINGS and WINDOW_UPDATE frames on a connection that has stopped.
use req.Base.{
  ℕ, suc, zero, refl, ◌∙◌, Bool, true, false, if-either, Option, none, some, List, [], ◌∷◌, arith,
  inl,
}
use req.Base.Bytes.{Bytes}
use req.Base.Int.{pos, int32, ◌-ℤ◌}
use req.Http2.Errors.{Error, connection, err_code_flow_control, err_code_protocol}
use req.Http2.Frame.{Setting}
use req.Http2.Frame.Settings.{foreach_setting}
use req.Http2.Frame.SettingList.{settings_of, each_until_error, foreach_setting-settings_of}
use req.Http2.Flow.{add_outflow}
use req.Http2.ClientConn.{Cause, ClientStream, ClientConn, change_stream}
use req.Http2.ClientConn.Control.{
  apply_setting, end_settings, process_settings, grow_conn, update_window, Processed, processed,
  deadlock, grow_stream, shift_flow,
}
use req.Http2.ClientConn.Drained.{SameFields}
use req.Http2.ClientConn.Marks.{Stable, Marked, map-Marked, change_at-Marked}

module _ {B : Type 0} (g : ℕ → Option Cause → Type 0) (stable : Stable g) where
  apply_setting-Marked :
      (s : Setting) (seen : Bool) (conn : ClientConn B)
      → Marked g conn.streams
      → Marked g (apply_setting s (seen, conn)).1.1.streams
  unfolding apply_setting shift_flow
  apply_setting-Marked s seen conn m =
      let delta = int32 (int32 (pos s.val) -ℤ int32 (pos conn.initial_window_size)) in
      let shifted =
        map-Marked g (shift_flow delta) conn.streams stable (λ cs. (refl, inl refl)) m in
      ground arith

  apply_setting-same :
      (s : Setting) (seen : Bool) (conn : ClientConn B)
      → SameFields g conn (apply_setting s (seen, conn)).1.1
  unfolding apply_setting
  apply_setting-same s seen conn =
      let delta = int32 (int32 (pos s.val) -ℤ int32 (pos conn.initial_window_size)) in
      (ground arith, ground arith, apply_setting-Marked s seen conn)

  abbrev Same : ClientConn B → Option Error × (Bool × ClientConn B) → Type 0
  Same conn r = SameFields g conn r.1.1

  rest-Same :
      (ss : List Setting) (conn : ClientConn B) (r : Option Error × (Bool × ClientConn B))
      → Same conn r
      → ((seen : Bool) (c : ClientConn B) → Same c (each_until_error apply_setting ss (seen, c)))
      → Same conn
          (elim r.0 [ none ↦ each_until_error apply_setting ss r.1 | some e ↦ (some e, r.1) ])
  rest-Same ss conn (none, (seen, c)) h go_on =
      let k = go_on seen c in (k.0 ∙ h.0, k.1 ∙ h.1, λ m. k.2 (h.2 m))
  rest-Same ss conn (some e, (seen, c)) h go_on = h

  each-Same :
      (ss : List Setting) (seen : Bool) (conn : ClientConn B)
      → Same conn (each_until_error apply_setting ss (seen, conn))
  each-Same [] seen conn = (refl, refl, λ m. m)
  each-Same (s ∷ ss) seen conn =
      rest-Same ss conn (apply_setting s (seen, conn)) (apply_setting-same s seen conn)
        (λ seen' c. each-Same ss seen' c)

  end_settings-same :
      (conn : ClientConn B) (r : Option Error × (Bool × ClientConn B))
      → SameFields g conn r.1.1
      → SameFields g conn (end_settings r).1
  unfolding end_settings
  end_settings-same conn (some e, (seen, c)) h = h
  end_settings-same conn (none, (seen, c)) h =
      if-either (λ (q : Option Error × ClientConn B). SameFields g conn q.1) c.seen_settings
        (none, c) _ h h

  pub process_settings-same :
      (ack : Bool) (b : Bytes) (conn : ClientConn B)
      → SameFields g conn (process_settings ack b conn).1
  unfolding process_settings
  process_settings-same true b conn =
      if-either (λ (q : Option Error × ClientConn B). SameFields g conn q.1) conn.want_settings_ack
        (none, record conn { want_settings_ack = false })
        (some (connection err_code_protocol), conn) (refl, refl, λ m. m) (refl, refl, λ m. m)
  process_settings-same false b conn =
      end_settings-same conn (foreach_setting b apply_setting (false, conn)) (
        rw (foreach_setting-settings_of b apply_setting (false, conn))
          (each-Same (settings_of b) false conn))

  -- The windows.
  grow_conn-same : (n : ℕ) (conn : ClientConn B) → SameFields g conn (grow_conn n conn).1
  unfolding grow_conn
  grow_conn-same n conn =
      let r = add_outflow (int32 (pos n)) (record { n = conn.flow; conn = none }) in
      if-either (λ (q : Option Error × ClientConn B). SameFields g conn q.1) r.0
        (none, record conn { flow = r.1.n }) (some (connection err_code_flow_control), conn)
        (refl, refl, λ m. m) (refl, refl, λ m. m)

  abbrev pub AfterWindow : ClientConn B → Processed B → Type 0
  AfterWindow conn (processed r) = SameFields g conn r.1
  AfterWindow conn (deadlock c) = SameFields g conn c

  pub update_window-same :
      (o : Option (ClientStream B)) (id n : ℕ) (conn : ClientConn B)
      → AfterWindow conn (update_window o id n conn)
  unfolding update_window grow_stream
  update_window-same (some cs) id n conn =
      if-either (AfterWindow conn) _ (processed (none, change_stream id (grow_stream n) conn))
        (deadlock (change_stream id (λ s. record s { read_aborted = true }) conn))
        (
          refl,
          refl,
          change_at-Marked g id (grow_stream n) conn.streams stable (λ s. (refl, inl refl)),
        )
        (
          refl,
          refl,
          change_at-Marked g id (λ s. record s { read_aborted = true }) conn.streams stable
              (λ s. (refl, inl refl)),
        )
  update_window-same none zero n conn = grow_conn-same n conn
  update_window-same none (suc id) n conn = (refl, refl, λ m. m)
