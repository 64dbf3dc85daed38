-- ===== src/Http2/ClientConn/Drained.antt =====
-- internal/http2/transport.go: a connection that is closed, closes, is not to be used again, or got a
-- GOAWAY frame, under the calls of this side.
use req.Base.{
  ℕ, ◌≡◌, refl, ◌∙◌, Bool, true, false, ◌||◌, if-either, Option, none, some, ◌>>=?◌, arith, ◌-◌,
  inl,
}
use req.Http2.ClientConn.{
  Cause, ClientStream, ClientConn, can_take_new_request, decr_stream_reservations, delete_at,
}
use req.Http2.ClientConn.Streams.{
  Slot, unusable, open_slot, take_slot, start_request, resume_unless, resume_request, close_if_last,
  forget_stream_id,
}
use req.Http2.ClientConn.Control.{
  Taken, take_both, take_window, await_flow_control, limit_take, taken, conn_closed,
  stop_body_write, no_window, aborted,
}
use req.Http2.ClientConn.Runs.{Sent, silent, as_sent, want_at, forget_at}
use req.Base.Int.{ℤ, pos, ltb_ℤ}
use req.Http2.Flow.{Outflow, available, take_outflow}
use req.Http2.ClientConn.Marks.{Stable, Marked, delete_at-Marked, change_at-Marked}

module _ {B : Type 0} where
  abbrev pub stopped : ClientConn B → Bool
  stopped conn =
      conn.closed
      || conn.closing
      || conn.do_not_reuse
      || elim conn.go_away [ none ↦ false | some f ↦ true ]

  stopped-can_take :
      (too_idle : Bool) (conn : ClientConn B)
      → stopped conn ≡ true
      → can_take_new_request too_idle conn ≡ false
  unfolding can_take_new_request
  stopped-can_take too_idle conn h = ground arith

  stopped-open_slot :
      (too_idle : Bool) (conn : ClientConn B)
      → stopped conn ≡ true
      → open_slot too_idle conn ≡ unusable
  unfolding open_slot
  stopped-open_slot too_idle conn h = rw (stopped-can_take too_idle conn h) (ground arith)

module _ {B : Type 0} (g : ℕ → Option Cause → Type 0) where
  -- The same next stream, on a connection that has stopped, with the marks that were there.
  pub record Keeps (conn conn' : ClientConn B) : Type 0 where
    pub next : conn'.next_stream_id ≡ conn.next_stream_id
    pub stays : stopped conn' ≡ true
    pub marks : Marked g conn.streams → Marked g conn'.streams

  abbrev pub Kept {ℓ} : {A : Type ℓ} → ClientConn B → Option (A × ClientConn B) → Type 0
  Kept conn none = Unit
  Kept conn (some (a, conn')) = Keeps conn conn'

  -- A call that leaves the fields alone, or that closes.
  abbrev pub SameFields : ClientConn B → ClientConn B → Type 0
  SameFields conn conn' =
      (conn'.next_stream_id ≡ conn.next_stream_id)
      × (stopped conn' ≡ stopped conn)
      × (Marked g conn.streams → Marked g conn'.streams)

  pub same-Keeps :
      (conn conn' : ClientConn B) → SameFields conn conn' → stopped conn ≡ true → Keeps conn conn'
  same-Keeps conn conn' same h = record { next = same.0; stays = same.1 ∙ h; marks = same.2 }

module _ {B : Type 0} (g : ℕ → Option Cause → Type 0) (stable : Stable g) where
  pub start-Kept :
      (too_idle last : Bool) (cs : ClientStream B) (conn : ClientConn B)
      → stopped conn ≡ true
      → Kept g conn (start_request too_idle last cs conn)
  unfolding start_request take_slot decr_stream_reservations
  start-Kept too_idle last cs conn h =
      let c = decr_stream_reservations conn in
      rw (stopped-open_slot too_idle c h) (same-Keeps g conn c (refl, refl, λ m. m) h)

  resume_unless-Kept :
      (e : Option Cause) (too_idle last : Bool) (cs : ClientStream B) (conn : ClientConn B)
      → stopped conn ≡ true
      → Kept g conn (resume_unless e too_idle last cs conn)
  unfolding resume_unless take_slot
  resume_unless-Kept (some e) too_idle last cs conn h =
      same-Keeps g conn conn (refl, refl, λ m. m) h
  resume_unless-Kept none too_idle last cs conn h =
      rw (stopped-open_slot too_idle conn h) (same-Keeps g conn conn (refl, refl, λ m. m) h)

  pub Kept-on :
      {A : Type 0} (conn c : ClientConn B) (r : Option (A × ClientConn B))
      → c.next_stream_id ≡ conn.next_stream_id
      → (Marked g conn.streams → Marked g c.streams)
      → Kept g c r
      → Kept g conn r
  Kept-on conn c none e s k = tt
  Kept-on conn c (some (a, conn')) e s k = record {
    next = k.next ∙ e;
    stays = k.stays;
    marks = λ m. k.marks (s m);
  }

  pub resume-Kept :
      (too_idle last : Bool) (cs : ClientStream B) (conn : ClientConn B)
      → stopped conn ≡ true
      → Kept g conn (resume_request too_idle last cs conn)
  unfolding resume_request
  resume-Kept too_idle last cs conn h =
      let c : ClientConn B = record conn { pending_requests = conn.pending_requests - 1 } in
      Kept-on conn c (resume_unless cs.abort too_idle last cs c) refl (λ m. m)
        (resume_unless-Kept cs.abort too_idle last cs c h)

  pub silent-Kept :
      (conn : ClientConn B) (r : Option (Slot × ClientConn B))
      → Kept g conn r
      → Kept g conn (silent r)
  silent-Kept conn none k = tt
  silent-Kept conn (some (slot, conn')) k = k

  close_if_last-Keeps :
      (conn : ClientConn B) → stopped conn ≡ true → Keeps g conn (close_if_last conn)
  unfolding close_if_last
  close_if_last-Keeps conn h =
      if-either (Keeps g conn) _ (record conn { closed = true }) conn
        (record { next = refl; stays = refl; marks = λ m. m })
        (same-Keeps g conn conn (refl, refl, λ m. m) h)

  forget_stream_id-Kept :
      (id : ℕ) (conn : ClientConn B)
      → stopped conn ≡ true
      → Kept g {A = Sent} conn (forget_stream_id id conn >>=? λ c. some (none, c))
  unfolding forget_stream_id
  forget_stream_id-Kept id conn h =
      let c : ClientConn B = record conn { streams = delete_at id conn.streams } in
      let k = close_if_last-Keeps c h in
      if-either (λ (r : Option (ClientConn B)). Kept g {A = Sent} conn (r >>=? λ x. some (none, x)))
        _ (some (close_if_last c)) none
        (record {
          next = k.next;
          stays = k.stays;
          marks = λ m. k.marks (delete_at-Marked g id conn.streams m);
        })
        tt

  pub forget-Kept :
      (id : ℕ) (o : Option (ClientStream B)) (conn : ClientConn B)
      → stopped conn ≡ true
      → Kept g conn (forget_at id o conn)
  forget-Kept id none conn h = same-Keeps g conn conn (refl, refl, λ m. m) h
  forget-Kept id (some cs) conn h = forget_stream_id-Kept id conn h

  -- What a stream takes.
  take_both-Kept :
      (id : ℕ) (n : ℤ) (f : Option Outflow) (conn : ClientConn B)
      → stopped conn ≡ true
      → Kept g conn (take_both id n f conn)
  unfolding take_both
  take_both-Kept id n none conn h = tt
  take_both-Kept id n (some f) conn h = record {
    next = refl;
    stays = h;
    marks =
        change_at-Marked g id (λ s. record s { flow = f.n }) conn.streams stable
          (λ s. (refl, inl refl));
  }

  take_window-Kept :
      (max_bytes : ℕ) (cs : ClientStream B) (conn : ClientConn B)
      → stopped conn ≡ true
      → Kept g conn (take_window max_bytes cs conn)
  unfolding take_window
  take_window-Kept max_bytes cs conn h =
      let f : Outflow = record { n = cs.flow; conn = some conn.flow } in
      let n = limit_take (available f) max_bytes conn.max_frame_size in
      if-either (Kept g conn) (ltb_ℤ (pos 0) (available f))
        (take_both cs.id n (take_outflow n f) conn) (some (no_window, conn))
        (take_both-Kept cs.id n (take_outflow n f) conn h)
        (same-Keeps g conn conn (refl, refl, λ m. m) h)

  unless_over-Kept :
      (e canceled : Option Cause) (max_bytes : ℕ) (cs : ClientStream B) (conn : ClientConn B)
      → stopped conn ≡ true
      → Kept g conn (elim e [
        | some e ↦ some (aborted e, conn)
        | none ↦ elim canceled [
          | some e ↦ some (aborted e, conn)
          | none ↦ take_window max_bytes cs conn
        ]
      ])
  unless_over-Kept (some e) canceled max_bytes cs conn h =
      same-Keeps g conn conn (refl, refl, λ m. m) h
  unless_over-Kept none (some e) max_bytes cs conn h = same-Keeps g conn conn (refl, refl, λ m. m) h
  unless_over-Kept none none max_bytes cs conn h = take_window-Kept max_bytes cs conn h

  await-Kept :
      (canceled : Option Cause) (max_bytes : ℕ) (cs : ClientStream B) (conn : ClientConn B)
      → stopped conn ≡ true
      → Kept g conn (await_flow_control canceled max_bytes cs conn)
  unfolding await_flow_control
  await-Kept canceled max_bytes cs conn h =
      let still = same-Keeps g conn conn (refl, refl, λ m. m) h in
      if-either (Kept g conn) conn.closed (some (conn_closed, conn)) _ still (
        if-either (Kept g conn) cs.req_body_closed (some (stop_body_write, conn)) _ still
          (unless_over-Kept cs.abort canceled max_bytes cs conn h))

  as_sent-Kept :
      (id : ℕ) (conn : ClientConn B) (r : Option (Taken × ClientConn B))
      → Kept g conn r
      → Kept g conn (as_sent id r)
  as_sent-Kept id conn none k = tt
  as_sent-Kept id conn (some (taken n, conn')) k = k
  as_sent-Kept id conn (some (conn_closed, conn')) k = k
  as_sent-Kept id conn (some (stop_body_write, conn')) k = k
  as_sent-Kept id conn (some (no_window, conn')) k = k
  as_sent-Kept id conn (some (aborted e, conn')) k = k

  pub want-Kept :
      (canceled : Option Cause) (n : ℕ) (o : Option (ClientStream B)) (conn : ClientConn B)
      → stopped conn ≡ true
      → Kept g conn (want_at canceled n o conn)
  want-Kept canceled n none conn h = same-Keeps g conn conn (refl, refl, λ m. m) h
  want-Kept canceled n (some cs) conn h =
      as_sent-Kept cs.id conn (await_flow_control canceled n cs conn)
        (await-Kept canceled n cs conn h)
