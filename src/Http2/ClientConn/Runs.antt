-- ===== src/Http2/ClientConn/Runs.antt =====
-- internal/http2/transport.go: runs of a client connection, against the windows as its peer sees
-- them, which are integers of any size.
use req.Base.{
  ℕ, zero, suc, ◌^◌, ◌<◌, ◌≡◌, Bool, false, ◌==◌, Option, none, some, ◌>>=?◌, if◌then◌else◌, List,
  [], ◌∷◌, All, ◌⊎◌, true,
}
use req.Base.Bytes.{Bytes}
use req.Base.Int.{ℤ, pos, ◌+ℤ◌, ◌-ℤ◌, ◌≤ℤ◌}
use req.Http2.Errors.{ErrCode, Error}
use req.Http2.Frame.{Setting, setting_initial_window_size}
use req.Http2.Frame.SettingList.{settings_of}
use req.Http2.ClientConn.{
  setting_max_frame_size, initial_window_size, Cause, ClientStream, GoAway, ClientConn, stream_at,
  reserve_new_request, decr_stream_reservations,
}
use req.Http2.ClientConn.Streams.{
  start_request, resume_request, forget_stream_id, close_if_idle, set_do_not_reuse, send_go_away,
  close_for_error, clean_up,
}
use req.Http2.ClientConn.Control.{
  Taken, taken, set_go_away, process_settings, process_window_update, process_reset_stream,
  await_flow_control, Processed, processed, deadlock,
}

-- A call by a goroutine of a request, of the pool or of the user, or a frame that the read loop has
-- read. `clean_up` follows a frame that is an error.
pub data Event (B : Type 0) : Type 0 where
  reserve : Bool → Event B
  drop_reservation mark_used shut_down close_idle : Event B
  start resume : Bool → Bool → ClientStream B → Event B
  forget : ℕ → Event B
  want : Option Cause → ℕ → ℕ → Event B
  settings : Bool → Bytes → Event B
  window_update : ℕ → ℕ → Event B
  reset_stream : ℕ → ErrCode → Event B
  go_away : GoAway → Event B
  force_close read_failed : Cause → Event B

-- What is sent: so many bytes of a stream.
abbrev pub Sent : Type 0
Sent = Option (ℕ × ℤ)

-- How one event goes, and how a run ends. What is blocked holds `cc.mu`.
pub data Step (B : Type 0) : Type 0 where
  panics : Step B
  stuck : ClientConn B → Step B
  goes : Sent → ClientConn B → Step B

pub data End (B : Type 0) : Type 0 where
  panicked : End B
  blocked ended : ClientConn B → End B

-- The windows that the peer grants: to the connection, to each stream at its start, and what it
-- added for a stream less what came on it.
pub record Peer : Type 0 where
  pub window : ℤ
  pub initial : ℤ
  pub offset : ℕ → ℤ

abbrev pub new_peer : Peer
new_peer = record {
  window = pos initial_window_size;
  initial = pos initial_window_size;
  offset = λ id. pos 0;
}

-- The windows behind the settings, an increment, and bytes that came.
abbrev pub granted_initial : List Setting → ℤ → ℤ
granted_initial [] i = i
granted_initial (s ∷ ss) i =
    granted_initial ss (if s.id == setting_initial_window_size then pos s.val else i)

abbrev pub more_for : ℕ → ℤ → (ℕ → ℤ) → ℕ → ℤ
more_for id n offset j = if j == id then offset j +ℤ n else offset j

abbrev pub spend : Sent → Peer → Peer
spend none p = p
spend (some (id, n)) p = record p {
  window = p.window -ℤ n;
  offset = more_for id (pos 0 -ℤ n) p.offset;
}

abbrev pub grant : {B : Type 0} → Event B → Peer → Peer
grant (settings false b) p = record p { initial = granted_initial (settings_of b) p.initial }
grant (window_update zero n) p = record p { window = p.window +ℤ pos n }
grant (window_update (suc id) n) p = record p { offset = more_for (suc id) (pos n) p.offset }
grant _ p = p

-- Nothing is sent beyond the windows.
abbrev pub IsPaid : Sent → Peer → Type 0
IsPaid none p = Unit
IsPaid (some (id, n)) p = (pos 0 ≤ℤ n) × (n ≤ℤ p.window) × (n ≤ℤ p.initial +ℤ p.offset id)

-- The peer takes a stream's window over 2^31 - 1.
abbrev pub Overflows : {B : Type 0} → Event B → Peer → Type 0
Overflows (window_update (suc id) n) p = pos (2 ^ 31) ≤ℤ p.initial +ℤ p.offset (suc id) +ℤ pos n
Overflows _ p = ⊥

-- An increment of 31 bits, and frame sizes that an int32 holds.
abbrev pub IsMild : {B : Type 0} → Event B → Type 0
IsMild (settings false b) =
    All (λ s. s.id ≡ setting_max_frame_size → s.val < 2 ^ 31) (settings_of b)
IsMild (window_update id n) = n < 2 ^ 31
IsMild _ = Unit

module _ {B : Type 0} where
  -- An error of a frame ends the read loop.
  abbrev pub on_error : Cause → Option Error × ClientConn B → Option (Sent × ClientConn B)
  on_error e (none, conn) = some (none, conn)
  on_error e (some error, conn) = some (none, clean_up e conn)

  abbrev pub silent : {A : Type 0} → Option (A × ClientConn B) → Option (Sent × ClientConn B)
  silent none = none
  silent (some (a, conn)) = some (none, conn)

  abbrev pub as_sent : ℕ → Option (Taken × ClientConn B) → Option (Sent × ClientConn B)
  as_sent id none = none
  as_sent id (some (taken n, conn)) = some (some (id, n), conn)
  as_sent id (some (waits, conn)) = some (none, conn)

  -- A call of `awaitFlowControl` or `forgetStreamID` by the goroutine of an open stream.
  abbrev pub want_at :
      Option Cause → ℕ → Option (ClientStream B) → ClientConn B → Option (Sent × ClientConn B)
  want_at canceled max_bytes none conn = some (none, conn)
  want_at canceled max_bytes (some cs) conn =
      as_sent cs.id (await_flow_control canceled max_bytes cs conn)

  abbrev pub forget_at : ℕ → Option (ClientStream B) → ClientConn B → Option (Sent × ClientConn B)
  forget_at id none conn = some (none, conn)
  forget_at id (some cs) conn = forget_stream_id id conn >>=? λ c. some (none, c)

  abbrev pub stepped : Option (Sent × ClientConn B) → Step B
  stepped none = panics
  stepped (some (sent, conn)) = goes sent conn

  abbrev pub on_window : Cause → Processed B → Step B
  on_window e (processed r) = stepped (on_error e r)
  on_window e (deadlock conn) = stuck conn

  -- No call of a run panics, whatever is sent in it is paid for, and it blocks only if the peer
  -- overflows a window.
  abbrev pub StepPaid :
      Event B → ClientConn B → Peer → (ClientConn B → Peer → Type 0) → Step B → Type 0
  StepPaid v conn p later panics = ⊥
  StepPaid v conn p later (stuck c) = (conn.closed ≡ true) ⊎ Overflows v p
  StepPaid v conn p later (goes sent c) = IsPaid sent p × later c (grant v (spend sent p))

  -- How a run ends.
  abbrev pub then_run : (ClientConn B → End B) → Step B → End B
  then_run later panics = panicked
  then_run later (stuck conn) = blocked conn
  then_run later (goes sent conn) = later conn

module _ {B : Type 0} (close : Cause → B → B) where
  abbrev pub step : Cause → Event B → ClientConn B → Step B
  step e (reserve too_idle) conn = stepped (silent (some (reserve_new_request too_idle conn)))
  step e drop_reservation conn = stepped (some (none, decr_stream_reservations conn))
  step e mark_used conn = stepped (some (none, set_do_not_reuse conn))
  step e shut_down conn = stepped (some (none, send_go_away conn))
  step e close_idle conn = stepped (some (none, close_if_idle conn))
  step e (start too_idle last cs) conn = stepped (silent (start_request too_idle last cs conn))
  step e (resume too_idle last cs) conn = stepped (silent (resume_request too_idle last cs conn))
  step e (forget id) conn = stepped (forget_at id (stream_at id conn.streams) conn)
  step e (want canceled id n) conn = stepped (want_at canceled n (stream_at id conn.streams) conn)
  step e (settings ack b) conn = stepped (on_error e (process_settings ack b conn))
  step e (window_update id n) conn = on_window e (process_window_update id n conn)
  step e (reset_stream id code) conn =
      stepped (some (none, process_reset_stream close id code conn))
  step e (go_away f) conn = stepped (some (none, set_go_away f conn))
  step e (force_close c) conn = stepped (some (none, close_for_error c conn))
  step e (read_failed c) conn = stepped (some (none, clean_up c conn))

  abbrev pub AllPaid : Cause → List (Event B) → ClientConn B → Peer → Type 0
  AllPaid e [] conn p = Unit
  AllPaid e (v ∷ vs) conn p = StepPaid v conn p (AllPaid e vs) (step e v conn)

  abbrev pub run : Cause → List (Event B) → ClientConn B → End B
  run e [] conn = ended conn
  run e (v ∷ vs) conn = then_run (run e vs) (step e v conn)
