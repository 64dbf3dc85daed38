-- ===== src/Http2/ClientConn.antt =====
-- internal/http2/transport.go: the state of a client connection and of its streams, with the methods
-- that open and end streams, and what the read loop makes of the frames about windows, settings and
-- errors. Each stretch that holds `cc.mu` is one step. `none` is a panic.
-- `streams` is a list, in which no identifier stands twice. `B` is what a stream's `bufPipe` may be.
-- An outflow of a stream is its number `n`; what its `conn` points to is `flow` of the connection.
pub mod Streams
pub mod Control
pub mod Windows
pub mod Runs
pub mod Within
pub mod Opens
pub mod WindowUpdates
pub mod NewSettings
pub mod Taking
pub mod Resets
pub mod Paid
pub mod Drained
pub mod Marks
pub mod FrameKeeps
pub mod Silence
pub mod Drains
pub mod Afterwards
pub mod GoneAway
pub mod GoAways
mod Examples
pub mod Bodies
pub mod Accounts
pub mod Balance
pub mod FrameBalance
pub mod DataFrames
pub mod ReadBalance
pub mod Accounted
pub mod Ledgers
pub mod Books
pub mod Scratch
mod BodyExamples
use req.Base.{
  ℕ, zero, suc, ◌+◌, ◌-◌, ◌*◌, ◌%◌, ◌^◌, Bool, true, false, not, ◌&&◌, ◌||◌, ◌==◌, ltb, leb, Option,
  none, some, ◌>>=?◌, if◌then◌else◌, List, [], ◌∷◌, ◌++◌, map, length,
}
use req.Base.Bytes.{Bytes}
use req.Base.Int.{ℤ, pos, ◌+ℤ◌, ◌-ℤ◌, ltb_ℤ, int32}
use req.Http2.Errors.{
  ErrCode, Error, connection, err_code_no, err_code_protocol, err_code_flow_control,
}
use req.Http2.Frame.{Setting, setting_initial_window_size}
use req.Http2.Frame.Settings.{foreach_setting}
use req.Http2.Flow.{Inflow, init_inflow, Outflow, available, take_outflow, add_outflow}

abbrev pub setting_max_concurrent_streams : ℕ
setting_max_concurrent_streams = 0x3

abbrev pub setting_max_frame_size : ℕ
setting_max_frame_size = 0x5

abbrev pub setting_max_header_list_size : ℕ
setting_max_header_list_size = 0x6

abbrev pub initial_window_size : ℕ
initial_window_size = 65535

abbrev pub transport_default_conn_flow : ℕ
transport_default_conn_flow = 2 ^ 30

abbrev pub transport_default_stream_flow : ℕ
transport_default_stream_flow = 4 * 2 ^ 20

abbrev pub initial_max_concurrent_streams : ℕ
initial_max_concurrent_streams = 100

abbrev pub default_max_concurrent_streams : ℕ
default_max_concurrent_streams = 1000

-- Why a stream is aborted: `errClientConnGotGoAway`, the error for the first stream, a StreamError
-- of this side, or with the cause `errFromPeer`, and any other error by a number.
pub data Cause : Type 0 where
  got_go_away : Cause
  go_away_code : ErrCode → Cause
  stream_error : ℕ → ErrCode → Cause
  from_peer : ℕ → ErrCode → Cause
  other : ℕ → Cause

-- `abort` is `abortErr`, once the channel `abort` is closed.
pub record ClientStream (B : Type 0) : Type 0 where
  pub id : ℕ
  pub flow : ℤ
  pub inflow : Inflow
  pub abort : Option Cause
  pub has_req_body : Bool
  pub req_body_closed : Bool
  pub is_head : Bool
  pub past_headers : Bool
  pub read_closed : Bool
  pub read_aborted : Bool
  pub buf_pipe : B

-- The fields of a GOAWAY frame that are kept, and `goAwayDebug`.
pub record GoAway : Type 0 where
  pub last_stream_id : ℕ
  pub err_code : ErrCode
  pub debug : Bytes

pub record ClientConn (B : Type 0) : Type 0 where
  pub single_use : Bool
  pub strict_max_concurrent_streams : Bool
  pub disable_keep_alives : Bool
  pub flow : ℤ
  pub inflow : Inflow
  pub do_not_reuse : Bool
  pub closing : Bool
  pub closed : Bool
  pub seen_settings : Bool
  pub want_settings_ack : Bool
  pub go_away : Option GoAway
  pub streams : List (ClientStream B)
  pub streams_reserved : ℕ
  pub next_stream_id : ℕ
  pub pending_requests : ℕ
  pub max_frame_size : ℕ
  pub max_concurrent_streams : ℕ
  pub peer_max_header_list_size : ℕ
  pub initial_window_size : ℕ

-- `initialStreamID`, where `id` is the transport's setting.
unfoldable pub initial_stream_id : ℕ → ℕ
initial_stream_id id =
    if id == 0 || ltb (2 ^ 31 - 1) id
    then 1
    else if id % 2 == 0
    then (if ltb (2 ^ 31 - 1) (id + 1) then 1 else id + 1)
    else id

-- The loop of `newClientConn` over the transport's settings, for the frame size.
unfoldable pub own_max_frame_size : List Setting → ℕ → ℕ
own_max_frame_size [] n = n
own_max_frame_size (s ∷ ss) n =
    own_max_frame_size ss (if s.id == setting_max_frame_size then s.val else n)

-- The loop over the streams of the PRIORITY frames that are sent first.
unfoldable pub after_priorities : List ℕ → ℕ → ℕ
after_priorities [] next = next
after_priorities (id ∷ ids) next = after_priorities ids ((id + 2) % 2 ^ 32)

-- What the transport sets for a connection.
pub record Config : Type 0 where
  pub stream_id : ℕ
  pub settings : List Setting
  pub connection_flow : ℕ
  pub priority_streams : List ℕ
  pub strict : Bool
  pub no_keep_alives : Bool

-- `newClientConn`
unfoldable pub new_client_conn : {B : Type 0} → Config → Bool → ClientConn B
unfolding initial_stream_id own_max_frame_size after_priorities add_outflow init_inflow
new_client_conn c single_use =
    let conn_flow =
      if ltb c.connection_flow 1 then transport_default_conn_flow else c.connection_flow in
    record {
      single_use = single_use;
      strict_max_concurrent_streams = c.strict;
      disable_keep_alives = c.no_keep_alives;
      flow = (add_outflow (pos initial_window_size) (record { n = pos 0; conn = none })).1.n;
      inflow = init_inflow (int32 (int32 (pos conn_flow) +ℤ pos initial_window_size));
      do_not_reuse = false;
      closing = false;
      closed = false;
      seen_settings = false;
      want_settings_ack = true;
      go_away = none;
      streams = [];
      streams_reserved = 0;
      next_stream_id = after_priorities c.priority_streams (initial_stream_id c.stream_id);
      pending_requests = 0;
      max_frame_size = own_max_frame_size c.settings (16 * 2 ^ 10);
      max_concurrent_streams = initial_max_concurrent_streams;
      peer_max_header_list_size = 2 ^ 64 - 1;
      initial_window_size = initial_window_size;
    }

-- `abortStreamLocked`
unfoldable pub abort_stream : {B : Type 0} → Cause → ClientStream B → ClientStream B
abort_stream e cs = record cs {
  abort = elim cs.abort [ none ↦ some e | some first ↦ some first ];
  req_body_closed = cs.req_body_closed || cs.has_req_body;
}

module _ {B : Type 0} where
  -- `cc.streams[id]`, a change of what it points to, and `delete(cc.streams, id)`.
  unfoldable pub stream_at : ℕ → List (ClientStream B) → Option (ClientStream B)
  stream_at id [] = none
  stream_at id (cs ∷ ss) = if cs.id == id then some cs else stream_at id ss

  unfoldable pub change_at :
      ℕ → (ClientStream B → ClientStream B) → List (ClientStream B) → List (ClientStream B)
  change_at id f [] = []
  change_at id f (cs ∷ ss) = (if cs.id == id then f cs else cs) ∷ change_at id f ss

  unfoldable pub delete_at : ℕ → List (ClientStream B) → List (ClientStream B)
  delete_at id [] = []
  delete_at id (cs ∷ ss) = if cs.id == id then delete_at id ss else cs ∷ delete_at id ss

  abbrev pub change_stream : ℕ → (ClientStream B → ClientStream B) → ClientConn B → ClientConn B
  change_stream id f conn = record conn { streams = change_at id f conn.streams }

  -- `idleStateLocked`. Whether the connection was idle for too long is a matter of the clock.
  unfoldable pub can_take_new_request : Bool → ClientConn B → Bool
  can_take_new_request too_idle conn =
      let concurrent_okay =
        conn.strict_max_concurrent_streams
        || leb (length conn.streams + conn.streams_reserved + 1) conn.max_concurrent_streams in
      if conn.single_use && ltb 1 conn.next_stream_id
      then false
      else elim conn.go_away [ none ↦ true | some f ↦ false ]
        && not conn.closed
        && not conn.closing
        && concurrent_okay
        && not conn.do_not_reuse
        && ltb (conn.next_stream_id + 2 * conn.pending_requests) (2 ^ 31 - 1)
        && not too_idle

  -- `ReserveNewRequest`
  unfoldable pub reserve_new_request : Bool → ClientConn B → Bool × ClientConn B
  unfolding can_take_new_request
  reserve_new_request too_idle conn =
      if can_take_new_request too_idle conn
      then (true, record conn { streams_reserved = conn.streams_reserved + 1 })
      else (false, conn)

  -- `decrStreamReservationsLocked`
  unfoldable pub decr_stream_reservations : ClientConn B → ClientConn B
  decr_stream_reservations conn = record conn { streams_reserved = conn.streams_reserved - 1 }
