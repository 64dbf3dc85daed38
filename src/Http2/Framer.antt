-- ===== src/Http2/Framer.antt =====
-- The type Framer of internal/http2/frame.go: its state, and `ReadFrame` up to the merging of
-- header blocks. `input` is what is left of the reader, which ends after it. `respond` is the
-- writer's answer to a `Write`, and `writes` holds the calls of `Write` so far. `counted` holds the
-- tokens that `countError` was called with.
pub mod Write
pub mod Wire
pub mod Delivery
pub mod RoundTrip
pub mod Control
pub mod SettingsFrames
pub mod HeaderBlocks
pub mod Inversion
pub mod Validity
pub mod Order
pub mod Progress
mod Examples
use mathlib.Core.Option
use req.Base.{
  ℕ, ◌+◌, ◌*◌, ◌%◌, ◌^◌, String, Bool, true, false, not, ◌&&◌, ◌||◌, ◌==◌, ltb, leb, Option, none,
  some, if◌then◌else◌, List, [], ◌∷◌, ◌++◌, length, take, drop,
}
use req.Base.Bytes.{Bytes, uint32}
use req.Http2.Errors.{
  Error, eof, unexpected_eof, frame_too_large, connection, conn_error, Detail, not_continuation,
  wrong_continuation, unexpected_continuation, err_code_protocol, ErrCode,
}
use req.Http2.Frame.{
  FrameHeader, has, flag_end_headers, frame_headers, frame_continuation, frame_header_len,
  max_frame_size, Frame, data_frame, headers_frame, priority_frame, rst_stream_frame,
  settings_frame, push_promise_frame, ping_frame, go_away_frame, window_update_frame,
  continuation_frame, unknown_frame, header,
}
use req.Http2.Frame.Parse.{Parsed, parsed, failed, type_frame_parser}

pub record Framer : Type 0 where
  pub last_frame : Option Frame
  pub err_detail : Option Detail
  pub counted : List String
  pub last_header_stream : ℕ
  pub max_read_size : ℕ
  pub input : Bytes
  pub respond : Bytes → ℕ × Option Error
  pub writes : List Bytes
  pub wbuf : Bytes
  pub allow_illegal_writes : Bool
  pub allow_illegal_reads : Bool
  pub max_header_list_size : ℕ

pub data Result {ℓ} (A : Type ℓ) : Type ℓ where
  ok : A → Result A
  err : Error → Result A

-- `SetMaxReadFrameSize`
abbrev pub set_max_read_frame_size : ℕ → Framer → Framer
set_max_read_frame_size v fr = record fr {
  max_read_size = if ltb max_frame_size v then max_frame_size else v;
}

-- `NewFramer`
abbrev pub new_framer : (Bytes → ℕ × Option Error) → Bytes → Framer
new_framer respond input = set_max_read_frame_size max_frame_size (record {
  last_frame = none;
  err_detail = none;
  counted = [];
  last_header_stream = 0;
  max_read_size = 0;
  input = input;
  respond = respond;
  writes = [];
  wbuf = [];
  allow_illegal_writes = false;
  allow_illegal_reads = false;
  max_header_list_size = 0;
})

-- `maxHeaderListSize`
unfoldable pub max_header_list_size : Framer → ℕ
max_header_list_size fr = if fr.max_header_list_size == 0 then 2 ^ 24 else fr.max_header_list_size

-- `io.ReadFull`: all of the buffer, or the error at the end of the input, which is then used up.
pub data Fill : Type 0 where
  filled : Bytes → Bytes → Fill
  short : Error → Fill

unfoldable pub read_full : ℕ → Bytes → Fill
read_full n input =
    if leb n (length input)
    then filled (take n input) (drop n input)
    else short (if length input == 0 then eof else unexpected_eof)

-- `readFrameHeader` over the nine bytes that `io.ReadFull` has filled in.
unfoldable pub decode_header : Bytes → FrameHeader
decode_header (b0 ∷ b1 ∷ b2 ∷ b3 ∷ b4 ∷ rest) = record {
  valid = true;
  ftype = b3;
  flags = b4;
  length = b0 * 2 ^ 16 + b1 * 2 ^ 8 + b2;
  stream_id = uint32 rest % 2 ^ 31;
}
decode_header _ = record { valid = false; ftype = 0; flags = 0; length = 0; stream_id = 0 }

-- `invalidate` clears the `valid` of the embedded header.
unfoldable pub invalidate : Frame → Frame
invalidate (data_frame fh d) = data_frame (record fh { valid = false }) d
invalidate (headers_frame fh p d) = headers_frame (record fh { valid = false }) p d
invalidate (priority_frame fh p) = priority_frame (record fh { valid = false }) p
invalidate (rst_stream_frame fh c) = rst_stream_frame (record fh { valid = false }) c
invalidate (settings_frame fh d) = settings_frame (record fh { valid = false }) d
invalidate (push_promise_frame fh n d) = push_promise_frame (record fh { valid = false }) n d
invalidate (ping_frame fh d) = ping_frame (record fh { valid = false }) d
invalidate (go_away_frame fh n c d) = go_away_frame (record fh { valid = false }) n c d
invalidate (window_update_frame fh n) = window_update_frame (record fh { valid = false }) n
invalidate (continuation_frame fh d) = continuation_frame (record fh { valid = false }) d
invalidate (unknown_frame fh d) = unknown_frame (record fh { valid = false }) d

-- The method `connError`.
unfoldable pub stash : ErrCode → Detail → Framer → Option Error × Framer
stash code reason fr = (some (connection code), record fr { err_detail = some reason })

-- The end of `checkFrameOrder`: which stream has an unfinished header block.
unfoldable pub track_headers : FrameHeader → Framer → Framer
track_headers fh fr =
    if fh.ftype == frame_headers || fh.ftype == frame_continuation
    then record fr {
      last_header_stream = if has fh.flags flag_end_headers then 0 else fh.stream_id;
    }
    else fr

unfoldable pub check_frame_order : Frame → Framer → Option Error × Framer
unfolding stash track_headers
check_frame_order f fr0 =
    let fr = record fr0 { last_frame = some f } in
    let fh = header f in
    if fr.allow_illegal_reads
    then (none, fr)
    else if not (fr.last_header_stream == 0)
    then (if not (fh.ftype == frame_continuation)
        then stash err_code_protocol
            (not_continuation fh.ftype fh.stream_id
              (Option.map (λ last. (header last).ftype) fr0.last_frame) fr.last_header_stream)
            fr
        else if not (fh.stream_id == fr.last_header_stream)
        then stash err_code_protocol (wrong_continuation fh.stream_id fr.last_header_stream) fr
        else (none, track_headers fh fr))
    else if fh.ftype == frame_continuation
    then stash err_code_protocol (unexpected_continuation fh.stream_id) fr
    else (none, track_headers fh fr)

-- A parser's `connError` becomes a `ConnectionError`, with its reason kept aside.
unfoldable pub report : Error → Framer → Result Frame × Framer
report (conn_error code reason) fr = (err (connection code), record fr { err_detail = some reason })
report e fr = (err e, fr)

unfoldable pub ordered : Frame → Option Error × Framer → Result Frame × Framer
ordered f (none, fr) = (ok f, fr)
ordered f (some e, fr) = (err e, fr)

unfoldable pub accept : Parsed Frame → Framer → Result Frame × Framer
unfolding report ordered
accept (failed token e) fr = report e (record fr { counted = fr.counted ++ token ∷ [] })
accept (parsed f) fr = ordered f (check_frame_order f fr)

-- What follows the read of the payload.
unfoldable pub take_payload : FrameHeader → Fill → Framer → Result Frame × Framer
unfolding accept
take_payload fh (short e) fr = (err e, record fr { input = [] })
take_payload fh (filled payload rest) fr =
    accept (type_frame_parser fh.ftype fh payload) (record fr { input = rest })

unfoldable pub read_payload : FrameHeader → Framer → Result Frame × Framer
read_payload fh fr =
    if ltb fr.max_read_size fh.length
    then (err frame_too_large, fr)
    else take_payload fh (read_full fh.length fr.input) fr

-- What follows the read of the header.
unfoldable pub take_header : Fill → Framer → Result Frame × Framer
take_header (short e) fr = (err e, record fr { input = [] })
take_header (filled buf rest) fr = read_payload (decode_header buf) (record fr { input = rest })

-- `ReadFrame` while `ReadMetaHeaders` is nil, and its part before the merging of header blocks.
unfoldable pub read_frame : Framer → Result Frame × Framer
read_frame fr0 =
    let fr = record fr0 { err_detail = none; last_frame = Option.map invalidate fr0.last_frame } in
    take_header (read_full frame_header_len fr.input) fr
