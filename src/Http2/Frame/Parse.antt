-- ===== src/Http2/Frame/Parse.antt =====
-- The frame parsers of internal/http2/frame.go. A parser returns the frame, or the error with the
-- token that it handed to `countError`; every error path counts exactly one token.
use req.Base.{
  ℕ, ◌-◌, ◌%◌, ◌^◌, String, Bool, true, false, not, ◌&&◌, ◌==◌, ltb, Option, none, some,
  if◌then◌else◌, [], ◌∷◌, length, take, drop,
}
use req.Base.Bytes.{Bytes, uint32}
use req.Http2.Errors.{
  Error, unexpected_eof, connection, conn_error, stream_error, data_stream_zero, data_pad_too_big,
  headers_stream_zero, priority_stream_zero, priority_size, continuation_stream_zero,
  err_code_protocol, err_code_frame_size, err_code_flow_control,
}
use req.Http2.Frame.Settings.{value, window_too_big}
use req.Http2.Frame.{
  FrameHeader, PriorityParam, zero_priority, setting_initial_window_size, FrameType, has,
  flag_padded, flag_ack, flag_headers_priority, Frame, data_frame, headers_frame, priority_frame,
  rst_stream_frame, settings_frame, push_promise_frame, ping_frame, go_away_frame,
  window_update_frame, continuation_frame, unknown_frame, frame_data, frame_headers, frame_priority,
  frame_rst_stream, frame_settings, frame_push_promise, frame_ping, frame_go_away,
  frame_window_update, frame_continuation,
}

pub data Parsed {ℓ} (A : Type ℓ) : Type ℓ where
  parsed : A → Parsed A
  failed : String → Error → Parsed A

infixl 5 ◌>>=◌
abbrev pub ◌>>=◌ {ℓ κ} : {A : Type ℓ} {B : Type κ} → Parsed A → (A → Parsed B) → Parsed B
parsed a >>= f = f a
failed token e >>= f = failed token e

-- `readByte` and `readUint32`; the only error is `io.ErrUnexpectedEOF`.
unfoldable pub read_byte : Bytes → Option (Bytes × ℕ)
read_byte [] = none
read_byte (b ∷ p) = some (p, b)

unfoldable pub read_uint32 : Bytes → Option (Bytes × ℕ)
read_uint32 p = if ltb (length p) 4 then none else some (drop 4 p, uint32 p)

-- The error of a short read, with the token that the caller counts.
unfoldable pub or_short {ℓ} : {A : Type ℓ} → String → Option A → Parsed A
or_short token none = failed token unexpected_eof
or_short token (some a) = parsed a

-- The pad length, read only if the frame has the flag.
unfoldable pub read_pad_length : String → Bool → Bytes → Parsed (Bytes × ℕ)
unfolding or_short read_byte
read_pad_length token padded p = if padded then or_short token (read_byte p) else parsed (p, 0)

-- The data without its padding.
unfoldable pub data_unpadded : FrameHeader → Bytes × ℕ → Parsed Frame
data_unpadded fh (p, pad_size) =
    if ltb (length p) pad_size
    then failed "frame_data_pad_too_big" (conn_error err_code_protocol data_pad_too_big)
    else parsed (data_frame fh (take (length p - pad_size) p))

unfoldable pub parse_data_frame : FrameHeader → Bytes → Parsed Frame
parse_data_frame fh payload =
    if fh.stream_id == 0
    then failed "frame_data_stream_0" (conn_error err_code_protocol data_stream_zero)
    else read_pad_length "frame_data_pad_byte_short" (has fh.flags flag_padded) payload
      >>= data_unpadded fh

unfoldable pub parse_settings_frame : FrameHeader → Bytes → Parsed Frame
parse_settings_frame fh p =
    if has fh.flags flag_ack && ltb 0 fh.length
    then failed "frame_settings_ack_with_length" (connection err_code_frame_size)
    else if not (fh.stream_id == 0)
    then failed "frame_settings_has_stream" (connection err_code_protocol)
    else if not (length p % 6 == 0)
    then failed "frame_settings_mod_6" (connection err_code_frame_size)
    else if window_too_big (value p setting_initial_window_size)
    then failed "frame_settings_window_size_too_big" (connection err_code_flow_control)
    else parsed (settings_frame fh p)

unfoldable pub parse_ping_frame : FrameHeader → Bytes → Parsed Frame
parse_ping_frame fh payload =
    if not (length payload == 8)
    then failed "frame_ping_length" (connection err_code_frame_size)
    else if not (fh.stream_id == 0)
    then failed "frame_ping_has_stream" (connection err_code_protocol)
    else parsed (ping_frame fh payload)

unfoldable pub parse_go_away_frame : FrameHeader → Bytes → Parsed Frame
parse_go_away_frame fh p =
    if not (fh.stream_id == 0)
    then failed "frame_goaway_has_stream" (connection err_code_protocol)
    else if ltb (length p) 8
    then failed "frame_goaway_short" (connection err_code_frame_size)
    else parsed (go_away_frame fh (uint32 p % 2 ^ 31) (uint32 (drop 4 p)) (drop 8 p))

unfoldable pub parse_unknown_frame : FrameHeader → Bytes → Parsed Frame
parse_unknown_frame fh p = parsed (unknown_frame fh p)

unfoldable pub parse_window_update_frame : FrameHeader → Bytes → Parsed Frame
parse_window_update_frame fh p =
    if not (length p == 4)
    then failed "frame_windowupdate_bad_len" (connection err_code_frame_size)
    else if uint32 p % 2 ^ 31 == 0
    then (if fh.stream_id == 0
        then failed "frame_windowupdate_zero_inc_conn" (connection err_code_protocol)
        else failed "frame_windowupdate_zero_inc_stream"
            (stream_error fh.stream_id err_code_protocol))
    else parsed (window_update_frame fh (uint32 p % 2 ^ 31))

-- The priority fields, read only if the frame has the flag.
unfoldable pub read_priority : Bool → Bytes → Parsed (Bytes × PriorityParam)
unfolding or_short read_byte read_uint32
read_priority false p = parsed (p, zero_priority)
read_priority true p = do
  (q, v) ← or_short "frame_headers_prio_short" (read_uint32 p)
  (r, weight) ← or_short "frame_headers_prio_weight_short" (read_byte q)
  let dep = v % 2 ^ 31
  parsed (r, record { stream_dep = dep; exclusive = not (v == dep); weight = weight })

-- The fragment without its padding.
unfoldable pub headers_unpadded : FrameHeader → ℕ → Bytes × PriorityParam → Parsed Frame
headers_unpadded fh pad_length (p, priority) =
    if ltb (length p) pad_length
    then failed "frame_headers_pad_too_big" (stream_error fh.stream_id err_code_protocol)
    else parsed (headers_frame fh priority (take (length p - pad_length) p))

-- What follows the pad length: the priority and the fragment.
unfoldable pub headers_body : FrameHeader → Bytes × ℕ → Parsed Frame
headers_body fh (q, pad_length) =
    read_priority (has fh.flags flag_headers_priority) q >>= headers_unpadded fh pad_length

unfoldable pub parse_headers_frame : FrameHeader → Bytes → Parsed Frame
parse_headers_frame fh payload =
    if fh.stream_id == 0
    then failed "frame_headers_zero_stream" (conn_error err_code_protocol headers_stream_zero)
    else read_pad_length "frame_headers_pad_short" (has fh.flags flag_padded) payload
      >>= headers_body fh

-- `payload[4]`, behind the test that the payload has five bytes
unfoldable pub byte_at_4 : Bytes → ℕ
byte_at_4 (_ ∷ _ ∷ _ ∷ _ ∷ b ∷ _) = b
byte_at_4 _ = 0

unfoldable pub parse_priority_frame : FrameHeader → Bytes → Parsed Frame
unfolding byte_at_4
parse_priority_frame fh payload =
    if fh.stream_id == 0
    then failed "frame_priority_zero_stream" (conn_error err_code_protocol priority_stream_zero)
    else if not (length payload == 5)
    then failed "frame_priority_bad_length"
        (conn_error err_code_frame_size (priority_size (length payload)))
    else let v = uint32 payload in
      let dep = v % 2 ^ 31 in
      parsed (
        priority_frame fh
          (record { stream_dep = dep; exclusive = not (dep == v); weight = byte_at_4 payload }))

unfoldable pub parse_rst_stream_frame : FrameHeader → Bytes → Parsed Frame
parse_rst_stream_frame fh p =
    if not (length p == 4)
    then failed "frame_rststream_bad_len" (connection err_code_frame_size)
    else if fh.stream_id == 0
    then failed "frame_rststream_zero_stream" (connection err_code_protocol)
    else parsed (rst_stream_frame fh (uint32 p))

unfoldable pub parse_continuation_frame : FrameHeader → Bytes → Parsed Frame
parse_continuation_frame fh p =
    if fh.stream_id == 0
    then failed "frame_continuation_zero_stream"
        (conn_error err_code_protocol continuation_stream_zero)
    else parsed (continuation_frame fh p)

-- The promised stream's fragment without its padding.
unfoldable pub push_promise_unpadded : FrameHeader → ℕ → Bytes × ℕ → Parsed Frame
push_promise_unpadded fh pad_length (p, v) =
    if ltb (length p) pad_length
    then failed "frame_pushpromise_pad_too_big" (connection err_code_protocol)
    else parsed (push_promise_frame fh (v % 2 ^ 31) (take (length p - pad_length) p))

-- What follows the pad length: the promised stream and the fragment.
unfoldable pub push_promise_body : FrameHeader → Bytes × ℕ → Parsed Frame
push_promise_body fh (q, pad_length) =
    or_short "frame_pushpromise_promiseid_short" (read_uint32 q)
    >>= push_promise_unpadded fh pad_length

unfoldable pub parse_push_promise : FrameHeader → Bytes → Parsed Frame
parse_push_promise fh payload =
    if fh.stream_id == 0
    then failed "frame_pushpromise_zero_stream" (connection err_code_protocol)
    else read_pad_length "frame_pushpromise_pad_short" (has fh.flags flag_padded) payload
      >>= push_promise_body fh

-- `typeFrameParser` over the map `frameParsers`
unfoldable pub type_frame_parser : FrameType → FrameHeader → Bytes → Parsed Frame
type_frame_parser t =
    if t == frame_data
    then parse_data_frame
    else if t == frame_headers
    then parse_headers_frame
    else if t == frame_priority
    then parse_priority_frame
    else if t == frame_rst_stream
    then parse_rst_stream_frame
    else if t == frame_settings
    then parse_settings_frame
    else if t == frame_push_promise
    then parse_push_promise
    else if t == frame_ping
    then parse_ping_frame
    else if t == frame_go_away
    then parse_go_away_frame
    else if t == frame_window_update
    then parse_window_update_frame
    else if t == frame_continuation
    then parse_continuation_frame
    else parse_unknown_frame
