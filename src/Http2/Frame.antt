-- ===== src/Http2/Frame.antt =====
-- internal/http2/frame.go: frame types, flags, headers, and the frames themselves; and
-- http2/priority.go and http2/setting.go, the parameters that frames carry.
-- A uint8, uint16 or uint32 is a number; `f & v` is `bit_and`, and a mask of 31 bits is `% 2 ^ 31`.
pub mod Settings
pub mod SettingList
pub mod Duplicates
pub mod Parse
use req.Base.{
  ℕ, ◌/◌, ◌%◌, ◌^◌, ◌-◌, bit_and, bit_or, String, Bool, true, false, not, ◌&&◌, ◌==◌, Option, none,
  some, if◌then◌else◌,
}
use req.Base.Bytes.{Bytes}
use req.Http2.Errors.{ErrCode}

abbrev pub frame_header_len : ℕ
frame_header_len = 9

abbrev pub max_frame_size : ℕ
max_frame_size = 2 ^ 24 - 1

abbrev pub FrameType : Type 0
FrameType = ℕ

abbrev pub frame_data : FrameType
frame_data = 0x0

abbrev pub frame_headers : FrameType
frame_headers = 0x1

abbrev pub frame_priority : FrameType
frame_priority = 0x2

abbrev pub frame_rst_stream : FrameType
frame_rst_stream = 0x3

abbrev pub frame_settings : FrameType
frame_settings = 0x4

abbrev pub frame_push_promise : FrameType
frame_push_promise = 0x5

abbrev pub frame_ping : FrameType
frame_ping = 0x6

abbrev pub frame_go_away : FrameType
frame_go_away = 0x7

abbrev pub frame_window_update : FrameType
frame_window_update = 0x8

abbrev pub frame_continuation : FrameType
frame_continuation = 0x9

abbrev pub Flags : Type 0
Flags = ℕ

-- `FlagDataEndStream` and `FlagHeadersEndStream`
abbrev pub flag_end_stream : Flags
flag_end_stream = 0x1

-- `FlagSettingsAck` and `FlagPingAck`
abbrev pub flag_ack : Flags
flag_ack = 0x1

-- `FlagHeadersEndHeaders`, `FlagContinuationEndHeaders` and `FlagPushPromiseEndHeaders`
abbrev pub flag_end_headers : Flags
flag_end_headers = 0x4

-- `FlagDataPadded`, `FlagHeadersPadded` and `FlagPushPromisePadded`
abbrev pub flag_padded : Flags
flag_padded = 0x8

abbrev pub flag_headers_priority : Flags
flag_headers_priority = 0x20

unfoldable pub has : Flags → Flags → Bool
has f v = bit_and f v == v

-- `flags |= v` under a condition
abbrev pub set_flag : Bool → Flags → Flags → Flags
set_flag b v flags = if b then bit_or flags v else flags

pub record FrameHeader : Type 0 where
  pub valid : Bool
  pub ftype : FrameType
  pub flags : Flags
  pub length : ℕ
  pub stream_id : ℕ

pub record PriorityParam : Type 0 where
  pub stream_dep : ℕ
  pub exclusive : Bool
  pub weight : ℕ

abbrev pub zero_priority : PriorityParam
zero_priority = record { stream_dep = 0; exclusive = false; weight = 0 }

-- `PriorityParam.IsZero`
unfoldable pub is_zero : PriorityParam → Bool
is_zero p = p.stream_dep == 0 && not p.exclusive && p.weight == 0

pub record Setting : Type 0 where
  pub id : ℕ
  pub val : ℕ

abbrev pub setting_initial_window_size : ℕ
setting_initial_window_size = 0x4

-- One constructor for each of the frame structs, with the header that each embeds.
pub data Frame : Type 0 where
  data_frame : FrameHeader → Bytes → Frame
  headers_frame : FrameHeader → PriorityParam → Bytes → Frame
  priority_frame : FrameHeader → PriorityParam → Frame
  rst_stream_frame : FrameHeader → ErrCode → Frame
  settings_frame : FrameHeader → Bytes → Frame
  push_promise_frame : FrameHeader → ℕ → Bytes → Frame
  ping_frame : FrameHeader → Bytes → Frame
  go_away_frame : FrameHeader → ℕ → ErrCode → Bytes → Frame
  window_update_frame : FrameHeader → ℕ → Frame
  continuation_frame : FrameHeader → Bytes → Frame
  unknown_frame : FrameHeader → Bytes → Frame

-- The method `Header` that every frame has from its embedded header.
unfoldable pub header : Frame → FrameHeader
header (data_frame fh _) = fh
header (headers_frame fh _ _) = fh
header (priority_frame fh _) = fh
header (rst_stream_frame fh _) = fh
header (settings_frame fh _) = fh
header (push_promise_frame fh _ _) = fh
header (ping_frame fh _) = fh
header (go_away_frame fh _ _ _) = fh
header (window_update_frame fh _) = fh
header (continuation_frame fh _) = fh
header (unknown_frame fh _) = fh

-- `validStreamIDOrZero` and `validStreamID`: bit 31 of the uint32 is clear.
unfoldable pub valid_stream_id_or_zero : ℕ → Bool
valid_stream_id_or_zero id = id / 2 ^ 31 % 2 == 0

unfoldable pub valid_stream_id : ℕ → Bool
valid_stream_id id = not (id == 0) && id / 2 ^ 31 % 2 == 0

-- The map `frameName`.
unfoldable pub frame_name : FrameType → Option String
frame_name t =
    if t == frame_data
    then some "DATA"
    else if t == frame_headers
    then some "HEADERS"
    else if t == frame_priority
    then some "PRIORITY"
    else if t == frame_rst_stream
    then some "RST_STREAM"
    else if t == frame_settings
    then some "SETTINGS"
    else if t == frame_push_promise
    then some "PUSH_PROMISE"
    else if t == frame_ping
    then some "PING"
    else if t == frame_go_away
    then some "GOAWAY"
    else if t == frame_window_update
    then some "WINDOW_UPDATE"
    else if t == frame_continuation
    then some "CONTINUATION"
    else none
