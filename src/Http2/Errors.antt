-- ===== src/Http2/Errors.antt =====
-- internal/http2/errors.go, and the other error values that the framer returns.
use req.Base.{ℕ, String, Option, none, some, ◌==◌, if◌then◌else◌}
use req.Base.Bytes.{Bytes}

abbrev pub ErrCode : Type 0
ErrCode = ℕ

abbrev pub err_code_no : ErrCode
err_code_no = 0x0

abbrev pub err_code_protocol : ErrCode
err_code_protocol = 0x1

abbrev pub err_code_internal : ErrCode
err_code_internal = 0x2

abbrev pub err_code_flow_control : ErrCode
err_code_flow_control = 0x3

abbrev pub err_code_frame_size : ErrCode
err_code_frame_size = 0x6

abbrev pub err_code_compression : ErrCode
err_code_compression = 0x9

-- The map `errCodeName`.
unfoldable pub err_code_name : ErrCode → Option String
err_code_name e =
    if e == 0x0
    then some "NO_ERROR"
    else if e == 0x1
    then some "PROTOCOL_ERROR"
    else if e == 0x2
    then some "INTERNAL_ERROR"
    else if e == 0x3
    then some "FLOW_CONTROL_ERROR"
    else if e == 0x4
    then some "SETTINGS_TIMEOUT"
    else if e == 0x5
    then some "STREAM_CLOSED"
    else if e == 0x6
    then some "FRAME_SIZE_ERROR"
    else if e == 0x7
    then some "REFUSED_STREAM"
    else if e == 0x8
    then some "CANCEL"
    else if e == 0x9
    then some "COMPRESSION_ERROR"
    else if e == 0xa
    then some "CONNECT_ERROR"
    else if e == 0xb
    then some "ENHANCE_YOUR_CALM"
    else if e == 0xc
    then some "INADEQUATE_SECURITY"
    else if e == 0xd
    then some "HTTP_1_1_REQUIRED"
    else none

-- What `errDetail` and the `Reason` of a `connError` say, with the values that are formatted in.
-- Header field names are texts as bytes.
pub data Detail : Type 0 where
  data_stream_zero data_pad_too_big headers_stream_zero priority_stream_zero : Detail
  continuation_stream_zero mix_pseudo_header_types pseudo_after_regular : Detail
  priority_size : ℕ → Detail
  not_continuation : ℕ → ℕ → Option ℕ → ℕ → Detail
  wrong_continuation : ℕ → ℕ → Detail
  unexpected_continuation : ℕ → Detail
  pseudo_header duplicate_pseudo_header header_field_name header_field_value : Bytes → Detail

-- `ConnectionError`, `StreamError` with its cause, `connError`, and the sentinel errors. `foreign`
-- is an error of the underlying reader or writer.
pub data Error : Type 0 where
  eof unexpected_eof short_write frame_too_large : Error
  invalid_stream_id invalid_dep_stream_id pad_length pad_bytes illegal_increment : Error
  illegal_read_meta : Error
  connection : ErrCode → Error
  stream : ℕ → ErrCode → Option Detail → Error
  conn_error : ErrCode → Detail → Error
  foreign : ℕ → Error

-- `streamError`
abbrev pub stream_error : ℕ → ErrCode → Error
stream_error id code = stream id code none
