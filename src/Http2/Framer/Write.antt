-- ===== src/Http2/Framer/Write.antt =====
-- The `Write` methods of Framer, internal/http2/frame.go. A method returns its error, `none` for
-- nil, beside the new state.
use req.Base.{
  ℕ, ◌+◌, ◌-◌, ◌/◌, ◌%◌, ◌^◌, Bool, true, false, not, ◌&&◌, ◌||◌, ◌==◌, ltb, leb, Option, none,
  some, if◌then◌else◌, List, [], ◌∷◌, ◌++◌, length, replicate,
}
use req.Base.Bytes.{Bytes, put_uint16, put_uint32}
use req.Http2.Errors.{
  Error, ErrCode, frame_too_large, short_write, invalid_stream_id, invalid_dep_stream_id,
  pad_length, pad_bytes, illegal_increment,
}
use req.Http2.Frame.{
  FrameType, Flags, PriorityParam, is_zero, Setting, set_flag, valid_stream_id,
  valid_stream_id_or_zero, flag_end_stream, flag_padded, flag_ack, flag_end_headers,
  flag_headers_priority, frame_header_len, frame_data, frame_headers, frame_priority,
  frame_rst_stream, frame_settings, frame_push_promise, frame_ping, frame_go_away,
  frame_window_update, frame_continuation,
}
use req.Http2.Framer.{Framer}

-- `startWrite`
unfoldable pub start_write : FrameType → Flags → ℕ → Framer → Framer
start_write ftype flags stream_id fr = record fr {
  wbuf = 0 ∷ 0 ∷ 0 ∷ (ftype % 256) ∷ (flags % 256) ∷ put_uint32 stream_id;
}

-- The length written over the first three bytes.
unfoldable pub put_length : ℕ → Bytes → Bytes
put_length n (_ ∷ _ ∷ _ ∷ rest) = (n / 2 ^ 16 % 256) ∷ (n / 2 ^ 8 % 256) ∷ (n % 256) ∷ rest
put_length n wbuf = wbuf

-- The writer's answer as an error: a count that is not the buffer's is a short write.
unfoldable pub write_error : ℕ → ℕ × Option Error → Option Error
write_error n (m, some e) = some e
write_error n (m, none) = if m == n then none else some short_write

-- `endWrite`
unfoldable pub end_write : Framer → Option Error × Framer
unfolding put_length write_error
end_write fr =
    let n = length fr.wbuf - frame_header_len in
    let wbuf = put_length n fr.wbuf in
    if leb (2 ^ 24) n then (some frame_too_large, fr) else (
      write_error (length wbuf) (fr.respond wbuf),
      record fr { wbuf = wbuf; writes = fr.writes ++ wbuf ∷ [] },
    )

-- `writeByte`, `writeBytes`, `writeUint16` and `writeUint32` append to the buffer.
unfoldable pub write_bytes : Bytes → Framer → Framer
write_bytes v fr = record fr { wbuf = fr.wbuf ++ v }

unfoldable pub write_byte : ℕ → Framer → Framer
unfolding write_bytes
write_byte v fr = write_bytes (v ∷ []) fr

unfoldable pub write_uint16 : ℕ → Framer → Framer
unfolding write_bytes
write_uint16 v fr = write_bytes (put_uint16 v) fr

unfoldable pub write_uint32 : ℕ → Framer → Framer
unfolding write_bytes
write_uint32 v fr = write_bytes (put_uint32 v) fr

unfoldable pub all_zeros : Bytes → Bool
all_zeros [] = true
all_zeros (b ∷ pad) = b == 0 && all_zeros pad

-- The slice `pad`, `none` for nil.
abbrev pub pad_bytes_of : Option Bytes → Bytes
pad_bytes_of none = []
pad_bytes_of (some pad) = pad

abbrev pub is_some_pad : Option Bytes → Bool
is_some_pad none = false
is_some_pad (some pad) = true

unfoldable pub write_pad_length : Option Bytes → Framer → Framer
unfolding write_bytes
write_pad_length none fr = fr
write_pad_length (some pad) fr = write_bytes ((length pad % 256) ∷ []) fr

-- `startWriteDataPadded`
unfoldable pub start_write_data_padded :
    ℕ → Bool → Bytes → Option Bytes → Framer → Option Error × Framer
unfolding all_zeros write_pad_length start_write
start_write_data_padded stream_id end_stream d pad fr =
    if not (valid_stream_id stream_id) && not fr.allow_illegal_writes
    then (some invalid_stream_id, fr)
    else if ltb 255 (length (pad_bytes_of pad))
    then (some pad_length, fr)
    else if not fr.allow_illegal_writes && not (all_zeros (pad_bytes_of pad))
    then (some pad_bytes, fr)
    else let flags =
        set_flag (is_some_pad pad) flag_padded (set_flag end_stream flag_end_stream 0) in
      let fr1 = write_pad_length pad (start_write frame_data flags stream_id fr) in
      (none, write_bytes (pad_bytes_of pad) (write_bytes d fr1))

-- What runs `endWrite` unless an error came first.
unfoldable pub then_end_write : Option Error × Framer → Option Error × Framer
then_end_write (some e, fr) = (some e, fr)
then_end_write (none, fr) = end_write fr

unfoldable pub write_data_padded : ℕ → Bool → Bytes → Option Bytes → Framer → Option Error × Framer
unfolding start_write_data_padded then_end_write
write_data_padded stream_id end_stream d pad fr =
    then_end_write (start_write_data_padded stream_id end_stream d pad fr)

unfoldable pub write_data : ℕ → Bool → Bytes → Framer → Option Error × Framer
unfolding write_data_padded
write_data stream_id end_stream d fr = write_data_padded stream_id end_stream d none fr

unfoldable pub put_settings : List Setting → Framer → Framer
unfolding write_uint16 write_uint32
put_settings [] fr = fr
put_settings (s ∷ settings) fr = put_settings settings (write_uint32 s.val (write_uint16 s.id fr))

unfoldable pub write_settings : List Setting → Framer → Option Error × Framer
unfolding put_settings start_write
write_settings settings fr = end_write (put_settings settings (start_write frame_settings 0 0 fr))

unfoldable pub write_settings_ack : Framer → Option Error × Framer
unfolding start_write
write_settings_ack fr = end_write (start_write frame_settings flag_ack 0 fr)

-- The argument is an array of eight bytes.
unfoldable pub write_ping : Bool → Bytes → Framer → Option Error × Framer
unfolding start_write write_bytes
write_ping ack d fr =
    end_write (write_bytes d (start_write frame_ping (set_flag ack flag_ack 0) 0 fr))

unfoldable pub write_go_away : ℕ → ErrCode → Bytes → Framer → Option Error × Framer
unfolding start_write write_uint32
write_go_away max_stream_id code debug_data fr = end_write (
    write_bytes debug_data (
      write_uint32 code (write_uint32 (max_stream_id % 2 ^ 31) (start_write frame_go_away 0 0 fr))))

unfoldable pub write_window_update : ℕ → ℕ → Framer → Option Error × Framer
unfolding start_write write_uint32
write_window_update stream_id incr fr =
    if (ltb incr 1 || ltb 2147483647 incr) && not fr.allow_illegal_writes
    then (some illegal_increment, fr)
    else end_write (write_uint32 incr (start_write frame_window_update 0 stream_id fr))

pub record HeadersFrameParam : Type 0 where
  pub stream_id : ℕ
  pub block_fragment : Bytes
  pub end_stream : Bool
  pub end_headers : Bool
  pub pad_length : ℕ
  pub priority : PriorityParam

-- `v |= 1 << 31`
abbrev pub set_exclusive : Bool → ℕ → ℕ
set_exclusive exclusive v = if exclusive then v % 2 ^ 31 + 2 ^ 31 else v

-- The pad length byte, written only if it is not zero.
unfoldable pub write_pad_byte : ℕ → Framer → Framer
unfolding write_byte
write_pad_byte n fr = if n == 0 then fr else write_byte n fr

-- The priority fields of `WriteHeaders`, written only if they are not all zero.
unfoldable pub write_priority_fields : PriorityParam → Framer → Option Error × Framer
unfolding write_byte write_uint32
write_priority_fields p fr =
    if is_zero p
    then (none, fr)
    else if not (valid_stream_id_or_zero p.stream_dep) && not fr.allow_illegal_writes
    then (some invalid_dep_stream_id, fr)
    else (none, write_byte p.weight (write_uint32 (set_exclusive p.exclusive p.stream_dep) fr))

-- The fragment and the padding of zeros behind it.
unfoldable pub write_fragment : Bytes → ℕ → Option Error × Framer → Option Error × Framer
unfolding write_bytes
write_fragment fragment n (some e, fr) = (some e, fr)
write_fragment fragment n (none, fr) =
    end_write (write_bytes (replicate n 0) (write_bytes fragment fr))

-- The four conditional flags, in the order of the source.
abbrev pub headers_flag_bits : Bool → Bool → Bool → Bool → Flags
headers_flag_bits padded end_stream end_headers has_priority =
    set_flag has_priority flag_headers_priority (
      set_flag end_headers flag_end_headers
        (set_flag end_stream flag_end_stream (set_flag padded flag_padded 0)))

abbrev pub headers_flags : HeadersFrameParam → Flags
headers_flags p =
    headers_flag_bits (not (p.pad_length == 0)) p.end_stream p.end_headers
      (not (is_zero p.priority))

unfoldable pub write_headers : HeadersFrameParam → Framer → Option Error × Framer
unfolding write_fragment write_priority_fields write_pad_byte start_write
write_headers p fr =
    if not (valid_stream_id p.stream_id) && not fr.allow_illegal_writes
    then (some invalid_stream_id, fr)
    else write_fragment p.block_fragment p.pad_length (
        write_priority_fields p.priority (
          write_pad_byte p.pad_length (start_write frame_headers (headers_flags p) p.stream_id fr)))

unfoldable pub write_priority : ℕ → PriorityParam → Framer → Option Error × Framer
unfolding start_write write_byte write_uint32
write_priority stream_id p fr =
    if not (valid_stream_id stream_id) && not fr.allow_illegal_writes
    then (some invalid_stream_id, fr)
    else if not (valid_stream_id_or_zero p.stream_dep)
    then (some invalid_dep_stream_id, fr)
    else end_write (
        write_byte p.weight (
          write_uint32 (set_exclusive p.exclusive p.stream_dep)
            (start_write frame_priority 0 stream_id fr)))

unfoldable pub write_rst_stream : ℕ → ErrCode → Framer → Option Error × Framer
unfolding start_write write_uint32
write_rst_stream stream_id code fr =
    if not (valid_stream_id stream_id) && not fr.allow_illegal_writes
    then (some invalid_stream_id, fr)
    else end_write (write_uint32 code (start_write frame_rst_stream 0 stream_id fr))

unfoldable pub write_continuation : ℕ → Bool → Bytes → Framer → Option Error × Framer
unfolding start_write write_bytes
write_continuation stream_id end_headers fragment fr =
    if not (valid_stream_id stream_id) && not fr.allow_illegal_writes
    then (some invalid_stream_id, fr)
    else end_write (
        write_bytes fragment
          (start_write frame_continuation (set_flag end_headers flag_end_headers 0) stream_id fr))

pub record PushPromiseParam : Type 0 where
  pub stream_id : ℕ
  pub promise_id : ℕ
  pub block_fragment : Bytes
  pub end_headers : Bool
  pub pad_length : ℕ

unfoldable pub write_push_promise : PushPromiseParam → Framer → Option Error × Framer
unfolding start_write write_pad_byte write_uint32 write_fragment
write_push_promise p fr =
    if not (valid_stream_id p.stream_id) && not fr.allow_illegal_writes
    then (some invalid_stream_id, fr)
    else let flags =
        set_flag p.end_headers flag_end_headers
          (set_flag (not (p.pad_length == 0)) flag_padded 0) in
      let fr1 = write_pad_byte p.pad_length (start_write frame_push_promise flags p.stream_id fr) in
      if not (valid_stream_id p.promise_id) && not fr.allow_illegal_writes
      then (some invalid_stream_id, fr1)
      else write_fragment p.block_fragment p.pad_length (none, write_uint32 p.promise_id fr1)

unfoldable pub write_raw_frame : FrameType → Flags → ℕ → Bytes → Framer → Option Error × Framer
unfolding start_write write_bytes
write_raw_frame t flags stream_id payload fr =
    end_write (write_bytes payload (start_write t flags stream_id fr))
