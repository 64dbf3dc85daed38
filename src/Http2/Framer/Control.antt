-- ===== src/Http2/Framer/Control.antt =====
-- PING, GOAWAY, WINDOW_UPDATE, RST_STREAM and PRIORITY frames from the writer to the reader.
use req.Base.{
  ℕ, ◌+◌, ◌%◌, ◌^◌, ◌≤◌, ◌<◌, ◌≡◌, refl, Bool, true, false, length, ◌++◌, [], ◌∷◌, arith,
}
use req.Base.Bytes.{Bytes, put_uint32}
use req.Http2.Frame.{
  PriorityParam, header, set_flag, flag_ack, frame_priority, frame_ping, frame_go_away,
  frame_window_update, frame_rst_stream, ping_frame, go_away_frame, window_update_frame,
  rst_stream_frame, priority_frame, valid_stream_id, valid_stream_id_or_zero,
}
use req.Http2.Frame.Parse.{
  type_frame_parser, parse_ping_frame, parse_go_away_frame, parse_window_update_frame,
  parse_rst_stream_frame, parse_priority_frame,
}
use req.Http2.Framer.{Framer}
use req.Http2.Framer.Write.{
  write_ping, write_go_away, write_window_update, write_rst_stream, write_priority, set_exclusive,
}
use req.Http2.Framer.Wire.{header_of}
use req.Http2.Framer.Delivery.{Delivers, deliver_closed}

abbrev ping_flags : Bool → ℕ
ping_flags ack = set_flag ack flag_ack 0

ping_flags-lt : (ack : Bool) → ping_flags ack < 256
ping_flags-lt true = omega arith
ping_flags-lt false = omega arith

-- The PRIORITY payload: the dependency with its high bit for an exclusive one, and the weight.
abbrev dep_word : PriorityParam → ℕ
dep_word p = set_exclusive p.exclusive p.stream_dep

module _ (fr rd : Framer) (rest : Bytes) (strict : rd.allow_illegal_reads ≡ false)
    (closed : rd.last_header_stream ≡ 0) where
  -- WritePing, for eight bytes, delivers its frame to a reader that takes eight bytes of payload.
  -- The method returns the writer's answer to one Write, and from those bytes, whatever follows
  -- them, a reader that obeys the protocol and has no open header block returns the PING frame with
  -- the same bytes, and the ACK flag exactly if it was asked for.
  pub write_ping-read_frame :
      (ack : Bool) (d : Bytes)
      → length d ≡ 8
      → 8 ≤ rd.max_read_size
      → Delivers
          (write_ping ack d fr)
          fr
          rd
          rest
          (ping_frame (header_of frame_ping (ping_flags ack) 8 0) d)
  unfolding write_ping type_frame_parser parse_ping_frame header
  write_ping-read_frame ack d eight allowed =
      deliver_closed fr rd rest strict closed _ d frame_ping (ping_flags ack) 0 _ refl (omega arith)
        (omega arith) (omega arith) (ping_flags-lt ack) (omega arith) (ground arith)
        (λ e. omega arith)

  -- WriteGoAway, for a code of 32 bits and a payload within 2^24 - 1 and the reader's limit,
  -- delivers its frame. The method returns the writer's answer to one Write, and from those bytes,
  -- whatever follows them, a reader that obeys the protocol and has no open header block returns
  -- the GOAWAY frame with the same code and debug data and the last stream's low 31 bits.
  pub write_go_away-read_frame :
      (max_stream_id code : ℕ) (debug_data : Bytes)
      → code < 2 ^ 32
      → length debug_data + 8 < 2 ^ 24
      → length debug_data + 8 ≤ rd.max_read_size
      → Delivers (write_go_away max_stream_id code debug_data fr) fr rd rest (
          go_away_frame
            (header_of frame_go_away 0 (length debug_data + 8) 0)
            (max_stream_id % 2 ^ 31)
            code
            debug_data)
  unfolding write_go_away type_frame_parser parse_go_away_frame header
  write_go_away-read_frame max_stream_id code debug_data code_32 fits allowed =
      deliver_closed fr rd rest strict closed _
        (put_uint32 (max_stream_id % 2 ^ 31) ++ (put_uint32 code ++ debug_data)) frame_go_away 0 0 _
        refl (omega arith) (omega arith) (omega arith) (omega arith) (omega arith) (ground arith)
        (λ e. omega arith)

  -- WriteWindowUpdate, for a stream below 2^31 and an increment of 1 to 2^31 - 1, delivers its
  -- frame to a reader that takes four bytes of payload. The method returns the writer's answer to
  -- one Write, and from those bytes, whatever follows them, a reader that obeys the protocol and
  -- has no open header block returns the WINDOW_UPDATE frame with the same stream and increment.
  pub write_window_update-read_frame :
      (sid incr : ℕ)
      → sid < 2 ^ 31
      → 0 < incr
      → incr < 2 ^ 31
      → 4 ≤ rd.max_read_size
      → Delivers
          (write_window_update sid incr fr)
          fr
          rd
          rest
          (window_update_frame (header_of frame_window_update 0 4 sid) incr)
  unfolding write_window_update type_frame_parser parse_window_update_frame header
  write_window_update-read_frame sid incr sid_31 pos_incr incr_31 allowed =
      deliver_closed fr rd rest strict closed (write_window_update sid incr fr) (put_uint32 incr)
        frame_window_update 0 sid _ (ground arith) (omega arith) (omega arith) (omega arith)
        (omega arith) (omega arith) (ground arith) (λ e. omega arith)

  -- WriteRSTStream, for a stream of 1 to 2^31 - 1 and a code of 32 bits, delivers its frame to a
  -- reader that takes four bytes of payload. The method returns the writer's answer to one Write,
  -- and from those bytes, whatever follows them, a reader that obeys the protocol and has no open
  -- header block returns the RST_STREAM frame with the same stream and code.
  pub write_rst_stream-read_frame :
      (sid code : ℕ)
      → 0 < sid
      → sid < 2 ^ 31
      → code < 2 ^ 32
      → 4 ≤ rd.max_read_size
      → Delivers
          (write_rst_stream sid code fr)
          fr
          rd
          rest
          (rst_stream_frame (header_of frame_rst_stream 0 4 sid) code)
  unfolding write_rst_stream valid_stream_id type_frame_parser parse_rst_stream_frame header
  write_rst_stream-read_frame sid code pos_sid sid_31 code_32 allowed =
      deliver_closed fr rd rest strict closed (write_rst_stream sid code fr) (put_uint32 code)
        frame_rst_stream 0 sid _ (ground arith) (omega arith) (omega arith) (omega arith)
        (omega arith) (omega arith) (ground arith) (λ e. omega arith)

  -- WritePriority, for a stream of 1 to 2^31 - 1, a dependency below 2^31 and a weight of one byte,
  -- delivers its frame to a reader that takes five bytes of payload. The method returns the
  -- writer's answer to one Write, and from those bytes, whatever follows them, a reader that obeys
  -- the protocol and has no open header block returns the PRIORITY frame with the same dependency,
  -- exclusive or not, and weight.
  pub write_priority-read_frame :
      (sid : ℕ) (p : PriorityParam)
      → 0 < sid
      → sid < 2 ^ 31
      → p.stream_dep < 2 ^ 31
      → p.weight < 256
      → 5 ≤ rd.max_read_size
      → Delivers
          (write_priority sid p fr)
          fr
          rd
          rest
          (priority_frame (header_of frame_priority 0 5 sid) p)
  unfolding write_priority valid_stream_id valid_stream_id_or_zero type_frame_parser
      parse_priority_frame header
  write_priority-read_frame sid p pos_sid sid_31 dep_31 weight_8 allowed =
      deliver_closed fr rd rest strict closed (write_priority sid p fr)
        (put_uint32 (dep_word p) ++ p.weight ∷ []) frame_priority 0 sid _ (ground arith)
        (omega arith) (omega arith) (omega arith) (omega arith) (omega arith) (ground arith)
        (λ e. omega arith)
