-- ===== src/Http2/Framer/HeaderBlocks.antt =====
-- HEADERS and CONTINUATION frames from the writer to the reader.
use req.Base.{
  ℕ, ◌-◌, ◌^◌, ◌≤◌, ◌<◌, ◌≡◌, ◌≢◌, refl, sym, Bool, false, not, if◌then◌else◌, ◌==◌, length, ◌++◌,
  [], ◌∷◌, arith, take, take-append, length-append, replicate, length-replicate, le→ltb, subst, ◌+◌,
}
use req.Base.Bytes.{Bytes, put_uint32}
use req.Http2.Frame.{
  FrameHeader, PriorityParam, is_zero, header, has, set_flag, flag_padded, flag_end_headers,
  flag_headers_priority, frame_headers, frame_continuation, headers_frame, continuation_frame,
  valid_stream_id, valid_stream_id_or_zero,
}
use req.Http2.Frame.Parse.{
  parsed, type_frame_parser, parse_headers_frame, headers_body, headers_unpadded,
  parse_continuation_frame, read_pad_length, read_priority,
}
use req.Http2.Framer.{Framer}
use req.Http2.Framer.Write.{
  end_write, HeadersFrameParam, headers_flag_bits, headers_flags, write_headers, set_exclusive,
  write_continuation,
}
use req.Http2.Framer.Wire.{header_of}
use req.Http2.Framer.Delivery.{
  Delivers, deliver, deliver_closed, unsent_bytes, check_frame_order_open,
}

-- The flags are read back one by one.
has-padded : (a b c d : Bool) → has (headers_flag_bits a b c d) flag_padded ≡ a
unfolding has
has-padded a b c d = ground arith

has-priority : (a b c d : Bool) → has (headers_flag_bits a b c d) flag_headers_priority ≡ d
unfolding has
has-priority a b c d = ground arith

headers_flag_bits-lt : (a b c d : Bool) → headers_flag_bits a b c d < 256
headers_flag_bits-lt a b c d = grind arith

abbrev pad_byte : ℕ → Bytes
pad_byte n = if n == 0 then [] else n ∷ []

abbrev priority_bytes : PriorityParam → Bytes
priority_bytes p =
    if is_zero p then [] else put_uint32 (set_exclusive p.exclusive p.stream_dep) ++ p.weight ∷ []

-- The flags that the four parts of a HEADERS frame ask for.
abbrev pub asked_flags : HeadersFrameParam → ℕ
asked_flags p =
    (if p.end_stream then 0x1 else 0)
    + (if p.end_headers then 0x4 else 0)
    + (if p.pad_length == 0 then 0 else 0x8)
    + (if is_zero p.priority then 0 else 0x20)

flag_bits_lem :
    (unpadded end_stream end_headers no_priority : Bool)
    → headers_flag_bits (not unpadded) end_stream end_headers (not no_priority)
      ≡ (if end_stream then 0x1 else 0)
        + (if end_headers then 0x4 else 0)
        + (if unpadded then 0 else 0x8)
        + (if no_priority then 0 else 0x20)
flag_bits_lem unpadded end_stream end_headers no_priority = ground arith

headers_flags-asked_flags : (p : HeadersFrameParam) → headers_flags p ≡ asked_flags p
headers_flags-asked_flags p =
    flag_bits_lem (p.pad_length == 0) p.end_stream p.end_headers (is_zero p.priority)

-- The payload of a HEADERS frame.
abbrev headers_payload : HeadersFrameParam → Bytes
headers_payload p =
    pad_byte p.pad_length
    ++ (priority_bytes p.priority ++ (p.block_fragment ++ replicate p.pad_length 0))

write_headers-end_write :
    (fr : Framer) (p : HeadersFrameParam)
    → 0 < p.stream_id
    → p.stream_id < 2 ^ 31
    → p.priority.stream_dep < 2 ^ 31
    → write_headers p fr
      ≡ end_write (record fr {
        wbuf = unsent_bytes frame_headers (headers_flags p) p.stream_id (headers_payload p);
      })
unfolding write_headers valid_stream_id valid_stream_id_or_zero
write_headers-end_write fr p pos_sid sid_31 dep_31 = ground arith

read_pad_length-pad_byte :
    (token : _) (n : ℕ) (q : Bytes)
    → read_pad_length token (not (n == 0)) (pad_byte n ++ q) ≡ parsed (q, n)
unfolding read_pad_length
read_pad_length-pad_byte token n q = ground arith

read_priority-priority_bytes :
    (p : PriorityParam) (q : Bytes)
    → p.stream_dep < 2 ^ 31
    → p.weight < 256
    → read_priority (not (is_zero p)) (priority_bytes p ++ q) ≡ parsed (q, p)
unfolding read_priority is_zero
read_priority-priority_bytes p q dep_31 weight_8 = ground arith

-- What is left of a fragment without the padding behind it.
take_fragment :
    (fragment : Bytes) (n : ℕ)
    → take (length (fragment ++ replicate n 0) - n) (fragment ++ replicate n 0) ≡ fragment
take_fragment fragment n =
    take-append (length (fragment ++ replicate n 0) - n) fragment (replicate n 0)
      (omega (arith, length-append fragment (replicate n 0), length-replicate {A = ℕ} n 0))

parse_headers_payload :
    (fh : FrameHeader) (p : HeadersFrameParam)
    → fh.stream_id ≢ 0
    → has fh.flags flag_padded ≡ not (p.pad_length == 0)
    → has fh.flags flag_headers_priority ≡ not (is_zero p.priority)
    → p.priority.stream_dep < 2 ^ 31
    → p.priority.weight < 256
    → parse_headers_frame fh (headers_payload p)
      ≡ parsed (headers_frame fh p.priority p.block_fragment)
unfolding parse_headers_frame headers_body headers_unpadded
parse_headers_payload fh p nz padded prioritised dep_31 weight_8 =
    let fits = le→ltb (length (p.block_fragment ++ replicate p.pad_length 0)) p.pad_length (
      omega (
        arith,
        length-append p.block_fragment (replicate p.pad_length 0),
        length-replicate {A = ℕ} p.pad_length 0,
      )) in
    rw (
      nz_test,
      padded,
      read_pad_length-pad_byte _ p.pad_length _,
      prioritised,
      read_priority-priority_bytes p.priority _ dep_31 weight_8,
      fits,
      take_fragment p.block_fragment p.pad_length,
    )
  where
    nz_test : (fh.stream_id == 0) ≡ false
    nz_test = ground arith

module _ (fr rd : Framer) (rest : Bytes) (strict : rd.allow_illegal_reads ≡ false) where
  -- WriteHeaders, for a stream of 1 to 2^31 - 1, a dependency below 2^31, a weight of one byte and
  -- a payload within 2^24 - 1 and the reader's limit, delivers its frame. The method returns the
  -- writer's answer to one Write, and from those bytes, whatever follows them, a reader that obeys
  -- the protocol and has no open header block returns the HEADERS frame with the same priority and
  -- fragment, without the padding, and with the flags of the protocol: 1 for the end of the stream,
  -- 4 for the end of the headers, 8 for padding and 32 for a priority.
  pub write_headers-read_frame :
      rd.last_header_stream ≡ 0
      → (p : HeadersFrameParam) → 0 < p.stream_id
      → p.stream_id < 2 ^ 31
      → p.priority.stream_dep < 2 ^ 31
      → p.priority.weight < 256
      → length (headers_payload p) < 2 ^ 24
      → length (headers_payload p) ≤ rd.max_read_size
      → Delivers (write_headers p fr) fr rd rest (
          headers_frame
            (header_of frame_headers (asked_flags p) (length (headers_payload p)) p.stream_id)
            p.priority
            p.block_fragment)
  unfolding type_frame_parser header
  write_headers-read_frame closed p pos_sid sid_31 dep_31 weight_8 fits allowed =
      subst
        (λ flags. Delivers (write_headers p fr) fr rd rest (
          headers_frame (header_of frame_headers flags (length (headers_payload p)) p.stream_id)
            p.priority p.block_fragment))
        (headers_flags-asked_flags p)
        (deliver_closed fr rd rest strict closed (write_headers p fr) (headers_payload p)
          frame_headers (headers_flags p) p.stream_id _
          (write_headers-end_write fr p pos_sid sid_31 dep_31) fits allowed (omega arith)
          (headers_flag_bits-lt (not (p.pad_length == 0)) p.end_stream p.end_headers
            (not (is_zero p.priority)))
          sid_31
          (parse_headers_payload _ p (λ e. omega arith)
            (has-padded (not (p.pad_length == 0)) p.end_stream p.end_headers
              (not (is_zero p.priority)))
            (has-priority (not (p.pad_length == 0)) p.end_stream p.end_headers
              (not (is_zero p.priority)))
            dep_31 weight_8)
          (λ e. omega arith))

  -- WriteContinuation, for a stream of 1 to 2^31 - 1 and a fragment within 2^24 - 1 and the
  -- reader's limit, delivers its frame to a reader that obeys the protocol and has the header block
  -- of that stream open: the method returns the writer's answer to one Write, and from those bytes,
  -- whatever follows them, the reader returns the CONTINUATION frame with the same fragment.
  pub write_continuation-read_frame :
      (sid : ℕ) (end_headers : Bool) (fragment : Bytes)
      → rd.last_header_stream ≡ sid
      → 0 < sid
      → sid < 2 ^ 31
      → length fragment < 2 ^ 24
      → length fragment ≤ rd.max_read_size
      → Delivers (write_continuation sid end_headers fragment fr) fr rd rest (
          continuation_frame
            (header_of frame_continuation
              (set_flag end_headers flag_end_headers 0)
              (length fragment)
              sid)
            fragment)
  unfolding write_continuation valid_stream_id type_frame_parser parse_continuation_frame header
  write_continuation-read_frame sid end_headers fragment open_block pos_sid sid_31 fits allowed =
      rw (writes) (
        deliver fr rd rest fragment frame_continuation (set_flag end_headers flag_end_headers 0) sid
          _ fits allowed (omega arith) (grind arith) sid_31 (ground arith)
          (check_frame_order_open _ _ strict (λ e. omega arith) refl (sym open_block)))
    where
      writes :
          write_continuation sid end_headers fragment fr
          ≡ end_write (record fr {
            wbuf =
                unsent_bytes frame_continuation
                  (set_flag end_headers flag_end_headers 0)
                  sid
                  fragment;
          })
      writes = ground arith
