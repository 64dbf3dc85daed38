-- ===== src/Http2/Framer/RoundTrip.antt =====
-- What one side writes, the other side reads: the `Write` methods of internal/http2/frame.go
-- against `ReadFrame`.
use req.Base.{
  ℕ, ◌-◌, ◌%◌, ◌^◌, ◌≤◌, ◌<◌, ◌≡◌, ◌≢◌, refl, Bool, true, false, none, some, Option, ◌∷◌, ◌++◌,
  length, arith, append-nil, take, take_all, length-append, take-append,
}
use req.Base.Bytes.{Bytes, put_uint32}
use req.Http2.Frame.{
  FrameHeader, header, set_flag, has, flag_padded, flag_end_stream, valid_stream_id, frame_data,
  data_frame,
}
use req.Http2.Frame.Parse.{
  parsed, type_frame_parser, parse_data_frame, read_pad_length, data_unpadded, read_pad_length,
}
use req.Http2.Framer.{Framer}
use req.Http2.Framer.Write.{write_data_padded, end_write, pad_bytes_of, is_some_pad, all_zeros}
use req.Http2.Framer.Wire.{header_of}
use req.Http2.Framer.Delivery.{Delivers, deliver_closed}

-- The payload of a DATA frame.
abbrev data_payload : Bytes → Option Bytes → Bytes
data_payload d none = d
data_payload d (some pad) = length pad ∷ (d ++ pad)

abbrev data_flags : Bool → Option Bytes → ℕ
data_flags end_stream pad =
    set_flag (is_some_pad pad) flag_padded (set_flag end_stream flag_end_stream 0)

data_flags_padded :
    (end_stream : Bool) (pad : Option Bytes)
    → has (data_flags end_stream pad) flag_padded ≡ is_some_pad pad
unfolding has
data_flags_padded true none = refl
data_flags_padded false none = refl
data_flags_padded true (some pad) = refl
data_flags_padded false (some pad) = refl

-- What is left of a payload without its padding.
pub take_unpadded :
    (d pad : Bytes) (n : ℕ) → n ≡ length pad → take (length (d ++ pad) - n) (d ++ pad) ≡ d
take_unpadded d pad n e =
    take-append (length (d ++ pad) - n) d pad (omega (arith, length-append d pad))

parse_data_payload :
    (fh : FrameHeader) (d : Bytes) (pad : Option Bytes)
    → fh.stream_id ≢ 0
    → has fh.flags flag_padded ≡ is_some_pad pad
    → parse_data_frame fh (data_payload d pad) ≡ parsed (data_frame fh d)
unfolding parse_data_frame read_pad_length data_unpadded
parse_data_payload fh d none nz hf = ground (arith, take_all (length d) d)
parse_data_payload fh d (some pad) nz hf =
    ground (arith, take_unpadded d pad (length pad), length-append d pad)

write_data_padded-end_write :
    (fr : Framer) (sid : ℕ) (end_stream : Bool) (d : Bytes) (pad : Option Bytes)
    → 0 < sid
    → sid < 2 ^ 31
    → length (pad_bytes_of pad) < 256
    → all_zeros (pad_bytes_of pad) ≡ true
    → write_data_padded sid end_stream d pad fr
      ≡ end_write (record fr {
        wbuf =
            0
            ∷ 0
            ∷ 0
            ∷ (frame_data % 256)
            ∷ (data_flags end_stream pad % 256)
            ∷ (put_uint32 sid ++ data_payload d pad);
      })
unfolding write_data_padded valid_stream_id
write_data_padded-end_write fr sid end_stream d none pos_sid sid_31 short zeros =
    ground (arith, append-nil d)
write_data_padded-end_write fr sid end_stream d (some pad) pos_sid sid_31 short zeros = ground arith

data_flags-lt : (end_stream : Bool) (pad : Option Bytes) → data_flags end_stream pad < 256
data_flags-lt true none = omega arith
data_flags-lt false none = omega arith
data_flags-lt true (some pad) = omega arith
data_flags-lt false (some pad) = omega arith

-- A reader that obeys the protocol and has no open header block.
module _ (fr rd : Framer) (rest : Bytes) (strict : rd.allow_illegal_reads ≡ false)
    (closed : rd.last_header_stream ≡ 0) where
  -- WriteDataPadded, for a stream of 1 to 2^31 - 1, padding of at most 255 zeros and a payload
  -- within 2^24 - 1 and the reader's limit, delivers its frame. The method returns the writer's
  -- answer to one Write, and from those bytes, whatever follows them, a reader that obeys the
  -- protocol and has no open header block returns the DATA frame with the same data, stream and
  -- flags, and without the padding.
  pub write_data_padded-read_frame :
      (sid : ℕ) (end_stream : Bool) (d : Bytes) (pad : Option Bytes)
      → 0 < sid
      → sid < 2 ^ 31
      → length (pad_bytes_of pad) < 256
      → all_zeros (pad_bytes_of pad) ≡ true
      → length (data_payload d pad) < 2 ^ 24
      → length (data_payload d pad) ≤ rd.max_read_size
      → Delivers (write_data_padded sid end_stream d pad fr) fr rd rest (
          data_frame
            (header_of frame_data (data_flags end_stream pad) (length (data_payload d pad)) sid)
            d)
  unfolding type_frame_parser header
  write_data_padded-read_frame sid end_stream d pad pos_sid sid_31 short zeros fits allowed =
      deliver_closed fr rd rest strict closed _ (data_payload d pad) frame_data
        (data_flags end_stream pad) sid _
        (write_data_padded-end_write fr sid end_stream d pad pos_sid sid_31 short zeros) fits
        allowed (omega arith) (data_flags-lt end_stream pad) sid_31
        (parse_data_payload _ d pad (λ e. omega arith) (data_flags_padded end_stream pad))
        (λ e. omega arith)
