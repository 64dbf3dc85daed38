-- ===== src/Http2/Framer/Delivery.antt =====
-- What it is for a `Write` method to deliver a frame to the reader at the other end.
use req.Base.{
  ℕ, ◌%◌, ◌^◌, ◌≤◌, ◌<◌, ◌≡◌, ◌≢◌, ap, false, none, some, Option, [], ◌∷◌, ◌++◌, length, arith,
}
use req.Base.Bytes.{Bytes, put_uint32}
use req.Http2.Errors.{Error}
use req.Http2.Frame.{Frame, header, frame_continuation}
use req.Http2.Frame.Parse.{parsed, type_frame_parser}
use req.Http2.Framer.{Framer, ok, read_frame, accept, ordered, check_frame_order, track_headers}
use req.Http2.Framer.Write.{end_write, write_error}
use req.Http2.Framer.Wire.{
  frame_bytes, wire_header, behind, read_frame-frame_bytes, end_write-frame_bytes,
}

-- The state of a reader that has accepted a frame.
abbrev pub after_read : Framer → Frame → Bytes → Framer
after_read rd f rest = track_headers (header f) (record (behind rd rest) { last_frame = some f })

-- One `Write` of some bytes, whose answer is returned, and from which the reader gets the frame,
-- whatever follows them.
abbrev pub Delivers : Option Error × Framer → Framer → Framer → Bytes → Frame → Type 0
Delivers out fr rd rest f =
    (w : Bytes) × (out.0 ≡ write_error (length w) (fr.respond w))
    × (out.1.writes ≡ fr.writes ++ w ∷ [])
    × (read_frame (record rd { input = w ++ rest }) ≡ (ok f, after_read rd f rest))

-- A frame that is no CONTINUATION is in order where no header block is open.
pub check_frame_order_closed :
    (f : Frame) (fr : Framer)
    → fr.allow_illegal_reads ≡ false
    → fr.last_header_stream ≡ 0
    → (header f).ftype ≢ frame_continuation
    → check_frame_order f fr ≡ (none, track_headers (header f) (record fr { last_frame = some f }))
unfolding check_frame_order
check_frame_order_closed f fr strict closed other = ground arith

-- A CONTINUATION of the open header block is in order.
pub check_frame_order_open :
    (f : Frame) (fr : Framer)
    → fr.allow_illegal_reads ≡ false
    → fr.last_header_stream ≢ 0
    → (header f).ftype ≡ frame_continuation
    → (header f).stream_id ≡ fr.last_header_stream
    → check_frame_order f fr ≡ (none, track_headers (header f) (record fr { last_frame = some f }))
unfolding check_frame_order
check_frame_order_open f fr strict open_block same stream = ground arith

module _ (fr rd : Framer) (rest payload : Bytes) (t flags sid : ℕ) (f : Frame)
    (fits : length payload < 2 ^ 24) (allowed : length payload ≤ rd.max_read_size)
    (byte_t : t < 256) (byte_flags : flags < 256) (sid_31 : sid < 2 ^ 31)
    (parses : type_frame_parser t (wire_header t flags sid payload) payload ≡ parsed f)
    (in_order : check_frame_order f (behind rd rest)
      ≡ (none, track_headers (header f) (record (behind rd rest) { last_frame = some f }))) where
  pub deliver :
      Delivers
        (end_write (record fr {
          wbuf = 0 ∷ 0 ∷ 0 ∷ (t % 256) ∷ (flags % 256) ∷ (put_uint32 sid ++ payload);
        }))
        fr
        rd
        rest
        f
  deliver = (
    frame_bytes t flags sid payload,
    ap (λ r. r.0) (end_write-frame_bytes fr t flags sid payload fits),
    ap (λ r. r.1.writes) (end_write-frame_bytes fr t flags sid payload fits),
    rw
        (
          read_frame-frame_bytes rd rest payload t flags sid fits allowed byte_t byte_flags sid_31,
          parses,
        )
        (unfold accept ordered in rw in_order),
  )

-- The bytes that `start_write` and what follows it leave in the buffer.
abbrev pub unsent_bytes : ℕ → ℕ → ℕ → Bytes → Bytes
unsent_bytes t flags sid payload =
    0 ∷ 0 ∷ 0 ∷ (t % 256) ∷ (flags % 256) ∷ (put_uint32 sid ++ payload)

module _ (fr rd : Framer) (rest : Bytes) (strict : rd.allow_illegal_reads ≡ false) where
  pub deliver_closed :
      (closed : rd.last_header_stream ≡ 0) (out : Option Error × Framer) (payload : Bytes)
      (t flags sid : ℕ) (f : Frame)
      → out ≡ end_write (record fr { wbuf = unsent_bytes t flags sid payload })
      → length payload < 2 ^ 24
      → length payload ≤ rd.max_read_size
      → t < 256
      → flags < 256
      → sid < 2 ^ 31
      → type_frame_parser t (wire_header t flags sid payload) payload ≡ parsed f
      → (header f).ftype ≢ frame_continuation
      → Delivers out fr rd rest f
  deliver_closed closed out payload t flags sid f e fits allowed byte_t byte_flags sid_31 parses
        other =
      rw e (
        deliver fr rd rest payload t flags sid f fits allowed byte_t byte_flags sid_31 parses
          (check_frame_order_closed _ _ strict closed other))
