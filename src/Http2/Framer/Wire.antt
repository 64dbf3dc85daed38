-- ===== src/Http2/Framer/Wire.antt =====
-- The layout of a frame on the wire: what `end_write` sends, and what `read_frame` makes of it.
use mathlib.Core.Option
use req.Base.{
  ℕ, ◌/◌, ◌%◌, ◌^◌, ◌≤◌, ◌<◌, ◌≡◌, refl, true, none, le→leb, le→ltb, [], ◌∷◌, ◌++◌, append_assoc,
  length, length-append, take-append, drop-append, arith,
}
use req.Base.Bytes.{Bytes, put_uint32}
use req.Http2.Frame.{FrameHeader}
use req.Http2.Frame.Parse.{type_frame_parser}
use req.Http2.Framer.{
  Framer, filled, read_full, decode_header, read_payload, take_header, take_payload, read_frame,
  accept, invalidate,
}
use req.Http2.Framer.Write.{end_write, write_error}

-- Nine bytes: the length in three, the type, the flags, and the stream in four.
abbrev pub header_bytes : ℕ → ℕ → ℕ → ℕ → Bytes
header_bytes n t flags sid =
    (n / 2 ^ 16 % 256) ∷ (n / 2 ^ 8 % 256) ∷ (n % 256) ∷ (t % 256) ∷ (flags % 256) ∷ put_uint32 sid

abbrev pub frame_bytes : ℕ → ℕ → ℕ → Bytes → Bytes
frame_bytes t flags sid payload = header_bytes (length payload) t flags sid ++ payload

-- The header that the reader finds before a payload.
abbrev pub header_of : ℕ → ℕ → ℕ → ℕ → FrameHeader
header_of t flags n sid = record {
  valid = true;
  ftype = t;
  flags = flags;
  length = n;
  stream_id = sid;
}

abbrev pub wire_header : ℕ → ℕ → ℕ → Bytes → FrameHeader
wire_header t flags sid payload = record {
  valid = true;
  ftype = t;
  flags = flags;
  length = length payload;
  stream_id = sid;
}

pub read_full-append :
    (n : ℕ) (xs rest : Bytes) → n ≡ length xs → read_full n (xs ++ rest) ≡ filled xs rest
unfolding read_full
read_full-append n xs rest e =
    rw
      (
        le→leb n (length (xs ++ rest)) (omega (arith, length-append xs rest)),
        take-append n xs rest e,
        drop-append n xs rest e,
      )
      refl

pub decode_header-header_bytes :
    (n t flags sid : ℕ)
    → n < 2 ^ 24
    → t < 256
    → flags < 256
    → sid < 2 ^ 31
    → decode_header (header_bytes n t flags sid)
      ≡ record { valid = true; ftype = t; flags = flags; length = n; stream_id = sid }
unfolding decode_header
decode_header-header_bytes n t flags sid hn ht hf hs = ground arith

-- The reader behind a frame: nothing to explain, the last frame void, the rest still to be read.
abbrev pub behind : Framer → Bytes → Framer
behind rd rest = record rd {
  err_detail = none;
  last_frame = Option.map invalidate rd.last_frame;
  input = rest;
}

pub read_frame-frame_bytes :
    (rd : Framer) (rest payload : Bytes) (t flags sid : ℕ)
    → length payload < 2 ^ 24
    → length payload ≤ rd.max_read_size
    → t < 256
    → flags < 256
    → sid < 2 ^ 31
    → read_frame (record rd { input = frame_bytes t flags sid payload ++ rest })
      ≡ accept (type_frame_parser t (wire_header t flags sid payload) payload) (behind rd rest)
unfolding read_frame
read_frame-frame_bytes rd rest payload t flags sid hn hm ht hf hs =
    rw
      (
        append_assoc (header_bytes (length payload) t flags sid) payload rest,
        read_full-append 9 (header_bytes (length payload) t flags sid) (payload ++ rest) refl,
      )
      (unfold take_header read_payload in
        rw
          (
            decode_header-header_bytes (length payload) t flags sid hn ht hf hs,
            le→ltb rd.max_read_size (length payload) hm,
            read_full-append (length payload) payload rest refl,
          )
          (unfold take_payload in refl))

pub end_write-frame_bytes :
    (fr : Framer) (t flags sid : ℕ) (payload : Bytes)
    → length payload < 2 ^ 24
    → end_write
        (record fr { wbuf = 0 ∷ 0 ∷ 0 ∷ (t % 256) ∷ (flags % 256) ∷ (put_uint32 sid ++ payload) })
      ≡ (
        write_error
            (length (frame_bytes t flags sid payload))
            (fr.respond (frame_bytes t flags sid payload)),
        record fr {
          wbuf = frame_bytes t flags sid payload;
          writes = fr.writes ++ frame_bytes t flags sid payload ∷ [];
        },
      )
unfolding end_write
end_write-frame_bytes fr t flags sid payload h = ground arith
