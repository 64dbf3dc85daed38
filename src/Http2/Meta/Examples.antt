-- ===== src/Http2/Meta/Examples.antt =====
-- internal/http2/frame.go: a header block of two frames, under a small decoder.
use req.Base.{ℕ, ◌+◌, ◌≡◌, refl, Bool, true, false, ltb, ◌&&◌, none, some, [], ◌∷◌, length}
use req.Base.Bytes.{Bytes}
use req.Http2.Frame.{FrameHeader, headers_frame, continuation_frame, zero_priority, header, has}
use req.Http2.Frame.Parse.{
  type_frame_parser, parse_headers_frame, parse_continuation_frame, read_pad_length, read_priority,
  headers_unpadded,
}
use req.Http2.Framer.{
  Framer, new_framer, ok, read_frame, take_header, read_full, decode_header, read_payload,
  take_payload, accept, check_frame_order, max_header_list_size,
}
use req.Http2.Meta.{
  Hpack, Decoding, wrote, emit, has_colon, MetaHeadersFrame, meta, read_meta_frame, read_fragments,
  read_block, end_meta, end_round, continue_block, refuse_fragment, decode, raw_emit, check_field,
  keep_field, finish_meta, end_checked, check_pseudos, check_pseudos_from, pseudo_fields,
  seen_before,
}
use req.Http2.Meta.Fields.{IsMeta}
use req.Http2.Meta.Guarantee.{read_meta_frame-IsMeta}
use req.Http2.Meta.Total.{read_meta_frame-Total, IsResult}
use req.Http2.Frame.Parse.{headers_body}

abbrev status : Bytes
status = 58 ∷ 115 ∷ 116 ∷ 97 ∷ 116 ∷ 117 ∷ 115 ∷ []

-- A decoder that takes a fragment for the value of a status, and an empty one for nothing.
abbrev write_status : Bytes → Bool → Decoding (Bytes × Bytes) Bool
write_status [] enabled = wrote true enabled
write_status (b ∷ v) true = emit (status, b ∷ v) true (λ d. wrote true d)
write_status (b ∷ v) false = wrote true false

abbrev small : Hpack
small = record {
  Field = Bytes × Bytes;
  name = λ f. f.0;
  val = λ f. f.1;
  is_pseudo = λ f. has_colon f.0;
  field_size = λ f. length f.0 + length f.1 + 32;
  Decoder = Bool;
  set_emit_enabled = λ enabled d. enabled;
  set_max_string_length = λ n d. d;
  decoder_write = write_status;
  close = λ d. (true, d);
  is_token_rune = λ r. ltb 32 r && ltb r 127;
  valid_header_field_value = λ v. true;
}

abbrev header_of : ℕ → ℕ → ℕ → FrameHeader
header_of t flags n = record { valid = true; ftype = t; flags = flags; length = n; stream_id = 1 }

abbrev conn : Bytes → Framer
conn input = new_framer (λ b. (length b, none)) input

abbrev continuation_bytes : Bytes
continuation_bytes = 0 ∷ 0 ∷ 0 ∷ 9 ∷ 4 ∷ 0 ∷ 0 ∷ 0 ∷ 1 ∷ []

abbrev block_bytes : Bytes
block_bytes = 0 ∷ 0 ∷ 3 ∷ 1 ∷ 0 ∷ 0 ∷ 0 ∷ 0 ∷ 1 ∷ 50 ∷ 48 ∷ 48 ∷ continuation_bytes

abbrev ok_status : Bytes
ok_status = 50 ∷ 48 ∷ 48 ∷ []

abbrev opened : Framer
opened = record (conn continuation_bytes) {
  last_frame = some (headers_frame (header_of 1 0 3) zero_priority ok_status);
  last_header_stream = 1;
}

read_opened :
    read_frame (conn block_bytes)
    ≡ (ok (headers_frame (header_of 1 0 3) zero_priority ok_status), opened)
unfolding read_frame take_header read_full decode_header read_payload take_payload accept
    type_frame_parser parse_headers_frame check_frame_order header has read_pad_length headers_body
    read_priority headers_unpadded
read_opened = refl

abbrev merged : MetaHeadersFrame small
merged = record {
  fh = record (header_of 1 0 3) { valid = false };
  priority = zero_priority;
  fields = (status, ok_status) ∷ [];
  truncated = false;
}

abbrev after_block : Framer
after_block = record (conn []) { last_frame = some (continuation_frame (header_of 9 4 0) []) }

read_merged :
    read_meta_frame small (header_of 1 0 3) zero_priority ok_status true opened
    ≡ (meta merged, true, after_block)
unfolding read_meta_frame read_fragments read_block end_meta end_round continue_block
    refuse_fragment decode raw_emit check_field keep_field finish_meta end_checked check_pseudos
    check_pseudos_from pseudo_fields seen_before read_frame take_header read_full decode_header
    read_payload take_payload accept type_frame_parser parse_continuation_frame check_frame_order
    header has max_header_list_size
read_merged = refl

read_meta_frame-IsMeta_example :
    IsMeta small (max_header_list_size opened) merged.fields × (merged.fh.stream_id ≡ 1)
read_meta_frame-IsMeta_example =
    read_meta_frame-IsMeta small (λ f. refl) (header_of 1 0 3) zero_priority ok_status true true
      opened after_block merged read_merged

read_meta_frame-Total_example :
    IsResult small (read_meta_frame small (header_of 1 0 3) zero_priority ok_status true opened).0
read_meta_frame-Total_example =
    read_meta_frame-Total small (header_of 1 0 3) zero_priority ok_status true (conn block_bytes)
      opened refl refl read_opened
