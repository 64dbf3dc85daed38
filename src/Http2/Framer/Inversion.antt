-- ===== src/Http2/Framer/Inversion.antt =====
-- What a read of internal/http2/frame.go that returned a frame went through.
use mathlib.Core.Option
use req.Base.{
  ℕ, ◌≤◌, ◌≡◌, refl, true, none, some, Option, length, length-take, arith, ltb, Bool-cases, inl,
  inr,
}
use req.Base.Bytes.{Bytes}
use req.Http2.Errors.{Error, conn_error}
use req.Http2.Frame.{FrameHeader, Frame, frame_header_len}
use req.Http2.Frame.Parse.{Parsed, parsed, failed, type_frame_parser}
use req.Http2.Framer.{
  Framer, ok, read_frame, take_header, read_payload, take_payload, accept, ordered, report,
  read_full, decode_header, Fill, filled, short, check_frame_order, invalidate,
}

pub length-filled :
    (n : ℕ) (input buf rest : Bytes) → read_full n input ≡ filled buf rest → length buf ≡ n
unfolding read_full
length-filled n input buf rest e = ground (arith, length-take n input)

-- The path of a frame that was returned: its header and payload, and the state `mid` in which its
-- order was checked.
pub record Returned (fr : Framer) (f : Frame) (fr' : Framer) : Type 0 where
  pub fh : FrameHeader
  pub payload : Bytes
  pub mid : Framer
  pub full : length payload ≡ fh.length
  pub within : fh.length ≤ fr.max_read_size
  pub valid : fh.valid ≡ true
  pub parses : type_frame_parser fh.ftype fh payload ≡ parsed f
  pub in_order : check_frame_order f mid ≡ (none, fr')
  pub same_block : mid.last_header_stream ≡ fr.last_header_stream
  pub same_reads : mid.allow_illegal_reads ≡ fr.allow_illegal_reads

ordered_inv :
    (g f : Frame) (q : Option Error × Framer) (fr' : Framer)
    → ordered g q ≡ (ok f, fr')
    → (g ≡ f) × (q ≡ (none, fr'))
unfolding ordered
ordered_inv g f (none, fr) fr' e = ground arith
ordered_inv g f (some x, fr) fr' e = absurd (ground arith)

report_inv : (x : Error) (fr fr' : Framer) (f : Frame) → report x fr ≡ (ok f, fr') → ⊥
unfolding report
report_inv (conn_error c r) fr fr' f e = ground arith
report_inv _ fr fr' f e = ground arith

accept_inv :
    (r : Parsed Frame) (fr fr' : Framer) (f : Frame)
    → accept r fr ≡ (ok f, fr')
    → (r ≡ parsed f) × (check_frame_order f fr ≡ (none, fr'))
unfolding accept
accept_inv (parsed g) fr fr' f e =
    let (same, checked) = ordered_inv g f (check_frame_order g fr) fr' e in
    (cc same, rw (← same) checked)
accept_inv (failed token x) fr fr' f e = absurd (report_inv x _ fr' f e)

take_payload_inv :
    (fh : FrameHeader) (r : Fill) (fr fr' : Framer) (f : Frame)
    → take_payload fh r fr ≡ (ok f, fr')
    → (p : Bytes) × (rest : Bytes) × (r ≡ filled p rest)
      × (type_frame_parser fh.ftype fh p ≡ parsed f)
      × (check_frame_order f (record fr { input = rest }) ≡ (none, fr'))
unfolding take_payload
take_payload_inv fh (filled p rest) fr fr' f e =
    let (parses, checked) = accept_inv (type_frame_parser fh.ftype fh p) _ fr' f e in
    (p, rest, refl, parses, checked)
take_payload_inv fh (short x) fr fr' f e = absurd (ground arith)

decode_header_valid : (b : Bytes) → length b ≡ 9 → (decode_header b).valid ≡ true
unfolding decode_header
decode_header_valid b h = ground arith

read_payload_inv :
    (fh : FrameHeader) (fr0 fr fr' : Framer) (f : Frame)
    → fh.valid ≡ true
    → fr.max_read_size ≡ fr0.max_read_size
    → fr.last_header_stream ≡ fr0.last_header_stream
    → fr.allow_illegal_reads ≡ fr0.allow_illegal_reads
    → read_payload fh fr ≡ (ok f, fr')
    → Returned fr0 f fr'
unfolding read_payload
read_payload_inv fh fr0 fr fr' f v m l a e = elim (Bool-cases (ltb fr.max_read_size fh.length)) [
  | inl big ↦ absurd (ground arith)
  | inr fits ↦
      let (p, rest, read, parses, checked) =
        take_payload_inv fh (read_full fh.length fr.input) fr fr' f (rw fits at e) in
      record {
        fh = fh;
        payload = p;
        mid = record fr { input = rest };
        full = length-filled fh.length fr.input p rest read;
        within = ground arith;
        valid = v;
        parses = parses;
        in_order = checked;
        same_block = l;
        same_reads = a;
      }
]

take_header_inv :
    (r : Fill) (fr fr' : Framer) (f : Frame)
    → ((buf rest : Bytes) → r ≡ filled buf rest → length buf ≡ 9)
    → take_header r fr ≡ (ok f, fr')
    → Returned fr f fr'
unfolding take_header
take_header_inv (filled buf rest) fr fr' f nine e =
    read_payload_inv (decode_header buf) fr (record fr { input = rest }) fr' f
      (decode_header_valid buf (nine buf rest refl)) refl refl refl e
take_header_inv (short x) fr fr' f nine e = absurd (ground arith)

-- A frame that `ReadFrame` returns came that way.
pub read_frame_inv : (fr fr' : Framer) (f : Frame) → read_frame fr ≡ (ok f, fr') → Returned fr f fr'
unfolding read_frame
read_frame_inv fr fr' f e =
    let r =
      take_header_inv (read_full frame_header_len fr.input)
        (record fr { err_detail = none; last_frame = Option.map invalidate fr.last_frame }) fr' f
        (length-filled frame_header_len fr.input) e in
    record {
      fh = r.fh;
      payload = r.payload;
      mid = r.mid;
      full = r.full;
      within = r.within;
      valid = r.valid;
      parses = r.parses;
      in_order = r.in_order;
      same_block = r.same_block;
      same_reads = r.same_reads;
    }
