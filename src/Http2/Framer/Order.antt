-- ===== src/Http2/Framer/Order.antt =====
-- Header blocks arrive unbroken: `checkFrameOrder` of internal/http2/frame.go over any number of
-- calls of `ReadFrame`, whether or not the calls between return errors.
use req.Base.{
  ℕ, zero, suc, ◌≡◌, ◌≢◌, refl, sym, Bool, true, false, not, ◌&&◌, ◌||◌, ◌==◌, if◌then◌else◌,
  Option, none, some, List, [], ◌∷◌, arith, inl, inr, ◌∙◌,
}
use mathlib.Core.Option.{some-injective}
use req.Http2.Errors.{Error, conn_error}
use req.Http2.Frame.{
  Frame, data_frame, FrameHeader, frame_header_len, header, has, flag_end_headers, frame_headers,
  frame_continuation,
}
use req.Http2.Frame.Parse.{Parsed, parsed, failed, type_frame_parser}
use req.Http2.Framer.{
  Framer, Result, ok, err, read_frame, check_frame_order, take_header, read_payload, take_payload,
  accept, report, ordered,
}
use req.Http2.Framer.Inversion.{Returned, read_frame_inv}
use req.Http2.Framer.Validity.{IsValid, read_frame-IsValid}
use req.Base.{◌++◌, Bool-cases, ltb, subst}
use req.Http2.Framer.{Fill, filled, short, read_full, decode_header}
use req.Http2.Frame.{data_frame, frame_header_len}
use req.Http2.Frame.Parse.{failed, type_frame_parser}

-- A HEADERS or CONTINUATION frame that does not end its header block.
abbrev pub unfinished : Frame → Bool
unfinished f =
    ((header f).ftype == frame_headers || (header f).ftype == frame_continuation)
    && not (has (header f).flags flag_end_headers)

-- The frame after an unfinished one on stream `s`, and after any other.
abbrev pub Continues : Bool → ℕ → Frame → Type 0
Continues true s g = ((header g).ftype ≡ frame_continuation) × ((header g).stream_id ≡ s)
Continues false s g = (header g).ftype ≢ frame_continuation

-- What may follow the last frame, `none` at the start of the connection.
abbrev pub Follows : Option Frame → Frame → Type 0
Follows none g = (header g).ftype ≢ frame_continuation
Follows (some f) g = Continues (unfinished f) (header f).stream_id g

abbrev pub Contiguous : Option Frame → List Frame → Type 0
Contiguous last [] = Unit
Contiguous last (g ∷ gs) = Follows last g × Contiguous (some g) gs

-- A returned frame is put before the later ones.
abbrev pub collect : Result Frame → List Frame → List Frame
collect (ok f) later = f ∷ later
collect (err e) later = later

-- The frames that `n` calls of `ReadFrame` return; a call that fails is followed by the next.
unfoldable pub read_all : ℕ → Framer → List Frame
read_all zero fr = []
read_all (suc n) fr = let (r, fr') = read_frame fr in collect r (read_all n fr')

-- The reader's record of the open header block, as the last frame implies it.
abbrev open_block : Option Frame → ℕ
open_block none = 0
open_block (some f) = if unfinished f then (header f).stream_id else 0

-- The header frames have a stream.
stream-ne-zero : (f : Frame) → IsValid f → unfinished f ≡ true → (header f).stream_id ≢ 0
unfolding header
stream-ne-zero (data_frame fh d) v h = ground arith
stream-ne-zero _ v h = ground arith

checked_step :
    (u : Bool) (s : ℕ) (g : Frame) (mid fr' : Framer)
    → mid.allow_illegal_reads ≡ false
    → mid.last_header_stream ≡ (if u then s else 0)
    → (u ≡ true → s ≢ 0)
    → check_frame_order g mid ≡ (none, fr')
    → Continues u s g
      × (fr'.last_header_stream ≡ open_block (some g))
      × (fr'.allow_illegal_reads ≡ false)
unfolding check_frame_order
checked_step true s g mid fr' strict same nz e = let pos_s = nz refl in ground arith
checked_step false s g mid fr' strict same nz e = ground arith

-- After a call that fails the reader is as ready as before.
abbrev Unmoved : Framer → Result Frame × Framer → Type 0
Unmoved fr (ok f, fr') = Unit
Unmoved fr (err e, fr') =
    (fr'.last_header_stream ≡ fr.last_header_stream)
    × (fr'.allow_illegal_reads ≡ fr.allow_illegal_reads)

report-Unmoved : (e : Error) (fr : Framer) → Unmoved fr (report e fr)
unfolding report
report-Unmoved (conn_error c r) fr = (refl, refl)
report-Unmoved _ fr = (refl, refl)

ordered-Unmoved : (f : Frame) (fr : Framer) → Unmoved fr (ordered f (check_frame_order f fr))
unfolding ordered check_frame_order
ordered-Unmoved f fr = ground arith

accept-Unmoved : (r : Parsed Frame) (fr : Framer) → Unmoved fr (accept r fr)
unfolding accept
accept-Unmoved (parsed f) fr = ordered-Unmoved f fr
accept-Unmoved (failed token e) fr =
    report-Unmoved e (record fr { counted = fr.counted ++ token ∷ [] })

take_payload-Unmoved :
    (fh : FrameHeader) (r : Fill) (fr : Framer) → Unmoved fr (take_payload fh r fr)
unfolding take_payload
take_payload-Unmoved fh (filled p rest) fr =
    accept-Unmoved (type_frame_parser fh.ftype fh p) (record fr { input = rest })
take_payload-Unmoved fh (short e) fr = (refl, refl)

read_payload-Unmoved : (fh : FrameHeader) (fr : Framer) → Unmoved fr (read_payload fh fr)
unfolding read_payload
read_payload-Unmoved fh fr = elim (Bool-cases (ltb fr.max_read_size fh.length)) [
  | inl big ↦ rw big (refl, refl)
  | inr fits ↦ rw fits (take_payload-Unmoved fh (read_full fh.length fr.input) fr)
]

take_header-Unmoved : (r : Fill) (fr : Framer) → Unmoved fr (take_header r fr)
unfolding take_header
take_header-Unmoved (filled buf rest) fr =
    read_payload-Unmoved (decode_header buf) (record fr { input = rest })
take_header-Unmoved (short e) fr = (refl, refl)

read_frame-Unmoved : (fr : Framer) → Unmoved fr (read_frame fr)
unfolding read_frame
read_frame-Unmoved fr = take_header-Unmoved (read_full frame_header_len fr.input) _

-- The reader knows the open header block of the last frame, whose header frames have a stream.
pub record Tracks (last : Option Frame) (fr : Framer) : Type 0 where
  pub strict : fr.allow_illegal_reads ≡ false
  pub block : fr.last_header_stream ≡ open_block last
  pub stream : (f : Frame) → last ≡ some f → unfinished f ≡ true → (header f).stream_id ≢ 0

pub read_frame-Tracks :
    (last : Option Frame) (fr fr' : Framer) (g : Frame)
    → Tracks last fr
    → read_frame fr ≡ (ok g, fr')
    → Follows last g × Tracks (some g) fr'
read_frame-Tracks last fr fr' g t e =
    let r = read_frame_inv fr fr' g e in
    let (follows, block, strict) = step last t r in
    (
      follows,
      record {
        strict = strict;
        block = block;
        stream = λ f same.
            subst (λ x. unfinished x ≡ true → (header x).stream_id ≢ 0) (some-injective g f same)
              (stream-ne-zero g (read_frame-IsValid fr fr' g e).0);
      },
    )
  where
    step :
        (last : Option Frame)
        → Tracks last fr
        → Returned fr g fr'
        → Follows last g
          × (fr'.last_header_stream ≡ open_block (some g))
          × (fr'.allow_illegal_reads ≡ false)
    step none t r =
        checked_step false 0 g r.mid fr' (r.same_reads ∙ t.strict) (r.same_block ∙ t.block)
          (λ x. absurd (ground arith)) r.in_order
    step (some f) t r =
        checked_step (unfinished f) (header f).stream_id g r.mid fr' (r.same_reads ∙ t.strict)
          (r.same_block ∙ t.block) (t.stream f refl) r.in_order

-- After a call that fails, what was known of the last frame still holds.
read_frame-Tracks_err :
    (last : Option Frame) (fr fr' : Framer) (x : Error)
    → Tracks last fr
    → read_frame fr ≡ (err x, fr')
    → Tracks last fr'
read_frame-Tracks_err last fr fr' x t e =
    let (block, strict) = rw e at (read_frame-Unmoved fr) in
    record { strict = strict ∙ t.strict; block = block ∙ t.block; stream = t.stream }

-- One call and the calls after it, given that these are in order.
read_all-step :
    (n : ℕ) (last : Option Frame) (fr : Framer) (q : Result Frame × Framer)
    → Tracks last fr
    → ((l : Option Frame) (s : Framer) → Tracks l s → Contiguous l (read_all n s))
    → read_frame fr ≡ q
    → Contiguous last (read_all (suc n) fr)
unfolding read_all
read_all-step n last fr (ok f, fr') t later e =
    let (follows, t') = read_frame-Tracks last fr fr' f t e in
    subst (λ q. Contiguous last (collect q.0 (read_all n q.1))) (sym e)
      (follows, later (some f) fr' t')
read_all-step n last fr (err x, fr') t later e =
    subst (λ q. Contiguous last (collect q.0 (read_all n q.1))) (sym e)
      (later last fr' (read_frame-Tracks_err last fr fr' x t e))

read_all-Contiguous_from :
    (n : ℕ) (last : Option Frame) (fr : Framer) → Tracks last fr → Contiguous last (read_all n fr)
read_all-Contiguous_from zero last fr t = unfold read_all in tt
read_all-Contiguous_from (suc n) last fr t =
    read_all-step n last fr (read_frame fr) t (read_all-Contiguous_from n) refl

-- On a reader that obeys the protocol and has no open header block, however many calls of ReadFrame
-- are made and whichever of them fail, the frames returned keep every header block unbroken: an
-- unfinished HEADERS or CONTINUATION frame is followed by a CONTINUATION frame of its stream, and
-- no other frame, nor the start, is followed by a CONTINUATION frame.
pub read_all-Contiguous :
    (n : ℕ) (fr : Framer)
    → fr.allow_illegal_reads ≡ false
    → fr.last_header_stream ≡ 0
    → Contiguous none (read_all n fr)
read_all-Contiguous n fr strict start =
    read_all-Contiguous_from n none fr
      (record { strict = strict; block = start; stream = λ f same. cc same })
