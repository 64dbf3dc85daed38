-- ===== src/Http2/Framer/Progress.antt =====
-- `ReadFrame` of internal/http2/frame.go takes bytes off its input.
use mathlib.Core.Option
use req.Base.{
  ℕ, ◌-◌, ◌≤◌, ◌<◌, ◌≡◌, refl, ap, Bool-cases, leb, ltb, none, [], ◌∷◌, ◌++◌, length, length-drop,
  arith, inl, inr,
}
use req.Base.Bytes.{Bytes}
use req.Http2.Errors.{Error, conn_error}
use req.Http2.Frame.{Frame, FrameHeader, frame_header_len}
use req.Http2.Frame.Parse.{Parsed, parsed, failed, type_frame_parser}
use req.Http2.Framer.{
  Framer, ok, read_frame, check_frame_order, take_header, read_payload, take_payload, accept,
  report, ordered, Fill, filled, short, read_full, decode_header, invalidate,
}

report-input : (e : Error) (fr : Framer) → (report e fr).1.input ≡ fr.input
unfolding report
report-input (conn_error c r) fr = refl
report-input _ fr = refl

ordered-input : (f : Frame) (fr : Framer) → (ordered f (check_frame_order f fr)).1.input ≡ fr.input
unfolding ordered check_frame_order
ordered-input f fr = ground arith

accept-input : (r : Parsed Frame) (fr : Framer) → (accept r fr).1.input ≡ fr.input
unfolding accept
accept-input (parsed f) fr = ordered-input f fr
accept-input (failed token e) fr = report-input e (record fr { counted = fr.counted ++ token ∷ [] })

-- What is left of the input behind a read of `n` bytes.
abbrev Leaves : ℕ → ℕ → Fill → Type 0
Leaves n before (filled buf rest) = (length rest ≤ before - n) × (n ≤ before)
Leaves n before (short e) = Unit

read_full-Leaves : (n : ℕ) (input : Bytes) → Leaves n (length input) (read_full n input)
unfolding read_full
read_full-Leaves n input = elim (Bool-cases (leb n (length input))) [
  | inl enough ↦ rw enough (omega (arith, length-drop n input), ground arith)
  | inr less ↦ rw less tt
]

take_payload-input :
    (fh : FrameHeader) (before : ℕ) (r : Fill) (fr : Framer)
    → Leaves fh.length before r
    → length (take_payload fh r fr).1.input ≤ before
unfolding take_payload
take_payload-input fh before (filled p rest) fr h = omega (
  arith,
  h,
  ap length (accept-input (type_frame_parser fh.ftype fh p) (record fr { input = rest })),
)
take_payload-input fh before (short e) fr h = omega arith

read_payload-input :
    (fh : FrameHeader) (fr : Framer) → length (read_payload fh fr).1.input ≤ length fr.input
unfolding read_payload
read_payload-input fh fr = elim (Bool-cases (ltb fr.max_read_size fh.length)) [
  | inl big ↦ rw big (omega arith)
  | inr fits ↦ rw fits (
      take_payload-input fh (length fr.input) (read_full fh.length fr.input) fr
        (read_full-Leaves fh.length fr.input))
]

take_header-input :
    (before : ℕ) (r : Fill) (fr fr' : Framer) (f : Frame)
    → Leaves 9 before r
    → take_header r fr ≡ (ok f, fr')
    → length fr'.input < before
unfolding take_header
take_header-input before (filled buf rest) fr fr' f h e =
    let mid = record fr { input = rest } in
    let l = read_payload-input (decode_header buf) mid in
    let same : (read_payload (decode_header buf) mid).1 ≡ fr' = ap (λ q. q.1) e in
    omega (arith, h, l, ap (λ s. length s.input) same)
take_header-input before (short x) fr fr' f h e = absurd (ground arith)

-- A frame that is returned has taken bytes.
pub read_frame-input :
    (fr fr' : Framer) (f : Frame) → read_frame fr ≡ (ok f, fr') → length fr'.input < length fr.input
unfolding read_frame
read_frame-input fr fr' f e =
    take_header-input (length fr.input) (read_full frame_header_len fr.input)
      (record fr { err_detail = none; last_frame = Option.map invalidate fr.last_frame }) fr' f
      (read_full-Leaves frame_header_len fr.input) e
