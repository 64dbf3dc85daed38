-- ===== src/Http2/Meta/Total.antt =====
-- `readMetaFrame` of internal/http2/frame.go ends, and its type assertion does not fail.
use req.Base.{
  ℕ, suc, zero, ◌<◌, ◌≡◌, refl, if◌then◌else◌, Bool, true, false, Option, none, some, length, arith,
}
use req.Base.Bytes.{Bytes}
use req.Http2.Errors.{Detail, Error, illegal_read_meta}
use req.Http2.Frame.{
  FrameHeader, PriorityParam, Frame, header, headers_frame, continuation_frame, unknown_frame, has,
  flag_end_headers, frame_headers, frame_continuation,
}
use req.Http2.Framer.{Framer, Result, ok, err, read_frame}
use req.Http2.Framer.Validity.{IsValid, read_frame-IsValid}
use req.Http2.Framer.Order.{unfinished, Tracks, read_frame-Tracks}
use req.Http2.Framer.Progress.{read_frame-input}
use req.Http2.Meta.{
  Hpack, MetaHeadersFrame, check_pseudos, Progress, decode, BlockEnd, block_done, block_panic,
  out_of_fuel, block_closed, block_failed, Block, refuse_fragment, continue_block, end_round,
  read_block, MetaResult, meta_failed, meta_panic, meta_out_of_fuel, finish_meta, end_checked,
  end_meta, read_fragments, read_meta_frame, start_progress, max_header_string_len, frame_of,
}

-- Whether the constructor of a frame is that of a CONTINUATION frame.
abbrev IsContinuation : Frame → Type 0
IsContinuation (continuation_frame fh p) = Unit
IsContinuation _ = ⊥

typed-IsContinuation :
    (g : Frame) → IsValid g → (header g).ftype ≡ frame_continuation → IsContinuation g
unfolding header
typed-IsContinuation (continuation_frame fh p) v t = tt
typed-IsContinuation (unknown_frame fh p) v t = absurd (omega (arith, v, t))
typed-IsContinuation _ v t = absurd (ground arith)

next-IsContinuation :
    (last : Frame) (fr fr' : Framer) (g : Frame)
    → Tracks (some last) fr
    → unfinished last ≡ true
    → read_frame fr ≡ (ok g, fr')
    → IsContinuation g
next-IsContinuation last fr fr' g t u same =
    let (follows, tracks) = read_frame-Tracks (some last) fr fr' g t same in
    let c = rw u at follows in typed-IsContinuation g (read_frame-IsValid fr fr' g same).0 c.0

module _ (lib : Hpack) where
  abbrev pub Ends : BlockEnd lib → Type 0
  Ends block_panic = ⊥
  Ends out_of_fuel = ⊥
  Ends _ = Unit

  -- What a fragment in hand leaves for the rounds that follow.
  record Open (last : Frame) (ended : Bool) (fuel : ℕ) (fr : Framer) : Type 0 where
    tracks : Tracks (some last) fr
    block : ended ≡ false → unfinished last ≡ true
    enough : length fr.input < fuel

  -- The frame after an unfinished one is a CONTINUATION frame, with its type.
  continuation_of :
      (fh : FrameHeader) (p : Bytes)
      → (fh.ftype ≡ frame_continuation)
      → has fh.flags flag_end_headers ≡ false
      → unfinished (continuation_frame fh p) ≡ true
  unfolding header
  continuation_of fh p t h = ground arith

  continue_block-Ends :
      (fuel : ℕ) (last : Frame) (next : Bytes → Bool → Framer → Block lib) (m : Progress lib)
      (d : lib.Decoder) (fr : Framer) (q : Result Frame × Framer)
      → read_frame fr ≡ q
      → Tracks (some last) fr
      → unfinished last ≡ true
      → length fr.input < suc fuel
      → ((frag : Bytes) (ended : Bool) (fr' : Framer) (g : Frame)
          → Open g ended fuel fr'
          → Ends (next frag ended fr').ending)
      → Ends (continue_block lib next m d q).ending
  unfolding continue_block header
  continue_block-Ends fuel last next m d fr (err e, fr') same t u enough step = tt
  continue_block-Ends fuel last next m d fr (ok (continuation_frame fh frag), fr') same t u enough
        step =
      let g = continuation_frame fh frag in
      let (follows, tracks) = read_frame-Tracks (some last) fr fr' g t same in
      let valid = (read_frame-IsValid fr fr' g same).0 in
      step frag (has fh.flags flag_end_headers) fr' g (record {
        tracks = tracks;
        block = λ open_block. continuation_of fh frag valid.0 open_block;
        enough = omega (arith, read_frame-input fr fr' g same);
      })
  continue_block-Ends fuel last next m d fr (ok g, fr') same t u enough step =
      absurd (next-IsContinuation last fr fr' g t u same)

  end_round-Ends :
      (refused : Option Error) (fine ended : Bool) (m : Progress lib) (d : lib.Decoder)
      (m' : Progress lib) (d' : lib.Decoder) (fr : Framer) (next : Block lib)
      → (ended ≡ false → Ends next.ending)
      → Ends (end_round lib refused fine ended m d m' d' fr next).ending
  unfolding end_round
  end_round-Ends (some e) fine ended m d m' d' fr next h = tt
  end_round-Ends none false ended m d m' d' fr next h = tt
  end_round-Ends none true true m d m' d' fr next h = tt
  end_round-Ends none true false m d m' d' fr next h = h refl

  read_block-Ends :
      (fuel : ℕ) (last : Frame) (frag : Bytes) (ended : Bool) (m : Progress lib) (d : lib.Decoder)
      (fr : Framer)
      → Open last ended fuel fr
      → Ends (read_block lib fuel frag ended m d fr).ending
  unfolding read_block
  read_block-Ends zero last frag ended m d fr o = absurd (omega (arith, o.enough))
  read_block-Ends (suc fuel) last frag ended m d fr o =
      let s = decode lib (lib.decoder_write frag d) m in
      let next : Bytes → Bool → Framer → Block lib = λ f e r. read_block lib fuel f e s.1 s.0.1 r in
      end_round-Ends (refuse_fragment lib frag m) s.0.0 ended m d s.1 s.0.1 fr
        (continue_block lib next s.1 s.0.1 (read_frame fr))
        (λ more.
          continue_block-Ends fuel last next s.1 s.0.1 fr (read_frame fr) refl o.tracks
            (o.block more) o.enough (λ f e r g o'. read_block-Ends fuel g f e s.1 s.0.1 r o'))

  headers_of :
      (fh : FrameHeader) (p : PriorityParam) (frag : Bytes)
      → (fh.ftype ≡ frame_headers)
      → has fh.flags flag_end_headers ≡ false
      → unfinished (headers_frame fh p frag) ≡ true
  unfolding header
  headers_of fh p frag t h = ground arith

  -- A frame or an error, not a panic nor the end of the fuel.
  abbrev pub IsResult : MetaResult lib → Type 0
  IsResult meta_panic = ⊥
  IsResult meta_out_of_fuel = ⊥
  IsResult _ = Unit

  end_checked-Total :
      (mh : MetaHeadersFrame lib) (wrong : Option Detail) (fr : Framer)
      → IsResult (end_checked lib mh wrong fr).0
  unfolding end_checked
  end_checked-Total mh none fr = tt
  end_checked-Total mh (some e) fr = tt

  finish_meta-Total :
      (mh : MetaHeadersFrame lib) (fine : Bool) (invalid : Option Detail) (fr : Framer)
      → IsResult (finish_meta lib mh fine invalid fr).0
  unfolding finish_meta
  finish_meta-Total mh false invalid fr = tt
  finish_meta-Total mh true (some e) fr = end_checked-Total mh (some e) fr
  finish_meta-Total mh true none fr = end_checked-Total mh (check_pseudos lib mh.fields) fr

  branch-Total :
      (lax : Bool) (r s : MetaResult lib × lib.Decoder × Framer)
      → IsResult r.0
      → IsResult s.0
      → IsResult (if lax then r else s).0
  branch-Total true r s h h' = h
  branch-Total false r s h h' = h'

  read_fragments-Ends :
      (fh : FrameHeader) (p : PriorityParam) (frag : Bytes) (d : lib.Decoder) (fr0 fr : Framer)
      → fr0.allow_illegal_reads ≡ false
      → fr0.last_header_stream ≡ 0
      → read_frame fr0 ≡ (ok (headers_frame fh p frag), fr)
      → Ends (read_fragments lib fh frag d fr).ending
  unfolding read_fragments
  read_fragments-Ends fh p frag d fr0 fr strict closed same =
      let f = headers_frame fh p frag in
      let start : Tracks none fr0 = record {
        strict = strict;
        block = closed;
        stream = λ g e. absurd (ground arith);
      } in
      let (follows, tracks) = read_frame-Tracks none fr0 fr f start same in
      let valid = (read_frame-IsValid fr0 fr f same).0 in
      read_block-Ends (suc (length fr.input)) f frag (has fh.flags flag_end_headers)
        (start_progress lib fr)
        (lib.set_max_string_length (max_header_string_len lib fr) (lib.set_emit_enabled true d)) fr
        (record {
          tracks = tracks;
          block = λ open_block. headers_of fh p frag valid.0 open_block;
          enough = omega arith;
        })

  end_meta-Total :
      (fh : FrameHeader) (p : PriorityParam) (ending : BlockEnd lib) (m : Progress lib)
      (d : lib.Decoder) (fr : Framer)
      → Ends ending
      → IsResult
          (end_meta lib fh p (record { ending = ending; progress = m; hdec = d; framer = fr })).0
  unfolding end_meta
  end_meta-Total fh p block_done m d fr h =
      finish_meta-Total (frame_of lib (record fh { valid = false }) p m) (lib.close d).0 m.invalid
        fr
  end_meta-Total fh p block_panic m d fr h = absurd h
  end_meta-Total fh p out_of_fuel m d fr h = absurd h
  end_meta-Total fh p (block_closed e) m d fr h = tt
  end_meta-Total fh p (block_failed e) m d fr h = tt

  -- On a reader that obeys the protocol and has no open header block, readMetaFrame, called with
  -- the HEADERS frame that ReadFrame has just returned, ends with a frame or an error for any HPACK
  -- decoder: its loop does not run on, and no frame in it fails the assertion to be a CONTINUATION
  -- frame.
  pub read_meta_frame-Total :
      (fh : FrameHeader) (p : PriorityParam) (frag : Bytes) (d : lib.Decoder) (fr0 fr : Framer)
      → fr0.allow_illegal_reads ≡ false
      → fr0.last_header_stream ≡ 0
      → read_frame fr0 ≡ (ok (headers_frame fh p frag), fr)
      → IsResult (read_meta_frame lib fh p frag d fr).0
  unfolding read_meta_frame
  read_meta_frame-Total fh p frag d fr0 fr strict closed same =
      let b = read_fragments lib fh frag d fr in
      let all =
        end_meta-Total fh p b.ending b.progress b.hdec b.framer
          (read_fragments-Ends fh p frag d fr0 fr strict closed same) in
      branch-Total fr.allow_illegal_reads (meta_failed none illegal_read_meta, d, fr)
        (end_meta lib fh p b) tt all
