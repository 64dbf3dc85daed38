-- ===== src/Http2/Framer/Validity.antt =====
-- What holds of every frame that `ReadFrame` returns: the rules of RFC 9113 on lengths and streams.
use req.Base.{
  ℕ, ◌+◌, ◌-◌, ◌%◌, ◌^◌, ◌≤◌, ◌<◌, ◌≡◌, ◌≢◌, refl, String, Bool, true, false, Bool-cases, none,
  some, Option, [], ◌∷◌, length, take, ◌==◌, length-take, length-drop, arith, inl, inr, ◌⊎◌,
}
use req.Base.Bytes.{Bytes}
use req.Http2.Frame.{
  PriorityParam, FrameHeader, Frame, header, has, flag_ack, flag_padded, flag_headers_priority,
  data_frame, headers_frame, priority_frame, rst_stream_frame, settings_frame, push_promise_frame,
  ping_frame, go_away_frame, window_update_frame, continuation_frame, unknown_frame, frame_data,
  frame_headers, frame_priority, frame_rst_stream, frame_settings, frame_push_promise, frame_ping,
  frame_go_away, frame_window_update, frame_continuation, setting_initial_window_size,
}
use req.Http2.Frame.Settings.{value, window_too_big}
use req.Http2.Frame.Parse.{
  data_unpadded, headers_body, headers_unpadded, push_promise_body, push_promise_unpadded, Parsed,
  parsed, failed, ◌>>=◌, read_pad_length, read_priority, read_uint32, or_short, type_frame_parser,
  parse_data_frame, parse_headers_frame, parse_priority_frame, parse_rst_stream_frame,
  parse_settings_frame, parse_push_promise, parse_ping_frame, parse_go_away_frame,
  parse_window_update_frame, parse_continuation_frame, parse_unknown_frame,
}
use req.Http2.Framer.Inversion.{read_frame_inv}
use req.Http2.Framer.{Framer, ok, read_frame}

-- The value of a setting, if there is one, is at most `m`.
abbrev pub AtMost : ℕ → Option ℕ → Type 0
AtMost m none = Unit
AtMost m (some v) = v ≤ m

-- The type of each frame and the rules for it. Fragments and data are no longer than the payload.
abbrev pub IsValid : Frame → Type 0
IsValid (data_frame fh d) = (fh.ftype ≡ frame_data) × (fh.stream_id ≢ 0) × (length d ≤ fh.length)
IsValid (headers_frame fh p d) =
    (fh.ftype ≡ frame_headers)
    × (fh.stream_id ≢ 0)
    × (length d ≤ fh.length)
    × (p.stream_dep < 2 ^ 31)
IsValid (priority_frame fh p) =
    (fh.ftype ≡ frame_priority) × (fh.stream_id ≢ 0) × (fh.length ≡ 5) × (p.stream_dep < 2 ^ 31)
IsValid (rst_stream_frame fh c) =
    (fh.ftype ≡ frame_rst_stream) × (fh.stream_id ≢ 0) × (fh.length ≡ 4)
IsValid (settings_frame fh p) =
    (fh.ftype ≡ frame_settings)
    × (fh.stream_id ≡ 0)
    × (fh.length % 6 ≡ 0)
    × ((has fh.flags flag_ack ≡ false) ⊎ (fh.length ≡ 0))
    × AtMost (2 ^ 31 - 1) (value p setting_initial_window_size)
IsValid (push_promise_frame fh n d) =
    (fh.ftype ≡ frame_push_promise) × (fh.stream_id ≢ 0) × (n < 2 ^ 31) × (length d + 4 ≤ fh.length)
IsValid (ping_frame fh d) = (fh.ftype ≡ frame_ping) × (fh.stream_id ≡ 0) × (length d ≡ 8)
IsValid (go_away_frame fh n c d) =
    (fh.ftype ≡ frame_go_away) × (fh.stream_id ≡ 0) × (n < 2 ^ 31) × (length d + 8 ≡ fh.length)
IsValid (window_update_frame fh n) =
    (fh.ftype ≡ frame_window_update) × (0 < n) × (n < 2 ^ 31) × (fh.length ≡ 4)
IsValid (continuation_frame fh d) =
    (fh.ftype ≡ frame_continuation) × (fh.stream_id ≢ 0) × (length d ≡ fh.length)
IsValid (unknown_frame fh d) = (10 ≤ fh.ftype) × (length d ≡ fh.length)

-- What a parser's result says: a frame with the given header that obeys the rules, or an error.
abbrev pub Sound : FrameHeader → Parsed Frame → Type 0
Sound fh (parsed f) = (header f ≡ fh) × IsValid f
Sound fh (failed _ _) = Unit

length-take-le : (n : ℕ) (p : Bytes) → length (take n p) ≤ length p
length-take-le n p = omega (arith, length-take n p)

-- A step that reads from the front leaves no more than it was given.
read_pad_length-le :
    (token : String) (b : Bool) (p : Bytes) (r : Bytes × ℕ)
    → read_pad_length token b p ≡ parsed r
    → length r.0 ≤ length p
unfolding read_pad_length
read_pad_length-le token true [] r e = ground arith
read_pad_length-le token true (b ∷ p) r e = ground arith
read_pad_length-le token false p r e = ground arith

read_uint32-le :
    (token : String) (p : Bytes) (r : Bytes × ℕ)
    → or_short token (read_uint32 p) ≡ parsed r
    → length r.0 + 4 ≤ length p
unfolding or_short read_uint32
read_uint32-le token p r e = ground (arith, length-drop 4 p)

-- A bound parser is sound if what follows each value that it can yield is.
>>=-Sound {ℓ} :
    {A : Type ℓ} (fh : FrameHeader) (m : Parsed A) (k : A → Parsed Frame)
    → ((a : A) → m ≡ parsed a → Sound fh (k a))
    → Sound fh (m >>= k)
>>=-Sound fh (parsed a) k h = h a refl
>>=-Sound fh (failed token e) k h = tt

-- The priority fields are read from the front too, and the dependency has 31 bits.
read_priority-bounds :
    (b : Bool) (p q : Bytes) (prio : PriorityParam)
    → read_priority b p ≡ parsed (q, prio)
    → (length q ≤ length p) × (prio.stream_dep < 2 ^ 31)
unfolding read_priority
read_priority-bounds false p q prio e = ground arith
read_priority-bounds true p q prio e = ground (arith, length-drop 4 p)

window_too_big_lem : (o : Option ℕ) → window_too_big o ≡ false → AtMost (2 ^ 31 - 1) o
unfolding window_too_big
window_too_big_lem none h = tt
window_too_big_lem (some v) h = ground arith

module _ (fh : FrameHeader) (p : Bytes) (len : length p ≡ fh.length) where
  data_unpadded-Sound :
      fh.ftype ≡ frame_data
      → fh.stream_id ≢ 0
      → (r : Bytes × ℕ) → length r.0 ≤ length p
      → Sound fh (data_unpadded fh r)
  unfolding data_unpadded header
  data_unpadded-Sound t nz (q, n) le = ground (arith, length-take-le (length q - n) q)

  data-Sound : fh.ftype ≡ frame_data → Sound fh (parse_data_frame fh p)
  unfolding parse_data_frame header
  data-Sound t = elim (Bool-cases (fh.stream_id == 0)) [
    | inl zero_id ↦ rw zero_id tt
    | inr some_id ↦ rw some_id (
        >>=-Sound fh (read_pad_length "frame_data_pad_byte_short" (has fh.flags flag_padded) p)
          (data_unpadded fh)
          (λ r e. data_unpadded-Sound t (ground arith) r (read_pad_length-le _ _ p r e)))
  ]

  headers_unpadded-Sound :
      fh.ftype ≡ frame_headers
      → fh.stream_id ≢ 0
      → (n : ℕ) (r : Bytes × PriorityParam) → length r.0 ≤ length p
      → r.1.stream_dep < 2 ^ 31
      → Sound fh (headers_unpadded fh n r)
  unfolding headers_unpadded header
  headers_unpadded-Sound t nz n (q, prio) le dep = ground (arith, length-take-le (length q - n) q)

  push_promise_unpadded-Sound :
      fh.ftype ≡ frame_push_promise
      → fh.stream_id ≢ 0
      → (n : ℕ) (r : Bytes × ℕ) → length r.0 + 4 ≤ length p
      → Sound fh (push_promise_unpadded fh n r)
  unfolding push_promise_unpadded header
  push_promise_unpadded-Sound t nz n (q, v) le = ground (arith, length-take-le (length q - n) q)

  headers-Sound : fh.ftype ≡ frame_headers → Sound fh (parse_headers_frame fh p)
  unfolding parse_headers_frame headers_body header
  headers-Sound t = elim (Bool-cases (fh.stream_id == 0)) [
    | inl zero_id ↦ rw zero_id tt
    | inr some_id ↦ rw some_id (
        >>=-Sound fh (read_pad_length "frame_headers_pad_short" (has fh.flags flag_padded) p)
          (headers_body fh)
          (λ r e.
            >>=-Sound fh (read_priority (has fh.flags flag_headers_priority) r.0)
              (headers_unpadded fh r.1)
              (λ s g.
                headers_unpadded-Sound t (ground arith) r.1 s
                  (omega
                    (arith, read_pad_length-le _ _ p r e, (read_priority-bounds _ r.0 s.0 s.1 g).0))
                  (read_priority-bounds _ r.0 s.0 s.1 g).1)))
  ]

  push_promise-Sound : fh.ftype ≡ frame_push_promise → Sound fh (parse_push_promise fh p)
  unfolding parse_push_promise push_promise_body header
  push_promise-Sound t = elim (Bool-cases (fh.stream_id == 0)) [
    | inl zero_id ↦ rw zero_id tt
    | inr some_id ↦ rw some_id (
        >>=-Sound fh (read_pad_length "frame_pushpromise_pad_short" (has fh.flags flag_padded) p)
          (push_promise_body fh)
          (λ r e.
            >>=-Sound fh (or_short "frame_pushpromise_promiseid_short" (read_uint32 r.0))
              (push_promise_unpadded fh r.1)
              (λ s g.
                push_promise_unpadded-Sound t (ground arith) r.1 s
                  (omega (arith, read_pad_length-le _ _ p r e, read_uint32-le _ r.0 s g)))))
  ]

  ping-Sound : fh.ftype ≡ frame_ping → Sound fh (parse_ping_frame fh p)
  unfolding parse_ping_frame header
  ping-Sound t = ground arith

  priority-Sound : fh.ftype ≡ frame_priority → Sound fh (parse_priority_frame fh p)
  unfolding parse_priority_frame header
  priority-Sound t = ground arith

  rst_stream-Sound : fh.ftype ≡ frame_rst_stream → Sound fh (parse_rst_stream_frame fh p)
  unfolding parse_rst_stream_frame header
  rst_stream-Sound t = ground arith

  settings-Sound : fh.ftype ≡ frame_settings → Sound fh (parse_settings_frame fh p)
  unfolding parse_settings_frame header
  settings-Sound t = ground (arith, window_too_big_lem (value p setting_initial_window_size))

  go_away-Sound : fh.ftype ≡ frame_go_away → Sound fh (parse_go_away_frame fh p)
  unfolding parse_go_away_frame header
  go_away-Sound t = ground (arith, length-drop 8 p)

  window_update-Sound : fh.ftype ≡ frame_window_update → Sound fh (parse_window_update_frame fh p)
  unfolding parse_window_update_frame header
  window_update-Sound t = ground arith

  continuation-Sound : fh.ftype ≡ frame_continuation → Sound fh (parse_continuation_frame fh p)
  unfolding parse_continuation_frame header
  continuation-Sound t = ground arith

  unknown-Sound : 10 ≤ fh.ftype → Sound fh (parse_unknown_frame fh p)
  unfolding parse_unknown_frame header
  unknown-Sound t = ground arith

  -- Whatever the type, the parser of that type is sound.
  pub type_frame_parser-Sound : Sound fh (type_frame_parser fh.ftype fh p)
  unfolding type_frame_parser
  type_frame_parser-Sound = ground (
    arith, data-Sound, headers-Sound, priority-Sound, rst_stream-Sound, settings-Sound,
    push_promise-Sound, ping-Sound, go_away-Sound, window_update-Sound, continuation-Sound,
    unknown-Sound,
  )

-- A frame that ReadFrame returns has the type, the stream and the lengths that the protocol
-- prescribes for it, its length is at most the limit set for the reader, and it is marked valid.
pub read_frame-IsValid :
    (fr fr' : Framer) (f : Frame)
    → read_frame fr ≡ (ok f, fr')
    → IsValid f × ((header f).length ≤ fr.max_read_size) × ((header f).valid ≡ true)
read_frame-IsValid fr fr' f e =
    let r = read_frame_inv fr fr' f e in
    let (same, good) = rw r.parses at (type_frame_parser-Sound r.fh r.payload r.full) in
    (good, rw same r.within, rw same r.valid)
