-- ===== src/Http2/Meta/Gathered.antt =====
-- The fields that `readMetaFrame` of internal/http2/frame.go has gathered, through all calls of its
-- emit function and all rounds of its loop.
use req.Base.{
  ℕ, suc, zero, ◌+◌, ◌≤◌, ◌≡◌, inl, inr, refl, ◌∙◌, Bool, true, false, Bool-cases, ltb, Option,
  none, some, List, [], ◌∷◌, ◌++◌, All, All-append, arith,
}
use req.Base.Bytes.{Bytes}
use req.Http2.Errors.{Detail, Error}
use req.Http2.Frame.{Frame, continuation_frame, has, flag_end_headers}
use req.Http2.Framer.{Framer, Result, ok, err, read_frame}
use req.Http2.Meta.{
  Hpack, Decoding, wrote, emit, has_colon, regular_fields, Progress, check_field, keep_field,
  raw_emit, decode, Block, refuse_fragment, continue_block, end_round, read_block,
}
use req.Http2.Meta.Fields.{total_size, ValidField, Regular, Pseudo}

module _ (lib : Hpack) where
  total_size-snoc :
      (fs : List lib.Field) (f : lib.Field)
      → total_size lib (fs ++ f ∷ []) ≡ total_size lib fs + lib.field_size f
  total_size-snoc [] f = omega arith
  total_size-snoc (g ∷ fs) f = omega (arith, total_size-snoc fs f)

  regular_fields-snoc :
      (fs : List lib.Field) (f : lib.Field)
      → All (Regular lib) (regular_fields lib fs)
      → Regular lib f
      → All (Regular lib) (regular_fields lib (fs ++ f ∷ []))
  unfolding regular_fields
  regular_fields-snoc [] f h r = rw r (r, tt)
  regular_fields-snoc (g ∷ fs) f h r = elim (Bool-cases (lib.is_pseudo g)) [
    | inl p ↦ rw p (regular_fields-snoc fs f (rw p at h) r)
    | inr n ↦ rw n (let h' = rw n at h in (h'.0, All-append (Regular lib) fs (f ∷ []) h'.1 (r, tt)))
  ]

  regular_fields_none :
      (fs : List lib.Field) → All (Pseudo lib) fs → All (Regular lib) (regular_fields lib fs)
  unfolding regular_fields
  regular_fields_none [] h = tt
  regular_fields_none (f ∷ fs) h = rw h.0 (regular_fields_none fs h.1)

  -- What holds of the fields gathered so far.
  pub record Gathered (max : ℕ) (m : Progress lib) : Type 0 where
    pub valid : All (ValidField lib) m.fields
    pub pseudos_first : All (Regular lib) (regular_fields lib m.fields)
    pub early : m.saw_regular ≡ false → All (Pseudo lib) m.fields
    pub within : total_size lib m.fields + m.remain_size ≤ max

  -- What `check_field` has made sure of when it finds nothing wrong.
  Checked : Progress lib → lib.Field → Type 0
  Checked m hf =
      ValidField lib hf
      × All (Regular lib) (regular_fields lib (m.fields ++ hf ∷ []))
      × (m.saw_regular ≡ false → All (Pseudo lib) (m.fields ++ hf ∷ []))

  keep_field-Gathered :
      (max : ℕ) (hf : lib.Field) (invalid : Option Detail) (m : Progress lib) (d : lib.Decoder)
      → Gathered max m
      → (invalid ≡ none → Checked m hf)
      → Gathered max (keep_field lib hf invalid m d).0
  unfolding keep_field Checked
  keep_field-Gathered max hf (some e) m d h c = h
  keep_field-Gathered max hf none m d h c =
      elim (Bool-cases (ltb m.remain_size (lib.field_size hf))) [
        | inl big ↦ rw big (record {
          valid = h.valid;
          pseudos_first = h.pseudos_first;
          early = h.early;
          within = omega (arith, h.within);
        })
        | inr fits ↦
            let (valid, first, early) = c refl in
            let room : lib.field_size hf ≤ m.remain_size = ground arith in
            rw fits (record {
              valid = All-append (ValidField lib) m.fields (hf ∷ []) h.valid (valid, tt);
              pseudos_first = first;
              early = early;
              within = omega (arith, h.within, total_size-snoc m.fields hf);
            })
      ]

  module _ (colon : (f : lib.Field) → lib.is_pseudo f ≡ has_colon (lib.name f)) where
    check_field-Gathered :
        (max : ℕ) (hf : lib.Field) (m : Progress lib)
        → Gathered max m
        → Gathered max (check_field lib hf m)
          × ((check_field lib hf m).invalid ≡ none → Checked (check_field lib hf m) hf)
    unfolding check_field Checked
    check_field-Gathered max hf m h = elim (Bool-cases (has_colon (lib.name hf))) [
      | inl pseudo ↦ rw pseudo (
        record {
          valid = h.valid;
          pseudos_first = h.pseudos_first;
          early = h.early;
          within = h.within;
        },
        λ none_wrong.
            let unseen : m.saw_regular ≡ false = ground arith in
            let all =
              All-append (Pseudo lib) m.fields (hf ∷ []) (h.early unseen) (colon hf ∙ pseudo, tt) in
            ((ground arith, ground arith), regular_fields_none (m.fields ++ hf ∷ []) all, λ s. all),
      )
      | inr regular ↦ rw regular (
        record {
          valid = h.valid;
          pseudos_first = h.pseudos_first;
          early = λ s. absurd (ground arith);
          within = h.within;
        },
        λ none_wrong. (
          (ground arith, ground arith),
          regular_fields-snoc m.fields hf h.pseudos_first (colon hf ∙ regular),
          λ s. absurd (ground arith),
        ),
      )
    ]

    decode-Gathered :
        (max : ℕ) (t : Decoding lib.Field lib.Decoder) (m : Progress lib)
        → Gathered max m
        → Gathered max (decode lib t m).1
    unfolding decode raw_emit
    decode-Gathered max (wrote fine d) m h = h
    decode-Gathered max (emit hf d k) m h =
        let (g, c) = check_field-Gathered max hf m h in
        decode-Gathered max (k (raw_emit lib hf m d).1) (raw_emit lib hf m d).0
          (keep_field-Gathered max hf (check_field lib hf m).invalid (check_field lib hf m) d g c)

    continue_block-Gathered :
        (max : ℕ) (next : Bytes → Bool → Framer → Block lib) (m : Progress lib) (d : lib.Decoder)
        (q : Result Frame × Framer)
        → Gathered max m
        → ((frag : Bytes) (ended : Bool) (fr : Framer) → Gathered max (next frag ended fr).progress)
        → Gathered max (continue_block lib next m d q).progress
    unfolding continue_block
    continue_block-Gathered max next m d (err e, fr) h step = h
    continue_block-Gathered max next m d (ok (continuation_frame fh frag), fr) h step =
        step frag (has fh.flags flag_end_headers) fr
    continue_block-Gathered max next m d (ok _, fr) h step = h

    end_round-Gathered :
        (max : ℕ) (refused : Option Error) (fine ended : Bool) (m : Progress lib) (d : lib.Decoder)
        (m' : Progress lib) (d' : lib.Decoder) (fr : Framer) (next : Block lib)
        → Gathered max m
        → Gathered max m'
        → Gathered max next.progress
        → Gathered max (end_round lib refused fine ended m d m' d' fr next).progress
    unfolding end_round
    end_round-Gathered max (some e) fine ended m d m' d' fr next h g rest = h
    end_round-Gathered max none false ended m d m' d' fr next h g rest = g
    end_round-Gathered max none true true m d m' d' fr next h g rest = g
    end_round-Gathered max none true false m d m' d' fr next h g rest = rest

    pub read_block-Gathered :
        (max fuel : ℕ) (frag : Bytes) (ended : Bool) (m : Progress lib) (d : lib.Decoder)
        (fr : Framer)
        → Gathered max m
        → Gathered max (read_block lib fuel frag ended m d fr).progress
    unfolding read_block
    read_block-Gathered max zero frag ended m d fr h = h
    read_block-Gathered max (suc fuel) frag ended m d fr h =
        let g = decode-Gathered max (lib.decoder_write frag d) m h in
        let s = decode lib (lib.decoder_write frag d) m in
        let rest =
          continue_block-Gathered max (λ f e r. read_block lib fuel f e s.1 s.0.1 r) s.1 s.0.1
            (read_frame fr) g (λ f e r. read_block-Gathered max fuel f e s.1 s.0.1 r g) in
        end_round-Gathered max (refuse_fragment lib frag m) s.0.0 ended m d s.1 s.0.1 fr
          (continue_block lib (λ f e r. read_block lib fuel f e s.1 s.0.1 r) s.1 s.0.1
            (read_frame fr))
          h g rest
