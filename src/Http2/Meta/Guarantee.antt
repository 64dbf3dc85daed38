-- ===== src/Http2/Meta/Guarantee.antt =====
-- What `readMetaFrame` of internal/http2/frame.go guarantees of the fields that it returns.
use req.Base.{
  ℕ, suc, ◌≡◌, ◌≢◌, inl, inr, refl, sym, ap, subst, Bool, true, false, Option, none, some, [],
  length, arith,
}
use req.Base.Bytes.{Bytes}
use req.Http2.Errors.{Detail}
use req.Http2.Frame.{FrameHeader, PriorityParam, has, flag_end_headers}
use req.Http2.Framer.{Framer, max_header_list_size}
use req.Http2.Meta.{
  Hpack, has_colon, MetaHeadersFrame, regular_fields, pseudo_fields, check_pseudos, Progress,
  BlockEnd, MetaResult, meta, finish_meta, end_checked, end_meta, read_meta_frame, start_progress,
}
use req.Http2.Meta.Fields.{IsMeta, check_pseudos_from-Sound}
use req.Http2.Meta.Gathered.{Gathered, read_block-Gathered}
use req.Http2.Meta.{
  BlockEnd, block_done, block_panic, out_of_fuel, block_closed, block_failed, frame_of,
  max_header_string_len, read_fragments, meta_failed,
}
use req.Http2.Errors.{illegal_read_meta}
use req.Base.{if◌then◌else◌}

module _ (lib : Hpack) where
  check_pseudos-IsMeta :
      (max : ℕ) (m : Progress lib)
      → Gathered lib max m
      → check_pseudos lib m.fields ≡ none
      → IsMeta lib max m.fields
  unfolding check_pseudos
  check_pseudos-IsMeta max m g e =
      let (distinct, kinds) =
        check_pseudos_from-Sound lib false false [] (pseudo_fields lib m.fields) e in
      record {
        valid = g.valid;
        pseudos_first = g.pseudos_first;
        distinct = distinct;
        one_kind = elim kinds [ inl k ↦ inl k.1 | inr k ↦ inr k.1 ];
        within = omega (arith, g.within);
      }

  end_checked_inv :
      (mh mh' : MetaHeadersFrame lib) (wrong : Option Detail) (fr fr' : Framer)
      → end_checked lib mh wrong fr ≡ (meta mh', fr')
      → (mh ≡ mh') × (wrong ≡ none)
  unfolding end_checked
  end_checked_inv mh mh' none fr fr' e = (ground arith, refl)
  end_checked_inv mh mh' (some x) fr fr' e = absurd (ground arith)

  finish_meta_inv :
      (mh mh' : MetaHeadersFrame lib) (fine : Bool) (invalid : Option Detail) (fr fr' : Framer)
      → finish_meta lib mh fine invalid fr ≡ (meta mh', fr')
      → (mh ≡ mh') × (check_pseudos lib mh.fields ≡ none)
  unfolding finish_meta end_checked
  finish_meta_inv mh mh' false invalid fr fr' e = absurd (ground arith)
  finish_meta_inv mh mh' true (some x) fr fr' e = absurd (ground arith)
  finish_meta_inv mh mh' true none fr fr' e =
      end_checked_inv mh mh' (check_pseudos lib mh.fields) fr fr' e

  end_meta_inv :
      (fh : FrameHeader) (priority : PriorityParam) (ending : BlockEnd lib) (m : Progress lib)
      (d d' : lib.Decoder) (fr fr' : Framer) (mh : MetaHeadersFrame lib)
      → end_meta lib fh priority (record { ending = ending; progress = m; hdec = d; framer = fr })
        ≡ (meta mh, d', fr')
      → (frame_of lib (record fh { valid = false }) priority m ≡ mh)
        × (check_pseudos lib m.fields ≡ none)
  unfolding end_meta
  end_meta_inv fh priority block_done m d d' fr fr' mh e =
      finish_meta_inv (frame_of lib (record fh { valid = false }) priority m) mh (lib.close d).0
        m.invalid fr fr' (ap (λ q. (q.0, q.2)) e)
  end_meta_inv fh priority block_panic m d d' fr fr' mh e = absurd (ground arith)
  end_meta_inv fh priority out_of_fuel m d d' fr fr' mh e = absurd (ground arith)
  end_meta_inv fh priority (block_closed x) m d d' fr fr' mh e = absurd (ground arith)
  end_meta_inv fh priority (block_failed x) m d d' fr fr' mh e = absurd (ground arith)

  legal_inv :
      (lax : Bool) (r s t : MetaResult lib × lib.Decoder × Framer)
      → r ≢ t
      → (if lax then r else s) ≡ t
      → s ≡ t
  legal_inv true r s t differ e = absurd (differ e)
  legal_inv false r s t differ e = e

  read_fragments-Gathered :
      ((f : lib.Field) → lib.is_pseudo f ≡ has_colon (lib.name f))
      → (fh : FrameHeader) (frag : Bytes) (d : lib.Decoder) (fr : Framer)
      → Gathered lib (max_header_list_size fr) (read_fragments lib fh frag d fr).progress
  unfolding read_fragments regular_fields
  read_fragments-Gathered colon fh frag d fr =
      read_block-Gathered lib colon (max_header_list_size fr) (suc (length fr.input)) frag
        (has fh.flags flag_end_headers) (start_progress lib fr)
        (lib.set_max_string_length (max_header_string_len lib fr) (lib.set_emit_enabled true d)) fr
        (record { valid = tt; pseudos_first = tt; early = λ s. tt; within = omega arith })

  -- For any HPACK decoder whose fields are pseudo fields exactly if their names start with a colon,
  -- a frame that readMetaFrame returns without an error has the stream of the HEADERS frame; its
  -- fields have valid values and pseudo or valid lower-case names, the pseudo fields come first,
  -- have different names, and are all of a request or all of a response, and the sizes add up to no
  -- more than the header list size allowed.
  pub read_meta_frame-IsMeta :
      ((f : lib.Field) → lib.is_pseudo f ≡ has_colon (lib.name f))
      → (fh : FrameHeader) (priority : PriorityParam) (frag : Bytes) (d d' : lib.Decoder)
        (fr fr' : Framer) (mh : MetaHeadersFrame lib)
      → read_meta_frame lib fh priority frag d fr ≡ (meta mh, d', fr')
      → IsMeta lib (max_header_list_size fr) mh.fields × (mh.fh.stream_id ≡ fh.stream_id)
  unfolding read_meta_frame
  read_meta_frame-IsMeta colon fh priority frag d d' fr fr' mh e =
      let b = read_fragments lib fh frag d fr in
      let (same, checked) = end_meta_inv fh priority b.ending b.progress b.hdec d' b.framer fr' mh (
        legal_inv fr.allow_illegal_reads (meta_failed none illegal_read_meta, d, fr)
          (end_meta lib fh priority b) (meta mh, d', fr') (λ x. absurd (ground arith)) e) in
      let g = read_fragments-Gathered colon fh frag d fr in
      let r = check_pseudos-IsMeta (max_header_list_size fr) b.progress g checked in
      (
        subst (λ x. IsMeta lib (max_header_list_size fr) x.fields) same r,
        ap (λ x. x.fh.stream_id) (sym same),
      )
