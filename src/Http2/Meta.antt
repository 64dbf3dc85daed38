-- ===== src/Http2/Meta.antt =====
-- `MetaHeadersFrame` and `readMetaFrame` of internal/http2/frame.go: the merging of a HEADERS frame
-- and its CONTINUATION frames, and the checks on the fields that the HPACK decoder finds in them.
-- The dump of the fields and the logging are left out.
pub mod Fields
pub mod Gathered
pub mod Guarantee
pub mod Total
mod Examples
use req.Base.{
  ℕ, zero, suc, ◌+◌, ◌-◌, ◌*◌, ◌%◌, ◌^◌, Bool, true, false, not, ◌&&◌, ◌||◌, ◌==◌, ltb, Option,
  none, some, if◌then◌else◌, List, [], ◌∷◌, ◌++◌, length, drop,
}
use req.Base.Bytes.{Bytes, equal_names}
use req.Http2.Errors.{
  Error, illegal_read_meta, connection, stream, Detail, header_field_value, header_field_name,
  pseudo_after_regular, pseudo_header, duplicate_pseudo_header, mix_pseudo_header_types,
  err_code_protocol, err_code_compression,
}
use req.Http2.Frame.{
  FrameHeader, PriorityParam, Frame, headers_frame, continuation_frame, has, flag_end_headers,
}
use req.Http2.Framer.{Framer, Result, ok, err, max_header_list_size, read_frame}
use req.Http2.Names.{valid_wire_header_field_name}

-- What a `Write` of the decoder does: it calls the function set by `SetEmitFunc` with a field, in a
-- state that the function may change, and goes on; or it returns, `true` if without an error.
pub data Decoding (F D : Type 0) : Type 0 where
  wrote : Bool → D → Decoding F D
  emit : F → D → (D → Decoding F D) → Decoding F D

-- golang.org/x/net: the header fields and the decoder of http2/hpack, and the checks of httpguts.
pub record Hpack : Type 1 where
  pub Field : Type 0
  pub name : Field → Bytes
  pub val : Field → Bytes
  pub is_pseudo : Field → Bool
  pub field_size : Field → ℕ
  pub Decoder : Type 0
  pub set_emit_enabled : Bool → Decoder → Decoder
  pub set_max_string_length : ℕ → Decoder → Decoder
  pub decoder_write : Bytes → Decoder → Decoding Field Decoder
  pub close : Decoder → Bool × Decoder
  pub is_token_rune : ℕ → Bool
  pub valid_header_field_value : Bytes → Bool

-- `strings.HasPrefix(name, ":")`
abbrev pub has_colon : Bytes → Bool
has_colon [] = false
has_colon (b ∷ rest) = b == 0x3a

-- ":method", ":path", ":scheme", ":authority" and ":status"
abbrev method_name : Bytes
method_name = 58 ∷ 109 ∷ 101 ∷ 116 ∷ 104 ∷ 111 ∷ 100 ∷ []

abbrev path_name : Bytes
path_name = 58 ∷ 112 ∷ 97 ∷ 116 ∷ 104 ∷ []

abbrev scheme_name : Bytes
scheme_name = 58 ∷ 115 ∷ 99 ∷ 104 ∷ 101 ∷ 109 ∷ 101 ∷ []

abbrev authority_name : Bytes
authority_name = 58 ∷ 97 ∷ 117 ∷ 116 ∷ 104 ∷ 111 ∷ 114 ∷ 105 ∷ 116 ∷ 121 ∷ []

abbrev status_name : Bytes
status_name = 58 ∷ 115 ∷ 116 ∷ 97 ∷ 116 ∷ 117 ∷ 115 ∷ []

abbrev pub is_request_name : Bytes → Bool
is_request_name n =
    equal_names n method_name
    || equal_names n path_name
    || equal_names n scheme_name
    || equal_names n authority_name

abbrev pub is_response_name : Bytes → Bool
is_response_name n = equal_names n status_name

module _ (lib : Hpack) where
  pub record MetaHeadersFrame : Type 0 where
    pub fh : FrameHeader
    pub priority : PriorityParam
    pub fields : List lib.Field
    pub truncated : Bool

  -- `RegularFields`
  unfoldable pub regular_fields : List lib.Field → List lib.Field
  regular_fields [] = []
  regular_fields (f ∷ fs) = if lib.is_pseudo f then regular_fields fs else f ∷ fs

  -- `PseudoFields`
  unfoldable pub pseudo_fields : List lib.Field → List lib.Field
  pseudo_fields [] = []
  pseudo_fields (f ∷ fs) = let rest = pseudo_fields fs in if lib.is_pseudo f then f ∷ rest else []

  -- `PseudoValue`, for a name without its colon; "" if it is not there.
  unfoldable pub pseudo_value : Bytes → List lib.Field → Bytes
  pseudo_value pseudo [] = []
  pseudo_value pseudo (f ∷ fs) =
      let rest = pseudo_value pseudo fs in
      if not (lib.is_pseudo f)
      then []
      else if equal_names (drop 1 (lib.name f)) pseudo
      then lib.val f
      else rest

  unfoldable pub seen_before : Bytes → List lib.Field → Bool
  seen_before n [] = false
  seen_before n (f ∷ fs) = equal_names n (lib.name f) || seen_before n fs

  -- The loop of `checkPseudos` behind the fields `seen`.
  unfoldable pub check_pseudos_from : Bool → Bool → List lib.Field → List lib.Field → Option Detail
  unfolding seen_before
  check_pseudos_from request response seen [] =
      if request && response then some mix_pseudo_header_types else none
  check_pseudos_from request response seen (f ∷ fs) =
      let n = lib.name f in
      let rest =
        check_pseudos_from (request || is_request_name n) (response || is_response_name n)
          (seen ++ f ∷ []) fs in
      if not (is_request_name n || is_response_name n)
      then some (pseudo_header n)
      else if seen_before n seen
      then some (duplicate_pseudo_header n)
      else rest

  -- `checkPseudos`
  unfoldable pub check_pseudos : List lib.Field → Option Detail
  unfolding check_pseudos_from pseudo_fields
  check_pseudos fields = check_pseudos_from false false [] (pseudo_fields fields)

  -- The variables that the emit function of `readMetaFrame` closes over.
  pub record Progress : Type 0 where
    pub remain_size : ℕ
    pub saw_regular : Bool
    pub invalid : Option Detail
    pub truncated : Bool
    pub fields : List lib.Field

  -- The checks of `rawEmitFunc`, the last error first.
  unfoldable pub check_field : lib.Field → Progress → Progress
  check_field hf m =
      let checked =
        if lib.valid_header_field_value (lib.val hf)
        then m.invalid
        else some (header_field_value (lib.name hf)) in
      if has_colon (lib.name hf)
      then record m { invalid = if m.saw_regular then some pseudo_after_regular else checked }
      else record m {
        saw_regular = true;
        invalid =
            if valid_wire_header_field_name lib.is_token_rune (lib.name hf)
            then checked
            else some (header_field_name (lib.name hf));
      }

  -- Its end: the field is kept if it is valid and fits.
  unfoldable pub keep_field :
      lib.Field → Option Detail → Progress → lib.Decoder → Progress × lib.Decoder
  keep_field hf (some e) m d = (m, lib.set_emit_enabled false d)
  keep_field hf none m d =
      let size = lib.field_size hf in
      if ltb m.remain_size size
      then (record m { truncated = true; remain_size = 0 }, lib.set_emit_enabled false d)
      else (record m { remain_size = m.remain_size - size; fields = m.fields ++ hf ∷ [] }, d)

  -- `rawEmitFunc`
  unfoldable pub raw_emit : lib.Field → Progress → lib.Decoder → Progress × lib.Decoder
  unfolding check_field keep_field
  raw_emit hf m d = keep_field hf (check_field hf m).invalid (check_field hf m) d

  -- A `Write` of the decoder, with its calls of the emit function.
  unfoldable pub decode :
      Decoding lib.Field lib.Decoder → Progress → (Bool × lib.Decoder) × Progress
  unfolding raw_emit
  decode (wrote fine d) m = ((fine, d), m)
  decode (emit hf d k) m = decode (k (raw_emit hf m d).1) (raw_emit hf m d).0

  -- How the loop over the fragments ends: at the end of the block, or with an error that is
  -- returned with the frame so far or without one, or with the panic of a failed type assertion.
  pub data BlockEnd : Type 0 where
    block_done block_panic out_of_fuel : BlockEnd
    block_closed block_failed : Error → BlockEnd

  pub record Block : Type 0 where
    pub ending : BlockEnd
    pub progress : Progress
    pub hdec : lib.Decoder
    pub framer : Framer

  -- The tests before a fragment is handed to the decoder. `2 * remainSize` is a uint32.
  unfoldable pub refuse_fragment : Bytes → Progress → Option Error
  refuse_fragment frag m =
      if ltb (2 * m.remain_size % 2 ^ 32) (length frag)
      then some (connection err_code_protocol)
      else elim m.invalid [ none ↦ none | some e ↦ some (connection err_code_protocol) ]

  abbrev pub stop : BlockEnd → Progress → lib.Decoder → Framer → Block
  stop ending m d fr = record { ending = ending; progress = m; hdec = d; framer = fr }

  -- The use of `ReadFrame` at the end of a round, `next` being the rounds that follow.
  unfoldable pub continue_block :
      (Bytes → Bool → Framer → Block) → Progress → lib.Decoder → Result Frame × Framer → Block
  continue_block next m d (err e, fr) = stop (block_failed e) m d fr
  continue_block next m d (ok (continuation_frame fh frag), fr) =
      next frag (has fh.flags flag_end_headers) fr
  continue_block next m d (ok _, fr) = stop block_panic m d fr

  -- The end of a round, whose `Write` went from `m` and `d` to `m'` and `d'`.
  unfoldable pub end_round :
      Option Error
      → Bool
      → Bool
      → Progress
      → lib.Decoder
      → Progress
      → lib.Decoder
      → Framer
      → Block
      → Block
  end_round (some e) fine ended m d m' d' fr next = stop (block_closed e) m d fr
  end_round none false ended m d m' d' fr next =
      stop (block_closed (connection err_code_compression)) m' d' fr
  end_round none true true m d m' d' fr next = stop block_done m' d' fr
  end_round none true false m d m' d' fr next = next

  -- The loop of `readMetaFrame`, at a fragment that ends the block or not.
  unfoldable pub read_block : ℕ → Bytes → Bool → Progress → lib.Decoder → Framer → Block
  unfolding refuse_fragment decode continue_block end_round
  read_block zero frag ended m d fr = stop out_of_fuel m d fr
  read_block (suc fuel) frag ended m d fr =
      let ((fine, d'), m') = decode (lib.decoder_write frag d) m in
      let next =
        continue_block (λ frag' ended' fr'. read_block fuel frag' ended' m' d' fr') m' d'
          (read_frame fr) in
      end_round (refuse_fragment frag m) fine ended m d m' d' fr next

  pub data MetaResult : Type 0 where
    meta : MetaHeadersFrame → MetaResult
    meta_failed : Option MetaHeadersFrame → Error → MetaResult
    meta_panic meta_out_of_fuel : MetaResult

  -- The error of an invalid field or of the pseudo header fields, if there is one.
  unfoldable pub end_checked : MetaHeadersFrame → Option Detail → Framer → MetaResult × Framer
  end_checked mh none fr = (meta mh, fr)
  end_checked mh (some e) fr = (
    meta_failed none (stream mh.fh.stream_id err_code_protocol (some e)),
    record fr { err_detail = some e },
  )

  -- The checks after `hdec.Close()`, and the end of `readMetaFrame`.
  unfoldable pub finish_meta :
      MetaHeadersFrame → Bool → Option Detail → Framer → MetaResult × Framer
  unfolding end_checked check_pseudos
  finish_meta mh false invalid fr = (meta_failed (some mh) (connection err_code_compression), fr)
  finish_meta mh true (some e) fr = end_checked mh (some e) fr
  finish_meta mh true none fr = end_checked mh (check_pseudos mh.fields) fr

  abbrev pub frame_of : FrameHeader → PriorityParam → Progress → MetaHeadersFrame
  frame_of fh priority m = record {
    fh = fh;
    priority = priority;
    fields = m.fields;
    truncated = m.truncated;
  }

  unfoldable pub end_meta : FrameHeader → PriorityParam → Block → MetaResult × lib.Decoder × Framer
  unfolding finish_meta
  end_meta fh priority b = elim b.ending [
    | block_done ↦
        let (fine, d) = lib.close b.hdec in
        let (r, fr) =
          finish_meta (frame_of (record fh { valid = false }) priority b.progress) fine
            b.progress.invalid b.framer in
        (r, d, fr)
    | block_panic ↦ (meta_panic, b.hdec, b.framer)
    | out_of_fuel ↦ (meta_out_of_fuel, b.hdec, b.framer)
    | block_closed e ↦ (meta_failed (some (frame_of fh priority b.progress)) e, b.hdec, b.framer)
    | block_failed e ↦ (meta_failed none e, b.hdec, b.framer)
  ]

  -- `maxHeaderStringLen` for an int of 64 bits, in which every uint32 fits.
  unfoldable pub max_header_string_len : Framer → ℕ
  max_header_string_len fr = max_header_list_size fr

  abbrev pub start_progress : Framer → Progress
  start_progress fr = record {
    remain_size = max_header_list_size fr;
    saw_regular = false;
    invalid = none;
    truncated = false;
    fields = [];
  }

  -- The loop with what `readMetaFrame` sets up for it. Each round but the first takes a frame off
  -- the input, so one round more than the input has bytes is enough.
  unfoldable pub read_fragments : FrameHeader → Bytes → lib.Decoder → Framer → Block
  unfolding read_block max_header_string_len
  read_fragments fh frag d fr =
      read_block (suc (length fr.input)) frag (has fh.flags flag_end_headers) (start_progress fr)
        (lib.set_max_string_length (max_header_string_len fr) (lib.set_emit_enabled true d)) fr

  -- `readMetaFrame`
  unfoldable pub read_meta_frame :
      FrameHeader → PriorityParam → Bytes → lib.Decoder → Framer → MetaResult × lib.Decoder × Framer
  unfolding end_meta read_fragments
  read_meta_frame fh priority frag d fr =
      if fr.allow_illegal_reads
      then (meta_failed none illegal_read_meta, d, fr)
      else end_meta fh priority (read_fragments fh frag d fr)
