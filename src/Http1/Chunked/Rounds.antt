-- ===== src/Http1/Chunked/Rounds.antt =====
-- One round of the loop of `Read` of internal/chunked.go, on each of its paths, against the
-- byte-for-byte reading of the stream.
use req.Base.{
  ℕ, zero, suc, ◌-◌, ◌≤◌, ◌<◌, min, ◌≡◌, refl, sym, ap, ◌∙◌, subst, Bool, true, false, not, ◌&&◌,
  ◌==◌, ltb, if◌then◌else◌, Bool-cases, Option, none, some, ◌⊎◌, inl, inr, [], ◌∷◌, length,
  length-append, arith,
}
use req.Base.Bytes.{Bytes}
use req.Http1.Bufio.{BufReader, remaining, IsReader, read_buf, read_full_2, read_slice, nature}
use req.Http1.Bufio.Remaining.{Took, read_buf-Took, read_full_2-FullTook}
use req.Http1.Bufio.Lines.{read_slice-Sliced}
use req.Http1.Chunked.{
  ChunkedReader, read_chunk_line, begin_chunk, chunk_header_available, end_chunk, take_bytes, Round,
  stop, go_on, is_empty, round_chunk, round,
}
use req.Http1.Chunked.Decode.{body, footer, prepend, decode, inside, decode-inside}
use req.Http1.Chunked.Goes.{
  reader_at, Goes, IsChunked, phase_of, end_chunk-Goes, body_short, at_eof-failed,
}
use req.Http1.Chunked.Begins.{begin_chunk-Goes}

still_inside :
    (r r' : BufReader) (left : ℕ)
    → nature r' ≡ nature r
    → decode (nature r) (inside left) (remaining r')
      ≡ decode (nature r') (phase_of r'.cap (if left == 0 then true else false) left) (remaining r')
still_inside r r' zero c = ap (λ s. decode s footer (remaining r')) (sym c)
still_inside r r' (suc n) c =
    let more : (suc n == 0) ≡ false = ground arith in
    rw more (ap (λ s. decode s (body n) (remaining r')) (sym c))

ended : (left : ℕ) → (if left == 0 then true else false) ≡ true → left ≡ 0
ended left e = ground arith

take_bytes-Goes :
    (k n : ℕ) (r : BufReader) (o : Option (Bytes × BufReader))
    → IsReader r
    → Took (min k (suc n)) r o
    → let q = take_bytes o (reader_at r (suc n) false) in Goes k (reader_at r (suc n) false) q.0 q.1
unfolding take_bytes
take_bytes-Goes k n r none h t = record {
  owes = rw t (body_short (nature r) n ∙ ap (λ x. ([], x)) (sym (at_eof-failed r.failure [])));
  fits = omega arith;
  still = record { reader = h; at_end = λ e. absurd (ground arith) };
  shorter = λ e. absurd (ground arith);
}
take_bytes-Goes k n r (some (p, r')) h t =
    let fits : length p ≤ suc n = omega (arith, t.2) in
    record {
      owes = rw t.0 (
          decode-inside (nature r) (suc n) p (remaining r') fits
          ∙ ap (prepend p) (still_inside r r' (suc n - length p) t.4));
      fits = omega (arith, t.2);
      still = record { reader = t.3; at_end = λ e. ended (suc n - length p) e };
      shorter = λ e. omega (arith, ap length t.0, length-append p (remaining r'), t.1);
    }

-- What a round does, or why it stops.
abbrev pub RoundGoes : ℕ → Bytes → ChunkedReader → Round → Type 0
RoundGoes k got cr stop = (0 < length got) ⊎ (k ≡ 0)
RoundGoes k got cr (go_on p cr') = Goes k cr p cr'

some_got : (got : Bytes) → is_empty got ≡ false → 0 < length got
some_got [] e = absurd (ground arith)
some_got (b ∷ got) e = omega arith

-- A stop with some bytes in hand.
stop_or_go :
    (k : ℕ) (got : Bytes) (early : Bool) (cr cr' : ChunkedReader)
    → Goes k cr [] cr'
    → RoundGoes k got cr (if not (is_empty got) && early then stop else go_on [] cr')
stop_or_go k [] early cr cr' g = g
stop_or_go k (b ∷ got) true cr cr' g = inl (omega arith)
stop_or_go k (b ∷ got) false cr cr' g = g

round_at-Goes :
    (k : ℕ) (got : Bytes) (r : BufReader) (n : ℕ) (at_end : Bool)
    → IsChunked (reader_at r n at_end)
    → RoundGoes k got (reader_at r n at_end) (round k got (reader_at r n at_end))
unfolding round round_chunk begin_chunk read_chunk_line
round_at-Goes k got r zero true h =
    stop_or_go k got (ltb (length r.buf) 2) (reader_at r 0 true)
      (end_chunk (read_full_2 r) (reader_at r 0 true))
      (end_chunk-Goes k r (read_full_2 r) h.reader (read_full_2-FullTook r h.reader))
round_at-Goes k got r (suc n) true h = absurd (omega (arith, h.at_end refl))
round_at-Goes k got r zero false h =
    stop_or_go k got (not (chunk_header_available (reader_at r 0 false))) (reader_at r 0 false)
      (begin_chunk (reader_at r 0 false))
      (begin_chunk-Goes k r (read_slice r r.buf r.source) h.reader
        (read_slice-Sliced r r.buf r.source h.reader))
round_at-Goes k got r (suc n) false h =
    let some_left : (suc n == 0) ≡ false = ground arith in
    elim (Bool-cases (k == 0)) [
      | inl y ↦ rw some_left (rw y (inr (ground arith)))
      | inr some_room ↦
          let pos_k : 0 < min k (suc n) = ground arith in
          rw some_left (
            rw some_room (
              take_bytes-Goes k n r (read_buf (min k (suc n)) r) h.reader
                (read_buf-Took (min k (suc n)) r pos_k h.reader)))
    ]

pub round-Goes :
    (k : ℕ) (got : Bytes) (cr : ChunkedReader)
    → IsChunked cr
    → cr.error ≡ none
    → RoundGoes k got cr (round k got cr)
round-Goes k got cr h e =
    subst (λ x. RoundGoes k got (record cr { error = x }) (round k got (record cr { error = x })))
      (sym e)
      (round_at-Goes k got cr.r cr.n cr.check_end (record { reader = h.reader; at_end = h.at_end }))
