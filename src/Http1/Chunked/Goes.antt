-- ===== src/Http1/Chunked/Goes.antt =====
-- internal/chunked.go: what the chunked reader owes its caller, and what a round of its loop pays.
use req.Base.{
  ℕ, zero, suc, ◌≤◌, ◌<◌, ◌≡◌, refl, sym, ap, ◌∙◌, Bool, true, false, ◌&&◌, ◌==◌, Bool-cases,
  Option, none, some, ◌⊎◌, inl, inr, [], ◌∷◌, length, arith,
}
use req.Base.Bytes.{Bytes}
use req.Http1.Bufio.{
  BufReader, remaining, IsReader, Error, eof, unexpected_eof, malformed, Full, full, short, nature,
  unexpected, buffer_full, line_too_long, invalid_byte, length_too_large, short_write, foreign,
}
use req.Http1.Bufio.Remaining.{FullTook}
use req.Http1.Chunked.{ChunkedReader, at_eof, end_chunk}
use req.Http1.Chunked.Decode.{
  Ending, finished, failed, Phase, header, body, footer, prepend, decode, in_chunk,
}

abbrev pub ending_of : Error → Bytes → Ending
ending_of eof s = finished s
ending_of e s = failed e

pub at_eof-failed : (e : Error) (s : Bytes) → ending_of (at_eof e) s ≡ failed (in_chunk e)
unfolding at_eof
at_eof-failed eof s = refl
at_eof-failed unexpected_eof s = refl
at_eof-failed buffer_full s = refl
at_eof-failed line_too_long s = refl
at_eof-failed malformed s = refl
at_eof-failed invalid_byte s = refl
at_eof-failed length_too_large s = refl
at_eof-failed short_write s = refl
at_eof-failed (foreign n) s = refl

at_eof-unexpected : (e : Error) → at_eof (unexpected e) ≡ at_eof e
unfolding at_eof unexpected
at_eof-unexpected eof = refl
at_eof-unexpected unexpected_eof = refl
at_eof-unexpected buffer_full = refl
at_eof-unexpected line_too_long = refl
at_eof-unexpected malformed = refl
at_eof-unexpected invalid_byte = refl
at_eof-unexpected length_too_large = refl
at_eof-unexpected short_write = refl
at_eof-unexpected (foreign n) = refl

at_eof_lem : (e f : Error) → (e ≡ f) ⊎ (e ≡ unexpected f) → at_eof e ≡ at_eof f
at_eof_lem e f (inl h) = ap at_eof h
at_eof_lem e f (inr h) = ap at_eof h ∙ at_eof-unexpected f

pub footer_short :
    (src : ℕ × Error) (s : Bytes)
    → length s < 2
    → decode src footer s ≡ ([], failed (in_chunk src.1))
unfolding decode
footer_short src [] h = refl
footer_short src (x ∷ []) h = refl
footer_short src (x ∷ y ∷ s) h = absurd (omega arith)

pub footer_ok :
    (src : ℕ × Error) (x y : ℕ) (s : Bytes)
    → (x == 13 && y == 10) ≡ true
    → decode src footer (x ∷ y ∷ s) ≡ decode src (header src.0 []) s
unfolding decode
footer_ok src x y s e = rw e refl

pub footer_bad :
    (src : ℕ × Error) (x y : ℕ) (s : Bytes)
    → (x == 13 && y == 10) ≡ false
    → decode src footer (x ∷ y ∷ s) ≡ ([], failed malformed)
unfolding decode
footer_bad src x y s e = rw e refl

pub body_short : (src : ℕ × Error) (n : ℕ) → decode src (body n) [] ≡ ([], failed (in_chunk src.1))
unfolding decode
body_short src n = refl

-- Where in the coding a reader stands.
abbrev pub phase_of : ℕ → Bool → ℕ → Phase
phase_of size true n = footer
phase_of size false zero = header size []
phase_of size false (suc n) = body n

abbrev pub owed_at : ℕ × Error → Option Error → Phase → Bytes → Bytes × Ending
owed_at src (some e) p s = ([], ending_of e s)
owed_at src none p s = decode src p s

-- The bytes that a reader has still to return, and how it ends.
abbrev pub owed : ChunkedReader → Bytes × Ending
owed cr = owed_at (nature cr.r) cr.error (phase_of cr.r.cap cr.check_end cr.n) (remaining cr.r)

pub record IsChunked (cr : ChunkedReader) : Type 0 where
  pub reader : IsReader cr.r
  pub at_end : cr.check_end ≡ true → cr.n ≡ 0

-- What one round does: some bytes come off what is owed, at most `k`, and unless it fails the input
-- gets shorter.
pub record Goes (k : ℕ) (cr : ChunkedReader) (p : Bytes) (cr' : ChunkedReader) : Type 0 where
  pub owes : owed cr ≡ prepend p (owed cr')
  pub fits : length p ≤ k
  pub still : IsChunked cr'
  pub shorter : cr'.error ≡ none → length (remaining cr'.r) < length (remaining cr.r)

abbrev pub reader_at : BufReader → ℕ → Bool → ChunkedReader
reader_at r n at_end = record { r = r; n = n; error = none; check_end = at_end }

pub end_chunk-Goes :
    (k : ℕ) (r : BufReader) (f : Full)
    → IsReader r
    → FullTook r f
    → Goes k (reader_at r 0 true) [] (end_chunk f (reader_at r 0 true))
unfolding end_chunk
end_chunk-Goes k r (full x y r') h t = elim (Bool-cases (x == 13 && y == 10)) [
  | inl same ↦ rw same (record {
    owes =
        ap (decode (nature r) footer) t.0
        ∙ footer_ok (nature r) x y (remaining r') same
        ∙ ap (λ c. decode c (header c.0 []) (remaining r')) (sym t.2);
    fits = omega arith;
    still = record { reader = t.1; at_end = λ e. refl };
    shorter = λ e. omega (arith, ap length t.0);
  })
  | inr other ↦ rw other (record {
    owes = ap (decode (nature r) footer) t.0 ∙ footer_bad (nature r) x y (remaining r') other;
    fits = omega arith;
    still = record { reader = t.1; at_end = λ e. refl };
    shorter = λ e. absurd (ground arith);
  })
]
end_chunk-Goes k r (short e r') h t =
    let at_end : at_eof e ≡ at_eof r.failure = at_eof_lem e r.failure t.3 in
    rw at_end (record {
      owes =
          footer_short (nature r) (remaining r) t.0
          ∙ ap (λ x. ([], x)) (sym (at_eof-failed r.failure (remaining r')));
      fits = omega arith;
      still = record { reader = t.1; at_end = λ e. refl };
      shorter = λ e. absurd (ground arith);
    })
