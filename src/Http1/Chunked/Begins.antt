-- ===== src/Http1/Chunked/Begins.antt =====
-- internal/chunked.go: beginChunk against the byte-for-byte reading of the stream.
use req.Base.{
  ℕ, zero, suc, ◌+◌, ◌*◌, ◌%◌, ◌^◌, ◌<◌, ◌≡◌, refl, sym, ap, ◌∙◌, subst, Bool, true, false, ◌==◌,
  leb, Bool-cases, Option, none, some, inl, inr, [], ◌∷◌, length, length-append, arith,
}
use req.Base.Bytes.{Bytes}
use req.Http1.Bufio.{
  BufReader, remaining, IsReader, eof, buffer_full, Slice, slice, no_slice, nature, Error,
  unexpected_eof, line_too_long, malformed, invalid_byte, length_too_large, short_write, foreign,
}
use req.Http1.Bufio.Lines.{Sliced, cut_line_parts}
use req.Http1.Chunked.{
  Result, ok, err, ChunkedReader, chunk_line, parse_hex_uint, line_error, of_slice, set_size,
  take_line, hex_digit, parse_hex_from, max_line_length, add_digit,
}
use req.Http1.Chunked.Decode.{
  failed, body, line_size, size_of, after_size, decode, decode-header, decode-header_too_long,
  decode-header_short, in_line,
}
use req.Http1.Chunked.Goes.{ending_of, owed, Goes, reader_at}

-- The errors of a line are not the end of the message.
abbrev pub Fails {ℓ} : {A : Type ℓ} → Result A → Type 0
Fails (ok a) = Unit
Fails (err e) = (s : Bytes) → ending_of e s ≡ failed e

pub add_digit-Fails :
    (o : Option ℕ) (too_many : Bool) (next : ℕ → Result ℕ)
    → ((d : ℕ) → Fails (next d))
    → Fails (add_digit o too_many next)
unfolding add_digit
add_digit-Fails none too_many next h = λ s. refl
add_digit-Fails (some d) true next h = λ s. refl
add_digit-Fails (some d) false next h = h d

pub parse_hex_from-Fails : (i n : ℕ) (v : Bytes) → Fails (parse_hex_from i n v)
unfolding parse_hex_from
parse_hex_from-Fails i n [] = tt
parse_hex_from-Fails i n (b ∷ v) =
    add_digit-Fails (hex_digit b) (i == 16) (λ d. parse_hex_from (i + 1) (n * 16 % 2 ^ 64 + d) v)
      (λ d. parse_hex_from-Fails (i + 1) (n * 16 % 2 ^ 64 + d) v)

pub chunk_line-Fails : (line : Bytes) → Fails (chunk_line line)
unfolding chunk_line
chunk_line-Fails line = elim (Bool-cases (leb max_line_length (length line))) [
  | inl long ↦ rw long (λ s. refl)
  | inr good ↦ rw good tt
]

-- A reader behind a line owes what its size announces.
pub record Begun (r r' : BufReader) (size : Result ℕ) (cr : ChunkedReader) : Type 0 where
  owes : after_size size (remaining r') (λ n. decode (nature r) (body n) (remaining r')) ≡ owed cr
  there : cr.r ≡ r'
  inside_chunk : cr.check_end ≡ false

pub set_size-Begun :
    (r r' : BufReader) (size : Result ℕ)
    → nature r' ≡ nature r
    → Fails size
    → Begun r r' size (set_size size (reader_at r' 0 false))
unfolding set_size
set_size-Begun r r' (err e) c h = record {
  owes = ap (λ x. ([], x)) (sym (h (remaining r')));
  there = refl;
  inside_chunk = refl;
}
set_size-Begun r r' (ok zero) c h = record { owes = refl; there = refl; inside_chunk = refl }
set_size-Begun r r' (ok (suc n)) c h = record {
  owes = ap (λ s. decode s (body n) (remaining r')) (sym c);
  there = refl;
  inside_chunk = refl;
}

pub take_line-Begun :
    (r r' : BufReader) (q : Result Bytes)
    → nature r' ≡ nature r
    → Fails q
    → Begun r r' (size_of q) (take_line (q, r') (reader_at r 0 false))
unfolding take_line parse_hex_uint
take_line-Begun r r' (err e) c h = record {
  owes = ap (λ x. ([], x)) (sym (h (remaining r')));
  there = refl;
  inside_chunk = refl;
}
take_line-Begun r r' (ok line) c h =
    set_size-Begun r r' (parse_hex_from 0 0 line) c (parse_hex_from-Fails 0 0 line)

line_error-failed : (e : Error) (s : Bytes) → ending_of (line_error e) s ≡ failed (in_line e)
unfolding line_error
line_error-failed eof s = refl
line_error-failed unexpected_eof s = refl
line_error-failed buffer_full s = refl
line_error-failed line_too_long s = refl
line_error-failed malformed s = refl
line_error-failed invalid_byte s = refl
line_error-failed length_too_large s = refl
line_error-failed short_write s = refl
line_error-failed (foreign n) s = refl

pub begin_chunk-Goes :
    (k : ℕ) (r : BufReader) (s : Slice)
    → IsReader r
    → Sliced (nature r) (remaining r) s
    → Goes k (reader_at r 0 false) [] (take_line (of_slice s) (reader_at r 0 false))
unfolding of_slice line_error line_size take_line
begin_chunk-Goes k r (slice line r') h t =
    let b = take_line-Begun r r' (chunk_line line) t.3 (chunk_line-Fails line) in
    let (parts, some_line) = cut_line_parts (remaining r) line (remaining r') t.0 in
    let here = decode-header (nature r) r.cap [] (remaining r) line (remaining r') t.0 t.1 in
    record {
      owes = here ∙ b.owes;
      fits = omega arith;
      still = record {
        reader = subst IsReader (sym b.there) t.2;
        at_end = λ e. absurd (ground arith);
      };
      shorter = λ e.
          subst (λ x. length (remaining x) < length (remaining r)) (sym b.there)
            (omega (arith, ap length parts, length-append line (remaining r'), some_line));
    }
begin_chunk-Goes k r (no_slice e r') h (inl (same, none_found, short), h', c) = record {
  owes =
      decode-header_short (nature r) r.cap [] (remaining r) short none_found
      ∙ ap (λ x. ([], x))
          (sym (
            ap (λ x. ending_of (line_error x) (remaining r')) same
            ∙ line_error-failed r.failure (remaining r')));
  fits = omega arith;
  still = record { reader = h'; at_end = λ e. refl };
  shorter = λ e. absurd (ground arith);
}
begin_chunk-Goes k r (no_slice e r') h (inr (same, far, long), h', c) = record {
  owes =
      decode-header_too_long (nature r) r.cap [] (remaining r) long far
      ∙ ap (λ x. ([], x)) (sym (ap (λ x. ending_of (line_error x) (remaining r')) same));
  fits = omega arith;
  still = record { reader = h'; at_end = λ e. refl };
  shorter = λ e. absurd (ground arith);
}
