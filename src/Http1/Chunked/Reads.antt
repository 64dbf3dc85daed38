-- ===== src/Http1/Chunked/Reads.antt =====
-- Calls of `Read` of internal/chunked.go against the byte-for-byte reading of the stream.
use req.Base.{
  ℕ, zero, suc, ◌+◌, ◌-◌, ◌≤◌, ◌<◌, ◌≡◌, refl, sym, ap, ◌∙◌, Option, Option-cases, none, some,
  ◌>>=?◌, ◌⊎◌, inl, inr, [], ◌∷◌, ◌++◌, append_assoc, append-nil, length, length-append, arith,
}
use req.Base.Bytes.{Bytes}
use req.Http1.Bufio.{BufReader, remaining, IsReader, Error, nature}
use req.Http1.Chunked.{
  ChunkedReader, new_chunked_reader, Round, stop, go_on, round, read_loop, read, on_round,
}
use req.Http1.Chunked.Decode.{Ending, prepend, decode, header}
use req.Http1.Chunked.Rounds.{RoundGoes, round-Goes}
use req.Http1.Chunked.Goes.{IsChunked, owed, Goes, ending_of, owed_at, phase_of}

prepend-append : (p q : Bytes) (d : Bytes × Ending) → prepend p (prepend q d) ≡ prepend (p ++ q) d
prepend-append p q (out, e) = ap (λ x. (x, e)) (sym (append_assoc p q out))

some_or_none : (s : Bytes) → (0 < length s) ⊎ (length s ≡ 0)
some_or_none [] = inr refl
some_or_none (b ∷ s) = inl (omega arith)

-- What a call of `Read` for `k` bytes does.
pub record Reads (k : ℕ) (cr : ChunkedReader) : Type 0 where
  pub out : Bytes
  pub cr' : ChunkedReader
  pub runs : read k cr ≡ some (out, cr')
  pub owes : owed cr ≡ prepend out (owed cr')
  pub fits : length out ≤ k
  pub still : IsChunked cr'
  pub more : cr'.error ≡ none → (0 < length out) ⊎ (k ≡ 0)

-- What the loop adds to the bytes in hand.
record Loops (fuel k : ℕ) (got : Bytes) (cr : ChunkedReader) : Type 0 where
  out : Bytes
  cr' : ChunkedReader
  runs : read_loop fuel k got cr ≡ some (got ++ out, cr')
  owes : owed cr ≡ prepend out (owed cr')
  fits : length out ≤ k
  still : IsChunked cr'
  more : cr'.error ≡ none → (0 < length got + length out) ⊎ (k ≡ length out)

-- The fuel lasts for a round for each byte of the input and one more.
abbrev Enough : ℕ → ChunkedReader → Type 0
Enough fuel cr = (0 < fuel) × (cr.error ≡ none → suc (length (remaining cr.r)) < fuel)

stopped :
    (fuel k : ℕ) (got : Bytes) (cr : ChunkedReader)
    → IsChunked cr
    → read_loop fuel k got cr ≡ some (got, cr)
    → (cr.error ≡ none → (0 < length got) ⊎ (k ≡ 0))
    → Loops fuel k got cr
stopped fuel k got cr h e stops = record {
  out = [];
  cr' = cr;
  runs = e ∙ ap (λ x. some (x, cr)) (sym (append-nil got));
  owes = refl;
  fits = omega arith;
  still = h;
  more = λ fine. elim (stops fine) [
    | inl some_got ↦ inl (omega arith)
    | inr none_left ↦ inr none_left
  ];
}

went_on :
    (fuel k : ℕ) (got p : Bytes) (cr cr' : ChunkedReader)
    → Goes k cr p cr'
    → read_loop (suc fuel) k got cr ≡ read_loop fuel (k - length p) (got ++ p) cr'
    → Loops fuel (k - length p) (got ++ p) cr'
    → Loops (suc fuel) k got cr
went_on fuel k got p cr cr' g e l = record {
  out = p ++ l.out;
  cr' = l.cr';
  runs = e ∙ l.runs ∙ ap (λ x. some (x, l.cr')) (append_assoc got p l.out);
  owes = g.owes ∙ ap (prepend p) l.owes ∙ prepend-append p l.out (owed l.cr');
  fits = omega (arith, length-append p l.out, g.fits, l.fits);
  still = l.still;
  more = λ fine. elim (l.more fine) [
    | inl some_got ↦ inl (omega (arith, length-append got p, length-append p l.out))
    | inr rest ↦ inr (omega (arith, length-append p l.out, g.fits))
  ];
}

-- The loop at a known error and a known round.
read_loop-step :
    (fuel k : ℕ) (got : Bytes) (cr : ChunkedReader) (o : Option Error) (q : Round)
    → cr.error ≡ o
    → round k got cr ≡ q
    → read_loop (suc fuel) k got cr
      ≡ on_round o q (some (got, cr)) (λ p cr'. read_loop fuel (k - length p) (got ++ p) cr')
unfolding read_loop
read_loop-step fuel k got cr o q e e' =
    let next = λ (p : Bytes) (cr' : ChunkedReader). read_loop fuel (k - length p) (got ++ p) cr' in
    ap (λ x. on_round x (round k got cr) (some (got, cr)) next) e
    ∙ ap (λ x. on_round o x (some (got, cr)) next) e'

one_round :
    (fuel k : ℕ) (got : Bytes) (cr : ChunkedReader) (q : Round)
    → IsChunked cr
    → Enough (suc fuel) cr
    → cr.error ≡ none
    → round k got cr ≡ q
    → RoundGoes k got cr q
    → ((p : Bytes) (cr' : ChunkedReader)
        → IsChunked cr'
        → Enough fuel cr'
        → Loops fuel (k - length p) (got ++ p) cr')
    → Loops (suc fuel) k got cr
unfolding on_round
one_round fuel k got cr stop h enough fine e g rest =
    stopped (suc fuel) k got cr h (read_loop-step fuel k got cr none stop fine e) (λ x. g)
one_round fuel k got cr (go_on p cr') h enough fine e g rest =
    let less : suc (length (remaining cr.r)) < suc fuel = enough.1 fine in
    went_on fuel k got p cr cr' g (read_loop-step fuel k got cr none (go_on p cr') fine e)
      (rest p cr' g.still (omega arith, λ good. omega (arith, g.shorter good)))

read_loop-Loops :
    (fuel k : ℕ) (got : Bytes) (cr : ChunkedReader)
    → IsChunked cr
    → Enough fuel cr
    → Loops fuel k got cr
unfolding on_round
read_loop-Loops zero k got cr h enough = absurd (omega arith)
read_loop-Loops (suc fuel) k got cr h enough = elim (Option-cases cr.error) [
  | inr (e, wrong) ↦
      stopped (suc fuel) k got cr h
        (read_loop-step fuel k got cr (some e) (round k got cr) wrong refl)
        (λ fine. absurd (ground arith))
  | inl fine ↦
      one_round fuel k got cr (round k got cr) h enough fine refl (round-Goes k got cr h fine)
        (λ p cr' still more. read_loop-Loops fuel (k - length p) (got ++ p) cr' still more)
]

pub read-Reads : (k : ℕ) (cr : ChunkedReader) → IsChunked cr → Reads k cr
unfolding read
read-Reads k cr h =
    let l =
      read_loop-Loops (length (remaining cr.r) + 2) k [] cr h (omega arith, λ e. omega arith) in
    record {
      out = l.out;
      cr' = l.cr';
      runs = l.runs;
      owes = l.owes;
      fits = l.fits;
      still = l.still;
      more = λ fine. elim (l.more fine) [
        | inl some_out ↦ inl (omega arith)
        | inr all ↦ elim (some_or_none l.out) [
          | inl some_out ↦ inl some_out
          | inr nothing ↦ inr (all ∙ nothing)
        ]
      ];
    }

-- What follows a call that returned bytes with an error or nil.
unfoldable pub on_error :
    Option Error
    → Bytes × ChunkedReader
    → Option (Bytes × Error × BufReader)
    → Option (Bytes × Error × BufReader)
on_error (some e) s rest = some (s.0, e, s.1.r)
on_error none s rest = rest >>=? λ t. some (s.0 ++ t.0, t.1, t.2)

-- Calls of `Read` up to the first error, the call `i` for `sizes i` bytes: all bytes returned, the
-- error, and the reader. `none` is the end of the fuel.
unfoldable pub read_all : ℕ → (ℕ → ℕ) → ℕ → ChunkedReader → Option (Bytes × Error × BufReader)
unfolding on_error
read_all zero sizes i cr = none
read_all (suc fuel) sizes i cr =
    read (sizes i) cr >>=? λ s. on_error s.1.error s (read_all fuel sizes (i + 1) s.1)

-- The call `read_all` at a known outcome of `read`.
record Drains (fuel : ℕ) (sizes : ℕ → ℕ) (i : ℕ) (cr : ChunkedReader) : Type 0 where
  e : Error
  r : BufReader
  runs : read_all fuel sizes i cr ≡ some ((owed cr).0, e, r)
  ends : ending_of e (remaining r) ≡ (owed cr).1

owed_error :
    (cr : ChunkedReader) (e : Error)
    → cr.error ≡ some e
    → owed cr ≡ ([], ending_of e (remaining cr.r))
owed_error cr e h =
    ap (λ x. owed_at (nature cr.r) x (phase_of cr.r.cap cr.check_end cr.n) (remaining cr.r)) h

some_taken : (k : ℕ) (out : Bytes) → 0 < k → (0 < length out) ⊎ (k ≡ 0) → 0 < length out
some_taken k out pos (inl h) = h
some_taken k out pos (inr h) = absurd (omega arith)

read_all-Drains :
    (fuel : ℕ) (sizes : ℕ → ℕ) (i : ℕ) (cr : ChunkedReader)
    → ((j : ℕ) → 0 < sizes j)
    → IsChunked cr
    → length (owed cr).0 < fuel
    → Drains fuel sizes i cr
unfolding read_all on_error
read_all-Drains zero sizes i cr pos h enough = absurd (omega arith)
read_all-Drains (suc fuel) sizes i cr pos h enough =
    let r = read-Reads (sizes i) cr h in
    let next = read_all fuel sizes (i + 1) r.cr' in
    elim (Option-cases r.cr'.error) [
      | inr (e, wrong) ↦
          let done = owed_error r.cr' e wrong in
          let all : r.out ≡ (owed cr).0 =
            sym (ap (λ q. q.0) (r.owes ∙ ap (prepend r.out) done) ∙ append-nil r.out) in
          record {
            e = e;
            r = r.cr'.r;
            runs = rw r.runs (
                ap (λ x. on_error x (r.out, r.cr') next) wrong
                ∙ ap (λ x. some (x, e, r.cr'.r)) all);
            ends = sym (ap (λ q. q.1) (r.owes ∙ ap (prepend r.out) done));
          }
      | inl fine ↦
          let taken : 0 < length r.out = some_taken (sizes i) r.out (pos i) (r.more fine) in
          let total = ap (λ q. length q.0) r.owes in
          let d =
            read_all-Drains fuel sizes (i + 1) r.cr' pos r.still
              (omega (arith, total, taken, length-append r.out (owed r.cr').0)) in
          record {
            e = d.e;
            r = d.r;
            runs = rw r.runs (
                ap (λ x. on_error x (r.out, r.cr') next) fine
                ∙ ap (λ o. o >>=? λ t. some (r.out ++ t.0, t.1, t.2)) d.runs
                ∙ ap (λ x. some (x, d.e, d.r)) (sym (ap (λ q. q.0) r.owes)));
            ends = d.ends ∙ sym (ap (λ q. q.1) r.owes);
          }
    ]

-- On any input, in parts of any sizes, behind which each call of the reader below returns no bytes
-- and the same error, io.EOF or any other, calls of Read for any positive numbers of bytes return
-- within one call more than there are bytes decoded, with the bytes and the error or rest that an
-- automaton gives that reads the input byte by byte up to that error.
pub read_all-decode :
    (fuel : ℕ) (sizes : ℕ → ℕ) (r : BufReader)
    → ((j : ℕ) → 0 < sizes j)
    → IsReader r
    → length (decode (nature r) (header r.cap []) (remaining r)).0 < fuel
    → (e : Error) × (r' : BufReader) × (read_all fuel sizes 0 (new_chunked_reader r)
        ≡ some ((decode (nature r) (header r.cap []) (remaining r)).0, e, r'))
      × (ending_of e (remaining r') ≡ (decode (nature r) (header r.cap []) (remaining r)).1)
read_all-decode fuel sizes r pos h enough =
    let d =
      read_all-Drains fuel sizes 0 (new_chunked_reader r) pos
        (record { reader = h; at_end = λ e. refl }) enough in
    (d.e, d.r, d.runs, d.ends)
