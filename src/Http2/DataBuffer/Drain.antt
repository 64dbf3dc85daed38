-- ===== src/Http2/DataBuffer/Drain.antt =====
-- internal/http2/databuffer.go: what `Read` takes away.
use req.Base.{
  ℕ, zero, suc, ◌+◌, ◌-◌, ◌≤◌, ◌<◌, min, ◌≡◌, ◌≢◌, ◌⊎◌, refl, sym, ap, subst, ◌∙◌, true, Bool-cases,
  List, [], ◌∷◌, ◌++◌, append-nil, length, take, drop, take-append_le, take-take-drop, drop-drop,
  length-take, length-append, length-drop, take_all, drop_all, drop-append, drop-append_le, some,
  ◌==◌, inl, inr, arith,
}
use req.Base.Bytes.{Bytes}
use req.Base.Int.{ℤ}
use req.Http2.DataBuffer.{
  DataBuffer, is_class, slice, bytes_from_first_chunk, advance, read_round, read_loop, read,
  read_empty, got, as_result,
}
use req.Http2.DataBuffer.View.{joined, content, Chunks, Start, IsBuffer, class_pos}

abbrev buffer : List Bytes → ℕ → ℕ → ℕ → ℤ → DataBuffer
buffer chunks r w size expected = record {
  chunks = chunks;
  r = r;
  w = w;
  size = size;
  expected = expected;
}

-- The first chunk's part `p` of the content.
record First (b : DataBuffer) (c : Bytes) (cs : List Bytes) : Type 0 where
  p : Bytes
  first_read : bytes_from_first_chunk b c cs ≡ some p
  split : drop b.r (joined b.w (c ∷ cs)) ≡ p ++ joined b.w cs
  within : b.r + length p ≤ length c
  some_left : 0 < length (drop b.r (joined b.w (c ∷ cs))) → 0 < length p

first_lem :
    (b : DataBuffer) (c : Bytes) (cs : List Bytes)
    → Chunks b.w (c ∷ cs)
    → Start b.r b.w (c ∷ cs)
    → First b c cs
unfolding bytes_from_first_chunk slice
first_lem b c [] h s = record {
  p = drop b.r (take b.w c);
  first_read = ground arith;
  split = sym (append-nil (drop b.r (take b.w c)));
  within = omega (arith, length-drop b.r (take b.w c), length-take b.w c, h, s);
  some_left = λ l. l;
}
first_lem b c (d ∷ cs) h s = record {
  p = drop b.r (take (length c) c);
  first_read = ground arith;
  split =
      rw (take_all (length c) c (omega arith))
        (drop-append_le b.r c (joined b.w (d ∷ cs)) (omega (arith, s)));
  within = omega (arith, length-drop b.r (take (length c) c), length-take (length c) c, s);
  some_left = λ l. omega (arith, length-drop b.r (take (length c) c), length-take (length c) c, s);
}

Start-next : (w : ℕ) (cs : List Bytes) → Chunks w cs → Start 0 w cs
Start-next w [] h = refl
Start-next w (c ∷ []) h = (class_pos (length c) h.0, omega arith)
Start-next w (c ∷ d ∷ cs) h = class_pos (length c) h.0

Chunks-tail :
    (w : ℕ) (c : Bytes) (cs : List Bytes)
    → Chunks w (c ∷ cs)
    → (is_class (length c) ≡ true) × Chunks w cs
Chunks-tail w c [] h = (h.0, tt)
Chunks-tail w c (d ∷ cs) h = h

Start-further :
    (r n w : ℕ) (c : Bytes) (cs : List Bytes)
    → Start r w (c ∷ cs)
    → r + n < length c
    → n ≤ length (drop r (joined w (c ∷ cs)))
    → Start (r + n) w (c ∷ cs)
Start-further r n w c [] s lt le = (lt, omega (arith, length-drop r (take w c), length-take w c, s))
Start-further r n w c (d ∷ cs) s lt le = lt

-- What one round returns and leaves.
record Takes (k : ℕ) (b : DataBuffer) : Type 0 where
  n : ℕ
  b' : DataBuffer
  some_taken : 0 < n
  fits : n ≤ k
  there : n ≤ length (content b)
  round : read_round k b b.chunks ≡ some (take n (content b), b')
  kept : IsBuffer b'
  left : content b' ≡ drop n (content b)

-- What `advance` makes of a state whose `r` has passed the bytes taken.
record Advanced (b : DataBuffer) (c : Bytes) (cs : List Bytes) : Type 0 where
  b' : DataBuffer
  done : advance b c cs ≡ some b'
  kept : IsBuffer b'
  same : content b' ≡ content b

module _ (c : Bytes) (cs : List Bytes) (r n w : ℕ) (p : Bytes)
    (split : drop r (joined w (c ∷ cs)) ≡ p ++ joined w cs) (le : n ≤ length p)
    (within : r + length p ≤ length c) where
  rest_lem : r + n ≡ length c → joined w cs ≡ drop (r + n) (joined w (c ∷ cs))
  rest_lem y = sym (
      sym (drop-drop n r (joined w (c ∷ cs)))
      ∙ ap (drop n) split
      ∙ drop-append n p (joined w cs) (omega arith))

  advance_lem :
      (size : ℕ) (expected : ℤ)
      → Chunks w (c ∷ cs)
      → Start r w (c ∷ cs)
      → size ≡ length (drop (r + n) (joined w (c ∷ cs)))
      → Advanced (buffer (c ∷ cs) (r + n) w size expected) c cs
  unfolding advance
  advance_lem size expected h s e = elim (Bool-cases ((r + n) == length c)) [
    | inl y ↦
        let same : joined w cs ≡ drop (r + n) (joined w (c ∷ cs)) = rest_lem (ground arith) in
        record {
          b' = buffer cs 0 w size expected;
          done = rw y (rw (Chunks-tail w c cs h).0 refl);
          kept = record {
            sized = e ∙ ap length (sym same);
            chunked = (Chunks-tail w c cs h).1;
            started = Start-next w cs (Chunks-tail w c cs h).1;
          };
          same = same;
        }
    | inr y ↦ record {
      b' = buffer (c ∷ cs) (r + n) w size expected;
      done = rw y refl;
      kept = record {
        sized = e;
        chunked = h;
        started = Start-further r n w c cs s (ground arith) fits_content;
      };
      same = refl;
    }
  ]
    where
      fits_content : n ≤ length (drop r (joined w (c ∷ cs)))
      fits_content = rw split (omega (arith, length-append p (joined w cs)))

read_round_lem :
    (k : ℕ) (chunks : List Bytes) (r w size : ℕ) (expected : ℤ)
    → 0 < k
    → IsBuffer (buffer chunks r w size expected)
    → 0 < size
    → Takes k (buffer chunks r w size expected)
unfolding read_round
read_round_lem k [] r w size expected wants h filled =
    absurd (omega (arith, h.sized, length-drop {A = ℕ} r []))
read_round_lem k (c ∷ cs) r w size expected wants h filled =
    let f = first_lem (buffer (c ∷ cs) r w size expected) c cs h.chunked h.started in
    let n = min k (length f.p) in
    let all = drop r (joined w (c ∷ cs)) in
    let some_left = f.some_left (omega (arith, h.sized)) in
    let there : n ≤ length all = rw f.split (omega (arith, length-append f.p (joined w cs))) in
    let left : size - n ≡ length (drop (r + n) (joined w (c ∷ cs))) =
      rw (sym (drop-drop n r (joined w (c ∷ cs)))) (omega (arith, length-drop n all, h.sized)) in
    let a =
      advance_lem c cs r n w f.p f.split (omega arith) f.within (size - n) expected h.chunked
        h.started left in
    record {
      n = n;
      b' = a.b';
      some_taken = omega arith;
      fits = omega arith;
      there = there;
      round = rw f.first_read (
          rw a.done (
            ap (λ x. some (x, a.b'))
              (rw f.split (sym (take-append_le n f.p (joined w cs) (omega arith))))));
      kept = a.kept;
      left = a.same ∙ sym (drop-drop n r (joined w (c ∷ cs)));
    }

no_bytes : (xs : Bytes) → length xs ≤ 0 → xs ≡ []
no_bytes [] h = refl
no_bytes (x ∷ xs) h = absurd (omega arith)

read_loop_lem :
    (fuel k : ℕ) (b : DataBuffer)
    → k ≤ fuel
    → IsBuffer b
    → (b' : DataBuffer) × (read_loop fuel k b ≡ some (take k (content b), b'))
      × IsBuffer b'
      × (content b' ≡ drop k (content b))
unfolding read_loop
read_loop_lem fuel zero b enough h = (b, refl, h, refl)
read_loop_lem zero (suc k) b enough h = absurd (omega arith)
read_loop_lem (suc fuel) (suc k) b enough h = elim (Bool-cases (b.size == 0)) [
  | inl y ↦
      let empty : b.size ≡ 0 = ground arith in
      let gone : length (content b) ≤ 0 = omega (arith, h.sized, empty) in
      let all = take_all (suc k) (content b) (omega (arith, gone)) ∙ no_bytes (content b) gone in
      (
        b,
        rw y (ap (λ x. some (x, b)) (sym all)),
        h,
        no_bytes (content b) gone ∙ sym (drop_all (suc k) (content b) (omega (arith, gone))),
      )
  | inr y ↦
      let filled : 0 < b.size = ground arith in
      let t = read_round_lem (suc k) b.chunks b.r b.w b.size b.expected (omega arith) h filled in
      let len : length (take t.n (content b)) ≡ t.n =
        omega (arith, length-take t.n (content b), t.there) in
      let (b', e, hb, rest) =
        read_loop_lem fuel (suc k - t.n) t.b' (omega (arith, t.some_taken)) t.kept in
      let counted : read_loop fuel (suc k - length (take t.n (content b))) t.b'
          ≡ some (take (suc k - t.n) (content t.b'), b') =
        subst (λ m. read_loop fuel (suc k - m) t.b' ≡ some (take (suc k - t.n) (content t.b'), b'))
          (sym len) e in
      let whole : t.n + (suc k - t.n) ≡ suc k = omega (arith, t.fits) in
      let joined_up : take t.n (content b) ++ take (suc k - t.n) (content t.b')
          ≡ take (suc k) (content b) =
        ap (λ x. take t.n (content b) ++ take (suc k - t.n) x) t.left
        ∙ take-take-drop t.n (suc k - t.n) (content b)
        ∙ ap (λ m. take m (content b)) whole in
      (
        b',
        rw y (rw t.round (rw counted (ap (λ x. some (x, b')) joined_up))),
        hb,
        rest
            ∙ ap (drop (suc k - t.n)) t.left
            ∙ drop-drop (suc k - t.n) t.n (content b)
            ∙ ap (λ m. drop m (content b)) whole,
      )
]

-- Read on a well-formed buffer returns the error exactly if the content is empty, and else the
-- first bytes of the content, as many as wanted or all there are, leaving a well-formed buffer with
-- the rest; it does not panic, and as many rounds of its loop as bytes wanted are enough.
pub read-Drains :
    (k : ℕ) (b : DataBuffer)
    → IsBuffer b
    → ((read k b ≡ read_empty) × (content b ≡ []))
      ⊎ ((content b ≢ [])
          × ((b' : DataBuffer) × (read k b ≡ got (take k (content b)) b')
              × IsBuffer b'
              × (content b' ≡ drop k (content b))))
unfolding read as_result
read-Drains k b h = elim (Bool-cases (b.size == 0)) [
  | inl y ↦
      let empty : b.size ≡ 0 = ground arith in
      inl (rw y refl, no_bytes (content b) (omega (arith, h.sized, empty)))
  | inr y ↦
      let filled : b.size ≢ 0 = ground arith in
      let (b', e, hb, rest) = read_loop_lem k k b (omega arith) h in
      inr (λ none_left. filled (h.sized ∙ ap length none_left), (b', rw y (rw e refl), hb, rest))
]
