-- ===== src/Http2/Pipe/Holds.antt =====
-- The pipe of internal/http2/pipe.go against its promise: what stands for what, `Read` and `Write`.
use req.Base.{
  ℕ, ◌≡◌, ◌≢◌, refl, sym, ap, ◌∙◌, subst, Bool, true, false, ◌||◌, ltb, lt→ltb, le→ltb, Option,
  none, some, [], ◌∷◌, ◌++◌, length, take, drop, arith,
}
use req.Base.Bytes.{Bytes}
use req.Http2.Pipe.{
  PipeBuffer, Outcome, bytes, write_call, is_some, Pipe, read_result, write_result, read_end,
  read_buffer, read, write_buffer, write,
}
use req.Http2.Pipe.Spec.{Promise, read_left, read_promise, promise}

module _ (lib : PipeBuffer) (E F : Type 0) where
  open lib use {Buffer, buffered, IsGood}

  -- A buffer holds the bytes that are left; without one the bytes left are counted.
  abbrev pub BufferHolds : Option Buffer → ℕ → Bytes → Option E → Option E → Type 0
  BufferHolds (some b) unread left closed broken =
      IsGood b × (buffered b ≡ left) × (broken ≡ none) × (unread ≡ 0)
  BufferHolds none unread left closed broken =
      ((is_some closed || is_some broken) ≡ true)
      × (length left ≡ unread)
      × (broken ≡ none → left ≡ [])

  -- The channel, once made, is closed exactly if there is an error.
  abbrev pub ChannelHolds : Option Bool → Bool → Type 0
  ChannelHolds none ended = Unit
  ChannelHolds (some c) ended = c ≡ ended

  pub record Holds (p : Pipe lib E F) (s : Promise E F) : Type 0 where
    pub same_err : p.err ≡ s.closed
    pub same_break : p.break_err ≡ s.broken
    pub same_code : p.read_fn ≡ s.code
    pub held : BufferHolds p.b p.unread s.left s.closed s.broken
    pub told : ChannelHolds p.donec (is_some s.closed || is_some s.broken)

  abbrev pub pipe_of : Option Buffer → ℕ → Option Bool → Promise E F → Pipe lib E F
  pipe_of b unread donec s = record {
    b = b;
    unread = unread;
    err = s.closed;
    break_err = s.broken;
    donec = donec;
    read_fn = s.code;
  }

  abbrev pub promise_of : Bytes → Option E → Option E → Option F → Promise E F
  promise_of left closed broken code = record {
    left = left;
    closed = closed;
    broken = broken;
    code = code;
  }

  abbrev pub Simulates : Outcome E F × Pipe lib E F → Outcome E F × Promise E F → Type 0
  Simulates (o, p) (o', s) = (o ≡ o') × Holds p s

  pub held_by :
      (b : Option Buffer) (unread : ℕ) (donec : Option Bool) (s : Promise E F)
      → BufferHolds b unread s.left s.closed s.broken
      → ChannelHolds donec (is_some s.closed || is_some s.broken)
      → Holds (pipe_of b unread donec s) s
  held_by b unread donec s h t = record {
    same_err = refl;
    same_break = refl;
    same_code = refl;
    held = h;
    told = t;
  }

  read_full_buffer :
      (k : ℕ) (b : Buffer) (donec : Option Bool) (x : ℕ) (q : Bytes) (closed : Option E)
      (code : Option F)
      → IsGood b
      → buffered b ≡ x ∷ q
      → ChannelHolds donec (is_some closed || false)
      → Simulates
          (read_result lib E F
            (lib.read k b)
            (pipe_of (some b) 0 donec (promise_of (x ∷ q) closed none code)))
          (bytes (take k (x ∷ q)), promise_of (drop k (x ∷ q)) closed none code)
  unfolding read_result
  read_full_buffer k b donec x q closed code good same told =
      let some_left : buffered b ≢ [] = λ e. absurd (omega (arith, ap length same, ap length e)) in
      let (b', runs, good', rest) = lib.read_law k b good some_left in
      rw runs (
        ap (λ y. bytes (take k y)) same,
        held_by (some b') 0 donec (promise_of (drop k (x ∷ q)) closed none code)
            (good', rest ∙ ap (drop k) same, refl, refl) told,
      )

  read_ended :
      (k : ℕ) (b : Option Buffer) (unread : ℕ) (donec : Option Bool) (closed : Option E)
      (code : Option F)
      → BufferHolds b unread [] closed none
      → unread ≡ 0
      → ChannelHolds donec (is_some closed || false)
      → Simulates
          (read_end lib E F closed (pipe_of b unread donec (promise_of [] closed none code)))
          (read_left E F k [] closed (promise_of [] closed none code))
  unfolding read_end
  read_ended k b unread donec none code h z told =
      (refl, held_by b unread donec (promise_of [] none none code) h told)
  read_ended k b unread donec (some e) code h z told = (
    refl,
    held_by none unread donec (promise_of [] (some e) none none) (refl, sym z, λ x. refl) told,
  )

  pub read-Simulates :
      (k : ℕ) (b : Option Buffer) (unread : ℕ) (donec : Option Bool) (left : Bytes)
      (closed broken : Option E) (code : Option F)
      → BufferHolds b unread left closed broken
      → ChannelHolds donec (is_some closed || is_some broken)
      → Simulates
          (read lib E F k (pipe_of b unread donec (promise_of left closed broken code)))
          (read_promise E F k broken (promise_of left closed broken code))
  unfolding read read_buffer
  read-Simulates k b unread donec left closed (some e) code h told =
      (refl, held_by b unread donec (promise_of left closed (some e) code) h told)
  read-Simulates k (some b) unread donec [] closed none code h told =
      let empty : ltb 0 (lib.len b) ≡ false =
        le→ltb 0 (lib.len b) (omega (arith, lib.len_law b h.0, ap length h.1)) in
      rw empty (read_ended k (some b) unread donec closed code h h.3 told)
  read-Simulates k (some b) unread donec (x ∷ q) closed none code h told =
      let filled : ltb 0 (lib.len b) ≡ true =
        lt→ltb 0 (lib.len b) (omega (arith, lib.len_law b h.0, ap length h.1)) in
      rw filled (
        subst
          (λ u.
            Simulates
              (read_result lib E F (lib.read k b)
                (pipe_of (some b) u donec (promise_of (x ∷ q) closed none code)))
              (bytes (take k (x ∷ q)), promise_of (drop k (x ∷ q)) closed none code))
          (sym h.3) (read_full_buffer k b donec x q closed code h.0 h.1 told))
  read-Simulates k none unread donec [] closed none code h told =
      read_ended k none unread donec closed code h (sym h.1) told
  read-Simulates k none unread donec (x ∷ q) closed none code h told =
      absurd (omega (arith, ap length (h.2 refl)))

  pub write-Simulates :
      (d : Bytes) (b : Option Buffer) (unread : ℕ) (donec : Option Bool) (left : Bytes)
      (closed broken : Option E) (code : Option F)
      → BufferHolds b unread left closed broken
      → ChannelHolds donec (is_some closed || is_some broken)
      → Simulates
          (write lib E F d (pipe_of b unread donec (promise_of left closed broken code)))
          (promise E F (write_call d) (promise_of left closed broken code))
  unfolding write write_buffer write_result
  write-Simulates d b unread donec left (some e) broken code h told =
      (refl, held_by b unread donec (promise_of left (some e) broken code) h told)
  write-Simulates d b unread donec left none (some e) code h told =
      (refl, held_by b unread donec (promise_of left none (some e) code) h told)
  write-Simulates d none unread donec left none none code h told = absurd (ground arith)
  write-Simulates d (some b) unread donec left none none code h told =
      let (b', runs, good', more) = lib.write_law d b h.0 in
      rw runs (
        refl,
        held_by (some b') unread donec (promise_of (left ++ d) none none code)
            (good', more ∙ ap (λ q. q ++ d) h.1, refl, h.3) told,
      )
