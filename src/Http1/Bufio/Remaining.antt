-- ===== src/Http1/Bufio/Remaining.antt =====
-- How the operations of a `bufio.Reader` stand to all bytes that are still to come, however these
-- are divided.
use req.Base.{
  ℕ, ◌≤◌, ◌<◌, ◌≡◌, refl, sym, ap, ◌∙◌, leb, Bool-cases, Option, none, some, ◌⊎◌, inl, inr, List,
  [], ◌∷◌, ◌++◌, append_assoc, length, take, drop, All, arith, length-take, length-drop,
  take-append-drop,
}
use req.Base.Bytes.{Bytes}
use req.Http1.Bufio.{
  BufReader, remaining, concat, IsReader, pull, through_buffer, past_buffer, read_buf, Full, full,
  short, second_byte, first_bytes, read_full_2, nature, unexpected, Error,
}

abbrev Pieces : List Bytes → Type 0
Pieces = All (λ p. 0 < length p)

-- What a read of at most `k` of the bytes `all` returns.
abbrev Pulled : ℕ → Bytes → Option (Bytes × List Bytes) → Type 0
Pulled k all none = all ≡ []
Pulled k all (some (p, ps)) = (all ≡ p ++ concat ps) × (0 < length p) × (length p ≤ k) × Pieces ps

pull_lem : (k : ℕ) (ps : List Bytes) → 0 < k → Pieces ps → Pulled k (concat ps) (pull k ps)
unfolding pull
pull_lem k [] h hp = refl
pull_lem k (p ∷ ps) h hp = elim (Bool-cases (leb (length p) k)) [
  | inl y ↦ rw y (refl, hp.0, ground arith, hp.1)
  | inr n ↦
      let more : k < length p = ground arith in
      rw n (
        ap (λ q. q ++ concat ps) (sym (take-append-drop k p))
            ∙ append_assoc (take k p) (drop k p) (concat ps),
        omega (arith, length-take k p),
        omega (arith, length-take k p),
        (omega (arith, length-drop k p), hp.1),
      )
]

-- What `Read` for `k` bytes returns of a reader.
abbrev pub Took : ℕ → BufReader → Option (Bytes × BufReader) → Type 0
Took k r none = remaining r ≡ []
Took k r (some (p, r')) =
    (remaining r ≡ p ++ remaining r')
    × (0 < length p)
    × (length p ≤ k)
    × IsReader r'
    × (nature r' ≡ nature r)

past_buffer_lem :
    (k : ℕ) (r : BufReader) (o : Option (Bytes × List Bytes))
    → IsReader r
    → Pulled k (remaining r) o
    → Took k r (past_buffer r o)
unfolding past_buffer
past_buffer_lem k r none h e = e
past_buffer_lem k r (some (p, ps)) h e = (e.0, e.1, e.2, (h.0, omega arith, e.3), refl)

through_buffer_lem :
    (k : ℕ) (r : BufReader) (o : Option (Bytes × List Bytes))
    → 0 < k
    → IsReader r
    → Pulled r.cap (remaining r) o
    → Took k r (through_buffer k r o)
unfolding through_buffer
through_buffer_lem k r none pos_k h e = e
through_buffer_lem k r (some (p, ps)) pos_k h e = (
  e.0
      ∙ ap (λ q. q ++ concat ps) (sym (take-append-drop k p))
      ∙ append_assoc (take k p) (drop k p) (concat ps),
  omega (arith, length-take k p, e.1),
  omega (arith, length-take k p),
  (h.0, omega (arith, length-drop k p, e.2), e.3),
  refl,
)

read_at :
    (k c : ℕ) (buf : Bytes) (ps : List Bytes) (e : Error)
    → 0 < k
    → IsReader (record { cap = c; buf = buf; source = ps; failure = e })
    → Took k
        (record { cap = c; buf = buf; source = ps; failure = e })
        (read_buf k (record { cap = c; buf = buf; source = ps; failure = e }))
unfolding read_buf
read_at k c [] ps e pos_k h = elim (Bool-cases (leb c k)) [
  | inl y ↦ rw y (
      past_buffer_lem k (record { cap = c; buf = []; source = ps; failure = e }) (pull k ps) h
        (pull_lem k ps pos_k h.2))
  | inr n ↦ rw n (
      through_buffer_lem k (record { cap = c; buf = []; source = ps; failure = e }) (pull c ps)
        pos_k h (pull_lem c ps h.0 h.2))
]
read_at k c (b ∷ bs) ps e pos_k h = (
  ap (λ q. q ++ concat ps) (sym (take-append-drop k (b ∷ bs)))
      ∙ append_assoc (take k (b ∷ bs)) (drop k (b ∷ bs)) (concat ps),
  omega (arith, length-take k (b ∷ bs)),
  omega (arith, length-take k (b ∷ bs)),
  (h.0, omega (arith, length-drop k (b ∷ bs), h.1), h.2),
  refl,
)

pub read_buf-Took : (k : ℕ) (r : BufReader) → 0 < k → IsReader r → Took k r (read_buf k r)
read_buf-Took k r pos_k h = read_at k r.cap r.buf r.source r.failure pos_k h

-- What `io.ReadFull` of two bytes returns.
abbrev pub FullTook : BufReader → Full → Type 0
FullTook r (full a b r') =
    (remaining r ≡ a ∷ b ∷ remaining r') × IsReader r' × (nature r' ≡ nature r)
FullTook r (short e r') =
    (length (remaining r) < 2)
    × IsReader r'
    × (nature r' ≡ nature r)
    × ((e ≡ r.failure) ⊎ (e ≡ unexpected r.failure))

second_byte-FullTook :
    (b : ℕ) (r s : BufReader) (o : Option (Bytes × BufReader))
    → remaining r ≡ b ∷ remaining s
    → IsReader s
    → nature s ≡ nature r
    → Took 1 s o
    → FullTook r (second_byte b s o)
unfolding second_byte
second_byte-FullTook b r s none e h c t =
    (omega (arith, ap length e, ap length t), h, c, inr (ap (λ q. unexpected q.1) c))
second_byte-FullTook b r s (some ([], t)) e h c k = absurd (omega arith)
second_byte-FullTook b r s (some (x ∷ [], t)) e h c k = (e ∙ ap (λ q. b ∷ q) k.0, k.3, k.4 ∙ c)
second_byte-FullTook b r s (some (x ∷ y ∷ p, t)) e h c k = absurd (omega arith)

first_bytes-FullTook :
    (r : BufReader) (o : Option (Bytes × BufReader))
    → IsReader r
    → Took 2 r o
    → FullTook r (first_bytes r o)
unfolding first_bytes
first_bytes-FullTook r none h t = (omega (arith, ap length t), h, refl, inl refl)
first_bytes-FullTook r (some ([], s)) h t = absurd (omega arith)
first_bytes-FullTook r (some (b ∷ [], s)) h t =
    second_byte-FullTook b r s (read_buf 1 s) t.0 t.3 t.4 (read_buf-Took 1 s (omega arith) t.3)
first_bytes-FullTook r (some (b ∷ c ∷ [], s)) h t = (t.0, t.3, t.4)
first_bytes-FullTook r (some (b ∷ c ∷ d ∷ p, s)) h t = absurd (omega arith)

pub read_full_2-FullTook : (r : BufReader) → IsReader r → FullTook r (read_full_2 r)
unfolding read_full_2
read_full_2-FullTook r h =
    first_bytes-FullTook r (read_buf 2 r) h (read_buf-Took 2 r (omega arith) h)
