-- ===== src/Http1/Chunked/Writer.antt =====
-- internal/chunked.go: the writer of the chunked transfer coding. The wire is a state with its
-- `Write`; `flush` is there if the wire is a `FlushAfterChunkWriter`.
use req.Base.{
  ℕ, zero, suc, ◌+◌, ◌/◌, ◌%◌, false, not, ◌==◌, ltb, Option, none, some, Option-cases, inl, inr,
  ◌≡◌, refl, ap, sym, ◌∙◌, append-nil, append_assoc, arith, if◌then◌else◌, List, [], ◌∷◌, ◌++◌,
  length, ==_refl,
}
use req.Base.Bytes.{Bytes}
use req.Http1.Bufio.{Error, short_write}

unfoldable pub hex_char : ℕ → ℕ
hex_char d = if ltb d 10 then 48 + d else 87 + d

-- The digits of `%x`, at most `fuel`; sixteen are enough for an int.
unfoldable pub hex_digits : ℕ → ℕ → Bytes
unfolding hex_char
hex_digits zero n = []
hex_digits (suc fuel) n =
    let front = hex_digits fuel (n / 16) in
    (if ltb n 16 then [] else front) ++ hex_char (n % 16) ∷ []

-- `"%x\r\n"`
unfoldable pub size_line : ℕ → Bytes
unfolding hex_digits
size_line n = hex_digits 16 n ++ 13 ∷ 10 ∷ []

module _ {W : Type 0} (wire : Bytes → W → (ℕ × Option Error) × W)
    (flush : Option (W → Option Error × W)) where
  unfoldable pub end_flush : ℕ → Option Error → W → (ℕ × Option Error) × W
  end_flush n (some e) w = ((n, some e), w)
  end_flush n none w = elim flush [
    | none ↦ ((n, none), w)
    | some f ↦ let (e, w') = f w in ((n, e), w')
  ]

  -- What follows the write of the data.
  unfoldable pub end_write : ℕ → ℕ → Option Error → W → (ℕ × Option Error) × W
  unfolding end_flush
  end_write len n (some e) w = ((n, some e), w)
  end_write len n none w =
      let ((m, e), w') = wire (13 ∷ 10 ∷ []) w in
      if not (n == len) then ((n, some short_write), w) else end_flush n e w'

  -- What follows the write of the size.
  unfoldable pub write_data : Bytes → Option Error → W → (ℕ × Option Error) × W
  unfolding end_write
  write_data p (some e) w = ((0, some e), w)
  write_data p none w = let ((n, e), w') = wire p w in end_write (length p) n e w'

  -- `Write`
  unfoldable pub write : Bytes → W → (ℕ × Option Error) × W
  unfolding write_data size_line
  write p w =
      let ((m, e), w') = wire (size_line (length p)) w in
      if length p == 0 then ((0, none), w) else write_data p e w'

  -- `Close`
  unfoldable pub close : W → Option Error × W
  close w = let ((m, e), w') = wire (48 ∷ 13 ∷ 10 ∷ []) w in (e, w')

  -- The next call unless there was an error.
  unfoldable pub unless_error : Option Error → W → (W → Option Error × W) → Option Error × W
  unless_error (some e) w next = (some e, w)
  unless_error none w next = next w

  -- Calls of `Write` up to the first error, and then `Close`.
  unfoldable pub write_all : List Bytes → W → Option Error × W
  unfolding write close unless_error
  write_all [] w = close w
  write_all (p ∷ ps) w = let ((n, e), w') = write p w in unless_error e w' (λ v. write_all ps v)

-- The coding of pieces of data, and of the end.
abbrev pub encode_chunk : Bytes → Bytes
encode_chunk [] = []
encode_chunk (b ∷ p) = size_line (length (b ∷ p)) ++ ((b ∷ p) ++ 13 ∷ 10 ∷ [])

abbrev pub encode : List Bytes → Bytes
encode [] = 48 ∷ 13 ∷ 10 ∷ []
encode (p ∷ ps) = encode_chunk p ++ encode ps

-- A wire that takes all bytes, as far as a state `seen` of it shows.
pub record TakesAll {W : Type 0} (wire : Bytes → W → (ℕ × Option Error) × W)
    (flush : Option (W → Option Error × W)) (seen : W → Bytes) : Type 0 where
  pub taken : (b : Bytes) (w : W) → (wire b w).0 ≡ (length b, none)
  pub shown : (b : Bytes) (w : W) → seen (wire b w).1 ≡ seen w ++ b
  pub flushed :
      (f : W → Option Error × W)
      → flush ≡ some f
      → (w : W) → ((f w).0 ≡ none) × (seen (f w).1 ≡ seen w)

module _ {W : Type 0} (wire : Bytes → W → (ℕ × Option Error) × W)
    (flush : Option (W → Option Error × W)) (seen : W → Bytes)
    (takes : TakesAll wire flush seen) where
  end_flush_lem :
      (n : ℕ) (w : W)
      → ((end_flush wire flush n none w).0 ≡ (n, none))
        × (seen (end_flush wire flush n none w).1 ≡ seen w)
  unfolding end_flush
  end_flush_lem n w = elim (Option-cases flush) [
    | inl e ↦ rw (e, end_flush) (refl, refl)
    | inr (f, e) ↦
        let (fine, same) = takes.flushed f e w in rw (e, end_flush) (ap (λ x. (n, x)) fine, same)
  ]

  -- A piece that is not empty, through its three writes.
  write-end_flush :
      (b : ℕ) (p : Bytes) (w : W)
      → let w1 = (wire (size_line (length (b ∷ p))) w).1 in
        write wire flush (b ∷ p) w
        ≡ end_flush wire flush (length (b ∷ p)) none (wire (13 ∷ 10 ∷ []) (wire (b ∷ p) w1).1).1
  unfolding write write_data end_write
  write-end_flush b p w =
      let w1 = (wire (size_line (length (b ∷ p))) w).1 in
      let w2 = (wire (b ∷ p) w1).1 in
      let some_data : (suc (length p) == 0) ≡ false = ground arith in
      rw some_data (
        rw (takes.taken (size_line (length (b ∷ p))) w) (
          rw (takes.taken (b ∷ p) w1)
            (rw (==_refl (suc (length p))) (rw (takes.taken (13 ∷ 10 ∷ []) w2) refl))))

  write-encode_chunk :
      (p : Bytes) (w : W)
      → ((write wire flush p w).0 ≡ (length p, none))
        × (seen (write wire flush p w).1 ≡ seen w ++ encode_chunk p)
  unfolding write
  write-encode_chunk [] w = (refl, sym (append-nil (seen w)))
  write-encode_chunk (b ∷ p) w =
      let size = size_line (length (b ∷ p)) in
      let w1 = (wire size w).1 in
      let w2 = (wire (b ∷ p) w1).1 in
      let w3 = (wire (13 ∷ 10 ∷ []) w2).1 in
      let (fine, same) = end_flush_lem (length (b ∷ p)) w3 in
      rw (write-end_flush b p w) (
        fine,
        same
            ∙ takes.shown (13 ∷ 10 ∷ []) w2
            ∙ ap (λ x. x ++ 13 ∷ 10 ∷ [])
                (takes.shown (b ∷ p) w1 ∙ ap (λ x. x ++ b ∷ p) (takes.shown size w))
            ∙ append_assoc (seen w ++ size) (b ∷ p) (13 ∷ 10 ∷ [])
            ∙ append_assoc (seen w) size ((b ∷ p) ++ 13 ∷ 10 ∷ []),
      )

  pub write_all-encode :
      (ps : List Bytes) (w : W)
      → ((write_all wire flush ps w).0 ≡ none)
        × (seen (write_all wire flush ps w).1 ≡ seen w ++ encode ps)
  unfolding write_all close unless_error
  write_all-encode [] w =
      (ap (λ q. q.1) (takes.taken (48 ∷ 13 ∷ 10 ∷ []) w), takes.shown (48 ∷ 13 ∷ 10 ∷ []) w)
  write_all-encode (p ∷ ps) w =
      let (fine, one) = write-encode_chunk p w in
      let (all_fine, rest) = write_all-encode ps (write wire flush p w).1 in
      rw fine (
        all_fine,
        rest ∙ ap (λ x. x ++ encode ps) one ∙ append_assoc (seen w) (encode_chunk p) (encode ps),
      )
