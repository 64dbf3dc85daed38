-- ===== src/Http1/Chunked/Decode.antt =====
-- The chunked coding as internal/chunked.go takes it, byte for byte: what a stream stands for,
-- however it is read. `src` is the size of the buffer that a line has to fit in, and
-- the error of the reader below at its end.
use req.Base.{
  ℕ, zero, suc, ◌-◌, ◌≤◌, ◌<◌, ◌≡◌, refl, ap, ◌∙◌, inl, inr, Bool-cases, Option-cases, Bool, true,
  false, ◌&&◌, ◌==◌, none, some, if◌then◌else◌, [], ◌∷◌, ◌++◌, length, arith, append_assoc,
}
use mathlib.Core.Option.{some-injective}
use req.Base.Bytes.{Bytes}
use req.Http1.Bufio.Lines.{cut_line_parts}
use req.Http1.Bufio.{Error, unexpected_eof, line_too_long, malformed, cut_line, eof, buffer_full}
use req.Http1.Chunked.{Result, ok, err, chunk_line, parse_hex_uint}

-- The end of a message, with the bytes behind it, or an error.
pub data Ending : Type 0 where
  finished : Bytes → Ending
  failed : Error → Ending

-- In a line, of which `acc` is read and `room` may follow; before the last `n + 1` bytes of a chunk;
-- before the two bytes behind it.
pub data Phase : Type 0 where
  header : ℕ → Bytes → Phase
  body : ℕ → Phase
  footer : Phase

abbrev pub prepend : Bytes → Bytes × Ending → Bytes × Ending
prepend p (out, e) = (p ++ out, e)

-- The size in a line, with its newline.
abbrev pub size_of : Result Bytes → Result ℕ
size_of (err e) = err e
size_of (ok text) = parse_hex_uint text

unfoldable pub line_size : Bytes → Result ℕ
line_size line = size_of (chunk_line line)

-- What follows a line with a size.
abbrev pub after_size : Result ℕ → Bytes → (ℕ → Bytes × Ending) → Bytes × Ending
after_size (err e) s chunk = ([], failed e)
after_size (ok zero) s chunk = ([], finished s)
after_size (ok (suc n)) s chunk = chunk n

abbrev at_byte : {A : Type 0} → Bool → A → A → A
at_byte true newline other = newline
at_byte false newline other = other

-- The error for an input that ends within a chunk, and within a line.
abbrev pub in_chunk : Error → Error
in_chunk eof = unexpected_eof
in_chunk e = e

abbrev pub in_line : Error → Error
in_line eof = unexpected_eof
in_line buffer_full = line_too_long
in_line e = e

unfoldable pub decode : ℕ × Error → Phase → Bytes → Bytes × Ending
unfolding line_size
decode src (header room acc) [] = ([], failed (if room == 0 then line_too_long else in_line src.1))
decode src (header zero acc) (b ∷ s) = ([], failed line_too_long)
decode src (header (suc room) acc) (b ∷ s) =
    at_byte (b == 10) (after_size (line_size (acc ++ b ∷ [])) s (λ n. decode src (body n) s))
      (decode src (header room (acc ++ b ∷ [])) s)
decode src (body n) [] = ([], failed (in_chunk src.1))
decode src (body zero) (b ∷ s) = prepend (b ∷ []) (decode src footer s)
decode src (body (suc n)) (b ∷ s) = prepend (b ∷ []) (decode src (body n) s)
decode src footer [] = ([], failed (in_chunk src.1))
decode src footer (b ∷ []) = ([], failed (in_chunk src.1))
decode src footer (b ∷ c ∷ s) =
    if b == 13 && c == 10 then decode src (header src.0 []) s else ([], failed malformed)

-- Before the last `n` bytes of a chunk.
abbrev pub inside : ℕ → Phase
inside zero = footer
inside (suc n) = body n

decode-body :
    (src : ℕ × Error) (n : ℕ) (b : ℕ) (s : Bytes)
    → decode src (body n) (b ∷ s) ≡ prepend (b ∷ []) (decode src (inside n) s)
unfolding decode
decode-body src zero b s = refl
decode-body src (suc n) b s = refl

pub decode-inside :
    (src : ℕ × Error) (n : ℕ) (p s : Bytes)
    → length p ≤ n
    → decode src (inside n) (p ++ s) ≡ prepend p (decode src (inside (n - length p)) s)
decode-inside src n [] s h = let e : n - 0 ≡ n = omega arith in rw e refl
decode-inside src zero (b ∷ p) s h = absurd (omega arith)
decode-inside src (suc n) (b ∷ p) s h =
    let e : suc n - suc (length p) ≡ n - length p = omega arith in
    rw e
      (decode-body src n b (p ++ s) ∙ ap (prepend (b ∷ [])) (decode-inside src n p s (omega arith)))

decode-byte :
    (src : ℕ × Error) (room : ℕ) (acc : Bytes) (b : ℕ) (s : Bytes)
    → decode src (header (suc room) acc) (b ∷ s)
      ≡ at_byte
          (b == 10)
          (after_size (line_size (acc ++ b ∷ [])) s (λ n. decode src (body n) s))
          (decode src (header room (acc ++ b ∷ [])) s)
unfolding decode
decode-byte src room acc b s = refl

abbrev after_line : ℕ × Error → Bytes → Bytes × Bytes → Bytes × Ending
after_line src acc (line, rest) =
    after_size (line_size (acc ++ line)) rest (λ n. decode src (body n) rest)

pub decode-header :
    (src : ℕ × Error) (room : ℕ) (acc s line rest : Bytes)
    → cut_line s ≡ some (line, rest)
    → length line ≤ room
    → decode src (header room acc) s
      ≡ after_size (line_size (acc ++ line)) rest (λ n. decode src (body n) rest)
unfolding cut_line
decode-header src room acc [] line rest e h = absurd (ground arith)
decode-header src zero acc (b ∷ s) line rest e h =
    absurd (omega (arith, h, (cut_line_parts (b ∷ s) line rest e).1))
decode-header src (suc room) acc (b ∷ s) line rest e h = elim (Bool-cases (b == 10)) [
  | inl y ↦
      let here : (b ∷ [], s) ≡ (line, rest) = some-injective _ _ (rw y at e) in
      rw (decode-byte src room acc b s) (rw y (ap (after_line src acc) here))
  | inr n ↦ elim (Option-cases (cut_line s)) [
    | inl nothing ↦ absurd (ground arith)
    | inr ((l, r), found) ↦
        let here : (b ∷ l, r) ≡ (line, rest) = some-injective _ _ (rw n at (rw found at e)) in
        let within : length l ≤ room =
          omega (arith, h, ap (λ (q : Bytes × Bytes). length q.0) here) in
        rw (decode-byte src room acc b s) (
          rw n (
            decode-header src room (acc ++ b ∷ []) s l r found within
            ∙ ap (λ x. after_size (line_size x) r (λ n. decode src (body n) r))
                (append_assoc acc (b ∷ []) l)
            ∙ ap (after_line src acc) here))
  ]
]

pub decode-header_too_long :
    (src : ℕ × Error) (room : ℕ) (acc s : Bytes)
    → room ≤ length s
    → ((line rest : Bytes) → cut_line s ≡ some (line, rest) → room < length line)
    → decode src (header room acc) s ≡ ([], failed line_too_long)
unfolding decode cut_line
decode-header_too_long src zero acc [] h far = refl
decode-header_too_long src (suc room) acc [] h far = absurd (omega arith)
decode-header_too_long src zero acc (b ∷ s) h far = refl
decode-header_too_long src (suc room) acc (b ∷ s) h far = elim (Bool-cases (b == 10)) [
  | inl y ↦ absurd (omega (arith, far (b ∷ []) s (rw y refl)))
  | inr n ↦ rw (decode-byte src room acc b s) (
      rw n (
        decode-header_too_long src room (acc ++ b ∷ []) s (omega arith)
          (λ line rest e. omega (arith, far (b ∷ line) rest (rw n (rw e refl))))))
]

pub decode-header_short :
    (src : ℕ × Error) (room : ℕ) (acc s : Bytes)
    → length s < room
    → cut_line s ≡ none
    → decode src (header room acc) s ≡ ([], failed (in_line src.1))
unfolding decode cut_line
decode-header_short src zero acc s h e = absurd (omega arith)
decode-header_short src (suc room) acc [] h e = ground arith
decode-header_short src (suc room) acc (b ∷ s) h e = elim (Bool-cases (b == 10)) [
  | inl y ↦ absurd (ground arith)
  | inr n ↦ elim (Option-cases (cut_line s)) [
    | inl nothing ↦
        rw (decode-byte src room acc b s)
          (rw n (decode-header_short src room (acc ++ b ∷ []) s (omega arith) nothing))
    | inr ((l, r), found) ↦ absurd (ground arith)
  ]
]
