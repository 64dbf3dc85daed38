-- ===== src/Http1/Chunked/Sizes.antt =====
-- The line with the size of a chunk in internal/chunked.go, written and read.
use native.Mathlib.Numerals.{unary_clauses}
use req.Base.{
  ℕ, zero, suc, ◌+◌, ◌*◌, ◌/◌, ◌%◌, ◌^◌, ◌≤◌, ◌<◌, ◌≡◌, ◌≢◌, refl, sym, ap, ◌∙◌, false, ◌==◌, ltb,
  leb, Bool-cases, inl, inr, some, [], ◌∷◌, ◌++◌, append_assoc, append-nil, length, length-append,
  All, All-append, arith,
}
use req.Base.Bytes.{Bytes}
use req.Http1.Bufio.{cut_line}
use req.Http1.Chunked.{
  ok, chunk_line, is_ascii_space, trim_trailing_whitespace, remove_chunk_extension, hex_digit,
  add_digit, parse_hex_from, parse_hex_uint, max_line_length,
}
use req.Http1.Chunked.Writer.{hex_char, hex_digits, size_line}
use req.Http1.Chunked.Decode.{line_size}

-- A byte that `%x` writes, as far as the parsers of the line are concerned.
IsText : ℕ → Type 0
IsText b = (47 < b) × (b ≢ 59)

hex_char-IsText : (d : ℕ) → d < 16 → IsText (hex_char d)
unfolding IsText hex_char
hex_char-IsText d h = ground arith

hex_digit-hex_char : (d : ℕ) → d < 16 → hex_digit (hex_char d) ≡ some d
unfolding hex_digit hex_char
hex_digit-hex_char d h = ground arith

hex_digits-IsText : (fuel n : ℕ) → All IsText (hex_digits fuel n)
unfolding hex_digits
hex_digits-IsText zero n = tt
hex_digits-IsText (suc fuel) n = elim (Bool-cases (ltb n 16)) [
  | inl y ↦ rw y (hex_char-IsText (n % 16) (omega arith), tt)
  | inr m ↦ rw m (
      All-append IsText (hex_digits fuel (n / 16)) (hex_char (n % 16) ∷ [])
        (hex_digits-IsText fuel (n / 16)) (hex_char-IsText (n % 16) (omega arith), tt))
]

length-hex_digits : (fuel n : ℕ) → length (hex_digits fuel n) ≤ fuel
unfolding hex_digits
length-hex_digits zero n = omega arith
length-hex_digits (suc fuel) n = elim (Bool-cases (ltb n 16)) [
  | inl y ↦ rw y (omega arith)
  | inr m ↦ rw m (
      omega (
        arith,
        length-hex_digits fuel (n / 16),
        length-append (hex_digits fuel (n / 16)) (hex_char (n % 16) ∷ []),
      ))
]

add_hex_char :
    (i n d : ℕ) (v : Bytes)
    → d < 16
    → i < 16
    → parse_hex_from i n (hex_char d ∷ v) ≡ parse_hex_from (i + 1) (n * 16 % 2 ^ 64 + d) v
unfolding parse_hex_from add_digit
add_hex_char i n d v h less =
    let few : (i == 16) ≡ false = ground arith in rw (hex_digit-hex_char d h) (rw few refl)

next_power : (fuel n : ℕ) → n < 16 ^ suc fuel → n / 16 < 16 ^ fuel
next_power fuel n h = let h' = simp unary_clauses at h in omega arith

some_power : (fuel n : ℕ) → n < 16 ^ suc fuel → 16 ≤ n → 0 < fuel
some_power zero n h m = absurd (omega arith)
some_power (suc fuel) n h m = omega arith

-- One digit more.
longer :
    (fuel n : ℕ) (v : Bytes)
    → suc fuel ≤ 16
    → 16 ≤ n
    → n < 16 ^ suc fuel
    → n < 2 ^ 64
    → (0 < fuel
        → parse_hex_from 0 0 (hex_digits fuel (n / 16) ++ hex_char (n % 16) ∷ v)
          ≡ parse_hex_from (length (hex_digits fuel (n / 16))) (n / 16) (hex_char (n % 16) ∷ v))
    → let front = hex_digits fuel (n / 16) in
      parse_hex_from 0 0 ((front ++ hex_char (n % 16) ∷ []) ++ v)
      ≡ parse_hex_from (length (front ++ hex_char (n % 16) ∷ [])) n v
longer fuel n v h m small word rest =
    let front = hex_digits fuel (n / 16) in
    let c = hex_char (n % 16) in
    let number : n / 16 * 16 % 2 ^ 64 + n % 16 ≡ n = omega arith in
    let count : length front + 1 ≡ length (front ++ c ∷ []) =
      omega (arith, length-append front (c ∷ [])) in
    ap (parse_hex_from 0 0) (append_assoc front (c ∷ []) v)
    ∙ rest (some_power fuel n small m)
    ∙ add_hex_char (length front) (n / 16) (n % 16) v (omega arith)
        (omega (arith, length-hex_digits fuel (n / 16)))
    ∙ ap (λ x. parse_hex_from (length front + 1) x v) number
    ∙ ap (λ i. parse_hex_from i n v) count

-- The parser behind the digits of `n`.
parse_hex-hex_digits :
    (fuel n : ℕ) (v : Bytes)
    → fuel ≤ 16
    → n < 16 ^ fuel
    → n < 2 ^ 64
    → 0 < fuel
    → parse_hex_from 0 0 (hex_digits fuel n ++ v) ≡ parse_hex_from (length (hex_digits fuel n)) n v
unfolding hex_digits
parse_hex-hex_digits zero n v h small word pos = absurd (omega arith)
parse_hex-hex_digits (suc fuel) n v h small word pos = elim (Bool-cases (ltb n 16)) [
  | inl y ↦
      let same : 0 * 16 % 2 ^ 64 + n % 16 ≡ n = ground arith in
      rw y (
        add_hex_char 0 0 (n % 16) v (omega arith) (omega arith)
        ∙ ap (λ m. parse_hex_from 1 m v) same)
  | inr m ↦ rw m (
      longer fuel n v h (ground arith) small word (λ pos'.
        parse_hex-hex_digits fuel (n / 16) (hex_char (n % 16) ∷ v) (omega arith)
          (next_power fuel n small) (omega arith) pos'))
]

no_space : (b : ℕ) → IsText b → is_ascii_space b ≡ false
unfolding is_ascii_space IsText
no_space b h = ground arith

trim-text :
    (s t : Bytes)
    → All IsText s
    → trim_trailing_whitespace t ≡ []
    → trim_trailing_whitespace (s ++ t) ≡ s
unfolding trim_trailing_whitespace IsText
trim-text [] t h e = e
trim-text (b ∷ []) t h e =
    let text : is_ascii_space b ≡ false = no_space b h.0 in
    rw (e, trim_trailing_whitespace) (rw text refl)
trim-text (b ∷ c ∷ s) t h e = rw (trim-text (c ∷ s) t h.1 e) refl

remove-text : (s : Bytes) → All IsText s → remove_chunk_extension s ≡ s
unfolding remove_chunk_extension IsText
remove-text [] h = refl
remove-text (b ∷ s) h = ground (arith, remove-text s h.1)

cut_line-text :
    (s rest : Bytes)
    → All IsText s
    → cut_line (s ++ 13 ∷ 10 ∷ rest) ≡ some (s ++ 13 ∷ 10 ∷ [], rest)
unfolding cut_line IsText
cut_line-text [] rest h = refl
cut_line-text (b ∷ s) rest h =
    let other : (b == 10) ≡ false = ground arith in rw other (rw (cut_line-text s rest h.1) refl)

no_text : trim_trailing_whitespace (13 ∷ 10 ∷ []) ≡ []
unfolding trim_trailing_whitespace is_ascii_space
no_text = refl

parsed : (i n : ℕ) → parse_hex_from i n [] ≡ ok n
unfolding parse_hex_from
parsed i n = refl

shorter : (n : ℕ) → n < max_line_length → leb max_line_length n ≡ false
shorter n h = ground arith

pub line_size-size_line : (n : ℕ) → n < 2 ^ 64 → line_size (size_line n) ≡ ok n
unfolding line_size size_line chunk_line parse_hex_uint
line_size-size_line n h =
    let digits = hex_digits 16 n in
    let text = hex_digits-IsText 16 n in
    let short : leb max_line_length (length (digits ++ 13 ∷ 10 ∷ [])) ≡ false =
      shorter (length (digits ++ 13 ∷ 10 ∷ []))
        (omega (arith, length-append digits (13 ∷ 10 ∷ []), length-hex_digits 16 n)) in
    rw short (
      rw (trim-text digits (13 ∷ 10 ∷ []) text (no_text)) (
        rw (remove-text digits text) (
          ap (parse_hex_from 0 0) (sym (append-nil digits))
          ∙ parse_hex-hex_digits 16 n [] (omega arith) h h (omega arith)
          ∙ parsed (length digits) n)))

pub cut_line-size_line :
    (n : ℕ) (rest : Bytes)
    → (cut_line (size_line n ++ rest) ≡ some (size_line n, rest)) × (length (size_line n) ≤ 18)
unfolding size_line
cut_line-size_line n rest = (
  rw (append_assoc (hex_digits 16 n) (13 ∷ 10 ∷ []) rest)
      (cut_line-text (hex_digits 16 n) rest (hex_digits-IsText 16 n)),
  omega (arith, length-append (hex_digits 16 n) (13 ∷ 10 ∷ []), length-hex_digits 16 n),
)
