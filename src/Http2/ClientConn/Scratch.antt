-- ===== src/Http2/ClientConn/Scratch.antt =====
-- internal/http2/transport.go: the length of the buffer through which a request body goes, and the
-- pool that the buffer is from. `bits_len` is the part of `bits.Len` that a number below 2^k needs.
use req.Base.{
  ℕ, zero, suc, ◌+◌, ◌-◌, ◌*◌, ◌/◌, ◌^◌, ◌<◌, ◌≤◌, ◌≡◌, refl, true, not, ◌&&◌, ◌==◌, ltb, leb,
  if◌then◌else◌, Bool-cases, inl, inr, if-either, if-cases, arith, subst,
}
use req.Base.Int.{ℤ, pos, ◌+ℤ◌, ltb_ℤ, int64, pos_part, neg_part}
use native.Mathlib.Numerals.{unary_clauses}

-- `frameScratchBufferLen`, where `declared` is `reqBodyContentLength`.
unfoldable pub frame_scratch_buffer_len : ℤ → ℕ → ℤ
frame_scratch_buffer_len declared max_frame_size =
    let limit = 512 * 2 ^ 10 in
    let n = if ltb limit max_frame_size then pos limit else pos max_frame_size in
    let unknown = pos_part declared == 0 && neg_part declared == 1 in
    let more = int64 (declared +ℤ pos 1) in
    let m = if not unknown && ltb_ℤ more n then more else n in if ltb_ℤ m (pos 1) then pos 1 else m

unfoldable pub bits_len : ℕ → ℕ → ℕ
bits_len zero x = 0
bits_len (suc k) x = let rest = bits_len k (x / 2) in if x == 0 then 0 else suc rest

-- `bufPoolIndex`
unfoldable pub buf_pool_index : ℕ → ℕ
unfolding bits_len
buf_pool_index size =
    if leb size 16384
    then 0
    else if leb 7 (bits_len 64 (size - 1) - 14)
    then 6
    else bits_len 64 (size - 1) - 14

half_lem : (x m : ℕ) → x < 2 ^ suc m → x / 2 < 2 ^ m
half_lem x m h =
    let power : 2 ^ suc m ≡ 2 ^ m * 2 = simp unary_clauses refl in omega (arith, h, power)

pow_pos : (m : ℕ) → 1 ≤ 2 ^ m
pow_pos zero = omega arith
pow_pos (suc m) =
    let power : 2 ^ suc m ≡ 2 ^ m * 2 = simp unary_clauses refl in omega (arith, pow_pos m, power)

bits_len_lem : (k x m : ℕ) → x < 2 ^ m → bits_len k x ≤ m
unfolding bits_len
bits_len_lem zero x m h = omega arith
bits_len_lem (suc k) x zero h = let z : (x == 0) ≡ true = ground (arith, h) in rw z (omega arith)
bits_len_lem (suc k) x (suc m) h =
    if-either (λ n. n ≤ suc m) (x == 0) 0 (suc (bits_len k (x / 2))) (omega arith)
      (omega (arith, bits_len_lem k (x / 2) m (half_lem x m h)))

bits_len_enough : (k x : ℕ) → x < 2 ^ k → x < 2 ^ bits_len k x
unfolding bits_len
bits_len_enough zero x h = h
bits_len_enough (suc k) x h =
    let below = bits_len_enough k (x / 2) (half_lem x k h) in
    let power : 2 ^ suc (bits_len k (x / 2)) ≡ 2 ^ bits_len k (x / 2) * 2 =
      simp unary_clauses refl in
    if-cases (λ n. x < 2 ^ n) (x == 0) 0 (suc (bits_len k (x / 2))) (λ e. ground (arith, e))
      (λ e. omega (arith, below, power))

bits_len_above : (k x m : ℕ) → x < 2 ^ k → 2 ^ m ≤ x → m < bits_len k x
unfolding bits_len
bits_len_above zero x m h le =
    let some_power : 1 ≤ 2 ^ m = pow_pos m in absurd (omega (arith, h, le, some_power))
bits_len_above (suc k) x zero h le =
    if-cases (λ n. 0 < n) (x == 0) 0 (suc (bits_len k (x / 2)))
      (λ e. absurd (ground (arith, e, le))) (λ e. omega arith)
bits_len_above (suc k) x (suc m) h le =
    let some_power : 1 ≤ 2 ^ m = pow_pos m in
    let power : 2 ^ suc m ≡ 2 ^ m * 2 = simp unary_clauses refl in
    let later = bits_len_above k (x / 2) m (half_lem x k h) (omega (arith, le, power)) in
    if-cases (λ n. suc m < n) (x == 0) 0 (suc (bits_len k (x / 2)))
      (λ e. absurd (ground (arith, e, le, power, some_power))) (λ e. omega (arith, later))

frame_scratch_buffer_len_lem :
    (declared : ℤ) (max_frame_size : ℕ)
    → (n : ℕ) × (frame_scratch_buffer_len declared max_frame_size ≡ pos n) × (1 ≤ n) × (n ≤ 2 ^ 19)
unfolding frame_scratch_buffer_len ◌+ℤ◌
frame_scratch_buffer_len_lem declared max_frame_size =
    let r = frame_scratch_buffer_len declared max_frame_size in
    (pos_part r, ground arith, ground arith, ground arith)

-- The sizes of a pool.
pub record OfPool (n index : ℕ) : Type 0 where
  pub fits : n ≤ 2 ^ (14 + index)
  pub not_small : 0 < index → 2 ^ (13 + index) < n

not_below : (n b i : ℕ) → b ≡ 14 + i → (n - 1 < 2 ^ (13 + i) → b ≤ 13 + i) → 2 ^ (13 + i) < n
not_below n b i e less = elim (Bool-cases (ltb (n - 1) (2 ^ (13 + i)))) [
  | inl f ↦ absurd (omega (arith, e, less (ground (arith, f))))
  | inr f ↦ ground (arith, f, pow_pos (13 + i))
]

buf_pool_index-OfPool :
    (n : ℕ) → 1 ≤ n → n ≤ 2 ^ 19 → (buf_pool_index n ≤ 5) × OfPool n (buf_pool_index n)
unfolding buf_pool_index
buf_pool_index-OfPool n h le =
    let b = bits_len 64 (n - 1) in
    let at_most : b ≤ 19 = bits_len_lem 64 (n - 1) 19 (omega (arith, h, le)) in
    let enough : n - 1 < 2 ^ b = bits_len_enough 64 (n - 1) (omega (arith, le)) in
    if-cases (λ i. (i ≤ 5) × OfPool n i) (leb n 16384) 0 _
      (λ e. (
        omega arith,
        record { fits = ground (arith, e); not_small = λ p. absurd (omega (arith, p)) },
      ))
      (λ e.
        let more : 15 ≤ b = bits_len_above 64 (n - 1) 14 (omega (arith, le)) (ground (arith, e)) in
        let parts : b ≡ 14 + (b - 14) = omega (arith, more) in
        if-cases (λ i. (i ≤ 5) × OfPool n i) (leb 7 (b - 14)) 6 (b - 14)
          (λ f. absurd (ground (arith, f, at_most)))
          (λ f. (
            omega (arith, at_most),
            record {
              fits = subst (λ m. n ≤ 2 ^ m) parts (omega (arith, enough, h));
              not_small = λ p.
                  not_below n b (b - 14) (omega (arith, more))
                    (bits_len_lem 64 (n - 1) (13 + (b - 14)));
            },
          )))

-- For any declared length, -1 and the largest int64 included, and any frame size,
-- frameScratchBufferLen gives 1 to 512 KB, and bufPoolIndex then one of the first six pools, whose
-- sizes the comment on bufPools names: at most 16 KB times 2 to the index, and, but for the first,
-- more than half of that.
pub frame_scratch_buffer_len-buf_pool_index :
    (declared : ℤ) (max_frame_size : ℕ)
    → (n : ℕ) × (frame_scratch_buffer_len declared max_frame_size ≡ pos n)
      × (1 ≤ n)
      × (n ≤ 2 ^ 19)
      × (buf_pool_index n ≤ 5)
      × OfPool n (buf_pool_index n)
frame_scratch_buffer_len-buf_pool_index declared max_frame_size =
    let (n, e, some_room, le) = frame_scratch_buffer_len_lem declared max_frame_size in
    let (few, sized) = buf_pool_index-OfPool n some_room le in (n, e, some_room, le, few, sized)
