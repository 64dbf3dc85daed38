-- ===== src/Http2/DataBuffer/Append.antt =====
-- internal/http2/databuffer.go: what `Write` appends.
use req.Base.{
  ℕ, zero, suc, ◌+◌, ◌≤◌, ◌<◌, min, ◌≡◌, refl, sym, ap, ◌∙◌, true, Bool-cases, List, [], ◌∷◌, ◌++◌,
  append_assoc, append-nil, subst, length, take, drop, take-append-drop, length-take, length-append,
  length-drop, take_all, drop-append_le, some, ◌==◌, inl, inr, arith,
}
use req.Base.Bytes.{Bytes}
use req.Base.Int.{ℤ}
use req.Http2.DataBuffer.{
  DataBuffer, is_class, size_class, room, fill_last, last_chunk_or_alloc, copy_in, wanted,
  write_round, write_loop, write,
}
use req.Http2.DataBuffer.View.{
  joined, content, length-fill, Chunks, Start, IsBuffer, class_pos, joined-fill_last,
  Chunks-fill_last,
}

-- A new chunk behind chunks without room.
joined-alloc :
    (w : ℕ) (chunks : List Bytes) (c : Bytes)
    → Chunks w chunks
    → room w chunks ≡ 0
    → joined 0 (chunks ++ c ∷ []) ≡ joined w chunks
unfolding room
joined-alloc w [] c h full = refl
joined-alloc w (a ∷ []) c h full = append-nil a ∙ sym (take_all w a (omega arith))
joined-alloc w (a ∷ b ∷ cs) c h full = ap (λ x. a ++ x) (joined-alloc w (b ∷ cs) c h.1 full)

Chunks-alloc :
    (w : ℕ) (chunks : List Bytes) (c : Bytes)
    → Chunks w chunks
    → is_class (length c) ≡ true
    → Chunks 0 (chunks ++ c ∷ [])
Chunks-alloc w [] c h k = (k, omega arith)
Chunks-alloc w (a ∷ []) c h k = (h.0, (k, omega arith))
Chunks-alloc w (a ∷ b ∷ cs) c h k = (h.0, Chunks-alloc w (b ∷ cs) c h.1 k)

Start-alloc :
    (r w : ℕ) (chunks : List Bytes) (c : Bytes)
    → Start r w chunks
    → 0 < length c
    → Start r 0 (chunks ++ c ∷ [])
Start-alloc r w [] c h k = (omega arith, omega arith)
Start-alloc r w (a ∷ []) c h k = h.0
Start-alloc r w (a ∷ b ∷ cs) c h k = h

room-alloc : (chunks : List Bytes) (c : Bytes) → room 0 (chunks ++ c ∷ []) ≡ length c
unfolding room
room-alloc [] c = omega arith
room-alloc (a ∷ []) c = omega arith
room-alloc (a ∷ b ∷ cs) c = room-alloc (b ∷ cs) c

Start-fill_last :
    (r w : ℕ) (q : Bytes) (chunks : List Bytes)
    → Start r w chunks
    → length q ≤ room w chunks
    → 0 < room w chunks
    → Start r (w + length q) (fill_last w q chunks)
unfolding fill_last room
Start-fill_last r w q [] h fits some_room = h
Start-fill_last r w q (c ∷ []) h fits some_room =
    let e = length-fill w q c (omega arith) in (omega (arith, e, h), omega (arith, h))
Start-fill_last r w q (c ∷ d ∷ []) h fits some_room = h
Start-fill_last r w q (c ∷ d ∷ e ∷ cs) h fits some_room = h

Start-length :
    (r w : ℕ) (chunks : List Bytes)
    → Chunks w chunks
    → Start r w chunks
    → r ≤ length (joined w chunks)
Start-length r w [] k h = omega arith
Start-length r w (c ∷ []) k h = omega (arith, length-take w c)
Start-length r w (c ∷ d ∷ cs) k h = omega (arith, length-append c (joined w (d ∷ cs)))

size_class-Class : (size : ℤ) → is_class (size_class size) ≡ true
unfolding size_class
size_class-Class size = ground arith

-- What one round takes from `p` and adds to the content.
record Appends (p : Bytes) (b : DataBuffer) (q : Bytes) (b' : DataBuffer) : Type 0 where
  n : ℕ
  some_taken : 0 < n
  fits : n ≤ length p
  rest : q ≡ drop n p
  kept : IsBuffer b'
  added : content b' ≡ content b ++ take n p

module _ (pool : ℕ → Bytes) (pool_sized : (n : ℕ) → length (pool n) ≡ n) where
  alloc_lem :
      (want : ℤ) (b : DataBuffer)
      → IsBuffer b
      → room b.w b.chunks ≡ 0
      → let b' = record b { chunks = b.chunks ++ pool (size_class want) ∷ []; w = 0 } in
        IsBuffer b' × (content b' ≡ content b) × (0 < room b'.w b'.chunks)
  alloc_lem want b h full =
      let c = pool (size_class want) in
      let k : is_class (length c) ≡ true =
        rw (pool_sized (size_class want)) (size_class-Class want) in
      let e : joined 0 (b.chunks ++ c ∷ []) ≡ joined b.w b.chunks =
        joined-alloc b.w b.chunks c h.chunked full in
      let pos_c = class_pos (length c) k in
      (
        record {
          sized = h.sized ∙ ap (λ x. length (drop b.r x)) (sym e);
          chunked = Chunks-alloc b.w b.chunks c h.chunked k;
          started = Start-alloc b.r b.w b.chunks c h.started pos_c;
        },
        ap (drop b.r) e,
        omega (arith, room-alloc b.chunks c, pos_c),
      )

  last_chunk_or_alloc_lem :
      (want : ℤ) (b : DataBuffer)
      → IsBuffer b
      → let b' = last_chunk_or_alloc pool want b in
        IsBuffer b' × (content b' ≡ content b) × (0 < room b'.w b'.chunks)
  unfolding last_chunk_or_alloc
  last_chunk_or_alloc_lem want b h = elim (Bool-cases (room b.w b.chunks == 0)) [
    | inl e ↦ rw e (alloc_lem want b h (ground arith))
    | inr e ↦ rw e (h, refl, ground arith)
  ]

  copy_in_lem :
      (p : Bytes) (b : DataBuffer)
      → IsBuffer b
      → 0 < length p
      → 0 < room b.w b.chunks
      → Appends p b (copy_in p b).0 (copy_in p b).1
  unfolding copy_in
  copy_in_lem p b h filled some_room =
      let n = min (room b.w b.chunks) (length p) in
      let q = take n p in
      let lq : length q ≡ n = omega (arith, length-take n p) in
      let fits : length q ≤ room b.w b.chunks = omega arith in
      let filled_chunks = fill_last b.w q b.chunks in
      let e : joined (b.w + n) (fill_last b.w q b.chunks) ≡ joined b.w b.chunks ++ q =
        subst (λ m. joined (b.w + m) filled_chunks ≡ joined b.w b.chunks ++ q) lq
          (joined-fill_last b.w q b.chunks fits some_room) in
      let le = Start-length b.r b.w b.chunks h.chunked h.started in
      let c : drop b.r (joined (b.w + n) (fill_last b.w q b.chunks)) ≡ content b ++ q =
        rw e (drop-append_le b.r (joined b.w b.chunks) q le) in
      record {
        n = n;
        some_taken = omega arith;
        fits = omega arith;
        rest = refl;
        kept = record {
          sized = rw c (omega (arith, length-append (content b) q, h.sized));
          chunked =
              subst (λ m. Chunks (b.w + m) filled_chunks) lq
                (Chunks-fill_last b.w q b.chunks h.chunked fits some_room);
          started =
              subst (λ m. Start b.r (b.w + m) filled_chunks) lq
                (Start-fill_last b.r b.w q b.chunks h.started fits some_room);
        };
        added = c;
      }

  write_loop_lem :
      (fuel : ℕ) (p : Bytes) (b : DataBuffer)
      → IsBuffer b
      → length p ≤ fuel
      → (b' : DataBuffer) × (write_loop pool fuel p b ≡ some b')
        × IsBuffer b'
        × (content b' ≡ content b ++ p)
  unfolding write_loop write_round
  write_loop_lem fuel [] b h enough = (b, refl, h, sym (append-nil (content b)))
  write_loop_lem zero (x ∷ p) b h enough = absurd (omega arith)
  write_loop_lem (suc fuel) (x ∷ p) b h enough =
      let a = last_chunk_or_alloc pool (wanted (x ∷ p) b) b in
      let (ha, same, some_room) = last_chunk_or_alloc_lem (wanted (x ∷ p) b) b h in
      let c = copy_in_lem (x ∷ p) a ha (omega arith) some_room in
      let q = (copy_in (x ∷ p) a).0 in
      let less : length q ≤ fuel =
        rw c.rest (omega (arith, length-drop c.n (x ∷ p), c.some_taken)) in
      let (b', e, hb, added) = write_loop_lem fuel q (copy_in (x ∷ p) a).1 c.kept less in
      let whole : content b' ≡ content b ++ (x ∷ p) =
        added
        ∙ rw c.rest (
            rw c.added (
              rw same (
                append_assoc (content b) (take c.n (x ∷ p)) (drop c.n (x ∷ p))
                ∙ ap (λ y. content b ++ y) (take-append-drop c.n (x ∷ p))))) in
      (b', e, hb, whole)

  -- If the pool hands out an array of the length asked for, Write on a well-formed buffer returns
  -- the number of bytes given, within as many rounds of its loop as there are bytes, and leaves a
  -- well-formed buffer with these bytes behind the content it had.
  pub write-Appends :
      (p : Bytes) (b : DataBuffer)
      → IsBuffer b
      → (b' : DataBuffer) × (write pool p b ≡ some (length p, b'))
        × IsBuffer b'
        × (content b' ≡ content b ++ p)
  unfolding write
  write-Appends p b h =
      let (b', e, hb, added) = write_loop_lem (length p) p b h (omega arith) in
      (b', rw e refl, hb, added)
