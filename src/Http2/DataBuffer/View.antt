-- ===== src/Http2/DataBuffer/View.antt =====
-- The bytes that a data buffer holds, and the shape that its operations keep.
use req.Base.{
  ℕ, ◌+◌, ◌≤◌, ◌<◌, ◌≡◌, sym, true, List, [], ◌∷◌, ◌++◌, append_assoc, length, take, drop,
  take-append, length-take, length-append, length-drop, arith,
}
use req.Base.Bytes.{Bytes}
use req.Http2.DataBuffer.{DataBuffer, is_class, room, fill_last}

-- All bytes of the chunks, the last one up to its first `w`.
abbrev pub joined : ℕ → List Bytes → Bytes
joined w [] = []
joined w (c ∷ []) = take w c
joined w (c ∷ d ∷ cs) = c ++ joined w (d ∷ cs)

-- The unread bytes, in order: the first chunk from `r`, up to the last chunk at `w`.
abbrev pub content : DataBuffer → Bytes
content b = drop b.r (joined b.w b.chunks)

-- Chunks of the pool's sizes, with `w` within the last one.
abbrev pub Chunks : ℕ → List Bytes → Type 0
Chunks w [] = Unit
Chunks w (c ∷ []) = (is_class (length c) ≡ true) × (w ≤ length c)
Chunks w (c ∷ d ∷ cs) = (is_class (length c) ≡ true) × Chunks w (d ∷ cs)

-- The first chunk has bytes left behind `r`; of a single chunk at least `r` bytes are written.
abbrev pub Start : ℕ → ℕ → List Bytes → Type 0
Start r w [] = r ≡ 0
Start r w (c ∷ []) = (r < length c) × (r ≤ w)
Start r w (c ∷ d ∷ cs) = r < length c

pub record IsBuffer (b : DataBuffer) : Type 0 where
  pub sized : b.size ≡ length (content b)
  pub chunked : Chunks b.w b.chunks
  pub started : Start b.r b.w b.chunks

pub class_pos : (n : ℕ) → is_class n ≡ true → 0 < n
class_pos n h = ground arith

pub joined-fill_last :
    (w : ℕ) (q : Bytes) (chunks : List Bytes)
    → length q ≤ room w chunks
    → 0 < room w chunks
    → joined (w + length q) (fill_last w q chunks) ≡ joined w chunks ++ q
unfolding fill_last room
joined-fill_last w q [] fits some_room = absurd (omega arith)
joined-fill_last w q (c ∷ []) fits some_room =
    let e : w + length q ≡ length (take w c ++ q) =
      omega (arith, length-append (take w c) q, length-take w c) in
    rw (sym (append_assoc (take w c) q (drop (w + length q) c)))
      (take-append (w + length q) (take w c ++ q) (drop (w + length q) c) e)
joined-fill_last w q (c ∷ d ∷ []) fits some_room =
    rw (joined-fill_last w q (d ∷ []) fits some_room) (sym (append_assoc c (take w d) q))
joined-fill_last w q (c ∷ d ∷ e ∷ cs) fits some_room =
    rw (joined-fill_last w q (d ∷ e ∷ cs) fits some_room)
      (sym (append_assoc c (joined w (d ∷ e ∷ cs)) q))

pub length-fill :
    (w : ℕ) (q c : Bytes)
    → w + length q ≤ length c
    → length (take w c ++ (q ++ drop (w + length q) c)) ≡ length c
length-fill w q c h = omega (
  arith,
  length-append (take w c) (q ++ drop (w + length q) c),
  length-append q (drop (w + length q) c),
  length-take w c,
  length-drop (w + length q) c,
)

pub Chunks-fill_last :
    (w : ℕ) (q : Bytes) (chunks : List Bytes)
    → Chunks w chunks
    → length q ≤ room w chunks
    → 0 < room w chunks
    → Chunks (w + length q) (fill_last w q chunks)
unfolding fill_last room
Chunks-fill_last w q [] h fits some_room = tt
Chunks-fill_last w q (c ∷ []) h fits some_room =
    let e = length-fill w q c (omega arith) in (rw e h.0, omega (arith, e))
Chunks-fill_last w q (c ∷ d ∷ []) h fits some_room =
    (h.0, Chunks-fill_last w q (d ∷ []) h.1 fits some_room)
Chunks-fill_last w q (c ∷ d ∷ e ∷ cs) h fits some_room =
    (h.0, Chunks-fill_last w q (d ∷ e ∷ cs) h.1 fits some_room)
