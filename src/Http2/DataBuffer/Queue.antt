-- ===== src/Http2/DataBuffer/Queue.antt =====
-- internal/http2/databuffer.go: a data buffer against a queue of bytes.
use req.Base.{
  arith, ℕ, ◌≡◌, ◌≢◌, refl, sym, ap, ◌∙◌, List, [], ◌∷◌, ◌++◌, length, take, drop, none, some, inl,
  inr,
}
use req.Base.Bytes.{Bytes}
use req.Base.Int.{ℤ}
use req.Http2.DataBuffer.{DataBuffer, len, new_data_buffer, read_empty, fault, got, read, write}
use req.Http2.DataBuffer.View.{content, IsBuffer}
use req.Http2.DataBuffer.Append.{write-Appends}
use req.Http2.DataBuffer.Drain.{read-Drains}

pub data Op : Type 0 where
  write_op : Bytes → Op
  read_op : ℕ → Op
  len_op : Op

pub data Outcome : Type 0 where
  count : ℕ → Outcome
  bytes : Bytes → Outcome
  empty : Outcome
  failed : Outcome

-- The outcomes of calls one after the other, up to the first panic.
abbrev pub outcomes : (ℕ → Bytes) → List Op → DataBuffer → List Outcome
outcomes pool [] b = []
outcomes pool (write_op p ∷ ops) b = elim (write pool p b) [
  | none ↦ failed ∷ []
  | some (n, b') ↦ count n ∷ outcomes pool ops b'
]
outcomes pool (read_op k ∷ ops) b = elim (read k b) [
  | read_empty ↦ empty ∷ outcomes pool ops b
  | fault ↦ failed ∷ []
  | got p b' ↦ bytes p ∷ outcomes pool ops b'
]
outcomes pool (len_op ∷ ops) b = count (len b) ∷ outcomes pool ops b

-- The same calls on a queue of bytes.
abbrev pub queue_outcomes : List Op → Bytes → List Outcome
queue_outcomes [] q = []
queue_outcomes (write_op p ∷ ops) q = count (length p) ∷ queue_outcomes ops (q ++ p)
queue_outcomes (read_op k ∷ ops) [] = empty ∷ queue_outcomes ops []
queue_outcomes (read_op k ∷ ops) (x ∷ q) =
    bytes (take k (x ∷ q)) ∷ queue_outcomes ops (drop k (x ∷ q))
queue_outcomes (len_op ∷ ops) q = count (length q) ∷ queue_outcomes ops q

queue_read :
    (k : ℕ) (ops : List Op) (q : Bytes)
    → q ≢ []
    → queue_outcomes (read_op k ∷ ops) q ≡ bytes (take k q) ∷ queue_outcomes ops (drop k q)
queue_read k ops [] filled = absurd (filled refl)
queue_read k ops (x ∷ q) filled = refl

queue_read_empty :
    (k : ℕ) (ops : List Op) (q : Bytes)
    → q ≡ []
    → queue_outcomes (read_op k ∷ ops) q ≡ empty ∷ queue_outcomes ops q
queue_read_empty k ops [] e = refl
queue_read_empty k ops (x ∷ q) e = absurd (omega (arith, ap length e))

module _ (pool : ℕ → Bytes) (pool_sized : (n : ℕ) → length (pool n) ≡ n) where
  outcomes_lem :
      (ops : List Op) (b : DataBuffer)
      → IsBuffer b
      → outcomes pool ops b ≡ queue_outcomes ops (content b)
  unfolding len
  outcomes_lem [] b h = refl
  outcomes_lem (write_op p ∷ ops) b h =
      let (b', e, hb, same) = write-Appends pool pool_sized p b h in
      rw (e, outcomes)
        (ap (λ r. count (length p) ∷ r) (outcomes_lem ops b' hb ∙ ap (queue_outcomes ops) same))
  outcomes_lem (read_op k ∷ ops) b h = elim (read-Drains k b h) [
    | inl (e, none_left) ↦
        rw (e, outcomes)
          (ap (λ r. empty ∷ r) (outcomes_lem ops b h)
            ∙ sym (queue_read_empty k ops (content b) none_left))
    | inr (filled, (b', e, hb, rest)) ↦
        rw (e, outcomes)
          (ap (λ r. bytes (take k (content b)) ∷ r)
              (outcomes_lem ops b' hb ∙ ap (queue_outcomes ops) rest)
            ∙ sym (queue_read k ops (content b) filled))
  ]
  outcomes_lem (len_op ∷ ops) b h =
      rw (outcomes_lem ops b h) (ap (λ n. count n ∷ queue_outcomes ops (content b)) h.sized)

  -- If the pool hands out an array of the length asked for, whatever it holds, then calls of Write,
  -- Read and Len, in any order, on a new buffer of any expected size have the outcomes that a queue
  -- of bytes gives: Write takes all its bytes, Read gives the oldest bytes up to its limit, an
  -- error only if none are left, Len the number of bytes left, and no call panics or runs on.
  pub outcomes-queue_outcomes :
      (expected : ℤ) (ops : List Op)
      → outcomes pool ops (new_data_buffer expected) ≡ queue_outcomes ops []
  unfolding new_data_buffer
  outcomes-queue_outcomes expected ops =
      outcomes_lem ops (new_data_buffer expected)
        (record { sized = refl; chunked = tt; started = refl })
