-- ===== src/Transport/WantConnQueue.antt =====
-- transport.go: wantConnQueue, a queue in two slices. Its items are the pointers `*wantConn`, which
-- are `none` where `popFront` has cleared them.
pub mod Shows
pub mod Refine
mod Examples
use req.Base.{
  ℕ, zero, suc, ◌+◌, ◌-◌, Bool, true, ltb, Option, none, some, if◌then◌else◌, List, [], ◌∷◌, ◌++◌,
  length, drop, false,
}

pub record WantConnQueue {ℓ} (A : Type ℓ) : Type ℓ where
  pub head : List (Option A)
  pub head_pos : ℕ
  pub tail : List (Option A)

module _ {ℓ} {A : Type ℓ} where
  -- The zero value.
  abbrev pub new_queue : WantConnQueue A
  new_queue = record { head = []; head_pos = 0; tail = [] }

  -- `len`
  unfoldable pub len : WantConnQueue A → ℕ
  len q = length q.head - q.head_pos + length q.tail

  -- `pushBack`
  unfoldable pub push_back : A → WantConnQueue A → WantConnQueue A
  push_back w q = record q { tail = q.tail ++ some w ∷ [] }

  -- `q.head[i]`, and `q.head[i] = nil`.
  unfoldable pub item_at : ℕ → List (Option A) → Option A
  item_at i [] = none
  item_at zero (w ∷ ws) = w
  item_at (suc i) (w ∷ ws) = item_at i ws

  unfoldable pub clear_at : ℕ → List (Option A) → List (Option A)
  clear_at i [] = []
  clear_at zero (w ∷ ws) = none ∷ ws
  clear_at (suc i) (w ∷ ws) = w ∷ clear_at i ws

  -- The first stage of `popFront`, behind the swap.
  unfoldable pub pop_head : WantConnQueue A → Option A × WantConnQueue A
  unfolding item_at clear_at
  pop_head q = (
    item_at q.head_pos q.head,
    record q { head = clear_at q.head_pos q.head; head_pos = suc q.head_pos },
  )

  -- `popFront` with nothing left in the first stage.
  unfoldable pub pop_tail : List (Option A) → WantConnQueue A → Option A × WantConnQueue A
  unfolding pop_head
  pop_tail [] q = (none, q)
  pop_tail (w ∷ ws) q = pop_head (record q { head = w ∷ ws; head_pos = 0; tail = [] })

  -- `popFront`
  unfoldable pub pop_front : WantConnQueue A → Option A × WantConnQueue A
  unfolding pop_tail
  pop_front q = if ltb q.head_pos (length q.head) then pop_head q else pop_tail q.tail q

  -- `peekFront`
  unfoldable pub peek_front : WantConnQueue A → Option A
  unfolding item_at
  peek_front q =
      if ltb q.head_pos (length q.head) then item_at q.head_pos q.head else item_at 0 q.tail

  -- A round of the loops below: what is at the front ends the loop, or is popped.
  unfoldable pub clean_round {κ} : {B : Type κ} → (A → Bool) → Option A → B → B → B
  clean_round keep none here next = here
  clean_round keep (some w) here next = if keep w then here else next

  -- The loop of `cleanFrontNotWaiting`, where `keep` is `w.waiting()`, and of `cleanFrontCanceled`,
  -- where it is `w.cancelCtx != nil`; with fuel, of which `none` is the end.
  unfoldable pub clean_loop :
      (A → Bool) → ℕ → Bool → WantConnQueue A → Option (Bool × WantConnQueue A)
  unfolding peek_front pop_front clean_round
  clean_loop keep zero cleaned q = none
  clean_loop keep (suc fuel) cleaned q =
      let next = clean_loop keep fuel true (pop_front q).1 in
      clean_round keep (peek_front q) (some (cleaned, q)) next

  -- Each round but the last pops an item.
  unfoldable pub clean_front : (A → Bool) → WantConnQueue A → Option (Bool × WantConnQueue A)
  unfolding clean_loop len
  clean_front keep q = clean_loop keep (len q + 1) false q

  -- `all`, which calls a function on each item in order: the state that it leaves.
  unfoldable pub each {κ} : {S : Type κ} → (Option A → S → S) → List (Option A) → S → S
  each f [] s = s
  each f (w ∷ ws) s = each f ws (f w s)

  unfoldable pub all_items {κ} : {S : Type κ} → (Option A → S → S) → WantConnQueue A → S → S
  unfolding each
  all_items f q s = each f q.tail (each f (drop q.head_pos q.head) s)
