-- ===== src/Transport/Dials.antt =====
-- transport.go: the limit on the connections of a host. Each function that holds a mutex of the
-- transport or of a wantConn is one step.
-- A map is a function: an entry that is missing, or deleted, reads as its type's zero value. `none`
-- is a panic. A wantConn is its number with its key; what changes of it is in the map `wants`.
pub mod Start
pub mod Accounts
pub mod Keeps
pub mod Queued
pub mod Handed
pub mod GivenBack
pub mod Limit
mod Examples
use req.Base.{
  ℕ, zero, suc, ◌+◌, ◌-◌, Bool, true, false, not, ◌==◌, ltb, Option, none, some, ◌>>=?◌,
  if◌then◌else◌, List, [], ◌∷◌, ◌++◌,
}
use req.Transport.WantConnQueue.{WantConnQueue, new_queue, len, push_back, pop_front, clean_front}

pub data ConnOrError (C E : Type 0) : Type 0 where
  connection : C → ConnOrError C E
  failure : E → ConnOrError C E

-- `key` is `cm.key()`.
pub record WantConn : Type 0 where
  pub id : ℕ
  pub key : ℕ

-- Whether `ctx` and `cancelCtx` are there, and what is in the channel `result`.
pub record Want (C E : Type 0) : Type 0 where
  pub ctx : Bool
  pub cancel_ctx : Bool
  pub done : Bool
  pub result : Option (ConnOrError C E)

-- `dialing` are the goroutines of `dialConnFor`, in the order of their `go` statements. No limit is
-- a limit of 0.
pub record Transport (C E : Type 0) : Type 0 where
  pub max_conns_per_host : ℕ
  pub conns_per_host : ℕ → ℕ
  pub conns_per_host_wait : ℕ → WantConnQueue WantConn
  pub dials_in_progress : WantConnQueue WantConn
  pub wants : ℕ → Want C E
  pub dialing : List WantConn

unfoldable pub put {ℓ} : {A : Type ℓ} → ℕ → A → (ℕ → A) → ℕ → A
put k a f j = if k == j then a else f j

-- A round of the loop of `decConnsPerHost`. A nil pointer would be a panic.
unfoldable pub pop_round {ℓ} :
    {B : Type ℓ} → (WantConn → Bool) → Option WantConn → (WantConn → B) → Option B → Option B
pop_round is_waiting none here next = none
pop_round is_waiting (some w) here next = if is_waiting w then some (here w) else next

-- The loop, with fuel, up to a wantConn that is waiting.
unfoldable pub pop_waiting :
    (WantConn → Bool)
    → ℕ
    → WantConnQueue WantConn
    → Option (Option WantConn × WantConnQueue WantConn)
unfolding pop_round pop_front len
pop_waiting is_waiting zero q = none
pop_waiting is_waiting (suc fuel) q =
    let (w, q') = pop_front q in
    let next = pop_waiting is_waiting fuel q' in
    if len q == 0 then some (none, q) else pop_round is_waiting w (λ v. (some v, q')) next

module _ {C E : Type 0} where
  -- As `getConn` makes a wantConn.
  abbrev pub new_want : Want C E
  new_want = record { ctx = true; cancel_ctx = true; done = false; result = none }

  abbrev pub new_transport : ℕ → Transport C E
  new_transport size = record {
    max_conns_per_host = size;
    conns_per_host = λ k. 0;
    conns_per_host_wait = λ k. new_queue;
    dials_in_progress = new_queue;
    wants = λ i. new_want;
    dialing = [];
  }

  -- `waiting`
  abbrev pub waiting : Transport C E → WantConn → Bool
  waiting t w = not (t.wants w.id).done

  -- `tryDeliver`
  unfoldable pub try_deliver : WantConn → ConnOrError C E → Transport C E → Bool × Transport C E
  unfolding put
  try_deliver w r t =
      let v = t.wants w.id in
      if v.done then (false, t) else (
        true,
        record t {
          wants = put w.id (record v { ctx = false; done = true; result = some r }) t.wants;
        },
      )

  abbrev pub as_conn : Option (ConnOrError C E) → Option C
  as_conn none = none
  as_conn (some (connection pc)) = some pc
  as_conn (some (failure e)) = none

  -- `cancel`, with the connection that it gives back to the pool.
  unfoldable pub cancel : WantConn → Transport C E → Option C × Transport C E
  unfolding put
  cancel w t =
      let v = t.wants w.id in
      (
        if v.done then as_conn v.result else none,
        record t {
          wants =
              put w.id
                (record v { ctx = false; done = true; result = if v.done then none else v.result })
                t.wants;
        },
      )

  -- `<-w.result` of `getConn`, and the end of the goroutine of `startDialConnForLocked`.
  unfoldable pub receive : WantConn → Transport C E → Option (ConnOrError C E) × Transport C E
  unfolding put
  receive w t =
      let v = t.wants w.id in
      (v.result, record t { wants = put w.id (record v { result = none }) t.wants })

  unfoldable pub end_dial : WantConn → Transport C E → Transport C E
  unfolding put
  end_dial w t =
      let v = t.wants w.id in
      record t { wants = put w.id (record v { cancel_ctx = false }) t.wants }

  -- `startDialConnForLocked`
  unfoldable pub start_dial_conn_for_locked : WantConn → Transport C E → Option (Transport C E)
  start_dial_conn_for_locked w t =
      clean_front (λ v. (t.wants v.id).cancel_ctx) t.dials_in_progress >>=? λ r.
      some (record t { dials_in_progress = push_back w r.1; dialing = t.dialing ++ w ∷ [] })

  -- The wait of `queueForDial`.
  unfoldable pub wait_to_dial : WantConn → Transport C E → Option (Transport C E)
  unfolding put
  wait_to_dial w t = clean_front (waiting t) (t.conns_per_host_wait w.key) >>=? λ r.
      some (record t { conns_per_host_wait = put w.key (push_back w r.1) t.conns_per_host_wait })

  -- `queueForDial`
  unfoldable pub queue_for_dial : WantConn → Transport C E → Option (Transport C E)
  unfolding start_dial_conn_for_locked wait_to_dial put
  queue_for_dial w t =
      let n = t.conns_per_host w.key in
      if t.max_conns_per_host == 0
      then start_dial_conn_for_locked w t
      else if ltb n t.max_conns_per_host
      then start_dial_conn_for_locked w
          (record t { conns_per_host = put w.key (n + 1) t.conns_per_host })
      else wait_to_dial w t

  -- `n--`, with the count stored or deleted.
  unfoldable pub lower : ℕ → Transport C E → Transport C E
  unfolding put
  lower k t = record t { conns_per_host = put k (t.conns_per_host k - 1) t.conns_per_host }

  -- What follows the loop: the queue is stored or deleted, and a dial has started or the count goes
  -- down.
  unfoldable pub hand_over :
      ℕ → Option WantConn × WantConnQueue WantConn → Transport C E → Option (Transport C E)
  unfolding start_dial_conn_for_locked put lower
  hand_over k (w, q) t =
      let waits = put k (if len q == 0 then new_queue else q) t.conns_per_host_wait in
      let t' = record t { conns_per_host_wait = waits } in
      elim w [ some v ↦ start_dial_conn_for_locked v t' | none ↦ some (lower k t') ]

  -- `decConnsPerHost`
  unfoldable pub dec_conns_per_host : ℕ → Transport C E → Option (Transport C E)
  unfolding hand_over pop_waiting lower
  dec_conns_per_host k t =
      let q = t.conns_per_host_wait k in
      if t.max_conns_per_host == 0
      then some t
      else if t.conns_per_host k == 0
      then none
      else if len q == 0
      then some (lower k t)
      else pop_waiting (waiting t) (len q + 1) q >>=? λ r. hand_over k r t
