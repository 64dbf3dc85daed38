-- ===== src/Http2/Pipe/Account.antt =====
-- Which bytes the pipe of internal/http2/pipe.go has let through, and which are left.
use req.Base.{
  ℕ, ◌≡◌, refl, sym, ap, ◌∙◌, subst, Bool, true, false, Option, none, some, if◌then◌else◌, List, [],
  ◌∷◌, ◌++◌, length, take-append-drop, append-nil, append_assoc,
}
use req.Base.Bytes.{Bytes}
use req.Http2.Pipe.{
  PipeBuffer, Outcome, write_closed, count, bytes, Call, read_call, write_call, close_call,
  break_call, close_code_call, len_call, err_call, done_call, is_some, Pipe, new_pipe, set_buffer,
  len, step,
}
use req.Http2.Pipe.Spec.{Promise, new_promise, over, read_left, read_promise, promise}
use req.Http2.Pipe.Holds.{Holds}
use req.Http2.Pipe.Refine.{
  outcomes, promised, outcomes_lem, step-Simulates, set_buffer-Holds, len_of,
}

module _ (lib : PipeBuffer) (E F : Type 0) where
  open lib use {Buffer, buffered, IsGood}

  -- The pipe behind the calls.
  abbrev pub after : List (Call E F) → Pipe lib E F → Pipe lib E F
  after [] p = p
  after (c ∷ cs) p = after cs (step lib E F c p).1

  -- The bytes of one call that succeeded, written and read.
  abbrev pub written_by : Call E F → Outcome E F → Bytes
  written_by (write_call d) (count n) = d
  written_by c o = []

  abbrev pub read_by : Outcome E F → Bytes
  read_by (bytes q) = q
  read_by o = []

  abbrev pub written : List (Call E F) → List (Outcome E F) → Bytes
  written [] os = []
  written (c ∷ cs) [] = []
  written (c ∷ cs) (o ∷ os) = written_by c o ++ written cs os

  abbrev pub received : List (Outcome E F) → Bytes
  received [] = []
  received (o ∷ os) = read_by o ++ received os

  read_left_balance :
      (k : ℕ) (left : Bytes) (closed : Option E) (s : Promise E F)
      → s.left ≡ left
      → left ≡ read_by (read_left E F k left closed s).0 ++ (read_left E F k left closed s).1.left
  read_left_balance k [] none s e = sym e
  read_left_balance k [] (some x) s e = sym e
  read_left_balance k (b ∷ q) closed s e = sym (take-append-drop k (b ∷ q))

  read_promise_balance :
      (k : ℕ) (broken : Option E) (s : Promise E F)
      → s.left ≡ read_by (read_promise E F k broken s).0 ++ (read_promise E F k broken s).1.left
  read_promise_balance k none s = read_left_balance k s.left s.closed s refl
  read_promise_balance k (some e) s = refl

  write_balance :
      (ended : Bool) (d : Bytes) (s : Promise E F)
      → let q : Outcome E F × Promise E F =
          if ended
          then (write_closed, s)
          else (count (length d), record s { left = s.left ++ d }) in
        s.left ++ written_by (write_call d) q.0 ≡ read_by q.0 ++ q.1.left
  write_balance true d s = append-nil s.left
  write_balance false d s = refl

  close_balance :
      (ended : Bool) (s t : Promise E F)
      → t.left ≡ s.left
      → s.left ++ [] ≡ (if ended then s else t).left
  close_balance true s t e = append-nil s.left
  close_balance false s t e = append-nil s.left ∙ sym e

  promise_balance :
      (c : Call E F) (s : Promise E F)
      → s.left ++ written_by c (promise E F c s).0
        ≡ read_by (promise E F c s).0 ++ (promise E F c s).1.left
  promise_balance (read_call k) s = append-nil s.left ∙ read_promise_balance k s.broken s
  promise_balance (write_call d) s = write_balance (over E F s) d s
  promise_balance (close_call e) s =
      close_balance (is_some s.closed) s (record s { closed = some e; code = none }) refl
  promise_balance (close_code_call e f) s =
      close_balance (is_some s.closed) s (record s { closed = some e; code = some f }) refl
  promise_balance (break_call e) s =
      close_balance (is_some s.broken) s (record s { broken = some e; code = none }) refl
  promise_balance len_call s = append-nil s.left
  promise_balance err_call s = append-nil s.left
  promise_balance done_call s = append-nil s.left

  abbrev promise_after : List (Call E F) → Promise E F → Promise E F
  promise_after [] s = s
  promise_after (c ∷ cs) s = promise_after cs (promise E F c s).1

  promised_balance :
      (cs : List (Call E F)) (s : Promise E F)
      → s.left ++ written cs (promised lib E F cs s)
        ≡ received (promised lib E F cs s) ++ (promise_after cs s).left
  promised_balance [] s = append-nil s.left
  promised_balance (c ∷ cs) s =
      let (o, t) = promise E F c s in
      sym (append_assoc s.left (written_by c o) (written cs (promised lib E F cs t)))
      ∙ ap (λ x. x ++ written cs (promised lib E F cs t)) (promise_balance c s)
      ∙ append_assoc (read_by o) t.left (written cs (promised lib E F cs t))
      ∙ ap (λ x. read_by o ++ x) (promised_balance cs t)
      ∙ sym (append_assoc (read_by o) (received (promised lib E F cs t)) (promise_after cs t).left)

  after-Holds :
      (cs : List (Call E F)) (p : Pipe lib E F) (s : Promise E F)
      → Holds lib E F p s
      → Holds lib E F (after cs p) (promise_after cs s)
  after-Holds [] p s h = h
  after-Holds (c ∷ cs) p s h =
      after-Holds cs (step lib E F c p).1 (promise E F c s).1 (step-Simulates lib E F c p s h).1

  pub written-received :
      (b : Buffer) (cs : List (Call E F))
      → IsGood b
      → buffered b ≡ []
      → let p = set_buffer lib E F b (new_pipe lib E F) in
        let os = outcomes lib E F cs p in
        (rest : Bytes) × (written cs os ≡ received os ++ rest)
        × (len lib E F (after cs p) ≡ length rest)
  unfolding set_buffer
  written-received b cs good empty =
      let p = set_buffer lib E F b (new_pipe lib E F) in
      let s = new_promise E F in
      let h = set_buffer-Holds lib E F b good empty in
      let same = outcomes_lem lib E F cs p s h in
      let s' = promise_after cs s in
      (
        s'.left,
        subst (λ os. written cs os ≡ received os ++ s'.left) (sym same) (promised_balance cs s),
        len_of lib E F (after cs p) s' (after-Holds cs p s h),
      )
