-- ===== src/Agent/LogBuffer/Received.antt =====
-- What reaches the master, in order and with repetitions.
use edge_caddy.Prelude.{
  ℕ, Bool, true, false, ◌+◌, ◌*◌, ◌≤◌, ◌≡◌, Option, none, some, List, [], ◌∷◌, arith, length,
  length-append,
}
use edge_caddy.Agent.LogBuffer.{
  log_batch_max, take, Agent, Event, logged, flush, send_done, send_failed, start, step, run,
  reached,
}
use edge_caddy.Agent.LogBuffer.Order.{
  Subseq, done, keep, skip, Subseq-trans, Subseq-prefix, batch_of, logged_lines, take_lem, idle,
  agent, known-run,
}

module _ {A : Type 0} where
  Subseq-length : {xs ys : List A} → Subseq xs ys → length xs ≤ length ys
  Subseq-length done = omega arith
  Subseq-length (keep h) = omega (arith, Subseq-length h)
  Subseq-length (skip h) = omega (arith, Subseq-length h)

  -- How many sends failed although the batch reached the master.
  abbrev pub false_failures : List (Event A) → ℕ
  false_failures [] = 0
  false_failures (send_failed true ∷ es) = false_failures es + 1
  false_failures (_ ∷ es) = false_failures es

  -- `n` sends failed falsely until now.
  abbrev AreFew : ℕ → Agent A → Type 0
  AreFew n s =
      (length s.received ≤ length s.sent + log_batch_max * n)
      × (length (batch_of s.in_flight) ≤ log_batch_max)

  length-reached :
      (arrived : Bool) (b got : List A) → length (reached arrived b got) ≤ length got + length b
  length-reached true b got = omega (arith, length-append got b)
  length-reached false b got = omega arith

  start-AreFew :
      (n : ℕ) (got sent lines b rest : List A)
      → length got ≤ length sent + log_batch_max * n
      → length b ≤ log_batch_max
      → AreFew n (start (b, rest) (agent got sent none lines))
  unfolding start
  start-AreFew n got sent lines [] rest h small = (h, omega arith)
  start-AreFew n got sent lines (x ∷ b) rest h small = (h, small)

  step-AreFew :
      (n : ℕ) (got sent lines : List A) (fl : Option (List A)) (e : Event A)
      → AreFew n (agent got sent fl lines)
      → AreFew (n + false_failures (e ∷ [])) (step (agent got sent fl lines) e)
  unfolding step
  step-AreFew n got sent lines fl (logged l) (h, small) = (omega arith, small)
  step-AreFew n got sent lines none flush (h, small) =
      start-AreFew (n + 0) got sent lines (take lines).0 (take lines).1 (omega arith)
        (take_lem lines).1
  step-AreFew n got sent lines (some b) flush (h, small) = (omega arith, small)
  step-AreFew n got sent lines none (send_done arrived) (h, small) = (omega arith, small)
  step-AreFew n got sent lines (some b) (send_done arrived) (h, small) =
      (omega (arith, length-reached arrived b got, length-append sent b), omega arith)
  step-AreFew n got sent lines none (send_failed true) (h, small) = (omega arith, small)
  step-AreFew n got sent lines none (send_failed false) (h, small) = (omega arith, small)
  step-AreFew n got sent lines (some b) (send_failed true) (h, small) =
      (omega (arith, length-append got b), omega arith)
  step-AreFew n got sent lines (some b) (send_failed false) (h, small) = (omega arith, omega arith)

  false_failures-cons :
      (e : Event A) (es : List (Event A))
      → false_failures (e ∷ es) ≡ false_failures (e ∷ []) + false_failures es
  false_failures-cons (logged l) es = omega arith
  false_failures-cons flush es = omega arith
  false_failures-cons (send_done arrived) es = omega arith
  false_failures-cons (send_failed true) es = omega arith
  false_failures-cons (send_failed false) es = omega arith

  run-AreFew :
      (n : ℕ) (s : Agent A) (es : List (Event A))
      → AreFew n s
      → AreFew (n + false_failures es) (run s es)
  unfolding run
  run-AreFew n s [] (h, small) = (omega arith, small)
  run-AreFew n s (e ∷ es) few =
      let later =
        run-AreFew (n + false_failures (e ∷ [])) (step s e) es
          (step-AreFew n s.received s.sent s.lines s.in_flight e few) in
      (omega (arith, later.0, false_failures-cons e es), later.1)

  -- From an agent that has logged nothing yet, whatever is logged and however the sends end, the lines
  -- whose sends succeeded are the logged lines, some left out: none is accepted twice or out of order.
  -- A failed send may have reached the master all the same, and is repeated: what the master receives
  -- is at most 100 lines more than was logged for each send that failed in this way.
  pub sent_in_order :
      (es : List (Event A))
      → Subseq (run idle es).sent (logged_lines es)
        × (length (run idle es).received
            ≤ length (logged_lines es) + log_batch_max * false_failures es)
  sent_in_order es =
      let ordered : Subseq (run idle es).sent (logged_lines es) =
        Subseq-trans (known-run idle es) (Subseq-prefix _ _) in
      let few = run-AreFew 0 idle es (omega arith, omega arith) in
      (ordered, omega (arith, Subseq-length ordered, few.0))
