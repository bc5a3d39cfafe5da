-- ===== src/Agent/LogBuffer/Order.antt =====
-- What the log buffer promises: the bound, the inverse of `take`, and the order of sending.
use edge_caddy.Prelude.{
  ℕ, zero, suc, ◌+◌, ◌-◌, ◌≤◌, ◌≡◌, refl, sym, ap, Option, none, some, List, [], ◌∷◌, ◌++◌, arith,
  min, ◌∙◌, length, keep_last, length-append, length-keep_last, take-append-drop, length-take,
  length-drop,
}
use mathlib.Core.List.{append_assoc, append-nil}
use edge_caddy.Prelude.Lists
use edge_caddy.Agent.LogBuffer.{
  log_capacity, log_batch_max, add, take, put_back, Agent, Event, logged, flush, send_done,
  send_failed, start, step, run,
}

-- `Subseq xs ys`: `xs` is `ys` with some elements left out; no element moves or is repeated.
pub data Subseq {A : Type 0} : List A → List A → Type 0 where
  done : Subseq [] []
  keep : {x : A} {xs ys : List A} → Subseq xs ys → Subseq (x ∷ xs) (x ∷ ys)
  skip : {y : A} {xs ys : List A} → Subseq xs ys → Subseq xs (y ∷ ys)

module _ {A : Type 0} where
  pub Subseq-refl : (xs : List A) → Subseq xs xs
  Subseq-refl [] = done
  Subseq-refl (x ∷ xs) = keep (Subseq-refl xs)

  pub Subseq-trans : {ys zs xs : List A} → Subseq ys zs → Subseq xs ys → Subseq xs zs
  Subseq-trans done h = h
  Subseq-trans (keep k) (keep h) = keep (Subseq-trans k h)
  Subseq-trans (keep k) (skip h) = skip (Subseq-trans k h)
  Subseq-trans (skip k) h = skip (Subseq-trans k h)

  Subseq-append :
      {xs ys us vs : List A} → Subseq xs ys → Subseq us vs → Subseq (xs ++ us) (ys ++ vs)
  Subseq-append done k = k
  Subseq-append (keep h) k = keep (Subseq-append h k)
  Subseq-append (skip h) k = skip (Subseq-append h k)

  Subseq-drop : (n : ℕ) (xs : List A) → Subseq (Lists.drop n xs) xs
  Subseq-drop zero xs = Subseq-refl xs
  Subseq-drop (suc n) [] = done
  Subseq-drop (suc n) (x ∷ xs) = skip (Subseq-drop n xs)

-- The batch that is under way, or nothing.
abbrev pub batch_of : {A : Type 0} → Option (List A) → List A
batch_of none = []
batch_of (some b) = b

-- The lines that a run of events logs, in order.
abbrev pub logged_lines : {A : Type 0} → List (Event A) → List A
logged_lines [] = []
logged_lines (logged l ∷ es) = l ∷ logged_lines es
logged_lines (_ ∷ es) = logged_lines es

-- Everything that the agent still knows of, in the order of logging.
abbrev pub known : {A : Type 0} → Agent A → List A
known s = s.sent ++ (batch_of s.in_flight ++ s.lines)

module _ {A : Type 0} where
  -- The buffer never holds more than 500 lines.
  abbrev pub IsBounded : Agent A → Type 0
  IsBounded s = length s.lines ≤ log_capacity

  drop_zero_of : (n : ℕ) (xs : List A) → n ≡ 0 → Lists.drop n xs ≡ xs
  drop_zero_of n xs e = rw e refl

  keep_last_all : (n : ℕ) (xs : List A) → length xs ≤ n → keep_last n xs ≡ xs
  keep_last_all n xs h = drop_zero_of (length xs - n) xs (omega arith)

  -- A batch is taken off the front of the buffer and has at most 100 lines: the batch followed by
  -- what stays is the buffer as it was.
  pub take_lem :
      (lines : List A)
      → ((take lines).0 ++ (take lines).1 ≡ lines)
        × (length (take lines).0 ≤ log_batch_max)
        × (length lines ≤ length (take lines).0 + length (take lines).1)
  unfolding take
  take_lem lines =
      let n = min (length lines) log_batch_max in
      (
        take-append-drop n lines,
        omega (arith, length-take n lines),
        omega (arith, length-take n lines, length-drop n lines),
      )

  -- Putting back a batch that was just taken restores a buffer that is within its bound.
  pub put_back-take :
      (lines : List A)
      → length lines ≤ log_capacity
      → put_back (take lines).0 (take lines).1 ≡ lines
  unfolding put_back
  put_back-take lines h = rw (take_lem lines).0 (keep_last_all log_capacity lines h)

  abbrev pub agent : List A → List A → Option (List A) → List A → Agent A
  agent got sent fl lines = record { sent = sent; received = got; in_flight = fl; lines = lines }

  start-IsBounded :
      (b rest : List A) (s : Agent A) → length rest ≤ log_capacity → IsBounded (start (b, rest) s)
  unfolding start
  start-IsBounded [] rest s h = h
  start-IsBounded (l ∷ b) rest s h = h

  fields-IsBounded :
      (got sent lines : List A) (fl : Option (List A)) (e : Event A)
      → length lines ≤ log_capacity
      → IsBounded (step (agent got sent fl lines) e)
  unfolding step add put_back
  fields-IsBounded got sent lines fl (logged l) h =
      omega (arith, length-keep_last log_capacity (lines ++ l ∷ []))
  fields-IsBounded got sent lines none flush h =
      start-IsBounded (take lines).0 (take lines).1 _ (omega (arith, take_rest))
    where
      take_rest : length (take lines).1 ≤ length lines
      take_rest =
          omega (arith, ap length (take_lem lines).0, length-append (take lines).0 (take lines).1)
  fields-IsBounded got sent lines (some b) flush h = h
  fields-IsBounded got sent lines none (send_done arrived) h = h
  fields-IsBounded got sent lines (some b) (send_done arrived) h = h
  fields-IsBounded got sent lines none (send_failed arrived) h = h
  fields-IsBounded got sent lines (some b) (send_failed arrived) h =
      omega (arith, length-keep_last log_capacity (b ++ lines))

  step-IsBounded : (s : Agent A) (e : Event A) → IsBounded s → IsBounded (step s e)
  step-IsBounded s e h = fields-IsBounded s.received s.sent s.lines s.in_flight e h

  -- Whatever is logged and however the sends end, a buffer within 500 lines stays within 500.
  pub run-IsBounded : (s : Agent A) (es : List (Event A)) → IsBounded s → IsBounded (run s es)
  unfolding run
  run-IsBounded s [] h = h
  run-IsBounded s (e ∷ es) h = run-IsBounded (step s e) es (step-IsBounded s e h)

  known-start :
      (got sent b rest lines : List A)
      → known (start (b, rest) (agent got sent none lines)) ≡ sent ++ (b ++ rest)
  unfolding start
  known-start got sent [] rest lines = refl
  known-start got sent (l ∷ b) rest lines = refl

  Subseq-of_eq : {xs ys : List A} → xs ≡ ys → Subseq xs ys
  Subseq-of_eq {xs} e = rw (← e) (Subseq-refl xs)

  Subseq-keep_last : (sent xs : List A) → Subseq (sent ++ keep_last log_capacity xs) (sent ++ xs)
  Subseq-keep_last sent xs = Subseq-append (Subseq-refl sent) (Subseq-drop _ xs)

  known-step :
      (got sent lines : List A) (fl : Option (List A)) (e : Event A)
      → Subseq
          (known (step (agent got sent fl lines) e))
          ((sent ++ (batch_of fl ++ lines)) ++ logged_lines (e ∷ []))
  unfolding step add put_back
  known-step got sent lines fl (logged l) = Subseq-trans (Subseq-of_eq (simp (append_assoc {0}))) (
      Subseq-append (Subseq-refl sent)
        (Subseq-append (Subseq-refl (batch_of fl)) (Subseq-drop _ (lines ++ l ∷ []))))
  known-step got sent lines none flush = Subseq-of_eq (
      known-start got sent (take lines).0 (take lines).1 lines
      ∙ ap (λ r. sent ++ r) (take_lem lines).0
      ∙ sym (append-nil _))
  known-step got sent lines (some b) flush = Subseq-of_eq (sym (append-nil _))
  known-step got sent lines none (send_done arrived) = Subseq-of_eq (sym (append-nil _))
  known-step got sent lines (some b) (send_done arrived) =
      Subseq-of_eq (append_assoc sent b lines ∙ sym (append-nil _))
  known-step got sent lines none (send_failed arrived) = Subseq-of_eq (sym (append-nil _))
  known-step got sent lines (some b) (send_failed arrived) =
      Subseq-trans (Subseq-of_eq (sym (append-nil _))) (Subseq-keep_last sent (b ++ lines))

  logged_lines-cons :
      (e : Event A) (es : List (Event A))
      → logged_lines (e ∷ es) ≡ logged_lines (e ∷ []) ++ logged_lines es
  logged_lines-cons (logged l) es = refl
  logged_lines-cons flush es = refl
  logged_lines-cons (send_done arrived) es = refl
  logged_lines-cons (send_failed arrived) es = refl

  pub known-run :
      (s : Agent A) (es : List (Event A)) → Subseq (known (run s es)) (known s ++ logged_lines es)
  unfolding run
  known-run s [] = Subseq-of_eq (sym (append-nil _))
  known-run s (e ∷ es) =
      Subseq-trans
        (Subseq-trans
          (Subseq-of_eq (
            append_assoc (known s) (logged_lines (e ∷ [])) (logged_lines es)
            ∙ ap (λ r. known s ++ r) (sym (logged_lines-cons e es))))
          (Subseq-append (known-step s.received s.sent s.lines s.in_flight e)
            (Subseq-refl (logged_lines es))))
        (known-run (step s e) es)

  pub Subseq-prefix : (xs ys : List A) → Subseq xs (xs ++ ys)
  Subseq-prefix [] [] = done
  Subseq-prefix [] (y ∷ ys) = skip (Subseq-prefix [] ys)
  Subseq-prefix (x ∷ xs) ys = keep (Subseq-prefix xs ys)

  abbrev pub idle : Agent A
  idle = record { sent = []; received = []; in_flight = none; lines = [] }

  known-step_within :
      (got sent lines : List A) (fl : Option (List A)) (e : Event A)
      → length (batch_of fl ++ lines) + length (logged_lines (e ∷ [])) ≤ log_capacity
      → known (step (agent got sent fl lines) e)
        ≡ (sent ++ (batch_of fl ++ lines)) ++ logged_lines (e ∷ [])
  unfolding step add put_back
  known-step_within got sent lines fl (logged l) h =
      rw
        (keep_last_all log_capacity (lines ++ l ∷ [])
          (omega (arith, length-append lines (l ∷ []), length-append (batch_of fl) lines)))
        (simp (append_assoc {0}))
  known-step_within got sent lines none flush h =
      known-start got sent (take lines).0 (take lines).1 lines
      ∙ ap (λ r. sent ++ r) (take_lem lines).0
      ∙ sym (append-nil _)
  known-step_within got sent lines (some b) flush h = sym (append-nil _)
  known-step_within got sent lines none (send_done arrived) h = sym (append-nil _)
  known-step_within got sent lines (some b) (send_done arrived) h =
      append_assoc sent b lines ∙ sym (append-nil _)
  known-step_within got sent lines none (send_failed arrived) h = sym (append-nil _)
  known-step_within got sent lines (some b) (send_failed arrived) h =
      rw (keep_last_all log_capacity (b ++ lines) (omega arith)) (sym (append-nil _))

  known-run_within :
      (s : Agent A) (es : List (Event A))
      → length (known s) + length (logged_lines es) ≤ log_capacity
      → known (run s es) ≡ known s ++ logged_lines es
  unfolding run
  known-run_within s [] h = sym (append-nil _)
  known-run_within s (e ∷ es) h =
      known-run_within (step s e) es (
        omega (
          arith,
          ap length stepped,
          length-append (known s) (logged_lines (e ∷ [])),
          ap length (logged_lines-cons e es),
          length-append (logged_lines (e ∷ [])) (logged_lines es),
        ))
      ∙ ap (λ r. r ++ logged_lines es) stepped
      ∙ append_assoc (known s) (logged_lines (e ∷ [])) (logged_lines es)
      ∙ ap (λ r. known s ++ r) (sym (logged_lines-cons e es))
    where
      stepped : known (step s e) ≡ known s ++ logged_lines (e ∷ [])
      stepped = known-step_within s.received s.sent s.lines s.in_flight e (
          omega (
            arith,
            length-append s.sent (batch_of s.in_flight ++ s.lines),
            ap length (logged_lines-cons e es),
            length-append (logged_lines (e ∷ [])) (logged_lines es),
          ))

  -- While at most 500 lines have been logged in all, none is lost, whatever sends fail: what was sent,
  -- the batch under way and the buffer are together exactly the logged lines, in order.
  pub nothing_lost :
      (es : List (Event A))
      → length (logged_lines es) ≤ log_capacity
      → known (run idle es) ≡ logged_lines es
  nothing_lost es h = known-run_within (agent [] [] none []) es (omega arith)
