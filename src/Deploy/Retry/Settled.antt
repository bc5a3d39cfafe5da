-- ===== src/Deploy/Retry/Settled.antt =====
-- How a background retry leaves the results of its nodes (retry.go).
use edge_caddy.Prelude.{
  has, ℕ, zero, suc, ◌-◌, Bool, true, false, ◌||◌, ◌&&◌, String, Option, none, some, List, [], ◌∷◌,
  ◌++◌, str_eq, eq_iff, ◌≡◌, refl, ap, ◌∙◌, ◌==◌, if◌then◌else◌, arith, Bool-cases, inl, inr,
}
use edge_caddy.Deploy.Retry.{
  max_attempts, PushOutcome, applied, refused, unreachable, superseded, DeployResult, World, result,
  abandon, record_push, stays, round, is_superseded, run,
}

-- The result that a node is left with: the last one that was recorded of it.
abbrev pub final : String → Option DeployResult → List DeployResult → Option DeployResult
final node before [] = before
final node before (r ∷ rs) = final node (if str_eq r.node node then some r else before) rs

-- The node's last result says that nothing more will happen to it.
abbrev pub IsSettled : Option DeployResult → Type 0
IsSettled none = ⊥
IsSettled (some r) = r.retrying ≡ false

final-append :
    (node : String) (before : Option DeployResult) (xs ys : List DeployResult)
    → final node before (xs ++ ys) ≡ final node (final node before xs) ys
final-append node before [] ys = refl
final-append node before (x ∷ xs) ys =
    final-append node (if str_eq x.node node then some x else before) xs ys

abbrev given_up : String → DeployResult
given_up node = result node false superseded false

-- Giving nodes up leaves a node that was given up as it was.
final-abandon_self :
    (node n : String) (ns : List String)
    → str_eq n node ≡ true
    → final node (some (given_up n)) (abandon ns) ≡ some (given_up node)
unfolding abandon
final-abandon_self node n [] same = ap (λ i. some (given_up i)) ((eq_iff n node).0 same)
final-abandon_self node n (m ∷ ns) same = elim (Bool-cases (str_eq m node)) [
  | inl again ↦ rw (again, final) (final-abandon_self node m ns again)
  | inr other ↦ rw (other, final) (final-abandon_self node n ns same)
]

final-abandon :
    (node : String) (before : Option DeployResult) (ns : List String)
    → has node ns ≡ true
    → final node before (abandon ns) ≡ some (given_up node)
unfolding abandon
final-abandon node before [] h = cc
final-abandon node before (n ∷ ns) h = elim (Bool-cases (str_eq n node)) [
  | inl same ↦ rw (same, final) (final-abandon_self node n ns same)
  | inr other ↦ rw (other, final) (final-abandon node before ns (rw other at h))
]

stopped_round_from :
    (w : World) (attempt : ℕ) (last : Bool) (all pending : List String) (node : String)
    (before : Option DeployResult)
    → (round w attempt last all pending).2 ≡ true
    → has node all ≡ true
    → final node before (round w attempt last all pending).0 ≡ some (given_up node)
unfolding round
stopped_round_from w attempt last all [] node before h there = cc
stopped_round_from w attempt last all (n ∷ ns) node before h there =
    elim (Bool-cases (w.stopped_at attempt n)) [
      | inl stop ↦ rw stop (final-abandon node before all there)
      | inr go ↦ rw go (stopped_round_from w attempt last all ns node _ (rw go at h) there)
    ]

-- A round that is stopped leaves every node of the attempt as a failure that was given up, also those
-- to which the configuration was pushed, and which applied it, earlier in the same round.
pub stopped_round :
    (w : World) (attempt : ℕ) (last : Bool) (all pending : List String) (node : String)
    → (round w attempt last all pending).2 ≡ true
    → has node all ≡ true
    → final node none (round w attempt last all pending).0 ≡ some (given_up node)
stopped_round w attempt last all pending node h there =
    stopped_round_from w attempt last all pending node none h there

-- The number of the attempt and whether it is the last, with `left` attempts to come.
abbrev turn : ℕ → ℕ × Bool
turn left = (max_attempts - left, left == 0)

-- The retry is given up before the attempt.
abbrev gives_up : World → String → ℕ → Bool
gives_up w version left =
    w.stopped_waiting (max_attempts - left)
    || is_superseded version (w.baseline (max_attempts - left))

-- A round that goes through.
still_of :
    (w : World) (attempt : ℕ) (last : Bool) (all pending : List String) (node : String)
    → (round w attempt last all pending).2 ≡ false
    → has node (round w attempt last all pending).1
      ≡ (has node pending && stays last (w.push attempt node))
unfolding round
still_of w attempt last all [] node h = refl
still_of w attempt last all (n ∷ ns) node h = elim (Bool-cases (w.stopped_at attempt n)) [
  | inl stop ↦ cc (rw stop at h)
  | inr go ↦ rw go (ground (arith, eq_iff n node, still_of w attempt last all ns node (rw go at h)))
]

node-record_push :
    (last : Bool) (node : String) (out : PushOutcome) → (record_push last node out).node ≡ node
unfolding record_push
node-record_push last node applied = refl
node-record_push last node refused = refl
node-record_push last node unreachable = refl

final_of_round :
    (w : World) (attempt : ℕ) (last : Bool) (all pending : List String) (node : String)
    (before : Option DeployResult)
    → (round w attempt last all pending).2 ≡ false
    → final node before (round w attempt last all pending).0
      ≡ (if has node pending then some (record_push last node (w.push attempt node)) else before)
unfolding round
final_of_round w attempt last all [] node before h = refl
final_of_round w attempt last all (n ∷ ns) node before h =
    elim (Bool-cases (w.stopped_at attempt n)) [
      | inl stop ↦ cc (rw stop at h)
      | inr go ↦ rw go (
          final_of_round w attempt last all ns node _ (rw go at h)
          ∙ ground (arith, eq_iff n node, node-record_push last n (w.push attempt n)))
    ]

record_push-IsSettled :
    (last : Bool) (node : String) (out : PushOutcome)
    → stays last out ≡ false
    → IsSettled (some (record_push last node out))
unfolding record_push
record_push-IsSettled last node applied h = refl
record_push-IsSettled last node refused h = refl
record_push-IsSettled last node unreachable h = h

abandon_others :
    (node : String) (before : Option DeployResult) (ns : List String)
    → has node ns ≡ false
    → final node before (abandon ns) ≡ before
unfolding abandon
abandon_others node before [] h = refl
abandon_others node before (n ∷ ns) h = elim (Bool-cases (str_eq n node)) [
  | inl same ↦ cc (rw same at h)
  | inr other ↦ rw (other, final) (abandon_others node before ns (rw other at h))
]

round_others :
    (w : World) (attempt : ℕ) (last : Bool) (all pending : List String) (node : String)
    (before : Option DeployResult)
    → has node all ≡ false
    → has node pending ≡ false
    → final node before (round w attempt last all pending).0 ≡ before
unfolding round
round_others w attempt last all [] node before h k = refl
round_others w attempt last all (n ∷ ns) node before h k =
    elim (Bool-cases (w.stopped_at attempt n)) [
      | inl stop ↦ rw stop (abandon_others node before all h)
      | inr go ↦ rw go (
          round_others w attempt last all ns node _ h (ground arith)
          ∙ ground (arith, node-record_push last n (w.push attempt n)))
    ]

-- The end of a turn of `run`, by its three tests.
outcome_of :
    (P : List DeployResult → Type 0) (given stopped : Bool)
    (abandoned results later : List DeployResult)
    → (given ≡ true → P abandoned)
    → (stopped ≡ true → P results)
    → (stopped ≡ false → P (results ++ later))
    → P (if given then abandoned else if stopped then results else results ++ later)
outcome_of P true stopped abandoned results later a b c = a refl
outcome_of P false true abandoned results later a b c = b refl
outcome_of P false false abandoned results later a b c = c refl

-- What `run` records is about the pending nodes only.
run_others :
    (w : World) (version : String) (left : ℕ) (pending : List String) (node : String)
    (before : Option DeployResult)
    → has node pending ≡ false
    → final node before (run w version left pending) ≡ before
unfolding run
run_others w version zero pending node before h = refl
run_others w version (suc left) [] node before h = refl
run_others w version (suc left) (n ∷ ns) node before h =
    let (attempt, last) = turn left in
    let r = round w attempt last (n ∷ ns) (n ∷ ns) in
    let later : (b : Option DeployResult)
        → has node r.1 ≡ false
        → final node b (run w version left r.1) ≡ b =
      λ b k. run_others w version left r.1 node b k in
    outcome_of (λ rs. final node before rs ≡ before) (gives_up w version left) r.2
      (abandon (n ∷ ns)) r.0 (run w version left r.1) (λ _. abandon_others node before (n ∷ ns) h)
      (λ _. round_others w attempt last (n ∷ ns) (n ∷ ns) node before h h)
      (λ through.
        final-append node before r.0 (run w version left r.1)
        ∙ later (final node before r.0)
            (still_of w attempt last (n ∷ ns) (n ∷ ns) node through ∙ rw h refl)
        ∙ round_others w attempt last (n ∷ ns) (n ∷ ns) node before h h)

stays_last : (out : PushOutcome) → stays true out ≡ false
stays_last applied = refl
stays_last refused = refl
stays_last unreachable = refl

-- A node after a round that went through, with what `later` records.
IsSettled-after :
    (w : World) (attempt : ℕ) (last : Bool) (pending : List String) (node : String)
    (before : Option DeployResult) (later : List DeployResult)
    → has node pending ≡ true
    → (round w attempt last pending pending).2 ≡ false
    → ((b : Option DeployResult)
        → has node (round w attempt last pending pending).1 ≡ true
        → IsSettled (final node b later))
    → ((b : Option DeployResult)
        → has node (round w attempt last pending pending).1 ≡ false
        → final node b later ≡ b)
    → IsSettled (final node before ((round w attempt last pending pending).0 ++ later))
IsSettled-after w attempt last pending node before later there through again others =
    let r = round w attempt last pending pending in
    rw (final-append node before r.0 later) (elim (Bool-cases (has node r.1)) [
      | inl still ↦ again _ still
      | inr gone ↦ rw (others (final node before r.0) gone) (
          rw (final_of_round w attempt last pending pending node before through, there)
            (record_push-IsSettled last node (w.push attempt node)
              (ground (arith, still_of w attempt last pending pending node through))))
    ])

IsSettled-turn :
    (w : World) (version : String) (left : ℕ) (n : String) (ns : List String) (node : String)
    (before : Option DeployResult)
    → has node (n ∷ ns) ≡ true
    → ((b : Option DeployResult)
        → (round w (turn left).0 (turn left).1 (n ∷ ns) (n ∷ ns)).2 ≡ false
        → has node (round w (turn left).0 (turn left).1 (n ∷ ns) (n ∷ ns)).1 ≡ true
        → IsSettled (
            final node b
              (run w version left (round w (turn left).0 (turn left).1 (n ∷ ns) (n ∷ ns)).1)))
    → IsSettled (final node before (run w version (suc left) (n ∷ ns)))
unfolding run
IsSettled-turn w version left n ns node before there again =
    let (attempt, last) = turn left in
    let r = round w attempt last (n ∷ ns) (n ∷ ns) in
    outcome_of (λ rs. IsSettled (final node before rs)) (gives_up w version left) r.2
      (abandon (n ∷ ns)) r.0 (run w version left r.1)
      (λ _. rw (final-abandon node before (n ∷ ns) there) refl)
      (λ stop. rw (stopped_round_from w attempt last (n ∷ ns) (n ∷ ns) node before stop there) refl)
      (λ through.
        IsSettled-after w attempt last (n ∷ ns) node before (run w version left r.1) there through
          (λ b still. again b through still) (λ b gone. run_others w version left r.1 node b gone))

IsSettled-from :
    (w : World) (version : String) (left : ℕ) (pending : List String) (node : String)
    (before : Option DeployResult)
    → has node pending ≡ true
    → IsSettled (final node before (run w version (suc left) pending))
IsSettled-from w version left [] node before there = cc
IsSettled-from w version zero (n ∷ ns) node before there =
    IsSettled-turn w version zero n ns node before there
      (λ b through still. absurd (none_left through still))
  where
    none_left :
        (round w 5 true (n ∷ ns) (n ∷ ns)).2 ≡ false
        → has node (round w 5 true (n ∷ ns) (n ∷ ns)).1 ≡ true
        → ⊥
    none_left through still =
        ground (arith, still_of w 5 true (n ∷ ns) (n ∷ ns) node through, stays_last (w.push 5 node))
IsSettled-from w version (suc left) (n ∷ ns) node before there =
    IsSettled-turn w version (suc left) n ns node before there
      (λ b _ still. IsSettled-from w version left _ node b still)

-- Whatever the pushes answer, whenever the retry is cancelled and whatever baselines are read, every
-- node that a retry is started for is left with a result that is not "retrying".
pub run_settles :
    (w : World) (version : String) (nodes : List String) (node : String)
    → has node nodes ≡ true
    → IsSettled (final node none (run w version max_attempts nodes))
run_settles w version nodes node there = IsSettled-from w version 4 nodes node none there
