-- ===== src/Deploy/Retry.antt =====
-- internal/deploy/retry.go: the background pushes to the nodes that did not answer. The outcomes of the
-- pushes, the cancellation and the baseline that is read are given as functions of the attempt, so that
-- every course of events is one value of `World`.
pub mod Settled
mod Samples
use edge_caddy.Prelude.{
  ℕ, zero, suc, ◌+◌, ◌-◌, ◌*◌, ◌^◌, Bool, true, false, not, ◌||◌, ◌&&◌, String, Option, none, some,
  List, [], ◌∷◌, ◌++◌, map, str_eq, ltb, ◌==◌, if◌then◌else◌,
}

abbrev pub max_attempts : ℕ
max_attempts = 5

abbrev pub second : ℕ
second = 1000000000

abbrev pub max_backoff : ℕ
max_backoff = 30 * second

-- `baseBackoff`: the configured wait, or a second.
unfoldable pub base_backoff : ℕ → ℕ
base_backoff configured = if ltb 0 configured then configured else second

-- The wait before an attempt.
unfoldable pub backoff : ℕ → ℕ → ℕ
unfolding base_backoff
backoff configured attempt =
    let wait = base_backoff configured * 2 ^ (attempt - 1) in
    if ltb max_backoff wait then max_backoff else wait

-- `tunnel.PushOutcome`: `OK`; `Responded` without `OK`; neither.
pub data PushOutcome : Type 0 where
  applied refused unreachable : PushOutcome

-- Where the text of a result comes from.
pub data Detail : Type 0 where
  from_push exhausted superseded : Detail

-- `store.DeployResult`; the state is "ok" or "fail".
pub record DeployResult : Type 0 where
  pub node : String
  pub is_ok : Bool
  pub detail : Detail
  pub retrying : Bool

pub record World : Type 0 where
  -- the context is done while the attempt waits
  pub stopped_waiting : ℕ → Bool
  -- the baseline that is read before the attempt; `none` is an error
  pub baseline : ℕ → Option String
  -- the context is done before the node's turn in the attempt
  pub stopped_at : ℕ → String → Bool
  pub push : ℕ → String → PushOutcome

abbrev pub result : String → Bool → Detail → Bool → DeployResult
result node is_ok detail retrying = record {
  node = node;
  is_ok = is_ok;
  detail = detail;
  retrying = retrying;
}

-- `abandon`
unfoldable pub abandon : List String → List DeployResult
abandon [] = []
abandon (node ∷ rest) = result node false superseded false ∷ abandon rest

-- What is recorded of one push.
unfoldable pub record_push : Bool → String → PushOutcome → DeployResult
record_push last node applied = result node true from_push false
record_push last node refused = result node false from_push false
record_push last node unreachable =
    result node false (if last then exhausted else from_push) (not last)

abbrev pub stays : Bool → PushOutcome → Bool
stays last unreachable = not last
stays last _ = false

-- The inner loop, over what is left of `pending`: the results, the nodes for the next attempt, and
-- whether the loop returned early. `all` is the value of `pending`, which `abandon` is given.
unfoldable pub round :
    World → ℕ → Bool → List String → List String → List DeployResult × List String × Bool
unfolding abandon record_push
round w attempt last all [] = ([], [], false)
round w attempt last all (node ∷ rest) =
    let (results, still, stopped) = round w attempt last all rest in
    let out = w.push attempt node in
    if w.stopped_at attempt node then (abandon all, [], true) else (
      record_push last node out ∷ results,
      (if stays last out then node ∷ still else still),
      stopped,
    )

-- `cur != "" && cur != job.cfgVersion`
abbrev pub is_superseded : String → Option String → Bool
is_superseded version none = false
is_superseded version (some cur) = not (str_eq cur "") && not (str_eq cur version)

abbrev pub is_empty : List String → Bool
is_empty [] = true
is_empty (_ ∷ _) = false

-- `run`, with the number of attempts left; all that it records, in order.
unfoldable pub run : World → String → ℕ → List String → List DeployResult
run w version zero pending = []
run w version (suc left) pending =
    let attempt = max_attempts - left in
    let (results, still, stopped) = round w attempt (left == 0) pending pending in
    let later = run w version left still in
    if is_empty pending
    then []
    else if w.stopped_waiting attempt || is_superseded version (w.baseline attempt)
    then abandon pending
    else if stopped
    then results
    else results ++ later
