-- ===== src/Alert.antt =====
-- internal/alert/alert.go: which alerts are sent, how a delivery is retried, and what is recorded.
pub mod Retrying
pub mod Recorded
mod Samples
use edge_caddy.Prelude.{
  ℕ, zero, suc, ◌+◌, ◌*◌, Bool, true, false, not, ◌&&◌, ◌||◌, leb, ltb, ◌==◌, String, str_append,
  str_eq, Option, none, some, List, [], ◌∷◌, ◌++◌, if◌then◌else◌,
}

-- The map `rank`; a level that is not there has 0.
unfoldable pub rank : String → ℕ
rank level = if str_eq level "warn" then 1 else if str_eq level "crit" then 2 else 0

-- `levelRank`
unfoldable pub level_rank : String → ℕ
level_rank notify_level =
    if str_eq notify_level "all" then 0 else if str_eq notify_level "crit" then 2 else 1

-- What becomes of one attempt: the request cannot be made, the connection fails, or there is a status.
pub data Attempt : Type 0 where
  bad_request : Attempt
  no_answer : Attempt
  answered : ℕ → Attempt

pub data Failure : Type 0 where
  cancelled : Failure
  failed : Attempt → Failure

-- The error, if there is one; the number of requests that went out; the waits between them.
pub record Delivery : Type 0 where
  pub error : Option Failure
  pub posts : ℕ
  pub waits : List ℕ

abbrev pub is_success : ℕ → Bool
is_success status = leb 200 status && ltb status 300

-- `worthRetrying`
unfoldable pub worth_retrying : ℕ → Bool
worth_retrying status = leb 500 status || status == 429

module _ (base : ℕ) (attempt : ℕ → Attempt) (is_cancelled : ℕ → Bool) where
  abbrev one_more : Option ℕ → Delivery → Delivery
  one_more none d = record d { posts = suc d.posts }
  one_more (some wait) d = record d { posts = suc d.posts; waits = wait ∷ d.waits }

  abbrev waited : Option ℕ → List ℕ
  waited none = []
  waited (some wait) = wait ∷ []

  -- The wait before an attempt: none before the first.
  abbrev pub wait_before : ℕ → Option ℕ
  wait_before zero = none
  wait_before (suc i) = some (suc i * base)

  abbrev pub stops : ℕ → Bool
  stops zero = false
  stops (suc i) = is_cancelled (suc i)

  abbrev pub after_answer : ℕ → Option ℕ → Attempt → Delivery → Delivery
  after_answer i wait bad_request later = record {
    error = some (failed bad_request);
    posts = 0;
    waits = waited wait;
  }
  after_answer i wait no_answer later = one_more wait later
  after_answer i wait (answered status) later =
      if is_success status
      then one_more wait (record { error = none; posts = 0; waits = [] })
      else if worth_retrying status
      then one_more wait later
      else one_more wait (record { error = some (failed (answered status)); posts = 0; waits = [] })

  -- The loop of `postWithRetry`: the attempts that are left, the number of the next one, and the last
  -- error.
  unfoldable pub post_loop : ℕ → ℕ → Option Failure → Delivery
  unfolding worth_retrying
  post_loop zero i last = record { error = last; posts = 0; waits = [] }
  post_loop (suc n) i last =
      let later = post_loop n (suc i) (some (failed (attempt i))) in
      if stops i
      then record { error = some cancelled; posts = 0; waits = [] }
      else after_answer i (wait_before i) (attempt i) later

-- `backoffBase`
unfoldable pub backoff_base : ℕ → ℕ
backoff_base retry_base = if retry_base == 0 then 1000000000 else retry_base

-- `postWithRetry`
unfoldable pub post_with_retry : ℕ → (ℕ → Attempt) → (ℕ → Bool) → ℕ → Delivery
unfolding post_loop backoff_base
post_with_retry retry_base attempt is_cancelled attempts =
    post_loop (backoff_base retry_base) attempt is_cancelled attempts 0 none

pub record Settings : Type 0 where
  pub notify_level : String
  pub webhook_url : String
  pub lark_webhook : String

abbrev pub is_delivered : Delivery → Bool
is_delivered d = elim d.error [ none ↦ true | some f ↦ false ]

-- `overallResult`, over whether each channel succeeded.
unfoldable pub overall_result : List Bool → String
overall_result [] = "ok"
overall_result (ok ∷ oks) = let rest = overall_result oks in if ok then rest else "fail"

-- What a channel adds to the results, if it is configured. `Notify` goes on without cancellation.
abbrev pub channel : String → ℕ → (ℕ → Attempt) → List Bool
channel url retry_base attempt =
    if str_eq url ""
    then []
    else is_delivered (post_with_retry retry_base attempt (λ i. false) 3) ∷ []

-- The results of the channels, in one of the two orders in which they may finish.
unfoldable pub results : Settings → ℕ → (ℕ → Attempt) → (ℕ → Attempt) → Bool → List Bool
unfolding post_with_retry
results cfg retry_base webhook lark lark_first =
    let w = channel cfg.webhook_url retry_base webhook in
    let l = channel cfg.lark_webhook retry_base lark in if lark_first then l ++ w else w ++ l

abbrev pub result_unless_none : List Bool → Option String
result_unless_none [] = none
result_unless_none (ok ∷ oks) = some (overall_result (ok ∷ oks))

-- `Notify`: the result that is recorded for the alert; `none` if nothing is sent.
unfoldable pub notify : Settings → ℕ → String → (ℕ → Attempt) → (ℕ → Attempt) → Bool → Option String
unfolding rank level_rank results overall_result
notify cfg retry_base level webhook lark lark_first =
    if ltb (rank level) (level_rank cfg.notify_level)
    then none
    else result_unless_none (results cfg retry_base webhook lark lark_first)
