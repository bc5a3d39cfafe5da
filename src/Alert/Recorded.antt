-- ===== src/Alert/Recorded.antt =====
-- Which alerts are sent, and what is recorded of them.
use edge_caddy.Prelude.{
  ℕ, Bool, true, false, not, ◌&&◌, ◌||◌, ltb, String, str_eq, Option, none, some, List, [], ◌∷◌,
  ◌++◌, ◌≡◌, refl, if◌then◌else◌,
}
use edge_caddy.Alert.{
  Attempt, Settings, rank, level_rank, overall_result, results, notify, is_delivered,
  post_with_retry, result_unless_none,
}

-- The channel is not configured, or one of the attempts to deliver to it succeeds.
abbrev pub is_fine : String → ℕ → (ℕ → Attempt) → Bool
is_fine url retry_base attempt =
    str_eq url "" || is_delivered (post_with_retry retry_base attempt (λ i. false) 3)

abbrev pub expected_result : Bool → Bool → Option String
expected_result false fine = none
expected_result true fine = some (if fine then "ok" else "fail")

-- An alert is sent and recorded exactly when its level is at least the one to be notified of and some
-- channel is configured. It is recorded as "ok" if every channel that is configured was delivered to,
-- in whichever order they finish, and else as "fail".
pub notify-exact :
    (cfg : Settings) (retry_base : ℕ) (level : String) (webhook lark : ℕ → Attempt)
    (lark_first : Bool)
    → notify cfg retry_base level webhook lark lark_first
      ≡ expected_result
          (not (ltb (rank level) (level_rank cfg.notify_level))
            && not (str_eq cfg.webhook_url "" && str_eq cfg.lark_webhook ""))
          (is_fine cfg.webhook_url retry_base webhook && is_fine cfg.lark_webhook retry_base lark)
unfolding notify results overall_result
notify-exact cfg retry_base level webhook lark lark_first =
    cases (ltb (rank level) (level_rank cfg.notify_level)) (str_eq cfg.webhook_url "")
      (str_eq cfg.lark_webhook "")
      (is_delivered (post_with_retry retry_base webhook (λ i. false) 3))
      (is_delivered (post_with_retry retry_base lark (λ i. false) 3)) lark_first
  where
    of : Bool → Bool → List Bool
    of missing ok = if missing then [] else ok ∷ []

    cases :
        (low no_w no_l w l first : Bool)
        → (if low
            then none
            else result_unless_none
                (if first then of no_l l ++ of no_w w else of no_w w ++ of no_l l))
          ≡ expected_result (not low && not (no_w && no_l)) ((no_w || w) && (no_l || l))
    cases true no_w no_l w l first = refl
    cases false true true w l true = refl
    cases false true true w l false = refl
    cases false true false w true true = refl
    cases false true false w true false = refl
    cases false true false w false true = refl
    cases false true false w false false = refl
    cases false false true true l true = refl
    cases false false true true l false = refl
    cases false false true false l true = refl
    cases false false true false l false = refl
    cases false false false true true true = refl
    cases false false false true true false = refl
    cases false false false true false true = refl
    cases false false false true false false = refl
    cases false false false false true true = refl
    cases false false false false true false = refl
    cases false false false false false true = refl
    cases false false false false false false = refl
