-- ===== src/Alert/Samples.antt =====
-- Deliveries of alerts.
use edge_caddy.Prelude.{ℕ, zero, suc, ◌≤◌, false, none, [], ◌∷◌, ◌≡◌, refl}
use edge_caddy.Alert.{
  Attempt, no_answer, answered, Settings, post_with_retry, is_delivered, backoff_base,
}
use edge_caddy.Alert.Retrying.{arrives_within, post_with_retry-exact}

-- The receiver is not there, then overloaded, then takes the alert.
abbrev slow : ℕ → Attempt
slow zero = no_answer
slow (suc zero) = answered 503
slow _ = answered 200

abbrev lost : ℕ → Attempt
lost i = answered 404

abbrev sample_settings : Settings
sample_settings = record {
  notify_level = "warn";
  webhook_url = "https://hook";
  lark_webhook = "https://lark";
}

slow_delivery :
    post_with_retry 0 slow (λ i. false) 3
    ≡ record { error = none; posts = 3; waits = 1000000000 ∷ 2000000000 ∷ [] }
unfolding post_with_retry
slow_delivery = refl

lost_posts : (post_with_retry 0 lost (λ i. false) 3).posts ≡ 1
unfolding post_with_retry
lost_posts = refl

post_with_retry-exact_example :
    (is_delivered (post_with_retry 0 slow (λ i. false) 3)
      ≡ arrives_within (backoff_base 0) slow (λ i. false) 3 0)
    × ((post_with_retry 0 slow (λ i. false) 3).posts ≤ 3)
post_with_retry-exact_example = post_with_retry-exact 0 slow (λ i. false) 2
