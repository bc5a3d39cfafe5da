-- ===== src/Alert/Retrying.antt =====
-- When an alert is delivered, and how often it is sent.
use edge_caddy.Prelude.{
  ℕ, zero, suc, ◌+◌, ◌≤◌, Bool, true, false, not, ◌&&◌, ◌||◌, Option, none, some, [], ◌≡◌, refl,
  ◌∙◌, if◌then◌else◌, Bool-cases, inl, inr, arith,
}
use edge_caddy.Alert.{
  Attempt, bad_request, no_answer, answered, Failure, cancelled, failed, Delivery, is_success,
  worth_retrying, stops, wait_before, after_answer, post_loop, post_with_retry, is_delivered,
  backoff_base,
}

-- The attempt is worth another one.
abbrev pub is_worth : Attempt → Bool
is_worth bad_request = false
is_worth no_answer = true
is_worth (answered status) = not (is_success status) && worth_retrying status

abbrev pub arrived : Attempt → Bool
arrived (answered status) = is_success status
arrived _ = false

module _ (base : ℕ) (attempt : ℕ → Attempt) (is_cancelled : ℕ → Bool) where
  -- One of the next attempts arrives, and those before it are worth another one and not cancelled.
  abbrev pub arrives_within : ℕ → ℕ → Bool
  arrives_within zero i = false
  arrives_within (suc n) i =
      let later = arrives_within n (suc i) in
      not (stops base attempt is_cancelled i)
      && (arrived (attempt i) || (is_worth (attempt i) && later))

  -- One turn of the loop.
  abbrev turn : ℕ → Delivery → Delivery
  turn i later =
      if stops base attempt is_cancelled i
      then record { error = some cancelled; posts = 0; waits = [] }
      else after_answer base attempt is_cancelled i (wait_before base attempt is_cancelled i)
          (attempt i) later

  module _ (i : ℕ) (later : Delivery) where
    abbrev answer : Option ℕ → Attempt → Delivery
    answer wait a = after_answer base attempt is_cancelled i wait a later

    answer_lem :
        (wait : Option ℕ) (a : Attempt)
        → (is_delivered (answer wait a) ≡ arrived a || (is_worth a && is_delivered later))
          × ((answer wait a).posts ≤ 1 + later.posts)
    answer_lem wait bad_request = (refl, omega arith)
    answer_lem none no_answer = (refl, omega arith)
    answer_lem (some w) no_answer = (refl, omega arith)
    answer_lem none (answered status) = elim (Bool-cases (is_success status)) [
      | inl e ↦ rw e (refl, omega arith)
      | inr e ↦ elim (Bool-cases (worth_retrying status)) [
        | inl f ↦ rw (e, f) (refl, omega arith)
        | inr f ↦ rw (e, f) (refl, omega arith)
      ]
    ]
    answer_lem (some w) (answered status) = elim (Bool-cases (is_success status)) [
      | inl e ↦ rw e (refl, omega arith)
      | inr e ↦ elim (Bool-cases (worth_retrying status)) [
        | inl f ↦ rw (e, f) (refl, omega arith)
        | inr f ↦ rw (e, f) (refl, omega arith)
      ]
    ]

    is_delivered-turn :
        is_delivered (turn i later)
        ≡ not (stops base attempt is_cancelled i)
          && (arrived (attempt i) || (is_worth (attempt i) && is_delivered later))
    is_delivered-turn = elim (Bool-cases (stops base attempt is_cancelled i)) [
      | inl e ↦ rw e refl
      | inr e ↦ rw e (answer_lem (wait_before base attempt is_cancelled i) (attempt i)).0
    ]

    posts-turn : (turn i later).posts ≤ 1 + later.posts
    posts-turn = elim (Bool-cases (stops base attempt is_cancelled i)) [
      | inl e ↦ rw e (omega arith)
      | inr e ↦ rw e (answer_lem (wait_before base attempt is_cancelled i) (attempt i)).1
    ]

  is_delivered-post_loop :
      (n i : ℕ) (last : Failure)
      → is_delivered (post_loop base attempt is_cancelled n i (some last)) ≡ arrives_within n i
  unfolding post_loop
  is_delivered-post_loop zero i last = refl
  is_delivered-post_loop (suc n) i last =
      is_delivered-turn i
        (post_loop base attempt is_cancelled n (suc i) (some (failed (attempt i))))
      ∙ rw (is_delivered-post_loop n (suc i) (failed (attempt i))) refl

  posts-post_loop :
      (n i : ℕ) (last : Option Failure) → (post_loop base attempt is_cancelled n i last).posts ≤ n
  unfolding post_loop
  posts-post_loop zero i last = omega arith
  posts-post_loop (suc n) i last = omega (
    arith,
    posts-turn i (post_loop base attempt is_cancelled n (suc i) (some (failed (attempt i)))),
    posts-post_loop n (suc i) (some (failed (attempt i))),
  )

-- With at least one attempt, a delivery reports no error exactly when one of its attempts arrives (a
-- status from 200 to 299) and every earlier one was worth another (no answer, or a status of 429 or
-- from 500 on) and not cancelled; and it sends at most as many requests as it has attempts.
pub post_with_retry-exact :
    (retry_base : ℕ) (attempt : ℕ → Attempt) (is_cancelled : ℕ → Bool) (n : ℕ)
    → (is_delivered (post_with_retry retry_base attempt is_cancelled (suc n))
        ≡ arrives_within (backoff_base retry_base) attempt is_cancelled (suc n) 0)
      × ((post_with_retry retry_base attempt is_cancelled (suc n)).posts ≤ suc n)
unfolding post_with_retry post_loop
post_with_retry-exact retry_base attempt is_cancelled n =
    let base = backoff_base retry_base in
    let later = post_loop base attempt is_cancelled n 1 (some (failed (attempt 0))) in
    (
      is_delivered-turn base attempt is_cancelled 0 later
          ∙ rw (is_delivered-post_loop base attempt is_cancelled n 1 (failed (attempt 0))) refl,
      posts-post_loop base attempt is_cancelled (suc n) 0 none,
    )
