-- ===== src/Deploy/Pipeline/Counts.antt =====
-- The numbers and the retries that a deployment reports, against the results that it records.
use edge_caddy.Prelude.{
  ℕ, suc, ◌+◌, ◌<◌, true, false, String, some, List, [], ◌∷◌, ◌≡◌, refl, ap, ◌∙◌, sym, ltb,
  if◌then◌else◌, Bool-cases, inl, inr, arith, length,
}
use edge_caddy.Prelude.Assoc.{Assoc}
use edge_caddy.Deploy.Keys.{ResKey}
use edge_caddy.Deploy.Effective.{Tables, Config}
use edge_caddy.Deploy.Retry.{PushOutcome, applied, refused, unreachable, DeployResult}
use edge_caddy.Deploy.Pipeline.{
  World, Checked, refuses, admits, checked, first_result, first_round, Tally, tally, count,
  EventKind, Ending, refused_with, finished, settle, after_check, deploy,
}

-- The results that say that their node has the configuration, and those that say it has not.
abbrev pub number_ok : List DeployResult → ℕ
number_ok [] = 0
number_ok (r ∷ rs) = if r.is_ok then number_ok rs + 1 else number_ok rs

abbrev pub number_failed : List DeployResult → ℕ
number_failed [] = 0
number_failed (r ∷ rs) = if r.is_ok then number_failed rs else number_failed rs + 1

-- The nodes whose result says that the push is being retried.
abbrev pub retrying_nodes : List DeployResult → List String
retrying_nodes [] = []
retrying_nodes (r ∷ rs) = if r.retrying then r.node ∷ retrying_nodes rs else retrying_nodes rs

record Agrees (y : Tally) (rs : List DeployResult) : Type 0 where
  ok_agrees : y.ok_count ≡ number_ok rs
  fail_agrees : y.fail_count ≡ number_failed rs
  retry_agrees : y.need_retry ≡ retrying_nodes rs

tally-Agrees :
    (version : String) (push : String → PushOutcome) (before : Assoc String) (nodes : List String)
    → Agrees (tally version push before nodes) (first_round push nodes)
unfolding tally first_round count first_result
tally-Agrees version push before [] = record {
  ok_agrees = refl;
  fail_agrees = refl;
  retry_agrees = refl;
}
tally-Agrees version push before (node ∷ rest) =
    one (push node) (tally-Agrees version push before rest)
  where
    one :
        (out : PushOutcome) {y : Tally} {rs : List DeployResult}
        → Agrees y rs
        → Agrees (count version node out y) (first_result node out ∷ rs)
    one applied h = record {
      ok_agrees = ap (λ n. n + 1) h.ok_agrees;
      fail_agrees = h.fail_agrees;
      retry_agrees = h.retry_agrees;
    }
    one refused h = record {
      ok_agrees = h.ok_agrees;
      fail_agrees = ap (λ n. n + 1) h.fail_agrees;
      retry_agrees = h.retry_agrees;
    }
    one unreachable h = record {
      ok_agrees = h.ok_agrees;
      fail_agrees = ap (λ n. n + 1) h.fail_agrees;
      retry_agrees = ap (λ ns. node ∷ ns) h.retry_agrees;
    }

abbrev IsFinished : Ending → ℕ → ℕ → Type 0
IsFinished (refused_with why) o f = ⊥
IsFinished (finished o' f' kind) o f = (o' ≡ o) × (f' ≡ f)

settle-counts :
    (w : World) (keys : List ResKey) (c : Config) (t : Tables) (rs : List DeployResult) (y : Tally)
    → IsFinished (settle w keys c t rs y).ending y.ok_count y.fail_count
      × ((settle w keys c t rs y).results ≡ rs)
unfolding settle
settle-counts w keys c t rs y = elim (Bool-cases (ltb 0 y.ok_count)) [
  | inr none_ok ↦ rw none_ok ((refl, refl), refl)
  | inl some_ok ↦ elim (Bool-cases w.commits) [
    | inl fine ↦ rw some_ok (rw fine ((refl, refl), refl))
    | inr failed ↦ rw some_ok (rw failed ((refl, refl), refl))
  ]
]

finished_counts :
    (e : Ending) (o f a b : ℕ) (kind : EventKind)
    → IsFinished e a b
    → e ≡ finished o f kind
    → (o ≡ a) × (f ≡ b)
finished_counts (refused_with why) o f a b kind h g = elim h [ ]
finished_counts (finished o' f' kind') o f a b kind (ho, hf) g = (cc (ho, g), cc (hf, g))

all_counted :
    (push : String → PushOutcome) (nodes : List String)
    → number_ok (first_round push nodes) + number_failed (first_round push nodes) ≡ length nodes
unfolding first_round first_result
all_counted push [] = refl
all_counted push (node ∷ rest) = one (push node) (first_round push rest) (all_counted push rest)
  where
    one :
        (out : PushOutcome) (rs : List DeployResult) {n : ℕ}
        → number_ok rs + number_failed rs ≡ n
        → number_ok (first_result node out ∷ rs) + number_failed (first_result node out ∷ rs)
          ≡ suc n
    one applied rs h = omega arith
    one refused rs h = omega arith
    one unreachable rs h = omega arith

-- A deployment that ends well reports as successes and failures the numbers of the results that say
-- so, and they cover the nodes that were online.
pub counts_match :
    (w : World) (keys : List ResKey) (t : Tables) (versions : Assoc String) (o f : ℕ)
    (kind : EventKind)
    → (deploy w keys t versions).ending ≡ finished o f kind
    → (o ≡ number_ok (deploy w keys t versions).results)
      × (f ≡ number_failed (deploy w keys t versions).results)
      × (o + f ≡ length w.online)
unfolding deploy after_check
counts_match w keys t versions o f kind = by_check (checked w keys t)
  where
    by_check :
        (k : Checked)
        → (after_check w keys t versions k).ending ≡ finished o f kind
        → (o ≡ number_ok (after_check w keys t versions k).results)
          × (f ≡ number_failed (after_check w keys t versions k).results)
          × (o + f ≡ length w.online)
    by_check (refuses why) h = cc
    by_check (admits c) h =
        let rs = first_round w.push w.online in
        let y = tally w.version w.push versions w.online in
        let (numbers, same) = settle-counts w keys c t rs y in
        let agrees = tally-Agrees w.version w.push versions w.online in
        let (ho, hf) = finished_counts _ o f y.ok_count y.fail_count kind numbers h in
        (
          ho ∙ agrees.ok_agrees ∙ ap number_ok (sym same),
          hf ∙ agrees.fail_agrees ∙ ap number_failed (sym same),
          omega
              (arith, ho ∙ agrees.ok_agrees, hf ∙ agrees.fail_agrees, all_counted w.push w.online),
        )

settle-retries :
    (w : World) (keys : List ResKey) (c : Config) (t : Tables) (rs : List DeployResult) (y : Tally)
    → w.commits ≡ true
    → (settle w keys c t rs y).retries ≡ some y.need_retry
unfolding settle
settle-retries w keys c t rs y fine = elim (Bool-cases (ltb 0 y.ok_count)) [
  | inr none_ok ↦ rw none_ok refl
  | inl some_ok ↦ rw some_ok (rw fine refl)
]

-- Where the commit does not fail, a deployment that ends well hands to the background retry exactly
-- the nodes whose result says that the push is being retried.
pub retries_match :
    (w : World) (keys : List ResKey) (t : Tables) (versions : Assoc String) (o f : ℕ)
    (kind : EventKind)
    → w.commits ≡ true
    → (deploy w keys t versions).ending ≡ finished o f kind
    → (deploy w keys t versions).retries ≡ some (retrying_nodes (deploy w keys t versions).results)
unfolding deploy after_check
retries_match w keys t versions o f kind fine = by_check (checked w keys t)
  where
    by_check :
        (k : Checked)
        → (after_check w keys t versions k).ending ≡ finished o f kind
        → (after_check w keys t versions k).retries
          ≡ some (retrying_nodes (after_check w keys t versions k).results)
    by_check (refuses why) h = cc
    by_check (admits c) h =
        let rs = first_round w.push w.online in
        let y = tally w.version w.push versions w.online in
        settle-retries w keys c t rs y fine
        ∙ ap some (
            (tally-Agrees w.version w.push versions w.online).retry_agrees
            ∙ ap retrying_nodes (sym (settle-counts w keys c t rs y).1))

-- Where the commit fails and at least one node has applied the configuration, nothing is handed to
-- the background retry, and the results that say that a push is being retried are those of all the
-- online nodes that could not be reached.
pub lost_retries :
    (w : World) (keys : List ResKey) (t : Tables) (versions : Assoc String) (o f : ℕ)
    (kind : EventKind)
    → w.commits ≡ false
    → 0 < o
    → (deploy w keys t versions).ending ≡ finished o f kind
    → ((deploy w keys t versions).retries ≡ some [])
      × (retrying_nodes (deploy w keys t versions).results
          ≡ (tally w.version w.push versions w.online).need_retry)
unfolding deploy after_check settle
lost_retries w keys t versions o f kind failed some_ok = by_check (checked w keys t)
  where
    by_check :
        (k : Checked)
        → (after_check w keys t versions k).ending ≡ finished o f kind
        → ((after_check w keys t versions k).retries ≡ some [])
          × (retrying_nodes (after_check w keys t versions k).results
              ≡ (tally w.version w.push versions w.online).need_retry)
    by_check (refuses why) h = cc
    by_check (admits c) h =
        let rs = first_round w.push w.online in
        let y = tally w.version w.push versions w.online in
        let (numbers, same) = settle-counts w keys c t rs y in
        let (ho, hf) = finished_counts _ o f y.ok_count y.fail_count kind numbers h in
        (
          settle-lost rs y (omega (arith, ho, some_ok)),
          ap retrying_nodes same
              ∙ sym (tally-Agrees w.version w.push versions w.online).retry_agrees,
        )
      where
        settle-lost :
            (rs : List DeployResult) (y : Tally)
            → 0 < y.ok_count
            → (settle w keys c t rs y).retries ≡ some []
        settle-lost rs y h = elim (Bool-cases (ltb 0 y.ok_count)) [
          | inl found ↦ rw found (rw failed refl)
          | inr nothing ↦ ground arith
        ]
