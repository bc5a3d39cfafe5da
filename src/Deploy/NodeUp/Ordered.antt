-- ===== src/Deploy/NodeUp/Ordered.antt =====
-- A new node gets its configuration before it gets traffic.
use edge_caddy.Prelude.{
  Bool, true, false, String, List, [], ◌∷◌, ◌++◌, ◌≡◌, refl, ap, ◌⊎◌, inl, inr, str_eq, eq_iff,
  if◌then◌else◌, Bool-cases,
}
use edge_caddy.Deploy.Merge.{Outcome, ok, err, panic}
use edge_caddy.Deploy.Effective.{Tables, Config, effective}
use edge_caddy.Deploy.Retry.{PushOutcome, applied, refused, unreachable}
use edge_caddy.Deploy.NodeUp.{
  World, Action, sent, attach_called, RepushResult, repushed, repush_failed, answered,
  render_and_push, push_baseline, repush_node, then_attach, node_up,
}

-- `DNS.Attach` is called.
abbrev pub calls_attach : List Action → Bool
calls_attach [] = false
calls_attach (sent v c o ∷ rest) = calls_attach rest
calls_attach (attach_called o ∷ rest) = true

-- There is nothing to push, or the first thing done is that the live configuration is pushed under
-- the version of the baseline, and is applied.
abbrev pub IsReady : World → Tables → List Action → Type 0
IsReady w t actions =
    (t.baseline ≡ "")
    ⊎ ((c : Config) × (rest : List Action) × (effective w.parses [] t ≡ ok c)
        × (actions ≡ sent t.baseline c applied ∷ rest))

by_render :
    (w : World) (t : Tables) (c : Config) (issues : List String)
    → effective w.parses [] t ≡ ok c
    → calls_attach (
        (render_and_push w t.baseline c issues).0
        ++ then_attach w (render_and_push w t.baseline c issues).1)
      ≡ true
    → IsReady w t (
        (render_and_push w t.baseline c issues).0
        ++ then_attach w (render_and_push w t.baseline c issues).1)
unfolding then_attach answered
by_render w t c (x ∷ xs) live h = cc
by_render w t c [] live h = by_answer w.push refl h
  where
    by_answer :
        (o : PushOutcome)
        → w.push ≡ o
        → calls_attach (sent t.baseline c o ∷ then_attach w (answered o)) ≡ true
        → IsReady w t (sent t.baseline c w.push ∷ then_attach w (answered w.push))
    by_answer applied e h = inr (
      c,
      then_attach w repushed,
      live,
      ap (λ o. sent t.baseline c o ∷ then_attach w (answered o)) e,
    )
    by_answer refused e h = cc
    by_answer unreachable e h = cc

by_config :
    (w : World) (t : Tables) (o : Outcome Config)
    → effective w.parses [] t ≡ o
    → calls_attach
        ((push_baseline w t.baseline o).0 ++ then_attach w (push_baseline w t.baseline o).1)
      ≡ true
    → IsReady w t
        ((push_baseline w t.baseline o).0 ++ then_attach w (push_baseline w t.baseline o).1)
unfolding then_attach
by_config w t (ok c) e h = by_certs w.certs_read h
  where
    outcome : Bool → List Action × RepushResult
    outcome read = if read then render_and_push w t.baseline c (w.issues c) else ([], repush_failed)

    by_certs :
        (read : Bool)
        → calls_attach ((outcome read).0 ++ then_attach w (outcome read).1) ≡ true
        → IsReady w t ((outcome read).0 ++ then_attach w (outcome read).1)
    by_certs true h = by_render w t c (w.issues c) e h
    by_certs false h = cc
by_config w t err e h = cc
by_config w t panic e h = cc

-- If a node that comes up is added to the resolution, then there is no baseline, or the live
-- configuration, under the version of the baseline, was pushed to the node first and applied.
pub attach-IsReady :
    (w : World) (t : Tables) (fresh : Bool)
    → calls_attach (node_up w t fresh) ≡ true
    → IsReady w t (node_up w t fresh)
unfolding node_up repush_node then_attach
attach-IsReady w t false h = cc
attach-IsReady w t true h = elim (Bool-cases w.baseline_read) [
  | inr unread ↦ cc (rw unread at h)
  | inl there ↦ elim (Bool-cases (str_eq t.baseline "")) [
    | inl nothing ↦ inl ((eq_iff t.baseline "").0 nothing)
    | inr some_baseline ↦ rw there (
        rw some_baseline
          (by_config w t (effective w.parses [] t) refl (rw (there, some_baseline) at h)))
  ]
]
