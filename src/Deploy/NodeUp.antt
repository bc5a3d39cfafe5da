-- ===== src/Deploy/NodeUp.antt =====
-- internal/deploy/deploy.go: `RepushNode` and `NodeUp`, as the list of what they do to the node and to
-- the resolution, in order.
pub mod Ordered
mod Samples
use edge_caddy.Prelude.{
  Bool, true, false, not, String, Option, none, some, List, [], ◌∷◌, ◌++◌, str_eq, if◌then◌else◌,
}
use edge_caddy.Deploy.Json.{Json}
use edge_caddy.Deploy.Merge.{Outcome, ok, err, panic}
use edge_caddy.Deploy.Effective.{Tables, Config, effective}
use edge_caddy.Deploy.Retry.{PushOutcome, applied, refused, unreachable}

-- What `DNS.Attach` answers: nothing, `ErrNoProvider`, or another error.
pub data AttachOutcome : Type 0 where
  attached no_provider attach_failed : AttachOutcome

pub record World : Type 0 where
  pub parses : Option Json → Option Json → Bool
  pub baseline_read : Bool
  pub certs_read : Bool
  -- the issues of `render.Render`
  pub issues : Config → List String
  -- the answer of the node
  pub push : PushOutcome
  -- `DNS != nil && DNS.Configured`
  pub dns_configured : Bool
  pub attach : AttachOutcome

pub data Action : Type 0 where
  -- `Pusher.Push` of a configuration under a version, with the answer
  sent : String → Config → PushOutcome → Action
  -- `DNS.Attach`
  attach_called : AttachOutcome → Action

pub data RepushResult : Type 0 where
  repushed no_baseline has_issues repush_failed : RepushResult

unfoldable pub answered : PushOutcome → RepushResult
answered applied = repushed
answered _ = repush_failed

abbrev pub render_and_push : World → String → Config → List String → List Action × RepushResult
render_and_push w version c [] = (sent version c w.push ∷ [], answered w.push)
render_and_push w version c (_ ∷ _) = ([], has_issues)

abbrev pub push_baseline : World → String → Outcome Config → List Action × RepushResult
push_baseline w version (ok c) =
    if w.certs_read then render_and_push w version c (w.issues c) else ([], repush_failed)
push_baseline w version _ = ([], repush_failed)

-- `RepushNode`: the live configuration, with no draft, under the version of the baseline.
unfoldable pub repush_node : World → Tables → List Action × RepushResult
unfolding answered effective
repush_node w t =
    if not w.baseline_read
    then ([], repush_failed)
    else if str_eq t.baseline ""
    then ([], no_baseline)
    else push_baseline w t.baseline (effective w.parses [] t)

-- `NodeUp` after the push: only a node that is ready is added to the resolution.
unfoldable pub then_attach : World → RepushResult → List Action
then_attach w repushed = if w.dns_configured then attach_called w.attach ∷ [] else []
then_attach w no_baseline = if w.dns_configured then attach_called w.attach ∷ [] else []
then_attach w has_issues = []
then_attach w repush_failed = []

-- `NodeUp`
unfoldable pub node_up : World → Tables → Bool → List Action
unfolding repush_node then_attach
node_up w t fresh =
    let (actions, end_of_push) = repush_node w t in
    if fresh then actions ++ then_attach w end_of_push else []
