-- ===== src/Deploy/Pipeline.antt =====
-- internal/deploy/deploy.go: `Scheduler.Deploy`, one deployment from the merged configuration to the
-- commit. `deployMu` lets one run at a time. What the nodes, the database and the renderer answer is
-- the world's; a write of a result or of a node's version that fails is only logged, and is taken as
-- done here. No draft is saved while a deployment runs: one that is, for a selected key, would be
-- deleted by the commit. `crashed` is a panic of `deepMerge`.
pub mod Safety
pub mod Counts
mod Samples
use edge_caddy.Prelude.{
  ℕ, ◌+◌, Bool, true, false, not, String, Option, none, some, List, [], ◌∷◌, ltb, leb, ◌==◌,
  if◌then◌else◌, length,
}
use edge_caddy.Prelude.Assoc.{Assoc, insert}
use edge_caddy.Deploy.Keys.{ResKey}
use edge_caddy.Deploy.Json.{Json, Fields}
use edge_caddy.Deploy.Merge.{Outcome, ok, err, panic}
use edge_caddy.Deploy.Effective.{Tables, Config, effective}
use edge_caddy.Deploy.Commit.{commit}
use edge_caddy.Deploy.Retry.{
  PushOutcome, applied, refused, unreachable, DeployResult, from_push, result,
}
use edge_caddy.Deploy.Support.{Node, Unsupported, unsupported_rules}

pub record World : Type 0 where
  -- `render.ParsePolicies` reports no error
  pub parses : Option Json → Option Json → Bool
  pub certs_read : Bool
  -- the issues of `render.Render`
  pub issues : Config → List String
  -- `ListNodes`; `none` is an error
  pub nodes : Option (List Node)
  -- `Pusher.OnlineNodes`
  pub online : List String
  pub version : String
  -- `CreateDeploy` ends without an error
  pub creates : Bool
  pub push : String → PushOutcome
  -- `CommitDeploy` ends without an error
  pub commits : Bool

-- Why no node is touched.
pub data Refusal : Type 0 where
  unreadable : Refusal
  crashed : Refusal
  orphaned : List ResKey → Refusal
  invalid : List String → Refusal
  unsupported : List Unsupported → Refusal
  no_online_nodes : Refusal
  unrecorded : Refusal

pub data Checked : Type 0 where
  refuses : Refusal → Checked
  admits : Config → Checked

-- `if len(issues) > 0 { return }`
abbrev pub unless_any : {A : Type 0} → List A → (List A → Refusal) → Checked → Checked
unless_any [] why next = next
unless_any (x ∷ xs) why next = refuses (why (x ∷ xs))

abbrev pub unless_failed : {A : Type 0} → Outcome A → (A → Checked) → Checked
unless_failed (ok a) next = next a
unless_failed err next = refuses unreadable
unless_failed panic next = refuses crashed

abbrev pub unless_empty : List String → Checked → Checked
unless_empty [] next = refuses no_online_nodes
unless_empty (_ ∷ _) next = next

-- Everything that may refuse the deployment, in the order of the source.
unfoldable pub checked : World → List ResKey → Tables → Checked
unfolding effective unsupported_rules
checked w keys t = unless_failed (effective w.parses keys t) λ c. unless_any c.orphans orphaned (
    if not w.certs_read
    then refuses unreadable
    else unless_any (w.issues c) invalid (
        unless_failed (unsupported_rules w.nodes c.rules) λ us.
          unless_any us unsupported
            (unless_empty w.online (if w.creates then admits c else refuses unrecorded))))

-- What the first round records of a node: only a node that did not answer is retried.
unfoldable pub first_result : String → PushOutcome → DeployResult
first_result node applied = result node true from_push false
first_result node refused = result node false from_push false
first_result node unreachable = result node false from_push true

unfoldable pub first_round : (String → PushOutcome) → List String → List DeployResult
unfolding first_result
first_round push [] = []
first_round push (node ∷ rest) = first_result node (push node) ∷ first_round push rest

-- The loop over the outcomes, after all of them are in.
pub record Tally : Type 0 where
  pub ok_count : ℕ
  pub fail_count : ℕ
  pub need_retry : List String
  pub versions : Assoc String

unfoldable pub count : String → String → PushOutcome → Tally → Tally
count version node applied y = record y {
  ok_count = y.ok_count + 1;
  versions = insert node version y.versions;
}
count version node refused y = record y { fail_count = y.fail_count + 1 }
count version node unreachable y = record y {
  fail_count = y.fail_count + 1;
  need_retry = node ∷ y.need_retry;
}

unfoldable pub tally : String → (String → PushOutcome) → Assoc String → List String → Tally
unfolding count
tally version push before [] = record {
  ok_count = 0;
  fail_count = 0;
  need_retry = [];
  versions = before;
}
tally version push before (node ∷ rest) =
    count version node (push node) (tally version push before rest)

pub data EventKind : Type 0 where
  good warn crit : EventKind

-- `eventKind`
unfoldable pub event_kind : ℕ → ℕ → EventKind
event_kind ok_count fail_count =
    if fail_count == 0 then good else if ok_count == 0 then crit else warn

pub data Ending : Type 0 where
  refused_with : Refusal → Ending
  finished : ℕ → ℕ → EventKind → Ending

-- What a deployment leaves: the tables, the versions of the nodes, the results, and the nodes that the
-- background retry now works on; `none` if the retry of before goes on.
pub record Run : Type 0 where
  pub ending : Ending
  pub tables : Tables
  pub versions : Assoc String
  pub results : List DeployResult
  pub retries : Option (List String)

-- `CommitDeploy`, when at least one node has applied the configuration.
unfoldable pub settle : World → List ResKey → Config → Tables → List DeployResult → Tally → Run
unfolding event_kind commit
settle w keys c t results y =
    if ltb 0 y.ok_count
    then if w.commits
      then record {
        ending = finished y.ok_count y.fail_count (event_kind y.ok_count y.fail_count);
        tables = commit keys c w.version t;
        versions = y.versions;
        results = results;
        retries = some y.need_retry;
      }
      else record {
        ending = finished y.ok_count y.fail_count crit;
        tables = t;
        versions = y.versions;
        results = results;
        retries = some [];
      }
    else record {
      ending = finished y.ok_count y.fail_count (event_kind y.ok_count y.fail_count);
      tables = t;
      versions = y.versions;
      results = results;
      retries = some y.need_retry;
    }

unfoldable pub after_check : World → List ResKey → Tables → Assoc String → Checked → Run
unfolding settle first_round tally
after_check w keys t versions (refuses why) = record {
  ending = refused_with why;
  tables = t;
  versions = versions;
  results = [];
  retries = none;
}
after_check w keys t versions (admits c) =
    settle w keys c t (first_round w.push w.online) (tally w.version w.push versions w.online)

-- `Deploy`
unfoldable pub deploy : World → List ResKey → Tables → Assoc String → Run
unfolding checked after_check
deploy w keys t versions = after_check w keys t versions (checked w keys t)
