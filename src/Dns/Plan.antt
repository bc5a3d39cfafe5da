-- ===== src/Dns/Plan.antt =====
-- internal/dnssched/plan.go. A weight is at least 0: the API refuses a negative one. A share is in
-- tenths of a per cent, and the quotient that is rounded is exact, where the source has float64.
-- `sort` is `sort.Strings`.
pub mod Shares
pub mod Candidates
pub mod InRotation
mod Samples
use edge_caddy.Prelude.{
  ℕ, ◌+◌, ◌*◌, ◌/◌, Bool, true, false, not, ◌&&◌, ◌||◌, String, Option, none, some, List, [], ◌∷◌,
  ◌++◌, str_eq, ltb, if◌then◌else◌, has,
}
use edge_caddy.Prelude.Assoc.{Assoc, lookup}
use edge_caddy.Health.State.{Status}

pub record Line : Type 0 where
  pub code : String
  pub name : String

-- `Lines`
abbrev pub lines : List Line
lines =
    record { code = "ct"; name = "电信" }
    ∷ record { code = "cu"; name = "联通" }
    ∷ record { code = "cm"; name = "移动" }
    ∷ record { code = "tw"; name = "台湾" }
    ∷ record { code = "ov"; name = "境外" }
    ∷ []

pub record NodeState : Type 0 where
  pub id : String
  pub ip : String
  pub dns_enabled : Bool
  pub status : Status
  pub drained : Bool

pub record Entry : Type 0 where
  pub node : String
  pub ip : String
  pub weight : ℕ
  pub share : ℕ
  pub dns_enabled : Bool
  pub status : Status
  pub in_rotation : Bool
  pub weight_set : Bool

pub record LinePlan : Type 0 where
  pub code : String
  pub name : String
  pub entries : List Entry

pub record Plan : Type 0 where
  pub domain : String
  pub lines : List LinePlan

-- `Weights`: from a line to its nodes, from a node to its weight.
abbrev pub Weights : Type 0
Weights = Assoc (Assoc ℕ)

-- `weights[code]`; a missing line has no weights
abbrev pub of_line : Option (Assoc ℕ) → Assoc ℕ
of_line none = []
of_line (some ws) = ws

-- `byID[id]`: the last of the nodes with the id
unfoldable pub by_id : String → Option NodeState → List NodeState → Option NodeState
by_id id found [] = found
by_id id found (n ∷ ns) = by_id id (if str_eq n.id id then some n else found) ns

unfoldable pub keys : Assoc ℕ → List String
keys [] = []
keys ((id, _) ∷ ws) = id ∷ keys ws

-- The second loop of the candidates: the nodes that are not there yet and have not been drained.
unfoldable pub add_nodes : List String → List NodeState → List String
add_nodes ids [] = ids
add_nodes ids (n ∷ ns) =
    add_nodes (if not (has n.id ids) && not n.drained then ids ++ n.id ∷ [] else ids) ns

abbrev pub is_down : Status → Bool
is_down Status.down = true
is_down _ = false

abbrev pub weight_or_zero : Option ℕ → ℕ
weight_or_zero none = 0
weight_or_zero (some w) = w

abbrev pub is_set : Option ℕ → Bool
is_set none = false
is_set (some _) = true

-- `in`
unfoldable pub takes_part : Bool → Option NodeState → ℕ → Bool
takes_part honored none w = false
takes_part honored (some n) w = n.dns_enabled && not (is_down n.status) && (ltb 0 w || not honored)

-- One candidate, before the shares; a node that is not known has the zero value.
unfoldable pub entry_of : Bool → Option NodeState → Option ℕ → String → Entry
unfolding takes_part
entry_of honored none w id = record {
  node = id;
  ip = "";
  weight = weight_or_zero w;
  share = 0;
  dns_enabled = false;
  status = Status.unset;
  in_rotation = takes_part honored none (weight_or_zero w);
  weight_set = is_set w;
}
entry_of honored (some n) w id = record {
  node = id;
  ip = n.ip;
  weight = weight_or_zero w;
  share = 0;
  dns_enabled = n.dns_enabled;
  status = n.status;
  in_rotation = takes_part honored (some n) (weight_or_zero w);
  weight_set = is_set w;
}

unfoldable pub entries_of : Bool → List NodeState → Assoc ℕ → List String → List Entry
unfolding entry_of by_id
entries_of honored nodes ws [] = []
entries_of honored nodes ws (id ∷ ids) =
    entry_of honored (by_id id none nodes) (lookup id ws) id ∷ entries_of honored nodes ws ids

-- `total`
unfoldable pub total_of : List Entry → ℕ
total_of [] = 0
total_of (e ∷ es) = let rest = total_of es in if e.in_rotation then e.weight + rest else rest

-- `round1(w / total * 100)`, in tenths
unfoldable pub share_of : ℕ → ℕ → ℕ
share_of w total = (2000 * w + total) / (2 * total)

-- The loop that sets the shares.
unfoldable pub with_shares : ℕ → List Entry → List Entry
unfolding share_of
with_shares total [] = []
with_shares total (e ∷ es) =
    (if e.in_rotation && ltb 0 total then record e { share = share_of e.weight total } else e)
    ∷ with_shares total es

module _ (sort : List String → List String) where
  unfoldable pub line_plan : Bool → Weights → List NodeState → Line → LinePlan
  unfolding add_nodes keys entries_of with_shares total_of
  line_plan honored weights nodes line =
      let ws = of_line (lookup line.code weights) in
      let entries = entries_of honored nodes ws (sort (add_nodes (keys ws) nodes)) in
      record {
        code = line.code;
        name = line.name;
        entries = with_shares (total_of entries) entries;
      }

  unfoldable pub line_plans : Bool → Weights → List NodeState → List Line → List LinePlan
  unfolding line_plan
  line_plans honored weights nodes [] = []
  line_plans honored weights nodes (l ∷ ls) =
      line_plan honored weights nodes l ∷ line_plans honored weights nodes ls

  -- `Build`, with the option `WeightsHonored`
  unfoldable pub build : String → Bool → Weights → List NodeState → Plan
  unfolding line_plans
  build domain honored weights nodes = record {
    domain = domain;
    lines = line_plans honored weights nodes lines;
  }

unfoldable pub in_use : List Entry → List Entry
in_use [] = []
in_use (e ∷ es) = let rest = in_use es in if e.in_rotation then e ∷ rest else rest

-- The loop of `Rotation`: the first line with the code.
unfoldable pub rotation_of : List LinePlan → String → List Entry
unfolding in_use
rotation_of [] code = []
rotation_of (l ∷ ls) code = if str_eq l.code code then in_use l.entries else rotation_of ls code

-- `Rotation`
unfoldable pub rotation : Plan → String → List Entry
unfolding rotation_of
rotation p code = rotation_of p.lines code
