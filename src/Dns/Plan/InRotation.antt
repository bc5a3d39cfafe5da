-- ===== src/Dns/Plan/InRotation.antt =====
-- Which nodes are in the rotation of a line.
use edge_caddy.Prelude.{
  if◌then◌else◌, ℕ, Bool, true, false, not, ◌&&◌, ◌||◌, String, Option, none, some, List, [], ◌∷◌,
  ◌≡◌, refl, sym, ◌∙◌, str_eq, ltb, has, All,
}
use edge_caddy.Prelude.Assoc.{Assoc, lookup}
use edge_caddy.Dns.Plan.{
  lines, NodeState, Weights, of_line, by_id, weight_or_zero, is_set, is_down, build, rotation,
}
use edge_caddy.Dns.Plan.Candidates.{
  names, in_service, deserves, rule, codes, candidates_in_rotation,
}

-- Draining a node switches its resolution off.
abbrev pub OffWhenDrained : NodeState → Type 0
OffWhenDrained n = n.drained ≡ true → n.dns_enabled ≡ false

abbrev is_enabled : Option NodeState → Bool
is_enabled none = false
is_enabled (some n) = n.dns_enabled

-- The node that is found under an id is in service if it is enabled.
enabled-in_service :
    (id : String) (found : Option NodeState) (ns : List NodeState)
    → All OffWhenDrained ns
    → is_enabled (by_id id found ns) ≡ true
    → is_enabled found ≡ false
    → in_service id ns ≡ true
unfolding by_id
enabled-in_service id found [] off on before = cc
enabled-in_service id found (n ∷ ns) off on before =
    by_tests (λ o. enabled-in_service id o ns off.1) (str_eq n.id id) refl n.dns_enabled refl
      n.drained refl
  where
    never : n.drained ≡ true → n.dns_enabled ≡ true → ⊥
    never drained enabled = cc (sym enabled ∙ off.0 drained)

    or_true : (b : Bool) → b || true ≡ true
    or_true true = refl
    or_true false = refl

    later : (b : Bool) → in_service id ns ≡ true → (b || in_service id ns) ≡ true
    later b there = rw there (or_true b)

    by_tests :
        ((o : Option NodeState)
          → is_enabled (by_id id o ns) ≡ true
          → is_enabled o ≡ false
          → in_service id ns ≡ true)
        → (same : Bool) → str_eq n.id id ≡ same
        → (enabled : Bool) → n.dns_enabled ≡ enabled
        → (drained : Bool) → n.drained ≡ drained
        → (str_eq n.id id && not n.drained || in_service id ns) ≡ true
    by_tests ih true same true enabled true drained = absurd (never drained enabled)
    by_tests ih true same true enabled false drained = rw (same, drained) refl
    by_tests ih true same false enabled drained d = later _ (ih (some n) (rw same at on) enabled)
    by_tests ih false apart enabled e drained d = later _ (ih found (rw apart at on) before)

-- Where sorting keeps the members of a list and the resolution of a drained node is off, as draining
-- leaves it, a node is in the rotation of one of the five lines exactly when it is known, not drained,
-- enabled, not down, and has a weight above zero if the provider honours weights.
pub has-rotation :
    (sort : List String → List String) (domain : String) (honored : Bool) (weights : Weights)
    (nodes : List NodeState) (code id : String)
    → ((x : String) (xs : List String) → has x (sort xs) ≡ has x xs)
    → All OffWhenDrained nodes
    → has code (codes lines) ≡ true
    → has id (names (rotation (build sort domain honored weights nodes) code))
      ≡ (in_service id nodes && rule honored nodes (of_line (lookup code weights)) id)
has-rotation sort domain honored weights nodes code id sorts off known =
    candidates_in_rotation sort domain honored weights nodes code id sorts known
    ∙ absorbed (is_set (lookup id ws)) (in_service id nodes) (rule honored nodes ws id)
        (λ in_use_now.
          enabled-in_service id none nodes off
            (enabled_if (by_id id none nodes) (weight_or_zero (lookup id ws)) in_use_now) refl)
  where
    ws : Assoc ℕ
    ws = of_line (lookup code weights)

    enabled_if : (n : Option NodeState) (w : ℕ) → deserves honored n w ≡ true → is_enabled n ≡ true
    enabled_if none w h = cc
    enabled_if (some n) w h =
        first n.dns_enabled (not (is_down n.status)) (if honored then ltb 0 w else true) h
      where
        first : (a b c : Bool) → (a && b && c) ≡ true → a ≡ true
        first true b c h = refl
        first false b c h = h

    absorbed : (s i r : Bool) → (r ≡ true → i ≡ true) → ((s || i) && r) ≡ (i && r)
    absorbed s true true h = or_true s
      where
        or_true : (b : Bool) → (b || true) && true ≡ true
        or_true true = refl
        or_true false = refl
    absorbed s false true h = cc (h refl)
    absorbed true true false h = refl
    absorbed false true false h = refl
    absorbed true false false h = refl
    absorbed false false false h = refl
