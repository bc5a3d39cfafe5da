-- ===== src/Dns/Plan/Candidates.antt =====
-- Which candidates are in the rotation of a line, as `Build` decides it.
use edge_caddy.Prelude.{
  if◌then◌else◌, ℕ, Bool, true, false, not, ◌&&◌, ◌||◌, String, Option, none, some, List, [], ◌∷◌,
  ◌++◌, ◌≡◌, refl, sym, ap, ◌∙◌, ◌⊎◌, str_eq, ltb, eq_iff, Bool-cases, inl, inr, has, arith,
}
use edge_caddy.Prelude.Assoc.{Assoc, lookup}
use edge_caddy.Dns.Plan.{
  Line, lines, NodeState, Entry, Weights, of_line, by_id, keys, add_nodes, weight_or_zero, is_set,
  is_down, takes_part, entry_of, entries_of, with_shares, line_plan, line_plans, build, in_use,
  rotation_of, rotation,
}

abbrev pub names : List Entry → List String
names [] = []
names (e ∷ es) = e.node ∷ names es

-- A node with the id that has not been drained.
abbrev pub in_service : String → List NodeState → Bool
in_service id [] = false
in_service id (n ∷ ns) = str_eq n.id id && not n.drained || in_service id ns

has-append : (x : String) (xs ys : List String) → has x (xs ++ ys) ≡ has x xs || has x ys
has-append x [] ys = refl
has-append x (y ∷ xs) ys = ground (arith, has-append x xs ys)

has_same : (x y : String) (xs : List String) → str_eq x y ≡ true → has x xs ≡ has y xs
has_same x y xs e = ap (λ z. has z xs) ((eq_iff x y).0 e)

has-add_nodes :
    (id : String) (ids : List String) (ns : List NodeState)
    → has id (add_nodes ids ns) ≡ has id ids || in_service id ns
unfolding add_nodes
has-add_nodes id ids [] = ground arith
has-add_nodes id ids (n ∷ ns) = elim (Bool-cases (has n.id ids)) [
  | inl there ↦ rw there (has-add_nodes id ids ns ∙ by_name there (Bool-cases (str_eq n.id id)))
  | inr new ↦ elim (Bool-cases n.drained) [
    | inl gone ↦ rw (new, gone) (has-add_nodes id ids ns ∙ ground arith)
    | inr serving ↦
        rw (new, serving)
          (has-add_nodes id (ids ++ n.id ∷ []) ns
            ∙ rw (has-append id ids (n.id ∷ [])) (ground arith))
  ]
]
  where
    by_name :
        has n.id ids ≡ true
        → (str_eq n.id id ≡ true) ⊎ (str_eq n.id id ≡ false)
        → has id ids || in_service id ns
          ≡ has id ids || (str_eq n.id id && not n.drained || in_service id ns)
    by_name there (inl same) = rw (sym (has_same n.id id ids same) ∙ there) refl
    by_name there (inr apart) = rw apart refl

has-keys : (id : String) (ws : Assoc ℕ) → has id (keys ws) ≡ is_set (lookup id ws)
unfolding keys lookup
has-keys id [] = refl
has-keys id ((i, w) ∷ ws) = ground (arith, has-keys id ws)

-- What the package promises of one node: enabled and not down, and with a weight above zero where
-- weights count.
abbrev pub deserves : Bool → Option NodeState → ℕ → Bool
deserves honored none w = false
deserves honored (some n) w =
    n.dns_enabled && not (is_down n.status) && (if honored then ltb 0 w else true)

abbrev pub rule : Bool → List NodeState → Assoc ℕ → String → Bool
rule honored nodes ws id = deserves honored (by_id id none nodes) (weight_or_zero (lookup id ws))

in_rotation-entry_of :
    (honored : Bool) (n : Option NodeState) (w : Option ℕ) (id : String)
    → (entry_of honored n w id).in_rotation ≡ deserves honored n (weight_or_zero w)
unfolding entry_of takes_part
in_rotation-entry_of honored none w id = refl
in_rotation-entry_of true (some n) w id =
    ap (λ b. n.dns_enabled && not (is_down n.status) && b) (or_false (ltb 0 (weight_or_zero w)))
  where
    or_false : (b : Bool) → (b || false) ≡ b
    or_false true = refl
    or_false false = refl
in_rotation-entry_of false (some n) w id =
    ap (λ b. n.dns_enabled && not (is_down n.status) && b) (or_true (ltb 0 (weight_or_zero w)))
  where
    or_true : (b : Bool) → (b || true) ≡ true
    or_true true = refl
    or_true false = refl

node-entry_of :
    (honored : Bool) (n : Option NodeState) (w : Option ℕ) (id : String)
    → (entry_of honored n w id).node ≡ id
unfolding entry_of
node-entry_of honored none w id = refl
node-entry_of honored (some n) w id = refl

names-with_shares :
    (total : ℕ) (es : List Entry) → names (in_use (with_shares total es)) ≡ names (in_use es)
unfolding in_use with_shares
names-with_shares total [] = refl
names-with_shares total (e ∷ es) = elim (Bool-cases e.in_rotation) [
  | inr out ↦ rw out (names-with_shares total es)
  | inl there ↦ rw there (elim (Bool-cases (ltb 0 total)) [
    | inl some_weight ↦ rw some_weight (ap (λ ns. e.node ∷ ns) (names-with_shares total es))
    | inr none_at_all ↦ rw none_at_all (ap (λ ns. e.node ∷ ns) (names-with_shares total es))
  ])
]

has-in_use :
    (e : Entry) (es : List Entry) (id : String)
    → has id (names (in_use (e ∷ es)))
      ≡ str_eq e.node id && e.in_rotation || has id (names (in_use es))
unfolding in_use
has-in_use e es id = elim (Bool-cases e.in_rotation) [
  | inl there ↦ rw there (ground arith)
  | inr out ↦ rw out (ground arith)
]

has-entries_of :
    (honored : Bool) (nodes : List NodeState) (ws : Assoc ℕ) (ids : List String) (id : String)
    → has id (names (in_use (entries_of honored nodes ws ids)))
      ≡ has id ids && rule honored nodes ws id
unfolding entries_of
has-entries_of honored nodes ws [] id = unfold in_use in refl
has-entries_of honored nodes ws (i ∷ ids) id =
    has-in_use (entry_of honored (by_id i none nodes) (lookup i ws) i)
      (entries_of honored nodes ws ids) id
    ∙ rw
        (
          node-entry_of honored (by_id i none nodes) (lookup i ws) i,
          in_rotation-entry_of honored (by_id i none nodes) (lookup i ws) i,
          has-entries_of honored nodes ws ids id,
        )
        (elim (Bool-cases (str_eq i id)) [
          | inl same ↦
              rw (same, ap (λ j. rule honored nodes ws j) ((eq_iff i id).0 same))
                (absorbed (rule honored nodes ws id) (has id ids))
          | inr apart ↦ rw apart refl
        ])
  where
    absorbed : (r h : Bool) → (true && r || h && r) ≡ (true || h) && r
    absorbed true h = refl
    absorbed false true = refl
    absorbed false false = refl

module _ (sort : List String → List String)
    (sorts : (x : String) (xs : List String) → has x (sort xs) ≡ has x xs) where
  has-line_plan :
      (honored : Bool) (weights : Weights) (nodes : List NodeState) (line : Line) (id : String)
      → has id (names (in_use (line_plan sort honored weights nodes line).entries))
        ≡ (is_set (lookup id (of_line (lookup line.code weights))) || in_service id nodes)
          && rule honored nodes (of_line (lookup line.code weights)) id
  unfolding line_plan
  has-line_plan honored weights nodes line id =
      ap (has id) (names-with_shares _ _)
      ∙ has-entries_of honored nodes (of_line (lookup line.code weights)) _ id
      ∙ rw
          (
            sorts id (add_nodes (keys (of_line (lookup line.code weights))) nodes),
            has-add_nodes id (keys (of_line (lookup line.code weights))) nodes,
            has-keys id (of_line (lookup line.code weights)),
          )
          refl

abbrev pub codes : List Line → List String
codes [] = []
codes (l ∷ ls) = l.code ∷ codes ls

rotation_of-line_plans :
    (sort : List String → List String) (honored : Bool) (weights : Weights) (nodes : List NodeState)
    (ls : List Line) (code : String)
    → has code (codes ls) ≡ true
    → rotation_of (line_plans sort honored weights nodes ls) code
      ≡ in_use (line_plan sort honored weights nodes (record { code = code; name = "" })).entries
unfolding rotation_of line_plans line_plan
rotation_of-line_plans sort honored weights nodes [] code h = cc
rotation_of-line_plans sort honored weights nodes (l ∷ ls) code h =
    elim (Bool-cases (str_eq l.code code)) [
      | inl same ↦ rw same (
          ap
            (λ c.
              in_use
                (line_plan sort honored weights nodes (record { code = c; name = "" })).entries)
            ((eq_iff l.code code).0 same))
      | inr apart ↦
          rw apart (rotation_of-line_plans sort honored weights nodes ls code (rw apart at h))
    ]

-- Where sorting keeps the members of a list, a node is in the rotation of one of the five lines
-- exactly when it is a candidate there (it has a weight on the line or has not been drained) and is
-- known, enabled, not down, and has a weight above zero if the provider honours weights.
pub candidates_in_rotation :
    (sort : List String → List String) (domain : String) (honored : Bool) (weights : Weights)
    (nodes : List NodeState) (code id : String)
    → ((x : String) (xs : List String) → has x (sort xs) ≡ has x xs)
    → has code (codes lines) ≡ true
    → has id (names (rotation (build sort domain honored weights nodes) code))
      ≡ (is_set (lookup id (of_line (lookup code weights))) || in_service id nodes)
        && rule honored nodes (of_line (lookup code weights)) id
unfolding rotation build
candidates_in_rotation sort domain honored weights nodes code id sorts known =
    ap (λ es. has id (names es))
      (rotation_of-line_plans sort honored weights nodes lines code known)
    ∙ has-line_plan sort sorts honored weights nodes (record { code = code; name = "" }) id
