-- ===== src/Dns/Plan/Shares.antt =====
-- The shares of one line.
use edge_caddy.Prelude.{
  ℕ, suc, ◌+◌, ◌*◌, ◌≤◌, ◌<◌, Bool, true, List, [], ◌∷◌, String, ap, ◌≡◌, refl, ltb, Bool-cases,
  inl, inr, arith, length,
}
use edge_caddy.Prelude.Assoc.{Assoc, lookup}
use edge_caddy.Dns.Plan.{
  Entry, NodeState, Line, Weights, of_line, keys, add_nodes, entries_of, total_of, share_of,
  with_shares, line_plan, in_use,
}
use native.Mathlib.Nat.{mul-div-le, lt-mul-div-succ, le_of_mul-le-mul_left}

abbrev pub sum_shares : List Entry → ℕ
sum_shares [] = 0
sum_shares (e ∷ es) = e.share + sum_shares es

share-low : (w total : ℕ) → 2 * total * share_of w total ≤ 2000 * w + total
unfolding share_of
share-low w total = mul-div-le (2000 * w + total) (2 * total)

share-high : (w total : ℕ) → 0 < total → 2000 * w + total < 2 * total * (share_of w total + 1)
unfolding share_of
share-high w total pos = lt-mul-div-succ (2000 * w + total) (omega (arith, pos))

scaled_low :
    (total s rest w sum n : ℕ)
    → 2 * total * s ≤ 2000 * w + total
    → 2 * total * rest ≤ 2000 * sum + total * n
    → 2 * total * (s + rest) ≤ 2000 * (w + sum) + total * suc n
scaled_low total s rest w sum n h hs = omega arith

scaled_high :
    (total s rest w sum n : ℕ)
    → 2000 * w + total < 2 * total * (s + 1)
    → 2000 * sum ≤ 2 * total * rest + total * n
    → 2000 * (w + sum) ≤ 2 * total * (s + rest) + total * suc n
scaled_high total s rest w sum n h hs = omega arith

module _ (total : ℕ) (pos : 0 < total) where
  shared : ltb 0 total ≡ true
  shared = ground arith

  sum-low :
      (es : List Entry)
      → 2 * total * sum_shares (in_use (with_shares total es))
        ≤ 2000 * total_of es + total * length (in_use (with_shares total es))
  unfolding in_use with_shares total_of
  sum-low [] = omega arith
  sum-low (e ∷ es) = elim (Bool-cases e.in_rotation) [
    | inr out ↦ rw out (sum-low es)
    | inl there ↦
        rw (there, shared)
          (scaled_low total (share_of e.weight total) _ e.weight _ _ (share-low e.weight total)
            (sum-low es))
  ]

  sum-high :
      (es : List Entry)
      → 2000 * total_of es
        ≤ 2 * total * sum_shares (in_use (with_shares total es))
          + total * length (in_use (with_shares total es))
  unfolding in_use with_shares total_of
  sum-high [] = omega arith
  sum-high (e ∷ es) = elim (Bool-cases e.in_rotation) [
    | inr out ↦ rw out (sum-high es)
    | inl there ↦
        rw (there, shared)
          (scaled_high total (share_of e.weight total) _ e.weight _ _
            (share-high e.weight total pos) (sum-high es))
  ]

cancel_low :
    (total s n : ℕ) → 0 < total → 2 * total * s ≤ 2000 * total + total * n → 2 * s ≤ 2000 + n
cancel_low total s n pos h =
    le_of_mul-le-mul_left {m = 2 * s} {n = 2000 + n} {k = total} (omega (arith, h)) pos

cancel_high :
    (total s n : ℕ) → 0 < total → 2000 * total ≤ 2 * total * s + total * n → 2000 ≤ 2 * s + n
cancel_high total s n pos h =
    le_of_mul-le-mul_left {m = 2000} {n = 2 * s + n} {k = total} (omega (arith, h)) pos

total_of-with_shares : (total : ℕ) (es : List Entry) → total_of (with_shares total es) ≡ total_of es
unfolding total_of with_shares
total_of-with_shares total [] = refl
total_of-with_shares total (e ∷ es) = elim (Bool-cases e.in_rotation) [
  | inr out ↦ rw out (total_of-with_shares total es)
  | inl there ↦ rw there (elim (Bool-cases (ltb 0 total)) [
    | inl some_weight ↦ rw some_weight (ap (λ n. e.weight + n) (total_of-with_shares total es))
    | inr none_at_all ↦ rw none_at_all (ap (λ n. e.weight + n) (total_of-with_shares total es))
  ])
]

-- Where the weights of the nodes in rotation on a line are not all zero, their shares, in tenths of a
-- per cent, add up to 1000, give or take half a tenth for each of these nodes.
pub sum_shares-line_plan :
    (sort : List String → List String) (honored : Bool) (weights : Weights) (nodes : List NodeState)
    (line : Line)
    → 0 < total_of (line_plan sort honored weights nodes line).entries
    → (2 * sum_shares (in_use (line_plan sort honored weights nodes line).entries)
        ≤ 2000 + length (in_use (line_plan sort honored weights nodes line).entries))
      × (2000
          ≤ 2 * sum_shares (in_use (line_plan sort honored weights nodes line).entries)
            + length (in_use (line_plan sort honored weights nodes line).entries))
unfolding line_plan
sum_shares-line_plan sort honored weights nodes line pos = (
  cancel_low (total_of es) _ _ found (sum-low (total_of es) found es),
  cancel_high (total_of es) _ _ found (sum-high (total_of es) found es),
)
  where
    ws : Assoc ℕ
    ws = of_line (lookup line.code weights)

    es : List Entry
    es = entries_of honored nodes ws (sort (add_nodes (keys ws) nodes))

    found : 0 < total_of es
    found = rw (← total_of-with_shares (total_of es) es) pos
