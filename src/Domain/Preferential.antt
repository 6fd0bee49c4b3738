-- ===== src/Domain/Preferential.antt =====
-- internal/config/domain.go, `generateBA` and `weightedDegreeChoice`: a clique that grows by nodes with
-- m edges each, to targets drawn by their degree. `1 ≤ m < n`, as generateDomainEdges checks before.
pub mod Choice
pub mod Clique
pub mod Growth
use mathlib.Core.List.{Perm}
use peerkit.Prelude.{
  ℕ, zero, suc, ◌+◌, ◌-◌, Bool, true, false, Option, none, some, List, [], ◌∷◌, number_key,
  contains, insert, length, ltb, ◌==◌, if◌then◌else◌,
}
use peerkit.Domain.Rng.{Rng}
use peerkit.Domain.Edge.{Graph, empty_graph, add_generated_edge}

-- The total of the degrees from `node` on, for `left` nodes, without the excluded ones.
unfoldable pub total_degree : List ℕ → (ℕ → ℕ) → ℕ → ℕ → ℕ
total_degree excluded degrees node zero = 0
total_degree excluded degrees node (suc left) =
    let rest = total_degree excluded degrees (suc node) left in
    if contains excluded node then rest else degrees node + rest

-- The last loop, with `none` for the panic behind it.
unfoldable pub pick : List ℕ → (ℕ → ℕ) → ℕ → ℕ → ℕ → Option ℕ
pick excluded degrees choice node zero = none
pick excluded degrees choice node (suc left) =
    let skip = pick excluded degrees choice (suc node) left in
    let next = pick excluded degrees (choice - degrees node) (suc node) left in
    if contains excluded node then skip else (if ltb choice (degrees node) then some node else next)

-- The order in which a range over a map visits its keys, in the round of a node: some permutation.
pub record RangeOrder : Type 0 where
  pub order : ℕ → List ℕ → List ℕ
  pub order-perm : (node : ℕ) (keys : List ℕ) → Perm (order node keys) keys

-- The clique's inner loop from j on, for `left` nodes, and the outer one.
unfoldable pub clique_row : ℕ → ℕ → ℕ → Graph → Graph
clique_row i j zero g = g
clique_row i j (suc left) g = clique_row i (suc j) left (add_generated_edge i j g)

unfoldable pub clique_from : ℕ → ℕ → ℕ → Graph → Graph
clique_from initial i zero g = g
clique_from initial i (suc left) g =
    clique_from initial (suc i) left (clique_row i (i + 1) (initial - (i + 1)) g)

-- The edges from the new node to its targets.
unfoldable pub attach : ℕ → List ℕ → Graph → Graph
attach node [] g = g
attach node (t ∷ ts) g = attach node ts (add_generated_edge node t g)

-- `rounds` bounds the loop that draws again after an excluded node, which is without a bound in the
-- source; `none` is a panic or a loop that is cut off.
module _ {F R : Type 0} (rng : Rng F R) (ord : RangeOrder) (rounds : ℕ) where
  unfoldable pub draw_again : ℕ → ℕ → List ℕ → R → Option ℕ × R
  draw_again zero n excluded r = (none, r)
  draw_again (suc fuel) n excluded r =
      let (candidate, r1) = rng.intn n r in
      let rest = draw_again fuel n excluded r1 in
      if contains excluded candidate then rest else (some candidate, r1)

  -- Over `degrees[:n]`.
  unfoldable pub weighted_degree_choice : (ℕ → ℕ) → ℕ → List ℕ → R → Option ℕ × R
  weighted_degree_choice degrees n excluded r =
      let total = total_degree excluded degrees 0 n in
      if total == 0
      then draw_again rounds n excluded r
      else (let (choice, r1) = rng.intn total r in (pick excluded degrees choice 0 n, r1))

  -- `for len(selected) < m`, on fuel: each round selects one more.
  unfoldable pub select_targets : ℕ → ℕ → ℕ → (ℕ → ℕ) → List ℕ → R → Option (List ℕ) × R
  select_targets zero m node degrees selected r = (none, r)
  select_targets (suc fuel) m node degrees selected r = elim (ltb (length selected) m) [
    | false ↦ (some selected, r)
    | true ↦
        let (target, r1) = weighted_degree_choice degrees node selected r in
        elim target [
          | none ↦ (none, r1)
          | some t ↦ select_targets fuel m node degrees (insert selected t) r1
        ]
  ]

  -- The loop over the new nodes.
  unfoldable pub grow : ℕ → ℕ → ℕ → Graph → R → Option Graph × R
  grow m node zero g r = (some g, r)
  grow m node (suc left) g r =
      let (selected, r1) = select_targets (suc m) m node g.degrees [] r in
      elim selected [
        | none ↦ (none, r1)
        | some ts ↦ grow m (suc node) left (attach node (ord.order node ts) g) r1
      ]

  unfoldable pub generate_ba : ℕ → ℕ → R → Option Graph × R
  generate_ba n m r = grow m (m + 1) (n - (m + 1)) (clique_from (m + 1) 0 (m + 1) empty_graph) r
