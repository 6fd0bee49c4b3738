-- ===== src/Domain/Preferential/Clique.antt =====
-- The initial clique: all pairs are linked, each by one edge.
use peerkit.Prelude.{
  ℕ, zero, suc, ◌+◌, ◌-◌, ◌≤◌, ◌<◌, ◌≡◌, Bool, false, not, ◌||◌, ◌&&◌, length, ltb, leb, ◌==◌,
  arith,
}
use peerkit.Domain.Edge.{Graph, empty_graph, add_generated_edge}
use peerkit.Domain.Edge.Degrees.{
  IsCounted, add_generated_edge-IsCounted, add_generated_edge-adjacent, length-add_generated_edge,
}
use peerkit.Domain.Edge.Simple.{empty_graph-IsSimple}
use peerkit.Domain.Preferential.{clique_row, clique_from}

-- x and y lie on the row of i, from column j on.
abbrev on_row : ℕ → ℕ → ℕ → ℕ → ℕ → Bool
on_row i j left x y =
    (x == i && (leb j y && ltb y (j + left))) || (y == i && (leb j x && ltb x (j + left)))

clique_row_lem :
    (n i j left : ℕ) (g : Graph)
    → i < j
    → j + left ≤ n
    → IsCounted n g
    → ((y : ℕ) → j ≤ y → g.adjacent i y ≡ false)
    → let h = clique_row i j left g in
      IsCounted n h
      × ((x y : ℕ) → h.adjacent x y ≡ (on_row i j left x y || g.adjacent x y))
      × (length h.edges ≡ left + length g.edges)
unfolding clique_row
clique_row_lem n i j zero g a b c f = (c, λ x y. ground arith, omega arith)
clique_row_lem n i j (suc left) g a b c f =
    let fresh = f j (omega arith) in
    let next : (y : ℕ) → suc j ≤ y → (add_generated_edge i j g).adjacent i y ≡ false =
      λ y h. ground (arith, add_generated_edge-adjacent i j g i y fresh, f y (omega arith)) in
    let rest =
      clique_row_lem n i (suc j) left (add_generated_edge i j g) (omega arith) (omega arith)
        (add_generated_edge-IsCounted n i j g (omega arith) (omega arith) (λ e. omega arith) c)
        next in
    (
      rest.0,
      λ x y. ground (arith, rest.1 x y, add_generated_edge-adjacent i j g x y fresh),
      omega (arith, rest.2, length-add_generated_edge i j g fresh),
    )

-- The number of pairs of n nodes.
unfoldable pub pairs : ℕ → ℕ
pairs zero = 0
pairs (suc n) = n + pairs n

-- Of the pairs below n, those with a node below i.
abbrev pub joined : ℕ → ℕ → ℕ → ℕ → Bool
joined n i x y = not (x == y) && ((ltb x n && ltb y n) && (ltb x i || ltb y i))

clique_from_lem :
    (n i left : ℕ) (g : Graph)
    → i + left ≡ n
    → IsCounted n g
    → ((x y : ℕ) → g.adjacent x y ≡ joined n i x y)
    → let h = clique_from n i left g in
      IsCounted n h
      × ((x y : ℕ) → h.adjacent x y ≡ joined n n x y)
      × (length h.edges ≡ pairs left + length g.edges)
unfolding clique_from pairs
clique_from_lem n i zero g e c f = (c, λ x y. ground (arith, f x y), omega arith)
clique_from_lem n i (suc left) g e c f =
    let row =
      clique_row_lem n i (i + 1) (n - (i + 1)) g (omega arith) (omega arith) c
        (λ y h. ground (arith, f i y)) in
    let rest =
      clique_from_lem n (suc i) left _ (omega arith) row.0
        (λ x y. ground (arith, row.1 x y, f x y)) in
    (rest.0, rest.1, omega (arith, rest.2, row.2))

pub clique_lem :
    (n : ℕ)
    → let h = clique_from n 0 n empty_graph in
      IsCounted n h × ((x y : ℕ) → h.adjacent x y ≡ joined n n x y) × (length h.edges ≡ pairs n)
clique_lem n =
    let start : IsCounted n empty_graph = record {
      simple = empty_graph-IsSimple n;
      busy = λ x y e. cc;
    } in
    let all = clique_from_lem n 0 n empty_graph (omega arith) start (λ x y. ground arith) in
    (all.0, all.1, omega (arith, all.2))
