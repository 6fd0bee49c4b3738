-- ===== src/Domain/SmallWorld.antt =====
-- internal/config/domain.go, `generateWS`: a ring lattice, whose edges are rewired at random. `n` and
-- `k` are positive, as ExpandDomain checks before.
pub mod Laws
use peerkit.Prelude.{
  ℕ, zero, suc, ◌+◌, ◌/◌, ◌%◌, Bool, true, false, not, ◌&&◌, ◌||◌, List, [], ◌∷◌, length, get_or,
  ◌==◌, if◌then◌else◌,
}
use peerkit.Float.{FloatOps}
use peerkit.Domain.Rng.{Rng}
use peerkit.Domain.Edge.{
  GeneratedEdge, Graph, empty_graph, add_simple_generated_edge, remove_simple_generated_edge,
}

-- The loop over the distances from `distance` on, for `left` rounds, and the one over the nodes.
unfoldable pub lattice_row : ℕ → ℕ → ℕ → ℕ → Graph → Graph
lattice_row n i distance zero g = g
lattice_row n i distance (suc left) g =
    lattice_row n i (suc distance) left (add_simple_generated_edge i ((i + distance) % n) g)

unfoldable pub lattice : ℕ → ℕ → ℕ → ℕ → Graph → Graph
lattice n half i zero g = g
lattice n half i (suc left) g = lattice n half (suc i) left (lattice_row n i 1 half g)

-- The nodes from `candidate` on, for `left` rounds, to which i may be rewired.
unfoldable pub candidates_from : Graph → ℕ → ℕ → ℕ → List ℕ
candidates_from g i candidate zero = []
candidates_from g i candidate (suc left) =
    let rest = candidates_from g i (suc candidate) left in
    if candidate == i || g.adjacent i candidate then rest else candidate ∷ rest

unfoldable pub move_edge : ℕ → ℕ → ℕ → Graph → Graph
move_edge i original new_target g =
    add_simple_generated_edge i new_target (remove_simple_generated_edge i original g)

module _ {F R : Type 0} ⦃fl : FloatOps F⦄ (rng : Rng F R) where
  rewire_to : ℕ → ℕ → List ℕ → Graph × R → Graph × R
  rewire_to i original [] (g, r) = (g, r)
  rewire_to i original (c ∷ cs) (g, r) =
      let (index, r') = rng.intn (length (c ∷ cs)) r in
      (move_edge i original (get_or (c ∷ cs) index c) g, r')

  -- One round of the inner loop; the draw comes first, whatever it is used for.
  unfoldable pub rewire : ℕ → F → ℕ → ℕ → Graph × R → Graph × R
  unfolding rewire_to
  rewire n beta i distance (g, r) =
      let original = (i + distance) % n in
      let (draw, r') = rng.float64 r in
      if fl.le beta draw || not (g.adjacent i original)
      then (g, r')
      else rewire_to i original (candidates_from g i 0 n) (g, r')

  unfoldable pub rewire_row : ℕ → F → ℕ → ℕ → ℕ → Graph × R → Graph × R
  rewire_row n beta i distance zero s = s
  rewire_row n beta i distance (suc left) s =
      rewire_row n beta i (suc distance) left (rewire n beta i distance s)

  unfoldable pub rewire_all : ℕ → F → ℕ → ℕ → ℕ → Graph × R → Graph × R
  rewire_all n beta half i zero s = s
  rewire_all n beta half i (suc left) s =
      rewire_all n beta half (suc i) left (rewire_row n beta i 1 half s)

  -- The graph, of which the source returns the edges.
  unfoldable pub generate_ws : ℕ → ℕ → F → R → Graph × R
  generate_ws n k beta r = rewire_all n beta (k / 2) 0 n (lattice n (k / 2) 0 n empty_graph, r)
