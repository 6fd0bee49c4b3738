-- ===== src/Examples/Graphs.antt =====
-- The theorems on generated graphs, applied.
use peerkit.Prelude.{ℕ, ◌≡◌, ◌&&◌, none, List, [], ◌∷◌, ltb}
use native.Mathlib.Nat.{mod-lt}
use peerkit.Prelude.{◌+◌, ◌*◌, ◌/◌, ◌%◌}
use peerkit.Float.{thousandths}
use peerkit.Domain.Rng.{Rng}
use peerkit.Domain.SmallWorld.{lattice, generate_ws}
use peerkit.Domain.SmallWorld.Laws.{IsRewired, generate_ws-IsRewired}
use peerkit.Domain.Edge.{GeneratedEdge, empty_graph, normalize_generated_edges}
use peerkit.Domain.Edge.Normal.{IsSorted, has_pair, linked, normalize_generated_edges_lem}

abbrev plain_edge : ℕ → ℕ → GeneratedEdge
plain_edge a b = record { a = a; b = b; delay_baseline = none }

abbrev some_edges : List GeneratedEdge
some_edges = plain_edge 2 1 ∷ plain_edge 0 1 ∷ plain_edge 1 2 ∷ plain_edge 3 3 ∷ []

normalize_generated_edges_lem_example :
    IsSorted (normalize_generated_edges some_edges)
    × ((x y : ℕ)
        → has_pair (normalize_generated_edges some_edges) x y ≡ (ltb x y && linked some_edges x y))
normalize_generated_edges_lem_example = normalize_generated_edges_lem some_edges

abbrev counting : Rng ℕ ℕ
counting = record {
  float64 = λ r. (r * 300 % 1000, r + 1);
  norm_float64 = λ r. (r * 300 % 1000, r + 1);
  exp_float64 = λ r. (r * 300 % 1000, r + 1);
  intn = λ n r. (r % n, r + 1);
  intn_bound = λ n r h. mod-lt r h;
}

generate_ws-IsRewired_example :
    IsRewired 6 (lattice 6 (4 / 2) 0 6 empty_graph) (generate_ws counting 6 4 500 3).0
generate_ws-IsRewired_example = generate_ws-IsRewired counting 6 4 500 3
