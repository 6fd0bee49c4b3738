-- ===== src/Examples/Domains.antt =====
-- The theorems on the models of domains and on their components, applied.
use mathlib.Core.List.Perm
use native.Mathlib.Nat.{mod-lt}
use peerkit.Prelude.{
  ℕ, ◌+◌, ◌-◌, ◌*◌, ◌%◌, ◌≤◌, ◌<◌, ◌≡◌, refl, true, false, ◌&&◌, some, List, [], ◌∷◌, ◌++◌, length,
  ltb, if◌then◌else◌, arith, All,
}
use peerkit.Int.{pos, leb_ℤ}
use peerkit.Float.{thousandths}
use peerkit.Domain.Rng.{Rng}
use peerkit.Domain.Edge.{GeneratedEdge, Graph}
use peerkit.Domain.Edge.Simple.{IsSimple}
use peerkit.Domain.Models.{
  plain, ok, err, DomainError, grid_from, grid_row, grid_cell, generate_grid,
}
use peerkit.Domain.Models.Lattice.{Fits, IsGrid, generate_grid-IsGrid, generate_grid-err}
use peerkit.Domain.Components.{
  explore, start_at, search_all, search_from, push_unvisited, neighbors_of, mark,
  generated_components, Shuffling, connect_generated_components,
}
use peerkit.Domain.Components.Stack.{InRange, unvisited, explore_empties}
use peerkit.Domain.Components.Walks.{Walk}
use peerkit.Domain.Components.Partition.{count_all, IsClass, generated_components_lem}
use peerkit.Domain.Components.Connect.{connect_generated_components_lem}
use peerkit.Domain.Preferential.{RangeOrder, generate_ba}
use peerkit.Domain.Preferential.Growth.{generate_ba_total}
use peerkit.Prelude.{Option, none, Text, codes, ◌/◌, text_eq, to_lower, lower_byte}
use peerkit.Config.Types.{NodeSpec}
use peerkit.Config.Defaults.{zero_constant}
use peerkit.Examples.Scenarios.{performance}
use peerkit.Domain.Edge.{add_simple_generated_edge, set_pair}
use peerkit.Domain.DoubleRing as Drs
use peerkit.Domain.DoubleRing.{
  generate_drs, baselines, build_rings, sort_by, insert_by, faster, nodes_from, add_ring,
  add_ring_from, link_all, link_outer, link_inner, shortcut_count, shortcut_candidates, fill_up,
  fill, ring_candidates, candidate_rows, candidate_row, try_candidate, has_candidate,
}
use peerkit.Domain.DoubleRing.Fill.{IsFilled}
use peerkit.Domain.DoubleRing.Whole.{generate_drs-IsFilled}
use peerkit.Prelude.{number_key, ◌≢◌, contains}
use peerkit.Domain.Opportunistic.{
  weighted_opportunity_choice, total_weight, opportunity_weight, pick_by_weight, last_free,
}
use peerkit.Domain.Opportunistic.Choice.{IsAllowed, weighted_opportunity_choice-IsAllowed}
use peerkit.Domain.Opportunistic.{
  select_initial_clique, select_more, best_from, link_total, fastest,
}
use peerkit.Domain.Opportunistic.Clique.{select_initial_clique-IsTargets}
use peerkit.Domain.Preferential.Choice.{IsTargets}

abbrev counting : Rng ℕ ℕ
counting = record {
  float64 = λ r. (r * 300 % 1000, r + 1);
  norm_float64 = λ r. (r * 300 % 1000, r + 1);
  exp_float64 = λ r. (r * 300 % 1000, r + 1);
  intn = λ n r. (r % n, r + 1);
  intn_bound = λ n r h. mod-lt r h;
}

abbrev unshuffled : Shuffling ℕ
unshuffled = record { shuffle = λ xs r. (xs, r + 1); shuffle-perm = λ xs r. Perm.refl xs }

abbrev as_listed : RangeOrder
as_listed = record { order = λ node keys. keys; order-perm = λ node keys. Perm.refl keys }

-- Two components and a node of its own.
abbrev two_pairs : List GeneratedEdge
two_pairs = plain 0 2 ∷ plain 1 3 ∷ []

two_pairs-InRange : All (InRange 5) two_pairs
two_pairs-InRange = ((omega arith, omega arith), ((omega arith, omega arith), tt))

components_run : generated_components 5 two_pairs ≡ (0 ∷ 2 ∷ []) ∷ (1 ∷ 3 ∷ []) ∷ (4 ∷ []) ∷ []
unfolding generated_components search_all search_from explore push_unvisited neighbors_of mark
components_run = refl

generated_components_lem_example :
    ((x : ℕ) → count_all x (generated_components 5 two_pairs) ≡ (if ltb x 5 then 1 else 0))
    × All (IsClass two_pairs) (generated_components 5 two_pairs)
generated_components_lem_example = generated_components_lem 5 two_pairs two_pairs-InRange

connect_generated_components_lem_example :
    let connected = (connect_generated_components counting unshuffled 5 two_pairs 7).0 in
    ((added : List GeneratedEdge) × (connected ≡ two_pairs ++ added)
      × (length added ≡ length (generated_components 5 two_pairs) - 1)
      × All (InRange 5) added)
    × ((x y : ℕ) → x < 5 → y < 5 → Walk connected x y)
connect_generated_components_lem_example =
    connect_generated_components_lem counting unshuffled two_pairs 5 7 two_pairs-InRange

enough_fuel : unvisited (start_at (λ x. false) 0).visited 5 + 1 ≤ 5
unfolding unvisited mark
enough_fuel = omega arith

explore_empties_example : (explore 5 two_pairs (start_at (λ x. false) 0)).stack ≡ []
explore_empties_example =
    explore_empties 5 5 two_pairs (start_at (λ x. false) 0) two_pairs-InRange enough_fuel

abbrev two_by_three : List GeneratedEdge
two_by_three =
    plain 0 1 ∷ plain 0 3 ∷ plain 1 2 ∷ plain 1 4 ∷ plain 2 5 ∷ plain 3 4 ∷ plain 4 5 ∷ []

generate_grid_run : generate_grid 6 (pos 2) (pos 0) ≡ ok two_by_three
unfolding generate_grid grid_from grid_row grid_cell
generate_grid_run = refl

generate_grid-IsGrid_example :
    (r : ℕ) × (c : ℕ) × IsGrid 6 r c two_by_three × Fits (pos 2) r × Fits (pos 0) c
generate_grid-IsGrid_example = generate_grid-IsGrid 6 (pos 2) (pos 0) two_by_three generate_grid_run

no_dimension : generate_grid 6 (pos 0) (pos 0) ≡ err DomainError.grid_size
unfolding generate_grid
no_dimension = refl

any_dimension : (d : ℕ) → Fits (pos 0) d
any_dimension d h = cc

generate_grid-err_example : (leb_ℤ (pos 0) (pos 0) && leb_ℤ (pos 0) (pos 0)) ≡ true
generate_grid-err_example =
    generate_grid-err 6 (pos 0) (pos 0) DomainError.grid_size (omega arith) no_dimension 2 3
      (any_dimension 2) (any_dimension 3) (omega arith)

generate_ba_total_example :
    (g : Graph) × ((generate_ba counting as_listed 0 6 2 1).0 ≡ some g)
    × IsSimple 6 g
    × ((x : ℕ) → x < 6 → 0 < g.degrees x)
    × (2 * length g.edges ≡ (2 + 1) * 2 + 2 * (6 - (2 + 1)) * 2)
generate_ba_total_example = generate_ba_total counting as_listed 0 6 2 1 (omega arith) (omega arith)

-- Eight nodes, of which the last four process fastest.
abbrev with_delay : Text → ℕ → NodeSpec ℕ
with_delay id ms = record {
  id = id;
  performance = some (record performance {
    processing_delay_distribution = record zero_constant { value_ms = ms };
  });
  resources = none;
}

abbrev eight_nodes : List (NodeSpec ℕ)
eight_nodes =
    with_delay (codes "n0") 9000
    ∷ with_delay (codes "n1") 8000
    ∷ with_delay (codes "n2") 7000
    ∷ with_delay (codes "n3") 6000
    ∷ with_delay (codes "n4") 2000
    ∷ with_delay (codes "n5") 2000
    ∷ with_delay (codes "n6") 1000
    ∷ with_delay (codes "n7") 3000
    ∷ []

abbrev edge_count_of : Drs.Result Graph → Option ℕ
edge_count_of (Drs.ok g) = some (length g.edges)
edge_count_of (Drs.err e) = none

generate_drs_run : edge_count_of (generate_drs unshuffled 8 4 500 1 eight_nodes 0) ≡ some 16
unfolding generate_drs baselines build_rings sort_by insert_by faster nodes_from add_ring
    add_ring_from link_all link_outer link_inner shortcut_count shortcut_candidates fill_up fill
    ring_candidates candidate_rows candidate_row try_candidate has_candidate
    add_simple_generated_edge text_eq to_lower lower_byte set_pair
generate_drs_run = refl

generate_drs-IsFilled_example :
    IsFilled 8 (8 * 4 / 2) (generate_drs unshuffled 8 4 500 1 eight_nodes 0)
generate_drs-IsFilled_example = generate_drs-IsFilled unshuffled 8 4 500 1 eight_nodes 0

-- Three candidates, of which one is excluded.
abbrev candidates : List ℕ
candidates = 4 ∷ 6 ∷ 9 ∷ []

abbrev degrees : ℕ → ℕ
degrees node = node % 4 + 1

abbrev no_delay : ℕ → ℕ
no_delay node = 1000

weighted_opportunity_choice_run :
    (weighted_opportunity_choice counting 5 candidates degrees no_delay no_delay (6 ∷ []) 1).0
    ≡ some 4
unfolding weighted_opportunity_choice total_weight pick_by_weight last_free contains
weighted_opportunity_choice_run = refl

abbrev excluded : List ℕ
excluded = 6 ∷ []

has_nine : contains candidates 9 ≡ true
unfolding contains
has_nine = refl

nine_left : contains excluded 9 ≡ false
unfolding contains
nine_left = refl

weighted_opportunity_choice-IsAllowed_example :
    let weight = opportunity_weight degrees no_delay no_delay in
    let total = total_weight (6 ∷ []) weight candidates (thousandths.of_int 0) in
    let choice =
      (weighted_opportunity_choice counting 5 candidates degrees no_delay no_delay (6 ∷ []) 1).0 in
    IsAllowed (6 ∷ []) candidates choice
    × (thousandths.le total (thousandths.of_int 0) ≡ false → choice ≢ none)
weighted_opportunity_choice-IsAllowed_example =
    weighted_opportunity_choice-IsAllowed counting 5 candidates (6 ∷ []) degrees no_delay no_delay 1
      9 has_nine nine_left

-- The processing of the nodes 0 to 4, and the delay between two nodes.
abbrev processing : ℕ → ℕ
processing node = (node + 2) % 5 * 1000

abbrev far_apart : ℕ → ℕ → ℕ → ℕ × ℕ
far_apart x y s = ((x + y) * 1000, s + 1)

select_initial_clique_run :
    (select_initial_clique processing far_apart 5 3 0).0 ≡ some (3 ∷ 0 ∷ 1 ∷ [])
unfolding select_initial_clique select_more best_from link_total fastest contains
select_initial_clique_run = refl

select_initial_clique-IsTargets_example :
    (xs : List ℕ) × ((select_initial_clique processing far_apart 5 3 0).0 ≡ some xs)
    × IsTargets 3 5 xs
select_initial_clique-IsTargets_example =
    select_initial_clique-IsTargets processing far_apart 5 3 0 (omega arith) (omega arith)
