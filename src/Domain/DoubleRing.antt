-- ===== src/Domain/DoubleRing.antt =====
-- internal/config/domain.go, `generateDRS`: the double-ring small world, whose inner ring has the nodes
-- with the lowest processing delays. `k` and `beta` are not negative, as generateDomainEdges checks
-- before.
pub mod Fill
pub mod Bounds
pub mod Whole
use peerkit.Prelude.{
  ℕ, zero, suc, ◌+◌, ◌-◌, ◌*◌, ◌/◌, ◌%◌, Bool, true, false, not, ◌&&◌, ◌||◌, Option, none, some,
  List, [], ◌∷◌, ◌++◌, Text, codes, text_eq, to_lower, number_key, contains, length, get_or, take,
  drop, ltb, leb, ◌==◌, if◌then◌else◌,
}
use peerkit.Float.{FloatOps}
use peerkit.Config.Types.{NodePerformance, NodeSpec}
use peerkit.Domain.Rng.{Rng}
use peerkit.Domain.Edge.{GeneratedEdge, Graph, empty_graph, set_pair, add_simple_generated_edge}
use peerkit.Domain.Components.{Shuffling}

pub data DrsError : Type 0 where
  k_range alpha_range ring_sizes beta_zero beta_too_large node_count : DrsError
  no_performance unresolved : Text → DrsError
  too_few_targets : ℕ → DrsError
  too_many_edges too_few_edges cut_off : DrsError

pub data Result {ℓ} (A : Type ℓ) : Type ℓ where
  ok : A → Result A
  err : DrsError → Result A

module _ {F : Type 0} ⦃fl : FloatOps F⦄ where
  abbrev pub baseline_of : Text → Option (NodePerformance F) → Result F
  baseline_of id none = err (no_performance id)
  baseline_of id (some p) =
      let d = p.processing_delay_distribution in
      if text_eq (to_lower d.type) (codes "constant") then ok d.value_ms else err (unresolved id)

  abbrev pub prepend : F → Result (List F) → Result (List F)
  prepend x (err e) = err e
  prepend x (ok xs) = ok (x ∷ xs)

  -- The loop over the nodes.
  unfoldable pub baselines : List (NodeSpec F) → Result (List F)
  baselines [] = ok []
  baselines (n ∷ ns) = elim (baseline_of n.id n.performance) [
    | err e ↦ err e
    | ok x ↦ prepend x (baselines ns)
  ]

  -- The order of the ranking, by baseline and then by index.
  unfoldable pub faster : List F → ℕ → ℕ → Bool
  faster xs i j =
      let x = get_or xs i (fl.of_int 0) in
      let y = get_or xs j (fl.of_int 0) in if not (fl.eq x y) then fl.lt x y else ltb i j

unfoldable pub insert_by : (ℕ → ℕ → Bool) → ℕ → List ℕ → List ℕ
insert_by less x [] = x ∷ []
insert_by less x (y ∷ ys) = if less y x then y ∷ insert_by less x ys else x ∷ y ∷ ys

-- sort.SliceStable and sort.Ints.
unfoldable pub sort_by : (ℕ → ℕ → Bool) → List ℕ → List ℕ
sort_by less [] = []
sort_by less (x ∷ xs) = insert_by less x (sort_by less xs)

-- The nodes from i on.
unfoldable pub nodes_from : ℕ → ℕ → List ℕ
nodes_from i zero = []
nodes_from i (suc left) = i ∷ nodes_from (suc i) left

-- The graph with ringAdjacency.
pub record Rings : Type 0 where
  pub graph : Graph
  pub ring : ℕ → ℕ → Bool

-- addRing, from index i on.
unfoldable pub add_ring_from : List ℕ → ℕ → ℕ → Rings → Rings
add_ring_from ring i zero s = s
add_ring_from ring i (suc left) s =
    let node = get_or ring i 0 in
    let next = get_or ring ((i + 1) % length ring) 0 in
    add_ring_from ring (suc i) left (record {
      graph = add_simple_generated_edge node next s.graph;
      ring = set_pair s.ring node next true;
    })

unfoldable pub add_ring : List ℕ → Rings → Rings
add_ring ring s = add_ring_from ring 0 (length ring) s

-- The edges from a node to each of the targets.
unfoldable pub link_all : ℕ → List ℕ → Graph → Graph
link_all node [] g = g
link_all node (t ∷ ts) g = link_all node ts (add_simple_generated_edge node t g)

-- innerShortcutCount: the neighbors in the core that are none on the ring.
unfoldable pub shortcut_count : Rings → ℕ → List ℕ → ℕ
shortcut_count s node [] = 0
shortcut_count s node (x ∷ xs) =
    let rest = shortcut_count s node xs in
    if s.graph.adjacent node x && not (s.ring node x) then suc rest else rest

unfoldable pub shortcut_candidates : Rings → ℕ → List ℕ → List ℕ
shortcut_candidates s node [] = []
shortcut_candidates s node (x ∷ xs) =
    let rest = shortcut_candidates s node xs in
    if x == node || (s.ring node x || s.graph.adjacent node x) then rest else x ∷ rest

module _ {R : Type 0} (sh : Shuffling R) where
  -- The access links of the outer nodes.
  unfoldable pub link_outer : List ℕ → ℕ → List ℕ → Graph × R → Graph × R
  link_outer inner beta [] s = s
  link_outer inner beta (node ∷ nodes) (g, r) =
      let (candidates, r1) = sh.shuffle inner r in
      link_outer inner beta nodes (link_all node (take beta candidates) g, r1)

  -- The shortcuts of the inner nodes.
  unfoldable pub link_inner : List ℕ → ℕ → List ℕ → Rings × R → Result (Rings × R)
  link_inner inner beta [] s = ok s
  link_inner inner beta (node ∷ nodes) (s, r) =
      let need = beta - shortcut_count s node inner in
      let candidates = shortcut_candidates s node inner in
      let (shuffled, r1) = sh.shuffle candidates r in
      let skip = link_inner inner beta nodes (s, r) in
      let linked =
        link_inner inner beta nodes
          (record s { graph = link_all node (take need shuffled) s.graph }, r1) in
      if need == 0
      then skip
      else (if ltb (length candidates) need then err (too_few_targets node) else linked)

-- ringCandidates: the inner loop from index i on, and the outer one from a distance on.
unfoldable pub has_candidate : ℕ → ℕ → List GeneratedEdge → Bool
has_candidate a b [] = false
has_candidate a b (e ∷ es) = (e.a == a && e.b == b) || has_candidate a b es

-- What the loops keep: `seen`, as the pairs themselves, and the candidates.
pub record Candidates : Type 0 where
  pub seen : List GeneratedEdge
  pub found : List GeneratedEdge

abbrev pub ordered : ℕ → ℕ → GeneratedEdge
ordered x y =
    if ltb y x
    then record { a = y; b = x; delay_baseline = none }
    else record { a = x; b = y; delay_baseline = none }

unfoldable pub try_candidate : Graph → ℕ → ℕ → Candidates → Candidates
try_candidate g node target c =
    let e = ordered node target in
    if node == target || has_candidate e.a e.b c.seen
    then c
    else (if g.adjacent e.a e.b
        then record c { seen = e ∷ c.seen }
        else record { seen = e ∷ c.seen; found = c.found ++ e ∷ [] })

unfoldable pub candidate_row : Graph → List ℕ → ℕ → ℕ → ℕ → Candidates → Candidates
candidate_row g ring distance i zero c = c
candidate_row g ring distance i (suc left) c =
    candidate_row g ring distance (suc i) left
      (try_candidate g (get_or ring i 0) (get_or ring ((i + distance) % length ring) 0) c)

unfoldable pub candidate_rows : Graph → List ℕ → ℕ → ℕ → Candidates → Candidates
candidate_rows g ring distance zero c = c
candidate_rows g ring distance (suc left) c =
    candidate_rows g ring (suc distance) left (candidate_row g ring distance 0 (length ring) c)

unfoldable pub ring_candidates : Graph → List ℕ → List GeneratedEdge
ring_candidates g ring =
    (candidate_rows g ring 2 (length ring / 2 - 1) (record { seen = []; found = [] })).found

-- The state of the last loop: what is left of the candidates, and how many were added.
pub record Filling : Type 0 where
  pub graph : Graph
  pub inner_left : List GeneratedEdge
  pub outer_left : List GeneratedEdge
  pub inner_added : ℕ
  pub outer_added : ℕ

abbrev pub put : GeneratedEdge → Graph → Graph
put e g = if g.adjacent e.a e.b then g else add_simple_generated_edge e.a e.b g

abbrev pub step_count : GeneratedEdge → Graph → ℕ → ℕ
step_count e g added = if g.adjacent e.a e.b then added else added + 1

abbrev pub take_inner : GeneratedEdge → List GeneratedEdge → Filling → Filling
take_inner e es s = record s {
  graph = put e s.graph;
  inner_left = es;
  inner_added = step_count e s.graph s.inner_added;
}

abbrev pub take_outer : GeneratedEdge → List GeneratedEdge → Filling → Filling
take_outer e es s = record s {
  graph = put e s.graph;
  outer_left = es;
  outer_added = step_count e s.graph s.outer_added;
}

-- The choice between the two rings, by their sizes; `none` where no candidate is left.
abbrev pub choose : ℕ → ℕ → Filling → List GeneratedEdge → List GeneratedEdge → Option Filling
choose inner outer s [] [] = none
choose inner outer s (e ∷ es) [] = some (take_inner e es s)
choose inner outer s [] (f ∷ fs) = some (take_outer f fs s)
choose inner outer s (e ∷ es) (f ∷ fs) = some (
    if leb (s.inner_added * outer) (s.outer_added * inner)
    then take_inner e es s
    else take_outer f fs s)

-- `for len(edges) < targetEdges`, on fuel; each round uses up one candidate.
unfoldable pub fill : ℕ → ℕ → ℕ → ℕ → Filling → Result Graph
fill zero target inner outer s = err cut_off
fill (suc fuel) target inner outer s = elim (ltb (length s.graph.edges) target) [
  | false ↦ ok s.graph
  | true ↦ elim (choose inner outer s s.inner_left s.outer_left) [
    | none ↦ err too_few_edges
    | some s' ↦ fill fuel target inner outer s'
  ]
]

-- The part behind the links that must be there.
unfoldable pub fill_up : ℕ → List ℕ → List ℕ → Graph → Result Graph
fill_up target inner outer g =
    let inner_candidates = ring_candidates g inner in
    let outer_candidates = ring_candidates g outer in
    if ltb target (length g.edges)
    then err too_many_edges
    else fill (length inner_candidates + length outer_candidates + 1) target (length inner)
        (length outer)
        (record {
          graph = g;
          inner_left = inner_candidates;
          outer_left = outer_candidates;
          inner_added = 0;
          outer_added = 0;
        })

module _ {R : Type 0} (sh : Shuffling R) where
  abbrev pub filled : ℕ → List ℕ → List ℕ → Result (Rings × R) → Result Graph
  filled target inner outer (err e) = err e
  filled target inner outer (ok (s, r)) = fill_up target inner outer s.graph

  -- From the two rings on.
  unfoldable pub build_rings : ℕ → ℕ → List ℕ → List ℕ → R → Result Graph
  build_rings target beta inner outer r =
      let start : Rings = record { graph = empty_graph; ring = λ x y. false } in
      let s = add_ring outer (add_ring inner start) in
      let (g, r1) = link_outer sh inner beta outer (s.graph, r) in
      let (order, r2) = sh.shuffle inner r1 in
      filled target inner outer (link_inner sh inner beta order (record s { graph = g }, r2))

  module _ {F : Type 0} ⦃fl : FloatOps F⦄ where
    abbrev pub ranked_rings : ℕ → ℕ → ℕ → ℕ → R → Result (List F) → Result Graph
    ranked_rings n target core beta r (err e) = err e
    ranked_rings n target core beta r (ok xs) =
        let ranked = sort_by (faster xs) (nodes_from 0 n) in
        build_rings target beta (sort_by ltb (take core ranked)) (sort_by ltb (drop core ranked)) r

    -- The graph, of which the source returns the edges.
    unfoldable pub generate_drs : ℕ → ℕ → F → ℕ → List (NodeSpec F) → R → Result Graph
    generate_drs n k alpha beta nodes r =
        let core = fl.ceil (fl.mul alpha (fl.of_int n)) in
        if k == 0 || (leb n k || not (k % 2 == 0))
        then err k_range
        else (if fl.le alpha (fl.of_int 0) || fl.le (fl.of_int 1) alpha
            then err alpha_range
            else (if ltb core 4 || ltb n (core + 3)
                then err ring_sizes
                else (if beta == 0
                    then err beta_zero
                    else (if ltb (core - 3) beta
                        then err beta_too_large
                        else (if not (length nodes == n)
                            then err node_count
                            else ranked_rings n (n * k / 2) core beta r (baselines nodes))))))
