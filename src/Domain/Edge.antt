-- ===== src/Domain/Edge.antt =====
-- Generated edges and the shared helpers of the generators: canonical edges, the edge list with its
-- adjacency, and the normalization of the final list. Nodes are indices, in range wherever the source
-- indexes by them; the adjacency maps are one set of ordered pairs. A delay baseline is a number of a
-- fixed unit, and `none` where hasDelayBaseline is false.
pub mod Simple
pub mod Normal
pub mod Size
pub mod Degrees
use peerkit.Prelude.{
  ℕ, suc, ◌+◌, Bool, true, false, not, ◌&&◌, ◌||◌, Option, none, some, List, [], ◌∷◌, ◌++◌, ltb,
  leb, ◌==◌, if◌then◌else◌,
}

pub record GeneratedEdge : Type 0 where
  pub a : ℕ
  pub b : ℕ
  pub delay_baseline : Option ℕ

unfoldable pub canonicalize_generated_edge : GeneratedEdge → GeneratedEdge
canonicalize_generated_edge e = if leb e.a e.b then e else record e { a = e.b; b = e.a }

unfoldable pub canonical_generated_edge : ℕ → ℕ → GeneratedEdge
unfolding canonicalize_generated_edge
canonical_generated_edge a b =
    canonicalize_generated_edge (record { a = a; b = b; delay_baseline = none })

-- `degrees` is read by the preferential-attachment models only.
pub record Graph : Type 0 where
  pub edges : List GeneratedEdge
  pub adjacent : ℕ → ℕ → Bool
  pub degrees : ℕ → ℕ

abbrev pub empty_graph : Graph
empty_graph = record { edges = []; adjacent = λ x y. false; degrees = λ x. 0 }

-- `adjacency[a][b] = struct{}{}; adjacency[b][a] = struct{}{}`, and the deletion of both.
unfoldable pub set_pair : (ℕ → ℕ → Bool) → ℕ → ℕ → Bool → ℕ → ℕ → Bool
set_pair adjacent a b v x y = if (x == a && y == b) || (x == b && y == a) then v else adjacent x y

increment : (ℕ → ℕ) → ℕ → ℕ → ℕ
increment degrees a x = if x == a then degrees x + 1 else degrees x

add_edge : GeneratedEdge → ℕ → ℕ → Graph → Graph
add_edge e a b g = record g { edges = g.edges ++ e ∷ []; adjacent = set_pair g.adjacent a b true }

unfoldable pub add_simple_generated_edge : ℕ → ℕ → Graph → Graph
unfolding add_edge
add_simple_generated_edge a b g =
    if g.adjacent a b || a == b then g else add_edge (canonical_generated_edge a b) a b g

unfoldable pub add_generated_edge : ℕ → ℕ → Graph → Graph
unfolding add_edge increment
add_generated_edge a b g =
    if g.adjacent a b then g else record (add_edge (canonical_generated_edge a b) a b g) {
      degrees = increment (increment g.degrees a) b;
    }

unfoldable pub add_generated_edge_with_delay : ℕ → ℕ → ℕ → Graph → Graph
unfolding add_edge increment
add_generated_edge_with_delay a b delay g =
    if g.adjacent a b
    then g
    else record (add_edge
        (canonicalize_generated_edge (record { a = a; b = b; delay_baseline = some delay })) a b
        g) { degrees = increment (increment g.degrees a) b }

option_eq : Option ℕ → Option ℕ → Bool
option_eq none none = true
option_eq (some x) (some y) = x == y
option_eq _ _ = false

-- `edge == canonical`, a comparison of all fields.
unfoldable pub edge_eq : GeneratedEdge → GeneratedEdge → Bool
unfolding option_eq
edge_eq d e = d.a == e.a && (d.b == e.b && option_eq d.delay_baseline e.delay_baseline)

last_of : GeneratedEdge → List GeneratedEdge → GeneratedEdge
last_of e [] = e
last_of e (f ∷ es) = last_of f es

init_of : GeneratedEdge → List GeneratedEdge → List GeneratedEdge
init_of e [] = []
init_of e (f ∷ es) = e ∷ init_of f es

-- What is left where the head of the list is dropped and the last entry takes its place.
drop_head : List GeneratedEdge → List GeneratedEdge
unfolding last_of init_of
drop_head [] = []
drop_head (e ∷ es) = last_of e es ∷ init_of e es

-- The first edge that equals the given one is overwritten by the last one, and the list cut by one.
unfoldable pub remove_first : GeneratedEdge → List GeneratedEdge → List GeneratedEdge
unfolding drop_head
remove_first c [] = []
remove_first c (e ∷ es) = if edge_eq e c then drop_head es else e ∷ remove_first c es

unfoldable pub remove_simple_generated_edge : ℕ → ℕ → Graph → Graph
remove_simple_generated_edge a b g = record g {
  edges = remove_first (canonical_generated_edge a b) g.edges;
  adjacent = set_pair g.adjacent a b false;
}

-- The key of an edge in the map of normalizeGeneratedEdges.
pub same_pair : GeneratedEdge → GeneratedEdge → Bool
same_pair d e = d.a == e.a && d.b == e.b

has_key : GeneratedEdge → List GeneratedEdge → Bool
has_key e [] = false
has_key e (f ∷ fs) = same_pair f e || has_key e fs

-- One round of the loop over the edges. The map is the list of its values: a loop is skipped, and the
-- first edge of each key stays.
put_unique : List GeneratedEdge → GeneratedEdge → List GeneratedEdge
unfolding has_key same_pair
put_unique unique e =
    let edge = canonicalize_generated_edge e in
    if e.a == e.b then unique else (if has_key edge unique then unique else edge ∷ unique)

unfoldable pub unique_from : List GeneratedEdge → List GeneratedEdge → List GeneratedEdge
unfolding put_unique
unique_from unique [] = unique
unique_from unique (e ∷ es) = unique_from (put_unique unique e) es

-- The order of the sort: by the first end, then by the second.
pub edge_before : GeneratedEdge → GeneratedEdge → Bool
edge_before d e = if not (d.a == e.a) then ltb d.a e.a else ltb d.b e.b

insert_edge : GeneratedEdge → List GeneratedEdge → List GeneratedEdge
unfolding edge_before
insert_edge e [] = e ∷ []
insert_edge e (f ∷ fs) = if edge_before f e then f ∷ insert_edge e fs else e ∷ f ∷ fs

-- sort.Slice; the keys of a map are distinct, so that the order has no ties.
unfoldable pub sort_edges : List GeneratedEdge → List GeneratedEdge
unfolding insert_edge
sort_edges [] = []
sort_edges (e ∷ es) = insert_edge e (sort_edges es)

unfoldable pub normalize_generated_edges : List GeneratedEdge → List GeneratedEdge
normalize_generated_edges es = sort_edges (unique_from [] es)
