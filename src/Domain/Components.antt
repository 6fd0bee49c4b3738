-- ===== src/Domain/Components.antt =====
-- internal/config/domain.go, `generatedComponents` and `connectGeneratedComponents`: the components of
-- a generated graph by a search with a stack, and their connection by a chain of random members. The
-- slice `visited` is a function of the node, the top of the stack is the head of the list.
pub mod Stack
pub mod Walks
pub mod Partition
pub mod Chain
pub mod Connect
use mathlib.Core.List.{Perm}
use peerkit.Prelude.{
  ℕ, zero, suc, ◌+◌, Bool, true, false, List, [], ◌∷◌, ◌++◌, length, get_or, leb, ◌==◌,
  if◌then◌else◌,
}
use peerkit.Domain.Rng.{Rng}
use peerkit.Domain.Edge.{GeneratedEdge, canonical_generated_edge}

abbrev pub when {ℓ} : {A : Type ℓ} → Bool → A → List A
when b x = if b then x ∷ [] else []

-- `adjacency[x]` after the loop over the edges.
unfoldable pub neighbors_of : List GeneratedEdge → ℕ → List ℕ
neighbors_of [] x = []
neighbors_of (e ∷ es) x = when (e.a == x) e.b ++ (when (e.b == x) e.a ++ neighbors_of es x)

-- `visited[x] = true`.
unfoldable pub mark : (ℕ → Bool) → ℕ → ℕ → Bool
mark visited x y = if x == y then true else visited y

pub record Search : Type 0 where
  pub visited : ℕ → Bool
  pub stack : List ℕ
  pub component : List ℕ

-- The loop over the neighbors of a node.
unfoldable pub push_unvisited : List ℕ → Search → Search
push_unvisited [] s = s
push_unvisited (x ∷ xs) s =
    push_unvisited xs
      (if s.visited x then s else record s { visited = mark s.visited x; stack = x ∷ s.stack })

-- `for len(stack) > 0`.
unfoldable pub explore : ℕ → List GeneratedEdge → Search → Search
explore zero es s = s
explore (suc fuel) es s = elim s.stack [
  | [] ↦ s
  | node ∷ rest ↦ explore fuel es (
      push_unvisited (neighbors_of es node)
        (record s { stack = rest; component = s.component ++ node ∷ [] }))
]

abbrev pub start_at : (ℕ → Bool) → ℕ → Search
start_at visited start = record { visited = mark visited start; stack = start ∷ []; component = [] }

-- What the outer loop keeps.
pub record Found : Type 0 where
  pub visited : ℕ → Bool
  pub components : List (List ℕ)

-- A node is pushed once at most, so that n rounds are enough for n nodes.
unfoldable pub search_from : ℕ → List GeneratedEdge → ℕ → Found → Found
search_from n es start f =
    if f.visited start
    then f
    else (let s = explore n es (start_at f.visited start) in
        record { visited = s.visited; components = f.components ++ s.component ∷ [] })

-- The outer loop from `start` on, for `left` nodes.
unfoldable pub search_all : ℕ → List GeneratedEdge → ℕ → ℕ → Found → Found
search_all n es start zero f = f
search_all n es start (suc left) f = search_all n es (suc start) left (search_from n es start f)

abbrev pub nothing_found : Found
nothing_found = record { visited = λ x. false; components = [] }

unfoldable pub generated_components : ℕ → List GeneratedEdge → List (List ℕ)
generated_components n es = (search_all n es 0 n nothing_found).components

-- The edges between successive representatives.
unfoldable pub chain : List ℕ → List GeneratedEdge
chain [] = []
chain (x ∷ []) = []
chain (x ∷ y ∷ xs) = canonical_generated_edge x y ∷ chain (y ∷ xs)

-- rng.Shuffle with the swap of two representatives: some permutation.
pub record Shuffling (R : Type 0) : Type 0 where
  pub shuffle : List ℕ → R → List ℕ × R
  pub shuffle-perm : (xs : List ℕ) (r : R) → Perm (shuffle xs r).0 xs

module _ {F R : Type 0} (rng : Rng F R) (sh : Shuffling R) where
  -- One random member of each component.
  unfoldable pub representatives : List (List ℕ) → R → List ℕ × R
  representatives [] r = ([], r)
  representatives (c ∷ cs) r =
      let (index, r1) = rng.intn (length c) r in
      let (rest, r2) = representatives cs r1 in (get_or c index 0 ∷ rest, r2)

  unfoldable pub connect_generated_components : ℕ → List GeneratedEdge → R → List GeneratedEdge × R
  connect_generated_components n es r =
      let components = generated_components n es in
      if leb (length components) 1
      then (es, r)
      else (let (chosen, r1) = representatives components r in
          let (shuffled, r2) = sh.shuffle chosen r1 in (es ++ chain shuffled, r2))
