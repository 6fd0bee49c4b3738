-- ===== src/Domain/Edge/Simple.antt =====
-- The edge list and the adjacency of a graph agree, and stay a simple graph.
use peerkit.Prelude.{
  ℕ, ◌+◌, ◌-◌, ◌<◌, ◌≡◌, refl, true, false, ◌&&◌, ◌||◌, none, List, [], ◌∷◌, ◌++◌, ltb, ◌==◌,
  if◌then◌else◌, arith, Bool-cases, inl, inr, All, All-append,
}
use peerkit.Domain.Edge.{
  GeneratedEdge, Graph, empty_graph, canonical_generated_edge, set_pair, add_simple_generated_edge,
  edge_eq, last_of, init_of, canonicalize_generated_edge, add_edge, drop_head, remove_first,
  remove_simple_generated_edge,
}

-- How many edges of the list go from x to y, in this orientation.
unfoldable pub edge_count : ℕ → ℕ → List GeneratedEdge → ℕ
edge_count x y [] = 0
edge_count x y (e ∷ es) = (if e.a == x && e.b == y then 1 else 0) + edge_count x y es

abbrev pub IsPlain : GeneratedEdge → Type 0
IsPlain e = e.delay_baseline ≡ none

-- Over the nodes below n: the adjacency is symmetric, without loops and in range; the list holds each
-- adjacent pair once, smaller end first, and nothing else.
pub record IsSimple (n : ℕ) (g : Graph) : Type 0 where
  pub symmetric : (x y : ℕ) → g.adjacent x y ≡ g.adjacent y x
  pub loopless : (x : ℕ) → g.adjacent x x ≡ false
  pub in_range : (x y : ℕ) → g.adjacent x y ≡ true → x < n
  pub counted : (x y : ℕ) → edge_count x y g.edges ≡ (if ltb x y && g.adjacent x y then 1 else 0)
  pub plain : All IsPlain g.edges

pub edge_count-append :
    (x y : ℕ) (es fs : List GeneratedEdge)
    → edge_count x y (es ++ fs) ≡ edge_count x y es + edge_count x y fs
unfolding edge_count
edge_count-append x y [] fs = omega arith
edge_count-append x y (e ∷ es) fs = omega (arith, edge_count-append x y es fs)

edge_count-drop_head :
    (x y : ℕ) (e : GeneratedEdge) (es : List GeneratedEdge)
    → edge_count x y (last_of e es ∷ init_of e es) ≡ edge_count x y (e ∷ es)
unfolding edge_count last_of init_of
edge_count-drop_head x y e [] = refl
edge_count-drop_head x y e (f ∷ es) = omega (arith, edge_count-drop_head x y f es)

drop_head_count :
    (x y : ℕ) (es : List GeneratedEdge) → edge_count x y (drop_head es) ≡ edge_count x y es
unfolding drop_head
drop_head_count x y [] = refl
drop_head_count x y (e ∷ es) = edge_count-drop_head x y e es

edge_count-remove_first :
    (x y : ℕ) (c : GeneratedEdge) (es : List GeneratedEdge)
    → IsPlain c
    → All IsPlain es
    → edge_count x y (remove_first c es)
      ≡ (if c.a == x && c.b == y then edge_count x y es - 1 else edge_count x y es)
unfolding remove_first edge_count edge_eq
edge_count-remove_first x y c [] p q = ground arith
edge_count-remove_first x y c (e ∷ es) p q =
    ground (arith, edge_count-remove_first x y c es p q.1, drop_head_count x y es)

IsPlain-last_of :
    (e : GeneratedEdge) (es : List GeneratedEdge)
    → All IsPlain (e ∷ es)
    → All IsPlain (last_of e es ∷ init_of e es)
unfolding last_of init_of
IsPlain-last_of e [] h = h
IsPlain-last_of e (f ∷ es) h = let rest = IsPlain-last_of f es h.1 in (rest.0, (h.0, rest.1))

IsPlain-remove_first :
    (c : GeneratedEdge) (es : List GeneratedEdge) → All IsPlain es → All IsPlain (remove_first c es)
unfolding remove_first drop_head
IsPlain-remove_first c [] h = tt
IsPlain-remove_first c (e ∷ es) h = elim (Bool-cases (edge_eq e c)) [
  | inl m ↦ rw (m, remove_first) (plain-drop es h.1)
  | inr m ↦ rw (m, remove_first) (h.0, IsPlain-remove_first c es h.1)
]
  where
    plain-drop : (es : List GeneratedEdge) → All IsPlain es → All IsPlain (drop_head es)
    plain-drop [] h = tt
    plain-drop (e ∷ es) h = IsPlain-last_of e es h

pub empty_graph-IsSimple : (n : ℕ) → IsSimple n empty_graph
unfolding edge_count
empty_graph-IsSimple n = record {
  symmetric = λ x y. refl;
  loopless = λ x. refl;
  in_range = λ x y h. cc;
  counted = λ x y. ground arith;
  plain = tt;
}

pub canonical-IsPlain : (a b : ℕ) → IsPlain (canonical_generated_edge a b)
unfolding canonical_generated_edge canonicalize_generated_edge
canonical-IsPlain a b = ground arith

module _ (n a b : ℕ) (g : Graph) (s : IsSimple n g) where
  same_adjacent : (u v x y : ℕ) → u ≡ x → v ≡ y → g.adjacent u v ≡ g.adjacent x y
  same_adjacent u v x y e f = cc

  IsPlain-add_edge : All IsPlain (add_simple_generated_edge a b g).edges
  unfolding add_simple_generated_edge add_edge
  IsPlain-add_edge = elim (Bool-cases (g.adjacent a b || a == b)) [
    | inl m ↦ rw m s.plain
    | inr m ↦ rw m (
        All-append IsPlain g.edges (canonical_generated_edge a b ∷ []) s.plain
          (canonical-IsPlain a b, tt))
  ]

  -- Adding an edge between two nodes keeps the graph simple, also where it is there already or a loop.
  pub add_simple_generated_edge-IsSimple :
      a < n → b < n → IsSimple n (add_simple_generated_edge a b g)
  unfolding add_simple_generated_edge add_edge set_pair edge_count canonical_generated_edge
      canonicalize_generated_edge
  add_simple_generated_edge-IsSimple ha hb = record {
    symmetric = λ x y. ground (arith, s.symmetric x y);
    loopless = λ x. ground (arith, s.loopless x);
    in_range = λ x y h. ground (arith, s.in_range x y);
    counted = λ x y. ground (
      arith,
      edge_count-append x y g.edges (canonical_generated_edge a b ∷ []),
      s.counted x y,
      s.symmetric x y,
      same_adjacent a b x y,
      same_adjacent a b y x,
      s.loopless x,
    );
    plain = IsPlain-add_edge;
  }

  -- Removing an edge keeps the graph simple, also where it is not there.
  pub remove_simple_generated_edge-IsSimple : IsSimple n (remove_simple_generated_edge a b g)
  unfolding remove_simple_generated_edge set_pair canonical_generated_edge
  remove_simple_generated_edge-IsSimple = record {
    symmetric = λ x y. ground (arith, s.symmetric x y);
    loopless = λ x. ground (arith, s.loopless x);
    in_range = λ x y h. ground (arith, s.in_range x y);
    counted = λ x y. ground (
      arith,
      edge_count-remove_first x y (canonical_generated_edge a b) g.edges (canonical-IsPlain a b)
          s.plain,
      s.counted x y,
      s.symmetric x y,
      same_adjacent a b x y,
      same_adjacent a b y x,
      s.loopless x,
    );
    plain = IsPlain-remove_first _ g.edges s.plain;
  }
