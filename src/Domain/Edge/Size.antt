-- ===== src/Domain/Edge/Size.antt =====
-- How adding and removing change the number of edges.
use peerkit.Prelude.{
  ℕ, suc, ◌+◌, ◌-◌, ◌≤◌, ◌≡◌, ◌≢◌, refl, ap, true, false, List, [], ◌∷◌, length, length-append, leb,
  if◌then◌else◌, arith, All,
}
use peerkit.Domain.Edge.{
  GeneratedEdge, Graph, canonicalize_generated_edge, canonical_generated_edge, add_edge,
  add_simple_generated_edge, edge_eq, init_of, drop_head, remove_first,
  remove_simple_generated_edge,
}
use peerkit.Domain.Edge.Simple.{edge_count, IsPlain, IsSimple, canonical-IsPlain}

length-init_of : (e : GeneratedEdge) (es : List GeneratedEdge) → length (init_of e es) ≡ length es
unfolding init_of
length-init_of e [] = refl
length-init_of e (f ∷ es) = ap suc (length-init_of f es)

length-drop_head : (es : List GeneratedEdge) → length (drop_head es) ≡ length es
unfolding drop_head
length-drop_head [] = refl
length-drop_head (e ∷ es) = ap suc (length-init_of e es)

edge_count_bound : (x y : ℕ) (es : List GeneratedEdge) → edge_count x y es ≤ length es
unfolding edge_count
edge_count_bound x y [] = omega arith
edge_count_bound x y (e ∷ es) = ground (arith, edge_count_bound x y es)

length-remove_first :
    (c : GeneratedEdge) (es : List GeneratedEdge)
    → IsPlain c
    → All IsPlain es
    → length (remove_first c es)
      ≡ (if leb 1 (edge_count c.a c.b es) then length es - 1 else length es)
unfolding remove_first edge_count edge_eq
length-remove_first c [] p q = ground arith
length-remove_first c (e ∷ es) p q =
    ground (arith, length-remove_first c es p q.1, length-drop_head es, edge_count_bound c.a c.b es)

pub length-add_simple :
    (a b : ℕ) (g : Graph)
    → g.adjacent a b ≡ false
    → a ≢ b
    → length (add_simple_generated_edge a b g).edges ≡ suc (length g.edges)
unfolding add_simple_generated_edge add_edge
length-add_simple a b g h d =
    ground (arith, length-append g.edges (canonical_generated_edge a b ∷ []))

pub length-remove_simple :
    (n a b : ℕ) (g : Graph)
    → IsSimple n g
    → g.adjacent a b ≡ true
    → suc (length (remove_simple_generated_edge a b g).edges) ≡ length g.edges
unfolding remove_simple_generated_edge canonical_generated_edge canonicalize_generated_edge
length-remove_simple n a b g s h =
    let c = canonical_generated_edge a b in
    ground (
      arith,
      length-remove_first c g.edges (canonical-IsPlain a b) s.plain,
      edge_count_bound c.a c.b g.edges,
      s.counted a b,
      s.counted b a,
      s.symmetric a b,
      s.loopless a,
      ap (g.adjacent a) {x = a} {y = b},
    )

pub length-add_simple_bound :
    (a b : ℕ) (g : Graph) → length (add_simple_generated_edge a b g).edges ≤ length g.edges + 1
unfolding add_simple_generated_edge add_edge
length-add_simple_bound a b g =
    ground (arith, length-append g.edges (canonical_generated_edge a b ∷ []))
