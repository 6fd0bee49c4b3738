-- ===== src/Domain/Preferential/Growth.antt =====
-- The graph grows to the given number of nodes, by m edges for each.
use mathlib.Core.List.{Perm}
use peerkit.Prelude.{
  ℕ, zero, suc, ◌+◌, ◌-◌, ◌*◌, ◌≤◌, ◌<◌, ◌≡◌, refl, ◌∙◌, subst, true, false, some, List, [], ◌∷◌,
  length, ◌==◌, arith, All, Bool-cases, inl, inr,
}
use peerkit.P2p.HopWave.Targets.{length_Perm}
use peerkit.Domain.Rng.{Rng}
use peerkit.Domain.Edge.{Graph, empty_graph, add_generated_edge}
use peerkit.Domain.Edge.Simple.{IsSimple}
use peerkit.Domain.Edge.Degrees.{
  IsCounted, IsCounted-wider, add_generated_edge-IsCounted, add_generated_edge-adjacent,
  add_generated_edge-degrees, length-add_generated_edge, degrees-add_generated_edge,
}
use peerkit.Domain.Components.Stack.{count, bit}
use peerkit.Domain.Components.Chain.{All-count, All-of-count, count-Perm}
use peerkit.Domain.Preferential.{RangeOrder, clique_from, attach, select_targets, grow, generate_ba}
use peerkit.Domain.Preferential.Choice.{IsTargets, select_targets-IsTargets}
use peerkit.Domain.Preferential.Clique.{pairs, clique_lem}

-- What attaching a node changes: a simple graph stays, with one edge more for each target.
record IsAttached (n node size : ℕ) (g h : Graph) : Type 0 where
  counted : IsCounted n h
  edges : length h.edges ≡ size + length g.edges
  degrees : (x : ℕ) → g.degrees x ≤ h.degrees x
  used : 0 < size → 0 < h.degrees node

attach-IsAttached :
    (n node : ℕ) (ts : List ℕ) (g : Graph)
    → node < n
    → All (λ t. t < node) ts
    → ((x : ℕ) → count x ts + bit (g.adjacent node x) ≤ 1)
    → IsCounted n g
    → IsAttached n node (length ts) g (attach node ts g)
unfolding attach count
attach-IsAttached n node [] g h a f c = record {
  counted = c;
  edges = omega arith;
  degrees = λ x. omega arith;
  used = λ e. absurd (omega arith);
}
attach-IsAttached n node (t ∷ ts) g h a f c =
    let fresh : g.adjacent node t ≡ false = ground (arith, f t) in
    let g' = add_generated_edge node t g in
    let rest =
      attach-IsAttached n node ts g' h a.1
        (λ x. ground (arith, f x, add_generated_edge-adjacent node t g node x fresh, a.0))
        (add_generated_edge-IsCounted n node t g h (omega arith) (λ e. omega arith) c) in
    record {
      counted = rest.counted;
      edges = omega (arith, rest.edges, length-add_generated_edge node t g fresh);
      degrees = λ x. omega (arith, rest.degrees x, add_generated_edge-degrees node t g x);
      used = λ e. omega (arith, rest.degrees node, degrees-add_generated_edge node t g fresh);
    }

-- A graph over `node` nodes, none of which is alone.
record IsGrown (node : ℕ) (g : Graph) : Type 0 where
  counted : IsCounted node g
  positive : (x : ℕ) → x < node → 0 < g.degrees x

attach-IsGrown :
    (m node : ℕ) (ts us : List ℕ) (g : Graph)
    → 0 < m
    → Perm us ts
    → IsTargets m node ts
    → IsGrown node g
    → IsGrown (suc node) (attach node us g) × (length (attach node us g).edges ≡ m + length g.edges)
attach-IsGrown m node ts us g h p k s =
    let below : All (λ t. t < node) us =
      All-of-count (λ t. t < node) us
        λ x c. All-count (λ t. t < node) ts x k.below (omega (arith, count-Perm x p)) in
    let apart : (x : ℕ) → count x us + bit (g.adjacent node x) ≤ 1 =
      λ x. ground (arith, k.once x, count-Perm x p, s.counted.simple.in_range node x) in
    let a =
      attach-IsAttached (suc node) node us g (omega arith) below apart
        (IsCounted-wider node (suc node) g (omega arith) s.counted) in
    let size = length_Perm p ∙ k.size in
    (
      record {
        counted = a.counted;
        positive = λ x b. elim (Bool-cases (x == node)) [
          | inl e ↦
              subst (λ y. 0 < (attach node us g).degrees y) (the_node x e)
                (a.used (omega (arith, size)))
          | inr e ↦ omega (arith, a.degrees x, s.positive x (ground arith))
        ];
      },
      omega (arith, a.edges, size),
    )
  where
    the_node : (x : ℕ) → (x == node) ≡ true → node ≡ x
    the_node x e = ground arith

module _ {F R : Type 0} (rng : Rng F R) (ord : RangeOrder) (rounds : ℕ) where
  grow-IsGrown :
      (m node left n : ℕ) (g : Graph) (r : R)
      → node + left ≡ n
      → 0 < m
      → m ≤ node
      → IsGrown node g
      → (h : Graph) × ((grow rng ord rounds m node left g r).0 ≡ some h)
        × IsGrown n h
        × (length h.edges ≡ left * m + length g.edges)
  unfolding grow
  grow-IsGrown m node zero n g r w h k s =
      let e : node ≡ n = omega arith in (g, refl, subst (λ i. IsGrown i g) e s, omega arith)
  grow-IsGrown m node (suc left) n g r w h k s =
      let (ts, e, t) = select_targets-IsTargets rng ord rounds m node g.degrees r s.positive k in
      let one = attach-IsGrown m node ts (ord.order node ts) g h (ord.order-perm node ts) t s in
      let rest =
        grow-IsGrown m (suc node) left n (attach node (ord.order node ts) g)
          (select_targets rng ord rounds (suc m) m node g.degrees [] r).1 (omega arith) h
          (omega arith) one.0 in
      (rest.0, rw (e, grow) rest.1, rest.2, omega (arith, rest.3, one.1))

  pairs_closed : (n : ℕ) → 2 * pairs n + n ≡ n * n
  unfolding pairs
  pairs_closed zero = omega arith
  pairs_closed (suc n) = omega (arith, pairs_closed n)

  -- For 0 < m < n the generator returns, whatever is drawn and in whatever order the maps are visited:
  -- it never panics, and never runs into the loop that draws again. The graph is simple over the n
  -- nodes, no node has degree 0, and there are m edges for each node after the first m + 1 and one for
  -- each pair of those.
  pub generate_ba_total :
      (n m : ℕ) (r : R)
      → 0 < m
      → m < n
      → (g : Graph) × ((generate_ba rng ord rounds n m r).0 ≡ some g)
        × IsSimple n g
        × ((x : ℕ) → x < n → 0 < g.degrees x)
        × (2 * length g.edges ≡ (m + 1) * m + 2 * (n - (m + 1)) * m)
  unfolding generate_ba
  generate_ba_total n m r h k =
      let clique = clique_lem (m + 1) in
      let start : IsGrown (m + 1) (clique_from (m + 1) 0 (m + 1) empty_graph) = record {
        counted = clique.0;
        positive = λ x b. elim (Bool-cases (x == 0)) [
          | inl e ↦ clique.0.busy x 1 (ground (arith, clique.1 x 1))
          | inr e ↦ clique.0.busy x 0 (ground (arith, clique.1 x 0))
        ];
      } in
      let (g, e, s, l) =
        grow-IsGrown m (m + 1) (n - (m + 1)) n (clique_from (m + 1) 0 (m + 1) empty_graph) r
          (omega arith) h (omega arith) start in
      (g, e, s.counted.simple, s.positive, omega (arith, l, clique.2, pairs_closed (m + 1)))
