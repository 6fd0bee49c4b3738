-- ===== src/Domain/Edge/Degrees.antt =====
-- Adding an edge with the degrees of its ends.
use peerkit.Prelude.{
  ℕ, suc, ◌≤◌, ◌<◌, ◌≡◌, ◌≢◌, ap, sym, ◌∙◌, subst, true, false, ◌&&◌, ◌||◌, [], ◌∷◌, length,
  length-append, ltb, ◌==◌, if◌then◌else◌, arith, All,
}
use peerkit.Domain.Edge.{
  Graph, canonical_generated_edge, set_pair, increment, add_edge, add_simple_generated_edge,
  add_generated_edge,
}
use peerkit.Domain.Edge.Simple.{IsSimple, IsPlain, add_simple_generated_edge-IsSimple}

-- A simple graph in which a node that is adjacent to another one has a degree that is not zero.
pub record IsCounted (n : ℕ) (g : Graph) : Type 0 where
  pub simple : IsSimple n g
  pub busy : (x y : ℕ) → g.adjacent x y ≡ true → 0 < g.degrees x

edges_same :
    (a b : ℕ) (g : Graph)
    → a ≢ b
    → (add_simple_generated_edge a b g).edges ≡ (add_generated_edge a b g).edges
unfolding add_simple_generated_edge add_generated_edge
edges_same a b g d = ground arith

adjacent_same :
    (a b : ℕ) (g : Graph) (x y : ℕ)
    → a ≢ b
    → (add_simple_generated_edge a b g).adjacent x y ≡ (add_generated_edge a b g).adjacent x y
unfolding add_simple_generated_edge add_generated_edge add_edge
adjacent_same a b g x y d = ground arith

IsSimple-same :
    (n : ℕ) (g h : Graph)
    → g.edges ≡ h.edges
    → ((x y : ℕ) → g.adjacent x y ≡ h.adjacent x y)
    → IsSimple n g
    → IsSimple n h
IsSimple-same n g h e a s = record {
  symmetric = λ x y. sym (a x y) ∙ s.symmetric x y ∙ a y x;
  loopless = λ x. sym (a x x) ∙ s.loopless x;
  in_range = λ x y k. s.in_range x y (a x y ∙ k);
  counted = λ x y. rw (← e) (s.counted x y ∙ ap (λ b. if ltb x y && b then 1 else 0) (a x y));
  plain = subst (All IsPlain) e s.plain;
}

IsSimple-wider : (n k : ℕ) (g : Graph) → n ≤ k → IsSimple n g → IsSimple k g
IsSimple-wider n k g h s = record {
  symmetric = s.symmetric;
  loopless = s.loopless;
  in_range = λ x y e. omega (arith, s.in_range x y e);
  counted = s.counted;
  plain = s.plain;
}

pub IsCounted-wider : (n k : ℕ) (g : Graph) → n ≤ k → IsCounted n g → IsCounted k g
IsCounted-wider n k g h c = record { simple = IsSimple-wider n k g h c.simple; busy = c.busy }

module _ (n a b : ℕ) (g : Graph) where
  pub add_generated_edge-IsCounted :
      a < n → b < n → a ≢ b → IsCounted n g → IsCounted n (add_generated_edge a b g)
  unfolding add_generated_edge add_edge set_pair increment
  add_generated_edge-IsCounted h k d c = record {
    simple =
        IsSimple-same n (add_simple_generated_edge a b g) (add_generated_edge a b g)
          (edges_same a b g d) (λ x y. adjacent_same a b g x y d)
          (add_simple_generated_edge-IsSimple n a b g c.simple h k);
    busy = λ x y e. ground (arith, c.busy x y);
  }

pub add_generated_edge-degrees :
    (a b : ℕ) (g : Graph) (x : ℕ) → g.degrees x ≤ (add_generated_edge a b g).degrees x
unfolding add_generated_edge add_edge increment
add_generated_edge-degrees a b g x = ground arith

pub add_generated_edge-adjacent :
    (a b : ℕ) (g : Graph) (x y : ℕ)
    → g.adjacent a b ≡ false
    → (add_generated_edge a b g).adjacent x y
      ≡ (((x == a && y == b) || (x == b && y == a)) || g.adjacent x y)
unfolding add_generated_edge add_edge set_pair
add_generated_edge-adjacent a b g x y h = ground arith

pub length-add_generated_edge :
    (a b : ℕ) (g : Graph)
    → g.adjacent a b ≡ false
    → length (add_generated_edge a b g).edges ≡ suc (length g.edges)
unfolding add_generated_edge add_edge
length-add_generated_edge a b g h =
    ground (arith, length-append g.edges (canonical_generated_edge a b ∷ []))

pub degrees-add_generated_edge :
    (a b : ℕ) (g : Graph) → g.adjacent a b ≡ false → 0 < (add_generated_edge a b g).degrees a
unfolding add_generated_edge add_edge increment
degrees-add_generated_edge a b g h = ground arith
