-- ===== src/Domain/DoubleRing/Fill.antt =====
-- The candidates, and the last loop: it ends within its fuel, with the wanted number of edges or none.
use peerkit.Prelude.{
  ℕ, zero, suc, ◌+◌, ◌*◌, ◌%◌, ◌≤◌, ◌<◌, ◌≡◌, refl, ap, subst, ◌||◌, Option, none, some, List, [],
  ◌∷◌, length, ltb, leb, ◌==◌, arith, All, All-append, Bool-cases, inl, inr,
}
use peerkit.Domain.Edge.{GeneratedEdge, Graph}
use peerkit.Domain.Edge.Size.{length-add_simple_bound}
use peerkit.Domain.Edge.Simple.{IsSimple, add_simple_generated_edge-IsSimple}
use peerkit.Domain.Components.Stack.{InRange}
use peerkit.Domain.DoubleRing.{
  DrsError, Result, err, Candidates, ordered, has_candidate, try_candidate, candidate_row,
  candidate_rows, ring_candidates, Filling, put, take_inner, take_outer, choose, fill,
}
use peerkit.Domain.DoubleRing.Bounds.{IfOk, Below, get_or-Below}

ordered-InRange : (n x y : ℕ) → x < n → y < n → InRange n (ordered x y)
ordered-InRange n x y h k = ground arith

try_candidate-InRange :
    (n : ℕ) (g : Graph) (x y : ℕ) (c : Candidates)
    → x < n
    → y < n
    → All (InRange n) c.found
    → All (InRange n) (try_candidate g x y c).found
unfolding try_candidate
try_candidate-InRange n g x y c h k a =
    let e = ordered x y in
    elim (Bool-cases (x == y || has_candidate e.a e.b c.seen)) [
      | inl m ↦ rw (m, try_candidate) a
      | inr m ↦ elim (Bool-cases (g.adjacent e.a e.b)) [
        | inl q ↦ rw (m, q, try_candidate) a
        | inr q ↦
            rw (m, q, try_candidate)
              (All-append (InRange n) c.found (e ∷ []) a (ordered-InRange n x y h k, tt))
      ]
    ]

module _ (n : ℕ) (g : Graph) (ring : List ℕ) (h : 0 < n) (b : Below n ring) where
  candidate_row-InRange :
      (distance i left : ℕ) (c : Candidates)
      → All (InRange n) c.found
      → All (InRange n) (candidate_row g ring distance i left c).found
  unfolding candidate_row
  candidate_row-InRange distance i zero c a = a
  candidate_row-InRange distance i (suc left) c a = candidate_row-InRange distance (suc i) left _ (
      try_candidate-InRange n g _ _ c (get_or-Below n i ring h b)
        (get_or-Below n ((i + distance) % length ring) ring h b) a)

  candidate_rows-InRange :
      (distance left : ℕ) (c : Candidates)
      → All (InRange n) c.found
      → All (InRange n) (candidate_rows g ring distance left c).found
  unfolding candidate_rows
  candidate_rows-InRange distance zero c a = a
  candidate_rows-InRange distance (suc left) c a =
      candidate_rows-InRange (suc distance) left _
        (candidate_row-InRange distance 0 (length ring) c a)

  pub ring_candidates-InRange : All (InRange n) (ring_candidates g ring)
  unfolding ring_candidates
  ring_candidates-InRange = candidate_rows-InRange 2 _ _ tt

-- A round adds one edge at most, uses up one candidate, and keeps the graph simple.
put_bound : (e : GeneratedEdge) (g : Graph) → length (put e g).edges ≤ length g.edges + 1
put_bound e g = ground (arith, length-add_simple_bound e.a e.b g)

put-IsSimple :
    (n : ℕ) (e : GeneratedEdge) (g : Graph) → InRange n e → IsSimple n g → IsSimple n (put e g)
put-IsSimple n e g i k = elim (Bool-cases (g.adjacent e.a e.b)) [
  | inl m ↦ rw m k
  | inr m ↦ rw m (add_simple_generated_edge-IsSimple n e.a e.b g k i.0 i.1)
]

-- The state of the last loop over n nodes, with at most `target` edges.
pub record IsFilling (n target : ℕ) (s : Filling) : Type 0 where
  pub simple : IsSimple n s.graph
  pub inner : All (InRange n) s.inner_left
  pub outer : All (InRange n) s.outer_left
  pub bound : length s.graph.edges ≤ target

-- The loop ends with `target` edges, or for want of candidates.
abbrev pub IsFilled : ℕ → ℕ → Result Graph → Type 0
IsFilled n target x = IfOk (λ g. IsSimple n g × (length g.edges ≡ target)) x

abbrev pub work : Filling → ℕ
work s = length s.inner_left + length s.outer_left

module _ (n target : ℕ) (s : Filling) (k : IsFilling n target s)
    (l : length s.graph.edges < target) where
  take_inner-IsFilling :
      (e : GeneratedEdge) (es : List GeneratedEdge)
      → All (InRange n) (e ∷ es)
      → IsFilling n target (take_inner e es s)
  take_inner-IsFilling e es a = record {
    simple = put-IsSimple n e s.graph a.0 k.simple;
    inner = a.1;
    outer = k.outer;
    bound = omega (arith, put_bound e s.graph);
  }

  take_outer-IsFilling :
      (e : GeneratedEdge) (es : List GeneratedEdge)
      → All (InRange n) (e ∷ es)
      → IsFilling n target (take_outer e es s)
  take_outer-IsFilling e es a = record {
    simple = put-IsSimple n e s.graph a.0 k.simple;
    inner = k.inner;
    outer = a.1;
    bound = omega (arith, put_bound e s.graph);
  }

  -- A choice is a state of the loop with less work.
  abbrev IsStep : Option Filling → Type 0
  IsStep none = Unit
  IsStep (some s') = IsFilling n target s' × (work s' < work s)

  inner-IsStep :
      (e : GeneratedEdge) (es : List GeneratedEdge)
      → s.inner_left ≡ e ∷ es
      → IsStep (some (take_inner e es s))
  inner-IsStep e es p =
      (take_inner-IsFilling e es (subst (All (InRange n)) p k.inner), omega (arith, ap length p))

  outer-IsStep :
      (f : GeneratedEdge) (fs : List GeneratedEdge)
      → s.outer_left ≡ f ∷ fs
      → IsStep (some (take_outer f fs s))
  outer-IsStep f fs q =
      (take_outer-IsFilling f fs (subst (All (InRange n)) q k.outer), omega (arith, ap length q))

  choose-IsStep :
      (inner outer : ℕ) (es fs : List GeneratedEdge)
      → s.inner_left ≡ es
      → s.outer_left ≡ fs
      → IsStep (choose inner outer s es fs)
  choose-IsStep inner outer [] [] p q = tt
  choose-IsStep inner outer (e ∷ es) [] p q = inner-IsStep e es p
  choose-IsStep inner outer [] (f ∷ fs) p q = outer-IsStep f fs q
  choose-IsStep inner outer (e ∷ es) (f ∷ fs) p q =
      elim (Bool-cases (leb (s.inner_added * outer) (s.outer_added * inner))) [
        | inl m ↦ rw m (inner-IsStep e es p)
        | inr m ↦ rw m (outer-IsStep f fs q)
      ]

module _ (n target : ℕ) where
  abbrev Rest : ℕ → (Filling → Result Graph) → Type 0
  Rest fuel rest = (s : Filling) → work s < fuel → IsFilling n target s → IsFilled n target (rest s)

  go_on-IsFilled :
      (fuel : ℕ) (rest : Filling → Result Graph) (s : Filling) (k : IsFilling n target s)
      → (l : length s.graph.edges < target) → work s < suc fuel
      → Rest fuel rest
      → (o : Option Filling) → IsStep n target s k l o
      → IsFilled n target (elim o [ none ↦ err DrsError.too_few_edges | some s ↦ rest s ])
  go_on-IsFilled fuel rest s k l w f none p = grind arith
  go_on-IsFilled fuel rest s k l w f (some s') p = f s' (omega (arith, p.1)) p.0

module _ (n target inner outer : ℕ) where
  pub fill-IsFilled :
      (fuel : ℕ) (s : Filling)
      → work s < fuel
      → IsFilling n target s
      → IsFilled n target (fill fuel target inner outer s)
  unfolding fill
  fill-IsFilled zero s w k = omega arith
  fill-IsFilled (suc fuel) s w k = elim (Bool-cases (ltb (length s.graph.edges) target)) [
    | inl m ↦
        rw (m, fill)
          (go_on-IsFilled n target fuel (fill fuel target inner outer) s k (ground arith) w
            (fill-IsFilled fuel) _
            (choose-IsStep n target s k (ground arith) inner outer s.inner_left s.outer_left refl
              refl))
    | inr m ↦ rw (m, fill) (k.simple, ground (arith, k.bound))
  ]
