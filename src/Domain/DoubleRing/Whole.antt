-- ===== src/Domain/DoubleRing/Whole.antt =====
-- The generator as a whole: it ends, with the wanted number of edges or with an error.
use peerkit.Prelude.{
  ℕ, ◌+◌, ◌-◌, ◌*◌, ◌%◌, ◌/◌, ◌<◌, ◌≡◌, ◌≢◌, refl, Bool, true, false, not, ◌||◌, Option, none, some,
  List, [], ◌∷◌, length, Text, codes, text_eq, to_lower, ltb, leb, ◌==◌, if◌then◌else◌, arith,
  Bool-cases, inl, inr,
}
use peerkit.Float.{FloatOps}
use peerkit.Config.Types.{NodePerformance, NodeSpec}
use peerkit.Domain.Edge.{Graph}
use peerkit.Domain.Edge.Simple.{IsSimple, empty_graph-IsSimple}
use peerkit.Domain.Components.{Shuffling}
use peerkit.Domain.DoubleRing.{
  DrsError, Result, ok, err, baseline_of, prepend, baselines, faster, Rings, fill_up, filled,
  build_rings, ranked_rings, generate_drs,
}
use peerkit.Domain.DoubleRing.Bounds.{
  Below, IfOk, sort_by-Below, nodes_from-Below, take-Below, drop-Below, shuffle-Below,
  add_ring-IsSimple, link_outer-IsSimple, link_inner-IsSimple,
}
use peerkit.Domain.DoubleRing.Fill.{IsFilled, fill-IsFilled, ring_candidates-InRange}

module _ (n target : ℕ) (h : 0 < n) (inner outer : List ℕ) (a : Below n inner)
    (b : Below n outer) where
  fill_up-IsFilled : (g : Graph) → IsSimple n g → IsFilled n target (fill_up target inner outer g)
  unfolding fill_up
  fill_up-IsFilled g k = elim (Bool-cases (ltb target (length g.edges))) [
    | inl m ↦ rw (m, fill_up) (grind arith)
    | inr m ↦
        rw (m, fill_up)
          (fill-IsFilled n target _ _ _ _ (omega arith) (record {
            simple = k;
            inner = ring_candidates-InRange n g inner h a;
            outer = ring_candidates-InRange n g outer h b;
            bound = ground arith;
          }))
  ]

  module _ {R : Type 0} (sh : Shuffling R) where
    filled-IsFilled :
        (x : Result (Rings × R))
        → IfOk (λ y. IsSimple n y.0.graph) x
        → IsFilled n target (filled sh target inner outer x)
    filled-IsFilled (err e) p = p
    filled-IsFilled (ok y) p = fill_up-IsFilled y.0.graph p

  build_rings-IsFilled :
      {R : Type 0} (sh : Shuffling R) (beta : ℕ) (r : R)
      → IsFilled n target (build_rings sh target beta inner outer r)
  unfolding build_rings
  build_rings-IsFilled sh beta r =
      let rings =
        add_ring-IsSimple n outer _ h b
          (add_ring-IsSimple n inner _ h a (empty_graph-IsSimple n)) in
      let linked = link_outer-IsSimple sh n inner beta a outer _ r b rings in
      filled-IsFilled sh _
        (link_inner-IsSimple sh n inner beta a _ _ _ (shuffle-Below sh n inner _ a) linked)

ring_sizes_positive : (n core : ℕ) → (ltb core 4 || ltb n (core + 3)) ≡ false → 0 < n
ring_sizes_positive n core h = ground arith

guard-IfOk :
    {A : Type 0} (P : A → Type 0) (b : Bool) (e : DrsError) (x : Result A)
    → e ≢ DrsError.cut_off
    → (b ≡ false → IfOk P x)
    → IfOk P (if b then err e else x)
guard-IfOk P true e x h f = h
guard-IfOk P false e x h f = f refl

module _ {F : Type 0} ⦃fl : FloatOps F⦄ where
  baseline_of-IfOk :
      (id : Text) (o : Option (NodePerformance F)) → IfOk (λ _. Unit) (baseline_of id o)
  baseline_of-IfOk id none = grind arith
  baseline_of-IfOk id (some p) =
      elim (Bool-cases
        (text_eq (to_lower p.processing_delay_distribution.type) (codes "constant"))) [
          | inl m ↦ rw m tt
          | inr m ↦ rw m (grind arith)
        ]

  prepend-IfOk :
      (x : F) (xs : Result (List F)) → IfOk (λ _. Unit) xs → IfOk (λ _. Unit) (prepend x xs)
  prepend-IfOk x (err e) p = p
  prepend-IfOk x (ok xs) p = tt

  next_baseline-IfOk :
      (x : Result F) (xs : Result (List F))
      → IfOk (λ _. Unit) x
      → IfOk (λ _. Unit) xs
      → IfOk {A = List F} (λ _. Unit) (elim x [ err e ↦ err e | ok y ↦ prepend y xs ])
  next_baseline-IfOk (err e) xs p q = p
  next_baseline-IfOk (ok y) xs p q = prepend-IfOk y xs q

  baselines-IfOk : (nodes : List (NodeSpec F)) → IfOk (λ _. Unit) (baselines nodes)
  unfolding baselines
  baselines-IfOk [] = tt
  baselines-IfOk (n ∷ ns) =
      next_baseline-IfOk _ (baselines ns) (baseline_of-IfOk n.id n.performance) (baselines-IfOk ns)

  module _ {R : Type 0} (sh : Shuffling R) where
    ranked_rings-IsFilled :
        (n target core beta : ℕ) (r : R) (x : Result (List F))
        → 0 < n
        → IfOk (λ _. Unit) x
        → IsFilled n target (ranked_rings sh n target core beta r x)
    ranked_rings-IsFilled n target core beta r (err e) h p = p
    ranked_rings-IsFilled n target core beta r (ok xs) h p =
        let ranked = sort_by-Below n (faster xs) _ (nodes_from-Below n 0 n (omega arith)) in
        build_rings-IsFilled n target h _ _ (sort_by-Below n ltb _ (take-Below n core _ ranked))
          (sort_by-Below n ltb _ (drop-Below n core _ ranked)) sh beta r

    -- generateDRS always ends without running out of the model's fuel: with a simple graph over
    -- the n nodes of exactly n * k / 2 edges, or with one of the source's errors.
    pub generate_drs-IsFilled :
        (n k : ℕ) (alpha : F) (beta : ℕ) (nodes : List (NodeSpec F)) (r : R)
        → IsFilled n (n * k / 2) (generate_drs sh n k alpha beta nodes r)
    unfolding generate_drs
    generate_drs-IsFilled n k alpha beta nodes r =
        let P : Graph → Type 0 = λ g. IsSimple n g × (length g.edges ≡ n * k / 2) in
        let core = fl.ceil (fl.mul alpha (fl.of_int n)) in
        guard-IfOk P (k == 0 || (leb n k || not (k % 2 == 0))) DrsError.k_range _ (grind arith) λ _.
          guard-IfOk P (fl.le alpha (fl.of_int 0) || fl.le (fl.of_int 1) alpha) DrsError.alpha_range
            _ (grind arith)
            λ _.
              guard-IfOk P (ltb core 4 || ltb n (core + 3)) DrsError.ring_sizes _ (grind arith)
                λ sizes. guard-IfOk P (beta == 0) DrsError.beta_zero _ (grind arith) λ _.
                  guard-IfOk P (ltb (core - 3) beta) DrsError.beta_too_large _ (grind arith) λ _.
                    guard-IfOk P (not (length nodes == n)) DrsError.node_count _ (grind arith) λ _.
                      ranked_rings-IsFilled n (n * k / 2) core beta r (baselines nodes)
                        (ring_sizes_positive n core sizes) (baselines-IfOk nodes)
