-- ===== src/Domain/SmallWorld/Laws.antt =====
-- The small-world graph is simple, and rewiring keeps the number of its edges.
use native.Mathlib.Nat.{mod-lt}
use peerkit.Prelude.{
  ℕ, zero, suc, ◌+◌, ◌/◌, ◌%◌, ◌≤◌, ◌<◌, ◌≡◌, ◌≢◌, refl, sym, ◌∙◌, true, false, not, ◌||◌, List, [],
  ◌∷◌, length, get_or, ◌==◌, arith, All, Bool-cases, inl, inr,
}
use peerkit.Float.{FloatOps}
use peerkit.Domain.Rng.{Rng}
use peerkit.Domain.Edge.{Graph, empty_graph, set_pair, remove_simple_generated_edge}
use peerkit.Domain.Edge.Simple.{
  IsSimple, empty_graph-IsSimple, add_simple_generated_edge-IsSimple,
  remove_simple_generated_edge-IsSimple,
}
use peerkit.Domain.Edge.Size.{length-add_simple, length-remove_simple}
use peerkit.Domain.SmallWorld.{
  lattice_row, lattice, candidates_from, move_edge, rewire_to, rewire, rewire_row, rewire_all,
  generate_ws,
}

lattice_row-IsSimple :
    (n i distance left : ℕ) (g : Graph)
    → i < n
    → IsSimple n g
    → IsSimple n (lattice_row n i distance left g)
unfolding lattice_row
lattice_row-IsSimple n i distance zero g h s = s
lattice_row-IsSimple n i distance (suc left) g h s =
    lattice_row-IsSimple n i (suc distance) left _ h (
      add_simple_generated_edge-IsSimple n i ((i + distance) % n) g s h
        (mod-lt (i + distance) (omega arith)))

lattice-IsSimple :
    (n half i left : ℕ) (g : Graph)
    → i + left ≤ n
    → IsSimple n g
    → IsSimple n (lattice n half i left g)
unfolding lattice
lattice-IsSimple n half i zero g h s = s
lattice-IsSimple n half i (suc left) g h s =
    lattice-IsSimple n half (suc i) left _ (omega arith)
      (lattice_row-IsSimple n i 1 half g (omega arith) s)

-- A candidate is another node in range that is not adjacent.
abbrev IsCandidate : ℕ → Graph → ℕ → ℕ → Type 0
IsCandidate n g i c = (c < n) × (c ≢ i) × (g.adjacent i c ≡ false)

candidates_from-IsCandidate :
    (n : ℕ) (g : Graph) (i candidate left : ℕ)
    → candidate + left ≤ n
    → All (IsCandidate n g i) (candidates_from g i candidate left)
unfolding candidates_from
candidates_from-IsCandidate n g i candidate zero h = tt
candidates_from-IsCandidate n g i candidate (suc left) h =
    let rest = candidates_from-IsCandidate n g i (suc candidate) left (omega arith) in
    elim (Bool-cases (candidate == i || g.adjacent i candidate)) [
      | inl e ↦ rw (e, candidates_from) rest
      | inr e ↦ rw (e, candidates_from) ((omega arith, ground arith, ground arith), rest)
    ]

All-get_or {ℓ} :
    {A : Type ℓ} (P : A → Type 0) (xs : List A) (i : ℕ) (d : A) → P d → All P xs → P (get_or xs i d)
All-get_or P [] i d h a = h
All-get_or P (x ∷ xs) zero d h a = a.0
All-get_or P (x ∷ xs) (suc i) d h a = All-get_or P xs i d h a.1

-- Rewired from g: simple, with as many edges.
abbrev pub IsRewired : ℕ → Graph → Graph → Type 0
IsRewired n g g' = IsSimple n g' × (length g'.edges ≡ length g.edges)

still_free :
    (i original c : ℕ) (g : Graph)
    → g.adjacent i c ≡ false
    → (remove_simple_generated_edge i original g).adjacent i c ≡ false
unfolding remove_simple_generated_edge set_pair
still_free i original c g h = ground arith

move_edge-IsRewired :
    (n i original c : ℕ) (g : Graph)
    → IsSimple n g
    → i < n
    → g.adjacent i original ≡ true
    → IsCandidate n g i c
    → IsRewired n g (move_edge i original c g)
unfolding move_edge
move_edge-IsRewired n i original c g s h a k =
    let g1 = remove_simple_generated_edge i original g in
    let s1 = remove_simple_generated_edge-IsSimple n i original g s in
    (
      add_simple_generated_edge-IsSimple n i c g1 s1 h k.0,
      length-add_simple i c g1 (still_free i original c g k.2) (λ e. k.1 (sym e))
          ∙ length-remove_simple n i original g s a,
    )

module _ {F R : Type 0} ⦃fl : FloatOps F⦄ (rng : Rng F R) where
  rewire_to-IsRewired :
      (n i original : ℕ) (cs : List ℕ) (g : Graph) (r : R)
      → IsSimple n g
      → i < n
      → g.adjacent i original ≡ true
      → All (IsCandidate n g i) cs
      → IsRewired n g (rewire_to rng i original cs (g, r)).0
  unfolding rewire_to
  rewire_to-IsRewired n i original [] g r s h a k = (s, refl)
  rewire_to-IsRewired n i original (c ∷ cs) g r s h a k =
      move_edge-IsRewired n i original _ g s h a
        (All-get_or (IsCandidate n g i) (c ∷ cs) (rng.intn (length (c ∷ cs)) r).0 c k.0 k)

  rewire-IsRewired :
      (n : ℕ) (beta : F) (i distance : ℕ) (g : Graph) (r : R)
      → IsSimple n g
      → i < n
      → IsRewired n g (rewire rng n beta i distance (g, r)).0
  unfolding rewire
  rewire-IsRewired n beta i distance g r s h =
      let original = (i + distance) % n in
      elim (Bool-cases (fl.le beta (rng.float64 r).0 || not (g.adjacent i original))) [
        | inl e ↦ rw (e, rewire) (s, refl)
        | inr e ↦
            rw (e, rewire)
              (rewire_to-IsRewired n i original (candidates_from g i 0 n) g (rng.float64 r).1 s h
                (ground arith) (candidates_from-IsCandidate n g i 0 n (omega arith)))
      ]

  rewire_row-IsRewired :
      (n : ℕ) (beta : F) (i distance left : ℕ) (g : Graph) (r : R)
      → IsSimple n g
      → i < n
      → IsRewired n g (rewire_row rng n beta i distance left (g, r)).0
  unfolding rewire_row
  rewire_row-IsRewired n beta i distance zero g r s h = (s, refl)
  rewire_row-IsRewired n beta i distance (suc left) g r s h =
      let (g1, r1) = rewire rng n beta i distance (g, r) in
      let one = rewire-IsRewired n beta i distance g r s h in
      let rest = rewire_row-IsRewired n beta i (suc distance) left g1 r1 one.0 h in
      (rest.0, rest.1 ∙ one.1)

  rewire_all-IsRewired :
      (n : ℕ) (beta : F) (half i left : ℕ) (g : Graph) (r : R)
      → IsSimple n g
      → i + left ≤ n
      → IsRewired n g (rewire_all rng n beta half i left (g, r)).0
  unfolding rewire_all
  rewire_all-IsRewired n beta half i zero g r s h = (s, refl)
  rewire_all-IsRewired n beta half i (suc left) g r s h =
      let (g1, r1) = rewire_row rng n beta i 1 half (g, r) in
      let one = rewire_row-IsRewired n beta i 1 half g r s (omega arith) in
      let rest = rewire_all-IsRewired n beta half (suc i) left g1 r1 one.0 (omega arith) in
      (rest.0, rest.1 ∙ one.1)

  -- Whatever is drawn, the small-world graph is simple over its nodes (no loop, no pair twice, edge
  -- list and adjacency in agreement), and has as many edges as the ring lattice that it starts from.
  pub generate_ws-IsRewired :
      (n k : ℕ) (beta : F) (r : R)
      → IsRewired n (lattice n (k / 2) 0 n empty_graph) (generate_ws rng n k beta r).0
  unfolding generate_ws
  generate_ws-IsRewired n k beta r =
      rewire_all-IsRewired n beta (k / 2) 0 n _ r
        (lattice-IsSimple n (k / 2) 0 n empty_graph (omega arith) (empty_graph-IsSimple n))
        (omega arith)
