-- ===== src/Domain/Models/Bounds.antt =====
-- The edges of the models link two different nodes, smaller end first.
use native.Mathlib.Nat.{mod-lt, mod-eq_of_lt, mod-eq-sub-mod}
use peerkit.Prelude.{
  ℕ, zero, suc, ◌+◌, ◌-◌, ◌%◌, ◌≤◌, ◌<◌, ◌≡◌, ◌∙◌, Bool, true, false, List, ◌∷◌, ltb, ◌==◌,
  if◌then◌else◌, arith, All, All-append, Bool-cases, inl, inr,
}
use peerkit.Float.{FloatOps}
use peerkit.Domain.Rng.{Rng}
use peerkit.Domain.Edge.{GeneratedEdge, canonical_generated_edge, canonicalize_generated_edge}
use peerkit.Domain.Models.{
  ring_from, generate_ring, path_from, generate_path, complete_row, complete_from,
  generate_complete, er_row, er_from, generate_er,
}

abbrev pub IsProper : ℕ → GeneratedEdge → Type 0
IsProper n e = (e.a < e.b) × (e.b < n)

pub canonical-IsProper :
    (n x y : ℕ) → x < n → y < n → (x == y) ≡ false → IsProper n (canonical_generated_edge x y)
unfolding canonical_generated_edge canonicalize_generated_edge
canonical-IsProper n x y h k d = ground arith

pub next_of : (n i : ℕ) → i < n → (i + 1) % n ≡ (if ltb (i + 1) n then i + 1 else 0)
next_of n i h = elim (Bool-cases (ltb (i + 1) n)) [
  | inl e ↦ rw e (mod-eq_of_lt (ground arith))
  | inr e ↦ rw e (
      let last : i + 1 ≡ n = ground arith in
      mod-eq-sub-mod {n = i + 1} {m = n} (omega arith)
      ∙ mod-eq_of_lt {n = i + 1 - n} {m = n} (omega arith)
      ∙ omega arith)
]

ring_from-IsProper : (n i left : ℕ) → 3 ≤ n → i + left ≤ n → All (IsProper n) (ring_from n i left)
unfolding ring_from
ring_from-IsProper n i zero h k = tt
ring_from-IsProper n i (suc left) h k = (
  canonical-IsProper n i ((i + 1) % n) (omega arith) (mod-lt (i + 1) (omega arith))
      (ground (arith, next_of n i)),
  ring_from-IsProper n (suc i) left h (omega arith),
)

pub generate_ring-IsProper : (n : ℕ) → 3 ≤ n → All (IsProper n) (generate_ring n)
unfolding generate_ring
generate_ring-IsProper n h = ring_from-IsProper n 0 n h (omega arith)

path_from-IsProper : (n i left : ℕ) → i + left < n → All (IsProper n) (path_from i left)
unfolding path_from
path_from-IsProper n i zero h = tt
path_from-IsProper n i (suc left) h =
    ((omega arith, omega arith), path_from-IsProper n (suc i) left (omega arith))

pub generate_path-IsProper : (n : ℕ) → 0 < n → All (IsProper n) (generate_path n)
unfolding generate_path
generate_path-IsProper n h = path_from-IsProper n 0 (n - 1) (omega arith)

complete_row-IsProper :
    (n i j left : ℕ) → i < j → j + left ≤ n → All (IsProper n) (complete_row i j left)
unfolding complete_row
complete_row-IsProper n i j zero h k = tt
complete_row-IsProper n i j (suc left) h k =
    ((h, omega arith), complete_row-IsProper n i (suc j) left (omega arith) (omega arith))

complete_from-IsProper : (n i left : ℕ) → i + left ≤ n → All (IsProper n) (complete_from n i left)
unfolding complete_from
complete_from-IsProper n i zero h = tt
complete_from-IsProper n i (suc left) h =
    All-append (IsProper n) (complete_row i (i + 1) (n - (i + 1))) _
      (complete_row-IsProper n i (i + 1) (n - (i + 1)) (omega arith) (omega arith))
      (complete_from-IsProper n (suc i) left (omega arith))

pub generate_complete-IsProper : (n : ℕ) → All (IsProper n) (generate_complete n)
unfolding generate_complete
generate_complete-IsProper n = complete_from-IsProper n 0 n (omega arith)

module _ {F R : Type 0} ⦃fl : FloatOps F⦄ (rng : Rng F R) where
  er_row-IsProper :
      (n : ℕ) (p : F) (i j left : ℕ) (r : R)
      → i < j
      → j + left ≤ n
      → All (IsProper n) (er_row rng p i j left r).0
  unfolding er_row
  er_row-IsProper n p i j zero r h k = tt
  er_row-IsProper n p i j (suc left) r h k =
      let (draw, r1) = rng.float64 r in
      let rest = er_row-IsProper n p i (suc j) left r1 (omega arith) (omega arith) in
      kept _ _ (fl.lt draw p) (h, omega arith) rest
    where
      kept :
          (e : GeneratedEdge) (es : List GeneratedEdge) (b : Bool)
          → IsProper n e
          → All (IsProper n) es
          → All (IsProper n) (if b then e ∷ es else es)
      kept e es true q a = (q, a)
      kept e es false q a = a

  er_from-IsProper :
      (n : ℕ) (p : F) (i left : ℕ) (r : R)
      → i + left ≤ n
      → All (IsProper n) (er_from rng n p i left r).0
  unfolding er_from
  er_from-IsProper n p i zero r h = tt
  er_from-IsProper n p i (suc left) r h =
      let (row, r1) = er_row rng p i (i + 1) (n - (i + 1)) r in
      All-append (IsProper n) row _
        (er_row-IsProper n p i (i + 1) (n - (i + 1)) r (omega arith) (omega arith))
        (er_from-IsProper n p (suc i) left r1 (omega arith))

  pub generate_er-IsProper : (n : ℕ) (p : F) (r : R) → All (IsProper n) (generate_er rng n p r).0
  unfolding generate_er
  generate_er-IsProper n p r = er_from-IsProper n p 0 n r (omega arith)
