-- ===== src/Domain/Components/Chain.antt =====
-- A chain of edges links its nodes; walks are transitive, symmetric and kept by more edges.
use mathlib.Core.List.{Perm, Permᴰ}
use mathlib.Core.Logic.{∥∥₁_elim}
use native.Mathlib.Nat.{ℕ_set}
use peerkit.Prelude.{
  ℕ, ◌-◌, ◌<◌, ◌≡◌, refl, ◌∙◌, subst, true, List, [], ◌∷◌, ◌++◌, length, ◌||◌, ◌==◌, arith, All,
  All-mono, Bool-cases, inl, inr,
}
use peerkit.Domain.Edge.{GeneratedEdge, canonical_generated_edge, canonicalize_generated_edge}
use peerkit.Domain.Edge.Normal.{links, linked}
use peerkit.Domain.Components.{chain}
use peerkit.Domain.Components.Stack.{count, InRange}
use peerkit.Domain.Components.Walks.{Walk, linked_comm}

pub Walk_trans : {es : List GeneratedEdge} {x y z : ℕ} → Walk es x y → Walk es y z → Walk es x z
Walk_trans p Walk.here = p
Walk_trans p (Walk.step q l) = Walk.step (Walk_trans p q) l

pub Walk_sym : {es : List GeneratedEdge} {x y : ℕ} → Walk es x y → Walk es y x
Walk_sym Walk.here = Walk.here
Walk_sym {es} (Walk.step {y} {z} q l) =
    Walk_trans (Walk.step Walk.here (linked_comm es z y ∙ l)) (Walk_sym q)

pub Walk_mono :
    {es fs : List GeneratedEdge} {x y : ℕ}
    → ((u v : ℕ) → linked es u v ≡ true → linked fs u v ≡ true)
    → Walk es x y
    → Walk fs x y
Walk_mono f Walk.here = Walk.here
Walk_mono f (Walk.step q l) = Walk.step (Walk_mono f q) (f _ _ l)

pub linked-append :
    (es fs : List GeneratedEdge) (x y : ℕ)
    → linked (es ++ fs) x y ≡ (linked es x y || linked fs x y)
unfolding linked
linked-append [] fs x y = refl
linked-append (e ∷ es) fs x y = ground (arith, linked-append es fs x y)

pub All-count : (P : ℕ → Type 0) (xs : List ℕ) (x : ℕ) → All P xs → 0 < count x xs → P x
unfolding count
All-count P [] x a c = absurd (omega arith)
All-count P (y ∷ xs) x a c = elim (Bool-cases (y == x)) [
  | inl e ↦ subst P (same e) a.0
  | inr e ↦ All-count P xs x a.1 (ground arith)
]
  where
    same : (y == x) ≡ true → y ≡ x
    same e = ground arith

pub All-of-count : (P : ℕ → Type 0) (xs : List ℕ) → ((x : ℕ) → 0 < count x xs → P x) → All P xs
unfolding count
All-of-count P [] f = tt
All-of-count P (y ∷ xs) f = (f y (ground arith), All-of-count P xs (λ x c. f x (ground arith)))

count-Permᴰ : (x : ℕ) {xs ys : List ℕ} → Permᴰ xs ys → count x xs ≡ count x ys
unfolding count
count-Permᴰ x Permᴰ.nil = refl
count-Permᴰ x (Permᴰ.cons e p) = ground (arith, e, count-Permᴰ x p)
count-Permᴰ x (Permᴰ.swap e e') = ground (arith, e, e')
count-Permᴰ x (Permᴰ.trans p q) = count-Permᴰ x p ∙ count-Permᴰ x q

pub count-Perm : (x : ℕ) {xs ys : List ℕ} → Perm xs ys → count x xs ≡ count x ys
count-Perm x p = ∥∥₁_elim p (ℕ_set _ _) (count-Permᴰ x)

links-canonical : (x y : ℕ) → links (canonical_generated_edge x y) x y ≡ true
unfolding links canonical_generated_edge canonicalize_generated_edge
links-canonical x y = ground arith

-- The first representative of a chain reaches them all.
pub chain-reaches : (x : ℕ) (xs : List ℕ) → All (Walk (chain (x ∷ xs)) x) (x ∷ xs)
unfolding chain linked
chain-reaches x [] = (Walk.here, tt)
chain-reaches x (y ∷ xs) = (
  Walk.here,
  All-mono (Walk (chain (y ∷ xs)) y) (Walk (chain (x ∷ y ∷ xs)) x) (y ∷ xs) further
      (chain-reaches y xs),
)
  where
    further : (z : ℕ) → Walk (chain (y ∷ xs)) y z → Walk (chain (x ∷ y ∷ xs)) x z
    further z w =
        Walk_trans (Walk.step Walk.here (ground (arith, links-canonical x y)))
          (Walk_mono (λ u v l. ground arith) w)

pub length-chain : (xs : List ℕ) → length (chain xs) ≡ length xs - 1
unfolding chain
length-chain [] = refl
length-chain (x ∷ []) = refl
length-chain (x ∷ y ∷ xs) = omega (arith, length-chain (y ∷ xs))

InRange-canonical : (n x y : ℕ) → x < n → y < n → InRange n (canonical_generated_edge x y)
unfolding canonical_generated_edge canonicalize_generated_edge
InRange-canonical n x y h k = ground arith

pub InRange-chain : (n : ℕ) (xs : List ℕ) → All (λ x. x < n) xs → All (InRange n) (chain xs)
unfolding chain
InRange-chain n [] a = tt
InRange-chain n (x ∷ []) a = tt
InRange-chain n (x ∷ y ∷ xs) a = (InRange-canonical n x y a.0 a.1.0, InRange-chain n (y ∷ xs) a.1)
