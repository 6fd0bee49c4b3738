-- ===== src/Domain/Opportunistic/Clique.antt =====
-- The nodes that BA-opportunistic starts with are as many as wanted, and different.
use peerkit.Prelude.{
  ℕ, zero, suc, ◌+◌, ◌-◌, ◌≤◌, ◌<◌, ◌≡◌, ◌≢◌, refl, subst, Bool, true, false, Option, none, some,
  List, [], ◌∷◌, ◌++◌, number_key, contains, length-append, if◌then◌else◌, arith, All-append,
  Bool-cases, inl, inr, ltb, ◌||◌, ◌&&◌,
}
use peerkit.Float.{FloatOps}
use peerkit.Domain.Components.Stack.{count}
use peerkit.Domain.Preferential.Choice.{hits, hits-le-length, IsTargets, count-contains}
use peerkit.Domain.Opportunistic.{fastest, better, best_from, select_more, select_initial_clique}

count-append : (x : ℕ) (xs ys : List ℕ) → count x (xs ++ ys) ≡ count x xs + count x ys
unfolding count
count-append x [] ys = omega arith
count-append x (y ∷ xs) ys = ground (arith, count-append x xs ys)

contains-same : (xs : List ℕ) (x y : ℕ) → x ≡ y → contains xs x ≡ contains xs y
contains-same xs x y e = cc

one-IsTargets : (n x : ℕ) → x < n → IsTargets 1 n (x ∷ [])
unfolding count
one-IsTargets n x h = record { size = refl; below = (h, tt); once = λ y. ground arith }

-- A node below n that is not selected yet, if any.
abbrev IsFresh : ℕ → List ℕ → Option ℕ → Type 0
IsFresh n selected none = Unit
IsFresh n selected (some b) = (b < n) × (contains selected b ≡ false)

abbrev node_of : {F : Type 0} → Option (ℕ × F) → Option ℕ
node_of none = none
node_of (some b) = some b.0

if-some : {A : Type 0} (t : Bool) (x y : A) → (if t then some x else some y) ≢ none
if-some true x y h = ground arith
if-some false x y h = ground arith

if_none :
    {A S P : Type 0} (t : Bool) (x y : Option A × S)
    → (if t then x else y).0 ≡ none
    → (t ≡ true → x.0 ≡ none → P)
    → (t ≡ false → y.0 ≡ none → P)
    → P
if_none true x y h f g = f refl h
if_none false x y h f g = g refl h

append-IsTargets :
    (size n b : ℕ) (xs : List ℕ)
    → IsTargets size n xs
    → b < n
    → contains xs b ≡ false
    → IsTargets (suc size) n (xs ++ b ∷ [])
unfolding count
append-IsTargets size n b xs k h f = record {
  size = omega (arith, k.size, length-append xs (b ∷ []));
  below = All-append (λ t. t < n) xs (b ∷ []) k.below (h, tt);
  once = λ x.
      ground
        (arith, k.once x, count-append x xs (b ∷ []), count-contains xs x, contains-same xs x b);
}

module _ {F S : Type 0} ⦃fl : FloatOps F⦄ (processing : ℕ → F)
    (pair_delay : ℕ → ℕ → S → F × S) where
  better-IsFresh :
      (n : ℕ) (selected : List ℕ) (best : Option (ℕ × F)) (c : ℕ) (score : F)
      → c < n
      → contains selected c ≡ false
      → IsFresh n selected (node_of best)
      → IsFresh n selected (node_of (better best c score))
  better-IsFresh n selected none c score h k f = (h, k)
  better-IsFresh n selected (some (b, s)) c score h k f =
      elim (Bool-cases (fl.lt score s || (fl.eq score s && ltb c b))) [
        | inl e ↦ rw e (h, k)
        | inr e ↦ rw e f
      ]

  better-some : (best : Option (ℕ × F)) (c : ℕ) (score : F) → better best c score ≢ none
  better-some none c score h = ground arith
  better-some (some (b, s)) c score h =
      if-some (fl.lt score s || (fl.eq score s && ltb c b)) (c, score) (b, s) h

  best_from-IsFresh :
      (n : ℕ) (selected : List ℕ) (c left : ℕ) (best : Option (ℕ × F)) (s : S)
      → c + left ≤ n
      → IsFresh n selected (node_of best)
      → IsFresh n selected (node_of (best_from processing pair_delay selected c left best s).0)
  unfolding best_from
  best_from-IsFresh n selected c zero best s h f = f
  best_from-IsFresh n selected c (suc left) best s h f = elim (Bool-cases (contains selected c)) [
    | inl e ↦ rw (e, best_from) (best_from-IsFresh n selected (suc c) left best s (omega arith) f)
    | inr e ↦
        rw (e, best_from)
          (best_from-IsFresh n selected (suc c) left _ _ (omega arith)
            (better-IsFresh n selected best c _ (omega arith) e f))
  ]

  best_from-none :
      (selected : List ℕ) (c left : ℕ) (best : Option (ℕ × F)) (s : S)
      → (best_from processing pair_delay selected c left best s).0 ≡ none
      → (best ≡ none) × (left ≤ hits selected c left)
  unfolding best_from hits
  best_from-none selected c zero best s h = (h, omega arith)
  best_from-none selected c (suc left) best s h =
      if_none (contains selected c) _ _ h
        (λ e p.
          let q = best_from-none selected (suc c) left best s p in
          (q.0, rw (e, hits) (omega (arith, q.1))))
        (λ e p. absurd (better-some best c _ (best_from-none selected (suc c) left _ _ p).0))

  -- The result of selecting more nodes, where they make `size` in all.
  abbrev IsSelection : ℕ → ℕ → Option (List ℕ) × S → Type 0
  IsSelection size n x = (xs : List ℕ) × (x.0 ≡ some xs) × IsTargets size n xs

  select_best :
      (size total n : ℕ) (selected : List ℕ) (best : Option (ℕ × F)) (s : S)
      → (rest : List ℕ → Option (List ℕ) × S) → IsTargets size n selected
      → IsFresh n selected (node_of best)
      → best ≢ none
      → ((xs : List ℕ) → IsTargets (suc size) n xs → IsSelection total n (rest xs))
      → IsSelection total n (elim best [ none ↦ (none, s) | some b ↦ rest (selected ++ b.0 ∷ []) ])
  select_best size total n selected none s rest k f h go = absurd (h refl)
  select_best size total n selected (some b) s rest k f h go =
      go (selected ++ b.0 ∷ []) (append-IsTargets size n b.0 selected k f.0 f.1)

  select_more-IsTargets :
      (left size n : ℕ) (selected : List ℕ) (s : S)
      → size + left ≤ n
      → IsTargets size n selected
      → IsSelection (size + left) n (select_more processing pair_delay left n selected s)
  unfolding select_more
  select_more-IsTargets zero size n selected s h k =
      (selected, refl, subst (λ q. IsTargets q n selected) (omega arith) k)
  select_more-IsTargets (suc left) size n selected s h k =
      let best = best_from processing pair_delay selected 0 n none s in
      select_best size (size + suc left) n selected best.0 best.1
        (λ xs. select_more processing pair_delay left n xs best.1) k
        (best_from-IsFresh n selected 0 n none s (omega arith) tt)
        (λ e.
          omega
            (arith, (best_from-none selected 0 n none s e).1, hits-le-length selected 0 n, k.size))
        (λ xs j.
          subst (λ q. IsSelection q n (select_more processing pair_delay left n xs best.1))
            (omega arith) (select_more-IsTargets left (suc size) n xs best.1 (omega arith) j))

  fastest-bound :
      (n first c left : ℕ)
      → first < n
      → c + left ≤ n
      → fastest processing pair_delay first c left < n
  unfolding fastest
  fastest-bound n first c zero h k = h
  fastest-bound n first c (suc left) h k =
      elim (Bool-cases (fl.lt (processing c) (processing first))) [
        | inl e ↦ rw (e, fastest) (fastest-bound n c (suc c) left (omega arith) (omega arith))
        | inr e ↦ rw (e, fastest) (fastest-bound n first (suc c) left h (omega arith))
      ]

  -- Of n nodes selectOpportunisticInitialClique gives `initial` different ones, if 1 ≤ initial ≤ n,
  -- whatever the delays are: it never selects the node -1.
  pub select_initial_clique-IsTargets :
      (n initial : ℕ) (s : S)
      → 1 ≤ initial
      → initial ≤ n
      → (xs : List ℕ) × ((select_initial_clique processing pair_delay n initial s).0 ≡ some xs)
        × IsTargets initial n xs
  unfolding select_initial_clique
  select_initial_clique-IsTargets n initial s h k =
      let first = fastest processing pair_delay 0 1 (n - 1) in
      subst
        (λ q. IsSelection q n (select_more processing pair_delay (initial - 1) n (first ∷ []) s))
        (omega arith)
        (select_more-IsTargets (initial - 1) 1 n (first ∷ []) s (omega arith)
          (one-IsTargets n first (fastest-bound n 0 1 (n - 1) (omega arith) (omega arith))))
