-- ===== src/Domain/DoubleRing/Bounds.antt =====
-- Every step of the generator keeps the graph simple.
use peerkit.Prelude.{
  ℕ, zero, suc, ◌+◌, ◌-◌, ◌%◌, ◌≤◌, ◌<◌, ◌≢◌, Bool, ◌||◌, List, [], ◌∷◌, length, get_or, take, drop,
  ltb, ◌==◌, arith, All, Bool-cases, inl, inr,
}
use peerkit.Domain.Edge.{Graph}
use peerkit.Domain.Edge.Simple.{IsSimple, add_simple_generated_edge-IsSimple}
use peerkit.Domain.Components.{Shuffling}
use peerkit.Domain.Components.Chain.{All-count, All-of-count, count-Perm}
use peerkit.Domain.DoubleRing.{
  insert_by, sort_by, nodes_from, Rings, add_ring_from, add_ring, link_all, shortcut_candidates,
  link_outer, link_inner, shortcut_count, DrsError, Result, ok, err,
}

-- A list of nodes below n.
abbrev pub Below : ℕ → List ℕ → Type 0
Below n = All (λ x. x < n)

insert_by-Below :
    (n : ℕ) (less : ℕ → ℕ → Bool) (x : ℕ) (xs : List ℕ)
    → x < n
    → Below n xs
    → Below n (insert_by less x xs)
unfolding insert_by
insert_by-Below n less x [] h a = (h, tt)
insert_by-Below n less x (y ∷ ys) h a = elim (Bool-cases (less y x)) [
  | inl e ↦ rw (e, insert_by) (a.0, insert_by-Below n less x ys h a.1)
  | inr e ↦ rw (e, insert_by) (h, a)
]

pub sort_by-Below :
    (n : ℕ) (less : ℕ → ℕ → Bool) (xs : List ℕ) → Below n xs → Below n (sort_by less xs)
unfolding sort_by
sort_by-Below n less [] a = tt
sort_by-Below n less (x ∷ xs) a =
    insert_by-Below n less x (sort_by less xs) a.0 (sort_by-Below n less xs a.1)

pub nodes_from-Below : (n i left : ℕ) → i + left ≤ n → Below n (nodes_from i left)
unfolding nodes_from
nodes_from-Below n i zero h = tt
nodes_from-Below n i (suc left) h = (omega arith, nodes_from-Below n (suc i) left (omega arith))

pub take-Below : (n k : ℕ) (xs : List ℕ) → Below n xs → Below n (take k xs)
take-Below n zero xs a = tt
take-Below n (suc k) [] a = tt
take-Below n (suc k) (x ∷ xs) a = (a.0, take-Below n k xs a.1)

pub drop-Below : (n k : ℕ) (xs : List ℕ) → Below n xs → Below n (drop k xs)
drop-Below n zero xs a = a
drop-Below n (suc k) [] a = tt
drop-Below n (suc k) (x ∷ xs) a = drop-Below n k xs a.1

pub get_or-Below : (n i : ℕ) (xs : List ℕ) → 0 < n → Below n xs → get_or xs i 0 < n
get_or-Below n i [] h a = h
get_or-Below n zero (x ∷ xs) h a = a.0
get_or-Below n (suc i) (x ∷ xs) h a = get_or-Below n i xs h a.1

pub shuffle-Below :
    {R : Type 0} (sh : Shuffling R) (n : ℕ) (xs : List ℕ) (r : R)
    → Below n xs
    → Below n (sh.shuffle xs r).0
shuffle-Below sh n xs r a =
    All-of-count (λ x. x < n) _
      λ x c. All-count (λ x. x < n) xs x a (ground (arith, count-Perm x (sh.shuffle-perm xs r)))

add_ring_from-IsSimple :
    (n : ℕ) (ring : List ℕ) (i left : ℕ) (s : Rings)
    → 0 < n
    → Below n ring
    → IsSimple n s.graph
    → IsSimple n (add_ring_from ring i left s).graph
unfolding add_ring_from
add_ring_from-IsSimple n ring i zero s h a k = k
add_ring_from-IsSimple n ring i (suc left) s h a k =
    add_ring_from-IsSimple n ring (suc i) left _ h a (
      add_simple_generated_edge-IsSimple n _ _ s.graph k (get_or-Below n i ring h a)
        (get_or-Below n ((i + 1) % length ring) ring h a))

pub add_ring-IsSimple :
    (n : ℕ) (ring : List ℕ) (s : Rings)
    → 0 < n
    → Below n ring
    → IsSimple n s.graph
    → IsSimple n (add_ring ring s).graph
unfolding add_ring
add_ring-IsSimple n ring s h a k = add_ring_from-IsSimple n ring 0 (length ring) s h a k

link_all-IsSimple :
    (n node : ℕ) (ts : List ℕ) (g : Graph)
    → node < n
    → Below n ts
    → IsSimple n g
    → IsSimple n (link_all node ts g)
unfolding link_all
link_all-IsSimple n node [] g h a k = k
link_all-IsSimple n node (t ∷ ts) g h a k =
    link_all-IsSimple n node ts _ h a.1 (add_simple_generated_edge-IsSimple n node t g k h a.0)

shortcut_candidates-Below :
    (n : ℕ) (s : Rings) (node : ℕ) (xs : List ℕ)
    → Below n xs
    → Below n (shortcut_candidates s node xs)
unfolding shortcut_candidates
shortcut_candidates-Below n s node [] a = tt
shortcut_candidates-Below n s node (x ∷ xs) a =
    elim (Bool-cases (x == node || (s.ring node x || s.graph.adjacent node x))) [
      | inl e ↦ rw (e, shortcut_candidates) (shortcut_candidates-Below n s node xs a.1)
      | inr e ↦ rw (e, shortcut_candidates) (a.0, shortcut_candidates-Below n s node xs a.1)
    ]

-- What holds of a result: P of the value, and an error is not that of the fuel.
abbrev pub IfOk : {A : Type 0} → (A → Type 0) → Result A → Type 0
IfOk P (err e) = e ≢ DrsError.cut_off
IfOk P (ok x) = P x

module _ {R : Type 0} (sh : Shuffling R) (n : ℕ) (inner : List ℕ) (beta : ℕ)
    (a : Below n inner) where
  pub link_outer-IsSimple :
      (nodes : List ℕ) (g : Graph) (r : R)
      → Below n nodes
      → IsSimple n g
      → IsSimple n (link_outer sh inner beta nodes (g, r)).0
  unfolding link_outer
  link_outer-IsSimple [] g r b k = k
  link_outer-IsSimple (node ∷ nodes) g r b k =
      link_outer-IsSimple nodes _ _ b.1
        (link_all-IsSimple n node _ g b.0 (take-Below n beta _ (shuffle-Below sh n inner r a)) k)

  pub link_inner-IsSimple :
      (nodes : List ℕ) (s : Rings) (r : R)
      → Below n nodes
      → IsSimple n s.graph
      → IfOk (λ x. IsSimple n x.0.graph) (link_inner sh inner beta nodes (s, r))
  unfolding link_inner
  link_inner-IsSimple [] s r b k = k
  link_inner-IsSimple (node ∷ nodes) s r b k =
      let need = beta - shortcut_count s node inner in
      let candidates = shortcut_candidates s node inner in
      let targets : Below n (take need (sh.shuffle candidates r).0) =
        take-Below n need _
          (shuffle-Below sh n candidates r (shortcut_candidates-Below n s node inner a)) in
      elim (Bool-cases (need == 0)) [
        | inl e ↦ rw (e, link_inner) (link_inner-IsSimple nodes s r b.1 k)
        | inr e ↦ elim (Bool-cases (ltb (length candidates) need)) [
          | inl q ↦ rw (e, q, link_inner) (grind arith)
          | inr q ↦
              rw (e, q, link_inner)
                (link_inner-IsSimple nodes _ _ b.1
                  (link_all-IsSimple n node _ s.graph b.0 targets k))
        ]
      ]
