-- ===== src/Domain/Preferential/Choice.antt =====
-- A draw by degree never panics, and gives a node that is not excluded.
use peerkit.Prelude.{
  ℕ, zero, suc, ◌+◌, ◌-◌, ◌≤◌, ◌<◌, ◌≡◌, refl, subst, false, some, ◌&&◌, List, [], ◌∷◌, number_key,
  contains, insert, length, ltb, leb, ◌==◌, if◌then◌else◌, arith, All, Bool-cases, inl, inr,
}
use peerkit.Domain.Rng.{Rng}
use peerkit.Domain.Components.Stack.{count}
use peerkit.Domain.Preferential.{
  total_degree, pick, RangeOrder, weighted_degree_choice, select_targets,
}

contains-same : (xs : List ℕ) (x y : ℕ) → x ≡ y → contains xs x ≡ contains xs y
contains-same xs x y e = cc

-- How many nodes from `node` on, of `left`, are excluded.
unfoldable pub hits : List ℕ → ℕ → ℕ → ℕ
hits excluded node zero = 0
hits excluded node (suc left) =
    (if contains excluded node then 1 else 0) + hits excluded (suc node) left

hits-cons :
    (x : ℕ) (xs : List ℕ) (node left : ℕ)
    → hits (x ∷ xs) node left
      ≤ hits xs node left + (if leb node x && ltb x (node + left) then 1 else 0)
unfolding hits contains
hits-cons x xs node zero = omega arith
hits-cons x xs node (suc left) = ground (arith, hits-cons x xs (suc node) left)

hits-nil : (node left : ℕ) → hits [] node left ≡ 0
unfolding hits contains
hits-nil node zero = refl
hits-nil node (suc left) = omega (arith, hits-nil (suc node) left)

pub hits-le-length : (xs : List ℕ) (node left : ℕ) → hits xs node left ≤ length xs
hits-le-length [] node left = omega (arith, hits-nil node left)
hits-le-length (x ∷ xs) node left =
    ground (arith, hits-cons x xs node left, hits-le-length xs node left)

total_degree_bound :
    (excluded : List ℕ) (degrees : ℕ → ℕ) (node left : ℕ)
    → ((x : ℕ) → x < node + left → 0 < degrees x)
    → left ≤ total_degree excluded degrees node left + hits excluded node left
unfolding total_degree hits
total_degree_bound excluded degrees node zero h = omega arith
total_degree_bound excluded degrees node (suc left) h =
    ground (
      arith,
      total_degree_bound excluded degrees (suc node) left (λ x p. h x (omega arith)),
      h node,
    )

-- A node that may be picked.
abbrev pub IsFree : List ℕ → ℕ → ℕ → Type 0
IsFree excluded n t = (contains excluded t ≡ false) × (t < n)

pick-IsFree :
    (excluded : List ℕ) (degrees : ℕ → ℕ) (choice node left : ℕ)
    → choice < total_degree excluded degrees node left
    → (t : ℕ) × (pick excluded degrees choice node left ≡ some t) × IsFree excluded (node + left) t
unfolding total_degree pick
pick-IsFree excluded degrees choice node zero h = absurd (omega arith)
pick-IsFree excluded degrees choice node (suc left) h = elim (Bool-cases (contains excluded node)) [
  | inl e ↦
      let (t, p, f) = pick-IsFree excluded degrees choice (suc node) left (ground arith) in
      (t, rw (e, pick) p, (f.0, omega arith))
  | inr e ↦ elim (Bool-cases (ltb choice (degrees node))) [
    | inl q ↦ (node, rw (e, q, pick) refl, (e, omega arith))
    | inr q ↦
        let (t, p, f) =
          pick-IsFree excluded degrees (choice - degrees node) (suc node) left (ground arith) in
        (t, rw (e, q, pick) p, (f.0, omega arith))
  ]
]

module _ {F R : Type 0} (rng : Rng F R) (ord : RangeOrder) (rounds : ℕ) where
  weighted_degree_choice-IsFree :
      (degrees : ℕ → ℕ) (n : ℕ) (excluded : List ℕ) (r : R)
      → ((x : ℕ) → x < n → 0 < degrees x)
      → length excluded < n
      → (t : ℕ) × ((weighted_degree_choice rng ord rounds degrees n excluded r).0 ≡ some t)
        × IsFree excluded n t
  unfolding weighted_degree_choice
  weighted_degree_choice-IsFree degrees n excluded r d h =
      let total = total_degree excluded degrees 0 n in
      let positive : 0 < total = omega (
        arith,
        total_degree_bound excluded degrees 0 n (λ x p. d x (omega arith)),
        hits-le-length excluded 0 n,
      ) in
      let nonzero : (total == 0) ≡ false = ground arith in
      let (t, p, f) =
        pick-IsFree excluded degrees (rng.intn total r).0 0 n (rng.intn_bound total r positive) in
      (t, rw (nonzero, weighted_degree_choice) p, (f.0, omega arith))

pub count-contains : (xs : List ℕ) (x : ℕ) → contains xs x ≡ leb 1 (count x xs)
unfolding contains count
count-contains [] x = refl
count-contains (y ∷ xs) x = ground (arith, count-contains xs x)

-- m different nodes below `node`.
pub record IsTargets (m node : ℕ) (ts : List ℕ) : Type 0 where
  pub size : length ts ≡ m
  pub below : All (λ t. t < node) ts
  pub once : (x : ℕ) → count x ts ≤ 1

empty-IsTargets : (node : ℕ) → IsTargets 0 node []
unfolding count
empty-IsTargets node = record { size = refl; below = tt; once = λ x. omega arith }

insert-IsTargets :
    (m node t : ℕ) (ts : List ℕ)
    → IsTargets m node ts
    → IsFree ts node t
    → IsTargets (suc m) node (insert ts t)
unfolding insert count
insert-IsTargets m node t ts k f =
    rw (f.0, insert)
      (record {
        size = omega (arith, k.size);
        below = (f.1, k.below);
        once = λ x. ground (arith, k.once x, count-contains ts x, contains-same ts t x, f.0);
      })

module _ {F R : Type 0} (rng : Rng F R) (ord : RangeOrder) (rounds : ℕ) where
  select_from :
      (fuel m node size : ℕ) (degrees : ℕ → ℕ) (selected : List ℕ) (r : R)
      → ((x : ℕ) → x < node → 0 < degrees x)
      → m ≤ node
      → size ≤ m
      → m < fuel + size
      → IsTargets size node selected
      → (ts : List ℕ) × ((select_targets rng ord rounds fuel m node degrees selected r).0 ≡ some ts)
        × IsTargets m node ts
  unfolding select_targets
  select_from zero m node size degrees selected r d a b c k = absurd (omega arith)
  select_from (suc fuel) m node size degrees selected r d a b c k =
      elim (Bool-cases (ltb (length selected) m)) [
        | inl e ↦
            let free =
              weighted_degree_choice-IsFree rng ord rounds degrees node selected r d
                (ground arith) in
            let rest =
              select_from fuel m node (suc size) degrees (insert selected free.0)
                (weighted_degree_choice rng ord rounds degrees node selected r).1 d a
                (ground (arith, k.size)) (omega arith)
                (insert-IsTargets size node free.0 selected k free.2) in
            (rest.0, rw (e, free.1, select_targets) rest.1, rest.2)
        | inr e ↦
            let full : size ≡ m = ground (arith, k.size) in
            (selected, rw (e, select_targets) refl, subst (λ s. IsTargets s node selected) full k)
      ]

  -- The loop that selects targets ends, without a panic, with m different nodes, if there are that many.
  pub select_targets-IsTargets :
      (m node : ℕ) (degrees : ℕ → ℕ) (r : R)
      → ((x : ℕ) → x < node → 0 < degrees x)
      → m ≤ node
      → (ts : List ℕ) × ((select_targets rng ord rounds (suc m) m node degrees [] r).0 ≡ some ts)
        × IsTargets m node ts
  select_targets-IsTargets m node degrees r d a =
      select_from (suc m) m node 0 degrees [] r d a (omega arith) (omega arith)
        (empty-IsTargets node)
