-- ===== src/Domain/Components/Stack.antt =====
-- One search: it empties its stack within its fuel, and takes each node once.
use peerkit.Prelude.{
  ℕ, zero, suc, ◌+◌, ◌≤◌, ◌<◌, ◌≡◌, refl, Bool, true, false, List, [], ◌∷◌, ◌++◌, length, ◌==◌, leb,
  if◌then◌else◌, arith, All, All-append, Bool-cases, List-cases, inl, inr,
}
use peerkit.Domain.Edge.{GeneratedEdge}
use peerkit.Domain.Components.{when, neighbors_of, mark, Search, push_unvisited, explore}

-- How often x occurs in the list.
unfoldable pub count : ℕ → List ℕ → ℕ
count x [] = 0
count x (y ∷ ys) = (if y == x then 1 else 0) + count x ys

pub count-append : (x : ℕ) (xs ys : List ℕ) → count x (xs ++ ys) ≡ count x xs + count x ys
unfolding count
count-append x [] ys = omega arith
count-append x (y ∷ xs) ys = omega (arith, count-append x xs ys)

abbrev pub bit : Bool → ℕ
bit b = if b then 1 else 0

-- How many of the nodes below n are not visited.
unfoldable pub unvisited : (ℕ → Bool) → ℕ → ℕ
unvisited v zero = 0
unvisited v (suc n) = (if v n then 0 else 1) + unvisited v n

pub unvisited-le : (v : ℕ → Bool) (n : ℕ) → unvisited v n ≤ n
unfolding unvisited
unvisited-le v zero = omega arith
unvisited-le v (suc n) = ground (arith, unvisited-le v n)

visited_same : (v : ℕ → Bool) (x y : ℕ) → x ≡ y → v x ≡ v y
visited_same v x y e = cc

pub unvisited-mark :
    (v : ℕ → Bool) (x n : ℕ)
    → v x ≡ false
    → unvisited (mark v x) n + (if leb (suc x) n then 1 else 0) ≡ unvisited v n
unfolding unvisited mark
unvisited-mark v x zero h = ground arith
unvisited-mark v x (suc n) h = ground (arith, unvisited-mark v x n h, visited_same v x n)

-- Both ends of an edge are nodes.
abbrev pub InRange : ℕ → GeneratedEdge → Type 0
InRange n e = (e.a < n) × (e.b < n)

pub neighbors_of-lt :
    (n : ℕ) (es : List GeneratedEdge) (x : ℕ)
    → All (InRange n) es
    → All (λ y. y < n) (neighbors_of es x)
unfolding neighbors_of
neighbors_of-lt n [] x h = tt
neighbors_of-lt n (e ∷ es) x h =
    All-append (λ y. y < n) (when (e.a == x) e.b) _ (All-when (e.a == x) e.b h.0.1)
      (All-append (λ y. y < n) (when (e.b == x) e.a) _ (All-when (e.b == x) e.a h.0.0)
        (neighbors_of-lt n es x h.1))
  where
    All-when : (b : Bool) (y : ℕ) → y < n → All (λ y. y < n) (when b y)
    All-when true y k = (k, tt)
    All-when false y k = tt

-- Marking and pushing only moves work to the stack.
push_measure :
    (n : ℕ) (xs : List ℕ) (s : Search)
    → All (λ y. y < n) xs
    → let s' = push_unvisited xs s in
      unvisited s'.visited n + length s'.stack ≡ unvisited s.visited n + length s.stack
unfolding push_unvisited
push_measure n [] s h = refl
push_measure n (x ∷ xs) s h = elim (Bool-cases (s.visited x)) [
  | inl e ↦ rw (e, push_unvisited) (push_measure n xs s h.1)
  | inr e ↦
      rw (e, push_unvisited)
        (omega (
          arith,
          push_measure n xs (record s { visited = mark s.visited x; stack = x ∷ s.stack }) h.1,
          marked e,
        ))
]
  where
    marked : s.visited x ≡ false → unvisited (mark s.visited x) n + 1 ≡ unvisited s.visited n
    marked e = ground (arith, unvisited-mark s.visited x n e, h.0)

-- With as much fuel as nodes are unvisited or on the stack, the search ends with an empty stack.
pub explore_empties :
    (n fuel : ℕ) (es : List GeneratedEdge) (s : Search)
    → All (InRange n) es
    → unvisited s.visited n + length s.stack ≤ fuel
    → (explore fuel es s).stack ≡ []
unfolding explore
explore_empties n zero es s h m = empty s.stack (omega arith)
  where
    empty : (xs : List ℕ) → length xs ≤ 0 → xs ≡ []
    empty [] k = refl
    empty (x ∷ xs) k = absurd (omega arith)
explore_empties n (suc fuel) es s h m = elim (List-cases s.stack) [
  | inl e ↦ rw (e, explore) e
  | inr (node, rest, e) ↦
      rw (e, explore)
        (let s' = record s { stack = rest; component = s.component ++ node ∷ [] } in
          explore_empties n fuel es _ h (
            omega (
              arith,
              push_measure n (neighbors_of es node) s' (neighbors_of-lt n es node h),
              popped e,
            )))
]
  where
    popped : {node : ℕ} {rest : List ℕ} → s.stack ≡ node ∷ rest → length s.stack ≡ suc (length rest)
    popped e = rw e refl
