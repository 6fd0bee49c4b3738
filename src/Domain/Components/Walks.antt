-- ===== src/Domain/Components/Walks.antt =====
-- What one search keeps: the nodes that it takes are reached from its start, and once it is done no
-- edge leaves them.
use peerkit.Prelude.{
  ℕ, zero, suc, ◌+◌, ◌<◌, ◌≡◌, refl, subst, Bool, true, false, List, [], ◌∷◌, ◌++◌, ◌||◌, ◌==◌, leb,
  if◌then◌else◌, arith, All, All-append, All-mono, Bool-cases, List-cases, inl, inr,
}
use peerkit.Domain.Edge.{GeneratedEdge}
use peerkit.Domain.Edge.Normal.{links, linked}
use peerkit.Domain.Components.{when, neighbors_of, mark, Search, push_unvisited, explore}
use peerkit.Domain.Components.Stack.{count, count-append, bit, InRange, neighbors_of-lt}

-- From x to y along the edges, in either direction of an edge.
pub data Walk (es : List GeneratedEdge) (x : ℕ) : ℕ → Type 0 where
  here : Walk es x x
  step : {y z : ℕ} → Walk es x y → linked es y z ≡ true → Walk es x z

pub linked_comm : (es : List GeneratedEdge) (x y : ℕ) → linked es x y ≡ linked es y x
unfolding linked links
linked_comm [] x y = refl
linked_comm (e ∷ es) x y = ground (arith, linked_comm es x y)

All-when : (P : ℕ → Type 0) (b : Bool) (y : ℕ) → (b ≡ true → P y) → All P (when b y)
All-when P true y k = (k refl, tt)
All-when P false y k = tt

neighbors_of-linked :
    (es : List GeneratedEdge) (x : ℕ) → All (λ y. linked es x y ≡ true) (neighbors_of es x)
unfolding neighbors_of linked links
neighbors_of-linked [] x = tt
neighbors_of-linked (e ∷ es) x =
    let P = λ (y : ℕ). linked (e ∷ es) x y ≡ true in
    All-append P (when (e.a == x) e.b) _ (All-when P (e.a == x) e.b (λ h. ground arith)) (
      All-append P (when (e.b == x) e.a) _ (All-when P (e.b == x) e.a (λ h. ground arith))
        (All-mono _ P (neighbors_of es x) (λ y h. ground arith) (neighbors_of-linked es x)))

count-when : (x y : ℕ) (b : Bool) → count x (when b y) ≡ (if b then bit (y == x) else 0)
unfolding count
count-when x y true = omega arith
count-when x y false = refl

neighbors_of-all :
    (es : List GeneratedEdge) (x y : ℕ) → linked es x y ≡ true → 0 < count y (neighbors_of es x)
unfolding neighbors_of linked links count
neighbors_of-all [] x y h = ground arith
neighbors_of-all (e ∷ es) x y h = ground (
  arith,
  neighbors_of-all es x y,
  count-append y (when (e.a == x) e.b) (when (e.b == x) e.a ++ neighbors_of es x),
  count-append y (when (e.b == x) e.a) (neighbors_of es x),
  count-when y e.b (e.a == x),
  count-when y e.a (e.b == x),
)

-- What a search from `start` keeps, where `old` was visited before: each node that is visited since
-- is on the stack or in the component, once, and reached from `start`.
pub record IsSearch (n : ℕ) (es : List GeneratedEdge) (start : ℕ) (old : ℕ → Bool) (s : Search)
    : Type 0 where
  pub counted : (x : ℕ) → count x s.stack + count x s.component + bit (old x) ≡ bit (s.visited x)
  pub started : s.visited start ≡ true
  pub bounded : (x : ℕ) → s.visited x ≡ true → x < n
  pub waiting : All (Walk es start) s.stack
  pub reached : All (Walk es start) s.component

module _ (n : ℕ) (es : List GeneratedEdge) (start : ℕ) (old : ℕ → Bool) where
  push_one-IsSearch :
      (x : ℕ) (s : Search)
      → x < n
      → Walk es start x
      → s.visited x ≡ false
      → IsSearch n es start old s
      → IsSearch n es start old (record s { visited = mark s.visited x; stack = x ∷ s.stack })
  unfolding mark count
  push_one-IsSearch x s b w e k = record {
    counted = λ y. ground (arith, k.counted y, same y);
    started = ground (arith, k.started);
    bounded = λ y h. ground (arith, k.bounded y);
    waiting = (w, k.waiting);
    reached = k.reached;
  }
    where
      same : (y : ℕ) → x ≡ y → s.visited x ≡ s.visited y
      same y e = cc

  push_unvisited-IsSearch :
      (xs : List ℕ) (s : Search)
      → All (λ x. x < n) xs
      → All (Walk es start) xs
      → IsSearch n es start old s
      → IsSearch n es start old (push_unvisited xs s)
  unfolding push_unvisited
  push_unvisited-IsSearch [] s b w k = k
  push_unvisited-IsSearch (x ∷ xs) s b w k = elim (Bool-cases (s.visited x)) [
    | inl e ↦ rw (e, push_unvisited) (push_unvisited-IsSearch xs s b.1 w.1 k)
    | inr e ↦
        rw (e, push_unvisited)
          (push_unvisited-IsSearch xs _ b.1 w.1 (push_one-IsSearch x s b.0 w.0 e k))
  ]

  pop-IsSearch :
      (s : Search) (node : ℕ) (rest : List ℕ)
      → s.stack ≡ node ∷ rest
      → IsSearch n es start old s
      → (node < n)
        × Walk es start node
        × IsSearch n es start old (record s { stack = rest; component = s.component ++ node ∷ [] })
  unfolding count
  pop-IsSearch s node rest e k =
      let c : (x : ℕ) → count x s.stack ≡ count x (node ∷ rest) = λ x. rw e refl in
      let w : All (Walk es start) (node ∷ rest) = subst (All (Walk es start)) e k.waiting in
      (
        ground (arith, k.bounded node, k.counted node, c node),
        w.0,
        record {
          counted = λ x. omega (arith, k.counted x, c x, count-append x s.component (node ∷ []));
          started = k.started;
          bounded = k.bounded;
          waiting = w.1;
          reached = All-append (Walk es start) s.component (node ∷ []) k.reached (w.0, tt);
        },
      )

  pub explore-IsSearch :
      (fuel : ℕ) (s : Search)
      → All (InRange n) es
      → IsSearch n es start old s
      → IsSearch n es start old (explore fuel es s)
  unfolding explore
  explore-IsSearch zero s h k = k
  explore-IsSearch (suc fuel) s h k = elim (List-cases s.stack) [
    | inl e ↦ rw (e, explore) k
    | inr (node, rest, e) ↦
        let popped = pop-IsSearch s node rest e k in
        rw (e, explore)
          (explore-IsSearch fuel _ h (
            push_unvisited-IsSearch (neighbors_of es node) _ (neighbors_of-lt n es node h)
              (All-mono _ (Walk es start) (neighbors_of es node) (λ y l. Walk.step popped.1 l)
                (neighbors_of-linked es node))
              popped.2))
  ]

-- A node is on the list, or visited.
abbrev queued : List ℕ → (ℕ → Bool) → ℕ → Bool
queued xs visited x = leb 1 (count x xs) || visited x

push_unvisited-visits :
    (xs : List ℕ) (s : Search) (y : ℕ)
    → queued xs s.visited y ≡ true
    → (push_unvisited xs s).visited y ≡ true
unfolding push_unvisited count mark
push_unvisited-visits [] s y h = ground arith
push_unvisited-visits (x ∷ xs) s y h = elim (Bool-cases (s.visited x)) [
  | inl e ↦ rw (e, push_unvisited) (push_unvisited-visits xs s y (ground (arith, same)))
  | inr e ↦ rw (e, push_unvisited) (push_unvisited-visits xs _ y (ground arith))
]
  where
    same : x ≡ y → s.visited x ≡ s.visited y
    same e = cc

-- Every visited node is exempt or on the stack, or has only visited neighbors.
abbrev pub IsClosed : List GeneratedEdge → (ℕ → Bool) → Search → Type 0
IsClosed es exempt s =
    (x y : ℕ)
    → linked es x y ≡ true
    → s.visited x ≡ true
    → (exempt x || (leb 1 (count x s.stack) || s.visited y)) ≡ true

push_unvisited-IsClosed :
    (es : List GeneratedEdge) (exempt : ℕ → Bool) (xs : List ℕ) (s : Search)
    → IsClosed es exempt s
    → IsClosed es exempt (push_unvisited xs s)
unfolding push_unvisited mark count
push_unvisited-IsClosed es exempt [] s k = k
push_unvisited-IsClosed es exempt (x ∷ xs) s k = elim (Bool-cases (s.visited x)) [
  | inl e ↦ rw (e, push_unvisited) (push_unvisited-IsClosed es exempt xs s k)
  | inr e ↦ rw (e, push_unvisited) (push_unvisited-IsClosed es exempt xs _ one)
]
  where
    one : IsClosed es exempt (record s { visited = mark s.visited x; stack = x ∷ s.stack })
    one u v l h = ground (arith, k u v l)

pop-IsClosed :
    (es : List GeneratedEdge) (s : Search) (node : ℕ) (rest component : List ℕ)
    → s.stack ≡ node ∷ rest
    → IsClosed es (λ x. false) s
    → IsClosed es
        (λ x. false)
        (push_unvisited (neighbors_of es node) (record s { stack = rest; component = component }))
unfolding count
pop-IsClosed es s node rest component e k x y l h =
    let s' = record s { stack = rest; component = component } in
    let c : count x s.stack ≡ count x (node ∷ rest) = rw e refl in
    let kept =
      push_unvisited-IsClosed es (λ x. node == x) (neighbors_of es node) s'
        (λ u v lu hu. exempted u v lu hu) x y l h in
    ground (arith, kept, visits, neighbors_of-all es x y l)
  where
    stacked : (u : ℕ) → count u s.stack ≡ count u (node ∷ rest)
    stacked u = rw e refl

    exempted :
        (u v : ℕ)
        → linked es u v ≡ true
        → s.visited u ≡ true
        → ((node == u) || (leb 1 (count u rest) || s.visited v)) ≡ true
    exempted u v lu hu = ground (arith, k u v lu hu, stacked u)

    visits :
        node ≡ x
        → (push_unvisited
              (neighbors_of es node)
              (record s { stack = rest; component = component })).visited
            y
          ≡ true
    visits f =
        push_unvisited-visits (neighbors_of es node) _ y
          (ground (arith, neighbors_of-all es node y (rw f l)))

pub explore-IsClosed :
    (fuel : ℕ) (es : List GeneratedEdge) (s : Search)
    → IsClosed es (λ x. false) s
    → IsClosed es (λ x. false) (explore fuel es s)
unfolding explore
explore-IsClosed zero es s k = k
explore-IsClosed (suc fuel) es s k = elim (List-cases s.stack) [
  | inl e ↦ rw (e, explore) k
  | inr (node, rest, e) ↦
      rw (e, explore)
        (explore-IsClosed fuel es _ (pop-IsClosed es s node rest (s.component ++ node ∷ []) e k))
]
