-- ===== src/Domain/Components/Partition.antt =====
-- The components partition the nodes into the classes that the edges link.
use peerkit.Prelude.{
  ℕ, zero, suc, ◌+◌, ◌<◌, ◌≡◌, refl, true, false, List, [], ◌∷◌, ◌++◌, ◌==◌, ltb, if◌then◌else◌,
  arith, All, All-append, Bool-cases, inl, inr,
}
use peerkit.Domain.Edge.{GeneratedEdge}
use peerkit.Domain.Edge.Normal.{linked}
use peerkit.Domain.Components.{
  mark, Search, explore, start_at, Found, search_from, search_all, nothing_found,
  generated_components,
}
use peerkit.Domain.Components.Stack.{
  count, bit, unvisited-le, unvisited-mark, InRange, explore_empties,
}
use peerkit.Domain.Components.Walks.{
  Walk, linked_comm, IsSearch, explore-IsSearch, IsClosed, explore-IsClosed,
}

-- How often x occurs in the components.
unfoldable pub count_all : ℕ → List (List ℕ) → ℕ
count_all x [] = 0
count_all x (c ∷ cs) = count x c + count_all x cs

count_all-append :
    (x : ℕ) (cs ds : List (List ℕ)) → count_all x (cs ++ ds) ≡ count_all x cs + count_all x ds
unfolding count_all
count_all-append x [] ds = omega arith
count_all-append x (c ∷ cs) ds = omega (arith, count_all-append x cs ds)

-- All members are reached from one of them, and a node that is linked to a member is a member.
abbrev pub IsClass : List GeneratedEdge → List ℕ → Type 0
IsClass es c =
    ((root : ℕ) × (0 < count root c) × All (Walk es root) c)
    × ((x y : ℕ) → 0 < count x c → linked es x y ≡ true → 0 < count y c)

-- What the outer loop keeps: the components are classes, and hold every visited node once.
record IsFound (n : ℕ) (es : List GeneratedEdge) (f : Found) : Type 0 where
  counted : (x : ℕ) → count_all x f.components ≡ bit (f.visited x)
  bounded : (x : ℕ) → f.visited x ≡ true → x < n
  closed : (x y : ℕ) → linked es x y ≡ true → f.visited x ≡ true → f.visited y ≡ true
  classes : All (IsClass es) f.components

module _ (n : ℕ) (es : List GeneratedEdge) (h : All (InRange n) es) where
  module _ (start : ℕ) (f : Found) (k : IsFound n es f) (b : start < n)
      (e : f.visited start ≡ false) where
    abbrev searched : Search
    searched = explore n es (start_at f.visited start)

    begun : IsSearch n es start f.visited (start_at f.visited start)
    unfolding count mark
    begun = record {
      counted = λ x. ground (arith, same x);
      started = ground arith;
      bounded = λ x p. ground (arith, k.bounded x);
      waiting = (Walk.here, tt);
      reached = tt;
    }
      where
        same : (x : ℕ) → start ≡ x → f.visited start ≡ f.visited x
        same x p = cc

    begun-IsClosed : IsClosed es (λ x. false) (start_at f.visited start)
    unfolding count mark
    begun-IsClosed x y l p = ground (arith, k.closed x y l)

    searched_empties : searched.stack ≡ []
    searched_empties =
        explore_empties n n es (start_at f.visited start) h
          (ground (arith, unvisited-mark f.visited start n e, unvisited-le f.visited n))

    searched-IsFound : IsFound n es (record {
      visited = searched.visited;
      components = f.components ++ searched.component ∷ [];
    })
    unfolding count count_all
    searched-IsFound =
        let s = explore-IsSearch n es start f.visited n (start_at f.visited start) h begun in
        let empty : (x : ℕ) → count x searched.stack ≡ 0 = λ x. rw searched_empties refl in
        let closed : (x y : ℕ)
            → linked es x y ≡ true
            → searched.visited x ≡ true
            → searched.visited y ≡ true =
          λ x y l p. ground (arith, explore-IsClosed n es _ begun-IsClosed x y l p, empty x) in
        record {
          counted = λ x. ground (
            arith,
            k.counted x,
            s.counted x,
            empty x,
            count_all-append x f.components (searched.component ∷ []),
          );
          bounded = s.bounded;
          closed = closed;
          classes = All-append (IsClass es) f.components (searched.component ∷ []) k.classes (
            (
              (start, ground (arith, s.counted start, s.started, empty start), s.reached),
              λ x y c l. ground (
                arith,
                s.counted x,
                s.counted y,
                empty x,
                empty y,
                closed x y l,
                k.closed y x,
                linked_comm es x y,
              ),
            ),
            tt,
          );
        }

  search_from-IsFound :
      (start : ℕ) (f : Found)
      → IsFound n es f
      → start < n
      → IsFound n es (search_from n es start f)
        × ((search_from n es start f).visited start ≡ true)
        × ((x : ℕ) → f.visited x ≡ true → (search_from n es start f).visited x ≡ true)
  unfolding search_from
  search_from-IsFound start f k b = elim (Bool-cases (f.visited start)) [
    | inl e ↦ rw (e, search_from) (k, e, λ x p. p)
    | inr e ↦
        rw (e, search_from)
          (let s =
              explore-IsSearch n es start f.visited n (start_at f.visited start) h
                (begun start f k b e) in
            (searched-IsFound start f k b e, s.started, λ x p. ground (arith, s.counted x)))
  ]

  search_all-IsFound :
      (start left : ℕ) (f : Found)
      → IsFound n es f
      → start + left ≡ n
      → ((x : ℕ) → x < start → f.visited x ≡ true)
      → IsFound n es (search_all n es start left f)
        × ((x : ℕ) → x < n → (search_all n es start left f).visited x ≡ true)
  unfolding search_all
  search_all-IsFound start zero f k e v = (k, λ x p. v x (omega arith))
  search_all-IsFound start (suc left) f k e v =
      let next = search_from-IsFound start f k (omega arith) in
      search_all-IsFound (suc start) left _ next.0 (omega arith) λ x p.
        elim (Bool-cases (x == start)) [
          | inl q ↦ rw (the_start x q) next.1
          | inr q ↦ next.2 x (v x (ground arith))
        ]
    where
      the_start : (x : ℕ) → (x == start) ≡ true → x ≡ start
      the_start x q = ground arith

  -- Where the edges are between the n nodes, each node below n stands in exactly one component, once,
  -- and nothing else does; the members of a component are reached along the edges from one of
  -- them, and no edge leaves a component.
  pub generated_components_lem :
      ((x : ℕ) → count_all x (generated_components n es) ≡ (if ltb x n then 1 else 0))
      × All (IsClass es) (generated_components n es)
  unfolding generated_components count_all
  generated_components_lem =
      let (found, all) =
        search_all-IsFound 0 n nothing_found
          (record {
            counted = λ x. refl;
            bounded = λ x p. cc;
            closed = λ x y l p. cc;
            classes = tt;
          })
          (omega arith) (λ x p. absurd (omega arith)) in
      (λ x. ground (arith, found.counted x, found.bounded x, all x), found.classes)
