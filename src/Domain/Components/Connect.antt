-- ===== src/Domain/Components/Connect.antt =====
-- The chain of representatives connects the graph.
use mathlib.Core.List.{append-nil}
use peerkit.Prelude.{
  ℕ, zero, suc, ◌-◌, ◌≤◌, ◌<◌, ◌≡◌, refl, sym, ap, ◌∙◌, List, [], ◌∷◌, ◌++◌, length, get_or, ltb,
  leb, arith, All, Bool-cases, inl, inr,
}
use peerkit.Domain.Rng.{Rng}
use peerkit.Domain.Edge.{GeneratedEdge}
use peerkit.P2p.HopWave.Targets.{length_Perm}
use peerkit.Domain.Components.{
  generated_components, chain, Shuffling, representatives, connect_generated_components,
}
use peerkit.Domain.Components.Stack.{count, InRange}
use peerkit.Domain.Components.Walks.{Walk}
use peerkit.Domain.Components.Partition.{count_all, IsClass, generated_components_lem}
use peerkit.Domain.Components.Chain.{
  Walk_trans, Walk_sym, Walk_mono, linked-append, All-count, All-of-count, count-Perm,
  chain-reaches, length-chain, InRange-chain,
}

count-get_or : (xs : List ℕ) (i : ℕ) → i < length xs → 0 < count (get_or xs i 0) xs
unfolding count
count-get_or [] i h = absurd (omega arith)
count-get_or (x ∷ xs) zero h = ground arith
count-get_or (x ∷ xs) (suc i) h = ground (arith, count-get_or xs i)

count-length : (x : ℕ) (xs : List ℕ) → 0 < count x xs → 0 < length xs
unfolding count
count-length x [] h = h
count-length x (y ∷ xs) h = omega arith

module _ {F R : Type 0} (rng : Rng F R) (sh : Shuffling R) (es : List GeneratedEdge) where
  -- The node that the draw takes from a component is in it.
  drawn : (c : List ℕ) (r : R) → IsClass es c → 0 < count (get_or c (rng.intn (length c) r).0 0) c
  drawn c r k = count-get_or c _ (rng.intn_bound (length c) r (count-length k.0.0 c k.0.1))

  representatives-reach :
      (cs : List (List ℕ)) (r : R) (x : ℕ)
      → All (IsClass es) cs
      → 0 < count_all x cs
      → (p : ℕ) × (0 < count p (representatives rng sh cs r).0) × Walk es p x
  unfolding representatives count count_all
  representatives-reach [] r x k h = absurd (omega arith)
  representatives-reach (c ∷ cs) r x k h = elim (Bool-cases (ltb 0 (count x c))) [
    | inl e ↦
        let walks = k.0.0.2 in
        (
          get_or c (rng.intn (length c) r).0 0,
          ground arith,
          Walk_trans (Walk_sym (All-count (Walk es k.0.0.0) c _ walks (drawn c r k.0)))
              (All-count (Walk es k.0.0.0) c x walks (ground arith)),
        )
    | inr e ↦
        let rest = representatives-reach cs (rng.intn (length c) r).1 x k.1 (ground arith) in
        (rest.0, ground (arith, rest.1), rest.2)
  ]

  representatives-lt :
      (n : ℕ) (cs : List (List ℕ)) (r : R)
      → All (IsClass es) cs
      → ((x : ℕ) → 0 < count_all x cs → x < n)
      → All (λ x. x < n) (representatives rng sh cs r).0
  unfolding representatives count_all
  representatives-lt n [] r k b = tt
  representatives-lt n (c ∷ cs) r k b = (
    b _ (ground (arith, drawn c r k.0)),
    representatives-lt n cs _ k.1 (λ x h. b x (omega arith)),
  )

  length-representatives :
      (cs : List (List ℕ)) (r : R) → length (representatives rng sh cs r).0 ≡ length cs
  unfolding representatives
  length-representatives [] r = refl
  length-representatives (c ∷ cs) r = ap suc (length-representatives cs _)

  -- The one component holds every node.
  one_component :
      (cs : List (List ℕ)) (x y : ℕ)
      → length cs ≤ 1
      → All (IsClass es) cs
      → 0 < count_all x cs
      → 0 < count_all y cs
      → Walk es x y
  unfolding count_all
  one_component [] x y h k p q = absurd (omega arith)
  one_component (c ∷ []) x y h k p q =
      Walk_trans (Walk_sym (All-count (Walk es k.0.0.0) c x k.0.0.2 (omega arith)))
        (All-count (Walk es k.0.0.0) c y k.0.0.2 (omega arith))
  one_component (c ∷ d ∷ cs) x y h k p q = absurd (omega arith)

  -- What a member of a chain reaches is reached from its first member.
  root_of : (xs : List ℕ) → ℕ
  root_of [] = 0
  root_of (x ∷ xs) = x

  from_root :
      (xs : List ℕ) (p x : ℕ) → 0 < count p xs → Walk es p x → Walk (es ++ chain xs) (root_of xs) x
  unfolding root_of count
  from_root [] p x c w = absurd (omega arith)
  from_root (q ∷ xs) p x c w =
      let to_chain = All-count (Walk (chain (q ∷ xs)) q) (q ∷ xs) p (chain-reaches q xs) c in
      Walk_trans
        (Walk_mono (λ u v l. ground (arith, linked-append es (chain (q ∷ xs)) u v)) to_chain)
        (Walk_mono (λ u v l. ground (arith, linked-append es (chain (q ∷ xs)) u v)) w)

  module _ (n : ℕ) (h : All (InRange n) es) where
    every : (x : ℕ) → x < n → 0 < count_all x (generated_components n es)
    every x b = ground (arith, (generated_components_lem n es h).0 x)

    inside : (x : ℕ) → 0 < count_all x (generated_components n es) → x < n
    inside x c = ground (arith, (generated_components_lem n es h).0 x)

    shuffled_reach :
        (r r' : R) (x : ℕ)
        → x < n
        → let xs = (sh.shuffle (representatives rng sh (generated_components n es) r).0 r').0 in
          Walk (es ++ chain xs) (root_of xs) x
    shuffled_reach r r' x b =
        let chosen = (representatives rng sh (generated_components n es) r).0 in
        let (p, c, w) =
          representatives-reach (generated_components n es) r x (generated_components_lem n es h).1
            (every x b) in
        from_root _ p x (ground (arith, count-Perm p (sh.shuffle-perm chosen r'))) w

    shuffled-lt :
        (r r' : R)
        → All
            (λ x. x < n)
            (sh.shuffle (representatives rng sh (generated_components n es) r).0 r').0
    shuffled-lt r r' =
        let chosen = (representatives rng sh (generated_components n es) r).0 in
        let below =
          representatives-lt n (generated_components n es) r (generated_components_lem n es h).1
            inside in
        All-of-count (λ x. x < n) _
          λ x c.
            All-count (λ x. x < n) chosen x below
              (ground (arith, count-Perm x (sh.shuffle-perm chosen r')))

  -- Where the edges are between the n nodes, connecting keeps them and appends edges between nodes,
  -- one less than there are components (none for an empty graph), and then every node is reached from
  -- every other, whatever is drawn.
  pub connect_generated_components_lem :
      (n : ℕ) (r : R)
      → All (InRange n) es
      → let connected = (connect_generated_components rng sh n es r).0 in
        ((added : List GeneratedEdge) × (connected ≡ es ++ added)
          × (length added ≡ length (generated_components n es) - 1)
          × All (InRange n) added)
        × ((x y : ℕ) → x < n → y < n → Walk connected x y)
  unfolding connect_generated_components
  connect_generated_components_lem n r h =
      elim (Bool-cases (leb (length (generated_components n es)) 1)) [
        | inl e ↦
            rw (e, connect_generated_components)
              (
                ([], sym (append-nil es), ground arith, tt),
                λ x y p q.
                    one_component (generated_components n es) x y (ground arith)
                      (generated_components_lem n es h).1 (every n h x p) (every n h y q),
              )
        | inr e ↦
            rw (e, connect_generated_components)
              (let (chosen, r1) = representatives rng sh (generated_components n es) r in
                let (xs, r2) = sh.shuffle chosen r1 in
                (
                  (
                    chain xs,
                    refl,
                    length-chain xs
                        ∙ ap (λ k. k - 1)
                            (length_Perm (sh.shuffle-perm chosen r1)
                              ∙ length-representatives (generated_components n es) r),
                    InRange-chain n xs (shuffled-lt n h r r1),
                  ),
                  λ x y p q.
                      Walk_trans (Walk_sym (shuffled_reach n h r r1 x p))
                        (shuffled_reach n h r r1 y q),
                ))
      ]
