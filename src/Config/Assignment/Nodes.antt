-- ===== src/Config/Assignment/Nodes.antt =====
-- What the assignment does to the nodes.
use peerkit.Prelude.{
  ℕ, ◌≡◌, ◌≢◌, refl, sym, ap, subst, Bool, true, false, Option, none, some, List, [], ◌∷◌, Text,
  if◌then◌else◌,
}
use peerkit.Float.{FloatOps}
use peerkit.Domain.Rng.{Rng}
use peerkit.Config.Types.{NodePerformance, NodeSpec}
use peerkit.Config.Validate.{ScenarioError, validate_distribution}
use peerkit.Config.Sample.{sample_milliseconds, constant_distribution}
use peerkit.Config.Sample.Returns.{is_some, IsFloat, IsLucky, sample_milliseconds-is_some}
use peerkit.Config.Assignment.{
  DelayError, Result, ok, err, Assigned, prepend, assigned_performance, resolve_performance,
  put_performance, resolve_node, resolve_nodes,
}
use peerkit.Config.Assignment.Constant.{
  constant_idem, validate-constant, sample-constant, Each, Chain,
}

module _ {F : Type 0} ⦃fl : FloatOps F⦄ where
  abbrev pub fixed : NodePerformance F → F → NodePerformance F
  fixed p x = record p { processing_delay_distribution = constant_distribution x }

  -- The same node, with a constant in place of its distribution.
  abbrev pub IsAssignedNode : NodeSpec F → NodeSpec F → Type 0
  IsAssignedNode n m =
      (p : NodePerformance F) × (x : F) × (n.performance ≡ some p)
      × (m ≡ record n { performance = some (fixed p x) })
      × (fl.lt p.processing_delay_jitter_std_dev_ms (fl.of_int 0) ≡ false)

  module _ {R : Type 0} (rng : Rng F R) (rounds : ℕ) where
    -- The constant is the draw from the distribution at the generator r, which leaves r'.
    abbrev pub IsDrawnNode : NodeSpec F → NodeSpec F → R → R → Type 0
    IsDrawnNode n m r r' =
        (p : NodePerformance F) × (x : F) × (n.performance ≡ some p)
        × (m ≡ record n { performance = some (fixed p x) })
        × (fl.lt p.processing_delay_jitter_std_dev_ms (fl.of_int 0) ≡ false)
        × (sample_milliseconds rng rounds p.processing_delay_distribution r ≡ (some x, r'))

    resolve_performance-fixed :
        (id : Text) (p : NodePerformance F) (o : Option ScenarioError) (r r' : R)
        (q : NodePerformance F)
        → resolve_performance rng rounds id p o r ≡ ok (q, r')
        → (x : F) × (q ≡ fixed p x)
          × (fl.lt p.processing_delay_jitter_std_dev_ms (fl.of_int 0) ≡ false)
          × (sample_milliseconds rng rounds p.processing_delay_distribution r ≡ (some x, r'))
    resolve_performance-fixed id p (some e) r r' q h = cc h
    resolve_performance-fixed id p none r r' q h =
        after (fl.lt p.processing_delay_jitter_std_dev_ms (fl.of_int 0)) refl
          (sample_milliseconds rng rounds p.processing_delay_distribution r) refl h
      where
        after :
            (test : Bool)
            → fl.lt p.processing_delay_jitter_std_dev_ms (fl.of_int 0) ≡ test
            → (d : Option F × R)
            → sample_milliseconds rng rounds p.processing_delay_distribution r ≡ d
            → (if test
                then err (DelayError.node_jitter id)
                else assigned_performance rng rounds p d)
              ≡ ok (q, r')
            → (x : F) × (q ≡ fixed p x)
              × (fl.lt p.processing_delay_jitter_std_dev_ms (fl.of_int 0) ≡ false)
              × (sample_milliseconds rng rounds p.processing_delay_distribution r ≡ (some x, r'))
        after true e d g k = cc k
        after false e (none, s) g k = cc k
        after false e (some x, s) g k = (x, cc k, e, cc (g, k))

    resolve_performance-again :
        (id : Text) (p : NodePerformance F) (x : F) (r : R)
        → fl.lt (fl.of_int 0) (fl.of_int 0) ≡ false
        → fl.lt p.processing_delay_jitter_std_dev_ms (fl.of_int 0) ≡ false
        → resolve_performance rng rounds id
            (fixed p x)
            (validate_distribution (constant_distribution x))
            r
          ≡ ok (fixed p x, r)
    resolve_performance-again id p x r z j =
        rw (validate-constant x z, j, sample-constant rng rounds x r)
          (ap (λ d. ok (record p { processing_delay_distribution = d }, r)) (constant_idem x))

    resolve_node-fixed :
        (n m : NodeSpec F) (r r' : R)
        → resolve_node rng rounds n r n.performance ≡ ok (m, r')
        → IsDrawnNode n m r r'
    resolve_node-fixed n m r r' h = after n.performance refl h
      where
        given :
            (p : NodePerformance F) (d : Assigned R (NodePerformance F))
            → resolve_performance rng rounds n.id p
                (validate_distribution p.processing_delay_distribution)
                r
              ≡ d
            → n.performance ≡ some p
            → put_performance rng rounds n d ≡ ok (m, r')
            → IsDrawnNode n m r r'
        given p (err e) f q k = cc k
        given p (ok (done, s)) f q k =
            let (x, fix, j, g) = resolve_performance-fixed n.id p _ r s done f in
            (p, x, q, cc (k, ap (λ d. record n { performance = some d }) fix), j, cc (k, g))

        after :
            (o : Option (NodePerformance F))
            → n.performance ≡ o
            → resolve_node rng rounds n r o ≡ ok (m, r')
            → IsDrawnNode n m r r'
        after none q k = cc k
        after (some p) q k = given p _ refl q k

    resolve_node-again :
        (n m : NodeSpec F) (r : R)
        → fl.lt (fl.of_int 0) (fl.of_int 0) ≡ false
        → IsAssignedNode n m
        → resolve_node rng rounds m r m.performance ≡ ok (m, r)
    resolve_node-again n m r z (p, x, q, e, j) =
        subst (λ k. resolve_node rng rounds k r k.performance ≡ ok (k, r)) (sym e)
          (ap (put_performance rng rounds (record n { performance = some (fixed p x) }))
            (resolve_performance-again n.id p x r z j))

    pub resolve_nodes-fixed :
        (ns ms : List (NodeSpec F)) (r : R)
        → resolve_nodes rng rounds ns r ≡ ok ms
        → Chain IsDrawnNode ns ms r
    unfolding resolve_nodes
    resolve_nodes-fixed [] [] r h = tt
    resolve_nodes-fixed [] (m ∷ ms) r h = cc h
    resolve_nodes-fixed (n ∷ ns) ms r h =
        after (λ us r'. resolve_nodes-fixed ns us r') (resolve_node rng rounds n r n.performance)
          refl h
      where
        behind :
            (m : NodeSpec F) (r' : R)
            → IsDrawnNode n m r r'
            → (o : Result (List (NodeSpec F)))
            → ((us : List (NodeSpec F)) → o ≡ ok us → Chain IsDrawnNode ns us r')
            → prepend m o ≡ ok ms
            → Chain IsDrawnNode (n ∷ ns) ms r
        behind m r' i (err e) rest k = cc k
        behind m r' i (ok us) rest k =
            subst (λ l. Chain IsDrawnNode (n ∷ ns) l r) (the_list m us k) (r', i, rest us refl)
          where
            the_list :
                (m : NodeSpec F) (us : List (NodeSpec F)) → prepend m (ok us) ≡ ok ms → m ∷ us ≡ ms
            the_list m us k = cc k

        after :
            ((us : List (NodeSpec F)) (r' : R)
              → resolve_nodes rng rounds ns r' ≡ ok us
              → Chain IsDrawnNode ns us r')
            → (d : Assigned R (NodeSpec F)) → resolve_node rng rounds n r n.performance ≡ d
            → (elim d [
              | err e ↦ err e
              | ok done ↦ prepend done.0 (resolve_nodes rng rounds ns done.1)
            ])
              ≡ ok ms
            → Chain IsDrawnNode (n ∷ ns) ms r
        after rest (err e) f k = cc k
        after rest (ok (m, r')) f k =
            behind m r' (resolve_node-fixed n m r r' f) (resolve_nodes rng rounds ns r')
              (λ us. rest us r') k

    pub resolve_nodes-again :
        (ns ms : List (NodeSpec F)) (r : R)
        → fl.lt (fl.of_int 0) (fl.of_int 0) ≡ false
        → Each IsAssignedNode ns ms
        → resolve_nodes rng rounds ms r ≡ ok ms
    unfolding resolve_nodes
    resolve_nodes-again [] [] r z a = refl
    resolve_nodes-again [] (m ∷ ms) r z a = absurd a
    resolve_nodes-again (n ∷ ns) [] r z a = absurd a
    resolve_nodes-again (n ∷ ns) (m ∷ ms) r z a =
        rw (resolve_node-again n m r z a.0, resolve_nodes)
          (ap (prepend m) (resolve_nodes-again ns ms r z a.1))

  module _ {R : Type 0} (rng : Rng F R) (rounds : ℕ) (float : IsFloat F)
      (lucky : IsLucky rng rounds) where
    assigned_performance-ends :
        (id : Text) (p : NodePerformance F) (test : Bool) (d : Option F × R)
        → is_some d.0 ≡ true
        → (if test then err (DelayError.node_jitter id) else assigned_performance rng rounds p d)
          ≢ err DelayError.cut_off
    assigned_performance-ends id p true d s h = cc h
    assigned_performance-ends id p false (none, r) s h = cc s
    assigned_performance-ends id p false (some x, r) s h = cc h

    resolve_performance-ends :
        (id : Text) (p : NodePerformance F) (o : Option ScenarioError) (r : R)
        → resolve_performance rng rounds id p o r ≢ err DelayError.cut_off
    resolve_performance-ends id p (some e) r h = cc h
    resolve_performance-ends id p none r h =
        assigned_performance-ends id p _ _
          (sample_milliseconds-is_some rng rounds float lucky p.processing_delay_distribution r) h

    put_performance-ends :
        (n : NodeSpec F) (d : Assigned R (NodePerformance F))
        → d ≢ err DelayError.cut_off
        → put_performance rng rounds n d ≢ err DelayError.cut_off
    put_performance-ends n (err e) f h = f (cc h)
    put_performance-ends n (ok d) f h = cc h

    resolve_node-ends :
        (n : NodeSpec F) (r : R) (o : Option (NodePerformance F))
        → resolve_node rng rounds n r o ≢ err DelayError.cut_off
    resolve_node-ends n r none h = cc h
    resolve_node-ends n r (some p) h =
        put_performance-ends n _ (resolve_performance-ends n.id p _ r) h

    prepend-ends :
        (m : NodeSpec F) (o : Result (List (NodeSpec F)))
        → o ≢ err DelayError.cut_off
        → prepend m o ≢ err DelayError.cut_off
    prepend-ends m (err e) f h = f (cc h)
    prepend-ends m (ok ms) f h = cc h

    first-ends :
        (ns : List (NodeSpec F)) (d : Assigned R (NodeSpec F))
        → d ≢ err DelayError.cut_off
        → ((r : R) → resolve_nodes rng rounds ns r ≢ err DelayError.cut_off)
        → elim d [ err e ↦ err e | ok done ↦ prepend done.0 (resolve_nodes rng rounds ns done.1) ]
          ≢ err DelayError.cut_off
    first-ends ns (err e) f rest h = f (cc h)
    first-ends ns (ok (m, r)) f rest h = prepend-ends m _ (rest r) h

    -- The loop does not stop for want of rounds.
    pub resolve_nodes-ends :
        (ns : List (NodeSpec F)) (r : R) → resolve_nodes rng rounds ns r ≢ err DelayError.cut_off
    unfolding resolve_nodes
    resolve_nodes-ends [] r h = cc h
    resolve_nodes-ends (n ∷ ns) r h =
        first-ends ns _ (resolve_node-ends n r n.performance) (resolve_nodes-ends ns) h
