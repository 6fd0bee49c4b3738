-- ===== src/Config/Assignment/Edges.antt =====
-- What the assignment does to the edges.
use peerkit.Prelude.{
  ℕ, ◌≡◌, ◌≢◌, refl, sym, ap, subst, Bool, true, false, Option, none, some, List, [], ◌∷◌, Text,
  if◌then◌else◌,
}
use peerkit.Float.{FloatOps}
use peerkit.Domain.Rng.{Rng}
use peerkit.Config.Types.{EdgeNetwork, EdgeSpec}
use peerkit.Config.Validate.{ScenarioError, validate_distribution}
use peerkit.Config.Sample.{sample_milliseconds, constant_distribution}
use peerkit.Config.Sample.Returns.{is_some, IsFloat, IsLucky, sample_milliseconds-is_some}
use peerkit.Config.Assignment.{
  DelayError, Result, ok, err, Assigned, prepend, assigned_network, resolve_network, put_network,
  resolve_edge, resolve_edges,
}
use peerkit.Config.Assignment.Constant.{
  constant_idem, validate-constant, sample-constant, Each, Chain,
}

module _ {F : Type 0} ⦃fl : FloatOps F⦄ where
  abbrev pub fixed_network : EdgeNetwork F → F → EdgeNetwork F
  fixed_network p x = record p { delay_distribution = constant_distribution x }

  -- The same edge, with a constant in place of its distribution.
  abbrev pub IsAssignedEdge : EdgeSpec F → EdgeSpec F → Type 0
  IsAssignedEdge n m =
      (p : EdgeNetwork F) × (x : F) × (n.network ≡ some p)
      × (m ≡ record n { network = some (fixed_network p x) })
      × (fl.lt p.delay_jitter_std_dev_ms (fl.of_int 0) ≡ false)

  module _ {R : Type 0} (rng : Rng F R) (rounds : ℕ) where
    -- The constant is the draw from the distribution at the generator r, which leaves r'.
    abbrev pub IsDrawnEdge : EdgeSpec F → EdgeSpec F → R → R → Type 0
    IsDrawnEdge n m r r' =
        (p : EdgeNetwork F) × (x : F) × (n.network ≡ some p)
        × (m ≡ record n { network = some (fixed_network p x) })
        × (fl.lt p.delay_jitter_std_dev_ms (fl.of_int 0) ≡ false)
        × (sample_milliseconds rng rounds p.delay_distribution r ≡ (some x, r'))

    resolve_network-fixed :
        (a b : Text) (p : EdgeNetwork F) (o : Option ScenarioError) (r r' : R) (q : EdgeNetwork F)
        → resolve_network rng rounds a b p o r ≡ ok (q, r')
        → (x : F) × (q ≡ fixed_network p x)
          × (fl.lt p.delay_jitter_std_dev_ms (fl.of_int 0) ≡ false)
          × (sample_milliseconds rng rounds p.delay_distribution r ≡ (some x, r'))
    resolve_network-fixed a b p (some e) r r' q h = cc h
    resolve_network-fixed a b p none r r' q h =
        after (fl.lt p.delay_jitter_std_dev_ms (fl.of_int 0)) refl
          (sample_milliseconds rng rounds p.delay_distribution r) refl h
      where
        after :
            (test : Bool)
            → fl.lt p.delay_jitter_std_dev_ms (fl.of_int 0) ≡ test
            → (d : Option F × R) → sample_milliseconds rng rounds p.delay_distribution r ≡ d
            → (if test then err (DelayError.edge_jitter a b) else assigned_network rng rounds p d)
              ≡ ok (q, r')
            → (x : F) × (q ≡ fixed_network p x)
              × (fl.lt p.delay_jitter_std_dev_ms (fl.of_int 0) ≡ false)
              × (sample_milliseconds rng rounds p.delay_distribution r ≡ (some x, r'))
        after true e d g k = cc k
        after false e (none, s) g k = cc k
        after false e (some x, s) g k = (x, cc k, e, cc (g, k))

    resolve_network-again :
        (a b : Text) (p : EdgeNetwork F) (x : F) (r : R)
        → fl.lt (fl.of_int 0) (fl.of_int 0) ≡ false
        → fl.lt p.delay_jitter_std_dev_ms (fl.of_int 0) ≡ false
        → resolve_network rng rounds a b
            (fixed_network p x)
            (validate_distribution (constant_distribution x))
            r
          ≡ ok (fixed_network p x, r)
    resolve_network-again a b p x r z j =
        rw (validate-constant x z, j, sample-constant rng rounds x r)
          (ap (λ d. ok (record p { delay_distribution = d }, r)) (constant_idem x))

    resolve_edge-fixed :
        (n m : EdgeSpec F) (r r' : R)
        → resolve_edge rng rounds n r n.network ≡ ok (m, r')
        → IsDrawnEdge n m r r'
    resolve_edge-fixed n m r r' h = after n.network refl h
      where
        given :
            (p : EdgeNetwork F) (d : Assigned R (EdgeNetwork F))
            → resolve_network rng rounds n.source n.target p
                (validate_distribution p.delay_distribution)
                r
              ≡ d
            → n.network ≡ some p
            → put_network rng rounds n d ≡ ok (m, r')
            → IsDrawnEdge n m r r'
        given p (err e) f q k = cc k
        given p (ok (done, s)) f q k =
            let (x, fix, j, g) = resolve_network-fixed n.source n.target p _ r s done f in
            (p, x, q, cc (k, ap (λ d. record n { network = some d }) fix), j, cc (k, g))

        after :
            (o : Option (EdgeNetwork F))
            → n.network ≡ o
            → resolve_edge rng rounds n r o ≡ ok (m, r')
            → IsDrawnEdge n m r r'
        after none q k = cc k
        after (some p) q k = given p _ refl q k

    resolve_edge-again :
        (n m : EdgeSpec F) (r : R)
        → fl.lt (fl.of_int 0) (fl.of_int 0) ≡ false
        → IsAssignedEdge n m
        → resolve_edge rng rounds m r m.network ≡ ok (m, r)
    resolve_edge-again n m r z (p, x, q, e, j) =
        subst (λ k. resolve_edge rng rounds k r k.network ≡ ok (k, r)) (sym e)
          (ap (put_network rng rounds (record n { network = some (fixed_network p x) }))
            (resolve_network-again n.source n.target p x r z j))

    pub resolve_edges-fixed :
        (ns ms : List (EdgeSpec F)) (r : R)
        → resolve_edges rng rounds ns r ≡ ok ms
        → Chain IsDrawnEdge ns ms r
    unfolding resolve_edges
    resolve_edges-fixed [] [] r h = tt
    resolve_edges-fixed [] (m ∷ ms) r h = cc h
    resolve_edges-fixed (n ∷ ns) ms r h =
        after (λ us r'. resolve_edges-fixed ns us r') (resolve_edge rng rounds n r n.network) refl h
      where
        behind :
            (m : EdgeSpec F) (r' : R)
            → IsDrawnEdge n m r r'
            → (o : Result (List (EdgeSpec F)))
            → ((us : List (EdgeSpec F)) → o ≡ ok us → Chain IsDrawnEdge ns us r')
            → prepend m o ≡ ok ms
            → Chain IsDrawnEdge (n ∷ ns) ms r
        behind m r' i (err e) rest k = cc k
        behind m r' i (ok us) rest k =
            subst (λ l. Chain IsDrawnEdge (n ∷ ns) l r) (the_list m us k) (r', i, rest us refl)
          where
            the_list :
                (m : EdgeSpec F) (us : List (EdgeSpec F)) → prepend m (ok us) ≡ ok ms → m ∷ us ≡ ms
            the_list m us k = cc k

        after :
            ((us : List (EdgeSpec F)) (r' : R)
              → resolve_edges rng rounds ns r' ≡ ok us
              → Chain IsDrawnEdge ns us r')
            → (d : Assigned R (EdgeSpec F)) → resolve_edge rng rounds n r n.network ≡ d
            → (elim d [
              | err e ↦ err e
              | ok done ↦ prepend done.0 (resolve_edges rng rounds ns done.1)
            ])
              ≡ ok ms
            → Chain IsDrawnEdge (n ∷ ns) ms r
        after rest (err e) f k = cc k
        after rest (ok (m, r')) f k =
            behind m r' (resolve_edge-fixed n m r r' f) (resolve_edges rng rounds ns r')
              (λ us. rest us r') k

    pub resolve_edges-again :
        (ns ms : List (EdgeSpec F)) (r : R)
        → fl.lt (fl.of_int 0) (fl.of_int 0) ≡ false
        → Each IsAssignedEdge ns ms
        → resolve_edges rng rounds ms r ≡ ok ms
    unfolding resolve_edges
    resolve_edges-again [] [] r z a = refl
    resolve_edges-again [] (m ∷ ms) r z a = absurd a
    resolve_edges-again (n ∷ ns) [] r z a = absurd a
    resolve_edges-again (n ∷ ns) (m ∷ ms) r z a =
        rw (resolve_edge-again n m r z a.0, resolve_edges)
          (ap (prepend m) (resolve_edges-again ns ms r z a.1))

  module _ {R : Type 0} (rng : Rng F R) (rounds : ℕ) (float : IsFloat F)
      (lucky : IsLucky rng rounds) where
    assigned_network-ends :
        (a b : Text) (p : EdgeNetwork F) (test : Bool) (d : Option F × R)
        → is_some d.0 ≡ true
        → (if test then err (DelayError.edge_jitter a b) else assigned_network rng rounds p d)
          ≢ err DelayError.cut_off
    assigned_network-ends a b p true d s h = cc h
    assigned_network-ends a b p false (none, r) s h = cc s
    assigned_network-ends a b p false (some x, r) s h = cc h

    resolve_network-ends :
        (a b : Text) (p : EdgeNetwork F) (o : Option ScenarioError) (r : R)
        → resolve_network rng rounds a b p o r ≢ err DelayError.cut_off
    resolve_network-ends a b p (some e) r h = cc h
    resolve_network-ends a b p none r h =
        assigned_network-ends a b p _ _
          (sample_milliseconds-is_some rng rounds float lucky p.delay_distribution r) h

    put_network-ends :
        (n : EdgeSpec F) (d : Assigned R (EdgeNetwork F))
        → d ≢ err DelayError.cut_off
        → put_network rng rounds n d ≢ err DelayError.cut_off
    put_network-ends n (err e) f h = f (cc h)
    put_network-ends n (ok d) f h = cc h

    resolve_edge-ends :
        (n : EdgeSpec F) (r : R) (o : Option (EdgeNetwork F))
        → resolve_edge rng rounds n r o ≢ err DelayError.cut_off
    resolve_edge-ends n r none h = cc h
    resolve_edge-ends n r (some p) h =
        put_network-ends n _ (resolve_network-ends n.source n.target p _ r) h

    prepend-ends :
        (m : EdgeSpec F) (o : Result (List (EdgeSpec F)))
        → o ≢ err DelayError.cut_off
        → prepend m o ≢ err DelayError.cut_off
    prepend-ends m (err e) f h = f (cc h)
    prepend-ends m (ok ms) f h = cc h

    first-ends :
        (ns : List (EdgeSpec F)) (d : Assigned R (EdgeSpec F))
        → d ≢ err DelayError.cut_off
        → ((r : R) → resolve_edges rng rounds ns r ≢ err DelayError.cut_off)
        → elim d [ err e ↦ err e | ok done ↦ prepend done.0 (resolve_edges rng rounds ns done.1) ]
          ≢ err DelayError.cut_off
    first-ends ns (err e) f rest h = f (cc h)
    first-ends ns (ok (m, r)) f rest h = prepend-ends m _ (rest r) h

    -- The loop does not stop for want of rounds.
    pub resolve_edges-ends :
        (ns : List (EdgeSpec F)) (r : R) → resolve_edges rng rounds ns r ≢ err DelayError.cut_off
    unfolding resolve_edges
    resolve_edges-ends [] r h = cc h
    resolve_edges-ends (n ∷ ns) r h =
        first-ends ns _ (resolve_edge-ends n r n.network) (resolve_edges-ends ns) h
