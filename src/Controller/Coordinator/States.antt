-- ===== src/Controller/Coordinator/States.antt =====
-- The states of a Swarm run: the goroutine of `run` beside the handlers of the registrations.
use peerkit.Prelude.{
  ℕ, ◌≤◌, ◌≡◌, refl, ap, sym, subst, ◌∙◌, ◌⊎◌, inl, inr, Bool, true, false, Option, none, some, [],
  Text, text_eq, text_eq_iff, length, arith,
}
use peerkit.Float.{FloatOps}
use peerkit.Config.Types.{Scenario}
use peerkit.Controller.Runtime.{SwarmRegisterRequest}
use peerkit.Controller.Coordinator.{
  SwarmCoordinator, Decoders, new_swarm_coordinator, expected_of, all_registered, register,
  build_runtime_configs, set_state, fail, complete, drain, waiting_for_peers, config_ready,
  waiting_for_peer_readiness, completed, failed,
}
use peerkit.Controller.Coordinator.Slots.{
  has_slot, filled_bound, filled_all, filled_nothing, IsCounted, register-cases, register-IsCounted,
}
use peerkit.Controller.Handlers.{handle_archive, archive}

-- Where the goroutine of `run` is: in waitForRegistrations, before and after buildRuntimeConfigs, in
-- executeExperiment, and at its end.
pub data Phase : Type 0 where
  awaiting registered built executing done : Phase

pub record System (F S : Type 0) : Type 0 where
  pub coordinator : SwarmCoordinator F S
  pub phase : Phase

module _ {F S : Type 0} ⦃fl : FloatOps F⦄ (dec : Decoders) where
  pub data Step : System F S → System F S → Type 0 where
    request :
        (y : System F S) (r : SwarmRegisterRequest)
        → Step y (record y { coordinator = (register dec y.coordinator r).0 })
    woken :
        (y : System F S)
        → y.phase ≡ awaiting
        → y.coordinator.changed ≡ true
        → Step y (record y { coordinator = drain y.coordinator })
    counted :
        (y : System F S)
        → y.phase ≡ awaiting
        → all_registered y.coordinator ≡ true
        → Step y (record y { phase = registered })
    timed_out :
        (y : System F S) (err : Text)
        → y.phase ≡ awaiting
        → Step y (record { coordinator = fail y.coordinator err; phase = done })
    build :
        (y : System F S) (c : SwarmCoordinator F S)
        → y.phase ≡ registered
        → build_runtime_configs y.coordinator ≡ (c, false)
        → Step y (record { coordinator = c; phase = built })
    build_failed :
        (y : System F S) (c : SwarmCoordinator F S) (err : Text)
        → y.phase ≡ registered
        → build_runtime_configs y.coordinator ≡ (c, true)
        → Step y (record { coordinator = fail c err; phase = done })
    start :
        (y : System F S)
        → y.phase ≡ built
        → Step y (record {
          coordinator = set_state y.coordinator waiting_for_peer_readiness;
          phase = executing;
        })
    finish :
        (y : System F S) (summary : S)
        → y.phase ≡ executing
        → Step y (record { coordinator = complete y.coordinator summary; phase = done })
    broken :
        (y : System F S) (err : Text)
        → y.phase ≡ executing
        → Step y (record { coordinator = fail y.coordinator err; phase = done })

  pub data Reach (y : System F S) : System F S → Type 0 where
    here : Reach y y
    next : {u v : System F S} → Reach y u → Step u v → Reach y v

abbrev pub start_of : {F S : Type 0} → Scenario F → Text → System F S
start_of scenario run_id = record {
  coordinator = new_swarm_coordinator scenario run_id;
  phase = awaiting;
}

-- The state that goes with each phase, for a run without failure.
abbrev state_of : Phase → Text
state_of awaiting = waiting_for_peers
state_of registered = waiting_for_peers
state_of built = config_ready
state_of executing = waiting_for_peer_readiness
state_of done = completed

abbrev has_summary : {S : Type 0} → Option S → Bool
has_summary none = false
has_summary (some s) = true

abbrev is_awaiting : Phase → Bool
is_awaiting awaiting = true
is_awaiting _ = false

-- The end of a run that was completed.
abbrev pub IsComplete : {F S : Type 0} → SwarmCoordinator F S → Type 0
IsComplete c =
    (c.state ≡ completed)
    × (c.run_err ≡ [])
    × (has_summary c.summary ≡ true)
    × (all_registered c ≡ true)

-- What holds in each phase.
abbrev IsSound : {F S : Type 0} → SwarmCoordinator F S → Phase → Type 0
IsSound c awaiting = (c.state ≡ waiting_for_peers) × (c.run_err ≡ [])
IsSound c registered = (c.state ≡ waiting_for_peers) × (c.run_err ≡ []) × (all_registered c ≡ true)
IsSound c built = (c.state ≡ config_ready) × (c.run_err ≡ []) × (all_registered c ≡ true)
IsSound c executing =
    (c.state ≡ waiting_for_peer_readiness) × (c.run_err ≡ []) × (all_registered c ≡ true)
IsSound c done = (c.state ≡ failed) ⊎ IsComplete c

abbrev Invariant : {F S : Type 0} → System F S → Type 0
Invariant y = IsCounted y.coordinator × IsSound y.coordinator y.phase

module _ {F S : Type 0} (dec : Decoders) where
  -- Where all are registered, a registration leaves it so.
  register-all :
      (c : SwarmCoordinator F S) (r : SwarmRegisterRequest)
      → IsCounted c
      → all_registered c ≡ true
      → all_registered (register dec c r).0 ≡ true
  unfolding all_registered
  register-all c r k h =
      let (counts, scenario, grows) = register-IsCounted dec c r k in
      let same = ap (λ s. length s.topology.nodes) scenario in
      let bound =
        filled_bound (register dec c r).0.registrations (expected_of (register dec c r).0) in
      ground (arith, counts, same, grows, bound)

  register-kept :
      (c : SwarmCoordinator F S) (r : SwarmRegisterRequest)
      → ((register dec c r).0.state ≡ c.state)
        × ((register dec c r).0.run_err ≡ c.run_err)
        × ((register dec c r).0.summary ≡ c.summary)
  register-kept c r = elim (register-cases dec c r) [
    | inl e ↦ rw e (refl, refl, refl)
    | inr (w, k, e) ↦ rw e (refl, refl, refl)
  ]

  register-IsSound :
      (c : SwarmCoordinator F S) (r : SwarmRegisterRequest) (p : Phase)
      → IsCounted c
      → IsSound c p
      → IsSound (register dec c r).0 p
  register-IsSound c r awaiting k h = let (st, err, sm) = register-kept c r in (st ∙ h.0, err ∙ h.1)
  register-IsSound c r registered k h =
      let (st, err, sm) = register-kept c r in (st ∙ h.0, err ∙ h.1, register-all c r k h.2)
  register-IsSound c r built k h =
      let (st, err, sm) = register-kept c r in (st ∙ h.0, err ∙ h.1, register-all c r k h.2)
  register-IsSound c r executing k h =
      let (st, err, sm) = register-kept c r in (st ∙ h.0, err ∙ h.1, register-all c r k h.2)
  register-IsSound c r done k (inl h) = inl ((register-kept c r).0 ∙ h)
  register-IsSound c r done k (inr h) =
      let (st, err, sm) = register-kept c r in
      inr (st ∙ h.0, err ∙ h.1, ap has_summary sm ∙ h.2, register-all c r k h.3)

start-Invariant :
    (F S : Type 0) (s : Scenario F) (run_id : Text) → Invariant (start_of {F = F} {S = S} s run_id)
unfolding new_swarm_coordinator
start-Invariant F S s run_id = (sym (filled_nothing (length s.topology.nodes)), (refl, refl))

module _ {F S : Type 0} ⦃fl : FloatOps F⦄ (dec : Decoders) where
  build_all :
      (c : SwarmCoordinator F S)
      → all_registered c ≡ true
      → ((build_runtime_configs c).1 ≡ false)
        × ((build_runtime_configs c).0.registrations ≡ c.registrations)
        × ((build_runtime_configs c).0.scenario ≡ c.scenario)
        × ((build_runtime_configs c).0.run_err ≡ c.run_err)
        × ((build_runtime_configs c).0.state ≡ config_ready)
  unfolding build_runtime_configs all_registered
  build_all c h = rw (h, build_runtime_configs) (refl, refl, refl, refl, refl)

  at_phase :
      (y : System F S) {p : Phase}
      → y.phase ≡ p
      → IsSound y.coordinator y.phase
      → IsSound y.coordinator p
  at_phase y e h = subst (IsSound y.coordinator) e h

  Step-Invariant : {y z : System F S} → Step dec y z → Invariant y → Invariant z
  unfolding all_registered register drain set_state fail complete
  Step-Invariant (request y r) (k, h) = (
    (register-IsCounted dec y.coordinator r k).0,
    register-IsSound dec y.coordinator r y.phase k h,
  )
  Step-Invariant (woken y p w) (k, h) =
      let a = at_phase y p h in (k, subst (IsSound (drain y.coordinator)) (sym p) a)
  Step-Invariant (counted y p a) (k, h) = let b = at_phase y p h in (k, (b.0, b.1, a))
  Step-Invariant (timed_out y err p) (k, h) = (k, inl refl)
  Step-Invariant (build y c p e) (k, h) =
      let a = at_phase y p h in
      let (ok, regs, scen, err, state) = build_all y.coordinator a.2 in
      let c' = (build_runtime_configs y.coordinator).0 in
      let counted' : IsCounted c' = rw (regs, scen) k in
      let all' : all_registered c' ≡ true = rw (regs, scen) a.2 in
      subst (λ d. Invariant (record { coordinator = d; phase = built })) (ap (λ t. t.0) e)
        (counted', (state, err ∙ a.1, all'))
  Step-Invariant (build_failed y c err p e) (k, h) =
      let a = at_phase y p h in
      absurd (ground (arith, (build_all y.coordinator a.2).0, ap (λ t. t.1) e))
  Step-Invariant (start y p) (k, h) = let a = at_phase y p h in (k, (refl, a.1, a.2))
  Step-Invariant (finish y summary p) (k, h) =
      let a = at_phase y p h in (k, inr (refl, a.1, refl, a.2))
  Step-Invariant (broken y err p) (k, h) = (k, inl refl)

  Reach-Invariant : {y z : System F S} → Invariant y → Reach dec y z → Invariant z
  Reach-Invariant h here = h
  Reach-Invariant h (next r st) = Step-Invariant st (Reach-Invariant h r)

  -- However the registrations interleave with the run, buildRuntimeConfigs finds all peers registered:
  -- when the run reaches it, every slot from 1 to the number of nodes has a registration, and it does
  -- not fail.
  pub build_never_fails :
      (s : Scenario F) (run_id : Text) (y : System F S) (i : ℕ)
      → Reach dec (start_of s run_id) y
      → y.phase ≡ registered
      → 1 ≤ i
      → i ≤ expected_of y.coordinator
      → ((build_runtime_configs y.coordinator).1 ≡ false)
        × (has_slot y.coordinator.registrations i ≡ true)
  unfolding all_registered
  build_never_fails s run_id y i r p low high =
      let (counts, sound) = Reach-Invariant (start-Invariant F S s run_id) r in
      let all = (at_phase y p sound).2 in
      (
        (build_all y.coordinator all).0,
        filled_all y.coordinator.registrations (expected_of y.coordinator) i
            (ground (arith, counts)) low high,
      )

  -- The results are handed out only by a run that is completed, without an error, with a summary, and
  -- with as many registrations as nodes.
  pub archive-IsComplete :
      (s : Scenario F) (run_id : Text) (y : System F S)
      → Reach dec (start_of s run_id) y
      → handle_archive y.coordinator ≡ archive
      → IsComplete y.coordinator
  unfolding handle_archive text_eq
  archive-IsComplete s run_id y r h =
      let (counts, sound) = Reach-Invariant (start-Invariant F S s run_id) r in
      ended y.phase sound (state_completed y.coordinator h)
    where
      state_completed :
          (c : SwarmCoordinator F S) → handle_archive c ≡ archive → c.state ≡ completed
      state_completed c h = ground (arith, text_eq_iff c.state completed)

      other :
          (t : Text)
          → y.coordinator.state ≡ t
          → text_eq t completed ≡ false
          → y.coordinator.state ≡ completed
          → IsComplete y.coordinator
      other t a e f = absurd (ground (arith, text_eq_iff t completed, sym a ∙ f))

      ended :
          (p : Phase)
          → IsSound y.coordinator p
          → y.coordinator.state ≡ completed
          → IsComplete y.coordinator
      ended awaiting a = other waiting_for_peers a.0 refl
      ended registered a = other waiting_for_peers a.0 refl
      ended built a = other config_ready a.0 refl
      ended executing a = other waiting_for_peer_readiness a.0 refl
      ended done (inl a) = other failed a refl
      ended done (inr a) = λ e. a
