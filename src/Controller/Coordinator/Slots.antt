-- ===== src/Controller/Coordinator/Slots.antt =====
-- Counting the registered slots.
use peerkit.Prelude.{
  number_key, ℕ, zero, suc, ◌+◌, ◌≤◌, ◌≡◌, refl, ap, ◌⊎◌, inl, inr, Bool, true, false, not, ◌&&◌,
  ◌||◌, none, List, [], ◌∷◌, text_eq, text_eq_iff, store, length, leb, ◌==◌, if◌then◌else◌, arith,
  Bool-cases, Option-cases,
}
use peerkit.Int.{pos_part}
use peerkit.Controller.Runtime.{SwarmRegisterRequest}
use peerkit.Controller.Coordinator.{
  SwarmCoordinator, Decoders, expected_of, check_request, register_checked, register,
  waiting_for_peers,
}

pub has_slot : List (ℕ × SwarmRegisterRequest) → ℕ → Bool
has_slot [] i = false
has_slot ((j, r) ∷ m) i = j == i || has_slot m i

-- How many of the slots 1 to n are registered.
pub filled : List (ℕ × SwarmRegisterRequest) → ℕ → ℕ
filled m zero = 0
filled m (suc n) = (if has_slot m (suc n) then 1 else 0) + filled m n

has_slot-store :
    (m : List (ℕ × SwarmRegisterRequest)) (a b : ℕ) (r : SwarmRegisterRequest)
    → has_slot (store m a r) b ≡ (a == b || has_slot m b)
unfolding has_slot store
has_slot-store [] a b r = refl
has_slot-store ((j, s) ∷ m) a b r = ground (arith, has_slot-store m a b r)

length-store :
    (m : List (ℕ × SwarmRegisterRequest)) (a : ℕ) (r : SwarmRegisterRequest)
    → length (store m a r) ≡ (if has_slot m a then length m else suc (length m))
unfolding has_slot store
length-store [] a r = refl
length-store ((j, s) ∷ m) a r = ground (arith, length-store m a r)

filled-store :
    (m : List (ℕ × SwarmRegisterRequest)) (a n : ℕ) (r : SwarmRegisterRequest)
    → 1 ≤ a
    → filled (store m a r) n
      ≡ (if leb a n && not (has_slot m a) then suc (filled m n) else filled m n)
unfolding filled
filled-store m a zero r h = ground arith
filled-store m a (suc n) r h = ground (
  arith,
  filled-store m a n r h,
  has_slot-store m a (suc n) r,
  ap (has_slot m) {x = a} {y = suc n},
)

pub filled_bound : (m : List (ℕ × SwarmRegisterRequest)) (n : ℕ) → filled m n ≤ n
unfolding filled
filled_bound m zero = omega arith
filled_bound m (suc n) = ground (arith, filled_bound m n)

pub filled_all :
    (m : List (ℕ × SwarmRegisterRequest)) (n i : ℕ)
    → filled m n ≡ n
    → 1 ≤ i
    → i ≤ n
    → has_slot m i ≡ true
unfolding filled
filled_all m zero i h p q = absurd (omega arith)
filled_all m (suc n) i h p q =
    ground (arith, filled_bound m n, filled_all m n i, ap (has_slot m) {x = i} {y = suc n})

pub filled_nothing : (n : ℕ) → filled [] n ≡ 0
unfolding filled has_slot
filled_nothing zero = refl
filled_nothing (suc n) = ground (arith, filled_nothing n)

-- The registrations are of different slots between 1 and the number of nodes.
abbrev pub IsCounted : {F S : Type 0} → SwarmCoordinator F S → Type 0
IsCounted c = length c.registrations ≡ filled c.registrations (expected_of c)

pub check_request_slot :
    (dec : Decoders) (n : ℕ) (r : SwarmRegisterRequest)
    → check_request dec n r ≡ none
    → (1 ≤ pos_part r.slot) × (pos_part r.slot ≤ n)
unfolding check_request
check_request_slot dec n r h = (ground arith, ground arith)

module _ {F S : Type 0} (dec : Decoders) where
  -- What an accepted or rejected registration does.
  pub register-cases :
      (c : SwarmCoordinator F S) (r : SwarmRegisterRequest)
      → ((register dec c r).0 ≡ c)
        ⊎ ((c.state ≡ waiting_for_peers)
            × (check_request dec (expected_of c) r ≡ none)
            × ((register dec c r).0 ≡ record c {
              registrations = store c.registrations (pos_part r.slot) r;
              changed = true;
            }))
  unfolding register
  register-cases c r = elim (Option-cases (check_request dec (expected_of c) r)) [
    | inr (e, h) ↦ inl (rw (h, register_checked))
    | inl h ↦ elim (Bool-cases (text_eq c.state waiting_for_peers)) [
      | inl w ↦ inr ((text_eq_iff _ _).0 w, h, rw (h, register_checked) (ground arith))
      | inr w ↦ inl (rw (h, register_checked) (ground arith))
    ]
  ]

  -- A registration keeps the count of the slots, the scenario, and whether all are there.
  pub register-IsCounted :
      (c : SwarmCoordinator F S) (r : SwarmRegisterRequest)
      → IsCounted c
      → IsCounted (register dec c r).0
        × ((register dec c r).0.scenario ≡ c.scenario)
        × (length c.registrations ≤ length (register dec c r).0.registrations)
  register-IsCounted c r h = elim (register-cases c r) [
    | inl e ↦ rw e (h, refl, omega arith)
    | inr (w, k, e) ↦
        let (low, high) = check_request_slot dec (expected_of c) r k in
        let more = length-store c.registrations (pos_part r.slot) r in
        let counted = filled-store c.registrations (pos_part r.slot) (expected_of c) r low in
        rw e (ground (arith, more, counted), refl, ground (arith, more))
  ]
