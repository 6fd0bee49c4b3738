-- ===== src/Controller/Traffic/Sources.antt =====
-- How many emissions are planned, and from where.
use peerkit.Prelude.{
  ℕ, zero, suc, ◌+◌, ◌<◌, ◌≡◌, refl, ap, true, List, [], ◌∷◌, Text, text_eq_iff, text_key, contains,
  length, length-append, get_or, All, All-append, arith, Bool-cases, inl, inr,
}
use peerkit.Int.{ℤ, pos_part}
use peerkit.Domain.Rng.{Rng}
use peerkit.Config.Types.{TrafficConfig}
use peerkit.Config.Validate.{is_random_traffic_source}
use peerkit.Config.Validate.Sound.{IsEmittable}
use peerkit.Controller.Traffic.{
  TrafficPlanEntry, traffic_seed, next_source, plan_messages, plan_traffic,
}

contains-get_or :
    (ids : List Text) (i : ℕ) (d : Text) → i < length ids → contains ids (get_or ids i d) ≡ true
unfolding contains
contains-get_or [] i d h = absurd (omega arith)
contains-get_or (x ∷ ids) zero d h = ground (arith, text_eq_iff x x)
contains-get_or (x ∷ ids) (suc i) d h = ground (arith, contains-get_or ids i d)

-- The messages of all traffic entries together.
pub total : List TrafficConfig → ℕ
total [] = 0
total (t ∷ ts) = pos_part t.count + total ts

abbrev pub IsFrom : List Text → TrafficPlanEntry → Type 0
IsFrom ids e = contains ids e.source ≡ true

module _ {F R : Type 0} (rng : Rng F R) (new_source : ℕ → R) where
  next_source-known :
      (ids : List Text) (t : TrafficConfig) (r : R)
      → 0 < length ids
      → IsEmittable ids t
      → contains ids (next_source rng new_source ids t r).0 ≡ true
  unfolding next_source
  next_source-known ids t r n h = elim (Bool-cases (is_random_traffic_source t.source)) [
    | inl e ↦
        rw (e, next_source)
          (contains-get_or ids (rng.intn (length ids) r).0 [] (rng.intn_bound (length ids) r n))
    | inr e ↦ rw (e, next_source) (ground arith)
  ]

  plan_messages_lem :
      (ids : List Text) (t : TrafficConfig) (index message left : ℕ) (r : R)
      → 0 < length ids
      → IsEmittable ids t
      → All (IsFrom ids) (plan_messages rng new_source ids t index message left r)
        × (length (plan_messages rng new_source ids t index message left r) ≡ left)
  unfolding plan_messages
  plan_messages_lem ids t index message zero r n h = (tt, refl)
  plan_messages_lem ids t index message (suc left) r n h =
      let r' = (next_source rng new_source ids t r).1 in
      let rest = plan_messages_lem ids t index (suc message) left r' n h in
      ((next_source-known ids t r n h, rest.0), ap suc rest.1)

  -- For traffic with sources that are random or nodes, over at least one node, every planned emission
  -- is from a node, and there are as many as the counts add up to.
  pub plan_traffic_lem :
      (ids : List Text) (seed : ℤ) (index : ℕ) (ts : List TrafficConfig)
      → 0 < length ids
      → All (IsEmittable ids) ts
      → All (IsFrom ids) (plan_traffic rng new_source ids seed index ts)
        × (length (plan_traffic rng new_source ids seed index ts) ≡ total ts)
  unfolding plan_traffic total
  plan_traffic_lem ids seed index [] n h = (tt, refl)
  plan_traffic_lem ids seed index (t ∷ ts) n h =
      let start = new_source (traffic_seed seed index) in
      let first = plan_messages_lem ids t index 0 (pos_part t.count) start n h.0 in
      let rest = plan_traffic_lem ids seed (suc index) ts n h.1 in
      let planned = plan_messages rng new_source ids t index 0 (pos_part t.count) start in
      let later = plan_traffic rng new_source ids seed (suc index) ts in
      (
        All-append (IsFrom ids) planned later first.0 rest.0,
        omega (arith, length-append planned later, first.1, rest.1),
      )
