-- ===== src/Controller/Traffic.antt =====
-- internal/controller/traffic.go: the plan of the emissions, without its CSV file. The lists of
-- sources that buildTrafficPlan returns besides are the `source` fields of the emissions.
pub mod Sources
use peerkit.Prelude.{
  ℕ, zero, suc, ◌+◌, ◌-◌, ◌%◌, ◌^◌, Bool, true, false, List, [], ◌∷◌, ◌++◌, Text, codes, decimal,
  stable_seed, length, get_or, if◌then◌else◌,
}
use peerkit.Int.{ℤ, pos, pos_part, neg_part, ◌+ℤ◌, ◌*ℤ◌}
use peerkit.Config.Types.{TrafficConfig, Scenario}
use peerkit.Config.Validate.{is_random_traffic_source, to_int64, ids_of}
use peerkit.Float.{FloatOps}
use peerkit.Domain.Rng.{Rng}

pub record TrafficPlanEntry : Type 0 where
  pub traffic_index : ℕ
  pub message_index : ℕ
  pub scheduled_ms : ℤ
  pub source : Text

-- On the bit patterns of the int64 values.
unfoldable pub traffic_seed : ℤ → ℕ → ℕ
traffic_seed base index =
    stable_seed ((pos_part base % 2 ^ 64 + (2 ^ 64 - neg_part base % 2 ^ 64)) % 2 ^ 64)
      (codes "peerkit-traffic-" ++ decimal index)

-- `new_source` is rand.New(rand.NewSource(seed)).
module _ {F R : Type 0} (rng : Rng F R) (new_source : ℕ → R) where
  -- The source of a message, and the generator after it.
  unfoldable pub next_source : List Text → TrafficConfig → R → Text × R
  next_source ids t r =
      if is_random_traffic_source t.source
      then (let (index, r') = rng.intn (length ids) r in (get_or ids index [], r'))
      else (t.source, r)

  -- The loop over the messages from `message` on, for `left` rounds.
  unfoldable pub plan_messages : List Text → TrafficConfig → ℕ → ℕ → ℕ → R → List TrafficPlanEntry
  plan_messages ids t index message zero r = []
  plan_messages ids t index message (suc left) r =
      let (source, r') = next_source ids t r in
      record {
        traffic_index = index;
        message_index = message;
        scheduled_ms = to_int64 (t.start_at_ms +ℤ pos message *ℤ t.interval_ms);
        source = source;
      }
      ∷ plan_messages ids t index (suc message) left r'

  -- The loop over the traffic; a count is positive, as validated.
  unfoldable pub plan_traffic : List Text → ℤ → ℕ → List TrafficConfig → List TrafficPlanEntry
  plan_traffic ids seed index [] = []
  plan_traffic ids seed index (t ∷ ts) =
      plan_messages ids t index 0 (pos_part t.count) (new_source (traffic_seed seed index))
      ++ plan_traffic ids seed (suc index) ts
