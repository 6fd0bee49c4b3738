-- ===== src/Examples/Plans.antt =====
-- The theorem on the traffic plan, applied.
use native.Mathlib.Nat.{mod-lt}
use peerkit.Prelude.{
  ℕ, ◌+◌, ◌%◌, ◌≡◌, refl, List, [], ◌∷◌, Text, codes, contains, text_eq, text_key, length, All,
  arith, to_lower, trim_space, trim_left, is_space, lower_byte,
}
use peerkit.Int.{pos}
use peerkit.Domain.Rng.{Rng}
use peerkit.Config.Types.{TrafficConfig}
use peerkit.Config.Validate.{is_random_traffic_source}
use peerkit.Config.Validate.Sound.{IsEmittable}
use peerkit.Controller.Traffic.{plan_traffic}
use peerkit.Controller.Traffic.Sources.{IsFrom, total, plan_traffic_lem}

abbrev counting : Rng ℕ ℕ
counting = record {
  float64 = λ r. (r, r + 1);
  norm_float64 = λ r. (r, r + 1);
  exp_float64 = λ r. (r, r + 1);
  intn = λ n r. (r % n, r + 1);
  intn_bound = λ n r h. mod-lt r h;
}

abbrev two_nodes : List Text
two_nodes = codes "x" ∷ codes "y" ∷ []

abbrev emission : Text → TrafficConfig
emission source = record {
  source = source;
  start_at_ms = pos 0;
  count = pos 2;
  interval_ms = pos 10;
  payload_size_bytes = pos 64;
}

emissions-IsEmittable :
    All (IsEmittable two_nodes) (emission (codes " Random") ∷ emission (codes "y") ∷ [])
unfolding is_random_traffic_source contains text_eq to_lower trim_space trim_left is_space
    lower_byte
emissions-IsEmittable = ((refl, refl), ((refl, refl), tt))

plan_traffic_lem_example :
    let plan =
      plan_traffic counting
        (λ seed. seed)
        two_nodes
        (pos 1)
        0
        (emission (codes " Random") ∷ emission (codes "y") ∷ []) in
    All (IsFrom two_nodes) plan
    × (length plan ≡ total (emission (codes " Random") ∷ emission (codes "y") ∷ []))
plan_traffic_lem_example =
    plan_traffic_lem counting (λ seed. seed) two_nodes (pos 1) 0
      (emission (codes " Random") ∷ emission (codes "y") ∷ []) (omega arith) emissions-IsEmittable
