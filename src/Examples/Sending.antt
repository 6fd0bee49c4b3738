-- ===== src/Examples/Sending.antt =====
-- The theorems on delays and on sending, applied.
use native.Mathlib.Nat.{mod-lt}
use peerkit.Prelude.{
  text_eq, to_lower, lower_byte, ℕ, ◌+◌, ◌*◌, ◌%◌, ltb, arith, ◌≡◌, refl, some, none, Text, codes,
  text_eq, to_lower, lower_byte,
}
use peerkit.Float.{FloatOps, thousandths}
use peerkit.Prelude.{true, false, not, ◌/◌, ◌==◌, if◌then◌else◌}
use peerkit.Int.{ℤ, pos, negsuc, leb_ℤ, eqb_ℤ, pos_part, ◌+ℤ◌, ◌-ℤ◌, ◌*ℤ◌}
use peerkit.Domain.Rng.{Rng}
use peerkit.Config.Types.{Scenario}
use peerkit.Config.Defaults.{zero_constant}
use peerkit.Config.Validate.{validate_distribution}
use peerkit.Config.Sample.{draw_normal, sample_milliseconds, raw_sample}
use peerkit.Config.Sample.Returns.{IsFloat, IsLucky}
use peerkit.Config.Validate.{validate_distribution}
use peerkit.Config.Assignment.{
  resolve_node_delay_assignments, resolve_edge_delay_assignments, resolve_nodes, resolve_edges,
  Result, ok, err, resolve_nodes, resolve_edges, resolve_delay_assignments,
}
use peerkit.Config.Assignment.Whole.{IsSettled, resolve_delay_assignments-IsAssigned}
use peerkit.P2p.Send.{Attempt, Transport, Link, Sent, Sleep, write, send}
use peerkit.P2p.Send.Streams.{IsWritten, write-IsWritten}
use peerkit.P2p.Send.Outcome.{IsAccounted, send-IsAccounted}
use peerkit.Examples.Fixtures.{plain_codec, node_b, a_frame, peer_of}
use peerkit.Examples.Scenarios.{a_scenario}

abbrev counting : Rng ℕ ℕ
counting = record {
  float64 = λ r. (r * 300 % 1000, r + 1);
  norm_float64 = λ r. (r % 1000, r + 1);
  exp_float64 = λ r. (r % 1000, r + 1);
  intn = λ n r. (r % n, r + 1);
  intn_bound = λ n r h. mod-lt r h;
}

abbrev or_given : Scenario ℕ → Result (Scenario ℕ) → Scenario ℕ
or_given s (ok t) = t
or_given s (err e) = s

abbrev resolved : Scenario ℕ
resolved =
    or_given a_scenario (resolve_delay_assignments counting 3 (λ seed. seed % 100) a_scenario)

scenario_resolved :
    resolve_delay_assignments counting 3 (λ seed. seed % 100) a_scenario ≡ ok resolved
unfolding resolve_delay_assignments resolve_node_delay_assignments resolve_nodes
    validate_distribution text_eq to_lower lower_byte sample_milliseconds raw_sample
    resolve_edge_delay_assignments resolve_edges
scenario_resolved = refl

-- A transport whose first write fails. The world counts the writes.
abbrev flaky : Transport ℕ Text
flaky = record {
  decode = λ id. Attempt.done id;
  new_stream = λ id s. (Attempt.done id, s);
  write = λ h bytes s. (ltb 0 s, s + 1);
  reset = λ h s. s;
}

-- Whole numbers with a sign, and a generator of which every other draw is -5.
instance abbrev whole_numbers : FloatOps ℤ
whole_numbers = record {
  lt = λ a b. not (leb_ℤ b a);
  le = leb_ℤ;
  eq = eqb_ℤ;
  of_int = λ n. pos n;
  add = λ a b. a +ℤ b;
  mul = λ a b. a *ℤ b;
  div = λ a b. pos (pos_part a / pos_part b);
  sub = λ a b. a -ℤ b;
  pow = λ a b. a;
  finite = λ a. true;
  round = pos_part;
  ceil = pos_part;
  trunc = pos_part;
}

abbrev swinging : Rng ℤ ℕ
swinging = record {
  float64 = λ r. (pos 0, r + 1);
  norm_float64 = λ r. (if r % 2 == 0 then negsuc 4 else pos 0, r + 1);
  exp_float64 = λ r. (pos 1, r + 1);
  intn = λ n r. (r % n, r + 1);
  intn_bound = λ n r h. mod-lt r h;
}

whole_numbers-IsFloat : IsFloat ℤ
whole_numbers-IsFloat = record {
  zero = refl;
  irrefl = refl;
  above = λ x h. ground arith;
  third = λ x h. refl;
}

no_swing :
    (mean deviation : ℤ)
    → whole_numbers.lt mean (pos 0) ≡ false
    → leb_ℤ (pos 0) (mean +ℤ pos 0 *ℤ deviation) ≡ true
unfolding ◌+ℤ◌ ◌*ℤ◌
no_swing mean deviation h = ground arith

swinging-IsLucky : IsLucky swinging 2
unfolding draw_normal
swinging-IsLucky mean deviation r h f k g = ground (arith, no_swing mean deviation)

abbrev link : Link ℕ ℕ Text
link = record {
  node_id = node_b;
  peer_id = codes "peer-b";
  network = record {
    delay_distribution = record zero_constant { value_ms = 20 };
    delay_jitter_std_dev_ms = 5;
    loss_rate = 100;
    bandwidth_mbps = 1000;
    queue_capacity = pos 8;
  };
  data_rng = 4;
  control_rng = 5;
  stream = none;
}

write-IsWritten_example :
    let (e, k, s) = write flaky plain_codec a_frame link 0 in IsWritten link e k
write-IsWritten_example = write-IsWritten flaky plain_codec a_frame link 0

thousandths-IsFloat : IsFloat ℕ
thousandths-IsFloat = record {
  zero = refl;
  irrefl = refl;
  above = λ x h. ground arith;
  third = λ x h. refl;
}

-- With these numbers no sample is negative.
counting-IsLucky : IsLucky counting 3
unfolding draw_normal
counting-IsLucky mean deviation r _ _ _ _ = ground arith

resolve_delay_assignments-IsAssigned_example :
    IsSettled counting 3
      (λ seed. seed % 100)
      counting
      5
      (λ seed. 1)
      a_scenario
      (resolve_delay_assignments counting 3 (λ seed. seed % 100) a_scenario)
resolve_delay_assignments-IsAssigned_example =
    resolve_delay_assignments-IsAssigned counting 3 (λ seed. seed % 100) counting 5 (λ seed. 1)
      thousandths-IsFloat counting-IsLucky a_scenario

abbrev signed_link : Link ℤ ℕ Text
signed_link = record {
  node_id = node_b;
  peer_id = codes "peer-b";
  network = record {
    delay_distribution = record (zero_constant {F = ℤ}) { value_ms = pos 20 };
    delay_jitter_std_dev_ms = pos 5;
    loss_rate = pos 0;
    bandwidth_mbps = pos 1;
    queue_capacity = pos 8;
  };
  data_rng = 4;
  control_rng = 5;
  stream = none;
}

abbrev asleep : Sleep ℤ
asleep d p = some (d, p)

send-IsAccounted_example :
    (x : Sent ℤ ℕ ℕ Text) × (send plain_codec flaky swinging 2 asleep 9
        (record { frame = a_frame; enqueued_at = 2 })
        signed_link
        (peer_of (codes "base-flooding"))
        0
      ≡ some x)
    × IsAccounted plain_codec asleep a_frame node_b (peer_of (codes "base-flooding")) x.1
send-IsAccounted_example =
    send-IsAccounted plain_codec flaky swinging 2 asleep 9
      (record { frame = a_frame; enqueued_at = 2 }) signed_link (peer_of (codes "base-flooding")) 0
      whole_numbers-IsFloat swinging-IsLucky
