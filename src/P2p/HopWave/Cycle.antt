-- ===== src/P2p/HopWave/Cycle.antt =====
-- The waves along a path of relays: the publisher, then peer after peer.
use peerkit.Prelude.{
  ℕ, zero, suc, ◌+◌, ◌-◌, ◌%◌, ◌≤◌, ◌<◌, ◌≡◌, refl, ◌⊎◌, inl, inr, true, false, arith, ==_iff, ◌==◌,
  ap, ◌∙◌, ltb, if◌then◌else◌, ◌↔◌,
}
use native.Mathlib.Decide.{dec_lt}
use native.Mathlib.Nat.{mod-lt, mod-eq_of_lt, mod_self, suc-mod}
use peerkit.Int.{pos}
use peerkit.Protocols.{HopWaveConfig}
use peerkit.P2p.HopWave.{HopWaveRelayDecision, crest_relay, decide_hop_wave_relay}

module _ {F : Type 0} (cfg : HopWaveConfig F) where
  -- The decision of the k-th peer on the path, where peer 0 is the publisher.
  pub relay : ℕ → HopWaveRelayDecision
  relay zero = decide_hop_wave_relay cfg true 0
  relay (suc k) = decide_hop_wave_relay cfg false (relay k).outgoing_hop

next_mod :
    (k n : ℕ)
    → 0 < n
    → ((k % n ≡ n - 1) × (suc k % n ≡ 0)) ⊎ ((k % n < n - 1) × (suc k % n ≡ k % n + 1))
next_mod k n h = elim (dec_lt (k % n) (n - 1)) [
  | yes p ↦ inr (p, suc-mod k n ∙ (mod-eq_of_lt (omega (arith, mod-lt k h)) ∙ omega arith))
  | no p ↦
      let last : suc (k % n) ≡ n = omega (arith, mod-lt k h) in
      inl (omega (arith, mod-lt k h), suc-mod k n ∙ (ap (λ t. t % n) last ∙ mod_self n))
]

-- I is at least 1, as validated, and I - 1 fits a uint32.
module _ {F : Type 0} (f : F) (n : ℕ) (positive : 1 ≤ n) (small : n ≤ 4294967296) where
  abbrev cfg_of : HopWaveConfig F
  cfg_of = record { i = pos n; f = f }

  decide_received :
      (k : ℕ)
      → k < n
      → decide_hop_wave_relay cfg_of false k
        ≡ (if ltb k (n - 1) then record { crest = false; outgoing_hop = k + 1 } else crest_relay)
  unfolding decide_hop_wave_relay
  decide_received k h = ground arith

  relay-eq : (k : ℕ) → relay cfg_of k ≡ record { crest = k % n == 0; outgoing_hop = k % n }
  unfolding relay decide_hop_wave_relay
  relay-eq zero = ground (arith, mod-eq_of_lt {n = 0} {m = n} positive)
  relay-eq (suc k) =
      rw (relay-eq k)
        (ground (arith, decide_received (k % n), mod-lt k positive, next_mod k n positive))

  -- For 1 ≤ I ≤ 2^32, on any path from the publisher, the k-th relay is a crest exactly if I divides k, and it sends the
  -- message on with the cycle hop k mod I. In particular no hop leaves the range below I.
  pub relay_cycle :
      (k : ℕ)
      → (((relay cfg_of k).crest ≡ true) ↔ (k % n ≡ 0))
        × ((relay cfg_of k).outgoing_hop ≡ k % n)
        × ((relay cfg_of k).outgoing_hop < n)
  relay_cycle k = rw (relay-eq k) (==_iff (k % n) 0, refl, mod-lt k positive)
