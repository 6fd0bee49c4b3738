-- ===== src/P2p/HopWave.antt =====
-- internal/p2p/hopwave.go: the relay cycle of HopWave and the choice of its targets. math/rand's
-- seeded Shuffle is the parameter `Shuffle`.
pub mod Cycle
pub mod Selected
pub mod Targets
use mathlib.Core.List.{Perm, foldr}
use peerkit.Prelude.{
  ℕ, zero, suc, ◌+◌, ◌-◌, ◌*◌, ◌/◌, ◌%◌, ◌^◌, Bool, true, false, ◌&&◌, ◌||◌, Option, none, some,
  List, [], ◌∷◌, ◌++◌, Text, codes, length, take, ltb, leb, ◌==◌, if◌then◌else◌, text_leb,
  stable_seed, decimal, text_key, insert,
}
use peerkit.Int.{ℤ, pos, leb_ℤ, pos_part}
use peerkit.Float.{FloatOps}
use peerkit.Protocols.{HopWaveConfig}
use peerkit.P2p.Wire.{WireMessage}

pub record HopWaveRelayDecision : Type 0 where
  pub crest : Bool
  pub outgoing_hop : ℕ

abbrev pub crest_relay : HopWaveRelayDecision
crest_relay = record { crest = true; outgoing_hop = 0 }

-- `uint32(cfg.I - 1)`, read only where I > 1; hops are uint32.
last_trough : ℤ → ℕ
last_trough i = (pos_part i - 1) % 2 ^ 32

unfoldable pub decide_hop_wave_relay :
    {F : Type 0} → HopWaveConfig F → Bool → ℕ → HopWaveRelayDecision
unfolding last_trough
decide_hop_wave_relay cfg source received_hop =
    if source || (leb_ℤ cfg.i (pos 1) || leb (last_trough cfg.i) received_hop)
    then crest_relay
    else record { crest = false; outgoing_hop = (received_hop + 1) % 2 ^ 32 }

-- sort.Strings.
insert_sorted : Text → List Text → List Text
insert_sorted t [] = t ∷ []
insert_sorted t (u ∷ us) = if text_leb t u then t ∷ u ∷ us else u ∷ insert_sorted t us

unfoldable pub sort_strings : List Text → List Text
unfolding insert_sorted
sort_strings [] = []
sort_strings (t ∷ ts) = insert_sorted t (sort_strings ts)

-- A new generator with this seed shuffles a slice: some permutation, fixed by the seed.
pub record Shuffle : Type 0 where
  pub shuffle : ℕ → List Text → List Text
  pub shuffle-perm : (seed : ℕ) (l : List Text) → Perm (shuffle seed l) l

pub clamp_count : ℕ → ℕ → ℕ
clamp_count n count =
    let at_least = if ltb count 1 then 1 else count in if ltb n at_least then n else at_least

-- `selected[nodeID] = struct{}{}` for each node; a node that is there already is not added again.
unfoldable pub select_all : List Text → List Text → List Text
select_all selected [] = selected
select_all selected (node ∷ nodes) = select_all (insert selected node) nodes

module _ {F : Type 0} ⦃fl : FloatOps F⦄ (sh : Shuffle) where
  -- The set of targets.
  unfoldable pub select_hop_wave_targets : List Text → F → ℕ → List Text
  unfolding clamp_count
  select_hop_wave_targets eligible factor seed =
      if length eligible == 0 || fl.le factor (fl.of_int 0)
      then []
      else (if fl.le (fl.of_int 1) factor
          then select_all [] eligible
          else (let count = fl.round (fl.mul factor (fl.of_int (length eligible))) in
              select_all [] (
                take (clamp_count (length eligible) count)
                  (sh.shuffle seed (sort_strings eligible)))))

unfoldable pub hop_wave_selection_seed : ℕ → Text → WireMessage → ℕ
hop_wave_selection_seed seed node_id m = stable_seed seed (
    codes "hopwave:"
    ++ (node_id
        ++ (codes ":"
            ++ (m.origin
                ++ (codes ":" ++ (decimal m.sequence ++ (codes ":" ++ decimal m.hop_wave_hop)))))))
