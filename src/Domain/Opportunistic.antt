-- ===== src/Domain/Opportunistic.antt =====
-- internal/config/domain.go, `weightedOpportunityChoice` and `selectOpportunisticInitialClique`: the
-- draw by which BA-opportunistic chooses the targets of a node, and the nodes that it starts with. A
-- slice over the nodes is a function.
pub mod Choice
pub mod Clique
use peerkit.Prelude.{
  ℕ, zero, suc, ◌-◌, ◌++◌, ◌||◌, ◌&&◌, ltb, Option, none, some, List, [], ◌∷◌, number_key, contains,
  length, get_or, if◌then◌else◌,
}
use peerkit.Float.{FloatOps}
use peerkit.Domain.Rng.{Rng}

module _ {F : Type 0} ⦃fl : FloatOps F⦄ where
  abbrev pub opportunity_weight : (ℕ → ℕ) → (ℕ → F) → (ℕ → F) → ℕ → F
  opportunity_weight degrees processing edge node =
      fl.div (fl.of_int (degrees node))
        (fl.add (fl.add (fl.of_int 1) (processing node)) (edge node))

  -- The first loop, which adds up the weights.
  unfoldable pub total_weight : List ℕ → (ℕ → F) → List ℕ → F → F
  total_weight excluded weight [] total = total
  total_weight excluded weight (node ∷ nodes) total =
      if contains excluded node
      then total_weight excluded weight nodes total
      else total_weight excluded weight nodes (fl.add total (weight node))

  -- The loop that picks by weight, with `none` where it runs through.
  unfoldable pub pick_by_weight : List ℕ → (ℕ → F) → F → List ℕ → Option ℕ
  pick_by_weight excluded weight choice [] = none
  pick_by_weight excluded weight choice (node ∷ nodes) =
      let skip = pick_by_weight excluded weight choice nodes in
      let next = pick_by_weight excluded weight (fl.sub choice (weight node)) nodes in
      if contains excluded node
      then skip
      else (if fl.lt choice (weight node) then some node else next)

-- The loop from the end, with `none` for the panic behind it.
unfoldable pub last_free : List ℕ → List ℕ → Option ℕ
last_free excluded [] = none
last_free excluded (node ∷ nodes) = elim (last_free excluded nodes) [
  | some t ↦ some t
  | none ↦ if contains excluded node then none else some node
]

abbrev pub or_else : Option ℕ → Option ℕ → Option ℕ
or_else (some t) y = some t
or_else none y = y

-- `rounds` bounds the loop that draws again after an excluded node, which is without a bound in the
-- source; `none` is a panic or that loop cut off.
module _ {F R : Type 0} ⦃fl : FloatOps F⦄ (rng : Rng F R) (rounds : ℕ) where
  unfoldable pub draw_free : ℕ → List ℕ → List ℕ → R → Option ℕ × R
  draw_free zero candidates excluded r = (none, r)
  draw_free (suc fuel) candidates excluded r =
      let (index, r1) = rng.intn (length candidates) r in
      let candidate = get_or candidates index 0 in
      let rest = draw_free fuel candidates excluded r1 in
      if contains excluded candidate then rest else (some candidate, r1)

  unfoldable pub weighted_opportunity_choice :
      List ℕ → (ℕ → ℕ) → (ℕ → F) → (ℕ → F) → List ℕ → R → Option ℕ × R
  weighted_opportunity_choice candidates degrees processing edge excluded r =
      let weight = opportunity_weight degrees processing edge in
      let total = total_weight excluded weight candidates (fl.of_int 0) in
      let (x, r1) = rng.float64 r in
      if fl.le total (fl.of_int 0) then draw_free rounds candidates excluded r else (
        or_else (pick_by_weight excluded weight (fl.mul x total) candidates)
            (last_free excluded candidates),
        r1,
      )

module _ {F : Type 0} ⦃fl : FloatOps F⦄ where
  -- The best node with its score, after one more candidate.
  abbrev pub better : Option (ℕ × F) → ℕ → F → Option (ℕ × F)
  better none candidate score = some (candidate, score)
  better (some (node, best)) candidate score =
      if fl.lt score best || (fl.eq score best && ltb candidate node)
      then some (candidate, score)
      else some (node, best)

-- `pair_delay` is the function of that name in the source, over the delays that it keeps.
module _ {F S : Type 0} ⦃fl : FloatOps F⦄ (processing : ℕ → F)
    (pair_delay : ℕ → ℕ → S → F × S) where
  -- The loop for the first node, from a candidate on.
  unfoldable pub fastest : ℕ → ℕ → ℕ → ℕ
  fastest first candidate zero = first
  fastest first candidate (suc left) =
      if fl.lt (processing candidate) (processing first)
      then fastest candidate (suc candidate) left
      else fastest first (suc candidate) left

  unfoldable pub link_total : ℕ → List ℕ → F → S → F × S
  link_total candidate [] total s = (total, s)
  link_total candidate (x ∷ xs) total s =
      let (delay, s1) = pair_delay candidate x s in link_total candidate xs (fl.add total delay) s1

  -- The loop over the candidates, from one on; `none` is the node -1.
  unfoldable pub best_from : List ℕ → ℕ → ℕ → Option (ℕ × F) → S → Option (ℕ × F) × S
  best_from selected candidate zero best s = (best, s)
  best_from selected candidate (suc left) best s =
      let skip = best_from selected (suc candidate) left best s in
      let (total, s1) = link_total candidate selected (fl.of_int 0) s in
      let score = fl.add (processing candidate) (fl.div total (fl.of_int (length selected))) in
      let next = best_from selected (suc candidate) left (better best candidate score) s1 in
      if contains selected candidate then skip else next

  -- The loop that selects so many more; `none` where it selects -1.
  unfoldable pub select_more : ℕ → ℕ → List ℕ → S → Option (List ℕ) × S
  select_more zero n selected s = (some selected, s)
  select_more (suc left) n selected s =
      let (best, s1) = best_from selected 0 n none s in
      elim best [ none ↦ (none, s1) | some b ↦ select_more left n (selected ++ b.0 ∷ []) s1 ]

  unfoldable pub select_initial_clique : ℕ → ℕ → S → Option (List ℕ) × S
  select_initial_clique n initial s = select_more (initial - 1) n (fastest 0 1 (n - 1) ∷ []) s
