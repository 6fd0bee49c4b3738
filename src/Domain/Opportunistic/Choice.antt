-- ===== src/Domain/Opportunistic/Choice.antt =====
-- The draw by opportunity gives a candidate that is not excluded, however float64 rounds.
use peerkit.Prelude.{
  ℕ, zero, suc, ◌<◌, ◌≡◌, ◌≢◌, refl, true, false, Option, none, some, List, [], ◌∷◌, number_key,
  contains, length, get_or, if◌then◌else◌, arith, Bool-cases, inl, inr,
}
use peerkit.Float.{FloatOps}
use peerkit.Domain.Rng.{Rng}
use peerkit.Domain.Opportunistic.{
  opportunity_weight, total_weight, pick_by_weight, last_free, or_else, draw_free,
  weighted_opportunity_choice,
}

-- A candidate that is not excluded, where there is a choice at all.
abbrev pub IsAllowed : List ℕ → List ℕ → Option ℕ → Type 0
IsAllowed excluded candidates none = Unit
IsAllowed excluded candidates (some t) =
    (contains candidates t ≡ true) × (contains excluded t ≡ false)

contains-head : (x : ℕ) (xs : List ℕ) → contains (x ∷ xs) x ≡ true
unfolding contains
contains-head x xs = ground arith

contains-tail : (x t : ℕ) (xs : List ℕ) → contains xs t ≡ true → contains (x ∷ xs) t ≡ true
unfolding contains
contains-tail x t xs h = ground arith

IsAllowed-cons :
    (excluded xs : List ℕ) (x : ℕ) (o : Option ℕ)
    → IsAllowed excluded xs o
    → IsAllowed excluded (x ∷ xs) o
IsAllowed-cons excluded xs x none a = tt
IsAllowed-cons excluded xs x (some t) a = (contains-tail x t xs a.0, a.1)

get_or-contains : (xs : List ℕ) (i : ℕ) → i < length xs → contains xs (get_or xs i 0) ≡ true
get_or-contains [] i h = absurd (omega arith)
get_or-contains (x ∷ xs) zero h = contains-head x xs
get_or-contains (x ∷ xs) (suc i) h = contains-tail x _ xs (get_or-contains xs i (omega arith))

module _ {F : Type 0} ⦃fl : FloatOps F⦄ (excluded : List ℕ) (weight : ℕ → F) where
  pick_by_weight-IsAllowed :
      (choice : F) (xs : List ℕ) → IsAllowed excluded xs (pick_by_weight excluded weight choice xs)
  unfolding pick_by_weight
  pick_by_weight-IsAllowed choice [] = tt
  pick_by_weight-IsAllowed choice (x ∷ xs) = elim (Bool-cases (contains excluded x)) [
    | inl e ↦
        rw (e, pick_by_weight) (IsAllowed-cons excluded xs x _ (pick_by_weight-IsAllowed choice xs))
    | inr e ↦ elim (Bool-cases (fl.lt choice (weight x))) [
      | inl q ↦ rw (e, q, pick_by_weight) (contains-head x xs, e)
      | inr q ↦
          rw (e, q, pick_by_weight)
            (IsAllowed-cons excluded xs x _
              (pick_by_weight-IsAllowed (fl.sub choice (weight x)) xs))
    ]
  ]

-- The loop from the end finds a candidate if there is one.
last_step :
    (excluded xs : List ℕ) (x : ℕ) (o : Option ℕ)
    → IsAllowed excluded xs o
    → IsAllowed excluded
        (x ∷ xs)
        (elim o [ some t ↦ some t | none ↦ if contains excluded x then none else some x ])
last_step excluded xs x (some t) a = IsAllowed-cons excluded xs x (some t) a
last_step excluded xs x none a = elim (Bool-cases (contains excluded x)) [
  | inl e ↦ rw e tt
  | inr e ↦ rw e (contains-head x xs, e)
]

last_free-IsAllowed : (excluded xs : List ℕ) → IsAllowed excluded xs (last_free excluded xs)
unfolding last_free
last_free-IsAllowed excluded [] = tt
last_free-IsAllowed excluded (x ∷ xs) =
    last_step excluded xs x (last_free excluded xs) (last_free-IsAllowed excluded xs)

contains-same : (xs : List ℕ) (x y : ℕ) → x ≡ y → contains xs x ≡ contains xs y
contains-same xs x y e = cc

none_step :
    (excluded xs : List ℕ) (x y : ℕ) (o : Option ℕ)
    → (o ≡ none → contains xs y ≡ true → contains excluded y ≡ true)
    → (elim o [ some t ↦ some t | none ↦ if contains excluded x then none else some x ]) ≡ none
    → contains (x ∷ xs) y ≡ true
    → contains excluded y ≡ true
unfolding contains
none_step excluded xs x y (some t) p h k = ground arith
none_step excluded xs x y none p h k = ground (arith, p refl, contains-same excluded x y)

last_free-none :
    (excluded xs : List ℕ) (y : ℕ)
    → last_free excluded xs ≡ none
    → contains xs y ≡ true
    → contains excluded y ≡ true
unfolding last_free contains
last_free-none excluded [] y h k = ground arith
last_free-none excluded (x ∷ xs) y h k =
    none_step excluded xs x y (last_free excluded xs) (last_free-none excluded xs y) h k

or_else-IsAllowed :
    (excluded xs : List ℕ) (a b : Option ℕ)
    → IsAllowed excluded xs a
    → IsAllowed excluded xs b
    → IsAllowed excluded xs (or_else a b)
or_else-IsAllowed excluded xs (some t) b p q = p
or_else-IsAllowed excluded xs none b p q = q

or_else-none : (a b : Option ℕ) → or_else a b ≡ none → b ≡ none
or_else-none (some t) b h = ground arith
or_else-none none b h = h

positive_of : (xs : List ℕ) (x : ℕ) → contains xs x ≡ true → 0 < length xs
unfolding contains
positive_of [] x h = absurd (ground arith)
positive_of (y ∷ ys) x h = omega arith

free_left :
    (xs excluded : List ℕ) (x : ℕ)
    → contains xs x ≡ true
    → contains excluded x ≡ false
    → last_free excluded xs ≢ none
free_left xs excluded x h k n = ground (arith, last_free-none excluded xs x n h)

module _ {F R : Type 0} ⦃fl : FloatOps F⦄ (rng : Rng F R) (rounds : ℕ)
    (candidates excluded : List ℕ) where
  draw_free-IsAllowed :
      (fuel : ℕ) (r : R)
      → 0 < length candidates
      → IsAllowed excluded candidates (draw_free rng rounds fuel candidates excluded r).0
  unfolding draw_free
  draw_free-IsAllowed zero r h = tt
  draw_free-IsAllowed (suc fuel) r h =
      let i = rng.intn (length candidates) r in
      let c = get_or candidates i.0 0 in
      elim (Bool-cases (contains excluded c)) [
        | inl e ↦ rw (e, draw_free) (draw_free-IsAllowed fuel i.1 h)
        | inr e ↦ rw (e, draw_free) (get_or-contains candidates i.0 (rng.intn_bound _ r h), e)
      ]

  -- Whatever the rounding of float64, weightedOpportunityChoice gives a candidate that is not
  -- excluded; and if one is left and the total weight is not 0 or less, it gives one, so its panic
  -- is not reached.
  pub weighted_opportunity_choice-IsAllowed :
      (degrees : ℕ → ℕ) (processing edge : ℕ → F) (r : R) (x : ℕ)
      → contains candidates x ≡ true
      → contains excluded x ≡ false
      → let weight = opportunity_weight degrees processing edge in
        let total = total_weight excluded weight candidates (fl.of_int 0) in
        let choice =
          (weighted_opportunity_choice rng rounds candidates degrees processing edge excluded
            r).0 in
        IsAllowed excluded candidates choice × (fl.le total (fl.of_int 0) ≡ false → choice ≢ none)
  unfolding weighted_opportunity_choice
  weighted_opportunity_choice-IsAllowed degrees processing edge r x h k =
      let weight = opportunity_weight degrees processing edge in
      let total = total_weight excluded weight candidates (fl.of_int 0) in
      let choice = fl.mul (rng.float64 r).0 total in
      elim (Bool-cases (fl.le total (fl.of_int 0))) [
        | inl e ↦
            rw (e, weighted_opportunity_choice)
              (
                draw_free-IsAllowed rounds r (positive_of candidates x h),
                λ q. absurd (ground arith),
              )
        | inr e ↦
            rw (e, weighted_opportunity_choice)
              (
                or_else-IsAllowed excluded candidates _ _
                    (pick_by_weight-IsAllowed excluded weight choice candidates)
                    (last_free-IsAllowed excluded candidates),
                λ _ n. free_left candidates excluded x h k (or_else-none _ _ n),
              )
      ]
