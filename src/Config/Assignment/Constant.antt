-- ===== src/Config/Assignment/Constant.antt =====
-- A constant distribution is accepted, and gives its value in every draw.
use peerkit.Prelude.{
  ℕ, ◌≡◌, refl, ap, Bool, true, false, none, some, List, [], ◌∷◌, text_eq, to_lower, lower_byte,
  if◌then◌else◌, arith, Bool-cases, inl, inr,
}
use peerkit.Float.{FloatOps}
use peerkit.Domain.Rng.{Rng}
use peerkit.Config.Defaults.{zero_constant}
use peerkit.Config.Validate.{ScenarioError, fail_if, validate_distribution}
use peerkit.Config.Sample.{usable, or_zero, raw_sample, sample_milliseconds, constant_distribution}

module _ {F : Type 0} ⦃fl : FloatOps F⦄ where
  both : (b : Bool) (x : F) → (if b then x else x) ≡ x
  both true x = refl
  both false x = refl

  or_zero_idem : (x : F) → or_zero (or_zero x) ≡ or_zero x
  unfolding or_zero
  or_zero_idem x = elim (Bool-cases (usable x)) [
    | inl e ↦ rw (e, or_zero) (rw (e, or_zero) refl)
    | inr e ↦ rw (e, or_zero) (both (usable (fl.of_int 0)) (fl.of_int 0))
  ]

  or_zero-lt :
      (x : F) → fl.lt (fl.of_int 0) (fl.of_int 0) ≡ false → fl.lt (or_zero x) (fl.of_int 0) ≡ false
  unfolding or_zero usable
  or_zero-lt x z = elim (Bool-cases (usable x)) [
    | inl e ↦ rw (e, or_zero) (ground arith)
    | inr e ↦ rw (e, or_zero) z
  ]

  -- A constant is accepted, where 0 < 0 is false.
  pub validate-constant :
      (x : F)
      → fl.lt (fl.of_int 0) (fl.of_int 0) ≡ false
      → validate_distribution (constant_distribution x) ≡ none
  unfolding validate_distribution constant_distribution or_zero usable text_eq to_lower lower_byte
  validate-constant x z = ap (λ b. fail_if b ScenarioError.distribution_bounds) (or_zero-lt x z)

  pub sample-constant :
      {R : Type 0} (rng : Rng F R) (rounds : ℕ) (x : F) (r : R)
      → sample_milliseconds rng rounds (constant_distribution x) r ≡ (some (or_zero x), r)
  unfolding sample_milliseconds raw_sample constant_distribution text_eq to_lower lower_byte
  sample-constant rng rounds x r = ap (λ y. (some y, r)) (or_zero_idem x)

  pub constant_idem : (x : F) → constant_distribution (or_zero x) ≡ constant_distribution x
  unfolding constant_distribution
  constant_idem x = ap (λ y. record (zero_constant {F = F}) { value_ms = y }) (or_zero_idem x)

-- The entries of two lists, in pairs.
abbrev pub Each : {A : Type 0} → (A → A → Type 0) → List A → List A → Type 0
Each P [] [] = Unit
Each P [] (y ∷ ys) = ⊥
Each P (x ∷ xs) [] = ⊥
Each P (x ∷ xs) (y ∷ ys) = P x y × Each P xs ys

-- The entries of two lists, in pairs, with the state before and behind each pair.
abbrev pub Chain : {A R : Type 0} → (A → A → R → R → Type 0) → List A → List A → R → Type 0
Chain P [] [] r = Unit
Chain P [] (y ∷ ys) r = ⊥
Chain P (x ∷ xs) [] r = ⊥
Chain {R} P (x ∷ xs) (y ∷ ys) r = (r' : R) × P x y r r' × Chain P xs ys r'

pub Chain-Each :
    {A R : Type 0} (P : A → A → R → R → Type 0) (Q : A → A → Type 0)
    → ((x y : A) (r r' : R) → P x y r r' → Q x y)
    → (xs ys : List A) (r : R) → Chain P xs ys r
    → Each Q xs ys
Chain-Each P Q f [] [] r c = tt
Chain-Each P Q f [] (y ∷ ys) r c = c
Chain-Each P Q f (x ∷ xs) [] r c = c
Chain-Each P Q f (x ∷ xs) (y ∷ ys) r c = (f x y r c.0 c.1, Chain-Each P Q f xs ys c.0 c.2)
