-- ===== src/Config/Sample/Returns.antt =====
-- A draw returns, where no loop outlasts its rounds.
use peerkit.Prelude.{ℕ, ◌≡◌, refl, Bool, true, false, Option, none, some, if◌then◌else◌, arith}
use peerkit.Float.{FloatOps}
use peerkit.Domain.Rng.{Rng}
use peerkit.Config.Types.{Distribution}
use peerkit.Config.Sample.{
  draw_normal, sample_non_negative_normal, raw_sample, checked_sample, sample_milliseconds,
  sample_normal, effective_jitter, in_nanoseconds, around, sample_around_assigned_delay,
}

-- The draw has ended with a value.
abbrev pub is_some : {A : Type 0} → Option A → Bool
is_some none = false
is_some (some x) = true

-- What the loop's callers rely on of float64, as IEEE 754 has it: 0 is at most 0 and not below 0, a number that is
-- not 0 or less is not below 0 (nor is NaN), and a third of a finite number is finite.
pub record IsFloat (F : Type 0) ⦃fl : FloatOps F⦄ : Type 0 where
  pub zero : fl.le (fl.of_int 0) (fl.of_int 0) ≡ true
  pub irrefl : fl.lt (fl.of_int 0) (fl.of_int 0) ≡ false
  pub above : (x : F) → fl.le x (fl.of_int 0) ≡ false → fl.lt x (fl.of_int 0) ≡ false
  pub third : (x : F) → fl.finite x ≡ true → fl.finite (fl.div x (fl.of_int 3)) ≡ true

-- For a finite mean that is not negative and a finite deviation above 0, which is where the source
-- enters the loop, every state of the generator leads to an accepted sample within the rounds.
abbrev pub IsLucky : {F R : Type 0} → ⦃fl : FloatOps F⦄ → Rng F R → ℕ → Type 0
IsLucky {F} {R} ⦃fl⦄ rng rounds =
    (mean deviation : F) (r : R)
    → fl.lt mean (fl.of_int 0) ≡ false
    → fl.finite mean ≡ true
    → fl.le deviation (fl.of_int 0) ≡ false
    → fl.finite deviation ≡ true
    → is_some (draw_normal rng rounds rounds mean deviation r).0 ≡ true

module _ {F R : Type 0} ⦃fl : FloatOps F⦄ (rng : Rng F R) (rounds : ℕ) (float : IsFloat F)
    (lucky : IsLucky rng rounds) where
  raw_sample-is_some : (d : Distribution F) (r : R) → is_some (raw_sample rng rounds d r).0 ≡ true
  unfolding raw_sample sample_non_negative_normal
  raw_sample-is_some d r = ground (arith, lucky d.mean_ms d.std_dev_ms r)

  checked-is_some :
      (o : Option F × R) → is_some o.0 ≡ true → is_some (checked_sample rng rounds o).0 ≡ true
  checked-is_some (some x, r) p = refl
  checked-is_some (none, r) p = cc p

  pub sample_milliseconds-is_some :
      (d : Distribution F) (r : R) → is_some (sample_milliseconds rng rounds d r).0 ≡ true
  unfolding sample_milliseconds
  sample_milliseconds-is_some d r =
      checked-is_some (raw_sample rng rounds d r) (raw_sample-is_some d r)

  -- The jitter is 0, or a finite number beside a finite mean.
  sample_normal-is_some :
      (mean deviation : F) (r : R)
      → is_some (sample_normal rng rounds mean (effective_jitter rng rounds mean deviation) r).0
        ≡ true
  unfolding sample_normal effective_jitter
  sample_normal-is_some mean deviation r = ground (
    arith,
    lucky mean deviation r,
    lucky mean (fl.div mean (fl.of_int 3)) r,
    float.zero,
    float.above mean,
    float.third mean,
  )

  in_nanoseconds-is_some :
      (o : Option F × R) → is_some o.0 ≡ true → is_some (in_nanoseconds rng rounds o).0 ≡ true
  unfolding in_nanoseconds
  in_nanoseconds-is_some (some x, r) p = refl
  in_nanoseconds-is_some (none, r) p = cc p

  around-is_some :
      (deviation : F) (o : Option F × R)
      → is_some o.0 ≡ true
      → is_some (around rng rounds deviation o).0 ≡ true
  unfolding around
  around-is_some deviation (some mean, r) p =
      in_nanoseconds-is_some
        (sample_normal rng rounds mean (effective_jitter rng rounds mean deviation) r)
        (sample_normal-is_some mean deviation r)
  around-is_some deviation (none, r) p = cc p

  assigned-is_some :
      (b : Bool) (d : Distribution F) (r : R)
      → is_some (if b then (some d.value_ms, r) else sample_milliseconds rng rounds d r).0 ≡ true
  assigned-is_some true d r = refl
  assigned-is_some false d r = sample_milliseconds-is_some d r

  pub sample_around-is_some :
      (d : Distribution F) (deviation : F) (r : R)
      → is_some (sample_around_assigned_delay rng rounds d deviation r).0 ≡ true
  unfolding sample_around_assigned_delay
  sample_around-is_some d deviation r = around-is_some deviation _ (assigned-is_some _ d r)
