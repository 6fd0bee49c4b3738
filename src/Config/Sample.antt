-- ===== src/Config/Sample.antt =====
-- internal/config/distribution_sample.go and internal/model/distribution.go: draws from a distribution.
-- A loop that draws again is given `rounds` rounds, and is cut off with `none` behind them.
pub mod Returns
use peerkit.Prelude.{
  ℕ, zero, suc, ◌*◌, Bool, true, false, not, ◌&&◌, ◌||◌, Option, none, some, codes, Text, text_eq,
  to_lower, ◌==◌, if◌then◌else◌,
}
use peerkit.Float.{FloatOps}
use peerkit.Domain.Rng.{Rng}
use peerkit.Config.Types.{Distribution}
use peerkit.Config.Defaults.{zero_constant}

module _ {F : Type 0} ⦃fl : FloatOps F⦄ where
  -- Not negative, not NaN, not infinite.
  unfoldable pub usable : F → Bool
  usable x = not (fl.lt x (fl.of_int 0)) && fl.finite x

  unfoldable pub or_zero : F → F
  unfolding usable
  or_zero x = if usable x then x else fl.of_int 0

  unfoldable pub constant_distribution : F → Distribution F
  constant_distribution x = record zero_constant { value_ms = or_zero x }

module _ {F R : Type 0} ⦃fl : FloatOps F⦄ (rng : Rng F R) (rounds : ℕ) where
  -- `for`: the first draw that is not negative.
  unfoldable pub draw_normal : ℕ → F → F → R → Option F × R
  draw_normal zero mean deviation r = (none, r)
  draw_normal (suc fuel) mean deviation r =
      let (d, r1) = rng.norm_float64 r in
      let sample = fl.add mean (fl.mul d deviation) in
      let rest = draw_normal fuel mean deviation r1 in
      if fl.le (fl.of_int 0) sample && fl.finite sample then (some sample, r1) else rest

  unfoldable pub sample_non_negative_normal : F → F → R → Option F × R
  sample_non_negative_normal mean deviation r =
      if fl.lt mean (fl.of_int 0) || not (fl.finite mean)
      then (some (fl.of_int 0), r)
      else (if fl.le deviation (fl.of_int 0) || not (fl.finite deviation)
          then (some mean, r)
          else draw_normal rounds mean deviation r)

  -- The switch on the type, before the last check.
  unfoldable pub raw_sample : Distribution F → R → Option F × R
  raw_sample d r =
      let type = to_lower d.type in
      let (u, r1) = rng.float64 r in
      let (e, r2) = rng.exp_float64 r in
      if text_eq type (codes "constant")
      then (some d.value_ms, r)
      else (if text_eq type (codes "uniform")
          then (some (fl.add d.min_ms (fl.mul u (fl.sub d.max_ms d.min_ms))), r1)
          else (if text_eq type (codes "normal")
              then sample_non_negative_normal d.mean_ms d.std_dev_ms r
              else (if text_eq type (codes "exponential")
                  then (if fl.lt (fl.of_int 0) d.mean_ms
                      then (some (fl.mul e d.mean_ms), r2)
                      else (some (fl.of_int 0), r))
                  else (if text_eq type (codes "pareto")
                      then (
                        some (
                            fl.div d.scale_ms
                              (fl.pow (fl.sub (fl.of_int 1) u) (fl.div (fl.of_int 1) d.shape))),
                        r1,
                      )
                      else (some (fl.of_int 0), r)))))

  abbrev checked_sample : Option F × R → Option F × R
  checked_sample (none, r) = (none, r)
  checked_sample (some x, r) = (some (or_zero x), r)

  unfoldable pub sample_milliseconds : Distribution F → R → Option F × R
  sample_milliseconds d r = checked_sample (raw_sample d r)

  unfoldable pub effective_jitter : F → F → F
  effective_jitter mean deviation =
      if fl.le mean (fl.of_int 0)
        || (fl.le deviation (fl.of_int 0) || (not (fl.finite mean) || not (fl.finite deviation)))
      then fl.of_int 0
      else (let maximum = fl.div mean (fl.of_int 3) in
          if fl.lt maximum deviation then maximum else deviation)

  -- sampleNonNegativeNormal of package model.
  unfoldable pub sample_normal : F → F → R → Option F × R
  sample_normal mean deviation r =
      if fl.le mean (fl.of_int 0)
      then (some (fl.of_int 0), r)
      else (if fl.le deviation (fl.of_int 0)
          then (some mean, r)
          else draw_normal rounds mean deviation r)

  -- In nanoseconds.
  unfoldable pub milliseconds_to_duration : F → ℕ
  milliseconds_to_duration x = fl.trunc (fl.mul (or_zero x) (fl.of_int 1000000))

  in_nanoseconds : Option F × R → Option ℕ × R
  in_nanoseconds (none, r) = (none, r)
  in_nanoseconds (some x, r) = (some (milliseconds_to_duration x), r)

  around : F → Option F × R → Option ℕ × R
  unfolding in_nanoseconds
  around deviation (none, r) = (none, r)
  around deviation (some mean, r) =
      in_nanoseconds (sample_normal mean (effective_jitter mean deviation) r)

  unfoldable pub sample_around_assigned_delay : Distribution F → F → R → Option ℕ × R
  unfolding around
  sample_around_assigned_delay d deviation r = around deviation (
      if text_eq (to_lower d.type) (codes "constant")
      then (some d.value_ms, r)
      else sample_milliseconds d r)

module _ {F : Type 0} ⦃fl : FloatOps F⦄ where
  unfoldable pub serialization_delay : ℕ → F → ℕ
  serialization_delay bytes bandwidth =
      if bytes == 0 || fl.le bandwidth (fl.of_int 0)
      then 0
      else (let seconds =
            fl.div (fl.mul (fl.of_int bytes) (fl.of_int 8))
              (fl.mul bandwidth (fl.of_int 1000000)) in
          fl.trunc (fl.mul seconds (fl.of_int 1000000000)))
