-- ===== src/Prelude/Trim.antt =====
-- Trimming and lowering twice is trimming and lowering once.
use mathlib.Core.List.{map-append, reverse-append, reverse-cons, reverse-reverse}
use mathlib.Core.Logic.{inl, inr}
use mathlib.Core.Path.{◌≡◌, refl, ap, sym, ◌∙◌}
use mathlib.Core.Bool.{false}
use mathlib.Core.List.{[], ◌∷◌, ◌++◌, reverse}
use native.Mathlib.Omega.{arith}
use Prim.Native.Nat.{ℕ}
use peerkit.Prelude.Tests.{Bool-cases}
use peerkit.Prelude.Texts.{Text, lower_byte, to_lower, is_space, trim_left, trim_space}

-- No blank at the front.
abbrev IsTrimmed : Text → Type 0
IsTrimmed [] = Unit {0}
IsTrimmed (c ∷ s) = is_space c ≡ false

trim_left-IsTrimmed : (s : Text) → IsTrimmed (trim_left s)
unfolding trim_left
trim_left-IsTrimmed [] = tt
trim_left-IsTrimmed (c ∷ s) = elim (Bool-cases (is_space c)) [
  | inl e ↦ rw (e, trim_left) (trim_left-IsTrimmed s)
  | inr e ↦ rw (e, trim_left) e
]

trim_left_trimmed : (s : Text) → IsTrimmed s → trim_left s ≡ s
unfolding trim_left
trim_left_trimmed [] h = refl
trim_left_trimmed (c ∷ s) h = rw (h, trim_left)

-- What `trim_left` drops.
trim_left_suffix : (s : Text) → (pre : Text) × (s ≡ pre ++ trim_left s)
unfolding trim_left
trim_left_suffix [] = ([], refl)
trim_left_suffix (c ∷ s) = elim (Bool-cases (is_space c)) [
  | inl e ↦ let (pre, h) = trim_left_suffix s in (c ∷ pre, rw (e, trim_left) (ap (◌∷◌ c) h))
  | inr e ↦ ([], rw (e, trim_left))
]

IsTrimmed-prefix : (s t : Text) → IsTrimmed (s ++ t) → IsTrimmed s
IsTrimmed-prefix [] t h = tt
IsTrimmed-prefix (c ∷ s) t h = h

trim_space-IsTrimmed : (s : Text) → IsTrimmed (trim_space s)
unfolding trim_space
trim_space-IsTrimmed s =
    let u = trim_left s in
    let (pre, h) = trim_left_suffix (reverse u) in
    let whole : u ≡ reverse (trim_left (reverse u)) ++ reverse pre =
      sym (reverse-reverse u) ∙ ap reverse h ∙ reverse-append pre (trim_left (reverse u)) in
    IsTrimmed-prefix _ (reverse pre) (rw (← whole) (trim_left-IsTrimmed s))

pub trim_space_idem : (s : Text) → trim_space (trim_space s) ≡ trim_space s
unfolding trim_space
trim_space_idem s =
    let r = trim_left (reverse (trim_left s)) in
    rw (trim_left_trimmed (reverse r) (trim_space-IsTrimmed s)) (
      rw (reverse-reverse r)
        (ap reverse (trim_left_trimmed r (trim_left-IsTrimmed (reverse (trim_left s))))))

is_space-lower_byte : (c : ℕ) → is_space (lower_byte c) ≡ is_space c
unfolding is_space lower_byte
is_space-lower_byte c = ground arith

lower_byte_idem : (c : ℕ) → lower_byte (lower_byte c) ≡ lower_byte c
unfolding lower_byte
lower_byte_idem c = ground arith

trim_left-to_lower : (s : Text) → trim_left (to_lower s) ≡ to_lower (trim_left s)
unfolding trim_left to_lower
trim_left-to_lower [] = refl
trim_left-to_lower (c ∷ s) = ground (arith, is_space-lower_byte c, trim_left-to_lower s)

pub to_lower_idem : (s : Text) → to_lower (to_lower s) ≡ to_lower s
unfolding to_lower
to_lower_idem [] = refl
to_lower_idem (c ∷ s) = cc (lower_byte_idem c, to_lower_idem s)

reverse-to_lower : (s : Text) → reverse (to_lower s) ≡ to_lower (reverse s)
unfolding to_lower
reverse-to_lower [] = refl
reverse-to_lower (c ∷ s) = rw (reverse-cons (lower_byte c) (to_lower s)) (
    rw (reverse-cons c s) (
      rw (map-append lower_byte (reverse s) (c ∷ []))
        (ap (λ t. t ++ lower_byte c ∷ []) (reverse-to_lower s))))

trim_space-to_lower : (s : Text) → trim_space (to_lower s) ≡ to_lower (trim_space s)
unfolding trim_space
trim_space-to_lower s = rw (trim_left-to_lower s) (
    rw (reverse-to_lower (trim_left s)) (
      rw (trim_left-to_lower (reverse (trim_left s)))
        (reverse-to_lower (trim_left (reverse (trim_left s))))))

-- A normalized text is normal.
pub to_lower-trim_space_idem :
    (s : Text) → to_lower (trim_space (to_lower (trim_space s))) ≡ to_lower (trim_space s)
to_lower-trim_space_idem s =
    rw (trim_space-to_lower (trim_space s)) (rw (trim_space_idem s) (to_lower_idem (trim_space s)))
