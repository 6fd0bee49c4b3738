-- ===== src/Prelude/Sets.antt =====
-- A key type with a Boolean test, and the Go maps and sets over it as lists.
use Prim.Native.Nat.{ℕ}
use mathlib.Core.Path.{◌≡◌, refl}
use mathlib.Core.Logic.{◌↔◌}
use mathlib.Core.Bool.{Bool, true, false, ◌||◌}
use mathlib.Core.List.{List, [], ◌∷◌}
use mathlib.Core.Option.{Option, none, some}
use native.Mathlib.Omega.{arith}
use peerkit.Prelude.Tests.{if◌then◌else◌, ◌==◌, ==_iff}

pub record Key {ℓ} (K : Type ℓ) : Type ℓ where
  pub beq : K → K → Bool
  pub beq_iff : (a b : K) → (beq a b ≡ true) ↔ (a ≡ b)

instance abbrev pub number_key : Key ℕ
number_key = record { beq = ◌==◌; beq_iff = ==_iff }

module _ {ℓ} {K : Type ℓ} ⦃k : Key K⦄ where
  -- `_, ok := set[a]` on a `map[K]struct{}`.
  unfoldable pub contains : List K → K → Bool
  contains [] a = false
  contains (x ∷ xs) a = k.beq x a || contains xs a

  -- `set[a] = struct{}{}`.
  unfoldable pub insert : List K → K → List K
  unfolding contains
  insert xs a = if contains xs a then xs else a ∷ xs

  contains-eq : (xs : List K) (a b : K) → contains xs a ≡ true → a ≡ b → contains xs b ≡ true
  contains-eq xs a b h e = rw (← e) h

  pub contains-insert :
      (xs : List K) (a b : K) → contains (insert xs a) b ≡ (k.beq a b || contains xs b)
  unfolding insert
  contains-insert xs a b = ground (arith, k.beq_iff a b, contains-eq xs a b)

module _ {ℓ κ} {K : Type ℓ} {V : Type κ} ⦃k : Key K⦄ where
  -- `m[a]` with the zero value or the missing key as `none`.
  unfoldable pub lookup : List (K × V) → K → Option V
  lookup [] a = none
  lookup ((j, v) ∷ m) a = if k.beq j a then some v else lookup m a

  -- `m[a] = v`.
  unfoldable pub store : List (K × V) → K → V → List (K × V)
  store [] a v = (a, v) ∷ []
  store ((j, w) ∷ m) a v = if k.beq j a then (a, v) ∷ m else (j, w) ∷ store m a v

  pub lookup-store :
      (m : List (K × V)) (a b : K) (v : V)
      → lookup (store m a v) b ≡ (if k.beq a b then some v else lookup m b)
  unfolding lookup store
  lookup-store [] a b v = refl
  lookup-store ((j, w) ∷ m) a b v =
      ground (arith, k.beq_iff a b, k.beq_iff j a, k.beq_iff j b, lookup-store m a b v)
