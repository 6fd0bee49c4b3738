-- ===== src/Float.antt =====
-- float64 as a type with the operations that the source uses of it. The theorems hold for any such
-- type; `thousandths` is one to run them on.
use peerkit.Prelude.{ℕ, ◌+◌, ◌-◌, true, ◌*◌, ◌/◌, Bool, ltb, leb, ◌==◌}

pub record FloatOps (F : Type 0) : Type 0 where
  pub lt : F → F → Bool
  pub le : F → F → Bool
  pub eq : F → F → Bool
  pub of_int : ℕ → F
  pub add : F → F → F
  pub mul : F → F → F
  pub div : F → F → F
  pub sub : F → F → F
  -- math.Pow, and whether a number is neither NaN nor infinite.
  pub pow : F → F → F
  pub finite : F → Bool
  -- `int(math.Round(x))`, `int(math.Ceil(x))` and `int64(x)` for x ≥ 0.
  pub round : F → ℕ
  pub ceil : F → ℕ
  pub trunc : F → ℕ

instance abbrev pub thousandths : FloatOps ℕ
thousandths = record {
  lt = ltb;
  le = leb;
  eq = ◌==◌;
  of_int = λ n. n * 1000;
  add = λ a b. a + b;
  mul = λ a b. a * b / 1000;
  div = λ a b. a * 1000 / b;
  sub = λ a b. a - b;
  pow = λ a b. a;
  finite = λ a. true;
  round = λ a. (a + 500) / 1000;
  ceil = λ a. (a + 999) / 1000;
  trunc = λ a. a / 1000;
}
