-- ===== src/Domain/Rng.antt =====
-- math/rand's generator, as its state with the draws that the generators of domains use.
use peerkit.Prelude.{ℕ, ◌<◌}

-- `intn n` is Intn, which draws below n.
pub record Rng (F R : Type 0) : Type 0 where
  pub float64 : R → F × R
  pub norm_float64 : R → F × R
  pub exp_float64 : R → F × R
  pub intn : ℕ → R → ℕ × R
  pub intn_bound : (n : ℕ) (r : R) → 0 < n → (intn n r).0 < n
