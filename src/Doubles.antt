-- ===== src/Doubles.antt =====
-- The C type `double`, which the programs only use through these operations. It is a parameter of
-- the model: nothing is assumed of the operations unless a theorem names a hypothesis.
use concurrente2025a_evan_ch.Base.{ℕ, Bool}

pub record Doubles (D : Type 0) : Type 0 where
  pub zero_bits : D  -- what `calloc` leaves
  pub minus_four : D
  pub add : D → D → D
  pub sub : D → D → D
  pub mul : D → D → D
  pub div : D → D → D
  pub fabs : D → D
  pub gt : D → D → Bool
  pub of_u64 : ℕ → D
