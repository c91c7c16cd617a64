-- ===== src/Tests/Fixed.antt =====
-- Temperatures in quarters of a degree, as a concrete `double`.
use concurrente2025a_evan_ch.Base.Int.{
  ℤ, pos, negsuc, ◌+ℤ◌, ◌-ℤ◌, ◌*ℤ◌, div_ℕ, abs, ltb_ℤ, pos_part,
}
use concurrente2025a_evan_ch.Base.{◌*◌}
use concurrente2025a_evan_ch.Doubles.{Doubles}

abbrev pub quarters : Doubles ℤ
quarters = record {
  zero_bits = pos 0;
  minus_four = negsuc 15;
  add = ◌+ℤ◌;
  sub = ◌-ℤ◌;
  mul = λ a b. div_ℕ (a *ℤ b) 4;
  div = λ a b. div_ℕ (a *ℤ pos 4) (pos_part b);
  fabs = abs;
  gt = λ a b. ltb_ℤ b a;
  of_u64 = λ n. pos (n * 4);
}
