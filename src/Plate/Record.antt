-- ===== src/Plate/Record.antt =====
-- `plate_t` (homeworks/omp_mpi/src/plate.h) and the constant of its temperature formula.
use concurrente2025a_evan_ch.Base.{ℕ, List}
use concurrente2025a_evan_ch.Doubles.{Doubles}
use concurrente2025a_evan_ch.Plate.Matrix.{PlateMatrix}

-- A file name is the list of its bytes.
pub record Plate (D : Type 0) : Type 0 where
  pub file_name : List ℕ
  pub plate_matrix : PlateMatrix D
  pub thermal_diffusivity : D
  pub interval_duration : ℕ
  pub cells_dimension : D
  pub epsilon : D
  pub k_states : ℕ

unfoldable pub calculate_mult_constant : {D : Type 0} → Doubles D → Plate D → D
calculate_mult_constant ops plate =
    let diff_times_interval =
      ops.mul plate.thermal_diffusivity (ops.of_u64 plate.interval_duration) in
    let cell_area = ops.mul plate.cells_dimension plate.cells_dimension in
    ops.div diff_times_interval cell_area
