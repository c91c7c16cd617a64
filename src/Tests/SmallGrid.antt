-- ===== src/Tests/SmallGrid.antt =====
-- A plate of three rows of three cells, run by homeworks/pthread/src/job.c.
use concurrente2025a_evan_ch.Base.{ℕ, ◌≡◌, refl, true, u64, some, List, [], ◌∷◌, arith}
use concurrente2025a_evan_ch.Base.Int.{ℤ, pos}
use concurrente2025a_evan_ch.RowPlate.{PlateMatrix, init_auxiliary, equilibrate_plate, equilibrium}
use concurrente2025a_evan_ch.Plate.Matrix as Flat
use concurrente2025a_evan_ch.Plate.Matrix.{new_temperature}
use concurrente2025a_evan_ch.Plate.Cells.{stencil}
use concurrente2025a_evan_ch.Plate.Heat.{heat}
use concurrente2025a_evan_ch.Plate.Omp.{StopsAt}
use concurrente2025a_evan_ch.RowPlate.Shape.{IsShaped}
use concurrente2025a_evan_ch.RowPlate.Flat.{flatten}
use concurrente2025a_evan_ch.RowPlate.Refines.{flat}
use concurrente2025a_evan_ch.RowPlate.Border.{init_auxiliary-flat}
use concurrente2025a_evan_ch.RowPlate.Equilibrium.{equilibrate_plate-heat_by_rows}
use concurrente2025a_evan_ch.Tests.Fixed.{quarters}

abbrev cells : List (List ℤ)
cells =
    (pos 40 ∷ pos 40 ∷ pos 40 ∷ [])
    ∷ (pos 0 ∷ pos 0 ∷ pos 0 ∷ [])
    ∷ (pos 0 ∷ pos 0 ∷ pos 0 ∷ [])
    ∷ []

abbrev plate : PlateMatrix ℤ
plate = record { rows = 3; cols = 3; matrix = cells; auxiliary_matrix = cells }

plate-IsShaped : IsShaped plate
plate-IsShaped = record {
  rows_small = omega arith;
  cols_small = omega arith;
  current = (refl, (refl, (refl, (refl, tt))));
  previous = (refl, (refl, (refl, (refl, tt))));
}

-- The results of the calls of create_threads, and the scheduler's choices.
abbrev rounds : List (ℕ × List ℕ)
rounds = (0, 0 ∷ []) ∷ (0, []) ∷ (0, 1 ∷ []) ∷ []

plate-StopsAt :
    StopsAt quarters
      (quarters.div (quarters.mul (pos 4) (quarters.of_u64 1)) (quarters.mul (pos 8) (pos 8)))
      (pos 1)
      3
      3
      1
      (flatten plate.matrix)
unfolding stencil new_temperature
plate-StopsAt = (refl, refl)

equilibrate_plate-heat_by_rows_example :
    (m' : PlateMatrix ℤ) × (equilibrate_plate quarters (pos 4) (pos 8) (pos 1) 1 true 4 rounds plate
      ≡ some (equilibrium m' (u64 2)))
    × (flatten m'.matrix
        ≡ heat quarters
            (quarters.div (quarters.mul (pos 4) (quarters.of_u64 1)) (quarters.mul (pos 8) (pos 8)))
            3
            3
            2
            (flatten plate.matrix))
    × IsShaped m'
equilibrate_plate-heat_by_rows_example =
    equilibrate_plate-heat_by_rows quarters (pos 4) (pos 8) (pos 1) 1 4 1 rounds plate
      plate-IsShaped (omega arith) (omega arith) (omega arith) (λ j h out. refl) (omega arith)
      (refl, (refl, (refl, tt))) (omega arith) plate-StopsAt

init_auxiliary-flat_example :
    (m' : PlateMatrix ℤ) × (init_auxiliary plate ≡ some m')
    × (Flat.init_auxiliary (flat plate) ≡ some (flat m'))
    × IsShaped m'
init_auxiliary-flat_example =
    init_auxiliary-flat plate plate-IsShaped (omega arith) (omega arith) (omega arith)
