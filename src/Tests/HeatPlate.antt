-- ===== src/Tests/HeatPlate.antt =====
-- A plate of three rows and three columns, run by both programs.
use concurrente2025a_evan_ch.Base.{
  ◌≡◌, refl, true, some, List, [], ◌∷◌, arith, for_range, for_each, u64,
}
use concurrente2025a_evan_ch.Base.Int.{ℤ, pos}
use concurrente2025a_evan_ch.Tests.Fixed.{quarters}
use concurrente2025a_evan_ch.Errors.{exit_success}
use concurrente2025a_evan_ch.Threads.{PrivateData, team_size, get_finish_row, init_private_data}
use concurrente2025a_evan_ch.Plate.Matrix.{
  PlateMatrix, init_auxiliary, set_auxiliary, update_cell, new_temperature,
}
use concurrente2025a_evan_ch.Plate.Record.{Plate, calculate_mult_constant}
use concurrente2025a_evan_ch.Plate.Cells.{IsValid, stencil}
use concurrente2025a_evan_ch.Plate.Rows.{visit_cell}
use concurrente2025a_evan_ch.Plate.Schedule.{interleave, run_schedule}
use concurrente2025a_evan_ch.Plate.Round.{combine, IsOrder}
use concurrente2025a_evan_ch.Plate.Heat.{heat, BordersAgree}
use concurrente2025a_evan_ch.Plate.Border.{init_auxiliary_lem}
use concurrente2025a_evan_ch.Plate.Omp.{Turns, IsFair, finished, omp_loop, omp_loop-heat, StopsAt}
use concurrente2025a_evan_ch.Plate.Concurrent.{Library, returned, equilibrate_plate}
use concurrente2025a_evan_ch.Plate.Concurrent.Heat.{AllSucceed, equilibrate_plate-heat}

abbrev cold : ℤ
cold = pos 0

abbrev hot : ℤ
hot = pos 40

abbrev pub start : PlateMatrix ℤ
start = record {
  rows = 3;
  cols = 3;
  matrix = hot ∷ hot ∷ hot ∷ cold ∷ cold ∷ cold ∷ cold ∷ cold ∷ cold ∷ [];
  auxiliary_matrix = cold ∷ cold ∷ cold ∷ cold ∷ cold ∷ cold ∷ cold ∷ cold ∷ cold ∷ [];
}

abbrev pub ready : PlateMatrix ℤ
ready = record start { auxiliary_matrix = start.matrix }

init_auxiliary_runs : init_auxiliary start ≡ some ready
unfolding init_auxiliary for_range for_each
init_auxiliary_runs = refl

init_auxiliary_lem_example :
    (aux : List ℤ) × (init_auxiliary start ≡ some (record start { auxiliary_matrix = aux }))
    × IsValid (record start { auxiliary_matrix = aux })
    × BordersAgree cold (record start { auxiliary_matrix = aux })
init_auxiliary_lem_example = init_auxiliary_lem start cold (omega arith) (omega arith) (omega arith)

-- One thread, one inner cell.
abbrev turns : Turns
turns = (0 ∷ [], 0 ∷ [])

abbrev pub one_thread : List PrivateData
one_thread = record { starting_row = 1; finish_row = 2; equilibrated = true } ∷ []

turns-IsOrder : IsOrder 1 turns.1
turns-IsOrder t = ground arith

pub turns-IsFair : IsFair one_thread turns
turns-IsFair = turns-IsOrder

abbrev pub rounds : List Turns
rounds = turns ∷ turns ∷ turns ∷ []

-- A quarter of the energy that flows in, and a threshold of a quarter of a degree.
abbrev pub quarter : ℤ
quarter = pos 1

start-StopsAt : StopsAt quarters quarter quarter 3 3 1 ready.matrix
unfolding stencil new_temperature
start-StopsAt = (refl, refl)

ready-BordersAgree : BordersAgree cold ready
ready-BordersAgree j h out = refl

omp_loop_runs :
    omp_loop quarters quarter quarter [] rounds ready 0
    ≡ some (
        finished
          (record ready {
            matrix = hot ∷ hot ∷ hot ∷ cold ∷ pos 10 ∷ cold ∷ cold ∷ cold ∷ cold ∷ [];
            auxiliary_matrix = hot ∷ hot ∷ hot ∷ cold ∷ pos 10 ∷ cold ∷ cold ∷ cold ∷ cold ∷ [];
          })
          2)
unfolding omp_loop interleave run_schedule visit_cell update_cell new_temperature combine
    set_auxiliary
omp_loop_runs = refl

omp_loop-heat_example :
    (m' : PlateMatrix ℤ) × (omp_loop quarters quarter quarter [] rounds ready 0
      ≡ some (finished m' 2))
    × (m'.matrix ≡ heat quarters quarter 3 3 2 ready.matrix)
    × IsValid m'
    × (m'.rows ≡ 3)
    × (m'.cols ≡ 3)
omp_loop-heat_example =
    omp_loop-heat quarters quarter quarter [] 1 rounds ready 0 (omega arith) ready-BordersAgree
      (omega arith) (omega arith) (turns-IsFair, (turns-IsFair, (turns-IsFair, tt))) (omega arith)
      start-StopsAt

abbrev plate : Plate ℤ
plate = record {
  file_name = [];
  plate_matrix = ready;
  thermal_diffusivity = pos 4;
  interval_duration = 1;
  cells_dimension = pos 8;
  epsilon = quarter;
  k_states = 0;
}

abbrev lib : Library
lib = record {
  mutex_init = 0;
  barrier_init1 = 0;
  barrier_init2 = 0;
  team_allocated = true;
  created = 8;
}

one_thread_team : init_private_data true 3 (team_size 3 4) ≡ some one_thread
unfolding init_private_data team_size get_finish_row
one_thread_team = refl

lib-AllSucceed : AllSucceed lib (team_size 3 4)
unfolding team_size
lib-AllSucceed = record {
  mutex = refl;
  first_barrier = refl;
  barrier = refl;
  allocated = refl;
  all_created = omega arith;
}

plate-StopsAt : StopsAt quarters (calculate_mult_constant quarters plate) quarter 3 3 1 ready.matrix
unfolding stencil new_temperature calculate_mult_constant
plate-StopsAt = (refl, refl)

equilibrate_plate-heat_example :
    (m' : PlateMatrix ℤ) × (equilibrate_plate quarters lib rounds plate 4
      ≡ some (returned exit_success (record plate { plate_matrix = m'; k_states = u64 2 })))
    × (m'.matrix ≡ heat quarters (calculate_mult_constant quarters plate) 3 3 2 ready.matrix)
equilibrate_plate-heat_example =
    equilibrate_plate-heat quarters lib rounds plate 4 1 (omega arith) ready-BordersAgree
      (omega arith) (omega arith) (omega arith) lib-AllSucceed one_thread_team
      (turns-IsFair, (turns-IsFair, (turns-IsFair, tt))) (omega arith) plate-StopsAt
