-- ===== src/Plate/Concurrent.antt =====
-- `equilibrate_plate_concurrent` (homeworks/optimized/pthread_optimized/src/plate.c), with
-- `init_shared_data` (threads.c) and `equilibrate_plate` (job.c) of the same directory. Between two
-- barriers the threads run freely: the scheduler's choices in each round are an argument.
pub mod Heat
use concurrente2025a_evan_ch.Base.{
  ℕ, ◌+◌, Bool, true, false, Option, none, some, List, [], ◌∷◌, ◌==◌, ltb, if◌then◌else◌, ◌>>=◌,
  u64,
}
use concurrente2025a_evan_ch.Doubles.{Doubles}
use concurrente2025a_evan_ch.Errors.{
  exit_success, err_init_shared_data, err_create_thread_team, err_create_thread,
}
use concurrente2025a_evan_ch.Threads.{PrivateData, team_size, init_private_data}
use concurrente2025a_evan_ch.Plate.Matrix.{PlateMatrix, set_auxiliary}
use concurrente2025a_evan_ch.Plate.Record.{Plate, calculate_mult_constant}
use concurrente2025a_evan_ch.Plate.Schedule.{programs, interleave, run_schedule}
use concurrente2025a_evan_ch.Plate.Round.{combine}
use concurrente2025a_evan_ch.Plate.Omp.{Turns, Ending, finished, running}

-- `shared_data_t` less its mutex and its two barriers.
pub record SharedData (D : Type 0) : Type 0 where
  pub plate_matrix : PlateMatrix D
  pub thread_count : ℕ
  pub mult_constant : D
  pub epsilon : D
  pub equilibrated_plate : Bool
  pub k_states : ℕ

-- What the calls of the threads library return: the error codes of the mutex and of the barriers,
-- and how many threads `pthread_create` starts before it fails, if it does.
pub record Library : Type 0 where
  pub mutex_init : ℕ
  pub barrier_init1 : ℕ
  pub barrier_init2 : ℕ
  pub team_allocated : Bool
  pub created : ℕ

module _ {D : Type 0} (ops : Doubles D) where
  shared_of : Plate D → (thread_count : ℕ) → SharedData D
  shared_of plate thread_count = record {
    plate_matrix = plate.plate_matrix;
    thread_count = team_size plate.plate_matrix.rows thread_count;
    mult_constant = calculate_mult_constant ops plate;
    epsilon = plate.epsilon;
    equilibrated_plate = true;
    k_states = 0;
  }

  -- The error code and the shared data. The second barrier's code overwrites the first's.
  unfoldable pub init_shared_data : Library → Plate D → (thread_count : ℕ) → ℕ × SharedData D
  unfolding shared_of
  init_shared_data lib plate thread_count =
      let shared = shared_of plate thread_count in
      if lib.mutex_init == exit_success
      then if lib.barrier_init2 == exit_success
        then (exit_success, shared)
        else (lib.barrier_init2, shared)
      else (lib.mutex_init, shared)

  -- What the serial thread of the first barrier does: no other thread goes on before the second.
  unfoldable pub serial_thread : SharedData D → SharedData D
  serial_thread shared = record shared {
    plate_matrix = set_auxiliary shared.plate_matrix;
    k_states = u64 (shared.k_states + 1);
  }

  -- The flag that the serial thread sets before the next round, again between the two barriers.
  unfoldable pub reset_flag : SharedData D → SharedData D
  reset_flag shared = record shared { equilibrated_plate = true }

  -- All the threads of the team. In a round each resets its own flag, visits the cells of its rows and
  -- joins its flag to the shared one under the mutex; the scheduler's choices and the order of the joins
  -- are arguments. Between the barriers no thread but the serial one writes, and all read the same
  -- shared flag. A barrier is that of the library: no thread goes on until all have come.
  unfoldable pub equilibrate_plate_concurrent :
      List PrivateData → List Turns → SharedData D → Option (Ending D)
  unfolding serial_thread reset_flag
  equilibrate_plate_concurrent team [] shared = some (running shared.plate_matrix shared.k_states)
  equilibrate_plate_concurrent team ((choices, order) ∷ rounds) shared = do
    (m, flags) ←
        run_schedule ops shared.mult_constant shared.epsilon
          (interleave choices (programs shared.plate_matrix.cols team))
          (shared.plate_matrix, λ _. true)
    let done = combine order flags shared.equilibrated_plate
    let waited = serial_thread (record shared { plate_matrix = m; equilibrated_plate = done })
    let rest = equilibrate_plate_concurrent team rounds (reset_flag waited)
    if waited.equilibrated_plate then some (finished waited.plate_matrix waited.k_states) else rest

-- How a call of `equilibrate_plate` ends. `blocked`: some thread waits for ever.
pub data Outcome (D : Type 0) : Type 0 where
  returned : (error : ℕ) → Plate D → Outcome D
  blocked : Outcome D
  unfinished : Outcome D

unfoldable pub after_join : {D : Type 0} → Plate D → Ending D → Outcome D
after_join plate (finished m k) =
    returned exit_success (record plate { plate_matrix = set_auxiliary m; k_states = k })
after_join plate (running m k) = unfinished

-- `create_threads`, the team's work, and `join_threads`. With no thread to create the code reads the
-- first element of an empty array. If `pthread_create` fails after some threads have started, these
-- wait at a barrier for the rest of the team, and are joined. A wait at a barrier that has not been
-- initialised is undefined.
unfoldable pub run_team :
    {D : Type 0}
    → Doubles D
    → Library
    → List Turns
    → List PrivateData
    → Plate D
    → SharedData D
    → Option (Outcome D)
unfolding equilibrate_plate_concurrent after_join
run_team ops lib rounds team plate shared =
    if shared.thread_count == 0
    then none
    else if ltb lib.created shared.thread_count
    then some (
        if lib.created == 0
        then returned err_create_thread (record plate { plate_matrix = shared.plate_matrix })
        else blocked)
    else if lib.barrier_init1 == exit_success
    then (do
      ending ← equilibrate_plate_concurrent ops team rounds shared
      some (after_join plate ending))
    else none

-- The rest of `equilibrate_plate`, after `init_shared_data`.
unfoldable pub start_team :
    {D : Type 0}
    → Doubles D
    → Library
    → List Turns
    → Plate D
    → ℕ × SharedData D
    → Option (Outcome D)
start_team ops lib rounds plate (error, shared) =
    if error == exit_success
    then elim (init_private_data lib.team_allocated plate.plate_matrix.rows shared.thread_count) [
      | none ↦ some (returned err_create_thread_team plate)
      | some team ↦
          run_team ops lib rounds team plate
            (record shared { plate_matrix = set_auxiliary shared.plate_matrix })
    ]
    else some (returned err_init_shared_data plate)

unfoldable pub equilibrate_plate :
    {D : Type 0}
    → Doubles D
    → Library
    → List Turns
    → Plate D
    → (thread_count : ℕ) → Option (Outcome D)
equilibrate_plate ops lib rounds plate thread_count =
    start_team ops lib rounds plate (init_shared_data ops lib plate thread_count)
