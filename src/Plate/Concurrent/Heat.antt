-- ===== src/Plate/Concurrent/Heat.antt =====
-- The team of threads computes the simulation, whatever the interleaving of each round.
use concurrente2025a_evan_ch.Base.{
  ℕ, zero, suc, ◌+◌, ◌-◌, ◌^◌, ◌≤◌, ◌<◌, ◌≡◌, refl, sym, ap, ◌∙◌, true, false, some, List, [], ◌∷◌,
  arith, ◌==◌, ltb, if◌then◌else◌, u64, length, All, count_up,
}
use concurrente2025a_evan_ch.Doubles.{Doubles}
use concurrente2025a_evan_ch.Errors.{exit_success}
use concurrente2025a_evan_ch.Threads.{PrivateData, team_size, init_private_data, team_rows}
use concurrente2025a_evan_ch.Threads.Cover.{init_private_data-rows, team_size_pos}
use concurrente2025a_evan_ch.Plate.Matrix.{PlateMatrix, set_auxiliary}
use concurrente2025a_evan_ch.Plate.Record.{Plate, calculate_mult_constant}
use concurrente2025a_evan_ch.Plate.Index.{rows_small}
use concurrente2025a_evan_ch.Plate.Cells.{IsValid}
use concurrente2025a_evan_ch.Plate.Rows.{swept, swept-IsValid}
use concurrente2025a_evan_ch.Plate.Heat.{
  inner_cells, heat_step, heat, is_calm, BordersAgree, swept-heat_step, swept-BordersAgree,
}
use concurrente2025a_evan_ch.Plate.Schedule.{programs, interleave}
use concurrente2025a_evan_ch.Plate.Choices.{interleave-IsInterleaving}
use concurrente2025a_evan_ch.Plate.Round.{run_schedule_lem, combine_lem}
use concurrente2025a_evan_ch.Plate.Omp.{Turns, IsFair, Ending, finished, StopsAt}
use concurrente2025a_evan_ch.Plate.Concurrent.{
  SharedData, Library, serial_thread, reset_flag, shared_of, init_shared_data,
  equilibrate_plate_concurrent, returned, after_join, run_team, start_team, equilibrate_plate,
}

module _ {D : Type 0} (ops : Doubles D) (team : List PrivateData) where
  open ops use {zero_bits}

  -- The shared data when a round starts: the current temperatures are in `auxiliary_matrix`.
  record IsReady (shared : SharedData D) : Type 0 where
    valid : IsValid shared.plate_matrix
    agree : BordersAgree zero_bits shared.plate_matrix
    tall : 2 ≤ shared.plate_matrix.rows
    wide : 1 ≤ shared.plate_matrix.cols
    covers : team_rows team ≡ count_up (shared.plate_matrix.rows - 2) 1
    flag : shared.equilibrated_plate ≡ true

  -- The shared data when the next round starts.
  abbrev next_shared : SharedData D → SharedData D
  next_shared s =
      let m = s.plate_matrix in
      record s {
        plate_matrix =
            set_auxiliary (swept ops s.mult_constant s.epsilon (inner_cells m.rows m.cols) m);
        equilibrated_plate = true;
        k_states = u64 (s.k_states + 1);
      }

  concurrent_turn :
      (turns : Turns) (rounds : List Turns) (s : SharedData D)
      → IsReady s
      → IsFair team turns
      → equilibrate_plate_concurrent ops team (turns ∷ rounds) s ≡ (
          if is_calm ops s.mult_constant s.plate_matrix.rows s.plate_matrix.cols s.epsilon
            s.plate_matrix.auxiliary_matrix
          then some (finished (next_shared s).plate_matrix (next_shared s).k_states)
          else equilibrate_plate_concurrent ops team rounds (next_shared s))
  unfolding equilibrate_plate_concurrent serial_thread reset_flag
  concurrent_turn (choices, order) rounds s ready fair =
      let cols = s.plate_matrix.cols in
      let sched = interleave choices (programs cols team) in
      let il = interleave-IsInterleaving cols team choices in
      rw (
        run_schedule_lem ops s.mult_constant s.epsilon s.plate_matrix ready.valid ready.tall
            ready.wide team sched ready.covers il,
        ready.flag,
        combine_lem ops s.mult_constant s.epsilon s.plate_matrix ready.valid ready.tall ready.wide
            team sched ready.covers il order fair,
      )

  next-IsReady : (s : SharedData D) → IsReady s → IsReady (next_shared s)
  unfolding set_auxiliary
  next-IsReady s ready = record {
    valid = record { fits = kept.fits; current = kept.previous; previous = kept.current };
    agree = λ j h out. sym (
        swept-BordersAgree ops s.mult_constant s.epsilon s.plate_matrix ready.valid ready.agree j h
          out);
    tall = ready.tall;
    wide = ready.wide;
    covers = ready.covers;
    flag = refl;
  }
    where
      kept : IsValid (
          swept ops s.mult_constant s.epsilon
            (inner_cells s.plate_matrix.rows s.plate_matrix.cols)
            s.plate_matrix)
      kept =
          swept-IsValid ops s.mult_constant s.epsilon
            (inner_cells s.plate_matrix.rows s.plate_matrix.cols) s.plate_matrix ready.valid

  next_heat :
      (s : SharedData D)
      → IsReady s
      → (next_shared s).plate_matrix.auxiliary_matrix
        ≡ heat_step ops s.mult_constant s.plate_matrix.rows s.plate_matrix.cols
            s.plate_matrix.auxiliary_matrix
  unfolding set_auxiliary
  next_heat s ready =
      swept-heat_step ops s.mult_constant s.epsilon s.plate_matrix ready.valid ready.agree

  concurrent-heat :
      (n : ℕ) (rounds : List Turns) (s : SharedData D)
      → IsReady s
      → All (IsFair team) rounds
      → n < length rounds
      → StopsAt ops s.mult_constant s.epsilon s.plate_matrix.rows s.plate_matrix.cols n
          s.plate_matrix.auxiliary_matrix
      → (m' : PlateMatrix D) × (equilibrate_plate_concurrent ops team rounds s
          ≡ some (finished m' (u64 (s.k_states + suc n))))
        × (m'.auxiliary_matrix
            ≡ heat ops s.mult_constant s.plate_matrix.rows s.plate_matrix.cols
                (suc n)
                s.plate_matrix.auxiliary_matrix)
  unfolding set_auxiliary
  concurrent-heat n [] s ready fair enough stops = absurd (omega arith)
  concurrent-heat zero (turns ∷ rounds) s ready fair enough stops = (
    (next_shared s).plate_matrix,
    rw (concurrent_turn turns rounds s ready fair.0, stops),
    next_heat s ready,
  )
  concurrent-heat (suc n) (turns ∷ rounds) s ready fair enough stops =
      let e = next_heat s ready in
      let (final, runs, is_heat) =
        concurrent-heat n rounds (next_shared s) (next-IsReady s ready) fair.1 (omega arith)
          (rw e stops.1) in
      (
        final,
        rw (concurrent_turn turns rounds s ready fair.0, stops.0)
            (runs ∙ ap (λ j. some (finished final j)) (omega arith)),
        is_heat ∙ ap (heat ops s.mult_constant s.plate_matrix.rows s.plate_matrix.cols (suc n)) e,
      )

-- What makes the threads library succeed for a team of `n` threads.
pub record AllSucceed (lib : Library) (n : ℕ) : Type 0 where
  pub mutex : lib.mutex_init ≡ 0
  pub first_barrier : lib.barrier_init1 ≡ 0
  pub barrier : lib.barrier_init2 ≡ 0
  pub allocated : lib.team_allocated ≡ true
  pub all_created : n ≤ lib.created

init_shared_data-ok :
    {D : Type 0} (ops : Doubles D) (lib : Library) (plate : Plate D) (thread_count : ℕ)
    → lib.mutex_init ≡ 0
    → lib.barrier_init2 ≡ 0
    → init_shared_data ops lib plate thread_count ≡ (exit_success, shared_of ops plate thread_count)
unfolding init_shared_data
init_shared_data-ok ops lib plate thread_count e f = rw (e, f)

start_team_lem :
    {D : Type 0} (ops : Doubles D) (lib : Library) (rounds : List Turns) (plate : Plate D)
    (shared : SharedData D) {team : List PrivateData}
    → lib.team_allocated ≡ true
    → init_private_data true plate.plate_matrix.rows shared.thread_count ≡ some team
    → start_team ops lib rounds plate (exit_success, shared)
      ≡ run_team ops lib rounds team plate
          (record shared { plate_matrix = set_auxiliary shared.plate_matrix })
unfolding start_team
start_team_lem ops lib rounds plate shared e f = simp (e, f)

run_team-finished :
    {D : Type 0} (ops : Doubles D) (lib : Library) (rounds : List Turns) (plate : Plate D)
    (team : List PrivateData) (shared : SharedData D) {ending : Ending D}
    → 0 < shared.thread_count
    → shared.thread_count ≤ lib.created
    → lib.barrier_init1 ≡ 0
    → equilibrate_plate_concurrent ops team rounds shared ≡ some ending
    → run_team ops lib rounds team plate shared ≡ some (after_join plate ending)
unfolding run_team
run_team-finished ops lib rounds plate team shared h k ready e =
    let started : (shared.thread_count == 0) ≡ false = ground arith in
    let complete : ltb lib.created shared.thread_count ≡ false = ground arith in
    rw (started, complete, ready, e)

-- The pthread program computes the simulation. For a plate of at least three rows and one column
-- whose arrays are valid and agree on the border, a positive number of threads asked for, calls of
-- the threads library that succeed, and a simulation that is first calm after `n` states: whatever
-- the interleavings of more than `n` rounds, in each of which every thread joins its flag once or
-- more, `equilibrate_plate` returns success, the temperatures
-- are those after `n + 1` states, `k_states` is `n + 1` modulo 2 ^ 64, and nothing else changes in
-- the plate's record.
pub equilibrate_plate-heat :
    {D : Type 0} (ops : Doubles D) (lib : Library) (rounds : List Turns) (plate : Plate D)
    (thread_count n : ℕ) {team : List PrivateData}
    → let m = plate.plate_matrix in
      let mult_constant = calculate_mult_constant ops plate in
      IsValid m
      → BordersAgree ops.zero_bits m
      → 3 ≤ m.rows
      → 1 ≤ m.cols
      → 0 < thread_count
      → AllSucceed lib (team_size m.rows thread_count)
      → init_private_data true m.rows (team_size m.rows thread_count) ≡ some team
      → All (IsFair team) rounds
      → n < length rounds
      → StopsAt ops mult_constant plate.epsilon m.rows m.cols n m.matrix
      → (m' : PlateMatrix D) × (equilibrate_plate ops lib rounds plate thread_count
          ≡ some
              (returned exit_success (record plate { plate_matrix = m'; k_states = u64 (suc n) })))
        × (m'.matrix ≡ heat ops mult_constant m.rows m.cols (suc n) m.matrix)
unfolding equilibrate_plate set_auxiliary after_join shared_of
equilibrate_plate-heat ops lib rounds plate thread_count n {team} v agree tall wide some_threads
      lib_ok is_team fair enough stops =
    let m = plate.plate_matrix in
    let small : m.rows < 2 ^ 64 = omega (arith, v.fits, rows_small m.rows m.cols wide) in
    let shared = record (shared_of ops plate thread_count) { plate_matrix = set_auxiliary m } in
    let ready : IsReady ops team shared = record {
      valid = record { fits = v.fits; current = v.previous; previous = v.current };
      agree = λ j h out. sym (agree j h out);
      tall = omega arith;
      wide = wide;
      covers = init_private_data-rows m.rows thread_count tall small some_threads is_team;
      flag = refl;
    } in
    let (final, runs, is_heat) = concurrent-heat ops team n rounds shared ready fair enough stops in
    (
      set_auxiliary final,
      ap (start_team ops lib rounds plate)
            (init_shared_data-ok ops lib plate thread_count lib_ok.mutex lib_ok.barrier)
          ∙ start_team_lem ops lib rounds plate (shared_of ops plate thread_count) lib_ok.allocated
              is_team
          ∙ (run_team-finished ops lib rounds plate team shared
                (team_size_pos m.rows thread_count tall small some_threads) lib_ok.all_created
                lib_ok.first_barrier runs
              ∙ ap
                  (λ k. some (
                    returned exit_success
                      (record plate { plate_matrix = set_auxiliary final; k_states = k })))
                  (omega arith)),
      is_heat,
    )
