-- ===== src/Tests/TwoWorkers.antt =====
-- Two workers and two plates of homeworks/omp_mpi: the first worker processes both plates.
use concurrente2025a_evan_ch.Base.{
  ℕ, ◌<◌, ◌≤◌, ◌+◌, ◌*◌, Option, none, some, ◌≡◌, ◌≢◌, ◌⊎◌, refl, [], arith, true, ltb,
  if◌then◌else◌,
}
use concurrente2025a_evan_ch.Base.Families.{count}
use concurrente2025a_evan_ch.Errors.{exit_success}
use concurrente2025a_evan_ch.Mpi.{
  World, Reachable, start, mastered, worked, job_master_process, job_worker_process, int_bits,
  master_returned, worker_returned, init_world,
}
use concurrente2025a_evan_ch.Mpi.Invariant.{IsServed}
use concurrente2025a_evan_ch.Mpi.Claims.{Reachable-processed_once, Reachable-recorded}
use concurrente2025a_evan_ch.Mpi.Progress.{MasterMoves, WorkerMoves, Reachable-Moves_master}
use concurrente2025a_evan_ch.Mpi.Steps.{Reachable-steps}
use concurrente2025a_evan_ch.Mpi.Stuck.{Reachable-stuck}

abbrev states : ℕ → ℕ
states plate = plate + 10

two-IsServed : IsServed 3 2
two-IsServed = record {
  some_process = omega arith;
  processes_small = omega arith;
  plates_small = omega arith;
  served = omega arith;
}

-- The world after a step.
abbrev get : World → Option World → World
get x none = x
get x (some y) = y

abbrev master_to : (source : ℕ) → World → World
unfolding job_master_process
master_to source x = get x (job_master_process 3 2 true true source x.master x)

abbrev worker_to : (rank : ℕ) → World → World
unfolding job_worker_process
worker_to rank x = get x (job_worker_process 2 states true rank (x.workers rank) x)

-- The first worker has processed the first plate and sent its index.
abbrev early : World
early = (worker_to 1 (worker_to 1 (worker_to 1 (master_to 0 (master_to 0 (init_world 3 2))))))

early-Reachable : Reachable 3 2 states 5 early
unfolding job_master_process job_worker_process
early-Reachable =
    (worked {rank = 1}
      (worked {rank = 1}
        (worked {rank = 1}
          (mastered {source = 0} (mastered {source = 0} start (omega arith) refl) (omega arith)
            refl)
          (omega arith) (omega arith) refl)
        (omega arith) (omega arith) refl)
      (omega arith) (omega arith) refl)

-- The master has returned.
abbrev final : World
final =
    (worker_to 1 (
      worker_to 2 (
        master_to 0 (
          master_to 0 (
            master_to 0 (
              master_to 1 (
                master_to 1 (
                  worker_to 1 (
                    worker_to 1 (
                      worker_to 1 (
                        worker_to 1 (
                          master_to 1 (
                            master_to 1 (
                              worker_to 1 (
                                worker_to 1 (
                                  worker_to 1 (
                                    worker_to 1
                                      (master_to 0 (master_to 0 (init_world 3 2))))))))))))))))))))

final-Reachable : Reachable 3 2 states 19 final
unfolding job_master_process job_worker_process
final-Reachable =
    (worked {rank = 1}
      (worked {rank = 2}
        (mastered {source = 0}
          (mastered {source = 0}
            (mastered {source = 0}
              (mastered {source = 1}
                (mastered {source = 1}
                  (worked {rank = 1}
                    (worked {rank = 1}
                      (worked {rank = 1}
                        (worked {rank = 1}
                          (mastered {source = 1}
                            (mastered {source = 1}
                              (worked {rank = 1}
                                (worked {rank = 1}
                                  (worked {rank = 1}
                                    (worked {rank = 1}
                                      (mastered {source = 0}
                                        (mastered {source = 0} start (omega arith) refl)
                                        (omega arith) refl)
                                      (omega arith) (omega arith) refl)
                                    (omega arith) (omega arith) refl)
                                  (omega arith) (omega arith) refl)
                                (omega arith) (omega arith) refl)
                              (omega arith) refl)
                            (omega arith) refl)
                          (omega arith) (omega arith) refl)
                        (omega arith) (omega arith) refl)
                      (omega arith) (omega arith) refl)
                    (omega arith) (omega arith) refl)
                  (omega arith) refl)
                (omega arith) refl)
              (omega arith) refl)
            (omega arith) refl)
          (omega arith) refl)
        (omega arith) (omega arith) refl)
      (omega arith) (omega arith) refl)

final_returns : final.master ≡ master_returned 0
unfolding worker_to master_to
final_returns = refl

Reachable-processed_once_example : count 0 early.processed ≤ (if ltb 0 2 then 1 else 0)
Reachable-processed_once_example =
    Reachable-processed_once 3 2 states two-IsServed 0 early-Reachable

Reachable-recorded_example :
    (0 ≡ exit_success)
    × ((u : ℕ) → count u final.processed ≡ (if ltb u 2 then 1 else 0))
    × ((u : ℕ) → u < 2 → final.recorded u ≡ int_bits (states u))
Reachable-recorded_example =
    Reachable-recorded 3 2 states two-IsServed final-Reachable final_returns

Reachable-Moves_master_example :
    ((early.master ≡ master_returned exit_success)
      × ((rank : ℕ) → 0 < rank → rank < 3 → early.workers rank ≡ worker_returned exit_success))
    ⊎ (MasterMoves 3 2 states early early.master ⊎ WorkerMoves 3 2 states early early.master)
Reachable-Moves_master_example = Reachable-Moves_master 3 2 states two-IsServed early-Reachable

Reachable-steps_example : 19 ≤ 7 * 2 + 7 * 3 + 2
Reachable-steps_example = Reachable-steps 3 2 two-IsServed states final-Reachable

-- Three processes and one plate.
abbrev waiting_world : World
unfolding job_master_process
waiting_world =
    get (init_world 3 1)
      (job_master_process 3 1 true true 0 (init_world 3 1).master (init_world 3 1))

waiting-Reachable : Reachable 3 1 states 1 waiting_world
unfolding job_master_process
waiting-Reachable = mastered {source = 0} start (omega arith) refl

Reachable-stuck_example :
    (1 ≤ 1)
    × (waiting_world.processed ≡ [])
    × ((error : ℕ) → waiting_world.master ≢ master_returned error)
Reachable-stuck_example = Reachable-stuck 3 1 states (omega arith) waiting-Reachable
