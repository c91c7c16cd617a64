-- ===== src/Mpi.antt =====
-- homeworks/omp_mpi/src/job.c, job_master_process, job_master_stop_workers and job_worker_process with
-- mpi_wrapper.c: the master process hands out the plates of a job and the workers process them. A step
-- is one call of MPI with the work around it, or the processing of one plate. A message that is sent
-- stands in a queue between its two processes until it is received.
pub mod Stage
pub mod Invariant
pub mod WorkerSteps
pub mod Handout
pub mod Hearing
pub mod Recording
pub mod Stopping
pub mod MasterSteps
pub mod Claims
pub mod Progress
pub mod Steps
pub mod Stuck
use concurrente2025a_evan_ch.Base.{
  ℕ, ◌+◌, ◌-◌, ◌%◌, ◌^◌, ◌<◌, ◌≤◌, ◌≡◌, Bool, true, Option, none, some, List, [], ◌∷◌, ◌++◌, ◌==◌,
  ltb, if◌then◌else◌, u64,
}
use concurrente2025a_evan_ch.Base.Families.{update}
use concurrente2025a_evan_ch.Errors.{exit_success, err_mpi_send, err_mpi_recv}

-- The 32 bits of an `int`.
abbrev pub int_bits : ℕ → ℕ
int_bits n = n % 2 ^ 32

-- An `int` that is compared with a `size_t` becomes one.
abbrev pub size_of_int : ℕ → ℕ
size_of_int n = if ltb n (2 ^ 31) then n else u64 (n + 2 ^ 64 - 2 ^ 32)

-- What `mpiwrapper_send` and `mpiwrapper_recv` return. Whether MPI's call succeeds is an argument.
abbrev pub mpiwrapper_send : (sent : Bool) → ℕ
mpiwrapper_send sent = if sent then exit_success else err_mpi_send

abbrev pub mpiwrapper_recv : (received : Bool) → ℕ
mpiwrapper_recv received = if received then exit_success else err_mpi_recv

-- Where the master is: at the head of its first loop, before `MPI_Recv`, before the receive of the
-- number of states, at the head of the loop of `job_master_stop_workers`, or returned.
pub data Master : Type 0 where
  assigning : (process_number current_plate_idx available_workers : ℕ) → Master
  receiving : (current_plate_idx available_workers : ℕ) → Master
  receiving_states : (received_plate_idx source current_plate_idx available_workers : ℕ) → Master
  stopping : (process_number : ℕ) → Master
  master_returned : (error : ℕ) → Master

-- Where a worker is: before its receive, before `process_plate`, before either send, or returned.
pub data Worker : Type 0 where
  waiting : Worker
  processing : (working_plate_idx : ℕ) → Worker
  sending_index : (working_plate_idx : ℕ) → Worker
  sending_states : (working_plate_idx : ℕ) → Worker
  worker_returned : (error : ℕ) → Worker

-- The processes, the messages to each worker and from it that have not been received, the numbers of
-- states that the master has recorded, and the plates that have been processed, in order.
pub record World : Type 0 where
  pub master : Master
  pub workers : ℕ → Worker
  pub to_worker : ℕ → List ℕ
  pub to_master : ℕ → List ℕ
  pub recorded : ℕ → ℕ
  pub processed : List ℕ

-- The sends to process `dest` and from process `source`.
abbrev pub send_to : (dest message : ℕ) → World → World
send_to dest message x = record x {
  to_worker = update x.to_worker dest (x.to_worker dest ++ int_bits message ∷ []);
}

abbrev pub send_from : (source message : ℕ) → World → World
send_from source message x = record x {
  to_master = update x.to_master source (x.to_master source ++ int_bits message ∷ []);
}

abbrev pub set_worker : (rank : ℕ) → Worker → World → World
set_worker rank w x = record x { workers = update x.workers rank w }

abbrev pub set_master : Master → World → World
set_master m x = record x { master = m }

-- A receive waits until there is a message.
abbrev pub take_message : List ℕ → (ℕ → List ℕ → World) → Option World
take_message [] next = none
take_message (message ∷ rest) next = some (next message rest)

module _ (process_count plates_count : ℕ) where
  abbrev pub working_processes : ℕ
  working_processes =
      if ltb (u64 (process_count + 2 ^ 64 - 1)) plates_count
      then process_count - 1
      else int_bits plates_count

  -- What follows the record of a plate: the next plate goes to the same worker, or the wait goes on, or
  -- the workers are stopped. The result of this send is not looked at.
  abbrev pub after_recorded :
      (sent : Bool) (source current_plate_idx available_workers : ℕ) → World → World
  after_recorded sent source current_plate_idx available_workers x =
      if ltb (size_of_int current_plate_idx) plates_count
      then set_master (receiving (int_bits (current_plate_idx + 1)) (available_workers - 1))
          (if sent then send_to source current_plate_idx x else x)
      else if available_workers == working_processes
      then set_master (stopping 1) x
      else set_master (receiving current_plate_idx available_workers) x

  -- A step of the master. `done` says whether MPI's call succeeds, `sent` whether the send after it
  -- does, and `source` is the process whose message `MPI_Recv` takes.
  unfoldable pub job_master_process :
      (done sent : Bool) (source : ℕ) → Master → World → Option World
  job_master_process done sent source (assigning process_number current available) x = some (
      if ltb process_number working_processes
      then if done
        then set_master (assigning (process_number + 1) (int_bits (current + 1)) (available - 1))
            (send_to process_number current x)
        else set_master (master_returned (mpiwrapper_send done)) x
      else set_master (receiving current available) x)
  job_master_process done sent source (receiving current available) x =
      if done
      then take_message (x.to_master source) (λ index rest.
        set_master (receiving_states index source current available)
          (record x { to_master = update x.to_master source rest }))
      else some (set_master (stopping 1) x)
  job_master_process done sent source (receiving_states index from current available) x =
      if done
      then take_message (x.to_master from) (λ k_states rest.
        after_recorded sent from current (available + 1) (record x {
          to_master = update x.to_master from rest;
          recorded =
              if ltb (size_of_int index) plates_count
              then update x.recorded index k_states
              else x.recorded;
        }))
      else some (set_master (stopping 1) x)
  job_master_process done sent source (stopping process_number) x = some (
      if ltb process_number process_count
      then if done
        then set_master (stopping (process_number + 1)) (send_to process_number plates_count x)
        else set_master (master_returned (mpiwrapper_send done)) x
      else set_master (master_returned exit_success) x)
  job_master_process done sent source (master_returned error) x = none

module _ (plates_count : ℕ) (k_states : ℕ → ℕ) where
  -- A step of worker `rank`. `k_states i` is what `process_plate` leaves in its plate `i`.
  unfoldable pub job_worker_process : (done : Bool) (rank : ℕ) → Worker → World → Option World
  job_worker_process done rank waiting x =
      if done
      then take_message (x.to_worker rank) (λ index rest.
        set_worker rank
          (if ltb (size_of_int index) plates_count
            then processing index
            else worker_returned exit_success)
          (record x { to_worker = update x.to_worker rank rest }))
      else some (set_worker rank (worker_returned (mpiwrapper_recv done)) x)
  job_worker_process done rank (processing index) x =
      some
        (set_worker rank (sending_index index) (record x { processed = x.processed ++ index ∷ [] }))
  job_worker_process done rank (sending_index index) x = some (
      if done
      then set_worker rank (sending_states index) (send_from rank index x)
      else set_worker rank (worker_returned (mpiwrapper_send done)) x)
  job_worker_process done rank (sending_states index) x = some (
      if done
      then set_worker rank waiting (send_from rank (k_states index) x)
      else set_worker rank (worker_returned (mpiwrapper_send done)) x)
  job_worker_process done rank (worker_returned error) x = none

abbrev pub init_world : (process_count plates_count : ℕ) → World
init_world process_count plates_count = record {
  master = assigning 1 0 (working_processes process_count plates_count);
  workers = λ rank. waiting;
  to_worker = λ rank. [];
  to_master = λ rank. [];
  recorded = λ plate. 0;
  processed = [];
}

-- The worlds that the processes reach in so many steps, in every order, while MPI's calls succeed.
pub data Reachable (process_count plates_count : ℕ) (k_states : ℕ → ℕ) : ℕ → World → Type 0 where
  start : Reachable process_count plates_count k_states 0 (init_world process_count plates_count)
  mastered :
      {n source : ℕ} {x y : World}
      → Reachable process_count plates_count k_states n x
      → source < process_count
      → job_master_process process_count plates_count true true source x.master x ≡ some y
      → Reachable process_count plates_count k_states (n + 1) y
  worked :
      {n rank : ℕ} {x y : World}
      → Reachable process_count plates_count k_states n x
      → 0 < rank
      → rank < process_count
      → job_worker_process plates_count k_states true rank (x.workers rank) x ≡ some y
      → Reachable process_count plates_count k_states (n + 1) y
