-- ===== src/Mpi/Invariant.antt =====
-- What holds between the steps of the processes of homeworks/omp_mpi: every worker is in some stage, and
-- the master's counters and record agree with the stages.
use concurrente2025a_evan_ch.Base.{ℕ, ◌+◌, ◌^◌, ◌<◌, ◌≤◌, ◌≡◌, ◌⊎◌, ltb, if◌then◌else◌}
use concurrente2025a_evan_ch.Base.Families.{total, count}
use concurrente2025a_evan_ch.Errors.{exit_success}
use concurrente2025a_evan_ch.Mpi.{
  int_bits, Master, assigning, receiving, receiving_states, stopping, master_returned, World,
  working_processes,
}
use concurrente2025a_evan_ch.Mpi.Stage.{
  Stage, idle, handling, index_received, states_sent, worker_of, inbox_of, outbox_of, InRange, busy,
  carries, unprocessed, half_heard, told,
}

-- The sizes are those of an `int`, and the job's plates are served by one worker at least.
pub record IsServed (process_count plates_count : ℕ) : Type 0 where
  pub some_process : 0 < process_count
  pub processes_small : process_count < 2 ^ 31
  pub plates_small : plates_count < 2 ^ 31
  pub served : 2 ≤ working_processes process_count plates_count

-- 1 for the plates that have been handed out.
abbrev pub below : (n u : ℕ) → ℕ
below n u = if ltb u n then 1 else 0

-- What the master holds itself: one number of states is still to come.
abbrev pub expected : Master → ℕ
expected (assigning process_number current available) = 0
expected (receiving current available) = 0
expected (receiving_states index source current available) = 1
expected (stopping process_number) = 0
expected (master_returned error) = 0

module _ (process_count plates_count : ℕ) where
  -- The plates that the master has handed out.
  abbrev pub assigned : Master → ℕ
  assigned (assigning process_number current available) = current
  assigned (receiving current available) = current
  assigned (receiving_states index source current available) = current
  assigned (stopping process_number) = plates_count
  assigned (master_returned error) = plates_count

  -- The workers from this one on have not been told to stop.
  abbrev pub next_stopped : Master → ℕ
  next_stopped (assigning process_number current available) = 0
  next_stopped (receiving current available) = 0
  next_stopped (receiving_states index source current available) = 0
  next_stopped (stopping process_number) = process_number
  next_stopped (master_returned error) = process_count

  -- How the master's counters agree with the stages.
  abbrev pub IsCounting : (stage : ℕ → Stage) → Master → Type 0
  IsCounting stage (assigning process_number current available) =
      (process_number ≡ current + 1)
      × (process_number ≤ working_processes process_count plates_count)
      × (available + current ≡ working_processes process_count plates_count)
      × (total busy process_count stage ≡ current)
      × ((rank : ℕ) → process_number ≤ rank → stage rank ≡ idle)
  IsCounting stage (receiving current available) =
      (current ≤ plates_count)
      × (1 ≤ total busy process_count stage)
      × (total busy process_count stage + available ≡ working_processes process_count plates_count)
  IsCounting stage (receiving_states index source current available) =
      (current ≤ plates_count)
      × (total busy process_count stage + available ≡ working_processes process_count plates_count)
      × (source < process_count)
      × ((stage source ≡ handling index_received index)
          ⊎ (stage source ≡ handling states_sent index))
  IsCounting stage (stopping process_number) =
      (1 ≤ process_number) × (process_number ≤ process_count) × (total busy process_count stage ≡ 0)
  IsCounting stage (master_returned error) =
      (error ≡ exit_success) × (total busy process_count stage ≡ 0)

module _ (process_count plates_count : ℕ) (k_states : ℕ → ℕ) where
  -- The invariant, with the stages as an argument.
  pub record Agrees (stage : ℕ → Stage) (x : World) : Type 0 where
    pub workers_at : (rank : ℕ) → x.workers rank ≡ worker_of plates_count k_states (stage rank)
    pub inboxes_at : (rank : ℕ) → x.to_worker rank ≡ inbox_of plates_count k_states (stage rank)
    pub outboxes_at : (rank : ℕ) → x.to_master rank ≡ outbox_of plates_count k_states (stage rank)
    pub in_range : (rank : ℕ) → InRange plates_count k_states (stage rank)
    pub master_idle : stage 0 ≡ idle
    pub untold :
        (rank : ℕ) → next_stopped process_count plates_count x.master ≤ rank → told (stage rank) ≡ 0
    pub told_all :
        (rank : ℕ)
        → 0 < rank
        → rank < next_stopped process_count plates_count x.master
        → told (stage rank) ≡ 1
    pub half : total half_heard process_count stage ≡ expected x.master
    pub counting : IsCounting process_count plates_count stage x.master
    pub handed_out :
        (u : ℕ)
        → count u x.processed + total (unprocessed u) process_count stage
          ≡ below (assigned process_count plates_count x.master) u
    pub record_kept :
        (u : ℕ)
        → u < assigned process_count plates_count x.master
        → total (carries u) process_count stage ≡ 0
        → x.recorded u ≡ int_bits (k_states u)

  abbrev pub Invariant : World → Type 0
  Invariant x = (stage : ℕ → Stage) × Agrees stage x
