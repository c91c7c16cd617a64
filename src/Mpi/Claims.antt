-- ===== src/Mpi/Claims.antt =====
-- What the master and the workers of homeworks/omp_mpi/src/job.c do with the plates of a job.
use concurrente2025a_evan_ch.Base.{ℕ, ◌<◌, ◌≤◌, ◌≡◌, sym, ap, ◌∙◌, subst, arith, ltb, if◌then◌else◌}
use concurrente2025a_evan_ch.Base.Families.{total_mono, count}
use concurrente2025a_evan_ch.Errors.{exit_success}
use concurrente2025a_evan_ch.Mpi.{
  int_bits, Master, assigning, receiving, receiving_states, stopping, master_returned, World,
  Reachable,
}
use concurrente2025a_evan_ch.Mpi.Stage.{
  Stage, idle, handling, stop_sent, stopped, ordered, working, reporting, index_sent, all_sent,
  index_received, states_sent, busy, carries, unprocessed,
}
use concurrente2025a_evan_ch.Mpi.Invariant.{IsServed, IsCounting, assigned, below}
use concurrente2025a_evan_ch.Mpi.Handout.{workers_bound}
use concurrente2025a_evan_ch.Mpi.MasterSteps.{Reachable-Invariant}

unprocessed-busy : (u : ℕ) (st : Stage) → unprocessed u st ≤ busy st
unprocessed-busy u idle = omega arith
unprocessed-busy u (handling ordered plate) = ground arith
unprocessed-busy u (handling working plate) = ground arith
unprocessed-busy u (handling reporting plate) = omega arith
unprocessed-busy u (handling index_sent plate) = omega arith
unprocessed-busy u (handling all_sent plate) = omega arith
unprocessed-busy u (handling index_received plate) = omega arith
unprocessed-busy u (handling states_sent plate) = omega arith
unprocessed-busy u stop_sent = omega arith
unprocessed-busy u stopped = omega arith

carries-busy : (u : ℕ) (st : Stage) → carries u st ≤ busy st
carries-busy u idle = omega arith
carries-busy u (handling place plate) = ground arith
carries-busy u stop_sent = omega arith
carries-busy u stopped = omega arith

module _ (process_count plates_count : ℕ) (k_states : ℕ → ℕ)
    (served : IsServed process_count plates_count) where
  assigned_le :
      (stage : ℕ → Stage) (m : Master)
      → IsCounting process_count plates_count stage m
      → assigned process_count plates_count m ≤ plates_count
  assigned_le stage (assigning n current available) (e1, e2, e3, e4, e5) =
      omega (arith, workers_bound process_count plates_count k_states served)
  assigned_le stage (receiving current available) (e1, e2, e3) = e1
  assigned_le stage (receiving_states index source current available) (e1, e2, e3, e4) = e1
  assigned_le stage (stopping n) c = omega arith
  assigned_le stage (master_returned error) c = omega arith

  -- With two workers that may be given a plate, and sizes below 2 ^ 31: while MPI's calls succeed, in
  -- any order of steps no plate is processed twice, nor one that the job does not have.
  pub Reachable-processed_once :
      {n : ℕ} {x : World} (u : ℕ)
      → Reachable process_count plates_count k_states n x
      → count u x.processed ≤ (if ltb u plates_count then 1 else 0)
  Reachable-processed_once {n} {x} u r =
      let (stage, inv) = Reachable-Invariant process_count plates_count k_states served r in
      let bound = assigned_le stage x.master inv.counting in ground (arith, inv.handed_out u)

  -- Under the same conditions, when the master returns it returns success, every plate of the job has
  -- been processed exactly once, and the master has recorded the number of states of each, modulo
  -- 2 ^ 32 since it is sent as an int.
  pub Reachable-recorded :
      {n error : ℕ} {x : World}
      → Reachable process_count plates_count k_states n x
      → x.master ≡ master_returned error
      → (error ≡ exit_success)
        × ((u : ℕ) → count u x.processed ≡ (if ltb u plates_count then 1 else 0))
        × ((u : ℕ) → u < plates_count → x.recorded u ≡ int_bits (k_states u))
  Reachable-recorded {n} {error} {x} r e =
      let (stage, inv) = Reachable-Invariant process_count plates_count k_states served r in
      let (success, quiet) = subst (IsCounting process_count plates_count stage) e inv.counting in
      (
        success,
        λ u. omega (
          arith,
          inv.handed_out u ∙ ap (λ m. below (assigned process_count plates_count m) u) e,
          total_mono (unprocessed u) busy process_count stage (unprocessed-busy u),
        ),
        λ u h.
            inv.record_kept u (subst (λ m. u < assigned process_count plates_count m) (sym e) h)
              (omega (arith, total_mono (carries u) busy process_count stage (carries-busy u))),
      )
