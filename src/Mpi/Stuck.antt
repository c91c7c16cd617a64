-- ===== src/Mpi/Stuck.antt =====
-- A job of homeworks/omp_mpi/src/job.c that the master can give to one worker only, or that has one
-- plate: the first loop of job_master_process hands nothing out, and the master waits for ever.
use concurrente2025a_evan_ch.Base.{
  ℕ, ◌+◌, ◌≤◌, ◌≡◌, ◌≢◌, ◌⊎◌, inl, inr, refl, none, some, [], arith, le→ltb_false, some_inj, subst,
}
use concurrente2025a_evan_ch.Mpi.{
  assigning, receiving, master_returned, waiting, World, Reachable, start, mastered, worked,
  job_master_process, job_worker_process, working_processes,
}

module _ (process_count plates_count : ℕ) (k_states : ℕ → ℕ) where
  -- The only worlds: before the first test of the loop, and at `MPI_Recv`.
  record IsWaiting (n : ℕ) (x : World) : Type 0 where
    pub places :
        ((x.master ≡ assigning 1 0 (working_processes process_count plates_count)) × (n ≡ 0))
        ⊎ ((x.master ≡ receiving 0 (working_processes process_count plates_count)) × (n ≡ 1))
    pub workers_wait : (rank : ℕ) → x.workers rank ≡ waiting
    pub nothing_sent : (rank : ℕ) → x.to_worker rank ≡ []
    pub nothing_returned : (rank : ℕ) → x.to_master rank ≡ []
    pub nothing_processed : x.processed ≡ []

  none-some : {A : Type 0} {a : A} → none ≡ some a → ⊥
  none-some e = absurd (cc)

  module _ (unserved : working_processes process_count plates_count ≤ 1) where
    Reachable-IsWaiting :
        {n : ℕ} {x : World} → Reachable process_count plates_count k_states n x → IsWaiting n x
    unfolding job_master_process job_worker_process
    Reachable-IsWaiting start = record {
      places = inl (refl, refl);
      workers_wait = λ rank. refl;
      nothing_sent = λ rank. refl;
      nothing_returned = λ rank. refl;
      nothing_processed = refl;
    }
    Reachable-IsWaiting (mastered {n} {source} {x} {y} r h e) =
        let inv = Reachable-IsWaiting r in
        elim inv.places [
          | inl (m, k) ↦
              subst (IsWaiting (n + 1))
                (some_inj (
                  rw (m, le→ltb_false 1 (working_processes process_count plates_count) unserved) at
                    e))
                (record {
                  places = inr (refl, omega arith);
                  workers_wait = inv.workers_wait;
                  nothing_sent = inv.nothing_sent;
                  nothing_returned = inv.nothing_returned;
                  nothing_processed = inv.nothing_processed;
                })
          | inr (m, k) ↦ absurd (none-some (rw (m, inv.nothing_returned source) at e))
        ]
    Reachable-IsWaiting (worked {n} {rank} {x} {y} r p h e) =
        let inv = Reachable-IsWaiting r in
        absurd (none-some (rw (inv.workers_wait rank, inv.nothing_sent rank) at e))

    -- When the job has one plate or none, or the master has one worker: while MPI's calls succeed, the
    -- processes take one step at most, no plate is ever processed, and the master never returns.
    pub Reachable-stuck :
        {n : ℕ} {x : World}
        → Reachable process_count plates_count k_states n x
        → (n ≤ 1) × (x.processed ≡ []) × ((error : ℕ) → x.master ≢ master_returned error)
    Reachable-stuck {n} {x} r =
        let inv = Reachable-IsWaiting r in
        elim inv.places [
          | inl (m, k) ↦ (omega arith, inv.nothing_processed, λ error z. absurd (cc))
          | inr (m, k) ↦ (omega arith, inv.nothing_processed, λ error z. absurd (cc))
        ]
