-- ===== src/Mpi/MasterSteps.antt =====
-- The steps of the master of homeworks/omp_mpi/src/job.c keep the invariant, and so do
-- those of the workers: it holds of every world that the processes reach.
use concurrente2025a_evan_ch.Base.{
  ℕ, ◌<◌, ◌≡◌, inl, inr, refl, ap, ◌∙◌, subst, true, [], ◌∷◌, arith, ltb, ltb→lt, ltb_false→le,
  Bool-cases,
}
use concurrente2025a_evan_ch.Base.Families.{update, total, total_ge, total_none, count}
use concurrente2025a_evan_ch.Mpi.{
  int_bits, size_of_int, Master, assigning, receiving, receiving_states, stopping, master_returned,
  World, Reachable, start, mastered, worked, init_world, job_master_process, working_processes,
}
use concurrente2025a_evan_ch.Mpi.Stage.{
  Stage, idle, handling, stop_sent, stopped, ordered, working, reporting, index_sent, all_sent,
  index_received, states_sent, outbox_of, InRange, busy, unprocessed, half_heard,
}
use concurrente2025a_evan_ch.Mpi.Invariant.{IsServed, IsCounting, Invariant, expected, below}
use concurrente2025a_evan_ch.Mpi.WorkerSteps.{worker-Keeps}
use concurrente2025a_evan_ch.Base.Families.{Keeps}
use concurrente2025a_evan_ch.Mpi.Handout.{Agreeing, assigning-Agrees, waiting-Agrees}
use concurrente2025a_evan_ch.Mpi.Hearing.{receiving-Agrees, early, late}
use concurrente2025a_evan_ch.Mpi.Recording.{after_recorded-Invariant}
use concurrente2025a_evan_ch.Mpi.Stopping.{stopping-Agrees, returned-Agrees}

module _ (process_count plates_count : ℕ) (k_states : ℕ → ℕ)
    (served : IsServed process_count plates_count) where
  -- `MPI_Recv` for a plate's index, by the stage of the process that it hears from.
  receiving-Keeps :
      (stage : ℕ → Stage) (x : World) (source current available : ℕ) (st : Stage)
      → Agreeing process_count plates_count k_states stage x
      → source < process_count
      → x.master ≡ receiving current available
      → stage source ≡ st
      → Keeps (Invariant process_count plates_count k_states) (
          job_master_process process_count plates_count true true source
            (receiving current available)
            x)
  unfolding job_master_process
  receiving-Keeps stage x source current available idle inv h e f =
      rw (inv.outboxes_at source ∙ ap (outbox_of plates_count k_states) f) tt
  receiving-Keeps stage x source current available (handling ordered plate) inv h e f =
      rw (inv.outboxes_at source ∙ ap (outbox_of plates_count k_states) f) tt
  receiving-Keeps stage x source current available (handling working plate) inv h e f =
      rw (inv.outboxes_at source ∙ ap (outbox_of plates_count k_states) f) tt
  receiving-Keeps stage x source current available (handling reporting plate) inv h e f =
      rw (inv.outboxes_at source ∙ ap (outbox_of plates_count k_states) f) tt
  receiving-Keeps stage x source current available (handling index_sent plate) inv h e f =
      let small = served.plates_small in
      let range : plate < plates_count =
        subst (InRange plates_count k_states) f (inv.in_range source) in
      let bits : int_bits plate ≡ plate = omega arith in
      rw (inv.outboxes_at source ∙ ap (outbox_of plates_count k_states) f, bits)
        (
          update stage source (handling index_received plate),
          receiving-Agrees process_count plates_count k_states stage x source current available
              plate (handling index_sent plate) (handling index_received plate) [] inv e h f early
              refl,
        )
  receiving-Keeps stage x source current available (handling all_sent plate) inv h e f =
      let small = served.plates_small in
      let range : plate < plates_count =
        subst (InRange plates_count k_states) f (inv.in_range source) in
      let bits : int_bits plate ≡ plate = omega arith in
      rw (inv.outboxes_at source ∙ ap (outbox_of plates_count k_states) f, bits)
        (
          update stage source (handling states_sent plate),
          receiving-Agrees process_count plates_count k_states stage x source current available
              plate (handling all_sent plate) (handling states_sent plate)
              (int_bits (k_states plate) ∷ []) inv e h f late refl,
        )
  receiving-Keeps stage x source current available (handling index_received plate) inv h e f =
      absurd (
        omega (
          arith,
          inv.half ∙ ap expected e,
          total_ge half_heard process_count source stage h,
          ap half_heard f,
        ))
  receiving-Keeps stage x source current available (handling states_sent plate) inv h e f = absurd (
      omega (
        arith,
        inv.half ∙ ap expected e,
        total_ge half_heard process_count source stage h,
        ap half_heard f,
      ))
  receiving-Keeps stage x source current available stop_sent inv h e f =
      rw (inv.outboxes_at source ∙ ap (outbox_of plates_count k_states) f) tt
  receiving-Keeps stage x source current available stopped inv h e f =
      rw (inv.outboxes_at source ∙ ap (outbox_of plates_count k_states) f) tt

  -- Every step of the master keeps the invariant.
  pub master-Keeps :
      (stage : ℕ → Stage) (x : World) (source : ℕ) (m : Master)
      → Agreeing process_count plates_count k_states stage x
      → source < process_count
      → x.master ≡ m
      → Keeps
          (Invariant process_count plates_count k_states)
          (job_master_process process_count plates_count true true source m x)
  unfolding job_master_process
  master-Keeps stage x source (assigning n current available) inv h e =
      elim (Bool-cases (ltb n (working_processes process_count plates_count))) [
        | inl less ↦ rw less (
          update stage n (handling ordered current),
          assigning-Agrees process_count plates_count k_states served stage x n current available
              inv e (ltb→lt n _ less),
        )
        | inr all ↦ rw all (
          stage,
          waiting-Agrees process_count plates_count k_states served stage x n current available inv
              e (ltb_false→le n _ all),
        )
      ]
  master-Keeps stage x source (receiving current available) inv h e =
      receiving-Keeps stage x source current available (stage source) inv h e refl
  master-Keeps stage x source (receiving_states plate from current available) inv h e =
      let (e1, e2, e3, e4) = subst (IsCounting process_count plates_count stage) e inv.counting in
      elim e4 [
        | inl f ↦ rw (inv.outboxes_at from ∙ ap (outbox_of plates_count k_states) f) tt
        | inr f ↦
            let small = served.plates_small in
            let range : plate < plates_count =
              subst (InRange plates_count k_states) f (inv.in_range from) in
            let size : ltb (size_of_int plate) plates_count ≡ true = ground arith in
            rw (inv.outboxes_at from ∙ ap (outbox_of plates_count k_states) f, size)
              (after_recorded-Invariant process_count plates_count k_states served stage x from
                plate current available inv e e3 f)
      ]
  master-Keeps stage x source (stopping n) inv h e = elim (Bool-cases (ltb n process_count)) [
    | inl less ↦ rw less (
      update stage n stop_sent,
      stopping-Agrees process_count plates_count k_states stage x n inv e
          (ltb→lt n process_count less),
    )
    | inr all ↦ rw all (
      stage,
      returned-Agrees process_count plates_count k_states stage x n inv e
          (ltb_false→le n process_count all),
    )
  ]
  master-Keeps stage x source (master_returned error) inv h e = tt

  init-Invariant :
      Invariant process_count plates_count k_states (init_world process_count plates_count)
  unfolding total count
  init-Invariant = (
    λ rank. idle,
    record {
      workers_at = λ rank. refl;
      inboxes_at = λ rank. refl;
      outboxes_at = λ rank. refl;
      in_range = λ rank. tt;
      master_idle = refl;
      untold = λ rank h. refl;
      told_all = λ rank h k. absurd (omega arith);
      half = total_none half_heard process_count (λ rank. idle) (λ i h. refl);
      counting = (
        refl,
        omega (arith, served.served),
        omega arith,
        total_none busy process_count (λ rank. idle) (λ i h. refl),
        λ rank h. refl,
      );
      handed_out = λ u.
          let nothing : below 0 u ≡ 0 = ground arith in
          omega
            (arith, nothing, total_none (unprocessed u) process_count (λ rank. idle) (λ i h. refl));
      record_kept = λ u h. absurd (omega arith);
    },
  )

  -- The invariant holds of every world that the processes reach.
  pub Reachable-Invariant :
      {n : ℕ} {x : World}
      → Reachable process_count plates_count k_states n x
      → Invariant process_count plates_count k_states x
  Reachable-Invariant start = init-Invariant
  Reachable-Invariant (mastered {n} {source} {x} {y} r h e) =
      let (stage, inv) = Reachable-Invariant r in
      rw e at (master-Keeps stage x source x.master inv h refl)
  Reachable-Invariant (worked {n} {rank} {x} {y} r first h e) =
      let (stage, inv) = Reachable-Invariant r in
      let e' = rw (inv.workers_at rank) at e in
      rw e' at (
        worker-Keeps process_count plates_count k_states served stage x rank (stage rank) inv first
          h refl)
