-- ===== src/Mpi/Stopping.antt =====
-- The steps of the master of homeworks/omp_mpi/src/job.c keep the invariant: the loop
-- that stops the workers.
use concurrente2025a_evan_ch.Base.{
  ℕ, ◌+◌, ◌<◌, ◌≤◌, ◌≡◌, refl, sym, ap, ◌∙◌, subst, [], ◌∷◌, ◌++◌, arith,
}
use concurrente2025a_evan_ch.Base.Families.{
  update, update-all, update_other, total-update, total_ge,
}
use concurrente2025a_evan_ch.Errors.{exit_success}
use concurrente2025a_evan_ch.Mpi.{int_bits, stopping, master_returned, World, set_master, send_to}
use concurrente2025a_evan_ch.Mpi.Stage.{
  Stage, idle, handling, stop_sent, stopped, worker_of, inbox_of, outbox_of, InRange, busy, carries,
  unprocessed, half_heard, told, update-says, stays-says,
}
use concurrente2025a_evan_ch.Mpi.Invariant.{IsCounting, assigned, next_stopped, expected, below}
use concurrente2025a_evan_ch.Mpi.Handout.{Agreeing}

module _ (process_count plates_count : ℕ) (k_states : ℕ → ℕ) where
  free_worker : (st : Stage) → busy st ≡ 0 → told st ≡ 0 → st ≡ idle
  free_worker idle b t = refl
  free_worker (handling place plate) b t = absurd (cc)
  free_worker stop_sent b t = absurd (cc)
  free_worker stopped b t = absurd (cc)

  -- One more worker is told to stop.
  pub stopping-Agrees :
      (stage : ℕ → Stage) (x : World) (n : ℕ)
      → Agreeing process_count plates_count k_states stage x
      → x.master ≡ stopping n
      → n < process_count
      → Agreeing process_count plates_count k_states
          (update stage n stop_sent)
          (set_master (stopping (n + 1)) (send_to n plates_count x))
  stopping-Agrees stage x n inv e h =
      let (e1, e2, e3) = subst (IsCounting process_count plates_count stage) e inv.counting in
      let free : stage n ≡ idle =
        free_worker (stage n) (omega (arith, total_ge busy process_count n stage h)) (
          inv.untold n
            (subst (λ m. next_stopped process_count plates_count m ≤ n) (sym e) (omega arith))) in
      let now = stop_sent in
      record {
        workers_at =
            stays-says (worker_of plates_count k_states) x.workers stage n now
              (inv.workers_at n ∙ ap (worker_of plates_count k_states) free) inv.workers_at;
        inboxes_at =
            update-says (inbox_of plates_count k_states) x.to_worker stage n now _
              (ap (λ ms. ms ++ int_bits plates_count ∷ [])
                (inv.inboxes_at n ∙ ap (inbox_of plates_count k_states) free))
              inv.inboxes_at;
        outboxes_at =
            stays-says (outbox_of plates_count k_states) x.to_master stage n now
              (inv.outboxes_at n ∙ ap (outbox_of plates_count k_states) free) inv.outboxes_at;
        in_range =
            update-all (λ k st. InRange plates_count k_states st) stage n now tt
              (λ k q. inv.in_range k);
        master_idle = update_other stage n 0 now (λ q. absurd (omega arith)) ∙ inv.master_idle;
        untold = λ r k.
            update-all (λ k st. n + 1 ≤ k → told st ≡ 0) stage n now (λ q. absurd (omega arith))
              (λ k q l.
                inv.untold k (
                  subst (λ m. next_stopped process_count plates_count m ≤ k) (sym e) (omega arith)))
              r k;
        told_all =
            update-all (λ k st. 0 < k → k < n + 1 → told st ≡ 1) stage n now (λ p q. refl)
              (λ k q p l.
                inv.told_all k p (
                  subst (λ m. k < next_stopped process_count plates_count m) (sym e)
                    (omega arith)));
        half = omega (
          arith,
          inv.half ∙ ap expected e,
          total-update half_heard process_count n now idle stage h free,
        );
        counting = (
          omega arith,
          omega arith,
          omega (arith, total-update busy process_count n now idle stage h free),
        );
        handed_out = λ u. omega (
          arith,
          inv.handed_out u ∙ ap (λ m. below (assigned process_count plates_count m) u) e,
          total-update (unprocessed u) process_count n now idle stage h free,
        );
        record_kept = λ u k gone.
            inv.record_kept u (subst (λ m. u < assigned process_count plates_count m) (sym e) k)
              (omega (arith, gone, total-update (carries u) process_count n now idle stage h free));
      }

  -- All workers have been told.
  pub returned-Agrees :
      (stage : ℕ → Stage) (x : World) (n : ℕ)
      → Agreeing process_count plates_count k_states stage x
      → x.master ≡ stopping n
      → process_count ≤ n
      → Agreeing process_count plates_count k_states stage
          (set_master (master_returned exit_success) x)
  returned-Agrees stage x n inv e all =
      let (e1, e2, e3) = subst (IsCounting process_count plates_count stage) e inv.counting in
      record {
        workers_at = inv.workers_at;
        inboxes_at = inv.inboxes_at;
        outboxes_at = inv.outboxes_at;
        in_range = inv.in_range;
        master_idle = inv.master_idle;
        untold = λ r k.
            inv.untold r
              (subst (λ m. next_stopped process_count plates_count m ≤ r) (sym e) (omega arith));
        told_all = λ r p k.
            inv.told_all r p
              (subst (λ m. r < next_stopped process_count plates_count m) (sym e) (omega arith));
        half = inv.half ∙ ap expected e;
        counting = (refl, e3);
        handed_out =
            λ u. inv.handed_out u ∙ ap (λ m. below (assigned process_count plates_count m) u) e;
        record_kept = λ u k.
            inv.record_kept u (subst (λ m. u < assigned process_count plates_count m) (sym e) k);
      }
