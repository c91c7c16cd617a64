-- ===== src/Mpi/Handout.antt =====
-- The steps of the master of homeworks/omp_mpi/src/job.c keep the invariant: the loop
-- that hands out the first plates.
use concurrente2025a_evan_ch.Base.{
  ℕ, ◌+◌, ◌-◌, ◌<◌, ◌≤◌, ◌≡◌, ◌≢◌, refl, sym, ap, ◌∙◌, subst, [], ◌∷◌, ◌++◌, arith, ℕ_discrete,
}
use concurrente2025a_evan_ch.Base.Families.{update, update-all, update_other, total-update, count}
use concurrente2025a_evan_ch.Mpi.{
  int_bits, assigning, receiving, World, working_processes, set_master, send_to,
}
use concurrente2025a_evan_ch.Mpi.Stage.{
  Stage, idle, handling, ordered, worker_of, inbox_of, outbox_of, InRange, busy, carries,
  unprocessed, half_heard, told, update-says, stays-says,
}
use concurrente2025a_evan_ch.Mpi.Invariant.{
  IsServed, IsCounting, Agrees, assigned, next_stopped, expected, below,
}

-- What handing out plate `current` changes for plate `u`.
pub handed :
    (u current n before after : ℕ)
    → n + before ≡ below current u
    → after + 0 ≡ before + unprocessed u (handling ordered current)
    → n + after ≡ below (current + 1) u
handed u current n before after a b = ground arith

pub not_new :
    (u current before after : ℕ)
    → after + 0 ≡ before + carries u (handling ordered current)
    → after ≡ 0
    → u < current + 1
    → (u < current) × (before ≡ 0)
not_new u current before after e gone h = ground arith

module _ (process_count plates_count : ℕ) (k_states : ℕ → ℕ) where
  abbrev pub Agreeing : (ℕ → Stage) → World → Type 0
  Agreeing = Agrees process_count plates_count k_states

  pub rank_positive :
      (stage : ℕ → Stage) (x : World) (rank : ℕ) (st : Stage)
      → Agreeing stage x
      → stage rank ≡ st
      → st ≢ idle
      → 0 < rank
  rank_positive stage x rank st inv e real = elim (ℕ_discrete rank 0) [
    | yes q ↦ absurd (real (sym e ∙ ap stage q ∙ inv.master_idle))
    | no q ↦ omega arith
  ]

  module _ (served : IsServed process_count plates_count) where
    pub workers_bound :
        (working_processes process_count plates_count ≤ plates_count)
        × (working_processes process_count plates_count < process_count)
    workers_bound =
        let small = served.processes_small in
        let plates = served.plates_small in
        let two = served.served in let positive = served.some_process in ground arith

    -- The first loop sends a plate to the next worker.
    pub assigning-Agrees :
        (stage : ℕ → Stage) (x : World) (n current available : ℕ)
        → Agreeing stage x
        → x.master ≡ assigning n current available
        → n < working_processes process_count plates_count
        → Agreeing (update stage n (handling ordered current)) (
            set_master
              (assigning (n + 1) (int_bits (current + 1)) (available - 1))
              (send_to n current x))
    assigning-Agrees stage x n current available inv e less =
        let (e1, e2, e3, e4, e5) =
          subst (IsCounting process_count plates_count stage) e inv.counting in
        let bound = workers_bound in
        let small = served.plates_small in
        let bits : int_bits (current + 1) ≡ current + 1 = omega arith in
        let free : stage n ≡ idle = e5 n (omega arith) in
        let h : n < process_count = omega arith in
        let now = handling ordered current in
        rw bits (record {
          workers_at =
              stays-says (worker_of plates_count k_states) x.workers stage n now
                (inv.workers_at n ∙ ap (worker_of plates_count k_states) free) inv.workers_at;
          inboxes_at =
              update-says (inbox_of plates_count k_states) x.to_worker stage n now _
                (ap (λ ms. ms ++ int_bits current ∷ [])
                  (inv.inboxes_at n ∙ ap (inbox_of plates_count k_states) free))
                inv.inboxes_at;
          outboxes_at =
              stays-says (outbox_of plates_count k_states) x.to_master stage n now
                (inv.outboxes_at n ∙ ap (outbox_of plates_count k_states) free) inv.outboxes_at;
          in_range =
              update-all (λ k st. InRange plates_count k_states st) stage n now (omega arith)
                (λ k q. inv.in_range k);
          master_idle = update_other stage n 0 now (λ q. absurd (omega arith)) ∙ inv.master_idle;
          untold = λ r k.
              update-all (λ k st. told st ≡ 0) stage n now refl
                (λ k q. inv.untold k (
                  subst (λ m. next_stopped process_count plates_count m ≤ k) (sym e) (omega arith)))
                r;
          told_all = λ r p k. absurd (omega arith);
          half = omega (
            arith,
            inv.half ∙ ap expected e,
            total-update half_heard process_count n now idle stage h free,
          );
          counting = (
            omega arith,
            omega arith,
            omega arith,
            omega (arith, total-update busy process_count n now idle stage h free),
            λ r k.
                update-all (λ k st. n + 1 ≤ k → st ≡ idle) stage n now (λ q. absurd (omega arith))
                  (λ k q l. e5 k (omega arith)) r k,
          );
          handed_out = λ u.
              handed u current (count u x.processed) _ _
                (inv.handed_out u ∙ ap (λ m. below (assigned process_count plates_count m) u) e)
                (total-update (unprocessed u) process_count n now idle stage h free);
          record_kept = λ u k gone.
              let (old, before) =
                not_new u current _ _
                  (total-update (carries u) process_count n now idle stage h free) gone k in
              inv.record_kept u (subst (λ m. u < assigned process_count plates_count m) (sym e) old)
                before;
        })

    -- The first loop ends.
    pub waiting-Agrees :
        (stage : ℕ → Stage) (x : World) (n current available : ℕ)
        → Agreeing stage x
        → x.master ≡ assigning n current available
        → working_processes process_count plates_count ≤ n
        → Agreeing stage (set_master (receiving current available) x)
    waiting-Agrees stage x n current available inv e all =
        let (e1, e2, e3, e4, e5) =
          subst (IsCounting process_count plates_count stage) e inv.counting in
        let bound = workers_bound in
        let two = served.served in
        record {
          workers_at = inv.workers_at;
          inboxes_at = inv.inboxes_at;
          outboxes_at = inv.outboxes_at;
          in_range = inv.in_range;
          master_idle = inv.master_idle;
          untold = λ r k.
              inv.untold r (subst (λ m. next_stopped process_count plates_count m ≤ r) (sym e) k);
          told_all = λ r p k. absurd (omega arith);
          half = inv.half ∙ ap expected e;
          counting = (omega arith, omega arith, omega arith);
          handed_out =
              λ u. inv.handed_out u ∙ ap (λ m. below (assigned process_count plates_count m) u) e;
          record_kept = λ u k.
              inv.record_kept u (subst (λ m. u < assigned process_count plates_count m) (sym e) k);
        }
