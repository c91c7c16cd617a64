-- ===== src/Mpi/WorkerSteps.antt =====
-- The steps of a worker of homeworks/omp_mpi/src/job.c keep the invariant.
use concurrente2025a_evan_ch.Base.{
  ℕ, ◌+◌, ◌^◌, ◌<◌, ◌≤◌, ◌≡◌, ◌≢◌, ◌⊎◌, inl, inr, refl, sym, ap, ◌∙◌, subst, true, [], ◌∷◌, ◌++◌,
  arith, ℕ_discrete, lt→ltb, le→ltb_false,
}
use concurrente2025a_evan_ch.Base.Families.{
  Keeps, update, update-all, update_same, update_other, total, total-update, count, count-append,
  count-one,
}
use concurrente2025a_evan_ch.Mpi.{
  int_bits, Master, assigning, receiving, receiving_states, stopping, master_returned, World,
  job_worker_process, set_worker, send_from,
}
use concurrente2025a_evan_ch.Mpi.Stage.{
  Stage, idle, handling, stop_sent, stopped, ordered, working, reporting, index_sent, all_sent,
  index_received, states_sent, worker_of, inbox_of, outbox_of, InRange, busy, carries, unprocessed,
  half_heard, told, update-says, stays-says,
}
use concurrente2025a_evan_ch.Mpi.Invariant.{IsServed, IsCounting, Agrees, Invariant, next_stopped}

-- The stages that a step of the worker itself leads from and to.
pub data Follows : Stage → Stage → Type 0 where
  receives : (plate : ℕ) → Follows (handling ordered plate) (handling working plate)
  processes : (plate : ℕ) → Follows (handling working plate) (handling reporting plate)
  sends_index : (plate : ℕ) → Follows (handling reporting plate) (handling index_sent plate)
  sends_states : (plate : ℕ) → Follows (handling index_sent plate) (handling all_sent plate)
  sends_rest : (plate : ℕ) → Follows (handling index_received plate) (handling states_sent plate)
  stops : Follows stop_sent stopped

Follows-same :
    {old now : Stage}
    → Follows old now
    → (busy now ≡ busy old)
      × (half_heard now ≡ half_heard old)
      × (told now ≡ told old)
      × ((u : ℕ) → carries u now ≡ carries u old)
      × (old ≢ idle)
Follows-same (receives plate) = (refl, refl, refl, λ u. refl, λ e. absurd (cc))
Follows-same (processes plate) = (refl, refl, refl, λ u. refl, λ e. absurd (cc))
Follows-same (sends_index plate) = (refl, refl, refl, λ u. refl, λ e. absurd (cc))
Follows-same (sends_states plate) = (refl, refl, refl, λ u. refl, λ e. absurd (cc))
Follows-same (sends_rest plate) = (refl, refl, refl, λ u. refl, λ e. absurd (cc))
Follows-same stops = (refl, refl, refl, λ u. refl, λ e. absurd (cc))

Follows-heard :
    {old now : Stage} (index : ℕ)
    → Follows old now
    → (old ≡ handling index_received index) ⊎ (old ≡ handling states_sent index)
    → now ≡ handling states_sent index
Follows-heard index (receives plate) (inl e) = absurd (cc)
Follows-heard index (receives plate) (inr e) = absurd (cc)
Follows-heard index (processes plate) (inl e) = absurd (cc)
Follows-heard index (processes plate) (inr e) = absurd (cc)
Follows-heard index (sends_index plate) (inl e) = absurd (cc)
Follows-heard index (sends_index plate) (inr e) = absurd (cc)
Follows-heard index (sends_states plate) (inl e) = absurd (cc)
Follows-heard index (sends_states plate) (inr e) = absurd (cc)
Follows-heard index (sends_rest plate) (inl e) = cc
Follows-heard index (sends_rest plate) (inr e) = absurd (cc)
Follows-heard index stops (inl e) = absurd (cc)
Follows-heard index stops (inr e) = absurd (cc)

module _ (process_count plates_count : ℕ) where
  -- The master's counters do not notice a step of a worker.
  Follows-IsCounting :
      (stage : ℕ → Stage) (rank : ℕ) (old now : Stage) (m : Master)
      → rank < process_count
      → stage rank ≡ old
      → Follows old now
      → IsCounting process_count plates_count stage m
      → IsCounting process_count plates_count (update stage rank now) m
  Follows-IsCounting stage rank old now m h e f =
      let same = Follows-same f in
      let busy_same : total busy process_count (update stage rank now)
          ≡ total busy process_count stage =
        omega (arith, total-update busy process_count rank now old stage h e, same.0) in
      counting m busy_same
    where
      counting :
          (m : Master)
          → total busy process_count (update stage rank now) ≡ total busy process_count stage
          → IsCounting process_count plates_count stage m
          → IsCounting process_count plates_count (update stage rank now) m
      counting (assigning n current available) b (e1, e2, e3, e4, e5) = (
        e1,
        e2,
        e3,
        b ∙ e4,
        λ r.
            update-all (λ k st. n ≤ k → st ≡ idle) stage rank now
              (λ q. absurd ((Follows-same f).4 (sym e ∙ e5 rank q))) (λ k q. e5 k) r,
      )
      counting (receiving current available) b (e1, e2, e3) = (e1, omega arith, omega arith)
      counting (receiving_states index source current available) b (e1, e2, e3, e4) = (
        e1,
        omega arith,
        e3,
        elim (ℕ_discrete rank source) [
          | yes q ↦ inr (
              subst (λ k. update stage rank now k ≡ handling states_sent index) q
                (update_same stage rank now
                  ∙ Follows-heard index f (
                      subst
                        (λ st.
                          (st ≡ handling index_received index) ⊎ (st ≡ handling states_sent index))
                        (sym (ap stage q) ∙ e) e4)))
          | no q ↦
              subst (λ st. (st ≡ handling index_received index) ⊎ (st ≡ handling states_sent index))
                (sym (update_other stage rank source now q)) e4
        ],
      )
      counting (stopping n) b (e1, e2, e3) = (e1, e2, b ∙ e3)
      counting (master_returned error) b (e1, e2) = (e1, b ∙ e2)

module _ (process_count plates_count : ℕ) (k_states : ℕ → ℕ) where
  -- A step of a worker to the next stage that changes only what the stage says.
  Follows-Agrees :
      (stage : ℕ → Stage) (rank : ℕ) (old now : Stage) (x y : World)
      → Agrees process_count plates_count k_states stage x
      → 0 < rank
      → rank < process_count
      → stage rank ≡ old
      → Follows old now
      → InRange plates_count k_states now
      → (y.master ≡ x.master) × (y.recorded ≡ x.recorded)
      → ((j : ℕ) → y.workers j ≡ worker_of plates_count k_states (update stage rank now j))
      → ((j : ℕ) → y.to_worker j ≡ inbox_of plates_count k_states (update stage rank now j))
      → ((j : ℕ) → y.to_master j ≡ outbox_of plates_count k_states (update stage rank now j))
      → ((u : ℕ)
          → count u y.processed + unprocessed u now ≡ count u x.processed + unprocessed u old)
      → Agrees process_count plates_count k_states (update stage rank now) y
  Follows-Agrees stage rank old now x y inv first h e f range (m, r) ws is os counts =
      let same = Follows-same f in
      record {
        workers_at = ws;
        inboxes_at = is;
        outboxes_at = os;
        in_range =
            update-all (λ k st. InRange plates_count k_states st) stage rank now range
              (λ k q. inv.in_range k);
        master_idle = update_other stage rank 0 now (λ q. absurd (omega arith)) ∙ inv.master_idle;
        untold = rw m (
            update-all (λ k st. next_stopped process_count plates_count x.master ≤ k → told st ≡ 0)
              stage rank now (λ q. same.2 ∙ sym (ap told e) ∙ inv.untold rank q)
              (λ k q. inv.untold k));
        told_all = rw m (
            update-all
              (λ k st. 0 < k → k < next_stopped process_count plates_count x.master → told st ≡ 1)
              stage rank now (λ p q. same.2 ∙ sym (ap told e) ∙ inv.told_all rank p q)
              (λ k q. inv.told_all k));
        half = rw m (
            omega (
              arith,
              inv.half,
              same.1,
              total-update half_heard process_count rank now old stage h e,
            ));
        counting = rw m (
            Follows-IsCounting process_count plates_count stage rank old now x.master h e f
              inv.counting);
        handed_out = λ u. rw m (
            omega (
              arith,
              inv.handed_out u,
              counts u,
              total-update (unprocessed u) process_count rank now old stage h e,
            ));
        record_kept = λ u below none.
            ap (λ g. g u) r
            ∙ inv.record_kept u (rw m at below) (
                omega (
                  arith,
                  none,
                  same.3 u,
                  total-update (carries u) process_count rank now old stage h e,
                ));
      }

  -- A send to the master.
  sends-Agrees :
      (stage : ℕ → Stage) (rank message : ℕ) (old now : Stage) (x : World)
      → Agrees process_count plates_count k_states stage x
      → 0 < rank
      → rank < process_count
      → stage rank ≡ old
      → Follows old now
      → InRange plates_count k_states now
      → inbox_of plates_count k_states old ≡ inbox_of plates_count k_states now
      → outbox_of plates_count k_states old ++ int_bits message ∷ []
        ≡ outbox_of plates_count k_states now
      → ((u : ℕ) → unprocessed u now ≡ unprocessed u old)
      → Agrees process_count plates_count k_states
          (update stage rank now)
          (set_worker rank (worker_of plates_count k_states now) (send_from rank message x))
  sends-Agrees stage rank message old now x inv first h e f range same_inbox sent same =
      Follows-Agrees stage rank old now x _ inv first h e f range (refl, refl)
        (update-says (worker_of plates_count k_states) x.workers stage rank now _ refl
          inv.workers_at)
        (stays-says (inbox_of plates_count k_states) x.to_worker stage rank now
          (inv.inboxes_at rank ∙ ap (inbox_of plates_count k_states) e ∙ same_inbox) inv.inboxes_at)
        (update-says (outbox_of plates_count k_states) x.to_master stage rank now _
          (ap (λ ms. ms ++ int_bits message ∷ [])
              (inv.outboxes_at rank ∙ ap (outbox_of plates_count k_states) e)
            ∙ sent)
          inv.outboxes_at)
        (λ u. ap (λ n. count u x.processed + n) (same u))

  module _ (served : IsServed process_count plates_count) where
    -- Every step of a worker keeps the invariant.
    pub worker-Keeps :
        (stage : ℕ → Stage) (x : World) (rank : ℕ) (st : Stage)
        → Agrees process_count plates_count k_states stage x
        → 0 < rank
        → rank < process_count
        → stage rank ≡ st
        → Keeps (Invariant process_count plates_count k_states) (
            job_worker_process plates_count k_states true rank
              (worker_of plates_count k_states st)
              x)
    unfolding job_worker_process
    worker-Keeps stage x rank idle inv first h e =
        rw (inv.inboxes_at rank ∙ ap (inbox_of plates_count k_states) e) tt
    worker-Keeps stage x rank (handling ordered plate) inv first h e =
        let range : plate < plates_count =
          subst (InRange plates_count k_states) e (inv.in_range rank) in
        let small = served.plates_small in
        let bits : int_bits plate ≡ plate = omega arith in
        rw
          (
            inv.inboxes_at rank ∙ ap (inbox_of plates_count k_states) e,
            bits,
            lt→ltb plate (2 ^ 31) (omega arith),
            lt→ltb plate plates_count range,
          )
          (
            update stage rank (handling working plate),
            Follows-Agrees stage rank (handling ordered plate) (handling working plate) x _ inv
                first h e (receives plate) range (refl, refl)
                (update-says (worker_of plates_count k_states) x.workers stage rank
                  (handling working plate) _ refl inv.workers_at)
                (update-says (inbox_of plates_count k_states) x.to_worker stage rank
                  (handling working plate) _ refl inv.inboxes_at)
                (stays-says (outbox_of plates_count k_states) x.to_master stage rank
                  (handling working plate)
                  (inv.outboxes_at rank ∙ ap (outbox_of plates_count k_states) e) inv.outboxes_at)
                (λ u. refl),
          )
    worker-Keeps stage x rank (handling working plate) inv first h e =
        let range : plate < plates_count =
          subst (InRange plates_count k_states) e (inv.in_range rank) in
        (
          update stage rank (handling reporting plate),
          Follows-Agrees stage rank (handling working plate) (handling reporting plate) x _ inv
              first h e (processes plate) range (refl, refl)
              (update-says (worker_of plates_count k_states) x.workers stage rank
                (handling reporting plate) _ refl inv.workers_at)
              (stays-says (inbox_of plates_count k_states) x.to_worker stage rank
                (handling reporting plate)
                (inv.inboxes_at rank ∙ ap (inbox_of plates_count k_states) e) inv.inboxes_at)
              (stays-says (outbox_of plates_count k_states) x.to_master stage rank
                (handling reporting plate)
                (inv.outboxes_at rank ∙ ap (outbox_of plates_count k_states) e) inv.outboxes_at)
              (λ u. omega (arith, count-append u x.processed (plate ∷ []), count-one u plate)),
        )
    worker-Keeps stage x rank (handling reporting plate) inv first h e =
        let range : plate < plates_count =
          subst (InRange plates_count k_states) e (inv.in_range rank) in
        (
          update stage rank (handling index_sent plate),
          sends-Agrees stage rank plate (handling reporting plate) (handling index_sent plate) x inv
              first h e (sends_index plate) range refl refl (λ u. refl),
        )
    worker-Keeps stage x rank (handling index_sent plate) inv first h e =
        let range : plate < plates_count =
          subst (InRange plates_count k_states) e (inv.in_range rank) in
        (
          update stage rank (handling all_sent plate),
          sends-Agrees stage rank (k_states plate) (handling index_sent plate)
              (handling all_sent plate) x inv first h e (sends_states plate) range refl refl
              (λ u. refl),
        )
    worker-Keeps stage x rank (handling all_sent plate) inv first h e =
        rw (inv.inboxes_at rank ∙ ap (inbox_of plates_count k_states) e) tt
    worker-Keeps stage x rank (handling index_received plate) inv first h e =
        let range : plate < plates_count =
          subst (InRange plates_count k_states) e (inv.in_range rank) in
        (
          update stage rank (handling states_sent plate),
          sends-Agrees stage rank (k_states plate) (handling index_received plate)
              (handling states_sent plate) x inv first h e (sends_rest plate) range refl refl
              (λ u. refl),
        )
    worker-Keeps stage x rank (handling states_sent plate) inv first h e =
        rw (inv.inboxes_at rank ∙ ap (inbox_of plates_count k_states) e) tt
    worker-Keeps stage x rank stop_sent inv first h e =
        let small = served.plates_small in
        let bits : int_bits plates_count ≡ plates_count = omega arith in
        rw
          (
            inv.inboxes_at rank ∙ ap (inbox_of plates_count k_states) e,
            bits,
            lt→ltb plates_count (2 ^ 31) (omega arith),
            le→ltb_false plates_count plates_count (omega arith),
          )
          (
            update stage rank stopped,
            Follows-Agrees stage rank stop_sent stopped x _ inv first h e stops tt (refl, refl)
                (update-says (worker_of plates_count k_states) x.workers stage rank stopped _ refl
                  inv.workers_at)
                (update-says (inbox_of plates_count k_states) x.to_worker stage rank stopped _ refl
                  inv.inboxes_at)
                (stays-says (outbox_of plates_count k_states) x.to_master stage rank stopped
                  (inv.outboxes_at rank ∙ ap (outbox_of plates_count k_states) e) inv.outboxes_at)
                (λ u. refl),
          )
    worker-Keeps stage x rank stopped inv first h e = tt
