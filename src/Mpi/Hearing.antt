-- ===== src/Mpi/Hearing.antt =====
-- The steps of the master of homeworks/omp_mpi/src/job.c keep the invariant: the wait
-- for the index of a plate.
use concurrente2025a_evan_ch.Base.{
  ℕ, ◌+◌, ◌<◌, ◌≤◌, ◌≡◌, ◌≢◌, ◌⊎◌, inl, inr, refl, sym, ap, ◌∙◌, subst, List, arith,
}
use concurrente2025a_evan_ch.Base.Families.{
  update, update-all, update_same, update_other, total-update,
}
use concurrente2025a_evan_ch.Mpi.{receiving, receiving_states, World, set_master}
use concurrente2025a_evan_ch.Mpi.Stage.{
  Stage, idle, handling, index_sent, all_sent, index_received, states_sent, worker_of, inbox_of,
  outbox_of, InRange, busy, carries, unprocessed, half_heard, told, update-says, stays-says,
}
use concurrente2025a_evan_ch.Mpi.Invariant.{IsCounting, assigned, next_stopped, expected, below}
use concurrente2025a_evan_ch.Mpi.Handout.{Agreeing}

-- The stages before and after the master takes the index of the plate.
pub data Hears (plate : ℕ) : Stage → Stage → Type 0 where
  early : Hears plate (handling index_sent plate) (handling index_received plate)
  late : Hears plate (handling all_sent plate) (handling states_sent plate)

Hears-same :
    (plates_count : ℕ) (k_states : ℕ → ℕ) {plate : ℕ} {old now : Stage}
    → Hears plate old now
    → (worker_of plates_count k_states old ≡ worker_of plates_count k_states now)
      × (inbox_of plates_count k_states old ≡ inbox_of plates_count k_states now)
      × (busy now ≡ busy old)
      × (half_heard now ≡ half_heard old + 1)
      × (told now ≡ 0)
      × ((u : ℕ) → unprocessed u now ≡ unprocessed u old)
      × ((u : ℕ) → carries u now ≡ carries u old)
      × (old ≢ idle)
      × (InRange plates_count k_states old → InRange plates_count k_states now)
Hears-same plates_count k_states early =
    (refl, refl, refl, refl, refl, λ u. refl, λ u. refl, λ z. absurd (cc), λ r. r)
Hears-same plates_count k_states late =
    (refl, refl, refl, refl, refl, λ u. refl, λ u. refl, λ z. absurd (cc), λ r. r)

Hears-place :
    (stage : ℕ → Stage) (source : ℕ) {plate : ℕ} {old now : Stage}
    → Hears plate old now
    → (update stage source now source ≡ handling index_received plate)
      ⊎ (update stage source now source ≡ handling states_sent plate)
Hears-place stage source {plate} early =
    inl (update_same stage source (handling index_received plate))
Hears-place stage source {plate} late = inr (update_same stage source (handling states_sent plate))

module _ (process_count plates_count : ℕ) (k_states : ℕ → ℕ) where
  -- `MPI_Recv` takes a plate's index from the messages of a worker.
  pub receiving-Agrees :
      (stage : ℕ → Stage) (x : World) (source current available plate : ℕ) (old now : Stage)
      (rest : List ℕ)
      → Agreeing process_count plates_count k_states stage x
      → x.master ≡ receiving current available
      → source < process_count
      → stage source ≡ old
      → Hears plate old now
      → rest ≡ outbox_of plates_count k_states now
      → Agreeing process_count plates_count k_states (update stage source now) (
          set_master
            (receiving_states plate source current available)
            (record x { to_master = update x.to_master source rest }))
  receiving-Agrees stage x source current available plate old now rest inv e h f which left =
      let (e1, e2, e3) = subst (IsCounting process_count plates_count stage) e inv.counting in
      let (w, i, b, hf, t, un, c, real, range_now) = Hears-same plates_count k_states which in
      let range : InRange plates_count k_states old =
        subst (InRange plates_count k_states) f (inv.in_range source) in
      record {
        workers_at =
            stays-says (worker_of plates_count k_states) x.workers stage source now
              (inv.workers_at source ∙ ap (worker_of plates_count k_states) f ∙ w) inv.workers_at;
        inboxes_at =
            stays-says (inbox_of plates_count k_states) x.to_worker stage source now
              (inv.inboxes_at source ∙ ap (inbox_of plates_count k_states) f ∙ i) inv.inboxes_at;
        outboxes_at =
            update-says (outbox_of plates_count k_states) x.to_master stage source now _ left
              inv.outboxes_at;
        in_range =
            update-all (λ k st. InRange plates_count k_states st) stage source now (range_now range)
              (λ k q. inv.in_range k);
        master_idle =
            update_other stage source 0 now
              (λ q. absurd (real (sym f ∙ ap stage q ∙ inv.master_idle)))
            ∙ inv.master_idle;
        untold = λ r k.
            update-all (λ k st. told st ≡ 0) stage source now t
              (λ k q.
                inv.untold k (
                  subst (λ m. next_stopped process_count plates_count m ≤ k) (sym e) (omega arith)))
              r;
        told_all = λ r p k. absurd (omega arith);
        half = omega (
          arith,
          inv.half ∙ ap expected e,
          hf,
          total-update half_heard process_count source now old stage h f,
        );
        counting = (
          e1,
          omega (arith, b, total-update busy process_count source now old stage h f),
          h,
          Hears-place stage source which,
        );
        handed_out = λ u. omega (
          arith,
          un u,
          inv.handed_out u ∙ ap (λ m. below (assigned process_count plates_count m) u) e,
          total-update (unprocessed u) process_count source now old stage h f,
        );
        record_kept = λ u k gone.
            inv.record_kept u (subst (λ m. u < assigned process_count plates_count m) (sym e) k) (
              omega (
                arith,
                gone,
                c u,
                total-update (carries u) process_count source now old stage h f,
              ));
      }
