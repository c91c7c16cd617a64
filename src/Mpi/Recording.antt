-- ===== src/Mpi/Recording.antt =====
-- The steps of the master of homeworks/omp_mpi/src/job.c keep the invariant: the
-- record of a plate, and what follows it.
use concurrente2025a_evan_ch.Base.{
  ℕ, ◌+◌, ◌-◌, ◌<◌, ◌≤◌, ◌≡◌, inl, inr, refl, sym, ap, ◌∙◌, subst, true, false, List, [], ◌∷◌, ◌++◌,
  arith, ℕ_discrete, ◌==◌, ltb, ltb→lt, ltb_false→le, Bool-cases, if◌then◌else◌,
}
use concurrente2025a_evan_ch.Base.Families.{
  update, update-all, update_same, update_other, total, total-update, total_ge, count,
}
use concurrente2025a_evan_ch.Mpi.{
  int_bits, size_of_int, Master, receiving, receiving_states, stopping, waiting, World,
  working_processes, set_master, after_recorded,
}
use concurrente2025a_evan_ch.Mpi.Stage.{
  Stage, idle, handling, ordered, states_sent, worker_of, inbox_of, outbox_of, InRange, busy,
  carries, unprocessed, half_heard, told, update-says, stays-says,
}
use concurrente2025a_evan_ch.Mpi.Invariant.{
  IsServed, IsCounting, Invariant, assigned, next_stopped, expected, below,
}
use concurrente2025a_evan_ch.Mpi.Handout.{Agreeing, handed, not_new}

-- What recording plate `p` changes for plate `u`.
freed :
    (u p before after : ℕ)
    → after + carries u (handling states_sent p) ≡ before + 0
    → after ≡ 0
    → before ≡ (if p == u then 1 else 0)
freed u p before after e h = ground arith

module _ (process_count plates_count : ℕ) (k_states : ℕ → ℕ) where
  -- The world after the number of states of plate `p` has been taken and recorded.
  abbrev recorded_world : (source p : ℕ) → World → World
  recorded_world source p x = record x {
    to_master = update x.to_master source [];
    recorded = update x.recorded p (int_bits (k_states p));
  }

  -- A plate that nobody has any more is recorded.
  kept :
      (stage : ℕ → Stage) (x : World) (source p u before after : ℕ)
      → Agreeing process_count plates_count k_states stage x
      → u < assigned process_count plates_count x.master
      → before ≡ total (carries u) process_count stage
      → after + carries u (handling states_sent p) ≡ before + 0
      → after ≡ 0
      → update x.recorded p (int_bits (k_states p)) u ≡ int_bits (k_states u)
  kept stage x source p u before after inv k b e gone = elim (ℕ_discrete p u) [
    | yes q ↦
        subst (λ v. update x.recorded p (int_bits (k_states p)) v ≡ int_bits (k_states v)) q
          (update_same x.recorded p (int_bits (k_states p)))
    | no q ↦
        let f : (p == u) ≡ false = ground arith in
        update_other x.recorded p u (int_bits (k_states p)) q
        ∙ inv.record_kept u k
            (sym b ∙ freed u p before after e gone ∙ ap (λ t. if t then 1 else 0) f)
  ]

  module _ (served : IsServed process_count plates_count) where
    -- What holds of the world but for the master's counters, whatever the worker does next: `next` is
    -- its next stage and `m` the master's next place.
    recorded-Agrees :
        (stage : ℕ → Stage) (x : World) (source p current available : ℕ) (next : Stage) (m : Master)
        (inboxes : ℕ → List ℕ)
        → Agreeing process_count plates_count k_states stage x
        → x.master ≡ receiving_states p source current available
        → source < process_count
        → stage source ≡ handling states_sent p
        → worker_of plates_count k_states next ≡ waiting
        → outbox_of plates_count k_states next ≡ []
        → InRange plates_count k_states next
        → ((half_heard next ≡ 0) × (told next ≡ 0) × (expected m ≡ 0))
        → next_stopped process_count plates_count m ≤ 1
        → ((j : ℕ) → inboxes j ≡ inbox_of plates_count k_states (update stage source next j))
        → IsCounting process_count plates_count (update stage source next) m
        → ((u : ℕ)
            → count u x.processed + (total (unprocessed u) process_count stage + unprocessed u next)
              ≡ below (assigned process_count plates_count m) u)
        → ((u : ℕ) → u < assigned process_count plates_count m → carries u next ≡ 0 → u < current)
        → Agreeing process_count plates_count k_states
            (update stage source next)
            (set_master m (record (recorded_world source p x) { to_worker = inboxes }))
    recorded-Agrees stage x source p current available next m inboxes inv e h f w o range
          (hf, t, ex) early is counts hand old =
        let now = update stage source next in
        let st = handling states_sent p in
        record {
          workers_at =
              stays-says (worker_of plates_count k_states) x.workers stage source next
                (inv.workers_at source ∙ ap (worker_of plates_count k_states) f ∙ sym w)
                inv.workers_at;
          inboxes_at = is;
          outboxes_at =
              update-says (outbox_of plates_count k_states) x.to_master stage source next _ (sym o)
                inv.outboxes_at;
          in_range =
              update-all (λ k st. InRange plates_count k_states st) stage source next range
                (λ k q. inv.in_range k);
          master_idle =
              update_other stage source 0 next
                (λ q. absurd (states_not_idle (sym f ∙ ap stage q ∙ inv.master_idle)))
              ∙ inv.master_idle;
          untold = λ r k.
              update-all (λ k st. told st ≡ 0) stage source next t
                (λ k q. inv.untold k (
                  subst (λ m. next_stopped process_count plates_count m ≤ k) (sym e) (omega arith)))
                r;
          told_all = λ r p k. absurd (omega arith);
          half = omega (
            arith,
            inv.half ∙ ap expected e,
            total-update half_heard process_count source next st stage h f,
          );
          counting = counts;
          handed_out = λ u.
              omega (
                arith,
                hand u,
                total-update (unprocessed u) process_count source next st stage h f,
              );
          record_kept = λ u k gone.
              let here : carries u next ≡ 0 = omega (
                arith,
                gone,
                ap (carries u) (update_same stage source next),
                total_ge (carries u) process_count source now h,
              ) in
              kept stage x source p u (total (carries u) process_count stage) _ inv
                (subst (λ m. u < assigned process_count plates_count m) (sym e) (old u k here)) refl
                (total-update (carries u) process_count source next st stage h f
                  ∙ ap (λ n. total (carries u) process_count stage + n) here)
                gone;
        }
      where
        states_not_idle : handling states_sent p ≡ idle → ⊥
        states_not_idle z = absurd (cc)

    -- The three ways on from the record of a plate.
    pub after_recorded-Invariant :
        (stage : ℕ → Stage) (x : World) (source p current available : ℕ)
        → Agreeing process_count plates_count k_states stage x
        → x.master ≡ receiving_states p source current available
        → source < process_count
        → stage source ≡ handling states_sent p
        → Invariant process_count plates_count k_states (
            after_recorded process_count plates_count true source current
              (available + 1)
              (recorded_world source p x))
    after_recorded-Invariant stage x source p current available inv e h f =
        let (e1, e2, e3, e4) = subst (IsCounting process_count plates_count stage) e inv.counting in
        let small = served.plates_small in
        let st = handling states_sent p in
        let size : size_of_int current ≡ current = ground arith in
        let bits : int_bits current ≡ current = omega arith in
        let kept_inbox : x.to_worker source ≡ [] =
          inv.inboxes_at source ∙ ap (inbox_of plates_count k_states) f in
        let hand : (u : ℕ)
            → count u x.processed + total (unprocessed u) process_count stage ≡ below current u =
          λ u. inv.handed_out u ∙ ap (λ m. below (assigned process_count plates_count m) u) e in
        elim (Bool-cases (ltb current plates_count)) [
          | inl more ↦
              let less = ltb→lt current plates_count more in
              let next_bits : int_bits (current + 1) ≡ current + 1 = omega arith in
              let next = handling ordered current in
              rw (size, more, next_bits)
                (
                  update stage source next,
                  recorded-Agrees stage x source p current available next
                      (receiving (current + 1) (available + 1 - 1)) _ inv e h f refl refl less
                      (refl, refl, refl) (omega arith)
                      (update-says (inbox_of plates_count k_states) x.to_worker stage source next _
                        (ap (λ ms. ms ++ int_bits current ∷ []) kept_inbox) inv.inboxes_at)
                      (
                        omega arith,
                        omega (
                          arith,
                          total-update busy process_count source next st stage h f,
                          total_ge busy process_count source (update stage source next) h,
                          ap busy (update_same stage source next),
                        ),
                        omega (arith, total-update busy process_count source next st stage h f),
                      )
                      (λ u.
                        handed u current (count u x.processed)
                          (total (unprocessed u) process_count stage)
                          (total (unprocessed u) process_count stage + unprocessed u next) (hand u)
                          (omega arith))
                      (λ u k gone. (not_new u current 0 0 (omega (arith, gone)) refl k).0),
                )
          | inr all ↦
              let done : current ≡ plates_count =
                omega (arith, ltb_false→le current plates_count all) in
              let inboxes =
                stays-says (inbox_of plates_count k_states) x.to_worker stage source idle kept_inbox
                  inv.inboxes_at in
              let busy_left = total-update busy process_count source idle st stage h f in
              let hand_all : (u : ℕ)
                  → count u x.processed + (total (unprocessed u) process_count stage + 0)
                    ≡ below plates_count u =
                λ u. omega (arith, hand u, ap (λ n. below n u) done) in
              elim (Bool-cases (available + 1 == working_processes process_count plates_count)) [
                | inl last ↦
                    rw (size, all, last)
                      (
                        update stage source idle,
                        recorded-Agrees stage x source p current available idle (stopping 1) _ inv e
                            h f refl refl tt (refl, refl, refl) (omega arith) inboxes
                            (
                              omega arith,
                              omega (arith, served.some_process),
                              ground (arith, busy_left, e2, last),
                            )
                            hand_all (λ u k gone. omega arith),
                      )
                | inr others ↦
                    rw (size, all, others)
                      (
                        update stage source idle,
                        recorded-Agrees stage x source p current available idle
                            (receiving current (available + 1)) _ inv e h f refl refl tt
                            (refl, refl, refl) (omega arith) inboxes
                            (e1, ground (arith, busy_left, e2, others), omega (arith, busy_left))
                            (λ u. omega (arith, hand u)) (λ u k gone. k),
                      )
              ]
        ]
