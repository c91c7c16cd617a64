-- ===== src/Unbounded/Invariant.antt =====
-- What holds between the steps of the threads of pthreads/prod_cons_unbound: where each unit is, and
-- what the semaphore counts.
use concurrente2025a_evan_ch.Base.{
  ℕ, ap, ◌+◌, ◌^◌, ◌<◌, ◌≤◌, ◌≡◌, ◌≢◌, true, [], ◌∷◌, arith, ◌==◌, ltb, if◌then◌else◌, u64, length,
  length-append, Bool-cases, inl, inr, ltb→lt, ltb_false→le,
}
use concurrente2025a_evan_ch.Unbounded.{
  Producer, claiming_unit, enqueuing, reporting, posting, producer_returned, Consumer,
  claiming_product, waiting, dequeuing, reporting_consumed, consumer_returned, sem_value_max,
  sem_post, produce, System,
}
use concurrente2025a_evan_ch.Base.Families.{Keeps, update}
use concurrente2025a_evan_ch.Base.Families.{
  total, total-update, total_ge, count, count-append, count-one,
}

-- Weights of the places where a thread may be.
abbrev pub one : (u v : ℕ) → ℕ
one u v = if v == u then 1 else 0

abbrev pub holds : ℕ → Producer → ℕ
holds u claiming_unit = 0
holds u (enqueuing v) = one u v
holds u (reporting v) = 0
holds u posting = 0
holds u producer_returned = 0

abbrev pub in_hand : Producer → ℕ
in_hand claiming_unit = 0
in_hand (enqueuing v) = 1
in_hand (reporting v) = 0
in_hand posting = 0
in_hand producer_returned = 0

abbrev pub unposted : Producer → ℕ
unposted claiming_unit = 0
unposted (enqueuing v) = 0
unposted (reporting v) = 1
unposted posting = 1
unposted producer_returned = 0

abbrev pub carries : ℕ → Consumer → ℕ
carries u claiming_product = 0
carries u waiting = 0
carries u dequeuing = 0
carries u (reporting_consumed v) = one u v
carries u consumer_returned = 0

abbrev pub carrying : Consumer → ℕ
carrying claiming_product = 0
carrying waiting = 0
carrying dequeuing = 0
carrying (reporting_consumed v) = 1
carrying consumer_returned = 0

abbrev pub admitted : Consumer → ℕ
admitted claiming_product = 0
admitted waiting = 0
admitted dequeuing = 1
admitted (reporting_consumed v) = 0
admitted consumer_returned = 0

abbrev pub claimed : Consumer → ℕ
claimed claiming_product = 0
claimed waiting = 1
claimed dequeuing = 1
claimed (reporting_consumed v) = 1
claimed consumer_returned = 0

-- 1 for the units 1, 2, …, n and 0 for other numbers.
abbrev pub is_unit : (n u : ℕ) → ℕ
is_unit n u = if ltb n u then 0 else if u == 0 then 0 else 1

module _ (unit_count producer_count consumer_count : ℕ) where
  pub record Invariant (x : System) : Type 0 where
    -- The semaphore and those who have come through it account for the queue, but for the posts that
    -- have failed.
    pub semaphore :
        x.state.can_consume
          + total admitted consumer_count x.consumers
          + total unposted producer_count x.producers
        ≤ length x.state.queue
    pub exact :
        unit_count < 2 ^ 31
        → x.state.can_consume
            + total admitted consumer_count x.consumers
            + total unposted producer_count x.producers
          ≡ length x.state.queue
    -- Every unit that has been claimed is in one place.
    pub places :
        (u : ℕ)
        → total (holds u) producer_count x.producers
            + count u x.state.queue
            + total (carries u) consumer_count x.consumers
            + count u x.state.consumed
          ≡ is_unit x.state.next_unit u
    pub units :
        total in_hand producer_count x.producers
          + length x.state.queue
          + total carrying consumer_count x.consumers
          + length x.state.consumed
        ≡ x.state.next_unit
    pub claims :
        total claimed consumer_count x.consumers + length x.state.consumed ≡ x.state.consumed_count
    pub next_bound : x.state.next_unit ≤ unit_count
    pub consumed_bound : x.state.consumed_count ≤ unit_count
    pub producers_end : (i : ℕ) → x.producers i ≡ producer_returned → x.state.next_unit ≡ unit_count
    pub consumers_end :
        (i : ℕ) → x.consumers i ≡ consumer_returned → x.state.consumed_count ≡ unit_count

  -- A thread that is set to another place has not returned, unless the place is that.
  producer_after :
      (g : ℕ → Producer) (i j : ℕ) (p : Producer)
      → p ≢ producer_returned
      → update g i p j ≡ producer_returned
      → g j ≡ producer_returned
  producer_after g i j p real e = elim (Bool-cases (i == j)) [
    | inl q ↦ absurd (real (rw q at e))
    | inr q ↦ rw q at e
  ]

  pub consumer_after :
      (g : ℕ → Consumer) (i j : ℕ) (c : Consumer)
      → c ≢ consumer_returned
      → update g i c j ≡ consumer_returned
      → g j ≡ consumer_returned
  consumer_after g i j c real e = elim (Bool-cases (i == j)) [
    | inl q ↦ absurd (real (rw q at e))
    | inr q ↦ rw q at e
  ]

  next_is_unit : (n u : ℕ) → is_unit (n + 1) u ≡ is_unit n u + one u (n + 1)
  next_is_unit n u = ground arith

  sem_post_lem : (n : ℕ) → (sem_post n ≤ n + 1) × (n < sem_value_max → sem_post n ≡ n + 1)
  sem_post_lem n = (ground arith, λ h. ground (arith, h))

  module _ (small : unit_count < 2 ^ 64) where
    pub produce-Keeps :
        (x : System) (i : ℕ) (p : Producer)
        → Invariant x
        → i < producer_count
        → x.producers i ≡ p
        → Keeps
            (λ next.
              Invariant (record x { producers = update x.producers i next.0; state = next.1 }))
            (produce unit_count true p x.state)
    unfolding produce
    produce-Keeps x i claiming_unit inv h e = elim (Bool-cases (ltb x.state.next_unit unit_count)) [
      | inl less ↦
          let below = ltb→lt x.state.next_unit unit_count less in
          let q : u64 (x.state.next_unit + 1) ≡ x.state.next_unit + 1 = omega arith in
          let unit = x.state.next_unit + 1 in
          rw (less, q)
            (record {
              semaphore = omega (
                arith,
                inv.semaphore,
                total-update unposted producer_count i (enqueuing unit) claiming_unit x.producers h
                    e,
              );
              exact = λ fits. omega (
                arith,
                inv.exact fits,
                total-update unposted producer_count i (enqueuing unit) claiming_unit x.producers h
                    e,
              );
              places = λ u. omega (
                arith,
                inv.places u,
                next_is_unit x.state.next_unit u,
                total-update (holds u) producer_count i (enqueuing unit) claiming_unit x.producers h
                    e,
              );
              units = omega (
                arith,
                inv.units,
                total-update in_hand producer_count i (enqueuing unit) claiming_unit x.producers h
                    e,
              );
              claims = inv.claims;
              next_bound = omega arith;
              consumed_bound = inv.consumed_bound;
              producers_end = λ j r. absurd (
                  omega (
                    arith,
                    inv.producers_end j
                        (producer_after x.producers i j (enqueuing unit) (λ z. absurd (cc)) r),
                  ));
              consumers_end = inv.consumers_end;
            })
      | inr done ↦
          let all = ltb_false→le x.state.next_unit unit_count done in
          rw done (record {
            semaphore = omega (
              arith,
              inv.semaphore,
              total-update unposted producer_count i producer_returned claiming_unit x.producers h
                  e,
            );
            exact = λ fits. omega (
              arith,
              inv.exact fits,
              total-update unposted producer_count i producer_returned claiming_unit x.producers h
                  e,
            );
            places = λ u. omega (
              arith,
              inv.places u,
              total-update (holds u) producer_count i producer_returned claiming_unit x.producers h
                  e,
            );
            units = omega (
              arith,
              inv.units,
              total-update in_hand producer_count i producer_returned claiming_unit x.producers h e,
            );
            claims = inv.claims;
            next_bound = inv.next_bound;
            consumed_bound = inv.consumed_bound;
            producers_end = λ j r. omega (arith, inv.next_bound);
            consumers_end = inv.consumers_end;
          })
    ]
    produce-Keeps x i (enqueuing unit) inv h e = record {
      semaphore = omega (
        arith,
        inv.semaphore,
        length-append x.state.queue (unit ∷ []),
        total-update unposted producer_count i (reporting unit) (enqueuing unit) x.producers h e,
      );
      exact = λ fits. omega (
        arith,
        inv.exact fits,
        length-append x.state.queue (unit ∷ []),
        total-update unposted producer_count i (reporting unit) (enqueuing unit) x.producers h e,
      );
      places = λ u. omega (
        arith,
        inv.places u,
        count-append u x.state.queue (unit ∷ []),
        count-one u unit,
        total-update (holds u) producer_count i (reporting unit) (enqueuing unit) x.producers h e,
      );
      units = omega (
        arith,
        inv.units,
        length-append x.state.queue (unit ∷ []),
        total-update in_hand producer_count i (reporting unit) (enqueuing unit) x.producers h e,
      );
      claims = inv.claims;
      next_bound = inv.next_bound;
      consumed_bound = inv.consumed_bound;
      producers_end = λ j r.
          inv.producers_end j
            (producer_after x.producers i j (reporting unit) (λ z. absurd (cc)) r);
      consumers_end = inv.consumers_end;
    }
    produce-Keeps x i (reporting unit) inv h e = record {
      semaphore = omega (
        arith,
        inv.semaphore,
        total-update unposted producer_count i posting (reporting unit) x.producers h e,
      );
      exact = λ fits. omega (
        arith,
        inv.exact fits,
        total-update unposted producer_count i posting (reporting unit) x.producers h e,
      );
      places = λ u. omega (
        arith,
        inv.places u,
        total-update (holds u) producer_count i posting (reporting unit) x.producers h e,
      );
      units = omega (
        arith,
        inv.units,
        total-update in_hand producer_count i posting (reporting unit) x.producers h e,
      );
      claims = inv.claims;
      next_bound = inv.next_bound;
      consumed_bound = inv.consumed_bound;
      producers_end =
          λ j r. inv.producers_end j (producer_after x.producers i j posting (λ z. absurd (cc)) r);
      consumers_end = inv.consumers_end;
    }
    produce-Keeps x i posting inv h e =
        let (low, grows) = sem_post_lem x.state.can_consume in
        record {
          semaphore = omega (
            arith,
            inv.semaphore,
            low,
            total-update unposted producer_count i claiming_unit posting x.producers h e,
          );
          exact = λ fits. omega (
            arith,
            inv.exact fits,
            grows (
                omega (
                  arith,
                  inv.exact fits,
                  inv.units,
                  inv.next_bound,
                  total_ge unposted producer_count i x.producers h,
                  ap unposted e,
                )),
            total-update unposted producer_count i claiming_unit posting x.producers h e,
          );
          places = λ u. omega (
            arith,
            inv.places u,
            total-update (holds u) producer_count i claiming_unit posting x.producers h e,
          );
          units = omega (
            arith,
            inv.units,
            total-update in_hand producer_count i claiming_unit posting x.producers h e,
          );
          claims = inv.claims;
          next_bound = inv.next_bound;
          consumed_bound = inv.consumed_bound;
          producers_end = λ j r.
              inv.producers_end j
                (producer_after x.producers i j claiming_unit (λ z. absurd (cc)) r);
          consumers_end = inv.consumers_end;
        }
    produce-Keeps x i producer_returned inv h e = tt
