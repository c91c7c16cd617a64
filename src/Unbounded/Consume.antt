-- ===== src/Unbounded/Consume.antt =====
-- The steps of `consume` keep the invariant (pthreads/prod_cons_unbound/src/consumer.c).
use concurrente2025a_evan_ch.Base.{
  ℕ, zero, suc, ◌+◌, ◌^◌, ◌<◌, ◌≤◌, ◌≡◌, refl, ap, List, [], ◌∷◌, arith, ltb, u64, length,
  length-append, Bool-cases, ◌⊎◌, inl, inr, ltb→lt, ltb_false→le,
}
use concurrente2025a_evan_ch.Unbounded.{
  Producer, claiming_unit, Consumer, claiming_product, waiting, dequeuing, reporting_consumed,
  consumer_returned, State, simulation_create, consume, after_wait, System, Reachable, start,
  produced, consumed,
}
use concurrente2025a_evan_ch.Base.Families.{update}
use concurrente2025a_evan_ch.Base.Families.{
  total, total-update, total_ge, total_none, count, count-append,
}
use concurrente2025a_evan_ch.Unbounded.Invariant.{
  holds, in_hand, unposted, carries, carrying, admitted, claimed, Invariant, consumer_after,
  produce-Keeps,
}
use concurrente2025a_evan_ch.Base.Families.{Keeps}

Keeps-after_wait :
    (P : Consumer × State → Type 0) (n : ℕ) (s : State)
    → ((m : ℕ) → n ≡ m + 1 → P (dequeuing, record s { can_consume = m }))
    → Keeps P (after_wait n s)
Keeps-after_wait P zero s h = tt
Keeps-after_wait P (suc n) s h = h n (omega arith)

List-cases : (xs : List ℕ) → (xs ≡ []) ⊎ ((v : ℕ) × (rest : List ℕ) × (xs ≡ v ∷ rest))
List-cases [] = inl refl
List-cases (v ∷ rest) = inr (v, rest, refl)

module _ (unit_count producer_count consumer_count : ℕ) (small : unit_count < 2 ^ 64) where
  abbrev Inv : System → Type 0
  Inv = Invariant unit_count producer_count consumer_count

  -- A consumer that has come through the semaphore finds an element.
  pub queue_some :
      (x : System) (i : ℕ)
      → Inv x
      → i < consumer_count
      → x.consumers i ≡ dequeuing
      → 1 ≤ length x.state.queue
  queue_some x i inv h e =
      let one : admitted (x.consumers i) ≡ 1 = ap admitted e in
      omega (arith, inv.semaphore, total_ge admitted consumer_count i x.consumers h)

  consume-Keeps :
      (x : System) (i : ℕ) (c : Consumer)
      → Inv x
      → i < consumer_count
      → x.consumers i ≡ c
      → Keeps
          (λ next. Inv (record x { consumers = update x.consumers i next.0; state = next.1 }))
          (consume unit_count c x.state)
  unfolding consume count
  consume-Keeps x i claiming_product inv h e =
      elim (Bool-cases (ltb x.state.consumed_count unit_count)) [
        | inl less ↦
            let below = ltb→lt x.state.consumed_count unit_count less in
            let q : u64 (x.state.consumed_count + 1) ≡ x.state.consumed_count + 1 = omega arith in
            rw (less, q)
              (record {
                semaphore = omega (
                  arith,
                  inv.semaphore,
                  total-update admitted consumer_count i waiting claiming_product x.consumers h e,
                );
                exact = λ fits. omega (
                  arith,
                  inv.exact fits,
                  total-update admitted consumer_count i waiting claiming_product x.consumers h e,
                );
                places = λ u. omega (
                  arith,
                  inv.places u,
                  total-update (carries u) consumer_count i waiting claiming_product x.consumers h
                      e,
                );
                units = omega (
                  arith,
                  inv.units,
                  total-update carrying consumer_count i waiting claiming_product x.consumers h e,
                );
                claims = omega (
                  arith,
                  inv.claims,
                  total-update claimed consumer_count i waiting claiming_product x.consumers h e,
                );
                next_bound = inv.next_bound;
                consumed_bound = omega arith;
                producers_end = inv.producers_end;
                consumers_end = λ j r. absurd (
                    omega (
                      arith,
                      inv.consumers_end j (
                          consumer_after unit_count producer_count consumer_count x.consumers i j
                            waiting (λ z. absurd (cc)) r),
                    ));
              })
        | inr done ↦
            let all = ltb_false→le x.state.consumed_count unit_count done in
            rw done (record {
              semaphore = omega (
                arith,
                inv.semaphore,
                total-update admitted consumer_count i consumer_returned claiming_product
                    x.consumers h e,
              );
              exact = λ fits. omega (
                arith,
                inv.exact fits,
                total-update admitted consumer_count i consumer_returned claiming_product
                    x.consumers h e,
              );
              places = λ u. omega (
                arith,
                inv.places u,
                total-update (carries u) consumer_count i consumer_returned claiming_product
                    x.consumers h e,
              );
              units = omega (
                arith,
                inv.units,
                total-update carrying consumer_count i consumer_returned claiming_product
                    x.consumers h e,
              );
              claims = omega (
                arith,
                inv.claims,
                total-update claimed consumer_count i consumer_returned claiming_product x.consumers
                    h e,
              );
              next_bound = inv.next_bound;
              consumed_bound = inv.consumed_bound;
              producers_end = inv.producers_end;
              consumers_end = λ j r. omega (arith, inv.consumed_bound);
            })
      ]
  consume-Keeps x i waiting inv h e = Keeps-after_wait _ x.state.can_consume x.state (λ m f.
      record {
        semaphore = omega (
          arith,
          inv.semaphore,
          total-update admitted consumer_count i dequeuing waiting x.consumers h e,
        );
        exact = λ fits. omega (
          arith,
          inv.exact fits,
          total-update admitted consumer_count i dequeuing waiting x.consumers h e,
        );
        places = λ u. omega (
          arith,
          inv.places u,
          total-update (carries u) consumer_count i dequeuing waiting x.consumers h e,
        );
        units = omega (
          arith,
          inv.units,
          total-update carrying consumer_count i dequeuing waiting x.consumers h e,
        );
        claims = omega (
          arith,
          inv.claims,
          total-update claimed consumer_count i dequeuing waiting x.consumers h e,
        );
        next_bound = inv.next_bound;
        consumed_bound = inv.consumed_bound;
        producers_end = inv.producers_end;
        consumers_end = λ j r. inv.consumers_end j (
            consumer_after unit_count producer_count consumer_count x.consumers i j dequeuing
              (λ z. absurd (cc)) r);
      })
  consume-Keeps x i dequeuing inv h e = elim (List-cases x.state.queue) [
    | inl none_left ↦ absurd (omega (arith, queue_some x i inv h e, ap length none_left))
    | inr (v, rest, f) ↦ rw f (record {
      semaphore = omega (
        arith,
        inv.semaphore,
        ap length f,
        total-update admitted consumer_count i (reporting_consumed v) dequeuing x.consumers h e,
      );
      exact = λ fits. omega (
        arith,
        inv.exact fits,
        ap length f,
        total-update admitted consumer_count i (reporting_consumed v) dequeuing x.consumers h e,
      );
      places = λ u. omega (
        arith,
        inv.places u,
        ap (count u) f,
        total-update (carries u) consumer_count i (reporting_consumed v) dequeuing x.consumers h e,
      );
      units = omega (
        arith,
        inv.units,
        ap length f,
        total-update carrying consumer_count i (reporting_consumed v) dequeuing x.consumers h e,
      );
      claims = omega (
        arith,
        inv.claims,
        total-update claimed consumer_count i (reporting_consumed v) dequeuing x.consumers h e,
      );
      next_bound = inv.next_bound;
      consumed_bound = inv.consumed_bound;
      producers_end = inv.producers_end;
      consumers_end = λ j r. inv.consumers_end j (
          consumer_after unit_count producer_count consumer_count x.consumers i j
            (reporting_consumed v) (λ z. absurd (cc)) r);
    })
  ]
  consume-Keeps x i (reporting_consumed v) inv h e = record {
    semaphore = omega (
      arith,
      inv.semaphore,
      total-update admitted consumer_count i claiming_product (reporting_consumed v) x.consumers h
          e,
    );
    exact = λ fits. omega (
      arith,
      inv.exact fits,
      total-update admitted consumer_count i claiming_product (reporting_consumed v) x.consumers h
          e,
    );
    places = λ u. omega (
      arith,
      inv.places u,
      count-append u x.state.consumed (v ∷ []),
      total-update (carries u) consumer_count i claiming_product (reporting_consumed v) x.consumers
          h e,
    );
    units = omega (
      arith,
      inv.units,
      length-append x.state.consumed (v ∷ []),
      total-update carrying consumer_count i claiming_product (reporting_consumed v) x.consumers h
          e,
    );
    claims = omega (
      arith,
      inv.claims,
      length-append x.state.consumed (v ∷ []),
      total-update claimed consumer_count i claiming_product (reporting_consumed v) x.consumers h e,
    );
    next_bound = inv.next_bound;
    consumed_bound = inv.consumed_bound;
    producers_end = inv.producers_end;
    consumers_end = λ j r. inv.consumers_end j (
        consumer_after unit_count producer_count consumer_count x.consumers i j claiming_product
          (λ z. absurd (cc)) r);
  }
  consume-Keeps x i consumer_returned inv h e = tt

  start-Invariant : Inv (record {
    producers = λ i. claiming_unit;
    consumers = λ i. claiming_product;
    state = simulation_create;
  })
  unfolding count
  start-Invariant = record {
    semaphore = omega (arith, no_producers unposted refl, no_consumers admitted refl);
    exact = λ fits. omega (arith, no_producers unposted refl, no_consumers admitted refl);
    places = λ u. ground (arith, no_producers (holds u) refl, no_consumers (carries u) refl);
    units = omega (arith, no_producers in_hand refl, no_consumers carrying refl);
    claims = omega (arith, no_consumers claimed refl);
    next_bound = omega arith;
    consumed_bound = omega arith;
    producers_end = λ i r. absurd (cc);
    consumers_end = λ i r. absurd (cc);
  }
    where
      no_producers :
          (w : Producer → ℕ) → w claiming_unit ≡ 0 → total w producer_count (λ i. claiming_unit) ≡ 0
      no_producers w e = total_none w producer_count (λ i. claiming_unit) (λ i h. e)

      no_consumers :
          (w : Consumer → ℕ)
          → w claiming_product ≡ 0
          → total w consumer_count (λ i. claiming_product) ≡ 0
      no_consumers w e = total_none w consumer_count (λ i. claiming_product) (λ i h. e)

  pub Reachable-Invariant :
      {x : System} → Reachable unit_count producer_count consumer_count x → Inv x
  Reachable-Invariant start = start-Invariant
  Reachable-Invariant (produced {x} {i} {p} {s} r h e) = rw e at (
      produce-Keeps unit_count producer_count consumer_count small x i (x.producers i)
        (Reachable-Invariant r) h refl)
  Reachable-Invariant (consumed {x} {i} {c} {s} r h e) =
      rw e at (consume-Keeps x i (x.consumers i) (Reachable-Invariant r) h refl)
