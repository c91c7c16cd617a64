-- ===== src/Unbounded/Claims.antt =====
-- What the producers and consumers of pthreads/prod_cons_unbound promise.
use concurrente2025a_evan_ch.Base.{
  ℕ, ◌^◌, ◌<◌, ◌≤◌, ◌≡◌, refl, ap, ◌∙◌, List, [], ◌∷◌, arith, length,
}
use concurrente2025a_evan_ch.Unbounded.{
  Producer, producer_returned, Consumer, dequeuing, consumer_returned, System, Reachable,
}
use concurrente2025a_evan_ch.Base.Families.{total, total_none, count}
use concurrente2025a_evan_ch.Unbounded.Invariant.{
  holds, in_hand, carries, carrying, claimed, is_unit, Invariant,
}
use concurrente2025a_evan_ch.Unbounded.Consume.{Reachable-Invariant, queue_some}

module _ (unit_count producer_count consumer_count : ℕ) (small : unit_count < 2 ^ 64) where
  -- While `queue_enqueue` gets its nodes and fewer than 2 ^ 64 units are asked for, a consumer that has
  -- come through the semaphore never finds the queue empty, in any order of steps.
  pub Reachable-available :
      {x : System} (i : ℕ)
      → Reachable unit_count producer_count consumer_count x
      → i < consumer_count
      → x.consumers i ≡ dequeuing
      → 1 ≤ length x.state.queue
  Reachable-available {x} i r h e =
      queue_some unit_count producer_count consumer_count small x i
        (Reachable-Invariant unit_count producer_count consumer_count small r) h e

  -- Under the same conditions no unit is consumed twice, nor any number that is not one of the units 1,
  -- 2, …, unit_count, in any reachable state.
  pub Reachable-once :
      {x : System} (u : ℕ)
      → Reachable unit_count producer_count consumer_count x
      → count u x.state.consumed ≤ is_unit unit_count u
  Reachable-once {x} u r =
      let inv = Reachable-Invariant unit_count producer_count consumer_count small r in
      omega (arith, inv.places u, is_unit_mono x.state.next_unit unit_count u inv.next_bound)
    where
      is_unit_mono : (m n u : ℕ) → m ≤ n → is_unit m u ≤ is_unit n u
      is_unit_mono m n u h = ground arith

  -- Under the same conditions, with a producer and a consumer at least, when all threads have
  -- returned: the queue is empty, and every unit has been consumed exactly once.
  pub Reachable-all :
      {x : System}
      → Reachable unit_count producer_count consumer_count x
      → 0 < producer_count
      → 0 < consumer_count
      → ((i : ℕ) → i < producer_count → x.producers i ≡ producer_returned)
      → ((i : ℕ) → i < consumer_count → x.consumers i ≡ consumer_returned)
      → (length x.state.queue ≡ 0) × ((u : ℕ) → count u x.state.consumed ≡ is_unit unit_count u)
  unfolding count
  Reachable-all {x} r some_producers some_consumers producers_done consumers_done = (
    empty,
    λ u. omega (
      arith,
      inv.places u,
      no_producers (holds u) refl,
      no_consumers (carries u) refl,
      ap (count u) (length_zero x.state.queue empty),
      ap (λ n. is_unit n u) all_units,
    ),
  )
    where
      inv : Invariant unit_count producer_count consumer_count x
      inv = Reachable-Invariant unit_count producer_count consumer_count small r

      no_producers :
          (w : Producer → ℕ) → w producer_returned ≡ 0 → total w producer_count x.producers ≡ 0
      no_producers w e =
          total_none w producer_count x.producers (λ i h. ap w (producers_done i h) ∙ e)

      no_consumers :
          (w : Consumer → ℕ) → w consumer_returned ≡ 0 → total w consumer_count x.consumers ≡ 0
      no_consumers w e =
          total_none w consumer_count x.consumers (λ i h. ap w (consumers_done i h) ∙ e)

      all_units : x.state.next_unit ≡ unit_count
      all_units = inv.producers_end 0 (producers_done 0 some_producers)

      empty : length x.state.queue ≡ 0
      empty = omega (
        arith,
        inv.units,
        inv.claims,
        no_producers in_hand refl,
        no_consumers carrying refl,
        no_consumers claimed refl,
        all_units,
        inv.consumers_end 0 (consumers_done 0 some_consumers),
      )

      length_zero : (xs : List ℕ) → length xs ≡ 0 → xs ≡ []
      length_zero [] e = refl
      length_zero (y ∷ ys) e = absurd (omega arith)
