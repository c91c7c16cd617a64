-- ===== src/Tests/OneUnit.antt =====
-- One producer and one consumer of pthreads/prod_cons_unbound, with one unit.
use concurrente2025a_evan_ch.Base.{
  ℕ, zero, suc, ◌<◌, ◌≤◌, ◌≡◌, ◌⊎◌, refl, List, [], ◌∷◌, arith, length, true,
}
use concurrente2025a_evan_ch.Unbounded.{
  Producer, claiming_unit, enqueuing, reporting, posting, producer_returned, Consumer,
  claiming_product, waiting, dequeuing, reporting_consumed, consumer_returned, State,
  simulation_create, produce, consume, System, Reachable, start, produced, consumed,
}
use concurrente2025a_evan_ch.Base.Families.{update}
use concurrente2025a_evan_ch.Base.Families.{count}
use concurrente2025a_evan_ch.Unbounded.Invariant.{is_unit}
use concurrente2025a_evan_ch.Unbounded.Claims.{Reachable-available, Reachable-once, Reachable-all}
use concurrente2025a_evan_ch.Unbounded.Progress.{Reachable-Moves}
use concurrente2025a_evan_ch.Base.Families.{Moves}

abbrev state : (next claimed semaphore : ℕ) → (queue printed shown : List ℕ) → State
state next claimed semaphore queue printed shown = record {
  next_unit = next;
  consumed_count = claimed;
  can_consume = semaphore;
  queue = queue;
  produced = printed;
  consumed = shown;
}

abbrev producer_to : Producer → State → System → System
producer_to p s x = record x { producers = update x.producers 0 p; state = s }

abbrev consumer_to : Consumer → State → System → System
consumer_to c s x = record x { consumers = update x.consumers 0 c; state = s }

abbrev one : List ℕ
one = 1 ∷ []

abbrev beginning : System
beginning = record {
  producers = λ i. claiming_unit;
  consumers = λ i. claiming_product;
  state = simulation_create;
}

-- The consumer is about to take the unit.
abbrev ready : System
ready = consumer_to dequeuing (state 1 1 0 one one []) (
    producer_to claiming_unit (state 1 1 1 one one []) (
      producer_to posting (state 1 1 0 one one []) (
        producer_to (reporting 1) (state 1 1 0 one [] []) (
          consumer_to waiting (state 1 1 0 [] [] [])
            (producer_to (enqueuing 1) (state 1 0 0 [] [] []) beginning)))))

ready-Reachable : Reachable 1 1 1 ready
unfolding produce consume
ready-Reachable =
    consumed {i = 0}
      (produced {i = 0}
        (produced {i = 0}
          (produced {i = 0}
            (consumed {i = 0} (produced {i = 0} start (omega arith) refl) (omega arith) refl)
            (omega arith) refl)
          (omega arith) refl)
        (omega arith) refl)
      (omega arith) refl

abbrev final : System
final = consumer_to consumer_returned (state 1 1 0 [] one one) (
    consumer_to claiming_product (state 1 1 0 [] one one) (
      consumer_to (reporting_consumed 1) (state 1 1 0 [] one [])
        (producer_to producer_returned (state 1 1 0 one one []) ready)))

final-Reachable : Reachable 1 1 1 final
unfolding produce consume
final-Reachable =
    consumed {i = 0}
      (consumed {i = 0}
        (consumed {i = 0} (produced {i = 0} ready-Reachable (omega arith) refl) (omega arith) refl)
        (omega arith) refl)
      (omega arith) refl

producers_done : (i : ℕ) → i < 1 → final.producers i ≡ producer_returned
producers_done zero h = refl
producers_done (suc i) h = absurd (omega arith)

consumers_done : (i : ℕ) → i < 1 → final.consumers i ≡ consumer_returned
consumers_done zero h = refl
consumers_done (suc i) h = absurd (omega arith)

Reachable-available_example : 1 ≤ length ready.state.queue
Reachable-available_example =
    Reachable-available 1 1 1 (omega arith) 0 ready-Reachable (omega arith) refl

Reachable-once_example : count 1 final.state.consumed ≤ is_unit 1 1
Reachable-once_example = Reachable-once 1 1 1 (omega arith) 1 final-Reachable

Reachable-all_example :
    (length final.state.queue ≡ 0) × ((u : ℕ) → count u final.state.consumed ≡ is_unit 1 u)
Reachable-all_example =
    Reachable-all 1 1 1 (omega arith) final-Reachable (omega arith) (omega arith) producers_done
      consumers_done

Reachable-Moves_example :
    (((i : ℕ) → i < 1 → ready.producers i ≡ producer_returned)
      × ((i : ℕ) → i < 1 → ready.consumers i ≡ consumer_returned))
    ⊎ (((i : ℕ) × (i < 1) × Moves (produce 1 true (ready.producers i) ready.state))
        ⊎ ((i : ℕ) × (i < 1) × Moves (consume 1 (ready.consumers i) ready.state)))
Reachable-Moves_example = Reachable-Moves 1 1 1 (omega arith) ready-Reachable (omega arith)
