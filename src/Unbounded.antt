-- ===== src/Unbounded.antt =====
-- pthreads/prod_cons_unbound/src/producer.c and consumer.c: any number of producers and consumers around
-- a queue. A step is one critical section, one operation of the queue (Queue/Enqueue and Queue/Dequeue
-- show that it is a step on the list that the queue holds), one call of the semaphore, or one line
-- that is printed. `none` is a thread that waits or has returned.
pub mod Invariant
pub mod Consume
pub mod Claims
pub mod Progress
use concurrente2025a_evan_ch.Base.{
  ℕ, zero, suc, ◌+◌, ◌<◌, ◌≡◌, Bool, true, Option, none, some, List, [], ◌∷◌, ◌++◌, ◌==◌, ltb,
  if◌then◌else◌, u64,
}
use concurrente2025a_evan_ch.Base.Families.{update}

-- Where `produce` is: before its critical section, before `queue_enqueue`, before the line that it
-- prints, or before its `sem_post`.
pub data Producer : Type 0 where
  claiming_unit : Producer
  enqueuing : (my_unit : ℕ) → Producer
  reporting : (my_unit : ℕ) → Producer
  posting : Producer
  producer_returned : Producer

-- Where `consume` is.
pub data Consumer : Type 0 where
  claiming_product : Consumer
  waiting : Consumer
  dequeuing : Consumer
  reporting_consumed : (value : ℕ) → Consumer
  consumer_returned : Consumer

-- The part of `simulation_t` that changes, and what the threads have printed.
pub record State : Type 0 where
  pub next_unit : ℕ
  pub consumed_count : ℕ
  pub can_consume : ℕ
  pub queue : List ℕ
  pub produced : List ℕ
  pub consumed : List ℕ

-- `simulation_create`
abbrev pub simulation_create : State
simulation_create = record {
  next_unit = 0;
  consumed_count = 0;
  can_consume = 0;
  queue = [];
  produced = [];
  consumed = [];
}

-- `sem_post`, which fails and changes nothing at SEM_VALUE_MAX; its result is ignored.
abbrev pub sem_value_max : ℕ
sem_value_max = 2147483647

abbrev pub sem_post : ℕ → ℕ
sem_post n = if ltb n sem_value_max then n + 1 else n

-- `allocated` says whether `queue_enqueue` gets its node; its error code is ignored.
unfoldable pub produce :
    (unit_count : ℕ) (allocated : Bool) → Producer → State → Option (Producer × State)
produce unit_count allocated claiming_unit s =
    let my_unit = u64 (s.next_unit + 1) in
    if ltb s.next_unit unit_count
    then some (enqueuing my_unit, record s { next_unit = my_unit })
    else some (producer_returned, s)
produce unit_count allocated (enqueuing my_unit) s =
    some (reporting my_unit, if allocated then record s { queue = s.queue ++ my_unit ∷ [] } else s)
produce unit_count allocated (reporting my_unit) s =
    some (posting, record s { produced = s.produced ++ my_unit ∷ [] })
produce unit_count allocated posting s =
    some (claiming_unit, record s { can_consume = sem_post s.can_consume })
produce unit_count allocated producer_returned s = none

-- `sem_wait`
abbrev pub after_wait : ℕ → State → Option (Consumer × State)
after_wait zero s = none
after_wait (suc n) s = some (dequeuing, record s { can_consume = n })

-- `value` stays 0 if the queue is empty.
abbrev pub after_dequeue : List ℕ → State → Consumer × State
after_dequeue [] s = (reporting_consumed 0, s)
after_dequeue (value ∷ rest) s = (reporting_consumed value, record s { queue = rest })

unfoldable pub consume : (unit_count : ℕ) → Consumer → State → Option (Consumer × State)
consume unit_count claiming_product s =
    if ltb s.consumed_count unit_count
    then some (waiting, record s { consumed_count = u64 (s.consumed_count + 1) })
    else some (consumer_returned, s)
consume unit_count waiting s = after_wait s.can_consume s
consume unit_count dequeuing s = some (after_dequeue s.queue s)
consume unit_count (reporting_consumed value) s =
    some (claiming_product, record s { consumed = s.consumed ++ value ∷ [] })
consume unit_count consumer_returned s = none

-- The threads and what they share.
pub record System : Type 0 where
  pub producers : ℕ → Producer
  pub consumers : ℕ → Consumer
  pub state : State

-- The states that the program reaches, in every order of steps, while `queue_enqueue` gets its nodes.
pub data Reachable (unit_count producer_count consumer_count : ℕ) : System → Type 0 where
  start : Reachable unit_count producer_count consumer_count (record {
    producers = λ i. claiming_unit;
    consumers = λ i. claiming_product;
    state = simulation_create;
  })
  produced :
      {x : System} {i : ℕ} {p : Producer} {s : State}
      → Reachable unit_count producer_count consumer_count x
      → i < producer_count
      → produce unit_count true (x.producers i) x.state ≡ some (p, s)
      → Reachable unit_count producer_count consumer_count
          (record x { producers = update x.producers i p; state = s })
  consumed :
      {x : System} {i : ℕ} {c : Consumer} {s : State}
      → Reachable unit_count producer_count consumer_count x
      → i < consumer_count
      → consume unit_count (x.consumers i) x.state ≡ some (c, s)
      → Reachable unit_count producer_count consumer_count
          (record x { consumers = update x.consumers i c; state = s })
