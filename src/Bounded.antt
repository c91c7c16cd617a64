-- ===== src/Bounded.antt =====
-- pthreads/prod_cons_bound/src/prod_cons_bound.c: one producer and one consumer share a buffer of
-- fixed capacity that is guarded by two semaphores. A step of a thread is one call of a semaphore or
-- one access of the buffer with the local work around it.
pub mod Loop
pub mod Invariant
pub mod Counts
pub mod Produce
pub mod Consume
pub mod Preserve
pub mod Order
pub mod Progress
pub mod Steps
pub mod Run
pub mod Stuck
use concurrente2025a_evan_ch.Base.{
  ℕ, zero, suc, ◌+◌, ◌%◌, ◌^◌, Option, none, some, List, [], ◌∷◌, ◌++◌, u64, get_elem?, set?,
  replicate, ◌≡◌,
}
use concurrente2025a_evan_ch.Doubles.{Doubles}
use concurrente2025a_evan_ch.Bounded.Loop.{loop_head}

-- What a step comes to: the thread waits at a semaphore or has returned, it leaves the buffer, or
-- it moves on.
pub data Result (A : Type 0) : Type 0 where
  blocked : Result A
  fault : Result A
  moved : A → Result A

abbrev pub sem_wait : {A : Type 0} → ℕ → (ℕ → Result A) → Result A
sem_wait zero next = blocked
sem_wait (suc n) next = next n

abbrev pub access : {A B : Type 0} → Option A → (A → Result B) → Result B
access none next = fault
access (some a) next = next a

-- Where `produce` is: before its first `sem_wait`, before the other one, before the store, before
-- the line that it prints, or before its `sem_post`.
pub data Producer : Type 0 where
  entering : Producer
  waiting_space : (round index count : ℕ) → Producer
  producing : (round index count : ℕ) → Producer
  printing : (round index count : ℕ) → Producer
  posting_item : (round index count : ℕ) → Producer
  producer_done : Producer

-- Where `consume` is.
pub data Consumer (D : Type 0) : Type 0 where
  waiting_item : (round index : ℕ) → Consumer D
  obtaining : (round index : ℕ) → Consumer D
  consuming : (value : D) (round index : ℕ) → Consumer D
  posting_space : (round index : ℕ) → Consumer D
  consumer_done : Consumer D

-- The part of `shared_data_t` that changes, and what each thread has printed.
pub record Shared (D : Type 0) : Type 0 where
  pub buffer : List D
  pub can_produce : ℕ
  pub can_consume : ℕ
  pub produced : List D
  pub consumed : List D

-- `sem_init` takes an `unsigned` initial value; `calloc` clears the buffer.
unfoldable pub init_shared : {D : Type 0} → Doubles D → (buffer_capacity : ℕ) → Shared D
init_shared ops buffer_capacity = record {
  buffer = replicate buffer_capacity ops.zero_bits;
  can_produce = buffer_capacity % 2 ^ 32;
  can_consume = 0;
  produced = [];
  consumed = [];
}

abbrev pub producer_at : (count : ℕ) → Option (ℕ × ℕ) → Producer
producer_at count none = producer_done
producer_at count (some (round, index)) = waiting_space round index count

abbrev pub consumer_at : {D : Type 0} → Option (ℕ × ℕ) → Consumer D
consumer_at none = consumer_done
consumer_at (some (round, index)) = waiting_item round index

module _ {D : Type 0} (ops : Doubles D) (buffer_capacity rounds : ℕ) where
  open ops use {of_u64}

  unfoldable pub produce : Producer → Shared D → Result (Producer × Shared D)
  unfolding loop_head
  produce entering s = sem_wait s.can_produce (λ n.
      moved (producer_at 0 (loop_head rounds buffer_capacity 0 0), record s { can_produce = n }))
  produce (waiting_space round index count) s =
      sem_wait s.can_produce
        (λ n. moved (producing round index count, record s { can_produce = n }))
  produce (producing round index count) s =
      let count' = u64 (count + 1) in
      access (set? s.buffer index (of_u64 count'))
        (λ cells. moved (printing round index count', record s { buffer = cells }))
  produce (printing round index count) s =
      access (get_elem? s.buffer index)
        (λ v. moved (posting_item round index count, record s { produced = s.produced ++ v ∷ [] }))
  produce (posting_item round index count) s = moved (
    producer_at count (loop_head rounds buffer_capacity round (u64 (index + 1))),
    record s { can_consume = s.can_consume + 1 },
  )
  produce producer_done s = blocked

  unfoldable pub consume : Consumer D → Shared D → Result (Consumer D × Shared D)
  unfolding loop_head
  consume (waiting_item round index) s =
      sem_wait s.can_consume (λ n. moved (obtaining round index, record s { can_consume = n }))
  consume (obtaining round index) s =
      access (get_elem? s.buffer index) (λ v. moved (consuming v round index, s))
  consume (consuming value round index) s =
      moved (posting_space round index, record s { consumed = s.consumed ++ value ∷ [] })
  consume (posting_space round index) s = moved (
    consumer_at (loop_head rounds buffer_capacity round (u64 (index + 1))),
    record s { can_produce = s.can_produce + 1 },
  )
  consume consumer_done s = blocked

  -- The states that the two threads reach, in every order of their steps.
  pub data Reachable : Producer → Consumer D → Shared D → Type 0 where
    start :
        Reachable entering
          (consumer_at (loop_head rounds buffer_capacity 0 0))
          (init_shared ops buffer_capacity)
    produced :
        {p p' : Producer} {c : Consumer D} {s s' : Shared D}
        → Reachable p c s
        → produce p s ≡ moved (p', s')
        → Reachable p' c s'
    consumed :
        {p : Producer} {c c' : Consumer D} {s s' : Shared D}
        → Reachable p c s
        → consume c s ≡ moved (c', s')
        → Reachable p c' s'
