-- ===== src/Bounded/Steps.antt =====
-- How many steps each thread takes
-- (pthreads/prod_cons_bound/src/prod_cons_bound.c).
use concurrente2025a_evan_ch.Base.{
  ℕ, ◌+◌, ◌*◌, ◌<◌, ◌≡◌, ◌≢◌, ◌⊎◌, inl, inr, refl, Option, none, some, arith, u64, get_elem?, set?,
}
use concurrente2025a_evan_ch.Doubles.{Doubles}
use concurrente2025a_evan_ch.Bounded.{
  Result, fault, access, Producer, entering, waiting_space, producing, printing, posting_item,
  producer_done, Consumer, waiting_item, obtaining, consuming, posting_space, consumer_done, Shared,
  produce, consume,
}
use concurrente2025a_evan_ch.Bounded.Loop.{loop_head-start, loop_head-next, IsConfig}
use concurrente2025a_evan_ch.Bounded.Invariant.{IsProducer, IsConsumer}
use concurrente2025a_evan_ch.Bounded.Counts.{Keeps, Keeps-sem_wait, turn_lt}

Keeps-access :
    {A B : Type 0} (P : B → Type 0) (o : Option A) (next : A → Result B)
    → ((a : A) → Keeps P (next a))
    → access o next ≢ fault
    → Keeps P (access o next)
Keeps-access P none next h safe = safe refl
Keeps-access P (some a) next h safe = h a

-- The steps that a thread has taken.
abbrev pub producer_steps : (rounds capacity : ℕ) → Producer → ℕ
producer_steps rounds capacity entering = 0
producer_steps rounds capacity (waiting_space round index count) =
    4 * (round * capacity + index) + 1
producer_steps rounds capacity (producing round index count) = 4 * (round * capacity + index) + 2
producer_steps rounds capacity (printing round index count) = 4 * (round * capacity + index) + 3
producer_steps rounds capacity (posting_item round index count) = 4 * (round * capacity + index) + 4
producer_steps rounds capacity producer_done = 4 * (rounds * capacity) + 1

abbrev pub consumer_steps : {D : Type 0} → (rounds capacity : ℕ) → Consumer D → ℕ
consumer_steps rounds capacity (waiting_item round index) = 4 * (round * capacity + index)
consumer_steps rounds capacity (obtaining round index) = 4 * (round * capacity + index) + 1
consumer_steps rounds capacity (consuming value round index) = 4 * (round * capacity + index) + 2
consumer_steps rounds capacity (posting_space round index) = 4 * (round * capacity + index) + 3
consumer_steps rounds capacity consumer_done = 4 * (rounds * capacity)

module _ {D : Type 0} (ops : Doubles D) (rounds capacity : ℕ)
    (config : IsConfig rounds capacity) where
  pub produce-steps :
      (p : Producer) (s : Shared D)
      → IsProducer rounds capacity p
      → produce ops capacity rounds p s ≢ fault
      → Keeps
          (λ next. producer_steps rounds capacity next.0 ≡ producer_steps rounds capacity p + 1)
          (produce ops capacity rounds p s)
  unfolding produce
  produce-steps entering s ok safe =
      Keeps-sem_wait _ s.can_produce _
        (λ m e. rw (loop_head-start rounds capacity config) (omega arith))
  produce-steps (waiting_space round index count) s ok safe =
      Keeps-sem_wait _ s.can_produce _ (λ m e. omega arith)
  produce-steps (producing round index count) s ok safe =
      Keeps-access _ (set? s.buffer index (ops.of_u64 (u64 (count + 1)))) _ (λ cells. omega arith)
        safe
  produce-steps (printing round index count) s ok safe =
      Keeps-access _ (get_elem? s.buffer index) _ (λ v. omega arith) safe
  produce-steps (posting_item round index count) s ok safe =
      elim (loop_head-next rounds capacity config round index ok.0.0 ok.0.1) [
        | inl (e, last) ↦ rw e (omega arith)
        | inr (r, i, e, in_rounds, in_buffer, next) ↦ rw e (omega arith)
      ]
  produce-steps producer_done s ok safe = tt

  pub consume-steps :
      (c : Consumer D) (s : Shared D)
      → IsConsumer rounds capacity ops c
      → consume ops capacity rounds c s ≢ fault
      → Keeps
          (λ next. consumer_steps rounds capacity next.0 ≡ consumer_steps rounds capacity c + 1)
          (consume ops capacity rounds c s)
  unfolding consume
  consume-steps (waiting_item round index) s ok safe =
      Keeps-sem_wait _ s.can_consume _ (λ m e. omega arith)
  consume-steps (obtaining round index) s ok safe =
      Keeps-access _ (get_elem? s.buffer index) _ (λ v. omega arith) safe
  consume-steps (consuming value round index) s ok safe = omega arith
  consume-steps (posting_space round index) s ok safe =
      elim (loop_head-next rounds capacity config round index ok.0 ok.1) [
        | inl (e, last) ↦ rw e (omega arith)
        | inr (r, i, e, in_rounds, in_buffer, next) ↦ rw e (omega arith)
      ]
  consume-steps consumer_done s ok safe = tt

  -- A thread that has taken all its steps has returned.
  pub producer_last :
      (p : Producer)
      → IsProducer rounds capacity p
      → (producer_steps rounds capacity p < 4 * (rounds * capacity) + 1) ⊎ (p ≡ producer_done)
  producer_last entering ok = inl (omega arith)
  producer_last (waiting_space round index count) ok =
      inl (omega (arith, turn_lt rounds capacity round index ok.0.0 ok.0.1))
  producer_last (producing round index count) ok =
      inl (omega (arith, turn_lt rounds capacity round index ok.0.0 ok.0.1))
  producer_last (printing round index count) ok =
      inl (omega (arith, turn_lt rounds capacity round index ok.0.0 ok.0.1))
  producer_last (posting_item round index count) ok =
      inl (omega (arith, turn_lt rounds capacity round index ok.0.0 ok.0.1))
  producer_last producer_done ok = inr refl

  pub consumer_last :
      (c : Consumer D)
      → IsConsumer rounds capacity ops c
      → (consumer_steps rounds capacity c < 4 * (rounds * capacity)) ⊎ (c ≡ consumer_done)
  consumer_last (waiting_item round index) ok =
      inl (omega (arith, turn_lt rounds capacity round index ok.0 ok.1))
  consumer_last (obtaining round index) ok =
      inl (omega (arith, turn_lt rounds capacity round index ok.0 ok.1))
  consumer_last (consuming value round index) ok =
      inl (omega (arith, turn_lt rounds capacity round index ok.0.0 ok.0.1))
  consumer_last (posting_space round index) ok =
      inl (omega (arith, turn_lt rounds capacity round index ok.0 ok.1))
  consumer_last consumer_done ok = inr refl
