-- ===== src/Unbounded/Progress.antt =====
-- The threads of pthreads/prod_cons_unbound do not block each other for ever.
use concurrente2025a_evan_ch.Base.{
  ℕ, zero, suc, ◌^◌, ◌<◌, ◌≡◌, ◌⊎◌, refl, ap, Bool, true, false, some, arith, ltb, if◌then◌else◌,
  inl, inr,
}
use concurrente2025a_evan_ch.Unbounded.{
  Producer, claiming_unit, enqueuing, reporting, posting, producer_returned, Consumer,
  claiming_product, waiting, dequeuing, reporting_consumed, consumer_returned, State, produce,
  consume, after_wait, System, Reachable,
}
use concurrente2025a_evan_ch.Base.Families.{Moves, search_bool, total_none, total_ge}
use concurrente2025a_evan_ch.Unbounded.Invariant.{
  in_hand, unposted, carrying, admitted, claimed, Invariant,
}
use concurrente2025a_evan_ch.Unbounded.Consume.{Reachable-Invariant}

-- A producer that has not returned, a consumer that waits, and one that does neither.
abbrev works : Producer → Bool
works claiming_unit = true
works (enqueuing u) = true
works (reporting u) = true
works posting = true
works producer_returned = false

abbrev waits : Consumer → Bool
waits claiming_product = false
waits waiting = true
waits dequeuing = false
waits (reporting_consumed v) = false
waits consumer_returned = false

abbrev runs : Consumer → Bool
runs claiming_product = true
runs waiting = false
runs dequeuing = true
runs (reporting_consumed v) = true
runs consumer_returned = false

if-Moves : {A : Type 0} (b : Bool) (x y : A) → Moves (if b then some x else some y)
if-Moves true x y = (x, refl)
if-Moves false x y = (y, refl)

after_wait-Moves : (n : ℕ) (s : State) → 0 < n → Moves (after_wait n s)
after_wait-Moves zero s h = absurd (omega arith)
after_wait-Moves (suc n) s h = (_, refl)

works-Moves :
    (unit_count : ℕ) (p : Producer) (s : State)
    → works p ≡ true
    → Moves (produce unit_count true p s)
unfolding produce
works-Moves unit_count claiming_unit s e = if-Moves (ltb s.next_unit unit_count) _ _
works-Moves unit_count (enqueuing u) s e = (_, refl)
works-Moves unit_count (reporting u) s e = (_, refl)
works-Moves unit_count posting s e = (_, refl)
works-Moves unit_count producer_returned s e = absurd (cc)

runs-Moves :
    (unit_count : ℕ) (c : Consumer) (s : State) → runs c ≡ true → Moves (consume unit_count c s)
unfolding consume
runs-Moves unit_count claiming_product s e = if-Moves (ltb s.consumed_count unit_count) _ _
runs-Moves unit_count waiting s e = absurd (cc)
runs-Moves unit_count dequeuing s e = (_, refl)
runs-Moves unit_count (reporting_consumed v) s e = (_, refl)
runs-Moves unit_count consumer_returned s e = absurd (cc)

waits-Moves :
    (unit_count : ℕ) (c : Consumer) (s : State)
    → waits c ≡ true
    → 0 < s.can_consume
    → Moves (consume unit_count c s)
unfolding consume
waits-Moves unit_count claiming_product s e h = absurd (cc)
waits-Moves unit_count waiting s e h = after_wait-Moves s.can_consume s h
waits-Moves unit_count dequeuing s e h = absurd (cc)
waits-Moves unit_count (reporting_consumed v) s e h = absurd (cc)
waits-Moves unit_count consumer_returned s e h = absurd (cc)

returned_of : (p : Producer) → works p ≡ false → p ≡ producer_returned
returned_of claiming_unit e = absurd (cc)
returned_of (enqueuing u) e = absurd (cc)
returned_of (reporting u) e = absurd (cc)
returned_of posting e = absurd (cc)
returned_of producer_returned e = refl

consumer_returned_of : (c : Consumer) → runs c ≡ false → waits c ≡ false → c ≡ consumer_returned
consumer_returned_of claiming_product e f = absurd (cc)
consumer_returned_of waiting e f = absurd (cc)
consumer_returned_of dequeuing e f = absurd (cc)
consumer_returned_of (reporting_consumed v) e f = absurd (cc)
consumer_returned_of consumer_returned e f = refl

-- What a consumer that does not run weighs.
idle_weights : (c : Consumer) → runs c ≡ false → (admitted c ≡ 0) × (carrying c ≡ 0)
idle_weights claiming_product e = absurd (cc)
idle_weights waiting e = (refl, refl)
idle_weights dequeuing e = absurd (cc)
idle_weights (reporting_consumed v) e = absurd (cc)
idle_weights consumer_returned e = (refl, refl)

waits-claimed : (c : Consumer) → waits c ≡ true → claimed c ≡ 1
waits-claimed claiming_product e = absurd (cc)
waits-claimed waiting e = refl
waits-claimed dequeuing e = absurd (cc)
waits-claimed (reporting_consumed v) e = absurd (cc)
waits-claimed consumer_returned e = absurd (cc)

module _ (unit_count producer_count consumer_count : ℕ) (small : unit_count < 2 ^ 31) where
  -- When all producers have returned and no consumer runs, one that waits has something to wait for.
  semaphore_open :
      (x : System) (i : ℕ)
      → Invariant unit_count producer_count consumer_count x
      → 0 < producer_count
      → i < consumer_count
      → waits (x.consumers i) ≡ true
      → ((j : ℕ) → j < producer_count → x.producers j ≡ producer_returned)
      → ((j : ℕ) → j < consumer_count → runs (x.consumers j) ≡ false)
      → 0 < x.state.can_consume
  semaphore_open x i inv some_producers h e done idle = omega (
    arith,
    inv.exact small,
    inv.units,
    inv.claims,
    inv.consumed_bound,
    total_ge claimed consumer_count i x.consumers h,
    waits-claimed (x.consumers i) e,
    total_none admitted consumer_count x.consumers
        (λ j k. (idle_weights (x.consumers j) (idle j k)).0),
    total_none carrying consumer_count x.consumers
        (λ j k. (idle_weights (x.consumers j) (idle j k)).1),
    total_none unposted producer_count x.producers (λ j k. ap unposted (done j k)),
    total_none in_hand producer_count x.producers (λ j k. ap in_hand (done j k)),
    inv.producers_end 0 (done 0 some_producers),
  )

  -- While `queue_enqueue` gets its nodes, fewer than 2 ^ 31 units are asked for, which is what the semaphore
  -- can count, and there is a producer: in every reachable state either all threads have returned, or one can take its next step.
  pub Reachable-Moves :
      {x : System}
      → Reachable unit_count producer_count consumer_count x
      → 0 < producer_count
      → (((i : ℕ) → i < producer_count → x.producers i ≡ producer_returned)
          × ((i : ℕ) → i < consumer_count → x.consumers i ≡ consumer_returned))
        ⊎ (((i : ℕ) × (i < producer_count)
              × Moves (produce unit_count true (x.producers i) x.state))
            ⊎ ((i : ℕ) × (i < consumer_count) × Moves (consume unit_count (x.consumers i) x.state)))
  Reachable-Moves {x} r some_producers =
      elim (search_bool (λ i. works (x.producers i)) producer_count) [
        | inl (i, h, e) ↦ inr (inl (i, h, works-Moves unit_count (x.producers i) x.state e))
        | inr done ↦ elim (search_bool (λ i. runs (x.consumers i)) consumer_count) [
          | inl (i, h, e) ↦ inr (inr (i, h, runs-Moves unit_count (x.consumers i) x.state e))
          | inr idle ↦ elim (search_bool (λ i. waits (x.consumers i)) consumer_count) [
            | inl (i, h, e) ↦ inr (
                inr (
                  i,
                  h,
                  waits-Moves unit_count (x.consumers i) x.state e (
                      semaphore_open x i
                        (Reachable-Invariant unit_count producer_count consumer_count (omega arith)
                          r)
                        some_producers h e (λ j k. returned_of (x.producers j) (done j k)) idle),
                ))
            | inr none_waits ↦ inl (
              λ i h. returned_of (x.producers i) (done i h),
              λ i h. consumer_returned_of (x.consumers i) (idle i h) (none_waits i h),
            )
          ]
        ]
      ]
