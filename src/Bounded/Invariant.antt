-- ===== src/Bounded/Invariant.antt =====
-- How many items each thread has dealt with, by where it is, and what holds of the shared state
-- (pthreads/prod_cons_bound/src/prod_cons_bound.c).
use concurrente2025a_evan_ch.Base.{
  ℕ, ◌+◌, ◌*◌, ◌≤◌, ◌<◌, ◌≡◌, refl, sym, ap, ◌∙◌, List, [], ◌∷◌, ◌++◌, arith, length, get_or,
  count_up, count_up-append, map,
}
use concurrente2025a_evan_ch.Doubles.{Doubles}
use concurrente2025a_evan_ch.Bounded.{
  Producer, entering, waiting_space, producing, printing, posting_item, producer_done, Consumer,
  waiting_item, obtaining, consuming, posting_space, consumer_done, Shared,
}

map-append {ℓ κ} :
    {A : Type ℓ} {B : Type κ} (f : A → B) (xs ys : List A) → map f (xs ++ ys) ≡ map f xs ++ map f ys
map-append f [] ys = refl
map-append f (x ∷ xs) ys = ap (λ zs. f x ∷ zs) (map-append f xs ys)

-- The first `n` items that are produced: 1, 2, …, n.
abbrev pub items : {D : Type 0} → Doubles D → ℕ → List D
items ops n = map ops.of_u64 (count_up n 1)

pub items-suc :
    {D : Type 0} (ops : Doubles D) (n : ℕ)
    → items ops n ++ ops.of_u64 (n + 1) ∷ [] ≡ items ops (n + 1)
items-suc ops n = sym (
    ap (map ops.of_u64) (count_up-append n 1 1 (n + 1) (omega arith))
    ∙ map-append ops.of_u64 (count_up n 1) (count_up 1 (n + 1)))

module _ (rounds capacity : ℕ) where
  -- The calls of `sem_wait` that the producer has come through.
  abbrev pub waits : Producer → ℕ
  waits entering = 0
  waits (waiting_space round index count) = round * capacity + index + 1
  waits (producing round index count) = round * capacity + index + 2
  waits (printing round index count) = round * capacity + index + 2
  waits (posting_item round index count) = round * capacity + index + 2
  waits producer_done = rounds * capacity + 1

  abbrev pub stored : Producer → ℕ
  stored entering = 0
  stored (waiting_space round index count) = round * capacity + index
  stored (producing round index count) = round * capacity + index
  stored (printing round index count) = round * capacity + index + 1
  stored (posting_item round index count) = round * capacity + index + 1
  stored producer_done = rounds * capacity

  abbrev pub printed : Producer → ℕ
  printed entering = 0
  printed (waiting_space round index count) = round * capacity + index
  printed (producing round index count) = round * capacity + index
  printed (printing round index count) = round * capacity + index
  printed (posting_item round index count) = round * capacity + index + 1
  printed producer_done = rounds * capacity

  abbrev pub posted : Producer → ℕ
  posted entering = 0
  posted (waiting_space round index count) = round * capacity + index
  posted (producing round index count) = round * capacity + index
  posted (printing round index count) = round * capacity + index
  posted (posting_item round index count) = round * capacity + index
  posted producer_done = rounds * capacity

  -- The producer's counters are in range, and `count` is the number of items stored.
  abbrev pub IsTurn : (round index : ℕ) → Type 0
  IsTurn round index = (round < rounds) × (index < capacity)

  abbrev pub IsProducer : Producer → Type 0
  IsProducer entering = Unit
  IsProducer (waiting_space round index count) =
      IsTurn round index × (count ≡ round * capacity + index)
  IsProducer (producing round index count) = IsTurn round index × (count ≡ round * capacity + index)
  IsProducer (printing round index count) =
      IsTurn round index × (count ≡ round * capacity + index + 1)
  IsProducer (posting_item round index count) =
      IsTurn round index × (count ≡ round * capacity + index + 1)
  IsProducer producer_done = Unit

module _ {D : Type 0} (rounds capacity : ℕ) where
  -- The items that the consumer has waited for, taken from the buffer, printed, and given back.
  abbrev pub awaited : Consumer D → ℕ
  awaited (waiting_item round index) = round * capacity + index
  awaited (obtaining round index) = round * capacity + index + 1
  awaited (consuming value round index) = round * capacity + index + 1
  awaited (posting_space round index) = round * capacity + index + 1
  awaited consumer_done = rounds * capacity

  abbrev pub taken : Consumer D → ℕ
  taken (waiting_item round index) = round * capacity + index
  taken (obtaining round index) = round * capacity + index
  taken (consuming value round index) = round * capacity + index + 1
  taken (posting_space round index) = round * capacity + index + 1
  taken consumer_done = rounds * capacity

  abbrev pub shown : Consumer D → ℕ
  shown (waiting_item round index) = round * capacity + index
  shown (obtaining round index) = round * capacity + index
  shown (consuming value round index) = round * capacity + index
  shown (posting_space round index) = round * capacity + index + 1
  shown consumer_done = rounds * capacity

  abbrev pub returned : Consumer D → ℕ
  returned (waiting_item round index) = round * capacity + index
  returned (obtaining round index) = round * capacity + index
  returned (consuming value round index) = round * capacity + index
  returned (posting_space round index) = round * capacity + index
  returned consumer_done = rounds * capacity

  abbrev pub IsConsumer : Doubles D → Consumer D → Type 0
  IsConsumer ops (waiting_item round index) = IsTurn rounds capacity round index
  IsConsumer ops (obtaining round index) = IsTurn rounds capacity round index
  IsConsumer ops (consuming value round index) =
      IsTurn rounds capacity round index × (value ≡ ops.of_u64 (round * capacity + index + 1))
  IsConsumer ops (posting_space round index) = IsTurn rounds capacity round index
  IsConsumer ops consumer_done = Unit

  -- The slots of the items that are stored and not taken hold them.
  abbrev pub Holds : Doubles D → (low high : ℕ) → List D → Type 0
  Holds ops low high buffer =
      (round index : ℕ)
      → index < capacity
      → low ≤ round * capacity + index
      → round * capacity + index < high
      → get_or buffer index ops.zero_bits ≡ ops.of_u64 (round * capacity + index + 1)

  pub record Invariant (ops : Doubles D) (p : Producer) (c : Consumer D) (s : Shared D)
      : Type 0 where
    pub space : s.can_produce + waits rounds capacity p ≡ capacity + returned c
    pub available : s.can_consume + awaited c ≡ posted rounds capacity p
    pub producer : IsProducer rounds capacity p
    pub consumer : IsConsumer ops c
    pub size : length s.buffer ≡ capacity
    pub content : Holds ops (taken c) (stored rounds capacity p) s.buffer
    pub printed_items : s.produced ≡ items ops (printed rounds capacity p)
    pub shown_items : s.consumed ≡ items ops (shown c)
