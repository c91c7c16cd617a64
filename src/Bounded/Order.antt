-- ===== src/Bounded/Order.antt =====
-- What the two threads print, in every reachable state
-- (pthreads/prod_cons_bound/src/prod_cons_bound.c).
use concurrente2025a_evan_ch.Base.{ℕ, ◌+◌, ◌*◌, ◌≤◌, ◌≡◌, ◌≢◌, arith}
use concurrente2025a_evan_ch.Doubles.{Doubles}
use concurrente2025a_evan_ch.Bounded.{
  fault, Producer, entering, waiting_space, producing, printing, posting_item, producer_done,
  Consumer, waiting_item, obtaining, consuming, posting_space, consumer_done, Shared, produce,
  consume, Reachable,
}
use concurrente2025a_evan_ch.Bounded.Loop.{IsConfig}
use concurrente2025a_evan_ch.Bounded.Invariant.{
  items, printed, shown, waits, posted, awaited, returned, IsProducer,
}
use concurrente2025a_evan_ch.Bounded.Counts.{turn_lt}
use concurrente2025a_evan_ch.Bounded.Produce.{produce-Keeps}
use concurrente2025a_evan_ch.Bounded.Consume.{consume-Keeps}
use concurrente2025a_evan_ch.Bounded.Preserve.{Reachable-Invariant}

module _ {D : Type 0} (ops : Doubles D) (rounds capacity : ℕ)
    (config : IsConfig rounds capacity) where
  open config use {some_capacity}

  printed_bounds :
      (p : Producer) (k : ℕ)
      → IsProducer rounds capacity p
      → waits rounds capacity p ≤ capacity + k
      → (posted rounds capacity p ≤ printed rounds capacity p)
        × (printed rounds capacity p ≤ rounds * capacity)
        × (printed rounds capacity p + 1 ≤ capacity + k)
  printed_bounds entering k ok h = (omega arith, omega arith, omega arith)
  printed_bounds (waiting_space round index count) k ok h =
      (omega arith, omega (arith, turn_lt rounds capacity round index ok.0.0 ok.0.1), omega arith)
  printed_bounds (producing round index count) k ok h =
      (omega arith, omega (arith, turn_lt rounds capacity round index ok.0.0 ok.0.1), omega arith)
  printed_bounds (printing round index count) k ok h =
      (omega arith, omega (arith, turn_lt rounds capacity round index ok.0.0 ok.0.1), omega arith)
  printed_bounds (posting_item round index count) k ok h =
      (omega arith, omega (arith, turn_lt rounds capacity round index ok.0.0 ok.0.1), omega arith)
  printed_bounds producer_done k ok h = (omega arith, omega arith, omega arith)

  shown_bounds :
      (c : Consumer D)
      → (returned rounds capacity c ≤ shown rounds capacity c)
        × (shown rounds capacity c ≤ awaited rounds capacity c)
  shown_bounds (waiting_item round index) = (omega arith, omega arith)
  shown_bounds (obtaining round index) = (omega arith, omega arith)
  shown_bounds (consuming value round index) = (omega arith, omega arith)
  shown_bounds (posting_space round index) = (omega arith, omega arith)
  shown_bounds consumer_done = (omega arith, omega arith)

  -- In every reachable state, of every order of steps: the producer has printed the items 1, 2, …, n
  -- and the consumer the items 1, 2, …, m, for numbers with m ≤ n, with n less than m plus the
  -- capacity, and with n at most the rounds times the capacity. The configuration is one that `main`
  -- accepts, with a capacity that `sem_init` takes and a total below 2 ^ 64.
  pub Reachable-order :
      {p : Producer} {c : Consumer D} {s : Shared D}
      → Reachable ops capacity rounds p c s
      → (m : ℕ) × (n : ℕ) × (s.consumed ≡ items ops m)
        × (s.produced ≡ items ops n)
        × (m ≤ n)
        × (n + 1 ≤ m + capacity)
        × (n ≤ rounds * capacity)
  Reachable-order {p} {c} {s} r =
      let inv = Reachable-Invariant ops rounds capacity config r in
      let (ahead, within, room) =
        printed_bounds p (returned rounds capacity c) inv.producer (omega (arith, inv.space)) in
      let (low, high) = shown_bounds c in
      (
        shown rounds capacity c,
        printed rounds capacity p,
        inv.shown_items,
        inv.printed_items,
        omega (arith, inv.available),
        omega arith,
        within,
      )

  -- In every reachable state neither thread's next step leaves the buffer, for the same
  -- configurations.
  pub Reachable-safe :
      {p : Producer} {c : Consumer D} {s : Shared D}
      → Reachable ops capacity rounds p c s
      → (produce ops capacity rounds p s ≢ fault) × (consume ops capacity rounds c s ≢ fault)
  Reachable-safe {p} {c} {s} r =
      let inv = Reachable-Invariant ops rounds capacity config r in
      (
        λ e. rw e at (produce-Keeps ops rounds capacity config p c s inv),
        λ e. rw e at (consume-Keeps ops rounds capacity config p c s inv),
      )
