-- ===== src/Bounded/Preserve.antt =====
-- Every reachable state has the invariant, and no step leaves the buffer
-- (pthreads/prod_cons_bound/src/prod_cons_bound.c).
use concurrente2025a_evan_ch.Base.{ℕ, refl, ap, arith, length-replicate}
use concurrente2025a_evan_ch.Doubles.{Doubles}
use concurrente2025a_evan_ch.Bounded.{
  consumer_at, init_shared, Reachable, start, produced, consumed, Producer, entering, Consumer,
  Shared,
}
use concurrente2025a_evan_ch.Bounded.Loop.{loop_head, IsConfig, loop_head-start}
use concurrente2025a_evan_ch.Bounded.Invariant.{items, Invariant}
use concurrente2025a_evan_ch.Bounded.Produce.{produce-Keeps}
use concurrente2025a_evan_ch.Bounded.Consume.{consume-Keeps}

module _ {D : Type 0} (ops : Doubles D) (rounds capacity : ℕ)
    (config : IsConfig rounds capacity) where
  open config use {some_rounds, some_capacity, capacity_small, total_small}

  abbrev Inv : Producer → Consumer D → Shared D → Type 0
  Inv = Invariant rounds capacity ops

  pub start-Invariant :
      Inv entering (consumer_at (loop_head rounds capacity 0 0)) (init_shared ops capacity)
  unfolding init_shared
  start-Invariant = rw (loop_head-start rounds capacity config) (record {
    space = omega arith;
    available = omega arith;
    producer = tt;
    consumer = (some_rounds, some_capacity);
    size = length-replicate capacity ops.zero_bits;
    content = λ r i h low high. absurd (omega arith);
    printed_items = refl;
    shown_items = ap (items ops) {x = 0} (omega arith);
  })

  pub Reachable-Invariant :
      {p : Producer} {c : Consumer D} {s : Shared D}
      → Reachable ops capacity rounds p c s
      → Inv p c s
  Reachable-Invariant start = start-Invariant
  Reachable-Invariant (produced {p} {p'} {c} {s} {s'} r e) =
      rw e at (produce-Keeps ops rounds capacity config p c s (Reachable-Invariant r))
  Reachable-Invariant (consumed {p} {c} {c'} {s} {s'} r e) =
      rw e at (consume-Keeps ops rounds capacity config p c s (Reachable-Invariant r))
