-- ===== src/Tests/SmallBuffer.antt =====
-- The bounded buffer with two slots and with one.
use concurrente2025a_evan_ch.Base.{
  ℕ, ◌+◌, ◌*◌, ◌≤◌, ◌≡◌, ◌≢◌, ◌⊎◌, refl, true, List, [], ◌∷◌, arith, replicate,
}
use concurrente2025a_evan_ch.Base.Int.{ℤ}
use concurrente2025a_evan_ch.Bounded.{
  blocked, fault, entering, waiting_space, posting_item, producer_done, Consumer, waiting_item,
  consumer_done, Shared, produce, consume, Reachable, start, produced, consumer_at, init_shared,
}
use concurrente2025a_evan_ch.Bounded.Loop.{loop_head, IsConfig}
use concurrente2025a_evan_ch.Bounded.Invariant.{items}
use concurrente2025a_evan_ch.Bounded.Order.{Reachable-order, Reachable-safe}
use concurrente2025a_evan_ch.Bounded.Progress.{Moves, Reachable-progress}
use concurrente2025a_evan_ch.Bounded.Run.{run, run-items}
use concurrente2025a_evan_ch.Bounded.Stuck.{Reachable-blocked}
use concurrente2025a_evan_ch.Tests.Fixed.{quarters}

config : IsConfig 1 2
config = record {
  some_rounds = omega arith;
  some_capacity = omega arith;
  capacity_small = omega arith;
  rounds_small = omega arith;
  total_small = omega arith;
}

one_slot : IsConfig 3 1
one_slot = record {
  some_rounds = omega arith;
  some_capacity = omega arith;
  capacity_small = omega arith;
  rounds_small = omega arith;
  total_small = omega arith;
}

abbrev shared : ℕ → ℕ → List ℤ → List ℤ → Shared ℤ
shared spaces available cells printed = record {
  buffer = cells;
  can_produce = spaces;
  can_consume = available;
  produced = printed;
  consumed = [];
}

-- One item is in the buffer and not yet posted.
abbrev one_item : Shared ℤ
one_item = shared 0 0 (quarters.of_u64 1 ∷ quarters.of_u64 0 ∷ []) (quarters.of_u64 1 ∷ [])

abbrev nothing : Shared ℤ
nothing = shared 0 0 (quarters.of_u64 0 ∷ []) []

abbrev first_wait : Consumer ℤ
first_wait = waiting_item 0 0

after_four : Reachable quarters 2 1 (posting_item 0 0 1) (waiting_item 0 0) one_item
unfolding init_shared produce loop_head
after_four = produced (produced (produced (produced start refl) refl) refl) refl

waiting : Reachable quarters 1 3 (waiting_space 0 0 0) (waiting_item 0 0) nothing
unfolding init_shared produce loop_head
waiting = produced start refl

Reachable-order_example :
    (m : ℕ) × (n : ℕ) × (one_item.consumed ≡ items quarters m)
    × (one_item.produced ≡ items quarters n)
    × (m ≤ n)
    × (n + 1 ≤ m + 2)
    × (n ≤ 1 * 2)
Reachable-order_example = Reachable-order quarters 1 2 config after_four

Reachable-safe_example :
    (produce quarters 2 1 (posting_item 0 0 1) one_item ≢ fault)
    × (consume quarters 2 1 (waiting_item 0 0) one_item ≢ fault)
Reachable-safe_example = Reachable-safe quarters 1 2 config after_four

Reachable-progress_example :
    ((posting_item 0 0 1 ≡ producer_done) × (first_wait ≡ consumer_done))
    ⊎ (Moves (produce quarters 2 1 (posting_item 0 0 1) one_item)
        ⊎ Moves (consume quarters 2 1 (waiting_item 0 0) one_item))
Reachable-progress_example = Reachable-progress quarters 1 2 config (omega arith) after_four

run-items_example :
    (s : Shared ℤ) × (run quarters 1 2
        (replicate 17 true)
        (entering, consumer_at (loop_head 1 2 0 0), init_shared quarters 2)
      ≡ (producer_done, consumer_done, s))
    × (s.produced ≡ items quarters (1 * 2))
    × (s.consumed ≡ items quarters (1 * 2))
run-items_example = run-items quarters 1 2 config (replicate 17 true) (omega arith) (omega arith)

Reachable-blocked_example :
    (consume quarters 1 3 (waiting_item 0 0) nothing ≡ blocked)
    × (nothing.produced ≡ [])
    × (nothing.consumed ≡ [])
    × ((waiting_space 0 0 0 ≡ entering)
        ⊎ (produce quarters 1 3 (waiting_space 0 0 0) nothing ≡ blocked))
Reachable-blocked_example = Reachable-blocked quarters 3 one_slot waiting
