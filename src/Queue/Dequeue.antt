-- ===== src/Queue/Dequeue.antt =====
-- `queue_dequeue` and `queue_clear` take elements from the front
-- (pthreads/prod_cons_unbound/src/queue.c).
use concurrente2025a_evan_ch.Base.{
  ℕ, zero, suc, ◌≤◌, ◌≡◌, sym, ◌∙◌, true, none, some, List, [], ◌∷◌, arith, ◌==◌, if◌then◌else◌,
  length,
}
use concurrente2025a_evan_ch.Errors.{exit_success, exit_failure}
use concurrente2025a_evan_ch.Queue.{
  Pointer, Queue, Heap, write, queue_is_empty, queue_remove_first_unsafe, queue_dequeue,
  queue_clear, cleared,
}
use concurrente2025a_evan_ch.Queue.Chain.{
  Cell, Chain, Represents, ==_false, write_same, Chain-write, queue_is_empty_lem,
}
use concurrente2025a_evan_ch.Queue.Enqueue.{load_lem}

queue_is_empty-none : (q : Queue) (h : Heap) → Represents q h [] → queue_is_empty q ≡ true
unfolding queue_is_empty
queue_is_empty-none q h rep = rw rep.chain

-- The queue without its first cell.
abbrev rest_of : Queue → (next : Pointer) → Queue
rest_of q next = record { head = next; tail = if next == 0 then 0 else q.tail }

rest-Represents :
    (q : Queue) (h : Heap) (a next : Pointer) (v : ℕ) (cells : List Cell)
    → Represents q h ((a, v) ∷ cells)
    → Chain h next cells
    → Represents (rest_of q next) (write h a none) cells
rest-Represents q h a next v [] rep chain = record { chain = chain; last = rw chain; apart = tt }
rest-Represents q h a next v ((b, w) ∷ cells) rep chain = record {
  chain = Chain-write h next a none ((b, w) ∷ cells) rep.apart.0 chain;
  last = rw (==_false next 0 (λ e. chain.1 (sym chain.0 ∙ e))) rep.last;
  apart = rep.apart.1;
}

queue_remove_first_unsafe_lem :
    (q : Queue) (h : Heap) (a : Pointer) (v : ℕ) (cells : List Cell)
    (rep : Represents q h ((a, v) ∷ cells))
    → queue_remove_first_unsafe (q, h) ≡ some (rest_of q rep.chain.2.0, write h a none)
unfolding queue_remove_first_unsafe
queue_remove_first_unsafe_lem q h a v cells rep =
    rw (rep.chain.0, load_lem h a rep.chain.1 rep.chain.2.1)

-- For a queue that holds a cell and then others: `queue_dequeue` succeeds, copies the data of the
-- first cell out, the queue then holds the others, and the first cell's node is freed.
pub queue_dequeue-Represents :
    (q : Queue) (h : Heap) (a : Pointer) (v : ℕ) (cells : List Cell)
    → Represents q h ((a, v) ∷ cells)
    → (q' : Queue) × (queue_dequeue (q, h) ≡ some (exit_success, some v, q', write h a none))
      × Represents q' (write h a none) cells
      × (write h a none a ≡ none)
unfolding queue_dequeue
queue_dequeue-Represents q h a v cells rep = (
  rest_of q rep.chain.2.0,
  rw (
    queue_is_empty_lem q h (a, v) cells rep,
    queue_remove_first_unsafe_lem q h a v cells rep,
    rep.chain.0,
    load_lem h a rep.chain.1 rep.chain.2.1,
  ),
  rest-Represents q h a rep.chain.2.0 v cells rep rep.chain.2.2,
  write_same h a none,
)

pub queue_dequeue-none :
    (q : Queue) (h : Heap)
    → Represents q h []
    → queue_dequeue (q, h) ≡ some (exit_failure, none, q, h)
unfolding queue_dequeue
queue_dequeue-none q h rep = rw (queue_is_empty-none q h rep)

-- As many turns as the queue has cells are enough for `queue_clear`, and at the end it is empty.
pub queue_clear-Represents :
    (cells : List Cell) (fuel : ℕ) (q : Queue) (h : Heap)
    → Represents q h cells
    → length cells ≤ fuel
    → (q' : Queue) × (h' : Heap) × (queue_clear fuel (q, h) ≡ some (cleared q' h'))
      × Represents q' h' []
unfolding queue_clear
queue_clear-Represents [] zero q h rep enough = (q, h, rw (queue_is_empty-none q h rep), rep)
queue_clear-Represents [] (suc fuel) q h rep enough = (q, h, rw (queue_is_empty-none q h rep), rep)
queue_clear-Represents ((a, v) ∷ cells) zero q h rep enough = absurd (omega arith)
queue_clear-Represents ((a, v) ∷ cells) (suc fuel) q h rep enough =
    let (q', h', runs, empty) =
      queue_clear-Represents cells fuel (rest_of q rep.chain.2.0) (write h a none)
        (rest-Represents q h a rep.chain.2.0 v cells rep rep.chain.2.2) (omega arith) in
    (
      q',
      h',
      rw (queue_is_empty_lem q h (a, v) cells rep, queue_remove_first_unsafe_lem q h a v cells rep)
          runs,
      empty,
    )
