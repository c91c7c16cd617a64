-- ===== src/Tests/SmallQueue.antt =====
-- A queue with two nodes.
use concurrente2025a_evan_ch.Base.{
  ◌≡◌, refl, none, some, List, [], ◌∷◌, ◌++◌, arith, ◌==◌, if◌then◌else◌,
}
use concurrente2025a_evan_ch.Errors.{exit_success}
use concurrente2025a_evan_ch.Queue.{
  Queue, Heap, write, load, queue_enqueue, queue_dequeue, queue_remove_first_unsafe, queue_is_empty,
}
use concurrente2025a_evan_ch.Queue.Chain.{Cell, Represents}
use concurrente2025a_evan_ch.Queue.Enqueue.{queue_enqueue-Represents}
use concurrente2025a_evan_ch.Queue.Dequeue.{queue_dequeue-Represents}

abbrev heap : Heap
heap a =
    if a == 7
    then some (record { value = 1; next = 9 })
    else if a == 9
    then some (record { value = 2; next = 0 })
    else none

abbrev queue : Queue
queue = record { head = 7; tail = 9 }

abbrev two_cells : List Cell
two_cells = (7, 1) ∷ (9, 2) ∷ []

queue-Represents : Represents queue heap two_cells
queue-Represents = record {
  chain = (refl, omega arith, (9, refl, (refl, omega arith, (0, refl, refl))));
  last = refl;
  apart = ((omega arith, tt), (tt, tt));
}

dequeue_runs :
    queue_dequeue (queue, heap)
    ≡ some (exit_success, some 1, record { head = 9; tail = 9 }, write heap 7 none)
unfolding queue_dequeue queue_is_empty queue_remove_first_unsafe load
dequeue_runs = refl

queue_enqueue-Represents_example :
    (q' : Queue) × (h' : Heap) × (queue_enqueue 4 3 (queue, heap) ≡ some (exit_success, q', h'))
    × Represents q' h' (two_cells ++ (4, 3) ∷ [])
queue_enqueue-Represents_example =
    queue_enqueue-Represents queue heap two_cells 4 3 queue-Represents (omega arith) refl

queue_dequeue-Represents_example :
    (q' : Queue) × (queue_dequeue (queue, heap)
      ≡ some (exit_success, some 1, q', write heap 7 none))
    × Represents q' (write heap 7 none) ((9, 2) ∷ [])
    × (write heap 7 none 7 ≡ none)
queue_dequeue-Represents_example =
    queue_dequeue-Represents queue heap 7 1 ((9, 2) ∷ []) queue-Represents
