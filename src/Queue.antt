-- ===== src/Queue.antt =====
-- pthreads/prod_cons_unbound/src/queue.c: a queue as a list of nodes on the heap. Each operation holds
-- the queue's mutex while it runs, so it is one step. `none` as a result is an access through a
-- pointer to no node.
pub mod Chain
pub mod Enqueue
pub mod Dequeue
use concurrente2025a_evan_ch.Base.{
  ℕ, zero, suc, ◌≡◌, Bool, true, false, not, Option, none, some, List, [], ◌∷◌, ◌==◌, if◌then◌else◌,
  ◌>>=◌,
}
use concurrente2025a_evan_ch.Errors.{exit_success, exit_failure}

-- An address; 0 is the null pointer.
abbrev pub Pointer : Type 0
Pointer = ℕ

-- `queue_node_t`; `value` is its field `data`.
pub record Node : Type 0 where
  pub value : ℕ
  pub next : Pointer

-- `queue_t` less its mutex
pub record Queue : Type 0 where
  pub head : Pointer
  pub tail : Pointer

abbrev pub Heap : Type 0
Heap = Pointer → Option Node

unfoldable pub write : Heap → Pointer → Option Node → Heap
write h p c a = if a == p then c else h a

-- `*p`
unfoldable pub load : Heap → Pointer → Option Node
load h p = if p == 0 then none else h p

unfoldable pub queue_init : Queue
queue_init = record { head = 0; tail = 0 }

unfoldable pub queue_is_empty : Queue → Bool
queue_is_empty queue = queue.head == 0

-- `new_node` is what `calloc` returns. The error code, the queue and the heap.
unfoldable pub queue_enqueue :
    (new_node : Pointer) (value : ℕ) → Queue × Heap → Option (ℕ × Queue × Heap)
queue_enqueue new_node value (queue, h) =
    if new_node == 0
    then some (exit_failure, queue, h)
    else let h' = write h new_node (some (record { value = value; next = 0 })) in
      if queue.tail == 0
      then some (exit_success, record { head = new_node; tail = new_node }, h')
      else do
        last ← load h' queue.tail
        some (
          exit_success,
          record queue { tail = new_node },
          write h' queue.tail (some (record last { next = new_node })),
        )

unfoldable pub queue_remove_first_unsafe : Queue × Heap → Option (Queue × Heap)
queue_remove_first_unsafe (queue, h) = do
  node ← load h queue.head
  let h' = write h queue.head none
  some (record { head = node.next; tail = if node.next == 0 then 0 else queue.tail }, h')

-- The error code, the data that is copied out, the queue and the heap.
unfoldable pub queue_dequeue : Queue × Heap → Option (ℕ × Option ℕ × Queue × Heap)
queue_dequeue (queue, h) = if queue_is_empty queue then some (exit_failure, none, queue, h) else do
  node ← load h queue.head
  (queue', h') ← queue_remove_first_unsafe (queue, h)
  some (exit_success, some node.value, queue', h')

-- What `queue_clear` comes to: `unfinished` is a loop that has used up its fuel.
pub data Cleared : Type 0 where
  cleared : Queue → Heap → Cleared
  unfinished : Cleared

unfoldable pub queue_clear : (fuel : ℕ) → Queue × Heap → Option Cleared
queue_clear zero (queue, h) = some (if queue_is_empty queue then cleared queue h else unfinished)
queue_clear (suc fuel) (queue, h) =
    let rest = queue_remove_first_unsafe (queue, h) >>= λ x. queue_clear fuel x in
    if queue_is_empty queue then some (cleared queue h) else rest
