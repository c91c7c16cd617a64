-- ===== src/Queue/Enqueue.antt =====
-- `queue_enqueue` puts an element at the end (pthreads/prod_cons_unbound/src/queue.c).
use concurrente2025a_evan_ch.Base.{
  ℕ, ◌≡◌, ◌≢◌, refl, sym, ◌∙◌, none, some, List, [], ◌∷◌, ◌++◌, All-append,
}
use concurrente2025a_evan_ch.Errors.{exit_success}
use concurrente2025a_evan_ch.Queue.{Pointer, Node, Queue, Heap, write, load, queue_enqueue}
use concurrente2025a_evan_ch.Queue.Chain.{
  Cell, Chain, Avoids, AllApart, last_pointer, Represents, ==_false, write_same, write_other,
  Chain-write,
}

-- An address without a node is none of a chain's.
fresh-Avoids :
    (h : Heap) (p a : Pointer) (cells : List Cell) → h a ≡ none → Chain h p cells → Avoids a cells
fresh-Avoids h p a [] e chain = tt
fresh-Avoids h p a ((b, v) ∷ cells) e (is, real, (next, here, rest)) =
    (λ (q : a ≡ b). let e' = rw q at e in absurd (cc), fresh-Avoids h next a cells e rest)

last_pointer-Avoids :
    (a b : Pointer) (v : ℕ) (cells : List Cell)
    → Avoids a ((b, v) ∷ cells)
    → a ≢ last_pointer b cells
last_pointer-Avoids a b v [] out = out.0
last_pointer-Avoids a b v ((c, w) ∷ cells) out = last_pointer-Avoids a c w cells out.1

last_pointer-append :
    (p : Pointer) (cells : List Cell) (cell : Cell) → last_pointer p (cells ++ cell ∷ []) ≡ cell.0
last_pointer-append p [] cell = refl
last_pointer-append p ((a, v) ∷ cells) cell = last_pointer-append a cells cell

append-AllApart :
    (cells : List Cell) (cell : Cell)
    → Avoids cell.0 cells
    → AllApart cells
    → AllApart (cells ++ cell ∷ [])
append-AllApart [] cell out apart = (tt, tt)
append-AllApart ((a, v) ∷ cells) cell out apart = (
  All-append (λ (c : Cell). a ≢ c.0) cells (cell ∷ []) apart.0 (λ e. out.0 (sym e), tt),
  append-AllApart cells cell out.1 apart.1,
)

-- The last node of a chain is there, and linked to a new one it makes the chain longer.
record Linked (h : Heap) (p t new_node : Pointer) (cells : List Cell) : Type 0 where
  node : Node
  there : h t ≡ some node
  real : t ≢ 0
  longer : Chain (write h t (some (record node { next = new_node }))) p cells

append-Linked :
    (h : Heap) (p new_node a : Pointer) (v value : ℕ) (cells : List Cell)
    → new_node ≢ 0
    → h new_node ≡ some (record { value = value; next = 0 })
    → Avoids new_node ((a, v) ∷ cells)
    → AllApart ((a, v) ∷ cells)
    → Chain h p ((a, v) ∷ cells)
    → Linked h p (last_pointer a cells) new_node (((a, v) ∷ cells) ++ (new_node, value) ∷ [])
append-Linked h p new_node a v value [] some_node e out apart (is, real, (next, here, end)) =
    record {
      node = record { value = v; next = next };
      there = here;
      real = real;
      longer = (
        is,
        real,
        (
          new_node,
          write_same h a _,
          (refl, some_node, (0, write_other h a new_node _ out.0 ∙ e, refl)),
        ),
      );
    }
append-Linked h p new_node a v value ((b, w) ∷ cells) some_node e out apart
      (is, real, (next, here, rest)) =
    let linked = append-Linked h next new_node b w value cells some_node e out.1 apart.1 rest in
    record {
      node = linked.node;
      there = linked.there;
      real = linked.real;
      longer = (
        is,
        real,
        (
          next,
          write_other h (last_pointer b cells) a _ (last_pointer-Avoids a b w cells apart.0) ∙ here,
          linked.longer,
        ),
      );
    }

pub load_lem :
    (h : Heap) (p : Pointer) {node : Node} → p ≢ 0 → h p ≡ some node → load h p ≡ some node
unfolding load
load_lem h p e f = rw (==_false p 0 e, f)

-- For a queue that holds the cells, and a new node at an address that is neither null nor in use:
-- `queue_enqueue` succeeds, and the queue holds the cells and the new one at their end.
pub queue_enqueue-Represents :
    (q : Queue) (h : Heap) (cells : List Cell) (new_node : Pointer) (value : ℕ)
    → Represents q h cells
    → new_node ≢ 0
    → h new_node ≡ none
    → (q' : Queue) × (h' : Heap) × (queue_enqueue new_node value (q, h)
        ≡ some (exit_success, q', h'))
      × Represents q' h' (cells ++ (new_node, value) ∷ [])
unfolding queue_enqueue
queue_enqueue-Represents q h [] new_node value rep some_node fresh = (
  record { head = new_node; tail = new_node },
  write h new_node (some (record { value = value; next = 0 })),
  rw (==_false new_node 0 some_node, rep.last),
  record {
    chain = (refl, some_node, (0, write_same h new_node _, refl));
    last = refl;
    apart = (tt, tt);
  },
)
queue_enqueue-Represents q h ((a, v) ∷ cells) new_node value rep some_node fresh =
    let made = write h new_node (some (record { value = value; next = 0 })) in
    let out = fresh-Avoids h q.head new_node ((a, v) ∷ cells) fresh rep.chain in
    let linked =
      append-Linked made q.head new_node a v value cells some_node (write_same h new_node _) out
        rep.apart (Chain-write h q.head new_node _ ((a, v) ∷ cells) out rep.chain) in
    (
      record q { tail = new_node },
      write made (last_pointer a cells) (some (record linked.node { next = new_node })),
      rw (
        ==_false new_node 0 some_node,
        rep.last,
        ==_false (last_pointer a cells) 0 linked.real,
        load_lem made (last_pointer a cells) linked.real linked.there,
      ),
      record {
        chain = linked.longer;
        last = sym (last_pointer-append 0 ((a, v) ∷ cells) (new_node, value));
        apart = append-AllApart ((a, v) ∷ cells) (new_node, value) out rep.apart;
      },
    )
