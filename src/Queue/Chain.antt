-- ===== src/Queue/Chain.antt =====
-- When the nodes of a queue hold a list (pthreads/prod_cons_unbound/src/queue.c).
use concurrente2025a_evan_ch.Base.{
  ℕ, ◌≡◌, ◌≢◌, refl, sym, ◌∙◌, false, Option, some, List, [], ◌∷◌, arith, ◌==◌, ==_refl, All,
}
use concurrente2025a_evan_ch.Queue.{Pointer, Node, Queue, Heap, write, queue_init, queue_is_empty}

-- An address and the data of the node there.
abbrev pub Cell : Type 0
Cell = Pointer × ℕ

-- The nodes from `p` on are the cells, the last one without a successor.
abbrev pub Chain : Heap → Pointer → List Cell → Type 0
Chain h p [] = p ≡ 0
Chain h p ((a, v) ∷ cells) =
    (p ≡ a)
    × (a ≢ 0)
    × ((next : Pointer) × (h a ≡ some (record { value = v; next = next })) × Chain h next cells)

abbrev pub Avoids : Pointer → List Cell → Type 0
Avoids a = All (λ (cell : Cell). a ≢ cell.0)

abbrev pub AllApart : List Cell → Type 0
AllApart [] = Unit
AllApart (cell ∷ cells) = Avoids cell.0 cells × AllApart cells

abbrev pub last_pointer : Pointer → List Cell → Pointer
last_pointer p [] = p
last_pointer p ((a, v) ∷ cells) = last_pointer a cells

-- The queue holds the cells, from the oldest to the newest.
pub record Represents (q : Queue) (h : Heap) (cells : List Cell) : Type 0 where
  pub chain : Chain h q.head cells
  pub last : q.tail ≡ last_pointer 0 cells
  pub apart : AllApart cells

pub ==_false : (a b : ℕ) → a ≢ b → (a == b) ≡ false
==_false a b h = ground arith

pub write_same : (h : Heap) (p : Pointer) (c : Option Node) → write h p c p ≡ c
unfolding write
write_same h p c = rw (==_refl p)

pub write_other : (h : Heap) (p a : Pointer) (c : Option Node) → a ≢ p → write h p c a ≡ h a
unfolding write
write_other h p a c e = rw (==_false a p e)

-- A write elsewhere leaves a chain as it is.
pub Chain-write :
    (h : Heap) (p a : Pointer) (c : Option Node) (cells : List Cell)
    → Avoids a cells
    → Chain h p cells
    → Chain (write h a c) p cells
Chain-write h p a c [] out chain = chain
Chain-write h p a c ((b, v) ∷ cells) out (is, real, (next, here, rest)) = (
  is,
  real,
  (next, write_other h a b c (λ e. out.0 (sym e)) ∙ here, Chain-write h next a c cells out.1 rest),
)

pub queue_init-Represents : (h : Heap) → Represents queue_init h []
unfolding queue_init
queue_init-Represents h = record { chain = refl; last = refl; apart = tt }

pub queue_is_empty_lem :
    (q : Queue) (h : Heap) (cell : Cell) (cells : List Cell)
    → Represents q h (cell ∷ cells)
    → queue_is_empty q ≡ false
unfolding queue_is_empty
queue_is_empty_lem q h (a, v) cells rep = ==_false q.head 0 (λ e. rep.chain.1 (sym rep.chain.0 ∙ e))
