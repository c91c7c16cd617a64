-- ===== src/Bounded/Produce.antt =====
-- The steps of `produce` keep the invariant (pthreads/prod_cons_bound/src/prod_cons_bound.c).
use concurrente2025a_evan_ch.Base.{
  ℕ, ◌+◌, ◌*◌, ◌<◌, ◌≡◌, ◌≢◌, refl, sym, ap, ◌∙◌, inl, inr, List, [], ◌∷◌, ◌++◌, arith, length,
  get_elem?-eq-get_or, set, set?-eq-set, length-set, get_or-set_self, get_or-set_ne, u64,
  ℕ_discrete, dec_lt,
}
use concurrente2025a_evan_ch.Doubles.{Doubles}
use concurrente2025a_evan_ch.Bounded.{
  produce, Producer, entering, waiting_space, producing, printing, posting_item, producer_done,
  Consumer, Shared,
}
use concurrente2025a_evan_ch.Bounded.Loop.{
  IsConfig, loop_head-start, loop_head-next, same_slot, same_turn,
}
use concurrente2025a_evan_ch.Bounded.Invariant.{items, items-suc, Holds, Invariant, taken}
use concurrente2025a_evan_ch.Bounded.Counts.{Keeps, Keeps-sem_wait, turn_lt, returned-le, taken-le}

module _ {D : Type 0} (ops : Doubles D) (rounds capacity : ℕ)
    (config : IsConfig rounds capacity) where
  open config use {some_rounds, some_capacity, capacity_small, total_small}

  abbrev Inv : Producer → Consumer D → Shared D → Type 0
  Inv = Invariant rounds capacity ops

  -- The next item goes to a slot that no item occupies.
  stored-Holds :
      (low high round index : ℕ) (buffer : List D)
      → high ≡ round * capacity + index
      → index < capacity
      → high < low + capacity
      → length buffer ≡ capacity
      → Holds rounds capacity ops low high buffer
      → Holds rounds capacity ops low
          (high + 1)
          (set buffer index (ops.of_u64 (round * capacity + index + 1)))
  stored-Holds low high round index buffer e k room size holds r i h above below =
      elim (ℕ_discrete i index) [
        | yes same ↦
            let q : r * capacity + i ≡ round * capacity + i =
              same_slot rounds capacity config r round i (omega arith) (omega arith) in
            rw same (
              get_or-set_self buffer index _ ops.zero_bits (omega arith)
              ∙ ap (λ n. ops.of_u64 (n + 1)) (omega arith))
        | no other ↦
            get_or-set_ne buffer index i _ ops.zero_bits (λ x. other (sym x))
            ∙ holds r i h above (strict r i h below other)
      ]
    where
      strict :
          (r i : ℕ)
          → i < capacity
          → r * capacity + i < high + 1
          → i ≢ index
          → r * capacity + i < high
      strict r i h below other = elim (dec_lt (r * capacity + i) high) [
        | yes less ↦ less
        | no not_less ↦
            absurd (other (same_turn rounds capacity config r round i index h k (omega arith)))
      ]

  pub produce-Keeps :
      (p : Producer) (c : Consumer D) (s : Shared D)
      → Inv p c s
      → Keeps (λ next. Inv next.0 c next.1) (produce ops capacity rounds p s)
  unfolding produce
  produce-Keeps entering c s inv = Keeps-sem_wait _ s.can_produce _ (λ m e.
      let space = inv.space in
      let available = inv.available in
      rw (loop_head-start rounds capacity config) (record {
        space = omega arith;
        available = omega arith;
        producer = ((some_rounds, some_capacity), omega arith);
        consumer = inv.consumer;
        size = inv.size;
        content = λ r i h low high. absurd (omega arith);
        printed_items = inv.printed_items ∙ ap (items ops) {x = 0} (omega arith);
        shown_items = inv.shown_items;
      }))
  produce-Keeps (waiting_space round index count) c s inv = Keeps-sem_wait _ s.can_produce _ (λ m e.
      let space = inv.space in
      record {
        space = omega arith;
        available = inv.available;
        producer = inv.producer;
        consumer = inv.consumer;
        size = inv.size;
        content = inv.content;
        printed_items = inv.printed_items;
        shown_items = inv.shown_items;
      })
  produce-Keeps (producing round index count) c s inv =
      let ((in_rounds, in_buffer), counted) = inv.producer in
      let counts : u64 (count + 1) ≡ round * capacity + index + 1 =
        omega (arith, turn_lt rounds capacity round index in_rounds in_buffer, total_small) in
      let size = inv.size in
      rw
        (
          counts,
          set?-eq-set s.buffer index (ops.of_u64 (round * capacity + index + 1)) (omega arith),
        )
        (record {
          space = inv.space;
          available = inv.available;
          producer = ((in_rounds, in_buffer), refl);
          consumer = inv.consumer;
          size = length-set s.buffer index _ ∙ size;
          content =
              stored-Holds (taken rounds capacity c) (round * capacity + index) round index s.buffer
                refl in_buffer (omega (arith, inv.space, returned-le rounds capacity c)) size
                inv.content;
          printed_items = inv.printed_items;
          shown_items = inv.shown_items;
        })
  produce-Keeps (printing round index count) c s inv =
      let ((in_rounds, in_buffer), counted) = inv.producer in
      let size = inv.size in
      let here =
        inv.content round index in_buffer (omega (arith, inv.available, taken-le rounds capacity c))
          (omega arith) in
      rw (get_elem?-eq-get_or s.buffer index ops.zero_bits (omega arith), here)
        (record {
          space = inv.space;
          available = inv.available;
          producer = ((in_rounds, in_buffer), counted);
          consumer = inv.consumer;
          size = size;
          content = inv.content;
          printed_items =
              ap (λ xs. xs ++ ops.of_u64 (round * capacity + index + 1) ∷ []) inv.printed_items
              ∙ items-suc ops (round * capacity + index);
          shown_items = inv.shown_items;
        })
  produce-Keeps (posting_item round index count) c s inv =
      let ((in_rounds, in_buffer), counted) = inv.producer in
      let space = inv.space in
      let available = inv.available in
      elim (loop_head-next rounds capacity config round index in_rounds in_buffer) [
        | inl (e, last) ↦ rw e (record {
          space = omega arith;
          available = omega arith;
          producer = tt;
          consumer = inv.consumer;
          size = inv.size;
          content = λ r i h low high. inv.content r i h low (omega arith);
          printed_items = inv.printed_items ∙ ap (items ops) (omega arith);
          shown_items = inv.shown_items;
        })
        | inr (r', i', e, in_rounds', in_buffer', next) ↦ rw e (record {
          space = omega arith;
          available = omega arith;
          producer = ((in_rounds', in_buffer'), omega arith);
          consumer = inv.consumer;
          size = inv.size;
          content = λ r i h low high. inv.content r i h low (omega arith);
          printed_items = inv.printed_items ∙ ap (items ops) (omega arith);
          shown_items = inv.shown_items;
        })
      ]
  produce-Keeps producer_done c s inv = tt
