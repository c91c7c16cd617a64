-- ===== src/Bounded/Consume.antt =====
-- The steps of `consume` keep the invariant (pthreads/prod_cons_bound/src/prod_cons_bound.c).
use concurrente2025a_evan_ch.Base.{
  ℕ, ◌+◌, ◌*◌, refl, ap, ap₂, ◌∙◌, inl, inr, [], ◌∷◌, ◌++◌, arith, get_elem?-eq-get_or,
}
use concurrente2025a_evan_ch.Doubles.{Doubles}
use concurrente2025a_evan_ch.Bounded.{
  consume, Producer, Consumer, waiting_item, obtaining, consuming, posting_space, consumer_done,
  Shared,
}
use concurrente2025a_evan_ch.Bounded.Loop.{IsConfig, loop_head-next}
use concurrente2025a_evan_ch.Bounded.Invariant.{items, items-suc, Invariant}
use concurrente2025a_evan_ch.Bounded.Counts.{Keeps, Keeps-sem_wait, posted-le}

module _ {D : Type 0} (ops : Doubles D) (rounds capacity : ℕ)
    (config : IsConfig rounds capacity) where
  open config use {some_rounds, some_capacity, capacity_small, total_small}

  abbrev Inv : Producer → Consumer D → Shared D → Type 0
  Inv = Invariant rounds capacity ops

  pub consume-Keeps :
      (p : Producer) (c : Consumer D) (s : Shared D)
      → Inv p c s
      → Keeps (λ next. Inv p next.0 next.1) (consume ops capacity rounds c s)
  unfolding consume
  consume-Keeps p (waiting_item round index) s inv = Keeps-sem_wait _ s.can_consume _ (λ m e.
      let available = inv.available in
      record {
        space = inv.space;
        available = omega arith;
        producer = inv.producer;
        consumer = inv.consumer;
        size = inv.size;
        content = inv.content;
        printed_items = inv.printed_items;
        shown_items = inv.shown_items;
      })
  consume-Keeps p (obtaining round index) s inv =
      let (in_rounds, in_buffer) = inv.consumer in
      let size = inv.size in
      let here =
        inv.content round index in_buffer (omega arith)
          (omega (arith, inv.available, posted-le rounds capacity p)) in
      rw (get_elem?-eq-get_or s.buffer index ops.zero_bits (omega arith), here)
        (record {
          space = inv.space;
          available = inv.available;
          producer = inv.producer;
          consumer = ((in_rounds, in_buffer), refl);
          size = size;
          content = λ r i h low high. inv.content r i h (omega arith) high;
          printed_items = inv.printed_items;
          shown_items = inv.shown_items;
        })
  consume-Keeps p (consuming value round index) s inv =
      let ((in_rounds, in_buffer), is_item) = inv.consumer in
      record {
        space = inv.space;
        available = inv.available;
        producer = inv.producer;
        consumer = (in_rounds, in_buffer);
        size = inv.size;
        content = inv.content;
        printed_items = inv.printed_items;
        shown_items =
            ap₂ (λ xs v. xs ++ v ∷ []) inv.shown_items is_item
            ∙ items-suc ops (round * capacity + index);
      }
  consume-Keeps p (posting_space round index) s inv =
      let (in_rounds, in_buffer) = inv.consumer in
      let space = inv.space in
      let available = inv.available in
      elim (loop_head-next rounds capacity config round index in_rounds in_buffer) [
        | inl (e, last) ↦ rw e (record {
          space = omega arith;
          available = omega arith;
          producer = inv.producer;
          consumer = tt;
          size = inv.size;
          content = λ r i h low high. inv.content r i h (omega arith) high;
          printed_items = inv.printed_items;
          shown_items = inv.shown_items ∙ ap (items ops) (omega arith);
        })
        | inr (r', i', e, in_rounds', in_buffer', next) ↦ rw e (record {
          space = omega arith;
          available = omega arith;
          producer = inv.producer;
          consumer = (in_rounds', in_buffer');
          size = inv.size;
          content = λ r i h low high. inv.content r i h (omega arith) high;
          printed_items = inv.printed_items;
          shown_items = inv.shown_items ∙ ap (items ops) (omega arith);
        })
      ]
  consume-Keeps p consumer_done s inv = tt
