-- ===== src/Bounded/Stuck.antt =====
-- A buffer with one slot: the producer's first `sem_wait` takes the only slot
-- (pthreads/prod_cons_bound/src/prod_cons_bound.c).
use concurrente2025a_evan_ch.Base.{ℕ, ◌≡◌, ◌⊎◌, inl, inr, refl, [], arith}
use concurrente2025a_evan_ch.Doubles.{Doubles}
use concurrente2025a_evan_ch.Bounded.{
  blocked, init_shared, Producer, entering, waiting_space, producing, printing, posting_item,
  producer_done, Consumer, waiting_item, Shared, produce, consume, Reachable, start, produced,
  consumed,
}
use concurrente2025a_evan_ch.Bounded.Loop.{loop_head-start, IsConfig}
use concurrente2025a_evan_ch.Bounded.Counts.{Keeps, Keeps-sem_wait}

module _ {D : Type 0} (ops : Doubles D) (rounds : ℕ) (config : IsConfig rounds 1) where
  -- The producer is before its first `sem_wait`, or before the second with no slot left.
  record IsStuck (p : Producer) (c : Consumer D) (s : Shared D) : Type 0 where
    consumer : c ≡ waiting_item 0 0
    nothing : s.can_consume ≡ 0
    produced : s.produced ≡ []
    consumed : s.consumed ≡ []
    producer :
        ((p ≡ entering) × (s.can_produce ≡ 1)) ⊎ ((p ≡ waiting_space 0 0 0) × (s.can_produce ≡ 0))

  produce-IsStuck :
      (p : Producer) (c : Consumer D) (s : Shared D)
      → IsStuck p c s
      → Keeps (λ next. IsStuck next.0 c next.1) (produce ops 1 rounds p s)
  unfolding produce
  produce-IsStuck entering c s stuck = Keeps-sem_wait _ s.can_produce _ (λ m e.
      rw (loop_head-start rounds 1 config) (record {
        consumer = stuck.consumer;
        nothing = stuck.nothing;
        produced = stuck.produced;
        consumed = stuck.consumed;
        producer = elim stuck.producer [
          | inl (f, one) ↦ inr (refl, omega arith)
          | inr (f, none_left) ↦ absurd (omega arith)
        ];
      }))
  produce-IsStuck (waiting_space round index count) c s stuck =
      Keeps-sem_wait _ s.can_produce _ (λ m e. elim stuck.producer [
        | inl (f, one) ↦ absurd (cc)
        | inr (f, none_left) ↦ absurd (omega arith)
      ])
  produce-IsStuck (producing round index count) c s stuck = elim stuck.producer [
    | inl (f, one) ↦ absurd (cc)
    | inr (f, none_left) ↦ absurd (cc)
  ]
  produce-IsStuck (printing round index count) c s stuck = elim stuck.producer [
    | inl (f, one) ↦ absurd (cc)
    | inr (f, none_left) ↦ absurd (cc)
  ]
  produce-IsStuck (posting_item round index count) c s stuck = elim stuck.producer [
    | inl (f, one) ↦ absurd (cc)
    | inr (f, none_left) ↦ absurd (cc)
  ]
  produce-IsStuck producer_done c s stuck = tt

  consume-blocked :
      (p : Producer) (c : Consumer D) (s : Shared D)
      → IsStuck p c s
      → consume ops 1 rounds c s ≡ blocked
  unfolding consume
  consume-blocked p c s stuck = rw (stuck.consumer, stuck.nothing)

  Reachable-IsStuck :
      {p : Producer} {c : Consumer D} {s : Shared D} → Reachable ops 1 rounds p c s → IsStuck p c s
  unfolding init_shared
  Reachable-IsStuck start = rw (loop_head-start rounds 1 config) (record {
    consumer = refl;
    nothing = refl;
    produced = refl;
    consumed = refl;
    producer = inl (refl, refl);
  })
  Reachable-IsStuck (produced {p} {p'} {c} {s} {s'} r e) =
      rw e at (produce-IsStuck p c s (Reachable-IsStuck r))
  Reachable-IsStuck (consumed {p} {c} {c'} {s} {s'} r e) =
      let b = consume-blocked p c s (Reachable-IsStuck r) in absurd (cc)

  -- With a buffer of capacity 1, which `main` accepts, nothing is ever produced or consumed: in
  -- every reachable state the consumer cannot move, nothing has been printed, and the producer
  -- either has not come through its first `sem_wait` or cannot move.
  pub Reachable-blocked :
      {p : Producer} {c : Consumer D} {s : Shared D}
      → Reachable ops 1 rounds p c s
      → (consume ops 1 rounds c s ≡ blocked)
        × (s.produced ≡ [])
        × (s.consumed ≡ [])
        × ((p ≡ entering) ⊎ (produce ops 1 rounds p s ≡ blocked))
  unfolding produce
  Reachable-blocked {p} {c} {s} r =
      let stuck = Reachable-IsStuck r in
      (
        consume-blocked p c s stuck,
        stuck.produced,
        stuck.consumed,
        elim stuck.producer [ inl (e, one) ↦ inl e | inr (e, none_left) ↦ inr (rw (e, none_left)) ],
      )
