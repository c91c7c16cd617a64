-- ===== src/Bounded/Progress.antt =====
-- The program ends whatever the order of steps, when the buffer has two slots
-- (pthreads/prod_cons_bound/src/prod_cons_bound.c).
use concurrente2025a_evan_ch.Base.{
  ℕ, zero, suc, ◌+◌, ◌≤◌, ◌<◌, ◌≡◌, ◌⊎◌, inl, inr, refl, ap, Option, some, arith, u64, get_elem?,
  get_elem?-eq-get_or, set?, set?-eq-set, dec_lt,
}
use concurrente2025a_evan_ch.Doubles.{Doubles}
use concurrente2025a_evan_ch.Bounded.{
  Result, moved, sem_wait, access, Producer, entering, waiting_space, producing, printing,
  posting_item, producer_done, Consumer, waiting_item, obtaining, consuming, posting_space,
  consumer_done, Shared, produce, consume, Reachable,
}
use concurrente2025a_evan_ch.Bounded.Loop.{IsConfig}
use concurrente2025a_evan_ch.Bounded.Invariant.{Invariant}
use concurrente2025a_evan_ch.Bounded.Counts.{turn_lt}
use concurrente2025a_evan_ch.Bounded.Preserve.{Reachable-Invariant}

-- The result is a move.
abbrev pub Moves : {A : Type 0} → Result A → Type 0
Moves {A} r = (a : A) × (r ≡ moved a)

sem_wait-Moves : {A : Type 0} (n : ℕ) (f : ℕ → A) → 0 < n → Moves (sem_wait n (λ m. moved (f m)))
sem_wait-Moves zero f h = absurd (omega arith)
sem_wait-Moves (suc n) f h = (f n, refl)

access-Moves :
    {A B : Type 0} (o : Option A) (f : A → B) {a : A}
    → o ≡ some a
    → Moves (access o (λ x. moved (f x)))
access-Moves o f {a} e = (f a, ap (λ o'. access o' (λ x. moved (f x))) e)

module _ {D : Type 0} (ops : Doubles D) (rounds capacity : ℕ)
    (config : IsConfig rounds capacity) where
  open config use {some_rounds, some_capacity}

  abbrev Step : Producer → Consumer D → Shared D → Type 0
  Step p c s = Moves (produce ops capacity rounds p s) ⊎ Moves (consume ops capacity rounds c s)

  -- The consumer moves unless it has to wait or has returned.
  consume-Moves :
      (p : Producer) (c : Consumer D) (s : Shared D)
      → Invariant rounds capacity ops p c s
      → Moves (consume ops capacity rounds c s)
        ⊎ ((s.can_consume ≡ 0) × ((r : ℕ) × (i : ℕ) × (c ≡ waiting_item r i)))
        ⊎ (c ≡ consumer_done)
  unfolding consume
  consume-Moves p (waiting_item round index) s inv = elim (dec_lt 0 s.can_consume) [
    | yes h ↦ inl (sem_wait-Moves s.can_consume _ h)
    | no h ↦ inr (inl (omega arith, (round, index, refl)))
  ]
  consume-Moves p (obtaining round index) s inv =
      let size = inv.size in
      let (in_rounds, in_buffer) = inv.consumer in
      inl (
        access-Moves (get_elem? s.buffer index) _
          (get_elem?-eq-get_or s.buffer index ops.zero_bits (omega arith)))
  consume-Moves p (consuming value round index) s inv = inl (_, refl)
  consume-Moves p (posting_space round index) s inv = inl (_, refl)
  consume-Moves p consumer_done s inv = inr (inr refl)

  waiting_space-Step :
      (round index count : ℕ) (c : Consumer D) (s : Shared D)
      → 2 ≤ capacity
      → Invariant rounds capacity ops (waiting_space round index count) c s
      → Step (waiting_space round index count) c s
  unfolding produce
  waiting_space-Step round index count c s two inv = elim (dec_lt 0 s.can_produce) [
    | yes h ↦ inl (sem_wait-Moves s.can_produce _ h)
    | no h ↦
        let ((in_rounds, in_buffer), counted) = inv.producer in
        let space = inv.space in
        let available = inv.available in
        elim (consume-Moves (waiting_space round index count) c s inv) [
          | inl m ↦ inr m
          | inr (inl (none_left, (r, i, e))) ↦
              let space' = rw e at space in
              let available' = rw e at available in absurd (omega arith)
          | inr (inr e) ↦
              let space' = rw e at space in
              absurd (omega (arith, turn_lt rounds capacity round index in_rounds in_buffer))
        ]
  ]

  Invariant-progress :
      2 ≤ capacity
      → (p : Producer) (c : Consumer D) (s : Shared D) → Invariant rounds capacity ops p c s
      → ((p ≡ producer_done) × (c ≡ consumer_done)) ⊎ Step p c s
  unfolding produce
  Invariant-progress two entering c s inv =
      inr (inl (sem_wait-Moves s.can_produce _ (omega (arith, inv.space))))
  Invariant-progress two (waiting_space round index count) c s inv =
      inr (waiting_space-Step round index count c s two inv)
  Invariant-progress two (producing round index count) c s inv =
      let size = inv.size in
      let ((in_rounds, in_buffer), counted) = inv.producer in
      inr (
        inl (
          access-Moves (set? s.buffer index (ops.of_u64 (u64 (count + 1)))) _
            (set?-eq-set s.buffer index (ops.of_u64 (u64 (count + 1))) (omega arith))))
  Invariant-progress two (printing round index count) c s inv =
      let size = inv.size in
      let ((in_rounds, in_buffer), counted) = inv.producer in
      inr (
        inl (
          access-Moves (get_elem? s.buffer index) _
            (get_elem?-eq-get_or s.buffer index ops.zero_bits (omega arith))))
  Invariant-progress two (posting_item round index count) c s inv = inr (inl (_, refl))
  Invariant-progress two producer_done c s inv = elim (consume-Moves producer_done c s inv) [
    | inl m ↦ inr (inr m)
    | inr (inl (none_left, (round, index, e))) ↦
        let available = rw e at inv.available in
        let (in_rounds, in_buffer) = rw e at inv.consumer in
        absurd (omega (arith, turn_lt rounds capacity round index in_rounds in_buffer))
    | inr (inr e) ↦ inl (refl, e)
  ]

  -- In every reachable state of a buffer with two slots or more and fewer than 2 ^ 31, which is what
  -- `sem_init` takes, with a round and rounds * capacity below 2 ^ 64: either both threads have returned
  -- or one of them can take its next step.
  pub Reachable-progress :
      {p : Producer} {c : Consumer D} {s : Shared D}
      → 2 ≤ capacity
      → Reachable ops capacity rounds p c s
      → ((p ≡ producer_done) × (c ≡ consumer_done))
        ⊎ (Moves (produce ops capacity rounds p s) ⊎ Moves (consume ops capacity rounds c s))
  Reachable-progress {p} {c} {s} two r =
      Invariant-progress two p c s (Reachable-Invariant ops rounds capacity config r)
