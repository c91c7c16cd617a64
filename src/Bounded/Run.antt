-- ===== src/Bounded/Run.antt =====
-- Every order of steps comes to an end, at which everything has been consumed
-- (pthreads/prod_cons_bound/src/prod_cons_bound.c).
use concurrente2025a_evan_ch.Base.{
  ℕ, ◌+◌, ◌*◌, ◌≤◌, ◌≡◌, ◌⊎◌, inl, inr, refl, Bool, true, false, List, [], ◌∷◌, arith, length,
}
use concurrente2025a_evan_ch.Doubles.{Doubles}
use concurrente2025a_evan_ch.Bounded.{
  Result, blocked, fault, moved, consumer_at, init_shared, Producer, entering, producer_done,
  Consumer, consumer_done, Shared, produce, consume, Reachable, start, produced, consumed,
}
use concurrente2025a_evan_ch.Bounded.Loop.{loop_head, IsConfig}
use concurrente2025a_evan_ch.Bounded.Invariant.{items, Invariant}
use concurrente2025a_evan_ch.Bounded.Preserve.{Reachable-Invariant}
use concurrente2025a_evan_ch.Bounded.Progress.{Moves, Reachable-progress}
use concurrente2025a_evan_ch.Bounded.Steps.{
  producer_steps, consumer_steps, produce-steps, consume-steps, producer_last, consumer_last,
}
use concurrente2025a_evan_ch.Bounded.Order.{Reachable-safe}

-- The threads and what they share.
abbrev pub Program : Type 0 → Type 0
Program D = Producer × Consumer D × Shared D

abbrev pub producer_or :
    {D : Type 0} → Result (Producer × Shared D) → Program D → Program D → Program D
producer_or blocked x other = other
producer_or fault x other = other
producer_or (moved (p, s)) (_, c, _) other = (p, c, s)

abbrev pub consumer_or :
    {D : Type 0} → Result (Consumer D × Shared D) → Program D → Program D → Program D
consumer_or blocked x other = other
consumer_or fault x other = other
consumer_or (moved (c, s)) (p, _, _) other = (p, c, s)

module _ {D : Type 0} (ops : Doubles D) (rounds capacity : ℕ) where
  -- One step of a processor that prefers the producer if the choice is `true`, and lets the other
  -- thread move if that one cannot.
  unfoldable pub advance : Bool → Program D → Program D
  advance true (p, c, s) =
      producer_or (produce ops capacity rounds p s) (p, c, s)
        (consumer_or (consume ops capacity rounds c s) (p, c, s) (p, c, s))
  advance false (p, c, s) =
      consumer_or (consume ops capacity rounds c s) (p, c, s)
        (producer_or (produce ops capacity rounds p s) (p, c, s) (p, c, s))

  -- A run of the program: one choice for each step.
  unfoldable pub run : List Bool → Program D → Program D
  unfolding advance
  run [] x = x
  run (choice ∷ choices) x = run choices (advance choice x)

producer_or-cases :
    {D : Type 0} (r : Result (Producer × Shared D))
    → Moves r ⊎ ((x other : Program D) → producer_or r x other ≡ other)
producer_or-cases blocked = inr (λ x other. refl)
producer_or-cases fault = inr (λ x other. refl)
producer_or-cases (moved a) = inl (a, refl)

consumer_or-cases :
    {D : Type 0} (r : Result (Consumer D × Shared D))
    → Moves r ⊎ ((x other : Program D) → consumer_or r x other ≡ other)
consumer_or-cases blocked = inr (λ x other. refl)
consumer_or-cases fault = inr (λ x other. refl)
consumer_or-cases (moved a) = inl (a, refl)

module _ {D : Type 0} (ops : Doubles D) (rounds capacity : ℕ)
    (config : IsConfig rounds capacity) where
  abbrev steps : Producer → Consumer D → ℕ
  steps p c = producer_steps rounds capacity p + consumer_steps rounds capacity c

  -- A reachable state that is one step further.
  record Further (x : Program D) (n : ℕ) : Type 0 where
    p : Producer
    c : Consumer D
    s : Shared D
    is : x ≡ (p, c, s)
    reached : Reachable ops capacity rounds p c s
    more : steps p c ≡ n + 1

  produce-Further :
      (p : Producer) (c : Consumer D) (s : Shared D) (p' : Producer) (s' : Shared D)
      → Reachable ops capacity rounds p c s
      → produce ops capacity rounds p s ≡ moved (p', s')
      → Further (p', c, s') (steps p c)
  produce-Further p c s p' s' r e =
      let inv = Reachable-Invariant ops rounds capacity config r in
      let one = rw e at (
        produce-steps ops rounds capacity config p s inv.producer
          (Reachable-safe ops rounds capacity config r).0) in
      record { p = p'; c = c; s = s'; is = refl; reached = produced r e; more = omega arith }

  consume-Further :
      (p : Producer) (c : Consumer D) (s : Shared D) (c' : Consumer D) (s' : Shared D)
      → Reachable ops capacity rounds p c s
      → consume ops capacity rounds c s ≡ moved (c', s')
      → Further (p, c', s') (steps p c)
  consume-Further p c s c' s' r e =
      let inv = Reachable-Invariant ops rounds capacity config r in
      let one = rw e at (
        consume-steps ops rounds capacity config c s inv.consumer
          (Reachable-safe ops rounds capacity config r).1) in
      record { p = p; c = c'; s = s'; is = refl; reached = consumed r e; more = omega arith }

  advance-Further :
      (choice : Bool) (p : Producer) (c : Consumer D) (s : Shared D)
      → Reachable ops capacity rounds p c s
      → (Moves (produce ops capacity rounds p s) ⊎ Moves (consume ops capacity rounds c s))
      → Further (advance ops rounds capacity choice (p, c, s)) (steps p c)
  unfolding advance
  advance-Further true p c s r (inl ((p', s'), e)) = rw e (produce-Further p c s p' s' r e)
  advance-Further true p c s r (inr ((c', s'), e)) =
      elim (producer_or-cases (produce ops capacity rounds p s)) [
        | inl ((p', s''), f) ↦ rw f (produce-Further p c s p' s'' r f)
        | inr idle ↦ rw (idle, e) (consume-Further p c s c' s' r e)
      ]
  advance-Further false p c s r (inr ((c', s'), e)) = rw e (consume-Further p c s c' s' r e)
  advance-Further false p c s r (inl ((p', s'), e)) =
      elim (consumer_or-cases (consume ops capacity rounds c s)) [
        | inl ((c', s''), f) ↦ rw f (consume-Further p c s c' s'' r f)
        | inr idle ↦ rw (idle, e) (produce-Further p c s p' s' r e)
      ]

  advance-done :
      (choice : Bool) (s : Shared D)
      → advance ops rounds capacity choice (producer_done, consumer_done, s)
        ≡ (producer_done, consumer_done, s)
  unfolding advance produce consume
  advance-done true s = refl
  advance-done false s = refl

  -- The run comes to an end.
  abbrev Ended : List Bool → Program D → Type 0
  Ended choices x =
      (s : Shared D) × (run ops rounds capacity choices x ≡ (producer_done, consumer_done, s))
      × Reachable ops capacity rounds producer_done consumer_done s

  run-done :
      (choices : List Bool) (s : Shared D)
      → run ops rounds capacity choices (producer_done, consumer_done, s)
        ≡ (producer_done, consumer_done, s)
  unfolding run
  run-done [] s = refl
  run-done (choice ∷ choices) s = rw (advance-done choice s) (run-done choices s)

  done-Ended :
      (choices : List Bool) (p : Producer) (c : Consumer D) (s : Shared D)
      → p ≡ producer_done
      → c ≡ consumer_done
      → Reachable ops capacity rounds p c s
      → Ended choices (p, c, s)
  done-Ended choices p c s e f r = (s, rw (e, f) (run-done choices s), rw (e, f) at r)

  all_steps :
      (p : Producer) (c : Consumer D) (s : Shared D)
      → Invariant rounds capacity ops p c s
      → 8 * (rounds * capacity) + 1 ≤ steps p c
      → (p ≡ producer_done) × (c ≡ consumer_done)
  all_steps p c s inv enough = elim (producer_last ops rounds capacity config p inv.producer) [
    | inl few ↦ elim (consumer_last ops rounds capacity config c inv.consumer) [
      | inl few2 ↦ absurd (omega arith)
      | inr f ↦ let enough' = rw f at enough in absurd (omega arith)
    ]
    | inr e ↦ elim (consumer_last ops rounds capacity config c inv.consumer) [
      | inl few2 ↦ let enough' = rw e at enough in absurd (omega arith)
      | inr f ↦ (e, f)
    ]
  ]

  run-Ended :
      (choices : List Bool) (p : Producer) (c : Consumer D) (s : Shared D)
      → 2 ≤ capacity
      → Reachable ops capacity rounds p c s
      → 8 * (rounds * capacity) + 1 ≤ length choices + steps p c
      → Ended choices (p, c, s)
  unfolding run
  run-Ended [] p c s two r enough =
      let (e, f) =
        all_steps p c s (Reachable-Invariant ops rounds capacity config r) (omega arith) in
      done-Ended [] p c s e f r
  run-Ended (choice ∷ choices) p c s two r enough =
      elim (Reachable-progress ops rounds capacity config two r) [
        | inl (e, f) ↦ done-Ended (choice ∷ choices) p c s e f r
        | inr step ↦
            let next = advance-Further choice p c s r step in
            rw next.is
              (run-Ended choices next.p next.c next.s two next.reached (omega (arith, next.more)))
      ]

  -- Whatever thread is preferred at each step, a run of at least 8 * rounds * capacity + 1 steps from
  -- the start ends with both threads returned, and they have printed the items 1, 2, …, rounds *
  -- capacity. The buffer has two slots or more and fewer than 2 ^ 31, which is
  -- what `sem_init` takes, there is a round, and rounds * capacity is below 2 ^ 64.
  pub run-items :
      (choices : List Bool)
      → 2 ≤ capacity
      → 8 * (rounds * capacity) + 1 ≤ length choices
      → (s : Shared D) × (run ops rounds capacity choices
            (entering, consumer_at (loop_head rounds capacity 0 0), init_shared ops capacity)
          ≡ (producer_done, consumer_done, s))
        × (s.produced ≡ items ops (rounds * capacity))
        × (s.consumed ≡ items ops (rounds * capacity))
  run-items choices two enough =
      let (s, e, r) =
        run-Ended choices entering (consumer_at (loop_head rounds capacity 0 0))
          (init_shared ops capacity) two start (omega arith) in
      let inv = Reachable-Invariant ops rounds capacity config r in
      (s, e, inv.printed_items, inv.shown_items)
