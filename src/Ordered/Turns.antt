-- ===== src/Ordered/Turns.antt =====
-- The threads of pthreads/hello_order_semaphor greet in order and do not block each other.
use concurrente2025a_evan_ch.Base.{
  ℕ, ◌+◌, ◌%◌, ◌^◌, ◌<◌, ◌≤◌, ◌≡◌, ◌≢◌, ◌⊎◌, inl, inr, refl, sym, ap, ◌∙◌, subst, true, false, List,
  [], ◌∷◌, ◌++◌, arith, ◌==◌, if◌then◌else◌, u64, count_up, count_up-append, dec_lt, ℕ_discrete,
}
use concurrente2025a_evan_ch.Base.Families.{
  Keeps, update, update-all, update_same, update_other, Moves,
}
use native.Mathlib.Nat.{mod_self, mod-eq_of_lt}
use concurrente2025a_evan_ch.Ordered.{
  Greeter, waiting, printing, posting, greeted, Shared, set_semaphore, greet, System, Reachable,
  start, greets,
}

-- What the thread whose turn it is does, what its semaphore says and how many have greeted.
abbrev IsTurn : (turn semaphore : ℕ) → List ℕ → Greeter → Type 0
IsTurn turn semaphore greetings waiting = (semaphore ≡ 1) × (greetings ≡ count_up turn 0)
IsTurn turn semaphore greetings printing = (semaphore ≡ 0) × (greetings ≡ count_up turn 0)
IsTurn turn semaphore greetings posting = (semaphore ≡ 0) × (greetings ≡ count_up (turn + 1) 0)
IsTurn turn semaphore greetings greeted = ⊥

module _ (thread_count : ℕ) where
  record Agrees (turn : ℕ) (x : System) : Type 0 where
    pub turn_le : turn ≤ thread_count
    pub past : (i : ℕ) → i < turn → x.threads i ≡ greeted
    pub future : (i : ℕ) → turn < i → i < thread_count → x.threads i ≡ waiting
    pub closed :
        (i : ℕ)
        → i < thread_count
        → i ≢ (if turn == thread_count then 0 else turn)
        → x.shared.can_greet i ≡ 0
    pub present :
        turn < thread_count
        → IsTurn turn (x.shared.can_greet turn) x.shared.greetings (x.threads turn)
    pub finished :
        turn ≡ thread_count
        → (x.shared.can_greet 0 ≡ 1) × (x.shared.greetings ≡ count_up thread_count 0)

  abbrev Invariant : System → Type 0
  Invariant x = (turn : ℕ) × Agrees turn x

  -- The thread whose turn it is, which has not posted yet, goes on.
  same_turn :
      (x : System) (turn : ℕ) (g : Greeter) (s : Shared)
      → Agrees turn x
      → turn < thread_count
      → IsTurn turn (s.can_greet turn) s.greetings g
      → ((i : ℕ) → turn ≢ i → s.can_greet i ≡ x.shared.can_greet i)
      → Agrees turn (record { threads = update x.threads turn g; shared = s })
  same_turn x turn g s inv h is others =
      let mine : turn ≡ (if turn == thread_count then 0 else turn) = ground arith in
      record {
        turn_le = inv.turn_le;
        past = λ i k. update_other x.threads turn i g (λ q. absurd (omega arith)) ∙ inv.past i k;
        future =
            λ i k l. update_other x.threads turn i g (λ q. absurd (omega arith)) ∙ inv.future i k l;
        closed = λ i k l. others i (λ q. absurd (l (sym q ∙ mine))) ∙ inv.closed i k l;
        present = λ k. rw (update_same x.threads turn g) is;
        finished = λ k. absurd (omega arith);
      }

  next_slot :
      (turn : ℕ)
      → turn < thread_count
      → (turn + 1) % thread_count ≡ (if turn + 1 == thread_count then 0 else turn + 1)
  next_slot turn h = elim (ℕ_discrete (turn + 1) thread_count) [
    | yes q ↦
        let e : (turn + 1 == thread_count) ≡ true = ground arith in
        rw e (ap (λ k. k % thread_count) q ∙ mod_self thread_count)
    | no q ↦
        let e : (turn + 1 == thread_count) ≡ false = ground arith in
        rw e (mod-eq_of_lt (omega arith))
  ]

  -- The thread whose turn it is has printed its greeting and posts the next semaphore.
  next_turn :
      (x : System) (turn next : ℕ)
      → Agrees turn x
      → turn < thread_count
      → next ≡ (if turn + 1 == thread_count then 0 else turn + 1)
      → x.shared.can_greet turn ≡ 0
      → x.shared.greetings ≡ count_up (turn + 1) 0
      → Agrees (turn + 1) (record {
        threads = update x.threads turn greeted;
        shared = set_semaphore next (x.shared.can_greet next + 1) x.shared;
      })
  next_turn x turn next inv h next_is shut said =
      let mine : turn ≡ (if turn == thread_count then 0 else turn) = ground arith in
      let all_closed : (j : ℕ) → j < thread_count → x.shared.can_greet j ≡ 0 = λ j k.
        elim (ℕ_discrete j turn) [
          | yes q ↦ ap x.shared.can_greet q ∙ shut
          | no q ↦ inv.closed j k (λ z. q (z ∙ sym mine))
        ] in
      let next_lt : next < thread_count = ground arith in
      let opened : update x.shared.can_greet next (x.shared.can_greet next + 1) next ≡ 1 =
        update_same x.shared.can_greet next (x.shared.can_greet next + 1)
        ∙ ap (λ k. k + 1) (all_closed next next_lt) in
      record {
        turn_le = omega arith;
        past =
            update-all (λ i g. i < turn + 1 → g ≡ greeted) x.threads turn greeted (λ k. refl)
              (λ i q k. inv.past i (omega arith));
        future = λ i k l.
            update_other x.threads turn i greeted (λ q. absurd (omega arith))
            ∙ inv.future i (omega arith) l;
        closed = λ i k l.
            update_other x.shared.can_greet next i (x.shared.can_greet next + 1)
              (λ q. absurd (l (sym q ∙ next_is)))
            ∙ all_closed i k;
        present = λ k.
            let here : next ≡ turn + 1 = ground arith in
            let waits : update x.threads turn greeted (turn + 1) ≡ waiting =
              update_other x.threads turn (turn + 1) greeted (λ q. absurd (omega arith))
              ∙ inv.future (turn + 1) (omega arith) k in
            subst (IsTurn (turn + 1) _ x.shared.greetings) (sym waits) (
              ap (update x.shared.can_greet next (x.shared.can_greet next + 1)) (sym here) ∙ opened,
              said,
            );
        finished = λ k.
            let here : next ≡ 0 = ground arith in
            (
              ap (update x.shared.can_greet next (x.shared.can_greet next + 1)) (sym here) ∙ opened,
              said ∙ ap (λ m. count_up m 0) k,
            );
      }

  module _ (small : thread_count < 2 ^ 64) where
    present-Keeps :
        (x : System) (turn : ℕ) (g : Greeter) (n : ℕ)
        → Agrees turn x
        → turn < thread_count
        → x.shared.can_greet turn ≡ n
        → IsTurn turn n x.shared.greetings g
        → Keeps
            (λ next. Invariant (record { threads = update x.threads turn next.0; shared = next.1 }))
            (greet thread_count turn g x.shared)
    unfolding greet
    present-Keeps x turn waiting n inv h e (open_now, said) = rw (e ∙ open_now) (
      turn,
      same_turn x turn printing (set_semaphore turn 0 x.shared) inv h
          (update_same x.shared.can_greet turn 0, said)
          (λ i q. update_other x.shared.can_greet turn i 0 q),
    )
    present-Keeps x turn printing n inv h e (shut, said) = (
      turn,
      same_turn x turn posting (record x.shared { greetings = x.shared.greetings ++ turn ∷ [] }) inv
          h
          (
            e ∙ shut,
            ap (λ gs. gs ++ turn ∷ []) said ∙ sym (count_up-append turn 1 0 turn (omega arith)),
          )
          (λ i q. refl),
    )
    present-Keeps x turn posting n inv h e (shut, said) =
        let bits : u64 (turn + 1) ≡ turn + 1 = omega arith in
        rw bits (
          turn + 1,
          next_turn x turn ((turn + 1) % thread_count) inv h (next_slot turn h) (e ∙ shut) said,
        )
    present-Keeps x turn greeted n inv h e is = absurd is

    greet-Keeps :
        (x : System) (turn i : ℕ)
        → Agrees turn x
        → i < thread_count
        → Keeps
            (λ next. Invariant (record { threads = update x.threads i next.0; shared = next.1 }))
            (greet thread_count i (x.threads i) x.shared)
    unfolding greet
    greet-Keeps x turn i inv h = elim (dec_lt i turn) [
      | yes before ↦ rw (inv.past i before) tt
      | no late ↦ elim (dec_lt turn i) [
        | yes after ↦
            let other : i ≢ (if turn == thread_count then 0 else turn) =
              λ q. absurd (ground arith) in
            rw (inv.future i after h, inv.closed i h other) tt
        | no now ↦
            let here : turn ≡ i = omega arith in
            let k : turn < thread_count = omega arith in
            subst
              (λ j.
                Keeps
                  (λ next.
                    Invariant (record { threads = update x.threads j next.0; shared = next.1 }))
                  (greet thread_count j (x.threads j) x.shared))
              here
              (present-Keeps x turn (x.threads turn) (x.shared.can_greet turn) inv k refl
                (inv.present k))
      ]
    ]

    Reachable-Invariant : {x : System} → 0 < thread_count → Reachable thread_count x → Invariant x
    Reachable-Invariant some_threads start = (
      0,
      record {
        turn_le = omega arith;
        past = λ i h. absurd (omega arith);
        future = λ i h k. refl;
        closed = λ i h k. ground (arith, k);
        present = λ h. (refl, refl);
        finished = λ e. absurd (omega arith);
      },
    )
    Reachable-Invariant some_threads (greets {x} {i} {g} {s} r h e) =
        let (turn, inv) = Reachable-Invariant some_threads r in rw e at (greet-Keeps x turn i inv h)

    -- With at least one thread and fewer than 2 ^ 64, in any order of steps: the greetings that have
    -- been printed are those of the threads 0, 1, 2, …, in this order, each at most once.
    pub Reachable-in_order :
        {x : System}
        → 0 < thread_count
        → Reachable thread_count x
        → (n : ℕ) × (n ≤ thread_count) × (x.shared.greetings ≡ count_up n 0)
    Reachable-in_order {x} some_threads r =
        let (turn, inv) = Reachable-Invariant some_threads r in
        elim (dec_lt turn thread_count) [
          | yes k ↦ said turn (x.threads turn) k (inv.present k)
          | no all ↦
              let e : turn ≡ thread_count = omega (arith, inv.turn_le) in
              (thread_count, omega arith, (inv.finished e).1)
        ]
      where
        said :
            (turn : ℕ) (g : Greeter)
            → turn < thread_count
            → IsTurn turn (x.shared.can_greet turn) x.shared.greetings g
            → (n : ℕ) × (n ≤ thread_count) × (x.shared.greetings ≡ count_up n 0)
        said turn waiting k (a, b) = (turn, omega arith, b)
        said turn printing k (a, b) = (turn, omega arith, b)
        said turn posting k (a, b) = (turn + 1, omega arith, b)
        said turn greeted k is = absurd is

    -- Under the same conditions, in every reachable state one of the threads can take its next step, or
    -- all have greeted, in order, the first semaphore lets one thread through again, and the others let none
    -- through.
    pub Reachable-Moves-greet :
        {x : System}
        → 0 < thread_count
        → Reachable thread_count x
        → ((i : ℕ) × (i < thread_count) × Moves (greet thread_count i (x.threads i) x.shared))
          ⊎ (((i : ℕ) → i < thread_count → x.threads i ≡ greeted)
              × (x.shared.greetings ≡ count_up thread_count 0)
              × (x.shared.can_greet 0 ≡ 1)
              × ((i : ℕ) → 0 < i → i < thread_count → x.shared.can_greet i ≡ 0))
    unfolding greet
    Reachable-Moves-greet {x} some_threads r =
        let (turn, inv) = Reachable-Invariant some_threads r in
        elim (dec_lt turn thread_count) [
          | yes k ↦ inl (turn, k, moving turn (x.threads turn) (inv.present k))
          | no all ↦
              let e : turn ≡ thread_count = omega (arith, inv.turn_le) in
              inr (
                λ i h. inv.past i (omega arith),
                (inv.finished e).1,
                (inv.finished e).0,
                λ i p h. inv.closed i h (λ q. absurd (ground (arith, e, q))),
              )
        ]
      where
        moving :
            (turn : ℕ) (g : Greeter)
            → IsTurn turn (x.shared.can_greet turn) x.shared.greetings g
            → Moves (greet thread_count turn g x.shared)
        moving turn waiting (a, b) = rw a (_, refl)
        moving turn printing is = (_, refl)
        moving turn posting is = (_, refl)
        moving turn greeted is = absurd is
