-- ===== src/BusyWait/Turns.antt =====
-- The threads of pthreads/hello_order_busywait greet in order, and the one whose turn it is goes on.
use concurrente2025a_evan_ch.Base.{
  ℕ, ◌+◌, ◌^◌, ◌<◌, ◌≤◌, ◌≡◌, ◌≢◌, ◌⊎◌, inl, inr, refl, sym, ap, ◌∙◌, subst, some, List, [], ◌∷◌,
  ◌++◌, arith, lt→ltb, le→ltb_false, u64, count_up, count_up-append, dec_lt,
}
use concurrente2025a_evan_ch.Base.Families.{Keeps, update, update-all, update_same, update_other}
use concurrente2025a_evan_ch.BusyWait.{
  Greeter, spinning, printing, reading, writing, greeted, Shared, greet, System, Reachable, start,
  greets,
}

-- How many have greeted while the thread whose turn it is is at this place.
abbrev said : (turn : ℕ) → Greeter → ℕ
said turn spinning = turn
said turn printing = turn
said turn reading = turn + 1
said turn (writing value) = turn + 1
said turn greeted = turn

-- The thread whose turn it is has not greeted, and writes the next thread's number.
abbrev IsTurn : (turn : ℕ) → Greeter → Type 0
IsTurn turn spinning = Unit
IsTurn turn printing = Unit
IsTurn turn reading = Unit
IsTurn turn (writing value) = value ≡ turn + 1
IsTurn turn greeted = ⊥

module _ (thread_count : ℕ) where
  -- The counter is the number of the thread whose turn it is.
  record Invariant (x : System) : Type 0 where
    pub turn_le : x.shared.next_thread ≤ thread_count
    pub past : (i : ℕ) → i < x.shared.next_thread → x.threads i ≡ greeted
    pub future : (i : ℕ) → x.shared.next_thread < i → i < thread_count → x.threads i ≡ spinning
    pub present :
        x.shared.next_thread < thread_count
        → IsTurn x.shared.next_thread (x.threads x.shared.next_thread)
    pub in_order :
        x.shared.next_thread < thread_count
        → x.shared.greetings
          ≡ count_up (said x.shared.next_thread (x.threads x.shared.next_thread)) 0
    pub finished :
        x.shared.next_thread ≡ thread_count → x.shared.greetings ≡ count_up thread_count 0

  same_turn :
      (x : System) (g : Greeter) (greetings : List ℕ)
      → Invariant x
      → x.shared.next_thread < thread_count
      → IsTurn x.shared.next_thread g
      → greetings ≡ count_up (said x.shared.next_thread g) 0
      → Invariant (record {
        threads = update x.threads x.shared.next_thread g;
        shared = record x.shared { greetings = greetings };
      })
  same_turn x g greetings inv h is counts =
      let turn = x.shared.next_thread in
      record {
        turn_le = inv.turn_le;
        past = λ i k. update_other x.threads turn i g (λ q. absurd (omega arith)) ∙ inv.past i k;
        future =
            λ i k l. update_other x.threads turn i g (λ q. absurd (omega arith)) ∙ inv.future i k l;
        present = λ k. rw (update_same x.threads turn g) is;
        in_order = λ k. rw (update_same x.threads turn g) counts;
        finished = λ k. absurd (omega arith);
      }

  -- A thread that is not at its turn reads the counter again.
  spins :
      (x : System) (i : ℕ)
      → Invariant x
      → x.shared.next_thread < i
      → Invariant (record { threads = update x.threads i spinning; shared = x.shared })
  spins x i inv after =
      let turn = x.shared.next_thread in
      let same : update x.threads i spinning turn ≡ x.threads turn =
        update_other x.threads i turn spinning (λ q. absurd (omega arith)) in
      record {
        turn_le = inv.turn_le;
        past =
            λ j k. update_other x.threads i j spinning (λ q. absurd (omega arith)) ∙ inv.past j k;
        future =
            update-all (λ j g. turn < j → j < thread_count → g ≡ spinning) x.threads i spinning
              (λ k l. refl) (λ j q. inv.future j);
        present = λ k. subst (IsTurn turn) (sym same) (inv.present k);
        in_order = λ k. inv.in_order k ∙ ap (λ g. count_up (said turn g) 0) (sym same);
        finished = inv.finished;
      }

  next_turn :
      (x : System)
      → Invariant x
      → x.shared.next_thread < thread_count
      → x.shared.greetings ≡ count_up (x.shared.next_thread + 1) 0
      → Invariant (record {
        threads = update x.threads x.shared.next_thread greeted;
        shared = record x.shared { next_thread = x.shared.next_thread + 1 };
      })
  next_turn x inv h counts =
      let turn = x.shared.next_thread in
      let waits : turn + 1 < thread_count → update x.threads turn greeted (turn + 1) ≡ spinning =
        λ k.
          update_other x.threads turn (turn + 1) greeted (λ q. absurd (omega arith))
          ∙ inv.future (turn + 1) (omega arith) k in
      record {
        turn_le = omega arith;
        past =
            update-all (λ i g. i < turn + 1 → g ≡ greeted) x.threads turn greeted (λ k. refl)
              (λ i q k. inv.past i (omega arith));
        future = λ i k l.
            update_other x.threads turn i greeted (λ q. absurd (omega arith))
            ∙ inv.future i (omega arith) l;
        present = λ k. subst (IsTurn (turn + 1)) (sym (waits k)) tt;
        in_order = λ k. counts ∙ ap (λ g. count_up (said (turn + 1) g) 0) (sym (waits k));
        finished = λ k. counts ∙ ap (λ m. count_up m 0) k;
      }

  module _ (small : thread_count < 2 ^ 64) where
    present-Keeps :
        (x : System) (g : Greeter)
        → Invariant x
        → x.shared.next_thread < thread_count
        → IsTurn x.shared.next_thread g
        → x.shared.greetings ≡ count_up (said x.shared.next_thread g) 0
        → Keeps
            (λ next.
              Invariant (record {
                threads = update x.threads x.shared.next_thread next.0;
                shared = next.1;
              }))
            (greet x.shared.next_thread g x.shared)
    unfolding greet
    present-Keeps x spinning inv h is counts =
        rw (le→ltb_false x.shared.next_thread x.shared.next_thread (omega arith))
          (same_turn x printing x.shared.greetings inv h tt counts)
    present-Keeps x printing inv h is counts =
        same_turn x reading (x.shared.greetings ++ x.shared.next_thread ∷ []) inv h tt (
          ap (λ gs. gs ++ x.shared.next_thread ∷ []) counts
          ∙ sym (count_up-append x.shared.next_thread 1 0 x.shared.next_thread (omega arith)))
    present-Keeps x reading inv h is counts =
        same_turn x (writing (u64 (x.shared.next_thread + 1))) x.shared.greetings inv h
          (omega arith) counts
    present-Keeps x (writing value) inv h is counts =
        subst
          (λ v. Invariant (record {
            threads = update x.threads x.shared.next_thread greeted;
            shared = record x.shared { next_thread = v };
          }))
          (sym is) (next_turn x inv h counts)
    present-Keeps x greeted inv h is counts = absurd is

    greet-Keeps :
        (x : System) (i : ℕ)
        → Invariant x
        → i < thread_count
        → Keeps
            (λ next. Invariant (record { threads = update x.threads i next.0; shared = next.1 }))
            (greet i (x.threads i) x.shared)
    unfolding greet
    greet-Keeps x i inv h = elim (dec_lt i x.shared.next_thread) [
      | yes before ↦ rw (inv.past i before) tt
      | no late ↦ elim (dec_lt x.shared.next_thread i) [
        | yes after ↦
            rw (inv.future i after h, lt→ltb x.shared.next_thread i after) (spins x i inv after)
        | no now ↦
            let here : x.shared.next_thread ≡ i = omega arith in
            let k : x.shared.next_thread < thread_count = omega arith in
            subst
              (λ j.
                Keeps
                  (λ next.
                    Invariant (record { threads = update x.threads j next.0; shared = next.1 }))
                  (greet j (x.threads j) x.shared))
              here
              (present-Keeps x (x.threads x.shared.next_thread) inv k (inv.present k)
                (inv.in_order k))
      ]
    ]

    Reachable-Invariant : {x : System} → 0 < thread_count → Reachable thread_count x → Invariant x
    Reachable-Invariant some_threads start = record {
      turn_le = omega arith;
      past = λ i h. absurd (omega arith);
      future = λ i h k. refl;
      present = λ h. tt;
      in_order = λ h. refl;
      finished = λ e. absurd (omega arith);
    }
    Reachable-Invariant some_threads (greets {x} {i} {g} {s} r h e) =
        rw e at (greet-Keeps x i (Reachable-Invariant some_threads r) h)

    -- With at least one thread and fewer than 2 ^ 64, when the reads and writes of the counter happen
    -- one after the other, in any order of steps: the greetings that have been printed are those of the
    -- threads 0, 1, 2, …, in this order. Either all threads have greeted, or there is one whose next
    -- step is taken and does not leave it where it is.
    pub Reachable-turns :
        {x : System}
        → 0 < thread_count
        → Reachable thread_count x
        → ((n : ℕ) × (n ≤ thread_count) × (x.shared.greetings ≡ count_up n 0))
          × ((((i : ℕ) → i < thread_count → x.threads i ≡ greeted)
                × (x.shared.greetings ≡ count_up thread_count 0))
              ⊎ ((i : ℕ) × (i < thread_count)
                  × ((g : Greeter) × (s : Shared) × (greet i (x.threads i) x.shared ≡ some (g, s))
                      × (g ≢ x.threads i))))
    unfolding greet
    Reachable-turns {x} some_threads r =
        let inv = Reachable-Invariant some_threads r in
        let turn = x.shared.next_thread in
        elim (dec_lt turn thread_count) [
          | yes k ↦ (
            (said turn (x.threads turn), said_le turn (x.threads turn) k, inv.in_order k),
            inr (turn, k, moving (x.threads turn) (inv.present k)),
          )
          | no all ↦
              let e : turn ≡ thread_count = omega (arith, inv.turn_le) in
              (
                (thread_count, omega arith, inv.finished e),
                inl (λ i h. inv.past i (omega arith), inv.finished e),
              )
        ]
      where
        said_le : (turn : ℕ) (g : Greeter) → turn < thread_count → said turn g ≤ thread_count
        said_le turn spinning k = omega arith
        said_le turn printing k = omega arith
        said_le turn reading k = omega arith
        said_le turn (writing value) k = omega arith
        said_le turn greeted k = omega arith

        moving :
            (g : Greeter)
            → IsTurn x.shared.next_thread g
            → (g' : Greeter) × (s : Shared) × (greet x.shared.next_thread g x.shared ≡ some (g', s))
              × (g' ≢ g)
        moving spinning is = (
          printing,
          x.shared,
          rw (le→ltb_false x.shared.next_thread x.shared.next_thread (omega arith)) refl,
          λ z. absurd (cc),
        )
        moving printing is = (_, _, refl, λ z. absurd (cc))
        moving reading is = (_, _, refl, λ z. absurd (cc))
        moving (writing value) is = (_, _, refl, λ z. absurd (cc))
        moving greeted is = absurd is
