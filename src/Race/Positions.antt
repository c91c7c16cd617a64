-- ===== src/Race/Positions.antt =====
-- The threads of pthreads/position_race take the positions 1, 2, 3, … in the order in which they announce
-- them, each thread once.
use concurrente2025a_evan_ch.Base.{
  ℕ, ◌+◌, ◌^◌, ◌<◌, ◌≤◌, ◌≡◌, ◌≢◌, ◌⊎◌, inl, inr, refl, sym, ap, ap₂, ◌∙◌, subst, Bool, true, false,
  [], ◌∷◌, ◌++◌, arith, ◌==◌, if◌then◌else◌, u64, length, length-append, count_up, count_up-append,
  Bool-cases,
}
use concurrente2025a_evan_ch.Base.Families.{
  Keeps, Moves, search_bool, update, update-all, total, total-update, total_ge, total_none,
  total_ones, total_mono, count, count-append, count-one,
}
use concurrente2025a_evan_ch.Race.{
  Racer, locking, incrementing, reading, announcing, unlocking, raced, race, System, Reachable,
  start, races,
}
use concurrente2025a_evan_ch.Race.Invariant.{
  inside, early, pending, passed, held, IsMine, positions, announcers, map-append, Invariant, alone,
  outside-IsMine, step-Invariant,
}

module _ (thread_count : ℕ) where
  pending-inside : (r : Racer) → pending r ≤ inside r
  pending-inside locking = omega arith
  pending-inside incrementing = omega arith
  pending-inside reading = omega arith
  pending-inside (announcing p) = omega arith
  pending-inside unlocking = omega arith
  pending-inside raced = omega arith

  -- Announcing a position.
  announce-Invariant :
      (x : System) (i p : ℕ)
      → Invariant thread_count x
      → i < thread_count
      → x.threads i ≡ announcing p
      → Invariant thread_count (record {
        threads = update x.threads i unlocking;
        shared = record x.shared { announced = x.shared.announced ++ (i, p) ∷ [] };
      })
  announce-Invariant x i p inv h e =
      let one_locked : held x.shared.locked ≤ 1 = ground arith in
      let longer = length-append x.shared.announced ((i, p) ∷ []) in
      let one_pending : total pending thread_count x.threads ≡ 1 = omega (
        arith,
        inv.mutex,
        total_mono pending inside thread_count x.threads pending-inside,
        total_ge pending thread_count i x.threads h,
        ap pending e,
      ) in
      let last : p ≡ length x.shared.announced + 1 =
        omega (arith, subst (IsMine x.shared.position) e (inv.mine i h), inv.counted) in
      record {
        mutex = omega (
          arith,
          inv.mutex,
          total-update inside thread_count i unlocking (announcing p) x.threads h e,
        );
        taken = omega (
          arith,
          inv.taken,
          total-update early thread_count i unlocking (announcing p) x.threads h e,
        );
        counted = omega (
          arith,
          inv.counted,
          longer,
          total-update pending thread_count i unlocking (announcing p) x.threads h e,
        );
        mine =
            update-all (λ j r. j < thread_count → IsMine x.shared.position r) x.threads i unlocking
              (λ k. tt) (λ j q. inv.mine j);
        in_order =
            map-append (λ a. a.1) x.shared.announced ((i, p) ∷ [])
            ∙ ap₂ (λ qs q. qs ++ q ∷ []) inv.in_order last
            ∙ sym (
                count_up-append (length x.shared.announced) 1 1 (length x.shared.announced + 1)
                  (omega arith))
            ∙ ap (λ n. count_up n 1) (sym longer);
        once =
            update-all
              (λ j r.
                j < thread_count
                → count j (announcers (x.shared.announced ++ (i, p) ∷ [])) ≡ passed r)
              x.threads i unlocking (λ k. said i ∙ own (inv.once i k ∙ ap passed e))
              (λ j q k. said j ∙ other j q (inv.once j k));
      }
    where
      said :
          (j : ℕ)
          → count j (announcers (x.shared.announced ++ (i, p) ∷ []))
            ≡ count j (announcers x.shared.announced) + (if i == j then 1 else 0)
      said j =
          ap (count j) (map-append (λ a. a.0) x.shared.announced ((i, p) ∷ []))
          ∙ count-append j (announcers x.shared.announced) (i ∷ [])
          ∙ ap (λ n. count j (announcers x.shared.announced) + n) (count-one j i)

      own : {n : ℕ} → n ≡ 0 → n + (if i == i then 1 else 0) ≡ 1
      own e = ground arith

      other : (j : ℕ) {n m : ℕ} → i ≢ j → n ≡ m → n + (if i == j then 1 else 0) ≡ m
      other j q e = ground arith

  module _ (small : thread_count < 2 ^ 64) where
    race-Keeps :
        (x : System) (i : ℕ) (r : Racer)
        → Invariant thread_count x
        → i < thread_count
        → x.threads i ≡ r
        → Keeps
            (λ next.
              Invariant thread_count
                (record { threads = update x.threads i next.0; shared = next.1 }))
            (race i r x.shared)
    unfolding race
    race-Keeps x i locking inv h e = elim (Bool-cases x.shared.locked) [
      | inl shut ↦ rw shut tt
      | inr free ↦ rw free (
          step-Invariant thread_count x i locking incrementing true x.shared.position inv h e
            (rw free refl) refl refl refl tt (λ j q. inv.mine j))
    ]
    race-Keeps x i incrementing inv h e =
        let room : x.shared.position + 1 ≤ thread_count =
          omega (arith, inv.taken, total_ge early thread_count i x.threads h, ap early e) in
        let bits : u64 (x.shared.position + 1) ≡ x.shared.position + 1 = omega arith in
        rw bits (
          step-Invariant thread_count x i incrementing reading x.shared.locked
            (x.shared.position + 1) inv h e refl (omega arith) (omega arith) refl tt
            (λ j q k.
              outside-IsMine thread_count (x.shared.position + 1) (x.threads j)
                (alone thread_count x i j inv h k q (ap inside e))))
    race-Keeps x i reading inv h e =
        step-Invariant thread_count x i reading (announcing x.shared.position) x.shared.locked
          x.shared.position inv h e refl refl refl refl refl (λ j q. inv.mine j)
    race-Keeps x i (announcing p) inv h e = announce-Invariant x i p inv h e
    race-Keeps x i unlocking inv h e =
        let shut : held x.shared.locked ≡ 1 =
          ground (arith, inv.mutex, total_ge inside thread_count i x.threads h, ap inside e) in
        step-Invariant thread_count x i unlocking raced false x.shared.position inv h e
          (omega arith) refl refl refl tt (λ j q. inv.mine j)
    race-Keeps x i raced inv h e = tt

    Reachable-Invariant : {x : System} → Reachable thread_count x → Invariant thread_count x
    unfolding count
    Reachable-Invariant start = record {
      mutex = total_none inside thread_count (λ i. locking) (λ i h. refl);
      taken = omega (arith, total_ones early thread_count (λ i. locking) (λ i h. refl));
      counted = omega (arith, total_none pending thread_count (λ i. locking) (λ i h. refl));
      mine = λ i h. tt;
      in_order = refl;
      once = λ i h. refl;
    }
    Reachable-Invariant (races {x} {i} {r} {s} t h e) =
        rw e at (race-Keeps x i (x.threads i) (Reachable-Invariant t) h refl)

    passed_le : (r : Racer) → passed r ≤ 1
    passed_le locking = omega arith
    passed_le incrementing = omega arith
    passed_le reading = omega arith
    passed_le (announcing p) = omega arith
    passed_le unlocking = omega arith
    passed_le raced = omega arith

    -- With fewer than 2 ^ 64 threads, in any order of steps: the positions that have been announced are
    -- 1, 2, 3, … in this order, and no thread has announced two. When all threads have returned, each
    -- has announced one, and there are as many positions as threads.
    pub Reachable-positions :
        {x : System}
        → Reachable thread_count x
        → (positions x.shared.announced ≡ count_up (length x.shared.announced) 1)
          × ((i : ℕ) → i < thread_count → count i (announcers x.shared.announced) ≤ 1)
          × (((i : ℕ) → i < thread_count → x.threads i ≡ raced)
              → (length x.shared.announced ≡ thread_count)
                × ((i : ℕ) → i < thread_count → count i (announcers x.shared.announced) ≡ 1))
    Reachable-positions {x} r =
        let inv = Reachable-Invariant r in
        (
          inv.in_order,
          λ i h. omega (arith, inv.once i h, passed_le (x.threads i)),
          λ done. (
            omega (
              arith,
              inv.counted,
              inv.taken,
              total_none pending thread_count x.threads (λ i h. ap pending (done i h)),
              total_none early thread_count x.threads (λ i h. ap early (done i h)),
            ),
            λ i h. inv.once i h ∙ ap passed (done i h),
          ),
        )

    -- A thread that has not raced moves, unless it waits for the mutex.
    race-Moves :
        (x : System) (i : ℕ) (r : Racer)
        → r ≢ raced
        → (x.shared.locked ≡ false) ⊎ (r ≢ locking)
        → Moves (race i r x.shared)
    unfolding race
    race-Moves x i locking real (inl free) = rw free (_, refl)
    race-Moves x i locking real (inr other) = absurd (other refl)
    race-Moves x i incrementing real free = (_, refl)
    race-Moves x i reading real free = (_, refl)
    race-Moves x i (announcing p) real free = (_, refl)
    race-Moves x i unlocking real free = (_, refl)
    race-Moves x i raced real free = absurd (real refl)

    -- With fewer than 2 ^ 64 threads, in every reachable state all threads have returned, or one of them
    -- can take its next step.
    pub Reachable-Moves-race :
        {x : System}
        → Reachable thread_count x
        → ((i : ℕ) → i < thread_count → x.threads i ≡ raced)
          ⊎ ((i : ℕ) × (i < thread_count) × Moves (race i (x.threads i) x.shared))
    Reachable-Moves-race {x} r =
        let inv = Reachable-Invariant r in
        elim (search_bool (λ i. is_inside (x.threads i)) thread_count) [
          | inl (i, h, e) ↦ inr (
            i,
            h,
            race-Moves x i (x.threads i) (inside_places (x.threads i) e).0
                (inr (inside_places (x.threads i) e).1),
          )
          | inr nobody ↦
              let free : x.shared.locked ≡ false = unlocked x.shared.locked (
                sym inv.mutex
                ∙ total_none inside thread_count x.threads
                    (λ i h. outside_weight (x.threads i) (nobody i h))) in
              elim (search_bool (λ i. still_races (x.threads i)) thread_count) [
                | inl (i, h, e) ↦
                    inr (i, h, race-Moves x i (x.threads i) (still_real (x.threads i) e) (inl free))
                | inr all ↦ inl (λ i h. has_raced (x.threads i) (all i h))
              ]
        ]
      where
        is_inside : Racer → Bool
        is_inside r = inside r == 1

        still_races : Racer → Bool
        still_races raced = false
        still_races locking = true
        still_races incrementing = true
        still_races reading = true
        still_races (announcing p) = true
        still_races unlocking = true

        inside_places : (r : Racer) → is_inside r ≡ true → (r ≢ raced) × (r ≢ locking)
        inside_places locking e = absurd (cc)
        inside_places incrementing e = (λ z. absurd (cc), λ z. absurd (cc))
        inside_places reading e = (λ z. absurd (cc), λ z. absurd (cc))
        inside_places (announcing p) e = (λ z. absurd (cc), λ z. absurd (cc))
        inside_places unlocking e = (λ z. absurd (cc), λ z. absurd (cc))
        inside_places raced e = absurd (cc)

        outside_weight : (r : Racer) → is_inside r ≡ false → inside r ≡ 0
        outside_weight locking e = refl
        outside_weight incrementing e = absurd (cc)
        outside_weight reading e = absurd (cc)
        outside_weight (announcing p) e = absurd (cc)
        outside_weight unlocking e = absurd (cc)
        outside_weight raced e = refl

        unlocked : (b : Bool) → held b ≡ 0 → b ≡ false
        unlocked true e = absurd (omega arith)
        unlocked false e = refl

        still_real : (r : Racer) → still_races r ≡ true → r ≢ raced
        still_real r e z = absurd (cc (e, ap still_races z))

        has_raced : (r : Racer) → still_races r ≡ false → r ≡ raced
        has_raced locking e = absurd (cc)
        has_raced incrementing e = absurd (cc)
        has_raced reading e = absurd (cc)
        has_raced (announcing p) e = absurd (cc)
        has_raced unlocking e = absurd (cc)
        has_raced raced e = refl
