-- ===== src/Pinata/Hits.antt =====
-- The hits that the threads of pthreads/birthday_pinata report add up to the pinata's resistance, and one
-- thread breaks it.
use concurrente2025a_evan_ch.Base.{
  ℕ, ◌+◌, ◌-◌, ◌^◌, ◌<◌, ◌≤◌, ◌≡◌, refl, ap, true, false, [], ◌∷◌, ◌++◌, arith, ◌==◌, if◌then◌else◌,
  u64, sub64, Bool-cases, inl, inr,
}
use concurrente2025a_evan_ch.Base.Families.{
  Keeps, update, total, total-update, total_ge, total_none, total_mono,
}
use concurrente2025a_evan_ch.Pinata.{
  Guest, locking, testing, hitting, recording, checking, unlocking, leaving, reporting, guest_done,
  Report, hit_pinata, System, Reachable, start, hits_once,
}
use concurrente2025a_evan_ch.Pinata.Invariant.{
  inside, aiming, unrecorded, unchecked, bit, breaking, ended, broken, broken-append, total_hits,
  Invariant, step-Invariant,
}

aiming-inside : (g : Guest) → aiming g + unchecked g ≤ inside g
aiming-inside locking = omega arith
aiming-inside testing = omega arith
aiming-inside hitting = omega arith
aiming-inside recording = omega arith
aiming-inside checking = omega arith
aiming-inside (unlocking broke) = omega arith
aiming-inside leaving = omega arith
aiming-inside (reporting broke) = omega arith
aiming-inside guest_done = omega arith

module _ (pinata_resistance thread_count : ℕ) where
  abbrev Holds : System → Type 0
  Holds = Invariant pinata_resistance thread_count

  -- Taking a hit off the pinata.
  hit-Invariant :
      (x : System) (i : ℕ)
      → Holds x
      → i < thread_count
      → x.threads i ≡ hitting
      → Holds (record {
        threads = update x.threads i recording;
        shared = record x.shared { pinata = x.shared.pinata - 1 };
      })
  hit-Invariant x i inv h e =
      let one_locked : bit x.shared.locked ≤ 1 = ground arith in
      let aims = total_ge aiming thread_count i x.threads h in
      let left : 1 ≤ x.shared.pinata = inv.some_left (omega (arith, aims, ap aiming e)) in
      let not_ended : total ended thread_count x.threads ≡ 0 = grind (arith, inv.none_left, left) in
      let inner =
        total_mono unchecked inside thread_count x.threads (λ g. omega (arith, aiming-inside g)) in
      let aimed =
        total_mono aiming inside thread_count x.threads (λ g. omega (arith, aiming-inside g)) in
      let now = update x.threads i recording in
      let inner_now =
        total_mono unchecked inside thread_count now (λ g. omega (arith, aiming-inside g)) in
      let inside_now = total-update inside thread_count i recording hitting x.threads h e in
      let unchecked_now = total-update unchecked thread_count i recording hitting x.threads h e in
      let breaking_now = total-update breaking thread_count i recording hitting x.threads h e in
      let one_unchecked : total unchecked thread_count now ≡ 1 =
        omega (arith, inner_now, inside_now, unchecked_now, inv.mutex) in
      record {
        mutex = omega (arith, inv.mutex, inside_now);
        whole = omega (
          arith,
          inv.whole,
          total-update unrecorded thread_count i recording hitting x.threads h e,
        );
        some_left = λ k. absurd (
            omega (
              arith,
              inv.mutex,
              aimed,
              total-update aiming thread_count i recording hitting x.threads h e,
            ));
        none_left = λ k. absurd (
            omega (
              arith,
              not_ended,
              total-update ended thread_count i recording hitting x.threads h e,
            ));
        one_breaks = ground (arith, inv.one_breaks, inv.whole, left, one_unchecked, breaking_now);
      }

  -- Recording a hit.
  record-Invariant :
      (x : System) (i : ℕ)
      → Holds x
      → i < thread_count
      → x.threads i ≡ recording
      → Holds (record {
        threads = update x.threads i checking;
        shared = record x.shared { hits = update x.shared.hits i (x.shared.hits i + 1) };
      })
  record-Invariant x i inv h e = record {
    mutex =
        omega
          (arith, inv.mutex, total-update inside thread_count i checking recording x.threads h e);
    whole = omega (
      arith,
      inv.whole,
      total-update unrecorded thread_count i checking recording x.threads h e,
      total-update (λ (k : ℕ). k) thread_count i (x.shared.hits i + 1) (x.shared.hits i)
          x.shared.hits h refl,
    );
    some_left = λ k.
        inv.some_left
          (omega (arith, k, total-update aiming thread_count i checking recording x.threads h e));
    none_left = λ k.
        inv.none_left
          (omega (arith, k, total-update ended thread_count i checking recording x.threads h e));
    one_breaks = ground (
      arith,
      inv.one_breaks,
      total-update breaking thread_count i checking recording x.threads h e,
      total-update unchecked thread_count i checking recording x.threads h e,
    );
  }

  module _ (small : pinata_resistance < 2 ^ 63) where
    hit_pinata-Keeps :
        (x : System) (i : ℕ) (g : Guest)
        → Holds x
        → i < thread_count
        → x.threads i ≡ g
        → Keeps
            (λ next. Holds (record { threads = update x.threads i next.0; shared = next.1 }))
            (hit_pinata i g x.shared)
    unfolding hit_pinata
    hit_pinata-Keeps x i locking inv h e = elim (Bool-cases x.shared.locked) [
      | inl shut ↦ rw shut tt
      | inr free ↦ rw free (
          step-Invariant pinata_resistance thread_count x i locking testing true x.shared.reports
            inv h e (rw free refl) refl (λ k. absurd (omega arith)) (λ k. absurd (omega arith))
            refl)
    ]
    hit_pinata-Keeps x i testing inv h e = elim (Bool-cases (x.shared.pinata == 0)) [
      | inl gone ↦ rw gone (
          step-Invariant pinata_resistance thread_count x i testing leaving x.shared.locked
            x.shared.reports inv h e refl refl (λ k. absurd (omega arith))
            (λ k. ground (arith, gone)) refl)
      | inr more ↦ rw more (
          step-Invariant pinata_resistance thread_count x i testing hitting x.shared.locked
            x.shared.reports inv h e refl refl (λ k. ground (arith, more))
            (λ k. absurd (omega arith)) refl)
    ]
    hit_pinata-Keeps x i hitting inv h e =
        let left : 1 ≤ x.shared.pinata =
          inv.some_left (omega (arith, total_ge aiming thread_count i x.threads h, ap aiming e)) in
        let bits : sub64 x.shared.pinata 1 ≡ x.shared.pinata - 1 = omega (arith, inv.whole) in
        rw bits (hit-Invariant x i inv h e)
    hit_pinata-Keeps x i recording inv h e =
        let bits : u64 (x.shared.hits i + 1) ≡ x.shared.hits i + 1 =
          omega (arith, inv.whole, total_ge (λ (k : ℕ). k) thread_count i x.shared.hits h) in
        rw bits (record-Invariant x i inv h e)
    hit_pinata-Keeps x i checking inv h e =
        step-Invariant pinata_resistance thread_count x i checking
          (unlocking (x.shared.pinata == 0)) x.shared.locked x.shared.reports inv h e refl refl
          (λ k. absurd (omega arith)) (λ k. ground (arith, k)) (ground arith)
    hit_pinata-Keeps x i (unlocking true) inv h e =
        let shut : bit x.shared.locked ≡ 1 =
          ground (arith, inv.mutex, total_ge inside thread_count i x.threads h, ap inside e) in
        step-Invariant pinata_resistance thread_count x i (unlocking true) (reporting true) false
          x.shared.reports inv h e (omega arith) refl (λ k. absurd (omega arith))
          (λ k. absurd (omega arith)) (ground arith)
    hit_pinata-Keeps x i (unlocking false) inv h e =
        let shut : bit x.shared.locked ≡ 1 =
          ground (arith, inv.mutex, total_ge inside thread_count i x.threads h, ap inside e) in
        step-Invariant pinata_resistance thread_count x i (unlocking false) locking false
          x.shared.reports inv h e (omega arith) refl (λ k. absurd (omega arith))
          (λ k. absurd (omega arith)) (ground arith)
    hit_pinata-Keeps x i leaving inv h e =
        let shut : bit x.shared.locked ≡ 1 =
          ground (arith, inv.mutex, total_ge inside thread_count i x.threads h, ap inside e) in
        step-Invariant pinata_resistance thread_count x i leaving (reporting false) false
          x.shared.reports inv h e (omega arith) refl (λ k. absurd (omega arith))
          (λ k. absurd (omega arith)) (ground arith)
    hit_pinata-Keeps x i (reporting broke) inv h e =
        let line : Report = record { thread_number = i; hits = x.shared.hits i; broke = broke } in
        step-Invariant pinata_resistance thread_count x i (reporting broke) guest_done
          x.shared.locked (x.shared.reports ++ line ∷ []) inv h e refl refl
          (λ k. absurd (omega arith)) (λ k. absurd (omega arith))
          (ground (arith, broken-append x.shared.reports line))
    hit_pinata-Keeps x i guest_done inv h e = tt

    Reachable-Invariant : {x : System} → Reachable pinata_resistance thread_count x → Holds x
    unfolding broken
    Reachable-Invariant start = record {
      mutex = total_none inside thread_count (λ i. locking) (λ i h. refl);
      whole = omega (
        arith,
        total_none unrecorded thread_count (λ i. locking) (λ i h. refl),
        total_none (λ (k : ℕ). k) thread_count (λ i. 0) (λ i h. refl),
      );
      some_left =
          λ k. absurd (omega (arith, total_none aiming thread_count (λ i. locking) (λ i h. refl)));
      none_left =
          λ k. absurd (omega (arith, total_none ended thread_count (λ i. locking) (λ i h. refl)));
      one_breaks = ground (
        arith,
        total_none breaking thread_count (λ i. locking) (λ i h. refl),
        total_none unchecked thread_count (λ i. locking) (λ i h. refl),
      );
    }
    Reachable-Invariant (hits_once {x} {i} {g} {s} r h e) =
        rw e at (hit_pinata-Keeps x i (x.threads i) (Reachable-Invariant r) h refl)

    -- For a resistance below 2 ^ 63, in any order of steps: the hits that the threads have recorded
    -- never exceed the resistance. With at least one thread, when all threads have returned, the hits add
    -- up to the resistance, nothing is left of the pinata, and exactly one thread reports that it broke
    -- it, or none if the resistance was 0.
    pub Reachable-hits :
        {x : System}
        → Reachable pinata_resistance thread_count x
        → (total_hits thread_count x.shared.hits ≤ pinata_resistance)
          × (0 < thread_count
              → ((i : ℕ) → i < thread_count → x.threads i ≡ guest_done)
              → (total_hits thread_count x.shared.hits ≡ pinata_resistance)
                × (x.shared.pinata ≡ 0)
                × (broken x.shared.reports ≡ (if pinata_resistance == 0 then 0 else 1)))
    Reachable-hits {x} r =
        let inv = Reachable-Invariant r in
        (
          omega (arith, inv.whole),
          λ some_threads done.
              let gone : x.shared.pinata ≡ 0 = inv.none_left (
                omega (
                  arith,
                  total_ge ended thread_count 0 x.threads some_threads,
                  ap ended (done 0 some_threads),
                )) in
              (
                omega (
                  arith,
                  inv.whole,
                  total_none unrecorded thread_count x.threads (λ i h. ap unrecorded (done i h)),
                ),
                gone,
                ground (
                  arith,
                  inv.one_breaks,
                  total_none breaking thread_count x.threads (λ i h. ap breaking (done i h)),
                  total_none unchecked thread_count x.threads (λ i h. ap unchecked (done i h)),
                ),
              ),
        )
