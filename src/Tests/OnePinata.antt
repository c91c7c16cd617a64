-- ===== src/Tests/OnePinata.antt =====
-- Two threads of pthreads/birthday_pinata/src/birthday_pinata.c and a pinata that takes one hit.
use concurrente2025a_evan_ch.Base.{
  ℕ, zero, suc, ◌<◌, ◌≤◌, ◌≡◌, refl, Option, none, some, arith, ◌==◌, if◌then◌else◌,
}
use concurrente2025a_evan_ch.Base.Families.{update}
use concurrente2025a_evan_ch.Pinata.{
  Guest, locking, guest_done, Shared, hit_pinata, init_shared, System, Reachable, start, hits_once,
}
use concurrente2025a_evan_ch.Pinata.Invariant.{total_hits, broken}
use concurrente2025a_evan_ch.Pinata.Hits.{Reachable-hits}

abbrev beginning : System
beginning = record { threads = λ i. locking; shared = init_shared 1 }

abbrev take_step : (i : ℕ) → System → Option (Guest × Shared) → System
take_step i x none = x
take_step i x (some (g, s)) = record { threads = update x.threads i g; shared = s }

abbrev step : (i : ℕ) → System → System
unfolding hit_pinata
step i x = take_step i x (hit_pinata i (x.threads i) x.shared)

-- The first thread breaks the pinata, the second comes too late.
abbrev final : System
final =
    (step 1 (
      step 1
        (step 1 (step 1 (step 0 (step 0 (step 0 (step 0 (step 0 (step 0 (step 0 beginning)))))))))))

final-Reachable : Reachable 1 2 final
unfolding hit_pinata step
final-Reachable =
    (hits_once {i = 1}
      (hits_once {i = 1}
        (hits_once {i = 1}
          (hits_once {i = 1}
            (hits_once {i = 0}
              (hits_once {i = 0}
                (hits_once {i = 0}
                  (hits_once {i = 0}
                    (hits_once {i = 0}
                      (hits_once {i = 0} (hits_once {i = 0} start (omega arith) refl) (omega arith)
                        refl)
                      (omega arith) refl)
                    (omega arith) refl)
                  (omega arith) refl)
                (omega arith) refl)
              (omega arith) refl)
            (omega arith) refl)
          (omega arith) refl)
        (omega arith) refl)
      (omega arith) refl)

final_done : (i : ℕ) → i < 2 → final.threads i ≡ guest_done
unfolding step
final_done zero h = refl
final_done (suc zero) h = refl
final_done (suc (suc i)) h = absurd (omega arith)

Reachable-hits_example :
    (total_hits 2 final.shared.hits ≤ 1)
    × (0 < 2
        → ((i : ℕ) → i < 2 → final.threads i ≡ guest_done)
        → (total_hits 2 final.shared.hits ≡ 1)
          × (final.shared.pinata ≡ 0)
          × (broken final.shared.reports ≡ (if 1 == 0 then 0 else 1)))
Reachable-hits_example = Reachable-hits 1 2 (omega arith) final-Reachable
