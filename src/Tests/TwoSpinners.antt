-- ===== src/Tests/TwoSpinners.antt =====
-- Two threads of pthreads/hello_order_busywait/src/hello_order_busywait.c.
use concurrente2025a_evan_ch.Base.{
  ℕ, ◌<◌, ◌≤◌, ◌≡◌, ◌≢◌, ◌⊎◌, refl, Option, none, some, [], arith, count_up,
}
use concurrente2025a_evan_ch.Base.Families.{update}
use concurrente2025a_evan_ch.BusyWait.{
  Greeter, spinning, greeted, Shared, greet, System, Reachable, start, greets,
}
use concurrente2025a_evan_ch.BusyWait.Turns.{Reachable-turns}

abbrev beginning : System
beginning = record { threads = λ i. spinning; shared = record { next_thread = 0; greetings = [] } }

abbrev take_step : (i : ℕ) → System → Option (Greeter × Shared) → System
take_step i x none = x
take_step i x (some (g, s)) = record { threads = update x.threads i g; shared = s }

abbrev step : (i : ℕ) → System → System
unfolding greet
step i x = take_step i x (greet i (x.threads i) x.shared)

-- The second thread has read the counter once; the first has greeted.
abbrev middle : System
middle = step 0 (step 0 (step 0 (step 0 (step 1 beginning))))

middle-Reachable : Reachable 2 middle
unfolding greet step
middle-Reachable =
    (greets {i = 0}
      (greets {i = 0}
        (greets {i = 0}
          (greets {i = 0} (greets {i = 1} start (omega arith) refl) (omega arith) refl)
          (omega arith) refl)
        (omega arith) refl)
      (omega arith) refl)

Reachable-turns_example :
    ((n : ℕ) × (n ≤ 2) × (middle.shared.greetings ≡ count_up n 0))
    × ((((i : ℕ) → i < 2 → middle.threads i ≡ greeted) × (middle.shared.greetings ≡ count_up 2 0))
        ⊎ ((i : ℕ) × (i < 2)
            × ((g : Greeter) × (s : Shared) × (greet i (middle.threads i) middle.shared
                  ≡ some (g, s))
                × (g ≢ middle.threads i))))
Reachable-turns_example = Reachable-turns 2 (omega arith) (omega arith) middle-Reachable
