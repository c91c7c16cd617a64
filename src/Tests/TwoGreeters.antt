-- ===== src/Tests/TwoGreeters.antt =====
-- Two threads of pthreads/hello_order_semaphor/src/hello_order_semaphore.c.
use concurrente2025a_evan_ch.Base.{ℕ, ◌<◌, ◌≤◌, ◌≡◌, ◌⊎◌, refl, Option, none, some, arith, count_up}
use concurrente2025a_evan_ch.Base.Families.{Moves, update}
use concurrente2025a_evan_ch.Ordered.{
  Greeter, greeted, Shared, greet, init_shared, waiting, System, Reachable, start, greets,
}
use concurrente2025a_evan_ch.Ordered.Turns.{Reachable-in_order, Reachable-Moves-greet}

abbrev beginning : System
beginning = record { threads = λ i. waiting; shared = init_shared }

abbrev take_step : (i : ℕ) → System → Option (Greeter × Shared) → System
take_step i x none = x
take_step i x (some (g, s)) = record { threads = update x.threads i g; shared = s }

abbrev step : (i : ℕ) → System → System
unfolding greet
step i x = take_step i x (greet 2 i (x.threads i) x.shared)

-- The first thread has greeted, the second has come through its semaphore.
abbrev middle : System
middle = step 1 (step 0 (step 0 (step 0 beginning)))

middle-Reachable : Reachable 2 middle
unfolding greet step
middle-Reachable =
    (greets {i = 1}
      (greets {i = 0} (greets {i = 0} (greets {i = 0} start (omega arith) refl) (omega arith) refl)
        (omega arith) refl)
      (omega arith) refl)

Reachable-in_order_example : (n : ℕ) × (n ≤ 2) × (middle.shared.greetings ≡ count_up n 0)
Reachable-in_order_example = Reachable-in_order 2 (omega arith) (omega arith) middle-Reachable

Reachable-Moves-greet_example :
    ((i : ℕ) × (i < 2) × Moves (greet 2 i (middle.threads i) middle.shared))
    ⊎ (((i : ℕ) → i < 2 → middle.threads i ≡ greeted)
        × (middle.shared.greetings ≡ count_up 2 0)
        × (middle.shared.can_greet 0 ≡ 1)
        × ((i : ℕ) → 0 < i → i < 2 → middle.shared.can_greet i ≡ 0))
Reachable-Moves-greet_example = Reachable-Moves-greet 2 (omega arith) (omega arith) middle-Reachable
