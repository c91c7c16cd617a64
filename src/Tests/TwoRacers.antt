-- ===== src/Tests/TwoRacers.antt =====
-- Two threads of pthreads/position_race/src/position_race.c.
use concurrente2025a_evan_ch.Base.{
  ℕ, ◌<◌, ◌≤◌, ◌≡◌, ◌⊎◌, refl, Option, none, some, arith, length, count_up,
}
use concurrente2025a_evan_ch.Base.Families.{Moves, update, count}
use concurrente2025a_evan_ch.Race.{
  Racer, locking, raced, Shared, race, init_shared, System, Reachable, start, races,
}
use concurrente2025a_evan_ch.Race.Invariant.{positions, announcers}
use concurrente2025a_evan_ch.Race.Positions.{Reachable-positions, Reachable-Moves-race}

abbrev beginning : System
beginning = record { threads = λ i. locking; shared = init_shared }

abbrev take_step : (i : ℕ) → System → Option (Racer × Shared) → System
take_step i x none = x
take_step i x (some (r, s)) = record { threads = update x.threads i r; shared = s }

abbrev step : (i : ℕ) → System → System
unfolding race
step i x = take_step i x (race i (x.threads i) x.shared)

-- The second thread arrives first; the first thread has the mutex.
abbrev middle : System
middle = step 0 (step 1 (step 1 (step 1 (step 1 (step 1 beginning)))))

middle-Reachable : Reachable 2 middle
unfolding race step
middle-Reachable =
    (races {i = 0}
      (races {i = 1}
        (races {i = 1}
          (races {i = 1} (races {i = 1} (races {i = 1} start (omega arith) refl) (omega arith) refl)
            (omega arith) refl)
          (omega arith) refl)
        (omega arith) refl)
      (omega arith) refl)

Reachable-positions_example :
    (positions middle.shared.announced ≡ count_up (length middle.shared.announced) 1)
    × ((i : ℕ) → i < 2 → count i (announcers middle.shared.announced) ≤ 1)
    × (((i : ℕ) → i < 2 → middle.threads i ≡ raced)
        → (length middle.shared.announced ≡ 2)
          × ((i : ℕ) → i < 2 → count i (announcers middle.shared.announced) ≡ 1))
Reachable-positions_example = Reachable-positions 2 (omega arith) middle-Reachable

Reachable-Moves-race_example :
    ((i : ℕ) → i < 2 → middle.threads i ≡ raced)
    ⊎ ((i : ℕ) × (i < 2) × Moves (race i (middle.threads i) middle.shared))
Reachable-Moves-race_example = Reachable-Moves-race 2 (omega arith) middle-Reachable
