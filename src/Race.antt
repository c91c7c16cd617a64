-- ===== src/Race.antt =====
-- pthreads/position_race/src/position_race.c: threads that take the next position one after the other,
-- guarded by a mutex. A step is a call of the mutex or one access of the shared position.
pub mod Invariant
pub mod Positions
use concurrente2025a_evan_ch.Base.{
  ℕ, ◌+◌, ◌<◌, ◌≡◌, Bool, true, false, Option, none, some, List, [], ◌∷◌, ◌++◌, if◌then◌else◌, u64,
}
use concurrente2025a_evan_ch.Base.Families.{update}
use concurrente2025a_evan_ch.Errors.{exit_success}
use concurrente2025a_evan_ch.Launch.{create_threads, thread_count_of}

pub data Racer : Type 0 where
  locking : Racer
  incrementing : Racer
  reading : Racer
  announcing : (my_position : ℕ) → Racer
  unlocking : Racer
  raced : Racer

-- `shared_data_t`, with the lines that have been printed: a thread and its position.
pub record Shared : Type 0 where
  pub locked : Bool
  pub position : ℕ
  pub announced : List (ℕ × ℕ)

unfoldable pub race : (thread_number : ℕ) → Racer → Shared → Option (Racer × Shared)
race thread_number locking s =
    if s.locked then none else some (incrementing, record s { locked = true })
race thread_number incrementing s = some (reading, record s { position = u64 (s.position + 1) })
race thread_number reading s = some (announcing s.position, s)
race thread_number (announcing my_position) s =
    some (unlocking, record s { announced = s.announced ++ (thread_number, my_position) ∷ [] })
race thread_number unlocking s = some (raced, record s { locked = false })
race thread_number raced s = none

abbrev pub init_shared : Shared
init_shared = record { locked = false; position = 0; announced = [] }

-- The exit code of `main`.
unfoldable pub main :
    (argc cpus : ℕ) (scanned : Option ℕ) (got_shared_data got_mutex : Bool)
    (got_threads got_private_data : Bool) (created : ℕ → Bool)
    → Option ℕ
main argc cpus scanned got_shared_data got_mutex got_threads got_private_data created =
    elim (thread_count_of argc cpus scanned) [
      | none ↦ some 11
      | some thread_count ↦
          if got_shared_data
          then if got_mutex
            then create_threads 22 got_threads got_private_data created thread_count
            else some 13
          else some 12
    ]

pub record System : Type 0 where
  pub threads : ℕ → Racer
  pub shared : Shared

-- The states that the threads reach, in every order of their steps.
pub data Reachable (thread_count : ℕ) : System → Type 0 where
  start : Reachable thread_count (record { threads = λ i. locking; shared = init_shared })
  races :
      {x : System} {i : ℕ} {r : Racer} {s : Shared}
      → Reachable thread_count x
      → i < thread_count
      → race i (x.threads i) x.shared ≡ some (r, s)
      → Reachable thread_count (record { threads = update x.threads i r; shared = s })
