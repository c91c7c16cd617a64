-- ===== src/Pinata.antt =====
-- pthreads/birthday_pinata/src/birthday_pinata.c: threads that hit a pinata in turn, guarded by a mutex,
-- until it bursts. A step is a call of the mutex, one access of shared data, or the final report.
pub mod Invariant
pub mod Hits
use concurrente2025a_evan_ch.Base.{
  ℕ, ◌+◌, ◌<◌, ◌≡◌, Bool, true, false, Option, none, some, List, [], ◌∷◌, ◌++◌, ◌==◌, if◌then◌else◌,
  u64, sub64,
}
use concurrente2025a_evan_ch.Base.Families.{update}
use concurrente2025a_evan_ch.Errors.{exit_success}
use concurrente2025a_evan_ch.Launch.{create_threads}

-- `broke` is the variable broke_pinata once it has been set.
pub data Guest : Type 0 where
  locking : Guest
  testing : Guest
  hitting : Guest
  recording : Guest
  checking : Guest
  unlocking : (broke : Bool) → Guest
  leaving : Guest
  reporting : (broke : Bool) → Guest
  guest_done : Guest

-- One line that a thread prints at its end.
pub record Report : Type 0 where
  pub thread_number : ℕ
  pub hits : ℕ
  pub broke : Bool

-- The shared data, each thread's `hits`, and the lines printed. `pinata` is an `int64_t`, given by its 64
-- bits.
pub record Shared : Type 0 where
  pub locked : Bool
  pub pinata : ℕ
  pub hits : ℕ → ℕ
  pub reports : List Report

unfoldable pub hit_pinata : (thread_number : ℕ) → Guest → Shared → Option (Guest × Shared)
hit_pinata thread_number locking s =
    if s.locked then none else some (testing, record s { locked = true })
hit_pinata thread_number testing s = some (if s.pinata == 0 then leaving else hitting, s)
hit_pinata thread_number hitting s = some (recording, record s { pinata = sub64 s.pinata 1 })
hit_pinata thread_number recording s =
    some
      (checking, record s { hits = update s.hits thread_number (u64 (s.hits thread_number + 1)) })
hit_pinata thread_number checking s = some (unlocking (s.pinata == 0), s)
hit_pinata thread_number (unlocking broke) s =
    some (if broke then reporting true else locking, record s { locked = false })
hit_pinata thread_number leaving s = some (reporting false, record s { locked = false })
hit_pinata thread_number (reporting broke) s = some (
  guest_done,
  record s {
    reports =
        s.reports
        ++ record { thread_number = thread_number; hits = s.hits thread_number; broke = broke }
          ∷ [];
  },
)
hit_pinata thread_number guest_done s = none

abbrev pub init_shared : (pinata_resistance : ℕ) → Shared
init_shared pinata_resistance = record {
  locked = false;
  pinata = pinata_resistance;
  hits = λ i. 0;
  reports = [];
}

-- The numbers that `main` reads: one result of `sscanf` for each argument.
abbrev pub read_settings : (argc cpus : ℕ) (first second : Option ℕ) → (ℕ → ℕ → Option ℕ) → Option ℕ
read_settings argc cpus first second next =
    if argc == 3
    then elim first [
      | none ↦ some 11
      | some thread_count ↦ elim second [
        | none ↦ some 12
        | some resistance ↦ next thread_count resistance
      ]
    ]
    else next cpus 10

-- The exit code of `main`.
unfoldable pub main :
    (argc cpus : ℕ) (first second : Option ℕ) (got_shared_data got_mutex : Bool)
    (got_threads got_private_data : Bool) (created : ℕ → Bool)
    → Option ℕ
main argc cpus first second got_shared_data got_mutex got_threads got_private_data created =
    read_settings argc cpus first second (λ thread_count resistance.
      if got_shared_data
      then if got_mutex
        then create_threads 22 got_threads got_private_data created thread_count
        else some 13
      else some 12)

pub record System : Type 0 where
  pub threads : ℕ → Guest
  pub shared : Shared

-- The states that the threads reach, in every order of their steps.
pub data Reachable (pinata_resistance thread_count : ℕ) : System → Type 0 where
  start :
      Reachable pinata_resistance thread_count
        (record { threads = λ i. locking; shared = init_shared pinata_resistance })
  hits_once :
      {x : System} {i : ℕ} {g : Guest} {s : Shared}
      → Reachable pinata_resistance thread_count x
      → i < thread_count
      → hit_pinata i (x.threads i) x.shared ≡ some (g, s)
      → Reachable pinata_resistance thread_count
          (record { threads = update x.threads i g; shared = s })
