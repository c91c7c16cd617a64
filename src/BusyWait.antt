-- ===== src/BusyWait.antt =====
-- pthreads/hello_order_busywait/src/hello_order_busywait.c: threads that greet in order, each of which
-- reads a shared counter until it is its turn. A step is one read or write of the counter or the line of
-- a greeting; ++next_thread is a read and a write.
pub mod Turns
use concurrente2025a_evan_ch.Base.{
  ℕ, ◌+◌, ◌<◌, ◌≡◌, Bool, Option, none, some, List, [], ◌∷◌, ◌++◌, ltb, if◌then◌else◌, u64,
}
use concurrente2025a_evan_ch.Base.Families.{update}
use concurrente2025a_evan_ch.Errors.{exit_success}
use concurrente2025a_evan_ch.Launch.{create_threads, thread_count_of}

pub data Greeter : Type 0 where
  spinning : Greeter
  printing : Greeter
  reading : Greeter
  writing : (value : ℕ) → Greeter
  greeted : Greeter

-- `next_thread`, and the numbers of the threads whose greeting has been printed.
pub record Shared : Type 0 where
  pub next_thread : ℕ
  pub greetings : List ℕ

unfoldable pub greet : (thread_number : ℕ) → Greeter → Shared → Option (Greeter × Shared)
greet thread_number spinning s =
    some (if ltb s.next_thread thread_number then spinning else printing, s)
greet thread_number printing s =
    some (reading, record s { greetings = s.greetings ++ thread_number ∷ [] })
greet thread_number reading s = some (writing (u64 (s.next_thread + 1)), s)
greet thread_number (writing value) s = some (greeted, record s { next_thread = value })
greet thread_number greeted s = none

-- The exit code of `main`.
unfoldable pub main :
    (argc cpus : ℕ) (scanned : Option ℕ) (got_shared_data got_threads got_private_data : Bool)
    (created : ℕ → Bool)
    → Option ℕ
main argc cpus scanned got_shared_data got_threads got_private_data created =
    elim (thread_count_of argc cpus scanned) [
      | none ↦ some 11
      | some thread_count ↦
          if got_shared_data
          then create_threads 22 got_threads got_private_data created thread_count
          else some 12
    ]

pub record System : Type 0 where
  pub threads : ℕ → Greeter
  pub shared : Shared

-- The states that the threads reach, in every order of their steps.
pub data Reachable (thread_count : ℕ) : System → Type 0 where
  start :
      Reachable thread_count
        (record { threads = λ i. spinning; shared = record { next_thread = 0; greetings = [] } })
  greets :
      {x : System} {i : ℕ} {g : Greeter} {s : Shared}
      → Reachable thread_count x
      → i < thread_count
      → greet i (x.threads i) x.shared ≡ some (g, s)
      → Reachable thread_count (record { threads = update x.threads i g; shared = s })
