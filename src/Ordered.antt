-- ===== src/Ordered.antt =====
-- pthreads/hello_order_semaphor/src/hello_order_semaphore.c: threads that greet in order, each of which
-- waits for its own semaphore and then posts the next one's. A step of a thread is one call of a

pub mod Turns
use concurrente2025a_evan_ch.Base.{
  ℕ, zero, suc, ◌+◌, ◌%◌, ◌<◌, ◌≡◌, Bool, true, false, ◌&&◌, Option, none, some, List, [], ◌∷◌,
  ◌++◌, ◌==◌, if◌then◌else◌, u64,
}
use concurrente2025a_evan_ch.Base.Families.{update}
use concurrente2025a_evan_ch.Errors.{exit_success}
use concurrente2025a_evan_ch.Launch.{create_threads, thread_count_of}

pub data Greeter : Type 0 where
  waiting : Greeter
  printing : Greeter
  posting : Greeter
  greeted : Greeter

-- `shared_data_t`, and the numbers of the threads whose greeting has been printed.
pub record Shared : Type 0 where
  pub can_greet : ℕ → ℕ
  pub greetings : List ℕ

abbrev pub set_semaphore : (i n : ℕ) → Shared → Shared
set_semaphore i n s = record s { can_greet = update s.can_greet i n }

-- `sem_wait`
abbrev pub after_wait : (thread_number value : ℕ) → Shared → Option (Greeter × Shared)
after_wait thread_number zero s = none
after_wait thread_number (suc n) s = some (printing, set_semaphore thread_number n s)

unfoldable pub greet :
    (thread_count thread_number : ℕ) → Greeter → Shared → Option (Greeter × Shared)
greet thread_count thread_number waiting s = after_wait thread_number (s.can_greet thread_number) s
greet thread_count thread_number printing s =
    some (posting, record s { greetings = s.greetings ++ thread_number ∷ [] })
greet thread_count thread_number posting s =
    let next_thread = u64 (thread_number + 1) % thread_count in
    some (greeted, set_semaphore next_thread (s.can_greet next_thread + 1) s)
greet thread_count thread_number greeted s = none

-- The loop of `main` starts the first semaphore at 1 and the others at 0.
abbrev pub init_shared : Shared
init_shared = record { can_greet = λ i. if i == 0 then 1 else 0; greetings = [] }

-- The exit code of `main`. The semaphores are set up before the array is tested, which is undefined when
-- it could not be allocated and there is a thread: `none`.
unfoldable pub main :
    (argc cpus : ℕ) (scanned : Option ℕ) (got_shared_data got_can_greet : Bool)
    (got_threads got_private_data : Bool) (created : ℕ → Bool)
    → Option ℕ
main argc cpus scanned got_shared_data got_can_greet got_threads got_private_data created =
    elim (thread_count_of argc cpus scanned) [
      | none ↦ some 11
      | some thread_count ↦
          if got_shared_data
          then if got_can_greet
            then create_threads 23 got_threads got_private_data created thread_count
            else if thread_count == 0
            then some 13
            else none
          else some 12
    ]

pub record System : Type 0 where
  pub threads : ℕ → Greeter
  pub shared : Shared

-- The states that the threads reach, in every order of their steps.
pub data Reachable (thread_count : ℕ) : System → Type 0 where
  start : Reachable thread_count (record { threads = λ i. waiting; shared = init_shared })
  greets :
      {x : System} {i : ℕ} {g : Greeter} {s : Shared}
      → Reachable thread_count x
      → i < thread_count
      → greet thread_count i (x.threads i) x.shared ≡ some (g, s)
      → Reachable thread_count (record { threads = update x.threads i g; shared = s })
