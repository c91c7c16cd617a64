-- ===== src/Launch.antt =====
-- The loops that start and join the threads in the class examples of pthreads/, which are written the
-- same way in each program.
use concurrente2025a_evan_ch.Base.{
  ℕ, zero, suc, ◌<◌, ◌≡◌, ◌↔◌, refl, ap, ◌∙◌, Bool, true, ◌&&◌, Option, none, some, arith,
  if◌then◌else◌, ◌==◌, ℕ_discrete,
}
use concurrente2025a_evan_ch.Errors.{exit_success}

-- Whether the first `n` calls of `pthread_create` succeed. The loop stops at the first that does not.
unfoldable pub all_created : (created : ℕ → Bool) → ℕ → Bool
all_created created zero = true
all_created created (suc n) = all_created created n && created n

-- `create_threads` of busy waiting, of the race and of the pinata: 22 if an array cannot be allocated.
-- After a call of `pthread_create` that fails, the second loop joins threads that were never created,
-- which is undefined: `none`.
unfoldable pub create_threads :
    (allocation_error : ℕ) (got_threads got_private_data : Bool) (created : ℕ → Bool)
    (thread_count : ℕ)
    → Option ℕ
unfolding all_created
create_threads allocation_error got_threads got_private_data created thread_count =
    if got_threads && got_private_data
    then if all_created created thread_count then some exit_success else none
    else some allocation_error

-- The number of threads that `main` asks for: that of the command line if there is one argument, which
-- then must be a number.
abbrev pub thread_count_of : (argc cpus : ℕ) (scanned : Option ℕ) → Option ℕ
thread_count_of argc cpus scanned = if argc == 2 then scanned else some cpus

pub all_created_iff :
    (created : ℕ → Bool) (n : ℕ)
    → (all_created created n ≡ true) ↔ ((i : ℕ) → i < n → created i ≡ true)
unfolding all_created
all_created_iff created zero = (λ e i h. absurd (omega arith), λ h. refl)
all_created_iff created (suc n) =
    let rest = all_created_iff created n in
    (
      λ e i h. elim (ℕ_discrete i n) [
        | yes q ↦ ap created q ∙ (and_parts (all_created created n) (created n) e).1
        | no q ↦ rest.0 (and_parts (all_created created n) (created n) e).0 i (omega arith)
      ],
      λ h.
          and_join (all_created created n) (created n) (rest.1 (λ i k. h i (omega arith)))
            (h n (omega arith)),
    )
  where
    and_parts : (a b : Bool) → (a && b) ≡ true → (a ≡ true) × (b ≡ true)
    and_parts a b e = ground arith

    and_join : (a b : Bool) → a ≡ true → b ≡ true → (a && b) ≡ true
    and_join a b e f = ground arith
