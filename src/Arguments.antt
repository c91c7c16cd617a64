-- ===== src/Arguments.antt =====
-- The command lines of pthreads/prod_cons_bound/src/prod_cons_bound.c,
-- pthreads/prod_cons_unbound/src/simulation.c and homeworks/omp_mpi/src/main.c. `scan` is what `sscanf`
-- reads from one argument with the format "%zu", `scan_delay` with "%u", if it reads anything.
pub mod Accepted
use concurrente2025a_evan_ch.Base.{
  ℕ, Bool, ◌||◌, Option, none, some, List, [], ◌∷◌, ◌==◌, ltb, if◌then◌else◌,
}
use concurrente2025a_evan_ch.Errors.{exit_success, err_no_job_file, err_invalid_thread_count}

module _ {S : Type 0} where
  -- `if (sscanf(...) != 1 || value == 0) error = ...; else` the rest
  abbrev pub read_positive : Option ℕ → (error : ℕ) → S → (ℕ → S) → (S → ℕ × S) → ℕ × S
  read_positive none error s store next = (error, s)
  read_positive (some v) error s store next = if v == 0 then (error, store v) else next (store v)

  -- `if (sscanf(...) != 1) error = ...; else` the rest
  abbrev pub read_any : Option ℕ → (error : ℕ) → S → (ℕ → S) → (S → ℕ × S) → ℕ × S
  read_any none error s store next = (error, s)
  read_any (some v) error s store next = next (store v)

-- What the bounded program reads.
pub record BoundedSettings : Type 0 where
  pub buffer_capacity : ℕ
  pub rounds : ℕ
  pub producer_min_delay : ℕ
  pub producer_max_delay : ℕ
  pub consumer_min_delay : ℕ
  pub consumer_max_delay : ℕ

-- What the unbounded program reads.
pub record Simulation : Type 0 where
  pub unit_count : ℕ
  pub producer_count : ℕ
  pub consumer_count : ℕ
  pub producer_min_delay : ℕ
  pub producer_max_delay : ℕ
  pub consumer_min_delay : ℕ
  pub consumer_max_delay : ℕ

module _ (scan scan_delay : List ℕ → Option ℕ) where
  -- The error codes 5 to 10 stand for the arguments in their order, 4 for another number of them.
  unfoldable pub analyze_bounded : (argv : List (List ℕ)) → BoundedSettings → ℕ × BoundedSettings
  analyze_bounded (program ∷ a1 ∷ a2 ∷ a3 ∷ a4 ∷ a5 ∷ a6 ∷ []) s =
      read_positive (scan a1) 5 s (λ v. record s { buffer_capacity = v })
        (λ s.
          read_positive (scan a2) 6 s (λ v. record s { rounds = v })
            (λ s.
              read_any (scan_delay a3) 7 s (λ v. record s { producer_min_delay = v })
                (λ s.
                  read_any (scan_delay a4) 8 s (λ v. record s { producer_max_delay = v })
                    (λ s.
                      read_any (scan_delay a5) 9 s (λ v. record s { consumer_min_delay = v })
                        (λ s.
                          read_any (scan_delay a6) 10 s (λ v. record s { consumer_max_delay = v })
                            (λ s. (exit_success, s)))))))
  analyze_bounded argv s = (4, s)

  -- The error codes 5 to 11 stand for the arguments in their order, 4 for another number of them.
  unfoldable pub analyze_unbounded : (argv : List (List ℕ)) → Simulation → ℕ × Simulation
  analyze_unbounded (program ∷ a1 ∷ a2 ∷ a3 ∷ a4 ∷ a5 ∷ a6 ∷ a7 ∷ []) s =
      read_positive (scan a1) 5 s (λ v. record s { unit_count = v })
        (λ s.
          read_positive (scan a2) 6 s (λ v. record s { producer_count = v })
            (λ s.
              read_positive (scan a3) 7 s (λ v. record s { consumer_count = v })
                (λ s.
                  read_any (scan_delay a4) 8 s (λ v. record s { producer_min_delay = v })
                    (λ s.
                      read_any (scan_delay a5) 9 s (λ v. record s { producer_max_delay = v })
                        (λ s.
                          read_any (scan_delay a6) 10 s (λ v. record s { consumer_min_delay = v })
                            (λ s.
                              read_any (scan_delay a7) 11 s
                                (λ v. record s { consumer_max_delay = v })
                                (λ s. (exit_success, s))))))))
  analyze_unbounded argv s = (4, s)

module _ (scan : List ℕ → Option ℕ) where
  -- The error code and the number of threads.
  unfoldable pub analyze_arguments : (argv : List (List ℕ)) → (thread_count : ℕ) → ℕ × ℕ
  analyze_arguments (program ∷ job ∷ count ∷ []) thread_count = elim (scan count) [
    | none ↦ (err_invalid_thread_count, thread_count)
    | some v ↦ if (v == 0) || ltb 32000 v then (err_invalid_thread_count, v) else (exit_success, v)
  ]
  analyze_arguments [] thread_count = (err_no_job_file, thread_count)
  analyze_arguments (program ∷ []) thread_count = (err_no_job_file, thread_count)
  analyze_arguments argv thread_count = (exit_success, thread_count)
