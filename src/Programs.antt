-- ===== src/Programs.antt =====
-- The main functions of pthreads/prod_cons_bound/src/prod_cons_bound.c and of pthreads/prod_cons_unbound
-- (solution.c and simulation.c), as the exit codes that they return. Which calls succeed is an argument.
use concurrente2025a_evan_ch.Base.{
  ℕ, ◌≡◌, ◌↔◌, Bool, true, ◌&&◌, Option, List, [], ◌∷◌, ◌==◌, if◌then◌else◌, arith,
}
use concurrente2025a_evan_ch.Errors.{exit_success}
use concurrente2025a_evan_ch.Arguments.{
  BoundedSettings, Simulation, analyze_bounded, analyze_unbounded,
}

-- `create_threads` of the bounded program. If the consumer cannot be created, the producer is not joined.
unfoldable pub create_producer_consumer : (producer_created consumer_created : Bool) → ℕ
create_producer_consumer producer_created consumer_created =
    if producer_created then if consumer_created then exit_success else 11 else 11

-- The settings start as `calloc` leaves them.
abbrev pub cleared_settings : BoundedSettings
cleared_settings = record {
  buffer_capacity = 0;
  rounds = 0;
  producer_min_delay = 0;
  producer_max_delay = 0;
  consumer_min_delay = 0;
  consumer_max_delay = 0;
}

module _ (scan scan_delay : List ℕ → Option ℕ) where
  unfoldable pub bounded_main :
      (got_shared got_buffer producer_created consumer_created : Bool) → List (List ℕ) → ℕ
  bounded_main got_shared got_buffer producer_created consumer_created argv =
      let error = (analyze_bounded scan scan_delay argv cleared_settings).0 in
      if got_shared
      then if error == exit_success
        then if got_buffer then create_producer_consumer producer_created consumer_created else 3
        else error
      else 2

  -- The bounded program returns success just when it gets its memory, accepts its command line, and
  -- creates both threads.
  pub bounded_main-success :
      (got_shared got_buffer producer_created consumer_created : Bool) (argv : List (List ℕ))
      → (bounded_main got_shared got_buffer producer_created consumer_created argv ≡ exit_success)
        ↔ ((got_shared ≡ true)
            × ((analyze_bounded scan scan_delay argv cleared_settings).0 ≡ exit_success)
            × (got_buffer ≡ true)
            × (producer_created ≡ true)
            × (consumer_created ≡ true))
  unfolding bounded_main create_producer_consumer
  bounded_main-success got_shared got_buffer producer_created consumer_created argv = ground arith

-- `create_threads` of the unbounded program: whether it returns an array, for the results of its calls of
-- `pthread_create` in order.
unfoldable pub create_threads : (allocated : Bool) → List Bool → Bool
create_threads allocated [] = allocated
create_threads allocated (created ∷ rest) = created && create_threads allocated rest

unfoldable pub create_consumers_producers :
    (got_producers got_consumers : Bool) (producers consumers : List Bool) → ℕ
create_consumers_producers got_producers got_consumers producers consumers =
    if create_threads got_producers producers && create_threads got_consumers consumers
    then exit_success
    else 12

module _ (scan scan_delay : List ℕ → Option ℕ) where
  unfoldable pub simulation_run :
      (got_producers got_consumers : Bool) (producers consumers : List Bool)
      → Simulation
      → List (List ℕ)
      → ℕ
  simulation_run got_producers got_consumers producers consumers simulation argv =
      let error = (analyze_unbounded scan scan_delay argv simulation).0 in
      if error == exit_success
      then create_consumers_producers got_producers got_consumers producers consumers
      else error

  -- The unbounded simulation returns success just when it accepts its command line and gets all its
  -- threads.
  pub simulation_run-success :
      (got_producers got_consumers : Bool) (producers consumers : List Bool)
      (simulation : Simulation) (argv : List (List ℕ))
      → (simulation_run got_producers got_consumers producers consumers simulation argv
          ≡ exit_success)
        ↔ (((analyze_unbounded scan scan_delay argv simulation).0 ≡ exit_success)
            × (create_threads got_producers producers ≡ true)
            × (create_threads got_consumers consumers ≡ true))
  unfolding simulation_run create_consumers_producers
  simulation_run-success got_producers got_consumers producers consumers simulation argv =
      ground arith
