-- ===== src/Arguments/Accepted.antt =====
-- The settings of a command line that is accepted (pthreads/prod_cons_bound/src/prod_cons_bound.c and
-- pthreads/prod_cons_unbound/src/simulation.c).
use concurrente2025a_evan_ch.Base.{
  ℕ, ◌<◌, ◌≤◌, ◌≡◌, ◌≢◌, ◌⊎◌, length, refl, Option, none, some, List, [], ◌∷◌, arith, ◌==◌,
  Bool-cases, inl, inr,
}
use concurrente2025a_evan_ch.Errors.{exit_success}
use concurrente2025a_evan_ch.Arguments.{
  read_positive, read_any, BoundedSettings, Simulation, analyze_bounded, analyze_unbounded,
  analyze_arguments,
}

module _ {S : Type 0} (P : ℕ × S → Type 0) where
  of_positive :
      (o : Option ℕ) (error : ℕ) (s : S) (store : ℕ → S) (next : S → ℕ × S)
      → error ≢ 0
      → ((v : ℕ) → o ≡ some v → 0 < v → (next (store v)).0 ≡ 0 → P (next (store v)))
      → (read_positive o error s store next).0 ≡ 0
      → P (read_positive o error s store next)
  of_positive none error s store next real h e = absurd (real e)
  of_positive (some v) error s store next real h e = elim (Bool-cases (v == 0)) [
    | inl zero ↦ let e' = rw zero at e in absurd (real e')
    | inr positive ↦ let e' = rw positive at e in rw positive (h v refl (ground arith) e')
  ]

  of_any :
      (o : Option ℕ) (error : ℕ) (s : S) (store : ℕ → S) (next : S → ℕ × S)
      → error ≢ 0
      → ((v : ℕ) → o ≡ some v → (next (store v)).0 ≡ 0 → P (next (store v)))
      → (read_any o error s store next).0 ≡ 0
      → P (read_any o error s store next)
  of_any none error s store next real h e = absurd (real e)
  of_any (some v) error s store next real h e = h v refl e

module _ (scan scan_delay : List ℕ → Option ℕ) where
  -- Six arguments, each read, into these settings; the capacity and the rounds are not 0.
  pub record IsBounded (argv : List (List ℕ)) (s : BoundedSettings) : Type 0 where
    pub program : List ℕ
    pub a1 : List ℕ
    pub a2 : List ℕ
    pub a3 : List ℕ
    pub a4 : List ℕ
    pub a5 : List ℕ
    pub a6 : List ℕ
    pub words : argv ≡ program ∷ a1 ∷ a2 ∷ a3 ∷ a4 ∷ a5 ∷ a6 ∷ []
    pub capacity : scan a1 ≡ some s.buffer_capacity
    pub some_capacity : 0 < s.buffer_capacity
    pub rounds : scan a2 ≡ some s.rounds
    pub some_rounds : 0 < s.rounds
    pub min_produce : scan_delay a3 ≡ some s.producer_min_delay
    pub max_produce : scan_delay a4 ≡ some s.producer_max_delay
    pub min_consume : scan_delay a5 ≡ some s.consumer_min_delay
    pub max_consume : scan_delay a6 ≡ some s.consumer_max_delay

  -- The bounded program only accepts a command line of six arguments that can all be read, with a
  -- capacity and a number of rounds that are not 0, and stores what it has read.
  pub analyze_bounded-IsBounded :
      (argv : List (List ℕ)) (s : BoundedSettings)
      → (analyze_bounded scan scan_delay argv s).0 ≡ exit_success
      → IsBounded argv (analyze_bounded scan scan_delay argv s).1
  unfolding analyze_bounded
  analyze_bounded-IsBounded [] s e = absurd (omega arith)
  analyze_bounded-IsBounded (p ∷ []) s e = absurd (omega arith)
  analyze_bounded-IsBounded (p ∷ a1 ∷ []) s e = absurd (omega arith)
  analyze_bounded-IsBounded (p ∷ a1 ∷ a2 ∷ []) s e = absurd (omega arith)
  analyze_bounded-IsBounded (p ∷ a1 ∷ a2 ∷ a3 ∷ []) s e = absurd (omega arith)
  analyze_bounded-IsBounded (p ∷ a1 ∷ a2 ∷ a3 ∷ a4 ∷ []) s e = absurd (omega arith)
  analyze_bounded-IsBounded (p ∷ a1 ∷ a2 ∷ a3 ∷ a4 ∷ a5 ∷ []) s e = absurd (omega arith)
  analyze_bounded-IsBounded (p ∷ a1 ∷ a2 ∷ a3 ∷ a4 ∷ a5 ∷ a6 ∷ b ∷ bs) s e = absurd (omega arith)
  analyze_bounded-IsBounded (p ∷ a1 ∷ a2 ∷ a3 ∷ a4 ∷ a5 ∷ a6 ∷ []) s e =
      of_positive P (scan a1) 5 s _ _ (omega arith)
        (λ c e1 h1. of_positive P (scan a2) 6 _ _ _ (omega arith) (λ r e2 h2.
          of_any P (scan_delay a3) 7 _ _ _ (omega arith) (λ w e3.
            of_any P (scan_delay a4) 8 _ _ _ (omega arith) (λ x e4.
              of_any P (scan_delay a5) 9 _ _ _ (omega arith) (λ y e5.
                of_any P (scan_delay a6) 10 _ _ _ (omega arith) (λ z e6 done. record {
                  program = p;
                  a1 = a1;
                  a2 = a2;
                  a3 = a3;
                  a4 = a4;
                  a5 = a5;
                  a6 = a6;
                  words = refl;
                  capacity = e1;
                  some_capacity = h1;
                  rounds = e2;
                  some_rounds = h2;
                  min_produce = e3;
                  max_produce = e4;
                  min_consume = e5;
                  max_consume = e6;
                }))))))
        e
    where
      P : ℕ × BoundedSettings → Type 0
      P result = IsBounded (p ∷ a1 ∷ a2 ∷ a3 ∷ a4 ∷ a5 ∷ a6 ∷ []) result.1

  -- Seven arguments, each read, into these settings; the three counts are not 0.
  pub record IsUnbounded (argv : List (List ℕ)) (s : Simulation) : Type 0 where
    pub program : List ℕ
    pub a1 : List ℕ
    pub a2 : List ℕ
    pub a3 : List ℕ
    pub a4 : List ℕ
    pub a5 : List ℕ
    pub a6 : List ℕ
    pub a7 : List ℕ
    pub words : argv ≡ program ∷ a1 ∷ a2 ∷ a3 ∷ a4 ∷ a5 ∷ a6 ∷ a7 ∷ []
    pub units : scan a1 ≡ some s.unit_count
    pub some_units : 0 < s.unit_count
    pub producers : scan a2 ≡ some s.producer_count
    pub some_producers : 0 < s.producer_count
    pub consumers : scan a3 ≡ some s.consumer_count
    pub some_consumers : 0 < s.consumer_count
    pub min_produce : scan_delay a4 ≡ some s.producer_min_delay
    pub max_produce : scan_delay a5 ≡ some s.producer_max_delay
    pub min_consume : scan_delay a6 ≡ some s.consumer_min_delay
    pub max_consume : scan_delay a7 ≡ some s.consumer_max_delay

  -- The unbounded program only accepts a command line of seven arguments that can all be read, with
  -- numbers of units, producers and consumers that are not 0, and stores what it has read.
  pub analyze_unbounded-IsUnbounded :
      (argv : List (List ℕ)) (s : Simulation)
      → (analyze_unbounded scan scan_delay argv s).0 ≡ exit_success
      → IsUnbounded argv (analyze_unbounded scan scan_delay argv s).1
  unfolding analyze_unbounded
  analyze_unbounded-IsUnbounded [] s e = absurd (omega arith)
  analyze_unbounded-IsUnbounded (p ∷ []) s e = absurd (omega arith)
  analyze_unbounded-IsUnbounded (p ∷ a1 ∷ []) s e = absurd (omega arith)
  analyze_unbounded-IsUnbounded (p ∷ a1 ∷ a2 ∷ []) s e = absurd (omega arith)
  analyze_unbounded-IsUnbounded (p ∷ a1 ∷ a2 ∷ a3 ∷ []) s e = absurd (omega arith)
  analyze_unbounded-IsUnbounded (p ∷ a1 ∷ a2 ∷ a3 ∷ a4 ∷ []) s e = absurd (omega arith)
  analyze_unbounded-IsUnbounded (p ∷ a1 ∷ a2 ∷ a3 ∷ a4 ∷ a5 ∷ []) s e = absurd (omega arith)
  analyze_unbounded-IsUnbounded (p ∷ a1 ∷ a2 ∷ a3 ∷ a4 ∷ a5 ∷ a6 ∷ []) s e = absurd (omega arith)
  analyze_unbounded-IsUnbounded (p ∷ a1 ∷ a2 ∷ a3 ∷ a4 ∷ a5 ∷ a6 ∷ a7 ∷ b ∷ bs) s e =
      absurd (omega arith)
  analyze_unbounded-IsUnbounded (p ∷ a1 ∷ a2 ∷ a3 ∷ a4 ∷ a5 ∷ a6 ∷ a7 ∷ []) s e =
      of_positive P (scan a1) 5 s _ _ (omega arith)
        (λ u e1 h1. of_positive P (scan a2) 6 _ _ _ (omega arith) (λ r e2 h2.
          of_positive P (scan a3) 7 _ _ _ (omega arith) (λ t e3 h3.
            of_any P (scan_delay a4) 8 _ _ _ (omega arith) (λ w e4.
              of_any P (scan_delay a5) 9 _ _ _ (omega arith) (λ x e5.
                of_any P (scan_delay a6) 10 _ _ _ (omega arith) (λ y e6.
                  of_any P (scan_delay a7) 11 _ _ _ (omega arith) (λ z e7 done. record {
                    program = p;
                    a1 = a1;
                    a2 = a2;
                    a3 = a3;
                    a4 = a4;
                    a5 = a5;
                    a6 = a6;
                    a7 = a7;
                    words = refl;
                    units = e1;
                    some_units = h1;
                    producers = e2;
                    some_producers = h2;
                    consumers = e3;
                    some_consumers = h3;
                    min_produce = e4;
                    max_produce = e5;
                    min_consume = e6;
                    max_consume = e7;
                  })))))))
        e
    where
      P : ℕ × Simulation → Type 0
      P result = IsUnbounded (p ∷ a1 ∷ a2 ∷ a3 ∷ a4 ∷ a5 ∷ a6 ∷ a7 ∷ []) result.1

-- The heat program never goes on without a job file, and a number of threads that is given and
-- accepted lies between 1 and 32000; with any other number of arguments the default is kept.
pub analyze_arguments-success :
    (scan : List ℕ → Option ℕ) (argv : List (List ℕ)) (thread_count : ℕ)
    → (analyze_arguments scan argv thread_count).0 ≡ exit_success
    → (2 ≤ length argv)
      × (((length argv ≢ 3) × ((analyze_arguments scan argv thread_count).1 ≡ thread_count))
          ⊎ ((length argv ≡ 3)
              × (1 ≤ (analyze_arguments scan argv thread_count).1)
              × ((analyze_arguments scan argv thread_count).1 ≤ 32000)))
unfolding analyze_arguments
analyze_arguments-success scan [] thread_count e = absurd (omega arith)
analyze_arguments-success scan (p ∷ []) thread_count e = absurd (omega arith)
analyze_arguments-success scan (p ∷ job ∷ []) thread_count e =
    (omega arith, inl (omega arith, refl))
analyze_arguments-success scan (p ∷ job ∷ count ∷ []) thread_count e =
    (omega arith, inr (refl, ground arith, ground arith))
analyze_arguments-success scan (p ∷ job ∷ count ∷ more ∷ rest) thread_count e =
    (omega arith, inl (omega arith, refl))
