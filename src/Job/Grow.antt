-- ===== src/Job/Grow.antt =====
-- A job holds the lines of its file in order, however often the array grows
-- (homeworks/omp_mpi/src/job.c).
use concurrente2025a_evan_ch.Base.{
  ℕ, zero, suc, ◌+◌, ◌-◌, ◌*◌, ◌/◌, ◌^◌, ◌<◌, ◌≤◌, ◌≡◌, refl, sym, ap, subst, some_inj, ◌∙◌, Bool,
  true, Option, none, some, List, [], ◌∷◌, ◌++◌, map, arith, ◌==◌, All, lt→ltb, u64, length,
  length-append, length-replicate, length-set, take, take_all, replicate, set, set?-eq-set,
  Bool-cases, inl, inr,
}
use concurrente2025a_evan_ch.Job.{
  PlateLine, Job, Allocations, starting_capacity, init_job, expand_job, check_capacity, loaded,
  max_file_name_size, set_job,
}

take-set :
    {A : Type 0} (n : ℕ) (xs : List A) (v : A)
    → n < length xs
    → take (n + 1) (set xs n v) ≡ take n xs ++ v ∷ []
take-set zero [] v h = absurd (omega arith)
take-set zero (x ∷ xs) v h = refl
take-set (suc n) [] v h = absurd (omega arith)
take-set (suc n) (x ∷ xs) v h =
    let e : suc n + 1 ≡ suc (n + 1) = omega arith in
    rw e (ap (λ ys. x ∷ ys) (take-set n xs v (omega arith)))

take-append_le :
    {A : Type 0} (n : ℕ) (xs ys : List A) → n ≤ length xs → take n (xs ++ ys) ≡ take n xs
take-append_le zero xs ys h = refl
take-append_le (suc n) [] ys h = absurd (omega arith)
take-append_le (suc n) (x ∷ xs) ys h = ap (λ zs. x ∷ zs) (take-append_le n xs ys (omega arith))

abbrev pub all_granted : Allocations
all_granted = record { plate = true; name = true; expansion = true }

module _ {D : Type 0} where
  -- The job holds the lines, and there is room for one more.
  pub record IsJob (job : Job D) (lines : List (PlateLine D)) : Type 0 where
    pub counted : job.plates_count ≡ length lines
    pub size : length job.plates ≡ job.plates_capacity
    pub room : job.plates_count < job.plates_capacity
    pub bound : job.plates_capacity ≤ 2 * job.plates_count + starting_capacity
    pub held : take job.plates_count job.plates ≡ map some lines

  check_capacity-IsJob :
      (job : Job D) (lines : List (PlateLine D))
      → job.plates_count ≡ length lines
      → length job.plates ≡ job.plates_capacity
      → 1 ≤ job.plates_count
      → job.plates_count ≤ job.plates_capacity
      → job.plates_capacity ≤ 2 * job.plates_count + starting_capacity
      → take job.plates_count job.plates ≡ map some lines
      → length lines < 2 ^ 57
      → (job' : Job D) × (check_capacity true job ≡ some job') × IsJob job' lines
  unfolding check_capacity expand_job
  check_capacity-IsJob job lines counted size some_plates fits bound held small =
      elim (Bool-cases (job.plates_count == job.plates_capacity)) [
        | inl full ↦
            let is_full : job.plates_count ≡ job.plates_capacity = ground arith in
            let e : u64 (job.plates_capacity * 2) ≡ 2 * job.plates_capacity = omega arith in
            let f : u64 (8 * (2 * job.plates_capacity)) / 8 ≡ 2 * job.plates_capacity =
              omega arith in
            let whole = take_all (2 * job.plates_capacity) job.plates (omega arith) in
            (
              record job {
                plates_capacity = 2 * job.plates_capacity;
                plates = job.plates ++ replicate (2 * job.plates_capacity - length job.plates) none;
              },
              rw (full, e, f, whole),
              record {
                counted = counted;
                size = omega (
                  arith,
                  length-append job.plates
                      (replicate (2 * job.plates_capacity - length job.plates) none),
                  length-replicate {A = Option (PlateLine D)}
                      (2 * job.plates_capacity - length job.plates) none,
                );
                room = omega arith;
                bound = omega arith;
                held = take-append_le job.plates_count job.plates _ (omega arith) ∙ held;
              },
            )
        | inr free ↦ (
          job,
          rw free,
          record {
            counted = counted;
            size = size;
            room = ground arith;
            bound = bound;
            held = held;
          },
        )
      ]

  -- The job once one line is stored, before its capacity is checked.
  abbrev with_line : Job D → PlateLine D → Job D
  with_line job line = record job {
    plates = set job.plates job.plates_count (some line);
    plates_count = job.plates_count + 1;
  }

  store_line :
      (job : Job D) (done : List (PlateLine D)) (line : PlateLine D)
      → IsJob job done
      → length done + 1 < 2 ^ 57
      → (job' : Job D) × (check_capacity true (with_line job line) ≡ some job')
        × IsJob job' (done ++ line ∷ [])
  store_line job done line is small =
      check_capacity-IsJob (with_line job line) (done ++ line ∷ [])
        (omega (arith, is.counted, length-append done (line ∷ [])))
        (length-set job.plates job.plates_count (some line) ∙ is.size) (omega arith)
        (omega (arith, is.room)) (omega (arith, is.bound))
        (take-set job.plates_count job.plates (some line) (omega (arith, is.room, is.size))
          ∙ ap (λ xs. xs ++ some line ∷ []) is.held
          ∙ sym (map-append done (line ∷ [])))
        (omega (arith, length-append done (line ∷ [])))
    where
      map-append : (xs ys : List (PlateLine D)) → map some (xs ++ ys) ≡ map some xs ++ map some ys
      map-append [] ys = refl
      map-append (x ∷ xs) ys = ap (λ zs. some x ∷ zs) (map-append xs ys)

  abbrev pub granted : List (PlateLine D) → List (Allocations × PlateLine D)
  granted [] = []
  granted (line ∷ lines) = (all_granted, line) ∷ granted lines

  -- The names fit in the buffer that they are read into.
  abbrev pub AreShort : List (PlateLine D) → Type 0
  AreShort = All (λ line. length line.plate_file_name < max_file_name_size)

  set_job-going :
      (lines done : List (PlateLine D)) (job : Job D)
      → IsJob job done
      → length done + length lines < 2 ^ 57
      → AreShort lines
      → (job' : Job D) × (set_job (granted lines) job ≡ loaded job') × IsJob job' (done ++ lines)
  unfolding set_job
  set_job-going [] done job is small short = (job, refl, rw (append-nil done) is)
    where
      append-nil : (xs : List (PlateLine D)) → xs ++ [] ≡ xs
      append-nil [] = refl
      append-nil (x ∷ xs) = ap (λ ys. x ∷ ys) (append-nil xs)
  set_job-going (line ∷ lines) done job is small (here, short) =
      let (next, checked, is_next) = store_line job done line is (omega arith) in
      let wide : u64 (job.plates_count + 1) ≡ job.plates_count + 1 = omega (arith, is.counted) in
      let (final, rest_runs, is_final) =
        set_job-going lines (done ++ line ∷ []) next is_next
          (omega (arith, length-append done (line ∷ []))) short in
      (
        final,
        rw
            (
              lt→ltb (length line.plate_file_name) max_file_name_size here,
              set?-eq-set job.plates job.plates_count (some line) (omega (arith, is.room, is.size)),
              wide,
              checked,
            )
            rest_runs,
        rw (← append-assoc done (line ∷ []) lines) is_final,
      )
    where
      append-assoc : (xs ys zs : List (PlateLine D)) → (xs ++ ys) ++ zs ≡ xs ++ (ys ++ zs)
      append-assoc [] ys zs = refl
      append-assoc (x ∷ xs) ys zs = ap (λ l. x ∷ l) (append-assoc xs ys zs)

  -- For a job file of fewer than 2 ^ 57 lines with names of at most 255 bytes, when no allocation fails: `set_job` stores every line
  -- inside the array, the job holds them in order, there is room for one more, and the capacity is at
  -- most twice their number and 50.
  pub set_job-IsJob :
      (directory : Bool) (job_file_name : List ℕ) (lines : List (PlateLine D)) {job : Job D}
      → length lines < 2 ^ 57
      → AreShort lines
      → init_job true true directory job_file_name ≡ some job
      → (job' : Job D) × (set_job (granted lines) job ≡ loaded job') × IsJob job' lines
  unfolding init_job
  set_job-IsJob directory job_file_name lines {job} small short e =
      set_job-going lines [] job
        (subst (λ j. IsJob j []) (some_inj e)
          (record {
            counted = refl;
            size = refl;
            room = omega arith;
            bound = omega arith;
            held = refl;
          }))
        (omega arith) short
