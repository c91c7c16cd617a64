-- ===== src/Job.antt =====
-- homeworks/omp_mpi/src/job.c: the plates of a job in an array that grows.
pub mod Grow
use concurrente2025a_evan_ch.Base.{
  ℕ, ◌+◌, ◌-◌, ◌*◌, ◌/◌, ◌%◌, ◌^◌, Bool, Option, none, some, List, [], ◌∷◌, ◌++◌, ◌==◌, ltb,
  if◌then◌else◌, u64, length, take, replicate, set?,
}
use concurrente2025a_evan_ch.Errors.{err_plate_alloc, err_plate_file_name_alloc}
use concurrente2025a_evan_ch.Paths.{extract_directory}

-- What `fscanf` reads from one line of the job file, and `set_job` stores in a plate.
pub record PlateLine (D : Type 0) : Type 0 where
  pub plate_file_name : List ℕ
  pub interval_duration : ℕ
  pub thermal_diffusivity : D
  pub cells_dimension : D
  pub epsilon : D

-- `job_t`
pub record Job (D : Type 0) : Type 0 where
  pub file_name : List ℕ
  pub source_directory : Option (List ℕ)
  pub plates_count : ℕ
  pub plates_capacity : ℕ
  pub plates : List (Option (PlateLine D))

-- Which calls that allocate memory succeed while one line is stored.
pub record Allocations : Type 0 where
  pub plate : Bool
  pub name : Bool
  pub expansion : Bool

abbrev pub starting_capacity : ℕ
starting_capacity = 50

unfoldable pub init_job : {D : Type 0} (job plates directory : Bool) → List ℕ → Option (Job D)
unfolding extract_directory
init_job job plates directory job_file_name =
    if job
    then if plates
      then some (record {
        file_name = job_file_name;
        source_directory = extract_directory directory (some job_file_name);
        plates_count = 0;
        plates_capacity = starting_capacity;
        plates = replicate starting_capacity none;
      })
      else none
    else none

-- `none` if the array cannot grow: the job has been destroyed then. A pointer takes 8 bytes.
unfoldable pub expand_job : {D : Type 0} (granted : Bool) → Job D → Option (Job D)
expand_job granted job =
    let capacity = u64 (job.plates_capacity * 2) in
    let slots = u64 (8 * capacity) / 8 in
    if granted
    then some (record job {
      plates_capacity = capacity;
      plates = take slots job.plates ++ replicate (slots - length job.plates) none;
    })
    else none

unfoldable pub check_capacity : {D : Type 0} (granted : Bool) → Job D → Option (Job D)
unfolding expand_job
check_capacity granted job =
    let expanded = expand_job granted job in
    if job.plates_count == job.plates_capacity then expanded else some job

-- What the loop of `set_job` comes to. `freed_twice`: the job is destroyed by `expand_job` and then by
-- `set_job`. `fault`: a store outside the array of plates or the buffer of a name.
pub data Loading (D : Type 0) : Type 0 where
  loaded : Job D → Loading D
  failed : (error : ℕ) → Loading D
  freed_twice : Loading D
  fault : Loading D

abbrev pub after_check : {D : Type 0} → Option (Job D) → (Job D → Loading D) → Loading D
after_check none next = freed_twice
after_check (some job) next = next job

abbrev pub after_store :
    {D : Type 0} (granted : Bool)
    → Option (List (Option (PlateLine D)))
    → Job D
    → (Job D → Loading D)
    → Loading D
after_store granted none job next = fault
after_store granted (some plates) job next =
    after_check
      (check_capacity granted
        (record job { plates = plates; plates_count = u64 (job.plates_count + 1) }))
      next

-- MAX_FILE_NAME_SIZE, the bytes that `fscanf` may store of a name and its end.
abbrev pub max_file_name_size : ℕ
max_file_name_size = 256

-- The loop of `set_job`, over the lines that `fscanf` reads whole.
unfoldable pub set_job : {D : Type 0} → List (Allocations × PlateLine D) → Job D → Loading D
set_job [] job = loaded job
set_job ((got, line) ∷ lines) job =
    let stored =
      (if got.plate
        then if got.name
          then after_store got.expansion (set? job.plates job.plates_count (some line)) job
              (set_job lines)
          else failed err_plate_file_name_alloc
        else failed err_plate_alloc) in
    if ltb (length line.plate_file_name) max_file_name_size then stored else fault
