-- ===== src/Process.antt =====
-- homeworks/omp_mpi/src/job.c: process_plate, clean_plate and process_plates, which read a plate, bring
-- it to equilibrium and write it. `none` is an access outside an array or through a null pointer.
pub mod Heat
use concurrente2025a_evan_ch.Base.{
  ℕ, Bool, true, false, ◌&&◌, Option, none, some, List, [], ◌∷◌, if◌then◌else◌, ◌>>=◌, ◌==◌,
}
use concurrente2025a_evan_ch.Doubles.{Doubles}
use concurrente2025a_evan_ch.Errors.{exit_success}
use concurrente2025a_evan_ch.Plate.Record.{Plate}
use concurrente2025a_evan_ch.Plate.Omp.{Turns, Ending, finished, running, equilibrate_plate}
use concurrente2025a_evan_ch.Files.{
  ReadCalls, Update, updated, not_updated, set_plate_matrix, update_plate_file,
}

abbrev pub bytes_eq : List ℕ → List ℕ → Bool
bytes_eq [] [] = true
bytes_eq [] (y ∷ ys) = false
bytes_eq (x ∷ xs) [] = false
bytes_eq (x ∷ xs) (y ∷ ys) = (x == y) && bytes_eq xs ys

-- The files after one has been written.
abbrev pub store : (path content : List ℕ) → (List ℕ → Option (List ℕ)) → List ℕ → Option (List ℕ)
store path content files p = if bytes_eq path p then some content else files p

-- What `process_plate` comes to: the loop has used up its rounds, it returns success and the file is
-- written, or it returns success although the file could not be written and
-- the job has been destroyed.
pub data Processed (D : Type 0) : Type 0 where
  not_finished : Processed D
  saved : (plate : Plate D) (path content : List ℕ) → Processed D
  job_destroyed : (error : ℕ) → Processed D

-- The calls that may fail for one plate, and the blocks and the rounds of its team.
pub record Run : Type 0 where
  pub reading : ReadCalls
  pub sizes : List ℕ
  pub rounds : List Turns
  pub got_name : Bool
  pub got_path : Bool
  pub opened : Bool

module _ {D : Type 0} (ops : Doubles D) (of_bits : ℕ → D) (bits : D → ℕ) where
  -- `clean_plate`, by the result of `update_plate_file`.
  unfoldable pub after_update : Plate D → Update → Processed D
  after_update plate (not_updated error) = job_destroyed error
  after_update plate (updated path content) = saved plate path content

  unfoldable pub clean_plate :
      Run → Plate D → (source_directory : Option (List ℕ)) → Option (Processed D)
  unfolding after_update
  clean_plate run plate source_directory = do
    update ← update_plate_file bits run.got_name run.got_path run.opened plate source_directory
    some (after_update plate update)

  unfoldable pub after_equilibrium :
      Run → Plate D → (source_directory : Option (List ℕ)) → Ending D → Option (Processed D)
  unfolding clean_plate
  after_equilibrium run plate source_directory (finished m k) =
      clean_plate run (record plate { plate_matrix = m; k_states = k }) source_directory
  after_equilibrium run plate source_directory (running m k) = some not_finished

  -- When `set_plate_matrix` fails the plate has no matrix yet, and `destroy_plate_matrix` reads through
  -- the null pointer.
  unfoldable pub after_set :
      Run → (source_directory : Option (List ℕ)) → (error : ℕ) → Plate D → Option (Processed D)
  unfolding after_equilibrium
  after_set run source_directory error plate =
      if error == exit_success
      then (equilibrate_plate ops run.sizes run.rounds plate >>= λ ending.
          after_equilibrium run plate source_directory ending)
      else none

  unfoldable pub process_plate :
      Run
      → (files : List ℕ → Option (List ℕ)) → (source_directory : Option (List ℕ)) → Plate D
      → Option (Processed D)
  unfolding after_set
  process_plate run files source_directory plate = do
    loaded ← set_plate_matrix ops of_bits run.reading files plate source_directory
    after_set run source_directory loaded.0 loaded.1

  -- What follows one plate: `rest` goes on with the files as they are then.
  unfoldable pub next_plate :
      (rest : (List ℕ → Option (List ℕ)) → Option (List (Processed D)))
      → (files : List ℕ → Option (List ℕ)) → Processed D
      → Option (List (Processed D))
  next_plate rest files not_finished = some (not_finished ∷ [])
  next_plate rest files (saved plate path content) = do
    processed ← rest (store path content files)
    some (saved plate path content ∷ processed)
  next_plate rest files (job_destroyed error) = none

  -- One plate after the other. The result is only looked at by the loop's test, which reads the job: it
  -- may have been destroyed. A loop that does not end leaves the rest of the plates.
  unfoldable pub process_plates :
      (source_directory : Option (List ℕ))
      → List (Run × Plate D)
      → (files : List ℕ → Option (List ℕ)) → Option (List (Processed D))
  unfolding process_plate next_plate
  process_plates source_directory [] files = some []
  process_plates source_directory ((run, plate) ∷ plates) files = do
    processed ← process_plate run files source_directory plate
    next_plate (process_plates source_directory plates) files processed
