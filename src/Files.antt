-- ===== src/Files.antt =====
-- Plate files of homeworks/omp_mpi/src/plate.c: set_plate_matrix and update_plate_file. A file is its list
-- of 64-bit words; `bits` and `of_bits` say which word a `double` is. The file system is a function from
-- paths to files. `none` is an access outside an array or through a null pointer.
pub mod Read
pub mod Write
pub mod RoundTrip
use concurrente2025a_evan_ch.Base.{
  ℕ, zero, suc, ◌+◌, Bool, Option, none, some, List, [], ◌∷◌, ◌++◌, if◌then◌else◌, ◌>>=◌, get_elem?,
  set?, take, drop,
}
use concurrente2025a_evan_ch.Doubles.{Doubles}
use concurrente2025a_evan_ch.Errors.{
  exit_success, exit_failure, err_open_plate_file, err_rows_cols, err_update_output_file_name,
  err_build_output_file_name,
}
use concurrente2025a_evan_ch.Plate.Matrix.{PlateMatrix, init_plate_matrix, init_auxiliary}
use concurrente2025a_evan_ch.Plate.Record.{Plate}
use concurrente2025a_evan_ch.Paths.{build_file_path, set_plate_file_name}

-- Which allocations succeed while a plate is read.
pub record ReadCalls : Type 0 where
  pub got_path : Bool
  pub got : Bool
  pub got_matrix : Bool
  pub got_auxiliary : Bool

-- What `update_plate_file` comes to: an error, or the path and the content of the file.
pub data Update : Type 0 where
  not_updated : (error : ℕ) → Update
  updated : (path content : List ℕ) → Update

module _ {D : Type 0} (of_bits : ℕ → D) where
  -- `fread` of the words into an array, from index `offset` on.
  unfoldable pub read_cells : (offset : ℕ) (words : List ℕ) → List D → Option (List D)
  read_cells offset [] cells = some cells
  read_cells offset (word ∷ words) cells =
      set? cells offset (of_bits word) >>= λ cells'. read_cells (suc offset) words cells'

  -- The loop over the rows; a row that the file does not have is left as it is.
  unfoldable pub read_rows : (rows cols offset : ℕ) (words : List ℕ) → List D → Option (List D)
  unfolding read_cells
  read_rows zero cols offset words cells = some cells
  read_rows (suc rows) cols offset words cells =
      read_cells offset (take cols words) cells >>= λ cells'.
      read_rows rows cols (offset + cols) (drop cols words) cells'

module _ {D : Type 0} (bits : D → ℕ) where
  -- `fwrite` of `count` elements from index `offset` on.
  unfoldable pub write_cells : (count offset : ℕ) → List D → Option (List ℕ)
  write_cells zero offset cells = some []
  write_cells (suc count) offset cells = do
    v ← get_elem? cells offset
    rest ← write_cells count (suc offset) cells
    some (bits v ∷ rest)

  unfoldable pub write_rows : (rows cols offset : ℕ) → List D → Option (List ℕ)
  unfolding write_cells
  write_rows zero cols offset cells = some []
  write_rows (suc rows) cols offset cells = do
    row ← write_cells cols offset cells
    rest ← write_rows rows cols (offset + cols) cells
    some (row ++ rest)

  -- When the file cannot be opened, `fclose` is called with a null pointer.
  unfoldable pub write_plate : (opened : Bool) (path : List ℕ) → PlateMatrix D → Option Update
  write_plate opened path m =
      if opened
      then (write_rows m.rows m.cols 0 m.matrix >>= λ words.
          some (updated path (m.rows ∷ m.cols ∷ words)))
      else none

  -- What follows the name of the file and its path.
  unfoldable pub after_path : (opened : Bool) → Plate D → Option (List ℕ) → Option Update
  after_path opened plate none = some (not_updated err_build_output_file_name)
  after_path opened plate (some path) = write_plate opened path plate.plate_matrix

  unfoldable pub after_name :
      (got_path opened : Bool)
      → Plate D
      → (source_directory updated_file_name : Option (List ℕ)) → Option Update
  after_name got_path opened plate source_directory none =
      some (not_updated err_update_output_file_name)
  after_name got_path opened plate source_directory (some name) =
      after_path opened plate (build_file_path got_path source_directory (some name))

  unfoldable pub update_plate_file :
      (got_name got_path opened : Bool)
      → Plate D
      → (source_directory : Option (List ℕ)) → Option Update
  update_plate_file got_name got_path opened plate source_directory =
      after_name got_path opened plate source_directory
        (set_plate_file_name got_name plate.file_name plate.k_states)

module _ {D : Type 0} (ops : Doubles D) (of_bits : ℕ → D) (calls : ReadCalls) where
  -- The words after the header. `init_plate_matrix` returns a null pointer that is then followed.
  unfoldable pub load_matrix : (rows cols : ℕ) (words : List ℕ) → Plate D → Option (ℕ × Plate D)
  load_matrix rows cols words plate = do
    m ← init_plate_matrix ops calls.got calls.got_matrix calls.got_auxiliary rows cols
    cells ← read_rows of_bits rows cols 0 words m.matrix
    m' ← init_auxiliary (record m { matrix = cells })
    some (exit_success, record plate { plate_matrix = m' })

  unfoldable pub read_header : Option (List ℕ) → Plate D → Option (ℕ × Plate D)
  read_header none plate = some (err_open_plate_file, plate)
  read_header (some []) plate = some (err_rows_cols, plate)
  read_header (some (rows ∷ [])) plate = some (err_rows_cols, plate)
  read_header (some (rows ∷ cols ∷ words)) plate = load_matrix rows cols words plate

  unfoldable pub open_plate :
      (files : List ℕ → Option (List ℕ)) (path : Option (List ℕ)) → Plate D → Option (ℕ × Plate D)
  open_plate files none plate = some (exit_failure, plate)
  open_plate files (some path) plate = read_header (files path) plate

  unfoldable pub set_plate_matrix :
      (files : List ℕ → Option (List ℕ))
      → Plate D
      → (source_directory : Option (List ℕ)) → Option (ℕ × Plate D)
  set_plate_matrix files plate source_directory =
      open_plate files (build_file_path calls.got_path source_directory (some plate.file_name))
        plate
