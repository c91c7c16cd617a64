-- ===== src/Paths.antt =====
-- homeworks/omp_mpi/src/common.c and `set_plate_file_name` of homeworks/omp_mpi/src/plate.c: file
-- names and paths. A C string is the list of its bytes, and `none` a null pointer.
pub mod Strings
pub mod Split
pub mod Extension
use concurrente2025a_evan_ch.Base.{
  ℕ, suc, ◌+◌, ◌-◌, ◌%◌, Bool, Option, none, some, List, [], ◌∷◌, ◌++◌, if◌then◌else◌, ◌>>=◌, u64,
  length, take, drop,
}
use concurrente2025a_evan_ch.Paths.Strings.{strrchr, snprintf, decimal, precision}

abbrev pub slash : ℕ
slash = b'/'

abbrev pub dot : ℕ
dot = b'.'

-- In each function `allocated` says whether `calloc` succeeds.
unfoldable pub build_file_path :
    (allocated : Bool) (directory file_name : Option (List ℕ)) → Option (List ℕ)
unfolding snprintf
build_file_path allocated directory file_name = do
  d ← directory
  f ← file_name
  let capacity = u64 (length d + length f + 2)
  if allocated then some (snprintf capacity (d ++ slash ∷ f)) else none

-- What `extract_directory` returns once `strrchr` has answered: a literal, or a copy.
unfoldable pub directory_of :
    (allocated : Bool) (file_path : List ℕ) (last_slash : Option ℕ) → Option (List ℕ)
directory_of allocated file_path none = some []
directory_of allocated file_path (some last_slash) =
    if allocated then some (take last_slash file_path) else none

unfoldable pub extract_directory : (allocated : Bool) → Option (List ℕ) → Option (List ℕ)
unfolding directory_of
extract_directory allocated file_path = do p ← file_path; directory_of allocated p (strrchr p slash)

unfoldable pub extract_file_name : (allocated : Bool) → Option (List ℕ) → Option (List ℕ)
unfolding snprintf
extract_file_name allocated file_path = do
  p ← file_path
  let name : List ℕ = elim (strrchr p slash) [
    | none ↦ p
    | some last_slash ↦ drop (suc last_slash) p
  ]
  if allocated then some (snprintf (u64 (length name + 1)) name) else none

unfoldable pub modify_extension :
    (allocated : Bool) (file_name new_extension : Option (List ℕ)) → Option (List ℕ)
unfolding snprintf precision
modify_extension allocated file_name new_extension = do
  f ← file_name
  e ← new_extension
  last_dot ← strrchr f dot
  let capacity = u64 (last_dot + length e + 2)
  if allocated then some (snprintf capacity (precision last_dot f ++ dot ∷ e)) else none

abbrev pub dot_bin : List ℕ
dot_bin = b'.' ∷ b'b' ∷ b'i' ∷ b'n' ∷ []

-- `set_plate_file_name`: the suffix is printed into an array of 25 bytes.
unfoldable pub set_plate_file_name :
    (allocated : Bool) (file_name : List ℕ) (k_states : ℕ) → Option (List ℕ)
unfolding snprintf precision decimal
set_plate_file_name allocated file_name k_states = do
  last_dot ← strrchr file_name dot
  let suffix = snprintf 25 (decimal k_states ++ dot_bin)
  let new_size = u64 (last_dot + length suffix + 2)
  if allocated
      then some (snprintf new_size (precision last_dot file_name ++ b'-' ∷ suffix))
      else none

abbrev pub reports_directory : List ℕ
reports_directory = b'r' ∷ b'e' ∷ b'p' ∷ b'o' ∷ b'r' ∷ b't' ∷ b's' ∷ []

abbrev pub tsv : List ℕ
tsv = b't' ∷ b's' ∷ b'v' ∷ []

-- `build_report_file_path` of job.c; the arguments say which of its three allocations succeed.
unfoldable pub build_report_file_path :
    (allocated1 allocated2 allocated3 : Bool) → List ℕ → Option (List ℕ)
build_report_file_path allocated1 allocated2 allocated3 job_file_name = do
  file_name ← extract_file_name allocated1 (some job_file_name)
  file_name_tsv ← modify_extension allocated2 (some file_name) (some tsv)
  build_file_path allocated3 (some reports_directory) (some file_name_tsv)
