-- ===== src/Tests/FileNames.antt =====
-- File names of homeworks/omp_mpi at concrete bytes.
use concurrente2025a_evan_ch.Base.{ℕ, ◌≡◌, refl, true, some, none, List, [], ◌∷◌, ◌++◌, arith}
use concurrente2025a_evan_ch.Paths.{
  slash, dot, dot_bin, reports_directory, build_file_path, extract_file_name, modify_extension,
  set_plate_file_name, build_report_file_path,
}
use concurrente2025a_evan_ch.Paths.Strings.{strrchr, snprintf, precision, decimal, value_of}
use concurrente2025a_evan_ch.Paths.Extension.{set_plate_file_name_lem}

abbrev pub txt : List ℕ
txt = b't' ∷ b'x' ∷ b't' ∷ []

-- "a/j.txt"
abbrev job_path : List ℕ
job_path = b'a' ∷ b'/' ∷ b'j' ∷ b'.' ∷ b't' ∷ b'x' ∷ b't' ∷ []

no_slash : strrchr txt slash ≡ none
unfolding strrchr
no_slash = refl

pub no_dot : strrchr txt dot ≡ none
unfolding strrchr
no_dot = refl

report_runs :
    build_report_file_path true true true job_path
    ≡ some (reports_directory ++ b'/' ∷ b'j' ∷ b'.' ∷ b't' ∷ b's' ∷ b'v' ∷ [])
unfolding build_report_file_path build_file_path extract_file_name modify_extension strrchr snprintf
    precision
report_runs = refl

set_plate_file_name_lem_example :
    (set_plate_file_name true ((b'p' ∷ []) ++ dot ∷ txt) 42
      ≡ some ((b'p' ∷ []) ++ b'-' ∷ (decimal 42 ++ dot_bin)))
    × (value_of 0 (decimal 42) ≡ 42)
set_plate_file_name_lem_example =
    set_plate_file_name_lem (b'p' ∷ []) txt 42 (omega arith) no_dot (omega arith)
