-- ===== src/Tests/WholePlate.antt =====
-- A plate of homeworks/omp_mpi from its file to the file of its equilibrium.
use concurrente2025a_evan_ch.Base.{
  ℕ, ◌+◌, ◌*◌, ◌/◌, ◌%◌, ◌≡◌, refl, true, false, Option, none, some, List, [], ◌∷◌, map, arith,
  if◌then◌else◌, ◌==◌,
}
use concurrente2025a_evan_ch.Base.Int.{ℤ, pos, negsuc}
use concurrente2025a_evan_ch.Errors.{exit_success}
use concurrente2025a_evan_ch.Tests.Fixed.{quarters}
use concurrente2025a_evan_ch.Tests.HeatPlate.{start, ready, quarter, rounds, turns-IsFair}
use concurrente2025a_evan_ch.Tests.FileNames.{txt, no_dot}
use concurrente2025a_evan_ch.Paths.{dot, dot_bin, slash, build_file_path, set_plate_file_name}
use concurrente2025a_evan_ch.Paths.Strings.{strrchr, snprintf, precision, decimal}
use concurrente2025a_evan_ch.Plate.Matrix.{PlateMatrix, new_temperature}
use concurrente2025a_evan_ch.Plate.Cells.{stencil}
use concurrente2025a_evan_ch.Plate.Heat.{heat}
use concurrente2025a_evan_ch.Plate.Omp.{StopsAt}
use concurrente2025a_evan_ch.Plate.Record.{Plate, calculate_mult_constant}
use concurrente2025a_evan_ch.Files.{
  ReadCalls, updated, load_matrix, set_plate_matrix, update_plate_file,
}
use concurrente2025a_evan_ch.Files.RoundTrip.{
  AllGot, IsLoaded, load_matrix_lem, update_plate_file_lem, set-update,
}
use concurrente2025a_evan_ch.Process.{Run, saved, process_plate, bytes_eq}
use concurrente2025a_evan_ch.Process.Heat.{IsSimulated, final_path, process_plate-heat}

abbrev bits : ℤ → ℕ
bits (pos n) = 2 * n
bits (negsuc n) = 2 * n + 1

abbrev of_bits : ℕ → ℤ
of_bits w = if w % 2 == 0 then pos (w / 2) else negsuc (w / 2)

same_double : (d : ℤ) → of_bits (bits d) ≡ d
same_double (pos n) =
    let even : (2 * n % 2 == 0) ≡ true = ground arith in
    let half : 2 * n / 2 ≡ n = omega arith in rw (even, half) refl
same_double (negsuc n) =
    let odd : ((2 * n + 1) % 2 == 0) ≡ false = ground arith in
    let half : (2 * n + 1) / 2 ≡ n = omega arith in rw (odd, half) refl

abbrev calls : ReadCalls
calls = record { got_path = true; got = true; got_matrix = true; got_auxiliary = true }

calls-AllGot : AllGot calls
calls-AllGot = record { path = refl; plate = refl; matrix = refl; auxiliary = refl }

abbrev run : Run
run = record {
  reading = calls;
  sizes = [];
  rounds = rounds;
  got_name = true;
  got_path = true;
  opened = true;
}

abbrev input_path : List ℕ
input_path = b'd' ∷ slash ∷ b'p' ∷ dot ∷ txt

abbrev files : List ℕ → Option (List ℕ)
files path = if bytes_eq path input_path then some (3 ∷ 3 ∷ map bits start.matrix) else none

abbrev plate : Plate ℤ
plate = record {
  file_name = b'p' ∷ dot ∷ txt;
  plate_matrix = record { rows = 0; cols = 0; matrix = []; auxiliary_matrix = [] };
  thermal_diffusivity = pos 4;
  interval_duration = 1;
  cells_dimension = pos 8;
  epsilon = quarter;
  k_states = 0;
}

stops : StopsAt quarters (calculate_mult_constant quarters plate) quarter 3 3 1 start.matrix
unfolding stencil new_temperature calculate_mult_constant
stops = (refl, refl)

plate-IsSimulated :
    IsSimulated quarters bits (b'd' ∷ []) files run plate (b'p' ∷ []) txt 3 3 1 start.matrix
plate-IsSimulated = record {
  name = refl;
  last_dot = no_dot;
  stem_short = omega arith;
  path_short = omega arith;
  final_short = omega arith;
  not_started = refl;
  stored = refl;
  cells_length = refl;
  fits = omega arith;
  tall = omega arith;
  wide = omega arith;
  all_got = calls-AllGot;
  named = refl;
  located = refl;
  opens = refl;
  fair = (turns-IsFair, (turns-IsFair, (turns-IsFair, tt)));
  enough = omega arith;
  states_small = omega arith;
  stops = stops;
}

process_plate-heat_example :
    (m : PlateMatrix ℤ) × (process_plate quarters of_bits bits run files (some (b'd' ∷ [])) plate
      ≡ some (
          saved
            (record plate { plate_matrix = m; k_states = 2 })
            (final_path (b'd' ∷ []) (b'p' ∷ []) 2)
            (3
              ∷ 3
              ∷ map bits
                  (heat quarters (calculate_mult_constant quarters plate) 3 3 2 start.matrix))))
process_plate-heat_example =
    process_plate-heat quarters of_bits bits same_double (b'd' ∷ []) files run plate (b'p' ∷ []) txt
      3 3 1 start.matrix plate-IsSimulated

abbrev loaded : Plate ℤ
loaded = record plate { plate_matrix = ready; k_states = 2 }

-- "p-2.bin", and the same in the folder "d".
abbrev final_name : List ℕ
final_name = b'p' ∷ b'-' ∷ b'2' ∷ dot_bin

named : set_plate_file_name true (b'p' ∷ dot ∷ txt) 2 ≡ some final_name
unfolding set_plate_file_name strrchr snprintf precision decimal
named = refl

built : build_file_path true (some (b'd' ∷ [])) (some final_name) ≡ some (b'd' ∷ slash ∷ final_name)
unfolding build_file_path snprintf
built = refl

abbrev content : List ℕ
content = 3 ∷ 3 ∷ map bits ready.matrix

wrote :
    update_plate_file bits true true true loaded (some (b'd' ∷ []))
    ≡ some (updated (b'd' ∷ slash ∷ final_name) content)
wrote =
    update_plate_file_lem bits loaded (some (b'd' ∷ [])) final_name (b'd' ∷ slash ∷ final_name)
      (omega arith) named built

set-update_example :
    (m : PlateMatrix ℤ) × (set_plate_matrix quarters of_bits calls
        (λ path. some content)
        (record plate { file_name = final_name })
        (some (b'd' ∷ []))
      ≡ some (exit_success, record plate { file_name = final_name; plate_matrix = m }))
    × IsLoaded quarters 3 3 ready.matrix m
set-update_example =
    set-update quarters of_bits bits calls (λ path. some content) (some (b'd' ∷ [])) final_name
      (b'd' ∷ slash ∷ final_name) content loaded (record plate { file_name = final_name })
      same_double calls-AllGot (omega arith) (omega arith) (omega arith) named built wrote refl refl

-- A file of three words for a plate of six cells.
load_matrix_lem_example :
    (m : PlateMatrix ℤ) × (load_matrix quarters of_bits calls 2 3 (2 ∷ 4 ∷ 6 ∷ []) plate
      ≡ some (exit_success, record plate { plate_matrix = m }))
    × IsLoaded quarters 2 3 (pos 1 ∷ pos 2 ∷ pos 3 ∷ pos 0 ∷ pos 0 ∷ pos 0 ∷ []) m
load_matrix_lem_example =
    load_matrix_lem quarters of_bits calls calls-AllGot 2 3 (2 ∷ 4 ∷ 6 ∷ []) plate (omega arith)
      (omega arith) (omega arith)
