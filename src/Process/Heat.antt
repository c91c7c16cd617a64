-- ===== src/Process/Heat.antt =====
-- A plate from its file to the file of its equilibrium (homeworks/omp_mpi/src/job.c and plate.c).
use concurrente2025a_evan_ch.Base.{
  ℕ, suc, ◌+◌, ◌*◌, ◌^◌, ◌≤◌, ◌<◌, ◌≡◌, ap, ap₂, ◌∙◌, true, Option, none, some, List, ◌∷◌, ◌++◌,
  map, arith, ◌>>=◌, length, length-append, All, sub64, u64,
}
use concurrente2025a_evan_ch.Doubles.{Doubles}
use concurrente2025a_evan_ch.Paths.{slash, dot, dot_bin, build_file_path, set_plate_file_name}
use concurrente2025a_evan_ch.Paths.Strings.{strrchr, decimal, length-decimal}
use concurrente2025a_evan_ch.Paths.Split.{build_file_path_lem}
use concurrente2025a_evan_ch.Paths.Extension.{set_plate_file_name_lem}
use concurrente2025a_evan_ch.Plate.Matrix.{PlateMatrix}
use concurrente2025a_evan_ch.Plate.Record.{Plate, calculate_mult_constant}
use concurrente2025a_evan_ch.Plate.Cells.{IsValid}
use concurrente2025a_evan_ch.Plate.Heat.{heat}
use concurrente2025a_evan_ch.Plate.Omp.{
  Ending, finished, IsFair, omp_team, StopsAt, omp_loop-heat, equilibrate_plate,
}
use concurrente2025a_evan_ch.Files.{Update, update_plate_file}
use concurrente2025a_evan_ch.Files.RoundTrip.{
  AllGot, cells_of-bits, set_plate_matrix_lem, update_plate_file_lem,
}
use concurrente2025a_evan_ch.Process.{
  Run, saved, process_plate, after_set, after_equilibrium, clean_plate, after_update,
}

-- The path of the file that the final plate is written to.
abbrev pub final_path : (directory stem : List ℕ) (k_states : ℕ) → List ℕ
final_path directory stem k_states =
    directory ++ slash ∷ (stem ++ b'-' ∷ (decimal k_states ++ dot_bin))

-- A plate that can be simulated: its file holds `cells`, no call fails, every thread of the team joins
-- its flag, and its simulation is first calm after `n` states, for which there are rounds enough.
pub record IsSimulated {D : Type 0} (ops : Doubles D) (bits : D → ℕ) (directory : List ℕ)
    (files : List ℕ → Option (List ℕ)) (run : Run) (plate : Plate D) (stem old : List ℕ)
    (rows cols n : ℕ) (cells : List D) : Type 0 where
  pub name : plate.file_name ≡ stem ++ dot ∷ old
  pub last_dot : strrchr old dot ≡ none
  pub stem_short : length stem < 2 ^ 31
  pub path_short : length directory + length (stem ++ dot ∷ old) + 2 < 2 ^ 64
  pub final_short : length directory + length stem + 27 < 2 ^ 64
  pub not_started : plate.k_states ≡ 0
  pub stored :
      files (directory ++ slash ∷ (stem ++ dot ∷ old)) ≡ some (rows ∷ cols ∷ map bits cells)
  pub cells_length : length cells ≡ rows * cols
  pub fits : rows * cols < 2 ^ 64
  pub tall : 2 ≤ rows
  pub wide : 1 ≤ cols
  pub all_got : AllGot run.reading
  pub named : run.got_name ≡ true
  pub located : run.got_path ≡ true
  pub opens : run.opened ≡ true
  pub fair : All (IsFair (omp_team run.sizes 1 (sub64 rows 1))) run.rounds
  pub enough : n < length run.rounds
  pub states_small : n + 1 < 2 ^ 64
  pub stops : StopsAt ops (calculate_mult_constant ops plate) plate.epsilon rows cols n cells

module _ {D : Type 0} (ops : Doubles D) (of_bits : ℕ → D) (bits : D → ℕ)
    (same : (d : D) → of_bits (bits d) ≡ d) where
  -- Writing the final plate.
  after_equilibrium_lem :
      (run : Run) (directory stem old : List ℕ) (plate : Plate D) (m : PlateMatrix D) (k : ℕ)
      → plate.file_name ≡ stem ++ dot ∷ old
      → strrchr old dot ≡ none
      → length stem < 2 ^ 31
      → length directory + length stem + 27 < 2 ^ 64
      → k < 2 ^ 64
      → (run.got_name ≡ true) × (run.got_path ≡ true) × (run.opened ≡ true)
      → IsValid m
      → after_equilibrium ops of_bits bits run plate (some directory) (finished m k)
        ≡ some (
            saved
              (record plate { plate_matrix = m; k_states = k })
              (final_path directory stem k)
              (m.rows ∷ m.cols ∷ map bits m.matrix))
  unfolding after_equilibrium clean_plate after_update
  after_equilibrium_lem run directory stem old plate m k e dots short long small (a, b, c) v =
      let final = record plate { plate_matrix = m; k_states = k } in
      let name = stem ++ b'-' ∷ (decimal k ++ dot_bin) in
      let named : set_plate_file_name true plate.file_name k ≡ some name =
        ap (λ f. set_plate_file_name true f k) e
        ∙ (set_plate_file_name_lem stem old k short dots small).0 in
      let built : build_file_path true (some directory) (some name)
          ≡ some (final_path directory stem k) =
        build_file_path_lem directory name (
          omega (
            arith,
            length-append stem (b'-' ∷ (decimal k ++ dot_bin)),
            length-append (decimal k) dot_bin,
            length-decimal k,
          )) in
      ap (λ (o : Option Update). o >>= λ u. some (after_update ops of_bits bits final u))
        (ap (λ t. update_plate_file bits t run.got_path run.opened final (some directory)) a
          ∙ ap (λ t. update_plate_file bits true t run.opened final (some directory)) b
          ∙ ap (λ t. update_plate_file bits true true t final (some directory)) c
          ∙ update_plate_file_lem bits final (some directory) name (final_path directory stem k) v
              named built)

  -- A plate that can be simulated, of at least two rows and one column: process_plate returns success
  -- and writes the number of rows and columns and the temperatures after n + 1 states of the
  -- mathematical simulation, to the file whose name is the stem with -(n + 1).bin. This holds for every
  -- division of the rows and every interleaving of the team. A double is the word that it was written as.
  pub process_plate-heat :
      (directory : List ℕ) (files : List ℕ → Option (List ℕ)) (run : Run) (plate : Plate D)
      (stem old : List ℕ) (rows cols n : ℕ) (cells : List D)
      → IsSimulated ops bits directory files run plate stem old rows cols n cells
      → (m : PlateMatrix D) × (process_plate ops of_bits bits run files (some directory) plate
          ≡ some (
              saved
                (record plate { plate_matrix = m; k_states = n + 1 })
                (final_path directory stem (n + 1))
                (rows
                  ∷ cols
                  ∷ map bits
                      (heat ops (calculate_mult_constant ops plate) rows cols (n + 1) cells))))
  unfolding process_plate after_set equilibrate_plate calculate_mult_constant
  process_plate-heat directory files run plate stem old rows cols n cells h =
      let path = directory ++ slash ∷ (stem ++ dot ∷ old) in
      let mult = calculate_mult_constant ops plate in
      let tall = h.tall in
      let (m, runs, is) =
        set_plate_matrix_lem ops of_bits run.reading h.all_got files (some directory) path rows cols
          (map bits cells) plate
          (ap (λ f. build_file_path true (some directory) (some f)) h.name
            ∙ build_file_path_lem directory (stem ++ dot ∷ old) h.path_short)
          h.stored h.fits (omega arith) h.wide in
      let same_cells : m.matrix ≡ cells =
        is.cells_read ∙ cells_of-bits ops of_bits bits same (rows * cols) cells h.cells_length in
      let (m', loops, is_heat, valid, same_rows, same_cols) =
        omp_loop-heat ops mult plate.epsilon run.sizes n run.rounds m plate.k_states is.valid
          is.borders (rw is.rows_read h.tall) (rw is.cols_read h.wide) (rw is.rows_read h.fair)
          h.enough (rw (is.rows_read, is.cols_read, same_cells) h.stops) in
      let small = h.states_small in
      let one_more : suc n ≡ n + 1 = omega arith in
      let same_heat : heat ops mult m.rows m.cols (suc n) m.matrix
          ≡ heat ops mult rows cols (n + 1) cells =
        ap₂ (λ r c. heat ops mult r c (suc n) m.matrix) is.rows_read is.cols_read
        ∙ ap₂ (heat ops mult rows cols) one_more same_cells in
      let counted : u64 (plate.k_states + suc n) ≡ n + 1 = omega (arith, h.not_started) in
      (
        m',
        ap
              (λ (o : Option (ℕ × Plate D)).
                o >>= λ loaded. after_set ops of_bits bits run (some directory) loaded.0 loaded.1)
              runs
            ∙ ap
                (λ (o : Option (Ending D)). o >>= λ ending.
                  after_equilibrium ops of_bits bits run (record plate { plate_matrix = m })
                    (some directory) ending)
                (loops ∙ ap (λ k. some (finished m' k)) counted)
            ∙ after_equilibrium_lem run directory stem old (record plate { plate_matrix = m }) m'
                (n + 1) h.name h.last_dot h.stem_short h.final_short small
                (h.named, h.located, h.opens) valid
            ∙ ap₂
                (λ r c. some (
                  saved (record plate { plate_matrix = m'; k_states = n + 1 })
                    (final_path directory stem (n + 1)) (r ∷ c ∷ map bits m'.matrix)))
                (same_rows ∙ is.rows_read) (same_cols ∙ is.cols_read)
            ∙ ap
                (λ t. some (
                  saved (record plate { plate_matrix = m'; k_states = n + 1 })
                    (final_path directory stem (n + 1)) (rows ∷ cols ∷ map bits t)))
                (is_heat ∙ same_heat),
      )
