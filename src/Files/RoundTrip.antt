-- ===== src/Files/RoundTrip.antt =====
-- Reading a plate, and reading back the plate that was written (homeworks/omp_mpi/src/plate.c).
use concurrente2025a_evan_ch.Base.{
  ℕ, zero, suc, ◌+◌, ◌*◌, ◌^◌, ◌≤◌, ◌<◌, ◌≡◌, refl, sym, ap, ◌∙◌, true, Option, some, List, [], ◌∷◌,
  ◌++◌, map, arith, ◌>>=◌, length, length-append, length-replicate, take, take_all, drop, replicate,
  u64_eq, some_inj,
}
use concurrente2025a_evan_ch.Doubles.{Doubles}
use concurrente2025a_evan_ch.Errors.{exit_success}
use concurrente2025a_evan_ch.Plate.Matrix.{PlateMatrix, init_plate_matrix}
use concurrente2025a_evan_ch.Plate.Record.{Plate}
use concurrente2025a_evan_ch.Plate.Cells.{IsValid}
use concurrente2025a_evan_ch.Plate.Heat.{BordersAgree}
use concurrente2025a_evan_ch.Plate.Border.{init_auxiliary_lem}
use concurrente2025a_evan_ch.Paths.{build_file_path, set_plate_file_name}
use concurrente2025a_evan_ch.Files.{
  ReadCalls, updated, load_matrix, set_plate_matrix, open_plate, read_header, after_path,
  after_name, write_plate, update_plate_file,
}
use concurrente2025a_evan_ch.Files.Read.{drop_all, read_rows-cells, read_cells_lem}
use concurrente2025a_evan_ch.Files.Write.{write_rows_lem}

pub record AllGot (calls : ReadCalls) : Type 0 where
  pub path : calls.got_path ≡ true
  pub plate : calls.got ≡ true
  pub matrix : calls.got_matrix ≡ true
  pub auxiliary : calls.got_auxiliary ≡ true

-- The plate's array after the words have been read: those that are missing stay as `calloc` leaves them.
abbrev pub cells_of : {D : Type 0} → Doubles D → (ℕ → D) → (n : ℕ) → List ℕ → List D
cells_of ops of_bits n words =
    map of_bits (take n words) ++ drop (length (take n words)) (replicate n ops.zero_bits)

-- A plate that has just been read: its size, its temperatures, and what the simulation needs.
pub record IsLoaded {D : Type 0} (ops : Doubles D) (rows cols : ℕ) (cells : List D)
    (m : PlateMatrix D) : Type 0 where
  pub rows_read : m.rows ≡ rows
  pub cols_read : m.cols ≡ cols
  pub cells_read : m.matrix ≡ cells
  pub valid : IsValid m
  pub borders : BordersAgree ops.zero_bits m

length-map {ℓ κ} :
    {A : Type ℓ} {B : Type κ} (f : A → B) (xs : List A) → length (map f xs) ≡ length xs
length-map f [] = refl
length-map f (x ∷ xs) = ap suc (length-map f xs)

length-take_le {ℓ} : {A : Type ℓ} (n : ℕ) (xs : List A) → length (take n xs) ≤ n
length-take_le zero xs = omega arith
length-take_le (suc n) [] = omega arith
length-take_le (suc n) (x ∷ xs) = omega (arith, length-take_le n xs)

length-drop_of {ℓ} :
    {A : Type ℓ} (n : ℕ) (xs : List A) → n ≤ length xs → length (drop n xs) + n ≡ length xs
length-drop_of zero xs h = omega arith
length-drop_of (suc n) [] h = absurd (omega arith)
length-drop_of (suc n) (x ∷ xs) h = omega (arith, length-drop_of n xs (omega arith))

module _ {D : Type 0} (ops : Doubles D) (of_bits : ℕ → D) (calls : ReadCalls)
    (got : AllGot calls) where
  length-cells_of : (n : ℕ) (words : List ℕ) → length (cells_of ops of_bits n words) ≡ n
  length-cells_of n words =
      let kept = take n words in
      let zeros = replicate n ops.zero_bits in
      let short = length-take_le n words in
      let zeros_length = length-replicate n ops.zero_bits in
      omega (
        arith,
        length-append (map of_bits kept) (drop (length kept) zeros),
        length-map of_bits kept,
        length-drop_of (length kept) zeros (omega arith),
      )

  -- A header of at least one row and one column, of fewer than 2 ^ 64 cells in all: the file is
  -- accepted whatever its length. The plate gets the words that there are, in order, and zeros for
  -- those that are missing; its arrays are valid and agree on the border.
  pub load_matrix_lem :
      (rows cols : ℕ) (words : List ℕ) (plate : Plate D)
      → rows * cols < 2 ^ 64
      → 1 ≤ rows
      → 1 ≤ cols
      → (m : PlateMatrix D) × (load_matrix ops of_bits calls rows cols words plate
          ≡ some (exit_success, record plate { plate_matrix = m }))
        × IsLoaded ops rows cols (cells_of ops of_bits (rows * cols) words) m
  unfolding load_matrix init_plate_matrix
  load_matrix_lem rows cols words plate fits tall wide =
      let n = rows * cols in
      let zeros = replicate n ops.zero_bits in
      let kept = take n words in
      let cells = cells_of ops of_bits n words in
      let m0 : PlateMatrix D = record {
        rows = rows;
        cols = cols;
        matrix = cells;
        auxiliary_matrix = zeros;
      } in
      let v0 : IsValid m0 = record {
        fits = fits;
        current = length-cells_of n words;
        previous = length-replicate n ops.zero_bits;
      } in
      let (aux, runs, v, agree) = init_auxiliary_lem m0 ops.zero_bits v0 tall wide in
      let short = length-take_le n words in
      (
        record m0 { auxiliary_matrix = aux },
        rw
            (
              got.plate,
              got.matrix,
              got.auxiliary,
              u64_eq (rows * cols) fits,
              read_rows-cells of_bits rows cols 0 words zeros,
              read_cells_lem of_bits kept zeros (omega (arith, length-replicate n ops.zero_bits)),
              runs,
            )
            refl,
        record {
          rows_read = refl;
          cols_read = refl;
          cells_read = refl;
          valid = v;
          borders = agree;
        },
      )

  -- The same for `set_plate_matrix`, of the file that the plate's path leads to.
  pub set_plate_matrix_lem :
      (files : List ℕ → Option (List ℕ)) (source_directory : Option (List ℕ)) (path : List ℕ)
      (rows cols : ℕ) (words : List ℕ) (plate : Plate D)
      → build_file_path true source_directory (some plate.file_name) ≡ some path
      → files path ≡ some (rows ∷ cols ∷ words)
      → rows * cols < 2 ^ 64
      → 1 ≤ rows
      → 1 ≤ cols
      → (m : PlateMatrix D) × (set_plate_matrix ops of_bits calls files plate source_directory
          ≡ some (exit_success, record plate { plate_matrix = m }))
        × IsLoaded ops rows cols (cells_of ops of_bits (rows * cols) words) m
  unfolding set_plate_matrix open_plate read_header
  set_plate_matrix_lem files source_directory path rows cols words plate e f fits tall wide =
      let (m, runs, is) = load_matrix_lem rows cols words plate fits tall wide in
      (
        m,
        ap
              (λ b.
                open_plate ops of_bits calls files
                  (build_file_path b source_directory (some plate.file_name)) plate)
              got.path
            ∙ ap (λ p. open_plate ops of_bits calls files p plate) e
            ∙ ap (λ o. read_header ops of_bits calls o plate) f
            ∙ runs,
        is,
      )

append_nil {ℓ} : {A : Type ℓ} (xs : List A) → xs ++ [] ≡ xs
append_nil [] = refl
append_nil (x ∷ xs) = ap (λ ys. x ∷ ys) (append_nil xs)

module _ {D : Type 0} (ops : Doubles D) (of_bits : ℕ → D) (bits : D → ℕ)
    (same : (d : D) → of_bits (bits d) ≡ d) where
  map-map : (xs : List D) → map of_bits (map bits xs) ≡ xs
  map-map [] = refl
  map-map (x ∷ xs) =
      ap (λ y. y ∷ map of_bits (map bits xs)) (same x) ∙ ap (λ ys. x ∷ ys) (map-map xs)

  -- The words of an array are read as that array.
  pub cells_of-bits :
      (n : ℕ) (cells : List D) → length cells ≡ n → cells_of ops of_bits n (map bits cells) ≡ cells
  cells_of-bits n cells e =
      let kept : take n (map bits cells) ≡ map bits cells =
        take_all n (map bits cells) (omega (arith, length-map bits cells)) in
      let none_left : drop (length (map bits cells)) (replicate n ops.zero_bits) ≡ [] =
        drop_all (length (map bits cells)) (replicate n ops.zero_bits)
          (omega (arith, length-map bits cells, length-replicate n ops.zero_bits)) in
      ap (λ ws. map of_bits ws ++ drop (length ws) (replicate n ops.zero_bits)) kept
      ∙ ap (λ rest. map of_bits (map bits cells) ++ rest) none_left
      ∙ append_nil (map of_bits (map bits cells))
      ∙ map-map cells

-- What a successful `update_plate_file` writes: the header and the temperatures.
pub update_plate_file_lem :
    {D : Type 0} (bits : D → ℕ) (plate : Plate D) (source_directory : Option (List ℕ))
    (name path : List ℕ)
    → IsValid plate.plate_matrix
    → set_plate_file_name true plate.file_name plate.k_states ≡ some name
    → build_file_path true source_directory (some name) ≡ some path
    → update_plate_file bits true true true plate source_directory
      ≡ some (
          updated path (
            plate.plate_matrix.rows ∷ plate.plate_matrix.cols ∷ map bits plate.plate_matrix.matrix))
unfolding update_plate_file after_name after_path write_plate
update_plate_file_lem bits plate source_directory name path v e f =
    let m = plate.plate_matrix in
    ap (after_name bits true true plate source_directory) e
    ∙ ap (after_path bits true plate) f
    ∙ ap (λ (o : Option (List ℕ)). o >>= λ words. some (updated path (m.rows ∷ m.cols ∷ words)))
        (write_rows_lem bits m.rows m.cols m.matrix v.current)

-- A valid plate of at least one row and one column that update_plate_file has written, with no call
-- failing: when set_plate_matrix opens that file for any plate record, it gets the same rows, columns
-- and temperatures. A double is the word that it was written as.
pub set-update :
    {D : Type 0} (ops : Doubles D) (of_bits : ℕ → D) (bits : D → ℕ) (calls : ReadCalls)
    (files : List ℕ → Option (List ℕ)) (source_directory : Option (List ℕ))
    (name path content : List ℕ) (plate other : Plate D)
    → ((d : D) → of_bits (bits d) ≡ d)
    → AllGot calls
    → IsValid plate.plate_matrix
    → 1 ≤ plate.plate_matrix.rows
    → 1 ≤ plate.plate_matrix.cols
    → set_plate_file_name true plate.file_name plate.k_states ≡ some name
    → build_file_path true source_directory (some name) ≡ some path
    → update_plate_file bits true true true plate source_directory ≡ some (updated path content)
    → files path ≡ some content
    → other.file_name ≡ name
    → (m : PlateMatrix D) × (set_plate_matrix ops of_bits calls files other source_directory
        ≡ some (exit_success, record other { plate_matrix = m }))
      × IsLoaded ops plate.plate_matrix.rows plate.plate_matrix.cols plate.plate_matrix.matrix m
set-update ops of_bits bits calls files source_directory name path content plate other same got v
      tall wide named built wrote stored opened =
    let m = plate.plate_matrix in
    let written = update_plate_file_lem bits plate source_directory name path v named built in
    let content_is : content ≡ m.rows ∷ m.cols ∷ map bits m.matrix =
      updated_content (some_inj (sym wrote ∙ written)) in
    let (m', runs, is) =
      set_plate_matrix_lem ops of_bits calls got files source_directory path m.rows m.cols
        (map bits m.matrix) other
        (ap (λ n. build_file_path true source_directory (some n)) opened ∙ built)
        (stored ∙ ap some content_is) v.fits tall wide in
    (
      m',
      runs,
      record {
        rows_read = is.rows_read;
        cols_read = is.cols_read;
        cells_read =
            is.cells_read
            ∙ cells_of-bits ops of_bits bits same (m.rows * m.cols) m.matrix v.current;
        valid = is.valid;
        borders = is.borders;
      },
    )
  where
    updated_content : {p q a b : List ℕ} → updated p a ≡ updated q b → a ≡ b
    updated_content e = cc
