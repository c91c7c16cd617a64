-- ===== src/RowPlate/Refines.antt =====
-- A visit of a cell by `equilibrate_rows` (homeworks/pthread/src/plate.c) on the plate as an array of rows
-- does what it does on the flat plate.
use concurrente2025a_evan_ch.Base.{
  ℕ, ◌+◌, ◌-◌, ◌*◌, ◌^◌, ◌<◌, ◌≡◌, refl, ap, ◌∙◌, Bool, false, some, List, [], ◌∷◌, arith, length,
  length-append, get_elem?, All, u64_eq, sub64_eq, if◌then◌else◌,
}
use concurrente2025a_evan_ch.Doubles.{Doubles}
use concurrente2025a_evan_ch.Plate.Matrix as Flat
use concurrente2025a_evan_ch.Plate.Matrix.{new_temperature}
use concurrente2025a_evan_ch.Plate.Index.{
  accessed_eq, top_eq, right_eq, bottom_eq, left_eq, row_start,
}
use concurrente2025a_evan_ch.Plate.Cells.{IsValid, IsInner}
use concurrente2025a_evan_ch.Plate.Rows as FlatRows
use concurrente2025a_evan_ch.RowPlate.{PlateMatrix, get_cell, update_cell, visit_cell}
use concurrente2025a_evan_ch.RowPlate.Shape.{Grid, IsShaped, get_cell-Grid}
use concurrente2025a_evan_ch.RowPlate.Flat.{flatten, get_cell-flatten, set_cell-flatten}

module _ {D : Type 0} where
  -- The plate of the later versions that has the same temperatures.
  abbrev pub flat : PlateMatrix D → Flat.PlateMatrix D
  flat m = record {
    rows = m.rows;
    cols = m.cols;
    matrix = flatten m.matrix;
    auxiliary_matrix = flatten m.auxiliary_matrix;
  }

  length-flatten :
      (cols : ℕ) (matrix : List (List D))
      → All (λ (cells : List D). length cells ≡ cols) matrix
      → length (flatten matrix) ≡ length matrix * cols
  length-flatten cols [] wide = omega arith
  length-flatten cols (c ∷ matrix) (here, wide) =
      omega (arith, length-append c (flatten matrix), length-flatten cols matrix wide)

  pub flat-IsValid : (m : PlateMatrix D) → IsShaped m → m.rows * m.cols < 2 ^ 64 → IsValid (flat m)
  flat-IsValid m v fits = record {
    fits = fits;
    current = length-flatten m.cols m.matrix v.current.1 ∙ ap (λ (n : ℕ). n * m.cols) v.current.0;
    previous =
        length-flatten m.cols m.auxiliary_matrix v.previous.1
        ∙ ap (λ (n : ℕ). n * m.cols) v.previous.0;
  }

module _ {D : Type 0} (ops : Doubles D) (mult_constant epsilon : D) (m : PlateMatrix D)
    (v : IsShaped m) (fits : m.rows * m.cols < 2 ^ 64) (row col : ℕ)
    (inner : IsInner m.rows m.cols row col) where
  open inner use {row_low, row_high, col_low, col_high}

  -- A read in both arrays.
  read_both :
      (matrix : List (List D)) (r c i : ℕ)
      → Grid m.rows m.cols matrix
      → r < m.rows
      → c < m.cols
      → i ≡ r * m.cols + c
      → (t : D) × (get_cell matrix r c ≡ some t) × (get_elem? (flatten matrix) i ≡ some t)
  read_both matrix r c i (tall, wide) h k e =
      let (t, f) = get_cell-Grid m.rows m.cols matrix r c (tall, wide) h k in
      (t, f, get_cell-flatten m.cols matrix r c i (refl, wide) (omega arith) k e ∙ f)

  update_cell-flat :
      (matrix : List (List D)) × (update_cell ops m row col mult_constant
        ≡ some (record m { matrix = matrix }))
      × (Flat.update_cell ops (flat m) row col mult_constant
          ≡ some (flat (record m { matrix = matrix })))
      × Grid m.rows m.cols matrix
  unfolding update_cell Flat.update_cell
  update_cell-flat =
      let rows_low = v.rows_small in
      let cols_low = v.cols_small in
      let old = m.auxiliary_matrix in
      let i = row * m.cols + col in
      let above = row_start row m.cols row_low in
      let (here, a1, b1) = read_both old row col i v.previous (omega arith) (omega arith) refl in
      let (top, a2, b2) =
        read_both old (row - 1) col (i - m.cols) v.previous (omega arith) (omega arith)
          (omega arith) in
      let (right, a3, b3) =
        read_both old row (col + 1) (i + 1) v.previous (omega arith) (omega arith) (omega arith) in
      let (bottom, a4, b4) =
        read_both old (row + 1) col (i + m.cols) v.previous (omega arith) (omega arith)
          (omega arith) in
      let (left, a5, b5) =
        read_both old row (col - 1) (i - 1) v.previous (omega arith) (omega arith) (omega arith) in
      let (matrix, e, f, grid) =
        set_cell-flatten m.cols m.matrix row col i
          (new_temperature ops mult_constant here top right bottom left) (refl, v.current.1)
          (omega (arith, v.current.0)) (omega arith) refl in
      (
        matrix,
        rw (
          sub64_eq row 1 row_low (omega arith),
          u64_eq (col + 1) (omega arith),
          u64_eq (row + 1) (omega arith),
          sub64_eq col 1 col_low (omega arith),
          a1,
          a2,
          a3,
          a4,
          a5,
          e,
        ),
        rw (
          top_eq m.rows m.cols row col fits row_low row_high col_low col_high,
          right_eq m.rows m.cols row col fits row_low row_high col_low col_high,
          bottom_eq m.rows m.cols row col fits row_low row_high col_low col_high,
          left_eq m.rows m.cols row col fits row_low row_high col_low col_high,
          accessed_eq m.rows m.cols row col fits row_low row_high col_low col_high,
          b1,
          b2,
          b3,
          b4,
          b5,
          f,
        ),
        (grid.0 ∙ v.current.0, grid.1),
      )

  pub visit_cell-flat :
      (b : Bool)
      → (m' : PlateMatrix D) × (b' : Bool) × (visit_cell ops mult_constant epsilon row col (m, b)
          ≡ some (m', b'))
        × (FlatRows.visit_cell ops mult_constant epsilon row col (flat m, b) ≡ some (flat m', b'))
        × IsShaped m'
  unfolding visit_cell FlatRows.visit_cell
  visit_cell-flat b =
      let (matrix, e, f, grid) = update_cell-flat in
      let i = row * m.cols + col in
      let (new, a1, b1) = read_both matrix row col i grid (omega arith) (omega arith) refl in
      let (old, a2, b2) =
        read_both m.auxiliary_matrix row col i v.previous (omega arith) (omega arith) refl in
      (
        record m { matrix = matrix },
        if ops.gt (ops.fabs (ops.sub new old)) epsilon then false else b,
        rw (e, a1, a2),
        rw (f, accessed_eq m.rows m.cols row col fits row_low row_high col_low col_high, b1, b2),
        record {
          rows_small = v.rows_small;
          cols_small = v.cols_small;
          current = grid;
          previous = v.previous;
        },
      )
