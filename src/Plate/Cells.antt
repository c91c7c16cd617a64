-- ===== src/Plate/Cells.antt =====
-- One cell of a plate: `update_cell` and the body of the loop of `equilibrate_rows`
-- (homeworks/optimized/pthread_optimized/src/plate.c) as writes at flat indices.
use concurrente2025a_evan_ch.Base.{
  ℕ, ◌+◌, ◌-◌, ◌*◌, ◌^◌, ◌≤◌, ◌<◌, ◌≡◌, some, List, arith, length, get_or, get_elem?, set,
  get_elem?-eq-get_or, set?-eq-set,
}
use concurrente2025a_evan_ch.Doubles.{Doubles}
use concurrente2025a_evan_ch.Plate.Index.{
  accessed_eq, top_eq, right_eq, bottom_eq, left_eq, cell_bounds,
}
use concurrente2025a_evan_ch.Plate.Matrix.{PlateMatrix, update_cell, new_temperature}

-- Both arrays hold `rows * cols` cells, and that product does not wrap.
pub record IsValid {D : Type 0} (m : PlateMatrix D) : Type 0 where
  pub fits : m.rows * m.cols < 2 ^ 64
  pub current : length m.matrix ≡ m.rows * m.cols
  pub previous : length m.auxiliary_matrix ≡ m.rows * m.cols

-- A cell that has four neighbours.
pub record IsInner (rows cols row col : ℕ) : Type 0 where
  pub row_low : 1 ≤ row
  pub row_high : row + 1 < rows
  pub col_low : 1 ≤ col
  pub col_high : col + 1 < cols

module _ {D : Type 0} (ops : Doubles D) where
  open ops use {zero_bits, sub, fabs, gt}

  -- The new temperature of the cell at a flat index of a row-major array.
  unfoldable pub stencil : (cols : ℕ) (mult_constant : D) → List D → ℕ → D
  stencil cols mult_constant t i =
      new_temperature ops mult_constant (get_or t i zero_bits) (get_or t (i - cols) zero_bits)
        (get_or t (i + 1) zero_bits) (get_or t (i + cols) zero_bits) (get_or t (i - 1) zero_bits)

  pub update_cell_lem :
      (m : PlateMatrix D) (row col : ℕ) (mult_constant : D)
      → IsValid m
      → IsInner m.rows m.cols row col
      → update_cell ops m row col mult_constant
        ≡ some (record m {
          matrix =
              set m.matrix
                (row * m.cols + col)
                (stencil m.cols mult_constant m.auxiliary_matrix (row * m.cols + col));
        })
  unfolding update_cell stencil
  update_cell_lem m row col k v inner = rw (
    top_eq m.rows m.cols row col v.fits row_low row_high col_low col_high,
    right_eq m.rows m.cols row col v.fits row_low row_high col_low col_high,
    bottom_eq m.rows m.cols row col v.fits row_low row_high col_low col_high,
    left_eq m.rows m.cols row col v.fits row_low row_high col_low col_high,
    accessed_eq m.rows m.cols row col v.fits row_low row_high col_low col_high,
    read (row * m.cols + col) (omega (arith, bounds)),
    read (row * m.cols + col - m.cols) (omega (arith, bounds)),
    read (row * m.cols + col + 1) (omega (arith, bounds)),
    read (row * m.cols + col + m.cols) (omega (arith, bounds)),
    read (row * m.cols + col - 1) (omega (arith, bounds)),
    set?-eq-set m.matrix (row * m.cols + col)
        (stencil m.cols k m.auxiliary_matrix (row * m.cols + col)) (omega (arith, bounds)),
  )
    where
      open inner use {row_low, row_high, col_low, col_high}

      bounds : (row * m.cols + col + m.cols < m.rows * m.cols) × (m.cols ≤ row * m.cols + col)
      bounds = cell_bounds m.rows m.cols row col v.fits row_low row_high col_low col_high

      read :
          (i : ℕ)
          → i < m.rows * m.cols
          → get_elem? m.auxiliary_matrix i ≡ some (get_or m.auxiliary_matrix i zero_bits)
      read i h = get_elem?-eq-get_or m.auxiliary_matrix i zero_bits (omega arith)
