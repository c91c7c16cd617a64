-- ===== src/Plate/Index.antt =====
-- The flat indices of a cell and of its four neighbours: in range, and computed without a wrap.
use concurrente2025a_evan_ch.Base.{
  ℕ, ◌+◌, ◌-◌, ◌*◌, ◌^◌, ◌≤◌, ◌<◌, ◌≡◌, ap, ◌∙◌, arith, u64, sub64, u64_eq, sub64_eq,
}
use native.Mathlib.Nat.{mul-le-mul_right, le-mul_of_pos_right}

pub row_end :
    (row col rows cols : ℕ) → row + 1 < rows → col < cols → row * cols + cols + col < rows * cols
row_end row col rows cols h k =
    omega (arith, mul-le-mul_right {m = row + 2} {n = rows} cols (omega arith))

pub cell_end : (row col rows cols : ℕ) → row < rows → col < cols → row * cols + col < rows * cols
cell_end row col rows cols h k =
    omega (arith, mul-le-mul_right {m = row + 1} {n = rows} cols (omega arith))

pub row_start : (row cols : ℕ) → 1 ≤ row → (row - 1) * cols + cols ≡ row * cols
row_start row cols h =
    let e : row - 1 + 1 ≡ row = omega arith in omega (arith, ap (λ (r : ℕ). r * cols) e)

pub rows_small : (rows cols : ℕ) → 0 < cols → rows ≤ rows * cols
rows_small rows cols h = le-mul_of_pos_right rows h

pub cols_small : (rows cols : ℕ) → 0 < rows → cols ≤ rows * cols
cols_small rows cols h = omega (arith, mul-le-mul_right {m = 1} {n = rows} cols (omega arith))

module _ (rows cols row col : ℕ) (fits : rows * cols < 2 ^ 64) (row_low : 1 ≤ row)
    (row_high : row + 1 < rows) (col_low : 1 ≤ col) (col_high : col + 1 < cols) where
  abbrev cell : ℕ
  cell = row * cols + col

  abbrev accessed : ℕ
  accessed = u64 (u64 (row * cols) + col)

  pub accessed_eq : accessed ≡ cell
  accessed_eq = omega (arith, row_end row col rows cols row_high (omega arith))

  pub top_eq : u64 (u64 (sub64 row 1 * cols) + col) ≡ cell - cols
  top_eq =
      ap (λ r. u64 (u64 (r * cols) + col))
        (sub64_eq row 1 row_low (omega (arith, rows_small rows cols (omega arith))))
      ∙ omega (arith, row_start row cols row_low, row_end row col rows cols row_high (omega arith))

  pub right_eq : u64 (accessed + 1) ≡ cell + 1
  right_eq = omega (arith, row_end row col rows cols row_high (omega arith))

  pub bottom_eq : u64 (u64 (u64 (row + 1) * cols) + col) ≡ cell + cols
  bottom_eq =
      ap (λ r. u64 (u64 (r * cols) + col))
        (u64_eq (row + 1) (omega (arith, rows_small rows cols (omega arith))))
      ∙ omega (arith, row_end row col rows cols row_high (omega arith))

  pub left_eq : sub64 accessed 1 ≡ cell - 1
  left_eq = omega (arith, row_end row col rows cols row_high (omega arith))

  pub cell_bounds : (cell + cols < rows * cols) × (cols ≤ cell)
  cell_bounds =
      omega (arith, row_end row col rows cols row_high (omega arith), row_start row cols row_low)
