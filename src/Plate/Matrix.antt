-- ===== src/Plate/Matrix.antt =====
-- homeworks/optimized/pthread_optimized/src/plate_matrix.c, the same text as
-- homeworks/omp_mpi/src/plate_matrix.c. `none` is a null pointer as a result of
-- `init_plate_matrix`, and an access outside an array elsewhere.
use concurrente2025a_evan_ch.Base.{
  ℕ, ◌+◌, ◌*◌, Bool, Option, none, some, List, if◌then◌else◌, ◌>>=◌, u64, sub64, get_elem?,
  replicate, set?, for_range,
}
use concurrente2025a_evan_ch.Doubles.{Doubles}

-- `plate_matrix_t`; the two arrays never overlap, so a swap of the pointers swaps the lists.
pub record PlateMatrix (D : Type 0) : Type 0 where
  pub rows : ℕ
  pub cols : ℕ
  pub matrix : List D
  pub auxiliary_matrix : List D

-- `auxiliary_matrix[index] = initial_matrix[index]`
abbrev pub copy_cell : {D : Type 0} → List D → ℕ → List D → Option (List D)
copy_cell initial_matrix index auxiliary = do
  v ← get_elem? initial_matrix index
  set? auxiliary index v

unfoldable pub init_auxiliary : {D : Type 0} → PlateMatrix D → Option (PlateMatrix D)
init_auxiliary m = do
  let cols = m.cols
  let last_row = sub64 m.rows 1
  let last_col = sub64 cols 1
  let copy = copy_cell m.matrix
  a ← for_range 0 cols (λ col. copy col) m.auxiliary_matrix
  b ← for_range 0 cols (λ col. copy (u64 (u64 (last_row * cols) + col))) a
  c ← for_range 1 last_row (λ row. copy (u64 (row * cols))) b
  d ← for_range 1 last_row (λ row. copy (u64 (u64 (row * cols) + last_col))) c
  some (record m { auxiliary_matrix = d })

unfoldable pub set_auxiliary : {D : Type 0} → PlateMatrix D → PlateMatrix D
set_auxiliary m = record m { matrix = m.auxiliary_matrix; auxiliary_matrix = m.matrix }

module _ {D : Type 0} (ops : Doubles D) where
  open ops use {zero_bits, minus_four, add, mul}

  -- The three arguments say which calls of `calloc` succeed.
  unfoldable pub init_plate_matrix :
      (got got_matrix got_auxiliary : Bool) (rows cols : ℕ) → Option (PlateMatrix D)
  init_plate_matrix got got_matrix got_auxiliary rows cols =
      let cells = replicate (u64 (rows * cols)) zero_bits in
      if got
      then if got_matrix
        then if got_auxiliary
          then some (record { rows = rows; cols = cols; matrix = cells; auxiliary_matrix = cells })
          else none
        else none
      else none

  -- The sum of `update_cell` in its order of evaluation.
  unfoldable pub new_temperature : (mult_constant here top right bottom left : D) → D
  new_temperature mult_constant here top right bottom left =
      let net = add (add (add (add (mul minus_four here) top) right) bottom) left in
      add (mul net mult_constant) here

  unfoldable pub update_cell :
      PlateMatrix D → (row col : ℕ) → (mult_constant : D) → Option (PlateMatrix D)
  update_cell m row col mult_constant = do
    let current = m.auxiliary_matrix
    let accessed = u64 (u64 (row * m.cols) + col)
    here ← get_elem? current accessed
    top ← get_elem? current (u64 (u64 (sub64 row 1 * m.cols) + col))
    right ← get_elem? current (u64 (accessed + 1))
    bottom ← get_elem? current (u64 (u64 (u64 (row + 1) * m.cols) + col))
    left ← get_elem? current (sub64 accessed 1)
    cells ← set? m.matrix accessed (new_temperature mult_constant here top right bottom left)
    some (record m { matrix = cells })
