-- ===== src/RowPlate/Shape.antt =====
-- The arrays of homeworks/pthread/src/plate_matrix.c keep their shape, and an inner cell is inside them.
use concurrente2025a_evan_ch.Base.{
  ℕ, zero, suc, ◌+◌, ◌^◌, ◌<◌, ◌≤◌, ◌≡◌, refl, ap, Option, some, List, [], ◌∷◌, arith, length,
  get_elem?, set?, ◌>>=◌, All, u64, sub64,
}
use concurrente2025a_evan_ch.Doubles.{Doubles}
use concurrente2025a_evan_ch.Plate.Matrix.{new_temperature}
use concurrente2025a_evan_ch.RowPlate.{PlateMatrix, get_cell, set_cell, update_cell}

module _ {A : Type 0} (P : A → Type 0) where
  pub get_elem?-All :
      (xs : List A) (i : ℕ) → All P xs → i < length xs → (x : A) × (get_elem? xs i ≡ some x) × P x
  get_elem?-All [] i all h = absurd (omega arith)
  get_elem?-All (x ∷ xs) zero all h = (x, refl, all.0)
  get_elem?-All (x ∷ xs) (suc i) all h = get_elem?-All xs i all.1 (omega arith)

  pub set?-All :
      (xs : List A) (i : ℕ) (v : A)
      → All P xs
      → P v
      → i < length xs
      → (ys : List A) × (set? xs i v ≡ some ys) × (length ys ≡ length xs) × All P ys
  set?-All [] i v all here h = absurd (omega arith)
  set?-All (x ∷ xs) zero v all here h = (v ∷ xs, refl, refl, (here, all.1))
  set?-All (x ∷ xs) (suc i) v all here h =
      let (ys, e, size, rest) = set?-All xs i v all.1 here (omega arith) in
      (
        x ∷ ys,
        ap (λ (o : Option (List A)). o >>= λ zs. some (x ∷ zs)) e,
        ap suc size,
        (all.0, rest),
      )

-- Every element is one of the type.
pub anything : {A : Type 0} (xs : List A) → All (λ (x : A). Unit {0}) xs
anything [] = tt
anything (x ∷ xs) = (tt, anything xs)

module _ {D : Type 0} (rows cols : ℕ) where
  -- `rows` rows of `cols` cells.
  abbrev pub Grid : List (List D) → Type 0
  Grid matrix = (length matrix ≡ rows) × All (λ (cells : List D). length cells ≡ cols) matrix

  pub get_cell-Grid :
      (matrix : List (List D)) (row col : ℕ)
      → Grid matrix
      → row < rows
      → col < cols
      → (v : D) × (get_cell matrix row col ≡ some v)
  get_cell-Grid matrix row col (size, each) h k =
      let (cells, e, wide) =
        get_elem?-All (λ (cells : List D). length cells ≡ cols) matrix row each (omega arith) in
      let (v, f, _) =
        get_elem?-All (λ (x : D). Unit {0}) cells col (anything cells) (omega arith) in
      (v, rw (e, f))

  set_cell-Grid :
      (matrix : List (List D)) (row col : ℕ) (v : D)
      → Grid matrix
      → row < rows
      → col < cols
      → (matrix' : List (List D)) × (set_cell matrix row col v ≡ some matrix') × Grid matrix'
  set_cell-Grid matrix row col v (size, each) h k =
      let (cells, e, wide) =
        get_elem?-All (λ (cells : List D). length cells ≡ cols) matrix row each (omega arith) in
      let (cells', f, wide', _) =
        set?-All (λ (x : D). Unit {0}) cells col v (anything cells) tt (omega arith) in
      let (matrix', g, size', each') =
        set?-All (λ (cells : List D). length cells ≡ cols) matrix row cells' each (omega arith)
          (omega arith) in
      (matrix', rw (e, f, g), (omega arith, each'))

-- Both arrays have the plate's shape.
pub record IsShaped {D : Type 0} (m : PlateMatrix D) : Type 0 where
  pub rows_small : m.rows < 2 ^ 64
  pub cols_small : m.cols < 2 ^ 64
  pub current : Grid m.rows m.cols m.matrix
  pub previous : Grid m.rows m.cols m.auxiliary_matrix

-- For a plate whose two arrays have its shape, and a cell that has four neighbours: `update_cell` stays
-- inside the arrays, leaves the old temperatures alone, and the plate keeps its shape.
pub update_cell-IsShaped :
    {D : Type 0} (ops : Doubles D) (m : PlateMatrix D) (row col : ℕ) (mult_constant : D)
    → IsShaped m
    → 1 ≤ row
    → row + 1 < m.rows
    → 1 ≤ col
    → col + 1 < m.cols
    → (matrix : List (List D)) × (update_cell ops m row col mult_constant
        ≡ some (record m { matrix = matrix }))
      × IsShaped (record m { matrix = matrix })
unfolding update_cell
update_cell-IsShaped ops m row col mult_constant v row_low row_high col_low col_high =
    let rows_small = v.rows_small in
    let cols_small = v.cols_small in
    let at = get_cell-Grid m.rows m.cols m.auxiliary_matrix in
    let (here, e1) = at row col v.previous (omega arith) (omega arith) in
    let (top, e2) = at (sub64 row 1) col v.previous (omega arith) (omega arith) in
    let (right, e3) = at row (u64 (col + 1)) v.previous (omega arith) (omega arith) in
    let (bottom, e4) = at (u64 (row + 1)) col v.previous (omega arith) (omega arith) in
    let (left, e5) = at row (sub64 col 1) v.previous (omega arith) (omega arith) in
    let (matrix, e6, grid) =
      set_cell-Grid m.rows m.cols m.matrix row col
        (new_temperature ops mult_constant here top right bottom left) v.current (omega arith)
        (omega arith) in
    (
      matrix,
      rw (e1, e2, e3, e4, e5, e6),
      record {
        rows_small = rows_small;
        cols_small = cols_small;
        current = grid;
        previous = v.previous;
      },
    )
