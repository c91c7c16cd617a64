-- ===== src/RowPlate/Border.antt =====
-- `init_auxiliary` of homeworks/pthread/src/plate_matrix.c against the one of the later versions.
use concurrente2025a_evan_ch.Base.{
  ℕ, ◌+◌, ◌-◌, ◌*◌, ◌^◌, ◌<◌, ◌≤◌, ◌≡◌, refl, ap, ◌∙◌, Option, some, List, [], ◌∷◌, arith, ◌>>=◌,
  All, All-count_up, u64, sub64, sub64_eq, for_each, for_range, count_up,
}
use concurrente2025a_evan_ch.Plate.Matrix as Flat
use concurrente2025a_evan_ch.Plate.Index.{cell_end}
use concurrente2025a_evan_ch.RowPlate.{PlateMatrix, copy_cell, init_auxiliary}
use concurrente2025a_evan_ch.RowPlate.Shape.{Grid, IsShaped, get_cell-Grid}
use concurrente2025a_evan_ch.RowPlate.Flat.{flatten, get_cell-flatten, set_cell-flatten}
use concurrente2025a_evan_ch.RowPlate.Refines.{flat}

module _ {D : Type 0} (rows cols : ℕ) where
  -- Both runs end, with the same temperatures.
  abbrev Both : Option (List (List D)) → Option (List D) → Type 0
  Both run run' =
      (matrix : List (List D)) × (run ≡ some matrix)
      × (run' ≡ some (flatten matrix))
      × Grid rows cols matrix

  copy_cell-Both :
      (initial auxiliary : List (List D)) (row col i : ℕ)
      → Grid rows cols initial
      → Grid rows cols auxiliary
      → row < rows
      → col < cols
      → i ≡ row * cols + col
      → Both
          (copy_cell initial row col auxiliary)
          (Flat.copy_cell (flatten initial) i (flatten auxiliary))
  copy_cell-Both initial auxiliary row col i (tall, wide) (tall', wide') h k e =
      let (v, read) = get_cell-Grid rows cols initial row col (tall, wide) h k in
      let (matrix, wrote, wrote', grid) =
        set_cell-flatten cols auxiliary row col i v (refl, wide') (omega arith) k e in
      (
        matrix,
        rw (read, wrote),
        rw (get_cell-flatten cols initial row col i (refl, wide) (omega arith) k e, read, wrote'),
        (grid.0 ∙ tall', grid.1),
      )

  for_each-Both :
      (Q : ℕ → Type 0) (body : ℕ → List (List D) → Option (List (List D)))
      (body' : ℕ → List D → Option (List D))
      → ((x : ℕ) (auxiliary : List (List D))
          → Q x
          → Grid rows cols auxiliary
          → Both (body x auxiliary) (body' x (flatten auxiliary)))
      → (xs : List ℕ) (auxiliary : List (List D)) → All Q xs
      → Grid rows cols auxiliary
      → Both (for_each xs body auxiliary) (for_each xs body' (flatten auxiliary))
  unfolding for_each
  for_each-Both Q body body' both [] auxiliary all grid = (auxiliary, refl, refl, grid)
  for_each-Both Q body body' both (x ∷ xs) auxiliary (q, all) grid =
      let (a, run, run', grid1) = both x auxiliary q grid in
      let (b, rest, rest', grid2) = for_each-Both Q body body' both xs a all grid1 in
      (
        b,
        ap (λ (o : Option (List (List D))). o >>= for_each xs body) run ∙ rest,
        ap (λ (o : Option (List D)). o >>= for_each xs body') run' ∙ rest',
        grid2,
      )

  -- A loop that copies the cells (row x, col x).
  copy-Both :
      (initial auxiliary : List (List D)) (row col index : ℕ → ℕ) (lo hi : ℕ)
      → Grid rows cols initial
      → Grid rows cols auxiliary
      → lo ≤ hi
      → ((x : ℕ)
          → lo ≤ x
          → x < hi
          → (row x < rows) × (col x < cols) × (index x ≡ row x * cols + col x))
      → Both
          (for_range lo hi (λ x. copy_cell initial (row x) (col x)) auxiliary)
          (for_range lo hi (λ x. Flat.copy_cell (flatten initial) (index x)) (flatten auxiliary))
  unfolding for_range
  copy-Both initial auxiliary row col index lo hi grid grid' ordered inside =
      for_each-Both (λ x. (row x < rows) × (col x < cols) × (index x ≡ row x * cols + col x))
        (λ x. copy_cell initial (row x) (col x)) (λ x. Flat.copy_cell (flatten initial) (index x))
        (λ x a (h, k, e) g. copy_cell-Both initial a (row x) (col x) (index x) grid g h k e)
        (count_up (hi - lo) lo) auxiliary
        (All-count_up (λ x. (row x < rows) × (col x < cols) × (index x ≡ row x * cols + col x))
          (hi - lo) lo (λ x from to. inside x from (omega arith)))
        grid'

-- Four steps that all succeed, and what is made of their result.
four_steps :
    {S R : Type 0} (f g h k : S → Option S) (result : S → R) (s a b c d : S)
    → f s ≡ some a
    → g a ≡ some b
    → h b ≡ some c
    → k c ≡ some d
    → (f s >>= λ w. g w >>= λ x. h x >>= λ y. k y >>= λ z. some (result z)) ≡ some (result d)
four_steps f g h k result s a b c d e1 e2 e3 e4 = rw (e1, e2, e3, e4)

-- For a plate of at least two rows and one column whose arrays have its shape: `init_auxiliary` stays
-- inside the arrays of rows, the plate keeps its shape, and the one of the later versions does the same to
-- the flat arrays.
pub init_auxiliary-flat :
    {D : Type 0} (m : PlateMatrix D)
    → IsShaped m
    → m.rows * m.cols < 2 ^ 64
    → 2 ≤ m.rows
    → 1 ≤ m.cols
    → (m' : PlateMatrix D) × (init_auxiliary m ≡ some m')
      × (Flat.init_auxiliary (flat m) ≡ some (flat m'))
      × IsShaped m'
unfolding init_auxiliary Flat.init_auxiliary
init_auxiliary-flat m v fits tall wide =
    let last_row : sub64 m.rows 1 ≡ m.rows - 1 = sub64_eq m.rows 1 (omega arith) v.rows_small in
    let last_col : sub64 m.cols 1 ≡ m.cols - 1 = sub64_eq m.cols 1 (omega arith) v.cols_small in
    let copy = copy-Both m.rows m.cols m.matrix in
    let (a, run_a, run_a', grid_a) =
      copy m.auxiliary_matrix (λ col. 0) (λ col. col) (λ col. col) 0 m.cols v.current v.previous
        (omega arith) (λ col from to. (omega arith, to, omega arith)) in
    let (b, run_b, run_b', grid_b) =
      copy a (λ col. sub64 m.rows 1) (λ col. col) (λ col. u64 (u64 (sub64 m.rows 1 * m.cols) + col))
        0 m.cols v.current grid_a (omega arith)
        (λ col from to. (
          omega arith,
          to,
          omega (arith, cell_end (sub64 m.rows 1) col m.rows m.cols (omega arith) to),
        )) in
    let (c, run_c, run_c', grid_c) =
      copy b (λ row. row) (λ row. 0) (λ row. u64 (row * m.cols)) 1 (sub64 m.rows 1) v.current grid_b
        (omega arith)
        (λ row from to. (
          omega arith,
          omega arith,
          omega (arith, cell_end row 0 m.rows m.cols (omega arith) (omega arith)),
        )) in
    let (d, run_d, run_d', grid_d) =
      copy c (λ row. row) (λ row. sub64 m.cols 1) (λ row. u64 (u64 (row * m.cols) + sub64 m.cols 1))
        1 (sub64 m.rows 1) v.current grid_c (omega arith)
        (λ row from to. (
          omega arith,
          omega arith,
          omega (arith, cell_end row (sub64 m.cols 1) m.rows m.cols (omega arith) (omega arith)),
        )) in
    (
      record m { auxiliary_matrix = d },
      four_steps (for_range 0 m.cols (λ col. copy_cell m.matrix 0 col))
          (for_range 0 m.cols (λ col. copy_cell m.matrix (sub64 m.rows 1) col))
          (for_range 1 (sub64 m.rows 1) (λ row. copy_cell m.matrix row 0))
          (for_range 1 (sub64 m.rows 1) (λ row. copy_cell m.matrix row (sub64 m.cols 1)))
          (λ cells. record m { auxiliary_matrix = cells }) m.auxiliary_matrix a b c d run_a run_b
          run_c run_d,
      four_steps (for_range 0 m.cols (λ col. Flat.copy_cell (flatten m.matrix) col))
          (for_range 0 m.cols
            (λ col. Flat.copy_cell (flatten m.matrix) (u64 (u64 (sub64 m.rows 1 * m.cols) + col))))
          (for_range 1 (sub64 m.rows 1)
            (λ row. Flat.copy_cell (flatten m.matrix) (u64 (row * m.cols))))
          (for_range 1 (sub64 m.rows 1)
            (λ row. Flat.copy_cell (flatten m.matrix) (u64 (u64 (row * m.cols) + sub64 m.cols 1))))
          (λ cells. record (flat m) { auxiliary_matrix = cells }) (flatten m.auxiliary_matrix)
          (flatten a) (flatten b) (flatten c) (flatten d) run_a' run_b' run_c' run_d',
      record {
        rows_small = v.rows_small;
        cols_small = v.cols_small;
        current = v.current;
        previous = grid_d;
      },
    )
