-- ===== src/Plate/Rows.antt =====
-- The body of the inner loop of `equilibrate_rows` (homeworks/optimized/pthread_optimized/src/plate.c),
-- and what some visits of cells do as writes at flat indices.
use concurrente2025a_evan_ch.Base.{
  ℕ, ◌+◌, ◌*◌, ◌≤◌, ◌<◌, ◌≡◌, refl, ◌∙◌, Bool, true, false, not, ◌&&◌, Option, some, List, [], ◌∷◌,
  ◌++◌, arith, if◌then◌else◌, ◌>>=◌, u64, get_or, get_elem?, set, length-set, get_elem?-eq-get_or,
  get_or-set_self, write_at, length-write_at, write_at-append,
}
use concurrente2025a_evan_ch.Doubles.{Doubles}
use concurrente2025a_evan_ch.Plate.Matrix.{PlateMatrix, update_cell}
use concurrente2025a_evan_ch.Plate.Index.{accessed_eq, cell_bounds}
use concurrente2025a_evan_ch.Plate.Cells.{IsValid, IsInner, stencil, update_cell_lem}

module _ {D : Type 0} (ops : Doubles D) (mult_constant epsilon : D) where
  open ops use {zero_bits, sub, fabs, gt}

  -- The body of the inner loop, on the plate and the thread's flag.
  unfoldable pub visit_cell : (row col : ℕ) → PlateMatrix D × Bool → Option (PlateMatrix D × Bool)
  visit_cell row col (m, equilibrated) = do
    m' ← update_cell ops m row col mult_constant
    let accessed = u64 (u64 (row * m.cols) + col)
    new ← get_elem? m'.matrix accessed
    old ← get_elem? m'.auxiliary_matrix accessed
    let difference = fabs (sub new old)
    some (m', if gt difference epsilon then false else equilibrated)

  -- What writing the stencil at a list of flat indices makes of a plate.
  abbrev pub swept : List ℕ → PlateMatrix D → PlateMatrix D
  swept is m = record m {
    matrix = write_at (stencil ops m.cols mult_constant m.auxiliary_matrix) is m.matrix;
  }

  -- The temperature at a flat index changes by no more than epsilon.
  abbrev pub settled : PlateMatrix D → ℕ → Bool
  settled m i = not (
      gt
        (fabs (
          sub (stencil ops m.cols mult_constant m.auxiliary_matrix i)
            (get_or m.auxiliary_matrix i zero_bits)))
        epsilon)

  abbrev pub all_settled : PlateMatrix D → List ℕ → Bool
  all_settled m [] = true
  all_settled m (i ∷ is) = settled m i && all_settled m is

  -- The plate and the flag after the visits of the cells at the indices `is`.
  abbrev pub visited : List ℕ → PlateMatrix D × Bool → PlateMatrix D × Bool
  visited is (m, equilibrated) = (swept is m, equilibrated && all_settled m is)

  pub all_settled-append :
      (m : PlateMatrix D) (is js : List ℕ)
      → all_settled m (is ++ js) ≡ (all_settled m is && all_settled m js)
  all_settled-append m [] js = refl
  all_settled-append m (i ∷ is) js = ground (arith, all_settled-append m is js)

  pub visited-append :
      (is js : List ℕ) (s : PlateMatrix D × Bool) → visited (is ++ js) s ≡ visited js (visited is s)
  visited-append is js (m, b) = ground (
    arith,
    write_at-append (stencil ops m.cols mult_constant m.auxiliary_matrix) is js m.matrix,
    all_settled-append m is js,
  )

  pub swept-IsValid : (is : List ℕ) (m : PlateMatrix D) → IsValid m → IsValid (swept is m)
  swept-IsValid is m v = record {
    fits = v.fits;
    current = length-write_at _ is m.matrix ∙ v.current;
    previous = v.previous;
  }

  pub visit_cell_lem :
      (m : PlateMatrix D) (b : Bool) (row col : ℕ)
      → IsValid m
      → IsInner m.rows m.cols row col
      → visit_cell row col (m, b) ≡ some (visited ((row * m.cols + col) ∷ []) (m, b))
  unfolding visit_cell
  visit_cell_lem m b row col v inner =
      rw
        (
          update_cell_lem ops m row col mult_constant v inner,
          accessed_eq m.rows m.cols row col v.fits row_low row_high col_low col_high,
          get_elem?-eq-get_or
              (set m.matrix i (stencil ops m.cols mult_constant m.auxiliary_matrix i)) i zero_bits
              (omega (
                arith,
                bounds,
                length-set m.matrix i (stencil ops m.cols mult_constant m.auxiliary_matrix i),
              )),
          get_or-set_self m.matrix i (stencil ops m.cols mult_constant m.auxiliary_matrix i)
              zero_bits (omega (arith, bounds)),
          get_elem?-eq-get_or m.auxiliary_matrix i zero_bits (omega (arith, bounds)),
        )
        (ground arith)
    where
      open inner use {row_low, row_high, col_low, col_high}

      i : ℕ
      i = row * m.cols + col

      bounds : (row * m.cols + col + m.cols < m.rows * m.cols) × (m.cols ≤ row * m.cols + col)
      bounds = cell_bounds m.rows m.cols row col v.fits row_low row_high col_low col_high
