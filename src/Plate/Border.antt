-- ===== src/Plate/Border.antt =====
-- `init_auxiliary` of homeworks/optimized/pthread_optimized/src/plate_matrix.c: its four loops copy
-- the whole border, and stay within the arrays.
use concurrente2025a_evan_ch.Base.{
  ℕ, ◌+◌, ◌-◌, ◌*◌, ◌/◌, ◌%◌, ◌≤◌, ◌<◌, ◌≡◌, refl, sym, ap, ◌∙◌, true, false, some, List, [], ◌∷◌,
  ◌++◌, map, arith, u64, sub64_eq, length, get_or, set, length-set, get_elem?-eq-get_or,
  set?-eq-set, All, All-count_up, count_up, has, has-append_left, has-append_right, has-map_of_eq,
  has-count_up, ◌==◌, has-map, for_each, for_range, write_at, length-write_at, write_at-append,
  get_or-write_at, Bool-cases, inl, inr, ℕ_discrete,
}
use concurrente2025a_evan_ch.Plate.Matrix.{PlateMatrix, copy_cell, init_auxiliary}
use concurrente2025a_evan_ch.Plate.Index.{cell_end, cols_small, rows_small}
use concurrente2025a_evan_ch.Plate.Cells.{IsValid}
use concurrente2025a_evan_ch.Plate.Sweep.{row_cells, cells}
use concurrente2025a_evan_ch.Plate.Heat.{inner_cells, BordersAgree}
use native.Mathlib.Nat.{div-add-mod, mod-lt, div-lt_iff_lt-mul}

module _ {D : Type 0} (initial : List D) (d : D) where
  -- A loop of copies: `g` is the index as the code computes it, `f` the index without a wrap.
  copies_lem :
      (g f : ℕ → ℕ) (ks : List ℕ) (aux : List D)
      → length aux ≡ length initial
      → All (λ k. (g k ≡ f k) × (f k < length initial)) ks
      → for_each ks (λ k. copy_cell initial (g k)) aux
        ≡ some (write_at (λ i. get_or initial i d) (map f ks) aux)
  unfolding for_each
  copies_lem g f [] aux e h = refl
  copies_lem g f (k ∷ ks) aux e h =
      rw
        (
          h.0.0,
          get_elem?-eq-get_or initial (f k) d h.0.1,
          set?-eq-set aux (f k) (get_or initial (f k) d) (omega arith),
        )
        (copies_lem g f ks (set aux (f k) (get_or initial (f k) d))
          (length-set aux (f k) (get_or initial (f k) d) ∙ e) h.1)

  copies_range :
      (lo hi n : ℕ) (g f : ℕ → ℕ) (aux : List D)
      → hi - lo ≡ n
      → length aux ≡ length initial
      → ((k : ℕ) → lo ≤ k → k < hi → (g k ≡ f k) × (f k < length initial))
      → for_range lo hi (λ k. copy_cell initial (g k)) aux
        ≡ some (write_at (λ i. get_or initial i d) (map f (count_up n lo)) aux)
  unfolding for_range
  copies_range lo hi n g f aux q e h = rw q (
      copies_lem g f (count_up n lo) aux e (
        All-count_up (λ k. (g k ≡ f k) × (f k < length initial)) n lo
          (λ k low high. h k low (omega arith))))

has-cells :
    (cols row col : ℕ) (rs : List ℕ)
    → has row rs ≡ true
    → 1 ≤ col
    → col + 1 < cols
    → has (row * cols + col) (cells cols rs) ≡ true
has-cells cols row col [] h low high = absurd (cc)
has-cells cols row col (r ∷ rs) h low high = elim (Bool-cases (r == row)) [
  | inl e ↦
      let q : r ≡ row = ground arith in
      rw q (
        has-append_left (row * cols + col) (row_cells cols row) (cells cols rs) (
          has-map (λ c. row * cols + c) col (count_up (cols - 2) 1)
            (has-count_up col (cols - 2) 1 low (omega arith))))
  | inr e ↦
      has-append_right (row * cols + col) (row_cells cols r) (cells cols rs)
        (has-cells cols row col rs (ground arith) low high)
]

-- The four runs of indices that `init_auxiliary` copies.
module _ (rows cols : ℕ) where
  abbrev first_row : List ℕ
  first_row = map (λ col. col) (count_up cols 0)

  abbrev last_row : List ℕ
  last_row = map (λ col. (rows - 1) * cols + col) (count_up cols 0)

  abbrev first_col : List ℕ
  first_col = map (λ row. row * cols) (count_up (rows - 1 - 1) 1)

  abbrev last_col : List ℕ
  last_col = map (λ row. row * cols + (cols - 1)) (count_up (rows - 1 - 1) 1)

  abbrev border : List ℕ
  border = first_row ++ (last_row ++ (first_col ++ last_col))

  in_first_row : (j col : ℕ) → col < cols → j ≡ col → has j border ≡ true
  in_first_row j col h e = has-append_left j first_row (last_row ++ (first_col ++ last_col)) (
      has-map_of_eq (λ col. col) j col (count_up cols 0) e
        (has-count_up col cols 0 (omega arith) (omega arith)))

  in_last_row : (j col : ℕ) → col < cols → j ≡ (rows - 1) * cols + col → has j border ≡ true
  in_last_row j col h e = has-append_right j first_row (last_row ++ (first_col ++ last_col)) (
      has-append_left j last_row (first_col ++ last_col) (
        has-map_of_eq (λ col. (rows - 1) * cols + col) j col (count_up cols 0) e
          (has-count_up col cols 0 (omega arith) (omega arith))))

  in_first_col : (j row : ℕ) → 1 ≤ row → row + 1 < rows → j ≡ row * cols → has j border ≡ true
  in_first_col j row low high e =
      has-append_right j first_row (last_row ++ (first_col ++ last_col)) (
        has-append_right j last_row (first_col ++ last_col) (
          has-append_left j first_col last_col (
            has-map_of_eq (λ row. row * cols) j row (count_up (rows - 1 - 1) 1) e
              (has-count_up row (rows - 1 - 1) 1 low (omega arith)))))

  in_last_col :
      (j row : ℕ) → 1 ≤ row → row + 1 < rows → j ≡ row * cols + (cols - 1) → has j border ≡ true
  in_last_col j row low high e =
      has-append_right j first_row (last_row ++ (first_col ++ last_col)) (
        has-append_right j last_row (first_col ++ last_col) (
          has-append_right j first_col last_col (
            has-map_of_eq (λ row. row * cols + (cols - 1)) j row (count_up (rows - 1 - 1) 1) e
              (has-count_up row (rows - 1 - 1) 1 low (omega arith)))))

  inside :
      (row col : ℕ)
      → (1 ≤ row) × (row + 1 < rows)
      → (1 ≤ col) × (col + 1 < cols)
      → has (row * cols + col) (inner_cells rows cols) ≡ true
  inside row col r c =
      has-cells cols row col (count_up (rows - 2) 1)
        (has-count_up row (rows - 2) 1 r.0 (omega arith)) c.0 c.1

  -- A cell that is not an inner one is on one of the four sides.
  border_covers :
      (row col : ℕ)
      → row < rows
      → col < cols
      → has (row * cols + col) (inner_cells rows cols) ≡ false
      → has (row * cols + col) border ≡ true
  border_covers row col h k out = elim (ℕ_discrete row 0) [
    | yes e ↦ in_first_row (row * cols + col) col k (omega (arith, ap (λ (r : ℕ). r * cols) e))
    | no e ↦ elim (ℕ_discrete (row + 1) rows) [
      | yes e' ↦
          let q : row ≡ rows - 1 = omega arith in
          in_last_row (row * cols + col) col k (ap (λ (r : ℕ). r * cols + col) q)
      | no e' ↦ elim (ℕ_discrete col 0) [
        | yes c ↦ in_first_col (row * cols + col) row (omega arith) (omega arith) (omega arith)
        | no c ↦ elim (ℕ_discrete (col + 1) cols) [
          | yes c' ↦ in_last_col (row * cols + col) row (omega arith) (omega arith) (omega arith)
          | no c' ↦ let t = inside row col (omega arith) (omega arith) in cc
        ]
      ]
    ]
  ]

-- The four loops one after the other, and what they leave in the auxiliary array.
module _ {D : Type 0} (m : PlateMatrix D) (d : D) (v : IsValid m) (tall : 1 ≤ m.rows)
    (wide : 1 ≤ m.cols) where
  abbrev value : ℕ → D
  value i = get_or m.matrix i d

  abbrev copied : List D
  copied = write_at value (border m.rows m.cols) m.auxiliary_matrix

  keeps :
      (is : List ℕ) (aux : List D)
      → length aux ≡ length m.matrix
      → length (write_at value is aux) ≡ length m.matrix
  keeps is aux e = length-write_at value is aux ∙ e

  bound : (row col : ℕ) → row < m.rows → col < m.cols → row * m.cols + col < length m.matrix
  bound row col h k = omega (arith, cell_end row col m.rows m.cols h k)

  loop_rows :
      (row : ℕ) (aux : List D)
      → row < m.rows
      → length aux ≡ length m.matrix
      → for_range 0 m.cols (λ col. copy_cell m.matrix (u64 (u64 (row * m.cols) + col))) aux
        ≡ some (write_at value (map (λ col. row * m.cols + col) (count_up m.cols 0)) aux)
  loop_rows row aux h e =
      copies_range m.matrix d 0 m.cols m.cols (λ col. u64 (u64 (row * m.cols) + col))
        (λ col. row * m.cols + col) aux (omega arith) e
        (λ k low high. (omega (arith, bound row k h high), bound row k h high))

  loop_first_row :
      (aux : List D)
      → length aux ≡ length m.matrix
      → for_range 0 m.cols (λ col. copy_cell m.matrix col) aux
        ≡ some (write_at value (first_row m.rows m.cols) aux)
  loop_first_row aux e =
      copies_range m.matrix d 0 m.cols m.cols (λ col. col) (λ col. col) aux (omega arith) e
        (λ k low high. (refl, omega (arith, bound 0 k tall high)))

  loop_first_col :
      (aux : List D)
      → length aux ≡ length m.matrix
      → for_range 1 (m.rows - 1) (λ row. copy_cell m.matrix (u64 (row * m.cols))) aux
        ≡ some (write_at value (first_col m.rows m.cols) aux)
  loop_first_col aux e =
      copies_range m.matrix d 1 (m.rows - 1) (m.rows - 1 - 1) (λ row. u64 (row * m.cols))
        (λ row. row * m.cols) aux refl e
        (λ k low high. (
          omega (arith, bound k 0 (omega arith) wide),
          omega (arith, bound k 0 (omega arith) wide),
        ))

  loop_cols :
      (col : ℕ) (aux : List D)
      → col < m.cols
      → length aux ≡ length m.matrix
      → for_range 1 (m.rows - 1) (λ row. copy_cell m.matrix (u64 (u64 (row * m.cols) + col))) aux
        ≡ some (write_at value (map (λ row. row * m.cols + col) (count_up (m.rows - 1 - 1) 1)) aux)
  loop_cols col aux h e =
      copies_range m.matrix d 1 (m.rows - 1) (m.rows - 1 - 1)
        (λ row. u64 (u64 (row * m.cols) + col)) (λ row. row * m.cols + col) aux refl e
        (λ k low high. (omega (arith, bound k col (omega arith) h), bound k col (omega arith) h))

  -- For a valid plate of at least one row and one column `init_auxiliary` stays within the arrays.
  init_auxiliary-copied : init_auxiliary m ≡ some (record m { auxiliary_matrix = copied })
  unfolding init_auxiliary
  init_auxiliary-copied =
      rw
        (
          sub64_eq m.rows 1 tall (omega (arith, v.fits, rows_small m.rows m.cols wide)),
          sub64_eq m.cols 1 wide (omega (arith, v.fits, cols_small m.rows m.cols tall)),
          loop_first_row m.auxiliary_matrix e0,
          loop_rows (m.rows - 1) one (omega arith) e1,
          loop_first_col two e2,
          loop_cols (m.cols - 1) three (omega arith) e3,
        )
        (ap (λ aux. some (record m { auxiliary_matrix = aux })) (sym joined))
    where
      one : List D
      one = write_at value (first_row m.rows m.cols) m.auxiliary_matrix

      two : List D
      two = write_at value (last_row m.rows m.cols) one

      three : List D
      three = write_at value (first_col m.rows m.cols) two

      e0 : length m.auxiliary_matrix ≡ length m.matrix
      e0 = v.previous ∙ sym v.current

      e1 : length one ≡ length m.matrix
      e1 = keeps (first_row m.rows m.cols) m.auxiliary_matrix e0

      e2 : length two ≡ length m.matrix
      e2 = keeps (last_row m.rows m.cols) one e1

      e3 : length three ≡ length m.matrix
      e3 = keeps (first_col m.rows m.cols) two e2

      joined : copied ≡ write_at value (last_col m.rows m.cols) three
      joined = rw (
        write_at-append value (first_row m.rows m.cols)
            (last_row m.rows m.cols ++ (first_col m.rows m.cols ++ last_col m.rows m.cols)),
        write_at-append value (last_row m.rows m.cols)
            (first_col m.rows m.cols ++ last_col m.rows m.cols),
        write_at-append value (first_col m.rows m.cols) (last_col m.rows m.cols),
      )

  copied-agrees : BordersAgree d (record m { auxiliary_matrix = copied })
  copied-agrees j h out =
      get_or-write_at value (border m.rows m.cols) m.auxiliary_matrix j d (omega arith)
      ∙ rw (covered)
    where
      covered : has j (border m.rows m.cols) ≡ true
      covered =
          let e : j / m.cols * m.cols + j % m.cols ≡ j = omega (arith, div-add-mod j m.cols) in
          let low : j % m.cols < m.cols = mod-lt j wide in
          rw e at (
            border_covers m.rows m.cols (j / m.cols) (j % m.cols) ((div-lt_iff_lt-mul wide).1 h) low
              (rw e out))

-- For a valid plate of at least one row and one column `init_auxiliary` does not leave the arrays,
-- changes only the auxiliary array, keeps the plate valid, and makes the two arrays agree on the
-- border.
pub init_auxiliary_lem :
    {D : Type 0} (m : PlateMatrix D) (d : D)
    → IsValid m
    → 1 ≤ m.rows
    → 1 ≤ m.cols
    → (aux : List D) × (init_auxiliary m ≡ some (record m { auxiliary_matrix = aux }))
      × IsValid (record m { auxiliary_matrix = aux })
      × BordersAgree d (record m { auxiliary_matrix = aux })
init_auxiliary_lem m d v tall wide = (
  copied m d v tall wide,
  init_auxiliary-copied m d v tall wide,
  record {
    fits = v.fits;
    current = v.current;
    previous =
        length-write_at (value m d v tall wide) (border m.rows m.cols) m.auxiliary_matrix
        ∙ v.previous;
  },
  copied-agrees m d v tall wide,
)
