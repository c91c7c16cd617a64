-- ===== src/RowPlate/Flat.antt =====
-- The array of rows of homeworks/pthread/src/plate_matrix.c against the flat array of the later versions:
-- a cell of the one is the element of the other at row * cols + col.
use concurrente2025a_evan_ch.Base.{
  ℕ, zero, suc, ◌+◌, ◌*◌, ◌<◌, ◌≡◌, refl, sym, ap, ◌∙◌, Option, some, some_inj, List, [], ◌∷◌, ◌++◌,
  arith, length, get_elem?, set?, ◌>>=◌, All,
}
use concurrente2025a_evan_ch.RowPlate.{get_cell, set_cell}
use concurrente2025a_evan_ch.RowPlate.Shape.{Grid, get_elem?-All, set?-All, anything}

module _ {D : Type 0} where
  -- The rows one after the other.
  abbrev pub flatten : List (List D) → List D
  flatten [] = []
  flatten (cells ∷ matrix) = cells ++ flatten matrix

  get_elem?-append_left :
      (xs ys : List D) (i : ℕ) → i < length xs → get_elem? (xs ++ ys) i ≡ get_elem? xs i
  get_elem?-append_left [] ys i h = absurd (omega arith)
  get_elem?-append_left (x ∷ xs) ys zero h = refl
  get_elem?-append_left (x ∷ xs) ys (suc i) h = get_elem?-append_left xs ys i (omega arith)

  get_elem?-append_right :
      (xs ys : List D) (i j : ℕ) → j ≡ length xs + i → get_elem? (xs ++ ys) j ≡ get_elem? ys i
  get_elem?-append_right [] ys i j e = ap (get_elem? ys) (omega arith)
  get_elem?-append_right (x ∷ xs) ys i zero e = absurd (omega arith)
  get_elem?-append_right (x ∷ xs) ys i (suc j) e = get_elem?-append_right xs ys i j (omega arith)

  set?-append_left :
      (xs ys zs : List D) (i : ℕ) (v : D)
      → set? xs i v ≡ some zs
      → i < length xs
      → set? (xs ++ ys) i v ≡ some (zs ++ ys)
  set?-append_left [] ys zs i v e h = absurd (omega arith)
  set?-append_left (x ∷ xs) ys zs zero v e h = ap (λ ws. some (ws ++ ys)) (some_inj e)
  set?-append_left (x ∷ xs) ys zs (suc i) v e h =
      let (ws, f, _, _) = set?-All (λ (d : D). Unit {0}) xs i v (anything xs) tt (omega arith) in
      ap (λ (o : Option (List D)). o >>= λ us. some (x ∷ us))
        (set?-append_left xs ys ws i v f (omega arith))
      ∙ ap (λ us. some (us ++ ys))
          (some_inj (sym (ap (λ (o : Option (List D)). o >>= λ us. some (x ∷ us)) f) ∙ e))

  set?-append_right :
      (xs ys zs : List D) (i j : ℕ) (v : D)
      → j ≡ length xs + i
      → set? ys i v ≡ some zs
      → set? (xs ++ ys) j v ≡ some (xs ++ zs)
  set?-append_right [] ys zs i j v e f = ap (λ k. set? ys k v) (omega arith) ∙ f
  set?-append_right (x ∷ xs) ys zs i zero v e f = absurd (omega arith)
  set?-append_right (x ∷ xs) ys zs i (suc j) v e f =
      ap (λ (o : Option (List D)). o >>= λ us. some (x ∷ us))
        (set?-append_right xs ys zs i j v (omega arith) f)

  module _ (cols : ℕ) where
    abbrev IsWide : List (List D) → Type 0
    IsWide = All (λ (cells : List D). length cells ≡ cols)

    get_elem?-flatten :
        (matrix : List (List D)) (cells : List D) (row col i : ℕ)
        → IsWide matrix
        → get_elem? matrix row ≡ some cells
        → row < length matrix
        → col < cols
        → i ≡ row * cols + col
        → get_elem? (flatten matrix) i ≡ get_elem? cells col
    get_elem?-flatten [] cells row col i wide e h k f = absurd (omega arith)
    get_elem?-flatten (c ∷ matrix) cells zero col i (here, wide) e h k f =
        ap (get_elem? (c ++ flatten matrix)) (omega arith)
        ∙ get_elem?-append_left c (flatten matrix) col (omega arith)
        ∙ ap (λ xs. get_elem? xs col) (some_inj e)
    get_elem?-flatten (c ∷ matrix) cells (suc row) col i (here, wide) e h k f =
        get_elem?-append_right c (flatten matrix) (row * cols + col) i (omega arith)
        ∙ get_elem?-flatten matrix cells row col (row * cols + col) wide e (omega arith) k refl

    pub get_cell-flatten :
        (matrix : List (List D)) (row col i : ℕ)
        → Grid (length matrix) cols matrix
        → row < length matrix
        → col < cols
        → i ≡ row * cols + col
        → get_elem? (flatten matrix) i ≡ get_cell matrix row col
    get_cell-flatten matrix row col i (_, wide) h k f =
        let (cells, e, _) =
          get_elem?-All (λ (cells : List D). length cells ≡ cols) matrix row wide h in
        get_elem?-flatten matrix cells row col i wide e h k f
        ∙ sym (ap (λ (o : Option (List D)). o >>= λ cs. get_elem? cs col) e)

    set_row-flatten :
        (matrix matrix' : List (List D)) (cells cells' : List D) (row col i : ℕ) (v : D)
        → IsWide matrix
        → get_elem? matrix row ≡ some cells
        → set? cells col v ≡ some cells'
        → set? matrix row cells' ≡ some matrix'
        → row < length matrix
        → col < cols
        → i ≡ row * cols + col
        → set? (flatten matrix) i v ≡ some (flatten matrix')
    set_row-flatten [] matrix' cells cells' row col i v wide e f g h k n = absurd (omega arith)
    set_row-flatten (c ∷ matrix) matrix' cells cells' zero col i v (here, wide) e f g h k n =
        ap (λ j. set? (c ++ flatten matrix) j v) (omega arith)
        ∙ set?-append_left c (flatten matrix) cells' col v
            (ap (λ xs. set? xs col v) (some_inj e) ∙ f) (omega arith)
        ∙ ap (λ m. some (flatten m)) (some_inj g)
    set_row-flatten (c ∷ matrix) matrix' cells cells' (suc row) col i v (here, wide) e f g h k n =
        let (rest, g', _, _) =
          set?-All (λ (x : List D). Unit {0}) matrix row cells' (anything matrix) tt
            (omega arith) in
        set?-append_right c (flatten matrix) (flatten rest) (row * cols + col) i v (omega arith) (
          set_row-flatten matrix rest cells cells' row col (row * cols + col) v wide e f g'
            (omega arith) k refl)
        ∙ ap (λ m. some (flatten m))
            (some_inj (sym (ap (λ (o : Option (List (List D))). o >>= λ r. some (c ∷ r)) g') ∙ g))

    -- The same write in both.
    pub set_cell-flatten :
        (matrix : List (List D)) (row col i : ℕ) (v : D)
        → Grid (length matrix) cols matrix
        → row < length matrix
        → col < cols
        → i ≡ row * cols + col
        → (matrix' : List (List D)) × (set_cell matrix row col v ≡ some matrix')
          × (set? (flatten matrix) i v ≡ some (flatten matrix'))
          × Grid (length matrix) cols matrix'
    set_cell-flatten matrix row col i v (_, wide) h k n =
        let (cells, e, size) =
          get_elem?-All (λ (cells : List D). length cells ≡ cols) matrix row wide h in
        let (cells', f, size', _) =
          set?-All (λ (x : D). Unit {0}) cells col v (anything cells) tt (omega arith) in
        let (matrix', g, tall, wide') =
          set?-All (λ (cells : List D). length cells ≡ cols) matrix row cells' wide (omega arith)
            h in
        (
          matrix',
          rw (e, f, g),
          set_row-flatten matrix matrix' cells cells' row col i v wide e f g h k n,
          (tall, wide'),
        )
