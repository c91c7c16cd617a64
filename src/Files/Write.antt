-- ===== src/Files/Write.antt =====
-- What the loop over the rows of update_plate_file (homeworks/omp_mpi/src/plate.c) writes.
use concurrente2025a_evan_ch.Base.{
  ℕ, zero, suc, ◌+◌, ◌*◌, ◌≡◌, refl, sym, ap, ◌∙◌, Option, some, List, [], ◌∷◌, ◌++◌, map, arith,
  none, ◌>>=◌, bind_assoc, bind_cong, get_elem?, length,
}
use concurrente2025a_evan_ch.Files.{write_cells, write_rows}

module _ {D : Type 0} (bits : D → ℕ) where
  write_cells-append :
      (m n offset : ℕ) (cells : List D)
      → write_cells bits (m + n) offset cells ≡ (
          write_cells bits m offset cells >>= λ a.
          write_cells bits n (offset + m) cells >>= λ b. some (a ++ b))
  unfolding write_cells
  write_cells-append zero n offset cells =
      let e : zero + n ≡ n = omega arith in
      let f : offset + zero ≡ offset = omega arith in
      rw (e, f) (sym (bind_some (write_cells bits n offset cells)))
    where
      bind_some : {A : Type 0} (o : Option A) → (o >>= λ b. some b) ≡ o
      bind_some none = refl
      bind_some (some b) = refl
  write_cells-append (suc m) n offset cells =
      let e : suc m + n ≡ suc (m + n) = omega arith in
      let f : suc offset + m ≡ offset + suc m = omega arith in
      ap (λ k. write_cells bits k offset cells) e
      ∙ bind_cong (get_elem? cells offset) _ _ (λ v.
        ap (λ (o : Option (List ℕ)). o >>= λ rest. some (bits v ∷ rest))
          (write_cells-append m n (suc offset) cells
            ∙ ap
                (λ k. write_cells bits m (suc offset) cells >>= λ a.
                  write_cells bits n k cells >>= λ b. some (a ++ b))
                f)
        ∙ bind_assoc (write_cells bits m (suc offset) cells) _ _
        ∙ bind_cong (write_cells bits m (suc offset) cells) _ _
            (λ a. bind_assoc (write_cells bits n (offset + suc m) cells) _ _)
        ∙ sym (bind_assoc (write_cells bits m (suc offset) cells) _ _))
      ∙ sym (bind_assoc (get_elem? cells offset) _ _)

  -- The loop writes the elements in order.
  write_rows-cells :
      (rows cols offset : ℕ) (cells : List D)
      → write_rows bits rows cols offset cells ≡ write_cells bits (rows * cols) offset cells
  unfolding write_rows write_cells
  write_rows-cells zero cols offset cells =
      let e : zero * cols ≡ 0 = omega arith in ap (λ k. write_cells bits k offset cells) (sym e)
  write_rows-cells (suc rows) cols offset cells =
      let e : suc rows * cols ≡ cols + rows * cols = omega arith in
      bind_cong (write_cells bits cols offset cells) _ _ (λ row.
        ap (λ (o : Option (List ℕ)). o >>= λ rest. some (row ++ rest))
          (write_rows-cells rows cols (offset + cols) cells))
      ∙ sym (write_cells-append cols (rows * cols) offset cells)
      ∙ ap (λ k. write_cells bits k offset cells) (sym e)

  write_cells-shift :
      (n offset : ℕ) (x : D) (cells : List D)
      → write_cells bits n (suc offset) (x ∷ cells) ≡ write_cells bits n offset cells
  unfolding write_cells
  write_cells-shift zero offset x cells = refl
  write_cells-shift (suc n) offset x cells = bind_cong (get_elem? cells offset) _ _ (λ v.
      ap (λ (o : Option (List ℕ)). o >>= λ rest. some (bits v ∷ rest))
        (write_cells-shift n (suc offset) x cells))

  write_cells_lem :
      (cells : List D) → write_cells bits (length cells) 0 cells ≡ some (map bits cells)
  unfolding write_cells
  write_cells_lem [] = refl
  write_cells_lem (x ∷ cells) =
      ap (λ (o : Option (List ℕ)). o >>= λ rest. some (bits x ∷ rest))
        (write_cells-shift (length cells) 0 x cells ∙ write_cells_lem cells)

  pub write_rows_lem :
      (rows cols : ℕ) (cells : List D)
      → length cells ≡ rows * cols
      → write_rows bits rows cols 0 cells ≡ some (map bits cells)
  write_rows_lem rows cols cells e =
      write_rows-cells rows cols 0 cells
      ∙ ap (λ n. write_cells bits n 0 cells) (sym e)
      ∙ write_cells_lem cells
