-- ===== src/Files/Read.antt =====
-- What the loop over the rows of set_plate_matrix (homeworks/omp_mpi/src/plate.c) reads: the words of the
-- file in order, and for a file that is too short what the array held before.
use concurrente2025a_evan_ch.Base.{
  ℕ, zero, suc, ◌+◌, ◌*◌, ◌≤◌, ◌≡◌, refl, sym, ap, ◌∙◌, Option, some, List, [], ◌∷◌, ◌++◌, map,
  arith, ◌>>=◌, bind_assoc, bind_cong, set?, length, take, drop, length-take, dec_lt,
}
use concurrente2025a_evan_ch.Files.{read_cells, read_rows}

module _ {ℓ} {A : Type ℓ} where
  take_empty : (n : ℕ) → take {A = A} n [] ≡ []
  take_empty zero = refl
  take_empty (suc n) = refl

  take_add : (m n : ℕ) (xs : List A) → take (m + n) xs ≡ take m xs ++ take n (drop m xs)
  take_add zero n xs = ap (λ k. take k xs) (omega arith)
  take_add (suc m) n [] = take_empty (suc m + n) ∙ sym (take_empty n)
  take_add (suc m) n (x ∷ xs) =
      let e : suc m + n ≡ suc (m + n) = omega arith in
      ap (λ k. take k (x ∷ xs)) e ∙ ap (λ ys. x ∷ ys) (take_add m n xs)

  pub drop_all : (n : ℕ) (xs : List A) → length xs ≤ n → drop n xs ≡ []
  drop_all zero [] h = refl
  drop_all zero (x ∷ xs) h = absurd (omega arith)
  drop_all (suc n) [] h = refl
  drop_all (suc n) (x ∷ xs) h = drop_all n xs (omega arith)

module _ {D : Type 0} (of_bits : ℕ → D) where
  read_cells-append :
      (offset : ℕ) (ws vs : List ℕ) (cells : List D)
      → read_cells of_bits offset (ws ++ vs) cells ≡ (
          read_cells of_bits offset ws cells >>= λ cells'.
          read_cells of_bits (offset + length ws) vs cells')
  unfolding read_cells
  read_cells-append offset [] vs cells = ap (λ k. read_cells of_bits k vs cells) (omega arith)
  read_cells-append offset (w ∷ ws) vs cells =
      let e : suc offset + length ws ≡ offset + length (w ∷ ws) = omega arith in
      bind_cong (set? cells offset (of_bits w)) _ _ (λ c.
        read_cells-append (suc offset) ws vs c
        ∙ ap (λ k. read_cells of_bits (suc offset) ws c >>= λ d. read_cells of_bits k vs d) e)
      ∙ sym (bind_assoc (set? cells offset (of_bits w)) _ _)

  -- The rest of a file begins where the row ends, or there is none.
  rest_start :
      (cols n offset : ℕ) (words : List ℕ) (cells : List D)
      → read_cells of_bits (offset + cols) (take n (drop cols words)) cells
        ≡ read_cells of_bits (offset + length (take cols words)) (take n (drop cols words)) cells
  unfolding read_cells
  rest_start cols n offset words cells = elim (dec_lt (length words) cols) [
    | yes short ↦ rw (drop_all cols words (omega arith), take_empty {A = ℕ} n) refl
    | no enough ↦
        ap (λ k. read_cells of_bits (offset + k) (take n (drop cols words)) cells)
          (sym (length-take cols words (omega arith)))
  ]

  -- The loop reads the words in order, whatever the length of the file.
  pub read_rows-cells :
      (rows cols offset : ℕ) (words : List ℕ) (cells : List D)
      → read_rows of_bits rows cols offset words cells
        ≡ read_cells of_bits offset (take (rows * cols) words) cells
  unfolding read_rows read_cells
  read_rows-cells zero cols offset words cells =
      let e : zero * cols ≡ 0 = omega arith in
      ap (λ k. read_cells of_bits offset (take k words) cells) (sym e)
  read_rows-cells (suc rows) cols offset words cells =
      let e : suc rows * cols ≡ cols + rows * cols = omega arith in
      bind_cong (read_cells of_bits offset (take cols words) cells) _ _ (λ c.
        read_rows-cells rows cols (offset + cols) (drop cols words) c
        ∙ rest_start cols (rows * cols) offset words c)
      ∙ sym
          (read_cells-append offset (take cols words) (take (rows * cols) (drop cols words)) cells)
      ∙ ap (λ ws. read_cells of_bits offset ws cells)
          (sym (ap (λ k. take k words) e ∙ take_add cols (rows * cols) words))

  read_cells-shift :
      (offset : ℕ) (words : List ℕ) (x : D) (cells : List D)
      → read_cells of_bits (suc offset) words (x ∷ cells)
        ≡ (read_cells of_bits offset words cells >>= λ ys. some (x ∷ ys))
  unfolding read_cells
  read_cells-shift offset [] x cells = refl
  read_cells-shift offset (w ∷ ws) x cells =
      bind_assoc (set? cells offset (of_bits w)) _ _
      ∙ bind_cong (set? cells offset (of_bits w)) _ _ (λ c. read_cells-shift (suc offset) ws x c)
      ∙ sym (bind_assoc (set? cells offset (of_bits w)) _ _)

  pub read_cells_lem :
      (words : List ℕ) (cells : List D)
      → length words ≤ length cells
      → read_cells of_bits 0 words cells ≡ some (map of_bits words ++ drop (length words) cells)
  unfolding read_cells
  read_cells_lem [] cells h = refl
  read_cells_lem (w ∷ ws) [] h = absurd (omega arith)
  read_cells_lem (w ∷ ws) (x ∷ cells) h =
      read_cells-shift 0 ws (of_bits w) cells
      ∙ ap (λ (o : Option (List D)). o >>= λ ys. some (of_bits w ∷ ys))
          (read_cells_lem ws cells (omega arith))
