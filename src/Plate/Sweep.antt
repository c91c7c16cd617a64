-- ===== src/Plate/Sweep.antt =====
-- The flat indices of the cells that the loops of `equilibrate_rows` (homeworks/*/src/plate.c) visit.
use concurrente2025a_evan_ch.Base.{ℕ, ◌+◌, ◌-◌, ◌*◌, ◌≡◌, refl, List, [], ◌∷◌, ◌++◌, map, count_up}
use mathlib.Core.List.{append_assoc}

-- The flat indices of the inner cells of a row, and of some rows.
abbrev pub row_cells : (cols row : ℕ) → List ℕ
row_cells cols row = map (λ col. row * cols + col) (count_up (cols - 2) 1)

abbrev pub cells : (cols : ℕ) → List ℕ → List ℕ
cells cols [] = []
cells cols (row ∷ rows) = row_cells cols row ++ cells cols rows

pub cells-append :
    (cols : ℕ) (rs ss : List ℕ) → cells cols (rs ++ ss) ≡ cells cols rs ++ cells cols ss
cells-append cols [] ss = refl
cells-append cols (r ∷ rs) ss = rw (cells-append cols rs ss, append_assoc)
