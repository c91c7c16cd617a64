-- ===== src/Plate/Heat.antt =====
-- The mathematical simulation that the programs compute: every inner cell takes its new temperature
-- from the old temperatures alone, and the border keeps its own.
use concurrente2025a_evan_ch.Base.{
  ℕ, zero, suc, ◌-◌, ◌*◌, ◌<◌, ◌≡◌, sym, ◌∙◌, Bool, false, List, arith, length, get_or, list_ext,
  count_up, has, write_at, length-write_at, get_or-write_at, Bool-cases, inl, inr,
}
use concurrente2025a_evan_ch.Doubles.{Doubles}
use concurrente2025a_evan_ch.Plate.Matrix.{PlateMatrix}
use concurrente2025a_evan_ch.Plate.Cells.{IsValid, stencil}
use concurrente2025a_evan_ch.Plate.Rows.{swept, all_settled}
use concurrente2025a_evan_ch.Plate.Sweep.{cells}

-- The flat indices of the cells that have four neighbours, row by row.
abbrev pub inner_cells : (rows cols : ℕ) → List ℕ
inner_cells rows cols = cells cols (count_up (rows - 2) 1)

module _ {D : Type 0} (ops : Doubles D) (mult_constant : D) (rows cols : ℕ) where
  abbrev pub heat_step : List D → List D
  heat_step t = write_at (stencil ops cols mult_constant t) (inner_cells rows cols) t

  -- The temperatures after `n` states.
  abbrev pub heat : ℕ → List D → List D
  heat zero t = t
  heat (suc n) t = heat n (heat_step t)

  -- The next state changes no inner cell by more than epsilon.
  abbrev pub is_calm : (epsilon : D) → List D → Bool
  is_calm epsilon t =
      all_settled ops mult_constant epsilon
        (record { rows = rows; cols = cols; matrix = t; auxiliary_matrix = t })
        (inner_cells rows cols)

-- The two arrays agree on the border.
abbrev pub BordersAgree : {D : Type 0} → D → PlateMatrix D → Type 0
BordersAgree d m =
    (j : ℕ)
    → j < m.rows * m.cols
    → has j (inner_cells m.rows m.cols) ≡ false
    → get_or m.auxiliary_matrix j d ≡ get_or m.matrix j d

module _ {D : Type 0} (ops : Doubles D) (mult_constant epsilon : D) where
  open ops use {zero_bits}

  pub swept-heat_step :
      (m : PlateMatrix D)
      → IsValid m
      → BordersAgree zero_bits m
      → (swept ops mult_constant epsilon (inner_cells m.rows m.cols) m).matrix
        ≡ heat_step ops mult_constant m.rows m.cols m.auxiliary_matrix
  swept-heat_step m v agree =
      list_ext (write_at f is m.matrix) (write_at f is m.auxiliary_matrix) zero_bits
        (length-write_at f is m.matrix
          ∙ v.current
          ∙ sym v.previous
          ∙ sym (length-write_at f is m.auxiliary_matrix))
        (λ j h. same j (omega (arith, length-write_at f is m.matrix)))
    where
      is : List ℕ
      is = inner_cells m.rows m.cols

      f : ℕ → D
      f = stencil ops m.cols mult_constant m.auxiliary_matrix

      same :
          (j : ℕ)
          → j < length m.matrix
          → get_or (write_at f is m.matrix) j zero_bits
            ≡ get_or (write_at f is m.auxiliary_matrix) j zero_bits
      same j h =
          rw
            (
              get_or-write_at f is m.matrix j zero_bits h,
              get_or-write_at f is m.auxiliary_matrix j zero_bits (omega arith),
            )
            (elim (Bool-cases (has j is)) [
              | inl e ↦ rw e
              | inr e ↦ rw e (sym (agree j (omega arith) e))
            ])

  -- A sweep of the inner cells leaves the border of `matrix` alone.
  pub swept-BordersAgree :
      (m : PlateMatrix D)
      → IsValid m
      → BordersAgree zero_bits m
      → BordersAgree zero_bits (swept ops mult_constant epsilon (inner_cells m.rows m.cols) m)
  swept-BordersAgree m v agree j h out =
      agree j h out
      ∙ sym (
          get_or-write_at (stencil ops m.cols mult_constant m.auxiliary_matrix)
            (inner_cells m.rows m.cols) m.matrix j zero_bits (omega arith)
          ∙ rw out)

pub length-heat_step :
    {D : Type 0} (ops : Doubles D) (mult_constant : D) (rows cols : ℕ) (t : List D)
    → length (heat_step ops mult_constant rows cols t) ≡ length t
length-heat_step ops mult_constant rows cols t = length-write_at _ (inner_cells rows cols) t
