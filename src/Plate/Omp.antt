-- ===== src/Plate/Omp.antt =====
-- `equilibrate_plate` of homeworks/omp_mpi/src/plate.c. OpenMP chooses the sizes of the team's blocks of
-- rows, the interleaving of each round and the order of the reduction: they are arguments.
use concurrente2025a_evan_ch.Base.{
  ℕ, zero, suc, ◌+◌, ◌-◌, ◌≤◌, ◌<◌, ◌≡◌, refl, sym, ap, ◌∙◌, true, false, Option, some, List, [],
  ◌∷◌, arith, if◌then◌else◌, ◌>>=◌, u64, sub64, sub64_eq, ltb, ◌++◌, length, All, count_up,
  count_up-append,
}
use concurrente2025a_evan_ch.Doubles.{Doubles}
use concurrente2025a_evan_ch.Threads.{PrivateData, team_rows}
use concurrente2025a_evan_ch.Plate.Matrix.{PlateMatrix, set_auxiliary}
use concurrente2025a_evan_ch.Plate.Record.{Plate, calculate_mult_constant}
use concurrente2025a_evan_ch.Plate.Cells.{IsValid}
use concurrente2025a_evan_ch.Plate.Rows.{swept, swept-IsValid}
use concurrente2025a_evan_ch.Plate.Schedule.{programs, interleave, run_schedule}
use concurrente2025a_evan_ch.Plate.Choices.{interleave-IsInterleaving}
use concurrente2025a_evan_ch.Plate.Index.{rows_small}
use concurrente2025a_evan_ch.Plate.Heat.{
  inner_cells, heat_step, heat, is_calm, BordersAgree, swept-heat_step, swept-BordersAgree,
}
use concurrente2025a_evan_ch.Plate.Round.{combine, IsOrder, run_schedule_lem, combine_lem}

-- The scheduler's choices in one round, and the order in which the threads' flags are joined.
abbrev pub Turns : Type 0
Turns = List ℕ × List ℕ

-- Every thread of the team joins its flag.
abbrev pub IsFair : List PrivateData → Turns → Type 0
IsFair team (choices, order) = IsOrder (length team) order

-- The blocks of the iterations `row`, …, `past - 1` of the shared loop that OpenMP gives to the threads: as
-- many as it chooses for each, and the last has what is left.
abbrev pub omp_team : (sizes : List ℕ) (row past : ℕ) → List PrivateData
omp_team [] row past = record { starting_row = row; finish_row = past; equilibrated = true } ∷ []
omp_team (size ∷ sizes) row past =
    let end = if ltb (row + size) past then row + size else past in
    record { starting_row = row; finish_row = end; equilibrated = true } ∷ omp_team sizes end past

append_nil : (xs : List ℕ) → xs ++ [] ≡ xs
append_nil [] = refl
append_nil (x ∷ xs) = ap (λ ys. x ∷ ys) (append_nil xs)

omp_team-rows :
    (sizes : List ℕ) (row past : ℕ)
    → row ≤ past
    → team_rows (omp_team sizes row past) ≡ count_up (past - row) row
omp_team-rows [] row past h = append_nil (count_up (past - row) row)
omp_team-rows (size ∷ sizes) row past h =
    let end = if ltb (row + size) past then row + size else past in
    let bounds : (row ≤ end) × (end ≤ past) = ground arith in
    ap (λ rs. count_up (end - row) row ++ rs) (omp_team-rows sizes end past bounds.1)
    ∙ sym (count_up-append (end - row) (past - end) row end (omega (arith, bounds)))
    ∙ ap (λ (n : ℕ). count_up n row) (omega (arith, bounds))

-- `running` is a loop that has used up the rounds that it was given.
pub data Ending (D : Type 0) : Type 0 where
  finished : PlateMatrix D → (k_states : ℕ) → Ending D
  running : PlateMatrix D → (k_states : ℕ) → Ending D

module _ {D : Type 0} (ops : Doubles D) (mult_constant epsilon : D) (sizes : List ℕ) where
  -- The `single` block, the shared `for` and the test: one turn of the `while`.
  unfoldable pub omp_loop : List Turns → PlateMatrix D → (k_states : ℕ) → Option (Ending D)
  omp_loop [] m k_states = some (running m k_states)
  omp_loop ((choices, order) ∷ rounds) m k_states = do
    let k = u64 (k_states + 1)
    let team = omp_team sizes 1 (sub64 m.rows 1)
    (m', flags) ←
        run_schedule ops mult_constant epsilon (interleave choices (programs m.cols team))
          (set_auxiliary m, λ _. true)
    let rest = omp_loop rounds m' k
    if combine order flags true then some (finished m' k) else rest

-- The plate is that of the record when the loop ends.
unfoldable pub equilibrate_plate :
    {D : Type 0} → Doubles D → (sizes : List ℕ) → List Turns → Plate D → Option (Ending D)
unfolding omp_loop
equilibrate_plate ops sizes rounds plate =
    omp_loop ops (calculate_mult_constant ops plate) plate.epsilon sizes rounds plate.plate_matrix
      plate.k_states

-- The simulation is first calm after `n` states.
abbrev pub StopsAt :
    {D : Type 0} → Doubles D → (mult_constant epsilon : D) → (rows cols n : ℕ) → List D → Type 0
StopsAt ops mult_constant epsilon rows cols zero t =
    is_calm ops mult_constant rows cols epsilon t ≡ true
StopsAt ops mult_constant epsilon rows cols (suc n) t =
    (is_calm ops mult_constant rows cols epsilon t ≡ false)
    × StopsAt ops mult_constant epsilon rows cols n (heat_step ops mult_constant rows cols t)

module _ {D : Type 0} (ops : Doubles D) (mult_constant epsilon : D) (sizes : List ℕ) where
  open ops use {zero_bits}

  abbrev team_of : PlateMatrix D → List PrivateData
  team_of m = omp_team sizes 1 (sub64 m.rows 1)

  covers_of :
      (m : PlateMatrix D)
      → IsValid m
      → 2 ≤ m.rows
      → 1 ≤ m.cols
      → team_rows (team_of m) ≡ count_up (m.rows - 2) 1
  covers_of m v tall wide =
      let e : sub64 m.rows 1 ≡ m.rows - 1 =
        sub64_eq m.rows 1 (omega arith) (omega (arith, v.fits, rows_small m.rows m.cols wide)) in
      omp_team-rows sizes 1 (sub64 m.rows 1) (omega arith)
      ∙ ap (λ (n : ℕ). count_up n 1) (omega arith)

  -- One turn of the loop, once its round is known.
  omp_turn :
      (choices order : List ℕ) (rounds : List Turns) (m : PlateMatrix D) (k : ℕ)
      → IsValid m
      → 2 ≤ m.rows
      → 1 ≤ m.cols
      → IsFair (team_of m) (choices, order)
      → let m' = swept ops mult_constant epsilon (inner_cells m.rows m.cols) (set_auxiliary m) in
        omp_loop ops mult_constant epsilon sizes ((choices, order) ∷ rounds) m k ≡ (
          if is_calm ops mult_constant m.rows m.cols epsilon m.matrix
          then some (finished m' (u64 (k + 1)))
          else omp_loop ops mult_constant epsilon sizes rounds m' (u64 (k + 1)))
  unfolding omp_loop set_auxiliary
  omp_turn choices order rounds m k v tall wide fair =
      let team = team_of m in
      let covers = covers_of m v tall wide in
      let sched = interleave choices (programs m.cols team) in
      let il = interleave-IsInterleaving m.cols team choices in
      let m1 = set_auxiliary m in
      let v1 : IsValid m1 = record { fits = v.fits; current = v.previous; previous = v.current } in
      rw (
        run_schedule_lem ops mult_constant epsilon m1 v1 tall wide team sched covers il,
        combine_lem ops mult_constant epsilon m1 v1 tall wide team sched covers il order fair,
      )

  -- The OpenMP loop computes the simulation. For a valid plate of at least two rows and one column,
  -- whose arrays agree on the border, and a simulation that is first calm after `n` states: whatever
  -- the blocks of rows, the interleavings and the orders of reduction of more than `n` rounds, in which every
  -- thread's flag is joined, the loop
  -- ends, the temperatures are those after `n + 1` states, `k_states` has grown by `n + 1` modulo 2 ^ 64,
  -- and the plate is valid and has its size.
  pub omp_loop-heat :
      (n : ℕ) (rounds : List Turns) (m : PlateMatrix D) (k : ℕ)
      → IsValid m
      → BordersAgree zero_bits m
      → 2 ≤ m.rows
      → 1 ≤ m.cols
      → All (IsFair (omp_team sizes 1 (sub64 m.rows 1))) rounds
      → n < length rounds
      → StopsAt ops mult_constant epsilon m.rows m.cols n m.matrix
      → (m' : PlateMatrix D) × (omp_loop ops mult_constant epsilon sizes rounds m k
          ≡ some (finished m' (u64 (k + suc n))))
        × (m'.matrix ≡ heat ops mult_constant m.rows m.cols (suc n) m.matrix)
        × IsValid m'
        × (m'.rows ≡ m.rows)
        × (m'.cols ≡ m.cols)
  unfolding set_auxiliary
  omp_loop-heat n [] m k v agree tall wide fair enough stops = absurd (omega arith)
  omp_loop-heat zero ((choices, order) ∷ rounds) m k v agree tall wide fair enough stops = (
    swept ops mult_constant epsilon (inner_cells m.rows m.cols) (set_auxiliary m),
    rw (omp_turn choices order rounds m k v tall wide fair.0, stops),
    swept-heat_step ops mult_constant epsilon (set_auxiliary m)
        (record { fits = v.fits; current = v.previous; previous = v.current })
        (λ j h out. sym (agree j h out)),
    swept-IsValid ops mult_constant epsilon (inner_cells m.rows m.cols) (set_auxiliary m)
        (record { fits = v.fits; current = v.previous; previous = v.current }),
    refl,
    refl,
  )
  omp_loop-heat (suc n) ((choices, order) ∷ rounds) m k v agree tall wide fair enough stops =
      let m1 = set_auxiliary m in
      let v1 : IsValid m1 = record { fits = v.fits; current = v.previous; previous = v.current } in
      let a1 : BordersAgree zero_bits m1 = λ j h out. sym (agree j h out) in
      let m' = swept ops mult_constant epsilon (inner_cells m.rows m.cols) m1 in
      let e : m'.matrix ≡ heat_step ops mult_constant m.rows m.cols m.matrix =
        swept-heat_step ops mult_constant epsilon m1 v1 a1 in
      let (final, runs, is_heat, valid, same_rows, same_cols) =
        omp_loop-heat n rounds m' (u64 (k + 1))
          (swept-IsValid ops mult_constant epsilon (inner_cells m.rows m.cols) m1 v1)
          (swept-BordersAgree ops mult_constant epsilon m1 v1 a1) tall wide fair.1 (omega arith)
          (rw e stops.1) in
      (
        final,
        rw (omp_turn choices order rounds m k v tall wide fair.0, stops.0)
            (runs ∙ ap (λ j. some (finished final j)) (omega arith)),
        is_heat ∙ ap (heat ops mult_constant m.rows m.cols (suc n)) e,
        valid,
        same_rows,
        same_cols,
      )
