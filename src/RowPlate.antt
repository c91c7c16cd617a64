-- ===== src/RowPlate.antt =====
-- homeworks/pthread/src/plate_matrix.c, with `equilibrate_rows` (plate.c) and `equilibrate_plate` (job.c)
-- of the same directory: the plate as an array of rows. `none` is a null pointer as a result of the
-- functions that allocate, and an access outside an array elsewhere.
pub mod Shape
pub mod Flat
pub mod Refines
pub mod Equilibrium
pub mod Border
use concurrente2025a_evan_ch.Base.{
  ℕ, zero, suc, ◌+◌, ◌*◌, ◌-◌, count_up, ltb, Bool, true, false, Option, none, some, List, [], ◌∷◌,
  if◌then◌else◌, ◌>>=◌, u64, sub64, get_elem?, replicate, set?, for_each, for_range,
}
use concurrente2025a_evan_ch.Doubles.{Doubles}
use concurrente2025a_evan_ch.Blocks.{PrivateData, init_private_data, join_threads}
use concurrente2025a_evan_ch.Plate.Matrix.{new_temperature}
use concurrente2025a_evan_ch.Plate.Schedule.{Cell, visits, update, interleave}

pub record PlateMatrix (D : Type 0) : Type 0 where
  pub rows : ℕ
  pub cols : ℕ
  pub matrix : List (List D)
  pub auxiliary_matrix : List (List D)

-- `matrix[row][col]`
abbrev pub get_cell : {D : Type 0} → List (List D) → (row col : ℕ) → Option D
get_cell matrix row col = do cells ← get_elem? matrix row; get_elem? cells col

-- `matrix[row][col] = v`
abbrev pub set_cell : {D : Type 0} → List (List D) → (row col : ℕ) → D → Option (List (List D))
set_cell matrix row col v = do
  cells ← get_elem? matrix row
  cells' ← set? cells col v
  set? matrix row cells'

-- The rows that `create_double_matrix` allocates; the flags say which calls of `calloc` succeed.
unfoldable pub create_rows : {D : Type 0} → D → List Bool → (rows cols : ℕ) → Option (List (List D))
create_rows bits got zero cols = some []
create_rows bits [] (suc rows) cols = none
create_rows bits (g ∷ got) (suc rows) cols = do
  rest ← create_rows bits got rows cols
  if g then some (replicate cols bits ∷ rest) else none

unfoldable pub create_double_matrix :
    {D : Type 0} → D → (got : Bool) → List Bool → (rows cols : ℕ) → Option (List (List D))
unfolding create_rows
create_double_matrix bits got got_rows rows cols =
    if got then create_rows bits got_rows rows cols else none

unfoldable pub init_plate_matrix :
    {D : Type 0}
    → D
    → (got got_matrix got_auxiliary : Bool) → (matrix_rows auxiliary_rows : List Bool)
    → (rows cols : ℕ) → Option (PlateMatrix D)
unfolding create_double_matrix
init_plate_matrix bits got got_matrix got_auxiliary matrix_rows auxiliary_rows rows cols =
    let arrays =
      (create_double_matrix bits got_matrix matrix_rows rows cols >>= λ matrix.
      create_double_matrix bits got_auxiliary auxiliary_rows rows cols >>= λ auxiliary.
      some (record { rows = rows; cols = cols; matrix = matrix; auxiliary_matrix = auxiliary })) in
    if got then arrays else none

-- `auxiliary_matrix[row][col] = initial_matrix[row][col]`
abbrev pub copy_cell :
    {D : Type 0} → List (List D) → (row col : ℕ) → List (List D) → Option (List (List D))
copy_cell initial_matrix row col auxiliary = do
  v ← get_cell initial_matrix row col
  set_cell auxiliary row col v

unfoldable pub init_auxiliary : {D : Type 0} → PlateMatrix D → Option (PlateMatrix D)
init_auxiliary m = do
  let last_row = sub64 m.rows 1
  let last_col = sub64 m.cols 1
  a ← for_range 0 m.cols (λ col. copy_cell m.matrix 0 col) m.auxiliary_matrix
  b ← for_range 0 m.cols (λ col. copy_cell m.matrix last_row col) a
  c ← for_range 1 last_row (λ row. copy_cell m.matrix row 0) b
  d ← for_range 1 last_row (λ row. copy_cell m.matrix row last_col) c
  some (record m { auxiliary_matrix = d })

unfoldable pub set_auxiliary : {D : Type 0} → PlateMatrix D → PlateMatrix D
set_auxiliary m = record m { matrix = m.auxiliary_matrix; auxiliary_matrix = m.matrix }

-- The cells that the two loops of `equilibrate_rows` visit for one thread, in order.
abbrev pub equilibrate_rows : (cols : ℕ) → PrivateData → List Cell
equilibrate_rows cols p =
    visits cols (count_up (u64 (p.ending_row + 1) - p.starting_row) p.starting_row)

abbrev pub row_programs : (cols : ℕ) → List PrivateData → List (List Cell)
row_programs cols [] = []
row_programs cols (p ∷ team) = equilibrate_rows cols p ∷ row_programs cols team

-- The flags of a team's threads, by their numbers; and the team with other flags, from thread `t` on.
abbrev pub flags_of : List PrivateData → ℕ → Bool
flags_of [] t = true
flags_of (p ∷ team) zero = p.equilibrated
flags_of (p ∷ team) (suc t) = flags_of team t

abbrev pub with_flags : ℕ → (ℕ → Bool) → List PrivateData → List PrivateData
with_flags t flags [] = []
with_flags t flags (p ∷ team) = record p { equilibrated = flags t } ∷ with_flags (t + 1) flags team

module _ {D : Type 0} (ops : Doubles D) where
  open ops use {fabs, sub, gt}

  -- The sum is that of the flat matrix, in the same order of evaluation.
  unfoldable pub update_cell :
      PlateMatrix D → (row col : ℕ) → (mult_constant : D) → Option (PlateMatrix D)
  update_cell m row col mult_constant = do
    let current = m.auxiliary_matrix
    here ← get_cell current row col
    top ← get_cell current (sub64 row 1) col
    right ← get_cell current row (u64 (col + 1))
    bottom ← get_cell current (u64 (row + 1)) col
    left ← get_cell current row (sub64 col 1)
    cells ← set_cell m.matrix row col (new_temperature ops mult_constant here top right bottom left)
    some (record m { matrix = cells })

  -- The body of the inner loop, on the plate and the thread's flag.
  unfoldable pub visit_cell :
      (mult_constant epsilon : D) (row col : ℕ)
      → PlateMatrix D × Bool
      → Option (PlateMatrix D × Bool)
  visit_cell mult_constant epsilon row col (m, equilibrated) = do
    m' ← update_cell m row col mult_constant
    new ← get_cell m'.matrix row col
    old ← get_cell m'.auxiliary_matrix row col
    let difference = fabs (sub new old)
    some (m', if gt difference epsilon then false else equilibrated)

  -- A visit of a cell by thread `t`, on the plate and the threads' flags.
  abbrev pub visit :
      (mult_constant epsilon : D)
      → ℕ × Cell
      → PlateMatrix D × (ℕ → Bool)
      → Option (PlateMatrix D × (ℕ → Bool))
  visit mult_constant epsilon (t, (row, col)) (m, flags) = do
    (m', b) ← visit_cell mult_constant epsilon row col (m, flags t)
    some (m', update flags t b)

  -- The threads of one state, in the order that the scheduler chooses (Plate/Schedule), until all are
  -- joined.
  unfoldable pub run_team :
      (mult_constant epsilon : D) (choices : List ℕ)
      → List PrivateData
      → PlateMatrix D
      → Option (PlateMatrix D × List PrivateData)
  run_team mult_constant epsilon choices team m = do
    (m', flags) ←
        for_each (interleave choices (row_programs m.cols team)) (visit mult_constant epsilon)
          (m, flags_of team)
    some (m', with_flags 0 flags team)

-- How `equilibrate_plate` ends, but for a fault; `running` has used up the rounds that it was given.
pub data Outcome (D : Type 0) : Type 0 where
  equilibrium : PlateMatrix D → (k_states : ℕ) → Outcome D
  create_error : (errors : ℕ) → Outcome D
  running : PlateMatrix D → (k_states : ℕ) → Outcome D

module _ {D : Type 0} (ops : Doubles D) where
  -- The loop over the states. Each round has the result of `create_threads` and the
  -- scheduler's choices.
  unfoldable pub state_loop :
      (mult_constant epsilon : D) (rounds : List (ℕ × List ℕ))
      → List PrivateData
      → PlateMatrix D
      → (k_states : ℕ) → Option (Outcome D)
  state_loop mult_constant epsilon [] team m k_states = some (running m k_states)
  state_loop mult_constant epsilon ((errors, choices) ∷ rounds) team m k_states =
      let round =
        (run_team ops mult_constant epsilon choices team (set_auxiliary m) >>= λ r.
        let joined = join_threads r.1 true in
        let k = u64 (k_states + 1) in
        let rest = state_loop mult_constant epsilon rounds joined.1 r.0 k in
        if joined.0 then some (equilibrium r.0 k) else rest) in
      if ltb 0 errors then some (create_error errors) else round

  -- After `init_private_data`, whose null pointer is the error ERR_CREATE_THREAD_TEAM.
  unfoldable pub after_team :
      (mult_constant epsilon : D) (rounds : List (ℕ × List ℕ))
      → PlateMatrix D
      → Option (List PrivateData)
      → Option (Outcome D)
  after_team mult_constant epsilon rounds m none = some (create_error 31)
  after_team mult_constant epsilon rounds m (some team) =
      state_loop mult_constant epsilon rounds team m 0

  unfoldable pub equilibrate_plate :
      (thermal_diffusivity cells_dimension epsilon : D) (interval_duration : ℕ)
      → (allocated : Bool) (thread_count : ℕ) (rounds : List (ℕ × List ℕ)) → PlateMatrix D
      → Option (Outcome D)
  unfolding after_team
  equilibrate_plate diffusivity dimension epsilon duration allocated thread_count rounds m =
      let diff_times_interval = ops.mul diffusivity (ops.of_u64 duration) in
      let cell_area = ops.mul dimension dimension in
      let mult_constant = ops.div diff_times_interval cell_area in
      after_team mult_constant epsilon rounds m (init_private_data allocated m.rows thread_count)
