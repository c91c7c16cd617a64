-- ===== src/RowPlate/Equilibrium.antt =====
-- `equilibrate_plate` of homeworks/pthread/src/job.c computes the simulation.
use concurrente2025a_evan_ch.Base.{
  ◌++◌, some_inj, suc, for_each, All-count_up, has, ltb, not, ℕ, zero, suc, ◌+◌, ◌-◌, ◌*◌, ◌^◌, ◌<◌,
  ◌≤◌, ◌≡◌, refl, sym, ap, ap₂, ◌∙◌, Bool, true, ◌&&◌, Option, some, List, [], ◌∷◌, arith, length,
  ◌>>=◌, All, u64, count_up, subst, if◌then◌else◌,
}
use concurrente2025a_evan_ch.Doubles.{Doubles}
use concurrente2025a_evan_ch.Blocks.{PrivateData, team_rows, init_private_data, join_threads}
use concurrente2025a_evan_ch.Blocks.Cover.{init_private_data-blocks, init_private_data-within}
use concurrente2025a_evan_ch.Plate.Rows.{swept, all_settled, visited, visit_cell_lem}
use concurrente2025a_evan_ch.Plate.Schedule.{
  programs, interleave, Schedule, IsInterleaving, AllInner, events, update, run_schedule,
}
use concurrente2025a_evan_ch.Plate.Choices.{interleave-IsInterleaving}
use concurrente2025a_evan_ch.Plate.Interleave.{IsInnerRow, events-inner}
use concurrente2025a_evan_ch.Plate.Round.{combine, IsOrder, run_schedule_lem, combine_lem}
use concurrente2025a_evan_ch.Threads as Threads
use mathlib.Core.Path.{fun_ext}
use concurrente2025a_evan_ch.Plate.Heat.{
  inner_cells, heat_step, heat, is_calm, BordersAgree, swept-heat_step, swept-BordersAgree,
}
use concurrente2025a_evan_ch.Plate.Omp.{StopsAt}
use concurrente2025a_evan_ch.RowPlate.{
  PlateMatrix, set_auxiliary, equilibrate_rows, row_programs, flags_of, with_flags, visit, run_team,
  equilibrium, state_loop, after_team, equilibrate_plate,
}
use concurrente2025a_evan_ch.RowPlate.Shape.{IsShaped}
use concurrente2025a_evan_ch.RowPlate.Flat.{flatten}
use concurrente2025a_evan_ch.RowPlate.Refines.{flat, flat-IsValid, visit_cell-flat}

-- The same team with the first row after each block in place of the last one in it.
abbrev as_flat : List PrivateData → List Threads.PrivateData
as_flat [] = []
as_flat (p ∷ team) =
    record {
      starting_row = p.starting_row;
      finish_row = u64 (p.ending_row + 1);
      equilibrated = p.equilibrated;
    }
    ∷ as_flat team

-- A team whose blocks are inside the plate and whose flags are set.
abbrev IsReady : (rows : ℕ) → List PrivateData → Type 0
IsReady rows = All (λ p. (1 ≤ p.starting_row) × (p.ending_row ≤ rows - 2) × (p.equilibrated ≡ true))

as_flat-rows :
    (rows : ℕ) (team : List PrivateData)
    → rows < 2 ^ 64
    → 3 ≤ rows
    → IsReady rows team
    → Threads.team_rows (as_flat team) ≡ team_rows team
as_flat-rows rows [] small tall ready = refl
as_flat-rows rows (p ∷ team) small tall (here, ready) =
    let e : u64 (p.ending_row + 1) ≡ p.ending_row + 1 = omega (arith, here.1) in
    ap₂ (λ (n : ℕ) rs. count_up (n - p.starting_row) p.starting_row ++ rs) e
      (as_flat-rows rows team small tall ready)

module _ {D : Type 0} (ops : Doubles D) (mult_constant epsilon : D) where
  open ops use {zero_bits}

  two_steps :
      {A B C : Type 0} (o : Option A) (a : A) (f : A → Option B) (b : B) (k : B → Option C)
      (c : Option C)
      → o ≡ some a
      → f a ≡ some b
      → k b ≡ c
      → ((o >>= f) >>= k) ≡ c
  two_steps o a f b k c e1 e2 e3 = rw (e1, e2, e3)

  -- Visits on the array of rows and on the flat plate.
  visits-flat :
      (sched : Schedule) (m : PlateMatrix D) (flags : ℕ → Bool)
      → IsShaped m
      → m.rows * m.cols < 2 ^ 64
      → AllInner m.rows m.cols (events sched)
      → (m' : PlateMatrix D) × (flags' : ℕ → Bool) × (for_each sched
            (visit ops mult_constant epsilon)
            (m, flags)
          ≡ some (m', flags'))
        × (run_schedule ops mult_constant epsilon sched (flat m, flags) ≡ some (flat m', flags'))
        × IsShaped m'
  unfolding for_each run_schedule
  visits-flat [] m flags v fits inner = (m, flags, refl, refl, v)
  visits-flat ((t, (row, col)) ∷ sched) m flags v fits (here, inner) =
      let (m1, b, run, run', v1) =
        visit_cell-flat ops mult_constant epsilon m v fits row col here (flags t) in
      let same : flat m1
          ≡ (visited ops mult_constant epsilon ((row * m.cols + col) ∷ []) (flat m, flags t)).0 =
        ap (λ s. s.0)
          (some_inj (
            sym run'
            ∙ visit_cell_lem ops mult_constant epsilon (flat m) (flags t) row col
                (flat-IsValid m v fits) here)) in
      let er : m1.rows ≡ m.rows = ap (λ s. s.rows) same in
      let ec : m1.cols ≡ m.cols = ap (λ s. s.cols) same in
      let (m2, flags2, rest, rest', v2) =
        visits-flat sched m1 (update flags t b) v1 (rw (er, ec) fits) (rw (er, ec) inner) in
      (m2, flags2, two_steps _ _ _ _ _ _ run refl rest, two_steps _ _ _ _ _ _ run' refl rest', v2)

  row_programs_lem :
      (cols : ℕ) (team : List PrivateData) → row_programs cols team ≡ programs cols (as_flat team)
  row_programs_lem cols [] = refl
  row_programs_lem cols (p ∷ team) =
      ap (λ ps. equilibrate_rows cols p ∷ ps) (row_programs_lem cols team)

  flags_of_lem :
      (rows : ℕ) (team : List PrivateData) → IsReady rows team → (t : ℕ) → flags_of team t ≡ true
  flags_of_lem rows [] ready t = refl
  flags_of_lem rows (p ∷ team) (here, ready) zero = here.2
  flags_of_lem rows (p ∷ team) (here, ready) (suc t) = flags_of_lem rows team ready t

  -- The join of all threads combines their flags and sets them again.
  join_threads-combine :
      (rows : ℕ) (team : List PrivateData) (t : ℕ) (flags : ℕ → Bool) (reached : Bool)
      → IsReady rows team
      → join_threads (with_flags t flags team) reached
        ≡ (combine (count_up (length team) t) flags reached, team)
  unfolding join_threads combine
  join_threads-combine rows [] t flags reached ready = refl
  join_threads-combine rows (p ∷ team) t flags reached (here, ready) =
      ap (λ (r : Bool × List PrivateData). (r.0, record p { equilibrated = true } ∷ r.1))
        (join_threads-combine rows team (t + 1) flags (reached && flags t) ready)
      ∙ ap
          (λ b. (
            combine (count_up (length team) (t + 1)) flags (reached && flags t),
            record p { equilibrated = b } ∷ team,
          ))
          (sym here.2)

  length-as_flat : (team : List PrivateData) → length (as_flat team) ≡ length team
  length-as_flat [] = refl
  length-as_flat (p ∷ team) = ap suc (length-as_flat team)

  has-count_up : (n i t : ℕ) → has t (count_up n i) ≡ (not (ltb t i) && ltb t (i + n))
  has-count_up zero i t = ground arith
  has-count_up (suc n) i t = ground (arith, has-count_up n (i + 1) t)

  -- A team's round under any scheduler, and the join of its flags.
  abbrev Round : (choices : List ℕ) (team : List PrivateData) → PlateMatrix D → Type 0
  Round choices team m =
      let is = inner_cells m.rows m.cols in
      (m' : PlateMatrix D) × (team' : List PrivateData) × (run_team ops mult_constant epsilon
          choices team m
        ≡ some (m', team'))
      × (flat m' ≡ swept ops mult_constant epsilon is (flat m))
      × (join_threads team' true ≡ (all_settled ops mult_constant epsilon (flat m) is, team))
      × IsShaped m'

  run_team-Round :
      (choices : List ℕ) (team : List PrivateData) (m : PlateMatrix D)
      → IsReady m.rows team
      → team_rows team ≡ count_up (m.rows - 2) 1
      → IsShaped m
      → m.rows * m.cols < 2 ^ 64
      → 1 ≤ m.cols
      → 3 ≤ m.rows
      → Round choices team m
  unfolding run_team
  run_team-Round choices team m ready covers v fits wide tall =
      let sched = interleave choices (row_programs m.cols team) in
      let flats = as_flat team in
      let il : IsInterleaving m.cols flats sched =
        subst (λ ps. IsInterleaving m.cols flats (interleave choices ps))
          (sym (row_programs_lem m.cols team)) (interleave-IsInterleaving m.cols flats choices) in
      let valid = flat-IsValid m v fits in
      let flat_covers : Threads.team_rows flats ≡ count_up (m.rows - 2) 1 =
        as_flat-rows m.rows team v.rows_small tall ready ∙ covers in
      let inner : AllInner m.rows m.cols (events sched) =
        events-inner m.rows m.cols wide v.cols_small flats sched il (
          rw flat_covers
            (All-count_up (IsInnerRow m.rows) (m.rows - 2) 1 (λ j low high. omega arith))) in
      let (m', flags, run, run', v') = visits-flat sched m (λ _. true) v fits inner in
      let both = some_inj (
        sym run'
        ∙ run_schedule_lem ops mult_constant epsilon (flat m) valid (omega arith) wide flats sched
            flat_covers il) in
      let order : IsOrder (length flats) (count_up (length team) 0) =
        λ t. has-count_up (length team) 0 t ∙ ground (arith, length-as_flat team) in
      (
        m',
        with_flags 0 flags team,
        ap
              (λ fs. for_each sched (visit ops mult_constant epsilon) (m, fs) >>= λ r.
                some (r.0, with_flags 0 r.1 team))
              (fun_ext (flags_of_lem m.rows team ready))
            ∙ ap
                (λ (o : Option (PlateMatrix D × (ℕ → Bool))).
                  o >>= λ r. some (r.0, with_flags 0 r.1 team))
                run,
        ap (λ s. s.0) both,
        join_threads-combine m.rows team 0 flags true ready
            ∙ ap (λ b. (b, team))
                (ap (λ s. combine (count_up (length team) 0) s.1 true) both
                  ∙ combine_lem ops mult_constant epsilon (flat m) valid (omega arith) wide flats
                      sched flat_covers il (count_up (length team) 0) order),
        v',
      )

  -- One turn of the loop over the states.
  Turn :
      (choices : List ℕ) (rounds : List (ℕ × List ℕ)) (team : List PrivateData)
      → PlateMatrix D
      → (k : ℕ) → Type 0
  Turn choices rounds team m k =
      (m' : PlateMatrix D) × (state_loop ops mult_constant epsilon ((0, choices) ∷ rounds) team m k
        ≡ (if is_calm ops mult_constant m.rows m.cols epsilon (flatten m.matrix)
            then some (equilibrium m' (u64 (k + 1)))
            else state_loop ops mult_constant epsilon rounds team m' (u64 (k + 1))))
      × (flat m'
          ≡ swept ops mult_constant epsilon (inner_cells m.rows m.cols) (flat (set_auxiliary m)))
      × IsShaped m'

  set_auxiliary-IsShaped : (m : PlateMatrix D) → IsShaped m → IsShaped (set_auxiliary m)
  unfolding set_auxiliary
  set_auxiliary-IsShaped m v = record {
    rows_small = v.rows_small;
    cols_small = v.cols_small;
    current = v.previous;
    previous = v.current;
  }

  state_loop-Turn :
      (choices : List ℕ) (rounds : List (ℕ × List ℕ)) (team : List PrivateData) (m : PlateMatrix D)
      (k : ℕ)
      → IsShaped m
      → m.rows * m.cols < 2 ^ 64
      → 1 ≤ m.cols
      → 3 ≤ m.rows
      → IsReady m.rows team
      → team_rows team ≡ count_up (m.rows - 2) 1
      → Turn choices rounds team m k
  unfolding Turn state_loop set_auxiliary
  state_loop-Turn choices rounds team m k v fits wide tall ready covers =
      let m1 = set_auxiliary m in
      let (m', team', run, plate, joins, v') =
        run_team-Round choices team m1 ready covers (set_auxiliary-IsShaped m v) fits wide tall in
      (
        m',
        ap
              (λ (o : Option (PlateMatrix D × List PrivateData)). o >>= λ r.
                let joined = join_threads r.1 true in
                if joined.0
                then some (equilibrium r.0 (u64 (k + 1)))
                else state_loop ops mult_constant epsilon rounds joined.1 r.0 (u64 (k + 1)))
              run
            ∙ ap
                (λ (joined : Bool × List PrivateData).
                  if joined.0
                  then some (equilibrium m' (u64 (k + 1)))
                  else state_loop ops mult_constant epsilon rounds joined.1 m' (u64 (k + 1)))
                joins,
        plate,
        v',
      )

  -- A turn takes the temperatures one state on.
  turned-heat_step :
      (m m' : PlateMatrix D)
      → IsShaped m
      → m.rows * m.cols < 2 ^ 64
      → BordersAgree zero_bits (flat m)
      → flat m'
        ≡ swept ops mult_constant epsilon (inner_cells m.rows m.cols) (flat (set_auxiliary m))
      → (m'.rows ≡ m.rows)
        × (m'.cols ≡ m.cols)
        × BordersAgree zero_bits (flat m')
        × (flatten m'.matrix ≡ heat_step ops mult_constant m.rows m.cols (flatten m.matrix))
  unfolding set_auxiliary
  turned-heat_step m m' v fits agree plate =
      let m1 = set_auxiliary m in
      let valid = flat-IsValid m1 (set_auxiliary-IsShaped m v) fits in
      let borders : BordersAgree zero_bits (flat m1) = λ j h out. sym (agree j h out) in
      (
        ap (λ s. s.rows) plate,
        ap (λ s. s.cols) plate,
        subst (BordersAgree zero_bits) (sym plate)
            (swept-BordersAgree ops mult_constant epsilon (flat m1) valid borders),
        ap (λ s. s.matrix) plate
            ∙ swept-heat_step ops mult_constant epsilon (flat m1) valid borders,
      )

  state_loop-heat :
      (n : ℕ) (rounds : List (ℕ × List ℕ)) (team : List PrivateData) (m : PlateMatrix D) (k : ℕ)
      → IsShaped m
      → m.rows * m.cols < 2 ^ 64
      → 1 ≤ m.cols
      → 3 ≤ m.rows
      → BordersAgree zero_bits (flat m)
      → IsReady m.rows team
      → team_rows team ≡ count_up (m.rows - 2) 1
      → All (λ (round : ℕ × List ℕ). round.0 ≡ 0) rounds
      → n < length rounds
      → StopsAt ops mult_constant epsilon m.rows m.cols n (flatten m.matrix)
      → (m' : PlateMatrix D) × (state_loop ops mult_constant epsilon rounds team m k
          ≡ some (equilibrium m' (u64 (k + suc n))))
        × (flatten m'.matrix ≡ heat ops mult_constant m.rows m.cols (suc n) (flatten m.matrix))
        × IsShaped m'
  unfolding Turn
  state_loop-heat n [] team m k v fits wide tall agree ready covers made enough stops =
      absurd (omega arith)
  state_loop-heat zero ((errors, choices) ∷ rounds) team m k v fits wide tall agree ready covers
        made enough stops =
      let (m', turn, plate, v') =
        state_loop-Turn choices rounds team m k v fits wide tall ready covers in
      let (er, ec, agree', first) = turned-heat_step m m' v fits agree plate in
      (
        m',
        ap (λ e. state_loop ops mult_constant epsilon ((e, choices) ∷ rounds) team m k) made.0
            ∙ turn
            ∙ ap
                (λ (calm : Bool).
                  if calm
                  then some (equilibrium m' (u64 (k + 1)))
                  else state_loop ops mult_constant epsilon rounds team m' (u64 (k + 1)))
                stops,
        first,
        v',
      )
  state_loop-heat (suc n) ((errors, choices) ∷ rounds) team m k v fits wide tall agree ready covers
        made enough stops =
      let (m', turn, plate, v') =
        state_loop-Turn choices rounds team m k v fits wide tall ready covers in
      let (er, ec, agree', first) = turned-heat_step m m' v fits agree plate in
      let (final, runs, is_heat, shaped) =
        state_loop-heat n rounds team m' (u64 (k + 1)) v' (rw (er, ec) fits) (rw ec wide)
          (rw er tall) agree' (rw er ready) (rw er covers) made.1 (omega arith)
          (rw (er, ec, first) stops.1) in
      (
        final,
        ap (λ e. state_loop ops mult_constant epsilon ((e, choices) ∷ rounds) team m k) made.0
            ∙ turn
            ∙ ap
                (λ (calm : Bool).
                  if calm
                  then some (equilibrium m' (u64 (k + 1)))
                  else state_loop ops mult_constant epsilon rounds team m' (u64 (k + 1)))
                stops.0
            ∙ runs
            ∙ ap (λ j. some (equilibrium final j)) (omega arith),
        is_heat
            ∙ ap₂ (λ (a b : ℕ). heat ops mult_constant a b (suc n) (flatten m'.matrix)) er ec
            ∙ ap (heat ops mult_constant m.rows m.cols (suc n)) first,
        shaped,
      )

-- `equilibrate_plate` of the first version with threads computes the simulation. For a plate of at least
-- three rows and one column whose two arrays have its shape and agree on the border, at least one thread,
-- an allocation and a creation of threads that succeed, and a simulation that is first calm after `n`
-- states: with more than `n` rounds, whatever the scheduler chooses in each, it ends in equilibrium, with the temperatures after `n + 1` states and
-- `n + 1` modulo 2 ^ 64 as their number.
pub equilibrate_plate-heat_by_rows :
    {D : Type 0} (ops : Doubles D) (diffusivity dimension epsilon : D) (duration thread_count n : ℕ)
    (rounds : List (ℕ × List ℕ)) (m : PlateMatrix D)
    → let mult_constant =
        ops.div (ops.mul diffusivity (ops.of_u64 duration)) (ops.mul dimension dimension) in
      IsShaped m
      → m.rows * m.cols < 2 ^ 64
      → 1 ≤ m.cols
      → 3 ≤ m.rows
      → BordersAgree ops.zero_bits (flat m)
      → 0 < thread_count
      → All (λ (round : ℕ × List ℕ). round.0 ≡ 0) rounds
      → n < length rounds
      → StopsAt ops mult_constant epsilon m.rows m.cols n (flatten m.matrix)
      → (m' : PlateMatrix D) × (equilibrate_plate ops diffusivity dimension epsilon duration true
            thread_count rounds m
          ≡ some (equilibrium m' (u64 (suc n))))
        × (flatten m'.matrix ≡ heat ops mult_constant m.rows m.cols (suc n) (flatten m.matrix))
        × IsShaped m'
unfolding equilibrate_plate after_team init_private_data
equilibrate_plate-heat_by_rows ops diffusivity dimension epsilon duration thread_count n rounds m v
      fits wide tall agree threads made enough stops =
    let (m', runs, is_heat, shaped) =
      state_loop-heat ops
        (ops.div (ops.mul diffusivity (ops.of_u64 duration)) (ops.mul dimension dimension)) epsilon
        n rounds _ m 0 v fits wide tall agree
        (init_private_data-within m.rows thread_count tall v.rows_small threads refl)
        (init_private_data-blocks m.rows thread_count tall v.rows_small threads refl) made enough
        stops in
    (m', runs ∙ ap (λ j. some (equilibrium m' j)) (omega arith), is_heat, shaped)
