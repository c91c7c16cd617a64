-- ===== src/Plate/Schedule.antt =====
-- One round of a team of threads that run `equilibrate_rows` (homeworks/*/src/plate.c) at the same
-- time. A visit of a cell is one step: it writes that cell of `matrix` and the thread's own flag,
-- and reads only `auxiliary_matrix`, which no thread writes.
use concurrente2025a_evan_ch.Base.{
  ℕ, zero, suc, ◌+◌, ◌-◌, ◌*◌, ◌≡◌, ap, ◌∙◌, Bool, true, ◌&&◌, Option, some, List, [], ◌∷◌, ◌++◌,
  map, arith, ◌==◌, none, if◌then◌else◌, ◌>>=◌, sub64, for_each, All, count_up, Bool-cases, inl,
  inr,
}
use mathlib.Core.Path.{fun_ext}
use concurrente2025a_evan_ch.Doubles.{Doubles}
use concurrente2025a_evan_ch.Threads.{PrivateData, rows_of}
use concurrente2025a_evan_ch.Plate.Matrix.{PlateMatrix}
use concurrente2025a_evan_ch.Plate.Cells.{IsValid, IsInner}
use concurrente2025a_evan_ch.Plate.Rows.{
  visit_cell, swept, all_settled, swept-IsValid, visit_cell_lem,
}

abbrev pub Cell : Type 0
Cell = ℕ × ℕ

-- The cells that the inner and the outer loop of `equilibrate_rows` visit, in order.
abbrev pub row_visits : (cols row : ℕ) → List Cell
row_visits cols row = map (λ col. (row, col)) (count_up (sub64 cols 1 - 1) 1)

abbrev pub visits : (cols : ℕ) → List ℕ → List Cell
visits cols [] = []
visits cols (row ∷ rows) = row_visits cols row ++ visits cols rows

abbrev pub equilibrate_rows : (cols : ℕ) → PrivateData → List Cell
equilibrate_rows cols p = visits cols (rows_of p)

abbrev pub programs : (cols : ℕ) → List PrivateData → List (List Cell)
programs cols [] = []
programs cols (p ∷ team) = equilibrate_rows cols p ∷ programs cols team

-- What thread `t` of a team visits; there is nothing to do for a number that names no thread.
abbrev pub program : (cols : ℕ) → List PrivateData → ℕ → List Cell
program cols [] t = []
program cols (p ∷ team) zero = equilibrate_rows cols p
program cols (p ∷ team) (suc t) = program cols team t

-- An order of events: which thread visits which cell next.
abbrev pub Schedule : Type 0
Schedule = List (ℕ × Cell)

-- The next cell of thread `t`, and what the threads have left then; `none` if it has no cell left.
abbrev pub next_visit : ℕ → List (List Cell) → Option (Cell × List (List Cell))
next_visit t [] = none
next_visit zero ([] ∷ ps) = none
next_visit zero ((c ∷ cs) ∷ ps) = some (c, cs ∷ ps)
next_visit (suc t) (p ∷ ps) = next_visit t ps >>= λ r. some (r.0, p ∷ r.1)

abbrev pub tagged : ℕ → List Cell → Schedule
tagged t [] = []
tagged t (c ∷ cs) = (t, c) ∷ tagged t cs

abbrev pub one_by_one : ℕ → List (List Cell) → Schedule
one_by_one t [] = []
one_by_one t (p ∷ ps) = tagged t p ++ one_by_one (t + 1) ps

abbrev pub after_choice :
    ℕ
    → (List (List Cell) → Schedule)
    → List (List Cell)
    → Option (Cell × List (List Cell))
    → Schedule
after_choice t rest ps none = rest ps
after_choice t rest ps (some (c, ps')) = (t, c) ∷ rest ps'

-- All visits of the threads, in the order that the scheduler chooses: each choice is the thread that
-- goes on, if it has a cell left. What is left after the choices is done thread after thread.
unfoldable pub interleave : (choices : List ℕ) → List (List Cell) → Schedule
interleave [] ps = one_by_one 0 ps
interleave (t ∷ choices) ps = after_choice t (interleave choices) ps (next_visit t ps)

abbrev pub project : ℕ → Schedule → List Cell
project t [] = []
project t ((s, c) ∷ sched) = if s == t then c ∷ project t sched else project t sched

-- The schedule interleaves the programs of the team: each thread does its own visits in order.
abbrev pub IsInterleaving : (cols : ℕ) → List PrivateData → Schedule → Type 0
IsInterleaving cols team sched = (t : ℕ) → project t sched ≡ program cols team t

abbrev pub index_of : ℕ → Cell → ℕ
index_of cols (row, col) = row * cols + col

abbrev pub indices : ℕ → List Cell → List ℕ
indices cols [] = []
indices cols (c ∷ cs) = index_of cols c ∷ indices cols cs

abbrev pub events : Schedule → List Cell
events [] = []
events ((t, c) ∷ sched) = c ∷ events sched

abbrev pub update : (ℕ → Bool) → ℕ → Bool → ℕ → Bool
update flags t b s = if t == s then b else flags s

abbrev pub AllInner : (rows cols : ℕ) → List Cell → Type 0
AllInner rows cols = All (λ c. IsInner rows cols c.0 c.1)

and_regroup : (a b c : Bool) → (a && (b && true) && c) ≡ (a && (b && c))
and_regroup a b c = ground arith

module _ {D : Type 0} (ops : Doubles D) (mult_constant epsilon : D) where
  visit : ℕ × Cell → PlateMatrix D × (ℕ → Bool) → Option (PlateMatrix D × (ℕ → Bool))
  visit (t, (row, col)) (m, flags) = do
    (m', b) ← visit_cell ops mult_constant epsilon row col (m, flags t)
    some (m', update flags t b)

  unfoldable pub run_schedule :
      Schedule → PlateMatrix D × (ℕ → Bool) → Option (PlateMatrix D × (ℕ → Bool))
  unfolding visit for_each
  run_schedule sched s = for_each sched visit s

  abbrev pub flags_after : PlateMatrix D → Schedule → (ℕ → Bool) → ℕ → Bool
  flags_after m sched flags t =
      flags t && all_settled ops mult_constant epsilon m (indices m.cols (project t sched))

  pub run_schedule-swept :
      (sched : Schedule) (m : PlateMatrix D) (flags : ℕ → Bool)
      → IsValid m
      → AllInner m.rows m.cols (events sched)
      → run_schedule sched (m, flags)
        ≡ some (
          swept ops mult_constant epsilon (indices m.cols (events sched)) m,
          flags_after m sched flags,
        )
  unfolding run_schedule
  run_schedule-swept [] m flags v inner = ap (λ f. some (m, f)) (fun_ext (λ t. ground arith))
  run_schedule-swept ((t, (row, col)) ∷ sched) m flags v inner =
      let i = row * m.cols + col in
      rw (visit_cell_lem ops mult_constant epsilon m (flags t) row col v inner.0) (
        run_schedule-swept sched (swept ops mult_constant epsilon (i ∷ []) m)
          (update flags t (flags t && all_settled ops mult_constant epsilon m (i ∷ [])))
          (swept-IsValid ops mult_constant epsilon (i ∷ []) m v) inner.1
        ∙ ap
            (λ f.
              some
                (swept ops mult_constant epsilon (indices m.cols ((row, col) ∷ events sched)) m, f))
            (fun_ext (λ s. elim (Bool-cases (t == s)) [
              | inl e ↦ let q : t ≡ s = ground arith in rw (e, q) (and_regroup (flags s) _ _)
              | inr e ↦ rw e
            ])))
