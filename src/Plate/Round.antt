-- ===== src/Plate/Round.antt =====
-- One round of a team: whatever the interleaving, and whatever the order in which the threads add
-- their flags to the shared one, the plate and the shared flag are those of the simulation.
use concurrente2025a_evan_ch.Base.{
  ℕ, zero, suc, ◌-◌, ◌^◌, ◌≤◌, ◌<◌, ◌≡◌, refl, sym, ap, ◌∙◌, Bool, true, ◌&&◌, some, List, [], ◌∷◌,
  arith, ltb, length, All, All-count_up, count_up, has, write_at-order, Bool-eq_of_iff, ◌↔◌,
  and_true,
}
use concurrente2025a_evan_ch.Doubles.{Doubles}
use concurrente2025a_evan_ch.Threads.{PrivateData, team_rows}
use concurrente2025a_evan_ch.Plate.Matrix.{PlateMatrix}
use concurrente2025a_evan_ch.Plate.Index.{cols_small}
use concurrente2025a_evan_ch.Plate.Cells.{IsValid, stencil}
use concurrente2025a_evan_ch.Plate.Rows.{swept, settled, all_settled}
use concurrente2025a_evan_ch.Plate.Schedule.{
  program, Schedule, project, IsInterleaving, indices, events, run_schedule, flags_after,
  run_schedule-swept,
}
use concurrente2025a_evan_ch.Plate.Interleave.{
  IsInnerRow, events-has, events-inner, events→project, project→events,
}
use concurrente2025a_evan_ch.Plate.Heat.{inner_cells}

-- `equilibrated_plate &= equilibrated` by the threads in the given order.
unfoldable pub combine : List ℕ → (ℕ → Bool) → Bool → Bool
combine [] flags shared = shared
combine (t ∷ order) flags shared = combine order flags (shared && flags t)

-- Every thread of a team of `n` adds its flag, and no other does.
abbrev pub IsOrder : (n : ℕ) → List ℕ → Type 0
IsOrder n order = (t : ℕ) → has t order ≡ ltb t n

combine_iff :
    (order : List ℕ) (flags : ℕ → Bool) (b : Bool)
    → (combine order flags b ≡ true)
      ↔ ((b ≡ true) × ((t : ℕ) → has t order ≡ true → flags t ≡ true))
unfolding combine
combine_iff [] flags b = (λ e. (e, λ t h. absurd (cc)), λ h. h.0)
combine_iff (t ∷ order) flags b =
    let (to, from) = combine_iff order flags (b && flags t) in
    (
      λ e. (
        ((and_true b (flags t)).0 (to e).0).0,
        λ s h. member s h ((and_true b (flags t)).0 (to e).0).1 (to e).1,
      ),
      λ h. from ((and_true b (flags t)).1 (h.0, h.1 t (first t order)), λ s k. h.1 s (later s k)),
    )
  where
    member :
        (s : ℕ)
        → has s (t ∷ order) ≡ true
        → flags t ≡ true
        → ((r : ℕ) → has r order ≡ true → flags r ≡ true)
        → flags s ≡ true
    member s h here rest = ground (arith, rest s)

    first : (t : ℕ) (order : List ℕ) → has t (t ∷ order) ≡ true
    first t order = ground arith

    later : (s : ℕ) → has s order ≡ true → has s (t ∷ order) ≡ true
    later s k = ground arith

-- Only a thread of the team visits cells.
visitor_lt :
    (cols : ℕ) (team : List PrivateData) (t j : ℕ)
    → has j (indices cols (program cols team t)) ≡ true
    → ltb t (length team) ≡ true
visitor_lt cols [] t j h = absurd (cc)
visitor_lt cols (p ∷ team) zero j h = ground arith
visitor_lt cols (p ∷ team) (suc t) j h = ground (arith, visitor_lt cols team t j h)

module _ {D : Type 0} (ops : Doubles D) (mult_constant epsilon : D) where
  all_settled_iff :
      (m : PlateMatrix D) (is : List ℕ)
      → (all_settled ops mult_constant epsilon m is ≡ true)
        ↔ ((j : ℕ) → has j is ≡ true → settled ops mult_constant epsilon m j ≡ true)
  all_settled_iff m [] = (λ e j h. absurd (cc), λ h. refl)
  all_settled_iff m (i ∷ is) =
      let (to, from) = all_settled_iff m is in
      (
        λ e j h.
            let here =
              (and_true (settled ops mult_constant epsilon m i)
                  (all_settled ops mult_constant epsilon m is)).0
                e in
            ground (arith, here.0, to here.1 j),
        λ h. (and_true _ _).1 (h i (ground arith), from (λ j k. h j (ground arith))),
      )

  -- The same indices in another order settle alike.
  all_settled-order :
      (m : PlateMatrix D) (is js : List ℕ)
      → ((j : ℕ) → has j is ≡ has j js)
      → all_settled ops mult_constant epsilon m is ≡ all_settled ops mult_constant epsilon m js
  all_settled-order m is js same =
      Bool-eq_of_iff _ _
        (λ e. (all_settled_iff m js).1 (λ j h. (all_settled_iff m is).0 e j (same j ∙ h)))
        (λ e. (all_settled_iff m is).1 (λ j h. (all_settled_iff m js).0 e j (sym (same j) ∙ h)))

  module _ (m : PlateMatrix D) (v : IsValid m) (tall : 2 ≤ m.rows) (wide : 1 ≤ m.cols)
      (team : List PrivateData) (sched : Schedule)
      (covers : team_rows team ≡ count_up (m.rows - 2) 1)
      (il : IsInterleaving m.cols team sched) where
    abbrev inner : List ℕ
    inner = inner_cells m.rows m.cols

    small : m.cols < 2 ^ 64
    small = omega (arith, v.fits, cols_small m.rows m.cols (omega arith))

    inner_rows : All (IsInnerRow m.rows) (team_rows team)
    inner_rows =
        rw covers (All-count_up (IsInnerRow m.rows) (m.rows - 2) 1 (λ j low high. omega arith))

    visits_inner : (j : ℕ) → has j (indices m.cols (events sched)) ≡ has j inner
    visits_inner j = rw (← covers) (events-has m.rows m.cols wide small team sched j il)

    -- The plate after a round, and each thread's flag.
    pub run_schedule_lem :
        run_schedule ops mult_constant epsilon sched (m, λ _. true)
        ≡ some (
          swept ops mult_constant epsilon inner m,
          flags_after ops mult_constant epsilon m sched (λ _. true),
        )
    run_schedule_lem =
        run_schedule-swept ops mult_constant epsilon sched m (λ _. true) v
          (events-inner m.rows m.cols wide small team sched il inner_rows)
        ∙ ap
            (λ cells. some (
              record m { matrix = cells },
              flags_after ops mult_constant epsilon m sched (λ _. true),
            ))
            (write_at-order (stencil ops m.cols mult_constant m.auxiliary_matrix)
              (indices m.cols (events sched)) inner m.matrix visits_inner)

    abbrev flags : ℕ → Bool
    flags = flags_after ops mult_constant epsilon m sched (λ _. true)

    settled_of_flags :
        (order : List ℕ)
        → IsOrder (length team) order
        → combine order flags true ≡ true
        → (j : ℕ) → has j inner ≡ true
        → settled ops mult_constant epsilon m j ≡ true
    settled_of_flags order all_threads e j h =
        let (t, k) = events→project m.rows m.cols wide small j sched (visits_inner j ∙ h) in
        (all_settled_iff m (indices m.cols (project t sched))).0
          (((combine_iff order flags true).0 e).1 t
            (all_threads t ∙ visitor_lt m.cols team t j (rw (il t) at k)))
          j k

    -- The shared flag says whether every inner cell has settled.
    pub combine_lem :
        (order : List ℕ)
        → IsOrder (length team) order
        → combine order (flags_after ops mult_constant epsilon m sched (λ _. true)) true
          ≡ all_settled ops mult_constant epsilon m inner
    combine_lem order all_threads =
        Bool-eq_of_iff _ _
          (λ e. (all_settled_iff m inner).1 (λ j h. settled_of_flags order all_threads e j h))
          (λ e. (combine_iff order flags true).1 (
            refl,
            λ t _. (all_settled_iff m (indices m.cols (project t sched))).1 (λ j h.
                (all_settled_iff m inner).0 e j
                  (sym (visits_inner j) ∙ project→events m.rows m.cols wide small j t sched h)),
          ))
