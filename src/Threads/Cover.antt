-- ===== src/Threads/Cover.antt =====
-- The team of `init_private_data` shares the inner rows out: each to one thread, in order, evenly.
use concurrente2025a_evan_ch.Base.{
  ℕ, zero, suc, ◌+◌, ◌-◌, ◌/◌, ◌%◌, ◌^◌, ◌≤◌, ◌<◌, ◌≡◌, refl, sym, ap, subst, ◌∙◌, true, some,
  some_inj, List, [], ◌∷◌, arith, length, u64, sub64_eq, count_up, count_up-append,
}
use concurrente2025a_evan_ch.Threads.{
  PrivateData, team_size, get_finish_row, fill_team, init_private_data, team_rows,
}
use concurrente2025a_evan_ch.Threads.Finish.{
  taken, taken_mono, taken-suc, taken-le, taken_all, get_finish_row_lem,
}
use native.Mathlib.Nat.{div-add-mod}

-- Every thread has its share of `rows` rows among `n` threads, and starts as equilibrated.
abbrev pub AllFair : (rows n : ℕ) → List PrivateData → Type 0
AllFair rows n [] = Unit
AllFair rows n (p ∷ team) =
    ((p.starting_row + rows / n ≤ p.finish_row)
      × (p.finish_row ≤ p.starting_row + rows / n + 1)
      × (p.equilibrated ≡ true))
    × AllFair rows n team

module _ (rows n : ℕ) (small : rows + 1 < 2 ^ 64) where
  abbrev before : ℕ → ℕ
  before t = taken (rows / n) (rows % n) t

  before_mono : (s t : ℕ) → s ≤ t → before s ≤ before t
  before_mono = taken_mono (rows / n) (rows % n)

  nothing_left : (t : ℕ) → before t - before t ≡ 0
  nothing_left t = omega arith

  finish_lem : (t : ℕ) → t ≤ n → u64 (get_finish_row t rows n + 1) ≡ before t + 1
  finish_lem t h = omega (
    arith,
    get_finish_row_lem t rows n h (omega arith),
    div-add-mod rows n,
    taken-le (rows / n) (rows % n) t n h,
  )

  fill_team_rows :
      (left t : ℕ)
      → t + left ≡ n
      → team_rows (fill_team rows n left t (before t + 1))
        ≡ count_up (before n - before t) (before t + 1)
  unfolding fill_team
  fill_team_rows zero t e =
      let last : t ≡ n = omega arith in
      rw last (ap (λ k. count_up k (before n + 1)) (sym (nothing_left n)))
  fill_team_rows (suc left) t e =
      rw
        (
          finish_lem (t + 1) (omega arith),
          fill_team_rows left (t + 1) (omega arith),
          ← count_up-append (before (t + 1) + 1 - (before t + 1)) (before n - before (t + 1))
              (before t + 1) (before (t + 1) + 1)
              (omega (arith, before_mono t (t + 1) (omega arith))),
        )
        (ap (λ k. count_up k (before t + 1))
          (omega (arith, before_mono t (t + 1) (omega arith), before_mono (t + 1) n (omega arith))))

  fill_team-AllFair :
      (left t : ℕ) → t + left ≡ n → AllFair rows n (fill_team rows n left t (before t + 1))
  unfolding fill_team
  fill_team-AllFair zero t e = tt
  fill_team-AllFair (suc left) t e = rw (finish_lem (t + 1) (omega arith)) (
    (
      omega (arith, taken-suc (rows / n) (rows % n) t),
      omega (arith, taken-suc (rows / n) (rows % n) t),
      refl,
    ),
    fill_team-AllFair left (t + 1) (omega arith),
  )

length-fill_team : (rows n left t prev : ℕ) → length (fill_team rows n left t prev) ≡ left
unfolding fill_team
length-fill_team rows n zero t prev = refl
length-fill_team rows n (suc left) t prev = omega (arith, length-fill_team rows n left (t + 1))

before_none : (rows n : ℕ) → taken (rows / n) (rows % n) 0 + 1 ≡ 1
before_none rows n = ground arith

fill_team-rows :
    (rows n : ℕ) → rows + 1 < 2 ^ 64 → 0 < n → team_rows (fill_team rows n n 0 1) ≡ count_up rows 1
fill_team-rows rows n small h =
    rw before_none at (fill_team_rows rows n small n 0 (omega arith))
    ∙ ap (λ k. count_up k 1)
        (omega (
          arith,
          taken_all (rows / n) (rows % n) n (omega arith),
          div-add-mod rows n,
          before_none rows n,
        ))

pub team_size_pos :
    (rows thread_count : ℕ)
    → 3 ≤ rows
    → rows < 2 ^ 64
    → 0 < thread_count
    → 0 < team_size rows thread_count
unfolding team_size
team_size_pos rows thread_count low high h = ground arith

-- For a plate of at least three and fewer than 2 ^ 64 rows, a positive number of threads asked for,
-- and an allocation that succeeds: the threads' rows, taken together in order, are the inner rows
-- 1, 2, …, rows - 2, each exactly once.
pub init_private_data-rows :
    (rows thread_count : ℕ) {team : List PrivateData}
    → 3 ≤ rows
    → rows < 2 ^ 64
    → 0 < thread_count
    → init_private_data true rows (team_size rows thread_count) ≡ some team
    → team_rows team ≡ count_up (rows - 2) 1
unfolding init_private_data
init_private_data-rows rows thread_count low high some_threads e =
    subst (λ t. team_rows t ≡ count_up (rows - 2) 1) (some_inj e)
      (rw (sub64_eq rows 2 (omega arith) high) (
        fill_team-rows (rows - 2) (team_size rows thread_count) (omega arith)
          (team_size_pos rows thread_count low high some_threads)))

-- Under the same conditions the team has `team_size rows thread_count` threads, and each takes the
-- quotient of `rows - 2` by that number, or one row more, and starts with `equilibrated` set.
pub init_private_data-fair :
    (rows thread_count : ℕ) {team : List PrivateData}
    → 3 ≤ rows
    → rows < 2 ^ 64
    → 0 < thread_count
    → init_private_data true rows (team_size rows thread_count) ≡ some team
    → (length team ≡ team_size rows thread_count)
      × AllFair (rows - 2) (team_size rows thread_count) team
unfolding init_private_data
init_private_data-fair rows thread_count low high some_threads e =
    let n = team_size rows thread_count in
    subst (λ t. (length t ≡ n) × AllFair (rows - 2) n t) (some_inj e)
      (rw (sub64_eq rows 2 (omega arith) high) (
        length-fill_team (rows - 2) n n 0 1,
        rw before_none at (fill_team-AllFair (rows - 2) n (omega arith) n 0 (omega arith)),
      ))
