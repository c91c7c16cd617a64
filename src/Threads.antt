-- ===== src/Threads.antt =====
-- homeworks/optimized/pthread_optimized/src/threads.c: how the rows of a plate are shared out among
-- a team of threads.
pub mod Finish
pub mod Cover
use concurrente2025a_evan_ch.Base.{
  ℕ, zero, suc, ◌+◌, ◌-◌, ◌*◌, ◌/◌, ◌%◌, Bool, true, Option, none, some, List, [], ◌∷◌, ◌++◌, ltb,
  if◌then◌else◌, u64, sub64, count_up,
}

-- `private_data_t` less the thread's id and the pointer to the shared data.
pub record PrivateData : Type 0 where
  pub starting_row : ℕ
  pub finish_row : ℕ
  pub equilibrated : Bool

-- The size of the team that `init_shared_data` stores.
unfoldable pub team_size : (rows thread_count : ℕ) → ℕ
team_size rows thread_count =
    let evaluated_rows = sub64 rows 2 in
    if ltb thread_count evaluated_rows then thread_count else evaluated_rows

unfoldable pub get_finish_row : (thread_number evaluated_rows thread_count : ℕ) → ℕ
get_finish_row thread_number evaluated_rows thread_count =
    let residue = evaluated_rows % thread_count in
    let added = if ltb thread_number residue then thread_number else residue in
    u64 (u64 (thread_number * (evaluated_rows / thread_count)) + added)

-- The loop of `init_private_data`: `left` threads are still to be filled in.
unfoldable pub fill_team :
    (evaluated_rows thread_count left thread_number prev_finish_row : ℕ) → List PrivateData
fill_team evaluated_rows thread_count zero thread_number prev_finish_row = []
fill_team evaluated_rows thread_count (suc left) thread_number prev_finish_row =
    let finish = u64 (get_finish_row (thread_number + 1) evaluated_rows thread_count + 1) in
    record { starting_row = prev_finish_row; finish_row = finish; equilibrated = true }
    ∷ fill_team evaluated_rows thread_count left (thread_number + 1) finish

-- `allocated` says whether `calloc` gave the array.
unfoldable pub init_private_data :
    (allocated : Bool) (rows thread_count : ℕ) → Option (List PrivateData)
unfolding fill_team
init_private_data allocated rows thread_count =
    if allocated then some (fill_team (sub64 rows 2) thread_count thread_count 0 1) else none

-- The rows that `equilibrate_rows` visits for one thread, in its order.
abbrev pub rows_of : PrivateData → List ℕ
rows_of p = count_up (p.finish_row - p.starting_row) p.starting_row

abbrev pub team_rows : List PrivateData → List ℕ
team_rows [] = []
team_rows (p ∷ team) = rows_of p ++ team_rows team
