-- ===== src/Blocks.antt =====
-- homeworks/pthread/src/threads.c: the blocks of rows of the first version with threads, whose last
-- thread takes the rows that are left over, and the join of a team.
pub mod Cover
use concurrente2025a_evan_ch.Base.{
  ℕ, zero, suc, ◌+◌, ◌-◌, ◌/◌, Bool, true, false, ◌&&◌, Option, none, some, List, [], ◌∷◌, ◌++◌,
  ltb, ◌==◌, if◌then◌else◌, u64, sub64, count_up,
}

-- `private_data_t` less the thread's id and the pointer to the shared data.
pub record PrivateData : Type 0 where
  pub starting_row : ℕ
  pub ending_row : ℕ
  pub equilibrated : Bool

unfoldable pub get_intervals : (rows thread_count : ℕ) → ℕ
get_intervals rows thread_count =
    let evaluating_rows = sub64 rows 2 in
    if ltb thread_count evaluating_rows then evaluating_rows / thread_count else 1

-- The loop of `init_private_data`: `left` threads are still to be filled in.
unfoldable pub fill_team :
    (last_eval_row thread_count interval_to_end left index row_pointer : ℕ) → List PrivateData
fill_team last_eval_row thread_count interval_to_end zero index row_pointer = []
fill_team last_eval_row thread_count interval_to_end (suc left) index row_pointer =
    let start = u64 (row_pointer + 1) in
    let end = u64 (start + interval_to_end) in
    record {
      starting_row = start;
      ending_row = if index == sub64 thread_count 1 then last_eval_row else end;
      equilibrated = true;
    }
    ∷ fill_team last_eval_row thread_count interval_to_end left (index + 1) end

-- The number of threads that `init_private_data` stores.
unfoldable pub team_size : (rows count : ℕ) → ℕ
team_size rows count =
    let last_eval_row = sub64 rows 2 in if ltb count last_eval_row then count else last_eval_row

unfoldable pub init_private_data : (allocated : Bool) (rows count : ℕ) → Option (List PrivateData)
init_private_data allocated rows count =
    let n = team_size rows count in
    if allocated
    then some (fill_team (sub64 rows 2) n (sub64 (get_intervals rows n) 1) n 0 0)
    else none

-- `join_threads` on a whole team, when every join succeeds: the flags are joined and set again.
unfoldable pub join_threads :
    List PrivateData → (reached_equilibrium : Bool) → Bool × List PrivateData
join_threads [] reached = (reached, [])
join_threads (p ∷ team) reached =
    let (all, rest) = join_threads team (reached && p.equilibrated) in
    (all, record p { equilibrated = true } ∷ rest)

-- The rows that `equilibrate_rows` visits for one thread, in its order.
abbrev pub rows_of : PrivateData → List ℕ
rows_of p = count_up (p.ending_row + 1 - p.starting_row) p.starting_row

abbrev pub team_rows : List PrivateData → List ℕ
team_rows [] = []
team_rows (p ∷ team) = rows_of p ++ team_rows team
