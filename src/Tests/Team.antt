-- ===== src/Tests/Team.antt =====
-- Teams of homeworks/optimized/pthread_optimized/src/threads.c at small sizes.
use concurrente2025a_evan_ch.Base.{ℕ, ◌≡◌, refl, true, some, List, [], ◌∷◌, arith, length, count_up}
use concurrente2025a_evan_ch.Threads.{
  PrivateData, team_size, get_finish_row, init_private_data, team_rows,
}
use concurrente2025a_evan_ch.Threads.Cover.{AllFair, init_private_data-rows, init_private_data-fair}

abbrev block : ℕ → ℕ → PrivateData
block a b = record { starting_row = a; finish_row = b; equilibrated = true }

abbrev team_of_three : List PrivateData
team_of_three = block 1 4 ∷ block 4 7 ∷ block 7 9 ∷ []

team_runs : init_private_data true 10 (team_size 10 3) ≡ some team_of_three
unfolding init_private_data team_size get_finish_row
team_runs = refl

init_private_data-rows_example : team_rows team_of_three ≡ count_up 8 1
init_private_data-rows_example =
    init_private_data-rows 10 3 (omega arith) (omega arith) (omega arith) team_runs

init_private_data-fair_example :
    (length team_of_three ≡ team_size 10 3) × AllFair 8 (team_size 10 3) team_of_three
init_private_data-fair_example =
    init_private_data-fair 10 3 (omega arith) (omega arith) (omega arith) team_runs
