-- ===== src/Tests/RowBlocks.antt =====
-- A team of homeworks/pthread/src/threads.c whose last thread takes the remainder.
use concurrente2025a_evan_ch.Base.{ℕ, ◌≡◌, refl, true, some, List, [], ◌∷◌}
use concurrente2025a_evan_ch.Blocks.{
  PrivateData, get_intervals, fill_team, team_size, init_private_data,
}

abbrev block : ℕ → ℕ → PrivateData
block a b = record { starting_row = a; ending_row = b; equilibrated = true }

abbrev team_of_three : List PrivateData
team_of_three = block 1 2 ∷ block 3 4 ∷ block 5 8 ∷ []

team_runs : init_private_data true 10 3 ≡ some team_of_three
unfolding init_private_data team_size get_intervals fill_team
team_runs = refl
