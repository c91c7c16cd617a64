-- ===== src/Tests/CommandLines.antt =====
-- Command lines whose arguments are single digits.
use concurrente2025a_evan_ch.Base.{
  ℕ, ◌-◌, ◌≤◌, ◌≡◌, ◌≢◌, ◌⊎◌, refl, Option, none, some, List, [], ◌∷◌, length,
}
use concurrente2025a_evan_ch.Errors.{exit_success}
use concurrente2025a_evan_ch.Arguments.{
  BoundedSettings, Simulation, analyze_bounded, analyze_unbounded, analyze_arguments,
}
use concurrente2025a_evan_ch.Arguments.Accepted.{
  IsBounded, analyze_bounded-IsBounded, analyze_arguments-success,
}

-- One byte is read as its digit.
abbrev pub scan : List ℕ → Option ℕ
scan [] = none
scan (c ∷ cs) = some (c - b'0')

abbrev pub word : List ℕ
word = b'3' ∷ []

abbrev pub six : List (List ℕ)
six = word ∷ word ∷ word ∷ word ∷ word ∷ word ∷ word ∷ []

abbrev no_settings : BoundedSettings
no_settings = record {
  buffer_capacity = 0;
  rounds = 0;
  producer_min_delay = 0;
  producer_max_delay = 0;
  consumer_min_delay = 0;
  consumer_max_delay = 0;
}

abbrev pub no_simulation : Simulation
no_simulation = record {
  unit_count = 0;
  producer_count = 0;
  consumer_count = 0;
  producer_min_delay = 0;
  producer_max_delay = 0;
  consumer_min_delay = 0;
  consumer_max_delay = 0;
}

bounded_runs : (analyze_bounded scan scan six no_settings).0 ≡ exit_success
unfolding analyze_bounded
bounded_runs = refl

unbounded_runs : (analyze_unbounded scan scan (word ∷ six) no_simulation).0 ≡ exit_success
unfolding analyze_unbounded
unbounded_runs = refl

heat_runs : (analyze_arguments scan (word ∷ word ∷ word ∷ []) 8).0 ≡ exit_success
unfolding analyze_arguments
heat_runs = refl

analyze_bounded-IsBounded_example :
    IsBounded scan scan six (analyze_bounded scan scan six no_settings).1
analyze_bounded-IsBounded_example = analyze_bounded-IsBounded scan scan six no_settings bounded_runs

analyze_arguments-success_example :
    (2 ≤ length (word ∷ word ∷ word ∷ []))
    × (((length (word ∷ word ∷ word ∷ []) ≢ 3)
          × ((analyze_arguments scan (word ∷ word ∷ word ∷ []) 8).1 ≡ 8))
        ⊎ ((length (word ∷ word ∷ word ∷ []) ≡ 3)
            × (1 ≤ (analyze_arguments scan (word ∷ word ∷ word ∷ []) 8).1)
            × ((analyze_arguments scan (word ∷ word ∷ word ∷ []) 8).1 ≤ 32000)))
analyze_arguments-success_example =
    analyze_arguments-success scan (word ∷ word ∷ word ∷ []) 8 heat_runs
