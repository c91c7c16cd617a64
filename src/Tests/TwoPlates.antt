-- ===== src/Tests/TwoPlates.antt =====
-- A job file of two lines.
use concurrente2025a_evan_ch.Base.{ℕ, ◌≡◌, refl, true, some, [], ◌∷◌, arith, replicate, none}
use concurrente2025a_evan_ch.Base.Int.{ℤ, pos}
use concurrente2025a_evan_ch.Paths.{extract_directory, directory_of}
use concurrente2025a_evan_ch.Paths.Strings.{strrchr}
use concurrente2025a_evan_ch.Job.{PlateLine, Job, init_job, loaded, set_job}
use concurrente2025a_evan_ch.Job.Grow.{IsJob, granted, set_job-IsJob}

abbrev line : ℕ → PlateLine ℤ
line k = record {
  plate_file_name = b'p' ∷ [];
  interval_duration = k;
  thermal_diffusivity = pos 4;
  cells_dimension = pos 2;
  epsilon = pos 1;
}

abbrev empty_job : Job ℤ
empty_job = record {
  file_name = b'd' ∷ b'/' ∷ b'j' ∷ [];
  source_directory = some (b'd' ∷ []);
  plates_count = 0;
  plates_capacity = 50;
  plates = replicate 50 none;
}

init_runs : init_job true true true (b'd' ∷ b'/' ∷ b'j' ∷ []) ≡ some empty_job
unfolding init_job extract_directory directory_of strrchr
init_runs = refl

set_job-IsJob_example :
    (job' : Job ℤ) × (set_job (granted (line 1 ∷ line 2 ∷ [])) empty_job ≡ loaded job')
    × IsJob job' (line 1 ∷ line 2 ∷ [])
set_job-IsJob_example =
    set_job-IsJob true (b'd' ∷ b'/' ∷ b'j' ∷ []) (line 1 ∷ line 2 ∷ []) (omega arith)
      (omega arith, (omega arith, tt)) init_runs
