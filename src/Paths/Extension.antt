-- ===== src/Paths/Extension.antt =====
-- Names with a new extension: `modify_extension`, `set_plate_file_name` and `build_report_file_path`
-- (homeworks/omp_mpi/src/common.c, plate.c and job.c).
use concurrente2025a_evan_ch.Base.{
  ℕ, ◌+◌, ◌^◌, ◌<◌, ◌≡◌, ap, ap₂, ◌∙◌, true, none, some, List, ◌∷◌, ◌++◌, arith, length,
  length-append, take-append, u64, u64_eq,
}
use concurrente2025a_evan_ch.Paths.{dot, dot_bin, modify_extension, set_plate_file_name}
use concurrente2025a_evan_ch.Paths.Strings.{
  strrchr, strrchr-append, snprintf, snprintf_whole, precision, precision_small, decimal,
  length-decimal, value_of, value_of-decimal,
}

-- The bytes before the last dot.
stem_kept :
    (stem rest : List ℕ) → length stem < 2 ^ 31 → precision (length stem) (stem ++ rest) ≡ stem
stem_kept stem rest h = precision_small (length stem) (stem ++ rest) h ∙ take-append stem rest

-- A name shorter than 2 ^ 31 bytes before its last dot, and a new extension shorter than 2 ^ 32: the
-- extension after that dot is replaced, when the allocation succeeds.
pub modify_extension_lem :
    (stem old new : List ℕ)
    → length stem < 2 ^ 31
    → length new < 2 ^ 32
    → strrchr old dot ≡ none
    → modify_extension true (some (stem ++ dot ∷ old)) (some new) ≡ some (stem ++ dot ∷ new)
unfolding modify_extension
modify_extension_lem stem old new h short e =
    let size = length stem + length new + 2 in
    rw (strrchr-append stem old dot e) (
      ap some (
        ap₂ (λ k s. snprintf k (s ++ dot ∷ new)) (u64_eq size (omega arith))
          (stem_kept stem (dot ∷ old) h)
        ∙ snprintf_whole size (stem ++ dot ∷ new) (omega (arith, length-append stem (dot ∷ new)))))

-- A plate's name shorter than 2 ^ 31 bytes before its last dot, k below 2 ^ 64, and an allocation
-- that succeeds: the name that the final plate is written to is the stem, a dash, the digits of k and
-- ".bin", with nothing cut off, and the digits have the value k.
pub set_plate_file_name_lem :
    (stem old : List ℕ) (k_states : ℕ)
    → length stem < 2 ^ 31
    → strrchr old dot ≡ none
    → k_states < 2 ^ 64
    → (set_plate_file_name true (stem ++ dot ∷ old) k_states
        ≡ some (stem ++ b'-' ∷ (decimal k_states ++ dot_bin)))
      × (value_of 0 (decimal k_states) ≡ k_states)
unfolding set_plate_file_name
set_plate_file_name_lem stem old k_states h e small =
    let suffix = decimal k_states ++ dot_bin in
    let suffix_size = length-append (decimal k_states) dot_bin in
    let digits = length-decimal k_states in
    let whole = snprintf_whole 25 suffix (omega arith) in
    let size = length stem + length suffix + 2 in
    (
      rw (strrchr-append stem old dot e) (
          ap some (
            ap₂ (λ k s. snprintf (u64 (length stem + length k + 2)) (s ++ b'-' ∷ k)) whole
              (stem_kept stem (dot ∷ old) h)
            ∙ ap (λ k. snprintf k (stem ++ b'-' ∷ suffix)) (u64_eq size (omega arith))
            ∙ snprintf_whole size (stem ++ b'-' ∷ suffix)
                (omega (arith, length-append stem (b'-' ∷ suffix))))),
      value_of-decimal k_states small,
    )
