-- ===== src/Paths/Split.antt =====
-- A path split by `extract_directory` and `extract_file_name` is put together again by
-- `build_file_path` (homeworks/omp_mpi/src/common.c).
use concurrente2025a_evan_ch.Base.{
  ℕ, suc, ◌+◌, ◌^◌, ◌<◌, ◌≡◌, ap, ◌∙◌, true, none, some, List, [], ◌∷◌, ◌++◌, arith, length,
  length-append, drop, u64_eq,
}
use concurrente2025a_evan_ch.Paths.{
  slash, build_file_path, directory_of, extract_directory, extract_file_name,
}
use concurrente2025a_evan_ch.Paths.Strings.{
  strrchr, strrchr-Found, Found-length, snprintf, snprintf_whole,
}

-- `build_file_path` joins two names with a slash; the array that it allocates is large enough.
pub build_file_path_lem :
    (d f : List ℕ)
    → length d + length f + 2 < 2 ^ 64
    → build_file_path true (some d) (some f) ≡ some (d ++ slash ∷ f)
unfolding build_file_path
build_file_path_lem d f h = ap some (
    ap (λ k. snprintf k (d ++ slash ∷ f)) (u64_eq (length d + length f + 2) h)
    ∙ snprintf_whole (length d + length f + 2) (d ++ slash ∷ f)
        (omega (arith, length-append d (slash ∷ f))))

pub extract_file_name_lem :
    (p : List ℕ) (i : ℕ)
    → length p + 1 < 2 ^ 64
    → strrchr p slash ≡ some i
    → extract_file_name true (some p) ≡ some (drop (suc i) p)
unfolding extract_file_name
extract_file_name_lem p i h e =
    let size = Found-length p slash i (strrchr-Found p slash i e) in
    let name = drop (suc i) p in
    rw e (
      ap some (
        ap (λ k. snprintf k name) (u64_eq (length name + 1) (omega (arith, size)))
        ∙ snprintf_whole (length name + 1) name (omega arith)))

-- For a path without a slash, when the allocation succeeds, the directory is empty, so any file of
-- fewer than 2 ^ 64 - 2 bytes that is looked for next to it is looked for in the root directory.
pub build-extract_no_slash :
    (p f : List ℕ)
    → strrchr p slash ≡ none
    → length f + 2 < 2 ^ 64
    → build_file_path true (extract_directory true (some p)) (some f) ≡ some (slash ∷ f)
unfolding extract_directory directory_of
build-extract_no_slash p f e h =
    let root : extract_directory true (some p) ≡ some [] = ap (directory_of true p) e in
    rw root (build_file_path_lem [] f (omega arith))
