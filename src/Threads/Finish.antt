-- ===== src/Threads/Finish.antt =====
-- The arithmetic of `get_finish_row`.
use concurrente2025a_evan_ch.Base.{
  ℕ, ◌+◌, ◌*◌, ◌/◌, ◌%◌, ◌^◌, ◌≤◌, ◌<◌, ◌≡◌, arith, ltb, if◌then◌else◌,
}
use concurrente2025a_evan_ch.Threads.{get_finish_row}
use native.Mathlib.Nat.{div-add-mod}

-- The rows that `t` threads take, if the first `residue` of them take one more than `q`.
abbrev pub taken : (q residue t : ℕ) → ℕ
taken q residue t = t * q + (if ltb t residue then t else residue)

pub taken-le : (q residue t n : ℕ) → t ≤ n → taken q residue t ≤ n * q + residue
taken-le q residue t n h = grind arith

pub taken_mono : (q residue t n : ℕ) → t ≤ n → taken q residue t ≤ taken q residue n
taken_mono q residue t n h = grind (arith, taken-le)

pub taken-suc :
    (q residue t : ℕ)
    → (taken q residue t + q ≤ taken q residue (t + 1))
      × (taken q residue (t + 1) ≤ taken q residue t + q + 1)
taken-suc q residue t = ground arith

pub taken_all : (q residue n : ℕ) → residue ≤ n → taken q residue n ≡ n * q + residue
taken_all q residue n h = ground arith

-- No product or sum of `get_finish_row` wraps.
pub get_finish_row_lem :
    (t rows n : ℕ) → t ≤ n → rows < 2 ^ 64 → get_finish_row t rows n ≡ taken (rows / n) (rows % n) t
unfolding get_finish_row
get_finish_row_lem t rows n h small =
    ground (arith, taken-le (rows / n) (rows % n) t n h, div-add-mod rows n)
