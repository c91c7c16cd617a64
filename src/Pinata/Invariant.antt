-- ===== src/Pinata/Invariant.antt =====
-- What holds between the steps of the threads of pthreads/birthday_pinata.
use concurrente2025a_evan_ch.Base.{
  ℕ, ◌+◌, ◌<◌, ◌≤◌, ◌≡◌, Bool, List, [], ◌∷◌, ◌++◌, arith, ◌==◌, if◌then◌else◌,
}
use concurrente2025a_evan_ch.Base.Families.{update, total, total-update}
use concurrente2025a_evan_ch.Pinata.{
  Guest, locking, testing, hitting, recording, checking, unlocking, leaving, reporting, guest_done,
  Report, System,
}

-- Weights: between the calls of the mutex; about to take a hit off; between taking it off and recording
-- it; between taking it off and seeing whether the pinata broke; having broken it; at its end.
abbrev pub inside : Guest → ℕ
inside locking = 0
inside testing = 1
inside hitting = 1
inside recording = 1
inside checking = 1
inside (unlocking broke) = 1
inside leaving = 1
inside (reporting broke) = 0
inside guest_done = 0

abbrev pub aiming : Guest → ℕ
aiming locking = 0
aiming testing = 0
aiming hitting = 1
aiming recording = 0
aiming checking = 0
aiming (unlocking broke) = 0
aiming leaving = 0
aiming (reporting broke) = 0
aiming guest_done = 0

abbrev pub unrecorded : Guest → ℕ
unrecorded locking = 0
unrecorded testing = 0
unrecorded hitting = 0
unrecorded recording = 1
unrecorded checking = 0
unrecorded (unlocking broke) = 0
unrecorded leaving = 0
unrecorded (reporting broke) = 0
unrecorded guest_done = 0

abbrev pub unchecked : Guest → ℕ
unchecked locking = 0
unchecked testing = 0
unchecked hitting = 0
unchecked recording = 1
unchecked checking = 1
unchecked (unlocking broke) = 0
unchecked leaving = 0
unchecked (reporting broke) = 0
unchecked guest_done = 0

abbrev pub bit : Bool → ℕ
bit broke = if broke then 1 else 0

abbrev pub breaking : Guest → ℕ
breaking locking = 0
breaking testing = 0
breaking hitting = 0
breaking recording = 0
breaking checking = 0
breaking (unlocking broke) = bit broke
breaking leaving = 0
breaking (reporting broke) = bit broke
breaking guest_done = 0

abbrev pub ended : Guest → ℕ
ended locking = 0
ended testing = 0
ended hitting = 0
ended recording = 0
ended checking = 0
ended (unlocking broke) = bit broke
ended leaving = 1
ended (reporting broke) = 1
ended guest_done = 1

-- The reports of threads that broke the pinata, and the hits that the threads have recorded.
unfoldable pub broken : List Report → ℕ
broken [] = 0
broken (r ∷ rs) = bit r.broke + broken rs

pub broken-append :
    (rs : List Report) (r : Report) → broken (rs ++ r ∷ []) ≡ broken rs + bit r.broke
unfolding broken
broken-append [] r = omega arith
broken-append (q ∷ rs) r = omega (arith, broken-append rs r)

abbrev pub total_hits : (thread_count : ℕ) → (ℕ → ℕ) → ℕ
total_hits thread_count hits = total (λ (h : ℕ). h) thread_count hits

-- How many threads have broken the pinata: 1 when there is nothing left of one that had something.
abbrev pub breaks : (pinata_resistance pinata : ℕ) → ℕ
breaks pinata_resistance pinata = if pinata == 0 then if pinata_resistance == 0 then 0 else 1 else 0

module _ (pinata_resistance thread_count : ℕ) where
  pub record Invariant (x : System) : Type 0 where
    pub mutex : total inside thread_count x.threads ≡ bit x.shared.locked
    pub whole :
        total_hits thread_count x.shared.hits
          + total unrecorded thread_count x.threads
          + x.shared.pinata
        ≡ pinata_resistance
    pub some_left : 1 ≤ total aiming thread_count x.threads → 1 ≤ x.shared.pinata
    pub none_left : 1 ≤ total ended thread_count x.threads → x.shared.pinata ≡ 0
    pub one_breaks :
        broken x.shared.reports
          + total breaking thread_count x.threads
          + (if x.shared.pinata == 0 then total unchecked thread_count x.threads else 0)
        ≡ breaks pinata_resistance x.shared.pinata

  -- A step of thread `i` from `old` to `now` that leaves the pinata and the hits.
  pub step-Invariant :
      (x : System) (i : ℕ) (old now : Guest) (locked : Bool) (reports : List Report)
      → Invariant x
      → i < thread_count
      → x.threads i ≡ old
      → bit locked + inside old ≡ bit x.shared.locked + inside now
      → unrecorded now ≡ unrecorded old
      → (aiming old < aiming now → 1 ≤ x.shared.pinata)
      → (ended old < ended now → x.shared.pinata ≡ 0)
      → broken reports + breaking now + (if x.shared.pinata == 0 then unchecked now else 0)
        ≡ broken x.shared.reports
          + breaking old
          + (if x.shared.pinata == 0 then unchecked old else 0)
      → Invariant (record {
        threads = update x.threads i now;
        shared = record x.shared { locked = locked; reports = reports };
      })
  step-Invariant x i old now locked reports inv h e in_eq un_eq aims ends breaks_eq = record {
    mutex =
        omega (arith, inv.mutex, in_eq, total-update inside thread_count i now old x.threads h e);
    whole =
        omega
          (arith, inv.whole, un_eq, total-update unrecorded thread_count i now old x.threads h e);
    some_left = λ k.
        grind
          (arith, inv.some_left, aims, total-update aiming thread_count i now old x.threads h e);
    none_left = λ k.
        grind (arith, inv.none_left, ends, total-update ended thread_count i now old x.threads h e);
    one_breaks = ground (
      arith,
      inv.one_breaks,
      breaks_eq,
      total-update breaking thread_count i now old x.threads h e,
      total-update unchecked thread_count i now old x.threads h e,
    );
  }
