-- ===== src/Race/Invariant.antt =====
-- What holds between the steps of the threads of pthreads/position_race.
use concurrente2025a_evan_ch.Base.{
  ℕ, ◌+◌, ◌<◌, ◌≤◌, ◌≡◌, ◌≢◌, refl, sym, ap, ◌∙◌, Bool, List, [], ◌∷◌, ◌++◌, map, arith,
  if◌then◌else◌, length, count_up,
}
use concurrente2025a_evan_ch.Base.Families.{
  update, update-all, total, total-update, total_ge2, count,
}
use concurrente2025a_evan_ch.Race.{
  Racer, locking, incrementing, reading, announcing, unlocking, raced, System,
}

-- Weights: a thread between its calls of the mutex; one that has not taken a position; one that has
-- taken one and not announced it; one that has announced it.
abbrev pub inside : Racer → ℕ
inside locking = 0
inside incrementing = 1
inside reading = 1
inside (announcing p) = 1
inside unlocking = 1
inside raced = 0

abbrev pub early : Racer → ℕ
early locking = 1
early incrementing = 1
early reading = 0
early (announcing p) = 0
early unlocking = 0
early raced = 0

abbrev pub pending : Racer → ℕ
pending locking = 0
pending incrementing = 0
pending reading = 1
pending (announcing p) = 1
pending unlocking = 0
pending raced = 0

abbrev pub passed : Racer → ℕ
passed locking = 0
passed incrementing = 0
passed reading = 0
passed (announcing p) = 0
passed unlocking = 1
passed raced = 1

abbrev pub held : Bool → ℕ
held locked = if locked then 1 else 0

-- What a thread has read is the position.
abbrev pub IsMine : (position : ℕ) → Racer → Type 0
IsMine position locking = Unit
IsMine position incrementing = Unit
IsMine position reading = Unit
IsMine position (announcing p) = p ≡ position
IsMine position unlocking = Unit
IsMine position raced = Unit

abbrev pub positions : List (ℕ × ℕ) → List ℕ
positions announced = map (λ (a : ℕ × ℕ). a.1) announced

abbrev pub announcers : List (ℕ × ℕ) → List ℕ
announcers announced = map (λ a. a.0) announced

pub map-append {ℓ κ} :
    {A : Type ℓ} {B : Type κ} (f : A → B) (xs ys : List A) → map f (xs ++ ys) ≡ map f xs ++ map f ys
map-append f [] ys = refl
map-append f (x ∷ xs) ys = ap (λ zs. f x ∷ zs) (map-append f xs ys)

module _ (thread_count : ℕ) where
  pub record Invariant (x : System) : Type 0 where
    pub mutex : total inside thread_count x.threads ≡ held x.shared.locked
    pub taken : x.shared.position + total early thread_count x.threads ≡ thread_count
    pub counted :
        length x.shared.announced + total pending thread_count x.threads ≡ x.shared.position
    pub mine : (i : ℕ) → i < thread_count → IsMine x.shared.position (x.threads i)
    pub in_order : positions x.shared.announced ≡ count_up (length x.shared.announced) 1
    pub once :
        (i : ℕ) → i < thread_count → count i (announcers x.shared.announced) ≡ passed (x.threads i)

  -- No other thread is inside when one is.
  pub alone :
      (x : System) (i j : ℕ)
      → Invariant x
      → i < thread_count
      → j < thread_count
      → i ≢ j
      → inside (x.threads i) ≡ 1
      → inside (x.threads j) ≡ 0
  alone x i j inv h k q e =
      let most : held x.shared.locked ≤ 1 = ground arith in
      omega (arith, inv.mutex, total_ge2 inside thread_count i j x.threads h k q)

  -- A thread that is not inside has nothing read.
  pub outside-IsMine : (p : ℕ) (r : Racer) → inside r ≡ 0 → IsMine p r
  outside-IsMine p locking e = tt
  outside-IsMine p incrementing e = absurd (cc)
  outside-IsMine p reading e = absurd (cc)
  outside-IsMine p (announcing q) e = absurd (cc)
  outside-IsMine p unlocking e = absurd (cc)
  outside-IsMine p raced e = tt

  -- A step that announces nothing, which leads thread `i` from `old` to `now`.
  pub step-Invariant :
      (x : System) (i : ℕ) (old now : Racer) (locked : Bool) (position : ℕ)
      → Invariant x
      → i < thread_count
      → x.threads i ≡ old
      → held locked + inside old ≡ held x.shared.locked + inside now
      → position + early now ≡ x.shared.position + early old
      → pending now + x.shared.position ≡ pending old + position
      → passed now ≡ passed old
      → IsMine position now
      → ((j : ℕ) → i ≢ j → j < thread_count → IsMine position (x.threads j))
      → Invariant (record {
        threads = update x.threads i now;
        shared = record x.shared { locked = locked; position = position };
      })
  step-Invariant x i old now locked position inv h e in_eq early_eq pending_eq passed_eq is others =
      record {
        mutex =
            omega
              (arith, inv.mutex, in_eq, total-update inside thread_count i now old x.threads h e);
        taken =
            omega
              (arith, inv.taken, early_eq, total-update early thread_count i now old x.threads h e);
        counted = omega (
          arith,
          inv.counted,
          pending_eq,
          total-update pending thread_count i now old x.threads h e,
        );
        mine =
            update-all (λ j r. j < thread_count → IsMine position r) x.threads i now (λ k. is)
              others;
        in_order = inv.in_order;
        once =
            update-all
              (λ j r. j < thread_count → count j (announcers x.shared.announced) ≡ passed r)
              x.threads i now (λ k. inv.once i k ∙ ap passed e ∙ sym passed_eq) (λ j q. inv.once j);
      }
