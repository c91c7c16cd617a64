-- ===== src/Paths/Strings.antt =====
-- The functions of the C library that the code calls on strings, and what is needed of them.
use concurrente2025a_evan_ch.Base.{
  ℕ, zero, suc, ◌+◌, ◌-◌, ◌*◌, ◌/◌, ◌%◌, ◌^◌, ◌≤◌, ◌<◌, ◌≡◌, ap, subst, ◌∙◌, Option-cases, some_inj,
  true, Option, none, some, List, [], ◌∷◌, ◌++◌, arith, ◌==◌, ltb, if◌then◌else◌, length, take,
  drop, take_all, length-append, length-take, lt→ltb, Bool-cases, inl, inr,
}
use native.Mathlib.Nat.{pow-suc}

-- The index of the last byte `c`.
unfoldable pub strrchr : List ℕ → ℕ → Option ℕ
strrchr [] c = none
strrchr (x ∷ xs) c = elim (strrchr xs c) [
  | some i ↦ some (suc i)
  | none ↦ if x == c then some 0 else none
]

-- What `snprintf` stores in an array of `capacity` bytes, less the final zero.
unfoldable pub snprintf : (capacity : ℕ) → List ℕ → List ℕ
snprintf capacity text = take (capacity - 1) text

-- `%.*s` with the precision `(int) n`: a negative one is ignored.
unfoldable pub precision : ℕ → List ℕ → List ℕ
precision n text = if ltb (n % 2 ^ 32) (2 ^ 31) then take (n % 2 ^ 32) text else text

-- The decimal digits of a number, in front of `rest`; `fuel` bounds their number.
unfoldable pub digits_onto : (fuel n : ℕ) → List ℕ → List ℕ
digits_onto zero n rest = rest
digits_onto (suc fuel) n rest =
    let here = (b'0' + n % 10) ∷ rest in
    let more = digits_onto fuel (n / 10) here in if ltb n 10 then here else more

-- `%lu`; 20 digits are enough for 64 bits.
unfoldable pub decimal : ℕ → List ℕ
unfolding digits_onto
decimal n = digits_onto 20 n []

length-digits_onto :
    (fuel n : ℕ) (rest : List ℕ) → length (digits_onto fuel n rest) ≤ fuel + length rest
unfolding digits_onto
length-digits_onto zero n rest = omega arith
length-digits_onto (suc fuel) n rest =
    ground (arith, length-digits_onto fuel (n / 10) ((b'0' + n % 10) ∷ rest))

pub length-decimal : (n : ℕ) → length (decimal n) ≤ 20
unfolding decimal
length-decimal n = omega (arith, length-digits_onto 20 n [])

-- The value of a list of decimal digits after the digits of `acc`.
unfoldable pub value_of : (acc : ℕ) → List ℕ → ℕ
value_of acc [] = acc
value_of acc (c ∷ cs) = value_of (acc * 10 + (c - b'0')) cs

value_of-digits_onto :
    (fuel n : ℕ) (rest : List ℕ)
    → n < 10 ^ fuel
    → value_of 0 (digits_onto fuel n rest) ≡ value_of n rest
unfolding digits_onto value_of
value_of-digits_onto zero n rest h = ap (λ k. value_of k rest) (omega arith)
value_of-digits_onto (suc fuel) n rest h = elim (Bool-cases (ltb n 10)) [
  | inl e ↦ rw e (ap (λ k. value_of k rest) (ground arith))
  | inr e ↦ rw e (
      value_of-digits_onto fuel (n / 10) ((b'0' + n % 10) ∷ rest) (omega (arith, pow-suc 10 fuel))
      ∙ ap (λ k. value_of k rest) (omega arith))
]

-- Below 2 ^ 64 the digits have the number's value, so different numbers have different digits.
pub value_of-decimal : (n : ℕ) → n < 2 ^ 64 → value_of 0 (decimal n) ≡ n
unfolding decimal value_of
value_of-decimal n h = value_of-digits_onto 20 n [] (omega arith)

-- Text after the last `c`: there is none in `t`.
pub strrchr-append :
    (s t : List ℕ) (c : ℕ) → strrchr t c ≡ none → strrchr (s ++ c ∷ t) c ≡ some (length s)
unfolding strrchr
strrchr-append [] t c h = ground arith
strrchr-append (x ∷ s) t c h = rw (strrchr-append s t c h)

-- What is found is the byte, and the last one.
pub record Found (s : List ℕ) (c i : ℕ) : Type 0 where
  pub parts : s ≡ take i s ++ c ∷ drop (suc i) s
  pub last : strrchr (drop (suc i) s) c ≡ none
  pub bound : i < length s

pub strrchr-Found : (s : List ℕ) (c i : ℕ) → strrchr s c ≡ some i → Found s c i
unfolding strrchr
strrchr-Found [] c i h = absurd (cc)
strrchr-Found (x ∷ s) c i h = elim (Option-cases (strrchr s c)) [
  | inl e ↦ elim (Bool-cases (x == c)) [
    | inl here ↦
        let q : 0 ≡ i = some_inj (rw (e, here) at h) in
        let x_eq : x ≡ c = ground arith in
        subst (Found (x ∷ s) c) q
          (record { parts = ap (λ y. y ∷ s) x_eq; last = e; bound = omega arith })
    | inr missed ↦ let q = rw (e, missed) at h in absurd (cc)
  ]
  | inr (k, e) ↦
      let q : suc k ≡ i = some_inj (rw e at h) in
      let deeper = strrchr-Found s c k e in
      subst (Found (x ∷ s) c) q
        (record { parts = ap (λ ys. x ∷ ys) deeper.parts; last = deeper.last; bound = omega arith })
]

-- The text is the bytes before the one found, that byte, and the bytes after it.
pub Found-length : (s : List ℕ) (c i : ℕ) → Found s c i → length s ≡ i + 1 + length (drop (suc i) s)
Found-length s c i found = omega (
  arith,
  ap length found.parts,
  length-append (take i s) (c ∷ drop (suc i) s),
  length-take i s (omega (arith, found.bound)),
)

-- A text that is shorter than the array is stored whole.
pub snprintf_whole :
    (capacity : ℕ) (text : List ℕ) → length text < capacity → snprintf capacity text ≡ text
unfolding snprintf
snprintf_whole capacity text h = take_all (capacity - 1) text (omega arith)

pub precision_small : (n : ℕ) (text : List ℕ) → n < 2 ^ 31 → precision n text ≡ take n text
unfolding precision
precision_small n text h =
    let e : n % 2 ^ 32 ≡ n = omega arith in
    rw e (let small : ltb n (2 ^ 31) ≡ true = lt→ltb n (2 ^ 31) h in rw small)
