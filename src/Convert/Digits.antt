-- ===== src/Convert/Digits.antt =====
-- The texts of kernel/util/convert.c beside a reader of numbers.
use native.Mathlib.Nat.{
  pow-suc, div-lt_iff_lt-mul, mul-le-mul_left, mod-lt, div-le_self, mod-add-div',
}
use mathlib.Core.List.{append_assoc, append-nil}
use atom_os.Prelude.{
  ℕ, zero, suc, ◌+◌, ◌-◌, ◌*◌, ◌/◌, ◌%◌, ◌^◌, ◌≡◌, ◌≢◌, ◌≤◌, ◌<◌, ◌∙◌, ap, sym, refl, Bool, true,
  false, ◌&&◌, Option, none, some, List, [], ◌∷◌, ◌++◌, arith, ltb, leb, ◌==◌, if◌then◌else◌,
  length, get_or, Bool-cases, inl, inr,
}
use atom_os.Convert.{digits_low, digit_loop}
use atom_os.Convert.Division.{udivmod_u64_lem}
use atom_os.Convert.Swaps.{backwards}

-- The value of a digit, in small letters from ten on; 36 for any other byte.
abbrev pub digit_value : ℕ → ℕ
digit_value c =
    if leb 48 c && ltb c 58 then c - 48 else if leb 97 c && ltb c 123 then c - 87 else 36

-- Reads digits behind those that make up `acc`; there is no number where a byte is not a digit of the base.
abbrev pub read_digits : ℕ → ℕ → List ℕ → Option ℕ
read_digits base acc [] = some acc
read_digits base acc (c ∷ text) =
    if ltb (digit_value c) base then read_digits base (acc * base + digit_value c) text else none

abbrev pub number_of : ℕ → List ℕ → Option ℕ
number_of base [] = none
number_of base (c ∷ text) = read_digits base 0 (c ∷ text)

all_below : ℕ → (ℕ → Bool) → Bool
all_below zero t = true
all_below (suc n) t = t n && all_below n t

all_below_lem : (n : ℕ) (t : ℕ → Bool) (r : ℕ) → all_below n t ≡ true → r < n → t r ≡ true
unfolding all_below
all_below_lem zero t r e l = absurd (omega arith)
all_below_lem (suc n) t r e l = elim (Bool-cases (r == n)) [
  | inl q ↦ let p : r ≡ n = ground (arith, q) in ap t p ∙ ground (arith, e)
  | inr q ↦ all_below_lem n t r (ground (arith, e)) (ground (arith, q))
]

digit_value-digits_low : (r : ℕ) → r < 36 → digit_value (get_or digits_low r 0) ≡ r
unfolding all_below
digit_value-digits_low r l =
    ground (arith, all_below_lem 36 (λ i. digit_value (get_or digits_low i 0) == i) r refl l)

module _ (base : ℕ) (two : 2 ≤ base) (most : base ≤ 36) where
  -- `ds` stands for `value`, the lowest digit first.
  abbrev Stands : List ℕ → ℕ → Type 0
  Stands ds value =
      (rest : List ℕ) → read_digits base 0 (backwards ds ++ rest) ≡ read_digits base value rest

  read_digits-digit :
      (value : ℕ) (rest : List ℕ)
      → read_digits base (value / base) (get_or digits_low (value % base) 0 ∷ rest)
        ≡ read_digits base value rest
  read_digits-digit value rest =
      let l : value % base < base = mod-lt value (omega arith) in
      let d : digit_value (get_or digits_low (value % base) 0) ≡ value % base =
        digit_value-digits_low (value % base) (omega arith) in
      let t : ltb (value % base) base ≡ true = ground (arith, l) in
      let e : value / base * base + value % base ≡ value = omega (arith, mod-add-div' value base) in
      rw (d, t, e)

  Stands-digit :
      (ds : List ℕ) (value : ℕ)
      → Stands ds (value / base)
      → Stands (get_or digits_low (value % base) 0 ∷ ds) value
  Stands-digit ds value h rest =
      ap (read_digits base 0)
        (append_assoc (backwards ds) (get_or digits_low (value % base) 0 ∷ []) rest)
      ∙ h (get_or digits_low (value % base) 0 ∷ rest)
      ∙ read_digits-digit value rest

  fewer : (value k : ℕ) → value < 2 ^ suc k → value / base < 2 ^ k
  fewer value k l =
      (div-lt_iff_lt-mul {k = base} {x = value} {y = 2 ^ k} (omega arith)).1
        (omega (arith, pow-suc 2 k, mul-le-mul_left {m = 2} {n = base} (2 ^ k) two))

  abbrev digit : ℕ → ℕ
  digit value = get_or digits_low (value % base) 0

  digit_loop_end :
      (fuel : ℕ) (out : List ℕ) → digit_loop (suc fuel) digits_low base 0 out ≡ some out
  unfolding digit_loop
  digit_loop_end fuel out = refl

  digit_loop_step :
      (fuel value : ℕ) (out : List ℕ)
      → value ≢ 0
      → value < 2 ^ 64
      → digit_loop (suc fuel) digits_low base value out
        ≡ digit_loop fuel digits_low base (value / base) (out ++ digit value ∷ [])
  unfolding digit_loop
  digit_loop_step fuel value out n l =
      let t : (value == 0) ≡ false = ground arith in
      let u = udivmod_u64_lem value base l (omega arith) (omega arith) in
      rw (digit_loop, t, u.0, u.1)

  -- What the loop writes behind `out`: at most `k` digits, which stand for the value.
  abbrev Writes : ℕ → ℕ → ℕ → List ℕ → Type 0
  Writes k fuel value out =
      (ds : List ℕ) × (digit_loop fuel digits_low base value out ≡ some (out ++ ds))
      × (length ds ≤ k)
      × Stands ds value

  Writes-nothing : (k fuel value : ℕ) (out : List ℕ) → value ≡ 0 → Writes k (suc fuel) value out
  Writes-nothing k fuel value out z = (
    [],
    ap (λ v. digit_loop (suc fuel) digits_low base v out) z
        ∙ digit_loop_end fuel out
        ∙ ap some (sym (append-nil out)),
    omega arith,
    λ rest. ap (λ v. read_digits base v rest) (sym z),
  )

  pub digit_loop_lem :
      (k fuel value : ℕ) (out : List ℕ)
      → value < 2 ^ k
      → value < 2 ^ 64
      → k < fuel
      → Writes k fuel value out
  digit_loop_lem k zero value out l m f = absurd (omega arith)
  digit_loop_lem zero (suc fuel) value out l m f = Writes-nothing zero fuel value out (omega arith)
  digit_loop_lem (suc k) (suc fuel) value out l m f = elim (Bool-cases (value == 0)) [
    | inl t ↦ Writes-nothing (suc k) fuel value out (ground (arith, t))
    | inr t ↦
        let (ds, runs, short, stands) =
          digit_loop_lem k fuel (value / base) (out ++ digit value ∷ []) (fewer value k l)
            (omega (arith, div-le_self value base)) (omega arith) in
        (
          digit value ∷ ds,
          digit_loop_step fuel value out (ground (arith, t)) m
              ∙ runs
              ∙ ap some (append_assoc out (digit value ∷ []) ds),
          omega arith,
          Stands-digit ds value stands,
        )
  ]
