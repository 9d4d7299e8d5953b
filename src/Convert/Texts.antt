-- ===== src/Convert/Texts.antt =====
-- The texts that `ulltoa` and `sign_wrap` write, for a reader of numbers.
use mathlib.Core.List.{append-nil}
use atom_os.Prelude.{
  ℕ, zero, suc, ◌+◌, ◌^◌, ◌≡◌, ◌≢◌, ◌≤◌, ◌<◌, ◌∙◌, ap, sym, refl, true, false, Option, none, some,
  List, [], ◌∷◌, arith, ltb, ◌==◌, if◌then◌else◌, length, Bool-cases, inl, inr,
}
use atom_os.Strings.{ℤ}
use atom_os.Convert.{validate_base, digits_low, digit_loop, utoa_impl, ulltoa, sign_wrap}
use atom_os.Convert.Swaps.{backwards, length-backwards, reverse_loop-backwards}
use atom_os.Convert.Digits.{read_digits, number_of, digit_loop_lem}

-- With a minus in front.
abbrev pub negated : Option ℕ → Option ℤ
negated none = none
negated (some zero) = some (ℤ.pos 0)
negated (some (suc n)) = some (ℤ.negsuc n)

abbrev pub positive : Option ℕ → Option ℤ
positive none = none
positive (some n) = some (ℤ.pos n)

abbrev pub integer_of : ℕ → List ℕ → Option ℤ
integer_of base [] = none
integer_of base (c ∷ text) =
    if c == 45 then negated (number_of base text) else positive (number_of base (c ∷ text))

-- The values of a `long long` that can be negated.
abbrev pub Negatable : ℤ → Type 0
Negatable (ℤ.pos n) = n < 2 ^ 63
Negatable (ℤ.negsuc n) = n + 1 < 2 ^ 63

number_of-read_digits :
    (base value : ℕ) (text : List ℕ)
    → value ≢ 0
    → read_digits base 0 text ≡ some value
    → number_of base text ≡ some value
number_of-read_digits base value [] n e = absurd (n (ground (arith, e)))
number_of-read_digits base value (c ∷ text) n e = e

number_of-minus : (base : ℕ) (text : List ℕ) → base ≤ 36 → number_of base (45 ∷ text) ≡ none
number_of-minus base text m = let t : ltb 36 base ≡ false = ground arith in rw t

code : (c : ℕ) → (c == 45) ≡ true → c ≡ 45
code c t = ground (arith, t)

integer_of-number_of :
    (base value : ℕ) (text : List ℕ)
    → base ≤ 36
    → number_of base text ≡ some value
    → integer_of base text ≡ some (ℤ.pos value)
integer_of-number_of base value [] m e = ground (arith, e)
integer_of-number_of base value (c ∷ text) m e = elim (Bool-cases (c == 45)) [
  | inl t ↦ absurd (
      ground
        (arith, t, e, number_of-minus base text m, ap (λ x. number_of base (x ∷ text)) (code c t)))
  | inr t ↦ rw (t, e)
]

less : (n : ℕ) → negated (some (n + 1)) ≡ some (ℤ.negsuc n)
less n = let e : n + 1 ≡ suc n = omega arith in ap (λ k. negated (some k)) e

module _ (base : ℕ) (two : 2 ≤ base) (most : base ≤ 36) where
  valid : validate_base base ≡ true
  unfolding validate_base
  valid = ground arith

  utoa_impl_zero : utoa_impl 0 base false ≡ some (48 ∷ [])
  unfolding utoa_impl
  utoa_impl_zero = refl

  utoa_impl_digits :
      (value : ℕ) (ds : List ℕ)
      → value ≢ 0
      → digit_loop 65 digits_low base value [] ≡ some ds
      → utoa_impl value base false ≡ some (backwards ds)
  unfolding utoa_impl
  utoa_impl_digits value ds n e =
      let t : (value == 0) ≡ false = ground arith in
      rw (utoa_impl, t, e) (ap some (reverse_loop-backwards ds))

  utoa_impl_lem :
      (value : ℕ)
      → value < 2 ^ 64
      → (text : List ℕ) × (utoa_impl value base false ≡ some text)
        × (number_of base text ≡ some value)
        × (length text ≤ 64)
  utoa_impl_lem value l = elim (Bool-cases (value == 0)) [
    | inl t ↦
        let z : value ≡ 0 = ground (arith, t) in
        (
          48 ∷ [],
          ap (λ v. utoa_impl v base false) z ∙ utoa_impl_zero,
          ground (arith, z),
          omega arith,
        )
    | inr t ↦
        let n : value ≢ 0 = ground (arith, t) in
        let (ds, runs, short, stands) =
          digit_loop_lem base two most 64 65 value [] l l (omega arith) in
        (
          backwards ds,
          utoa_impl_digits value ds n runs,
          number_of-read_digits base value (backwards ds) n
              (ap (read_digits base 0) (sym (append-nil (backwards ds))) ∙ stands []),
          omega (arith, length-backwards ds),
        )
  ]

  -- For a base from 2 to 36 and a value of 64 bits, `ulltoa` ends with a text of at most 64 bytes, which,
  -- read in that base, is the value.
  pub number_of-ulltoa :
      (value : ℕ)
      → value < 2 ^ 64
      → (text : List ℕ) × (ulltoa value base ≡ some (some text))
        × (number_of base text ≡ some value)
        × (length text ≤ 64)
  unfolding ulltoa
  number_of-ulltoa value l =
      let (text, e, reads, short) = utoa_impl_lem value l in (text, rw (valid, e), reads, short)

  -- For a base from 2 to 36 and a value that can be negated, `sign_wrap` ends with a text which, read in that
  -- base, is the value, and which fits into the buffer of 66 bytes with its terminator.
  pub integer_of-sign_wrap :
      (v : ℤ)
      → Negatable v
      → (text : List ℕ) × (sign_wrap v base ≡ some (some text))
        × (integer_of base text ≡ some v)
        × (length text + 1 ≤ 66)
  unfolding sign_wrap
  integer_of-sign_wrap (ℤ.pos n) l =
      let (text, e, reads, short) = utoa_impl_lem n (omega arith) in
      (text, rw (valid, e), integer_of-number_of base n text most reads, omega arith)
  integer_of-sign_wrap (ℤ.negsuc n) l =
      let (text, e, reads, short) = utoa_impl_lem (n + 1) (omega arith) in
      (45 ∷ text, rw (valid, e), ap negated reads ∙ less n, omega arith)
