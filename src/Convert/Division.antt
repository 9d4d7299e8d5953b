-- ===== src/Convert/Division.antt =====
-- `udivmod_u64` divides.
use native.Mathlib.Nat.{
  pow-suc, div-div-eq-div-mul, mul_assoc, mul_comm, add-mul, div-eq_of_lt-le, mod-add-div',
}
use atom_os.Prelude.{
  ℕ, zero, suc, ◌+◌, ◌-◌, ◌*◌, ◌/◌, ◌%◌, ◌^◌, ◌≡◌, ◌≤◌, ◌<◌, ◌∙◌, ap, sym, arith, leb,
  if◌then◌else◌,
}
use atom_os.Convert.{shifted, division_loop, udivmod_u64}

halves : (value i : ℕ) → value / 2 ^ i / 2 ≡ value / 2 ^ suc i
halves value i = div-div-eq-div-mul value (2 ^ i) 2 ∙ ap (λ k. value / k) (sym (pow-suc 2 i))

doubled : (c k : ℕ) → c * 2 * k ≡ c * k * 2
doubled c k = mul_assoc c 2 k ∙ ap (λ x. c * x) (mul_comm 2 k) ∙ sym (mul_assoc c k 2)

module _ (i value base q r c : ℕ) (l : r < base) (b : base ≤ 2 ^ 63) where
  -- The quotient of one more bit.
  abbrev next : ℕ
  next = if leb base (shifted value i r) then c * 2 + 1 else c * 2

  next_value :
      value / 2 ^ suc i ≡ c * base + r
      → value / 2 ^ i
        ≡ next * base
          + (if leb base (shifted value i r) then shifted value i r - base else shifted value i r)
  next_value e = ground (arith, halves value i, doubled c base, add-mul (c * 2) 1 base)

  next_quotient :
      q ≡ c * 2 ^ suc i → (if leb base (shifted value i r) then q + 2 ^ i else q) ≡ next * 2 ^ i
  next_quotient f = ground (
    arith,
    doubled c (2 ^ i),
    add-mul (c * 2) 1 (2 ^ i),
    pow-suc 2 i,
    ap (λ x. c * x) (pow-suc 2 i),
    sym (mul_assoc c (2 ^ i) 2),
  )

  next_remainder :
      (if leb base (shifted value i r) then shifted value i r - base else shifted value i r) < base
  next_remainder = ground arith

-- With the quotient `c` of the bits from `i` on, which stand in `q`.
division_loop_lem :
    (i value base q r c : ℕ)
    → value / 2 ^ i ≡ c * base + r
    → q ≡ c * 2 ^ i
    → r < base
    → base ≤ 2 ^ 63
    → ((division_loop i value base q r).0 * base + (division_loop i value base q r).1 ≡ value)
      × ((division_loop i value base q r).1 < base)
unfolding division_loop
division_loop_lem zero value base q r c e f l b =
    let k : q ≡ c = omega arith in (ap (λ x. x * base + r) k ∙ sym e ∙ whole, l)
  where
    whole : value / 2 ^ 0 ≡ value
    whole = omega arith
division_loop_lem (suc i) value base q r c e f l b =
    division_loop_lem i value base (if leb base (shifted value i r) then q + 2 ^ i else q)
      (if leb base (shifted value i r) then shifted value i r - base else shifted value i r)
      (next i value base q r c l b) (next_value i value base q r c l b e)
      (next_quotient i value base q r c l b f) (next_remainder i value base q r c l b) b

-- For every value of 64 bits and every base from 1 to 2^63, `udivmod_u64` answers the quotient and the
-- remainder.
pub udivmod_u64_lem :
    (value base : ℕ)
    → value < 2 ^ 64
    → 0 < base
    → base ≤ 2 ^ 63
    → ((udivmod_u64 value base).0 ≡ value / base) × ((udivmod_u64 value base).1 ≡ value % base)
unfolding udivmod_u64
udivmod_u64_lem value base v z b =
    let d = division_loop_lem 64 value base 0 0 0 (omega arith) (omega arith) z b in
    unique (division_loop 64 value base 0 0).0 (division_loop 64 value base 0 0).1 d.0 d.1
  where
    unique : (q r : ℕ) → q * base + r ≡ value → r < base → (q ≡ value / base) × (r ≡ value % base)
    unique q r e l =
        let p : value / base ≡ q =
          div-eq_of_lt-le {k = q} base {m = value} (omega arith)
            (omega (arith, add-mul q 1 base)) in
        let m : value % base ≡ r = omega (arith, mod-add-div' value base, ap (λ x. x * base) p) in
        (sym p, sym m)
