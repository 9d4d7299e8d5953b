-- ===== src/Convert.antt =====
-- kernel/util/convert.c: integers as text. A buffer is given by its bytes up to the terminator, and NULL is
-- `none`.
pub mod Division
pub mod Swaps
pub mod Digits
pub mod Texts
pub mod Tests
use atom_os.Prelude.{
  ℕ, zero, suc, ◌+◌, ◌-◌, ◌*◌, ◌/◌, ◌%◌, ◌^◌, Bool, true, false, not, ◌&&◌, Option, none, some,
  List, [], ◌∷◌, ◌++◌, ltb, leb, ◌==◌, if◌then◌else◌, length, get_or, set,
}
use atom_os.Strings.{ℤ}

unfoldable pub validate_base : ℕ → Bool
validate_base base = leb 2 base && leb base 36

-- `(r << 1) | ((value >> i) & 1ULL)`; the lowest bit of `r << 1` is clear.
abbrev pub shifted : ℕ → ℕ → ℕ → ℕ
shifted value i r = r * 2 % 2 ^ 64 + value / 2 ^ i % 2

-- The loop of `udivmod_u64` over the bits below `i`. Bit `i` of `q` is clear when `1ULL << i` comes in.
unfoldable pub division_loop : ℕ → ℕ → ℕ → ℕ → ℕ → ℕ × ℕ
division_loop zero value base q r = (q, r)
division_loop (suc i) value base q r =
    division_loop i value base (if leb base (shifted value i r) then q + 2 ^ i else q)
      (if leb base (shifted value i r) then shifted value i r - base else shifted value i r)

-- The quotient and the remainder.
unfoldable pub udivmod_u64 : ℕ → ℕ → ℕ × ℕ
udivmod_u64 value base = division_loop 64 value base 0 0

abbrev pub digits_low : List ℕ
digits_low =
    48 ∷ 49 ∷ 50 ∷ 51 ∷ 52 ∷ 53 ∷ 54 ∷ 55 ∷ 56 ∷ 57 ∷ 97 ∷ 98 ∷ 99 ∷ 100 ∷ 101 ∷ 102 ∷ 103 ∷ 104
    ∷ 105 ∷ 106 ∷ 107 ∷ 108 ∷ 109 ∷ 110 ∷ 111 ∷ 112 ∷ 113 ∷ 114 ∷ 115 ∷ 116 ∷ 117 ∷ 118 ∷ 119 ∷ 120
    ∷ 121 ∷ 122 ∷ []

abbrev pub digits_up : List ℕ
digits_up =
    48 ∷ 49 ∷ 50 ∷ 51 ∷ 52 ∷ 53 ∷ 54 ∷ 55 ∷ 56 ∷ 57 ∷ 65 ∷ 66 ∷ 67 ∷ 68 ∷ 69 ∷ 70 ∷ 71 ∷ 72 ∷ 73
    ∷ 74 ∷ 75 ∷ 76 ∷ 77 ∷ 78 ∷ 79 ∷ 80 ∷ 81 ∷ 82 ∷ 83 ∷ 84 ∷ 85 ∷ 86 ∷ 87 ∷ 88 ∷ 89 ∷ 90 ∷ []

-- The loop that writes the digits, the lowest first; `none` means that it runs out of fuel.
unfoldable pub digit_loop : ℕ → List ℕ → ℕ → ℕ → List ℕ → Option (List ℕ)
digit_loop zero digits base value out = none
digit_loop (suc fuel) digits base value out = elim (value == 0) [
  | true ↦ some out
  | false ↦
      digit_loop fuel digits base (udivmod_u64 value base).0
        (out ++ get_or digits (udivmod_u64 value base).1 0 ∷ [])
]

-- One exchange of the loop that reverses the buffer, of `n` bytes.
abbrev pub exchange : ℕ → ℕ → List ℕ → List ℕ
exchange n j buffer =
    set (set buffer j (get_or buffer (n - 1 - j) 0)) (n - 1 - j) (get_or buffer j 0)

-- The rounds from `j` on, of which there are `k`.
unfoldable pub reverse_loop : ℕ → ℕ → ℕ → List ℕ → List ℕ
reverse_loop zero n j buffer = buffer
reverse_loop (suc k) n j buffer = reverse_loop k n (suc j) (exchange n j buffer)

abbrev pub reversed : Option (List ℕ) → Option (List ℕ)
reversed none = none
reversed (some out) = some (reverse_loop (length out / 2) (length out) 0 out)

-- A value of 64 bits has 64 digits at most.
unfoldable pub utoa_impl : ℕ → ℕ → Bool → Option (List ℕ)
utoa_impl value base uppercase =
    if value == 0
    then some (48 ∷ [])
    else reversed (digit_loop 65 (if uppercase then digits_up else digits_low) base value [])

-- The outer `none` means that a loop runs out of fuel, the inner one is NULL.
abbrev pub answered : Option (List ℕ) → Option (Option (List ℕ))
answered none = none
answered (some text) = some (some text)

unfoldable pub ulltoa : ℕ → ℕ → Option (Option (List ℕ))
ulltoa value base =
    if not (validate_base base) then some none else answered (utoa_impl value base false)

abbrev pub with_minus : Option (List ℕ) → Option (Option (List ℕ))
with_minus none = none
with_minus (some text) = some (some (45 ∷ text))

unfoldable pub sign_wrap : ℤ → ℕ → Option (Option (List ℕ))
sign_wrap (ℤ.pos n) base =
    if not (validate_base base) then some none else answered (utoa_impl n base false)
sign_wrap (ℤ.negsuc n) base =
    if not (validate_base base) then some none else with_minus (utoa_impl (n + 1) base false)
