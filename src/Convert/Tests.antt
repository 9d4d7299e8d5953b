-- ===== src/Convert/Tests.antt =====
-- Runs of the conversions, and the properties at concrete numbers.
use atom_os.Prelude.{ℕ, ◌+◌, ◌/◌, ◌%◌, ◌≡◌, ◌≤◌, refl, none, some, List, [], ◌∷◌, arith, length}
use atom_os.Strings.{ℤ}
use atom_os.Convert.{
  validate_base, division_loop, digit_loop, reverse_loop, utoa_impl, udivmod_u64, ulltoa, sign_wrap,
}
use atom_os.Convert.Division.{udivmod_u64_lem}
use atom_os.Convert.Digits.{number_of}
use atom_os.Convert.Texts.{integer_of, number_of-ulltoa, integer_of-sign_wrap}

-- 255 in base 16 is "ff".
hexadecimal : ulltoa 255 16 ≡ some (some (102 ∷ 102 ∷ []))
unfolding ulltoa validate_base utoa_impl digit_loop udivmod_u64 division_loop reverse_loop
hexadecimal = refl

-- A base of 1 is refused.
base_one : ulltoa 255 1 ≡ some none
unfolding ulltoa validate_base
base_one = refl

udivmod_u64_lem_example :
    ((udivmod_u64 1000003 10).0 ≡ 1000003 / 10) × ((udivmod_u64 1000003 10).1 ≡ 1000003 % 10)
udivmod_u64_lem_example = udivmod_u64_lem 1000003 10 (omega arith) (omega arith) (omega arith)

number_of-ulltoa_example :
    (text : List ℕ) × (ulltoa 65535 16 ≡ some (some text))
    × (number_of 16 text ≡ some 65535)
    × (length text ≤ 64)
number_of-ulltoa_example = number_of-ulltoa 16 (omega arith) (omega arith) 65535 (omega arith)

integer_of-sign_wrap_example :
    (text : List ℕ) × (sign_wrap (ℤ.negsuc 41) 2 ≡ some (some text))
    × (integer_of 2 text ≡ some (ℤ.negsuc 41))
    × (length text + 1 ≤ 66)
integer_of-sign_wrap_example =
    integer_of-sign_wrap 2 (omega arith) (omega arith) (ℤ.negsuc 41) (omega arith)
