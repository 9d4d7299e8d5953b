-- ===== src/Strings/Tests.antt =====
-- Runs of the string functions.
use atom_os.Prelude.{ℕ, ◌≡◌, refl, some, List, [], ◌∷◌, arith}
use atom_os.Strings.{ℤ, IsString, strcmp, strcmp_loop, strstr, strstr_loop, matches}
use atom_os.Strings.Search.{FirstFrom, strstr_lem}

-- "abcabd", "abd" and "abce".
abbrev haystack : List ℕ
haystack = 97 ∷ 98 ∷ 99 ∷ 97 ∷ 98 ∷ 100 ∷ []

abbrev needle : List ℕ
needle = 97 ∷ 98 ∷ 100 ∷ []

abbrev other_text : List ℕ
other_text = 97 ∷ 98 ∷ 99 ∷ 101 ∷ []

haystack-IsString : IsString haystack
haystack-IsString =
    (omega arith, (omega arith, (omega arith, (omega arith, (omega arith, (omega arith, tt))))))

needle-IsString : IsString needle
needle-IsString = (omega arith, (omega arith, (omega arith, tt)))

other_text-IsString : IsString other_text
other_text-IsString = (omega arith, (omega arith, (omega arith, (omega arith, tt))))

found_second : strstr (some haystack) (some needle) ≡ some 3
unfolding strstr strstr_loop matches
found_second = refl

differs_at_third : strcmp (some haystack) (some other_text) ≡ ℤ.negsuc 3
unfolding strcmp strcmp_loop
differs_at_third = refl

strstr_lem_example : FirstFrom 0 needle haystack (strstr (some haystack) (some needle))
strstr_lem_example = strstr_lem haystack needle haystack-IsString needle-IsString
