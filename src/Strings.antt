-- ===== src/Strings.antt =====
-- kernel/util/string.c: the functions that read strings. A string is given by its bytes up to the
-- terminator, and `none` is NULL; a loop that moves a pointer is a recursion on the bytes from there on. A
-- pointer into a string is answered as an index.
pub mod Last
pub mod Bytes
pub mod Compare
pub mod Search
pub mod Tests
use atom_os.Prelude.{
  ℕ, zero, suc, ◌+◌, ◌-◌, ◌*◌, ◌%◌, ◌<◌, Bool, true, false, ◌&&◌, not, Option, none, some, List, [],
  ◌∷◌, leb, ◌==◌, if◌then◌else◌, All,
}

-- The value of an `int`.
pub data ℤ : Type 0 where
  pos : ℕ → ℤ
  negsuc : ℕ → ℤ

-- `(unsigned char)a - (unsigned char)b`.
abbrev pub difference : ℕ → ℕ → ℤ
difference a b = if leb b a then ℤ.pos (a - b) else ℤ.negsuc (b - a - 1)

-- The bytes before a terminator are not zero.
abbrev pub IsString : List ℕ → Type 0
IsString s = All (λ c. 0 < c) s

unfoldable strlen_loop : ℕ → List ℕ → ℕ
strlen_loop len [] = len
strlen_loop len (c ∷ s) = let rest = strlen_loop (suc len) s in if c == 0 then len else rest

unfoldable strlen : Option (List ℕ) → ℕ
strlen none = 0
strlen (some s) = strlen_loop 0 s

-- `maxlen` counts down to the end of the loop.
unfoldable strnlen_loop : ℕ → List ℕ → ℕ → ℕ
strnlen_loop len s zero = len
strnlen_loop len [] (suc maxlen) = len
strnlen_loop len (c ∷ s) (suc maxlen) =
    let rest = strnlen_loop (suc len) s maxlen in if c == 0 then len else rest

unfoldable strnlen : Option (List ℕ) → ℕ → ℕ
strnlen none maxlen = 0
strnlen (some s) maxlen = strnlen_loop 0 s maxlen

unfoldable pub strcmp_loop : List ℕ → List ℕ → ℤ
strcmp_loop [] [] = difference 0 0
strcmp_loop [] (b ∷ t) = difference 0 b
strcmp_loop (a ∷ s) [] = difference a 0
strcmp_loop (a ∷ s) (b ∷ t) =
    let rest = strcmp_loop s t in if not (a == 0) && a == b then rest else difference a b

unfoldable pub strcmp : Option (List ℕ) → Option (List ℕ) → ℤ
strcmp none none = ℤ.pos 0
strcmp none (some t) = ℤ.negsuc 0
strcmp (some s) none = ℤ.pos 1
strcmp (some s) (some t) = strcmp_loop s t

-- `n` counts down to `i == n`.
unfoldable pub strncmp_loop : List ℕ → List ℕ → ℕ → ℤ
strncmp_loop s t zero = ℤ.pos 0
strncmp_loop [] [] (suc n) = difference 0 0
strncmp_loop [] (b ∷ t) (suc n) = difference 0 b
strncmp_loop (a ∷ s) [] (suc n) = difference a 0
strncmp_loop (a ∷ s) (b ∷ t) (suc n) =
    let rest = strncmp_loop s t n in if not (a == 0) && a == b then rest else difference a b

unfoldable pub strncmp : Option (List ℕ) → Option (List ℕ) → ℕ → ℤ
strncmp s t zero = ℤ.pos 0
strncmp none none (suc n) = ℤ.pos 0
strncmp none (some t) (suc n) = ℤ.negsuc 0
strncmp (some s) none (suc n) = ℤ.pos 1
strncmp (some s) (some t) (suc n) = strncmp_loop s t (suc n)

-- The comparison at one place of the haystack, up to `!*n`.
unfoldable matches : List ℕ → List ℕ → Bool
matches h [] = true
matches [] (b ∷ n) = b == 0
matches (a ∷ h) (b ∷ n) =
    let rest = matches h n in if not (a == 0) && not (b == 0) && a == b then rest else b == 0

unfoldable strstr_loop : ℕ → List ℕ → List ℕ → Option ℕ
strstr_loop i [] n = none
strstr_loop i (a ∷ h) n =
    let rest = strstr_loop (suc i) h n in
    if a == 0 then none else if matches (a ∷ h) n then some i else rest

unfoldable strstr : Option (List ℕ) → Option (List ℕ) → Option ℕ
strstr none n = none
strstr (some h) none = none
strstr (some h) (some []) = some 0
strstr (some h) (some (b ∷ n)) = if b == 0 then some 0 else strstr_loop 0 h (b ∷ n)
