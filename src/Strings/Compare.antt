-- ===== src/Strings/Compare.antt =====
-- `strlen`, `strcmp` and `strncmp`.
use atom_os.Prelude.{
  ℕ, zero, suc, ◌+◌, ◌≡◌, ◌≢◌, ◌<◌, ◌∙◌, ◌⊎◌, inl, inr, sym, subst, refl, some, List, [], ◌∷◌,
  arith, length, min, take, get_or, ◌==◌, not, ◌&&◌, true, false,
}
use mathlib.Core.Path.{ap₂}
use native.Mathlib.Decide.{ℕ_discrete}
use atom_os.Strings.{
  ℤ, difference, IsString, strlen_loop, strlen, strnlen_loop, strnlen, strcmp_loop, strcmp,
  strncmp_loop, strncmp,
}

strlen_loop_lem : (len : ℕ) (s : List ℕ) → IsString s → strlen_loop len s ≡ len + length s
unfolding strlen_loop
strlen_loop_lem len [] h = omega arith
strlen_loop_lem len (c ∷ s) h = ground (arith, h.0, strlen_loop_lem (suc len) s h.1)

strnlen_loop_lem :
    (len : ℕ) (s : List ℕ) (n : ℕ) → IsString s → strnlen_loop len s n ≡ len + min (length s) n
unfolding strnlen_loop
strnlen_loop_lem len [] zero h = omega arith
strnlen_loop_lem len (c ∷ s) zero h = omega arith
strnlen_loop_lem len [] (suc n) h = omega arith
strnlen_loop_lem len (c ∷ s) (suc n) h = ground (arith, h.0, strnlen_loop_lem (suc len) s n h.1)

-- On a string without zero bytes, `strnlen` answers the smaller of the bound and what `strlen`
-- answers.
pub strnlen-strlen :
    (s : List ℕ) (n : ℕ) → IsString s → strnlen (some s) n ≡ min (strlen (some s)) n
unfolding strnlen strlen
strnlen-strlen s n h = omega (arith, strnlen_loop_lem 0 s n h, strlen_loop_lem 0 s h)

-- The first `d` bytes agree, and the bytes at `d`, or the terminator there, differ.
abbrev pub Differ : List ℕ → List ℕ → ℕ → Type 0
Differ s t d = (take d s ≡ take d t) × (get_or s d 0 ≢ get_or t d 0)

-- The strings agree in their first `n` bytes, or they differ at a place before.
abbrev pub Compared : ℕ → List ℕ → List ℕ → ℤ → Type 0
Compared n s t r =
    ((take n s ≡ take n t) × (r ≡ ℤ.pos 0))
    ⊎ ((d : ℕ) × (d < n) × Differ s t d × (r ≡ difference (get_or s d 0) (get_or t d 0)))

Compared-cons :
    (n a b : ℕ) (s t : List ℕ) (r : ℤ)
    → a ≡ b
    → Compared n s t r
    → Compared (suc n) (a ∷ s) (b ∷ t) r
Compared-cons n a b s t r q (inl (e, z)) = inl (ap₂ (λ x l. x ∷ l) q e, z)
Compared-cons n a b s t r q (inr (d, l, (e, ne), z)) =
    inr (suc d, omega arith, (ap₂ (λ x l. x ∷ l) q e, ne), z)

module _ (a b : ℕ) (s t : List ℕ) where
  goes_on : 0 < a → a ≡ b → (not (a == 0) && a == b) ≡ true
  goes_on l e = ground arith

  stops : a ≢ b → (not (a == 0) && a == b) ≡ false
  stops ne = ground arith

  strncmp_loop-on :
      (n : ℕ) → 0 < a → a ≡ b → strncmp_loop (a ∷ s) (b ∷ t) (suc n) ≡ strncmp_loop s t n
  unfolding strncmp_loop
  strncmp_loop-on n l e = rw (goes_on l e)

  strncmp_loop-stop : (n : ℕ) → a ≢ b → strncmp_loop (a ∷ s) (b ∷ t) (suc n) ≡ difference a b
  unfolding strncmp_loop
  strncmp_loop-stop n ne = rw (stops ne)

  strcmp_loop-on : 0 < a → a ≡ b → strcmp_loop (a ∷ s) (b ∷ t) ≡ strcmp_loop s t
  unfolding strcmp_loop
  strcmp_loop-on l e = rw (goes_on l e)

  strcmp_loop-stop : a ≢ b → strcmp_loop (a ∷ s) (b ∷ t) ≡ difference a b
  unfolding strcmp_loop
  strcmp_loop-stop ne = rw (stops ne)

strncmp_loop-Compared :
    (n : ℕ) (s t : List ℕ) → IsString s → IsString t → Compared n s t (strncmp_loop s t n)
strncmp_loop-Compared zero s t i j = unfold strncmp_loop in inl (refl, refl)
strncmp_loop-Compared (suc n) [] [] i j = unfold strncmp_loop in inl (refl, refl)
strncmp_loop-Compared (suc n) [] (b ∷ t) i j =
    unfold strncmp_loop in inr (0, omega arith, (refl, λ e. absurd (omega (arith, j.0))), refl)
strncmp_loop-Compared (suc n) (a ∷ s) [] i j =
    unfold strncmp_loop in inr (0, omega arith, (refl, λ e. absurd (omega (arith, i.0))), refl)
strncmp_loop-Compared (suc n) (a ∷ s) (b ∷ t) i j = elim (ℕ_discrete a b) [
  | yes e ↦
      subst (Compared (suc n) (a ∷ s) (b ∷ t)) (sym (strncmp_loop-on a b s t n i.0 e))
        (Compared-cons n a b s t (strncmp_loop s t n) e (strncmp_loop-Compared n s t i.1 j.1))
  | no ne ↦ inr (0, omega arith, (refl, ne), strncmp_loop-stop a b s t n ne)
]

-- On strings without zero bytes, `strncmp` answers 0 where the first `n` bytes agree; else it answers
-- the difference of the bytes at the first place where the strings differ, the terminator counted
-- as zero, and that place is before `n`.
pub strncmp_lem :
    (s t : List ℕ) (n : ℕ) → IsString s → IsString t → Compared n s t (strncmp (some s) (some t) n)
strncmp_lem s t zero i j = unfold strncmp in inl (refl, refl)
strncmp_lem s t (suc n) i j = unfold strncmp in strncmp_loop-Compared (suc n) s t i j

strcmp_loop-strncmp_loop :
    (s t : List ℕ) (n : ℕ) → IsString s → length s < n → strcmp_loop s t ≡ strncmp_loop s t n
strcmp_loop-strncmp_loop s t zero i l = absurd (omega arith)
strcmp_loop-strncmp_loop [] [] (suc n) i l = unfold strcmp_loop strncmp_loop in refl
strcmp_loop-strncmp_loop [] (b ∷ t) (suc n) i l = unfold strcmp_loop strncmp_loop in refl
strcmp_loop-strncmp_loop (a ∷ s) [] (suc n) i l = unfold strcmp_loop strncmp_loop in refl
strcmp_loop-strncmp_loop (a ∷ s) (b ∷ t) (suc n) i l = elim (ℕ_discrete a b) [
  | yes e ↦
      strcmp_loop-on a b s t i.0 e
      ∙ strcmp_loop-strncmp_loop s t n i.1 (omega arith)
      ∙ sym (strncmp_loop-on a b s t n i.0 e)
  | no ne ↦ strcmp_loop-stop a b s t ne ∙ sym (strncmp_loop-stop a b s t n ne)
]

-- Where the first string has no zero bytes, `strcmp` is `strncmp` with any bound that is larger than the length of the first string.
pub strcmp-strncmp :
    (s t : List ℕ) (n : ℕ)
    → IsString s
    → length s < n
    → strcmp (some s) (some t) ≡ strncmp (some s) (some t) n
strcmp-strncmp s t zero i l = absurd (omega arith)
strcmp-strncmp s t (suc n) i l = unfold strcmp strncmp in strcmp_loop-strncmp_loop s t (suc n) i l
