-- ===== src/Strings/Search.antt =====
-- `strstr`.
use atom_os.Prelude.{
  ℕ, zero, suc, ◌+◌, ◌≡◌, ◌≢◌, ◌<◌, ◌∙◌, ◌⊎◌, inl, inr, ap, sym, subst, refl, Option, none, some,
  List, [], ◌∷◌, ◌++◌, arith, drop, ==_ne, get_or, ◌==◌, not, ◌&&◌, true, false,
}
use mathlib.Core.Path.{ap₂}
use native.Mathlib.Decide.{ℕ_discrete}
use atom_os.Strings.{IsString, matches, strstr_loop, strstr}

-- The needle stands in the haystack at the place `j`.
abbrev pub Occurs : List ℕ → List ℕ → ℕ → Type 0
Occurs n h j = (rest : List ℕ) × (drop j h ≡ n ++ rest)

module _ (a b : ℕ) (h n : List ℕ) where
  matches-on : 0 < a → 0 < b → a ≡ b → matches (a ∷ h) (b ∷ n) ≡ matches h n
  unfolding matches
  matches-on l m e = let t : (not (a == 0) && not (b == 0) && a == b) ≡ true = ground arith in rw t

  matches-stop : 0 < b → a ≢ b → matches (a ∷ h) (b ∷ n) ≡ false
  unfolding matches
  matches-stop m ne =
      let t : (not (a == 0) && not (b == 0) && a == b) ≡ false = ground arith in
      rw t (==_ne b 0 (λ e. absurd (omega arith)))

-- What the comparison at one place finds.
matches_lem :
    (h n : List ℕ)
    → IsString h
    → IsString n
    → ((matches h n ≡ true) × Occurs n h 0) ⊎ ((matches h n ≡ false) × (Occurs n h 0 → ⊥))
matches_lem h [] i j = inl (unfold matches in refl, (h, refl))
matches_lem [] (b ∷ n) i j =
    inr (unfold matches in ==_ne b 0 (λ e. absurd (omega (arith, j.0))), λ (rest, e). absurd cc)
matches_lem (a ∷ h) (b ∷ n) i j = elim (ℕ_discrete a b) [
  | yes e ↦ elim (matches_lem h n i.1 j.1) [
    | inl (m, (rest, o)) ↦ inl (matches-on a b h n i.0 j.0 e ∙ m, (rest, ap₂ (λ x l. x ∷ l) e o))
    | inr (m, never) ↦
        inr (matches-on a b h n i.0 j.0 e ∙ m, λ (rest, o). never (rest, ap (drop 1) o))
  ]
  | no ne ↦ inr (matches-stop a b h n j.0 ne, λ (rest, o). ne (ap (λ l. get_or l 0 0) o))
]

-- The answer is the first place where the needle stands, counted from `i`.
abbrev pub FirstFrom : ℕ → List ℕ → List ℕ → Option ℕ → Type 0
FirstFrom i n h none = (j : ℕ) → Occurs n h j → ⊥
FirstFrom i n h (some k) =
    (j : ℕ) × (k ≡ i + j) × Occurs n h j × ((j' : ℕ) → j' < j → Occurs n h j' → ⊥)

module _ (i a : ℕ) (h n : List ℕ) (l : 0 < a) where
  strstr_loop-found : matches (a ∷ h) n ≡ true → strstr_loop i (a ∷ h) n ≡ some i
  unfolding strstr_loop
  strstr_loop-found m = let z : (a == 0) ≡ false = ground arith in rw z (rw m)

  strstr_loop-next : matches (a ∷ h) n ≡ false → strstr_loop i (a ∷ h) n ≡ strstr_loop (suc i) h n
  unfolding strstr_loop
  strstr_loop-next m = let z : (a == 0) ≡ false = ground arith in rw z (rw m)

  not_here :
      (Occurs n (a ∷ h) 0 → ⊥) → (o : Option ℕ) → FirstFrom (suc i) n h o → FirstFrom i n (a ∷ h) o
  not_here never none f = nowhere
    where
      nowhere : (j : ℕ) → Occurs n (a ∷ h) j → ⊥
      nowhere zero c = never c
      nowhere (suc j) c = f j c
  not_here never (some k) (j, e, c, first) = (suc j, omega arith, c, before)
    where
      before : (j' : ℕ) → j' < suc j → Occurs n (a ∷ h) j' → ⊥
      before zero m c = never c
      before (suc j') m c = first j' (omega arith) c

strstr_loop-FirstFrom :
    (i b : ℕ) (h n : List ℕ)
    → IsString h
    → IsString (b ∷ n)
    → FirstFrom i (b ∷ n) h (strstr_loop i h (b ∷ n))
strstr_loop-FirstFrom i b [] n s t = unfold strstr_loop in nowhere
  where
    nowhere : (j : ℕ) → Occurs (b ∷ n) [] j → ⊥
    nowhere zero (rest, o) = absurd cc
    nowhere (suc j) (rest, o) = absurd cc
strstr_loop-FirstFrom i b (a ∷ h) n s t = elim (matches_lem (a ∷ h) (b ∷ n) s t) [
  | inl (m, c) ↦
      subst (FirstFrom i (b ∷ n) (a ∷ h)) (sym (strstr_loop-found i a h (b ∷ n) s.0 m))
        (0, omega arith, c, λ j' l. absurd (omega arith))
  | inr (m, never) ↦
      subst (FirstFrom i (b ∷ n) (a ∷ h)) (sym (strstr_loop-next i a h (b ∷ n) s.0 m)) (
        not_here i a h (b ∷ n) s.0 never (strstr_loop (suc i) h (b ∷ n))
          (strstr_loop-FirstFrom (suc i) b h n s.1 t))
]

-- On strings without zero bytes, `strstr` answers the first place of the haystack where the needle
-- stands, and NULL where it stands at no place.
pub strstr_lem :
    (h n : List ℕ) → IsString h → IsString n → FirstFrom 0 n h (strstr (some h) (some n))
strstr_lem h [] s t = unfold strstr in (0, omega arith, (h, refl), λ j' l. absurd (omega arith))
strstr_lem h (b ∷ n) s t =
    subst (FirstFrom 0 (b ∷ n) h) (sym search) (strstr_loop-FirstFrom 0 b h n s t)
  where
    search : strstr (some h) (some (b ∷ n)) ≡ strstr_loop 0 h (b ∷ n)
    search =
        unfold strstr in
        (let z : (b == 0) ≡ false = ==_ne b 0 (λ e. absurd (omega (arith, t.0))) in rw z)
