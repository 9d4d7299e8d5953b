-- ===== src/Vfs/Text.antt =====
-- The comparisons of paths in kernel/filesystem/VFS.c, by `strcmp` and `strncmp`.
use atom_os.Prelude.{
  ℕ, zero, suc, ◌+◌, ◌≡◌, ◌<◌, ◌≤◌, ◌∙◌, ap, sym, refl, Bool, true, false, some, List, [], ◌∷◌,
  arith, length, take, inl, inr, leb, ◌↔◌, Bool-cases, get_or, take_all, ◌==◌,
}
use atom_os.Strings.{ℤ, difference, IsString, strcmp, strncmp}
use atom_os.Strings.Compare.{Compared, strncmp_lem, strcmp-strncmp}

abbrev pub is_zero : ℤ → Bool
is_zero (ℤ.pos n) = n == 0
is_zero (ℤ.negsuc n) = false

-- `strcmp(a, b) == 0`.
unfoldable pub same_text : List ℕ → List ℕ → Bool
same_text a b = is_zero (strcmp (some a) (some b))

-- `strncmp(p, q, strlen(q)) == 0`.
unfoldable pub has_prefix : List ℕ → List ℕ → Bool
has_prefix p q = is_zero (strncmp (some p) (some q) (length q))

difference-zero : (a b : ℕ) → is_zero (difference a b) ≡ true → a ≡ b
difference-zero a b e = elim (Bool-cases (leb b a)) [
  | inl t ↦ let h = rw t at e in ground (arith, h, t)
  | inr t ↦ absurd (false≢true (rw t at e))
]
  where
    false≢true : (false ≡ true) → ⊥
    false≢true x = cc

get_or-take : (n d : ℕ) (s : List ℕ) → d < n → get_or (take n s) d 0 ≡ get_or s d 0
get_or-take zero d s l = absurd (omega arith)
get_or-take (suc n) d [] l = refl
get_or-take (suc n) zero (c ∷ s) l = refl
get_or-take (suc n) (suc d) (c ∷ s) l = get_or-take n d s (omega arith)

-- Where the comparison finds no difference, the first `n` bytes agree; and the other way round.
Compared-zero :
    (n : ℕ) (s t : List ℕ) (r : ℤ) → Compared n s t r → (is_zero r ≡ true) ↔ (take n s ≡ take n t)
Compared-zero n s t r (inl (e, z)) = (λ h. e, λ h. ap is_zero z)
Compared-zero n s t r (inr (d, l, (e, ne), z)) = (
  λ h. absurd (ne (difference-zero _ _ (ap is_zero (sym z) ∙ h))),
  λ h. absurd (ne (sym (get_or-take n d s l) ∙ ap (λ x. get_or x d 0) h ∙ get_or-take n d t l)),
)

take_more : (n : ℕ) (s : List ℕ) → length s ≤ n → take n s ≡ s
take_more zero [] l = refl
take_more zero (c ∷ s) l = absurd (omega arith)
take_more (suc n) [] l = refl
take_more (suc n) (c ∷ s) l = ap (λ x. c ∷ x) (take_more n s (omega arith))

-- Two strings compare equal exactly when they are equal.
pub same_text_iff : (a b : List ℕ) → IsString a → IsString b → (same_text a b ≡ true) ↔ (a ≡ b)
unfolding same_text
same_text_iff a b i j =
    let n : ℕ = suc (length a + length b) in
    let bounded = strcmp-strncmp a b n i (omega arith) in
    let k = Compared-zero n a b (strncmp (some a) (some b) n) (strncmp_lem a b n i j) in
    let wa = take_more n a (omega arith) in
    let wb = take_more n b (omega arith) in
    (
      λ h. sym wa ∙ k.0 (ap is_zero (sym bounded) ∙ h) ∙ wb,
      λ e. ap is_zero bounded ∙ k.1 (wa ∙ e ∙ sym wb),
    )

-- A string has another one as its prefix exactly when it begins with its bytes.
pub has_prefix_iff :
    (p q : List ℕ) → IsString p → IsString q → (has_prefix p q ≡ true) ↔ (take (length q) p ≡ q)
unfolding has_prefix
has_prefix_iff p q i j =
    let k =
      Compared-zero (length q) p q (strncmp (some p) (some q) (length q))
        (strncmp_lem p q (length q) i j) in
    (λ h. k.0 h ∙ take_all q, λ e. k.1 (e ∙ sym (take_all q)))

pub same_text_refl : (a : List ℕ) → IsString a → same_text a a ≡ true
same_text_refl a i = (same_text_iff a a i i).1 refl
