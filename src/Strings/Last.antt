-- ===== src/Strings/Last.antt =====
-- `strrchr` of kernel/util/string.c.
use atom_os.Prelude.{
  ℕ, suc, ◌+◌, ◌%◌, ◌≡◌, ◌≢◌, ◌<◌, ◌∙◌, ap, true, false, Option, none, some, List, [], ◌∷◌, ◌++◌,
  arith, ◌==◌, if◌then◌else◌, length, All,
}
use atom_os.Strings.{IsString}

-- The terminator is compared as well, and ends the loop.
unfoldable pub strrchr_loop : ℕ → Option ℕ → List ℕ → ℕ → Option ℕ
strrchr_loop i last [] c = if c % 256 == 0 then some i else last
strrchr_loop i last (a ∷ s) c =
    let next = if a == c % 256 then some i else last in
    let rest = strrchr_loop (suc i) next s c in if a == 0 then next else rest

unfoldable pub strrchr : Option (List ℕ) → ℕ → Option ℕ
strrchr none c = none
strrchr (some s) c = strrchr_loop 0 none s c

module _ (c : ℕ) (byte : c < 256) (nonzero : 0 < c) where
  strrchr_loop-last :
      (i : ℕ) (last : Option ℕ) (s : List ℕ)
      → IsString s
      → All (λ a. a ≢ c) s
      → strrchr_loop i last s c ≡ last
  unfolding strrchr_loop
  strrchr_loop-last i last [] z n = let t : (c % 256 == 0) ≡ false = ground arith in rw t
  strrchr_loop-last i last (a ∷ s) z n =
      let t : (a == c % 256) ≡ false = ground (arith, n.0) in
      let u : (a == 0) ≡ false = ground (arith, z.0) in
      rw (t, u) (strrchr_loop-last (suc i) last s z.1 n.1)

  strrchr_loop-append :
      (i : ℕ) (last : Option ℕ) (q s : List ℕ)
      → IsString q
      → IsString s
      → All (λ a. a ≢ c) s
      → strrchr_loop i last (q ++ c ∷ s) c ≡ some (i + length q)
  unfolding strrchr_loop
  strrchr_loop-append i last [] s y z n =
      let t : (c == c % 256) ≡ true = ground arith in
      let u : (c == 0) ≡ false = ground arith in
      rw (t, u) (strrchr_loop-last (suc i) (some i) s z n ∙ ap some (omega arith))
  strrchr_loop-append i last (a ∷ q) s y z n =
      let u : (a == 0) ≡ false = ground (arith, y.0) in
      rw u (
        strrchr_loop-append (suc i) (if a == c % 256 then some i else last) q s y.1 z n
        ∙ ap some (omega arith))

  -- In a string where the byte `c` stands behind `q` and not later, `strrchr` answers that place.
  pub strrchr_lem :
      (q s : List ℕ)
      → IsString q
      → IsString s
      → All (λ a. a ≢ c) s
      → strrchr (some (q ++ c ∷ s)) c ≡ some (length q)
  unfolding strrchr
  strrchr_lem q s y z n = strrchr_loop-append 0 none q s y z n ∙ ap some (omega arith)
