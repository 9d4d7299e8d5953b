-- ===== src/Convert/Swaps.antt =====
-- The loop of `utoa_impl` that reverses its buffer in place.
use atom_os.Prelude.{
  ℕ, zero, suc, ◌+◌, ◌-◌, ◌/◌, ◌≡◌, ◌≤◌, ◌<◌, ◌∙◌, ap, sym, subst, refl, true, ◌&&◌, List, [], ◌∷◌,
  ◌++◌, arith, ltb, leb, ◌==◌, if◌then◌else◌, length, get_or, set, length-set, length-append,
  Bool-cases, inl, inr,
}
use atom_os.Disk.Slice.{get_or-append, by_places}
use atom_os.Convert.{exchange, reverse_loop}

-- The bytes from the last to the first.
abbrev pub backwards : List ℕ → List ℕ
backwards [] = []
backwards (x ∷ xs) = backwards xs ++ x ∷ []

pub length-backwards : (xs : List ℕ) → length (backwards xs) ≡ length xs
length-backwards [] = refl
length-backwards (x ∷ xs) =
    omega (arith, length-append {0} (backwards xs) (x ∷ []), length-backwards xs)

get_or-backwards :
    (xs : List ℕ) (p : ℕ)
    → p < length xs
    → get_or (backwards xs) p 0 ≡ get_or xs (length xs - 1 - p) 0
get_or-backwards [] p l = absurd (omega arith)
get_or-backwards (x ∷ xs) p l = elim (Bool-cases (ltb p (length xs))) [
  | inl t ↦
      let m : p < length xs = ground (arith, t) in
      let e : suc (length xs - 1 - p) ≡ suc (length xs) - 1 - p = omega arith in
      get_or-append (backwards xs) (x ∷ []) p
      ∙ front m
      ∙ get_or-backwards xs p m
      ∙ ap (λ i. get_or (x ∷ xs) i 0) e
  | inr t ↦
      let e : p - length (backwards xs) ≡ 0 = ground (arith, t, length-backwards xs) in
      let z : 0 ≡ suc (length xs) - 1 - p = ground (arith, t) in
      get_or-append (backwards xs) (x ∷ []) p
      ∙ back (ground (arith, t))
      ∙ ap (λ i. get_or (x ∷ []) i 0) e
      ∙ ap (λ i. get_or (x ∷ xs) i 0) z
]
  where
    front :
        p < length xs
        → (if ltb p (length (backwards xs))
            then get_or (backwards xs) p 0
            else get_or (x ∷ []) (p - length (backwards xs)) 0)
          ≡ get_or (backwards xs) p 0
    front m = ground (arith, length-backwards xs)

    back :
        length xs ≤ p
        → (if ltb p (length (backwards xs))
            then get_or (backwards xs) p 0
            else get_or (x ∷ []) (p - length (backwards xs)) 0)
          ≡ get_or (x ∷ []) (p - length (backwards xs)) 0
    back m = ground (arith, length-backwards xs)

get_or-set :
    (xs : List ℕ) (j v p : ℕ)
    → j < length xs
    → get_or (set xs j v) p 0 ≡ (if p == j then v else get_or xs p 0)
get_or-set [] j v p l = absurd (omega arith)
get_or-set (x ∷ xs) zero v zero l = ground arith
get_or-set (x ∷ xs) zero v (suc p) l = ground arith
get_or-set (x ∷ xs) (suc j) v zero l = ground arith
get_or-set (x ∷ xs) (suc j) v (suc p) l = ground (arith, get_or-set xs j v p (omega arith))

get_or-exchange :
    (n j : ℕ) (xs : List ℕ) (p : ℕ)
    → length xs ≡ n
    → j < n
    → get_or (exchange n j xs) p 0 ≡ (
        if p == n - 1 - j
        then get_or xs j 0
        else if p == j
        then get_or xs (n - 1 - j) 0
        else get_or xs p 0)
get_or-exchange n j xs p e l =
    get_or-set (set xs j (get_or xs (n - 1 - j) 0)) (n - 1 - j) (get_or xs j 0) p
      (omega (arith, length-set xs j (get_or xs (n - 1 - j) 0)))
    ∙ ap (λ x. if p == n - 1 - j then get_or xs j 0 else x)
        (get_or-set xs j (get_or xs (n - 1 - j) 0) p (omega arith))

-- The rounds from `j` on exchange the places from `j` to the middle with those opposite.
get_or-reverse_loop :
    (k n j : ℕ) (xs : List ℕ) (p : ℕ)
    → length xs ≡ n
    → j + k ≡ n / 2
    → p < n
    → get_or (reverse_loop k n j xs) p 0
      ≡ (if leb j p && leb j (n - 1 - p) then get_or xs (n - 1 - p) 0 else get_or xs p 0)
unfolding reverse_loop
get_or-reverse_loop zero n j xs p e q l = ground (arith, middle)
  where
    middle : j ≤ p → j ≤ n - 1 - p → get_or xs p 0 ≡ get_or xs (n - 1 - p) 0
    middle a b = let m : p ≡ n - 1 - p = omega arith in ap (λ i. get_or xs i 0) m
get_or-reverse_loop (suc k) n j xs p e q l =
    let size : length (exchange n j xs) ≡ n = omega (
      arith,
      length-set (set xs j (get_or xs (n - 1 - j) 0)) (n - 1 - j) (get_or xs j 0),
      length-set xs j (get_or xs (n - 1 - j) 0),
    ) in
    get_or-reverse_loop k n (suc j) (exchange n j xs) p size (omega arith) l
    ∙ ground (
      arith,
      get_or-exchange n j xs p e (omega arith),
      get_or-exchange n j xs (n - 1 - p) e (omega arith),
      here,
      there,
    )
  where
    here : p ≡ j → get_or xs (n - 1 - j) 0 ≡ get_or xs (n - 1 - p) 0
    here m = ap (λ i. get_or xs (n - 1 - i) 0) (sym m)

    there : p ≡ n - 1 - j → get_or xs j 0 ≡ get_or xs (n - 1 - p) 0
    there m = let i : j ≡ n - 1 - p = omega arith in ap (λ i. get_or xs i 0) i

length-reverse_loop : (k n j : ℕ) (xs : List ℕ) → length (reverse_loop k n j xs) ≡ length xs
unfolding reverse_loop
length-reverse_loop zero n j xs = refl
length-reverse_loop (suc k) n j xs =
    length-reverse_loop k n (suc j) (exchange n j xs)
    ∙ length-set (set xs j (get_or xs (n - 1 - j) 0)) (n - 1 - j) (get_or xs j 0)
    ∙ length-set xs j (get_or xs (n - 1 - j) 0)

-- Half as many exchanges as there are bytes turn the buffer round.
pub reverse_loop-backwards :
    (xs : List ℕ) → reverse_loop (length xs / 2) (length xs) 0 xs ≡ backwards xs
reverse_loop-backwards xs =
    by_places (reverse_loop (length xs / 2) (length xs) 0 xs) (backwards xs)
      (length-reverse_loop (length xs / 2) (length xs) 0 xs ∙ sym (length-backwards xs))
      (λ p l. at p (subst (λ n. p < n) (length-reverse_loop (length xs / 2) (length xs) 0 xs) l))
  where
    at :
        (p : ℕ)
        → p < length xs
        → get_or (reverse_loop (length xs / 2) (length xs) 0 xs) p 0 ≡ get_or (backwards xs) p 0
    at p l =
        let t : (leb 0 p && leb 0 (length xs - 1 - p)) ≡ true = ground arith in
        get_or-reverse_loop (length xs / 2) (length xs) 0 xs p refl (omega arith) l
        ∙ rw t (sym (get_or-backwards xs p l))
