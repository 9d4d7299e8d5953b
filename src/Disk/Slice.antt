-- ===== src/Disk/Slice.antt =====
-- Ranges of bytes as functions of the place, and writes into them.
use atom_os.Prelude.{
  ℕ, zero, suc, ◌+◌, ◌-◌, ◌≡◌, ◌≤◌, ◌<◌, ◌∙◌, ap, subst, refl, true, ◌&&◌, List, [], ◌∷◌, ◌++◌,
  arith, ltb, leb, if◌then◌else◌, length, take, drop, get_or, length-append, length-take,
  Bool-cases, inl, inr,
}
use atom_os.Disk.Stream.{patch}

-- The `n` bytes from the place `a` on.
abbrev pub slice : (ℕ → ℕ) → ℕ → ℕ → List ℕ
slice f a zero = []
slice f a (suc n) = f a ∷ slice f (suc a) n

-- The bytes in place of what was at `a` and behind.
abbrev pub overwrite : (ℕ → ℕ) → ℕ → List ℕ → ℕ → ℕ
overwrite f a bytes i = if leb a i && ltb i (a + length bytes) then get_or bytes (i - a) 0 else f i

pub length-slice : (f : ℕ → ℕ) (a n : ℕ) → length (slice f a n) ≡ n
length-slice f a zero = refl
length-slice f a (suc n) = ap suc (length-slice f (suc a) n)

pub slice_same : (f g : ℕ → ℕ) (a n : ℕ) → ((i : ℕ) → f i ≡ g i) → slice f a n ≡ slice g a n
slice_same f g a zero h = refl
slice_same f g a (suc n) h = λ i. h a i ∷ slice_same f g (suc a) n h i

pub slice-append : (f : ℕ → ℕ) (a m n : ℕ) → slice f a (m + n) ≡ slice f a m ++ slice f (a + m) n
slice-append f a zero n =
    let e : zero + n ≡ n = omega arith in
    let p : a ≡ a + zero = omega arith in ap (slice f a) e ∙ ap (λ b. slice f b n) p
slice-append f a (suc m) n =
    let e : suc m + n ≡ suc (m + n) = omega arith in
    let p : suc a + m ≡ a + suc m = omega arith in
    ap (slice f a) e
    ∙ ap (λ l. f a ∷ l) (slice-append f (suc a) m n)
    ∙ ap (λ b. slice f a (suc m) ++ slice f b n) p

-- A part of a range.
pub part-slice :
    (f : ℕ → ℕ) (a n i c : ℕ) → i + c ≤ n → take c (drop i (slice f a n)) ≡ slice f (a + i) c
part-slice f a n zero c l = front f a n c (omega arith) ∙ ap (λ b. slice f b c) (omega arith)
  where
    front : (f : ℕ → ℕ) (a n c : ℕ) → c ≤ n → take c (slice f a n) ≡ slice f a c
    front f a n zero l = refl
    front f a zero (suc c) l = absurd (omega arith)
    front f a (suc n) (suc c) l = ap (λ t. f a ∷ t) (front f (suc a) n c (omega arith))
part-slice f a zero (suc i) c l = absurd (omega arith)
part-slice f a (suc n) (suc i) c l =
    part-slice f (suc a) n i c (omega arith) ∙ ap (λ b. slice f b c) (omega arith)

pub get_or-append :
    (xs ys : List ℕ) (k : ℕ)
    → get_or (xs ++ ys) k 0
      ≡ (if ltb k (length xs) then get_or xs k 0 else get_or ys (k - length xs) 0)
get_or-append [] ys k = ground arith
get_or-append (x ∷ xs) ys zero = ground arith
get_or-append (x ∷ xs) ys (suc k) = ground (arith, get_or-append xs ys k)

pub get_or-slice : (f : ℕ → ℕ) (a n k : ℕ) → k < n → get_or (slice f a n) k 0 ≡ f (a + k)
get_or-slice f a zero k l = absurd (omega arith)
get_or-slice f a (suc n) zero l = ap f (omega arith)
get_or-slice f a (suc n) (suc k) l = get_or-slice f (suc a) n k (omega arith) ∙ ap f (omega arith)

pub get_or-take : (xs : List ℕ) (n k : ℕ) → k < n → get_or (take n xs) k 0 ≡ get_or xs k 0
get_or-take xs zero k l = absurd (omega arith)
get_or-take [] (suc n) k l = refl
get_or-take (x ∷ xs) (suc n) zero l = refl
get_or-take (x ∷ xs) (suc n) (suc k) l = get_or-take xs n k (omega arith)

pub get_or-drop : (xs : List ℕ) (n k : ℕ) → get_or (drop n xs) k 0 ≡ get_or xs (n + k) 0
get_or-drop xs zero k = ap (λ j. get_or xs j 0) (omega arith)
get_or-drop [] (suc n) k = refl
get_or-drop (x ∷ xs) (suc n) k =
    let e : suc (n + k) ≡ suc n + k = omega arith in
    get_or-drop xs n k ∙ ap (λ j. get_or (x ∷ xs) j 0) e

pub length-drop : (n : ℕ) (xs : List ℕ) → length (drop n xs) ≡ length xs - n
length-drop zero xs = omega arith
length-drop (suc n) [] = omega arith
length-drop (suc n) (x ∷ xs) = omega (arith, length-drop n xs)

pub take-drop : (n : ℕ) (xs : List ℕ) → take n xs ++ drop n xs ≡ xs
take-drop zero xs = refl
take-drop (suc n) [] = refl
take-drop (suc n) (x ∷ xs) = ap (λ l. x ∷ l) (take-drop n xs)

-- Lists with the same bytes at the same places.
pub by_places :
    (xs ys : List ℕ)
    → length xs ≡ length ys
    → ((k : ℕ) → k < length xs → get_or xs k 0 ≡ get_or ys k 0)
    → xs ≡ ys
by_places [] [] e h = refl
by_places [] (y ∷ ys) e h = absurd (omega arith)
by_places (x ∷ xs) [] e h = absurd (omega arith)
by_places (x ∷ xs) (y ∷ ys) e h =
    let here : x ≡ y = h 0 (omega arith) in
    let rest = by_places xs ys (omega arith) (λ k l. h (suc k) (omega arith)) in
    ap (λ z. z ∷ xs) here ∙ ap (λ l. y ∷ l) rest

-- What has just been written is there.
pub slice-overwrite :
    (f : ℕ → ℕ) (a : ℕ) (bytes : List ℕ) → slice (overwrite f a bytes) a (length bytes) ≡ bytes
slice-overwrite f a bytes =
    by_places (slice (overwrite f a bytes) a (length bytes)) bytes
      (length-slice (overwrite f a bytes) a (length bytes))
      (λ k l. at k (subst (λ n. k < n) (length-slice (overwrite f a bytes) a (length bytes)) l))
  where
    at :
        (k : ℕ)
        → k < length bytes
        → get_or (slice (overwrite f a bytes) a (length bytes)) k 0 ≡ get_or bytes k 0
    at k l =
        let t : (leb a (a + k) && ltb (a + k) (a + length bytes)) ≡ true = ground arith in
        let e : a + k - a ≡ k = omega arith in
        get_or-slice (overwrite f a bytes) a (length bytes) k l ∙ rw (t, e)

-- A write, and another one right behind it.
pub overwrite-overwrite :
    (f : ℕ → ℕ) (a : ℕ) (bs cs : List ℕ) (i : ℕ)
    → overwrite (overwrite f a bs) (a + length bs) cs i ≡ overwrite f a (bs ++ cs) i
overwrite-overwrite f a bs cs i =
    ground (arith, length-append {0} bs cs, get_or-append bs cs (i - a), shift)
  where
    shift : a + length bs ≤ i → get_or cs (i - (a + length bs)) 0 ≡ get_or cs (i - a - length bs) 0
    shift l =
        let e : i - (a + length bs) ≡ i - a - length bs = omega arith in ap (λ k. get_or cs k 0) e

module _ (f : ℕ → ℕ) (a n p : ℕ) (bs : List ℕ) (l : p + length bs ≤ n) where
  pub length-patch : length (patch (slice f a n) p bs) ≡ n
  length-patch = omega (
    arith,
    length-append {0} (take p (slice f a n) ++ bs) (drop (p + length bs) (slice f a n)),
    length-append {0} (take p (slice f a n)) bs,
    length-take p (slice f a n) (enough),
    length-drop (p + length bs) (slice f a n),
    length-slice f a n,
  )
    where
      enough : p ≤ length (slice f a n)
      enough = omega (arith, length-slice f a n)

  get_or-patch :
      (k : ℕ)
      → k < n
      → get_or (patch (slice f a n) p bs) k 0 ≡ (
          if ltb k p
          then f (a + k)
          else if ltb k (p + length bs)
          then get_or bs (k - p) 0
          else f (a + k))
  get_or-patch k m = ground (
    arith,
    get_or-append (take p (slice f a n) ++ bs) (drop (p + length bs) (slice f a n)) k,
    get_or-append (take p (slice f a n)) bs k,
    front,
    taken,
    length-append {0} (take p (slice f a n)) bs,
    get_or-drop (slice f a n) (p + length bs) (k - length (take p (slice f a n) ++ bs)),
    behind,
  )
    where
      front : length (take p (slice f a n)) ≡ p
      front = length-take p (slice f a n) (omega (arith, length-slice f a n))

      taken : k < p → get_or (take p (slice f a n)) k 0 ≡ f (a + k)
      taken q = get_or-take (slice f a n) p k q ∙ get_or-slice f a n k m

      behind :
          p + length bs ≤ k
          → get_or (slice f a n) (p + length bs + (k - length (take p (slice f a n) ++ bs))) 0
            ≡ f (a + k)
      behind q =
          let e : p + length bs + (k - length (take p (slice f a n) ++ bs)) ≡ k =
            omega (arith, length-append {0} (take p (slice f a n)) bs, front) in
          ap (λ j. get_or (slice f a n) j 0) e ∙ get_or-slice f a n k m

  -- A range that is read, changed in a part, and written back.
  pub overwrite-patch :
      (i : ℕ) → overwrite f a (patch (slice f a n) p bs) i ≡ overwrite f (a + p) bs i
  overwrite-patch i = elim (Bool-cases (leb a i && ltb i (a + n))) [
    | inl t ↦
        let m : i - a < n = ground (arith, t) in
        let e : a + (i - a) ≡ i = ground (arith, t) in
        ground (arith, t, length-patch, get_or-patch (i - a) m, ap f e, shift)
    | inr t ↦ ground (arith, t, length-patch)
  ]
    where
      shift : a + p ≤ i → get_or bs (i - a - p) 0 ≡ get_or bs (i - (a + p)) 0
      shift q = let e : i - a - p ≡ i - (a + p) = omega arith in ap (λ k. get_or bs k 0) e
