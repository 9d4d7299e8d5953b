-- ===== src/Strings/Bytes.antt =====
-- kernel/util/string.c: the functions that search for bytes.
use atom_os.Prelude.{
  ℕ, zero, suc, ◌+◌, ◌%◌, ◌≡◌, ◌≢◌, ◌<◌, ◌∙◌, ap, sym, subst, Bool, true, false, ◌&&◌, not, Option,
  none, some, List, [], ◌∷◌, arith, ltb, ◌==◌, if◌then◌else◌, length, get_or, take, All, Bool-cases,
  inl, inr,
}
use native.Mathlib.Decide.{ℕ_discrete}
use atom_os.Strings.{IsString, strlen}

-- A `char` that is passed as an `int`, as 32 bits: it is signed.
abbrev pub int_of_char : ℕ → ℕ
int_of_char c = if ltb c 128 then c else c + 0xFFFFFF00

strchr_loop : ℕ → List ℕ → ℕ → Option ℕ
strchr_loop i [] c = if c == 0 then some i else none
strchr_loop i (a ∷ s) c =
    let rest = strchr_loop (suc i) s c in
    if a == 0 then (if c == 0 then some i else none) else if a == c % 256 then some i else rest

pub strchr : Option (List ℕ) → ℕ → Option ℕ
strchr none c = none
strchr (some s) c = strchr_loop 0 s c

-- Whether `strchr` of the byte answers a pointer.
pub found : List ℕ → ℕ → Bool
found set c = elim (strchr (some set) (int_of_char c)) [ none ↦ false | some i ↦ true ]

strspn_loop : ℕ → List ℕ → List ℕ → ℕ
strspn_loop count [] set = count
strspn_loop count (a ∷ s) set =
    let rest = strspn_loop (suc count) s set in if not (a == 0) && found set a then rest else count

pub strspn : Option (List ℕ) → Option (List ℕ) → ℕ
strspn none t = 0
strspn (some s) none = 0
strspn (some s) (some t) = strspn_loop 0 s t

strcspn_loop : ℕ → List ℕ → List ℕ → ℕ
strcspn_loop count [] set = count
strcspn_loop count (a ∷ s) set =
    let rest = strcspn_loop (suc count) s set in
    if not (a == 0) && not (found set a) then rest else count

pub strcspn : Option (List ℕ) → Option (List ℕ) → ℕ
strcspn none t = strlen none
strcspn (some s) none = strlen (some s)
strcspn (some s) (some t) = strcspn_loop 0 s t

strpbrk_loop : ℕ → List ℕ → List ℕ → Option ℕ
strpbrk_loop i [] set = none
strpbrk_loop i (a ∷ s) set =
    let rest = strpbrk_loop (suc i) s set in
    if a == 0 then none else if found set a then some i else rest

pub strpbrk : Option (List ℕ) → Option (List ℕ) → Option ℕ
strpbrk none t = none
strpbrk (some s) none = none
strpbrk (some s) (some t) = strpbrk_loop 0 s t

-- The first place of the byte `c`, counted from `i`; the terminator is a zero byte.
abbrev pub FirstByte : ℕ → List ℕ → ℕ → Option ℕ → Type 0
FirstByte i s c none = (j : ℕ) → get_or s j 0 ≢ c
FirstByte i s c (some k) =
    (j : ℕ) × (k ≡ i + j) × (get_or s j 0 ≡ c) × ((j' : ℕ) → j' < j → get_or s j' 0 ≢ c)

FirstByte-cons :
    (i a c : ℕ) (s : List ℕ) (o : Option ℕ)
    → a ≢ c
    → FirstByte (suc i) s c o
    → FirstByte i (a ∷ s) c o
FirstByte-cons i a c s none ne f = nowhere
  where
    nowhere : (j : ℕ) → get_or (a ∷ s) j 0 ≢ c
    nowhere zero = ne
    nowhere (suc j) = f j
FirstByte-cons i a c s (some k) ne (j, e, q, first) = (suc j, omega arith, q, before)
  where
    before : (j' : ℕ) → j' < suc j → get_or (a ∷ s) j' 0 ≢ c
    before zero l = ne
    before (suc j') l = first j' (omega arith)

strchr_loop-FirstByte :
    (i c : ℕ) (s : List ℕ) → IsString s → c < 256 → FirstByte i s c (strchr_loop i s c)
strchr_loop-FirstByte i c [] h l = elim (ℕ_discrete c 0) [
  | yes e ↦
      subst (FirstByte i [] c) (sym (ending e))
        (0, omega arith, sym e, λ j' m. absurd (omega arith))
  | no ne ↦ subst (FirstByte i [] c) (sym (missing ne)) (λ j e. ne (sym e))
]
  where
    ending : c ≡ 0 → strchr_loop i [] c ≡ some i
    ending e = unfold strchr_loop in (let t : (c == 0) ≡ true = ground arith in rw t)

    missing : c ≢ 0 → strchr_loop i [] c ≡ none
    missing ne = unfold strchr_loop in (let t : (c == 0) ≡ false = ground arith in rw t)
strchr_loop-FirstByte i c (a ∷ s) h l = elim (ℕ_discrete a c) [
  | yes e ↦
      subst (FirstByte i (a ∷ s) c) (sym (here e)) (0, omega arith, e, λ j' m. absurd (omega arith))
  | no ne ↦ subst (FirstByte i (a ∷ s) c) (sym (next ne)) (
      FirstByte-cons i a c s (strchr_loop (suc i) s c) ne (strchr_loop-FirstByte (suc i) c s h.1 l))
]
  where
    some_byte : (a == 0) ≡ false
    some_byte = let p = h.0 in ground arith

    here : a ≡ c → strchr_loop i (a ∷ s) c ≡ some i
    here e =
        unfold strchr_loop in
        (let t : (a == c % 256) ≡ true = ground (arith, l) in rw some_byte (rw t))

    next : a ≢ c → strchr_loop i (a ∷ s) c ≡ strchr_loop (suc i) s c
    next ne =
        unfold strchr_loop in
        (let t : (a == c % 256) ≡ false = ground (arith, l) in rw some_byte (rw t))

-- On a string without zero bytes, `strchr` of a byte answers the first place of the byte, where the
-- terminator is a zero byte, and NULL where the byte is at no place.
pub strchr_lem : (s : List ℕ) (c : ℕ) → IsString s → c < 256 → FirstByte 0 s c (strchr (some s) c)
unfolding strchr
strchr_lem s c h l = strchr_loop-FirstByte 0 c s h l

module _ (i a : ℕ) (s set : List ℕ) (l : 0 < a) where
  some_byte_here : (a == 0) ≡ false
  some_byte_here = ground arith

  pbrk_here : found set a ≡ true → strpbrk_loop i (a ∷ s) set ≡ some i
  unfolding strpbrk_loop
  pbrk_here f = rw some_byte_here (rw f)

  pbrk_next : found set a ≡ false → strpbrk_loop i (a ∷ s) set ≡ strpbrk_loop (suc i) s set
  unfolding strpbrk_loop
  pbrk_next f = rw some_byte_here (rw f)

  cspn_here : found set a ≡ true → strcspn_loop i (a ∷ s) set ≡ i
  unfolding strcspn_loop
  cspn_here f = rw some_byte_here (rw f)

  cspn_next : found set a ≡ false → strcspn_loop i (a ∷ s) set ≡ strcspn_loop (suc i) s set
  unfolding strcspn_loop
  cspn_next f = rw some_byte_here (rw f)

-- The pointer to the place `k`, or NULL where that is the end.
abbrev pub unless_end : ℕ → ℕ → Option ℕ
unless_end k end = if k == end then none else some k

strpbrk_loop-strcspn_loop :
    (i : ℕ) (s set : List ℕ)
    → IsString s
    → strpbrk_loop i s set ≡ unless_end (strcspn_loop i s set) (i + length s)
strpbrk_loop-strcspn_loop i [] set h =
    unfold strpbrk_loop strcspn_loop in (let t : (i == i + 0) ≡ true = ground arith in rw t)
strpbrk_loop-strcspn_loop i (a ∷ s) set h = elim (Bool-cases (found set a)) [
  | inl f ↦
      let t : (i == i + suc (length s)) ≡ false = ground arith in
      pbrk_here i a s set h.0 f
      ∙ sym (ap (λ k. unless_end k (i + suc (length s))) (cspn_here i a s set h.0 f) ∙ rw t)
  | inr f ↦
      let e : suc i + length s ≡ i + suc (length s) = omega arith in
      pbrk_next i a s set h.0 f
      ∙ strpbrk_loop-strcspn_loop (suc i) s set h.1
      ∙ ap (unless_end (strcspn_loop (suc i) s set)) e
      ∙ sym (ap (λ k. unless_end k (i + suc (length s))) (cspn_next i a s set h.0 f))
]

-- On a string without zero bytes, `strpbrk` answers a pointer to the place that `strcspn` counts up
-- to, and NULL where that is the end of the string.
pub strpbrk-strcspn :
    (s set : List ℕ)
    → IsString s
    → strpbrk (some s) (some set) ≡ unless_end (strcspn (some s) (some set)) (length s)
unfolding strpbrk strcspn
strpbrk-strcspn s set h =
    strpbrk_loop-strcspn_loop 0 s set h ∙ ap (unless_end (strcspn_loop 0 s set)) (omega arith)

-- From `i` on, the bytes up to the place `k` are in the set, and the byte at `k` is not.
abbrev pub Spans : ℕ → List ℕ → List ℕ → ℕ → Type 0
Spans i s set k =
    (j : ℕ) × (k ≡ i + j)
    × All (λ c. found set c ≡ true) (take j s)
    × (j < length s → found set (get_or s j 0) ≡ false)

module _ (i a : ℕ) (s set : List ℕ) (l : 0 < a) where
  spn_here : found set a ≡ false → strspn_loop i (a ∷ s) set ≡ i
  unfolding strspn_loop
  spn_here f = rw (some_byte_here i a s set l) (rw f)

  spn_next : found set a ≡ true → strspn_loop i (a ∷ s) set ≡ strspn_loop (suc i) s set
  unfolding strspn_loop
  spn_next f = rw (some_byte_here i a s set l) (rw f)

strspn_loop-Spans : (i : ℕ) (s set : List ℕ) → IsString s → Spans i s set (strspn_loop i s set)
strspn_loop-Spans i [] set h = unfold strspn_loop in (0, omega arith, tt, λ l. absurd (omega arith))
strspn_loop-Spans i (a ∷ s) set h = elim (Bool-cases (found set a)) [
  | inl f ↦
      let (j, e, same, other) = strspn_loop-Spans (suc i) s set h.1 in
      (suc j, spn_next i a s set h.0 f ∙ e ∙ (omega arith), (f, same), λ l. other (omega arith))
  | inr f ↦ (0, spn_here i a s set h.0 f ∙ (omega arith), tt, λ l. f)
]

-- On a string without zero bytes, `strspn` counts the bytes at the start that are in the set: each
-- of them is, and the next, if there is one, is not.
pub strspn_lem : (s set : List ℕ) → IsString s → Spans 0 s set (strspn (some s) (some set))
unfolding strspn
strspn_lem s set h = strspn_loop-Spans 0 s set h
