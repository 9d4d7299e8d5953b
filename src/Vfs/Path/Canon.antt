-- ===== src/Vfs/Path/Canon.antt =====
-- Normal paths, and what the loop of `vfs_normalize_path` keeps.
use atom_os.Prelude.{
  ℕ, ◌+◌, ◌≡◌, ◌≢◌, ◌<◌, ◌≤◌, ◌∙◌, ap, sym, subst, refl, true, false, List, [], ◌∷◌, ◌++◌, arith,
  ◌==◌, if◌then◌else◌, ltb, leb, length, take, All, All-append, length-append, take_all,
  take-append, length-take, Bool-cases, inl, inr,
}
use mathlib.Core.List.{append-nil, append_assoc}
use atom_os.Vfs.Result.{VfsResult, Outcome, value, fails}
use atom_os.Vfs.Path.{
  slash, name_max, max_segments, is_dot, is_dot_dot, Normal, pop_segment, put_segment, add_segment,
}
use atom_os.Vfs.Path.Pieces.{add_all, add_all_value, add_all_fails}

-- A name that may stand in a normal path.
pub record IsName (s : List ℕ) : Type 0 where
  pub nonempty : 0 < length s
  pub short : length s ≤ name_max
  pub bytes : All (λ c. (0 < c) × (c ≢ slash)) s
  pub no_dot : is_dot s ≡ false
  pub no_dot_dot : is_dot_dot s ≡ false

abbrev pub render : List (List ℕ) → List ℕ
render [] = []
render (s ∷ ss) = slash ∷ s ++ render ss

-- The path of the names: a slash in front of each; of no name, the root.
abbrev pub path_of : List (List ℕ) → List ℕ
path_of [] = slash ∷ []
path_of (s ∷ ss) = render (s ∷ ss)

abbrev pub IsNormal : List ℕ → Type 0
IsNormal p = (ss : List (List ℕ)) × (p ≡ path_of ss) × All IsName ss

-- Each saved length is that of a normal path in front of `out`.
abbrev pub Saved : List ℕ → List ℕ → Type 0
Saved out [] = Unit
Saved out (o ∷ os) = (o ≤ length out) × IsNormal (take o out) × Saved (take o out) os

pub record Keeps (n : ℕ) (st : Normal) : Type 0 where
  pub normal : IsNormal st.out
  pub saved : Saved st.out st.offsets
  pub fits : length st.out < n

Saved-append : (out s os : List ℕ) → Saved out os → Saved (out ++ s) os
Saved-append out s [] h = tt
Saved-append out s (o ∷ os) h =
    let e = sym (take-append o out s h.0) in
    (
      omega (arith, h.0, length-append {0} out s),
      subst IsNormal e h.1,
      subst (λ x. Saved x os) e h.2,
    )

pub render-append : (ss ts : List (List ℕ)) → render (ss ++ ts) ≡ render ss ++ render ts
render-append [] ts = refl
render-append (s ∷ ss) ts =
    ap (λ l. slash ∷ l)
      (ap (λ l. s ++ l) (render-append ss ts) ∙ sym (append_assoc s (render ss) (render ts)))

-- The slash in front of one more name, which the root does not take.
abbrev pub with_slash : List ℕ → List ℕ
with_slash out = if ltb 1 (length out) then out ++ slash ∷ [] else out

render_one :
    (ss : List (List ℕ)) (s : List ℕ) → render (ss ++ s ∷ []) ≡ (render ss ++ slash ∷ []) ++ s
render_one ss s =
    render-append ss (s ∷ [])
    ∙ ap (λ l. render ss ++ slash ∷ l) (append-nil s)
    ∙ sym (append_assoc (render ss) (slash ∷ []) s)

-- One name more.
pub path_of_snoc :
    (ss : List (List ℕ)) (s : List ℕ)
    → All IsName ss
    → path_of (ss ++ s ∷ []) ≡ with_slash (path_of ss) ++ s
path_of_snoc [] s h = ap (λ l. slash ∷ l) (append-nil s)
path_of_snoc (t ∷ ss) s h =
    let long : ltb 1 (length (path_of (t ∷ ss))) ≡ true =
      ground (arith, h.0.nonempty, length-append {0} t (render ss)) in
    rw long (render_one (t ∷ ss) s)

pub length-path_of : (ss : List (List ℕ)) → 0 < length (path_of ss)
length-path_of [] = omega arith
length-path_of (s ∷ ss) = omega arith

-- A piece of a path: no slash and no terminator in it.
abbrev pub IsPiece : List ℕ → Type 0
IsPiece s = All (λ c. (0 < c) × (c ≢ slash)) s

abbrev pub Ensures : ℕ → Outcome Normal → Type 0
Ensures n (fails r) = Unit
Ensures n (value st) = Keeps n st

pop_segment-Keeps :
    (n : ℕ) (out os : List ℕ)
    → Keeps n (record { out = out; offsets = os })
    → Keeps n (pop_segment out os)
unfolding pop_segment
pop_segment-Keeps n out [] k = k
pop_segment-Keeps n out (o ∷ os) k = record {
  normal = k.saved.1;
  saved = k.saved.2;
  fits = omega (arith, k.fits, k.saved.0, length-take {0} o out k.saved.0);
}

with_slash-Saved : (out os : List ℕ) → Saved out os → Saved (with_slash out) os
with_slash-Saved out os h = elim (Bool-cases (ltb 1 (length out))) [
  | inl t ↦ rw t (Saved-append out (slash ∷ []) os h)
  | inr t ↦ rw t h
]

pushed-Saved :
    (out os : List ℕ) (m : ℕ)
    → IsNormal out
    → m ≡ length out
    → Saved out os
    → Saved out (if ltb (length os) max_segments then m ∷ os else os)
pushed-Saved out os m i e h = elim (Bool-cases (ltb (length os) max_segments)) [
  | inl t ↦
      let whole : take m out ≡ out = ap (λ k. take k out) e ∙ take_all out in
      rw t (omega (arith, e), subst IsNormal (sym whole) i, subst (λ x. Saved x os) (sym whole) h)
  | inr t ↦ rw t h
]

-- What the end of the code does with a name.
unfoldable pub put_name : ℕ → Normal → List ℕ → Outcome Normal
put_name n st s =
    if ltb 1 (length st.out)
    then (if leb n (length st.out + 1)
        then fails VfsResult.no_space
        else put_segment n (st.out ++ slash ∷ []) st.offsets s)
    else put_segment n st.out st.offsets s

module _ (n : ℕ) (st : Normal) (s : List ℕ) (k : Keeps n st) where
  put_segment-Keeps : IsName s → Ensures n (put_segment n (with_slash st.out) st.offsets s)
  put_segment-Keeps name = elim (Bool-cases (leb n (length (with_slash st.out) + length s))) [
    | inl t ↦ unfold put_segment in rw t tt
    | inr t ↦
        unfold put_segment in
        rw t (
          let (ss, e, names) = k.normal in
          let normal : IsNormal (with_slash st.out ++ s) = (
            ss ++ s ∷ [],
            ap (λ p. with_slash p ++ s) e ∙ sym (path_of_snoc ss s names),
            All-append IsName ss (s ∷ []) names (name, tt),
          ) in
          record {
            normal = normal;
            saved =
                pushed-Saved (with_slash st.out ++ s) st.offsets
                  (length (with_slash st.out) + length s) normal
                  (sym (length-append (with_slash st.out) s))
                  (Saved-append (with_slash st.out) s st.offsets
                    (with_slash-Saved st.out st.offsets k.saved));
            fits = ground (arith, t, length-append {0} (with_slash st.out) s);
          })
  ]

  put_name-Keeps : IsName s → Ensures n (put_name n st s)
  unfolding put_name
  put_name-Keeps name = elim (Bool-cases (ltb 1 (length st.out))) [
    | inl t ↦ elim (Bool-cases (leb n (length st.out + 1))) [
      | inl u ↦ rw t (rw u tt)
      | inr u ↦ rw t (rw u (rw t at (put_segment-Keeps name)))
    ]
    | inr t ↦ rw t (rw t at (put_segment-Keeps name))
  ]

  pub add_segment-Keeps : IsPiece s → Ensures n (add_segment n st s)
  unfolding add_segment put_name
  add_segment-Keeps b = elim (Bool-cases (length s == 0)) [
    | inl t ↦ rw t k
    | inr t ↦ elim (Bool-cases (ltb name_max (length s))) [
      | inl u ↦ rw t (rw u tt)
      | inr u ↦ elim (Bool-cases (is_dot s)) [
        | inl d ↦ rw t (rw u (rw d k))
        | inr d ↦ elim (Bool-cases (is_dot_dot s)) [
          | inl dd ↦ rw t (rw u (rw d (rw dd (pop_segment-Keeps n st.out st.offsets k))))
          | inr dd ↦ rw t (
              rw u (
                rw d (
                  rw dd (
                    put_name-Keeps (record {
                      nonempty = ground (arith, t);
                      short = ground (arith, u);
                      bytes = b;
                      no_dot = d;
                      no_dot_dot = dd;
                    })))))
        ]
      ]
    ]
  ]

-- What holds of the start holds at the end.
pub add_all-Keeps :
    (n : ℕ) (st : Normal) (ss : List (List ℕ))
    → Keeps n st
    → All IsPiece ss
    → Ensures n (add_all n st ss)
add_all-Keeps n st [] k b = unfold add_all in k
add_all-Keeps n st (s ∷ ss) k b =
    next (add_segment n st s) refl (add_segment-Keeps n st s k b.0)
      (λ st' k'. add_all-Keeps n st' ss k' b.1)
  where
    next :
        (o : Outcome Normal)
        → add_segment n st s ≡ o
        → Ensures n o
        → ((st' : Normal) → Keeps n st' → Ensures n (add_all n st' ss))
        → Ensures n (add_all n st (s ∷ ss))
    next (fails r) e h ih = subst (Ensures n) (sym (add_all_fails n st s ss r e)) tt
    next (value st') e h ih = subst (Ensures n) (sym (add_all_value n st s ss st' e)) (ih st' h)
