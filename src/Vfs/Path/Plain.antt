-- ===== src/Vfs/Path/Plain.antt =====
-- Paths with no `..`: the result is the path of the names that are left.
use atom_os.Prelude.{
  ℕ, suc, ◌+◌, ◌≡◌, ◌<◌, ◌≤◌, ◌∙◌, ap, sym, subst, refl, true, false, ◌||◌, List, [], ◌∷◌, ◌++◌,
  arith, ◌==◌, if◌then◌else◌, ltb, leb, length, All, All-append, length-append, Bool-cases, inl,
  inr, ◌⊎◌,
}
use mathlib.Core.List.{append-nil, append_assoc}
use atom_os.Vfs.Result.{VfsResult, Outcome, value, fails}
use atom_os.Vfs.Path.{
  slash, name_max, max_segments, is_dot, is_dot_dot, Normal, put_segment, add_segment,
}
use atom_os.Vfs.Path.Pieces.{add_all, add_all_value, add_all_fails}
use atom_os.Vfs.Path.Canon.{
  put_name, IsName, render, path_of, path_of_snoc, with_slash, IsPiece, render-append,
}

abbrev pub out_of : Outcome Normal → Outcome (List ℕ)
out_of (fails r) = fails r
out_of (value st) = value st.out

-- The pieces that are neither empty nor a dot.
unfoldable pub kept : List (List ℕ) → List (List ℕ)
kept [] = []
kept (s ∷ ss) = if length s == 0 || is_dot s then kept ss else s ∷ kept ss

-- A piece that is short enough, and is not `..`.
pub record IsPlain (s : List ℕ) : Type 0 where
  pub short : length s ≤ name_max
  pub bytes : IsPiece s
  pub no_dot_dot : is_dot_dot s ≡ false

-- The path, where it fits with its terminator.
abbrev pub fitting : ℕ → List ℕ → Outcome (List ℕ)
fitting n p = if ltb (length p) n then value p else fails VfsResult.no_space

module _ (n : ℕ) (st : Normal) (s : List ℕ) (h : IsPlain s) where
  skipped : (length s == 0 || is_dot s) ≡ true → add_segment n st s ≡ value st
  unfolding add_segment
  skipped e = elim (Bool-cases (length s == 0)) [
    | inl t ↦ rw t
    | inr t ↦
        let short : ltb name_max (length s) ≡ false = ground (arith, h.short) in
        let d : is_dot s ≡ true = ap (λ b. b || is_dot s) (sym t) ∙ e in rw t (rw short (rw d))
  ]

-- What becomes of `out`: the target, or an error where the target does not fit.
abbrev Extends : ℕ → Outcome Normal → List ℕ → Type 0
Extends n o target =
    ((o ≡ fails VfsResult.no_space) × (n ≤ length target))
    ⊎ ((st' : Normal) × (o ≡ value st') × (st'.out ≡ target) × (length target < n))

put_segment-Extends : (n : ℕ) (out os s : List ℕ) → Extends n (put_segment n out os s) (out ++ s)
put_segment-Extends n out os s = elim (Bool-cases (leb n (length out + length s))) [
  | inl t ↦ inl (full t, ground (arith, t, length-append {0} out s))
  | inr t ↦ inr (_, room t, refl, ground (arith, t, length-append {0} out s))
]
  where
    full : leb n (length out + length s) ≡ true → put_segment n out os s ≡ fails VfsResult.no_space
    full t = unfold put_segment in rw t

    room :
        leb n (length out + length s) ≡ false
        → put_segment n out os s
          ≡ value (record {
            out = out ++ s;
            offsets = if ltb (length os) max_segments then (length out + length s) ∷ os else os;
          })
    room t = unfold put_segment in rw t

module _ (n : ℕ) (st : Normal) (s : List ℕ) where
  put_name-Extends : Extends n (put_name n st s) (with_slash st.out ++ s)
  unfolding put_name
  put_name-Extends = elim (Bool-cases (ltb 1 (length st.out))) [
    | inl t ↦ elim (Bool-cases (leb n (length st.out + 1))) [
      | inl u ↦ rw t (
          rw u (
            inl (
              refl,
              ground (
                arith,
                u,
                length-append {0} (st.out ++ slash ∷ []) s,
                length-append {0} st.out (slash ∷ []),
              ),
            )))
      | inr u ↦ rw t (rw u (put_segment-Extends n (st.out ++ slash ∷ []) st.offsets s))
    ]
    | inr t ↦ rw t (put_segment-Extends n st.out st.offsets s)
  ]

  pub taken_in :
      IsPlain s → (length s == 0 || is_dot s) ≡ false → add_segment n st s ≡ put_name n st s
  unfolding add_segment put_name
  taken_in h e =
      let some_bytes : (length s == 0) ≡ false = ground (arith, e) in
      let d : is_dot s ≡ false = ap (λ b. b || is_dot s) (sym some_bytes) ∙ e in
      let short : ltb name_max (length s) ≡ false = ground (arith, h.short) in
      rw some_bytes (rw short (rw d (rw h.no_dot_dot)))

  plain-IsName : IsPlain s → (length s == 0 || is_dot s) ≡ false → IsName s
  plain-IsName h e =
      let some_bytes : (length s == 0) ≡ false = ground (arith, e) in
      record {
        nonempty = ground (arith, some_bytes);
        short = h.short;
        bytes = h.bytes;
        no_dot = ap (λ b. b || is_dot s) (sym some_bytes) ∙ e;
        no_dot_dot = h.no_dot_dot;
      }

kept_skip :
    (s : List ℕ) (ss : List (List ℕ)) → (length s == 0 || is_dot s) ≡ true → kept (s ∷ ss) ≡ kept ss
unfolding kept
kept_skip s ss e = rw e

kept_take :
    (s : List ℕ) (ss : List (List ℕ))
    → (length s == 0 || is_dot s) ≡ false
    → kept (s ∷ ss) ≡ s ∷ kept ss
unfolding kept
kept_take s ss e = rw e

pub path_of-render :
    (ss : List (List ℕ)) (s : List ℕ) (ts : List (List ℕ))
    → path_of (ss ++ s ∷ ts) ≡ render (ss ++ s ∷ ts)
path_of-render [] s ts = refl
path_of-render (r ∷ ss) s ts = refl

length-render :
    (ss : List (List ℕ)) (s : List ℕ) (ts : List (List ℕ))
    → length (path_of (ss ++ s ∷ ts)) ≡ length (render ss) + suc (length s + length (render ts))
length-render ss s ts =
    ap length (path_of-render ss s ts)
    ∙ ap length (render-append ss (s ∷ ts))
    ∙ (omega
        (arith, length-append {0} (render ss) (render (s ∷ ts)), length-append {0} s (render ts)))

-- A longer list of names has a longer path.
longer :
    (ss : List (List ℕ)) (s : List ℕ) (ts : List (List ℕ))
    → length (path_of (ss ++ s ∷ [])) ≤ length (path_of (ss ++ s ∷ ts))
longer ss s ts = omega (arith, length-render ss s [], length-render ss s ts)

too_long : (n : ℕ) (p : List ℕ) → n ≤ length p → fitting n p ≡ fails VfsResult.no_space
too_long n p l = let t : ltb (length p) n ≡ false = ground arith in rw t

fits : (n : ℕ) (p : List ℕ) → length p < n → fitting n p ≡ value p
fits n p l = let t : ltb (length p) n ≡ true = ground arith in rw t

-- With no `..` among the pieces, the names that are kept go behind those that are there; where the
-- path does not fit with its terminator, the answer is that there is no space.
pub add_all-plain :
    (n : ℕ) (st : Normal) (pre ss : List (List ℕ))
    → st.out ≡ path_of pre
    → All IsName pre
    → length st.out < n
    → All IsPlain ss
    → out_of (add_all n st ss) ≡ fitting n (path_of (pre ++ kept ss))
add_all-plain n st pre [] e names l h =
    unfold add_all kept in
    ap value (e ∙ ap path_of (sym (append-nil pre)))
    ∙ sym (
        fits n (path_of (pre ++ []))
          (subst (λ p. length p < n) (e ∙ ap path_of (sym (append-nil pre))) l))
add_all-plain n st pre (s ∷ ss) e names l h = elim (Bool-cases (length s == 0 || is_dot s)) [
  | inl t ↦
      ap out_of (add_all_value n st s ss st (skipped n st s h.0 t))
      ∙ add_all-plain n st pre ss e names l h.1
      ∙ sym (ap (λ ts. fitting n (path_of (pre ++ ts))) (kept_skip s ss t))
  | inr t ↦ next t (put_name-Extends n st s) (λ st' e' l'.
      add_all-plain n st' (pre ++ s ∷ []) ss (e' ∙ target)
        (All-append IsName pre (s ∷ []) names (plain-IsName n st s h.0 t, tt)) l' h.1)
]
  where
    target : with_slash st.out ++ s ≡ path_of (pre ++ s ∷ [])
    target = ap (λ p. with_slash p ++ s) e ∙ sym (path_of_snoc pre s names)

    next :
        (length s == 0 || is_dot s) ≡ false
        → Extends n (put_name n st s) (with_slash st.out ++ s)
        → ((st' : Normal)
            → st'.out ≡ with_slash st.out ++ s
            → length st'.out < n
            → out_of (add_all n st' ss) ≡ fitting n (path_of ((pre ++ s ∷ []) ++ kept ss)))
        → out_of (add_all n st (s ∷ ss)) ≡ fitting n (path_of (pre ++ kept (s ∷ ss)))
    next t (inl (o, m)) ih =
        ap out_of (add_all_fails n st s ss VfsResult.no_space (taken_in n st s h.0 t ∙ o))
        ∙ sym (
            ap (λ ts. fitting n (path_of (pre ++ ts))) (kept_take s ss t)
            ∙ too_long n (path_of (pre ++ s ∷ kept ss))
                (omega (arith, m, longer pre s (kept ss), ap length target)))
    next t (inr (st', o, e', m)) ih =
        ap out_of (add_all_value n st s ss st' (taken_in n st s h.0 t ∙ o))
        ∙ ih st' e' (subst (λ p. length p < n) (sym e') m)
        ∙ ap (λ ts. fitting n (path_of ts)) (append_assoc pre (s ∷ []) (kept ss))
        ∙ sym (ap (λ ts. fitting n (path_of (pre ++ ts))) (kept_take s ss t))
