-- ===== src/Vfs/Resolve/Below.antt =====
-- `..` in the path below a mount, and the parents of nodes.
use atom_os.Prelude.{
  ℕ, zero, suc, ◌≡◌, ◌≢◌, ◌<◌, ◌∙◌, ap, sym, subst, refl, true, false, ◌||◌, Option, none, some,
  List, [], ◌∷◌, ◌++◌, arith, ◌==◌, length, take, drop, get_or, All, Bool-cases, inl, inr, ◌⊎◌,
  length-append,
}
use atom_os.Strings.{IsString}
use atom_os.Vfs.Result.{VfsResult, Outcome, value, fails}
use atom_os.Vfs.Path.{slash, is_dot_dot}
use atom_os.Vfs.Path.Pieces.{pieces, onto_first, pieces-slash, pieces_other}
use atom_os.Vfs.Path.Canon.{IsName, IsNormal, render}
use atom_os.Vfs.Path.Laws.{pieces-render}
use atom_os.Vfs.Text.{same_text, same_text_iff}
use atom_os.Vfs.State.{Lookup, VfsMount}
use atom_os.Vfs.Resolve.{
  mount_matches, skip_one, relative, below_mount, resolve_in, vfs_select_mount,
}
use atom_os.Vfs.Resolve.Select.{Taken, vfs_select_mount-Taken}
use atom_os.Vfs.Resolve.Walk.{NoParent, vfs_walk-parents, vfs_walk_total}

abbrev NotUp : List ℕ → Type 0
NotUp s = is_dot_dot s ≡ false

names-NotUp : (ss : List (List ℕ)) → All IsName ss → All NotUp ss
names-NotUp [] h = tt
names-NotUp (s ∷ ss) h = (h.0.no_dot_dot, names-NotUp ss h.1)

pub NoParent-IsNormal : (p : List ℕ) → IsNormal p → NoParent p
NoParent-IsNormal p ([], e, h) = subst NoParent (sym e) root
  where
    root : NoParent (slash ∷ [])
    root = unfold pieces in (refl, (refl, tt))
NoParent-IsNormal p (s ∷ ss, e, h) = subst NoParent (sym e) (
    subst (All NotUp) (sym (pieces-slash slash (s ++ render ss) refl))
      (refl, subst (All NotUp) (sym (pieces-render s ss h.0 h.1)) (names-NotUp (s ∷ ss) h)))

name-IsString : (s q : List ℕ) → All (λ c. (0 < c) × (c ≢ slash)) s → IsString q → IsString (s ++ q)
name-IsString [] q h k = k
name-IsString (c ∷ s) q h k = (h.0.0, name-IsString s q h.1 k)

render-IsString : (ss : List (List ℕ)) → All IsName ss → IsString (render ss)
render-IsString [] h = tt
render-IsString (s ∷ ss) h =
    (omega arith, name-IsString s (render ss) h.0.bytes (render-IsString ss h.1))

pub IsString-IsNormal : (p : List ℕ) → IsNormal p → IsString p
IsString-IsNormal p ([], e, h) = subst IsString (sym e) (omega arith, tt)
IsString-IsNormal p (s ∷ ss, e, h) = subst IsString (sym e) (render-IsString (s ∷ ss) h)

-- All pieces but the first.
abbrev Rest : List (List ℕ) → Type 0
Rest [] = Unit
Rest (s ∷ ss) = All NotUp ss

Rest-All : (ss : List (List ℕ)) → All NotUp ss → Rest ss
Rest-All [] h = tt
Rest-All (s ∷ ss) h = h.1

Rest-onto : (c : ℕ) (ss : List (List ℕ)) → Rest (onto_first c ss) → Rest ss
Rest-onto c [] h = tt
Rest-onto c (s ∷ ss) h = h

NoParent-behind : (a b : List ℕ) → Rest (pieces (a ++ slash ∷ b)) → NoParent b
NoParent-behind [] b h = subst Rest (pieces-slash slash b refl) h
NoParent-behind (c ∷ a) b h = elim (Bool-cases (c == slash)) [
  | inl e ↦
      NoParent-behind a b
        (Rest-All (pieces (a ++ slash ∷ b)) (subst Rest (pieces-slash c (a ++ slash ∷ b) e) h))
  | inr e ↦
      NoParent-behind a b
        (Rest-onto c (pieces (a ++ slash ∷ b)) (subst Rest (pieces_other c (a ++ slash ∷ b) e) h))
]

NoParent-skip_one : (p : List ℕ) → NoParent p → NoParent (skip_one p)
NoParent-skip_one [] h = h
NoParent-skip_one (c ∷ p) h = elim (Bool-cases (c == slash)) [
  | inl e ↦ rw e (subst (All NotUp) (pieces-slash c p e) h).1
  | inr e ↦ rw e h
]

-- What stands at the place `k`, and behind it.
drop-cases :
    (k : ℕ) (p : List ℕ)
    → IsString p
    → (drop k p ≡ [])
      ⊎ ((c : ℕ) × (q : List ℕ) × (p ≡ take k p ++ c ∷ q)
          × (drop k p ≡ c ∷ q)
          × (get_or p k 0 ≡ c)
          × (0 < c))
drop-cases zero [] i = inl refl
drop-cases (suc k) [] i = inl refl
drop-cases zero (c ∷ p) i = inr (c, p, refl, refl, refl, i.0)
drop-cases (suc k) (d ∷ p) i = elim (drop-cases k p i.1) [
  | inl e ↦ inl e
  | inr (c, q, e, f, g, l) ↦ inr (c, q, ap (λ x. d ∷ x) e, f, g, l)
]

-- Where a slash or the end stands at the place `k`, what is behind it has no `..` either.
NoParent-drop :
    (k : ℕ) (p : List ℕ)
    → IsString p
    → NoParent p
    → (get_or p k 0 == 0 || get_or p k 0 == slash) ≡ true
    → NoParent (skip_one (drop k p))
NoParent-drop k p i h e = elim (drop-cases k p i) [
  | inl n ↦ subst (λ x. NoParent (skip_one x)) (sym n) (unfold pieces in (refl, tt))
  | inr (c, q, f, g, m, l) ↦
      let is_slash : slash ≡ c = ground (arith, e, m, l) in
      let whole : p ≡ take k p ++ slash ∷ q = f ∙ ap (λ x. take k p ++ x ∷ q) (sym is_slash) in
      let rest : skip_one (drop k p) ≡ q = ap skip_one (g ∙ ap (λ x. x ∷ q) (sym is_slash)) in
      subst NoParent (sym rest) (
        NoParent-behind (take k p) q
          (Rest-All (pieces (take k p ++ slash ∷ q)) (subst NoParent whole h)))
]

root_of_length : (p : List ℕ) → IsNormal p → length p ≡ 1 → p ≡ slash ∷ []
root_of_length p ([], e, h) l = e
root_of_length p (s ∷ ss, e, h) l =
    absurd (omega (arith, ap length e, h.0.nonempty, length-append {0} s (render ss)))

pub relative-NoParent :
    (m : VfsMount) (p : List ℕ)
    → IsNormal m.path
    → IsNormal p
    → mount_matches p m ≡ true
    → NoParent (relative m p)
unfolding relative mount_matches
relative-NoParent m p i j e = elim (Bool-cases (same_text m.path (slash ∷ []))) [
  | inl t ↦ rw t (NoParent-skip_one p (NoParent-IsNormal p j))
  | inr t ↦
      let not_root : length m.path ≢ 1 = λ l. different t (
        (same_text_iff m.path (slash ∷ []) (IsString-IsNormal m.path i) (omega arith, tt)).1
          (root_of_length m.path i l)) in
      rw t (
        NoParent-drop (length m.path) p (IsString-IsNormal p j) (NoParent-IsNormal p j)
          (ground (arith, e, not_root)))
]
  where
    different : same_text m.path (slash ∷ []) ≡ false → same_text m.path (slash ∷ []) ≡ true → ⊥
    different x y = cc

module _ (lookup : Lookup) where
  rest_walk :
      (parents others : ℕ → Option ℕ) (m : VfsMount) (p rel : List ℕ)
      → relative m p ≡ rel
      → NoParent rel
      → below_mount lookup parents m p ≡ below_mount lookup others m p
  unfolding below_mount
  rest_walk parents others m p [] e h = rw (e, below_mount)
  rest_walk parents others m p (c ∷ rel) e h =
      rw (e, below_mount) (vfs_walk-parents lookup parents others m.root (c ∷ rel) h)

  -- On normal paths, resolution does not depend on the parents.
  pub resolve_in-parents :
      (ms : List VfsMount) (parents others : ℕ → Option ℕ) (p : List ℕ)
      → All (λ m. IsNormal m.path) ms
      → IsNormal p
      → resolve_in lookup ms parents p ≡ resolve_in lookup ms others p
  resolve_in-parents ms parents others p h j =
      same (vfs_select_mount ms p) refl (vfs_select_mount-Taken (λ m. IsNormal m.path) p ms h)
    where
      same :
          (o : Option VfsMount)
          → vfs_select_mount ms p ≡ o
          → Taken (λ m. IsNormal m.path) p o
          → resolve_in lookup ms parents p ≡ resolve_in lookup ms others p
      same none e t = unfold resolve_in in rw (e, resolve_in)
      same (some m) e t =
          unfold resolve_in in
          rw (e, resolve_in)
            (rest_walk parents others m p (relative m p) refl (relative-NoParent m p t.0 j t.1))

  below_mount_total :
      (parents : ℕ → Option ℕ) (m : VfsMount) (p rel : List ℕ)
      → relative m p ≡ rel
      → (r : Outcome ℕ) × (below_mount lookup parents m p ≡ some r)
  unfolding below_mount
  below_mount_total parents m p [] e = (value m.root, rw (e, below_mount))
  below_mount_total parents m p (c ∷ rel) e =
      let (r, runs) = vfs_walk_total lookup parents m.root (c ∷ rel) in
      (r, rw (e, below_mount) runs)

  pub resolve_in_total :
      (ms : List VfsMount) (parents : ℕ → Option ℕ) (p : List ℕ)
      → (r : Outcome ℕ) × (resolve_in lookup ms parents p ≡ some r)
  resolve_in_total ms parents p = ends (vfs_select_mount ms p) refl
    where
      ends :
          (o : Option VfsMount)
          → vfs_select_mount ms p ≡ o
          → (r : Outcome ℕ) × (resolve_in lookup ms parents p ≡ some r)
      ends none e = (fails VfsResult.not_found, unfold resolve_in in rw (e, resolve_in))
      ends (some m) e =
          let (r, runs) = below_mount_total parents m p (relative m p) refl in
          (r, unfold resolve_in in rw (e, resolve_in) runs)
