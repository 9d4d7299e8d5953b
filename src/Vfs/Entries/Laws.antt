-- ===== src/Vfs/Entries/Laws.antt =====
-- Which directory and which name `VFS_Create` and `VFS_Remove` hand to the driver.
use mathlib.Core.List.{append-nil}
use atom_os.Prelude.{
  ℕ, suc, ◌+◌, ◌≡◌, ◌<◌, ◌∙◌, ap, sym, subst, refl, false, some, List, [], ◌∷◌, ◌++◌, arith, ltb,
  leb, ◌==◌, if◌then◌else◌, length, take, drop, length-append, take-append, take_all, All,
  All-append, All-map,
}
use atom_os.Strings.{IsString}
use atom_os.Strings.Last.{strrchr, strrchr_lem}
use atom_os.Vfs.Result.{VfsResult, Outcome, value, fails}
use atom_os.Vfs.Path.{slash, name_max, path_max}
use atom_os.Vfs.Path.Canon.{IsName, IsNormal, render, render-append, path_of}
use atom_os.Vfs.Resolve.Below.{IsString-IsNormal}
use atom_os.Vfs.Entries.{split_path}

pub render_last :
    (ss : List (List ℕ)) (s : List ℕ) → path_of (ss ++ s ∷ []) ≡ render ss ++ slash ∷ s
render_last [] s = ap (λ l. slash ∷ l) (append-nil s)
render_last (t ∷ ss) s =
    render-append (t ∷ ss) (s ∷ []) ∙ ap (λ l. render (t ∷ ss) ++ slash ∷ l) (append-nil s)

drop_past : (a b : List ℕ) (c : ℕ) → drop (suc (length a)) (a ++ c ∷ b) ≡ b
drop_past [] b c = refl
drop_past (x ∷ a) b c = drop_past a b c

-- The directory in front of the place `k`.
abbrev parts_at : ℕ → List ℕ → List ℕ → Outcome (List ℕ × List ℕ)
parts_at k path name =
    if k == 0
    then value (slash ∷ [], name)
    else if leb path_max k
    then fails VfsResult.no_space
    else value (take k path, name)

the_parts :
    (ss : List (List ℕ)) (s : List ℕ)
    → length (render ss) < path_max
    → parts_at (length (render ss)) (path_of (ss ++ s ∷ [])) s ≡ value (path_of ss, s)
the_parts [] s l = refl
the_parts (t ∷ ss) s l =
    let z : (length (render (t ∷ ss)) == 0) ≡ false = ground arith in
    let b : leb path_max (length (render (t ∷ ss))) ≡ false = ground (arith, l) in
    let front : take (length (render (t ∷ ss))) (path_of ((t ∷ ss) ++ s ∷ [])) ≡ render (t ∷ ss) =
      ap (take (length (render (t ∷ ss)))) (render_last (t ∷ ss) s)
      ∙ take-append (length (render (t ∷ ss))) (render (t ∷ ss)) (slash ∷ s) (omega arith)
      ∙ take_all (render (t ∷ ss)) in
    subst (λ o. o ≡ value (render (t ∷ ss), s)) (sym (opened z b)) (ap (λ p. value (p, s)) front)
  where
    opened :
        (length (render (t ∷ ss)) == 0) ≡ false
        → leb path_max (length (render (t ∷ ss))) ≡ false
        → parts_at (length (render (t ∷ ss))) (path_of ((t ∷ ss) ++ s ∷ [])) s
          ≡ value (take (length (render (t ∷ ss))) (path_of ((t ∷ ss) ++ s ∷ [])), s)
    opened z b = rw z (rw b refl)

module _ (ss : List (List ℕ)) (s : List ℕ) (hs : All IsName ss) (h : IsName s)
    (short : length (path_of (ss ++ s ∷ [])) < path_max) where
  pub names : IsNormal (path_of (ss ++ s ∷ []))
  names = (ss ++ s ∷ [], refl, All-append IsName ss (s ∷ []) hs (h, tt))

  last_place : strrchr (some (path_of (ss ++ s ∷ []))) slash ≡ some (length (render ss))
  last_place =
      ap (λ p. strrchr (some p) slash) (render_last ss s)
      ∙ strrchr_lem slash (omega arith) (omega arith) (render ss) s (rendered ss hs)
          (All-map (λ c k. k.0) s h.bytes) (All-map (λ c k. k.1) s h.bytes)
    where
      rendered : (ss : List (List ℕ)) → All IsName ss → IsString (render ss)
      rendered [] k = tt
      rendered (t ∷ ss) k = IsString-IsNormal (render (t ∷ ss)) (t ∷ ss, refl, k)

  name_there : drop (length (render ss) + 1) (path_of (ss ++ s ∷ [])) ≡ s
  name_there =
      ap (λ p. drop (length (render ss) + 1) p) (render_last ss s)
      ∙ ap (λ n. drop n (render ss ++ slash ∷ s)) plus
      ∙ drop_past (render ss) s slash
    where
      plus : length (render ss) + 1 ≡ suc (length (render ss))
      plus = omega arith

  is_name : (length s == 0) ≡ false
  is_name = ground (arith, h.nonempty)

  is_short : ltb name_max (length s) ≡ false
  is_short = ground (arith, h.short)

  -- The directory is the path of the other names, and the name is the last one.
  pub split_path_lem : split_path (path_of (ss ++ s ∷ [])) ≡ value (path_of ss, s)
  unfolding split_path
  split_path_lem =
      simp (last_place, split_path, name_there, is_name, is_short)
        (the_parts ss s (
          omega (
            arith,
            short,
            ap length (render_last ss s),
            length-append {0} (render ss) (slash ∷ s),
          )))
