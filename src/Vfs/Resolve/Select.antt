-- ===== src/Vfs/Resolve/Select.antt =====
-- Which mount `vfs_select_mount` takes.
use atom_os.Prelude.{
  ℕ, ◌-◌, ◌≡◌, ◌<◌, ◌∙◌, ap, sym, subst, refl, true, false, Option, none, some, List, [], ◌∷◌, ◌++◌,
  arith, ltb, length, get_or, All, Bool-cases, inl, inr,
}
use atom_os.Vfs.Path.{slash}
use atom_os.Vfs.Path.Canon.{IsNormal}
use atom_os.Vfs.State.{VfsMount}
use atom_os.Vfs.Cache.{path_is_under}
use atom_os.Vfs.Resolve.{mount_matches, better, select_loop, vfs_select_mount}

-- A mount that does not match makes no difference.
pub select_loop-skip :
    (path : List ℕ) (best : Option VfsMount) (ms : List VfsMount) (m : VfsMount)
    (ns : List VfsMount)
    → mount_matches path m ≡ false
    → select_loop path best (ms ++ m ∷ ns) ≡ select_loop path best (ms ++ ns)
unfolding select_loop
select_loop-skip path best [] m ns e = ap (λ b. select_loop path b ns) (passed e)
  where
    passed : mount_matches path m ≡ false → better path best m ≡ best
    passed e = unfold better in rw e
select_loop-skip path best (k ∷ ms) m ns e = select_loop-skip path (better path best k) ms m ns e

-- The path of a mount is absolute.
pub IsNormal-head : (p : List ℕ) → IsNormal p → get_or p 0 0 ≡ slash
IsNormal-head p ([], e, h) = ap (λ x. get_or x 0 0) e
IsNormal-head p (s ∷ ss, e, h) = ap (λ x. get_or x 0 0) e

pub IsNormal-nonempty : (p : List ℕ) → IsNormal p → 0 < length p
IsNormal-nonempty p ([], e, h) = subst (λ x. 0 < length x) (sym e) (omega arith)
IsNormal-nonempty p (s ∷ ss, e, h) = subst (λ x. 0 < length x) (sym e) (omega arith)

-- A mount that matches a path has the path under its own.
pub under_of_matches :
    (path : List ℕ) (m : VfsMount)
    → IsNormal m.path
    → path_is_under path m.path ≡ false
    → mount_matches path m ≡ false
unfolding path_is_under mount_matches
under_of_matches path m i e =
    ground (arith, e, IsNormal-head m.path i, IsNormal-nonempty m.path i, last)
  where
    last : length m.path ≡ 1 → get_or m.path (length m.path - 1) 0 ≡ slash
    last q = ap (λ k. get_or m.path (k - 1) 0) q ∙ IsNormal-head m.path i

-- What is taken matches the path, and is one of the mounts.
module _ (Q : VfsMount → Type 0) (path : List ℕ) where
  abbrev pub Taken : Option VfsMount → Type 0
  Taken none = Unit
  Taken (some m) = Q m × (mount_matches path m ≡ true)

  better-Taken :
      (best : Option VfsMount) (m : VfsMount) → Taken best → Q m → Taken (better path best m)
  unfolding better
  better-Taken none m t q = elim (Bool-cases (mount_matches path m)) [
    | inl e ↦ rw e (q, e)
    | inr e ↦ rw e tt
  ]
  better-Taken (some b) m t q = elim (Bool-cases (mount_matches path m)) [
    | inl e ↦ elim (Bool-cases (ltb (length b.path) (length m.path))) [
      | inl l ↦ rw e (rw l (q, e))
      | inr l ↦ rw e (rw l t)
    ]
    | inr e ↦ rw e t
  ]

  select_loop-Taken :
      (best : Option VfsMount) (ms : List VfsMount)
      → Taken best
      → All Q ms
      → Taken (select_loop path best ms)
  select_loop-Taken best [] t h = unfold select_loop in t
  select_loop-Taken best (m ∷ ms) t h =
      subst Taken (sym unrolled)
        (select_loop-Taken (better path best m) ms (better-Taken best m t h.0) h.1)
    where
      unrolled : select_loop path best (m ∷ ms) ≡ select_loop path (better path best m) ms
      unrolled = unfold select_loop in refl

  pub vfs_select_mount-Taken : (ms : List VfsMount) → All Q ms → Taken (vfs_select_mount ms path)
  unfolding vfs_select_mount
  vfs_select_mount-Taken ms h = select_loop-Taken none ms tt h

-- A mount at the end that matches, and is longer than the one taken before, is taken.
select_loop-append :
    (path : List ℕ) (best : Option VfsMount) (ms : List VfsMount) (m : VfsMount)
    → select_loop path best (ms ++ m ∷ []) ≡ better path (select_loop path best ms) m
unfolding select_loop
select_loop-append path best [] m = refl
select_loop-append path best (k ∷ ms) m = select_loop-append path (better path best k) ms m

abbrev pub Shorter : ℕ → Option VfsMount → Type 0
Shorter n none = Unit
Shorter n (some b) = length b.path < n

pub vfs_select_mount-last :
    (path : List ℕ) (ms : List VfsMount) (m : VfsMount)
    → mount_matches path m ≡ true
    → Shorter (length m.path) (vfs_select_mount ms path)
    → vfs_select_mount (ms ++ m ∷ []) path ≡ some m
unfolding vfs_select_mount
vfs_select_mount-last path ms m e s =
    select_loop-append path none ms m ∙ wins (select_loop path none ms) s
  where
    wins : (o : Option VfsMount) → Shorter (length m.path) o → better path o m ≡ some m
    wins none s = unfold better in rw e
    wins (some b) s =
        unfold better in
        (let l : ltb (length b.path) (length m.path) ≡ true = ground (arith, s) in rw e (rw l))
