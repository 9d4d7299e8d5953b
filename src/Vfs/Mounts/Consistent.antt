-- ===== src/Vfs/Mounts/Consistent.antt =====
-- `VFS_Mount` and `VFS_Unmount` on a consistent state.
use mathlib.Core.List.{append-nil}
use atom_os.Prelude.{
  ℕ, ◌≡◌, ◌≢◌, ◌∙◌, sym, subst, refl, true, false, Option, none, some, List, [], ◌∷◌, ◌++◌, arith,
  All, All-append, All-parts, All-map, Bool-cases, inl, inr,
}
use atom_os.Strings.{IsString}
use atom_os.Vfs.Result.{VfsResult, Outcome, value, fails}
use atom_os.Vfs.Path.{slash, path_max, vfs_normalize_path}
use atom_os.Vfs.Path.Canon.{IsNormal}
use atom_os.Vfs.Path.Laws.{Normalized, vfs_normalize_path_lem}
use atom_os.Vfs.Text.{same_text, same_text_iff, same_text_refl}
use atom_os.Vfs.State.{Vfs, VfsMount, Lookup, granted, spend}
use atom_os.Vfs.Cache.{without_prefix, vfs_cache_remove_prefix, vfs_cache_insert}
use atom_os.Vfs.Cache.Laws.{vfs_cache_insert-All, vfs_cache_insert-Unmoved, without_prefix-All}
use atom_os.Vfs.Resolve.Below.{IsString-IsNormal}
use atom_os.Vfs.Resolve.Laws.{Holds}
use atom_os.Vfs.Mounts.{
  VfsMountParams, Drivers, find_mount, undo_mount, enter_mount, vfs_mount, unmount_normal,
  vfs_unmount,
}
use atom_os.Vfs.Mounts.Laws.{
  Found, find_mount-Found, Mounted, Unchanged, undo_mount-Unchanged, vfs_mount-Mounted,
}
use atom_os.Vfs.Mounts.Coherence.{Other, resolve_in-own}
use atom_os.Vfs.Mounts.Keeps.{
  Distinct, Distinct-snoc, Distinct-without, IsConsistent, IsConsistent-Unchanged, Holds-added,
  Holds-removed, prepared, enter_mount-prepared,
}

-- What `same_text` tells apart is different.
different_path : (p q : List ℕ) → IsNormal q → same_text p q ≡ false → p ≢ q
different_path p q i e h =
    clash e (subst (λ x. same_text x q ≡ true) (sym h) (same_text_refl q (IsString-IsNormal q i)))
  where
    clash : same_text p q ≡ false → same_text p q ≡ true → ⊥
    clash x y = cc

module _ (lookup : Lookup) (drivers : Drivers) (v : Vfs) (c : IsConsistent lookup v) where
  module _ (m : VfsMount) (u : Vfs) (i : IsNormal m.path)
      (h : All (λ k. same_text k.path m.path ≡ false) v.mounts) (same : Unchanged v u)
      (g : granted u ≡ true) where
    pub others : All (Other m.path) u.mounts
    others = subst (All (Other m.path)) (sym same.0) (both v.mounts c.normal h)
      where
        both :
            (ms : List VfsMount)
            → All (λ k. IsNormal k.path) ms
            → All (λ k. same_text k.path m.path ≡ false) ms
            → All (Other m.path) ms
        both [] a b = tt
        both (k ∷ ms) a b = ((a.0, b.0), both ms a.1 b.1)

    old_entries :
        All
          (Holds lookup (prepared drivers u m g).mounts (prepared drivers u m g).parents)
          (prepared drivers u m g).cache
    old_entries =
        let d = IsConsistent-Unchanged lookup v u same c in
        let whole = append-nil u.mounts in
        All-map
          (λ e k.
            Holds-added lookup u.mounts m [] i u.parents (prepared drivers u m g).parents e
              (subst (All (λ k. IsNormal k.path)) (sym whole) d.normal)
              (subst (λ ms. Holds lookup ms u.parents e) (sym whole) k.0, k.1))
          (without_prefix m.path u.cache)
          (without_prefix-All (Holds lookup u.mounts u.parents) m.path u.cache d.coherent)

    enter_mount-IsConsistent : IsConsistent lookup (enter_mount drivers u m)
    enter_mount-IsConsistent =
        subst (IsConsistent lookup) (sym (enter_mount-prepared drivers u m g)) after
      where
        after : IsConsistent lookup (vfs_cache_insert (prepared drivers u m g) m.path m.root)
        after =
            let d = IsConsistent-Unchanged lookup v u same c in
            let p = prepared drivers u m g in
            let unmoved = vfs_cache_insert-Unmoved p m.path m.root in
            record {
              normal =
                  subst (All (λ k. IsNormal k.path)) (sym unmoved.0)
                    (All-append (λ k. IsNormal k.path) u.mounts (m ∷ []) d.normal (i, tt));
              distinct = subst Distinct (sym unmoved.0) (
                  Distinct-snoc u.mounts m d.distinct
                    (All-map (λ k o. different_path k.path m.path i o.1) u.mounts others));
              coherent =
                  subst
                    (λ ms.
                      All (Holds lookup ms (vfs_cache_insert p m.path m.root).parents)
                        (vfs_cache_insert p m.path m.root).cache)
                    (sym unmoved.0)
                    (subst
                      (λ ps.
                        All (Holds lookup p.mounts ps) (vfs_cache_insert p m.path m.root).cache)
                      (sym unmoved.1)
                      (vfs_cache_insert-All (Holds lookup p.mounts p.parents) p m.path m.root
                        (unfold Holds in (i, resolve_in-own lookup u.mounts m p.parents i others))
                        old_entries));
            }

  -- If the mounts are at distinct normal paths, the cache is coherent, and the list can take one more
  -- mount when it comes to that, then `vfs_mount` ends in a state of which the same holds, whatever the
  -- driver answers and whatever fails before.
  pub vfs_mount-IsConsistent :
      (target : List ℕ) (fs : ℕ) (params : Option VfsMountParams)
      → IsString target
      → granted (spend (spend v)) ≡ true
      → (o : Option VfsMount) × (w : Vfs) × (vfs_mount drivers v (some target) fs params
          ≡ some (o, w))
        × IsConsistent lookup w
  vfs_mount-IsConsistent target fs params s g =
      let (o, w, e, k) = vfs_mount-Mounted drivers v fs params target s in (o, w, e, kept o w k)
    where
      kept :
          (o : Option VfsMount) (w : Vfs)
          → Mounted drivers v fs params target o w
          → IsConsistent lookup w
      kept none w k = IsConsistent-Unchanged lookup v w k c
      kept (some m) w k =
          subst (IsConsistent lookup) (sym k.entered) (
            enter_mount-IsConsistent m (spend (spend v)) k.normal k.fresh (refl, refl, refl, refl)
              g)

  module _ (path : List ℕ) (i : IsNormal path) (before : List VfsMount) (m : VfsMount)
      (after : List VfsMount) (k : Found path v.mounts (some (before, m, after))) where
    parts : All (λ n. IsNormal n.path) before × IsNormal m.path × All (λ n. IsNormal n.path) after
    parts =
        All-parts (λ n. IsNormal n.path) before m after
          (subst (All (λ n. IsNormal n.path)) k.0 c.normal)

    at_path : path ≡ m.path
    at_path = sym (
        (same_text_iff m.path path (IsString-IsNormal m.path parts.1) (IsString-IsNormal path i)).0
          k.2)

    without_mount :
        (u : Vfs)
        → Unchanged v u
        → IsConsistent lookup (vfs_cache_remove_prefix (record u { mounts = before ++ after }) path)
    unfolding vfs_cache_remove_prefix
    without_mount u same =
        let d = IsConsistent-Unchanged lookup v u same c in
        let whole : u.mounts ≡ before ++ m ∷ after = same.0 ∙ k.0 in
        record {
          normal = All-append (λ n. IsNormal n.path) before after parts.0 parts.2;
          distinct = Distinct-without before m after (subst Distinct whole d.distinct);
          coherent =
              subst (λ q. All (Holds lookup (before ++ after) u.parents) (without_prefix q u.cache))
                (sym at_path)
                (All-map (Holds-removed lookup before m after parts.1 u.parents)
                  (without_prefix m.path u.cache)
                  (without_prefix-All (Holds lookup (before ++ m ∷ after) u.parents) m.path u.cache
                    (subst (λ ms. All (Holds lookup ms u.parents) u.cache) whole d.coherent)));
        }

    unmount_found :
        find_mount path v.mounts ≡ some (before, m, after)
        → IsConsistent lookup (unmount_normal drivers v path).1
    unfolding unmount_normal
    unmount_found e = elim (Bool-cases (same_text m.path (slash ∷ []))) [
      | inl t ↦ simp (e, t, unmount_normal) c
      | inr t ↦
          simp (e, t, unmount_normal)
            (without_mount (undo_mount drivers v m.fs m.root)
              (undo_mount-Unchanged drivers v m.fs none path v m.root (refl, refl, refl, refl)))
    ]

  unmount_normal-IsConsistent :
      (path : List ℕ)
      → IsNormal path
      → (o : Option (List VfsMount × VfsMount × List VfsMount)) → find_mount path v.mounts ≡ o
      → Found path v.mounts o
      → IsConsistent lookup (unmount_normal drivers v path).1
  unfolding unmount_normal
  unmount_normal-IsConsistent path i none e k = simp (e, unmount_normal) c
  unmount_normal-IsConsistent path i (some (before, m, after)) e k =
      unmount_found path i before m after k e

  -- If the mounts are at distinct normal paths and the cache is coherent, then `vfs_unmount` ends, for
  -- every target that is a string, in a state of which the same holds.
  pub vfs_unmount-IsConsistent :
      (target : List ℕ)
      → IsString target
      → (r : VfsResult) × (w : Vfs) × (vfs_unmount drivers v (some target) ≡ some (r, w))
        × IsConsistent lookup w
  vfs_unmount-IsConsistent target s = elim (Bool-cases v.initialized) [
    | inl t ↦
        at (vfs_normalize_path (some target) path_max) refl t
          (vfs_normalize_path_lem target path_max s (omega arith))
    | inr t ↦ (VfsResult.invalid, v, unfold vfs_unmount in simp t, c)
  ]
    where
      at :
          (o : Option (Outcome (List ℕ)))
          → vfs_normalize_path (some target) path_max ≡ o
          → v.initialized ≡ true
          → Normalized path_max o
          → (r : VfsResult) × (w : Vfs) × (vfs_unmount drivers v (some target) ≡ some (r, w))
            × IsConsistent lookup w
      at none e t k = absurd k
      at (some (fails r)) e t k = (r, v, unfold vfs_unmount in simp (t, e, vfs_unmount), c)
      at (some (value path)) e t k = (
        (unmount_normal drivers v path).0,
        (unmount_normal drivers v path).1,
        unfold vfs_unmount in simp (t, e, vfs_unmount),
        unmount_normal-IsConsistent path k.0 (find_mount path v.mounts) refl
            (find_mount-Found path v.mounts),
      )
