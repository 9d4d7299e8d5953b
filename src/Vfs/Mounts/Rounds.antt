-- ===== src/Vfs/Mounts/Rounds.antt =====
-- `VFS_Mount` followed by `VFS_GetMount`, `VFS_Unmount` and `VFS_Resolve`.
use mathlib.Core.List.{append-nil}
use atom_os.Prelude.{
  ℕ, ◌≡◌, ◌∙◌, ap, sym, subst, refl, true, false, Option, none, some, List, [], ◌∷◌, ◌++◌,
  Bool-cases, inl, inr, ◌⊎◌,
}
use atom_os.Strings.{IsString}
use atom_os.Vfs.Result.{VfsResult, value}
use atom_os.Vfs.Path.{slash}
use atom_os.Vfs.Text.{same_text, same_text_refl}
use atom_os.Vfs.State.{Vfs, VfsMount, Lookup, granted, spend}
use atom_os.Vfs.Cache.{vfs_cache_insert, vfs_cache_remove_prefix}
use atom_os.Vfs.Cache.Laws.{vfs_cache_insert-Unmoved}
use atom_os.Vfs.Resolve.{vfs_resolve}
use atom_os.Vfs.Resolve.Below.{IsString-IsNormal}
use atom_os.Vfs.Resolve.Laws.{resolve_plain, vfs_resolve-resolve_plain}
use atom_os.Vfs.Mounts.{
  VfsMountParams, Drivers, find_mount, undo_mount, vfs_mount, unmount_normal, vfs_unmount,
  vfs_get_mount,
}
use atom_os.Vfs.Mounts.Laws.{find_mount-append, Entered, Mounted, vfs_mount-Mounted}
use atom_os.Vfs.Mounts.Coherence.{resolve_in-own}
use atom_os.Vfs.Mounts.Keeps.{IsConsistent, prepared, enter_mount-prepared}
use atom_os.Vfs.Mounts.Consistent.{others, vfs_mount-IsConsistent}

same_value : {A : Type 0} {a b : A} → some a ≡ some b → a ≡ b
same_value {a = a} e = ap (λ o. elim o [ none ↦ a | some x ↦ x ]) e

-- What holds of the outcome of a mount that ends.
abbrev AtEnd : (Option VfsMount → Vfs → Type 0) → Option (Option VfsMount × Vfs) → Type 0
AtEnd P none = Unit
AtEnd P (some (o, w)) = P o w

module _ (drivers : Drivers) (v : Vfs) (fs : ℕ) (params : Option VfsMountParams) (target : List ℕ)
    (s : IsString target) (g : granted (spend (spend v)) ≡ true) (m : VfsMount) (w : Vfs)
    (e : vfs_mount drivers v (some target) fs params ≡ some (some m, w)) where
  entry : Entered drivers v fs params target m w
  entry =
      let (o, u, f, k) = vfs_mount-Mounted drivers v fs params target s in
      subst (AtEnd (Mounted drivers v fs params target)) (sym f ∙ e) k

  entered : w ≡ vfs_cache_insert (prepared drivers (spend (spend v)) m g) m.path m.root
  entered = entry.entered ∙ enter_mount-prepared drivers (spend (spend v)) m g

  one_more : w.mounts ≡ v.mounts ++ m ∷ []
  one_more =
      ap (λ u. u.mounts) entered
      ∙ (vfs_cache_insert-Unmoved (prepared drivers (spend (spend v)) m g) m.path m.root).0

  still_ready : w.initialized ≡ true
  still_ready =
      ap (λ u. u.initialized) entered
      ∙ (vfs_cache_insert-Unmoved (prepared drivers (spend (spend v)) m g) m.path m.root).2
      ∙ entry.ready

  is_there : find_mount m.path w.mounts ≡ some (v.mounts, m, [])
  is_there =
      ap (find_mount m.path) one_more
      ∙ find_mount-append m.path v.mounts m [] entry.fresh
          (same_text_refl m.path (IsString-IsNormal m.path entry.normal))

  -- If the list can take one more mount when it comes to that, and `vfs_mount` answers a mount for a string,
  -- then `vfs_get_mount` answers that mount for the same string.
  pub vfs_get_mount-vfs_mount : vfs_get_mount w (some target) ≡ some (some m)
  unfolding vfs_get_mount
  vfs_get_mount-vfs_mount = simp (still_ready, entry.placed, is_there, vfs_get_mount)

  -- If the list can take one more mount when it comes to that, and `vfs_mount` answers a mount for a string,
  -- then `vfs_unmount` of the same string refuses a mount at the root as busy and leaves the state; any other
  -- it takes off, so that the mounts are what they were before.
  pub vfs_unmount-vfs_mount :
      ((same_text m.path (slash ∷ []) ≡ true)
        × (vfs_unmount drivers w (some target) ≡ some (VfsResult.busy, w)))
      ⊎ ((same_text m.path (slash ∷ []) ≡ false)
          × ((u : Vfs) × (vfs_unmount drivers w (some target) ≡ some (VfsResult.ok, u))
              × (u.mounts ≡ v.mounts)))
  vfs_unmount-vfs_mount = elim (Bool-cases (same_text m.path (slash ∷ []))) [
    | inl t ↦ inl (t, runs ∙ ap some (busy t))
    | inr t ↦ inr (t, (taken_off, runs ∙ ap some (ok t), back))
  ]
    where
      runs : vfs_unmount drivers w (some target) ≡ some (unmount_normal drivers w m.path)
      runs = unfold vfs_unmount in simp (still_ready, entry.placed, vfs_unmount)

      busy :
          same_text m.path (slash ∷ []) ≡ true
          → unmount_normal drivers w m.path ≡ (VfsResult.busy, w)
      busy t = unfold unmount_normal in simp (is_there, t, unmount_normal)

      taken_off : Vfs
      taken_off =
          vfs_cache_remove_prefix
            (record (undo_mount drivers w m.fs m.root) { mounts = v.mounts ++ [] }) m.path

      ok :
          same_text m.path (slash ∷ []) ≡ false
          → unmount_normal drivers w m.path ≡ (VfsResult.ok, taken_off)
      ok t = unfold unmount_normal in simp (is_there, t, unmount_normal)

      back : taken_off.mounts ≡ v.mounts
      back = unfold vfs_cache_remove_prefix in append-nil v.mounts

  -- If besides the mounts were at distinct normal paths, the cache was coherent, and there is a root mount,
  -- then `vfs_resolve` of the same string answers the root of the new mount.
  pub vfs_resolve-vfs_mount :
      (lookup : Lookup)
      → IsConsistent lookup v
      → (k : VfsMount) → w.root_mount ≡ some k
      → (u : Vfs) × (vfs_resolve lookup w (some target) ≡ some (value m.root, u))
  vfs_resolve-vfs_mount lookup c k r =
      let (o, u', f, d) = vfs_mount-IsConsistent lookup drivers v c target fs params s g in
      let after = subst (AtEnd (λ o u. IsConsistent lookup u)) (sym f ∙ e) d in
      let (a, u, runs, plain, rest, d) =
        vfs_resolve-resolve_plain lookup w (some target) after.coherent s in
      (u, runs ∙ ap (λ x. some (x, u)) (same_value (sym plain ∙ resolves)))
    where
      resolves : resolve_plain lookup w (some target) ≡ some (value m.root)
      resolves =
          unfold resolve_plain in
          simp (still_ready, r, entry.placed, resolve_plain, one_more)
            (resolve_in-own lookup v.mounts m w.parents entry.normal (
              others lookup drivers v c m (spend (spend v)) entry.normal entry.fresh
                (refl, refl, refl, refl) g))
