-- ===== src/Vfs/Mounts/Laws.antt =====
-- What mounting and unmounting do to the mounts.
use atom_os.Prelude.{
  ℕ, ◌≡◌, ap, sym, subst, refl, true, false, ◌&&◌, Option, none, some, List, [], ◌∷◌, ◌++◌, arith,
  All, Bool-cases, inl, inr,
}
use atom_os.Strings.{IsString}
use atom_os.Vfs.Result.{Outcome, value, fails}
use atom_os.Vfs.Path.{path_max, vfs_normalize_path}
use atom_os.Vfs.Path.Canon.{IsNormal}
use atom_os.Vfs.Path.Laws.{Normalized, vfs_normalize_path_lem}
use atom_os.Vfs.Text.{same_text}
use atom_os.Vfs.State.{Vfs, VfsMount, granted, spend, is_ok}
use atom_os.Vfs.Mounts.{
  VfsMountParams, Drivers, find_mount, undo_mount, enter_mount, flags_of, install_mount,
  mount_normal, vfs_mount,
}

abbrev Split : Type 0
Split = List VfsMount × VfsMount × List VfsMount

-- Where no mount is found, none has the path; a mount that is found is the first with it.
abbrev pub Found :
    List ℕ → List VfsMount → Option (List VfsMount × VfsMount × List VfsMount) → Type 0
Found path ms none = All (λ m. same_text m.path path ≡ false) ms
Found path ms (some (before, m, after)) =
    (ms ≡ before ++ m ∷ after)
    × All (λ k. same_text k.path path ≡ false) before
    × (same_text m.path path ≡ true)

module _ (path : List ℕ) (m : VfsMount) (ms : List VfsMount) where
  find_mount-here : same_text m.path path ≡ true → find_mount path (m ∷ ms) ≡ some ([], m, ms)
  unfolding find_mount
  find_mount-here t = rw (t, find_mount)

  find_mount-later :
      same_text m.path path ≡ false
      → (o : Option Split) → find_mount path ms ≡ o
      → Found path ms o
      → Found path (m ∷ ms) (find_mount path (m ∷ ms))
  unfolding find_mount
  find_mount-later t none e k = rw (t, find_mount) (rw (e, find_mount) (t, k))
  find_mount-later t (some (before, n, after)) e k =
      rw (t, find_mount) (rw (e, find_mount) (ap (λ x. m ∷ x) k.0, (t, k.1), k.2))

pub find_mount-Found : (path : List ℕ) (ms : List VfsMount) → Found path ms (find_mount path ms)
find_mount-Found path [] = unfold find_mount in tt
find_mount-Found path (m ∷ ms) = elim (Bool-cases (same_text m.path path)) [
  | inl t ↦ subst (Found path (m ∷ ms)) (sym (find_mount-here path m ms t)) (refl, tt, t)
  | inr t ↦ find_mount-later path m ms t (find_mount path ms) refl (find_mount-Found path ms)
]

-- Whatever stands in front of the first mount of a path, it is found.
pub find_mount-append :
    (path : List ℕ) (ms : List VfsMount) (m : VfsMount) (ns : List VfsMount)
    → All (λ k. same_text k.path path ≡ false) ms
    → same_text m.path path ≡ true
    → find_mount path (ms ++ m ∷ ns) ≡ some (ms, m, ns)
unfolding find_mount
find_mount-append path [] m ns h t = find_mount-here path m ns t
find_mount-append path (k ∷ ms) m ns h t =
    rw (h.0, find_mount) (rw (find_mount-append path ms m ns h.1 t, find_mount))

-- What a mount that fails leaves as it was.
abbrev pub Unchanged : Vfs → Vfs → Type 0
Unchanged v w =
    (w.mounts ≡ v.mounts)
    × (w.parents ≡ v.parents)
    × (w.cache ≡ v.cache)
    × (w.root_mount ≡ v.root_mount)

module _ (drivers : Drivers) (v : Vfs) (fs : ℕ) (params : Option VfsMountParams)
    (target : List ℕ) where
  pub undo_mount-Unchanged :
      (u : Vfs) (root : ℕ) → Unchanged v u → Unchanged v (undo_mount drivers u fs root)
  unfolding undo_mount
  undo_mount-Unchanged u root h = elim (Bool-cases (drivers.has_unmount fs)) [
    | inl t ↦ rw t h
    | inr t ↦ rw t h
  ]

  -- A mount at a normal path that no mount had, with the node that the driver has answered.
  pub record Entered (m : VfsMount) (w : Vfs) : Type 0 where
    pub ready : v.initialized ≡ true
    pub placed : vfs_normalize_path (some target) path_max ≡ some (value m.path)
    pub normal : IsNormal m.path
    pub fresh : All (λ k. same_text k.path m.path ≡ false) v.mounts
    pub system : m.fs ≡ fs
    pub flagged : m.flags ≡ flags_of drivers params
    pub answered : (drivers.mount fs params).1 ≡ some m.root
    pub well : is_ok (drivers.mount fs params).0 ≡ true
    pub stored : granted v && granted (spend v) ≡ true
    pub entered : w ≡ enter_mount drivers (spend (spend v)) m

  abbrev pub Mounted : Option VfsMount → Vfs → Type 0
  Mounted none w = Unchanged v w
  Mounted (some m) w = Entered m w

  module _ (path : List ℕ) (i : IsNormal path) (ready : v.initialized ≡ true)
      (n : vfs_normalize_path (some target) path_max ≡ some (value path)) where
    install_mount-Mounted :
        (root : ℕ)
        → All (λ k. same_text k.path path ≡ false) v.mounts
        → (drivers.mount fs params).1 ≡ some root
        → is_ok (drivers.mount fs params).0 ≡ true
        → Mounted
            (install_mount drivers v path fs params root).0
            (install_mount drivers v path fs params root).1
    unfolding install_mount
    install_mount-Mounted root h e o = elim (Bool-cases (granted v)) [
      | inl t ↦ elim (Bool-cases (granted (spend v))) [
        | inl u ↦
            rw (t, u)
              (record {
                ready = ready;
                placed = n;
                normal = i;
                fresh = h;
                system = refl;
                flagged = refl;
                answered = e;
                well = o;
                stored = rw (t, u);
                entered = refl;
              })
        | inr u ↦ rw (t, u) (undo_mount-Unchanged (spend (spend v)) root (refl, refl, refl, refl))
      ]
      | inr t ↦ rw t (undo_mount-Unchanged (spend v) root (refl, refl, refl, refl))
    ]

    mount_free :
        (answer : Option ℕ)
        → (drivers.mount fs params).1 ≡ answer
        → find_mount path v.mounts ≡ none
        → All (λ k. same_text k.path path ≡ false) v.mounts
        → Mounted
            (mount_normal drivers v path fs params).0
            (mount_normal drivers v path fs params).1
    unfolding mount_normal
    mount_free none e n h = rw (n, e, mount_normal) (refl, refl, refl, refl)
    mount_free (some root) e n h = elim (Bool-cases (is_ok (drivers.mount fs params).0)) [
      | inl o ↦ rw (n, e, o, mount_normal) (install_mount-Mounted root h e o)
      | inr o ↦ rw (n, e, o, mount_normal) (refl, refl, refl, refl)
    ]

    mount_found :
        (o : Option Split)
        → find_mount path v.mounts ≡ o
        → Found path v.mounts o
        → Mounted
            (mount_normal drivers v path fs params).0
            (mount_normal drivers v path fs params).1
    unfolding mount_normal
    mount_found none e k = mount_free (drivers.mount fs params).1 refl e k
    mount_found (some found) e k = rw (e, mount_normal) (refl, refl, refl, refl)

    mount_normal-Mounted :
        Mounted (mount_normal drivers v path fs params).0 (mount_normal drivers v path fs params).1
    mount_normal-Mounted =
        mount_found (find_mount path v.mounts) refl (find_mount-Found path v.mounts)

  -- `vfs_mount` ends. Where it answers no mount, the mounts, the parents, the cache and the root mount
  -- are as before; otherwise the mount is at the normal form of the target, which no mount had, carries the
  -- driver's node, the file system and the flags that were given, and has been entered.
  pub vfs_mount-Mounted :
      IsString target
      → (o : Option VfsMount) × (w : Vfs) × (vfs_mount drivers v (some target) fs params
          ≡ some (o, w))
        × Mounted o w
  vfs_mount-Mounted s = elim (Bool-cases (v.initialized && drivers.has_mount fs)) [
    | inl t ↦
        at (vfs_normalize_path (some target) path_max) refl t
          (vfs_normalize_path_lem target path_max s (omega arith))
    | inr t ↦ (none, v, unfold vfs_mount in simp t, (refl, refl, refl, refl))
  ]
    where
      is_ready : v.initialized && drivers.has_mount fs ≡ true → v.initialized ≡ true
      is_ready t = ground (arith, t)

      at :
          (o : Option (Outcome (List ℕ)))
          → vfs_normalize_path (some target) path_max ≡ o
          → v.initialized && drivers.has_mount fs ≡ true
          → Normalized path_max o
          → (a : Option VfsMount) × (w : Vfs) × (vfs_mount drivers v (some target) fs params
              ≡ some (a, w))
            × Mounted a w
      at none e t k = absurd k
      at (some (fails r)) e t k =
          (none, v, unfold vfs_mount in simp (t, e, vfs_mount), (refl, refl, refl, refl))
      at (some (value path)) e t k = (
        (mount_normal drivers v path fs params).0,
        (mount_normal drivers v path fs params).1,
        unfold vfs_mount in simp (t, e, vfs_mount),
        mount_normal-Mounted path k.0 (is_ready t) e,
      )
