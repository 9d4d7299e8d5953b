-- ===== src/Vfs/Mounts/Keeps.antt =====
-- Consistency of the mounts and the cache, and what carries it over a change of the mounts.
use atom_os.Prelude.{
  ℕ, ◌≡◌, ◌≢◌, ◌∙◌, sym, subst, true, false, Option, none, some, List, [], ◌∷◌, ◌++◌, ◌==◌,
  if◌then◌else◌, All, All-append, All-parts, Bool-cases, inl, inr,
}
use atom_os.Vfs.Path.{slash}
use atom_os.Vfs.Path.Canon.{IsNormal}
use atom_os.Vfs.Text.{same_text}
use atom_os.Vfs.State.{Vfs, VfsMount, CacheEntry, Lookup, granted, spend}
use atom_os.Vfs.Cache.{path_is_under, without_prefix, vfs_cache_remove_prefix, vfs_cache_insert}
use atom_os.Vfs.Resolve.Below.{resolve_in-parents}
use atom_os.Vfs.Resolve.Laws.{Holds, Coherent}
use atom_os.Vfs.Mounts.{Drivers, add_mount, vfs_attach_mount_to_tree, enter_mount}
use atom_os.Vfs.Mounts.Laws.{Unchanged}
use atom_os.Vfs.Mounts.Coherence.{resolve_in-skip}

-- No two mounts have the same path.
abbrev pub Distinct : List VfsMount → Type 0
Distinct [] = Unit
Distinct (m ∷ ms) = All (λ k. k.path ≢ m.path) ms × Distinct ms

pub Distinct-snoc :
    (ms : List VfsMount) (m : VfsMount)
    → Distinct ms
    → All (λ k. k.path ≢ m.path) ms
    → Distinct (ms ++ m ∷ [])
Distinct-snoc [] m h k = (tt, tt)
Distinct-snoc (x ∷ ms) m h k = (
  All-append (λ y. y.path ≢ x.path) ms (m ∷ []) h.0 (λ e. k.0 (sym e), tt),
  Distinct-snoc ms m h.1 k.1,
)

pub Distinct-without :
    (before : List VfsMount) (m : VfsMount) (after : List VfsMount)
    → Distinct (before ++ m ∷ after)
    → Distinct (before ++ after)
Distinct-without [] m after h = h.1
Distinct-without (x ∷ before) m after h =
    let k = All-parts (λ y. y.path ≢ x.path) before m after h.0 in
    (All-append (λ y. y.path ≢ x.path) before after k.0 k.2, Distinct-without before m after h.1)

pub record IsConsistent (lookup : Lookup) (v : Vfs) : Type 0 where
  pub normal : All (λ m. IsNormal m.path) v.mounts
  pub distinct : Distinct v.mounts
  pub coherent : Coherent lookup v

module _ (lookup : Lookup) where
  pub IsConsistent-Unchanged :
      (v w : Vfs) → Unchanged v w → IsConsistent lookup v → IsConsistent lookup w
  IsConsistent-Unchanged v w u c = record {
    normal = subst (All (λ m. IsNormal m.path)) (sym u.0) c.normal;
    distinct = subst Distinct (sym u.0) c.distinct;
    coherent = subst (All (Holds lookup w.mounts w.parents)) (sym u.2) (
        subst (λ ms. All (Holds lookup ms w.parents) v.cache) (sym u.0)
          (subst (λ ps. All (Holds lookup v.mounts ps) v.cache) (sym u.1) c.coherent));
  }

  -- Entries off the path of `m` hold the same nodes, whether `m` is there or not, for all parents.
  module _ (before : List VfsMount) (m : VfsMount) (after : List VfsMount)
      (i : IsNormal m.path) where
    pub Holds-added :
        (ps qs : ℕ → Option ℕ) (e : CacheEntry)
        → All (λ k. IsNormal k.path) (before ++ after)
        → Holds lookup (before ++ after) ps e × (path_is_under e.path m.path ≡ false)
        → Holds lookup (before ++ m ∷ after) qs e
    unfolding Holds
    Holds-added ps qs e n ((j, h), u) = (
      j,
      resolve_in-skip lookup before m after qs e.path i u
          ∙ resolve_in-parents lookup (before ++ after) qs ps e.path n j
          ∙ h,
    )

    pub Holds-removed :
        (ps : ℕ → Option ℕ) (e : CacheEntry)
        → Holds lookup (before ++ m ∷ after) ps e × (path_is_under e.path m.path ≡ false)
        → Holds lookup (before ++ after) ps e
    unfolding Holds
    Holds-removed ps e ((j, h), u) =
        (j, sym (resolve_in-skip lookup before m after ps e.path i u) ∙ h)

module _ (drivers : Drivers) (v : Vfs) (m : VfsMount) (g : granted v ≡ true) where
  -- The state in which the new entry goes into the cache.
  abbrev pub prepared : Vfs
  prepared = record (spend v) {
    mounts = v.mounts ++ m ∷ [];
    parents = λ n. if n == m.root then none else v.parents n;
    root_mount = if same_text m.path (slash ∷ []) then some m else v.root_mount;
    cache = without_prefix m.path v.cache;
  }

  pub enter_mount-prepared : enter_mount drivers v m ≡ vfs_cache_insert prepared m.path m.root
  unfolding enter_mount add_mount vfs_attach_mount_to_tree vfs_cache_remove_prefix
  enter_mount-prepared = elim (Bool-cases (same_text m.path (slash ∷ []))) [
    | inl t ↦ simp (g, t)
    | inr t ↦ simp (g, t)
  ]
