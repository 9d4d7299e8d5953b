-- ===== src/Vfs/Mounts/Coherence.antt =====
-- How resolution sees a single mount.
use atom_os.Prelude.{
  ℕ, ◌≡◌, ◌∙◌, ap, sym, refl, true, false, Option, none, some, List, [], ◌∷◌, ◌++◌, arith, length,
  take, take_all, drop, get_or, All, Bool-cases, inl, inr,
}
use atom_os.Vfs.Result.{value}
use atom_os.Vfs.Path.{slash}
use atom_os.Vfs.Path.Canon.{IsNormal}
use atom_os.Vfs.Text.{same_text, has_prefix, same_text_iff, has_prefix_iff}
use atom_os.Vfs.State.{VfsMount, Lookup}
use atom_os.Vfs.Cache.{path_is_under}
use atom_os.Vfs.Resolve.{
  mount_matches, skip_one, relative, below_mount, resolve_in, vfs_select_mount,
}
use atom_os.Vfs.Resolve.Select.{
  select_loop-skip, under_of_matches, Taken, vfs_select_mount-Taken, Shorter, vfs_select_mount-last,
}
use atom_os.Vfs.Resolve.Below.{IsString-IsNormal}

drop_all : (p : List ℕ) → drop (length p) p ≡ []
drop_all [] = refl
drop_all (c ∷ p) = drop_all p

-- What the path of a mount has to be, to be told apart from `path`.
abbrev pub Other : List ℕ → VfsMount → Type 0
Other path m = IsNormal m.path × (same_text m.path path ≡ false)

-- A mount at the very path matches it.
matches_itself : (m : VfsMount) → IsNormal m.path → mount_matches m.path m ≡ true
unfolding mount_matches
matches_itself m i = ground (
  arith,
  (has_prefix_iff m.path m.path (IsString-IsNormal m.path i) (IsString-IsNormal m.path i)).1
      (take_all m.path),
  ended m.path,
)
  where
    ended : (p : List ℕ) → get_or p (length p) 0 ≡ 0
    ended [] = refl
    ended (c ∷ p) = ended p

-- A mount of another path that matches is shorter.
Shorter-other :
    (path : List ℕ) (o : Option VfsMount)
    → IsNormal path
    → Taken (Other path) path o
    → Shorter (length path) o
unfolding mount_matches
Shorter-other path none i t = tt
Shorter-other path (some b) i t =
    let sb = IsString-IsNormal b.path t.0.0 in
    let sp = IsString-IsNormal path i in
    let whole : length b.path ≡ length path → ⊥ = λ e. different t.0.1 (
      (same_text_iff b.path path sb sp).1 (
        sym ((has_prefix_iff path b.path sp sb).0 (prefixed t.1))
        ∙ ap (λ n. take n path) e
        ∙ take_all path)) in
    ground (arith, t.1, whole)
  where
    prefixed : mount_matches path b ≡ true → has_prefix path b.path ≡ true
    prefixed e = ground (arith, e)

    different : same_text b.path path ≡ false → same_text b.path path ≡ true → ⊥
    different x y = cc

module _ (lookup : Lookup) where
  -- A mount that has not the path under its own makes no difference.
  pub resolve_in-skip :
      (before : List VfsMount) (m : VfsMount) (after : List VfsMount) (ps : ℕ → Option ℕ)
      (p : List ℕ)
      → IsNormal m.path
      → path_is_under p m.path ≡ false
      → resolve_in lookup (before ++ m ∷ after) ps p ≡ resolve_in lookup (before ++ after) ps p
  unfolding resolve_in vfs_select_mount
  resolve_in-skip before m after ps p i e = simp (
    select_loop-skip p none before m after (under_of_matches p m i e),
    resolve_in,
    vfs_select_mount,
  )

  -- Below its own path, a mount has its root.
  own_root :
      (ps : ℕ → Option ℕ) (m : VfsMount)
      → IsNormal m.path
      → below_mount lookup ps m m.path ≡ some (value m.root)
  unfolding below_mount
  own_root ps m i = simp (relative_self, below_mount)
    where
      relative_self : relative m m.path ≡ []
      relative_self = elim (Bool-cases (same_text m.path (slash ∷ []))) [
        | inl t ↦
            let e =
              (same_text_iff m.path (slash ∷ []) (IsString-IsNormal m.path i) (omega arith, tt)).0
                t in
            unfold relative in simp t (ap skip_one e)
        | inr t ↦ unfold relative in simp t (ap skip_one (drop_all m.path))
      ]

  pub resolve_in-own :
      (ms : List VfsMount) (m : VfsMount) (ps : ℕ → Option ℕ)
      → IsNormal m.path
      → All (Other m.path) ms
      → resolve_in lookup (ms ++ m ∷ []) ps m.path ≡ some (value m.root)
  unfolding resolve_in
  resolve_in-own ms m ps i h =
      let taken = vfs_select_mount-last m.path ms m (matches_itself m i) (
        Shorter-other m.path (vfs_select_mount ms m.path) i
          (vfs_select_mount-Taken (Other m.path) m.path ms h)) in
      simp (taken, resolve_in) (own_root ps m i)
