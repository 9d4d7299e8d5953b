-- ===== src/Vfs/Resolve/Laws.antt =====
-- `VFS_Resolve` of kernel/filesystem/VFS.c with the cache and without it.
use atom_os.Prelude.{
  ℕ, ◌≡◌, ◌∙◌, ap, sym, subst, refl, true, not, Option, none, some, List, arith, if◌then◌else◌, All,
  Bool-cases, inl, inr,
}
use atom_os.Strings.{IsString}
use atom_os.Vfs.Result.{VfsResult, Outcome, value, fails}
use atom_os.Vfs.Path.{path_max, vfs_normalize_path}
use atom_os.Vfs.Path.Canon.{IsNormal}
use atom_os.Vfs.Path.Laws.{Normalized, vfs_normalize_path_lem}
use atom_os.Vfs.Text.{same_text, same_text_iff}
use atom_os.Vfs.State.{Vfs, VfsMount, CacheEntry, Lookup}
use atom_os.Vfs.Cache.{vfs_cache_lookup, vfs_cache_insert}
use atom_os.Vfs.Cache.Laws.{
  Looked, vfs_cache_lookup-Looked, vfs_cache_lookup-Unmoved, vfs_cache_insert-All,
  vfs_cache_insert-Unmoved, Unmoved,
}
use atom_os.Vfs.Resolve.{resolve_in, remember, resolve_normal, vfs_resolve}
use atom_os.Vfs.Resolve.Below.{IsString-IsNormal, resolve_in_total}

-- NULL, or a string.
abbrev pub IsText : Option (List ℕ) → Type 0
IsText none = Unit
IsText (some p) = IsString p

module _ (lookup : Lookup) where
  -- An entry holds the node that its path resolves to.
  unfoldable pub Holds : List VfsMount → (ℕ → Option ℕ) → CacheEntry → Type 0
  Holds mounts parents e =
      IsNormal e.path × (resolve_in lookup mounts parents e.path ≡ some (value e.node))

  abbrev pub Coherent : Vfs → Type 0
  Coherent v = All (Holds v.mounts v.parents) v.cache

  -- Resolution with the guards of `VFS_Resolve`, on the mounts and the nodes alone.
  unfoldable pub resolve_plain : Vfs → Option (List ℕ) → Option (Outcome ℕ)
  resolve_plain v path = if not v.initialized then some (fails VfsResult.invalid) else elim path [
    | none ↦ some (fails VfsResult.invalid)
    | some p ↦ elim v.root_mount [
      | none ↦ some (fails VfsResult.not_found)
      | some m ↦ elim (vfs_normalize_path (some p) path_max) [
        | none ↦ none
        | some (fails r) ↦ some (fails r)
        | some (value normal) ↦ resolve_in lookup v.mounts v.parents normal
      ]
    ]
  ]

  Holds-entry :
      (ms : List VfsMount) (ps : ℕ → Option ℕ) (p : List ℕ) (node : ℕ) (e : CacheEntry)
      → IsNormal p
      → Holds ms ps e
      → same_text e.path p ≡ true
      → node ≡ e.node
      → resolve_in lookup ms ps p ≡ some (value node)
  unfolding Holds
  Holds-entry ms ps p node e i h s q =
      let same : e.path ≡ p =
        (same_text_iff e.path p (IsString-IsNormal e.path h.0) (IsString-IsNormal p i)).0 s in
      subst (λ x. resolve_in lookup ms ps x ≡ some (value node)) same
        (h.1 ∙ ap (λ x. some (value x)) (sym q))

  -- What an operation that leaves the mounts and the nodes alone keeps coherent.
  Coherent-Unmoved : (v w : Vfs) → Unmoved v w → All (Holds v.mounts v.parents) w.cache → Coherent w
  Coherent-Unmoved v w u h =
      subst (λ ms. All (Holds ms w.parents) w.cache) (sym u.0)
        (subst (λ ps. All (Holds v.mounts ps) w.cache) (sym u.1) h)

  module _ (v : Vfs) (p q : List ℕ) (m : VfsMount) where
    resolve_started :
        v.initialized ≡ true
        → v.root_mount ≡ some m
        → vfs_normalize_path (some p) path_max ≡ some (value q)
        → vfs_resolve lookup v (some p) ≡ resolve_normal lookup v q
    unfolding vfs_resolve
    resolve_started t e n = simp (t, e, n, vfs_resolve)

    plain_started :
        v.initialized ≡ true
        → v.root_mount ≡ some m
        → vfs_normalize_path (some p) path_max ≡ some (value q)
        → resolve_plain v (some p) ≡ resolve_in lookup v.mounts v.parents q
    unfolding resolve_plain
    plain_started t e n = simp (t, e, n, resolve_plain)

  -- The answer that `o` describes, from a state with the same mounts and nodes, with a coherent cache.
  abbrev pub Answers : Vfs → Option (Outcome ℕ) → Option (Outcome ℕ × Vfs) → Type 0
  Answers v o t =
      (r : Outcome ℕ) × (w : Vfs) × (t ≡ some (r, w)) × (o ≡ some r) × Unmoved v w × Coherent w

  module _ (v : Vfs) (p : List ℕ) (c : Coherent v) (i : IsNormal p) where
    remember-Answers :
        (w : Vfs)
        → Unmoved v w
        → Coherent w
        → (o : Option (Outcome ℕ)) → resolve_in lookup w.mounts w.parents p ≡ o
        → (r : Outcome ℕ) → o ≡ some r
        → Answers w o (remember lookup w p o)
    unfolding remember
    remember-Answers w u k none e r q = absurd (never q)
      where
        never : (none ≡ some r) → ⊥
        never x = cc
    remember-Answers w u k (some (fails f)) e r q = (fails f, w, refl, refl, (refl, refl, refl), k)
    remember-Answers w u k (some (value node)) e r q =
        let kept =
          vfs_cache_insert-All (Holds w.mounts w.parents) w p node (unfold Holds in (i, e)) k in
        (
          value node,
          vfs_cache_insert w p node,
          refl,
          refl,
          vfs_cache_insert-Unmoved w p node,
          Coherent-Unmoved w (vfs_cache_insert w p node) (vfs_cache_insert-Unmoved w p node) kept,
        )

    after_lookup :
        (cached : Option ℕ) (w : Vfs)
        → (vfs_cache_lookup v p).0 ≡ cached
        → (vfs_cache_lookup v p).1 ≡ w
        → Looked (Holds v.mounts v.parents) p cached
        → Unmoved v w
        → Coherent w
        → Answers v (resolve_in lookup v.mounts v.parents p) (resolve_normal lookup v p)
    unfolding resolve_normal
    after_lookup (some node) w e e' (f, h, s, q) u k = (
      value node,
      w,
      rw (e, e', resolve_normal),
      Holds-entry v.mounts v.parents p node f i h s q,
      u,
      k,
    )
    after_lookup none w e e' l u k =
        let same : resolve_in lookup w.mounts w.parents p ≡ resolve_in lookup v.mounts v.parents p =
          ap (λ ms. resolve_in lookup ms w.parents p) u.0
          ∙ ap (λ ps. resolve_in lookup v.mounts ps p) u.1 in
        let (r, runs) = resolve_in_total lookup w.mounts w.parents p in
        let (r', w', t, o, u', k') =
          remember-Answers w u k (resolve_in lookup w.mounts w.parents p) refl r runs in
        (
          r',
          w',
          rw (e, e', resolve_normal) t,
          sym same ∙ o,
          (u'.0 ∙ u.0, u'.1 ∙ u.1, u'.2 ∙ u.2),
          k',
        )

    resolve_normal-Answers :
        Answers v (resolve_in lookup v.mounts v.parents p) (resolve_normal lookup v p)
    resolve_normal-Answers =
        let k = vfs_cache_lookup-Looked (Holds v.mounts v.parents) v p c in
        let u = vfs_cache_lookup-Unmoved v p in
        after_lookup (vfs_cache_lookup v p).0 (vfs_cache_lookup v p).1 refl refl k.0 u
          (Coherent-Unmoved v (vfs_cache_lookup v p).1 u k.1)

  -- For every path and every state with a coherent cache, `vfs_resolve` ends; it answers what resolution
  -- without the cache answers on the same mounts and nodes, and it leaves them, and a coherent cache.
  pub vfs_resolve-resolve_plain :
      (v : Vfs) (path : Option (List ℕ))
      → Coherent v
      → IsText path
      → Answers v (resolve_plain v path) (vfs_resolve lookup v path)
  vfs_resolve-resolve_plain v path c s = elim (Bool-cases v.initialized) [
    | inl t ↦ started path s v.root_mount refl t
    | inr t ↦ (
      fails VfsResult.invalid,
      v,
      unfold vfs_resolve in simp t,
      unfold resolve_plain in simp t,
      (refl, refl, refl),
      c,
    )
  ]
    where
      normal :
          (p : List ℕ) (m : VfsMount) (o : Option (Outcome (List ℕ)))
          → v.initialized ≡ true
          → v.root_mount ≡ some m
          → vfs_normalize_path (some p) path_max ≡ o
          → Normalized path_max o
          → Answers v (resolve_plain v (some p)) (vfs_resolve lookup v (some p))
      normal p m (some (fails r)) t e n k = (
        fails r,
        v,
        unfold vfs_resolve in simp (t, e, n, vfs_resolve),
        unfold resolve_plain in simp (t, e, n, resolve_plain),
        (refl, refl, refl),
        c,
      )
      normal p m (some (value q)) t e n k =
          let (r, w, a, b, u, d) = resolve_normal-Answers v q c k.0 in
          (r, w, resolve_started v p q m t e n ∙ a, plain_started v p q m t e n ∙ b, u, d)
      normal p m none t e n k = absurd k

      started :
          (path : Option (List ℕ))
          → IsText path
          → (root : Option VfsMount) → v.root_mount ≡ root
          → v.initialized ≡ true
          → Answers v (resolve_plain v path) (vfs_resolve lookup v path)
      started none s root e t = (
        fails VfsResult.invalid,
        v,
        unfold vfs_resolve in simp t,
        unfold resolve_plain in simp t,
        (refl, refl, refl),
        c,
      )
      started (some p) s none e t = (
        fails VfsResult.not_found,
        v,
        unfold vfs_resolve in simp (t, e, vfs_resolve),
        unfold resolve_plain in simp (t, e, resolve_plain),
        (refl, refl, refl),
        c,
      )
      started (some p) s (some m) e t =
          normal p m (vfs_normalize_path (some p) path_max) t e refl
            (vfs_normalize_path_lem p path_max s (omega arith))
