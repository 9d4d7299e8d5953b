-- ===== src/Vfs/Entries/Edits.antt =====
-- What `VFS_Create` and `VFS_Remove` ask of the driver, and what they answer.
use atom_os.Prelude.{
  ℕ, ◌≡◌, ◌≢◌, ◌<◌, ◌∙◌, ap, sym, subst, refl, true, false, Option, none, some, List, [], ◌∷◌, ◌++◌,
  arith, ◌==◌, length, length-append, All, All-map, Bool-cases, inl, inr,
}
use atom_os.Strings.{IsString}
use atom_os.Vfs.Result.{VfsResult, Outcome, value, fails}
use atom_os.Vfs.Path.{slash, path_max, vfs_normalize_path}
use atom_os.Vfs.Path.Canon.{IsName, IsNormal, render, path_of}
use atom_os.Vfs.Path.Laws.{Normalized, vfs_normalize_path_lem}
use atom_os.Vfs.Text.{same_text, same_text_iff}
use atom_os.Vfs.State.{Vfs, CacheEntry, Lookup}
use atom_os.Vfs.Cache.{
  path_is_under, others_of, without_prefix, find_entry, vfs_cache_remove_exact,
  vfs_cache_remove_prefix,
}
use atom_os.Vfs.Cache.Laws.{Unmoved, find_entry-Parts, All-others, without_prefix-All}
use atom_os.Vfs.Resolve.{resolve_in, vfs_resolve}
use atom_os.Vfs.Resolve.Below.{IsString-IsNormal}
use atom_os.Vfs.Resolve.Laws.{Holds, Coherent, resolve_plain, vfs_resolve-resolve_plain}
use atom_os.Vfs.Entries.{typed, split_path, edit_entry, vfs_create, vfs_remove}
use atom_os.Vfs.Entries.Laws.{render_last, names, split_path_lem}

module _ {S : Type 0} where
  -- The directory's operation is called on the name, where it is there.
  abbrev pub Handed : Option (List ℕ → S → VfsResult × S) → List ℕ → S → VfsResult → S → Type 0
  Handed none name s r s' = (r ≡ VfsResult.unsupported) × (s' ≡ s)
  Handed (some f) name s r s' = (r ≡ (f name s).0) × (s' ≡ (f name s).1)

  -- What is answered when the directory's path resolves like this.
  abbrev pub Asked :
      (ℕ → Option (List ℕ → S → VfsResult × S)) → List ℕ → S → Outcome ℕ → VfsResult → S → Type 0
  Asked op name s (fails e) r s' = (r ≡ e) × (s' ≡ s)
  Asked op name s (value parent) r s' = Handed (op parent) name s r s'

-- The normal paths of `P` that resolve to a node by `L` resolve to it by `L'`.
abbrev pub Kept : Lookup → Lookup → Vfs → (List ℕ → Type 0) → Type 0
Kept L L' v P =
    (q : List ℕ) (node : ℕ)
    → IsNormal q
    → P q
    → resolve_in L v.mounts v.parents q ≡ some (value node)
    → resolve_in L' v.mounts v.parents q ≡ some (value node)

Holds-Kept :
    (L L' : Lookup) (v w : Vfs) (P : List ℕ → Type 0)
    → Unmoved v w
    → Kept L L' v P
    → (e : CacheEntry) → P e.path
    → Holds L w.mounts w.parents e
    → Holds L' w.mounts w.parents e
unfolding Holds
Holds-Kept L L' v w P u k e p h = (h.0, same L' ∙ k e.path e.node h.0 p (sym (same L) ∙ h.1))
  where
    same :
        (M : Lookup)
        → resolve_in M w.mounts w.parents e.path ≡ resolve_in M v.mounts v.parents e.path
    same M =
        ap (λ ms. resolve_in M ms w.parents e.path) u.0
        ∙ ap (λ ps. resolve_in M v.mounts ps e.path) u.1

remove_exact-Coherent :
    (L L' : Lookup) (v w : Vfs) (path : List ℕ)
    → Unmoved v w
    → Kept L L' v (λ q. Unit)
    → Coherent L w
    → Coherent L' (vfs_cache_remove_exact w path)
unfolding vfs_cache_remove_exact
remove_exact-Coherent L L' v w path u k h =
    All-map (λ e. Holds-Kept L L' v w (λ q. Unit) u k e tt)
      (others_of w.cache (find_entry path w.cache))
      (All-others (Holds L w.mounts w.parents) path w.cache (find_entry path w.cache) h
        (find_entry-Parts (Holds L w.mounts w.parents) path w.cache h))

remove_prefix-Coherent :
    (L L' : Lookup) (v w : Vfs) (path : List ℕ)
    → Unmoved v w
    → Kept L L' v (λ q. path_is_under q path ≡ false)
    → Coherent L w
    → Coherent L' (vfs_cache_remove_prefix w path)
unfolding vfs_cache_remove_prefix
remove_prefix-Coherent L L' v w path u k h =
    All-map (λ e p. Holds-Kept L L' v w (λ q. path_is_under q path ≡ false) u k e p.1 p.0)
      (without_prefix path w.cache) (without_prefix-All (Holds L w.mounts w.parents) path w.cache h)

module _ (S : Type 0) (lookup : S → Lookup) (v : Vfs) (s : S) (c : Coherent (lookup s) v) where
  abbrev pub Edited :
      (ℕ → Option (List ℕ → S → VfsResult × S))
      → List ℕ
      → List ℕ
      → Option (VfsResult × Vfs × S)
      → Type 0
  Edited op parent_path name o =
      (d : Outcome ℕ) × (r : VfsResult) × (w : Vfs) × (s' : S) × (o ≡ some (r, w, s'))
      × (resolve_plain (lookup s) v (some parent_path) ≡ some d)
      × Asked op name s d r s'
      × Coherent (lookup s') w

  -- The operation of the directory leaves the paths of `P` to the nodes that they resolve to.
  abbrev pub Spares :
      (ℕ → Option (List ℕ → S → VfsResult × S)) → List ℕ → List ℕ → (List ℕ → Type 0) → Type 0
  Spares op parent_path name P =
      (parent : ℕ) (f : List ℕ → S → VfsResult × S)
      → op parent ≡ some f
      → resolve_plain (lookup s) v (some parent_path) ≡ some (value parent)
      → Kept (lookup s) (lookup (f name s).1) v P

  module _ (op : ℕ → Option (List ℕ → S → VfsResult × S)) (forget : Vfs → Vfs) (P : List ℕ → Type 0)
      (keeps : (L : Lookup) (w : Vfs)
        → Unmoved v w
        → Kept (lookup s) L v P
        → Coherent (lookup s) w
        → Coherent L (forget w))
      (path parent_path name : List ℕ) (spares : Spares op parent_path name P)
      (e : split_path path ≡ value (parent_path, name)) where
    handed :
        (parent : ℕ) (w : Vfs)
        → vfs_resolve (lookup s) v (some parent_path) ≡ some (value parent, w)
        → resolve_plain (lookup s) v (some parent_path) ≡ some (value parent)
        → Unmoved v w
        → Coherent (lookup s) w
        → (o : Option (List ℕ → S → VfsResult × S)) → op parent ≡ o
        → (r : VfsResult) × (u : Vfs) × (s' : S) × (edit_entry lookup op forget v path s
            ≡ some (r, u, s'))
          × Handed o name s r s'
          × Coherent (lookup s') u
    unfolding edit_entry
    handed parent w f g u k none q =
        (VfsResult.unsupported, w, s, simp (e, f, q, edit_entry), (refl, refl), k)
    handed parent w f g u k (some h) q = (
      (h name s).0,
      forget w,
      (h name s).1,
      simp (e, f, q, edit_entry),
      (refl, refl),
      keeps (lookup (h name s).1) w u (spares parent h q g) k,
    )

    edit_entry_lem :
        IsString parent_path → Edited op parent_path name (edit_entry lookup op forget v path s)
    unfolding edit_entry
    edit_entry_lem t =
        let (d, w, f, g, u, k) = vfs_resolve-resolve_plain (lookup s) v (some parent_path) c t in
        asked d w f g u k
      where
        asked :
            (d : Outcome ℕ) (w : Vfs)
            → vfs_resolve (lookup s) v (some parent_path) ≡ some (d, w)
            → resolve_plain (lookup s) v (some parent_path) ≡ some d
            → Unmoved v w
            → Coherent (lookup s) w
            → Edited op parent_path name (edit_entry lookup op forget v path s)
        asked (fails r) w f g u k = (fails r, r, w, s, simp (e, f, edit_entry), g, (refl, refl), k)
        asked (value parent) w f g u k =
            let (r, w', s', runs, h, k') = handed parent w f g u k (op parent) refl in
            (value parent, r, w', s', runs, g, h, k')

  module _ (target : List ℕ) (ss : List (List ℕ)) (name : List ℕ) (t : IsString target)
      (hs : All IsName ss) (h : IsName name) (ready : v.initialized ≡ true)
      (n : vfs_normalize_path (some target) path_max
        ≡ some (value (path_of (ss ++ name ∷ [])))) where
    short : length (path_of (ss ++ name ∷ [])) < path_max
    short =
        (subst (Normalized path_max) n (vfs_normalize_path_lem target path_max t (omega arith))).1

    not_root : same_text (path_of (ss ++ name ∷ [])) (slash ∷ []) ≡ false
    not_root = elim (Bool-cases (same_text (path_of (ss ++ name ∷ [])) (slash ∷ []))) [
      | inr f ↦ f
      | inl f ↦ absurd (
          omega (
            arith,
            h.nonempty,
            ap length (same f),
            ap length (render_last ss name),
            length-append {0} (render ss) (slash ∷ name),
          ))
    ]
      where
        same :
            same_text (path_of (ss ++ name ∷ [])) (slash ∷ []) ≡ true
            → path_of (ss ++ name ∷ []) ≡ slash ∷ []
        same f =
            (same_text_iff (path_of (ss ++ name ∷ [])) (slash ∷ [])
                (IsString-IsNormal (path_of (ss ++ name ∷ [])) (names ss name hs h short))
                (omega arith, tt)).0
              f

    parent_text : IsString (path_of ss)
    parent_text = IsString-IsNormal (path_of ss) (ss, refl, hs)

    -- On an initialised system with a coherent cache, let the normal form of the target be the names `ss`
    -- and, behind them, `name`. Let what the directory's `create` does to the state of the driver leave every
    -- normal path that resolves at its node, and let what its `remove` does leave every normal path at its
    -- node that resolves and is not under the target. Then `vfs_create`, with a type other than 0, and `vfs_remove` end;
    -- what they answer is the error of the resolution of the path of `ss`, without the cache, where that
    -- fails; else `VFS_RES_UNSUPPORTED`, where the directory has not the operation; else what its operation
    -- answers for `name`, with what that does to the driver's state. The cache that they leave is coherent
    -- with what the driver answers in that state.
    pub vfs_create_lem :
        (create : ℕ → Option (List ℕ → ℕ → S → VfsResult × S))
        (remove : ℕ → Option (List ℕ → S → VfsResult × S)) (type : ℕ)
        → type ≢ 0
        → Spares (typed create type) (path_of ss) name (λ q. Unit)
        → Spares remove (path_of ss) name (λ q. path_is_under q (path_of (ss ++ name ∷ [])) ≡ false)
        → Edited
            (typed create type)
            (path_of ss)
            name
            (vfs_create lookup create v (some target) type s)
          × Edited remove (path_of ss) name (vfs_remove lookup remove v (some target) s)
    vfs_create_lem create remove type z spares_all spares_others = (
      subst (Edited (typed create type) (path_of ss) name) (sym creates) (
          edit_entry_lem (typed create type) (λ w. vfs_cache_remove_exact w path) (λ q. Unit)
            (λ L w. remove_exact-Coherent (lookup s) L v w path) path (path_of ss) name spares_all
            (split_path_lem ss name hs h short) parent_text),
      subst (Edited remove (path_of ss) name) (sym removes) (
          edit_entry_lem remove (λ w. vfs_cache_remove_prefix w path)
            (λ q. path_is_under q path ≡ false)
            (λ L w. remove_prefix-Coherent (lookup s) L v w path) path (path_of ss) name
            spares_others (split_path_lem ss name hs h short) parent_text),
    )
      where
        path : List ℕ
        path = path_of (ss ++ name ∷ [])

        is_type : (type == 0) ≡ false
        is_type = ground (arith, z)

        creates :
            vfs_create lookup create v (some target) type s
            ≡ edit_entry lookup (typed create type) (λ w. vfs_cache_remove_exact w path) v path s
        creates = unfold vfs_create in simp (is_type, ready, n, vfs_create, not_root)

        removes :
            vfs_remove lookup remove v (some target) s
            ≡ edit_entry lookup remove (λ w. vfs_cache_remove_prefix w path) v path s
        removes = unfold vfs_remove in simp (ready, n, vfs_remove, not_root)
