-- ===== src/Vfs/Cache/Laws.antt =====
-- What the operations on the cache keep, and what they answer.
use atom_os.Prelude.{
  ℕ, zero, suc, ◌-◌, ◌≡◌, sym, subst, refl, true, false, Option, none, some, List, [], ◌∷◌, ◌++◌,
  leb, length, take, All, All-append, Bool-cases, inl, inr,
}
use atom_os.Vfs.Text.{same_text}
use atom_os.Vfs.State.{Vfs, CacheEntry, granted, spend}
use atom_os.Vfs.Cache.{
  cache_enabled, path_is_under, without_prefix, find_entry, others_of, push_front, found_entry,
  vfs_cache_lookup, make_room, allocate_entry, vfs_cache_insert,
}

module _ (P : CacheEntry → Type 0) where
  All-take : (n : ℕ) (es : List CacheEntry) → All P es → All P (take n es)
  All-take zero es h = tt
  All-take (suc n) [] h = tt
  All-take (suc n) (e ∷ es) h = (h.0, All-take n es h.1)

  -- The parts of the list, when an entry has been found or not.
  abbrev pub Parts : List ℕ → Option (List CacheEntry × CacheEntry × List CacheEntry) → Type 0
  Parts path none = Unit
  Parts path (some (before, e, after)) =
      All P before × P e × All P after × (same_text e.path path ≡ true)

  find_entry-cons :
      (path : List ℕ) (e : CacheEntry) (es : List CacheEntry)
      → P e
      → (o : Option (List CacheEntry × CacheEntry × List CacheEntry)) → find_entry path es ≡ o
      → same_text e.path path ≡ false
      → Parts path o
      → Parts path (find_entry path (e ∷ es))
  unfolding find_entry
  find_entry-cons path e es h none q t k = rw (t, find_entry) (rw (q, find_entry) tt)
  find_entry-cons path e es h (some (before, f, after)) q t k =
      rw (t, find_entry) (rw (q, find_entry) ((h, k.0), k.1, k.2, k.3))

  pub find_entry-here :
      (path : List ℕ) (e : CacheEntry) (es : List CacheEntry)
      → same_text e.path path ≡ true
      → find_entry path (e ∷ es) ≡ some ([], e, es)
  unfolding find_entry
  find_entry-here path e es t = rw (t, find_entry)

  pub find_entry-Parts :
      (path : List ℕ) (es : List CacheEntry) → All P es → Parts path (find_entry path es)
  find_entry-Parts path [] h = unfold find_entry in tt
  find_entry-Parts path (e ∷ es) h = elim (Bool-cases (same_text e.path path)) [
    | inl t ↦ subst (Parts path) (sym (find_entry-here path e es t)) (tt, h.0, h.1, t)
    | inr t ↦
        find_entry-cons path e es h.0 (find_entry path es) refl t (find_entry-Parts path es h.1)
  ]

  pub All-others :
      (path : List ℕ) (es : List CacheEntry)
      (o : Option (List CacheEntry × CacheEntry × List CacheEntry))
      → All P es
      → Parts path o
      → All P (others_of es o)
  All-others path es none h k = h
  All-others path es (some (before, e, after)) h k = All-append P before after k.0 k.2

  push_front-All : (v : Vfs) (e : CacheEntry) → P e → All P v.cache → All P (push_front v e).cache
  unfolding push_front
  push_front-All v e h k = elim (Bool-cases (granted v)) [ inl t ↦ rw t (h, k) | inr t ↦ rw t k ]

  found_entry-All :
      (v : Vfs) (before : List CacheEntry) (e : CacheEntry) (after : List CacheEntry)
      → All P v.cache
      → All P before
      → P e
      → All P after
      → All P (found_entry v before e after).cache
  found_entry-All v [] e after h b k a = unfold found_entry in h
  found_entry-All v (f ∷ before) e after h b k a =
      unfold found_entry in
      push_front-All (record v { cache = (f ∷ before) ++ after }) e k
        (All-append P (f ∷ before) after b a)

  make_room-All : (n : ℕ) (es : List CacheEntry) → All P es → All P (make_room n es)
  make_room-All n es h = elim (Bool-cases (leb n (length es))) [
    | inl t ↦ rw t (All-take (length es - 1) es h)
    | inr t ↦ rw t h
  ]

  allocate_entry-All :
      (v : Vfs) (e : CacheEntry) → P e → All P v.cache → All P (allocate_entry v e).cache
  unfolding allocate_entry
  allocate_entry-All v e h k = elim (Bool-cases (granted v)) [
    | inl t ↦ elim (Bool-cases (granted (spend v))) [
      | inl u ↦ rw t (rw u (push_front-All (spend (spend v)) e h k))
      | inr u ↦ rw t (rw u k)
    ]
    | inr t ↦ rw t k
  ]

  -- What holds of every entry holds after an insertion, if it holds of the new entry.
  pub vfs_cache_insert-All :
      (v : Vfs) (path : List ℕ) (node : ℕ)
      → P (record { path = path; node = node })
      → All P v.cache
      → All P (vfs_cache_insert v path node).cache
  unfolding vfs_cache_insert
  vfs_cache_insert-All v path node h k = elim (Bool-cases (cache_enabled v)) [
    | inl t ↦
        let kept =
          All-others path v.cache (find_entry path v.cache) k (find_entry-Parts path v.cache k) in
        let roomy = record v {
          cache = make_room v.capacity (others_of v.cache (find_entry path v.cache));
        } in
        rw t (
          allocate_entry-All roomy (record { path = path; node = node }) h
            (make_room-All v.capacity (others_of v.cache (find_entry path v.cache)) kept))
    | inr t ↦ rw t k
  ]

  -- What a lookup answers: nothing, or the node of an entry of that path.
  abbrev pub Looked : List ℕ → Option ℕ → Type 0
  Looked path none = Unit
  Looked path (some node) =
      (e : CacheEntry) × P e × (same_text e.path path ≡ true) × (node ≡ e.node)

  module _ (v : Vfs) (path : List ℕ) (k : All P v.cache) where
    after_lookup :
        (o : Option (List CacheEntry × CacheEntry × List CacheEntry))
        → find_entry path v.cache ≡ o
        → cache_enabled v ≡ true
        → Parts path o
        → Looked path (vfs_cache_lookup v path).0 × All P (vfs_cache_lookup v path).1.cache
    unfolding vfs_cache_lookup
    after_lookup none q t p = rw t (rw (q, vfs_cache_lookup) (tt, k))
    after_lookup (some (before, e, after)) q t p = rw t (
        rw (q, vfs_cache_lookup)
          ((e, p.1, p.3, refl), found_entry-All v before e after k p.0 p.1 p.2))

    pub vfs_cache_lookup-Looked :
        Looked path (vfs_cache_lookup v path).0 × All P (vfs_cache_lookup v path).1.cache
    vfs_cache_lookup-Looked = elim (Bool-cases (cache_enabled v)) [
      | inl t ↦ after_lookup (find_entry path v.cache) refl t (find_entry-Parts path v.cache k)
      | inr t ↦ unfold vfs_cache_lookup in rw t (tt, k)
    ]

  pub without_prefix-All :
      (prefix : List ℕ) (es : List CacheEntry)
      → All P es
      → All (λ e. P e × (path_is_under e.path prefix ≡ false)) (without_prefix prefix es)
  without_prefix-All prefix [] h = unfold without_prefix in tt
  without_prefix-All prefix (e ∷ es) h = elim (Bool-cases (path_is_under e.path prefix)) [
    | inl t ↦ removed t (without_prefix-All prefix es h.1)
    | inr t ↦ stays t (without_prefix-All prefix es h.1)
  ]
    where
      removed :
          path_is_under e.path prefix ≡ true
          → All (λ e. P e × (path_is_under e.path prefix ≡ false)) (without_prefix prefix es)
          → All (λ e. P e × (path_is_under e.path prefix ≡ false)) (without_prefix prefix (e ∷ es))
      removed t ih = unfold without_prefix in rw t ih

      stays :
          path_is_under e.path prefix ≡ false
          → All (λ e. P e × (path_is_under e.path prefix ≡ false)) (without_prefix prefix es)
          → All (λ e. P e × (path_is_under e.path prefix ≡ false)) (without_prefix prefix (e ∷ es))
      stays t ih = unfold without_prefix in rw t ((h.0, t), ih)

-- The operations on the cache leave the mounts, the tree of nodes and the initialisation alone.
abbrev pub Unmoved : Vfs → Vfs → Type 0
Unmoved v w = (w.mounts ≡ v.mounts) × (w.parents ≡ v.parents) × (w.initialized ≡ v.initialized)

push_front-Unmoved : (v : Vfs) (e : CacheEntry) → Unmoved v (push_front v e)
unfolding push_front
push_front-Unmoved v e = elim (Bool-cases (granted v)) [
  | inl t ↦ rw t (refl, refl, refl)
  | inr t ↦ rw t (refl, refl, refl)
]

found_entry-Unmoved :
    (v : Vfs) (before : List CacheEntry) (e : CacheEntry) (after : List CacheEntry)
    → Unmoved v (found_entry v before e after)
unfolding found_entry
found_entry-Unmoved v [] e after = (refl, refl, refl)
found_entry-Unmoved v (f ∷ before) e after =
    push_front-Unmoved (record v { cache = (f ∷ before) ++ after }) e

lookup-Unmoved :
    (v : Vfs) (path : List ℕ) (o : Option (List CacheEntry × CacheEntry × List CacheEntry))
    → find_entry path v.cache ≡ o
    → cache_enabled v ≡ true
    → Unmoved v (vfs_cache_lookup v path).1
unfolding vfs_cache_lookup
lookup-Unmoved v path none q t = rw t (rw (q, vfs_cache_lookup) (refl, refl, refl))
lookup-Unmoved v path (some (before, e, after)) q t =
    rw t (rw (q, vfs_cache_lookup) (found_entry-Unmoved v before e after))

pub vfs_cache_lookup-Unmoved : (v : Vfs) (path : List ℕ) → Unmoved v (vfs_cache_lookup v path).1
vfs_cache_lookup-Unmoved v path = elim (Bool-cases (cache_enabled v)) [
  | inl t ↦ lookup-Unmoved v path (find_entry path v.cache) refl t
  | inr t ↦ unfold vfs_cache_lookup in rw t (refl, refl, refl)
]

allocate_entry-Unmoved : (v : Vfs) (e : CacheEntry) → Unmoved v (allocate_entry v e)
unfolding allocate_entry
allocate_entry-Unmoved v e = elim (Bool-cases (granted v)) [
  | inl t ↦ elim (Bool-cases (granted (spend v))) [
    | inl u ↦ rw t (rw u (push_front-Unmoved (spend (spend v)) e))
    | inr u ↦ rw t (rw u (refl, refl, refl))
  ]
  | inr t ↦ rw t (refl, refl, refl)
]

pub vfs_cache_insert-Unmoved :
    (v : Vfs) (path : List ℕ) (node : ℕ) → Unmoved v (vfs_cache_insert v path node)
unfolding vfs_cache_insert
vfs_cache_insert-Unmoved v path node = elim (Bool-cases (cache_enabled v)) [
  | inl t ↦ rw t (
      allocate_entry-Unmoved
        (record v { cache = make_room v.capacity (others_of v.cache (find_entry path v.cache)) })
        (record { path = path; node = node }))
  | inr t ↦ rw t (refl, refl, refl)
]
