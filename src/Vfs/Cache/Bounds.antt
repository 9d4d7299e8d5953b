-- ===== src/Vfs/Cache/Bounds.antt =====
-- How many entries the cache has.
use atom_os.Prelude.{
  ℕ, zero, suc, ◌+◌, ◌-◌, ◌≡◌, ◌<◌, ◌≤◌, ◌∙◌, ap, sym, subst, refl, true, false, ◌&&◌, Option, none,
  some, List, [], ◌∷◌, ◌++◌, arith, ltb, leb, ◌==◌, length, take, length-append, length-take,
  Bool-cases, inl, inr,
}
use atom_os.Strings.{IsString}
use atom_os.Vfs.Text.{same_text, same_text_refl}
use atom_os.Vfs.State.{Vfs, CacheEntry, granted, spend}
use atom_os.Vfs.Cache.{
  cache_enabled, path_is_under, without_prefix, find_entry, others_of, push_front, found_entry,
  vfs_cache_lookup, drop_tail, make_room, allocate_entry, vfs_cache_insert, trim_loop,
  vfs_cache_trim_to_capacity, vfs_cache_clear, vfs_cache_set_capacity, vfs_cache_remove_exact,
  vfs_cache_remove_prefix,
}
use atom_os.Vfs.Cache.Laws.{find_entry-here}

abbrev pub IsWithin : Vfs → Type 0
IsWithin v = length v.cache ≤ v.capacity

abbrev Found : Type 0
Found = Option (List CacheEntry × CacheEntry × List CacheEntry)

-- The entry that is found and the others are all that there is.
abbrev Counted : List CacheEntry → Found → Type 0
Counted es none = Unit
Counted es (some (before, e, after)) = length es ≡ length before + suc (length after)

find_entry-Counted : (path : List ℕ) (es : List CacheEntry) → Counted es (find_entry path es)
find_entry-Counted path [] = unfold find_entry in tt
find_entry-Counted path (e ∷ es) = elim (Bool-cases (same_text e.path path)) [
  | inl t ↦ subst (Counted (e ∷ es)) (sym (find_entry-here (λ x. Unit) path e es t)) (omega arith)
  | inr t ↦ later (find_entry path es) refl t (find_entry-Counted path es)
]
  where
    later :
        (o : Found)
        → find_entry path es ≡ o
        → same_text e.path path ≡ false
        → Counted es o
        → Counted (e ∷ es) (find_entry path (e ∷ es))
    later none q t k = unfold find_entry in rw (t, find_entry) (rw (q, find_entry) tt)
    later (some (before, f, after)) q t k =
        unfold find_entry in rw (t, find_entry) (rw (q, find_entry) (omega (arith, k)))

length_others :
    (es : List CacheEntry) (o : Found) → Counted es o → length (others_of es o) ≤ length es
length_others es none k = omega arith
length_others es (some (before, e, after)) k = omega (arith, k, length-append {0} before after)

length-drop_tail : (es : List CacheEntry) → length (drop_tail es) ≡ length es - 1
length-drop_tail es = length-take {0} (length es - 1) es (omega arith)

length-make_room :
    (n : ℕ) (es : List CacheEntry) → 0 < n → length es ≤ n → length (make_room n es) < n
length-make_room n es l k = elim (Bool-cases (leb n (length es))) [
  | inl t ↦ rw t (omega (arith, length-drop_tail es))
  | inr t ↦ rw t (ground (arith, t))
]

push_front-IsWithin :
    (v : Vfs) (e : CacheEntry) → length v.cache < v.capacity → IsWithin (push_front v e)
unfolding push_front
push_front-IsWithin v e l = elim (Bool-cases (granted v)) [
  | inl t ↦ rw t (omega arith)
  | inr t ↦ rw t (omega arith)
]

allocate_entry-IsWithin :
    (v : Vfs) (e : CacheEntry) → length v.cache < v.capacity → IsWithin (allocate_entry v e)
unfolding allocate_entry
allocate_entry-IsWithin v e l = elim (Bool-cases (granted v)) [
  | inl t ↦ elim (Bool-cases (granted (spend v))) [
    | inl u ↦ rw t (rw u (push_front-IsWithin (spend (spend v)) e l))
    | inr u ↦ rw t (rw u (omega arith))
  ]
  | inr t ↦ rw t (omega arith)
]

vfs_cache_insert-IsWithin :
    (v : Vfs) (path : List ℕ) (node : ℕ) → IsWithin v → IsWithin (vfs_cache_insert v path node)
unfolding vfs_cache_insert
vfs_cache_insert-IsWithin v path node h = elim (Bool-cases (cache_enabled v)) [
  | inl t ↦ rw t (
      allocate_entry-IsWithin
        (record v { cache = make_room v.capacity (others_of v.cache (find_entry path v.cache)) })
        (record { path = path; node = node })
        (length-make_room v.capacity (others_of v.cache (find_entry path v.cache))
          (ground (arith, t))
          (omega (
            arith,
            h,
            length_others v.cache (find_entry path v.cache) (find_entry-Counted path v.cache),
          ))))
  | inr t ↦ rw t h
]

found_entry-IsWithin :
    (v : Vfs) (before : List CacheEntry) (e : CacheEntry) (after : List CacheEntry)
    → length v.cache ≡ length before + suc (length after)
    → IsWithin v
    → IsWithin (found_entry v before e after)
unfolding found_entry
found_entry-IsWithin v [] e after k h = h
found_entry-IsWithin v (f ∷ before) e after k h =
    push_front-IsWithin (record v { cache = (f ∷ before) ++ after }) e
      (omega (arith, k, h, length-append {0} before after))

vfs_cache_lookup-IsWithin :
    (v : Vfs) (path : List ℕ) → IsWithin v → IsWithin (vfs_cache_lookup v path).1
vfs_cache_lookup-IsWithin v path h = elim (Bool-cases (cache_enabled v)) [
  | inl t ↦ at (find_entry path v.cache) refl t (find_entry-Counted path v.cache)
  | inr t ↦ unfold vfs_cache_lookup in rw t h
]
  where
    at :
        (o : Found)
        → find_entry path v.cache ≡ o
        → cache_enabled v ≡ true
        → Counted v.cache o
        → IsWithin (vfs_cache_lookup v path).1
    at none q t k = unfold vfs_cache_lookup in rw t (rw (q, vfs_cache_lookup) h)
    at (some (before, e, after)) q t k =
        unfold vfs_cache_lookup in
        rw t (rw (q, vfs_cache_lookup) (found_entry-IsWithin v before e after k h))

length-without_prefix :
    (prefix : List ℕ) (es : List CacheEntry) → length (without_prefix prefix es) ≤ length es
unfolding without_prefix
length-without_prefix prefix [] = omega arith
length-without_prefix prefix (e ∷ es) = elim (Bool-cases (path_is_under e.path prefix)) [
  | inl t ↦ rw t (omega (arith, length-without_prefix prefix es))
  | inr t ↦ rw t (omega (arith, length-without_prefix prefix es))
]

-- If the cache has no more entries than its capacity, it has no more than that after a lookup, an
-- insertion and both kinds of removal, for every path and node.
pub IsWithin-kept :
    (v : Vfs) (path : List ℕ) (node : ℕ)
    → IsWithin v
    → IsWithin (vfs_cache_lookup v path).1
      × IsWithin (vfs_cache_insert v path node)
      × IsWithin (vfs_cache_remove_prefix v path)
      × IsWithin (vfs_cache_remove_exact v path)
IsWithin-kept v path node h = (
  vfs_cache_lookup-IsWithin v path h,
  vfs_cache_insert-IsWithin v path node h,
  unfold vfs_cache_remove_prefix in omega (arith, h, length-without_prefix path v.cache),
  unfold vfs_cache_remove_exact in
      omega (
        arith,
        h,
        length_others v.cache (find_entry path v.cache) (find_entry-Counted path v.cache),
      ),
)

take-take : (n k : ℕ) (es : List CacheEntry) → n ≤ k → take n (take k es) ≡ take n es
take-take zero k es l = refl
take-take (suc n) zero es l = absurd (omega arith)
take-take (suc n) (suc k) [] l = refl
take-take (suc n) (suc k) (e ∷ es) l = ap (λ x. e ∷ x) (take-take n k es (omega arith))

take_enough : (n : ℕ) (es : List CacheEntry) → length es ≤ n → take n es ≡ es
take_enough zero [] l = refl
take_enough zero (e ∷ es) l = absurd (omega arith)
take_enough (suc n) [] l = refl
take_enough (suc n) (e ∷ es) l = ap (λ x. e ∷ x) (take_enough n es (omega arith))

trim_loop-take :
    (fuel n : ℕ) (es : List CacheEntry) → length es ≤ fuel + n → trim_loop fuel n es ≡ take n es
unfolding trim_loop
trim_loop-take zero n es l = sym (take_enough n es (omega arith))
trim_loop-take (suc fuel) n es l = elim (Bool-cases (ltb n (length es))) [
  | inl t ↦ rw t (
      trim_loop-take fuel n (drop_tail es) (omega (arith, l, length-drop_tail es))
      ∙ take-take n (length es - 1) es (ground (arith, t)))
  | inr t ↦ rw t (sym (take_enough n es (ground (arith, t))))
]

-- Once the file system has been initialised, setting the capacity keeps the most recently used entries
-- that fit, in their order, and drops the others.
pub vfs_cache_set_capacity-take :
    (v : Vfs) (n : ℕ) → v.initialized ≡ true → (vfs_cache_set_capacity v n).cache ≡ take n v.cache
unfolding vfs_cache_set_capacity vfs_cache_trim_to_capacity vfs_cache_clear
vfs_cache_set_capacity-take v zero t = simp t
vfs_cache_set_capacity-take v (suc n) t =
    let z : (suc n == 0) ≡ false = ground arith in
    simp (t, z) (trim_loop-take (length v.cache) (suc n) v.cache (omega arith))

lookup_front :
    (w : Vfs) (path : List ℕ) (e : CacheEntry) (es : List CacheEntry)
    → cache_enabled w ≡ true
    → find_entry path w.cache ≡ some ([], e, es)
    → (vfs_cache_lookup w path).0 ≡ some e.node
unfolding vfs_cache_lookup
lookup_front w path e es t q = rw t (rw (q, vfs_cache_lookup) refl)

allocated :
    (v : Vfs) (e : CacheEntry)
    → granted v ≡ true
    → granted (spend v) ≡ true
    → granted (spend (spend v)) ≡ true
    → allocate_entry v e ≡ record (spend (spend (spend v))) { cache = e ∷ v.cache }
unfolding allocate_entry push_front
allocated v e a b c = rw (a, b, c)

-- With the cache enabled, a node that is not null goes in for a path, and if the three allocations of the
-- insertion succeed, the next lookup of that path answers it.
pub vfs_cache_lookup-vfs_cache_insert :
    (v : Vfs) (path : List ℕ) (node : ℕ)
    → IsString path
    → cache_enabled v ≡ true
    → granted v && granted (spend v) && granted (spend (spend v)) ≡ true
    → (vfs_cache_lookup (vfs_cache_insert v path node) path).0 ≡ some node
vfs_cache_lookup-vfs_cache_insert v path node s t g =
    ap (λ w. (vfs_cache_lookup w path).0) inserted
    ∙ lookup_front after path entry kept t
        (find_entry-here (λ x. Unit) path entry kept (same_text_refl path s))
  where
    kept : List CacheEntry
    kept = make_room v.capacity (others_of v.cache (find_entry path v.cache))

    entry : CacheEntry
    entry = record { path = path; node = node }

    after : Vfs
    after = record (spend (spend (spend v))) { cache = entry ∷ kept }

    inserted : vfs_cache_insert v path node ≡ after
    inserted =
        unfold vfs_cache_insert in
        rw t (
          allocated (record v { cache = kept }) entry (ground (arith, g)) (ground (arith, g))
            (ground (arith, g)))
