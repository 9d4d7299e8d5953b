-- ===== src/Vfs/Entries/Removal.antt =====
-- A driver whose root directory has one file, "b", until it is removed.
use atom_os.Prelude.{
  ℕ, suc, ◌≡◌, ◌==◌, ◌&&◌, ◌∙◌, ap, sym, subst, refl, Bool, true, false, if◌then◌else◌, Option,
  none, some, List, [], ◌∷◌, ◌++◌, arith, ltb, length, get_or, All, Bool-cases, inl, inr,
}
use atom_os.Strings.{strcmp, strcmp_loop, strncmp, strncmp_loop}
use atom_os.Vfs.Result.{VfsResult, value, fails}
use atom_os.Vfs.State.{VfsMount, Lookup}
use atom_os.Vfs.Path.{name_max, skip_slashes, segment}
use atom_os.Vfs.Path.Pieces.{pieces_lem}
use atom_os.Vfs.Path.Canon.{IsName, IsNormal, render, path_of}
use atom_os.Vfs.Path.Laws.{pieces-render}
use atom_os.Vfs.Text.{same_text, has_prefix}
use atom_os.Vfs.Cache.{path_is_under}
use atom_os.Vfs.Resolve.{
  mount_matches, better, select_loop, vfs_select_mount, relative, step_into, walk_segment,
  walk_loop, vfs_walk, below_mount, resolve_in,
}

abbrev pub root_only : VfsMount
root_only = record { path = 47 ∷ []; fs = 7; root = 1; flags = 0 }

abbrev is_b : List ℕ → Bool
is_b name = length name == 1 && get_or name 0 0 == 98

abbrev find_b : List ℕ → VfsResult × Option ℕ
find_b name = if is_b name then (VfsResult.ok, some 2) else (VfsResult.not_found, none)

-- In state 0 the file is there; in the others the directory is empty.
abbrev pub stored : ℕ → Lookup
stored s node = if s == 0 && node == 1 then some find_b else none

abbrev first_of : List (List ℕ) → List ℕ
first_of [] = []
first_of (n ∷ ns) = n

-- Another name is not found.
step_other :
    (n : List ℕ)
    → IsName n
    → is_b n ≡ false
    → (ps : ℕ → Option ℕ) → walk_segment (stored 0) ps 1 n ≡ fails VfsResult.not_found
unfolding walk_segment step_into
step_other n h f ps =
    let s : ltb name_max (length n) ≡ false = ground (arith, h.short) in
    rw (s, h.no_dot, h.no_dot_dot, f) refl

walk_other :
    (c : ℕ) (q : List ℕ) (fuel : ℕ) (ps : ℕ → Option ℕ)
    → IsName (segment (c ∷ q))
    → is_b (segment (c ∷ q)) ≡ false
    → walk_loop (stored 0) (suc fuel) ps 1 (c ∷ q) ≡ some (fails VfsResult.not_found)
unfolding walk_loop
walk_other c q fuel ps h f = rw (walk_loop, step_other (segment (c ∷ q)) h f ps) refl

root_matches :
    (c : ℕ) (q : List ℕ) → vfs_select_mount (root_only ∷ []) (47 ∷ c ∷ q) ≡ some root_only
unfolding vfs_select_mount select_loop better mount_matches has_prefix strncmp strncmp_loop
root_matches c q = let z : ltb (length (47 ∷ c ∷ q)) 1 ≡ false = ground arith in rw z refl

segment_first :
    (n : List ℕ) (ns : List (List ℕ)) → IsName n → All IsName ns → segment (n ++ render ns) ≡ n
segment_first n ns h hs = ap first_of (sym (pieces_lem (n ++ render ns)) ∙ pieces-render n ns h hs)

resolve_other :
    (n : List ℕ) (ns : List (List ℕ)) (ps : ℕ → Option ℕ)
    → IsName n
    → All IsName ns
    → is_b n ≡ false
    → resolve_in (stored 0) (root_only ∷ []) ps (path_of (n ∷ ns))
      ≡ some (fails VfsResult.not_found)
unfolding resolve_in below_mount relative vfs_walk same_text strcmp strcmp_loop skip_slashes
resolve_other [] ns ps h hs f = absurd (omega (arith, h.nonempty))
resolve_other (c ∷ n) ns ps h hs f =
    let e = segment_first (c ∷ n) ns h hs in
    let z : (c == 47) ≡ false = ground (arith, h.bytes.0.1) in
    rw (resolve_in, root_matches c (n ++ render ns), z)
      (walk_other c (n ++ render ns) _ ps (subst IsName (sym e) h) (ap is_b e ∙ f))

-- The only name that the driver finds.
only_b : (n : List ℕ) → is_b n ≡ true → n ≡ 98 ∷ []
only_b [] f = absurd (ground (arith, f))
only_b (c ∷ []) f = ap (λ x. x ∷ []) (ground (arith, f))
only_b (c ∷ d ∷ n) f = absurd (ground (arith, f))

under_b : (ns : List (List ℕ)) → path_is_under (path_of ((98 ∷ []) ∷ ns)) (47 ∷ 98 ∷ []) ≡ true
unfolding path_is_under has_prefix strncmp strncmp_loop
under_b [] = refl
under_b (n ∷ ns) = refl

root_stays :
    (ps : ℕ → Option ℕ) (node : ℕ)
    → resolve_in (stored 0) (root_only ∷ []) ps (path_of []) ≡ some (value node)
    → resolve_in (stored 1) (root_only ∷ []) ps (path_of []) ≡ some (value node)
unfolding resolve_in below_mount relative vfs_select_mount select_loop better mount_matches
    same_text has_prefix strcmp strcmp_loop strncmp strncmp_loop
root_stays ps node r = r

-- The removal of "/b" leaves what is not under it.
pub removal_spares :
    (ps : ℕ → Option ℕ) (q : List ℕ) (node : ℕ)
    → IsNormal q
    → path_is_under q (47 ∷ 98 ∷ []) ≡ false
    → resolve_in (stored 0) (root_only ∷ []) ps q ≡ some (value node)
    → resolve_in (stored 1) (root_only ∷ []) ps q ≡ some (value node)
removal_spares ps q node (ns, e, h) f r =
    subst (λ p. resolve_in (stored 1) (root_only ∷ []) ps p ≡ some (value node)) (sym e)
      (spared ns h (subst (λ p. path_is_under p (47 ∷ 98 ∷ []) ≡ false) e f)
        (subst (λ p. resolve_in (stored 0) (root_only ∷ []) ps p ≡ some (value node)) e r))
  where
    spared :
        (ns : List (List ℕ))
        → All IsName ns
        → path_is_under (path_of ns) (47 ∷ 98 ∷ []) ≡ false
        → resolve_in (stored 0) (root_only ∷ []) ps (path_of ns) ≡ some (value node)
        → resolve_in (stored 1) (root_only ∷ []) ps (path_of ns) ≡ some (value node)
    spared [] h f r = root_stays ps node r
    spared (n ∷ ns) h f r = elim (Bool-cases (is_b n)) [
      | inl t ↦
          let u : path_is_under (path_of (n ∷ ns)) (47 ∷ 98 ∷ []) ≡ true =
            subst (λ m. path_is_under (path_of (m ∷ ns)) (47 ∷ 98 ∷ []) ≡ true) (sym (only_b n t))
              (under_b ns) in
          absurd cc
      | inr t ↦ let u = resolve_other n ns ps h.0 h.1 t in absurd cc
    ]
