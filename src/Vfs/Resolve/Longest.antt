-- ===== src/Vfs/Resolve/Longest.antt =====
-- Which of the mounts that match `vfs_select_mount` takes.
use mathlib.Core.List.{append-nil, append_assoc}
use atom_os.Prelude.{
  ℕ, ◌≡◌, ◌≤◌, ◌∙◌, ap, sym, subst, refl, true, false, Option, none, some, List, [], ◌∷◌, ◌++◌,
  arith, ltb, length, All, All-append, All-map, Bool-cases, inl, inr,
}
use atom_os.Vfs.State.{VfsMount}
use atom_os.Vfs.Resolve.{mount_matches, better, select_loop, vfs_select_mount}

abbrev pub In : VfsMount → List VfsMount → Type 0
In m ms = (before : List VfsMount) × (after : List VfsMount) × (ms ≡ before ++ m ∷ after)

module _ (path : List ℕ) where
  -- No match at all, or one of the mounts that match, and none of them is longer.
  abbrev pub Longest : Option VfsMount → List VfsMount → Type 0
  Longest none ms = All (λ k. mount_matches path k ≡ false) ms
  Longest (some m) ms =
      In m ms
      × (mount_matches path m ≡ true)
      × All (λ k. mount_matches path k ≡ true → length k.path ≤ length m.path) ms

  clash :
      {A : Type 0} (b : VfsMount) → mount_matches path b ≡ false → mount_matches path b ≡ true → A
  clash b e f = absurd never
    where
      never : ⊥
      never = cc

  In-snoc : (m : VfsMount) (seen : List VfsMount) (k : VfsMount) → In m seen → In m (seen ++ k ∷ [])
  In-snoc m seen k (a, b, e) =
      (a, b ++ k ∷ [], ap (λ ms. ms ++ k ∷ []) e ∙ append_assoc a (m ∷ b) (k ∷ []))

  -- One round of the loop, after the mounts `seen`.
  module _ (seen : List VfsMount) (m : VfsMount) where
    passed :
        (best : Option VfsMount)
        → mount_matches path m ≡ false
        → Longest best seen
        → Longest best (seen ++ m ∷ [])
    passed none e h = All-append (λ k. mount_matches path k ≡ false) seen (m ∷ []) h (e, tt)
    passed (some b) e (i, t, h) = (
      In-snoc b seen m i,
      t,
      All-append (λ k. mount_matches path k ≡ true → length k.path ≤ length b.path) seen (m ∷ []) h
          ((λ f. clash m e f), tt),
    )

    matched :
        (best : Option VfsMount)
        → mount_matches path m ≡ true
        → Longest best seen
        → Longest (better path best m) (seen ++ m ∷ [])
    unfolding better
    matched none e h = rw e (
      (seen, [], refl),
      e,
      All-append (λ k. mount_matches path k ≡ true → length k.path ≤ length m.path) seen (m ∷ [])
          (All-map (λ k f g. clash k f g) seen h) ((λ f. omega arith), tt),
    )
    matched (some b) e (i, t, h) = elim (Bool-cases (ltb (length b.path) (length m.path))) [
      | inl l ↦
          let longer : length b.path ≤ length m.path = ground (arith, l) in
          rw (e, l)
            (
              (seen, [], refl),
              e,
              All-append (λ k. mount_matches path k ≡ true → length k.path ≤ length m.path) seen
                  (m ∷ []) (All-map (λ k f g. omega (arith, f g, longer)) seen h)
                  ((λ f. omega arith), tt),
            )
      | inr l ↦
          let shorter : length m.path ≤ length b.path = ground (arith, l) in
          rw (e, l)
            (
              In-snoc b seen m i,
              t,
              All-append (λ k. mount_matches path k ≡ true → length k.path ≤ length b.path) seen
                  (m ∷ []) h ((λ f. shorter), tt),
            )
    ]

    better-Longest :
        (best : Option VfsMount) → Longest best seen → Longest (better path best m) (seen ++ m ∷ [])
    better-Longest best h = elim (Bool-cases (mount_matches path m)) [
      | inl e ↦ matched best e h
      | inr e ↦ subst (λ o. Longest o (seen ++ m ∷ [])) (sym (kept e)) (passed best e h)
    ]
      where
        kept : mount_matches path m ≡ false → better path best m ≡ best
        kept e = unfold better in rw e

  select_loop-Longest :
      (seen : List VfsMount) (best : Option VfsMount) (ms : List VfsMount)
      → Longest best seen
      → Longest (select_loop path best ms) (seen ++ ms)
  unfolding select_loop
  select_loop-Longest seen best [] h = subst (Longest best) (sym (append-nil seen)) h
  select_loop-Longest seen best (m ∷ ms) h =
      subst (Longest (select_loop path (better path best m) ms)) (append_assoc seen (m ∷ []) ms) (
        select_loop-Longest (seen ++ m ∷ []) (better path best m) ms (better-Longest seen m best h))

  -- Where no mount matches the path, `vfs_select_mount` takes none; else it takes one of the mounts that
  -- match, and no mount that matches has a longer path.
  pub vfs_select_mount-Longest : (ms : List VfsMount) → Longest (vfs_select_mount ms path) ms
  unfolding vfs_select_mount
  vfs_select_mount-Longest ms = select_loop-Longest [] none ms tt
