-- ===== src/Vfs/Resolve/Walk.antt =====
-- The rounds of `vfs_walk`, and its use of the parents.
use atom_os.Prelude.{
  ℕ, zero, suc, ◌≡◌, ◌<◌, ◌∙◌, sym, subst, refl, false, Option, some, List, [], ◌∷◌, arith, ◌==◌,
  length, All, Bool-cases, inl, inr,
}
use atom_os.Vfs.Result.{VfsResult, Outcome, value, fails}
use atom_os.Vfs.Path.{slash, is_dot_dot, skip_slashes, segment, after_segment}
use atom_os.Vfs.Path.Pieces.{
  pieces, more, Behind, pieces_lem, pieces-slash, skip_slash, skip_other, after-Behind,
  length_round, length_skip,
}
use atom_os.Vfs.State.{Lookup}
use atom_os.Vfs.Resolve.{walk_segment, walk_loop, vfs_walk}

-- No piece of the path is `..`.
abbrev pub NoParent : List ℕ → Type 0
NoParent p = All (λ s. is_dot_dot s ≡ false) (pieces p)

NoParent-skip : (p : List ℕ) → NoParent p → NoParent (skip_slashes p)
NoParent-skip [] h = unfold skip_slashes in h
NoParent-skip (c ∷ p) h = elim (Bool-cases (c == slash)) [
  | inl e ↦
      subst NoParent (sym (skip_slash c p e))
        (NoParent-skip p (subst (All (λ s. is_dot_dot s ≡ false)) (pieces-slash c p e) h).1)
  | inr e ↦ subst NoParent (sym (skip_other c p e)) h
]

NoParent-more :
    (q : List ℕ) → Behind q → All (λ s. is_dot_dot s ≡ false) (more q) → NoParent (skip_slashes q)
NoParent-more [] b h = unfold skip_slashes pieces in (refl, tt)
NoParent-more (c ∷ q) b h = subst NoParent (sym (skip_slash c q b)) (NoParent-skip q h)

module _ (lookup : Lookup) where
  module _ (fuel : ℕ) (parents : ℕ → Option ℕ) (node c : ℕ) (q : List ℕ) where
    walk_value :
        (next : ℕ)
        → walk_segment lookup parents node (segment (c ∷ q)) ≡ value next
        → walk_loop lookup (suc fuel) parents node (c ∷ q)
          ≡ walk_loop lookup fuel parents next (skip_slashes (after_segment (c ∷ q)))
    unfolding walk_loop
    walk_value next e = rw (e, walk_loop)

    walk_fails :
        (r : VfsResult)
        → walk_segment lookup parents node (segment (c ∷ q)) ≡ fails r
        → walk_loop lookup (suc fuel) parents node (c ∷ q) ≡ some (fails r)
    unfolding walk_loop
    walk_fails r e = rw (e, walk_loop)

  -- The segment is not `..`, so that the parents make no difference.
  same_segment :
      (parents others : ℕ → Option ℕ) (node : ℕ) (s : List ℕ)
      → is_dot_dot s ≡ false
      → walk_segment lookup parents node s ≡ walk_segment lookup others node s
  unfolding walk_segment
  same_segment parents others node s e = rw (e, walk_segment)

  walk_loop-parents :
      (fuel : ℕ) (parents others : ℕ → Option ℕ) (node : ℕ) (p : List ℕ)
      → NoParent p
      → walk_loop lookup fuel parents node p ≡ walk_loop lookup fuel others node p
  walk_loop-parents zero parents others node p h = unfold walk_loop in refl
  walk_loop-parents (suc fuel) parents others node [] h = unfold walk_loop in refl
  walk_loop-parents (suc fuel) parents others node (c ∷ q) h =
      let parts = subst (All (λ s. is_dot_dot s ≡ false)) (pieces_lem (c ∷ q)) h in
      let same = same_segment parents others node (segment (c ∷ q)) parts.0 in
      next (walk_segment lookup parents node (segment (c ∷ q))) refl same (λ n.
        walk_loop-parents fuel parents others n (skip_slashes (after_segment (c ∷ q)))
          (NoParent-more (after_segment (c ∷ q)) (after-Behind (c ∷ q)) parts.1))
    where
      next :
          (o : Outcome ℕ)
          → walk_segment lookup parents node (segment (c ∷ q)) ≡ o
          → walk_segment lookup parents node (segment (c ∷ q))
            ≡ walk_segment lookup others node (segment (c ∷ q))
          → ((n : ℕ)
              → walk_loop lookup fuel parents n (skip_slashes (after_segment (c ∷ q)))
                ≡ walk_loop lookup fuel others n (skip_slashes (after_segment (c ∷ q))))
          → walk_loop lookup (suc fuel) parents node (c ∷ q)
            ≡ walk_loop lookup (suc fuel) others node (c ∷ q)
      next (fails r) e same ih =
          walk_fails fuel parents node c q r e
          ∙ sym (walk_fails fuel others node c q r (sym same ∙ e))
      next (value n) e same ih =
          walk_value fuel parents node c q n e
          ∙ ih n
          ∙ sym (walk_value fuel others node c q n (sym same ∙ e))

  walk_loop_total :
      (fuel : ℕ) (parents : ℕ → Option ℕ) (node : ℕ) (p : List ℕ)
      → length p < fuel
      → (r : Outcome ℕ) × (walk_loop lookup fuel parents node p ≡ some r)
  walk_loop_total zero parents node p l = absurd (omega arith)
  walk_loop_total (suc fuel) parents node [] l = (value node, unfold walk_loop in refl)
  walk_loop_total (suc fuel) parents node (c ∷ q) l =
      next (walk_segment lookup parents node (segment (c ∷ q))) refl (λ n.
        walk_loop_total fuel parents n (skip_slashes (after_segment (c ∷ q)))
          (omega (arith, length_round c q)))
    where
      next :
          (o : Outcome ℕ)
          → walk_segment lookup parents node (segment (c ∷ q)) ≡ o
          → ((n : ℕ)
              → (r : Outcome ℕ) × (walk_loop lookup fuel parents n
                    (skip_slashes (after_segment (c ∷ q)))
                  ≡ some r))
          → (r : Outcome ℕ) × (walk_loop lookup (suc fuel) parents node (c ∷ q) ≡ some r)
      next (fails r) e ih = (fails r, walk_fails fuel parents node c q r e)
      next (value n) e ih = ((ih n).0, walk_value fuel parents node c q n e ∙ (ih n).1)

  pub vfs_walk-parents :
      (parents others : ℕ → Option ℕ) (node : ℕ) (p : List ℕ)
      → NoParent p
      → vfs_walk lookup parents node p ≡ vfs_walk lookup others node p
  unfolding vfs_walk
  vfs_walk-parents parents others node p h =
      walk_loop-parents (suc (length p)) parents others node (skip_slashes p) (NoParent-skip p h)

  pub vfs_walk_total :
      (parents : ℕ → Option ℕ) (node : ℕ) (p : List ℕ)
      → (r : Outcome ℕ) × (vfs_walk lookup parents node p ≡ some r)
  unfolding vfs_walk
  vfs_walk_total parents node p =
      walk_loop_total (suc (length p)) parents node (skip_slashes p) (omega (arith, length_skip p))
