-- ===== src/Vfs/Path/Pieces.antt =====
-- The loop of `vfs_normalize_path` as a pass over the pieces between the slashes.
use atom_os.Prelude.{
  ℕ, zero, suc, ◌≡◌, ◌<◌, ◌≤◌, ◌∙◌, ap, sym, subst, refl, true, false, some, List, [], ◌∷◌, arith,
  ◌==◌, if◌then◌else◌, length, Bool-cases, inl, inr,
}
use mathlib.Core.Path.{ap₂}
use atom_os.Vfs.Result.{VfsResult, Outcome, value, fails}
use atom_os.Vfs.Path.{
  slash, skip_slashes, segment, after_segment, Normal, add_segment, normalize_loop,
}

-- A byte in front of the first piece.
abbrev pub onto_first : ℕ → List (List ℕ) → List (List ℕ)
onto_first c [] = (c ∷ []) ∷ []
onto_first c (s ∷ ss) = (c ∷ s) ∷ ss

-- The pieces between the slashes; there may be empty ones.
unfoldable pub pieces : List ℕ → List (List ℕ)
pieces [] = [] ∷ []
pieces (c ∷ p) = if c == slash then [] ∷ pieces p else onto_first c (pieces p)

-- One segment after the other, up to the first failure.
unfoldable pub add_all : ℕ → Normal → List (List ℕ) → Outcome Normal
add_all out_size st [] = value st
add_all out_size st (s ∷ ss) = elim (add_segment out_size st s) [
  | fails r ↦ fails r
  | value st' ↦ add_all out_size st' ss
]

add_all_empty :
    (n : ℕ) (st : Normal) (ss : List (List ℕ)) → add_all n st ([] ∷ ss) ≡ add_all n st ss
unfolding add_all add_segment
add_all_empty n st ss = refl

module _ (c : ℕ) (p : List ℕ) where
  pub skip_slash : (c == slash) ≡ true → skip_slashes (c ∷ p) ≡ skip_slashes p
  unfolding skip_slashes
  skip_slash e = rw e

  pub skip_other : (c == slash) ≡ false → skip_slashes (c ∷ p) ≡ c ∷ p
  unfolding skip_slashes
  skip_other e = rw e

  pub pieces-slash : (c == slash) ≡ true → pieces (c ∷ p) ≡ [] ∷ pieces p
  unfolding pieces
  pieces-slash e = rw e

  pub pieces_other : (c == slash) ≡ false → pieces (c ∷ p) ≡ onto_first c (pieces p)
  unfolding pieces
  pieces_other e = rw e

  segment-slash : (c == slash) ≡ true → segment (c ∷ p) ≡ []
  unfolding segment
  segment-slash e = rw e

  segment_other : (c == slash) ≡ false → segment (c ∷ p) ≡ c ∷ segment p
  unfolding segment
  segment_other e = rw e

  after_slash : (c == slash) ≡ true → after_segment (c ∷ p) ≡ c ∷ p
  unfolding after_segment
  after_slash e = rw e

  after_other : (c == slash) ≡ false → after_segment (c ∷ p) ≡ after_segment p
  unfolding after_segment
  after_other e = rw e

pub add_all-skip :
    (n : ℕ) (st : Normal) (p : List ℕ)
    → add_all n st (pieces (skip_slashes p)) ≡ add_all n st (pieces p)
add_all-skip n st [] = unfold skip_slashes in refl
add_all-skip n st (c ∷ p) = elim (Bool-cases (c == slash)) [
  | inl e ↦
      ap (λ q. add_all n st (pieces q)) (skip_slash c p e)
      ∙ add_all-skip n st p
      ∙ sym (add_all_empty n st (pieces p))
      ∙ sym (ap (add_all n st) (pieces-slash c p e))
  | inr e ↦ ap (λ q. add_all n st (pieces q)) (skip_other c p e)
]

-- What is left behind a segment is nothing, or begins with a slash.
abbrev pub Behind : List ℕ → Type 0
Behind [] = Unit
Behind (c ∷ p) = (c == slash) ≡ true

pub after-Behind : (p : List ℕ) → Behind (after_segment p)
after-Behind [] = unfold after_segment in tt
after-Behind (c ∷ p) = elim (Bool-cases (c == slash)) [
  | inl e ↦ subst Behind (sym (after_slash c p e)) e
  | inr e ↦ subst Behind (sym (after_other c p e)) (after-Behind p)
]

abbrev pub more : List ℕ → List (List ℕ)
more [] = []
more (c ∷ p) = pieces p

-- The first piece is the segment, and the others are those behind it.
pub pieces_lem : (p : List ℕ) → pieces p ≡ segment p ∷ more (after_segment p)
pieces_lem [] = unfold pieces segment after_segment in refl
pieces_lem (c ∷ p) = elim (Bool-cases (c == slash)) [
  | inl e ↦
      pieces-slash c p e ∙ sym (ap₂ (λ s q. s ∷ more q) (segment-slash c p e) (after_slash c p e))
  | inr e ↦
      pieces_other c p e
      ∙ ap (onto_first c) (pieces_lem p)
      ∙ sym (ap₂ (λ s q. s ∷ more q) (segment_other c p e) (after_other c p e))
]

pub add_all-more :
    (n : ℕ) (st : Normal) (q : List ℕ)
    → Behind q
    → add_all n st (pieces (skip_slashes q)) ≡ add_all n st (more q)
add_all-more n st [] h = unfold skip_slashes pieces in add_all_empty n st []
add_all-more n st (c ∷ q) h =
    ap (λ q. add_all n st (pieces q)) (skip_slash c q h) ∙ add_all-skip n st q

pub length_skip : (p : List ℕ) → length (skip_slashes p) ≤ length p
unfolding skip_slashes
length_skip [] = omega arith
length_skip (c ∷ p) = ground (arith, length_skip p)

pub length_after : (p : List ℕ) → length (after_segment p) ≤ length p
unfolding after_segment
length_after [] = omega arith
length_after (c ∷ p) = ground (arith, length_after p)

pub length_round : (c : ℕ) (p : List ℕ) → length (skip_slashes (after_segment (c ∷ p))) ≤ length p
length_round c p = elim (Bool-cases (c == slash)) [
  | inl e ↦ rw (after_slash c p e) (rw (skip_slash c p e) (length_skip p))
  | inr e ↦ rw (after_other c p e) (omega (arith, length_skip (after_segment p), length_after p))
]

module _ (n : ℕ) (st : Normal) (s : List ℕ) (ss : List (List ℕ)) where
  pub add_all_value :
      (st' : Normal) → add_segment n st s ≡ value st' → add_all n st (s ∷ ss) ≡ add_all n st' ss
  unfolding add_all
  add_all_value st' e = rw (e, add_all)

  pub add_all_fails :
      (r : VfsResult) → add_segment n st s ≡ fails r → add_all n st (s ∷ ss) ≡ fails r
  unfolding add_all
  add_all_fails r e = rw (e, add_all)

module _ (fuel n : ℕ) (st : Normal) (c : ℕ) (q : List ℕ) where
  loop_value :
      (st' : Normal)
      → add_segment n st (segment (c ∷ q)) ≡ value st'
      → normalize_loop (suc fuel) n st (c ∷ q)
        ≡ normalize_loop fuel n st' (skip_slashes (after_segment (c ∷ q)))
  unfolding normalize_loop
  loop_value st' e = rw (e, normalize_loop)

  loop_fails :
      (r : VfsResult)
      → add_segment n st (segment (c ∷ q)) ≡ fails r
      → normalize_loop (suc fuel) n st (c ∷ q) ≡ some (fails r)
  unfolding normalize_loop
  loop_fails r e = rw (e, normalize_loop)

  one_round :
      (o : Outcome Normal)
      → add_segment n st (segment (c ∷ q)) ≡ o
      → ((st' : Normal)
          → normalize_loop fuel n st' (skip_slashes (after_segment (c ∷ q)))
            ≡ some (add_all n st' (pieces (skip_slashes (after_segment (c ∷ q))))))
      → normalize_loop (suc fuel) n st (c ∷ q) ≡ some (add_all n st (pieces (c ∷ q)))
  one_round (fails r) e ih =
      loop_fails r e
      ∙ ap some (
          sym (
            ap (add_all n st) (pieces_lem (c ∷ q))
            ∙ add_all_fails n st (segment (c ∷ q)) (more (after_segment (c ∷ q))) r e))
  one_round (value st') e ih =
      loop_value st' e
      ∙ ih st'
      ∙ ap some (
          add_all-more n st' (after_segment (c ∷ q)) (after-Behind (c ∷ q))
          ∙ sym (
              ap (add_all n st) (pieces_lem (c ∷ q))
              ∙ add_all_value n st (segment (c ∷ q)) (more (after_segment (c ∷ q))) st' e))

-- With more fuel than bytes the loop ends, and has taken the pieces one after the other.
pub normalize_loop_lem :
    (fuel n : ℕ) (st : Normal) (p : List ℕ)
    → length p < fuel
    → normalize_loop fuel n st p ≡ some (add_all n st (pieces p))
normalize_loop_lem zero n st p l = absurd (omega arith)
normalize_loop_lem (suc fuel) n st [] l = unfold normalize_loop pieces add_all add_segment in refl
normalize_loop_lem (suc fuel) n st (c ∷ q) l =
    one_round fuel n st c q (add_segment n st (segment (c ∷ q))) refl (λ st'.
      normalize_loop_lem fuel n st' (skip_slashes (after_segment (c ∷ q)))
        (omega (arith, length_round c q)))
