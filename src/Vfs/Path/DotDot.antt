-- ===== src/Vfs/Path/DotDot.antt =====
-- `..` in `vfs_normalize_path`: the lengths are saved behind each name, not in front of it.
use atom_os.Prelude.{
  ℕ, suc, ◌+◌, ◌≡◌, ◌<◌, ◌∙◌, ap, refl, false, ◌||◌, some, List, [], ◌∷◌, ◌++◌, arith, ◌==◌, leb,
  length, take, take_all,
}
use atom_os.Vfs.Result.{value}
use atom_os.Vfs.Path.{
  slash, dot, is_dot, Normal, pop_segment, put_segment, add_segment, start, written,
  vfs_normalize_path,
}
use atom_os.Vfs.Path.Pieces.{pieces, add_all, add_all_value}
use atom_os.Vfs.Path.Canon.{IsName, put_name}
use atom_os.Vfs.Path.Plain.{taken_in}
use atom_os.Vfs.Path.Laws.{absolute, pieces_name}

abbrev pub parent : List ℕ
parent = dot ∷ dot ∷ []

module _ (s : List ℕ) (n : ℕ) (h : IsName s) (l : suc (length s) < n) where
  -- Behind the name, its own length is saved.
  abbrev behind : Normal
  behind = record { out = slash ∷ s; offsets = (1 + length s) ∷ [] }

  first_name : add_segment n start s ≡ value behind
  first_name =
      let e : (length s == 0 || is_dot s) ≡ false = ground (arith, h.nonempty, h.no_dot) in
      taken_in n start s (record { short = h.short; bytes = h.bytes; no_dot_dot = h.no_dot_dot }) e
      ∙ put
    where
      put : put_name n start s ≡ value behind
      put =
          unfold put_name put_segment in
          (let t : leb n (1 + length s) ≡ false = ground arith in rw t)

  back : add_segment n behind parent ≡ value (record { out = slash ∷ s; offsets = [] })
  unfolding add_segment pop_segment
  back =
      let e : 1 + length s ≡ suc (length s) = omega arith in
      ap (λ o. value (record { out = o; offsets = [] }))
        (ap (λ k. take k (slash ∷ s)) e ∙ take_all (slash ∷ s))

  parent_piece : pieces parent ≡ parent ∷ []
  unfolding pieces
  parent_piece = refl

  ended :
      add_all n (record { out = slash ∷ s; offsets = [] }) []
      ≡ value (record { out = slash ∷ s; offsets = [] })
  unfolding add_all
  ended = refl

  -- For each name, the parent of its path comes out as the path itself, not as the root.
  pub vfs_normalize_path-parent :
      vfs_normalize_path (some (slash ∷ (s ++ slash ∷ parent))) n ≡ some (value (slash ∷ s))
  vfs_normalize_path-parent =
      absolute (s ++ slash ∷ parent) n (omega arith)
      ∙ ap (λ ps. written (some (add_all n start ps)))
          (pieces_name s parent h.bytes ∙ ap (λ ps. s ∷ ps) parent_piece)
      ∙ ap (λ o. written (some o))
          (add_all_value n start s (parent ∷ []) behind first_name
            ∙ add_all_value n behind parent [] (record { out = slash ∷ s; offsets = [] }) back
            ∙ ended)
