-- ===== src/Vfs/Path/Laws.antt =====
-- What `vfs_normalize_path` answers.
use atom_os.Prelude.{
  ℕ, suc, ◌≡◌, ◌≢◌, ◌<◌, ◌∙◌, ap, sym, subst, refl, true, false, ◌||◌, Option, none, some, List, [],
  ◌∷◌, ◌++◌, arith, ◌==◌, ltb, length, All, Bool-cases, inl, inr,
}
use mathlib.Core.List.{append-nil}
use atom_os.Strings.{IsString}
use atom_os.Vfs.Result.{VfsResult, Outcome, value, fails}
use atom_os.Vfs.Path.{slash, is_dot, skip_slashes, Normal, start, written, vfs_normalize_path}
use atom_os.Vfs.Path.Pieces.{
  onto_first, pieces, pieces-slash, pieces_other, length_skip, add_all, add_all-skip,
  normalize_loop_lem,
}
use atom_os.Vfs.Path.Canon.{
  IsName, IsNormal, IsPiece, render, path_of, Keeps, Ensures, add_all-Keeps,
}
use atom_os.Vfs.Path.Plain.{IsPlain, kept, out_of, fitting, add_all-plain}

onto_first-IsPiece :
    (c : ℕ) (ss : List (List ℕ))
    → 0 < c
    → c ≢ slash
    → All IsPiece ss
    → All IsPiece (onto_first c ss)
onto_first-IsPiece c [] l ne h = (((l, ne), tt), tt)
onto_first-IsPiece c (s ∷ ss) l ne h = (((l, ne), h.0), h.1)

pieces-IsPiece : (p : List ℕ) → IsString p → All IsPiece (pieces p)
pieces-IsPiece [] h = unfold pieces in (tt, tt)
pieces-IsPiece (c ∷ p) h = elim (Bool-cases (c == slash)) [
  | inl e ↦ subst (All IsPiece) (sym (pieces-slash c p e)) (tt, pieces-IsPiece p h.1)
  | inr e ↦
      subst (All IsPiece) (sym (pieces_other c p e))
        (onto_first-IsPiece c (pieces p) h.0 (ground (arith, e)) (pieces-IsPiece p h.1))
]

length_skipped : (p : List ℕ) → length (skip_slashes p) < suc (length p)
length_skipped p = omega (arith, length_skip p)

-- The call on a path that begins with a slash.
pub absolute :
    (p : List ℕ) (n : ℕ)
    → 0 < n
    → vfs_normalize_path (some (slash ∷ p)) n ≡ written (some (add_all n start (pieces p)))
unfolding vfs_normalize_path
absolute p n l =
    let some_room : (n == 0) ≡ false = ground arith in
    rw some_room (
      ap written (
        normalize_loop_lem (suc (length p)) n start (skip_slashes p) (length_skipped p)
        ∙ ap some (add_all-skip n start p)))

-- An answer: an error, or a normal path that fits with its terminator.
abbrev pub Normalized : ℕ → Option (Outcome (List ℕ)) → Type 0
Normalized n none = ⊥
Normalized n (some (fails r)) = Unit
Normalized n (some (value out)) = IsNormal out × (length out < n)

written-Normalized : (n : ℕ) (o : Outcome Normal) → Ensures n o → Normalized n (written (some o))
written-Normalized n (fails r) k = tt
written-Normalized n (value st) k = (k.normal, k.fits)

start-Keeps : (n : ℕ) → 1 < n → Keeps n start
start-Keeps n l = record { normal = ([], refl, tt); saved = tt; fits = omega arith }

-- `vfs_normalize_path` of a string, with an output of at least two bytes, ends; where it answers
-- `VFS_RES_OK`, the output is a normal path (a slash in front of each name, no name of which is
-- empty, longer than `VFS_NAME_MAX`, `.` or `..`), and fits with its terminator.
pub vfs_normalize_path_lem :
    (p : List ℕ) (n : ℕ) → IsString p → 1 < n → Normalized n (vfs_normalize_path (some p) n)
vfs_normalize_path_lem [] n h l = subst (Normalized n) (sym answer) (([], refl, tt), l)
  where
    answer : vfs_normalize_path (some []) n ≡ some (value (slash ∷ []))
    answer =
        unfold vfs_normalize_path in
        (let z : (n == 0) ≡ false = ground arith in
          let t : ltb n 2 ≡ false = ground arith in rw z (rw t))
vfs_normalize_path_lem (c ∷ p) n h l = elim (Bool-cases (c == slash)) [
  | inl e ↦
      let root : slash ≡ c = ground (arith, e) in
      subst (λ x. Normalized n (vfs_normalize_path (some (x ∷ p)) n)) root
        (subst (Normalized n) (sym (absolute p n (omega arith))) (
          written-Normalized n (add_all n start (pieces p))
            (add_all-Keeps n start (pieces p) (start-Keeps n l) (pieces-IsPiece p h.1))))
  | inr e ↦ subst (Normalized n) (sym (relative e)) tt
]
  where
    relative :
        (c == slash) ≡ false → vfs_normalize_path (some (c ∷ p)) n ≡ some (fails VfsResult.invalid)
    relative e =
        unfold vfs_normalize_path in (let z : (n == 0) ≡ false = ground arith in rw z (rw e))

written-out_of : (o : Outcome Normal) → written (some o) ≡ some (out_of o)
written-out_of (fails r) = refl
written-out_of (value st) = refl

-- A path that begins with a slash, has no `..` and no name longer than `VFS_NAME_MAX`: the answer is
-- the path of its names, those that are neither empty nor `.`, where that fits with its terminator,
-- and `VFS_RES_NO_SPACE` where it does not.
pub vfs_normalize_path-plain :
    (p : List ℕ) (n : ℕ)
    → All IsPlain (pieces p)
    → 1 < n
    → vfs_normalize_path (some (slash ∷ p)) n ≡ some (fitting n (path_of (kept (pieces p))))
vfs_normalize_path-plain p n h l =
    absolute p n (omega arith)
    ∙ written-out_of (add_all n start (pieces p))
    ∙ ap some (add_all-plain n start [] (pieces p) refl tt l h)

name_other : (c : ℕ) → c ≢ slash → (c == slash) ≡ false
name_other c ne = ground arith

-- The pieces of a normal path are its names.
pieces_end : (s : List ℕ) → IsPiece s → pieces s ≡ s ∷ []
pieces_end [] h = unfold pieces in refl
pieces_end (c ∷ s) h = pieces_other c s (name_other c h.0.1) ∙ ap (onto_first c) (pieces_end s h.1)

pub pieces_name : (s q : List ℕ) → IsPiece s → pieces (s ++ slash ∷ q) ≡ s ∷ pieces q
pieces_name [] q h = pieces-slash slash q refl
pieces_name (c ∷ s) q h =
    pieces_other c (s ++ slash ∷ q) (name_other c h.0.1) ∙ ap (onto_first c) (pieces_name s q h.1)

pub pieces-render :
    (s : List ℕ) (ss : List (List ℕ)) → IsName s → All IsName ss → pieces (s ++ render ss) ≡ s ∷ ss
pieces-render s [] h hs = ap pieces (append-nil s) ∙ pieces_end s h.bytes
pieces-render s (t ∷ ss) h hs =
    pieces_name s (t ++ render ss) h.bytes ∙ ap (λ l. s ∷ l) (pieces-render t ss hs.0 hs.1)

names-IsPlain : (ss : List (List ℕ)) → All IsName ss → All IsPlain ss
names-IsPlain [] h = tt
names-IsPlain (s ∷ ss) h = (
  record { short = h.0.short; bytes = h.0.bytes; no_dot_dot = h.0.no_dot_dot },
  names-IsPlain ss h.1,
)

kept_names : (ss : List (List ℕ)) → All IsName ss → kept ss ≡ ss
unfolding kept
kept_names [] h = refl
kept_names (s ∷ ss) h =
    let t : (length s == 0 || is_dot s) ≡ false = ground (arith, h.0.nonempty, h.0.no_dot) in
    rw t (ap (λ l. s ∷ l) (kept_names ss h.1))

kept_root : kept (pieces []) ≡ []
unfolding kept pieces
kept_root = refl

root-IsPlain : All IsPlain (pieces [])
unfolding pieces
root-IsPlain = (record { short = omega arith; bytes = tt; no_dot_dot = refl }, tt)

room : (n : ℕ) (p : List ℕ) → length p < n → fitting n p ≡ value p
room n p l = let t : ltb (length p) n ≡ true = ground arith in rw t

-- A normal path that fits with its terminator is its own answer.
pub vfs_normalize_path-IsNormal :
    (q : List ℕ) (n : ℕ)
    → IsNormal q
    → length q < n
    → 1 < n
    → vfs_normalize_path (some q) n ≡ some (value q)
vfs_normalize_path-IsNormal q n ([], e, h) l m =
    subst (λ x. vfs_normalize_path (some x) n ≡ some (value x)) (sym e)
      (vfs_normalize_path-plain [] n root-IsPlain m
        ∙ ap (λ ss. some (fitting n (path_of ss))) kept_root
        ∙ ap some (room n (slash ∷ []) m))
vfs_normalize_path-IsNormal q n (s ∷ ss, e, h) l m =
    subst (λ x. vfs_normalize_path (some x) n ≡ some (value x)) (sym e)
      (vfs_normalize_path-plain (s ++ render ss) n
          (subst (All IsPlain) (sym (pieces-render s ss h.0 h.1)) (names-IsPlain (s ∷ ss) h)) m
        ∙ ap (λ ps. some (fitting n (path_of (kept ps)))) (pieces-render s ss h.0 h.1)
        ∙ ap (λ ps. some (fitting n (path_of ps))) (kept_names (s ∷ ss) h)
        ∙ ap some (room n (path_of (s ∷ ss)) (subst (λ x. length x < n) e l)))

-- What `vfs_normalize_path` has answered for a string, it answers again for its own output.
pub vfs_normalize_path_idempotent :
    (p q : List ℕ) (n : ℕ)
    → IsString p
    → 1 < n
    → vfs_normalize_path (some p) n ≡ some (value q)
    → vfs_normalize_path (some q) n ≡ some (value q)
vfs_normalize_path_idempotent p q n h l e =
    let k = subst (Normalized n) e (vfs_normalize_path_lem p n h l) in
    vfs_normalize_path-IsNormal q n k.0 k.1 l
