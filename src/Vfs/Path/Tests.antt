-- ===== src/Vfs/Path/Tests.antt =====
-- Runs of `vfs_normalize_path`.
use atom_os.Prelude.{ℕ, ◌≡◌, refl, some, List, [], ◌∷◌, ◌++◌, arith, All}
use atom_os.Strings.{IsString}
use atom_os.Vfs.Result.{VfsResult, value, fails}
use atom_os.Vfs.Path.{
  slash, path_max, skip_slashes, segment, after_segment, pop_segment, put_segment, add_segment,
  normalize_loop, vfs_normalize_path,
}
use atom_os.Vfs.Path.Pieces.{pieces}
use atom_os.Vfs.Path.Canon.{IsName, path_of}
use atom_os.Vfs.Path.Plain.{IsPlain, kept, fitting}
use atom_os.Vfs.Path.Laws.{Normalized, vfs_normalize_path_lem, vfs_normalize_path-plain}
use atom_os.Vfs.Path.DotDot.{parent, vfs_normalize_path-parent}

-- "a" and "bc".
abbrev letter : List ℕ
letter = 97 ∷ []

abbrev word : List ℕ
word = 98 ∷ 99 ∷ []

-- "/a//./bc/".
abbrev untidy : List ℕ
untidy = 47 ∷ 97 ∷ 47 ∷ 47 ∷ 46 ∷ 47 ∷ 98 ∷ 99 ∷ 47 ∷ []

-- "/a/bc".
abbrev tidy : List ℕ
tidy = 47 ∷ 97 ∷ 47 ∷ 98 ∷ 99 ∷ []

untidy-IsString : IsString untidy
untidy-IsString = (
  omega arith,
  (
    omega arith,
    (
      omega arith,
      (omega arith, (omega arith, (omega arith, (omega arith, (omega arith, (omega arith, tt)))))),
    ),
  ),
)

tidied : vfs_normalize_path (some untidy) path_max ≡ some (value tidy)
unfolding vfs_normalize_path normalize_loop add_segment put_segment pop_segment skip_slashes segment
    after_segment
tidied = refl

too_small : vfs_normalize_path (some untidy) 5 ≡ some (fails VfsResult.no_space)
unfolding vfs_normalize_path normalize_loop add_segment put_segment pop_segment skip_slashes segment
    after_segment
too_small = refl

letter-IsName : IsName letter
letter-IsName = record {
  nonempty = omega arith;
  short = omega arith;
  bytes = ((omega arith, omega arith), tt);
  no_dot = refl;
  no_dot_dot = refl;
}

IsPlain-pieces : All IsPlain (pieces (97 ∷ 47 ∷ 98 ∷ 99 ∷ []))
unfolding pieces
IsPlain-pieces = (
  record { short = omega arith; bytes = ((omega arith, omega arith), tt); no_dot_dot = refl },
  (
    record {
      short = omega arith;
      bytes = ((omega arith, omega arith), ((omega arith, omega arith), tt));
      no_dot_dot = refl;
    },
    tt,
  ),
)

vfs_normalize_path_lem_example : Normalized 1024 (vfs_normalize_path (some untidy) 1024)
vfs_normalize_path_lem_example = vfs_normalize_path_lem untidy 1024 untidy-IsString (omega arith)

vfs_normalize_path-plain_example :
    vfs_normalize_path (some tidy) 64
    ≡ some (fitting 64 (path_of (kept (pieces (97 ∷ 47 ∷ 98 ∷ 99 ∷ [])))))
vfs_normalize_path-plain_example =
    vfs_normalize_path-plain (97 ∷ 47 ∷ 98 ∷ 99 ∷ []) 64 IsPlain-pieces (omega arith)

vfs_normalize_path-parent_example :
    vfs_normalize_path (some (slash ∷ (letter ++ slash ∷ parent))) 64
    ≡ some (value (slash ∷ letter))
vfs_normalize_path-parent_example = vfs_normalize_path-parent letter 64 letter-IsName (omega arith)
