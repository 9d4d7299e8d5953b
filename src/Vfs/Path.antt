-- ===== src/Vfs/Path.antt =====
-- `vfs_normalize_path` of kernel/filesystem/VFS.c. A path is its bytes up to the terminator; the
-- pointer `p` is the list of the bytes from there on, and `out_path` up to `len` is the list `out`.
pub mod Pieces
pub mod Canon
pub mod Plain
pub mod Laws
pub mod DotDot
pub mod Tests
use atom_os.Prelude.{
  ℕ, zero, suc, ◌+◌, Bool, true, false, ◌&&◌, Option, none, some, List, [], ◌∷◌, ◌++◌, ltb, leb,
  ◌==◌, if◌then◌else◌, length, take, get_or,
}
use atom_os.Vfs.Result.{VfsResult, Outcome, value, fails}

abbrev pub slash : ℕ
slash = 47

abbrev pub dot : ℕ
dot = 46

-- `VFS_NAME_MAX`, `VFS_PATH_MAX` and `VFS_MAX_SEGMENTS`.
abbrev pub name_max : ℕ
name_max = 255

abbrev pub path_max : ℕ
path_max = 1024

abbrev pub max_segments : ℕ
max_segments = 512

-- `while (*p == '/') p++;`
unfoldable pub skip_slashes : List ℕ → List ℕ
skip_slashes [] = []
skip_slashes (c ∷ p) = if c == slash then skip_slashes p else c ∷ p

-- The bytes up to the next slash, and what is left.
unfoldable pub segment : List ℕ → List ℕ
segment [] = []
segment (c ∷ p) = if c == slash then [] else c ∷ segment p

unfoldable pub after_segment : List ℕ → List ℕ
after_segment [] = []
after_segment (c ∷ p) = if c == slash then c ∷ p else after_segment p

-- `out_path`, and the first `depth` of the `offsets`, the last one first.
pub record Normal : Type 0 where
  pub out : List ℕ
  pub offsets : List ℕ

abbrev pub is_dot : List ℕ → Bool
is_dot s = length s == 1 && get_or s 0 0 == dot

abbrev pub is_dot_dot : List ℕ → Bool
is_dot_dot s = length s == 2 && get_or s 0 0 == dot && get_or s 1 0 == dot

-- `depth--; len = offsets[depth];`
unfoldable pub pop_segment : List ℕ → List ℕ → Normal
pop_segment out [] = record { out = out; offsets = [] }
pop_segment out (o ∷ os) = record { out = take o out; offsets = os }

-- The bytes of the segment go behind `out`, and the new length onto the offsets.
unfoldable pub put_segment : ℕ → List ℕ → List ℕ → List ℕ → Outcome Normal
put_segment out_size out offsets s =
    if leb out_size (length out + length s)
    then fails VfsResult.no_space
    else value (record {
      out = out ++ s;
      offsets =
          if ltb (length offsets) max_segments then (length out + length s) ∷ offsets else offsets;
    })

-- What the loop does with one segment.
unfoldable pub add_segment : ℕ → Normal → List ℕ → Outcome Normal
add_segment out_size st s =
    if length s == 0
    then value st
    else if ltb name_max (length s)
    then fails VfsResult.invalid
    else if is_dot s
    then value st
    else if is_dot_dot s
    then value (pop_segment st.out st.offsets)
    else if ltb 1 (length st.out)
    then (if leb out_size (length st.out + 1)
        then fails VfsResult.no_space
        else put_segment out_size (st.out ++ slash ∷ []) st.offsets s)
    else put_segment out_size st.out st.offsets s

-- The loop over the path; `none` means that it runs out of fuel.
unfoldable pub normalize_loop : ℕ → ℕ → Normal → List ℕ → Option (Outcome Normal)
normalize_loop zero out_size st p = none
normalize_loop (suc fuel) out_size st [] = some (value st)
normalize_loop (suc fuel) out_size st (c ∷ q) = elim (add_segment out_size st (segment (c ∷ q))) [
  | fails r ↦ some (fails r)
  | value st' ↦ normalize_loop fuel out_size st' (skip_slashes (after_segment (c ∷ q)))
]

abbrev pub start : Normal
start = record { out = slash ∷ []; offsets = [] }

abbrev pub written : Option (Outcome Normal) → Option (Outcome (List ℕ))
written none = none
written (some (fails r)) = some (fails r)
written (some (value st)) = some (value st.out)

-- A path has fewer segments than bytes.
unfoldable pub vfs_normalize_path : Option (List ℕ) → ℕ → Option (Outcome (List ℕ))
vfs_normalize_path none out_size = some (fails VfsResult.invalid)
vfs_normalize_path (some []) out_size =
    if out_size == 0
    then some (fails VfsResult.invalid)
    else if ltb out_size 2
    then some (fails VfsResult.no_space)
    else some (value (slash ∷ []))
vfs_normalize_path (some (c ∷ p)) out_size =
    if out_size == 0
    then some (fails VfsResult.invalid)
    else if c == slash
    then written (normalize_loop (suc (length p)) out_size start (skip_slashes p))
    else some (fails VfsResult.invalid)
