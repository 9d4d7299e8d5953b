-- ===== src/Vfs/Handles.antt =====
-- The handles of kernel/filesystem/VFS.c: `VFS_Open` to `VFS_SeekHandle`, and `VFS_NodeStat`. What the
-- drivers keep, and the memory that buffers point to, is a type `S`. The operations are given a handle that
-- is not NULL; a buffer that is NULL is `none`.
pub mod Laws
use atom_os.Prelude.{
  ℕ, ◌+◌, ◌-◌, ◌%◌, ◌/◌, Bool, true, false, not, ◌&&◌, ◌||◌, Option, none, some, List, ltb, ◌==◌,
  if◌then◌else◌, add64,
}
use atom_os.Strings.{ℤ}
use atom_os.Vfs.Result.{VfsResult, Outcome, value, fails}
use atom_os.Vfs.State.{Vfs, Lookup, granted, spend, is_ok}
use atom_os.Vfs.Resolve.{vfs_resolve}

pub record VfsHandle : Type 0 where
  pub node : ℕ
  pub driver_handle : ℕ
  pub mode : ℕ
  pub offset : ℕ

pub record VfsNodeInfo : Type 0 where
  pub type : ℕ
  pub flags : ℕ
  pub size : ℕ
  pub inode : ℕ
  pub atime : ℕ
  pub mtime : ℕ
  pub ctime : ℕ

pub data VfsSeekWhence : Type 0 where
  set : VfsSeekWhence
  cur : VfsSeekWhence
  end : VfsSeekWhence
  other : VfsSeekWhence

-- The nodes' types and flags, and their `ops` where these are not NULL. `read` and `write` are given
-- the driver's handle, the offset, the buffer and the size.
pub record NodeOps (S : Type 0) : Type 0 where
  pub type_of : ℕ → ℕ
  pub flags_of : ℕ → ℕ
  pub open_node : ℕ → Option (ℕ → S → VfsResult × ℕ × S)
  pub close : ℕ → Option (ℕ → S → VfsResult × S)
  pub read : ℕ → Option (ℕ → ℕ → ℕ → ℕ → S → ℤ × S)
  pub write : ℕ → Option (ℕ → ℕ → ℕ → ℕ → S → ℤ × S)
  pub truncate : ℕ → Option (ℕ → ℕ → S → VfsResult × S)
  pub stat : ℕ → Option (S → VfsResult × VfsNodeInfo × S)

-- `VFS_OPEN_READ` is bit 0 of the mode, `VFS_OPEN_WRITE` bit 1.
unfoldable pub vfs_handle_can_write : VfsHandle → Bool
vfs_handle_can_write h = h.mode / 2 % 2 == 1

unfoldable pub vfs_handle_can_read : VfsHandle → Bool
vfs_handle_can_read h =
    if h.mode % 2 == 1
    then true
    else if not (h.mode % 2 == 1) && not (h.mode / 2 % 2 == 1)
    then true
    else false

-- A positive count moves the offset.
unfoldable pub advance : VfsHandle → ℤ → VfsHandle
advance h (ℤ.pos n) = if ltb 0 n then record h { offset = add64 h.offset n } else h
advance h (ℤ.negsuc n) = h

-- The base and the signed offset that is added to it.
unfoldable pub sought : ℕ → ℤ → Option ℕ
sought base (ℤ.pos n) = some (add64 base n)
sought base (ℤ.negsuc n) = if ltb base (n + 1) then none else some (base - (n + 1))

abbrev pub minus_one : ℤ
minus_one = ℤ.negsuc 0

abbrev pub moved_to : VfsHandle → Option ℕ → VfsResult × VfsHandle
moved_to h none = (VfsResult.invalid, h)
moved_to h (some position) = (VfsResult.ok, record h { offset = position })

module _ {S : Type 0} (ops : NodeOps S) where
  unfoldable pub vfs_read_at : VfsHandle → ℕ → Option ℕ → ℕ → S → ℤ × S
  vfs_read_at h offset none size s = (minus_one, s)
  vfs_read_at h offset (some buffer) size s =
      if size == 0 || not (vfs_handle_can_read h) then (minus_one, s) else elim (ops.read h.node) [
        | none ↦ (minus_one, s)
        | some op ↦ op h.driver_handle offset buffer size s
      ]

  unfoldable pub vfs_write_at : VfsHandle → ℕ → Option ℕ → ℕ → S → ℤ × S
  vfs_write_at h offset none size s = (minus_one, s)
  vfs_write_at h offset (some buffer) size s =
      if size == 0 || not (vfs_handle_can_write h)
      then (minus_one, s)
      else elim (ops.write h.node) [
        | none ↦ (minus_one, s)
        | some op ↦ op h.driver_handle offset buffer size s
      ]

  unfoldable pub vfs_read : VfsHandle → Option ℕ → ℕ → S → ℤ × VfsHandle × S
  vfs_read h none size s = (minus_one, h, s)
  vfs_read h (some buffer) size s =
      if size == 0
      then (minus_one, h, s)
      else if not (vfs_handle_can_read h)
      then (minus_one, h, s)
      else elim (ops.read h.node) [
        | none ↦ (minus_one, h, s)
        | some op ↦
            let (read_bytes, s') = op h.driver_handle h.offset buffer size s in
            (read_bytes, advance h read_bytes, s')
      ]

  unfoldable pub vfs_write : VfsHandle → Option ℕ → ℕ → S → ℤ × VfsHandle × S
  vfs_write h none size s = (minus_one, h, s)
  vfs_write h (some buffer) size s =
      if size == 0
      then (minus_one, h, s)
      else if not (vfs_handle_can_write h)
      then (minus_one, h, s)
      else elim (ops.write h.node) [
        | none ↦ (minus_one, h, s)
        | some op ↦
            let (written, s') = op h.driver_handle h.offset buffer size s in
            (written, advance h written, s')
      ]

  unfoldable pub vfs_truncate_handle : VfsHandle → ℕ → S → VfsResult × S
  vfs_truncate_handle h length s =
      if not (vfs_handle_can_write h) then (VfsResult.access, s) else elim (ops.truncate h.node) [
        | none ↦ (VfsResult.unsupported, s)
        | some op ↦ op h.driver_handle length s
      ]

  unfoldable pub vfs_node_stat : ℕ → S → VfsResult × VfsNodeInfo × S
  vfs_node_stat node s = elim (ops.stat node) [
    | some op ↦ op s
    | none ↦ (
      VfsResult.ok,
      record {
        type = ops.type_of node;
        flags = ops.flags_of node;
        size = 0;
        inode = 0;
        atime = 0;
        mtime = 0;
        ctime = 0;
      },
      s,
    )
  ]

  unfoldable pub vfs_seek_handle : VfsHandle → ℤ → VfsSeekWhence → S → VfsResult × VfsHandle × S
  vfs_seek_handle h (ℤ.negsuc n) VfsSeekWhence.set s = (VfsResult.invalid, h, s)
  vfs_seek_handle h (ℤ.pos n) VfsSeekWhence.set s =
      ((moved_to h (some n)).0, (moved_to h (some n)).1, s)
  vfs_seek_handle h offset VfsSeekWhence.cur s =
      ((moved_to h (sought h.offset offset)).0, (moved_to h (sought h.offset offset)).1, s)
  vfs_seek_handle h offset VfsSeekWhence.end s =
      let (res, info, s') = vfs_node_stat h.node s in
      if not (is_ok res)
      then (VfsResult.error, h, s')
      else ((moved_to h (sought info.size offset)).0, (moved_to h (sought info.size offset)).1, s')
  vfs_seek_handle h offset VfsSeekWhence.other s = (VfsResult.invalid, h, s)

  -- The driver opens the node, where it can.
  unfoldable pub opened : ℕ → ℕ → S → Option VfsHandle × S
  opened node mode s = elim (ops.open_node node) [
    | none ↦ (some (record { node = node; driver_handle = 0; mode = mode; offset = 0 }), s)
    | some op ↦
        let (res, driver_handle, s') = op mode s in
        if not (is_ok res) then (none, s') else (
          some (record { node = node; driver_handle = driver_handle; mode = mode; offset = 0 }),
          s',
        )
  ]

  unfoldable pub vfs_open :
      Lookup → Vfs → Option (List ℕ) → ℕ → S → Option (Option VfsHandle × Vfs × S)
  vfs_open lookup v path mode s = elim (vfs_resolve lookup v path) [
    | none ↦ none
    | some (fails r, v') ↦ some (none, v', s)
    | some (value node, v') ↦
        if not (granted v')
        then some (none, spend v', s)
        else some ((opened node mode s).0, spend v', (opened node mode s).1)
  ]

  unfoldable pub vfs_close : VfsHandle → S → VfsResult × S
  vfs_close h s = elim (ops.close h.node) [
    | none ↦ (VfsResult.ok, s)
    | some op ↦ op h.driver_handle s
  ]
