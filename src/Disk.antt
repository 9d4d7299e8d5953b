-- ===== src/Disk.antt =====
-- Block devices: kernel/storage/BlockDevice.c. What a driver and its disk keep is a type `S`; the
-- driver's operations are functions on it, `none` where the pointer is NULL.
pub mod Stream
pub mod Slice
pub mod Model
pub mod Reads
pub mod Writes
pub mod Sectors
pub mod Words
pub mod Volumes
pub mod Tests
use atom_os.Prelude.{
  ℕ, ◌≡◌, Bool, true, false, not, ◌&&◌, Option, none, some, List, [], ◌∷◌, ◌++◌, ◌==◌,
  if◌then◌else◌, length, get_elem?,
}

-- `read` answers the bytes that it has put into the buffer, where it answers true.
pub record BlockDeviceOps (S : Type 0) : Type 0 where
  pub read : Option (ℕ → ℕ → S → Option (List ℕ) × S)
  pub write : Option (ℕ → ℕ → List ℕ → S → Bool × S)
  pub flush : Option (S → Bool × S)

pub record BlockDevice (S : Type 0) : Type 0 where
  pub type : ℕ
  pub logical_block_size : ℕ
  pub total_blocks : ℕ
  pub ops : BlockDeviceOps S

module _ {S : Type 0} where
  -- `BlockDevice_Register` on the list of devices. The first flag is the allocation of the struct, the
  -- second that of the node of the list.
  unfoldable pub block_device_register :
      Bool
      → Bool
      → List (BlockDevice S)
      → ℕ
      → ℕ
      → ℕ
      → BlockDeviceOps S
      → Option (BlockDevice S) × List (BlockDevice S)
  block_device_register granted node devices type logical_block_size total_blocks ops =
      elim ops.read [
        | none ↦ (none, devices)
        | some op ↦
            if not granted
            then (none, devices)
            else (let d : BlockDevice S = record {
              type = type;
              logical_block_size = if logical_block_size == 0 then 512 else logical_block_size;
              total_blocks = total_blocks;
              ops = ops;
            } in
                (some d, if node then devices ++ d ∷ [] else devices))
      ]

  unfoldable pub block_device_read : BlockDevice S → ℕ → ℕ → S → Option (List ℕ) × S
  block_device_read dev lba count s = elim dev.ops.read [
    | none ↦ (none, s)
    | some op ↦ op lba count s
  ]

  unfoldable pub block_device_write : BlockDevice S → ℕ → ℕ → List ℕ → S → Bool × S
  block_device_write dev lba count bytes s = elim dev.ops.write [
    | none ↦ (false, s)
    | some op ↦ op lba count bytes s
  ]

  unfoldable pub block_device_flush : BlockDevice S → S → Bool × S
  block_device_flush dev s = elim dev.ops.flush [ none ↦ (true, s) | some op ↦ op s ]
