-- ===== src/Disk/Model.antt =====
-- What a client of a block device relies on: the disk behind it is a sequence of bytes, of which the
-- driver reads and writes whole blocks.
use atom_os.Prelude.{ℕ, ◌+◌, ◌*◌, ◌≡◌, ◌≤◌, ◌<◌, ◌⊎◌, true, some, List, length}
use atom_os.Disk.{BlockDevice, block_device_read, block_device_write, block_device_flush}
use atom_os.Disk.Slice.{slice, overwrite}

module _ {S : Type 0} (dev : BlockDevice S) where
  -- The blocks lie on the device; a device that gives no size has them all.
  abbrev pub Served : ℕ → ℕ → Type 0
  Served lba count = (dev.total_blocks ≡ 0) ⊎ (lba + count ≤ dev.total_blocks)

  -- So do the bytes.
  abbrev pub OnDevice : ℕ → ℕ → Type 0
  OnDevice offset size =
      (dev.total_blocks ≡ 0) ⊎ (offset + size ≤ dev.total_blocks * dev.logical_block_size)

  -- `image` is what is on the disk.
  pub record IsDisk (image : S → ℕ → ℕ) : Type 0 where
    pub sized : 0 < dev.logical_block_size
    pub reads :
        (lba count : ℕ) (s : S)
        → 0 < count
        → Served lba count
        → (s' : S) × (block_device_read dev lba count s ≡ (
          some (slice (image s) (lba * dev.logical_block_size) (count * dev.logical_block_size)),
          s',
        ))
          × ((i : ℕ) → image s' i ≡ image s i)
    pub writes :
        (lba : ℕ) (bytes : List ℕ) (s : S)
        → Served lba 1
        → length bytes ≡ dev.logical_block_size
        → (s' : S) × (block_device_write dev lba 1 bytes s ≡ (true, s'))
          × ((i : ℕ) → image s' i ≡ overwrite (image s) (lba * dev.logical_block_size) bytes i)
    pub flushes : (s : S) (i : ℕ) → image (block_device_flush dev s).1 i ≡ image s i
