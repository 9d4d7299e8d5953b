-- ===== src/Disk/Volumes.antt =====
-- kernel/storage/VolumeManager.c: partitions of a block device. Names are left out; `made` and `node` say of
-- each entry of a table whether the volume with its name, and its node in the list, are allocated, and
-- `buffers` of the buffers for the boot sector, the header and the table. Bytes of a buffer beyond those that
-- the driver answers are taken for zeros.
pub mod Bounds
pub mod Layout
pub mod Mbr
pub mod Gpt
pub mod Tests
use atom_os.Prelude.{
  ℕ, zero, suc, ◌+◌, ◌-◌, ◌*◌, ◌/◌, ◌%◌, ◌^◌, Bool, true, false, not, ◌&&◌, ◌||◌, Option, none,
  some, List, [], ◌∷◌, ◌++◌, ltb, leb, ◌==◌, if◌then◌else◌, take, drop, get_or, add64, sub64,
}
use atom_os.Disk.{BlockDevice, block_device_read, block_device_write}
use atom_os.Disk.Words.{of_bytes}

pub data VolumeType : Type 0 where
  whole_device mbr_partition gpt_partition : VolumeType

pub record Volume (S : Type 0) : Type 0 where
  pub type : VolumeType
  pub device : BlockDevice S
  pub start_lba : ℕ
  pub block_count : ℕ
  pub block_size : ℕ
  pub mbr_type : ℕ
  pub attributes : ℕ
  pub type_guid : List ℕ
  pub unique_guid : List ℕ

-- The number in `n` bytes from `at` on, the lowest first.
abbrev pub field_at : List ℕ → ℕ → ℕ → ℕ
field_at bytes at n = of_bytes (take n (drop at bytes))

-- The entries of the boot sector.
abbrev pub entry_type : List ℕ → ℕ → ℕ
entry_type sector i = get_or sector (446 + 16 * i + 4) 0

abbrev pub is_zero : List ℕ → Bool
is_zero [] = true
is_zero (b ∷ bytes) = b == 0 && is_zero bytes

-- `BLKDEV_TYPE_CDROM`.
abbrev pub cdrom : ℕ
cdrom = 1

module _ {S : Type 0} where
  abbrev pub volume_allocate : VolumeType → BlockDevice S → ℕ → ℕ → ℕ → Volume S
  volume_allocate type device start_lba blocks block_size = record {
    type = type;
    device = device;
    start_lba = start_lba;
    block_count = blocks;
    block_size = block_size;
    mbr_type = 0;
    attributes = 0;
    type_guid = [];
    unique_guid = [];
  }

  -- The bounds of `Volume_ReadSectors` and `Volume_WriteSectors`, in words of 64 bits.
  abbrev pub outside : Volume S → ℕ → ℕ → Bool
  outside volume lba count =
      ltb (add64 volume.start_lba volume.block_count) (add64 (add64 volume.start_lba lba) count)

  unfoldable pub volume_read_sectors : Volume S → ℕ → ℕ → S → Option (List ℕ) × S
  volume_read_sectors volume lba count s =
      if count == 0
      then (none, s)
      else if outside volume lba count
      then (none, s)
      else block_device_read volume.device (add64 volume.start_lba lba) count s

  unfoldable pub volume_write_sectors : Volume S → ℕ → ℕ → List ℕ → S → Bool × S
  volume_write_sectors volume lba count bytes s =
      if count == 0
      then (false, s)
      else if outside volume lba count
      then (false, s)
      else block_device_write volume.device (add64 volume.start_lba lba) count bytes s

  module _ (buffers made node : ℕ → Bool) (device : BlockDevice S) (block_size : ℕ) where
    -- `volume_manager_add`.
    abbrev pub added : ℕ → List (Volume S) → Volume S → List (Volume S)
    added i volumes volume = if made i && node i then volumes ++ volume ∷ [] else volumes

    abbrev pub gpt_volume : List ℕ → ℕ → Volume S
    gpt_volume entry blocks =
        record (volume_allocate VolumeType.gpt_partition device (field_at entry 32 8) blocks
          block_size) {
            mbr_type = 0xEE;
            attributes = field_at entry 48 8;
            type_guid = take 16 entry;
            unique_guid = take 16 (drop 16 entry);
          }

    -- One round of the loop over the entries of a GPT.
    unfoldable pub gpt_round : ℕ → List ℕ → List (Volume S) → List (Volume S)
    gpt_round i entry volumes =
        let blocks : ℕ = add64 (sub64 (field_at entry 40 8) (field_at entry 32 8)) 1 in
        if is_zero (take 16 entry)
        then volumes
        else if ltb (field_at entry 40 8) (field_at entry 32 8)
        then volumes
        else if blocks == 0
        then volumes
        else added i volumes (gpt_volume entry blocks)

    -- The `k` rounds from `i` on.
    unfoldable pub gpt_loop : ℕ → ℕ → List ℕ → ℕ → List (Volume S) → List (Volume S)
    gpt_loop zero entry_size entries i volumes = volumes
    gpt_loop (suc k) entry_size entries i volumes =
        gpt_loop k entry_size entries (suc i) (gpt_round i (drop (i * entry_size) entries) volumes)

    -- "EFI PART" as a number.
    abbrev pub gpt_signature : ℕ
    gpt_signature = 0x5452415020494645

    -- What has been read of the table.
    unfoldable pub scan_entries :
        List ℕ → List (Volume S) → Option (List ℕ) × S → List (Volume S) × S
    scan_entries header volumes (none, s) = (volumes, s)
    scan_entries header volumes (some entries, s) =
        (gpt_loop (field_at header 80 4) (field_at header 84 4) entries 0 volumes, s)

    -- The table of a header takes up so many blocks.
    abbrev pub blocks_to_read : List ℕ → ℕ
    blocks_to_read header =
        (field_at header 84 4 * field_at header 80 4 + block_size - 1) / block_size

    -- What has been read of the header.
    unfoldable pub scan_header : List (Volume S) → Option (List ℕ) × S → List (Volume S) × S
    scan_header volumes (none, s) = (volumes, s)
    scan_header volumes (some header, s) =
        if not (field_at header 0 8 == gpt_signature)
        then (volumes, s)
        else if ltb (field_at header 84 4) 128 || field_at header 80 4 == 0
        then (volumes, s)
        else if not (buffers 2)
        then (volumes, s)
        else scan_entries header volumes
            (block_device_read device (field_at header 72 8) (blocks_to_read header % 2 ^ 32) s)

    unfoldable pub volume_scan_gpt : List (Volume S) → S → List (Volume S) × S
    volume_scan_gpt volumes s =
        if not (buffers 1)
        then (volumes, s)
        else scan_header volumes (block_device_read device 1 1 s)

    abbrev pub mbr_volume : List ℕ → ℕ → Volume S
    mbr_volume sector i =
        record (volume_allocate VolumeType.mbr_partition device
          (field_at sector (446 + 16 * i + 8) 4) (field_at sector (446 + 16 * i + 12) 4)
          block_size) { mbr_type = entry_type sector i }

    -- One round of the loop over the entries of the boot sector.
    unfoldable pub mbr_round : ℕ → List ℕ → List (Volume S) → List (Volume S)
    mbr_round i sector volumes =
        if entry_type sector i == 0 || field_at sector (446 + 16 * i + 12) 4 == 0
        then volumes
        else added i volumes (mbr_volume sector i)

    abbrev pub mbr_rounds : List ℕ → List (Volume S) → List (Volume S)
    mbr_rounds sector volumes =
        mbr_round 3 sector (mbr_round 2 sector (mbr_round 1 sector (mbr_round 0 sector volumes)))

    abbrev pub gpt_protective : List ℕ → Bool
    gpt_protective sector =
        entry_type sector 0 == 0xEE
        || entry_type sector 1 == 0xEE
        || entry_type sector 2 == 0xEE
        || entry_type sector 3 == 0xEE

    -- What has been read of the boot sector.
    unfoldable pub scan_sector : List (Volume S) → Option (List ℕ) × S → List (Volume S) × S
    scan_sector volumes (none, s) = (volumes, s)
    scan_sector volumes (some sector, s) =
        if not (get_or sector 510 0 == 0x55 && get_or sector 511 0 == 0xAA)
        then (volumes, s)
        else if gpt_protective sector
        then volume_scan_gpt volumes s
        else (mbr_rounds sector volumes, s)

    unfoldable pub volume_scan_mbr : List (Volume S) → S → List (Volume S) × S
    volume_scan_mbr volumes s =
        if not (buffers 0)
        then (volumes, s)
        else scan_sector volumes (block_device_read device 0 1 s)

  -- `logical_block_size`, or 512 where it is 0.
  abbrev pub size_of_blocks : BlockDevice S → ℕ
  size_of_blocks device = if device.logical_block_size == 0 then 512 else device.logical_block_size

  -- The loop of `VolumeManager_Rebuild` from the device `i` on. `whole` says whether the volume of a whole
  -- device is allocated and gets its node; the other flags are those of the scan of each device.
  unfoldable pub rebuild_loop :
      (ℕ → Bool)
      → (ℕ → ℕ → Bool)
      → (ℕ → ℕ → Bool)
      → (ℕ → ℕ → Bool)
      → ℕ
      → List (BlockDevice S)
      → List (Volume S)
      → S
      → List (Volume S) × S
  rebuild_loop whole buffers made node i [] volumes s = (volumes, s)
  rebuild_loop whole buffers made node i (device ∷ devices) volumes s =
      let all : List (Volume S) =
        if whole i
        then volumes
          ++ volume_allocate VolumeType.whole_device device 0 device.total_blocks
              (size_of_blocks device)
            ∷ []
        else volumes in
      let scanned =
        if device.type == cdrom
        then (all, s)
        else volume_scan_mbr (buffers i) (made i) (node i) device (size_of_blocks device) all s in
      rebuild_loop whole buffers made node (suc i) devices scanned.0 scanned.1

  -- The loop of `volume_manager_clear`, which takes the first volume off as long as there is one.
  unfoldable pub volume_manager_clear : List (Volume S) → List (Volume S)
  volume_manager_clear [] = []
  volume_manager_clear (volume ∷ volumes) = volume_manager_clear volumes

  -- `volumes` is the list of before.
  unfoldable pub volume_manager_rebuild :
      (ℕ → Bool)
      → (ℕ → ℕ → Bool)
      → (ℕ → ℕ → Bool)
      → (ℕ → ℕ → Bool)
      → List (BlockDevice S)
      → List (Volume S)
      → S
      → List (Volume S) × S
  volume_manager_rebuild whole buffers made node devices volumes s =
      rebuild_loop whole buffers made node 0 devices (volume_manager_clear volumes) s
