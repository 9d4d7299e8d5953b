-- ===== src/Disk/Volumes/Tests.antt =====
-- A boot sector with two partitions, a disk with a GPT, and the properties of volumes at it.
use atom_os.Prelude.{
  ℕ, ◌+◌, ◌*◌, ◌≡◌, ◌⊎◌, ◌≤◌, ◌<◌, refl, Bool, true, false, none, some, List, [], ◌∷◌, ◌++◌, arith,
  word, ◌==◌, if◌then◌else◌, zero, suc, length, ◌^◌,
}
use atom_os.Disk.{BlockDevice, block_device_read, block_device_write}
use atom_os.Disk.Slice.{slice, overwrite}
use atom_os.Disk.Volumes.{
  VolumeType, Volume, volume_allocate, volume_read_sectors, volume_manager_rebuild,
  volume_write_sectors, mbr_round, scan_sector, volume_scan_mbr, rebuild_loop, volume_manager_clear,
}
use atom_os.Disk.Volumes.Layout.{
  Partition, IsPartition, boot_sector, partitions_of, GptPartition, IsGptPartition, gpt_header,
  gpt_table, gpt_partitions_of,
}
use atom_os.Disk.Volumes.Mbr.{volume_scan_mbr-boot_sector}
use atom_os.Disk.Volumes.Gpt.{volume_scan_mbr-gpt_table}
use atom_os.Disk.Volumes.Bounds.{volume_sectors_within, volume_sectors_wrapped}

abbrev sectors : BlockDevice (ℕ → ℕ)
sectors = record {
  type = 0;
  logical_block_size = 512;
  total_blocks = 100;
  ops = record {
    read = some (λ lba count s. (some (slice s (lba * 512) (count * 512)), s));
    write = some (λ lba count bytes s. (true, overwrite s (lba * 512) bytes));
    flush = none;
  };
}

-- A FAT partition of 20 blocks from block 10 on, and one of 5 blocks from block 40 on in the third entry.
abbrev boot : ℕ → ℕ
boot i =
    if i == 450
    then 0x0C
    else if i == 454
    then 10
    else if i == 458
    then 20
    else if i == 482
    then 0x83
    else if i == 486
    then 40
    else if i == 490
    then 5
    else if i == 510
    then 0x55
    else if i == 511
    then 0xAA
    else 0

abbrev always : ℕ → Bool
always i = true

two_partitions :
    (volume_scan_mbr always always always sectors 512 [] boot).0
    ≡ record (volume_allocate VolumeType.mbr_partition sectors 10 20 512) { mbr_type = 0x0C }
      ∷ record (volume_allocate VolumeType.mbr_partition sectors 40 5 512) { mbr_type = 0x83 }
      ∷ []
unfolding volume_scan_mbr scan_sector mbr_round block_device_read
two_partitions = refl

abbrev partition : Volume (ℕ → ℕ)
partition = volume_allocate VolumeType.mbr_partition sectors 10 20 512

abbrev zeros : ℕ → List ℕ
zeros zero = []
zeros (suc n) = 0 ∷ zeros n

abbrev unused : Partition
unused = record {
  status = 0;
  chs_first = (0, 0, 0);
  type = 0;
  chs_last = (0, 0, 0);
  first_lba = 0;
  sector_count = 0;
}

abbrev fat : Partition
fat = record unused { type = 0x0C; first_lba = 10; sector_count = 20 }

abbrev linux : Partition
linux = record unused { type = 0x83; first_lba = 40; sector_count = 5 }

small : (x : Partition) → x.first_lba < 2 ^ 32 → x.sector_count < 2 ^ 32 → IsPartition x
small x l m = record { lba_fits = l; count_fits = m }

boot_block :
    block_device_read sectors 0 1 boot
    ≡ (some (boot_sector (zeros 446) fat unused linux unused []), boot)
unfolding block_device_read
boot_block = refl

volume_scan_mbr-boot_sector_example :
    volume_scan_mbr always always always sectors 512 (partition ∷ []) boot
    ≡ ((partition ∷ []) ++ partitions_of always always sectors 512 fat unused linux unused, boot)
volume_scan_mbr-boot_sector_example =
    volume_scan_mbr-boot_sector always always always sectors 512 (zeros 446) fat unused linux unused
      [] (partition ∷ []) boot boot refl (small fat (omega arith) (omega arith))
      (small unused (omega arith) (omega arith)) (small linux (omega arith) (omega arith))
      (small unused (omega arith) (omega arith)) refl refl boot_block

volume_sectors_within_example :
    ((3 + 2 ≤ 20)
      × (volume_read_sectors partition 3 2 boot ≡ block_device_read sectors 13 2 boot)
      × (volume_write_sectors partition 3 2 [] boot ≡ block_device_write sectors 13 2 [] boot))
    ⊎ ((20 < 3 + 2)
        × (volume_read_sectors partition 3 2 boot ≡ (none, boot))
        × (volume_write_sectors partition 3 2 [] boot ≡ (false, boot)))
volume_sectors_within_example =
    volume_sectors_within partition 3 2 [] boot (omega arith) (omega arith) (omega arith)

volume_sectors_wrapped_example :
    (lba : ℕ) × (lba < word)
    × (20 < lba + 1)
    × (volume_read_sectors partition lba 1 boot ≡ block_device_read sectors 0 1 boot)
    × (volume_write_sectors partition lba 1 [] boot ≡ block_device_write sectors 0 1 [] boot)
volume_sectors_wrapped_example =
    volume_sectors_wrapped partition 0 1 [] boot (omega arith) (omega arith) (omega arith)

-- A disk of whole blocks.
abbrev Blocks : Type 0
Blocks = ℕ → List ℕ

abbrev blocks_of : ℕ → ℕ → Blocks → List ℕ
blocks_of lba zero s = []
blocks_of lba (suc n) s = s lba ++ blocks_of (suc lba) n s

abbrev blocks : BlockDevice Blocks
blocks = record {
  type = 0;
  logical_block_size = 512;
  total_blocks = 100;
  ops = record {
    read = some (λ lba count s. (some (blocks_of lba count s), s));
    write = none;
    flush = none;
  };
}

-- A protective boot sector, and a table in block 2 of a partition from block 34 to block 63 and an unused entry.
abbrev protected : Partition
protected = record unused { type = 0xEE; first_lba = 1; sector_count = 99 }

abbrev data_partition : GptPartition
data_partition = record {
  type_guid = 7 ∷ zeros 15;
  unique_guid = 9 ∷ zeros 15;
  first_lba = 34;
  last_lba = 63;
  attributes = 0;
  name = zeros 72;
}

abbrev no_partition : GptPartition
no_partition = record data_partition {
  type_guid = zeros 16;
  unique_guid = zeros 16;
  first_lba = 0;
  last_lba = 0;
}

abbrev entries : List GptPartition
entries = data_partition ∷ no_partition ∷ []

abbrev gpt_disk : Blocks
gpt_disk i =
    if i == 0
    then boot_sector (zeros 446) protected unused unused unused []
    else if i == 1
    then gpt_header (zeros 64) 2 2 128 (zeros 424)
    else if i == 2
    then gpt_table entries (zeros 256)
    else zeros 512

sized :
    (p : GptPartition)
    → length p.type_guid ≡ 16
    → length p.unique_guid ≡ 16
    → p.first_lba < word
    → p.last_lba < word
    → p.attributes < word
    → 56 + length p.name ≡ 128
    → IsGptPartition 128 p
sized p a b c d e f = record {
  type_fits = a;
  unique_fits = b;
  first_fits = c;
  last_fits = d;
  attributes_fit = e;
  sized = f;
}

one_volume :
    gpt_partitions_of always always blocks 512 0 entries
    ≡ record (volume_allocate VolumeType.gpt_partition blocks 34 30 512) {
      mbr_type = 0xEE;
      type_guid = 7 ∷ zeros 15;
      unique_guid = 9 ∷ zeros 15;
    }
      ∷ []
one_volume = refl

gpt_block_0 :
    block_device_read blocks 0 1 gpt_disk
    ≡ (some (boot_sector (zeros 446) protected unused unused unused []), gpt_disk)
unfolding block_device_read
gpt_block_0 = refl

gpt_block_1 :
    block_device_read blocks 1 1 gpt_disk
    ≡ (some (gpt_header (zeros 64) 2 2 128 (zeros 424)), gpt_disk)
unfolding block_device_read
gpt_block_1 = refl

gpt_block_2 :
    block_device_read blocks 2 1 gpt_disk ≡ (some (gpt_table entries (zeros 256)), gpt_disk)
unfolding block_device_read
gpt_block_2 = refl

volume_scan_mbr-gpt_table_example :
    volume_scan_mbr always always always blocks 512 [] gpt_disk
    ≡ (gpt_partitions_of always always blocks 512 0 entries, gpt_disk)
volume_scan_mbr-gpt_table_example =
    volume_scan_mbr-gpt_table always always always blocks 512 (zeros 446) protected unused unused
      unused [] (zeros 64) 2 128 (zeros 424) entries (zeros 256) [] gpt_disk gpt_disk gpt_disk
      gpt_disk refl refl refl (omega arith) (omega arith) (omega arith) (omega arith) (omega arith)
      (
        sized data_partition refl refl (omega arith) (omega arith) (omega arith) refl,
        (sized no_partition refl refl (omega arith) (omega arith) (omega arith) refl, tt),
      )
      (omega arith) refl refl refl gpt_block_0 gpt_block_1 gpt_block_2

abbrev everywhere : ℕ → ℕ → Bool
everywhere i j = true

-- A volume of before is not kept.
rebuilt :
    (volume_manager_rebuild always everywhere everywhere everywhere
      (sectors ∷ [])
      (partition ∷ [])
      boot).0
    ≡ volume_allocate VolumeType.whole_device sectors 0 100 512
      ∷ record partition { mbr_type = 0x0C }
      ∷ record (volume_allocate VolumeType.mbr_partition sectors 40 5 512) { mbr_type = 0x83 }
      ∷ []
unfolding volume_manager_rebuild rebuild_loop volume_manager_clear volume_scan_mbr scan_sector
    mbr_round block_device_read
rebuilt = refl
