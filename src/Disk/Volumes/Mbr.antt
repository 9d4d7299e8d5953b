-- ===== src/Disk/Volumes/Mbr.antt =====
-- The scan of a boot sector that has been written.
use mathlib.Core.List.{append_assoc}
use atom_os.Prelude.{
  ℕ, ◌+◌, ◌*◌, ◌≡◌, ◌∙◌, ap, refl, Bool, true, false, ◌&&◌, ◌||◌, some, List, [], ◌∷◌, ◌++◌, arith,
  ◌==◌, length, take, drop, get_or,
}
use atom_os.Disk.{BlockDevice, block_device_read}
use atom_os.Disk.Words.{of_bytes, of_bytes-to_bytes}
use atom_os.Disk.Volumes.{
  VolumeType, Volume, volume_allocate, field_at, entry_type, volume_scan_gpt, mbr_round, mbr_rounds,
  gpt_protective, scan_sector, volume_scan_mbr,
}
use atom_os.Disk.Volumes.Layout.{
  Partition, IsPartition, entry_of, boot_sector, volumes_of, drop_past, get_or_past, two_guards,
  partitions_of,
}

module _ (code : List ℕ) (p q r t : Partition) (rest : List ℕ) (e : length code ≡ 446) where
  abbrev sector : List ℕ
  sector = boot_sector code p q r t rest

  abbrev table : List ℕ
  table = entry_of p ++ (entry_of q ++ (entry_of r ++ (entry_of t ++ 0x55 ∷ 0xAA ∷ rest)))

  -- An entry is read as it was written.
  abbrev Read : ℕ → Partition → Type 0
  Read i x =
      (entry_type sector i ≡ x.type)
      × (field_at sector (446 + 16 * i + 8) 4 ≡ x.first_lba)
      × (field_at sector (446 + 16 * i + 12) 4 ≡ x.sector_count)

  past : (k n v : ℕ) → of_bytes (take n (drop k table)) ≡ v → field_at sector (446 + k) n ≡ v
  past k n v h = ap (λ l. of_bytes (take n l)) (drop_past code table 446 k e) ∙ h

  module _ (hp : IsPartition p) (hq : IsPartition q) (hr : IsPartition r) (ht : IsPartition t) where
    first : Read 0 p
    first = (
      get_or_past code table 446 4 e,
      past 8 4 p.first_lba (of_bytes-to_bytes 4 p.first_lba (omega (arith, hp.lba_fits))),
      past 12 4 p.sector_count (of_bytes-to_bytes 4 p.sector_count (omega (arith, hp.count_fits))),
    )

    second : Read 1 q
    second = (
      get_or_past code table 446 20 e,
      past 24 4 q.first_lba (of_bytes-to_bytes 4 q.first_lba (omega (arith, hq.lba_fits))),
      past 28 4 q.sector_count (of_bytes-to_bytes 4 q.sector_count (omega (arith, hq.count_fits))),
    )

    third : Read 2 r
    third = (
      get_or_past code table 446 36 e,
      past 40 4 r.first_lba (of_bytes-to_bytes 4 r.first_lba (omega (arith, hr.lba_fits))),
      past 44 4 r.sector_count (of_bytes-to_bytes 4 r.sector_count (omega (arith, hr.count_fits))),
    )

    fourth : Read 3 t
    fourth = (
      get_or_past code table 446 52 e,
      past 56 4 t.first_lba (of_bytes-to_bytes 4 t.first_lba (omega (arith, ht.lba_fits))),
      past 60 4 t.sector_count (of_bytes-to_bytes 4 t.sector_count (omega (arith, ht.count_fits))),
    )

  signed : (get_or sector 510 0 == 0x55 && get_or sector 511 0 == 0xAA) ≡ true
  signed = ground (arith, get_or_past code table 446 64 e, get_or_past code table 446 65 e)

  protective :
      {S : Type 0} (buffers made node : ℕ → Bool) (device : BlockDevice S) (block_size : ℕ)
      → gpt_protective buffers made node device block_size sector
        ≡ (p.type == 0xEE || q.type == 0xEE || r.type == 0xEE || t.type == 0xEE)
  protective buffers made node device block_size =
      ap
        (λ x.
          x == 0xEE
          || entry_type sector 1 == 0xEE
          || entry_type sector 2 == 0xEE
          || entry_type sector 3 == 0xEE)
        (get_or_past code table 446 4 e)
      ∙ ap
          (λ x.
            p.type == 0xEE
            || x == 0xEE
            || entry_type sector 2 == 0xEE
            || entry_type sector 3 == 0xEE)
          (get_or_past code table 446 20 e)
      ∙ ap (λ x. p.type == 0xEE || q.type == 0xEE || x == 0xEE || entry_type sector 3 == 0xEE)
          (get_or_past code table 446 36 e)
      ∙ ap (λ x. p.type == 0xEE || q.type == 0xEE || r.type == 0xEE || x == 0xEE)
          (get_or_past code table 446 52 e)

module _ {S : Type 0} (buffers made node : ℕ → Bool) (device : BlockDevice S) (block_size : ℕ) where
  mbr_round_lem :
      (i : ℕ) (sector : List ℕ) (x : Partition) (volumes : List (Volume S))
      → entry_type sector i ≡ x.type
      → field_at sector (446 + 16 * i + 8) 4 ≡ x.first_lba
      → field_at sector (446 + 16 * i + 12) 4 ≡ x.sector_count
      → mbr_round buffers made node device block_size i sector volumes
        ≡ volumes ++ volumes_of made node device block_size i x
  unfolding mbr_round
  mbr_round_lem i sector x volumes a b c =
      rw (mbr_round, a, b, c)
        (two_guards (x.type == 0) (x.sector_count == 0) (made i && node i) volumes (
          record (volume_allocate VolumeType.mbr_partition device x.first_lba x.sector_count
            block_size) { mbr_type = x.type }
          ∷ []))

  module _ (code : List ℕ) (p q r t : Partition) (rest : List ℕ) (e : length code ≡ 446)
      (hp : IsPartition p) (hq : IsPartition q) (hr : IsPartition r) (ht : IsPartition t)
      (volumes : List (Volume S)) where
    abbrev disk_sector : List ℕ
    disk_sector = boot_sector code p q r t rest

    mbr_rounds_lem :
        mbr_rounds buffers made node device block_size disk_sector volumes
        ≡ volumes ++ partitions_of made node device block_size p q r t
    mbr_rounds_lem =
        let read : (i : ℕ) (x : Partition)
            → Read code p q r t rest e i x
            → (vs : List (Volume S))
            → mbr_round buffers made node device block_size i disk_sector vs
              ≡ vs ++ volumes_of made node device block_size i x =
          λ i x h vs. mbr_round_lem i disk_sector x vs h.0 h.1 h.2 in
        rw
          (
            read 0 p (first code p q r t rest e hp hq hr ht),
            read 1 q (second code p q r t rest e hp hq hr ht),
            read 2 r (third code p q r t rest e hp hq hr ht),
            read 3 t (fourth code p q r t rest e hp hq hr ht),
            append_assoc,
            append_assoc,
            append_assoc,
          )
          refl

  -- Let block 0 hold a boot sector: 446 bytes, four entries whose numbers fit into their fields, of which none
  -- has the type 0xEE, and the signature. Where its buffer is allocated and the device answers it, volume_scan_mbr
  -- adds behind the volumes that are there, in the order of the entries, one volume for each entry that has a type
  -- and at least one sector and for which the allocations succeed: with the type, the first block and the number
  -- of blocks that the entry was written with.
  pub volume_scan_mbr-boot_sector :
      (code : List ℕ) (p q r t : Partition) (rest : List ℕ) (volumes : List (Volume S)) (s s' : S)
      → length code ≡ 446
      → IsPartition p
      → IsPartition q
      → IsPartition r
      → IsPartition t
      → (p.type == 0xEE || q.type == 0xEE || r.type == 0xEE || t.type == 0xEE) ≡ false
      → buffers 0 ≡ true
      → block_device_read device 0 1 s ≡ (some (boot_sector code p q r t rest), s')
      → volume_scan_mbr buffers made node device block_size volumes s
        ≡ (volumes ++ partitions_of made node device block_size p q r t, s')
  unfolding volume_scan_mbr scan_sector
  volume_scan_mbr-boot_sector code p q r t rest volumes s s' e hp hq hr ht none_ee b read =
      rw
        (
          volume_scan_mbr,
          b,
          read,
          signed code p q r t rest e,
          protective code p q r t rest e buffers made node device block_size,
          none_ee,
          mbr_rounds_lem code p q r t rest e hp hq hr ht volumes,
        )
        refl

  -- A boot sector with a protective entry hands over to the GPT.
  pub volume_scan_mbr-protective :
      (code : List ℕ) (p q r t : Partition) (rest : List ℕ) (volumes : List (Volume S)) (s s' : S)
      → length code ≡ 446
      → (p.type == 0xEE || q.type == 0xEE || r.type == 0xEE || t.type == 0xEE) ≡ true
      → buffers 0 ≡ true
      → block_device_read device 0 1 s ≡ (some (boot_sector code p q r t rest), s')
      → volume_scan_mbr buffers made node device block_size volumes s
        ≡ volume_scan_gpt buffers made node device block_size volumes s'
  unfolding volume_scan_mbr scan_sector
  volume_scan_mbr-protective code p q r t rest volumes s s' e ee b read =
      rw
        (
          volume_scan_mbr,
          b,
          read,
          signed code p q r t rest e,
          protective code p q r t rest e buffers made node device block_size,
          ee,
        )
        refl
