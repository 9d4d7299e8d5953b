-- ===== src/Disk/Volumes/Gpt.antt =====
-- The scan of a GPT that has been written.
use native.Mathlib.Nat.{suc-mul, zero-mul}
use mathlib.Core.List.{append_assoc, append-nil}
use atom_os.Prelude.{
  ℕ, suc, ◌+◌, ◌-◌, ◌*◌, ◌/◌, ◌%◌, ◌≡◌, ◌<◌, ◌≤◌, ◌^◌, ◌∙◌, ap, sym, refl, Bool, true, false, ◌&&◌,
  ◌||◌, some, List, [], ◌∷◌, ◌++◌, arith, ltb, ◌==◌, length, take, drop, word, add64, sub64, All,
}
use atom_os.Disk.{BlockDevice, block_device_read}
use atom_os.Disk.Words.{of_bytes, to_bytes, of_bytes-to_bytes}
use atom_os.Disk.Volumes.{
  VolumeType, Volume, volume_allocate, field_at, is_zero, gpt_round, gpt_loop, scan_entries,
  scan_header, volume_scan_gpt, volume_scan_mbr,
}
use atom_os.Disk.Volumes.Layout.{
  Partition, boot_sector, GptPartition, IsGptPartition, gpt_entry, gpt_table, gpt_header,
  gpt_volumes_of, gpt_partitions_of, drop_past, drop_front, drop-drop, take_front, round_guards,
}
use atom_os.Disk.Volumes.Mbr.{volume_scan_mbr-protective}

module _ (size : ℕ) (p : GptPartition) (h : IsGptPartition size p) (rest : List ℕ) where
  abbrev entry : List ℕ
  entry = gpt_entry p rest

  abbrev body : List ℕ
  body =
      to_bytes 8 p.first_lba
      ++ (to_bytes 8 p.last_lba ++ (to_bytes 8 p.attributes ++ (p.name ++ rest)))

  entry_field :
      (k n v : ℕ) → of_bytes (take n (drop k body)) ≡ v → field_at entry (16 + (16 + k)) n ≡ v
  entry_field k n v e =
      ap (λ l. of_bytes (take n l))
        (drop_past p.type_guid (p.unique_guid ++ body) 16 (16 + k) h.type_fits
          ∙ drop_past p.unique_guid body 16 k h.unique_fits)
      ∙ e

  entry_guid : take 16 entry ≡ p.type_guid
  entry_guid = take_front p.type_guid (p.unique_guid ++ body) 16 h.type_fits

  entry_unique : take 16 (drop 16 entry) ≡ p.unique_guid
  entry_unique =
      ap (take 16) (drop_past p.type_guid (p.unique_guid ++ body) 16 0 h.type_fits)
      ∙ take_front p.unique_guid body 16 h.unique_fits

  entry_first : field_at entry 32 8 ≡ p.first_lba
  entry_first =
      entry_field 0 8 p.first_lba (of_bytes-to_bytes 8 p.first_lba (omega (arith, h.first_fits)))

  entry_last : field_at entry 40 8 ≡ p.last_lba
  entry_last =
      entry_field 8 8 p.last_lba (of_bytes-to_bytes 8 p.last_lba (omega (arith, h.last_fits)))

  entry_attributes : field_at entry 48 8 ≡ p.attributes
  entry_attributes =
      entry_field 16 8 p.attributes
        (of_bytes-to_bytes 8 p.attributes (omega (arith, h.attributes_fit)))

  -- The entry behind it.
  entry_rest : drop size entry ≡ rest
  entry_rest =
      let n = length p.name in
      let e : size ≡ 16 + (16 + (24 + n)) = omega (arith, h.sized) in
      ap (λ m. drop m entry) e
      ∙ drop_past p.type_guid (p.unique_guid ++ body) 16 (16 + (24 + n)) h.type_fits
      ∙ drop_past p.unique_guid body 16 (24 + n) h.unique_fits
      ∙ drop-drop 24 n body
      ∙ drop_front p.name rest

module _ {S : Type 0} (buffers made node : ℕ → Bool) (device : BlockDevice S) (block_size : ℕ) where
  gpt_round_lem :
      (size i : ℕ) (p : GptPartition) (rest : List ℕ) (volumes : List (Volume S))
      → IsGptPartition size p
      → gpt_round buffers made node device block_size i (gpt_entry p rest) volumes
        ≡ volumes ++ gpt_volumes_of made node device block_size i p
  unfolding gpt_round
  gpt_round_lem size i p rest volumes h =
      rw
        (
          gpt_round,
          entry_guid size p h rest,
          entry_unique size p h rest,
          entry_first size p h rest,
          entry_last size p h rest,
          entry_attributes size p h rest,
        )
        (round_guards (is_zero p.type_guid) (ltb p.last_lba p.first_lba)
          (p.last_lba + 1 - p.first_lba == word) (made i && node i)
          (add64 (sub64 p.last_lba p.first_lba) 1) (p.last_lba + 1 - p.first_lba) volumes
          (λ blocks.
            record (volume_allocate VolumeType.gpt_partition device p.first_lba blocks block_size) {
              mbr_type = 0xEE;
              attributes = p.attributes;
              type_guid = p.type_guid;
              unique_guid = p.unique_guid;
            })
          (λ y w. ground (arith, h.first_fits, h.last_fits, y, w))
          (λ y w. ground (arith, h.first_fits, h.last_fits, y, w)) (λ w y. ground (arith, y)))

  -- The loop over a table.
  gpt_loop_lem :
      (size : ℕ) (ps : List GptPartition) (rest entries : List ℕ) (i : ℕ)
      (volumes : List (Volume S))
      → All (IsGptPartition size) ps
      → drop (i * size) entries ≡ gpt_table ps rest
      → gpt_loop buffers made node device block_size (length ps) size entries i volumes
        ≡ volumes ++ gpt_partitions_of made node device block_size i ps
  unfolding gpt_loop
  gpt_loop_lem size [] rest entries i volumes a e = sym (append-nil volumes)
  gpt_loop_lem size (p ∷ ps) rest entries i volumes (h, a) e =
      rw (gpt_loop, e, gpt_round_lem size i p (gpt_table ps rest) volumes h)
        (gpt_loop_lem size ps rest entries (suc i)
            (volumes ++ gpt_volumes_of made node device block_size i p) a
            (ap (λ m. drop m entries) (suc-mul i size)
              ∙ drop-drop (i * size) size entries
              ∙ ap (drop size) e
              ∙ entry_rest size p h (gpt_table ps rest))
          ∙ append_assoc volumes _ _)

  module _ (others : List ℕ) (lba count size : ℕ) (tail : List ℕ) (e : length others ≡ 64) where
    abbrev header : List ℕ
    header = gpt_header others lba count size tail

    abbrev numbers : List ℕ
    numbers = to_bytes 8 lba ++ (to_bytes 4 count ++ (to_bytes 4 size ++ tail))

    header_field :
        (k n v : ℕ)
        → of_bytes (take n (drop k numbers)) ≡ v
        → of_bytes (take n (drop (64 + k) (others ++ numbers))) ≡ v
    header_field k n v f = ap (λ l. of_bytes (take n l)) (drop_past others numbers 64 k e) ∙ f

    header_lba : lba < word → field_at header 72 8 ≡ lba
    header_lba l = header_field 0 8 lba (of_bytes-to_bytes 8 lba (omega (arith, l)))

    header_count : count < 2 ^ 32 → field_at header 80 4 ≡ count
    header_count l = header_field 8 4 count (of_bytes-to_bytes 4 count (omega (arith, l)))

    header_size : size < 2 ^ 32 → field_at header 84 4 ≡ size
    header_size l = header_field 12 4 size (of_bytes-to_bytes 4 size (omega (arith, l)))

  -- The scan behind the header.
  scan_header_lem :
      (others : List ℕ) (lba size : ℕ) (tail : List ℕ) (ps : List GptPartition) (rest : List ℕ)
      (volumes : List (Volume S)) (s s' : S)
      → length others ≡ 64
      → lba < word
      → 128 ≤ size
      → size < 2 ^ 32
      → 0 < length ps
      → length ps < 2 ^ 32
      → All (IsGptPartition size) ps
      → (size * length ps + block_size - 1) / block_size < 2 ^ 32
      → buffers 2 ≡ true
      → block_device_read device lba ((size * length ps + block_size - 1) / block_size) s
        ≡ (some (gpt_table ps rest), s')
      → scan_header buffers made node device block_size volumes
          (some (gpt_header others lba (length ps) size tail), s)
        ≡ (volumes ++ gpt_partitions_of made node device block_size 0 ps, s')
  unfolding scan_header scan_entries
  scan_header_lem others lba size tail ps rest volumes s s' e l m k c d a w b read =
      let small : ltb size 128 ≡ false = ground arith in
      let some_entries : (length ps == 0) ≡ false = ground arith in
      let wide : (size * length ps + block_size - 1) / block_size % 2 ^ 32
          ≡ (size * length ps + block_size - 1) / block_size =
        omega (arith, w) in
      let counted = header_count others lba (length ps) size tail e d in
      let sized = header_size others lba (length ps) size tail e k in
      rw
        (
          header_lba others lba (length ps) size tail e l,
          counted,
          sized,
          small,
          some_entries,
          b,
          wide,
          read,
        )
        (rw
          (
            scan_entries,
            counted,
            sized,
            gpt_loop_lem size ps rest (gpt_table ps rest) 0 volumes a
                (ap (λ m. drop m (gpt_table ps rest)) (zero-mul size)),
          )
          refl)

  -- Let block 0 hold a boot sector with an entry of the type 0xEE, block 1 a GPT header, and the blocks from the
  -- header's place on a table of at least one entry, each of the size that the header gives, which is 128 or
  -- more, with numbers that fit into their fields; and let the table take up fewer than 2^32 blocks. Where the
  -- buffers are allocated and the device answers the three reads, volume_scan_mbr adds behind the volumes that
  -- are there, in the order of the table, one volume for each entry that has a type, does not end before it
  -- begins, does not have 2^64 blocks, and for which the allocations succeed: from the first block that the entry
  -- was written with to the last, both counted, with its attributes and its GUIDs.
  pub volume_scan_mbr-gpt_table :
      (code : List ℕ) (p q r t : Partition) (end : List ℕ) (others : List ℕ) (lba size : ℕ)
      (tail : List ℕ) (ps : List GptPartition) (rest : List ℕ) (volumes : List (Volume S))
      (s s1 s2 s3 : S)
      → length code ≡ 446
      → (p.type == 0xEE || q.type == 0xEE || r.type == 0xEE || t.type == 0xEE) ≡ true
      → length others ≡ 64
      → lba < word
      → 128 ≤ size
      → size < 2 ^ 32
      → 0 < length ps
      → length ps < 2 ^ 32
      → All (IsGptPartition size) ps
      → (size * length ps + block_size - 1) / block_size < 2 ^ 32
      → buffers 0 ≡ true
      → buffers 1 ≡ true
      → buffers 2 ≡ true
      → block_device_read device 0 1 s ≡ (some (boot_sector code p q r t end), s1)
      → block_device_read device 1 1 s1 ≡ (some (gpt_header others lba (length ps) size tail), s2)
      → block_device_read device lba ((size * length ps + block_size - 1) / block_size) s2
        ≡ (some (gpt_table ps rest), s3)
      → volume_scan_mbr buffers made node device block_size volumes s
        ≡ (volumes ++ gpt_partitions_of made node device block_size 0 ps, s3)
  unfolding volume_scan_gpt
  volume_scan_mbr-gpt_table code p q r t end others lba size tail ps rest volumes s s1 s2 s3 e ee f
        l m k c d a w b0 b1 b2 r0 r1 r2 =
      volume_scan_mbr-protective buffers made node device block_size code p q r t end volumes s s1 e
        ee b0 r0
      ∙ rw (volume_scan_gpt, b1, r1)
          (scan_header_lem others lba size tail ps rest volumes s2 s3 f l m k c d a w b2 r2)
