-- ===== src/Disk/Volumes/Bounds.antt =====
-- `Volume_ReadSectors` and `Volume_WriteSectors` and the bounds of the volume.
use atom_os.Prelude.{
  ℕ, ◌+◌, ◌-◌, ◌≡◌, ◌⊎◌, ◌≤◌, ◌<◌, ap, true, false, none, List, arith, leb, ◌==◌, add64, word,
  Bool-cases, inl, inr,
}
use atom_os.Disk.{block_device_read, block_device_write}
use atom_os.Disk.Volumes.{Volume, outside, volume_read_sectors, volume_write_sectors}

module _ {S : Type 0} (v : Volume S) (lba count : ℕ) (bytes : List ℕ) (s : S) where
  -- Where the volume ends below 2^64, and so does the range counted from the start of the volume, a read or a
  -- write of at least one block is handed to the device, at its place there, if the range lies in the volume;
  -- otherwise it fails and the device is not called.
  pub volume_sectors_within :
      0 < count
      → v.start_lba + v.block_count < word
      → v.start_lba + lba + count < word
      → ((lba + count ≤ v.block_count)
          × (volume_read_sectors v lba count s
              ≡ block_device_read v.device (v.start_lba + lba) count s)
          × (volume_write_sectors v lba count bytes s
              ≡ block_device_write v.device (v.start_lba + lba) count bytes s))
        ⊎ ((v.block_count < lba + count)
            × (volume_read_sectors v lba count s ≡ (none, s))
            × (volume_write_sectors v lba count bytes s ≡ (false, s)))
  unfolding volume_read_sectors volume_write_sectors
  volume_sectors_within l a b =
      let z : (count == 0) ≡ false = ground arith in
      let e : add64 v.start_lba lba ≡ v.start_lba + lba = omega arith in
      elim (Bool-cases (leb (lba + count) v.block_count)) [
        | inl t ↦
            let o : outside v lba count ≡ false = ground (arith, t) in
            inl (
              ground (arith, t),
              simp (z, o) (ap (λ x. block_device_read v.device x count s) e),
              simp (z, o) (ap (λ x. block_device_write v.device x count bytes s) e),
            )
        | inr t ↦
            let o : outside v lba count ≡ true = ground (arith, t) in
            inr (ground (arith, t), simp (z, o), simp (z, o))
      ]

-- The check wraps at 2^64: on a volume that ends below 2^64, for each range of at least one block that lies
-- before the first block of the volume, there is an `lba` of 64 bits, behind the last block of the volume,
-- for which a read and a write of so many blocks are not refused and are handed to the device at that range.
pub volume_sectors_wrapped :
    {S : Type 0} (v : Volume S) (block count : ℕ) (bytes : List ℕ) (s : S)
    → 0 < count
    → block + count ≤ v.start_lba
    → v.start_lba + v.block_count < word
    → (lba : ℕ) × (lba < word)
      × (v.block_count < lba + count)
      × (volume_read_sectors v lba count s ≡ block_device_read v.device block count s)
      × (volume_write_sectors v lba count bytes s ≡ block_device_write v.device block count bytes s)
unfolding volume_read_sectors volume_write_sectors
volume_sectors_wrapped v block count bytes s l k a =
    let lba : ℕ = word + block - v.start_lba in
    let z : (count == 0) ≡ false = ground arith in
    let e : add64 v.start_lba lba ≡ block = omega arith in
    let o : outside v lba count ≡ false = ground (arith, e) in
    (
      lba,
      omega arith,
      omega arith,
      simp (z, o) (ap (λ x. block_device_read v.device x count s) e),
      simp (z, o) (ap (λ x. block_device_write v.device x count bytes s) e),
    )
