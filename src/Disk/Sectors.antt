-- ===== src/Disk/Sectors.antt =====
-- `DiskStream_ReadSectors` and `DiskStream_ReadSector` beside `DiskStream_Read`.
use native.Mathlib.Nat.{add-mul, mul-le-mul_right, le-div_iff_mul-le}
use atom_os.Prelude.{
  ℕ, ◌+◌, ◌-◌, ◌*◌, ◌/◌, ◌^◌, ◌≡◌, ◌≢◌, ◌⊎◌, ◌≤◌, ◌<◌, ◌∙◌, ap, sym, refl, Bool, true, false, not,
  ◌&&◌, ◌||◌, some, List, arith, ltb, leb, ◌==◌, word, inl, inr,
}
use atom_os.Disk.{block_device_read}
use atom_os.Disk.Stream.{
  DiskStream, device_block, first, others, disk_stream_read, disk_stream_read_sectors,
  disk_stream_read_sector,
}
use atom_os.Disk.Slice.{slice}
use atom_os.Disk.Model.{Served, OnDevice, IsDisk}
use atom_os.Disk.Reads.{IsReadable, disk_stream_read_lem}

module _ {S : Type 0} (st : DiskStream S) (image : S → ℕ → ℕ) (d : IsDisk st.device image)
    (r : IsReadable st) (sector count : ℕ) (l : 0 < count) (h : Served st.device sector count)
    (w : sector * st.device.logical_block_size + count * st.device.logical_block_size ≤ word) where
  bytes_on :
      OnDevice st.device
        (sector * st.device.logical_block_size)
        (count * st.device.logical_block_size)
  bytes_on = whole h
    where
      whole :
          Served st.device sector count
          → OnDevice st.device
              (sector * st.device.logical_block_size)
              (count * st.device.logical_block_size)
      whole (inl e) = inl e
      whole (inr k) = inr (
          omega (
            arith,
            add-mul sector count st.device.logical_block_size,
            mul-le-mul_right {m = sector + count} {n = st.device.total_blocks}
                st.device.logical_block_size k,
          ))

  module _ (m k : List Bool) (s : S) where
    -- On a driver that reads and writes whole blocks of a sequence of bytes: where the stream is open, the
    -- blocks lie on the device, are at least one and at most
    -- 2^32 - 1, their bytes are fewer than 2^64 and end at 2^64 at the latest, and the allocations succeed,
    -- then `disk_stream_read_sectors` answers the bytes that `disk_stream_read` answers for the range that
    -- the blocks take up; a single block is also what `disk_stream_read_sector` answers.
    pub disk_stream_read_sectors-disk_stream_read :
        count < 2 ^ 32
        → count * st.device.logical_block_size < word
        → first m ≡ true
        → first k && first (others k) ≡ true
        → (bytes : List ℕ) × (s' : S) × (s'' : S) × (disk_stream_read_sectors st m sector count s
            ≡ (some bytes, s'))
          × (disk_stream_read st k
                (sector * st.device.logical_block_size)
                (count * st.device.logical_block_size)
                s
              ≡ some (some bytes, s''))
          × ((count ≢ 1) ⊎ (disk_stream_read_sector st m sector s ≡ (some bytes, s')))
    disk_stream_read_sectors-disk_stream_read c b g a =
        let (s', got, same) = d.reads sector count s l h in
        let (s'', reads, also) =
          disk_stream_read_lem st k (sector * st.device.logical_block_size)
            (count * st.device.logical_block_size) s image d r many w bytes_on a in
        (
          slice (image s) (sector * st.device.logical_block_size)
              (count * st.device.logical_block_size),
          s',
          s'',
          sectors ∙ got,
          reads,
          one (dec (count == 1) refl) got,
        )
      where
        dec : (b : Bool) → (count == 1) ≡ b → (count ≢ 1) ⊎ (count ≡ 1)
        dec true e = inr (ground (arith, e))
        dec false e = inl (λ k. ground (arith, e))

        many : 0 < count * st.device.logical_block_size
        many = omega (
          arith,
          d.sized,
          mul-le-mul_right {m = 1} {n = count} st.device.logical_block_size (omega arith),
        )

        on_block : (st.device_type == device_block) ≡ true
        on_block = ground (arith, r.block)

        inside :
            Served st.device sector count
            → (not (st.device.total_blocks == 0)
                && (leb st.device.total_blocks sector
                    || ltb (st.device.total_blocks - sector) count))
              ≡ false
        inside (inl e) = ground (arith, e)
        inside (inr q) = ground (arith, q)

        alone :
            Served st.device sector count
            → (not (st.device.total_blocks == 0) && leb st.device.total_blocks sector) ≡ false
        alone (inl e) = ground (arith, e)
        alone (inr q) = ground (arith, q)

        small : count ≤ (word - 1) / st.device.logical_block_size
        small =
            (le-div_iff_mul-le {k = st.device.logical_block_size} {x = count} {y = word - 1}
                d.sized).1
              (omega (arith, b))

        sectors :
            disk_stream_read_sectors st m sector count s
            ≡ block_device_read st.device sector count s
        sectors =
            unfold disk_stream_read_sectors in
            (let z : (count == 0) ≡ false = ground arith in
              let o : ltb ((word - 1) / st.device.logical_block_size) count ≡ false =
                ground (arith, small) in
              let t : ltb (2 ^ 32 - 1) count ≡ false = ground (arith, c) in
              simp (r.opened, on_block, z, inside h, o, t, g))

        single :
            count ≡ 1
            → disk_stream_read_sector st m sector s ≡ block_device_read st.device sector count s
        single e =
            unfold disk_stream_read_sector in
            (simp (r.opened, on_block, alone h, g)
              (ap (λ n. block_device_read st.device sector n s) (sym e)))

        one :
            {s' : S} {bytes : List ℕ}
            → (count ≢ 1) ⊎ (count ≡ 1)
            → block_device_read st.device sector count s ≡ (some bytes, s')
            → (count ≢ 1) ⊎ (disk_stream_read_sector st m sector s ≡ (some bytes, s'))
        one (inl n) got = inl n
        one (inr e) got = inr (single e ∙ got)
