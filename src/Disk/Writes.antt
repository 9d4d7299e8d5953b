-- ===== src/Disk/Writes.antt =====
-- What `DiskStream_Write` leaves on the disk.
use atom_os.Prelude.{
  ℕ, zero, suc, ◌+◌, ◌-◌, ◌*◌, ◌/◌, ◌%◌, ◌≡◌, ◌≤◌, ◌<◌, ◌≢◌, ◌∙◌, ap, sym, refl, Bool, true, false,
  ◌&&◌, some, List, [], ◌∷◌, arith, ltb, leb, ◌==◌, if◌then◌else◌, length, take, drop, get_or,
  add64, word, length-take, Bool-cases, inl, inr, ◌⊎◌,
}
use atom_os.Disk.{BlockDevice, block_device_write, block_device_flush}
use atom_os.Disk.Stream.{
  DiskStream, device_block, first, others, chunk_at, patch, diskstream_can_write, write_chunk,
  write_loop, flushed, disk_stream_write, disk_stream_read,
}
use atom_os.Disk.Slice.{
  slice, overwrite, slice_same, slice-overwrite, overwrite-overwrite, overwrite-patch, length-patch,
  length-drop, take-drop,
}
use atom_os.Disk.Model.{Served, OnDevice, IsDisk}
use atom_os.Disk.Reads.{
  at_offset, in_block, Served-offset, in_range, off_range, no_overflow, overflow, IsReadable,
  disk_stream_read_lem,
}

-- A write over a range that reads the same.
overwrite_same :
    (f g : ℕ → ℕ) (a : ℕ) (bytes : List ℕ)
    → ((i : ℕ) → f i ≡ g i)
    → (i : ℕ) → overwrite f a bytes i ≡ overwrite g a bytes i
overwrite_same f g a bytes h i =
    ap (λ x. if leb a i && ltb i (a + length bytes) then get_or bytes (i - a) 0 else x) (h i)

module _ {S : Type 0} (dev : BlockDevice S) (image : S → ℕ → ℕ) (d : IsDisk dev image) where
  abbrev pub Writes : ℕ → List ℕ → S → Bool × S → Type 0
  Writes offset bytes s o =
      (s' : S) × (o ≡ (true, s')) × ((i : ℕ) → image s' i ≡ overwrite (image s) offset bytes i)

  module _ (offset : ℕ) (bytes : List ℕ) (s : S)
      (served : Served dev (offset / dev.logical_block_size) 1)
      (fits : offset % dev.logical_block_size + length bytes ≤ dev.logical_block_size) where
    whole :
        offset % dev.logical_block_size ≡ 0
        → length bytes ≡ dev.logical_block_size
        → Writes offset bytes s (block_device_write dev (offset / dev.logical_block_size) 1 bytes s)
    whole z e =
        let (s', runs, put) = d.writes (offset / dev.logical_block_size) bytes s served e in
        let q : offset / dev.logical_block_size * dev.logical_block_size ≡ offset =
          omega (arith, at_offset dev d.sized offset) in
        (s', runs, λ i. put i ∙ ap (λ a. overwrite (image s) a bytes i) q)

    abbrev block : List ℕ
    block =
        slice (image s) (offset / dev.logical_block_size * dev.logical_block_size)
          (1 * dev.logical_block_size)

    part :
        (u : S)
        → ((i : ℕ) → image u i ≡ image s i)
        → Writes offset bytes s (
            block_device_write dev
              (offset / dev.logical_block_size)
              1
              (patch block (offset % dev.logical_block_size) bytes)
              u)
    part u same =
        let a : ℕ = offset / dev.logical_block_size * dev.logical_block_size in
        let n : ℕ = 1 * dev.logical_block_size in
        let p : ℕ = offset % dev.logical_block_size in
        let l : p + length bytes ≤ n = omega arith in
        let e : length (patch block p bytes) ≡ dev.logical_block_size =
          omega (arith, length-patch (image s) a n p bytes l) in
        let (s', runs, put) =
          d.writes (offset / dev.logical_block_size) (patch block p bytes) u served e in
        (
          s',
          runs,
          λ i.
              put i
              ∙ overwrite_same (image u) (image s) a (patch block p bytes) same i
              ∙ overwrite-patch (image s) a n p bytes l i
              ∙ ap (λ b. overwrite (image s) b bytes i) (at_offset dev d.sized offset),
        )

    write_chunk_lem : Writes offset bytes s (write_chunk dev offset bytes s)
    unfolding write_chunk
    write_chunk_lem =
        let (u, got, same) = d.reads (offset / dev.logical_block_size) 1 s (omega arith) served in
        elim (Bool-cases
          (offset % dev.logical_block_size == 0 && length bytes == dev.logical_block_size)) [
            | inl t ↦ simp t (whole (ground (arith, t)) (ground (arith, t)))
            | inr t ↦ simp (t, got, write_chunk) (part u same)
          ]

-- Nothing written changes nothing.
overwrite_nothing : (f : ℕ → ℕ) (a i : ℕ) → overwrite f a [] i ≡ f i
overwrite_nothing f a i = ground arith

-- The place of the next byte may wrap around, when there is none.
overwrite_moved :
    (f : ℕ → ℕ) (offset c : ℕ) (bytes : List ℕ)
    → offset + c + length bytes ≤ word
    → (i : ℕ) → overwrite f (add64 offset c) bytes i ≡ overwrite f (offset + c) bytes i
overwrite_moved f offset c [] k i =
    overwrite_nothing f (add64 offset c) i ∙ sym (overwrite_nothing f (offset + c) i)
overwrite_moved f offset c (b ∷ bytes) k i =
    let q : add64 offset c ≡ offset + c = omega arith in ap (λ a. overwrite f a (b ∷ bytes) i) q

module _ {S : Type 0} (dev : BlockDevice S) (image : S → ℕ → ℕ) (d : IsDisk dev image) where
  -- The first chunk of the bytes, and the others.
  chained :
      (f g h : ℕ → ℕ) (offset c : ℕ) (bytes : List ℕ)
      → c ≤ length bytes
      → offset + length bytes ≤ word
      → ((i : ℕ) → g i ≡ overwrite f offset (take c bytes) i)
      → ((i : ℕ) → h i ≡ overwrite g (add64 offset c) (drop c bytes) i)
      → (i : ℕ) → h i ≡ overwrite f offset bytes i
  chained f g h offset c bytes l w p q i =
      let e : length (take c bytes) ≡ c = length-take c bytes l in
      q i
      ∙ overwrite_moved g offset c (drop c bytes) (omega (arith, length-drop c bytes)) i
      ∙ overwrite_same g (overwrite f offset (take c bytes)) (offset + c) (drop c bytes) p i
      ∙ ap (λ n. overwrite (overwrite f offset (take c bytes)) (offset + n) (drop c bytes) i)
          (sym e)
      ∙ overwrite-overwrite f offset (take c bytes) (drop c bytes) i
      ∙ ap (λ b. overwrite f offset b i) (take-drop c bytes)

  write_loop_lem :
      (fuel : ℕ) (bytes : List ℕ) (offset : ℕ) (s : S)
      → length bytes < fuel
      → offset + length bytes ≤ word
      → OnDevice dev offset (length bytes)
      → (s' : S) × (write_loop fuel dev bytes offset s ≡ some (true, s'))
        × ((i : ℕ) → image s' i ≡ overwrite (image s) offset bytes i)
  write_loop_lem zero bytes offset s l w h = absurd (omega arith)
  write_loop_lem (suc fuel) [] offset s l w h =
      (s, unfold write_loop in refl, λ i. sym (overwrite_nothing (image s) offset i))
  write_loop_lem (suc fuel) (b ∷ bytes) offset s l w h =
      let all : List ℕ = b ∷ bytes in
      let served = Served-offset dev d.sized offset (length all) (omega arith) h in
      let c : ℕ = chunk_at dev offset (length all) in
      let bounds : (0 < c) × (c ≤ length all) =
        (omega (arith, in_block dev d.sized offset), omega arith) in
      let e : length (take c all) ≡ c = length-take c all bounds.1 in
      let (u, put, now) =
        write_chunk_lem dev image d offset (take c all) s served
          (omega (arith, e, in_block dev d.sized offset)) in
      let (s', runs, then') =
        write_loop_lem fuel (drop c all) (add64 offset c) u
          (omega (arith, length-drop c all, bounds)) (omega (arith, length-drop c all, bounds))
          (still c bounds h) in
      (
        s',
        unrolled u put ∙ runs,
        chained (image s) (image u) (image s') offset c all bounds.1 w now then',
      )
    where
      still :
          (c : ℕ)
          → (0 < c) × (c ≤ length (b ∷ bytes))
          → OnDevice dev offset (length (b ∷ bytes))
          → OnDevice dev (add64 offset c) (length (drop c (b ∷ bytes)))
      still c k (inl z) = inl z
      still c k (inr r) = inr (omega (arith, k, r, length-drop c (b ∷ bytes)))

      unrolled :
          (u : S)
          → write_chunk dev offset (take (chunk_at dev offset (length (b ∷ bytes))) (b ∷ bytes)) s
            ≡ (true, u)
          → write_loop (suc fuel) dev (b ∷ bytes) offset s
            ≡ write_loop fuel dev
                (drop (chunk_at dev offset (length (b ∷ bytes))) (b ∷ bytes))
                (add64 offset (chunk_at dev offset (length (b ∷ bytes))))
                u
      unrolled u put =
          unfold write_loop in
          (let z : (length (b ∷ bytes) == 0) ≡ false = ground arith in simp (z, put, write_loop))

-- A stream that is open for writing on a block device that can write.
pub record IsWritable {S : Type 0} (st : DiskStream S) : Type 0 where
  pub readable : IsReadable st
  pub writable : st.readonly ≡ false
  pub op : ℕ → ℕ → List ℕ → S → Bool × S
  pub has_op : st.device.ops.write ≡ some op

module _ {S : Type 0} (st : DiskStream S) (m : List Bool) (offset : ℕ) (bytes : List ℕ)
    (s : S) where
  -- On a driver that reads and writes whole blocks of a sequence of bytes: where the stream is open for
  -- writing, there are bytes to write, which end at 2^64 at the
  -- latest and lie on the device, and the allocation succeeds, `disk_stream_write` ends, and leaves the bytes
  -- on the disk from the offset on, and every other byte as it was, wherever the blocks' ends are.
  pub disk_stream_write_lem :
      (image : S → ℕ → ℕ)
      → IsDisk st.device image
      → IsWritable st
      → 0 < length bytes
      → offset + length bytes ≤ word
      → OnDevice st.device offset (length bytes)
      → first m ≡ true
      → (s' : S) × (disk_stream_write st m offset (some bytes) s ≡ some s')
        × ((i : ℕ) → image s' i ≡ overwrite (image s) offset bytes i)
  disk_stream_write_lem image d r l w h g =
      let (u, runs, put) =
        write_loop_lem st.device image d (suc (length bytes)) bytes offset s (omega arith) w h in
      (
        (block_device_flush st.device u).1,
        begins ∙ ap (flushed st.device) runs,
        λ i. d.flushes u i ∙ put i,
      )
    where
      can : diskstream_can_write st ≡ true
      can =
          unfold diskstream_can_write in
          (let b : (st.device_type == device_block) ≡ true = ground (arith, r.readable.block) in
            simp (r.readable.opened, r.writable, b, r.has_op))

      begins :
          disk_stream_write st m offset (some bytes) s
          ≡ flushed st.device (write_loop (suc (length bytes)) st.device bytes offset s)
      begins =
          unfold disk_stream_write in
          (let z : (length bytes == 0) ≡ false = ground arith in
            simp (
              can,
              z,
              g,
              no_overflow st.device d.sized offset (length bytes) l w,
              in_range st.device d.sized offset (length bytes) l h,
            ))

  -- On such a driver, what has been written is what is read: where the stream is open for writing, there
  -- are bytes to write, which end at 2^64 at the latest and lie on the device, and the allocations succeed.
  pub disk_stream_read-disk_stream_write :
      (image : S → ℕ → ℕ) (k : List Bool)
      → IsDisk st.device image
      → IsWritable st
      → 0 < length bytes
      → offset + length bytes ≤ word
      → OnDevice st.device offset (length bytes)
      → first m ≡ true
      → first k && first (others k) ≡ true
      → (s' : S) × (s'' : S) × (disk_stream_write st m offset (some bytes) s ≡ some s')
        × (disk_stream_read st k offset (length bytes) s' ≡ some (some bytes, s''))
  disk_stream_read-disk_stream_write image k d r l w h g a =
      let (s', writes, put) = disk_stream_write_lem image d r l w h g in
      let (s'', reads, same) =
        disk_stream_read_lem st k offset (length bytes) s' image d r.readable l w h a in
      let back =
        slice_same (image s') (overwrite (image s) offset bytes) offset (length bytes) put
        ∙ slice-overwrite (image s) offset bytes in
      (s', s'', writes, reads ∙ ap (λ b. some (some b, s'')) back)

  -- A stream that is not open for writing, an empty range, one beyond 2^64, and one that does not lie on a
  -- device of known size are refused: nothing is written, and the driver is not called, whatever it is.
  pub disk_stream_write_refuses :
      0 < st.device.logical_block_size
      → offset < word
      → length bytes < word
      → (st.is_open ≡ false)
        ⊎ (st.readonly ≡ true)
        ⊎ (length bytes ≡ 0)
        ⊎ (word < offset + length bytes)
        ⊎ ((st.device.total_blocks ≢ 0)
            × (st.device.total_blocks * st.device.logical_block_size < offset + length bytes))
      → disk_stream_write st m offset (some bytes) s ≡ some s
  unfolding disk_stream_write diskstream_can_write
  disk_stream_write_refuses z k n (inl e) = simp e
  disk_stream_write_refuses z k n (inr (inl e)) = ground (arith, e)
  disk_stream_write_refuses z k n (inr (inr (inl e))) = ground (arith, e)
  disk_stream_write_refuses z k n (inr (inr (inr c))) = elim (Bool-cases (length bytes == 0)) [
    | inl t ↦ ground (arith, t)
    | inr t ↦
        let l : 0 < length bytes = ground (arith, t) in
        elim c [
          | inl w ↦ ground (arith, overflow st.device z offset (length bytes) l w k n)
          | inr (b, w) ↦ ground (arith, off_range st.device z offset (length bytes) l b w)
        ]
  ]
