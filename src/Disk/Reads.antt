-- ===== src/Disk/Reads.antt =====
-- What `DiskStream_Read` answers.
use mathlib.Core.List.{append-nil, append_assoc}
use native.Mathlib.Nat.{mod-add-div', mod-lt, div-lt_iff_lt-mul, le-div_iff_mul-le}
use atom_os.Prelude.{
  ℕ, zero, suc, ◌+◌, ◌-◌, ◌*◌, ◌/◌, ◌%◌, ◌≡◌, ◌≤◌, ◌<◌, ◌≢◌, ◌∙◌, ap, sym, refl, Bool, true, false,
  ◌&&◌, none, some, List, [], ◌++◌, arith, ltb, ◌==◌, length, take, drop, add64, word,
  length-append, Bool-cases, inl, inr, ◌⊎◌,
}
use atom_os.Disk.{BlockDevice}
use atom_os.Disk.Stream.{
  DiskStream, device_block, first, others, out_of_range, overflows, chunk_at, read_loop,
  disk_stream_read,
}
use atom_os.Disk.Slice.{slice, length-slice, slice_same, slice-append, part-slice}
use atom_os.Disk.Model.{Served, OnDevice, IsDisk}

module _ {S : Type 0} (dev : BlockDevice S) (sized : 0 < dev.logical_block_size) where
  -- The block of an offset, and the place in it.
  pub at_offset :
      (offset : ℕ)
      → offset / dev.logical_block_size * dev.logical_block_size + offset % dev.logical_block_size
        ≡ offset
  at_offset offset = omega (arith, mod-add-div' offset dev.logical_block_size)

  pub in_block : (offset : ℕ) → offset % dev.logical_block_size < dev.logical_block_size
  in_block offset = mod-lt offset sized

  pub Served-offset :
      (offset size : ℕ)
      → 0 < size
      → OnDevice dev offset size
      → Served dev (offset / dev.logical_block_size) 1
  Served-offset offset size l (inl e) = inl e
  Served-offset offset size l (inr h) =
      let k =
        (div-lt_iff_lt-mul {k = dev.logical_block_size} {x = offset} {y = dev.total_blocks} sized).1
          (omega arith) in
      inr (omega (arith, k))

  -- The guards, for a range that lies on the device and for one that does not.
  pub in_range :
      (offset size : ℕ) → 0 < size → OnDevice dev offset size → out_of_range dev offset size ≡ false
  in_range offset size l (inl e) = ground (arith, e)
  in_range offset size l (inr h) =
      let a =
        (div-lt_iff_lt-mul {k = dev.logical_block_size} {x = offset} {y = dev.total_blocks} sized).1
          (omega arith) in
      let b =
        (div-lt_iff_lt-mul {k = dev.logical_block_size} {x = offset + size - 1}
            {y = dev.total_blocks} sized).1
          (omega arith) in
      ground (arith, a, b)

  pub off_range :
      (offset size : ℕ)
      → 0 < size
      → dev.total_blocks ≢ 0
      → dev.total_blocks * dev.logical_block_size < offset + size
      → out_of_range dev offset size ≡ true
  off_range offset size l z h =
      let b =
        (le-div_iff_mul-le {k = dev.logical_block_size} {x = dev.total_blocks}
            {y = offset + size - 1} sized).1
          (omega arith) in
      ground (arith, b, z)

  pub no_overflow :
      (offset size : ℕ) → 0 < size → offset + size ≤ word → overflows offset size ≡ false
  no_overflow offset size l h = ground arith

  pub overflow :
      (offset size : ℕ)
      → 0 < size
      → word < offset + size
      → offset < word
      → size < word
      → overflows offset size ≡ true
  overflow offset size l h k m = ground arith

module _ {S : Type 0} (dev : BlockDevice S) (image : S → ℕ → ℕ) (d : IsDisk dev image) where
  -- One round of the loop.
  module _ (fuel size : ℕ) (out : List ℕ) (offset : ℕ) (s : S) (more : length out < size)
      (served : Served dev (offset / dev.logical_block_size) 1) where
    abbrev after : S
    after = (d.reads (offset / dev.logical_block_size) 1 s (omega arith) served).0

    read_round :
        read_loop (suc fuel) dev size out offset s
        ≡ read_loop fuel dev size
            (out ++ slice (image s) offset (chunk_at dev offset (size - length out)))
            (add64 offset (chunk_at dev offset (size - length out)))
            after
    unfolding read_loop
    read_round =
        let (s', e, same) = d.reads (offset / dev.logical_block_size) 1 s (omega arith) served in
        let t : ltb (length out) size ≡ true = ground arith in
        simp (t, e, read_loop)
          (ap
            (λ bytes.
              read_loop fuel dev size (out ++ bytes)
                (add64 offset (chunk_at dev offset (size - length out))) s')
            part)
      where
        part :
            take (chunk_at dev offset (size - length out)) (
              drop (offset % dev.logical_block_size) (
                slice
                  (image s)
                  (offset / dev.logical_block_size * dev.logical_block_size)
                  (1 * dev.logical_block_size)))
            ≡ slice (image s) offset (chunk_at dev offset (size - length out))
        part =
            part-slice (image s) (offset / dev.logical_block_size * dev.logical_block_size)
              (1 * dev.logical_block_size) (offset % dev.logical_block_size)
              (chunk_at dev offset (size - length out)) (omega (arith, in_block dev d.sized offset))
            ∙ ap (λ a. slice (image s) a (chunk_at dev offset (size - length out)))
                (at_offset dev d.sized offset)

  read_loop_lem :
      (fuel size : ℕ) (out : List ℕ) (offset rest : ℕ) (s : S)
      → length out + rest ≡ size
      → rest < fuel
      → offset + rest ≤ word
      → OnDevice dev offset rest
      → (s' : S) × (read_loop fuel dev size out offset s
          ≡ some (some (out ++ slice (image s) offset rest), s'))
        × ((i : ℕ) → image s' i ≡ image s i)
  read_loop_lem zero size out offset rest s e l w h = absurd (omega arith)
  read_loop_lem (suc fuel) size out offset zero s e l w h = (
    s,
    unfold read_loop in
        (let t : ltb (length out) size ≡ false = ground arith in
          simp (t, read_loop) (ap (λ o. some (some o, s)) (sym (append-nil out)))),
    λ i. refl,
  )
  read_loop_lem (suc fuel) size out offset (suc rest) s e l w h =
      let more : length out < size = omega arith in
      let served = Served-offset dev d.sized offset (suc rest) (omega arith) h in
      let c : ℕ = chunk_at dev offset (size - length out) in
      let bounds : (0 < c) × (c ≤ suc rest) =
        (omega (arith, in_block dev d.sized offset), omega arith) in
      let u = after fuel size out offset s more served in
      let (s', runs, same) =
        read_loop_lem fuel size (out ++ slice (image s) offset c) (add64 offset c) (suc rest - c) u
          (omega (
            arith,
            length-append {0} out (slice (image s) offset c),
            length-slice (image s) offset c,
            bounds,
          ))
          (omega (arith, bounds)) (omega (arith, bounds)) (still c bounds h) in
      (
        s',
        read_round fuel size out offset s more served
            ∙ runs
            ∙ ap (λ o. some (some o, s'))
                (joined u c bounds (kept fuel size out offset s more served)),
        λ i. same i ∙ kept fuel size out offset s more served i,
      )
    where
      kept :
          (fuel size : ℕ) (out : List ℕ) (offset : ℕ) (s : S) (more : length out < size)
          (served : Served dev (offset / dev.logical_block_size) 1)
          → (i : ℕ) → image (after fuel size out offset s more served) i ≡ image s i
      kept fuel size out offset s more served =
          (d.reads (offset / dev.logical_block_size) 1 s (omega arith) served).2

      still :
          (c : ℕ)
          → (0 < c) × (c ≤ suc rest)
          → OnDevice dev offset (suc rest)
          → OnDevice dev (add64 offset c) (suc rest - c)
      still c b (inl z) = inl z
      still c b (inr k) = inr (omega (arith, b, k))

      moved :
          (f : ℕ → ℕ) (c n : ℕ)
          → offset + c + n ≤ word
          → slice f (add64 offset c) n ≡ slice f (offset + c) n
      moved f c zero k = refl
      moved f c (suc n) k =
          let q : add64 offset c ≡ offset + c = omega arith in ap (λ a. slice f a (suc n)) q

      joined :
          (u : S) (c : ℕ)
          → (0 < c) × (c ≤ suc rest)
          → ((i : ℕ) → image u i ≡ image s i)
          → (out ++ slice (image s) offset c) ++ slice (image u) (add64 offset c) (suc rest - c)
            ≡ out ++ slice (image s) offset (suc rest)
      joined u c b k =
          let q : c + (suc rest - c) ≡ suc rest = omega (arith, b) in
          append_assoc out (slice (image s) offset c)
            (slice (image u) (add64 offset c) (suc rest - c))
          ∙ ap (λ l. out ++ (slice (image s) offset c ++ l))
              (slice_same (image u) (image s) (add64 offset c) (suc rest - c) k
                ∙ moved (image s) c (suc rest - c) (omega (arith, b, w)))
          ∙ ap (λ l. out ++ l)
              (sym (slice-append (image s) offset c (suc rest - c)) ∙ ap (slice (image s) offset) q)

-- A stream that is open on a block device.
pub record IsReadable {S : Type 0} (st : DiskStream S) : Type 0 where
  pub opened : st.is_open ≡ true
  pub block : st.device_type ≡ device_block

module _ {S : Type 0} (st : DiskStream S) (m : List Bool) (offset size : ℕ) (s : S) where
  -- On a driver that reads and writes whole blocks of a sequence of bytes: where the stream is open, the
  -- range is not empty, ends at 2^64 at the latest and lies on the
  -- device, and both allocations succeed, `disk_stream_read` ends with the bytes of the disk in that range,
  -- wherever the blocks' ends are, and leaves the disk as it was.
  pub disk_stream_read_lem :
      (image : S → ℕ → ℕ)
      → IsDisk st.device image
      → IsReadable st
      → 0 < size
      → offset + size ≤ word
      → OnDevice st.device offset size
      → first m && first (others m) ≡ true
      → (s' : S) × (disk_stream_read st m offset size s
          ≡ some (some (slice (image s) offset size), s'))
        × ((i : ℕ) → image s' i ≡ image s i)
  disk_stream_read_lem image d r l w h g =
      let (s', runs, same) =
        read_loop_lem st.device image d (suc size) size [] offset size s (omega arith) (omega arith)
          w h in
      (s', begins ∙ runs, same)
    where
      begins : disk_stream_read st m offset size s ≡ read_loop (suc size) st.device size [] offset s
      begins =
          unfold disk_stream_read in
          (let z : (size == 0) ≡ false = ground arith in
            let b : (st.device_type == device_block) ≡ true = ground (arith, r.block) in
            let a : first m ≡ true = ground (arith, g) in
            let c : first (others m) ≡ true = ground (arith, g) in
            simp (
              r.opened,
              b,
              z,
              a,
              c,
              no_overflow st.device d.sized offset size l w,
              in_range st.device d.sized offset size l h,
            ))

  -- On a closed stream, for no bytes, for a range beyond 2^64, and for one that does not lie on a device of
  -- known size, `disk_stream_read` answers NULL and does not call the driver, whatever the driver is.
  pub disk_stream_read_refuses :
      0 < st.device.logical_block_size
      → offset < word
      → size < word
      → (st.is_open ≡ false)
        ⊎ (size ≡ 0)
        ⊎ (word < offset + size)
        ⊎ ((st.device.total_blocks ≢ 0)
            × (st.device.total_blocks * st.device.logical_block_size < offset + size))
      → disk_stream_read st m offset size s ≡ some (none, s)
  unfolding disk_stream_read
  disk_stream_read_refuses z k n (inl e) = simp e
  disk_stream_read_refuses z k n (inr (inl e)) =
      let t : (size == 0) ≡ true = ground (arith, e) in ground (arith, t)
  disk_stream_read_refuses z k n (inr (inr c)) = elim (Bool-cases (size == 0)) [
    | inl t ↦ ground (arith, t)
    | inr t ↦
        let l : 0 < size = ground (arith, t) in
        elim c [
          | inl w ↦ ground (arith, overflow st.device z offset size l w k n)
          | inr (b, w) ↦ ground (arith, off_range st.device z offset size l b w)
        ]
  ]
