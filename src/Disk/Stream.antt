-- ===== src/Disk/Stream.antt =====
-- kernel/stream/DiskStream.c: bytes at any offset of a block device. A stream is not NULL. A buffer
-- that is answered is the list of its bytes; `mallocs` says which of the allocations succeed.
use atom_os.Prelude.{
  ℕ, zero, suc, ◌+◌, ◌-◌, ◌/◌, ◌%◌, ◌^◌, Bool, true, false, not, ◌&&◌, ◌||◌, Option, none, some,
  List, [], ◌∷◌, ◌++◌, ltb, leb, ◌==◌, if◌then◌else◌, length, take, drop, min, add64, word,
}
use atom_os.Disk.{BlockDevice, block_device_read, block_device_write, block_device_flush}

pub record DiskStream (S : Type 0) : Type 0 where
  pub device : BlockDevice S
  pub device_type : ℕ
  pub is_open : Bool
  pub readonly : Bool

abbrev pub device_block : ℕ
device_block = 1

-- Whether the first allocation succeeds, and the others.
abbrev pub first : List Bool → Bool
first [] = false
first (b ∷ m) = b

abbrev pub others : List Bool → List Bool
others [] = []
others (b ∷ m) = m

-- `memcpy(to + at, from, length(from))`, within `to`.
abbrev pub patch : List ℕ → ℕ → List ℕ → List ℕ
patch to at from = take at to ++ from ++ drop (at + length from) to

-- `offset > UINT64_MAX - (size - 1)`.
abbrev pub overflows : ℕ → ℕ → Bool
overflows offset size = ltb (word - 1 - (size - 1)) offset

module _ {S : Type 0} where
  unfoldable pub disk_stream_create : Bool → BlockDevice S → Option (DiskStream S)
  disk_stream_create granted dev =
      if granted
      then some
          (record { device = dev; device_type = device_block; is_open = false; readonly = true })
      else none

  unfoldable pub disk_stream_open : DiskStream S → Bool → DiskStream S
  disk_stream_open st readonly =
      if st.is_open then st else record st { readonly = readonly; is_open = true }

  unfoldable pub disk_stream_close : DiskStream S → DiskStream S
  disk_stream_close st = record st { is_open = false }

  -- The first and the last block of a range lie on the device, where its size is known.
  abbrev pub out_of_range : BlockDevice S → ℕ → ℕ → Bool
  out_of_range dev offset size =
      not (dev.total_blocks == 0)
      && (leb dev.total_blocks (offset / dev.logical_block_size)
          || leb dev.total_blocks ((offset + size - 1) / dev.logical_block_size))

  -- How much of the block at `offset` is wanted.
  abbrev pub chunk_at : BlockDevice S → ℕ → ℕ → ℕ
  chunk_at dev offset remain = min (dev.logical_block_size - offset % dev.logical_block_size) remain

  -- The loop of `DiskStream_Read`: `out` holds the bytes copied so far; `none` in front means that it runs
  -- out of fuel.
  unfoldable pub read_loop : ℕ → BlockDevice S → ℕ → List ℕ → ℕ → S → Option (Option (List ℕ) × S)
  read_loop zero dev size out offset s = none
  read_loop (suc fuel) dev size out offset s = elim (ltb (length out) size) [
    | false ↦ some (some out, s)
    | true ↦
        let chunk : ℕ = chunk_at dev offset (size - length out) in
        let got = block_device_read dev (offset / dev.logical_block_size) 1 s in
        elim got.0 [
          | none ↦ some (none, got.1)
          | some block ↦
              read_loop fuel dev size
                (out ++ take chunk (drop (offset % dev.logical_block_size) block))
                (add64 offset chunk) got.1
        ]
  ]

  -- Each round copies a byte at least.
  unfoldable pub disk_stream_read :
      DiskStream S → List Bool → ℕ → ℕ → S → Option (Option (List ℕ) × S)
  disk_stream_read st mallocs offset size s =
      if not st.is_open
      then some (none, s)
      else if not (st.device_type == device_block)
      then some (none, s)
      else if size == 0
      then some (none, s)
      else if overflows offset size
      then some (none, s)
      else if out_of_range st.device offset size
      then some (none, s)
      else if not (first mallocs)
      then some (none, s)
      else if not (first (others mallocs))
      then some (none, s)
      else read_loop (suc size) st.device size [] offset s

  unfoldable pub diskstream_can_write : DiskStream S → Bool
  diskstream_can_write st =
      st.is_open
      && not st.readonly
      && st.device_type == device_block
      && elim st.device.ops.write [ none ↦ false | some op ↦ true ]

  -- One round of `DiskStream_Write`: a whole block is written as it is, part of one into what was read.
  unfoldable pub write_chunk : BlockDevice S → ℕ → List ℕ → S → Bool × S
  write_chunk dev offset bytes s =
      if offset % dev.logical_block_size == 0 && length bytes == dev.logical_block_size
      then block_device_write dev (offset / dev.logical_block_size) 1 bytes s
      else (let got = block_device_read dev (offset / dev.logical_block_size) 1 s in
          elim got.0 [
            | none ↦ (false, got.1)
            | some block ↦
                block_device_write dev (offset / dev.logical_block_size) 1
                  (patch block (offset % dev.logical_block_size) bytes) got.1
          ])

  -- The loop of `DiskStream_Write` over the bytes that are left; it answers whether all were written.
  unfoldable pub write_loop : ℕ → BlockDevice S → List ℕ → ℕ → S → Option (Bool × S)
  write_loop zero dev bytes offset s = none
  write_loop (suc fuel) dev bytes offset s = elim (length bytes == 0) [
    | true ↦ some (true, s)
    | false ↦
        let chunk : ℕ = chunk_at dev offset (length bytes) in
        let put = write_chunk dev offset (take chunk bytes) s in
        elim put.0 [
          | false ↦ some (false, put.1)
          | true ↦ write_loop fuel dev (drop chunk bytes) (add64 offset chunk) put.1
        ]
  ]

  abbrev pub flushed : BlockDevice S → Option (Bool × S) → Option S
  flushed dev none = none
  flushed dev (some (all, s)) = some (block_device_flush dev s).1

  unfoldable pub disk_stream_write : DiskStream S → List Bool → ℕ → Option (List ℕ) → S → Option S
  disk_stream_write st mallocs offset none s = some s
  disk_stream_write st mallocs offset (some bytes) s =
      if not (diskstream_can_write st)
      then some s
      else if length bytes == 0
      then some s
      else if overflows offset (length bytes)
      then some s
      else if out_of_range st.device offset (length bytes)
      then some s
      else if not (first mallocs)
      then some s
      else flushed st.device (write_loop (suc (length bytes)) st.device bytes offset s)

  unfoldable pub disk_stream_read_sector : DiskStream S → List Bool → ℕ → S → Option (List ℕ) × S
  disk_stream_read_sector st mallocs sector s =
      if not st.is_open
      then (none, s)
      else if not (st.device_type == device_block)
      then (none, s)
      else if not (st.device.total_blocks == 0) && leb st.device.total_blocks sector
      then (none, s)
      else if not (first mallocs)
      then (none, s)
      else block_device_read st.device sector 1 s

  unfoldable pub disk_stream_read_sectors :
      DiskStream S → List Bool → ℕ → ℕ → S → Option (List ℕ) × S
  disk_stream_read_sectors st mallocs sector count s =
      let total : ℕ = st.device.total_blocks in
      if not st.is_open
      then (none, s)
      else if not (st.device_type == device_block)
      then (none, s)
      else if count == 0
      then (none, s)
      else if not (total == 0) && (leb total sector || ltb (total - sector) count)
      then (none, s)
      else if ltb ((word - 1) / st.device.logical_block_size) count
      then (none, s)
      else if ltb (2 ^ 32 - 1) count
      then (none, s)
      else if not (first mallocs)
      then (none, s)
      else block_device_read st.device sector count s
