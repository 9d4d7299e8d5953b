-- ===== src/Disk/Tests.antt =====
-- Runs on a disk of three blocks with four bytes each, kept in memory.
use atom_os.Prelude.{ℕ, ◌*◌, ◌≡◌, refl, Bool, true, false, none, some, List, [], ◌∷◌, arith, inr}
use atom_os.Disk.{BlockDevice, block_device_read, block_device_write, block_device_flush}
use atom_os.Disk.Stream.{DiskStream, disk_stream_read, disk_stream_write, read_loop}
use atom_os.Disk.Slice.{slice, overwrite}
use atom_os.Disk.Model.{IsDisk}
use atom_os.Disk.Reads.{IsReadable, disk_stream_read_lem}
use atom_os.Disk.Writes.{IsWritable, disk_stream_write_lem}
use atom_os.Disk.Words.{read_word, write_word, read_word-write_word}

abbrev memory_disk : BlockDevice (ℕ → ℕ)
memory_disk = record {
  type = 2;
  logical_block_size = 4;
  total_blocks = 3;
  ops = record {
    read = some (λ lba count s. (some (slice s (lba * 4) (count * 4)), s));
    write = some (λ lba count bytes s. (true, overwrite s (lba * 4) bytes));
    flush = none;
  };
}

abbrev image : (ℕ → ℕ) → ℕ → ℕ
image s = s

memory_disk-IsDisk : IsDisk memory_disk image
unfolding block_device_read block_device_write block_device_flush
memory_disk-IsDisk = record {
  sized = omega arith;
  reads = λ lba count s l h. (s, refl, λ i. refl);
  writes = λ lba bytes s h e. (overwrite s (lba * 4) bytes, refl, λ i. refl);
  flushes = λ s i. refl;
}

abbrev stream : DiskStream (ℕ → ℕ)
stream = record { device = memory_disk; device_type = 1; is_open = true; readonly = false }

stream-IsReadable : IsReadable stream
stream-IsReadable = record { opened = refl; block = refl }

stream-IsWritable : IsWritable stream
stream-IsWritable = record {
  readable = stream-IsReadable;
  writable = refl;
  op = λ lba count bytes s. (true, overwrite s (lba * 4) bytes);
  has_op = refl;
}

-- The disk holds ten times the place at each place.
abbrev numbers : ℕ → ℕ
numbers i = 10 * i

abbrev granted : List Bool
granted = true ∷ true ∷ []

abbrev text : List ℕ
text = 7 ∷ 8 ∷ 9 ∷ 1 ∷ 2 ∷ 3 ∷ []

across_blocks :
    disk_stream_read stream granted 3 6 numbers
    ≡ some (some (30 ∷ 40 ∷ 50 ∷ 60 ∷ 70 ∷ 80 ∷ []), numbers)
unfolding disk_stream_read read_loop block_device_read
across_blocks = refl

disk_stream_read_lem_example :
    (s' : ℕ → ℕ) × (disk_stream_read stream granted 3 6 numbers
      ≡ some (some (slice numbers 3 6), s'))
    × ((i : ℕ) → s' i ≡ numbers i)
disk_stream_read_lem_example =
    disk_stream_read_lem stream granted 3 6 numbers image memory_disk-IsDisk stream-IsReadable
      (omega arith) (omega arith) (inr (omega arith)) refl

disk_stream_write_lem_example :
    (s' : ℕ → ℕ) × (disk_stream_write stream granted 3 (some text) numbers ≡ some s')
    × ((i : ℕ) → s' i ≡ overwrite numbers 3 text i)
disk_stream_write_lem_example =
    disk_stream_write_lem stream granted 3 text numbers image memory_disk-IsDisk stream-IsWritable
      (omega arith) (omega arith) (inr (omega arith)) refl

read_word-write_word_example :
    (s' : ℕ → ℕ) × (s'' : ℕ → ℕ) × (write_word 4 stream granted 6 0x12345678 numbers ≡ some s')
    × (read_word 4 stream granted 6 s' ≡ some (0x12345678, s''))
read_word-write_word_example =
    read_word-write_word 4 stream granted granted 6 0x12345678 numbers image memory_disk-IsDisk
      stream-IsWritable (omega arith) (omega arith) (omega arith) (inr (omega arith)) refl refl
