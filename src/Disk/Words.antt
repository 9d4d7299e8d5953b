-- ===== src/Disk/Words.antt =====
-- `DiskStream_Read8` to `DiskStream_Read64` and `DiskStream_Wrtie8` to `DiskStream_Wrtie64`: words of `n`
-- bytes, the lowest byte first, as the machine keeps them in memory.
use native.Mathlib.Nat.{pow-suc}
use atom_os.Prelude.{
  ℕ, zero, suc, ◌+◌, ◌*◌, ◌/◌, ◌%◌, ◌^◌, ◌≡◌, ◌≤◌, ◌<◌, ◌∙◌, ap, sym, subst, refl, Bool, true, ◌&&◌,
  Option, none, some, List, [], ◌∷◌, arith, length, word,
}
use atom_os.Disk.Stream.{DiskStream, first, others, disk_stream_read, disk_stream_write}
use atom_os.Disk.Model.{OnDevice, IsDisk}
use atom_os.Disk.Writes.{IsWritable, disk_stream_read-disk_stream_write}

abbrev pub of_bytes : List ℕ → ℕ
of_bytes [] = 0
of_bytes (b ∷ bytes) = b + 256 * of_bytes bytes

abbrev pub to_bytes : ℕ → ℕ → List ℕ
to_bytes zero v = []
to_bytes (suc n) v = v % 256 ∷ to_bytes n (v / 256)

module _ {S : Type 0} where
  abbrev pub value_of : Option (Option (List ℕ) × S) → Option (ℕ × S)
  value_of none = none
  value_of (some (none, s)) = some (0, s)
  value_of (some (some bytes, s)) = some (of_bytes bytes, s)

  -- For `n` of 1, 2, 4 and 8.
  unfoldable pub read_word : ℕ → DiskStream S → List Bool → ℕ → S → Option (ℕ × S)
  read_word n st m offset s = value_of (disk_stream_read st m offset n s)

  unfoldable pub write_word : ℕ → DiskStream S → List Bool → ℕ → ℕ → S → Option S
  write_word n st m offset v s = disk_stream_write st m offset (some (to_bytes n v)) s

length-to_bytes : (n v : ℕ) → length (to_bytes n v) ≡ n
length-to_bytes zero v = refl
length-to_bytes (suc n) v = ap suc (length-to_bytes n (v / 256))

pub of_bytes-to_bytes : (n v : ℕ) → v < 256 ^ n → of_bytes (to_bytes n v) ≡ v
of_bytes-to_bytes zero v l = omega arith
of_bytes-to_bytes (suc n) v l =
    let p : 256 ^ suc n ≡ 256 ^ n * 256 = pow-suc 256 n in
    omega (arith, of_bytes-to_bytes n (v / 256) (omega (arith, p)))

-- On a driver that reads and writes whole blocks of a sequence of bytes: a word of `n` bytes that is written
-- is read again from the same offset, also where it lies in two blocks, where the stream is open for writing,
-- its bytes end at 2^64 at the latest and lie on the device, and the allocations succeed.
pub read_word-write_word :
    {S : Type 0} (n : ℕ) (st : DiskStream S) (m k : List Bool) (offset v : ℕ) (s : S)
    (image : S → ℕ → ℕ)
    → IsDisk st.device image
    → IsWritable st
    → 0 < n
    → v < 256 ^ n
    → offset + n ≤ word
    → OnDevice st.device offset n
    → first m ≡ true
    → first k && first (others k) ≡ true
    → (s' : S) × (s'' : S) × (write_word n st m offset v s ≡ some s')
      × (read_word n st k offset s' ≡ some (v, s''))
unfolding read_word write_word
read_word-write_word n st m k offset v s image d r l b w h g a =
    let e = length-to_bytes n v in
    let (s', s'', writes, reads) =
      disk_stream_read-disk_stream_write st m offset (to_bytes n v) s image k d r (omega (arith, e))
        (omega (arith, e)) (wide e h) g a in
    (
      s',
      s'',
      writes,
      ap (λ x. value_of (disk_stream_read st k offset x s')) (sized e)
          ∙ ap value_of reads
          ∙ ap (λ x. some (x, s'')) (of_bytes-to_bytes n v b),
    )
  where
    wide :
        length (to_bytes n v) ≡ n
        → OnDevice st.device offset n
        → OnDevice st.device offset (length (to_bytes n v))
    wide e h = subst (OnDevice st.device offset) (sym e) h

    sized : length (to_bytes n v) ≡ n → n ≡ length (to_bytes n v)
    sized e = sym e
