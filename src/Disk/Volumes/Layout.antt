-- ===== src/Disk/Volumes/Layout.antt =====
-- How a boot sector and a GPT are written, and the volumes that they stand for.
use native.Mathlib.Nat.{zero-add, suc-add}
use mathlib.Core.List.{append-nil}
use atom_os.Prelude.{
  ℕ, zero, suc, ◌+◌, ◌-◌, ◌≡◌, ◌≢◌, ◌<◌, ◌^◌, ◌∙◌, ap, sym, subst, refl, Bool, true, false, not,
  ◌&&◌, ◌||◌, List, [], ◌∷◌, ◌++◌, arith, ltb, ◌==◌, if◌then◌else◌, length, take, drop, get_or,
  word, take-append, take_all,
}
use atom_os.Disk.{BlockDevice}
use atom_os.Disk.Slice.{get_or-drop}
use atom_os.Disk.Words.{to_bytes}
use atom_os.Disk.Volumes.{VolumeType, Volume, is_zero}

-- An entry of a boot sector. The places by cylinder, head and sector are not read.
pub record Partition : Type 0 where
  pub status : ℕ
  pub chs_first : ℕ × ℕ × ℕ
  pub type : ℕ
  pub chs_last : ℕ × ℕ × ℕ
  pub first_lba : ℕ
  pub sector_count : ℕ

-- Its numbers fit into their fields.
pub record IsPartition (p : Partition) : Type 0 where
  pub lba_fits : p.first_lba < 2 ^ 32
  pub count_fits : p.sector_count < 2 ^ 32

abbrev pub entry_of : Partition → List ℕ
entry_of p =
    p.status
      ∷ p.chs_first.0
      ∷ p.chs_first.1
      ∷ p.chs_first.2
      ∷ p.type
      ∷ p.chs_last.0
      ∷ p.chs_last.1
      ∷ p.chs_last.2
      ∷ to_bytes 4 p.first_lba
    ++ to_bytes 4 p.sector_count

-- The code of the boot loader, four entries and the signature.
abbrev pub boot_sector : List ℕ → Partition → Partition → Partition → Partition → List ℕ → List ℕ
boot_sector code p q r t rest =
    code ++ (entry_of p ++ (entry_of q ++ (entry_of r ++ (entry_of t ++ 0x55 ∷ 0xAA ∷ rest))))

-- An entry of a GPT; `name` takes up the rest of it.
pub record GptPartition : Type 0 where
  pub type_guid : List ℕ
  pub unique_guid : List ℕ
  pub first_lba : ℕ
  pub last_lba : ℕ
  pub attributes : ℕ
  pub name : List ℕ

-- Its numbers fit into their fields, and it takes up `size` bytes.
pub record IsGptPartition (size : ℕ) (p : GptPartition) : Type 0 where
  pub type_fits : length p.type_guid ≡ 16
  pub unique_fits : length p.unique_guid ≡ 16
  pub first_fits : p.first_lba < word
  pub last_fits : p.last_lba < word
  pub attributes_fit : p.attributes < word
  pub sized : 56 + length p.name ≡ size

-- The entry in front of other bytes.
abbrev pub gpt_entry : GptPartition → List ℕ → List ℕ
gpt_entry p rest =
    p.type_guid
    ++ (p.unique_guid
        ++ (to_bytes 8 p.first_lba
            ++ (to_bytes 8 p.last_lba ++ (to_bytes 8 p.attributes ++ (p.name ++ rest)))))

abbrev pub gpt_table : List GptPartition → List ℕ → List ℕ
gpt_table [] rest = rest
gpt_table (p ∷ ps) rest = gpt_entry p (gpt_table ps rest)

-- "EFI PART", 64 bytes that are not read, the place of the table, and the number and the size of its entries.
abbrev pub gpt_header : List ℕ → ℕ → ℕ → ℕ → List ℕ → List ℕ
gpt_header others lba count size rest =
    69 ∷ 70 ∷ 73 ∷ 32 ∷ 80 ∷ 65 ∷ 82 ∷ 84 ∷ others
    ++ (to_bytes 8 lba ++ (to_bytes 4 count ++ (to_bytes 4 size ++ rest)))

module _ {S : Type 0} (made node : ℕ → Bool) (device : BlockDevice S) (block_size : ℕ) where
  -- The volumes of the entry at the place `i`: none if it is unused or without sectors, or if an allocation
  -- fails for it.
  abbrev pub volumes_of : ℕ → Partition → List (Volume S)
  volumes_of i p =
      if p.type == 0 || p.sector_count == 0 || not (made i && node i)
      then []
      else record {
        type = VolumeType.mbr_partition;
        device = device;
        start_lba = p.first_lba;
        block_count = p.sector_count;
        block_size = block_size;
        mbr_type = p.type;
        attributes = 0;
        type_guid = [];
        unique_guid = [];
      }
        ∷ []

  -- Those of four entries.
  abbrev pub partitions_of : Partition → Partition → Partition → Partition → List (Volume S)
  partitions_of p q r t = volumes_of 0 p ++ (volumes_of 1 q ++ (volumes_of 2 r ++ volumes_of 3 t))

  -- Those of the entry at the place `i` of a GPT: none if it has no type, ends before it begins or has 2^64
  -- blocks, or if an allocation fails for it.
  abbrev pub gpt_volumes_of : ℕ → GptPartition → List (Volume S)
  gpt_volumes_of i p =
      if is_zero p.type_guid
        || ltb p.last_lba p.first_lba
        || p.last_lba + 1 - p.first_lba == word
        || not (made i && node i)
      then []
      else record {
        type = VolumeType.gpt_partition;
        device = device;
        start_lba = p.first_lba;
        block_count = p.last_lba + 1 - p.first_lba;
        block_size = block_size;
        mbr_type = 0xEE;
        attributes = p.attributes;
        type_guid = p.type_guid;
        unique_guid = p.unique_guid;
      }
        ∷ []

  -- Those of the entries from the place `i` on.
  abbrev pub gpt_partitions_of : ℕ → List GptPartition → List (Volume S)
  gpt_partitions_of i [] = []
  gpt_partitions_of i (p ∷ ps) = gpt_volumes_of i p ++ gpt_partitions_of (suc i) ps

-- Bytes behind others.
pub drop-drop : (n k : ℕ) (xs : List ℕ) → drop (n + k) xs ≡ drop k (drop n xs)
drop-drop zero k xs = ap (λ m. drop m xs) (zero-add k)
drop-drop (suc n) k [] = ap (λ m. drop m []) (suc-add n k) ∙ sym (drop_nil k)
  where
    drop_nil : (k : ℕ) → drop {A = ℕ} k [] ≡ []
    drop_nil zero = refl
    drop_nil (suc k) = refl
drop-drop (suc n) k (x ∷ xs) = ap (λ m. drop m (x ∷ xs)) (suc-add n k) ∙ drop-drop n k xs

pub drop_front : (a xs : List ℕ) → drop (length a) (a ++ xs) ≡ xs
drop_front [] xs = refl
drop_front (x ∷ a) xs = drop_front a xs

pub drop_past : (a xs : List ℕ) (n k : ℕ) → length a ≡ n → drop (n + k) (a ++ xs) ≡ drop k xs
drop_past a xs n k e =
    drop-drop n k (a ++ xs) ∙ ap (drop k) (subst (λ m. drop m (a ++ xs) ≡ xs) e (drop_front a xs))

pub get_or_past :
    (a xs : List ℕ) (n k : ℕ) → length a ≡ n → get_or (a ++ xs) (n + k) 0 ≡ get_or xs k 0
get_or_past a xs n k e =
    sym (get_or-drop (a ++ xs) n k)
    ∙ ap (λ l. get_or l k 0) (subst (λ m. drop m (a ++ xs) ≡ xs) e (drop_front a xs))

pub take_front : (a xs : List ℕ) (n : ℕ) → length a ≡ n → take n (a ++ xs) ≡ a
take_front a xs n e =
    subst (λ m. take m (a ++ xs) ≡ a) e (take-append (length a) a xs (omega arith) ∙ take_all a)

-- The branches of a round, as one list behind the volumes of before.
pub two_guards :
    {A : Type 0} (x y c : Bool) (vs ws : List A)
    → (if x || y then vs else if c then vs ++ ws else vs)
      ≡ vs ++ (if x || y || not c then [] else ws)
two_guards true y c vs ws = sym (append-nil vs)
two_guards false true c vs ws = sym (append-nil vs)
two_guards false false true vs ws = refl
two_guards false false false vs ws = sym (append-nil vs)

pub round_guards :
    {A : Type 0} (x y w c : Bool) (blocks n : ℕ) (vs : List A) (v : ℕ → A)
    → (y ≡ false → w ≡ true → blocks ≡ 0)
    → (y ≡ false → w ≡ false → blocks ≡ n)
    → (w ≡ false → y ≡ false → n ≢ 0)
    → (if x
        then vs
        else if y
        then vs
        else if blocks == 0
        then vs
        else if c
        then vs ++ v blocks ∷ []
        else vs)
      ≡ vs ++ (if x || y || w || not c then [] else v n ∷ [])
round_guards true y w c blocks n vs v h k l = sym (append-nil vs)
round_guards false true w c blocks n vs v h k l = sym (append-nil vs)
round_guards false false true c blocks n vs v h k l = rw (h refl refl) (sym (append-nil vs))
round_guards false false false true blocks n vs v h k l =
    let z : (n == 0) ≡ false = ground (arith, l refl refl) in rw (k refl refl, z) refl
round_guards false false false false blocks n vs v h k l =
    let z : (n == 0) ≡ false = ground (arith, l refl refl) in
    rw (k refl refl, z) (sym (append-nil vs))
