-- ===== src/Pmm/Region.antt =====
-- `MemoryRegion` of kernel_include/memory/pmm.h, and the conversions of firmware types in
-- kernel/memory/pmm.c. A region list is the sequence of the `MemoryRegion` structs that the nodes
-- of `memory_regions` point to; each node has a struct of its own, so that a struct is known by
-- its place in the sequence.
use atom_os.Prelude.{
  ℕ, ◌+◌, ◌≤◌, ◌<◌, Bool, true, false, ◌&&◌, not, List, [], ◌∷◌, ltb, leb, ◌==◌, if◌then◌else◌, bit,
  add64, word,
}

pub data RegionType : Type 0 where
  unknown null usable reserved efi_rt_code efi_rt_data acpi_reclaimable acpi_nvs bad_memory :
      RegionType
  pci_resource efi_bs_code efi_bs_data efi_loader_code efi_loader_data : RegionType

-- `mb2_mrType_to_mrType`: the types of a Multiboot2 memory map.
pub of_mb2_type : ℕ → RegionType
of_mb2_type t =
    if t == 1
    then usable
    else if t == 2
    then reserved
    else if t == 3
    then acpi_reclaimable
    else if t == 4
    then acpi_nvs
    else if t == 5
    then bad_memory
    else unknown

-- `efiType_to_mrType`: the memory types of the UEFI specification.
pub of_efi_type : ℕ → RegionType
of_efi_type t =
    if t == 0
    then reserved
    else if t == 1
    then efi_loader_code
    else if t == 2
    then efi_loader_data
    else if t == 3
    then efi_bs_code
    else if t == 4
    then efi_bs_data
    else if t == 5
    then efi_rt_code
    else if t == 6
    then efi_rt_data
    else if t == 7
    then usable
    else if t == 8
    then bad_memory
    else if t == 9
    then acpi_reclaimable
    else if t == 10
    then acpi_nvs
    else if t == 11
    then pci_resource
    else if t == 12
    then pci_resource
    else if t == 13
    then reserved
    else if t == 14
    then reserved
    else unknown

abbrev pub is_usable : RegionType → Bool
is_usable usable = true
is_usable _ = false

pub record MemoryRegion : Type 0 where
  pub base : ℕ
  pub size : ℕ
  pub type : RegionType

-- `region->base + region->size` at `size_t`.
abbrev pub region_end : MemoryRegion → ℕ
region_end r = add64 r.base r.size

-- The address `a` lies in the `n` bytes from `b` on.
abbrev pub within : ℕ → ℕ → ℕ → Bool
within a b n = leb b a && ltb a (b + n)

-- How many usable regions hold the address `a`, and how many others do.
unfoldable pub usable_at : ℕ → List MemoryRegion → ℕ
usable_at a [] = 0
usable_at a (r ∷ rs) = bit (is_usable r.type && within a r.base r.size) + usable_at a rs

unfoldable pub held_at : ℕ → List MemoryRegion → ℕ
held_at a [] = 0
held_at a (r ∷ rs) = bit (not (is_usable r.type) && within a r.base r.size) + held_at a rs

-- The regions lie in order of address from `lo` on, are not empty, do not overlap, and end below
-- the last address of a word.
abbrev pub OrderedFrom : ℕ → List MemoryRegion → Type 0
OrderedFrom lo [] = Unit
OrderedFrom lo (r ∷ rs) =
    (lo ≤ r.base) × (0 < r.size) × (r.base + r.size < word) × OrderedFrom (r.base + r.size) rs

abbrev pub IsOrdered : List MemoryRegion → Type 0
IsOrdered rs = OrderedFrom 0 rs
