-- ===== src/Pmm/Examples.antt =====
-- A small memory map, before and after an allocation.
use atom_os.Prelude.{ℕ, List, [], ◌∷◌, arith}
use atom_os.Pmm.Region.{MemoryRegion, RegionType, IsOrdered}

abbrev pub usable_from : ℕ → ℕ → MemoryRegion
usable_from b n = record { base = b; size = n; type = RegionType.usable }

abbrev pub reserved_from : ℕ → ℕ → MemoryRegion
reserved_from b n = record { base = b; size = n; type = RegionType.reserved }

-- Two usable regions that touch, and an ACPI one.
abbrev pub memory : List MemoryRegion
memory =
    usable_from 0x1800 0x2000
    ∷ usable_from 0x3800 0x4000
    ∷ record { base = 0x9000; size = 0x1000; type = RegionType.acpi_nvs }
    ∷ []

pub memory-IsOrdered : IsOrdered memory
memory-IsOrdered = omega arith

-- The block lies behind a gap, since the region begins in the middle of a page.
abbrev pub carved : List MemoryRegion
carved =
    usable_from 0x1800 0x800
    ∷ reserved_from 0x2000 0x2000
    ∷ usable_from 0x4000 0x3800
    ∷ record { base = 0x9000; size = 0x1000; type = RegionType.acpi_nvs }
    ∷ []
