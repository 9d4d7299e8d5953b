-- ===== src/Pmm/Tests.antt =====
-- The theorems of the physical memory manager at a small memory map.
use atom_os.Prelude.{ℕ, ◌+◌, ◌≤◌, ◌<◌, ◌≡◌, ◌⊎◌, refl, some, List, [], ◌∷◌, arith, bit}
use atom_os.Pmm.Region.{MemoryRegion, RegionType, within, usable_at, held_at, IsOrdered}
use atom_os.Pmm.Counting.{SameStatus}
use atom_os.Pmm.Maintain.{pmm_maintain}
use atom_os.Pmm.Maintain.Laws.{pmm_maintain_lem}
use atom_os.Pmm.Alloc.{pmm_alloc}
use atom_os.Pmm.Alloc.Tests.{carved_runs}
use atom_os.Pmm.Examples.{usable_from, reserved_from, memory, memory-IsOrdered, carved}
use atom_os.Pmm.Alloc.Laws.{enough, Answer, pmm_alloc_lem}
use atom_os.Pmm.Free.{pmm_free}
use atom_os.Pmm.Free.Laws.{pmm_free_total, pmm_free_lem}
use atom_os.Pmm.RoundTrip.{pmm_free-pmm_alloc}
use atom_os.Pmm.Init.{reserve_kernel, pmm_init}
use atom_os.Pmm.Init.Laws.{NoneStraddles, pmm_init_lem, reserve_kernel-straddles}

pmm_maintain_lem_example :
    IsOrdered (pmm_maintain memory)
    × ((a : ℕ)
        → (usable_at a (pmm_maintain memory) ≡ usable_at a memory)
          × (held_at a (pmm_maintain memory) ≡ held_at a memory))
pmm_maintain_lem_example = pmm_maintain_lem memory memory-IsOrdered

pmm_alloc_lem_example : Answer memory 5 (enough []) (pmm_alloc memory 5 (enough []))
pmm_alloc_lem_example = pmm_alloc_lem memory 5 [] memory-IsOrdered (omega arith)

pmm_free_total_example : (out : List MemoryRegion) × (pmm_free carved 0x2000 ≡ some out)
pmm_free_total_example = pmm_free_total carved 0x2000

pmm_free_lem_example :
    (out : List MemoryRegion) × (pmm_free carved 0x2000 ≡ some out)
    × IsOrdered out
    × ((a : ℕ)
        → (usable_at a out ≡ usable_at a carved + bit (within a 0x2000 0x2000))
          × (held_at a out + bit (within a 0x2000 0x2000) ≡ held_at a carved))
pmm_free_lem_example =
    pmm_free_lem (usable_from 0x1800 0x800 ∷ []) (reserved_from 0x2000 0x2000)
      (usable_from 0x4000 0x3800
        ∷ record { base = 0x9000; size = 0x1000; type = RegionType.acpi_nvs }
        ∷ [])
      (omega arith) refl (omega arith) refl

pmm_free-pmm_alloc_example :
    (back : List MemoryRegion) × (pmm_free carved 0x2000 ≡ some back)
    × IsOrdered back
    × SameStatus back memory
pmm_free-pmm_alloc_example =
    pmm_free-pmm_alloc memory 5 0x2000 [] [] carved memory-IsOrdered (omega arith) carved_runs
      (omega arith)

-- The kernel ends inside the first region, and the screen lies in the second.
pmm_init_lem_example :
    IsOrdered (pmm_init 0x2000 0x5000 64 32 memory)
    × ((a : ℕ)
        → (a < 0x2000 → usable_at a (pmm_init 0x2000 0x5000 64 32 memory) ≡ 0)
          × (0x5000 ≤ a → a < 0x6000 → usable_at a (pmm_init 0x2000 0x5000 64 32 memory) ≡ 0)
          × (NoneStraddles 0x2000 memory
              → 0x2000 ≤ a
              → (a < 0x5000) ⊎ (0x6000 ≤ a)
              → usable_at a (pmm_init 0x2000 0x5000 64 32 memory) ≡ usable_at a memory))
pmm_init_lem_example = pmm_init_lem 0x2000 0x5000 64 32 memory (omega arith) memory-IsOrdered

-- The kernel ends inside the ACPI region.
reserve_kernel-straddles_example :
    (usable_at 0x9900 (record { base = 0x9000; size = 0x1000; type = RegionType.acpi_nvs } ∷ [])
      ≡ 0)
    × (0 < usable_at 0x9900 (reserve_kernel 0x9800 memory))
reserve_kernel-straddles_example =
    reserve_kernel-straddles 0x9800 0x9900 (omega arith)
      (usable_from 0x1800 0x2000 ∷ usable_from 0x3800 0x4000 ∷ [])
      (record { base = 0x9000; size = 0x1000; type = RegionType.acpi_nvs }) [] (omega arith)
      (omega arith) refl (omega arith) (omega arith) (omega arith)
