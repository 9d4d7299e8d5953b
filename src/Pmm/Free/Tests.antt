-- ===== src/Pmm/Free/Tests.antt =====
-- A run of `pmm_free`.
use atom_os.Prelude.{◌≡◌, refl, some, [], ◌∷◌}
use atom_os.Pmm.Region.{RegionType}
use atom_os.Pmm.Maintain.{span}
use atom_os.Pmm.Free.{absorb, join, merge_loop, find_base, release, pmm_free}
use atom_os.Pmm.Examples.{usable_from, carved}

free_runs :
    pmm_free carved 0x2000
    ≡ some (
        usable_from 0x1800 0x6000
        ∷ record { base = 0x9000; size = 0x1000; type = RegionType.acpi_nvs }
        ∷ [])
unfolding pmm_free find_base release merge_loop absorb join span
free_runs = refl
