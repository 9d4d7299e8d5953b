-- ===== src/Pmm/Alloc/Tests.antt =====
-- Runs of `pmm_alloc`.
use atom_os.Prelude.{◌≡◌, refl, some, none, []}
use atom_os.Pmm.Maintain.{pmm_maintain}
use atom_os.Pmm.Alloc.{
  insert_at, insert_suffix, aligned_base, fits, suffix, has_suffix, carve_middle, carve, alloc_from,
  alloc_size_of, pmm_alloc,
}
use atom_os.Pmm.Alloc.Laws.{enough}
use atom_os.Pmm.Examples.{memory, carved}

pub carved_runs : pmm_alloc memory 5 (enough []) ≡ (some 0x2000, carved, [])
unfolding pmm_alloc alloc_size_of pmm_maintain alloc_from fits carve carve_middle aligned_base
    suffix has_suffix insert_suffix insert_at
carved_runs = refl

too_large : (pmm_alloc memory 100 (enough [])).0 ≡ none
unfolding pmm_alloc alloc_size_of pmm_maintain alloc_from fits aligned_base
too_large = refl
