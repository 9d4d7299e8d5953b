-- ===== src/Pmm/Init.antt =====
-- `pmm_init` of kernel/memory/pmm.c, with `bios_mr_init` and the loop of `efi_mr_init` over the
-- descriptors. The memory map that the firmware hands over is an argument; the calls of `malloc`
-- for the region structs, whose results the source does not test, succeed.
pub mod Order
pub mod Laws
use atom_os.Prelude.{
  ℕ, ◌+◌, ◌*◌, ◌/◌, ◌%◌, Bool, true, false, ◌&&◌, Option, none, some, List, [], ◌∷◌, ◌++◌, ltb, leb,
  ◌==◌, if◌then◌else◌, add64, sub64, mul64,
}
use atom_os.Pmm.Region.{MemoryRegion, RegionType, region_end, of_mb2_type, of_efi_type}

-- An entry of the Multiboot2 memory map, and a descriptor of the UEFI one.
pub record MmapEntry : Type 0 where
  pub addr : ℕ
  pub len : ℕ
  pub type : ℕ

pub record EfiDescriptor : Type 0 where
  pub physical_start : ℕ
  pub number_of_pages : ℕ
  pub type : ℕ

-- The loop of `bios_mr_init`; `List_Add` appends, so that the regions keep the order of the map.
pub bios_regions : List MmapEntry → List MemoryRegion
bios_regions [] = []
bios_regions (e ∷ es) =
    record { base = e.addr; size = e.len; type = of_mb2_type e.type } ∷ bios_regions es

-- The loop of `efi_mr_init`.
pub efi_regions : List EfiDescriptor → List MemoryRegion
efi_regions [] = []
efi_regions (e ∷ es) =
    record {
      base = e.physical_start;
      size = mul64 e.number_of_pages 4096;
      type = of_efi_type e.type;
    }
    ∷ efi_regions es

-- The round at the region `r` of the loop that takes the addresses below `kernel_end` out: what
-- stands in its place. The region that is inserted begins at `kernel_end`, so that the loop passes
-- over it.
pub kernel_round : ℕ → MemoryRegion → List MemoryRegion
kernel_round kernel_end r =
    if ltb r.base kernel_end
    then (if ltb kernel_end (region_end r)
        then record { base = r.base; size = sub64 kernel_end r.base; type = RegionType.reserved }
          ∷ record {
            base = kernel_end;
            size = sub64 (region_end r) kernel_end;
            type = RegionType.usable;
          }
          ∷ []
        else record r { type = RegionType.reserved } ∷ [])
    else r ∷ []

pub reserve_kernel : ℕ → List MemoryRegion → List MemoryRegion
reserve_kernel kernel_end [] = []
reserve_kernel kernel_end (r ∷ rs) = kernel_round kernel_end r ++ reserve_kernel kernel_end rs

-- The round at `r` of the loop that takes the framebuffer out. Of the two regions that it inserts
-- the first is the framebuffer, reserved already, and the second begins at its end, so that the
-- loop leaves both as they are.
pub framebuffer_round : ℕ → ℕ → MemoryRegion → List MemoryRegion
framebuffer_round fb_start size r =
    let fb_end = add64 fb_start size in
    if ltb r.base fb_end && ltb fb_start (region_end r)
    then (if ltb r.base fb_start && ltb fb_end (region_end r)
        then record r { size = sub64 fb_start r.base }
          ∷ record { base = fb_start; size = size; type = RegionType.reserved }
          ∷ record { base = fb_end; size = sub64 (region_end r) fb_end; type = r.type }
          ∷ []
        else if ltb r.base fb_start && leb (region_end r) fb_end
        then record r { size = sub64 fb_start r.base } ∷ []
        else if leb fb_start r.base && ltb fb_end (region_end r)
        then record r { base = fb_end; size = sub64 (region_end r) fb_end } ∷ []
        else record r { type = RegionType.reserved } ∷ [])
    else r ∷ []

pub reserve_framebuffer : ℕ → ℕ → List MemoryRegion → List MemoryRegion
reserve_framebuffer fb_start size [] = []
reserve_framebuffer fb_start size (r ∷ rs) =
    framebuffer_round fb_start size r ++ reserve_framebuffer fb_start size rs

-- The size of the framebuffer in whole pages.
pub framebuffer_size : ℕ → ℕ → ℕ
framebuffer_size pitch height =
    let size = mul64 pitch height in if size % 4096 == 0 then size else mul64 (size / 4096 + 1) 4096

-- `pmm_init` behind the reading of the map. A framebuffer at NULL is none.
pub pmm_init : ℕ → ℕ → ℕ → ℕ → List MemoryRegion → List MemoryRegion
pmm_init kernel_end framebuffer pitch height rs =
    let below = reserve_kernel kernel_end rs in
    if framebuffer == 0
    then below
    else reserve_framebuffer framebuffer (framebuffer_size pitch height) below
