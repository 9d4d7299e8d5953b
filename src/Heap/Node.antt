-- ===== src/Heap/Node.antt =====
-- `HeapNode` of kernel/memory/heap.c, and the memory that holds the nodes. `Store` is read and
-- written at the addresses of node headers; the headers of a region lie 16 bytes apart or more,
-- and a caller writes only inside its own block.
use atom_os.Prelude.{ℕ, Bool, ◌==◌, if◌then◌else◌, sub64}

pub record HeapNode : Type 0 where
  pub magic : ℕ
  pub is_free : Bool
  pub next : ℕ

abbrev pub Store : Type 0
Store = ℕ → HeapNode

-- `HEAP_MAGIC`, `sizeof(HeapNode)` and `HEAP_NODE_MIN_SIZE` of the x86_64 build.
abbrev pub heap_magic : ℕ
heap_magic = 0xDEADBEEF

abbrev pub header : ℕ
header = 16

abbrev pub min_size : ℕ
min_size = 16

unfoldable pub put : Store → ℕ → HeapNode → Store
put h a n x = if x == a then n else h x

-- `NODE_SIZE`.
abbrev pub node_size : Store → ℕ → ℕ
node_size h a = if (h a).next == 0 then 0 else sub64 (sub64 (h a).next a) header
