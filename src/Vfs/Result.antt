-- ===== src/Vfs/Result.antt =====
-- `VFSResult` of kernel_include/filesystem/VFS.h, and the outcome of an operation that answers a
-- value with `VFS_RES_OK`.
pub data VfsResult : Type 0 where
  ok : VfsResult
  error : VfsResult
  not_found : VfsResult
  invalid : VfsResult
  unsupported : VfsResult
  no_memory : VfsResult
  exists : VfsResult
  busy : VfsResult
  no_space : VfsResult
  access : VfsResult

-- `fails` is one of the results other than `VFS_RES_OK`.
pub data Outcome {ℓ} (A : Type ℓ) : Type ℓ where
  value : A → Outcome A
  fails : VfsResult → Outcome A
