-- ===== src/Vfs/Handles/Laws.antt =====
-- What a handle's offset is after each operation, and who may write.
use atom_os.Prelude.{
  ℕ, suc, ◌+◌, ◌-◌, ◌^◌, ◌≡◌, ◌<◌, refl, false, Option, none, some, arith, ltb, ◌==◌, add64,
  Bool-cases, inl, inr,
}
use atom_os.Strings.{ℤ}
use atom_os.Vfs.Result.{VfsResult}
use atom_os.Vfs.Handles.{
  VfsHandle, VfsSeekWhence, NodeOps, vfs_handle_can_read, vfs_handle_can_write, advance, sought,
  vfs_read_at, vfs_write_at, vfs_read, vfs_write, vfs_seek_handle,
}

module _ {S : Type 0} (ops : NodeOps S) (h : VfsHandle) (s : S) where
  -- What an operation at the handle's own offset answers, with the handle moved by it.
  abbrev pub moving : ℤ × S → ℤ × VfsHandle × S
  moving (n, s') = (n, advance h n, s')

  vfs_read_on :
      (buffer size : ℕ) (o : Option (ℕ → ℕ → ℕ → ℕ → S → ℤ × S))
      → ops.read h.node ≡ o
      → vfs_read ops h (some buffer) size s
        ≡ moving (vfs_read_at ops h h.offset (some buffer) size s)
  unfolding vfs_read vfs_read_at advance
  vfs_read_on buffer size none e = elim (Bool-cases (size == 0)) [
    | inl z ↦ simp z
    | inr z ↦ elim (Bool-cases (vfs_handle_can_read h)) [
      | inr c ↦ simp (z, c)
      | inl c ↦ simp (z, c, e, vfs_read, vfs_read_at)
    ]
  ]
  vfs_read_on buffer size (some op) e = elim (Bool-cases (size == 0)) [
    | inl z ↦ simp z
    | inr z ↦ elim (Bool-cases (vfs_handle_can_read h)) [
      | inr c ↦ simp (z, c)
      | inl c ↦ simp (z, c, e, vfs_read, vfs_read_at)
    ]
  ]

  vfs_write_on :
      (buffer size : ℕ) (o : Option (ℕ → ℕ → ℕ → ℕ → S → ℤ × S))
      → ops.write h.node ≡ o
      → vfs_write ops h (some buffer) size s
        ≡ moving (vfs_write_at ops h h.offset (some buffer) size s)
  unfolding vfs_write vfs_write_at advance
  vfs_write_on buffer size none e = elim (Bool-cases (size == 0)) [
    | inl z ↦ simp z
    | inr z ↦ elim (Bool-cases (vfs_handle_can_write h)) [
      | inr c ↦ simp (z, c)
      | inl c ↦ simp (z, c, e, vfs_write, vfs_write_at)
    ]
  ]
  vfs_write_on buffer size (some op) e = elim (Bool-cases (size == 0)) [
    | inl z ↦ simp z
    | inr z ↦ elim (Bool-cases (vfs_handle_can_write h)) [
      | inr c ↦ simp (z, c)
      | inl c ↦ simp (z, c, e, vfs_write, vfs_write_at)
    ]
  ]

  -- `vfs_read` and `vfs_write` answer and do what `vfs_read_at` and `vfs_write_at` answer and do at the
  -- handle's own offset, and then move that offset by the number of bytes, modulo 2^64, where it is positive;
  -- where it is not, the handle is as before.
  pub vfs_read-vfs_read_at :
      (buffer : Option ℕ) (size : ℕ)
      → (vfs_read ops h buffer size s ≡ moving (vfs_read_at ops h h.offset buffer size s))
        × (vfs_write ops h buffer size s ≡ moving (vfs_write_at ops h h.offset buffer size s))
  vfs_read-vfs_read_at none size =
      unfold vfs_read vfs_read_at vfs_write vfs_write_at advance in (refl, refl)
  vfs_read-vfs_read_at (some buffer) size = (
    vfs_read_on buffer size (ops.read h.node) refl,
    vfs_write_on buffer size (ops.write h.node) refl,
  )

  -- Forward by `n` and back again: the handle is as before, where the position stays below 2^64.
  pub vfs_seek_handle_back :
      (n : ℕ)
      → h.offset + suc n < 2 ^ 64
      → (k : VfsHandle) × (vfs_seek_handle ops h (ℤ.pos (suc n)) VfsSeekWhence.cur s
          ≡ (VfsResult.ok, k, s))
        × (k.offset ≡ h.offset + suc n)
        × (vfs_seek_handle ops k (ℤ.negsuc n) VfsSeekWhence.cur s ≡ (VfsResult.ok, h, s))
  unfolding vfs_seek_handle sought
  vfs_seek_handle_back n l =
      let e : add64 h.offset (suc n) ≡ h.offset + suc n = omega arith in
      let t : ltb (add64 h.offset (suc n)) (n + 1) ≡ false = ground (arith, e) in
      let d : add64 h.offset (suc n) - (n + 1) ≡ h.offset = omega (arith, e) in
      (record h { offset = add64 h.offset (suc n) }, refl, e, simp (t, d))
