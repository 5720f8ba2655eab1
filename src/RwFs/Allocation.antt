-- ===== src/RwFs/Allocation.antt =====
-- alloc_block takes the lowest free block.
use egos_project.Prelude.{
  ℕ, zero, suc, ◌+◌, ◌*◌, ◌≤◌, ◌<◌, ◌≡◌, refl, ◌⊎◌, inl, inr, arith, true, false, ◌==◌,
  if◌then◌else◌, length, Run, ok, fatal, store_full, Bool-cases,
}
use egos_project.Bitmap.Laws.{IsBytes, bit_at, bit_set_lem, bit_test_lem}
use egos_project.RwFs.{Fs, alloc_from, alloc_block}

-- A block handed out: the lowest free one, whose bit alone has changed.
pub record HandedOut (fs : Fs) (r : Run (ℕ × Fs)) : Type 0 where
  pub blk : ℕ
  pub after : Fs
  pub result : r ≡ ok (blk, after)
  pub in_range : blk < fs.total_blks
  pub was_free : bit_at fs.bitmap blk ≡ false
  pub lowest : (j : ℕ) → j < blk → bit_at fs.bitmap j ≡ true
  pub only : (j : ℕ) → bit_at after.bitmap j ≡ (if blk == j then true else bit_at fs.bitmap j)
  pub still_bytes : IsBytes after.bitmap
  pub same_disk : after.total_blks ≡ fs.total_blks
  pub same_mem : after.mem ≡ fs.mem

module _ (fs : Fs) (bytes : IsBytes fs.bitmap) (fits : fs.total_blks ≤ 8 * length fs.bitmap) where
  alloc_from-HandedOut :
      (left i : ℕ)
      → i + left ≡ fs.total_blks
      → ((j : ℕ) → j < i → bit_at fs.bitmap j ≡ true)
      → HandedOut fs (alloc_from left i fs)
        ⊎ ((alloc_from left i fs ≡ fatal store_full)
            × ((j : ℕ) → j < fs.total_blks → bit_at fs.bitmap j ≡ true))
  unfolding alloc_from
  alloc_from-HandedOut zero i e below = inr (refl, λ j h. below j (omega arith))
  alloc_from-HandedOut (suc left) i e below =
      let test = bit_test_lem fs.bitmap i bytes (omega arith) in
      elim (Bool-cases (bit_at fs.bitmap i)) [
        | inl used ↦
            rw (test, used)
              (alloc_from-HandedOut left (i + 1) (omega arith) λ j h. elim (Bool-cases (j == i)) [
                | inl same ↦ ground arith
                | inr other ↦ below j (ground arith)
              ])
        | inr free ↦
            let (map', set, u) = bit_set_lem fs.bitmap i bytes (omega arith) in
            rw (test, free)
              (inl (record {
                blk = i;
                after = record fs { bitmap = map' };
                result = rw set refl;
                in_range = omega arith;
                was_free = free;
                lowest = below;
                only = u.bits;
                still_bytes = u.bytes;
                same_disk = refl;
                same_mem = refl;
              }))
      ]

  -- With a bit for each block, alloc_block hands out the lowest free block and changes nothing but
  -- its bit, and it stops the machine only when every block is in use.
  pub alloc_block-HandedOut :
      HandedOut fs (alloc_block fs)
      ⊎ ((alloc_block fs ≡ fatal store_full)
          × ((j : ℕ) → j < fs.total_blks → bit_at fs.bitmap j ≡ true))
  unfolding alloc_block
  alloc_block-HandedOut =
      alloc_from-HandedOut fs.total_blks 0 (omega arith) (λ j h. absurd (omega arith))
