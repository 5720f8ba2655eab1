-- ===== src/Tests/Files.antt =====
-- The ROM image of a small file system, and a file that two readers see alike.
use egos_project.Prelude.{
  ℕ, ◌+◌, ◌-◌, ◌*◌, ◌/◌, ◌%◌, ◌⊎◌, true, fatal, store_full, [], ◌∷◌, ◌<◌, ◌≡◌, refl, arith, ◌==◌,
  if◌then◌else◌, some, ok, Bool-cases, inl, inr, false, ltb,
}
use egos_project.Bitmap.Laws.{bit_at}
use egos_project.RwFs.{Fs, alloc_block}
use egos_project.RwFs.Allocation.{HandedOut, alloc_block-HandedOut}
use egos_project.Machine.Memory.{Memory, load32}
use egos_project.Earth.Disk.{block_size, rom_addr}
use egos_project.TreeDisk.Store.{Block}
use egos_project.TreeDisk.RamDisk.{ramdisk_init, ramread, fs_disk_blocks}
use egos_project.TreeDisk.Layout.{
  refs_per_block, read_inode, treedisk_get_snapshot, levels, log_shift_r,
}
use egos_project.TreeDisk.Access.{treedisk_read, read_inode_block, read_walk}
use egos_project.TreeDisk.Device.{grass_fs_start, fs_disk_init, words_at}
use egos_project.TreeDisk.Device.Image.{IsImage, treedisk_read-device}

-- One inode block; the inode 0 has one block, the block 2.
abbrev word_at : (n i : ℕ) → ℕ
word_at n i =
    if n == 0
    then (if i == 0 then 1 else 0)
    else if n == 1
    then (if i == 0 then 2 else if i == 1 then 1 else 0)
    else if n == 2
    then (if i == 0 then 42 else 0)
    else 0

abbrev pub fs : ℕ → Block
fs n i = if ltb i refs_per_block then word_at n i else 0

abbrev rom_start : ℕ
rom_start = rom_addr grass_fs_start

-- The words are below 256, so one byte of each is not 0.
abbrev rom : Memory
rom a =
    if (a - rom_start) % 4 == 0
    then word_at ((a - rom_start) / block_size) ((a - rom_start) / 4 % refs_per_block)
    else 0

rom_at : (n i : ℕ) → i < refs_per_block → rom (rom_start + (n * block_size + 4 * i)) ≡ word_at n i
rom_at n i h =
    let at : rom_start + (n * block_size + 4 * i) - rom_start ≡ n * block_size + 4 * i =
      omega arith in
    let first : (n * block_size + 4 * i) % 4 ≡ 0 = omega arith in
    let block : (n * block_size + 4 * i) / block_size ≡ n = omega arith in
    let word : (n * block_size + 4 * i) / 4 % refs_per_block ≡ i = omega arith in
    rw (at, first, block, word) refl

rom_other : (a k : ℕ) → 0 < k → k < 4 → rom (rom_start + 4 * a + k) ≡ 0
rom_other a k h l =
    let at : rom_start + 4 * a + k - rom_start ≡ 4 * a + k = omega arith in
    let other : ((4 * a + k) % 4 == 0) ≡ false = ground arith in rw (at, other) refl

rom-word :
    (n i : ℕ)
    → n < fs_disk_blocks
    → i < refs_per_block
    → load32 rom (rom_addr (grass_fs_start + n) + 4 * i) ≡ word_at n i
unfolding load32
rom-word n i h l =
    let at : rom_addr (grass_fs_start + n) + 4 * i ≡ rom_start + (n * block_size + 4 * i) =
      omega arith in
    let by_words : rom_start + (n * block_size + 4 * i) ≡ rom_start + 4 * (n * 128 + i) =
      omega arith in
    let first = rw by_words at (rom_at n i l) in
    rw
      (
        at,
        by_words,
        first,
        rom_other (n * 128 + i) 1 (omega arith) (omega arith),
        rom_other (n * 128 + i) 2 (omega arith) (omega arith),
        rom_other (n * 128 + i) 3 (omega arith) (omega arith),
      )
      (omega arith)

fs-IsImage : IsImage fs rom
fs-IsImage n h = λ d. λ i. word i d
  where
    word : (i : ℕ) → words_at (rom_addr (grass_fs_start + n)) rom i ≡ fs n i
    word i = elim (Bool-cases (ltb i refs_per_block)) [
      | inl inside ↦ rw inside (rom-word n i h (ground arith))
      | inr outside ↦ rw outside refl
    ]

reads : treedisk_read ramdisk_init 0 0 0 fs ≡ ok (some (fs 2))
unfolding treedisk_read read_inode_block read_walk treedisk_get_snapshot read_inode ramread levels
    log_shift_r
reads = refl

treedisk_read-device_example : treedisk_read (fs_disk_init 0x1000) 0 0 0 rom ≡ ok (some (fs 2))
treedisk_read-device_example =
    treedisk_read-device 0x1000 fs rom fs-IsImage 0 0 0 (some (fs 2)) reads

-- A map of eight blocks, of which the first two are in use.
abbrev rw_fs : Fs
rw_fs = record { total_blks = 8; bitmap = 3 ∷ []; mem = λ a. 0 }

alloc_block-HandedOut_example :
    HandedOut rw_fs (alloc_block rw_fs)
    ⊎ ((alloc_block rw_fs ≡ fatal store_full)
        × ((j : ℕ) → j < rw_fs.total_blks → bit_at rw_fs.bitmap j ≡ true))
alloc_block-HandedOut_example = alloc_block-HandedOut rw_fs (omega arith, tt) (omega arith)
