-- ===== src/TreeDisk/Device/Image.antt =====
-- The disk image that tools/mkfs.c makes, in the ROM: its files are those of the RAM disk.
use egos_project.Prelude.{
  ℕ, ◌+◌, ◌*◌, ◌<◌, ◌≡◌, refl, ap, ◌∙◌, inl, inr, arith, ltb, Option, some, Run, ok, undefined,
  Bool-cases, ok-injective,
}
use egos_project.Machine.Memory.{Memory, memcpy, memcpy_within, load32, load32_ext}
use egos_project.Earth.Disk.{block_size, rom_addr, disk_read}
use egos_project.TreeDisk.Store.{Block}
use egos_project.TreeDisk.Layout.{refs_per_block}
use egos_project.TreeDisk.RamDisk.{fs_disk_blocks, ramread, ramdisk_init}
use egos_project.TreeDisk.Access.{treedisk_read}
use egos_project.TreeDisk.Access.Simulation.{Reads, treedisk_read-Reads}
use egos_project.TreeDisk.Device.{grass_fs_start, words_at, device_read, fs_disk_init}

-- The ROM holds the blocks of the RAM disk, from the start of the file system on.
abbrev pub IsImage : (ℕ → Block) → Memory → Type 0
IsImage fs rom = (n : ℕ) → n < fs_disk_blocks → words_at (rom_addr (grass_fs_start + n)) rom ≡ fs n

copied_byte :
    (dst src i k : ℕ) (m : Memory)
    → i < refs_per_block
    → k < 4
    → memcpy dst src (1 * block_size) m (dst + 4 * i + k) ≡ m (src + 4 * i + k)
copied_byte dst src i k m h l =
    let to : dst + 4 * i + k ≡ dst + (4 * i + k) = omega arith in
    let from : src + (4 * i + k) ≡ src + 4 * i + k = omega arith in
    ap (memcpy dst src (1 * block_size) m) to
    ∙ memcpy_within dst src (1 * block_size) m (4 * i + k) (omega arith)
    ∙ ap m from

load32-memcpy :
    (dst src i : ℕ) (m : Memory)
    → i < refs_per_block
    → load32 (memcpy dst src (1 * block_size) m) (dst + 4 * i) ≡ load32 m (src + 4 * i)
load32-memcpy dst src i m h =
    let first = copied_byte dst src i 0 m h (omega arith) in
    let to : dst + 4 * i + 0 ≡ dst + 4 * i = omega arith in
    let from : src + 4 * i + 0 ≡ src + 4 * i = omega arith in
    load32_ext m (memcpy dst src (1 * block_size) m) (src + 4 * i) (dst + 4 * i)
      (λ k l. copied_byte dst src i k m h l) (rw (to, from) at first)

words_at-memcpy :
    (dst src : ℕ) (m : Memory) → words_at dst (memcpy dst src (1 * block_size) m) ≡ words_at src m
words_at-memcpy dst src m = λ d. λ i. word i d
  where
    word : (i : ℕ) → words_at dst (memcpy dst src (1 * block_size) m) i ≡ words_at src m i
    word i = elim (Bool-cases (ltb i refs_per_block)) [
      | inl inside ↦ rw inside (load32-memcpy dst src i m (ground arith))
      | inr outside ↦ rw outside refl
    ]

module _ (buf : ℕ) (fs : ℕ → Block) (rom : Memory) (image : IsImage fs rom) (ino : ℕ) where
  device-Reads : Reads ramdisk_init (fs_disk_init buf) ino fs rom
  unfolding ramread device_read disk_read
  device-Reads n r h = elim (Bool-cases (ltb n fs_disk_blocks)) [
    | inl inside ↦
        let found : some (fs n) ≡ r = ok-injective (rw inside at h) in
        ap (λ x. ok (some x))
          (words_at-memcpy buf (rom_addr (grass_fs_start + n)) rom ∙ image n (ground arith))
        ∙ ap ok found
    | inr outside ↦ absurd (lost (rw outside at h))
  ]
    where
      lost : ◌≡◌ {A = Run (Option Block)} undefined (ok r) → ⊥
      lost e = cc

  -- With the image in the ROM, every read of a file on the RAM disk has the same result on the
  -- device: a block, a hole, or the refusal of a number that is too large.
  pub treedisk_read-device :
      (inode_no offset : ℕ) (r : Option Block)
      → treedisk_read ramdisk_init ino inode_no offset fs ≡ ok r
      → treedisk_read (fs_disk_init buf) ino inode_no offset rom ≡ ok r
  treedisk_read-device inode_no offset r =
      treedisk_read-Reads ramdisk_init (fs_disk_init buf) ino fs rom inode_no offset r device-Reads
