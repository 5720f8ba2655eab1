-- ===== src/TreeDisk/RamDisk.antt =====
-- The RAM disk of tools/mkfs.c: `fs` as blocks. An access behind the end of the array is undefined.
use egos_project.Prelude.{
  ℕ, ◌*◌, ◌/◌, ◌≡◌, refl, arith, true, ltb, ◌==◌, if◌then◌else◌, Option, some, Run, ok, undefined,
}
use egos_project.TreeDisk.Store.{Block, InodeStore, IsDisk}

-- FS_DISK_SIZE / BLOCK_SIZE
abbrev pub fs_disk_blocks : ℕ
fs_disk_blocks = 1024 * 1024 * 2 / 512

abbrev pub put_block : ℕ → Block → (ℕ → Block) → ℕ → Block
put_block n b fs m = if n == m then b else fs m

unfoldable pub ramread : ℕ → ℕ → (ℕ → Block) → Run (Option Block)
ramread ino offset fs = if ltb offset fs_disk_blocks then ok (some (fs offset)) else undefined

unfoldable pub ramwrite : ℕ → ℕ → Block → (ℕ → Block) → Run (Option (ℕ → Block))
ramwrite ino offset block fs =
    if ltb offset fs_disk_blocks then ok (some (put_block offset block fs)) else undefined

abbrev pub ramdisk_init : InodeStore
ramdisk_init = record {
  State = ℕ → Block;
  getsize = λ ino fs. fs_disk_blocks;
  read = ramread;
  write = ramwrite;
}

-- It is a disk in the sense that the tree disk relies on, at each inode number.
unfoldable pub ramdisk-IsDisk : (ino : ℕ) → IsDisk ramdisk_init ino
unfolding ramread ramwrite
ramdisk-IsDisk ino = record {
  content = λ fs. fs;
  put = put_block;
  read_law = λ n fs h. let inside : ltb n fs_disk_blocks ≡ true = ground arith in rw inside refl;
  write_law = λ n b fs h. let inside : ltb n fs_disk_blocks ≡ true = ground arith in rw inside refl;
  content_law = λ n b fs m. refl;
  size_law = λ n b fs. refl;
}
