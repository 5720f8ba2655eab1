-- ===== src/TreeDisk/Device.antt =====
-- library/file/disk.c: the disk as an inode store, and library/file/disk.h. A block is read into a
-- buffer of the caller; it is given here as its words. The disk is the ROM.
pub mod Image
use egos_project.Prelude.{
  ℕ, ◌+◌, ◌*◌, ◌/◌, ltb, if◌then◌else◌, Option, none, some, Run, ok, fatal, ◌>>=◌,
}
use egos_project.Machine.Memory.{Memory, load32}
use egos_project.Earth.Disk.{DiskType, flash_rom, block_size, disk_read, disk_write}
use egos_project.TreeDisk.Store.{Block, InodeStore}
use egos_project.TreeDisk.Layout.{refs_per_block}
use egos_project.TreeDisk.RamDisk.{fs_disk_blocks}

-- GRASS_FS_START
abbrev pub grass_fs_start : ℕ
grass_fs_start = (1024 * 1024 + 1024 * 1024) / 512

-- The words of the block at an address.
abbrev pub words_at : ℕ → Memory → Block
words_at addr m i = if ltb i refs_per_block then load32 m (addr + 4 * i) else 0

module _ (buf : ℕ) where
  unfoldable pub device_read : ℕ → ℕ → Memory → Run (Option Block)
  device_read ino offset m = do
    m' ← disk_read flash_rom (grass_fs_start + offset) 1 buf m
    ok (some (words_at buf m'))

  unfoldable pub device_write : ℕ → ℕ → Block → Memory → Run (Option Memory)
  device_write ino offset block m = do
    m' ← disk_write flash_rom (grass_fs_start + offset) 1 buf m
    ok (some m')

  abbrev pub fs_disk_init : InodeStore
  fs_disk_init = record {
    State = Memory;
    getsize = λ ino m. fs_disk_blocks;
    read = device_read;
    write = device_write;
  }
