-- ===== src/Tests/Disk.antt =====
-- The theorems on the tree disk, on the RAM disk of tools/mkfs.c.
use egos_project.Prelude.{
  ℕ, ◌<◌, ◌≤◌, ◌≡◌, ◌≢◌, refl, arith, ◌⊎◌, ◌==◌, if◌then◌else◌, none, some, [], ◌∷◌, ok,
}
use egos_project.TreeDisk.Store.{Block}
use egos_project.TreeDisk.RamDisk.{fs_disk_blocks, ramdisk_init, ramdisk-IsDisk}
use egos_project.TreeDisk.Layout.{null_block, Snapshot, levels_over}
use egos_project.TreeDisk.Layout.Levels.{IsLevels, levels_over-IsLevels}
use egos_project.TreeDisk.Alloc.FreeList.{free_refs, FreeList, done, link}
use egos_project.TreeDisk.Alloc.Allocation.{HasFree, Taken, treedisk_alloc_block-Outcome}
use egos_project.TreeDisk.Create.{setup_freelist, treedisk_create}
use egos_project.TreeDisk.Create.ListBlock.{countdown}
use egos_project.TreeDisk.Create.Setup.{Built, setup_freelist-Built}
use egos_project.TreeDisk.Create.Fresh.{Initialized, treedisk_create-Fresh}

abbrev empty_fs : ℕ → Block
empty_fs n = null_block

-- One inode block, and a free list of the block 2 with a reference to the block 3.
abbrev small_superblock : Block
small_superblock i = if i == 0 then 1 else if i == 1 then 2 else 0

abbrev small_list : Block
small_list i = if i == 1 then 3 else 0

abbrev small_fs : ℕ → Block
small_fs n = if n == 0 then small_superblock else if n == 2 then small_list else null_block

abbrev small_snapshot : Snapshot
small_snapshot = record {
  superblock = small_superblock;
  inodeblock = null_block;
  inode_blockno = 1;
  idx = 0;
}

small_fs-FreeList : FreeList fs_disk_blocks small_fs 2 (2 ∷ []) (3 ∷ 2 ∷ [])
unfolding free_refs
small_fs-FreeList = link (omega arith) (omega arith) tt done

small_fs-HasFree :
    HasFree ramdisk_init 0
      (ramdisk-IsDisk 0)
      fs_disk_blocks
      small_snapshot
      small_fs
      (2 ∷ [])
      (3 ∷ 2 ∷ [])
unfolding ramdisk-IsDisk
small_fs-HasFree = record { size_eq = refl; in_sync = refl; list = small_fs-FreeList }

treedisk_alloc_block-Outcome_example :
    Taken ramdisk_init 0
      (ramdisk-IsDisk 0)
      fs_disk_blocks
      small_snapshot
      small_fs
      (2 ∷ [])
      3
      (2 ∷ [])
treedisk_alloc_block-Outcome_example =
    treedisk_alloc_block-Outcome ramdisk_init 0 (ramdisk-IsDisk 0) fs_disk_blocks small_snapshot
      small_fs (2 ∷ []) (3 ∷ 2 ∷ []) small_fs-HasFree

setup_freelist-Built_example :
    Built ramdisk_init 0
      (ramdisk-IsDisk 0)
      fs_disk_blocks
      3
      3
      (countdown 3 1000 [])
      empty_fs
      (setup_freelist ramdisk_init 0 3 1003 null_block empty_fs)
setup_freelist-Built_example =
    setup_freelist-Built ramdisk_init 0 (ramdisk-IsDisk 0) fs_disk_blocks 3 1003 null_block empty_fs
      (omega arith) (omega arith) (omega arith) refl

treedisk_create-Fresh_example :
    ((fs_disk_blocks < 4) × (treedisk_create ramdisk_init 0 128 null_block empty_fs ≡ ok none))
    ⊎ ((4 ≤ fs_disk_blocks)
        × (empty_fs 0 0 ≢ 0)
        × (treedisk_create ramdisk_init 0 128 null_block empty_fs ≡ ok (some empty_fs)))
    ⊎ Initialized ramdisk_init 0
        (ramdisk-IsDisk 0)
        fs_disk_blocks
        2
        empty_fs
        (treedisk_create ramdisk_init 0 128 null_block empty_fs)
unfolding ramdisk-IsDisk
treedisk_create-Fresh_example =
    treedisk_create-Fresh ramdisk_init 0 (ramdisk-IsDisk 0) fs_disk_blocks 128 2 null_block empty_fs
      refl refl

levels_over-IsLevels_example : IsLevels 200 (levels_over 200)
levels_over-IsLevels_example = levels_over-IsLevels 200 (omega arith)
