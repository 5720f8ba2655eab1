-- ===== src/RwFs.antt =====
-- library/file/fs.c, and the functions of library/file/fs_rw.c, most of which are exercises that stop
-- the machine. The disk is a device of Earth.Disk, and blocks are read into a buffer in memory.
pub mod Allocation
use egos_project.Prelude.{
  ℕ, zero, suc, ◌+◌, ◌*◌, ◌/◌, ◌%◌, Bool, true, false, ◌&&◌, leb, ◌==◌, if◌then◌else◌, Option, none,
  some, List, [], ◌∷◌, Run, ok, fatal, undefined, store_full, not_implemented, assert, ◌>>=◌, ◌>>◌,
}
use egos_project.Machine.Memory.{Memory, memset, load32}
use egos_project.Bitmap.{bit_set, bit_clear, bit_test}
use egos_project.Earth.Disk.{DiskType, block_size, disk_read, disk_write}
use egos_project.Apps.FileServer.{fs_root_inode}
use egos_project.Apps.DirServer.{c_string}

-- The fields of struct fs_struct that the functions use, and the memory.
pub record Fs : Type 0 where
  pub total_blks : ℕ
  pub bitmap : List ℕ
  pub mem : Memory

-- The loop, with `left` rounds to go from block `i`.
alloc_from : (left i : ℕ) → Fs → Run (ℕ × Fs)
alloc_from zero i fs = fatal store_full
alloc_from (suc left) i fs = do
  used ← bit_test fs.bitmap i
  elim used [
    | true ↦ alloc_from left (i + 1) fs
    | false ↦ do map ← bit_set fs.bitmap i; ok (i, record fs { bitmap = map })
  ]

unfoldable pub alloc_block : Fs → Run (ℕ × Fs)
unfolding alloc_from
alloc_block fs = alloc_from fs.total_blks 0 fs

unfoldable pub block_read : DiskType → (block_no dst : ℕ) → Memory → Run Memory
block_read type block_no dst m = disk_read type block_no 1 dst m

unfoldable pub block_write : DiskType → (block_no src : ℕ) → Memory → Run Memory
block_write type block_no src m = disk_write type block_no 1 src m

-- The buffer of zeros stands at `buf`.
unfoldable pub free_block : DiskType → (buf blk_id : ℕ) → Fs → Run Fs
unfolding block_write
free_block type buf blk_id fs = do
  map ← bit_clear fs.bitmap blk_id
  m ← block_write type blk_id buf (memset buf 0 block_size fs.mem)
  ok (record fs { bitmap = map; mem = m })

-- NUM_DIRENT_BLOCK, and the entry at `a`: a bit and an inode number in a word, and a name of 28.
abbrev pub num_dirent_block : ℕ
num_dirent_block = block_size / 32

abbrev pub dirent_valid : ℕ → Memory → Bool
dirent_valid a m = load32 m a % 2 == 1

abbrev pub dirent_inum : ℕ → Memory → ℕ
dirent_inum a m = load32 m a / 2

abbrev pub same_string : List ℕ → List ℕ → Bool
same_string [] [] = true
same_string [] (d ∷ ds) = false
same_string (c ∷ cs) [] = false
same_string (c ∷ cs) (d ∷ ds) = let rest = same_string cs ds in if c == d then rest else false

-- strcmp with a name that has no 0 runs into the next entry.
abbrev pub dirent_named : ℕ → List ℕ → Memory → Run Bool
dirent_named a token m = elim (c_string 28 0 (λ k. m (a + 4 + k))) [
  | none ↦ undefined
  | some name ↦ ok (same_string name token)
]

-- The loop over the entries, the first of which stands at `a`; `none` stands for -1.
unfoldable pub lookup_from : (left a : ℕ) → List ℕ → Memory → Run (Option ℕ)
lookup_from zero a token m = ok none
lookup_from (suc left) a token m = elim (dirent_valid a m) [
  | false ↦ lookup_from left (a + 32) token m
  | true ↦ do
    same ← dirent_named a token m
    elim same [
      | true ↦ ok (some (dirent_inum a m + fs_root_inode))
      | false ↦ lookup_from left (a + 32) token m
    ]
]

-- The directory's only block is the one at ptrs[0].
unfoldable pub lookup_name : DiskType → (arr ptr : ℕ) → List ℕ → Memory → Run (Option ℕ)
unfolding lookup_from
lookup_name type arr ptr token m = do
  m' ← disk_read type ptr 1 arr m
  lookup_from num_dirent_block arr token m'

-- struct fs_inode, without its padding.
pub record Inode : Type 0 where
  pub mode : ℕ
  pub size : ℕ
  pub ptrs : List ℕ
  pub indirect_ptr : ℕ

-- The exercises: an inode is never found, and its block never written back.
unfoldable pub fs_init : ℕ → Fs → Run Fs
fs_init super_blk_id fs = fatal not_implemented

unfoldable pub load_inode : ℕ → Option Inode
load_inode ino = none

unfoldable pub flush_inode : Fs → Fs
flush_inode fs = fs

unfoldable pub fs_read : (ino offset len buf : ℕ) → Fs → Run Fs
fs_read ino offset len buf fs = do assert (leb len block_size); fatal not_implemented

unfoldable pub fs_fsize : ℕ → Fs → Run ℕ
fs_fsize ino fs = fatal not_implemented

unfoldable pub fs_write : (ino offset len buf : ℕ) → Fs → Run Fs
fs_write ino offset len buf fs = fatal not_implemented
