-- ===== src/TreeDisk/Layout.antt =====
-- library/file/file.h and the start of library/file/file.c: what the blocks hold, the levels of a
-- file's tree, and the snapshot that each operation works on. Numbers of blocks are unsigned and
-- of 32 bits.
pub mod Levels
use egos_project.Prelude.{
  ℕ, zero, suc, ◌+◌, ◌-◌, ◌*◌, ◌/◌, ◌%◌, ◌^◌, ◌<◌, ◌≤◌, ◌≡◌, refl, arith, Bool, true, false, not,
  ltb, leb, ◌==◌, if◌then◌else◌, Option, none, some, Run, ok, undefined, fatal, ◌>>=◌, ◌>>◌,
}
use egos_project.TreeDisk.Store.{Block, InodeStore}

-- REFS_PER_BLOCK and INODES_PER_BLOCK: 512 bytes of 4 and of 8.
abbrev pub refs_per_block : ℕ
refs_per_block = 128

abbrev pub inodes_per_block : ℕ
inodes_per_block = 64

abbrev pub u32_mod : ℕ
u32_mod = 0x1_0000_0000

-- memset(&b, 0, BLOCK_SIZE)
abbrev pub null_block : Block
null_block i = 0

abbrev pub set_word : ℕ → ℕ → Block → Block
set_word i v b j = if i == j then v else b j

-- struct treedisk_superblock: its words in the block.
abbrev pub n_inodeblocks_word : ℕ
n_inodeblocks_word = 0

abbrev pub free_list_word : ℕ
free_list_word = 1

-- struct treedisk_inode, the one with index `idx` in its block.
abbrev pub root_word : ℕ → ℕ
root_word idx = 2 * idx

abbrev pub nblocks_word : ℕ → ℕ
nblocks_word idx = 2 * idx + 1

-- The loop of `treedisk_init`, which is left when REFS_PER_BLOCK - 1 shifted by it is 0.
log_rpb_from : ℕ → ℕ → ℕ
log_rpb_from zero log = log
log_rpb_from (suc fuel) log = elim ((refs_per_block - 1) / 2 ^ (log + 1) == 0) [
  | true ↦ log + 1
  | false ↦ log_rpb_from fuel (log + 1)
]

-- log2(REFS_PER_BLOCK)
abbrev pub log_rpb : ℕ
log_rpb = 7

-- What `treedisk_init` computes.
log_rpb-eq : log_rpb_from 10 0 ≡ log_rpb
unfolding log_rpb_from
log_rpb-eq = refl

unfoldable pub log_shift_r : ℕ → ℕ → ℕ
log_shift_r x nbits = if leb 32 nbits then 0 else x / 2 ^ nbits

-- The loop that counts the levels of the tree over the blocks 0 to `last`. The bits of a number
-- below 2 ^ 32 are gone after five levels of seven, so six rounds are enough.
unfoldable levels_from : ℕ → ℕ → ℕ → ℕ
levels_from zero last nlevels = nlevels
levels_from (suc fuel) last nlevels = elim (log_shift_r last (nlevels * log_rpb) == 0) [
  | true ↦ nlevels
  | false ↦ levels_from fuel last (nlevels + 1)
]

unfoldable pub levels_over : ℕ → ℕ
unfolding levels_from
levels_over last = levels_from 6 last 0

-- The levels of a file with `nblocks` blocks.
unfoldable pub levels : ℕ → ℕ
unfolding levels_over
levels nblocks = if ltb 0 nblocks then levels_over (nblocks - 1) else 0

-- The index into an indirect block, with `nlevels` levels below it.
unfoldable pub index_at : ℕ → ℕ → ℕ
unfolding log_shift_r
index_at offset nlevels = log_shift_r offset (nlevels * log_rpb) % refs_per_block

pub record Snapshot : Type 0 where
  pub superblock : Block
  pub inodeblock : Block
  pub inode_blockno : ℕ
  pub idx : ℕ

abbrev pub inode_root : Snapshot → ℕ
inode_root t = t.inodeblock (root_word t.idx)

abbrev pub inode_nblocks : Snapshot → ℕ
inode_nblocks t = t.inodeblock (nblocks_word t.idx)

module _ (below : InodeStore) (below_ino : ℕ) where
  -- The second read, of the block that holds the inode.
  unfoldable pub read_inode : Block → ℕ → below.State → Run (Option Snapshot)
  read_inode superblock inode_no s = do
    let blockno = 1 + inode_no / inodes_per_block
    r ← below.read below_ino blockno s
    elim r [
      | none ↦ ok none
      | some b ↦ ok (
          some (record {
            superblock = superblock;
            inodeblock = b;
            inode_blockno = blockno;
            idx = inode_no % inodes_per_block;
          }))
    ]

  unfoldable pub treedisk_get_snapshot : ℕ → below.State → Run (Option Snapshot)
  treedisk_get_snapshot inode_no s = do
    r ← below.read below_ino 0 s
    elim r [
      | none ↦ ok none
      | some sb ↦
          if leb (sb n_inodeblocks_word * inodes_per_block % u32_mod) inode_no
          then ok none
          else read_inode sb inode_no s
    ]
