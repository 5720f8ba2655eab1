-- ===== src/TreeDisk/Create.antt =====
-- setup_freelist and treedisk_create of library/file/file.c.
pub mod ListBlock
pub mod Setup
pub mod Fresh
pub mod Writable
use egos_project.Prelude.{
  ℕ, zero, suc, ◌+◌, ◌-◌, ◌/◌, ◌%◌, Bool, true, false, ltb, leb, ◌==◌, if◌then◌else◌, Option, none,
  some, Run, ok, fatal, store_failed, ◌>>=◌, ◌>>◌,
}
use egos_project.TreeDisk.Store.{Block, InodeStore}
use egos_project.TreeDisk.Layout.{
  refs_per_block, inodes_per_block, u32_mod, null_block, set_word, n_inodeblocks_word,
  free_list_word,
}
use egos_project.TreeDisk.Alloc.{must_write}

-- The first inner loop: slots from `i` on, at most `left` of them, take the blocks from
-- `next_free` on while there are any. What it leaves: the next slot, the next block, the array.
unfoldable pub fill : (left i next_free nblocks : ℕ) → Block → ℕ × ℕ × Block
fill zero i next_free nblocks freelist = (i, next_free, freelist)
fill (suc left) i next_free nblocks freelist = elim (ltb next_free nblocks) [
  | true ↦ fill left (i + 1) (next_free + 1) nblocks (set_word i next_free freelist)
  | false ↦ (i, next_free, freelist)
]

-- The second inner loop: the other slots are empty.
unfoldable pub clear_slots : (left i : ℕ) → Block → Block
clear_slots zero i freelist = freelist
clear_slots (suc left) i freelist = clear_slots left (i + 1) (set_word i 0 freelist)

-- One round of the outer loop, without its write: the block's contents and the next free block.
unfoldable pub list_block : (freelist_block next_free nblocks : ℕ) → Block → ℕ × Block
unfolding fill clear_slots
list_block freelist_block next_free nblocks freelist =
    let (i, next, filled) =
      fill (refs_per_block - 1) 1 (next_free + 1) nblocks (set_word 0 freelist_block freelist) in
    (next, clear_slots (refs_per_block - i) i filled)

module _ (below : InodeStore) (below_ino : ℕ) where
  -- The outer loop. Each round takes a block, so `nblocks` rounds are enough. The array
  -- `freelist` is on the stack: its first contents have no value that matters.
  unfoldable pub setup_freelist_loop :
      (fuel freelist_block next_free nblocks : ℕ) → Block → below.State → Run (ℕ × below.State)
  setup_freelist_loop zero freelist_block next_free nblocks freelist s = ok (freelist_block, s)
  setup_freelist_loop (suc fuel) freelist_block next_free nblocks freelist s =
      elim (ltb next_free nblocks) [
        | false ↦ ok (freelist_block, s)
        | true ↦ do
          let (next, freelist') = list_block freelist_block next_free nblocks freelist
          s' ← must_write below below_ino next_free freelist' s
          setup_freelist_loop fuel next_free next nblocks freelist' s'
      ]

  unfoldable pub setup_freelist :
      (next_free nblocks : ℕ) → Block → below.State → Run (ℕ × below.State)
  unfolding setup_freelist_loop
  setup_freelist next_free nblocks freelist s =
      setup_freelist_loop nblocks 0 next_free nblocks freelist s

  -- The loop that empties the inode blocks from `i` on.
  unfoldable pub clear_inodes : (left i : ℕ) → below.State → Run (Option below.State)
  clear_inodes zero i s = ok (some s)
  clear_inodes (suc left) i s = do
    r ← below.write below_ino i null_block s
    elim r [ none ↦ ok none | some s' ↦ clear_inodes left (i + 1) s' ]

  -- The branch of `treedisk_create` for a disk with no file system.
  unfoldable pub initialize :
      (n_inodeblocks nblocks : ℕ) → Block → below.State → Run (Option below.State)
  unfolding setup_freelist clear_inodes
  initialize n_inodeblocks nblocks freelist s = do
    (free_list, s1) ← setup_freelist (n_inodeblocks + 1) nblocks freelist s
    let superblock =
        set_word free_list_word free_list (set_word n_inodeblocks_word n_inodeblocks null_block)
    r ← below.write below_ino 0 superblock s1
    elim r [ none ↦ ok none | some s2 ↦ clear_inodes n_inodeblocks 1 s2 ]

  unfoldable pub treedisk_create : ℕ → Block → below.State → Run (Option below.State)
  treedisk_create ninodes freelist s =
      let n_inodeblocks = (ninodes + inodes_per_block - 1) % u32_mod / inodes_per_block in
      let nblocks = below.getsize below_ino s in
      if ltb nblocks (n_inodeblocks + 2) then ok none else do
        r ← below.read below_ino 0 s
        elim r [
          | none ↦ ok none
          | some superblock ↦
              if superblock n_inodeblocks_word == 0
              then initialize n_inodeblocks nblocks freelist s
              else ok (some s)
        ]
