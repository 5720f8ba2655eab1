-- ===== src/TreeDisk/Access.antt =====
-- treedisk_getsize, treedisk_setsize, treedisk_read and treedisk_write of library/file/file.c.
-- `none` stands for the result -1.
pub mod Simulation
pub mod Way
pub mod Links
pub mod Walk
pub mod Growth
pub mod ReadBack
pub mod RoundTrip
pub mod Separation
use egos_project.Prelude.{
  ℕ, zero, suc, ◌+◌, ◌-◌, ◌%◌, Bool, true, false, ltb, leb, ◌==◌, if◌then◌else◌, Option, none, some,
  Run, ok, fatal, store_failed, ◌>>=◌,
}
use egos_project.TreeDisk.Store.{Block, InodeStore}
use egos_project.TreeDisk.Layout.{
  u32_mod, null_block, set_word, root_word, nblocks_word, levels, levels_over, index_at, Snapshot,
  inode_root, inode_nblocks, treedisk_get_snapshot,
}
use egos_project.TreeDisk.Alloc.{must_write, treedisk_alloc_block}

-- Where the next block's number stands: `*parent_no` is the word `word` of `parent_block`, which
-- is the block `parent_off` of the store below.
pub record Parent : Type 0 where
  pub parent_off : ℕ
  pub parent_block : Block
  pub word : ℕ

module _ (below : InodeStore) (below_ino : ℕ) where
  unfoldable pub treedisk_getsize : ℕ → below.State → Run (Option ℕ)
  treedisk_getsize ino s = do
    r ← treedisk_get_snapshot below below_ino ino s
    elim r [ none ↦ ok none | some t ↦ ok (some (inode_nblocks t)) ]

  unfoldable pub treedisk_setsize : ℕ → ℕ → below.State → Run (Option ℕ)
  treedisk_setsize ino nblocks s = ok none

  -- The walk down from block `b`, with `nlevels` levels below it.
  unfoldable pub read_walk : ℕ → ℕ → ℕ → below.State → Run (Option Block)
  read_walk zero offset b s = if b == 0 then ok (some null_block) else below.read below_ino b s
  read_walk (suc nlevels) offset b s = if b == 0 then ok (some null_block) else do
    r ← below.read below_ino b s
    elim r [
      | none ↦ ok none
      | some tib ↦ read_walk nlevels offset (tib (index_at offset nlevels)) s
    ]

  -- The part behind the snapshot.
  unfoldable pub read_inode_block : Snapshot → ℕ → below.State → Run (Option Block)
  unfolding read_walk
  read_inode_block t offset s =
      if leb (inode_nblocks t) offset
      then ok none
      else read_walk (levels (inode_nblocks t)) offset (inode_root t) s

  unfoldable pub treedisk_read : ℕ → ℕ → below.State → Run (Option Block)
  unfolding read_inode_block
  treedisk_read ino offset s = do
    r ← treedisk_get_snapshot below below_ino ino s
    elim r [ none ↦ ok none | some t ↦ read_inode_block t offset s ]

  -- One level more: the old root becomes the first child of a new indirect block.
  unfoldable pub grow_one : Snapshot → below.State → Run (Snapshot × below.State)
  grow_one t s = do
    (indir, t1, s1) ← treedisk_alloc_block below below_ino t s
    let tib = set_word 0 (inode_root t1) null_block
    s2 ← must_write below below_ino indir tib s1
    ok (record t1 { inodeblock = set_word (root_word t1.idx) indir t1.inodeblock }, s2)

  unfoldable pub grow : ℕ → Snapshot → below.State → Run (Snapshot × below.State)
  grow zero t s = ok (t, s)
  grow (suc left) t s = do (t', s') ← grow_one t s; grow left t' s'

  -- The child's number, a block allocated for it if there was none, and whether there was none.
  unfoldable pub child_of :
      Parent → Snapshot → below.State → Run (ℕ × Bool × Snapshot × below.State)
  child_of p t s =
      let b = p.parent_block p.word in
      if b == 0
      then (do
        (b', t', s') ← treedisk_alloc_block below below_ino t s
        s'' ← must_write below below_ino p.parent_off (set_word p.word b' p.parent_block) s'
        ok (b', true, t', s''))
      else ok (b, false, t, s)

  -- A new indirect block is empty, an old one is read.
  unfoldable pub indirect_block : ℕ → Bool → below.State → Run Block
  indirect_block b fresh s =
      if fresh
      then ok null_block
      else do r ← below.read below_ino b s; elim r [ none ↦ fatal store_failed | some tib ↦ ok tib ]

  unfoldable pub write_walk : ℕ → ℕ → Block → Parent → Snapshot → below.State → Run below.State
  write_walk zero offset block p t s = do
    (b, fresh, t', s') ← child_of p t s
    must_write below below_ino b block s'
  write_walk (suc nlevels) offset block p t s = do
    (b, fresh, t', s') ← child_of p t s
    tib ← indirect_block b fresh s'
    let p' : Parent = record { parent_off = b; parent_block = tib; word = index_at offset nlevels }
    write_walk nlevels offset block p' t' s'

  -- The inode's size after the write of the block `offset`, if it grows.
  unfoldable pub extend : ℕ → Snapshot → Snapshot
  extend offset t =
      if leb (inode_nblocks t) offset
      then record t {
        inodeblock = set_word (nblocks_word t.idx) ((offset + 1) % u32_mod) t.inodeblock;
      }
      else t

  -- The levels that the file needs, where `t` is the snapshot before it is extended.
  unfoldable pub levels_after : ℕ → Snapshot → ℕ
  levels_after offset t =
      if leb (inode_nblocks t) offset then levels_over offset else levels (inode_nblocks t)

  -- The levels that `grow` adds. An inode whose size is 0 at this point, by overflow, gets none.
  unfoldable pub levels_to_add : ℕ → Snapshot → ℕ
  unfolding extend levels_after
  levels_to_add offset t =
      if inode_nblocks (extend offset t) == 0
      then 0
      else levels_after offset t - levels (inode_nblocks t)

  unfoldable pub levels_used : ℕ → Snapshot → ℕ
  unfolding extend levels_after
  levels_used offset t =
      if inode_nblocks (extend offset t) == 0
      then levels_after offset t
      else if ltb (levels (inode_nblocks t)) (levels_after offset t)
      then levels_after offset t
      else levels (inode_nblocks t)

  -- The part behind the snapshot.
  unfoldable pub write_inode_block : Snapshot → ℕ → Block → below.State → Run below.State
  unfolding extend levels_to_add levels_used grow write_walk
  write_inode_block t offset block s = do
    (t1, s1) ← grow (levels_to_add offset t) (extend offset t) s
    s2 ←
        if leb (inode_nblocks t) offset
        then must_write below below_ino t1.inode_blockno t1.inodeblock s1
        else ok s1
    let p : Parent = record {
      parent_off = t1.inode_blockno;
      parent_block = t1.inodeblock;
      word = root_word t1.idx;
    }
    write_walk (levels_used offset t) offset block p t1 s2

  unfoldable pub treedisk_write : ℕ → ℕ → Block → below.State → Run (Option below.State)
  unfolding write_inode_block
  treedisk_write ino offset block s = do
    r ← treedisk_get_snapshot below below_ino ino s
    elim r [ none ↦ ok none | some t ↦ do s' ← write_inode_block t offset block s; ok (some s') ]
