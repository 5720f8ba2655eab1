-- ===== src/TreeDisk/Access/ReadBack.antt =====
-- Files that can be written, and what a write and a read of the same block give.
use mathlib.Core.List.{append_assoc}
use egos_project.Prelude.{
  ℕ, ◌+◌, ◌*◌, ◌/◌, ◌%◌, ◌<◌, ◌≡◌, ◌≢◌, refl, ap, sym, subst, ◌≤◌, length-append, ◌∙◌, arith, false,
  leb, some, List, ◌∷◌, ◌++◌, length, ok,
}
use egos_project.TreeDisk.Store.{Block, InodeStore, IsDisk}
use egos_project.TreeDisk.Layout.{
  u32_mod, inodes_per_block, n_inodeblocks_word, free_list_word, nblocks_word, root_word,
  inode_root, inode_nblocks, levels, Snapshot, treedisk_get_snapshot, read_inode,
}
use egos_project.TreeDisk.Alloc.FreeList.{FreeList}
use egos_project.TreeDisk.Alloc.Allocation.{HasFree}
use egos_project.TreeDisk.Access.{
  Parent, read_walk, read_inode_block, treedisk_read, write_walk, write_inode_block, treedisk_write,
}
use egos_project.TreeDisk.Access.Way.{Way, NotIn, Blocks}
use egos_project.TreeDisk.Access.Links.{Written}

module _ (below : InodeStore) (ino : ℕ) (disk : IsDisk below ino) (size inode_no offset : ℕ) where
  -- The inode's block and the snapshot, as they are on the disk.
  abbrev pub blockno_of : ℕ
  blockno_of = 1 + inode_no / inodes_per_block

  abbrev pub snapshot_of : below.State → Snapshot
  snapshot_of s = record {
    superblock = disk.content s 0;
    inodeblock = disk.content s blockno_of;
    inode_blockno = blockno_of;
    idx = inode_no % inodes_per_block;
  }

  pub get_snapshot-ok :
      (s : below.State)
      → below.getsize ino s ≡ size
      → blockno_of < size
      → inode_no < disk.content s 0 n_inodeblocks_word * inodes_per_block % u32_mod
      → treedisk_get_snapshot below ino inode_no s ≡ ok (some (snapshot_of s))
  unfolding treedisk_get_snapshot read_inode
  get_snapshot-ok s size_eq inside known =
      let there : leb (disk.content s 0 n_inodeblocks_word * inodes_per_block % u32_mod) inode_no
          ≡ false =
        ground arith in
      rw
        (
          disk.read_law 0 s (omega (arith, size_eq)),
          there,
          disk.read_law blockno_of s (omega (arith, size_eq)),
        )
        refl

  -- Where the inode has its child and its size, and the walk from the child gives the block, the
  -- file's block is read.
  read_back :
      (s : below.State) (nblocks child : ℕ) (block : Block)
      → below.getsize ino s ≡ size
      → blockno_of < size
      → inode_no < disk.content s 0 n_inodeblocks_word * inodes_per_block % u32_mod
      → inode_nblocks (snapshot_of s) ≡ nblocks
      → inode_root (snapshot_of s) ≡ child
      → offset < nblocks
      → read_walk below ino (levels nblocks) offset child s ≡ ok (some block)
      → treedisk_read below ino inode_no offset s ≡ ok (some block)
  unfolding treedisk_read read_inode_block
  read_back s nblocks child block size_eq inside known e root h walk =
      let in_file : leb nblocks offset ≡ false = ground arith in
      rw (get_snapshot-ok s size_eq inside known, e, in_file, root) walk

  -- A file that can be written at `offset`: its inode is known, the way down to the block exists as
  -- far as `blocks`, all blocks concerned are different, and free ones are left for every level
  -- that may be added or gone down.
  pub record CanWrite (s : below.State) (chain blocks free : List ℕ) : Type 0 where
    pub known : inode_no < disk.content s 0 n_inodeblocks_word * inodes_per_block % u32_mod
    pub words : inode_nblocks (snapshot_of s) < u32_mod
    pub offset_small : offset + 1 < u32_mod
    pub has_free : HasFree below ino disk size (snapshot_of s) s chain free
    pub way :
        Way
          (disk.content s)
          offset
          (levels (inode_nblocks (snapshot_of s)))
          (inode_root (snapshot_of s))
          blocks
    pub apart : Blocks size (blockno_of ∷ (blocks ++ free))
    pub enough : 10 < length free

  -- The write returns, a read of the same block then gives what was written, and no block of the
  -- disk has changed but the superblock, the inode's, and those on the way and in the free list. Of
  -- the inode's block only the two words of the inode have changed.
  -- The free blocks that it has taken are the first ones, eleven at most, and the way to the block
  -- is there, apart from the other free blocks.
  pub record ReadsBack (block : Block) (s : below.State) (blocks free : List ℕ) : Type 0 where
    pub after : below.State
    pub result : treedisk_write below ino inode_no offset block s ≡ ok (some after)
    pub reads : treedisk_read below ino inode_no offset after ≡ ok (some block)
    pub elsewhere :
        (n : ℕ)
        → n ≢ 0
        → NotIn (blockno_of ∷ (blocks ++ free)) n
        → disk.content after n ≡ disk.content s n
    pub other_words :
        (j : ℕ)
        → j ≢ root_word (inode_no % inodes_per_block)
        → j ≢ nblocks_word (inode_no % inodes_per_block)
        → disk.content after blockno_of j ≡ disk.content s blockno_of j
    pub same_inodeblocks :
        disk.content after 0 n_inodeblocks_word ≡ disk.content s 0 n_inodeblocks_word
    pub size_before : below.getsize ino s ≡ size
    pub size_after : below.getsize ino after ≡ size
    pub taken : List ℕ
    pub free_after : List ℕ
    pub chain_after : List ℕ
    pub path : List ℕ
    pub split : free ≡ taken ++ free_after
    pub at_most : length taken ≤ 11
    pub list :
        FreeList size
          (disk.content after)
          (disk.content after 0 free_list_word)
          chain_after
          free_after
    pub way :
        Way
          (disk.content after)
          offset
          (levels (inode_nblocks (snapshot_of after)))
          (inode_root (snapshot_of after))
          path
    pub path_apart : Blocks size (path ++ free_after)
    pub still_apart : (n : ℕ) → NotIn (blocks ++ free) n → NotIn (path ++ free_after) n

  -- The state from which the walk starts, and what it does.
  abbrev pub parent_of : Snapshot → Parent
  parent_of t = record {
    parent_off = t.inode_blockno;
    parent_block = t.inodeblock;
    word = root_word t.idx;
  }

  pub record Started (nblocks nlevels : ℕ) (block : Block) (s : below.State) (free touched : List ℕ)
      : Type 0 where
    pub top : Snapshot
    pub start : below.State
    pub way_down : List ℕ
    pub start_taken : List ℕ
    pub start_free : List ℕ
    pub split : free ≡ start_taken ++ start_free
    pub at_most : length start_taken + nlevels ≤ 10
    pub still_apart : (n : ℕ) → NotIn touched n → NotIn way_down n
    pub result :
        write_inode_block below ino (snapshot_of s) offset block s
        ≡ write_walk below ino nlevels offset block (parent_of top) top start
    pub written :
        Written below ino disk size nlevels offset block
          (parent_of top)
          start
          start_free
          way_down
          (write_walk below ino nlevels offset block (parent_of top) top start)
    pub same_blockno : top.inode_blockno ≡ blockno_of
    pub same_idx : top.idx ≡ inode_no % inodes_per_block
    pub nblocks_eq : top.inodeblock (nblocks_word (inode_no % inodes_per_block)) ≡ nblocks
    pub nlevels_eq : levels nblocks ≡ nlevels
    pub other_words :
        (j : ℕ)
        → j ≢ root_word (inode_no % inodes_per_block)
        → j ≢ nblocks_word (inode_no % inodes_per_block)
        → top.inodeblock j ≡ disk.content s blockno_of j
    pub in_file : offset < nblocks
    pub same_inodeblocks :
        disk.content start 0 n_inodeblocks_word ≡ disk.content s 0 n_inodeblocks_word
    pub elsewhere :
        (n : ℕ)
        → n ≢ 0
        → NotIn (blockno_of ∷ touched) n
        → (NotIn way_down n) × (disk.content start n ≡ disk.content s n)

  pub Started-ReadsBack :
      (nblocks nlevels : ℕ) (block : Block) (s : below.State) (chain blocks free : List ℕ)
      → CanWrite s chain blocks free
      → Started nblocks nlevels block s free (blocks ++ free)
      → ReadsBack block s blocks free
  unfolding treedisk_write
  Started-ReadsBack nblocks nlevels block s chain blocks free can st =
      let w = st.written in
      let inside : blockno_of < size = can.apart.0.1 in
      let snap = get_snapshot-ok s can.has_free.size_eq inside can.known in
      let same = w.linked.same_inodeblocks ∙ st.same_inodeblocks in
      let i = inode_no % inodes_per_block in
      let root = rw (st.same_blockno, st.same_idx) at w.linked.entry in
      let nblocks_kept : disk.content w.after blockno_of (nblocks_word i)
          ≡ st.top.inodeblock (nblocks_word i) =
        rw st.same_blockno at (w.linked.others (nblocks_word i) (λ e. omega arith)) in
      record {
        after = w.after;
        result = rw (snap, st.result, w.result) refl;
        reads =
            read_back w.after nblocks w.child block w.linked.size_eq inside (rw same can.known)
              (nblocks_kept ∙ st.nblocks_eq) root st.in_file (rw st.nlevels_eq w.reads);
        elsewhere = λ n z d.
            let (off, same) = st.elsewhere n z d in
            w.linked.elsewhere n z ((λ e. d.0 (e ∙ st.same_blockno)), off) ∙ same;
        other_words = λ j r n.
            let kept : disk.content w.after blockno_of j ≡ st.top.inodeblock j =
              rw st.same_blockno at (w.linked.others j (λ e. r (e ∙ ap root_word st.same_idx))) in
            kept ∙ st.other_words j r n;
        same_inodeblocks = same;
        size_before = can.has_free.size_eq;
        size_after = w.linked.size_eq;
        taken = st.start_taken ++ w.left.taken;
        free_after = w.left.free_after;
        chain_after = w.left.chain_after;
        path = w.left.path;
        split =
            st.split
            ∙ ap (λ m. st.start_taken ++ m) w.left.split
            ∙ sym (append_assoc st.start_taken w.left.taken w.left.free_after);
        at_most =
            let before = st.at_most in
            let after = w.left.at_most in omega (arith, length-append st.start_taken w.left.taken);
        list = w.left.list;
        way =
            let Down : ℕ → ℕ → Type 0 = λ l b. Way (disk.content w.after) offset l b w.left.path in
            let at_root = subst (λ b. Down nlevels b) (sym root) w.left.way in
            let same_levels : levels nblocks
                ≡ levels (disk.content w.after blockno_of (nblocks_word i)) =
              ap levels (sym (nblocks_kept ∙ st.nblocks_eq)) in
            subst (λ l. Down l (disk.content w.after blockno_of (root_word i)))
              (sym st.nlevels_eq ∙ same_levels) at_root;
        path_apart = w.left.path_apart;
        still_apart = λ n d. w.left.still_apart n (st.still_apart n d);
      }
