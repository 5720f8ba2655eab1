-- ===== src/TreeDisk/Access/RoundTrip.antt =====
-- What treedisk_write has written, treedisk_read reads.
use egos_project.Prelude.{
  ℕ, ◌+◌, ◌-◌, ◌%◌, ◌<◌, ◌≤◌, ◌≡◌, ◌≢◌, refl, ap, sym, subst, [], ◌∙◌, inl, inr, arith, true, false,
  ◌==◌, ltb, leb, if◌then◌else◌, List, ◌++◌, length, All-mono, Run, Bool-cases,
}
use egos_project.TreeDisk.Store.{Block, InodeStore, IsDisk}
use egos_project.TreeDisk.Layout.{
  u32_mod, inodes_per_block, set_word, n_inodeblocks_word, nblocks_word, root_word, inode_root,
  inode_nblocks, levels, levels_over, Snapshot,
}
use egos_project.TreeDisk.Layout.Levels.{
  levels_small, levels_behind, levels_of_last, levels_over-IsLevels,
}
use egos_project.TreeDisk.Alloc.Allocation.{content-same, content-other, must_write-ok}
use egos_project.TreeDisk.Access.{
  write_walk, extend, levels_after, levels_to_add, levels_used, grow, write_inode_block,
}
use egos_project.TreeDisk.Access.Way.{Way, Way-agree, All-append}
use egos_project.TreeDisk.Access.Links.{HasFree-put, Written}
use egos_project.TreeDisk.Access.Walk.{write_walk-Written}
use egos_project.TreeDisk.Access.Growth.{set_word-other, Grown, grow-Grown}
use egos_project.TreeDisk.Access.ReadBack.{
  snapshot_of, CanWrite, ReadsBack, parent_of, Started, Started-ReadsBack,
}

module _ (below : InodeStore) (ino : ℕ) (disk : IsDisk below ino) (size inode_no offset : ℕ) where
  enough : (n : ℕ) (free : List ℕ) → 10 < length free → n ≤ 5 → n < length free
  enough n free h l = omega arith

  -- A block inside the file.
  inside-Started :
      (block : Block) (s : below.State) (chain blocks free : List ℕ)
      → CanWrite below ino disk size inode_no offset s chain blocks free
      → offset < inode_nblocks (snapshot_of below ino disk size inode_no offset s)
      → Started below ino disk size inode_no offset
          (inode_nblocks (snapshot_of below ino disk size inode_no offset s))
          (levels (inode_nblocks (snapshot_of below ino disk size inode_no offset s)))
          block
          s
          free
          (blocks ++ free)
  unfolding write_inode_block extend levels_after levels_to_add levels_used grow
  inside-Started block s chain blocks free can h =
      let t = snapshot_of below ino disk size inode_no offset s in
      let within : leb (inode_nblocks t) offset ≡ false = ground arith in
      let some_size : (inode_nblocks t == 0) ≡ false = ground arith in
      let level = levels (inode_nblocks t) in
      let none_added : level - level ≡ 0 = omega arith in
      let not_more : ltb level level ≡ false = ground arith in
      record {
        top = t;
        start = s;
        way_down = blocks ++ free;
        start_taken = [];
        start_free = free;
        split = refl;
        at_most = let l = levels_small (inode_nblocks t) can.words in omega arith;
        still_apart = λ n d. d;
        result = rw (within, some_size, none_added, not_more) refl;
        written =
            write_walk-Written below ino disk size level offset block
              (parent_of below ino disk size inode_no offset t) t s chain blocks free (inode_root t)
              refl can.way (λ z j. refl) can.apart can.has_free
              (enough level free can.enough (levels_small (inode_nblocks t) can.words));
        same_blockno = refl;
        same_idx = refl;
        nblocks_eq = refl;
        nlevels_eq = refl;
        other_words = λ j r n. refl;
        in_file = h;
        same_inodeblocks = refl;
        elsewhere = λ n z d. (d.1, refl);
      }

  -- The inode is written back behind the growth, and then the walk goes down.
  Grown-Written :
      (nlevels added : ℕ) (block : Block) (t : Snapshot) (s : below.State) (blocks free : List ℕ)
      (r : Run (Snapshot × below.State))
      (g : Grown below ino disk size offset nlevels added t s blocks free r)
      → nlevels < length g.free_after
      → Written below ino disk size nlevels offset block
          (parent_of below ino disk size inode_no offset g.after)
          (disk.put g.after.inode_blockno g.after.inodeblock g.disk_after)
          g.free_after
          (g.blocks_after ++ g.free_after)
          (write_walk below ino nlevels offset block
            (parent_of below ino disk size inode_no offset g.after)
            g.after
            (disk.put g.after.inode_blockno g.after.inodeblock g.disk_after))
  Grown-Written nlevels added block t s blocks free r g l =
      let no = g.after.inode_blockno in
      let inode = g.after.inodeblock in
      let ((z, _, new), _) = g.apart in
      let (off_way, off_free) = All-append (λ m. no ≢ m) g.blocks_after g.free_after new in
      write_walk-Written below ino disk size nlevels offset block
        (parent_of below ino disk size inode_no offset g.after) g.after
        (disk.put no inode g.disk_after) g.chain_after g.blocks_after g.free_after
        (inode_root g.after) refl
        (Way-agree g.way (
          All-mono _ _ g.blocks_after
            (λ m d. content-other below ino disk no inode g.disk_after m (λ e. d (sym e))) off_way))
        (λ _ j. ap (λ (x : Block). x j) (content-same below ino disk no inode g.disk_after)) g.apart
        (HasFree-put below ino disk size g.after g.disk_after g.chain_after g.free_after no inode z
          off_free g.has_free)
        l

  -- The inode's words where the size is set.
  pub root_kept :
      (i v : ℕ) (b : Block) → set_word (nblocks_word i) v b (root_word i) ≡ b (root_word i)
  root_kept i v b =
      let other : (nblocks_word i == root_word i) ≡ false = ground arith in rw other refl

  pub nblocks_set : (i v : ℕ) (b : Block) → set_word (nblocks_word i) v b (nblocks_word i) ≡ v
  nblocks_set i v b =
      let here : (nblocks_word i == nblocks_word i) ≡ true = ground arith in rw here refl

  abbrev pub longer : Snapshot → Snapshot
  longer t = record t { inodeblock = set_word (nblocks_word t.idx) (offset + 1) t.inodeblock }

  module _ (t : Snapshot) (behind : leb (inode_nblocks t) offset ≡ true)
      (small : offset + 1 < u32_mod) where
    pub extend-longer : extend below ino offset t ≡ longer t
    unfolding extend
    extend-longer =
        let no_wrap : (offset + 1) % u32_mod ≡ offset + 1 = omega arith in rw (behind, no_wrap) refl

    pub longer_size : (inode_nblocks (longer t) == 0) ≡ false
    longer_size =
        let size_set = nblocks_set t.idx (offset + 1) t.inodeblock in
        let not_empty : (offset + 1 == 0) ≡ false = ground arith in rw (size_set, not_empty) refl

    pub levels_after-behind : levels_after below ino offset t ≡ levels_over offset
    unfolding levels_after
    levels_after-behind = rw behind refl

  pub more_levels :
      (old needed : ℕ) → old ≤ needed → (if ltb old needed then needed else old) ≡ needed
  more_levels old needed h = ground arith

  -- A block behind the end of the file.
  behind-Started :
      (block : Block) (s : below.State) (chain blocks free : List ℕ)
      → CanWrite below ino disk size inode_no offset s chain blocks free
      → inode_nblocks (snapshot_of below ino disk size inode_no offset s) ≤ offset
      → Started below ino disk size inode_no offset
          (offset + 1)
          (levels_over offset)
          block
          s
          free
          (blocks ++ free)
  unfolding write_inode_block
  behind-Started block s chain blocks free can h =
      let t = snapshot_of below ino disk size inode_no offset s in
      let idx = inode_no % inodes_per_block in
      let te : Snapshot = longer t in
      let outside : leb (inode_nblocks t) offset ≡ true = ground arith in
      let level = levels (inode_nblocks t) in
      let needed = levels_over offset in
      let upward =
        levels_behind (inode_nblocks t) offset h (let l = can.offset_small in omega arith) in
      let bounded =
        (levels_over-IsLevels offset (let l = can.offset_small in omega arith)).bounded in
      let same_root : inode_root te ≡ inode_root t = root_kept idx (offset + 1) t.inodeblock in
      let g =
        grow-Grown below ino disk size offset (needed - level) level needed te s chain blocks free
          (omega arith) (let e = can.enough in omega arith)
          (subst (λ b. Way (disk.content s) offset level b blocks) (sym same_root) can.way)
          can.apart
          (record {
            size_eq = can.has_free.size_eq;
            in_sync = can.has_free.in_sync;
            list = can.has_free.list;
          }) in
      let no = g.after.inode_blockno in
      let inode = g.after.inodeblock in
      let inside : no < below.getsize ino g.disk_after =
        let e = g.has_free.size_eq in let l = g.apart.0.1 in omega arith in
      let stored = must_write-ok below ino disk no inode g.disk_after inside in
      record {
        top = g.after;
        start = disk.put no inode g.disk_after;
        way_down = g.blocks_after ++ g.free_after;
        start_taken = g.taken;
        start_free = g.free_after;
        split = g.split;
        at_most = let few = g.few in omega arith;
        still_apart = g.still_apart;
        result =
            rw
              (
                extend-longer t outside can.offset_small,
                longer_size t outside can.offset_small,
                levels_after-behind t outside can.offset_small,
                more_levels level needed upward,
                g.result,
                outside,
                stored,
              )
              refl;
        written =
            Grown-Written needed (needed - level) block te s blocks free _ g
              (let e = can.enough in let u = g.used in omega arith);
        same_blockno = g.same_blockno;
        same_idx = g.same_idx;
        nblocks_eq =
            g.others (nblocks_word idx) (λ e. omega arith)
            ∙ nblocks_set idx (offset + 1) t.inodeblock;
        nlevels_eq = levels_of_last offset;
        other_words =
            λ j r n. g.others j r ∙ set_word-other (nblocks_word idx) j (offset + 1) t.inodeblock n;
        in_file = omega arith;
        same_inodeblocks =
            ap (λ (x : Block). x n_inodeblocks_word)
              (content-other below ino disk no inode g.disk_after 0 (λ e. g.apart.0.0 (sym e)))
            ∙ g.same_inodeblocks;
        elsewhere = λ n z d. (
          g.still_apart n d.1,
          content-other below ino disk no inode g.disk_after n (λ e. d.0 (e ∙ g.same_blockno))
              ∙ g.elsewhere n z (All-append (λ m. n ≢ m) blocks free d.1).1,
        );
      }

  -- A file that can be written at `offset`, with room for every level: treedisk_write returns, and
  -- treedisk_read then gives the block that was written, wherever the block lies, inside the file,
  -- in a hole, or behind its end. No other block of the disk has changed but those of the free list,
  -- those on the way to it, the superblock and the inode's.
  pub treedisk_write-ReadsBack :
      (block : Block) (s : below.State) (chain blocks free : List ℕ)
      → CanWrite below ino disk size inode_no offset s chain blocks free
      → ReadsBack below ino disk size inode_no offset block s blocks free
  treedisk_write-ReadsBack block s chain blocks free can =
      elim (Bool-cases
        (leb (inode_nblocks (snapshot_of below ino disk size inode_no offset s)) offset)) [
          | inl behind ↦
              Started-ReadsBack below ino disk size inode_no offset (offset + 1)
                (levels_over offset) block s chain blocks free can
                (behind-Started block s chain blocks free can (ground arith))
          | inr inside ↦
              Started-ReadsBack below ino disk size inode_no offset
                (inode_nblocks (snapshot_of below ino disk size inode_no offset s))
                (levels (inode_nblocks (snapshot_of below ino disk size inode_no offset s))) block s
                chain blocks free can (inside-Started block s chain blocks free can (ground arith))
        ]
