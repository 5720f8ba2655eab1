-- ===== src/TreeDisk/Tree/Start.antt =====
-- What treedisk_write has done when its walk starts: the tree has the levels that it needs.
use egos_project.Prelude.{
  ℕ, ◌+◌, ◌-◌, ◌*◌, ◌/◌, ◌%◌, ◌<◌, ◌≤◌, ◌≡◌, ◌≢◌, refl, sym, ap, subst, ◌∙◌, ◌⊎◌, inl, inr, arith,
  true, false, ltb, leb, ◌==◌, List, [], ◌++◌, length, Bool-cases,
}
use egos_project.TreeDisk.Store.{Block, InodeStore, IsDisk}
use egos_project.TreeDisk.Layout.{
  u32_mod, inodes_per_block, n_inodeblocks_word, nblocks_word, root_word, inode_root, inode_nblocks,
  levels, levels_over, Snapshot,
}
use egos_project.TreeDisk.Layout.Levels.{
  levels_small, levels_behind, levels_of_last, levels_over-IsLevels,
}
use egos_project.TreeDisk.Alloc.Allocation.{content-same, content-other, must_write-ok, HasFree}
use egos_project.TreeDisk.Access.{
  write_walk, extend, levels_after, levels_to_add, levels_used, grow, write_inode_block,
}
use egos_project.TreeDisk.Access.Way.{Blocks}
use egos_project.TreeDisk.Access.Growth.{set_word-other}
use egos_project.TreeDisk.Access.Links.{HasFree-put}
use egos_project.TreeDisk.Access.ReadBack.{snapshot_of, parent_of}
use egos_project.TreeDisk.Access.RoundTrip.{
  root_kept, nblocks_set, longer, extend-longer, longer_size, levels_after-behind, more_levels,
}
use egos_project.TreeDisk.Tree.{
  Role, free_block, reserved_block, role_differs, inode_differs, Placed-agree, block_at,
}
use egos_project.TreeDisk.Tree.Digits.{pre}
use egos_project.TreeDisk.Tree.Graft.{FreeRoles, NotIn-free}
use egos_project.TreeDisk.Tree.Raise.{AllPlaced, old_or_empty, grow-Raised}
use egos_project.TreeDisk.Tree.Forest.{root_of, size_of, Forest}

module _ (below : InodeStore) (ino : ℕ) (disk : IsDisk below ino) (size n : ℕ)
    (small : n * inodes_per_block < u32_mod) (room : n < size) (k o : ℕ)
    (known : k < n * inodes_per_block) (o_small : o + 1 < u32_mod) where
  abbrev pub old_levels : below.State → ℕ
  old_levels s = levels (size_of below ino disk size n s k)

  abbrev pub old_root : below.State → ℕ
  old_root s = root_of below ino disk size n s k

  pub record Ready (block : Block) (s : below.State) (role : ℕ → Role) (free : List ℕ)
      : Type 0 where
    pub nlevels : ℕ
    pub nblocks : ℕ
    pub top : Snapshot
    pub start : below.State
    pub role_start : ℕ → Role
    pub chain_start : List ℕ
    pub taken : List ℕ
    pub free_start : List ℕ
    pub result :
        write_inode_block below ino (snapshot_of below ino disk size k o s) o block s
        ≡ write_walk below ino nlevels o block (parent_of below ino disk size k o top) top start
    pub has_free : HasFree below ino disk size top start chain_start free_start
    pub split : free ≡ taken ++ free_start
    pub at_most : length taken + nlevels ≤ 10
    pub blocks : Blocks size free_start
    pub free_roles : FreeRoles role_start free_start
    pub same_blockno : top.inode_blockno ≡ 1 + k / inodes_per_block
    pub same_idx : top.idx ≡ k % inodes_per_block
    pub synced : (j : ℕ) → disk.content start (1 + k / inodes_per_block) j ≡ top.inodeblock j
    pub nblocks_eq : top.inodeblock (nblocks_word (k % inodes_per_block)) ≡ nblocks
    pub nlevels_eq : levels nblocks ≡ nlevels
    pub new_size :
        ((nblocks ≡ size_of below ino disk size n s k) × (o < nblocks))
        ⊎ ((nblocks ≡ o + 1) × (size_of below ino disk size n s k ≤ o))
    pub other_words :
        (j : ℕ)
        → j ≢ root_word (k % inodes_per_block)
        → j ≢ nblocks_word (k % inodes_per_block)
        → top.inodeblock j ≡ disk.content s (1 + k / inodes_per_block) j
    pub kept :
        (m : ℕ)
        → m ≢ 0
        → m ≢ 1 + k / inodes_per_block
        → role m ≢ free_block
        → disk.content start m ≡ disk.content s m
    pub role_kept : (m : ℕ) → role m ≢ free_block → role_start m ≡ role m
    pub same_inodeblocks :
        disk.content start 0 n_inodeblocks_word ≡ disk.content s 0 n_inodeblocks_word
    pub placed :
        AllPlaced below ino disk size k (disk.content start) role_start nlevels (inode_root top)
    pub reads :
        (o' : ℕ)
        → o' < u32_mod
        → pre nlevels o' ≡ 0
        → block_at (disk.content start) nlevels o' (inode_root top)
          ≡ old_or_empty below ino disk size k (disk.content s) (old_levels s) (old_root s) o'

  module _ (block : Block) (s : below.State) (role : ℕ → Role) (free : List ℕ)
      (f : Forest below ino disk size n s role free) (enough : 10 < length free) where
    inside-Ready : o < size_of below ino disk size n s k → Ready block s role free
    unfolding write_inode_block extend levels_after levels_to_add levels_used grow
    inside-Ready h =
        let t = snapshot_of below ino disk size k o s in
        let tree = f.trees k known in
        let within : leb (inode_nblocks t) o ≡ false = ground arith in
        let some_size : (inode_nblocks t == 0) ≡ false = ground arith in
        let level = levels (inode_nblocks t) in
        let none_added : level - level ≡ 0 = omega arith in
        let not_more : ltb level level ≡ false = ground arith in
        let few = levels_small (inode_nblocks t) tree.small in
        record {
          nlevels = level;
          nblocks = inode_nblocks t;
          top = t;
          start = s;
          role_start = role;
          chain_start = f.chain;
          taken = [];
          free_start = free;
          result = rw (within, some_size, none_added, not_more) refl;
          has_free = record { size_eq = f.size_eq; in_sync = refl; list = f.list };
          split = refl;
          at_most = omega arith;
          blocks = f.blocks;
          free_roles = f.free_roles;
          same_blockno = refl;
          same_idx = refl;
          synced = λ j. refl;
          nblocks_eq = refl;
          nlevels_eq = refl;
          new_size = inl (refl, h);
          other_words = λ j r d. refl;
          kept = λ m z d r. refl;
          role_kept = λ m r. refl;
          same_inodeblocks = refl;
          placed = tree.placed;
          reads = λ o' l e. let first : (pre level o' == 0) ≡ true = ground arith in rw first refl;
        }

    behind-Ready : size_of below ino disk size n s k ≤ o → Ready block s role free
    unfolding write_inode_block
    behind-Ready h =
        let t = snapshot_of below ino disk size k o s in
        let idx = k % inodes_per_block in
        let tree = f.trees k known in
        let te : Snapshot = longer below ino disk size k o t in
        let outside : leb (inode_nblocks t) o ≡ true = ground arith in
        let level = levels (inode_nblocks t) in
        let needed = levels_over o in
        let upward : level ≤ needed = levels_behind (inode_nblocks t) o h (omega arith) in
        let bounded : needed ≤ 5 = (levels_over-IsLevels o (omega arith)).bounded in
        let same_root : inode_root te ≡ inode_root t =
          root_kept below ino disk size k o idx (o + 1) t.inodeblock in
        let r0 = f.reserved 0 (omega arith) in
        let g =
          grow-Raised below ino disk size k (needed - level) level needed te s role f.chain free
            (omega arith) (omega arith) r0 f.blocks f.free_roles
            (record { size_eq = f.size_eq; in_sync = refl; list = f.list })
            (subst (AllPlaced below ino disk size k (disk.content s) role level) (sym same_root)
              tree.placed) in
        let no = g.after.inode_blockno in
        let inode = g.after.inodeblock in
        let at : no ≡ 1 + k / inodes_per_block = g.same_blockno in
        let start = disk.put no inode g.disk_after in
        let inside : no < below.getsize ino g.disk_after =
          let e = g.has_free.size_eq in omega arith in
        let inode_role : role no ≡ reserved_block = f.reserved no (omega arith) in
        let used : role no ≢ free_block = λ x. inode_differs (sym inode_role ∙ x) in
        let role_no = g.role_kept no used in
        let off_free =
          NotIn-free g.role_after no g.free_after (λ x. used (sym role_no ∙ x)) g.free_roles in
        let free_left =
          HasFree-put below ino disk size g.after g.disk_after g.chain_after g.free_after no inode
            (λ x. omega (arith, at, x)) off_free g.has_free in
        let agrees = λ (o' : ℕ) (l' : o' < u32_mod) (e : pre needed o' ≡ 0).
          Placed-agree (g.placed o' l' e) (λ m l lh x. (
            content-other below ino disk no inode g.disk_after m
                (λ y. role_differs (sym x ∙ ap g.role_after y ∙ role_no ∙ inode_role)),
            refl,
          )) in
        record {
          nlevels = needed;
          nblocks = o + 1;
          top = g.after;
          start = start;
          role_start = g.role_after;
          chain_start = g.chain_after;
          taken = g.taken;
          free_start = g.free_after;
          result =
              rw
                (
                  extend-longer below ino disk size k o t outside o_small,
                  longer_size below ino disk size k o t outside o_small,
                  levels_after-behind below ino disk size k o t outside o_small,
                  more_levels below ino disk size k o level needed upward,
                  g.result,
                  outside,
                  must_write-ok below ino disk no inode g.disk_after inside,
                )
                refl;
          has_free = free_left;
          split = g.split;
          at_most = let few = g.few in omega arith;
          blocks = g.blocks;
          free_roles = g.free_roles;
          same_blockno = at;
          same_idx = g.same_idx;
          synced = λ j.
              ap (λ (x : Block). x j)
                (ap (disk.content start) (sym at)
                  ∙ content-same below ino disk no inode g.disk_after);
          nblocks_eq =
              g.others (nblocks_word idx) (λ e. omega arith)
              ∙ nblocks_set below ino disk size k o idx (o + 1) t.inodeblock;
          nlevels_eq = levels_of_last o;
          new_size = inr (refl, h);
          other_words =
              λ j r d. g.others j r ∙ set_word-other (nblocks_word idx) j (o + 1) t.inodeblock d;
          kept = λ m z d r.
              content-other below ino disk no inode g.disk_after m (λ e. d (e ∙ at)) ∙ g.kept m z r;
          role_kept = g.role_kept;
          same_inodeblocks =
              ap (λ (x : Block). x n_inodeblocks_word)
                (content-other below ino disk no inode g.disk_after 0 (λ e. omega (arith, at, e)))
              ∙ g.same_inodeblocks;
          placed = λ o' l' e. (agrees o' l' e).0;
          reads = λ o' l' e.
              (agrees o' l' e).1
              ∙ g.reads o' l' e
              ∙ ap (λ b. old_or_empty below ino disk size k (disk.content s) level b o') same_root;
        }

    pub write-Ready : Ready block s role free
    write-Ready = elim (Bool-cases (leb (size_of below ino disk size n s k) o)) [
      | inl behind ↦ behind-Ready (ground arith)
      | inr inside ↦ inside-Ready (ground arith)
    ]
