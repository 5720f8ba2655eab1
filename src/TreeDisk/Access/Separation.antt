-- ===== src/TreeDisk/Access/Separation.antt =====
-- What a write to one file leaves to the others: their reads.
use egos_project.Prelude.{
  ℕ, zero, suc, ◌+◌, ◌*◌, ◌/◌, ◌%◌, ◌<◌, ◌≡◌, ◌≢◌, refl, ap, sym, subst, inl, inr, arith, ◌==◌,
  some, List, ◌∷◌, ◌++◌, ok, All, All-mono, Bool-cases,
}
use egos_project.TreeDisk.Store.{Block, InodeStore, IsDisk}
use egos_project.TreeDisk.Layout.{
  u32_mod, inodes_per_block, n_inodeblocks_word, nblocks_word, root_word, inode_root, inode_nblocks,
  levels,
}
use egos_project.TreeDisk.Access.{read_walk, read_inode_block, treedisk_read, treedisk_write}
use egos_project.TreeDisk.Access.Way.{Way, hole, leaf, node, NotIn, Way-agree}
use egos_project.TreeDisk.Access.ReadBack.{
  blockno_of, snapshot_of, get_snapshot-ok, CanWrite, ReadsBack,
}
use egos_project.TreeDisk.Access.RoundTrip.{treedisk_write-ReadsBack}

module _ (below : InodeStore) (ino : ℕ) (disk : IsDisk below ino) (size : ℕ) where
  -- Blocks inside the disk that are the same in both states.
  abbrev Kept : (s s' : below.State) → ℕ → Type 0
  Kept s s' n = (n < size) × (disk.content s' n ≡ disk.content s n)

  -- Where the blocks on the way are the same, the walk gives the same.
  read_walk-agree :
      (offset : ℕ) {s s' : below.State} {nlevels b : ℕ} {blocks : List ℕ}
      → below.getsize ino s ≡ size
      → below.getsize ino s' ≡ size
      → Way (disk.content s) offset nlevels b blocks
      → All (Kept s s') blocks
      → read_walk below ino nlevels offset b s' ≡ read_walk below ino nlevels offset b s
  unfolding read_walk
  read_walk-agree offset {nlevels = zero} e e' hole k = refl
  read_walk-agree offset {nlevels = suc nlevels} e e' hole k = refl
  read_walk-agree offset {s} {s'} e e' (leaf {b = b} z) ((l, same), _) =
      rw (disk.read_law b s (omega (arith, e)), disk.read_law b s' (omega (arith, e')), same) refl
  read_walk-agree offset {s} {s'} e e' (node {nlevels = nlevels} {b = b} z way) ((l, same), k) =
      let rest = read_walk-agree offset e e' way k in
      rw (disk.read_law b s (omega (arith, e)), disk.read_law b s' (omega (arith, e')), same, rest)
        refl

  -- Another file, and the way to one of its blocks, which none of the blocks `touched` lies on.
  pub record Other (inode_no k o : ℕ) (s : below.State) (blocks touched : List ℕ) : Type 0 where
    pub separate : k ≢ inode_no
    pub known : k < disk.content s 0 n_inodeblocks_word * inodes_per_block % u32_mod
    pub inside : blockno_of below ino disk size k o < size
    pub inode_untouched : NotIn touched (blockno_of below ino disk size k o)
    pub way :
        Way
          (disk.content s)
          o
          (levels (inode_nblocks (snapshot_of below ino disk size k o s)))
          (inode_root (snapshot_of below ino disk size k o s))
          blocks
    pub untouched :
        All
          (λ n.
            (n < size) × (n ≢ 0) × NotIn (blockno_of below ino disk size inode_no o ∷ touched) n)
          blocks

  module _ (inode_no offset k o : ℕ) (block : Block) (s : below.State) (blocks free path : List ℕ)
      (w : ReadsBack below ino disk size inode_no offset block s blocks free)
      (f : Other inode_no k o s path (blocks ++ free)) where
    -- The other file's inode keeps a word that is none of the written file's, should they share
    -- the block.
    pub inode-kept :
        (j : ℕ)
        → (inode_no / inodes_per_block ≡ k / inodes_per_block
            → (j ≢ root_word (inode_no % inodes_per_block))
              × (j ≢ nblocks_word (inode_no % inodes_per_block)))
        → disk.content w.after (blockno_of below ino disk size k o) j
          ≡ disk.content s (blockno_of below ino disk size k o) j
    inode-kept j apart =
        let word : (n : ℕ) → Type 0 = λ n. disk.content w.after n j ≡ disk.content s n j in
        elim (Bool-cases (inode_no / inodes_per_block == k / inodes_per_block)) [
          | inl same ↦
              let e : inode_no / inodes_per_block ≡ k / inodes_per_block = ground arith in
              let (r, n) = apart e in subst word (ap (λ (q : ℕ). 1 + q) e) (w.other_words j r n)
          | inr differs ↦
              let d : 1 + k / inodes_per_block ≢ 1 + inode_no / inodes_per_block = ground arith in
              ap (λ (b : Block). b j)
                (w.elsewhere (1 + k / inodes_per_block) (λ e. omega arith) (d, f.inode_untouched))
        ]

    pub read-other : treedisk_read below ino k o w.after ≡ treedisk_read below ino k o s
    unfolding treedisk_read read_inode_block
    read-other =
        let apart = f.separate in
        let before : below.getsize ino s ≡ size = w.size_before in
        let known : k < disk.content w.after 0 n_inodeblocks_word * inodes_per_block % u32_mod =
          rw w.same_inodeblocks f.known in
        let root = inode-kept (root_word (k % inodes_per_block)) (λ e. omega arith) in
        let nblocks = inode-kept (nblocks_word (k % inodes_per_block)) (λ e. omega arith) in
        let walk =
          read_walk-agree o {s = s} {s' = w.after} before w.size_after f.way
            (All-mono _ _ path (λ n u. (u.0, w.elsewhere n u.1 u.2)) f.untouched) in
        rw
          (
            get_snapshot-ok below ino disk size k o s before f.inside f.known,
            get_snapshot-ok below ino disk size k o w.after w.size_after f.inside known,
            nblocks,
            root,
            walk,
          )
          refl

    -- The way to the other file's block is as it was.
    pub way-kept :
        Way
          (disk.content w.after)
          o
          (levels (inode_nblocks (snapshot_of below ino disk size k o w.after)))
          (inode_root (snapshot_of below ino disk size k o w.after))
          path
    way-kept =
        let apart = f.separate in
        let root = inode-kept (root_word (k % inodes_per_block)) (λ e. omega arith) in
        let nblocks = inode-kept (nblocks_word (k % inodes_per_block)) (λ e. omega arith) in
        let agrees =
          Way-agree f.way (All-mono _ _ path (λ n u. w.elsewhere n u.1 u.2) f.untouched) in
        let Down : ℕ → ℕ → Type 0 = λ l b. Way (disk.content w.after) o (levels l) b path in
        subst
          (λ l. Down l (
            disk.content w.after (blockno_of below ino disk size k o)
              (root_word (k % inodes_per_block))))
          (sym nblocks)
          (subst
            (λ b.
              Down
                (disk.content s (blockno_of below ino disk size k o)
                  (nblocks_word (k % inodes_per_block)))
                b)
            (sym root) agrees)

  -- A write to one file leaves every other file as it was, also where the two inodes share a block:
  -- the write returns, and a read of a block of the other file, whose way no block of the written
  -- file's way and no free block lies on, gives what it gave before.
  pub treedisk_write-spares :
      (inode_no offset k o : ℕ) (block : Block) (s : below.State) (chain blocks free path : List ℕ)
      → CanWrite below ino disk size inode_no offset s chain blocks free
      → Other inode_no k o s path (blocks ++ free)
      → (after : below.State) × (treedisk_write below ino inode_no offset block s ≡ ok (some after))
        × (treedisk_read below ino k o after ≡ treedisk_read below ino k o s)
  treedisk_write-spares inode_no offset k o block s chain blocks free path can f =
      let w =
        treedisk_write-ReadsBack below ino disk size inode_no offset block s chain blocks free
          can in
      (w.after, w.result, read-other inode_no offset k o block s blocks free path w f)
