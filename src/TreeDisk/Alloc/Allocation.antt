-- ===== src/TreeDisk/Alloc/Allocation.antt =====
-- treedisk_alloc_block takes the blocks of the free list one after the other.
use egos_project.Prelude.{
  ℕ, suc, ◌-◌, ◌<◌, ◌≡◌, ◌≢◌, refl, sym, subst, ◌∙◌, inl, inr, arith, true, false, ◌==◌, List, [],
  ◌∷◌, ◌++◌, All, All-mono, ok, fatal, store_full,
}
use egos_project.TreeDisk.Store.{Block, InodeStore, IsDisk}
use egos_project.TreeDisk.Layout.{
  refs_per_block, set_word, free_list_word, n_inodeblocks_word, Snapshot,
}
use egos_project.TreeDisk.Alloc.{
  scan_down, must_write, blind_read, take_list_block, take_free_ref, treedisk_alloc_block,
}
use egos_project.TreeDisk.Alloc.FreeList.{
  free_refs, FreeList, done, link, FreeList-agree, FreeList-nonzero, scan_down-free_refs,
}

module _ (below : InodeStore) (ino : ℕ) (disk : IsDisk below ino) where
  pub content-same : (n : ℕ) (b : Block) (s : below.State) → disk.content (disk.put n b s) n ≡ b
  content-same n b s =
      let here : (n == n) ≡ true = ground arith in disk.content_law n b s n ∙ rw here refl

  pub content-other :
      (n : ℕ) (b : Block) (s : below.State) (m : ℕ)
      → m ≢ n
      → disk.content (disk.put n b s) m ≡ disk.content s m
  content-other n b s m h =
      let other : (n == m) ≡ false = ground arith in disk.content_law n b s m ∙ rw other refl

  pub must_write-ok :
      (n : ℕ) (b : Block) (s : below.State)
      → n < below.getsize ino s
      → must_write below ino n b s ≡ ok (disk.put n b s)
  unfolding must_write
  must_write-ok n b s h = rw (disk.write_law n b s h) refl

  -- A block written with a reference to the list in front of the list.
  pub FreeList-put :
      (size b next : ℕ) (new : Block) (s : below.State) (chain free : List ℕ)
      → b ≢ 0
      → b < size
      → new 0 ≡ next
      → All (λ n. n ≢ b) chain
      → FreeList size (disk.content s) next chain free
      → FreeList size
          (disk.content (disk.put b new s))
          b
          (b ∷ chain)
          (free_refs (refs_per_block - 1) new ++ (b ∷ free))
  FreeList-put size b next new s chain free z l e others list =
      let c = disk.content (disk.put b new s) in
      let same : c b ≡ new = content-same b new s in
      let start : c b 0 ≡ next = rw same e in
      let kept =
        FreeList-agree list (All-mono _ _ chain (λ n h. content-other b new s n h) others) in
      let Rest : ℕ → Type 0 = λ n. FreeList size c n chain free in
      let Whole : Block → Type 0 =
        λ blk. FreeList size c b (b ∷ chain) (free_refs (refs_per_block - 1) blk ++ (b ∷ free)) in
      subst Whole same (link z l others (subst Rest (sym start) kept))

  blind_read-ok :
      (n : ℕ) (s : below.State)
      → n < below.getsize ino s
      → blind_read below ino n s ≡ ok (disk.content s n)
  unfolding blind_read
  blind_read-ok n s h = rw (disk.read_law n s h) refl

  -- The snapshot's superblock is the one on the disk, and starts the list of the blocks `free`.
  pub record HasFree (size : ℕ) (t : Snapshot) (s : below.State) (chain free : List ℕ)
      : Type 0 where
    pub size_eq : below.getsize ino s ≡ size
    pub in_sync : disk.content s 0 ≡ t.superblock
    pub list : FreeList size (disk.content s) (t.superblock free_list_word) chain free

  -- The outcome of an allocation that gives the block `b` and leaves the blocks `free`.
  pub record Taken (size : ℕ) (t : Snapshot) (s : below.State) (chain : List ℕ) (b : ℕ)
      (free : List ℕ) : Type 0 where
    pub after : Snapshot
    pub disk_after : below.State
    pub chain_after : List ℕ
    pub result : treedisk_alloc_block below ino t s ≡ ok (b, after, disk_after)
    pub has_free : HasFree size after disk_after chain_after free
    pub same_inode : after ≡ record t { superblock = after.superblock }
    pub same_inodeblocks : after.superblock n_inodeblocks_word ≡ t.superblock n_inodeblocks_word
    pub elsewhere :
        (n : ℕ) → n ≢ 0 → All (λ m. n ≢ m) chain → disk.content disk_after n ≡ disk.content s n

  abbrev pub Outcome : ℕ → Snapshot → below.State → List ℕ → List ℕ → Type 0
  Outcome size t s chain [] = treedisk_alloc_block below ino t s ≡ fatal store_full
  Outcome size t s chain (b ∷ free) = Taken size t s chain b free

  module _ (size : ℕ) (t : Snapshot) (s : below.State) (size_eq : below.getsize ino s ≡ size)
      (in_sync : disk.content s 0 ≡ t.superblock) (b : ℕ) (e : t.superblock free_list_word ≡ b)
      (z : b ≢ 0) (l : b < size) where
    take_list_block-Taken :
        (chain free : List ℕ)
        → scan_down (refs_per_block - 1) (disk.content s b) ≡ 0
        → FreeList size (disk.content s) (disk.content s b 0) chain free
        → Taken size t s (b ∷ chain) b free
    unfolding treedisk_alloc_block take_list_block
    take_list_block-Taken chain free scan rest =
        let sb = set_word free_list_word (disk.content s b 0) t.superblock in
        let some_block : (b == 0) ≡ false = ground arith in
        record {
          after = record t { superblock = sb };
          disk_after = disk.put 0 sb s;
          chain_after = chain;
          result =
              rw
                (
                  e,
                  some_block,
                  blind_read-ok b s (omega (arith, size_eq)),
                  scan,
                  must_write-ok 0 sb s (omega (arith, size_eq)),
                )
                refl;
          has_free = record {
            size_eq = disk.size_law 0 sb s ∙ size_eq;
            in_sync = content-same 0 sb s;
            list =
                FreeList-agree rest
                  (All-mono _ _ chain (λ n h. content-other 0 sb s n h) (FreeList-nonzero rest));
          };
          same_inode = refl;
          same_inodeblocks = refl;
          elsewhere = λ n h _. content-other 0 sb s n h;
        }

    take_free_ref-Taken :
        (chain free : List ℕ) (i : ℕ)
        → scan_down (refs_per_block - 1) (disk.content s b) ≡ suc i
        → All (λ n. n ≢ b) chain
        → FreeList size (disk.content s) (disk.content s b 0) chain free
        → Taken size t s
            (b ∷ chain)
            (disk.content s b (suc i))
            (free_refs (refs_per_block - 1) (set_word (suc i) 0 (disk.content s b)) ++ (b ∷ free))
    unfolding treedisk_alloc_block take_free_ref
    take_free_ref-Taken chain free i scan new rest =
        let left = set_word (suc i) 0 (disk.content s b) in
        let some_block : (b == 0) ≡ false = ground arith in
        let some_slot : (suc i == 0) ≡ false = ground arith in
        let start : left 0 ≡ disk.content s b 0 = rw some_slot refl in
        record {
          after = t;
          disk_after = disk.put b left s;
          chain_after = b ∷ chain;
          result =
              rw
                (
                  e,
                  some_block,
                  blind_read-ok b s (omega (arith, size_eq)),
                  scan,
                  some_slot,
                  must_write-ok b left s (omega (arith, size_eq)),
                )
                refl;
          has_free = record {
            size_eq = disk.size_law b left s ∙ size_eq;
            in_sync = content-other b left s 0 (λ h. z (sym h)) ∙ in_sync;
            list = rw e (FreeList-put size b _ left s chain free z l start new rest);
          };
          same_inode = refl;
          same_inodeblocks = refl;
          elsewhere = λ n _ h. content-other b left s n h.0;
        }

    list_block-Outcome :
        (chain free : List ℕ)
        → All (λ n. n ≢ b) chain
        → FreeList size (disk.content s) (disk.content s b 0) chain free
        → Outcome size t s
            (b ∷ chain)
            (free_refs (refs_per_block - 1) (disk.content s b) ++ (b ∷ free))
    list_block-Outcome chain free new rest =
        elim (scan_down-free_refs (refs_per_block - 1) (disk.content s b)) [
          | inl (scan, nothing) ↦ rw nothing (take_list_block-Taken chain free scan rest)
          | inr (i, scan, _, first) ↦ rw first (take_free_ref-Taken chain free i scan new rest)
        ]

  chain-Outcome :
      (size : ℕ) (t : Snapshot) (s : below.State) (b : ℕ) (chain free : List ℕ)
      → below.getsize ino s ≡ size
      → disk.content s 0 ≡ t.superblock
      → t.superblock free_list_word ≡ b
      → FreeList size (disk.content s) b chain free
      → Outcome size t s chain free
  unfolding treedisk_alloc_block
  chain-Outcome size t s b chain free size_eq in_sync e done = rw e refl
  chain-Outcome size t s b chain free size_eq in_sync e (link z l new rest) =
      list_block-Outcome size t s size_eq in_sync b e z l _ _ new rest

  -- While the free list holds blocks, an allocation gives the first of them, leaves the others in
  -- the list, keeps the superblock on the disk and in the snapshot the same, and changes no block
  -- but the superblock and the blocks that make up the list. With an empty list it is fatal.
  pub treedisk_alloc_block-Outcome :
      (size : ℕ) (t : Snapshot) (s : below.State) (chain free : List ℕ)
      → HasFree size t s chain free
      → Outcome size t s chain free
  treedisk_alloc_block-Outcome size t s chain free h =
      chain-Outcome size t s _ chain free h.size_eq h.in_sync refl h.list
