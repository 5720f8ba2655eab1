-- ===== src/TreeDisk/Create/Fresh.antt =====
-- treedisk_create makes an empty file system, or leaves the one that it finds.
use egos_project.Prelude.{
  ℕ, zero, suc, ◌+◌, ◌-◌, ◌/◌, ◌%◌, ◌<◌, ◌≤◌, ◌≡◌, ◌≢◌, refl, ap, ◌∙◌, ◌⊎◌, inl, inr, arith, true,
  false, ltb, ◌==◌, Option, none, some, List, [], All-mono, Bool-cases, Run, ok,
}
use egos_project.TreeDisk.Store.{Block, InodeStore, IsDisk}
use egos_project.TreeDisk.Layout.{
  u32_mod, inodes_per_block, null_block, set_word, n_inodeblocks_word, free_list_word,
}
use egos_project.TreeDisk.Alloc.Allocation.{content-same, content-other}
use egos_project.TreeDisk.Alloc.FreeList.{FreeList, FreeList-agree}
use egos_project.TreeDisk.Create.{clear_inodes, initialize, treedisk_create}
use egos_project.TreeDisk.Create.ListBlock.{countdown}
use egos_project.TreeDisk.Create.Setup.{setup_freelist-Built}

module _ (below : InodeStore) (ino : ℕ) (disk : IsDisk below ino) (size : ℕ) where
  -- The blocks from `i` on, `left` of them, are empty now, and no other has changed.
  record Cleared (left i : ℕ) (s : below.State) : Type 0 where
    after : below.State
    result : clear_inodes below ino left i s ≡ ok (some after)
    size_eq : below.getsize ino after ≡ size
    empty : (n : ℕ) → i ≤ n → n < i + left → disk.content after n ≡ null_block
    below_i : (n : ℕ) → n < i → disk.content after n ≡ disk.content s n
    above : (n : ℕ) → i + left ≤ n → disk.content after n ≡ disk.content s n

  clear_inodes-Cleared :
      (left i : ℕ) (s : below.State)
      → i + left ≤ size
      → below.getsize ino s ≡ size
      → Cleared left i s
  unfolding clear_inodes
  clear_inodes-Cleared zero i s h e = record {
    after = s;
    result = refl;
    size_eq = e;
    empty = λ n p q. absurd (omega arith);
    below_i = λ n p. refl;
    above = λ n p. refl;
  }
  clear_inodes-Cleared (suc left) i s h e =
      let s' = disk.put i null_block s in
      let rest =
        clear_inodes-Cleared left (i + 1) s' (omega arith) (disk.size_law i null_block s ∙ e) in
      let written = disk.write_law i null_block s (omega (arith, e)) in
      let other = content-other below ino disk i null_block s in
      record {
        after = rest.after;
        result = rw written rest.result;
        size_eq = rest.size_eq;
        empty = λ n p q. elim (Bool-cases (n == i)) [
          | inl here ↦
              let at : n ≡ i = ground arith in
              rest.below_i n (omega arith)
              ∙ ap (disk.content s') at
              ∙ content-same below ino disk i null_block s
          | inr there ↦ rest.empty n (ground arith) (omega arith)
        ];
        below_i = λ n p. rest.below_i n (omega arith) ∙ other n λ x. absurd (omega arith);
        above = λ n p. rest.above n (omega arith) ∙ other n λ x. absurd (omega arith);
      }

  -- An empty file system with `n` inode blocks: its free list holds all blocks behind them.
  pub record Fresh (n nblocks : ℕ) (after : below.State) : Type 0 where
    pub same_size : below.getsize ino after ≡ size
    pub n_inodeblocks : disk.content after 0 n_inodeblocks_word ≡ n
    pub inodes : (m : ℕ) → 0 < m → m ≤ n → disk.content after m ≡ null_block
    pub chain : List ℕ
    pub list :
        FreeList size
          (disk.content after)
          (disk.content after 0 free_list_word)
          chain
          (countdown (n + 1) (nblocks - (n + 1)) [])

  initialize-Fresh :
      (n nblocks : ℕ) (old : Block) (s : below.State)
      → n + 2 ≤ nblocks
      → nblocks ≤ size
      → below.getsize ino s ≡ size
      → (after : below.State) × (initialize below ino n nblocks old s ≡ ok (some after))
        × Fresh n nblocks after
  unfolding initialize
  initialize-Fresh n nblocks old s room fits e =
      let b =
        setup_freelist-Built below ino disk size (n + 1) nblocks old s (omega arith) (omega arith)
          fits e in
      let sb = set_word free_list_word b.first (set_word n_inodeblocks_word n null_block) in
      let s2 = disk.put 0 sb b.after in
      let e2 : below.getsize ino s2 ≡ size = disk.size_law 0 sb b.after ∙ b.size_eq in
      let be = b.size_eq in
      let written = disk.write_law 0 sb b.after (omega arith) in
      let c = clear_inodes-Cleared n 1 s2 (omega arith) e2 in
      let start : disk.content c.after 0 ≡ sb =
        c.below_i 0 (omega arith) ∙ content-same below ino disk 0 sb b.after in
      (
        c.after,
        rw (b.result, written) c.result,
        record {
          same_size = c.size_eq;
          n_inodeblocks = rw start refl;
          inodes = λ m p q. c.empty m p (omega arith);
          chain = b.chain;
          list = rw start (
              FreeList-agree b.list (
                All-mono _ _ b.chain
                  (λ m h.
                    c.above m (omega arith)
                    ∙ content-other below ino disk 0 sb b.after m λ x. absurd (omega arith))
                  b.above));
        },
      )

  -- What treedisk_create leaves with a disk in the state `s`, for `n` inode blocks.
  pub record Initialized (n : ℕ) (s : below.State) (r : Run (Option below.State)) : Type 0 where
    pub room : n + 2 ≤ size
    pub unused : disk.content s 0 n_inodeblocks_word ≡ 0
    pub after : below.State
    pub result : r ≡ ok (some after)
    pub fresh : Fresh n size after

  runs_initialize :
      (ninodes n : ℕ) (old : Block) (s after : below.State)
      → (ninodes + inodes_per_block - 1) % u32_mod / inodes_per_block ≡ n
      → below.getsize ino s ≡ size
      → ltb size (n + 2) ≡ false
      → below.read ino 0 s ≡ ok (some (disk.content s 0))
      → (disk.content s 0 n_inodeblocks_word == 0) ≡ true
      → initialize below ino n size old s ≡ ok (some after)
      → treedisk_create below ino ninodes old s ≡ ok (some after)
  unfolding treedisk_create
  runs_initialize ninodes n old s after count e large found unused made =
      rw (e, count, large, found, unused, e, count) made

  -- treedisk_create fails on a disk that has no block left beside the superblock and the inode
  -- blocks, leaves a disk that has a file system as it is, and otherwise makes an empty file
  -- system: its inode blocks are empty and its free list holds exactly the other blocks.
  pub treedisk_create-Fresh :
      (ninodes n : ℕ) (old : Block) (s : below.State)
      → (ninodes + inodes_per_block - 1) % u32_mod / inodes_per_block ≡ n
      → below.getsize ino s ≡ size
      → ((size < n + 2) × (treedisk_create below ino ninodes old s ≡ ok none))
        ⊎ ((n + 2 ≤ size)
            × (disk.content s 0 n_inodeblocks_word ≢ 0)
            × (treedisk_create below ino ninodes old s ≡ ok (some s)))
        ⊎ Initialized n s (treedisk_create below ino ninodes old s)
  unfolding treedisk_create
  treedisk_create-Fresh ninodes n old s count e = elim (Bool-cases (ltb size (n + 2))) [
    | inl small ↦ inl (ground arith, rw (e, count, small) refl)
    | inr large ↦
        let room : n + 2 ≤ size = ground arith in
        let found = disk.read_law 0 s (omega (arith, e)) in
        elim (Bool-cases (disk.content s 0 n_inodeblocks_word == 0)) [
          | inr used ↦ inr (inl (room, ground arith, rw (e, count, large, found, used) refl))
          | inl unused ↦
              let (after, made, fresh) = initialize-Fresh n size old s room (omega arith) e in
              inr (
                inr (record {
                  room = room;
                  unused = ground arith;
                  after = after;
                  result = runs_initialize ninodes n old s after count e large found unused made;
                  fresh = fresh;
                }))
        ]
  ]
