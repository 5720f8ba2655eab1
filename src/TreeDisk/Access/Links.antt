-- ===== src/TreeDisk/Access/Links.antt =====
-- One step of the walk of treedisk_write, and the step of treedisk_read's that follows it.
use mathlib.Core.List.{append_assoc}
use egos_project.Prelude.{
  ℕ, suc, ◌≤◌, ◌≡◌, ◌≢◌, refl, ap, sym, subst, ◌∙◌, arith, false, ◌==◌, some, List, [], ◌∷◌, ◌++◌,
  length, length-append, All-mono, Run, ok,
}
use egos_project.TreeDisk.Store.{Block, InodeStore, IsDisk}
use egos_project.TreeDisk.Layout.{index_at, n_inodeblocks_word, free_list_word, Snapshot}
use egos_project.TreeDisk.Alloc.{must_write}
use egos_project.TreeDisk.Alloc.FreeList.{FreeList, FreeList-agree}
use egos_project.TreeDisk.Alloc.Allocation.{content-same, content-other, must_write-ok, HasFree}
use egos_project.TreeDisk.Access.{Parent, read_walk}
use egos_project.TreeDisk.Access.Way.{Way, leaf, node, NotIn, Blocks, chain-All}

module _ (below : InodeStore) (ino : ℕ) (disk : IsDisk below ino) (size : ℕ) where
  -- A write outside the free list and the superblock leaves the free list.
  pub HasFree-put :
      (t : Snapshot) (s : below.State) (chain free : List ℕ) (n : ℕ) (block : Block)
      → n ≢ 0
      → NotIn free n
      → HasFree below ino disk size t s chain free
      → HasFree below ino disk size t (disk.put n block s) chain free
  HasFree-put t s chain free n block z new h = record {
    size_eq = disk.size_law n block s ∙ h.size_eq;
    in_sync = content-other below ino disk n block s 0 (λ e. z (sym e)) ∙ h.in_sync;
    list = FreeList-agree h.list (
        All-mono _ _ chain (λ m d. content-other below ino disk n block s m (λ e. d (sym e)))
          (chain-All (λ m. n ≢ m) h.list new));
  }

  pub HasFree-list :
      (t : Snapshot) (s : below.State) (chain free : List ℕ)
      → HasFree below ino disk size t s chain free
      → FreeList size (disk.content s) (disk.content s 0 free_list_word) chain free
  HasFree-list t s chain free h =
      subst (λ (b : Block). FreeList size (disk.content s) (b free_list_word) chain free)
        (sym h.in_sync) h.list

  -- From `s` to `s1` the parent has got the child `b`, and no block has changed but the superblock,
  -- where the number of inode blocks is kept, the parent, and those of `touched`.
  pub record Linked (p : Parent) (s s1 : below.State) (b : ℕ) (touched : List ℕ) : Type 0 where
    pub entry : disk.content s1 p.parent_off p.word ≡ b
    pub others : (j : ℕ) → j ≢ p.word → disk.content s1 p.parent_off j ≡ p.parent_block j
    pub elsewhere :
        (n : ℕ) → n ≢ 0 → NotIn (p.parent_off ∷ touched) n → disk.content s1 n ≡ disk.content s n
    pub same_inodeblocks :
        disk.content s1 0 n_inodeblocks_word ≡ disk.content s 0 n_inodeblocks_word
    pub size_eq : below.getsize ino s1 ≡ size

  -- What the walk leaves: the free blocks behind those that it has taken, in their list, and the
  -- way to the block from `child`, on which no free block lies. All these blocks are of `touched`.
  pub record Left (nlevels offset : ℕ) (free touched : List ℕ) (after : below.State) (child : ℕ)
      : Type 0 where
    pub taken : List ℕ
    pub free_after : List ℕ
    pub chain_after : List ℕ
    pub path : List ℕ
    pub split : free ≡ taken ++ free_after
    pub at_most : length taken ≤ suc nlevels
    pub list :
        FreeList size
          (disk.content after)
          (disk.content after 0 free_list_word)
          chain_after
          free_after
    pub way : Way (disk.content after) offset nlevels child path
    pub path_apart : Blocks size (path ++ free_after)
    pub still_apart : (n : ℕ) → NotIn touched n → NotIn (path ++ free_after) n

  -- The walk has written the block, and the walk of a read from the parent's child finds it.
  pub record Written (nlevels offset : ℕ) (block : Block) (p : Parent) (s : below.State)
      (free touched : List ℕ) (r : Run below.State) : Type 0 where
    pub after : below.State
    pub child : ℕ
    pub result : r ≡ ok after
    pub linked : Linked p s after child touched
    pub reads : read_walk below ino nlevels offset child after ≡ ok (some block)
    pub left : Left nlevels offset free touched after child

  -- The state after a write to a block `b` that is neither the parent nor the superblock.
  pub Linked-put :
      (p : Parent) (s s1 : below.State) (b : ℕ) (rest : List ℕ) (block : Block)
      → b ≢ 0
      → p.parent_off ≢ b
      → Linked p s s1 b (b ∷ rest)
      → Linked p s (disk.put b block s1) b (b ∷ rest)
  Linked-put p s s1 b rest block z apart k =
      let parent = content-other below ino disk b block s1 p.parent_off apart in
      record {
        entry = ap (λ (x : Block). x p.word) parent ∙ k.entry;
        others = λ j h. ap (λ (x : Block). x j) parent ∙ k.others j h;
        elsewhere =
            λ n h new. content-other below ino disk b block s1 n new.1.0 ∙ k.elsewhere n h new;
        same_inodeblocks =
            ap (λ (x : Block). x n_inodeblocks_word)
              (content-other below ino disk b block s1 0 (λ e. z (sym e)))
            ∙ k.same_inodeblocks;
        size_eq = disk.size_law b block s1 ∙ k.size_eq;
      }

  pub leaf-Written :
      (offset : ℕ) (block : Block) (p : Parent) (s s1 : below.State) (b : ℕ) (rest : List ℕ)
      (t : Snapshot) (chain taken free : List ℕ)
      → Blocks size (p.parent_off ∷ (b ∷ rest))
      → Linked p s s1 b (b ∷ rest)
      → HasFree below ino disk size t s1 chain rest
      → free ≡ taken ++ rest
      → length taken ≤ 1
      → Written 0 offset block p s free (b ∷ rest) (must_write below ino b block s1)
  unfolding read_walk
  leaf-Written offset block p s s1 b rest t chain taken free
        ((_, _, (apart, _)), ((z, l, new), blocks)) k h split few =
      let some_block : (b == 0) ≡ false = ground arith in
      let done = Linked-put p s s1 b rest block z apart k in
      let kept = HasFree-put t s1 chain rest b block z new h in
      record {
        after = disk.put b block s1;
        child = b;
        result = must_write-ok below ino disk b block s1 (omega (arith, k.size_eq));
        linked = done;
        reads =
            rw
              (
                some_block,
                disk.read_law b (disk.put b block s1) (omega (arith, done.size_eq)),
                content-same below ino disk b block s1,
              )
              refl;
        left = record {
          taken = taken;
          free_after = rest;
          chain_after = chain;
          path = b ∷ [];
          split = split;
          at_most = few;
          list = HasFree-list t (disk.put b block s1) chain rest kept;
          way = leaf z;
          path_apart = ((z, l, new), blocks);
          still_apart = λ n d. d;
        };
      }

  pub node-Written :
      (nlevels offset : ℕ) (block tib : Block) (p : Parent) (s s1 : below.State) (b : ℕ)
      (rest extra mid free : List ℕ) (r : Run below.State)
      → Blocks size (p.parent_off ∷ (b ∷ rest))
      → Linked p s s1 b (b ∷ rest)
      → Written nlevels offset block
          (record { parent_off = b; parent_block = tib; word = index_at offset nlevels })
          s1
          mid
          rest
          r
      → free ≡ extra ++ mid
      → length extra ≤ 1
      → Written (suc nlevels) offset block p s free (b ∷ rest) r
  unfolding read_walk
  node-Written nlevels offset block tib p s s1 b rest extra mid free r
        ((pz, _, new), ((z, l, apart), _)) k w split few =
      let some_block : (b == 0) ≡ false = ground arith in
      let parent = w.linked.elsewhere p.parent_off pz new in
      record {
        after = w.after;
        child = b;
        result = w.result;
        linked = record {
          entry = ap (λ (x : Block). x p.word) parent ∙ k.entry;
          others = λ j h. ap (λ (x : Block). x j) parent ∙ k.others j h;
          elsewhere = λ n h others. w.linked.elsewhere n h others.1 ∙ k.elsewhere n h others;
          same_inodeblocks = w.linked.same_inodeblocks ∙ k.same_inodeblocks;
          size_eq = w.linked.size_eq;
        };
        reads =
            rw
              (
                some_block,
                disk.read_law b w.after (omega (arith, w.linked.size_eq)),
                w.linked.entry,
              )
              w.reads;
        left = record {
          taken = extra ++ w.left.taken;
          free_after = w.left.free_after;
          chain_after = w.left.chain_after;
          path = b ∷ w.left.path;
          split =
              split
              ∙ ap (λ m. extra ++ m) w.left.split
              ∙ sym (append_assoc extra w.left.taken w.left.free_after);
          at_most = let more = w.left.at_most in omega (arith, length-append extra w.left.taken);
          list = w.left.list;
          way = node z (
              subst (λ n. Way (disk.content w.after) offset nlevels n w.left.path)
                (sym w.linked.entry) w.left.way);
          path_apart = ((z, l, w.left.still_apart b apart), w.left.path_apart);
          still_apart = λ n d. (d.0, w.left.still_apart n d.1);
        };
      }
