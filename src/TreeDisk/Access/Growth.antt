-- ===== src/TreeDisk/Access/Growth.antt =====
-- treedisk_write puts new roots over a file's tree until it has levels enough.
use mathlib.Core.List.{append_assoc}
use egos_project.Prelude.{
  ℕ, zero, suc, ◌+◌, ◌≤◌, ◌≤◌, ◌≡◌, ◌≢◌, refl, ap, sym, subst, ◌∙◌, inl, inr, arith, true, false,
  ◌==◌, List, [], ◌∷◌, ◌++◌, length, length-append, All-mono, Run, ok, Bool-cases,
}
use egos_project.TreeDisk.Store.{Block, InodeStore, IsDisk}
use egos_project.TreeDisk.Layout.{
  null_block, set_word, index_at, n_inodeblocks_word, root_word, inode_root, Snapshot,
}
use egos_project.TreeDisk.Alloc.Allocation.{
  content-same, content-other, must_write-ok, HasFree, treedisk_alloc_block-Outcome,
}
use egos_project.TreeDisk.Access.{grow_one, grow}
use egos_project.TreeDisk.Access.Way.{
  Way, hole, node, Way-agree, NotIn, Blocks, All-append, append-All, Blocks-apart, Blocks-second,
  chain-All,
}
use egos_project.TreeDisk.Access.Links.{HasFree-put}

pub set_word-same : (i v : ℕ) (b : Block) → set_word i v b i ≡ v
set_word-same i v b = let here : (i == i) ≡ true = ground arith in rw here refl

pub set_word-other : (i j v : ℕ) (b : Block) → j ≢ i → set_word i v b j ≡ b j
set_word-other i j v b d = let apart : (i == j) ≡ false = ground arith in rw apart refl

module _ (below : InodeStore) (ino : ℕ) (disk : IsDisk below ino) (size offset : ℕ) where
  -- The tree has `nlevels` levels, and `added` blocks of `free` have been used for them.
  pub record Grown (nlevels added : ℕ) (t : Snapshot) (s : below.State) (blocks free : List ℕ)
      (r : Run (Snapshot × below.State)) : Type 0 where
    pub after : Snapshot
    pub disk_after : below.State
    pub chain_after : List ℕ
    pub blocks_after : List ℕ
    pub free_after : List ℕ
    pub result : r ≡ ok (after, disk_after)
    pub has_free : HasFree below ino disk size after disk_after chain_after free_after
    pub used : length free ≡ added + length free_after
    pub taken : List ℕ
    pub split : free ≡ taken ++ free_after
    pub few : length taken ≤ added
    pub still_free : (n : ℕ) → NotIn free n → NotIn free_after n
    pub still_apart : (n : ℕ) → NotIn (blocks ++ free) n → NotIn (blocks_after ++ free_after) n
    pub way : Way (disk.content disk_after) offset nlevels (inode_root after) blocks_after
    pub apart : Blocks size (after.inode_blockno ∷ (blocks_after ++ free_after))
    pub same_blockno : after.inode_blockno ≡ t.inode_blockno
    pub same_idx : after.idx ≡ t.idx
    pub others : (j : ℕ) → j ≢ root_word t.idx → after.inodeblock j ≡ t.inodeblock j
    pub elsewhere : (n : ℕ) → n ≢ 0 → NotIn free n → disk.content disk_after n ≡ disk.content s n
    pub same_inodeblocks :
        disk.content disk_after 0 n_inodeblocks_word ≡ disk.content s 0 n_inodeblocks_word

  -- The way through a new root `f` over the root `b`: on to it, or to a hole.
  record NewRoot (c : ℕ → Block) (nlevels f : ℕ) (old free : List ℕ) (first : ℕ) : Type 0 where
    blocks : List ℕ
    way : Way c offset (suc nlevels) f blocks
    apart : Blocks size (first ∷ (blocks ++ free))
    still_apart : (n : ℕ) → NotIn (old ++ (f ∷ free)) n → NotIn (blocks ++ free) n

  path-NewRoot :
      (c : ℕ → Block) (nlevels f b : ℕ) (blocks free : List ℕ) (first : ℕ)
      → c f ≡ set_word 0 b null_block
      → f ≢ 0
      → Way c offset nlevels b blocks
      → Blocks size (first ∷ (blocks ++ (f ∷ free)))
      → NewRoot c nlevels f blocks free first
  path-NewRoot c nlevels f b blocks free first e z way apart =
      let (through, beside) = Blocks-second size first blocks f free apart in
      let index = index_at offset nlevels in
      elim (Bool-cases (0 == index)) [
        | inl on ↦
            let next : c f index ≡ b = ap (λ (x : Block). x index) e ∙ old index b on in
            record {
              blocks = f ∷ blocks;
              way = node z (subst (λ n. Way c offset nlevels n blocks) (sym next) way);
              apart = through;
              still_apart = λ n d.
                  let (left, (p, right)) = All-append (λ m. n ≢ m) blocks (f ∷ free) d in
                  (p, append-All (λ m. n ≢ m) blocks free left right);
            }
        | inr off ↦
            let next : c f index ≡ 0 = ap (λ (x : Block). x index) e ∙ none_there index b off in
            record {
              blocks = f ∷ [];
              way = node z (subst (λ n. Way c offset nlevels n []) (sym next) hole);
              apart = beside;
              still_apart = λ n d. (All-append (λ m. n ≢ m) blocks (f ∷ free) d).1;
            }
      ]
    where
      old : (i v : ℕ) → (0 == i) ≡ true → set_word 0 v null_block i ≡ v
      old i v h = rw h refl

      none_there : (i v : ℕ) → (0 == i) ≡ false → set_word 0 v null_block i ≡ 0
      none_there i v h = rw h refl

  grow_one-Grown :
      (nlevels : ℕ) (t : Snapshot) (s : below.State) (chain blocks : List ℕ) (f : ℕ) (free : List ℕ)
      → Way (disk.content s) offset nlevels (inode_root t) blocks
      → Blocks size (t.inode_blockno ∷ (blocks ++ (f ∷ free)))
      → HasFree below ino disk size t s chain (f ∷ free)
      → Grown (suc nlevels) 1 t s blocks (f ∷ free) (grow_one below ino t s)
  unfolding grow_one
  grow_one-Grown nlevels t s chain blocks f free way apart h =
      let a = treedisk_alloc_block-Outcome below ino disk size t s chain (f ∷ free) h in
      let ((fz, fl, new), _) = (Blocks-second size t.inode_blockno blocks f free apart).1.1 in
      let root : inode_root a.after ≡ inode_root t =
        ap (λ (x : Snapshot). inode_root x) a.same_inode in
      let tib = set_word 0 (inode_root a.after) null_block in
      let s1 = disk.put f tib a.disk_after in
      let elsewhere : (n : ℕ) → n ≢ 0 → NotIn (f ∷ free) n → disk.content s1 n ≡ disk.content s n =
        λ n z d.
          content-other below ino disk f tib a.disk_after n d.0
          ∙ a.elsewhere n z (chain-All (λ m. n ≢ m) h.list d) in
      let kept : Way (disk.content s1) offset nlevels (inode_root t) blocks = Way-agree way (
        All-mono _ _ blocks (λ n d. elsewhere n d.0 d.1)
          (Blocks-apart size blocks (f ∷ free) apart.1)) in
      let at_root =
        content-same below ino disk f tib a.disk_after ∙ ap (λ n. set_word 0 n null_block) root in
      let n =
        path-NewRoot (disk.content s1) nlevels f (inode_root t) blocks free t.inode_blockno at_root
          fz kept apart in
      let idx : a.after.idx ≡ t.idx = ap (λ (x : Snapshot). x.idx) a.same_inode in
      let blockno : a.after.inode_blockno ≡ t.inode_blockno =
        ap (λ (x : Snapshot). x.inode_blockno) a.same_inode in
      let inodes : a.after.inodeblock ≡ t.inodeblock =
        ap (λ (x : Snapshot). x.inodeblock) a.same_inode in
      let free_left =
        HasFree-put below ino disk size a.after a.disk_after a.chain_after free f tib fz new
          a.has_free in
      let first = set_word-same (root_word a.after.idx) f a.after.inodeblock in
      record {
        after = record a.after {
          inodeblock = set_word (root_word a.after.idx) f a.after.inodeblock;
        };
        disk_after = s1;
        chain_after = a.chain_after;
        blocks_after = n.blocks;
        free_after = free;
        result =
            rw
              (
                a.result,
                must_write-ok below ino disk f tib a.disk_after (omega (arith, a.has_free.size_eq)),
              )
              refl;
        has_free = record {
          size_eq = free_left.size_eq;
          in_sync = free_left.in_sync;
          list = free_left.list;
        };
        used = omega arith;
        taken = f ∷ [];
        split = refl;
        few = omega arith;
        still_free = λ m d. d.1;
        still_apart = n.still_apart;
        way = subst (λ b. Way (disk.content s1) offset (suc nlevels) b n.blocks) (sym first) n.way;
        apart = subst (λ b. Blocks size (b ∷ (n.blocks ++ free))) (sym blockno) n.apart;
        same_blockno = blockno;
        same_idx = idx;
        others = λ j d.
            set_word-other (root_word a.after.idx) j f a.after.inodeblock
              (λ e. d (e ∙ ap root_word idx))
            ∙ ap (λ (x : Block). x j) inodes;
        elsewhere = elsewhere;
        same_inodeblocks =
            ap (λ (x : Block). x n_inodeblocks_word)
              (content-other below ino disk f tib a.disk_after 0 (λ e. fz (sym e))
                ∙ a.has_free.in_sync)
            ∙ a.same_inodeblocks
            ∙ ap (λ (x : Block). x n_inodeblocks_word) (sym h.in_sync);
      }

  -- As many roots as are asked for, while there are free blocks.
  pub grow-Grown :
      (added nlevels all : ℕ) (t : Snapshot) (s : below.State) (chain blocks free : List ℕ)
      → all ≡ added + nlevels
      → added ≤ length free
      → Way (disk.content s) offset nlevels (inode_root t) blocks
      → Blocks size (t.inode_blockno ∷ (blocks ++ free))
      → HasFree below ino disk size t s chain free
      → Grown all added t s blocks free (grow below ino added t s)
  unfolding grow
  grow-Grown zero nlevels all t s chain blocks free e enough way apart h =
      let all_levels : nlevels ≡ all = omega arith in
      record {
        after = t;
        disk_after = s;
        chain_after = chain;
        blocks_after = blocks;
        free_after = free;
        result = refl;
        has_free = h;
        used = omega arith;
        taken = [];
        split = refl;
        few = omega arith;
        still_free = λ n d. d;
        still_apart = λ n d. d;
        way = subst (λ n. Way (disk.content s) offset n (inode_root t) blocks) all_levels way;
        apart = apart;
        same_blockno = refl;
        same_idx = refl;
        others = λ j d. refl;
        elsewhere = λ n z d. refl;
        same_inodeblocks = refl;
      }
  grow-Grown (suc added) nlevels all t s chain blocks [] e enough way apart h = absurd (omega arith)
  grow-Grown (suc added) nlevels all t s chain blocks (f ∷ free) e enough way apart h =
      let one = grow_one-Grown nlevels t s chain blocks f free way apart h in
      let left : length (f ∷ free) ≡ 1 + length one.free_after = one.used in
      let rest =
        grow-Grown added (suc nlevels) all one.after one.disk_after one.chain_after one.blocks_after
          one.free_after (omega arith) (omega (arith, left)) one.way one.apart one.has_free in
      record {
        after = rest.after;
        disk_after = rest.disk_after;
        chain_after = rest.chain_after;
        blocks_after = rest.blocks_after;
        free_after = rest.free_after;
        result = rw one.result rest.result;
        has_free = rest.has_free;
        used = let right = rest.used in omega (arith, left, right);
        taken = one.taken ++ rest.taken;
        split =
            one.split
            ∙ ap (λ m. one.taken ++ m) rest.split
            ∙ sym (append_assoc one.taken rest.taken rest.free_after);
        few =
            let l = one.few in
            let r = rest.few in omega (arith, length-append one.taken rest.taken);
        still_free = λ n d. rest.still_free n (one.still_free n d);
        still_apart = λ n d. rest.still_apart n (one.still_apart n d);
        way = rest.way;
        apart = rest.apart;
        same_blockno = rest.same_blockno ∙ one.same_blockno;
        same_idx = rest.same_idx ∙ one.same_idx;
        others = λ j d. rest.others j (λ e. d (e ∙ ap root_word one.same_idx)) ∙ one.others j d;
        elsewhere = λ n z d. rest.elsewhere n z (one.still_free n d) ∙ one.elsewhere n z d;
        same_inodeblocks = rest.same_inodeblocks ∙ one.same_inodeblocks;
      }
