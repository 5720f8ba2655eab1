-- ===== src/TreeDisk/Access/Walk.antt =====
-- The walk of treedisk_write down a file's tree, and the walk of treedisk_read behind it.
use egos_project.Prelude.{
  ℕ, zero, suc, ◌<◌, ◌≡◌, ◌≢◌, refl, ap, sym, ◌∙◌, arith, true, false, ◌==◌, List, [], ◌∷◌, ◌++◌,
  length, ok,
}
use egos_project.TreeDisk.Store.{Block, InodeStore, IsDisk}
use egos_project.TreeDisk.Layout.{null_block, set_word, index_at, n_inodeblocks_word, Snapshot}
use egos_project.TreeDisk.Alloc.Allocation.{
  content-same, content-other, must_write-ok, HasFree, treedisk_alloc_block-Outcome,
}
use egos_project.TreeDisk.Access.{Parent, child_of, indirect_block, write_walk}
use egos_project.TreeDisk.Access.Way.{Way, hole, leaf, node, Blocks, chain-All}
use egos_project.TreeDisk.Access.Links.{HasFree-put, Linked, Written, leaf-Written, node-Written}

module _ (below : InodeStore) (ino : ℕ) (disk : IsDisk below ino) (size : ℕ) where
  -- A new child of the parent: the first free block.
  pub record NewChild (p : Parent) (t : Snapshot) (s : below.State) (f : ℕ) (free : List ℕ)
      : Type 0 where
    pub after : Snapshot
    pub disk_after : below.State
    pub chain_after : List ℕ
    pub result : child_of below ino p t s ≡ ok (f, true, after, disk_after)
    pub has_free : HasFree below ino disk size after disk_after chain_after free
    pub linked : Linked below ino disk size p s disk_after f (f ∷ free)

  pub child_of-NewChild :
      (p : Parent) (t : Snapshot) (s : below.State) (chain : List ℕ) (f : ℕ) (free : List ℕ)
      → p.parent_block p.word ≡ 0
      → Blocks size (p.parent_off ∷ (f ∷ free))
      → HasFree below ino disk size t s chain (f ∷ free)
      → NewChild p t s f free
  unfolding child_of
  child_of-NewChild p t s chain f free e ((pz, pl, (pf, new)), blocks) h =
      let a = treedisk_alloc_block-Outcome below ino disk size t s chain (f ∷ free) h in
      let block = set_word p.word f p.parent_block in
      let s1 = disk.put p.parent_off block a.disk_after in
      let written = content-same below ino disk p.parent_off block a.disk_after in
      let kept = content-other below ino disk p.parent_off block a.disk_after 0 (λ z. pz (sym z)) in
      record {
        after = a.after;
        disk_after = s1;
        chain_after = a.chain_after;
        result =
            rw
              (
                e,
                a.result,
                must_write-ok below ino disk p.parent_off block a.disk_after
                    (omega (arith, a.has_free.size_eq)),
              )
              refl;
        has_free =
            HasFree-put below ino disk size a.after a.disk_after a.chain_after free p.parent_off
              block pz new a.has_free;
        linked = record {
          entry = ap (λ (x : Block). x p.word) written ∙ first p.word f p.parent_block;
          others = λ j d. ap (λ (x : Block). x j) written ∙ other p.word j f p.parent_block d;
          elsewhere = λ n z d.
              content-other below ino disk p.parent_off block a.disk_after n d.0
              ∙ a.elsewhere n z (chain-All (λ m. n ≢ m) h.list d.1);
          same_inodeblocks =
              ap (λ (x : Block). x n_inodeblocks_word) (kept ∙ a.has_free.in_sync)
              ∙ a.same_inodeblocks
              ∙ ap (λ (x : Block). x n_inodeblocks_word) (sym h.in_sync);
          size_eq = disk.size_law p.parent_off block a.disk_after ∙ a.has_free.size_eq;
        };
      }
    where
      first : (word v : ℕ) (b : Block) → set_word word v b word ≡ v
      first word v b = let here : (word == word) ≡ true = ground arith in rw here refl

      other : (word j v : ℕ) (b : Block) → j ≢ word → set_word word v b j ≡ b j
      other word j v b d = let apart : (word == j) ≡ false = ground arith in rw apart refl

  -- A child that is there already.
  pub old-Linked :
      (p : Parent) (s : below.State) (b : ℕ) (touched : List ℕ)
      → p.parent_block p.word ≡ b
      → ((j : ℕ) → disk.content s p.parent_off j ≡ p.parent_block j)
      → below.getsize ino s ≡ size
      → Linked below ino disk size p s s b touched
  old-Linked p s b touched e same size_eq = record {
    entry = same p.word ∙ e;
    others = λ j d. same j;
    elsewhere = λ n z d. refl;
    same_inodeblocks = refl;
    size_eq = size_eq;
  }

  pub child_of-old :
      (p : Parent) (t : Snapshot) (s : below.State) (b : ℕ)
      → p.parent_block p.word ≡ b
      → b ≢ 0
      → child_of below ino p t s ≡ ok (b, false, t, s)
  unfolding child_of
  child_of-old p t s b e z =
      let some_block : (b == 0) ≡ false = ground arith in rw (e, some_block) refl

  pub indirect_block-old :
      (b : ℕ) (s : below.State)
      → b < below.getsize ino s
      → indirect_block below ino b false s ≡ ok (disk.content s b)
  unfolding indirect_block
  indirect_block-old b s l = rw (disk.read_law b s l) refl

  -- For a block with its way down as far as `blocks`, with a free block for every level, and the
  -- parent on the disk as it is in memory if it has the child: the walk returns, and a read then
  -- finds the block.
  pub write_walk-Written :
      (nlevels offset : ℕ) (block : Block) (p : Parent) (t : Snapshot) (s : below.State)
      (chain blocks free : List ℕ) (b : ℕ)
      → p.parent_block p.word ≡ b
      → Way (disk.content s) offset nlevels b blocks
      → (b ≢ 0 → (j : ℕ) → disk.content s p.parent_off j ≡ p.parent_block j)
      → Blocks size (p.parent_off ∷ (blocks ++ free))
      → HasFree below ino disk size t s chain free
      → nlevels < length free
      → Written below ino disk size nlevels offset block p s free
          (blocks ++ free)
          (write_walk below ino nlevels offset block p t s)
  unfolding write_walk indirect_block
  write_walk-Written nlevels offset block p t s chain blocks [] b e way sync apart h enough =
      absurd (omega arith)
  write_walk-Written zero offset block p t s chain blocks (f ∷ free) b e hole sync apart h enough =
      let c = child_of-NewChild p t s chain f free e apart h in
      rw c.result (
        leaf-Written below ino disk size offset block p s c.disk_after f free c.after c.chain_after
          (f ∷ []) (f ∷ free) apart c.linked c.has_free refl (omega arith))
  write_walk-Written (suc n) offset block p t s chain blocks (f ∷ free) b e hole sync apart h
        enough =
      let c = child_of-NewChild p t s chain f free e apart h in
      let p' : Parent = record {
        parent_off = f;
        parent_block = null_block;
        word = index_at offset n;
      } in
      let rest =
        write_walk-Written n offset block p' c.after c.disk_after c.chain_after [] free 0 refl hole
          (λ z. absurd (z refl)) apart.1 c.has_free (omega arith) in
      rw c.result (
        node-Written below ino disk size n offset block null_block p s c.disk_after f free (f ∷ [])
          free (f ∷ free) _ apart c.linked rest refl (omega arith))
  write_walk-Written zero offset block p t s chain blocks (f ∷ free) b e (leaf z) sync apart h
        enough =
      rw (child_of-old p t s b e z) (
        leaf-Written below ino disk size offset block p s s b (f ∷ free) t chain [] (f ∷ free) apart
          (old-Linked p s b (b ∷ (f ∷ free)) e (sync z) h.size_eq) h refl (omega arith))
  write_walk-Written (suc n) offset block p t s chain blocks (f ∷ free) b e
        (node {blocks = under} z way) sync apart h enough =
      let tib = disk.content s b in
      let p' : Parent = record { parent_off = b; parent_block = tib; word = index_at offset n } in
      let rest =
        write_walk-Written n offset block p' t s chain under (f ∷ free) (tib (index_at offset n))
          refl way (λ d j. refl) apart.1 h (omega arith) in
      let found = indirect_block-old b s (omega (arith, h.size_eq, apart.1.0.1)) in
      rw (child_of-old p t s b e z, found)
        (node-Written below ino disk size n offset block tib p s s b (under ++ (f ∷ free)) []
          (f ∷ free) (f ∷ free) _ apart
          (old-Linked p s b (b ∷ (under ++ (f ∷ free))) e (sync z) h.size_eq) rest refl
          (omega arith))
