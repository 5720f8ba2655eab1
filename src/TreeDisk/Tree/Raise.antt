-- ===== src/TreeDisk/Tree/Raise.antt =====
-- The growth of a file's tree: what the file holds stays, and what is new is empty.
use mathlib.Core.List.{append_assoc}
use egos_project.Prelude.{
  ℕ, zero, suc, ◌+◌, ◌<◌, ◌≤◌, ◌≡◌, ◌≢◌, refl, sym, ap, subst, ◌∙◌, inl, inr, arith, true, false,
  ◌==◌, if◌then◌else◌, List, [], ◌∷◌, ◌++◌, length, length-append, Run, ok, Bool-cases,
}
use egos_project.TreeDisk.Store.{Block, InodeStore, IsDisk}
use egos_project.TreeDisk.Layout.{
  u32_mod, null_block, set_word, index_at, root_word, n_inodeblocks_word, inode_root, Snapshot,
}
use egos_project.TreeDisk.Alloc.Allocation.{
  content-same, content-other, must_write-ok, HasFree, treedisk_alloc_block-Outcome,
}
use egos_project.TreeDisk.Access.{grow_one, grow}
use egos_project.TreeDisk.Access.Way.{Blocks, chain-All}
use egos_project.TreeDisk.Access.Growth.{set_word-same, set_word-other}
use egos_project.TreeDisk.Access.Links.{HasFree-put}
use egos_project.TreeDisk.Tree.{
  Role, free_block, reserved_block, file_block, role_differs, inode_differs, Agrees, Placed, hole,
  node, Placed-agree, block_at,
}
use egos_project.TreeDisk.Tree.Digits.{pre, pre-suc, index_at-pre}
use egos_project.TreeDisk.Tree.Graft.{
  with_role, with_role-same, with_role-other, with_role-free, FreeRoles, NotIn-free, block_at-hole,
}

module _ (below : InodeStore) (ino : ℕ) (disk : IsDisk below ino) (size k : ℕ) where
  -- Every block whose number fits the levels has its place in the tree from the root.
  abbrev pub AllPlaced : (ℕ → Block) → (ℕ → Role) → (nlevels root : ℕ) → Type 0
  AllPlaced c role nlevels root =
      (o : ℕ) → o < u32_mod → pre nlevels o ≡ 0 → Placed c role size k o nlevels root

  -- What a taller tree holds.
  abbrev pub old_or_empty : (ℕ → Block) → (nlevels root o : ℕ) → Block
  old_or_empty c nlevels root o =
      if pre nlevels o == 0 then block_at c nlevels o root else null_block

  pub record Raised (nlevels all added : ℕ) (t : Snapshot) (s : below.State) (role : ℕ → Role)
      (free : List ℕ) (r : Run (Snapshot × below.State)) : Type 0 where
    pub after : Snapshot
    pub disk_after : below.State
    pub role_after : ℕ → Role
    pub chain_after : List ℕ
    pub taken : List ℕ
    pub free_after : List ℕ
    pub result : r ≡ ok (after, disk_after)
    pub has_free : HasFree below ino disk size after disk_after chain_after free_after
    pub split : free ≡ taken ++ free_after
    pub few : length taken ≤ added
    pub blocks : Blocks size free_after
    pub free_roles : FreeRoles role_after free_after
    pub same_blockno : after.inode_blockno ≡ t.inode_blockno
    pub same_idx : after.idx ≡ t.idx
    pub others : (j : ℕ) → j ≢ root_word t.idx → after.inodeblock j ≡ t.inodeblock j
    pub kept : (m : ℕ) → m ≢ 0 → role m ≢ free_block → disk.content disk_after m ≡ disk.content s m
    pub role_kept : (m : ℕ) → role m ≢ free_block → role_after m ≡ role m
    pub same_inodeblocks :
        disk.content disk_after 0 n_inodeblocks_word ≡ disk.content s 0 n_inodeblocks_word
    pub placed : AllPlaced (disk.content disk_after) role_after all (inode_root after)
    pub reads :
        (o : ℕ)
        → o < u32_mod
        → pre all o ≡ 0
        → block_at (disk.content disk_after) all o (inode_root after)
          ≡ old_or_empty (disk.content s) nlevels (inode_root t) o

  -- Below the new root: the old one at 0, nothing beside it.
  below_root :
      (nlevels f root : ℕ) (c c' : ℕ → Block) (role role' : ℕ → Role)
      → c' f ≡ set_word 0 root null_block
      → AllPlaced c role nlevels root
      → ((o : ℕ) → Agrees c c' role role' k o nlevels)
      → (o : ℕ) → o < u32_mod
      → pre (suc nlevels) o ≡ 0
      → Placed c' role' size k o nlevels (c' f (index_at o nlevels))
        × (block_at c' nlevels o (c' f (index_at o nlevels)) ≡ old_or_empty c nlevels root o)
  below_root nlevels f root c c' role role' e all agrees o l top =
      let up = pre-suc nlevels o l in
      let digit = index_at-pre nlevels o in
      let Below : ℕ → Type 0 = λ n.
        Placed c' role' size k o nlevels n
        × (block_at c' nlevels o n ≡ old_or_empty c nlevels root o) in
      elim (Bool-cases (pre nlevels o == 0)) [
        | inl first ↦
            let at : index_at o nlevels ≡ 0 = ground (arith, digit) in
            let word : c' f (index_at o nlevels) ≡ root =
              ap (λ (b : Block). b (index_at o nlevels)) e
              ∙ ap (λ i. set_word 0 root null_block i) at in
            let (placed, same) = Placed-agree (all o l (ground arith)) (agrees o) in
            subst Below (sym word) (placed, rw first same)
        | inr later ↦
            let at : index_at o nlevels ≢ 0 = ground (arith, digit, up) in
            let word : c' f (index_at o nlevels) ≡ 0 =
              ap (λ (b : Block). b (index_at o nlevels)) e
              ∙ set_word-other 0 (index_at o nlevels) root null_block at in
            subst Below (sym word) (hole, rw later (block_at-hole c' nlevels o))
      ]

  grow_one-Raised :
      (nlevels : ℕ) (t : Snapshot) (s : below.State) (role : ℕ → Role) (chain : List ℕ) (f : ℕ)
      (free : List ℕ)
      → role 0 ≡ reserved_block
      → Blocks size (f ∷ free)
      → FreeRoles role (f ∷ free)
      → HasFree below ino disk size t s chain (f ∷ free)
      → AllPlaced (disk.content s) role nlevels (inode_root t)
      → Raised nlevels (suc nlevels) 1 t s role (f ∷ free) (grow_one below ino t s)
  unfolding grow_one
  grow_one-Raised nlevels t s role chain f free r0 ((fz, fl, new), apart) (rf, roles) h all =
      let a = treedisk_alloc_block-Outcome below ino disk size t s chain (f ∷ free) h in
      let here : Role = file_block k (suc nlevels) 0 in
      let role1 = with_role f here role in
      let root : inode_root a.after ≡ inode_root t =
        ap (λ (x : Snapshot). inode_root x) a.same_inode in
      let idx : a.after.idx ≡ t.idx = ap (λ (x : Snapshot). x.idx) a.same_inode in
      let inodes : a.after.inodeblock ≡ t.inodeblock =
        ap (λ (x : Snapshot). x.inodeblock) a.same_inode in
      let tib = set_word 0 (inode_root a.after) null_block in
      let s1 = disk.put f tib a.disk_after in
      let kept : (m : ℕ) → m ≢ 0 → role m ≢ free_block → disk.content s1 m ≡ disk.content s m =
        λ m z d.
          let off = NotIn-free role m (f ∷ free) d (rf, roles) in
          content-other below ino disk f tib a.disk_after m off.0
          ∙ a.elsewhere m z (chain-All (λ x. m ≢ x) h.list off) in
      let role_kept : (m : ℕ) → role m ≢ free_block → role1 m ≡ role m =
        λ m d. with_role-other f here role m (λ at. d (ap role at ∙ rf)) in
      let at_root =
        content-same below ino disk f tib a.disk_after ∙ ap (λ n. set_word 0 n null_block) root in
      let under =
        below_root nlevels f (inode_root t) (disk.content s) (disk.content s1) role role1 at_root
          all
          (λ o m l lh e.
            let used : role m ≢ free_block = λ x. role_differs (sym e ∙ x) in
            (kept m (λ x. role_differs (sym e ∙ ap role x ∙ r0)) used, role_kept m used)) in
      let free_left =
        HasFree-put below ino disk size a.after a.disk_after a.chain_after free f tib fz new
          a.has_free in
      let first = set_word-same (root_word a.after.idx) f a.after.inodeblock in
      let some_block : (f == 0) ≡ false = ground arith in
      record {
        after = record a.after {
          inodeblock = set_word (root_word a.after.idx) f a.after.inodeblock;
        };
        disk_after = s1;
        role_after = role1;
        chain_after = a.chain_after;
        taken = f ∷ [];
        free_after = free;
        result =
            rw
              (
                a.result,
                must_write-ok below ino disk f tib a.disk_after (omega (arith, a.has_free.size_eq)),
              )
              refl;
        has_free = record {
          size_eq = free_left.size_eq;
          in_sync = free_left.in_sync;
          list = free_left.list;
        };
        split = refl;
        few = omega arith;
        blocks = apart;
        free_roles = with_role-free f here role free new roles;
        same_blockno = ap (λ (x : Snapshot). x.inode_blockno) a.same_inode;
        same_idx = idx;
        others = λ j d.
            set_word-other (root_word a.after.idx) j f a.after.inodeblock
              (λ e. d (e ∙ ap root_word idx))
            ∙ ap (λ (x : Block). x j) inodes;
        kept = kept;
        role_kept = role_kept;
        same_inodeblocks =
            ap (λ (x : Block). x n_inodeblocks_word)
              (content-other below ino disk f tib a.disk_after 0 (λ e. fz (sym e))
                ∙ a.has_free.in_sync)
            ∙ a.same_inodeblocks
            ∙ ap (λ (x : Block). x n_inodeblocks_word) (sym h.in_sync);
        placed = λ o l e.
            subst (λ n. Placed (disk.content s1) role1 size k o (suc nlevels) n) (sym first)
              (node fz fl
                (with_role-same f here role ∙ ap (λ q. file_block k (suc nlevels) q) (sym e))
                (under o l e).0);
        reads = λ o l e. rw (first, some_block) (under o l e).1;
      }

  -- What a tree of two levels more holds, in terms of the one in between.
  old_or_empty-suc :
      (c c1 : ℕ → Block) (nlevels root root1 o : ℕ)
      → o < u32_mod
      → ((o' : ℕ)
          → o' < u32_mod
          → pre (suc nlevels) o' ≡ 0
          → block_at c1 (suc nlevels) o' root1 ≡ old_or_empty c nlevels root o')
      → old_or_empty c1 (suc nlevels) root1 o ≡ old_or_empty c nlevels root o
  old_or_empty-suc c c1 nlevels root root1 o l reads =
      let up = pre-suc nlevels o l in
      elim (Bool-cases (pre (suc nlevels) o == 0)) [
        | inl first ↦ rw first (reads o l (ground arith))
        | inr later ↦
            let not_first : (pre nlevels o == 0) ≡ false = ground (arith, up) in
            rw (later, not_first) refl
      ]

  pub grow-Raised :
      (added nlevels all : ℕ) (t : Snapshot) (s : below.State) (role : ℕ → Role)
      (chain free : List ℕ)
      → all ≡ added + nlevels
      → added ≤ length free
      → role 0 ≡ reserved_block
      → Blocks size free
      → FreeRoles role free
      → HasFree below ino disk size t s chain free
      → AllPlaced (disk.content s) role nlevels (inode_root t)
      → Raised nlevels all added t s role free (grow below ino added t s)
  unfolding grow
  grow-Raised zero nlevels all t s role chain free e enough r0 apart roles h placed =
      let same : nlevels ≡ all = omega arith in
      record {
        after = t;
        disk_after = s;
        role_after = role;
        chain_after = chain;
        taken = [];
        free_after = free;
        result = refl;
        has_free = h;
        split = refl;
        few = omega arith;
        blocks = apart;
        free_roles = roles;
        same_blockno = refl;
        same_idx = refl;
        others = λ j d. refl;
        kept = λ m z d. refl;
        role_kept = λ m d. refl;
        same_inodeblocks = refl;
        placed = subst (λ n. AllPlaced (disk.content s) role n (inode_root t)) same placed;
        reads = λ o l q.
            let first : (pre nlevels o == 0) ≡ true =
              let q' : pre nlevels o ≡ 0 = ap (λ n. pre n o) same ∙ q in ground arith in
            rw first (ap (λ n. block_at (disk.content s) n o (inode_root t)) (sym same));
      }
  grow-Raised (suc added) nlevels all t s role chain [] e enough r0 apart roles h placed =
      absurd (omega arith)
  grow-Raised (suc added) nlevels all t s role chain (f ∷ free) e enough r0 apart roles h placed =
      let one = grow_one-Raised nlevels t s role chain f free r0 apart roles h placed in
      let used : role 0 ≢ free_block = λ x. inode_differs (sym r0 ∙ x) in
      let taken : length one.taken ≤ 1 = one.few in
      let left : length (f ∷ free) ≡ length one.taken + length one.free_after =
        ap (λ (x : List ℕ). length x) one.split ∙ length-append one.taken one.free_after in
      let rest =
        grow-Raised added (suc nlevels) all one.after one.disk_after one.role_after one.chain_after
          one.free_after (omega arith) (omega (arith, left, taken)) (one.role_kept 0 used ∙ r0)
          one.blocks one.free_roles one.has_free one.placed in
      record {
        after = rest.after;
        disk_after = rest.disk_after;
        role_after = rest.role_after;
        chain_after = rest.chain_after;
        taken = one.taken ++ rest.taken;
        free_after = rest.free_after;
        result = rw one.result rest.result;
        has_free = rest.has_free;
        split =
            one.split
            ∙ ap (λ m. one.taken ++ m) rest.split
            ∙ sym (append_assoc one.taken rest.taken rest.free_after);
        few = let r = rest.few in omega (arith, taken, length-append one.taken rest.taken);
        blocks = rest.blocks;
        free_roles = rest.free_roles;
        same_blockno = rest.same_blockno ∙ one.same_blockno;
        same_idx = rest.same_idx ∙ one.same_idx;
        others = λ j d. rest.others j (λ e. d (e ∙ ap root_word one.same_idx)) ∙ one.others j d;
        kept = λ m z d. rest.kept m z (λ x. d (sym (one.role_kept m d) ∙ x)) ∙ one.kept m z d;
        role_kept =
            λ m d. rest.role_kept m (λ x. d (sym (one.role_kept m d) ∙ x)) ∙ one.role_kept m d;
        same_inodeblocks = rest.same_inodeblocks ∙ one.same_inodeblocks;
        placed = rest.placed;
        reads = λ o l q.
            rest.reads o l q
            ∙ old_or_empty-suc (disk.content s) (disk.content one.disk_after) nlevels (inode_root t)
                (inode_root one.after) o l one.reads;
      }
