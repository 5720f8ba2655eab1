-- ===== src/TreeDisk/Tree/Write.antt =====
-- treedisk_write as a change of what the files hold: one block of one file.
use mathlib.Core.List.{append_assoc}
use egos_project.Prelude.{
  ℕ, ◌+◌, ◌*◌, ◌/◌, ◌%◌, ◌<◌, ◌≤◌, ◌≡◌, ◌≢◌, refl, sym, ap, subst, ◌∙◌, inl, inr, arith, true,
  false, ltb, ◌==◌, if◌then◌else◌, Option, none, some, List, ◌++◌, length, length-append, ok,
  Bool-cases,
}
use egos_project.TreeDisk.Store.{Block, InodeStore, IsDisk}
use egos_project.TreeDisk.Layout.{
  u32_mod, null_block, inodes_per_block, nblocks_word, root_word, inode_root, levels,
}
use egos_project.TreeDisk.Access.{write_walk, treedisk_write}
use egos_project.TreeDisk.Access.Way.{Blocks, Blocks-right}
use egos_project.TreeDisk.Access.ReadBack.{parent_of, get_snapshot-ok}
use egos_project.TreeDisk.Tree.{
  Role, free_block, reserved_block, file_block, role_differs, inode_differs, Agrees, Placed-agree,
  block_at,
}
use egos_project.TreeDisk.Tree.Digits.{pre, pre-levels}
use egos_project.TreeDisk.Tree.Graft.{Grafted, OffWay}
use egos_project.TreeDisk.Tree.Graft.Walk.{write_walk-Grafted}
use egos_project.TreeDisk.Tree.Raise.{AllPlaced}
use egos_project.TreeDisk.Tree.Forest.{root_of, size_of, FileTree, Forest, contents_of}
use egos_project.TreeDisk.Tree.Start.{Ready, write-Ready}

inode_eq : {k l q k' l' q' : ℕ} → file_block k l q ≡ file_block k' l' q' → k ≡ k'
inode_eq e = cc

k_itself : (k : ℕ) → (k == k) ≡ true
k_itself k = ground arith

module _ (below : InodeStore) (ino : ℕ) (disk : IsDisk below ino) (size n : ℕ) where
  -- What the files hold when the block `o` of the file `k` is written: a file that was shorter has
  -- empty blocks up to it.
  abbrev pub contents_with : below.State → (k o : ℕ) (block : Block) (k' o' : ℕ) → Option Block
  contents_with s k o block k' o' =
      if k' == k
      then (if o' == o
          then some block
          else if ltb o' (size_of below ino disk size n s k)
          then contents_of below ino disk size n s k o'
          else if ltb o' o
          then some null_block
          else none)
      else contents_of below ino disk size n s k' o'

  pub record WriteDone (s : below.State) (free : List ℕ) (k o : ℕ) (block : Block) : Type 0 where
    pub after : below.State
    pub role_after : ℕ → Role
    pub taken : List ℕ
    pub free_after : List ℕ
    pub result : treedisk_write below ino k o block s ≡ ok (some after)
    pub forest : Forest below ino disk size n after role_after free_after
    pub split : free ≡ taken ++ free_after
    pub at_most : length taken ≤ 11
    pub contents :
        (k' o' : ℕ)
        → k' < n * inodes_per_block
        → o' < u32_mod
        → contents_of below ino disk size n after k' o' ≡ contents_with s k o block k' o'

  module _ (small : n * inodes_per_block < u32_mod) (room : n < size) (k o : ℕ)
      (known : k < n * inodes_per_block) (o_small : o + 1 < u32_mod) (block : Block)
      (s : below.State) (role : ℕ → Role) (free : List ℕ)
      (f : Forest below ino disk size n s role free)
      (r : Ready below ino disk size n small room k o known o_small block s role free) where
    abbrev inodes_at : ℕ
    inodes_at = 1 + k / inodes_per_block

    reserved_start : (m : ℕ) → m ≤ n → r.role_start m ≡ reserved_block
    reserved_start m h =
        let e = f.reserved m h in r.role_kept m (λ x. inode_differs (sym e ∙ x)) ∙ e

    written_inside : o < r.nblocks
    written_inside = elim r.new_size [ inl (_, l) ↦ l | inr (e, _) ↦ omega (arith, e) ]

    size_word : r.nblocks < u32_mod
    size_word = elim r.new_size [
      | inl (e, _) ↦ let l = (f.trees k known).small in omega (arith, e, l)
      | inr (e, _) ↦ omega (arith, e)
    ]

    first_digits : pre r.nlevels o ≡ 0
    first_digits =
        subst (λ l. pre l o ≡ 0) r.nlevels_eq (pre-levels r.nblocks o size_word written_inside)

    o_word : o < u32_mod
    o_word = omega arith

    abbrev IsGrafted : Type 0
    IsGrafted =
        Grafted below ino disk size k o o_word block r.nlevels
          (parent_of below ino disk size k o r.top) r.start r.role_start r.free_start
          (inode_root r.top)
          (write_walk below ino r.nlevels o block (parent_of below ino disk size k o r.top) r.top
            r.start)

    grafted : 10 < length free → IsGrafted
    grafted enough =
        let at = r.same_blockno in
        let reserved = reserved_start r.top.inode_blockno (omega arith) in
        let few = r.at_most in
        let parts = ap (λ (x : List ℕ). length x) r.split in
        write_walk-Grafted below ino disk size k o o_word block r.nlevels
          (parent_of below ino disk size k o r.top) r.top r.start r.role_start r.chain_start
          r.free_start (inode_root r.top) (reserved_start 0 (omega arith)) refl
          (r.placed o o_word first_digits) (λ o' l' e. r.placed o' l' (e ∙ first_digits))
          (λ z j. ap (λ m. disk.content r.start m j) at ∙ r.synced j) (λ x. omega (arith, at, x))
          (omega arith) (λ x. inode_differs (sym reserved ∙ x))
          (λ l h x. role_differs (sym x ∙ reserved)) r.blocks r.free_roles r.has_free
          (omega (arith, length-append r.taken r.free_start))

    module _ (g : IsGrafted) where
      -- The inode's block.
      root_after : root_of below ino disk size n g.after k ≡ g.child
      root_after =
          let at : disk.content g.after r.top.inode_blockno (root_word r.top.idx) ≡ g.child =
            g.entry in
          rw (r.same_blockno, r.same_idx) at at

      word_after :
          (j : ℕ)
          → j ≢ root_word (k % inodes_per_block)
          → disk.content g.after inodes_at j ≡ r.top.inodeblock j
      word_after j d =
          let at : disk.content g.after r.top.inode_blockno j ≡ r.top.inodeblock j =
            g.others j (λ e. d (e ∙ ap root_word r.same_idx)) in
          ap (λ m. disk.content g.after m j) (sym r.same_blockno) ∙ at

      size_after : size_of below ino disk size n g.after k ≡ r.nblocks
      size_after =
          word_after (nblocks_word (k % inodes_per_block)) (λ e. omega arith) ∙ r.nblocks_eq

      role_after_kept : (m : ℕ) → role m ≢ free_block → g.role_after m ≡ role m
      role_after_kept m d = let e = r.role_kept m d in g.role_kept m (λ x. d (sym e ∙ x)) ∙ e

      -- A block that is there for something else than the file stays.
      kept :
          (m : ℕ)
          → m ≢ 0
          → m ≢ inodes_at
          → role m ≢ free_block
          → OffWay below ino disk size k o o_word block role r.nlevels m
          → disk.content g.after m ≡ disk.content s m
      kept m z d used off =
          let e = r.role_kept m used in
          g.kept m z (λ x. d (x ∙ r.same_blockno)) (λ x. used (sym e ∙ x))
            (λ l h x. off l h (sym e ∙ x))
          ∙ r.kept m z d used

      other_word :
          (k' j : ℕ)
          → k' < n * inodes_per_block
          → (k / inodes_per_block ≡ k' / inodes_per_block
              → (j ≢ root_word (k % inodes_per_block)) × (j ≢ nblocks_word (k % inodes_per_block)))
          → disk.content g.after (1 + k' / inodes_per_block) j
            ≡ disk.content s (1 + k' / inodes_per_block) j
      other_word k' j known' apart =
          let Word : ℕ → Type 0 = λ q. disk.content g.after (1 + q) j ≡ disk.content s (1 + q) j in
          elim (Bool-cases (k / inodes_per_block == k' / inodes_per_block)) [
            | inl same ↦
                let e : k / inodes_per_block ≡ k' / inodes_per_block = ground arith in
                let (not_root, not_size) = apart e in
                subst Word e (word_after j not_root ∙ r.other_words j not_root not_size)
            | inr differs ↦
                let m = 1 + k' / inodes_per_block in
                let reserved = f.reserved m (omega arith) in
                let d : m ≢ inodes_at = ground arith in
                ap (λ (x : Block). x j)
                  (kept m (λ e. omega arith) d (λ x. inode_differs (sym reserved ∙ x))
                    (λ l h x. role_differs (sym x ∙ reserved)))
          ]

      -- Another file is as it was.
      other_root :
          (k' : ℕ)
          → k' ≢ k
          → k' < n * inodes_per_block
          → root_of below ino disk size n g.after k' ≡ root_of below ino disk size n s k'
      other_root k' d known' =
          other_word k' (root_word (k' % inodes_per_block)) known' (λ e. omega arith)

      other_size :
          (k' : ℕ)
          → k' ≢ k
          → k' < n * inodes_per_block
          → size_of below ino disk size n g.after k' ≡ size_of below ino disk size n s k'
      other_size k' d known' =
          other_word k' (nblocks_word (k' % inodes_per_block)) known' (λ e. omega arith)

      other_same :
          (k' : ℕ)
          → k' ≢ k
          → (o' nlevels : ℕ)
          → Agrees (disk.content s) (disk.content g.after) role g.role_after k' o' nlevels
      other_same k' d o' nlevels m l h e =
          let used : role m ≢ free_block = λ x. role_differs (sym e ∙ x) in
          let behind : (q : ℕ) → q ≤ n → m ≢ q =
            λ q hq x. role_differs (sym e ∙ ap role x ∙ f.reserved q hq) in
          (
            kept m (behind 0 (omega arith)) (behind inodes_at (omega arith)) used
                (λ j hj x. d (inode_eq (sym e ∙ x))),
            role_after_kept m used,
          )

      other_tree :
          (k' : ℕ)
          → k' ≢ k
          → k' < n * inodes_per_block
          → FileTree below ino disk size n g.after g.role_after k'
      other_tree k' d known' =
          let tree = f.trees k' known' in
          let same_root = other_root k' d known' in
          let same_size = other_size k' d known' in
          let level = levels (size_of below ino disk size n s k') in
          let root = root_of below ino disk size n s k' in
          let agree = λ (o' : ℕ) (l' : o' < u32_mod) (e : pre level o' ≡ 0).
            Placed-agree (tree.placed o' l' e) (other_same k' d o' level) in
          let placed : AllPlaced below ino disk size k' (disk.content g.after) g.role_after level
              root =
            λ o' l' e. (agree o' l' e).0 in
          record {
            placed = rw (same_root, same_size) placed;
            zeros =
                rw (same_root, same_size) (λ o' l' h e. (agree o' l' e).1 ∙ tree.zeros o' l' h e);
            small = rw same_size tree.small;
          }

      -- What stands beside the written block: what the file held there, and zeros behind its end.
      beside_it :
          (o' : ℕ)
          → o' < u32_mod
          → o' ≢ o
          → pre r.nlevels o' ≡ 0
          → block_at (disk.content g.after) r.nlevels o' g.child ≡ (
              if ltb o' (size_of below ino disk size n s k)
              then block_at
                  (disk.content s)
                  (levels (size_of below ino disk size n s k))
                  o'
                  (root_of below ino disk size n s k)
              else null_block)
      beside_it o' l' d e =
          let tree = f.trees k known in
          let nblocks = size_of below ino disk size n s k in
          let level = levels nblocks in
          let before = g.others_read o' l' d (e ∙ sym first_digits) ∙ r.reads o' l' e in
          elim (Bool-cases (ltb o' nblocks)) [
            | inl inside ↦
                let top = pre-levels nblocks o' tree.small (ground arith) in
                let first : (pre level o' == 0) ≡ true = ground (arith, top) in
                before ∙ rw (inside, first) refl
            | inr behind ↦ elim (Bool-cases (pre level o' == 0)) [
              | inl first ↦
                  before ∙ rw (behind, first) (tree.zeros o' l' (ground arith) (ground arith))
              | inr later ↦ before ∙ rw (behind, later) refl
            ]
          ]

      other_contents :
          (k' : ℕ)
          → k' ≢ k
          → k' < n * inodes_per_block
          → (o' : ℕ) → o' < u32_mod
          → contents_of below ino disk size n g.after k' o'
            ≡ contents_of below ino disk size n s k' o'
      other_contents k' d known' o' l' =
          let tree = f.trees k' known' in
          let nblocks = size_of below ino disk size n s k' in
          rw (other_root k' d known', other_size k' d known')
            (elim (Bool-cases (ltb o' nblocks)) [
              | inl inside ↦
                  let top = pre-levels nblocks o' tree.small (ground arith) in
                  rw inside (
                    ap some
                      (Placed-agree (tree.placed o' l' top)
                        (other_same k' d o' (levels nblocks))).1)
              | inr behind ↦ rw behind refl
            ])

      this_tree : FileTree below ino disk size n g.after g.role_after k
      this_tree =
          let placed : AllPlaced below ino disk size k (disk.content g.after) g.role_after r.nlevels
              g.child =
            λ o' l' e. g.placed o' l' (e ∙ sym first_digits) in
          let zeros : (o' : ℕ)
              → o' < u32_mod
              → r.nblocks ≤ o'
              → pre r.nlevels o' ≡ 0
              → block_at (disk.content g.after) r.nlevels o' g.child ≡ null_block =
            λ o' l' h e.
              let (differs, behind) : (o' ≢ o)
                  × (ltb o' (size_of below ino disk size n s k) ≡ false) =
                elim r.new_size [
                  | inl (at, l) ↦ ((λ x. omega (arith, x)), ground (arith, at))
                  | inr (at, l) ↦ ((λ x. omega (arith, at, x)), ground (arith, at))
                ] in
              beside_it o' l' differs e ∙ rw behind refl in
          record {
            placed = rw (root_after, size_after, r.nlevels_eq) placed;
            zeros = rw (root_after, size_after, r.nlevels_eq) zeros;
            small = rw size_after size_word;
          }

      in_new_size : (o' : ℕ) → o' < u32_mod → ltb o' r.nblocks ≡ true → pre r.nlevels o' ≡ 0
      in_new_size o' l' h =
          subst (λ l. pre l o' ≡ 0) r.nlevels_eq (pre-levels r.nblocks o' size_word (ground arith))

      this_contents :
          (o' : ℕ)
          → o' < u32_mod
          → contents_of below ino disk size n g.after k o' ≡ (
              if o' == o
              then some block
              else if ltb o' (size_of below ino disk size n s k)
              then contents_of below ino disk size n s k o'
              else if ltb o' o
              then some null_block
              else none)
      this_contents o' l' =
          let nblocks = size_of below ino disk size n s k in
          let within = in_new_size o' l' in
          rw (root_after, size_after, r.nlevels_eq)
            (elim (Bool-cases (o' == o)) [
              | inl here ↦
                  let at : o ≡ o' = ground arith in
                  let inside : ltb o' r.nblocks ≡ true = ground (arith, written_inside) in
                  let reads =
                    subst (λ q. block_at (disk.content g.after) r.nlevels q g.child ≡ block) at
                      g.reads in
                  rw (here, inside) (ap some reads)
              | inr beside ↦
                  let d : o' ≢ o = ground arith in
                  elim (Bool-cases (ltb o' nblocks)) [
                    | inl old ↦
                        let inside : ltb o' r.nblocks ≡ true = elim r.new_size [
                          | inl (e, _) ↦ ground (arith, e)
                          | inr (e, h) ↦ ground (arith, e, h)
                        ] in
                        let same = beside_it o' l' d (within inside) in
                        rw (beside, inside, old) (ap some (rw old at same))
                    | inr behind ↦ elim (Bool-cases (ltb o' o)) [
                      | inl gap ↦
                          let inside : ltb o' r.nblocks ≡ true = ground (arith, written_inside) in
                          let same = beside_it o' l' d (within inside) in
                          rw (beside, inside, behind, gap) (ap some (rw behind at same))
                      | inr past ↦
                          let outside : ltb o' r.nblocks ≡ false = elim r.new_size [
                            | inl (e, _) ↦ ground (arith, e)
                            | inr (e, h) ↦ ground (arith, e, h)
                          ] in
                          rw (beside, outside, behind, past) refl
                    ]
                  ]
            ])

      written-WriteDone : WriteDone s free k o block
      unfolding treedisk_write
      written-WriteDone =
          let count = f.n_inodeblocks in
          let snap =
            get_snapshot-ok below ino disk size k o s f.size_eq (omega arith)
              (rw count (omega arith)) in
          let blocks =
            Blocks-right size g.taken g.free_after
              (subst (λ (x : List ℕ). Blocks size x) g.split r.blocks) in
          record {
            after = g.after;
            role_after = g.role_after;
            taken = r.taken ++ g.taken;
            free_after = g.free_after;
            result = rw (snap, r.result, g.result) refl;
            forest = record {
              size_eq = g.size_eq;
              n_inodeblocks = g.same_inodeblocks ∙ r.same_inodeblocks ∙ count;
              chain = g.chain_after;
              list = g.list;
              blocks = blocks;
              free_roles = g.free_roles;
              reserved = λ m h.
                  let e = f.reserved m h in role_after_kept m (λ x. inode_differs (sym e ∙ x)) ∙ e;
              trees = λ k' known'. elim (Bool-cases (k' == k)) [
                | inl here ↦
                    let at : k ≡ k' = ground arith in
                    subst (FileTree below ino disk size n g.after g.role_after) at this_tree
                | inr other ↦ other_tree k' (ground arith) known'
              ];
            };
            split =
                r.split
                ∙ ap (λ m. r.taken ++ m) g.split
                ∙ sym (append_assoc r.taken g.taken g.free_after);
            at_most =
                let before = r.at_most in
                let more = g.at_most in omega (arith, length-append r.taken g.taken);
            contents = λ k' o' known' l'. elim (Bool-cases (k' == k)) [
              | inl here ↦
                  let at : k ≡ k' = ground arith in
                  subst
                    (λ q.
                      contents_of below ino disk size n g.after q o'
                      ≡ contents_with s k o block q o')
                    at (rw (k_itself k) (this_contents o' l'))
              | inr other ↦
                  let d : k' ≢ k = ground arith in rw (other) (other_contents k' d known' o' l')
            ];
          }

-- A write of any block of any file, inside the file, in a hole or behind the end, while more than
-- ten blocks are free: it returns, all trees are in place afterwards, at most eleven free blocks are
-- used, and the files hold what they held, but for that block, and for blocks of zeros up to it in
-- a file that was shorter.
pub treedisk_write-WriteDone :
    (below : InodeStore) (ino : ℕ) (disk : IsDisk below ino) (size n k o : ℕ) (block : Block)
    (s : below.State) (role : ℕ → Role) (free : List ℕ)
    → n * inodes_per_block < u32_mod
    → n < size
    → k < n * inodes_per_block
    → o + 1 < u32_mod
    → 10 < length free
    → Forest below ino disk size n s role free
    → WriteDone below ino disk size n s free k o block
treedisk_write-WriteDone below ino disk size n k o block s role free small room known o_small enough
      f =
    let r =
      write-Ready below ino disk size n small room k o known o_small block s role free f enough in
    written-WriteDone below ino disk size n small room k o known o_small block s role free f r
      (grafted below ino disk size n small room k o known o_small block s role free f r enough)
