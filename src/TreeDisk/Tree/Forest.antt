-- ===== src/TreeDisk/Tree/Forest.antt =====
-- A file system whose files are trees with all their blocks in place, and what its files hold.
use egos_project.Prelude.{
  ℕ, ◌+◌, ◌*◌, ◌/◌, ◌%◌, ◌<◌, ◌≤◌, ◌≡◌, refl, arith, true, false, ltb, leb, if◌then◌else◌, inl, inr,
  Option, none, some, List, ok, Bool-cases,
}
use egos_project.TreeDisk.Store.{Block, InodeStore, IsDisk}
use egos_project.TreeDisk.Layout.{
  u32_mod, null_block, inodes_per_block, n_inodeblocks_word, free_list_word, root_word,
  nblocks_word, levels,
}
use egos_project.TreeDisk.Alloc.FreeList.{FreeList}
use egos_project.TreeDisk.Access.{treedisk_read, read_inode_block}
use egos_project.TreeDisk.Access.Way.{Blocks}
use egos_project.TreeDisk.Access.ReadBack.{get_snapshot-ok}
use egos_project.TreeDisk.Tree.{Role, reserved_block, block_at, read_walk-block_at}
use egos_project.TreeDisk.Tree.Digits.{pre, pre-levels}
use egos_project.TreeDisk.Tree.Graft.{FreeRoles}
use egos_project.TreeDisk.Tree.Raise.{AllPlaced}

module _ (below : InodeStore) (ino : ℕ) (disk : IsDisk below ino) (size n : ℕ) where
  -- The two words of an inode.
  abbrev pub root_of : below.State → ℕ → ℕ
  root_of s k = disk.content s (1 + k / inodes_per_block) (root_word (k % inodes_per_block))

  abbrev pub size_of : below.State → ℕ → ℕ
  size_of s k = disk.content s (1 + k / inodes_per_block) (nblocks_word (k % inodes_per_block))

  -- The tree of the file `k`; behind its end it is empty.
  pub record FileTree (s : below.State) (role : ℕ → Role) (k : ℕ) : Type 0 where
    pub placed :
        AllPlaced below ino disk size k (disk.content s) role (levels (size_of s k)) (root_of s k)
    pub zeros :
        (o : ℕ)
        → o < u32_mod
        → size_of s k ≤ o
        → pre (levels (size_of s k)) o ≡ 0
        → block_at (disk.content s) (levels (size_of s k)) o (root_of s k) ≡ null_block
    pub small : size_of s k < u32_mod

  -- The file system has `n` inode blocks and the free blocks `free`, and every block is there for
  -- one thing.
  pub record Forest (s : below.State) (role : ℕ → Role) (free : List ℕ) : Type 0 where
    pub size_eq : below.getsize ino s ≡ size
    pub n_inodeblocks : disk.content s 0 n_inodeblocks_word ≡ n
    pub chain : List ℕ
    pub list : FreeList size (disk.content s) (disk.content s 0 free_list_word) chain free
    pub blocks : Blocks size free
    pub free_roles : FreeRoles role free
    pub reserved : (m : ℕ) → m ≤ n → role m ≡ reserved_block
    pub trees : (k : ℕ) → k < n * inodes_per_block → FileTree s role k

  -- The block `o` of the file `k`.
  abbrev pub contents_of : below.State → (k o : ℕ) → Option Block
  contents_of s k o =
      if ltb o (size_of s k)
      then some (block_at (disk.content s) (levels (size_of s k)) o (root_of s k))
      else none

  module _ (small : n * inodes_per_block < u32_mod) (room : n < size) where
    -- A read of a file gives what the file holds there, and -1 behind its end.
    pub treedisk_read-contents_of :
        (s : below.State) (role : ℕ → Role) (free : List ℕ) (k o : ℕ)
        → Forest s role free
        → k < n * inodes_per_block
        → o < u32_mod
        → treedisk_read below ino k o s ≡ ok (contents_of s k o)
    unfolding treedisk_read read_inode_block
    treedisk_read-contents_of s role free k o f known l =
        let count = f.n_inodeblocks in
        let tree = f.trees k known in
        let snap =
          get_snapshot-ok below ino disk size k o s f.size_eq (omega arith)
            (rw count (omega arith)) in
        elim (Bool-cases (ltb o (size_of s k))) [
          | inl inside ↦
              let in_file : leb (size_of s k) o ≡ false = ground arith in
              let walk =
                read_walk-block_at below ino disk size s f.size_eq
                  (tree.placed o l (pre-levels (size_of s k) o tree.small (ground arith))) in
              rw (snap, in_file, inside) walk
          | inr behind ↦
              let past : leb (size_of s k) o ≡ true = ground arith in rw (snap, past, behind) refl
        ]
