-- ===== src/TreeDisk/Create/Writable.antt =====
-- A file system that treedisk_create has made can be written and read.
use egos_project.Prelude.{
  ℕ, zero, suc, ◌+◌, ◌-◌, ◌*◌, ◌/◌, ◌%◌, ◌<◌, ◌≤◌, ◌≡◌, refl, ap, sym, subst, inl, inr, arith, some,
  List, [], length, ok,
}
use egos_project.TreeDisk.Store.{Block, InodeStore, IsDisk}
use egos_project.TreeDisk.Layout.{
  u32_mod, inodes_per_block, n_inodeblocks_word, root_word, nblocks_word, inode_nblocks, inode_root,
  levels,
}
use egos_project.TreeDisk.Create.{treedisk_create}
use egos_project.TreeDisk.Create.ListBlock.{countdown}
use egos_project.TreeDisk.Create.Fresh.{Fresh, treedisk_create-Fresh}
use egos_project.TreeDisk.Access.Way.{Way, hole, NotIn, Blocks}
use egos_project.TreeDisk.Access.ReadBack.{snapshot_of, blockno_of, CanWrite, ReadsBack}
use egos_project.TreeDisk.Access.RoundTrip.{treedisk_write-ReadsBack}

pub length-countdown : (low n : ℕ) → length (countdown low n []) ≡ n
length-countdown low zero = refl
length-countdown low (suc n) = ap suc (length-countdown low n)

pub below-NotIn : (x low n : ℕ) → x < low → NotIn (countdown low n []) x
below-NotIn x low zero h = tt
below-NotIn x low (suc n) h = ((λ e. omega arith), below-NotIn x low n h)

above-NotIn : (x low n : ℕ) → low + n ≤ x → NotIn (countdown low n []) x
above-NotIn x low zero h = tt
above-NotIn x low (suc n) h = ((λ e. omega arith), above-NotIn x low n (omega arith))

pub countdown-Blocks :
    (size low n : ℕ) → 0 < low → low + n ≤ size → Blocks size (countdown low n [])
countdown-Blocks size low zero h l = tt
countdown-Blocks size low (suc n) h l = (
  ((λ e. omega arith), omega arith, above-NotIn (low + n) low n (omega arith)),
  countdown-Blocks size low n h (omega arith),
)

module _ (below : InodeStore) (ino : ℕ) (disk : IsDisk below ino) (size inode_no offset : ℕ) where
  -- The free blocks of a new file system.
  abbrev pub new_free : ℕ → List ℕ
  new_free n = countdown (n + 1) (size - (n + 1)) []

  Fresh-CanWrite :
      (n : ℕ) (s : below.State) (f : Fresh below ino disk size n size s)
      → inode_no < n * inodes_per_block
      → n * inodes_per_block < u32_mod
      → offset + 1 < u32_mod
      → n + 12 ≤ size
      → CanWrite below ino disk size inode_no offset s f.chain [] (new_free n)
  Fresh-CanWrite n s f known small offset_small room =
      let t = snapshot_of below ino disk size inode_no offset s in
      let blockno = blockno_of below ino disk size inode_no offset in
      let inode = f.inodes blockno (omega arith) (omega arith) in
      let empty : inode_nblocks t ≡ 0 =
        ap (λ (x : Block). x (nblocks_word (inode_no % inodes_per_block))) inode in
      let no_root : inode_root t ≡ 0 =
        ap (λ (x : Block). x (root_word (inode_no % inodes_per_block))) inode in
      record {
        known = let e = f.n_inodeblocks in rw e (omega arith);
        words = omega (arith, empty);
        offset_small = offset_small;
        has_free = record { size_eq = f.same_size; in_sync = refl; list = f.list };
        way =
            subst (λ b. Way (disk.content s) offset (levels (inode_nblocks t)) b []) (sym no_root)
              hole;
        apart = (
          (
            (λ e. omega arith),
            omega arith,
            below-NotIn blockno (n + 1) (size - (n + 1)) (omega arith),
          ),
          countdown-Blocks size (n + 1) (size - (n + 1)) (omega arith) (omega arith),
        );
        enough = omega (arith, length-countdown (n + 1) (size - (n + 1)));
      }

  -- On a disk that holds no file system and has eleven blocks left beside the superblock and the
  -- inode blocks, treedisk_create makes a file system; a block written at any offset of any of its
  -- files is there when it is read, and only free blocks, the superblock and the inode's block have
  -- changed.
  pub treedisk_create-ReadsBack :
      (ninodes : ℕ) (old block : Block) (s : below.State)
      → below.getsize ino s ≡ size
      → disk.content s 0 n_inodeblocks_word ≡ 0
      → ninodes + 63 < u32_mod
      → (ninodes + 63) / inodes_per_block + 12 ≤ size
      → inode_no < ninodes
      → offset + 1 < u32_mod
      → (made : below.State) × (treedisk_create below ino ninodes old s ≡ ok (some made))
        × ReadsBack below ino disk size inode_no offset block made []
            (new_free ((ninodes + 63) / inodes_per_block))
  treedisk_create-ReadsBack ninodes old block s e blank small room known offset_small =
      let n = (ninodes + 63) / inodes_per_block in
      let count : (ninodes + inodes_per_block - 1) % u32_mod / inodes_per_block ≡ n = omega arith in
      elim (treedisk_create-Fresh below ino disk size ninodes n old s count e) [
        | inl (full, _) ↦ absurd (omega arith)
        | inr (inl (_, used, _)) ↦ absurd (used blank)
        | inr (inr i) ↦ (
          i.after,
          i.result,
          treedisk_write-ReadsBack below ino disk size inode_no offset block i.after i.fresh.chain
              [] (new_free n)
              (Fresh-CanWrite n i.after i.fresh (omega arith) (omega arith) offset_small room),
        )
      ]
