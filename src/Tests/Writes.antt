-- ===== src/Tests/Writes.antt =====
-- A block is written far behind the end of a file of one block, and read again.
use egos_project.Prelude.{
  ℕ, zero, suc, ◌+◌, ◌*◌, ◌%◌, ◌≢◌, ◌∙◌, ap, sym, subst, inl, inr, leb, true, Bool-cases, ◌/◌, ◌≡◌,
  some, ok, ◌<◌, ◌≤◌, refl, arith, ◌==◌, if◌then◌else◌, List, [], ◌∷◌,
}
use egos_project.TreeDisk.Store.{Block}
use egos_project.TreeDisk.RamDisk.{fs_disk_blocks, ramdisk_init, ramdisk-IsDisk}
use egos_project.TreeDisk.Create.{treedisk_create}
use egos_project.TreeDisk.Create.Writable.{new_free, treedisk_create-ReadsBack}
use egos_project.TreeDisk.Layout.{inodes_per_block, null_block, levels, log_shift_r}
use egos_project.TreeDisk.Alloc.FreeList.{free_refs, FreeList, done, link}
use egos_project.TreeDisk.Access.Way.{leaf, NotIn, Blocks}
use egos_project.TreeDisk.Access.ReadBack.{CanWrite, ReadsBack}
use egos_project.TreeDisk.Access.{treedisk_read, treedisk_write}
use egos_project.TreeDisk.Access.Separation.{Other, treedisk_write-spares}
use egos_project.TreeDisk.Files.{FilePut, put_all}
use egos_project.TreeDisk.Files.View.{empty_view, view_all, treedisk_create-view_all}
use egos_project.TreeDisk.Tree.{Role, free_block, reserved_block, file_block, Placed, hole}
use egos_project.TreeDisk.Tree
use egos_project.TreeDisk.Tree.Digits.{pre, pre-zero}
use egos_project.TreeDisk.Tree.Graft.{FreeRoles, block_at-hole}
use egos_project.TreeDisk.Tree.Forest.{Forest, FileTree}
use egos_project.TreeDisk.Tree.Write.{WriteDone, treedisk_write-WriteDone}
use egos_project.TreeDisk.Access.RoundTrip.{treedisk_write-ReadsBack}

-- The blocks: the superblock, an inode block, the file's block, free blocks, and their list.
abbrev superblock : Block
superblock i = if i == 0 then 1 else if i == 1 then 15 else 0

-- The file 0 has the block 2, and the file 1 the block 20.
abbrev inodes : Block
inodes i =
    if i == 0 then 2 else if i == 1 then 1 else if i == 2 then 20 else if i == 3 then 1 else 0

-- The references 14 to 3 in the slots 1 to 12.
abbrev list_block : Block
list_block i =
    if i == 1
    then 14
    else if i == 2
    then 13
    else if i == 3
    then 12
    else if i == 4
    then 11
    else if i == 5
    then 10
    else if i == 6
    then 9
    else if i == 7
    then 8
    else if i == 8
    then 7
    else if i == 9
    then 6
    else if i == 10
    then 5
    else if i == 11
    then 4
    else if i == 12
    then 3
    else 0

abbrev fs : ℕ → Block
fs n =
    if n == 0
    then superblock
    else if n == 1
    then inodes
    else if n == 2
    then (λ i. 7)
    else if n == 15
    then list_block
    else null_block

abbrev count_up : (first n : ℕ) → List ℕ
count_up first zero = []
count_up first (suc n) = first ∷ count_up (first + 1) n

count_up-NotIn : (x first n : ℕ) → x < first → NotIn (count_up first n) x
count_up-NotIn x first zero h = tt
count_up-NotIn x first (suc n) h =
    ((λ e. omega arith), count_up-NotIn x (first + 1) n (omega arith))

count_up-Blocks : (size first n : ℕ) → 0 < first → first + n ≤ size → Blocks size (count_up first n)
count_up-Blocks size first zero h l = tt
count_up-Blocks size first (suc n) h l = (
  ((λ e. omega arith), omega arith, count_up-NotIn first (first + 1) n (omega arith)),
  count_up-Blocks size (first + 1) n (omega arith) (omega arith),
)

fs-FreeList : FreeList fs_disk_blocks fs 15 (15 ∷ []) (count_up 3 13)
unfolding free_refs
fs-FreeList = link (omega arith) (omega arith) tt done

fs-CanWrite :
    CanWrite ramdisk_init 0
      (ramdisk-IsDisk 0)
      fs_disk_blocks
      0
      200
      fs
      (15 ∷ [])
      (2 ∷ [])
      (count_up 3 13)
unfolding ramdisk-IsDisk levels log_shift_r
fs-CanWrite = record {
  known = omega arith;
  words = omega arith;
  offset_small = omega arith;
  has_free = record { size_eq = refl; in_sync = refl; list = fs-FreeList };
  way = leaf (omega arith);
  apart = count_up-Blocks fs_disk_blocks 1 15 (omega arith) (omega arith);
  enough = omega arith;
}

treedisk_write-ReadsBack_example :
    ReadsBack ramdisk_init 0
      (ramdisk-IsDisk 0)
      fs_disk_blocks
      0
      200
      (λ i. 42)
      fs
      (2 ∷ [])
      (count_up 3 13)
treedisk_write-ReadsBack_example =
    treedisk_write-ReadsBack ramdisk_init 0 (ramdisk-IsDisk 0) fs_disk_blocks 0 200 (λ i. 42) fs
      (15 ∷ []) (2 ∷ []) (count_up 3 13) fs-CanWrite

-- A new file system on an empty RAM disk, and a block of the file 5.
treedisk_create-ReadsBack_example :
    (made : ℕ → Block) × (treedisk_create ramdisk_init 0 128 null_block (λ n. null_block)
      ≡ ok (some made))
    × ReadsBack ramdisk_init 0
        (ramdisk-IsDisk 0)
        fs_disk_blocks
        5
        200
        (λ i. 42)
        made
        []
        (new_free ramdisk_init 0
          (ramdisk-IsDisk 0)
          fs_disk_blocks
          5
          200
          ((128 + 63) / inodes_per_block))
unfolding ramdisk-IsDisk
treedisk_create-ReadsBack_example =
    treedisk_create-ReadsBack ramdisk_init 0 (ramdisk-IsDisk 0) fs_disk_blocks 5 200 128 null_block
      (λ i. 42) (λ n. null_block) refl refl (omega arith) (omega arith) (omega arith) (omega arith)

-- The write leaves the file 1, whose inode stands in the same block.
fs-Other :
    Other ramdisk_init 0 (ramdisk-IsDisk 0) fs_disk_blocks 0 1 0 fs (20 ∷ []) (2 ∷ count_up 3 13)
unfolding ramdisk-IsDisk levels log_shift_r
fs-Other = record {
  separate = λ e. omega arith;
  known = omega arith;
  inside = omega arith;
  inode_untouched = count_up-NotIn 1 2 14 (omega arith);
  way = leaf (omega arith);
  untouched = ((omega arith, (λ e. omega arith), omega arith), tt);
}

treedisk_write-spares_example :
    (after : ℕ → Block) × (treedisk_write ramdisk_init 0 0 200 (λ i. 42) fs ≡ ok (some after))
    × (treedisk_read ramdisk_init 0 1 0 after ≡ treedisk_read ramdisk_init 0 1 0 fs)
treedisk_write-spares_example =
    treedisk_write-spares ramdisk_init 0 (ramdisk-IsDisk 0) fs_disk_blocks 0 200 1 0 (λ i. 42) fs
      (15 ∷ []) (2 ∷ []) (count_up 3 13) (20 ∷ []) fs-CanWrite fs-Other

-- Two files of a new file system, the first of them written twice.
abbrev three_puts : List FilePut
three_puts =
    record { inode_no = 0; offset = 300; block = λ i. 42 }
    ∷ (record { inode_no = 100; offset = 0; block = λ i. i }
        ∷ (record { inode_no = 0; offset = 3; block = λ i. 43 } ∷ []))

treedisk_create-view_all_example :
    (made after : ℕ → Block) × (treedisk_create ramdisk_init 0 128 null_block (λ n. null_block)
      ≡ ok (some made))
    × (put_all ramdisk_init 0 three_puts made ≡ ok after)
    × ((k o : ℕ)
        → k < 128
        → o < 0x1_0000_0000
        → treedisk_read ramdisk_init 0 k o after ≡ ok (view_all three_puts empty_view k o))
unfolding ramdisk-IsDisk
treedisk_create-view_all_example =
    treedisk_create-view_all ramdisk_init 0 (ramdisk-IsDisk 0) fs_disk_blocks 128 null_block
      (λ n. null_block) three_puts refl refl (omega arith) (omega arith)
      ((omega arith, omega arith), ((omega arith, omega arith), ((omega arith, omega arith), tt)))

-- The tree of the file 0 is its block 2, and that of the file 1 is its block 20.
abbrev roles : ℕ → Role
roles m =
    if leb m 1
    then reserved_block
    else if m == 2
    then file_block 0 0 0
    else if m == 20
    then file_block 1 0 0
    else free_block

one_block :
    (k b o : ℕ) (c : ℕ → Block)
    → roles b ≡ file_block k 0 0
    → b ≢ 0
    → b < fs_disk_blocks
    → pre 0 o ≡ 0
    → Placed c roles fs_disk_blocks k o 0 b
one_block k b o c r z l e = Tree.leaf z l (r ∙ ap (λ q. file_block k 0 q) (sym e))

abbrev TreeOf : ℕ → Type 0
TreeOf = FileTree ramdisk_init 0 (ramdisk-IsDisk 0) fs_disk_blocks 1 fs roles

first_tree : TreeOf 0
unfolding ramdisk-IsDisk levels log_shift_r
first_tree = record {
  placed = λ o l e. one_block 0 2 o fs refl (omega arith) (omega arith) e;
  zeros = λ o l h e. absurd (omega (arith, h, pre-zero o, e));
  small = omega arith;
}

second_tree : TreeOf 1
unfolding ramdisk-IsDisk levels log_shift_r
second_tree = record {
  placed = λ o l e. one_block 1 20 o fs refl (omega arith) (omega arith) e;
  zeros = λ o l h e. absurd (omega (arith, h, pre-zero o, e));
  small = omega arith;
}

empty_tree : (k : ℕ) → k < 64 → k ≢ 0 → k ≢ 1 → TreeOf k
unfolding ramdisk-IsDisk
empty_tree k h z d =
    let first : 1 + k / 64 ≡ 1 = omega arith in
    let place : k % 64 ≡ k = omega arith in
    let no_root : inodes (2 * k) ≡ 0 = ground arith in
    let no_blocks : inodes (2 * k + 1) ≡ 0 = ground arith in
    record {
      placed = rw (first, place, no_root) (λ o l e. hole);
      zeros = rw (first, place, no_root) (λ o l h e. block_at-hole fs _ o);
      small = rw (first, place, no_blocks) (omega arith);
    }

count_up-FreeRoles : FreeRoles roles (count_up 3 13)
count_up-FreeRoles = (
  refl,
  (
    refl,
    (refl, (refl, (refl, (refl, (refl, (refl, (refl, (refl, (refl, (refl, (refl, tt))))))))))),
  ),
)

fs-Forest : Forest ramdisk_init 0 (ramdisk-IsDisk 0) fs_disk_blocks 1 fs roles (count_up 3 13)
unfolding ramdisk-IsDisk
fs-Forest = record {
  size_eq = refl;
  n_inodeblocks = refl;
  chain = 15 ∷ [];
  list = fs-FreeList;
  blocks = count_up-Blocks fs_disk_blocks 3 13 (omega arith) (omega arith);
  free_roles = count_up-FreeRoles;
  reserved = λ m h. let low : leb m 1 ≡ true = ground arith in rw low refl;
  trees = λ k h. elim (Bool-cases (k == 0)) [
    | inl e ↦ let at : 0 ≡ k = ground arith in subst TreeOf at first_tree
    | inr z ↦ elim (Bool-cases (k == 1)) [
      | inl e ↦ let at : 1 ≡ k = ground arith in subst TreeOf at second_tree
      | inr d ↦ empty_tree k (omega arith) (ground arith) (ground arith)
    ]
  ];
}

treedisk_write-WriteDone_example :
    WriteDone ramdisk_init 0 (ramdisk-IsDisk 0) fs_disk_blocks 1 fs (count_up 3 13) 0 200 (λ i. 42)
treedisk_write-WriteDone_example =
    treedisk_write-WriteDone ramdisk_init 0 (ramdisk-IsDisk 0) fs_disk_blocks 1 0 200 (λ i. 42) fs
      roles (count_up 3 13) (omega arith) (omega arith) (omega arith) (omega arith) (omega arith)
      fs-Forest
