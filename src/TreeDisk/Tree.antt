-- ===== src/TreeDisk/Tree.antt =====
-- The trees of all files of a tree disk: what each block of the disk is for, and what a file holds.
pub mod Digits
pub mod Graft
pub mod Raise
pub mod Forest
pub mod Start
pub mod Write
use egos_project.Prelude.{
  ℕ, zero, suc, ◌+◌, ◌<◌, ◌≤◌, ◌≡◌, ◌≢◌, refl, sym, ap, subst, ◌∙◌, arith, false, ◌==◌,
  if◌then◌else◌, some, ok,
}
use egos_project.TreeDisk.Store.{Block, InodeStore, IsDisk}
use egos_project.TreeDisk.Layout.{null_block, index_at}
use egos_project.TreeDisk.Access.{read_walk}
use Digits.{pre}

-- A block is free, the superblock or one of the inodes', or the block of a file's tree that stands
-- `level` levels above the file's blocks whose numbers start with `prefix`.
pub data Role : Type 0 where
  free_block reserved_block : Role
  file_block : (inode_no level prefix : ℕ) → Role

-- A block of a file is for nothing else, and so is a reserved one.
abbrev IsUsed : Role → Type 0
IsUsed (file_block _ _ _) = Unit
IsUsed _ = ⊥

pub role_differs : {k l q : ℕ} {r : Role} → file_block k l q ≡ r → IsUsed r
role_differs e = subst IsUsed e tt

abbrev IsSystem : Role → Type 0
IsSystem reserved_block = Unit
IsSystem _ = ⊥

pub inode_differs : {r : Role} → reserved_block ≡ r → IsSystem r
inode_differs e = subst IsSystem e tt

-- The way to the block `o` of the file `k` goes through blocks that are there for it.
pub data Placed (c : ℕ → Block) (role : ℕ → Role) (size k o : ℕ) : ℕ → ℕ → Type 0 where
  hole : {nlevels : ℕ} → Placed c role size k o nlevels 0
  leaf : {b : ℕ} → b ≢ 0 → b < size → role b ≡ file_block k 0 (pre 0 o) → Placed c role size k o 0 b
  node :
      {nlevels b : ℕ}
      → b ≢ 0
      → b < size
      → role b ≡ file_block k (suc nlevels) (pre (suc nlevels) o)
      → Placed c role size k o nlevels (c b (index_at o nlevels))
      → Placed c role size k o (suc nlevels) b

-- What stands at the end of the way; a hole is a block of zeros.
abbrev pub block_at : (c : ℕ → Block) (nlevels o b : ℕ) → Block
block_at c zero o b = if b == 0 then null_block else c b
block_at c (suc nlevels) o b =
    if b == 0 then null_block else block_at c nlevels o (c b (index_at o nlevels))

-- The blocks of the way are the same in the contents `c'`, and there for the same.
abbrev pub Agrees : (c c' : ℕ → Block) (role role' : ℕ → Role) (k o nlevels : ℕ) → Type 0
Agrees c c' role role' k o nlevels =
    (m l : ℕ) → l ≤ nlevels → role m ≡ file_block k l (pre l o) → (c' m ≡ c m) × (role' m ≡ role m)

pub Placed-agree :
    {c c' : ℕ → Block} {role role' : ℕ → Role} {size k o nlevels b : ℕ}
    → Placed c role size k o nlevels b
    → Agrees c c' role role' k o nlevels
    → Placed c' role' size k o nlevels b × (block_at c' nlevels o b ≡ block_at c nlevels o b)
Placed-agree {nlevels = zero} hole a = (hole, refl)
Placed-agree {nlevels = suc nlevels} hole a = (hole, refl)
Placed-agree {b = b} (leaf z l r) a =
    let (same, kept) = a b 0 (omega arith) r in
    let some_block : (b == 0) ≡ false = ground arith in (leaf z l (kept ∙ r), rw some_block same)
Placed-agree {c' = c'} {role' = role'} {size = size} {k = k} {o = o} {b = b}
      (node {nlevels = nlevels} z l r below) a =
    let (same, kept) = a b (suc nlevels) (omega arith) r in
    let some_block : (b == 0) ≡ false = ground arith in
    let (placed, reads) = Placed-agree below (λ m l' h e. a m l' (omega arith) e) in
    let word = ap (λ (x : Block). x (index_at o nlevels)) same in
    (
      node z l (kept ∙ r) (subst (λ n. Placed c' role' size k o nlevels n) (sym word) placed),
      rw (some_block, word) reads,
    )

module _ (below : InodeStore) (ino : ℕ) (disk : IsDisk below ino) (size : ℕ) where
  pub read_walk-block_at :
      (s : below.State) {role : ℕ → Role} {k o nlevels b : ℕ}
      → below.getsize ino s ≡ size
      → Placed (disk.content s) role size k o nlevels b
      → read_walk below ino nlevels o b s ≡ ok (some (block_at (disk.content s) nlevels o b))
  unfolding read_walk
  read_walk-block_at s {nlevels = zero} e hole = refl
  read_walk-block_at s {nlevels = suc nlevels} e hole = refl
  read_walk-block_at s {b = b} e (leaf z l r) =
      let some_block : (b == 0) ≡ false = ground arith in
      rw (some_block, disk.read_law b s (omega (arith, e))) refl
  read_walk-block_at s {b = b} e (node z l r next) =
      let some_block : (b == 0) ≡ false = ground arith in
      rw (some_block, disk.read_law b s (omega (arith, e))) (read_walk-block_at s e next)
