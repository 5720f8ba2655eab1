-- ===== src/TreeDisk/Access/Way.antt =====
-- The blocks on the way from a file's root down to one of its blocks, and lists of different blocks.
use egos_project.Prelude.{ℕ, suc, ◌-◌, ◌<◌, ◌≡◌, ◌≢◌, sym, subst, List, [], ◌∷◌, ◌++◌, All}
use egos_project.TreeDisk.Store.{Block}
use egos_project.TreeDisk.Layout.{refs_per_block, index_at}
use egos_project.TreeDisk.Alloc.FreeList.{free_refs, FreeList, done, link}

-- The way to the block `offset` from block `b`, with `nlevels` levels below it, on a disk with the
-- contents `c`. It ends at the block, or before at a hole.
pub data Way (c : ℕ → Block) (offset : ℕ) : ℕ → ℕ → List ℕ → Type 0 where
  hole : {nlevels : ℕ} → Way c offset nlevels 0 []
  leaf : {b : ℕ} → b ≢ 0 → Way c offset 0 b (b ∷ [])
  node :
      {nlevels b : ℕ} {blocks : List ℕ}
      → b ≢ 0
      → Way c offset nlevels (c b (index_at offset nlevels)) blocks
      → Way c offset (suc nlevels) b (b ∷ blocks)

pub Way-agree :
    {c c' : ℕ → Block} {offset nlevels b : ℕ} {blocks : List ℕ}
    → Way c offset nlevels b blocks
    → All (λ n. c' n ≡ c n) blocks
    → Way c' offset nlevels b blocks
Way-agree hole h = hole
Way-agree (leaf z) h = leaf z
Way-agree {c' = c'} {offset = offset} {b = b} (node {nlevels = nlevels} {blocks = blocks} z below)
      (e, h) =
    let Next : Block → Type 0 =
      λ blk. Way c' offset nlevels (blk (index_at offset nlevels)) blocks in
    node z (subst Next (sym e) (Way-agree below h))

-- A block that is none of a list.
abbrev pub NotIn : List ℕ → ℕ → Type 0
NotIn xs n = All (λ m. n ≢ m) xs

-- Different blocks on a disk of `size` blocks, none of them the superblock.
abbrev pub Blocks : (size : ℕ) → List ℕ → Type 0
Blocks size [] = Unit
Blocks size (n ∷ ns) = ((n ≢ 0) × (n < size) × NotIn ns n) × Blocks size ns

pub All-append : (P : ℕ → Type 0) (xs ys : List ℕ) → All P (xs ++ ys) → All P xs × All P ys
All-append P [] ys h = (tt, h)
All-append P (x ∷ xs) ys (p, h) = let (left, right) = All-append P xs ys h in ((p, left), right)

pub append-All : (P : ℕ → Type 0) (xs ys : List ℕ) → All P xs → All P ys → All P (xs ++ ys)
append-All P [] ys h k = k
append-All P (x ∷ xs) ys (p, h) k = (p, append-All P xs ys h k)

-- The blocks of the first list are other than those of the second.
pub Blocks-apart :
    (size : ℕ) (xs ys : List ℕ) → Blocks size (xs ++ ys) → All (λ n. (n ≢ 0) × NotIn ys n) xs
Blocks-apart size [] ys h = tt
Blocks-apart size (x ∷ xs) ys ((z, l, new), h) =
    ((z, (All-append (λ m. x ≢ m) xs ys new).1), Blocks-apart size xs ys h)

pub Blocks-right : (size : ℕ) (xs ys : List ℕ) → Blocks size (xs ++ ys) → Blocks size ys
Blocks-right size [] ys h = h
Blocks-right size (x ∷ xs) ys (_, h) = Blocks-right size xs ys h

-- A block in the middle can stand in front.
pub Blocks-front :
    (size : ℕ) (xs : List ℕ) (y : ℕ) (zs : List ℕ)
    → Blocks size (xs ++ (y ∷ zs))
    → Blocks size (y ∷ (xs ++ zs))
Blocks-front size [] y zs h = h
Blocks-front size (x ∷ xs) y zs ((z, l, new), h) =
    let ((yz, yl, others), rest) = Blocks-front size xs y zs h in
    let (left, (differs, right)) = All-append (λ m. x ≢ m) xs (y ∷ zs) new in
    (
      (yz, yl, ((λ e. differs (sym e)), others)),
      ((z, l, append-All (λ m. x ≢ m) xs zs left right), rest),
    )

-- The same behind a first block, and without the blocks before it.
pub Blocks-second :
    (size x : ℕ) (xs : List ℕ) (y : ℕ) (zs : List ℕ)
    → Blocks size (x ∷ (xs ++ (y ∷ zs)))
    → Blocks size (x ∷ (y ∷ (xs ++ zs))) × Blocks size (x ∷ (y ∷ zs))
Blocks-second size x xs y zs ((z, l, new), h) =
    let (left, (differs, right)) = All-append (λ m. x ≢ m) xs (y ∷ zs) new in
    (
      ((z, l, (differs, append-All (λ m. x ≢ m) xs zs left right)), Blocks-front size xs y zs h),
      ((z, l, (differs, right)), Blocks-right size xs (y ∷ zs) h),
    )

-- The blocks that make up a free list are free.
pub chain-All :
    (P : ℕ → Type 0) {size : ℕ} {c : ℕ → Block} {b : ℕ} {chain free : List ℕ}
    → FreeList size c b chain free
    → All P free
    → All P chain
chain-All P done h = tt
chain-All P {c = c} {b = b} (link {free = free} z l new rest) h =
    let (p, others) = (All-append P (free_refs (refs_per_block - 1) (c b)) (b ∷ free) h).1 in
    (p, chain-All P rest others)
