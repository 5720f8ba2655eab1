-- ===== src/TreeDisk/Tree/Graft.antt =====
-- The walk of treedisk_write seen from the whole tree: the block is put where it belongs, and every
-- other block of the file stays what it was.
pub mod Steps
pub mod Walk
use mathlib.Core.List.{append_assoc}
use egos_project.Prelude.{
  ℕ, zero, suc, ◌<◌, ◌≤◌, ◌≡◌, ◌%◌, ◌≢◌, refl, sym, ap, subst, ◌∙◌, inl, inr, arith, true, false,
  ◌==◌, List, [], ◌∷◌, ◌++◌, length, length-append, All, Run, ok, Bool-cases, if◌then◌else◌,
}
use egos_project.TreeDisk.Store.{Block, InodeStore, IsDisk}
use egos_project.TreeDisk.Layout.{
  u32_mod, null_block, index_at, n_inodeblocks_word, free_list_word, Snapshot,
}
use egos_project.TreeDisk.Alloc.{must_write}
use egos_project.TreeDisk.Alloc.FreeList.{FreeList}
use egos_project.TreeDisk.Alloc.Allocation.{content-same, must_write-ok, HasFree}
use egos_project.TreeDisk.Access.{Parent, indirect_block, write_walk}
use egos_project.TreeDisk.Access.Way.{NotIn, Blocks}
use egos_project.TreeDisk.Access.Links.{HasFree-put, HasFree-list, Linked, Linked-put}
use egos_project.TreeDisk.Access.Walk.{
  child_of-NewChild, old-Linked, child_of-old, indirect_block-old,
}
use egos_project.TreeDisk.Tree.{
  Role, free_block, reserved_block, file_block, role_differs, Agrees, Placed, hole, leaf, node,
  Placed-agree, block_at,
}
use egos_project.TreeDisk.Tree.Digits.{pre, pre-zero, pre-up, pre-down, pre-below, index_at-pre}

-- What the blocks are for, when the block `f` is taken for `r`.
abbrev pub with_role : (f : ℕ) (r : Role) → (ℕ → Role) → ℕ → Role
with_role f r role m = if f == m then r else role m

abbrev pub FreeRoles : (ℕ → Role) → List ℕ → Type 0
FreeRoles role = All (λ m. role m ≡ free_block)

-- A block that is there for something is none of the free blocks.
pub NotIn-free :
    (role : ℕ → Role) (m : ℕ) (free : List ℕ)
    → role m ≢ free_block
    → FreeRoles role free
    → NotIn free m
NotIn-free role m [] d h = tt
NotIn-free role m (f ∷ free) d (e, h) = ((λ at. d (ap role at ∙ e)), NotIn-free role m free d h)

pub with_role-same : (f : ℕ) (r : Role) (role : ℕ → Role) → with_role f r role f ≡ r
with_role-same f r role = let here : (f == f) ≡ true = ground arith in rw here refl

pub with_role-other :
    (f : ℕ) (r : Role) (role : ℕ → Role) (m : ℕ) → m ≢ f → with_role f r role m ≡ role m
with_role-other f r role m d = let apart : (f == m) ≡ false = ground arith in rw apart refl

pub with_role-free :
    (f : ℕ) (r : Role) (role : ℕ → Role) (free : List ℕ)
    → NotIn free f
    → FreeRoles role free
    → FreeRoles (with_role f r role) free
with_role-free f r role [] d h = tt
with_role-free f r role (m ∷ free) (d, ds) (e, h) =
    (with_role-other f r role m (λ at. d (sym at)) ∙ e, with_role-free f r role free ds h)

pub level_eq : {k l q k' l' q' : ℕ} → file_block k l q ≡ file_block k' l' q' → l ≡ l'
level_eq e = cc

pub prefix_eq : {k l q k' l' q' : ℕ} → file_block k l q ≡ file_block k' l' q' → q ≡ q'
prefix_eq e = cc

pub index_at-eq : (o o' n : ℕ) → pre n o' ≡ pre n o → index_at o' n ≡ index_at o n
index_at-eq o o' n e = index_at-pre n o' ∙ ap (λ x. x % 128) e ∙ sym (index_at-pre n o)

pub block_at-hole : (c : ℕ → Block) (n o : ℕ) → block_at c n o 0 ≡ null_block
block_at-hole c zero o = refl
block_at-hole c (suc n) o = refl

-- Below a block that is there, the way goes on.
pub Placed-below :
    {c : ℕ → Block} {role : ℕ → Role} {size k o n b : ℕ}
    → b ≢ 0
    → Placed c role size k o (suc n) b
    → Placed c role size k o n (c b (index_at o n))
Placed-below z hole = absurd (z refl)
Placed-below z (node _ l r way) = way

module _ (below : InodeStore) (ino : ℕ) (disk : IsDisk below ino) (size k o : ℕ)
    (small : o < u32_mod) (block : Block) where
  -- A block that is there for nothing on the way down from `nlevels` to the block `o`.
  abbrev pub OffWay : (ℕ → Role) → (nlevels m : ℕ) → Type 0
  OffWay role nlevels m = (l : ℕ) → l ≤ nlevels → role m ≢ file_block k l (pre l o)

  -- From `s` on, the child `b` of the parent has got the block: below it, every other block of the
  -- file that starts with the same digits is what it was.
  pub record Grafted (nlevels : ℕ) (p : Parent) (s : below.State) (role : ℕ → Role) (free : List ℕ)
      (b : ℕ) (r : Run below.State) : Type 0 where
    pub after : below.State
    pub result : r ≡ ok after
    pub child : ℕ
    pub role_after : ℕ → Role
    pub taken : List ℕ
    pub free_after : List ℕ
    pub chain_after : List ℕ
    pub size_eq : below.getsize ino after ≡ size
    pub entry : disk.content after p.parent_off p.word ≡ child
    pub others : (j : ℕ) → j ≢ p.word → disk.content after p.parent_off j ≡ p.parent_block j
    pub same_inodeblocks :
        disk.content after 0 n_inodeblocks_word ≡ disk.content s 0 n_inodeblocks_word
    pub kept :
        (m : ℕ)
        → m ≢ 0
        → m ≢ p.parent_off
        → role m ≢ free_block
        → OffWay role nlevels m
        → disk.content after m ≡ disk.content s m
    pub role_kept : (m : ℕ) → role m ≢ free_block → role_after m ≡ role m
    pub split : free ≡ taken ++ free_after
    pub at_most : length taken ≤ suc nlevels
    pub free_roles : FreeRoles role_after free_after
    pub list :
        FreeList size
          (disk.content after)
          (disk.content after 0 free_list_word)
          chain_after
          free_after
    pub placed :
        (o' : ℕ)
        → o' < u32_mod
        → pre nlevels o' ≡ pre nlevels o
        → Placed (disk.content after) role_after size k o' nlevels child
    pub reads : block_at (disk.content after) nlevels o child ≡ block
    pub others_read :
        (o' : ℕ)
        → o' < u32_mod
        → o' ≢ o
        → pre nlevels o' ≡ pre nlevels o
        → block_at (disk.content after) nlevels o' child ≡ block_at (disk.content s) nlevels o' b
