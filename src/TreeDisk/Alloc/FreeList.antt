-- ===== src/TreeDisk/Alloc/FreeList.antt =====
-- The free list of a tree disk as the list of the blocks that are free.
use egos_project.Prelude.{
  ℕ, zero, suc, ◌-◌, ◌<◌, ◌≤◌, ◌≡◌, ◌≢◌, refl, sym, ap, subst, ◌⊎◌, inl, inr, arith, false, ◌==◌,
  if◌then◌else◌, List, [], ◌∷◌, ◌++◌, All, Bool-cases,
}
use egos_project.TreeDisk.Store.{Block}
use egos_project.TreeDisk.Layout.{refs_per_block, set_word}
use egos_project.TreeDisk.Alloc.{scan_down}

-- The references in the slots `k` to 1 that are not empty, from the last one down.
unfoldable pub free_refs : ℕ → Block → List ℕ
free_refs zero b = []
free_refs (suc i) b = if b (suc i) == 0 then free_refs i b else b (suc i) ∷ free_refs i b

-- On a disk of `size` blocks with the contents `c`, the list that starts at a block runs through
-- the blocks of `chain` and holds the free blocks of the last argument, in the order in which they
-- are taken: the references of a list block, then the list block itself.
pub data FreeList (size : ℕ) (c : ℕ → Block) : ℕ → List ℕ → List ℕ → Type 0 where
  done : FreeList size c 0 [] []
  link :
      {b : ℕ} {chain free : List ℕ}
      → b ≢ 0
      → b < size
      → All (λ n. n ≢ b) chain
      → FreeList size c (c b 0) chain free
      → FreeList size c b (b ∷ chain) (free_refs (refs_per_block - 1) (c b) ++ (b ∷ free))

-- Only the chain's blocks matter.
pub FreeList-agree :
    {size : ℕ} {c c' : ℕ → Block} {b : ℕ} {chain free : List ℕ}
    → FreeList size c b chain free
    → All (λ n. c' n ≡ c n) chain
    → FreeList size c' b chain free
FreeList-agree done h = done
FreeList-agree {size = size} {c' = c'} {b = b} (link {chain = chain} {free = free} z l new rest)
      (e, h) =
    let Tail : Block → Type 0 = λ blk. FreeList size c' (blk 0) chain free in
    let Whole : Block → Type 0 =
      λ blk. FreeList size c' b (b ∷ chain) (free_refs (refs_per_block - 1) blk ++ (b ∷ free)) in
    subst Whole e (link z l new (subst Tail (sym e) (FreeList-agree rest h)))

free_refs-agree :
    (k : ℕ) (b b' : Block) → ((i : ℕ) → 0 < i → i ≤ k → b' i ≡ b i) → free_refs k b' ≡ free_refs k b
unfolding free_refs
free_refs-agree zero b b' h = refl
free_refs-agree (suc k) b b' h =
    let rest = free_refs-agree k b b' (λ i p q. h i p (omega arith)) in
    rw (h (suc k) (omega arith) (omega arith), rest) refl

-- What the scan finds: nothing, or the slot of the first reference, without which the others stay.
pub scan_down-free_refs :
    (k : ℕ) (b : Block)
    → ((scan_down k b ≡ 0) × (free_refs k b ≡ []))
      ⊎ ((i : ℕ) × (scan_down k b ≡ suc i)
          × (i < k)
          × (free_refs k b ≡ b (suc i) ∷ free_refs k (set_word (suc i) 0 b)))
unfolding scan_down free_refs
scan_down-free_refs zero b = inl (refl, refl)
scan_down-free_refs (suc k) b = elim (Bool-cases (b (suc k) == 0)) [
  | inl empty ↦ elim (scan_down-free_refs k b) [
    | inl (e, nothing) ↦ inl (rw empty e, rw empty nothing)
    | inr (i, e, l, first) ↦
        let other : (suc i == suc k) ≡ false = ground arith in
        inr (i, rw empty e, omega arith, rw (other, empty) first)
  ]
  | inr here ↦
      let same = free_refs-agree k b (set_word (suc k) 0 b) λ i p q. ground arith in
      inr (k, rw here refl, omega arith, rw here (ap (λ refs. b (suc k) ∷ refs) (without k b same)))
]
  where
    without :
        (k : ℕ) (b : Block)
        → free_refs k (set_word (suc k) 0 b) ≡ free_refs k b
        → free_refs k b ≡ free_refs (suc k) (set_word (suc k) 0 b)
    without k b same = ground (arith, same)

-- The blocks of the chain lie on the disk, and none is the superblock.
pub FreeList-nonzero :
    {size : ℕ} {c : ℕ → Block} {b : ℕ} {chain free : List ℕ}
    → FreeList size c b chain free
    → All (λ n. n ≢ 0) chain
FreeList-nonzero done = tt
FreeList-nonzero (link z l new rest) = (z, FreeList-nonzero rest)
