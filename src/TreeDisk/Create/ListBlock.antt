-- ===== src/TreeDisk/Create/ListBlock.antt =====
-- The contents of a block of the free list that setup_freelist makes.
use egos_project.Prelude.{
  ℕ, zero, suc, ◌+◌, ◌-◌, ◌<◌, ◌≤◌, ◌≡◌, refl, sym, ap, ◌∙◌, inl, inr, arith, false, ltb, ◌==◌,
  List, ◌∷◌, ◌++◌, Bool-cases,
}
use egos_project.TreeDisk.Store.{Block}
use egos_project.TreeDisk.Layout.{refs_per_block, set_word}
use egos_project.TreeDisk.Create.{fill, clear_slots, list_block}
use egos_project.TreeDisk.Alloc.FreeList.{free_refs}

-- The `n` numbers from `low` on, the last one first, before `rest`.
abbrev pub countdown : ℕ → ℕ → List ℕ → List ℕ
countdown low zero rest = rest
countdown low (suc n) rest = (low + n) ∷ countdown low n rest

pub countdown-countdown :
    (low k n : ℕ) (rest : List ℕ)
    → countdown (low + k) n (countdown low k rest) ≡ countdown low (k + n) rest
countdown-countdown low k zero rest = let e : k + 0 ≡ k = omega arith in rw e refl
countdown-countdown low k (suc n) rest =
    let e : k + suc n ≡ suc (k + n) = omega arith in
    let a : low + k + n ≡ low + (k + n) = omega arith in
    rw (e, a) (ap (λ xs. (low + (k + n)) ∷ xs) (countdown-countdown low k n rest))

same_triple :
    {i i' n n' : ℕ} {b : Block} → i ≡ i' → n ≡ n' → ◌≡◌ {A = ℕ × ℕ × Block} (i, n, b) (i', n', b)
same_triple e e' = cc

-- `fill` has put `count` numbers from `next` on into the slots from `i` on.
pub record Filled (left i next nblocks : ℕ) (old : Block) : Type 0 where
  pub count : ℕ
  pub new : Block
  pub result : fill left i next nblocks old ≡ (i + count, next + count, new)
  pub fits : count ≤ left
  pub bounded : next + count ≤ nblocks
  pub before : (j : ℕ) → j < i → new j ≡ old j
  pub slots : (j : ℕ) → j < count → new (i + j) ≡ next + j

pub fill-Filled :
    (left i next nblocks : ℕ) (old : Block) → next ≤ nblocks → Filled left i next nblocks old
unfolding fill
fill-Filled zero i next nblocks old h = record {
  count = 0;
  new = old;
  result = same_triple (omega arith) (omega arith);
  fits = omega arith;
  bounded = omega arith;
  before = λ j p. refl;
  slots = λ j p. absurd (omega arith);
}
fill-Filled (suc left) i next nblocks old h = elim (Bool-cases (ltb next nblocks)) [
  | inr full ↦ record {
    count = 0;
    new = old;
    result = rw (fill, full) (same_triple (omega arith) (omega arith));
    fits = omega arith;
    bounded = omega arith;
    before = λ j p. refl;
    slots = λ j p. absurd (omega arith);
  }
  | inl some_left ↦
      let rest = fill-Filled left (i + 1) (next + 1) nblocks (set_word i next old) (ground arith) in
      let fits' = rest.fits in
      let bounded' = rest.bounded in
      record {
        count = suc rest.count;
        new = rest.new;
        result = rw (fill, some_left, rest.result) (same_triple (omega arith) (omega arith));
        fits = omega arith;
        bounded = omega arith;
        before = λ j p. let e = rest.before j (omega arith) in ground (arith, e);
        slots = λ j p. elim (Bool-cases (j == 0)) [
          | inl first ↦
              let at : i + j ≡ i = ground arith in
              let e = rest.before i (omega arith) in ground (arith, e, at)
          | inr later ↦
              let e = rest.slots (j - 1) (ground arith) in
              let at : i + 1 + (j - 1) ≡ i + j = ground arith in
              let to : next + 1 + (j - 1) ≡ next + j = ground arith in sym (ap rest.new at) ∙ e ∙ to
        ];
      }
]

pub clear_slots-word :
    (left i : ℕ) (b : Block) (j : ℕ)
    → (j < i → clear_slots left i b j ≡ b j) × (i ≤ j → j < i + left → clear_slots left i b j ≡ 0)
unfolding clear_slots
clear_slots-word zero i b j = (λ _. refl, λ p q. absurd (omega arith))
clear_slots-word (suc left) i b j =
    let (below, inside) = clear_slots-word left (i + 1) (set_word i 0 b) j in
    (
      λ p. let e = below (omega arith) in ground (arith, e),
      λ p q. elim (Bool-cases (i == j)) [
        | inl here ↦ let e = below (ground arith) in ground (arith, e)
        | inr other ↦ inside (ground arith) (omega arith)
      ],
    )

-- The references of a block whose first slots count up from `low` and whose others are empty.
free_refs-countdown :
    (m low k : ℕ) (b : Block) (rest : List ℕ)
    → 0 < low
    → k ≤ m
    → ((j : ℕ) → j < k → b (1 + j) ≡ low + j)
    → ((j : ℕ) → k < j → j ≤ m → b j ≡ 0)
    → free_refs m b ++ rest ≡ countdown low k rest
unfolding free_refs
free_refs-countdown zero low k b rest h l slots empty = let e : k ≡ 0 = omega arith in rw e refl
free_refs-countdown (suc m) low k b rest h l slots empty = elim (Bool-cases (k == suc m)) [
  | inl all ↦
      let e : k ≡ suc m = ground arith in
      let top : b (1 + m) ≡ low + m = slots m (omega arith) in
      let at : b (suc m) ≡ low + m = ap b (omega arith) ∙ top in
      let some_ref : (low + m == 0) ≡ false = ground arith in
      let fewer =
        free_refs-countdown m low m b rest h (omega arith) (λ j p. slots j (omega arith))
          (λ j p q. absurd (omega arith)) in
      rw (e, at, some_ref) (ap (λ xs. (low + m) ∷ xs) fewer)
  | inr less ↦
      let none_here : b (suc m) ≡ 0 = empty (suc m) (ground arith) (omega arith) in
      rw none_here
        (free_refs-countdown m low k b rest h (ground arith) slots λ j p q. empty j p (omega arith))
]

one_more :
    (base k : ℕ) (free : List ℕ)
    → countdown (base + 1) k (base ∷ free) ≡ countdown base (1 + k) free
one_more base k free =
    let z : base + 0 ≡ base = omega arith in
    let e : countdown base 1 free ≡ base ∷ free = rw z refl in
    sym (ap (λ xs. countdown (base + 1) k xs) e) ∙ countdown-countdown base 1 k free

-- A round of setup_freelist: the block `base` refers to the `count` blocks behind it.
pub record Listed (base nblocks before : ℕ) (old : Block) : Type 0 where
  pub count : ℕ
  pub new : Block
  pub result : list_block before base nblocks old ≡ (base + 1 + count, new)
  pub bounded : base + 1 + count ≤ nblocks
  pub next_list : new 0 ≡ before
  pub refs :
      (free : List ℕ)
      → free_refs (refs_per_block - 1) new ++ (base ∷ free) ≡ countdown base (1 + count) free

pub list_block-Listed :
    (base nblocks before : ℕ) (old : Block) → base < nblocks → Listed base nblocks before old
unfolding list_block
list_block-Listed base nblocks before old h =
    let start = set_word 0 before old in
    let r = fill-Filled 127 1 (base + 1) nblocks start (omega arith) in
    let k = r.count in
    let fits = r.fits in
    let new = clear_slots (refs_per_block - (1 + k)) (1 + k) r.new in
    let word : (j : ℕ)
        → (j < 1 + k → new j ≡ r.new j)
          × (1 + k ≤ j → j < 1 + k + (refs_per_block - (1 + k)) → new j ≡ 0) =
      clear_slots-word (refs_per_block - (1 + k)) (1 + k) r.new in
    record {
      count = k;
      new = new;
      result = rw r.result refl;
      bounded = r.bounded;
      next_list = (word 0).0 (omega arith) ∙ r.before 0 (omega arith);
      refs = λ free.
          free_refs-countdown 127 (base + 1) k new (base ∷ free) (omega arith) fits
            (λ j p. (word (1 + j)).0 (omega arith) ∙ r.slots j p)
            (λ j p q. (word j).1 (omega arith) (omega arith))
          ∙ one_more base k free;
    }
