-- ===== src/TreeDisk/Create/Setup.antt =====
-- setup_freelist makes a free list of all the blocks that it is given.
use egos_project.Prelude.{
  ℕ, zero, suc, ◌+◌, ◌-◌, ◌<◌, ◌≤◌, ◌≡◌, ◌≢◌, refl, subst, ◌∙◌, inl, inr, arith, ltb, List, [], ◌∷◌,
  All, All-mono, Bool-cases, Run, ok,
}
use egos_project.TreeDisk.Store.{Block, InodeStore, IsDisk}
use egos_project.TreeDisk.Alloc.Allocation.{content-other, must_write-ok, FreeList-put}
use egos_project.TreeDisk.Alloc.FreeList.{FreeList, done}
use egos_project.TreeDisk.Create.{setup_freelist_loop, setup_freelist}
use egos_project.TreeDisk.Create.ListBlock.{countdown, countdown-countdown, list_block-Listed}

-- The blocks of a round and those of the rounds behind it.
in_one :
    (next k nblocks : ℕ) (free : List ℕ)
    → next + 1 + k ≤ nblocks
    → countdown (next + 1 + k) (nblocks - (next + 1 + k)) (countdown next (1 + k) free)
      ≡ countdown next (nblocks - next) free
in_one next k nblocks free h =
    let low : next + 1 + k ≡ next + (1 + k) = omega arith in
    let all : 1 + k + (nblocks - (next + (1 + k))) ≡ nblocks - next = omega arith in
    rw low (countdown-countdown next (1 + k) (nblocks - (next + (1 + k))) free ∙ rw all refl)

module _ (below : InodeStore) (ino : ℕ) (disk : IsDisk below ino) (size : ℕ) where
  -- The outcome of a setup of the blocks from `next` on, after which the list holds `free`: no
  -- block before `next` has changed.
  pub record Built (low next : ℕ) (free : List ℕ) (s : below.State) (r : Run (ℕ × below.State))
      : Type 0 where
    pub first : ℕ
    pub after : below.State
    pub chain : List ℕ
    pub result : r ≡ ok (first, after)
    pub size_eq : below.getsize ino after ≡ size
    pub list : FreeList size (disk.content after) first chain free
    pub above : All (λ n. low ≤ n) chain
    pub before : (n : ℕ) → n < next → disk.content after n ≡ disk.content s n

  setup_freelist_loop-Built :
      (fuel low before next nblocks : ℕ) (old : Block) (s : below.State) (chain free : List ℕ)
      → nblocks - next ≤ fuel
      → 0 < next
      → next ≤ nblocks
      → nblocks ≤ size
      → below.getsize ino s ≡ size
      → FreeList size (disk.content s) before chain free
      → All (λ n. n < next) chain
      → low ≤ next
      → All (λ n. low ≤ n) chain
      → Built low next
          (countdown next (nblocks - next) free)
          s
          (setup_freelist_loop below ino fuel before next nblocks old s)
  unfolding setup_freelist_loop
  setup_freelist_loop-Built zero low before next nblocks old s chain free enough pos l fits e list
        under lo above =
      let all : nblocks - next ≡ 0 = omega arith in
      record {
        first = before;
        after = s;
        chain = chain;
        result = refl;
        size_eq = e;
        list = rw all list;
        above = above;
        before = λ n h. refl;
      }
  setup_freelist_loop-Built (suc fuel) low before next nblocks old s chain free enough pos l fits e
        list under lo above =
      elim (Bool-cases (ltb next nblocks)) [
        | inr over ↦
            let all : nblocks - next ≡ 0 = ground arith in
            record {
              first = before;
              after = s;
              chain = chain;
              result = rw (setup_freelist_loop, over) refl;
              size_eq = e;
              list = rw all list;
              above = above;
              before = λ n h. refl;
            }
        | inl more ↦
            let room : next < nblocks = ground arith in
            let r = list_block-Listed next nblocks before old room in
            let s' = disk.put next r.new s in
            let written = must_write-ok below ino disk next r.new s (omega (arith, e)) in
            let bound = r.bounded in
            let apart =
              All-mono (λ n. n < next) (λ n. n ≢ next) chain (λ n h x. absurd (omega arith))
                under in
            let grown =
              FreeList-put below ino disk size next before r.new s chain free
                (λ x. absurd (omega arith)) (omega arith) r.next_list apart list in
            let rest =
              setup_freelist_loop-Built fuel low next (next + 1 + r.count) nblocks r.new s'
                (next ∷ chain) (countdown next (1 + r.count) free) (omega arith) (omega arith) bound
                fits (disk.size_law next r.new s ∙ e)
                (subst (FreeList size (disk.content s') next (next ∷ chain)) (r.refs free) grown)
                (omega arith, All-mono _ _ chain (λ n h. omega arith) under) (omega arith)
                (lo, above) in
            record {
              first = rest.first;
              after = rest.after;
              chain = rest.chain;
              result = rw (setup_freelist_loop, more, r.result, written) rest.result;
              size_eq = rest.size_eq;
              list =
                  subst (FreeList size (disk.content rest.after) rest.first rest.chain)
                    (in_one next r.count nblocks free bound) rest.list;
              above = rest.above;
              before = λ n h.
                  rest.before n (omega arith)
                  ∙ content-other below ino disk next r.new s n λ x. absurd (omega arith);
            }
      ]

  -- On a disk with room, setup_freelist makes a free list that holds exactly the blocks from
  -- `next` on below `nblocks`, each once, the last one first, in blocks of its own among them.
  pub setup_freelist-Built :
      (next nblocks : ℕ) (old : Block) (s : below.State)
      → 0 < next
      → next ≤ nblocks
      → nblocks ≤ size
      → below.getsize ino s ≡ size
      → Built next next
          (countdown next (nblocks - next) [])
          s
          (setup_freelist below ino next nblocks old s)
  unfolding setup_freelist
  setup_freelist-Built next nblocks old s pos l fits e =
      setup_freelist_loop-Built nblocks next 0 next nblocks old s [] [] (omega arith) pos l fits e
        done tt (omega arith) tt
