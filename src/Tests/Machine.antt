-- ===== src/Tests/Machine.antt =====
-- The theorems on the page allocator, at a fresh map of 1148 pages.
use egos_project.Prelude.{
  ℕ, ◌<◌, ◌≡◌, refl, ◌⊎◌, arith, true, false, List, ◌∷◌, ◌==◌, if◌then◌else◌, replicate, Run, ok,
  fatal, no_more_page,
}
use egos_project.Bitmap.{bit_set, bit_test}
use egos_project.Bitmap.Bytes.{test_bit}
use egos_project.Bitmap.Laws.{bit_at}
use egos_project.Earth.PageAlloc.{Pages, Alloc, pageid2paddr, pmalloc, pfree}
use egos_project.Earth.PageAlloc.Laws.{
  IsMap, Allocated, page_addr, pmalloc-Allocated, pfree_lem, pfree-pmalloc,
}

abbrev map0 : List ℕ
map0 = 7 ∷ replicate 143 0

abbrev pub pages0 : Pages
pages0 = record { bitmap = map0; mem = λ a. 9 }

pages0-IsMap : IsMap pages0.bitmap
pages0-IsMap = record { bytes = omega arith; size = omega arith }

pmalloc-Allocated_example :
    Allocated true pages0 (pmalloc true pages0)
    ⊎ ((pmalloc true pages0 ≡ fatal no_more_page)
        × ((j : ℕ) → j < 1148 → bit_at pages0.bitmap j ≡ true))
pmalloc-Allocated_example = pmalloc-Allocated true pages0 pages0-IsMap

abbrev alloc_of : Run Alloc → Alloc
alloc_of (ok r) = r
alloc_of _ = (0, pages0)

allocates : pmalloc true pages0 ≡ ok (page_addr 3, (alloc_of (pmalloc true pages0)).1)
unfolding pmalloc bit_test bit_set pageid2paddr test_bit
allocates = refl

pfree_lem_example :
    (s' : Pages) × (pfree (page_addr 2) pages0 ≡ ok s')
    × IsMap s'.bitmap
    × ((j : ℕ) → bit_at s'.bitmap j ≡ (if 2 == j then false else bit_at pages0.bitmap j))
    × (s'.mem ≡ pages0.mem)
pfree_lem_example = pfree_lem pages0 2 pages0-IsMap (omega arith)

pfree-pmalloc_example :
    (s2 : Pages) × (pfree (page_addr 3) (alloc_of (pmalloc true pages0)).1 ≡ ok s2)
    × ((j : ℕ) → bit_at s2.bitmap j ≡ bit_at pages0.bitmap j)
    × (s2.mem ≡ (alloc_of (pmalloc true pages0)).1.mem)
pfree-pmalloc_example =
    pfree-pmalloc true pages0 (alloc_of (pmalloc true pages0)).1 (page_addr 3) pages0-IsMap
      allocates
