-- ===== src/Earth/PageAlloc.antt =====
-- earth/page_alloc.c: the allocator of physical pages, over a bit map with one bit for a page.
pub mod Laws
use egos_project.Prelude.{
  ℕ, zero, suc, ◌+◌, ◌-◌, ◌*◌, ◌/◌, ◌%◌, Bool, true, false, List, ◌==◌, ltb, if◌then◌else◌, Run, ok,
  fatal, no_more_page, assert, ◌>>=◌, ◌>>◌,
}
use egos_project.Machine.{page_size, free_mem_start, free_mem_end}
use egos_project.Machine.Memory.{Memory, memset}
use egos_project.Bitmap.{bit_set, bit_clear, bit_test}

abbrev pub removed_pages : ℕ
removed_pages = 900

abbrev pub npages : ℕ
npages = (free_mem_end - free_mem_start) / page_size - removed_pages

-- ROUNDUP
abbrev pub roundup : ℕ → ℕ → ℕ
roundup x y = if x % y == 0 then x / y else (x + y - 1) / y

unfoldable pub pageid2paddr : ℕ → Run ℕ
pageid2paddr pageid = do assert (ltb pageid npages); ok (free_mem_start + pageid * page_size)

-- The subtraction wraps at 32 bits. The quotient is below 2 ^ 20, so the `int` is not negative.
unfoldable pub paddr2pageid : ℕ → Run ℕ
paddr2pageid paddr = do
  assert (paddr % page_size == 0)
  let pageid = ((paddr + 0x1_0000_0000 - free_mem_start) % 0x1_0000_0000) / page_size
  assert (ltb pageid npages)
  ok pageid

-- The allocator's bit map, and the memory that holds the pages.
pub record Pages : Type 0 where
  pub bitmap : List ℕ
  pub mem : Memory

-- A page's address, and the state that `pmalloc` leaves.
abbrev pub Alloc : Type 0
Alloc = ℕ × Pages

-- The body of the loop of `pmalloc` at a free page `i`.
take_page : ℕ → Bool → Pages → Run Alloc
take_page i clear_page s = do
  map ← bit_set s.bitmap i
  ret ← pageid2paddr i
  ok (
    ret,
    record { bitmap = map; mem = if clear_page then memset ret 0 page_size s.mem else s.mem },
  )

-- The loop, with `left` rounds to go from index `i`.
pmalloc_from : ℕ → ℕ → Bool → Pages → Run Alloc
unfolding take_page
pmalloc_from zero i clear_page s = fatal no_more_page
pmalloc_from (suc left) i clear_page s = do
  used ← bit_test s.bitmap i
  elim used [ true ↦ pmalloc_from left (i + 1) clear_page s | false ↦ take_page i clear_page s ]

unfoldable pub pmalloc : Bool → Pages → Run Alloc
unfolding pmalloc_from
pmalloc clear_page s = pmalloc_from npages 0 clear_page s

unfoldable pub pfree : ℕ → Pages → Run Pages
pfree paddr s = do
  pageid ← paddr2pageid paddr
  map ← bit_clear s.bitmap pageid
  ok (record s { bitmap = map })
