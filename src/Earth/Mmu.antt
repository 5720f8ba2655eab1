-- ===== src/Earth/Mmu.antt =====
-- earth/cpu_mmu.c: the software TLB. Every process sees its pages at the same addresses, so a
-- switch copies the running process's pages back to its private ones and the next one's out.
pub mod Rows
pub mod Isolation
use egos_project.Prelude.{
  ℕ, ◌+◌, ◌/◌, ◌%◌, Bool, true, false, not, ◌&&◌, List, [], ◌∷◌, Option, none, some, ◌==◌, ltb, leb,
  if◌then◌else◌, get_elem?, set, replicate, Run, ok, fatal, undefined, too_many_mappings, assert,
  ◌>>=◌, ◌>>◌,
}
use egos_project.Machine.{page_size, apps_size, max_nprocess}
use egos_project.Machine.Memory.{Memory, memcpy}
use egos_project.Earth.PageAlloc.{Pages, pmalloc, pfree}

-- page_mapping; the address 0 is NULL.
pub record Mapping : Type 0 where
  pub private_addr : ℕ
  pub exec_addr : ℕ

-- APPS_NPAGES
abbrev pub apps_npages : ℕ
apps_npages = apps_size / page_size + 2

abbrev pub no_mapping : Mapping
no_mapping = record { private_addr = 0; exec_addr = 0 }

-- The allocator's state, `app_pages`, and `curr_vm_pid` of `soft_tlb_switch`, where `none` is -1.
pub record Mmu : Type 0 where
  pub pages : Pages
  pub open pages use *
  pub app_pages : List (List Mapping)
  pub curr_vm_pid : Option ℕ

-- app_pages[pid]. The array has MAX_NPROCESS rows.
unfoldable pub row_of : ℕ → Mmu → Run (List Mapping)
row_of pid s = elim (get_elem? s.app_pages pid) [ none ↦ undefined | some row ↦ ok row ]

abbrev pub valid_pid : ℕ → Bool
valid_pid pid = ltb 0 pid && leb pid max_nprocess

unfoldable pub mmu_alloc : Mmu → Run (ℕ × Mmu)
mmu_alloc s = do (addr, pages) ← pmalloc true s.pages; ok (addr, record s { pages = pages })

-- The body of the loop of `soft_tlb_free`.
free_slot : Mapping → Pages → Run (Mapping × Pages)
free_slot m p =
    if m.private_addr == 0 then ok (m, p) else do p' ← pfree m.private_addr p; ok (no_mapping, p')

unfoldable pub free_row : List Mapping → Pages → Run (List Mapping × Pages)
unfolding free_slot
free_row [] p = ok ([], p)
free_row (m ∷ ms) p = do (m', p') ← free_slot m p; (ms', p'') ← free_row ms p'; ok (m' ∷ ms', p'')

unfoldable pub soft_tlb_free : ℕ → Mmu → Run Mmu
unfolding free_row row_of
soft_tlb_free pid s = do
  assert (valid_pid pid)
  row ← row_of pid s
  (row', p) ← free_row row s.pages
  ok (record s { pages = p; app_pages = set s.app_pages pid row' })

-- The loop of `soft_tlb_map`: the first slot with no page takes the mapping.
unfoldable pub map_row : (dst src : ℕ) → List Mapping → Run (List Mapping)
map_row dst src [] = fatal too_many_mappings
map_row dst src (m ∷ ms) =
    let rest = map_row dst src ms in
    if m.private_addr == 0
    then ok (record { private_addr = src; exec_addr = dst } ∷ ms)
    else do ms' ← rest; ok (m ∷ ms')

unfoldable pub soft_tlb_map : (pid dst src : ℕ) → Mmu → Run Mmu
unfolding row_of
soft_tlb_map pid dst src s = do
  assert (valid_pid pid)
  assert (src % page_size == 0 && dst % page_size == 0)
  row ← row_of pid s
  row' ← map_row dst src row
  ok (record s { app_pages = set s.app_pages pid row' })

-- Where `memcopy_helper` copies a page from and to.
abbrev pub copy_src : Bool → Mapping → ℕ
copy_src private2exec m = if private2exec then m.private_addr else m.exec_addr

abbrev pub copy_dst : Bool → Mapping → ℕ
copy_dst private2exec m = if private2exec then m.exec_addr else m.private_addr

-- The body of the loop of `memcopy_helper`.
unfoldable pub copy_page : Bool → Mapping → Memory → Run Memory
copy_page private2exec m mem = if m.private_addr == 0 then ok mem else do
  assert (not (m.exec_addr == 0))
  ok (memcpy (copy_dst private2exec m) (copy_src private2exec m) page_size mem)

unfoldable pub copy_row : Bool → List Mapping → Memory → Run Memory
copy_row private2exec [] mem = ok mem
copy_row private2exec (m ∷ ms) mem = do
  mem' ← copy_page private2exec m mem
  copy_row private2exec ms mem'

abbrev pub with_mem : Mmu → Memory → Mmu
with_mem s mem = record s { pages = record { bitmap = s.bitmap; mem = mem } }

unfoldable pub memcopy_helper : ℕ → Bool → Mmu → Run Mmu
unfolding row_of
memcopy_helper pid private2exec s = do
  assert (valid_pid pid)
  row ← row_of pid s
  mem ← copy_row private2exec row s.mem
  ok (with_mem s mem)

-- `curr_vm_pid` is -1 before the first switch.
unfoldable pub is_current : Option ℕ → ℕ → Bool
is_current none pid = false
is_current (some curr) pid = pid == curr

unfoldable pub save_current : Option ℕ → Mmu → Run Mmu
save_current none s = ok s
save_current (some curr) s = if ltb 0 curr then memcopy_helper curr false s else ok s

unfoldable pub soft_tlb_switch : ℕ → Mmu → Run Mmu
unfolding is_current save_current
soft_tlb_switch pid s = if is_current s.curr_vm_pid pid then ok s else do
  saved ← save_current s.curr_vm_pid s
  loaded ← memcopy_helper pid true saved
  ok (record loaded { curr_vm_pid = some pid })
