-- ===== src/Earth/PageTable.antt =====
-- earth/cpu_vm.c: the page tables of Sv32. Addresses and entries have 32 bits; a table is a page of
-- 1024 words in memory. The functions that are exercises stop the machine.
pub mod Leaves
pub mod Identity
use egos_project.Prelude.{
  ℕ, zero, suc, ◌+◌, ◌*◌, ◌/◌, ◌%◌, Bool, true, false, ◌&&◌, ltb, leb, ◌==◌, if◌then◌else◌, Option,
  none, some, List, [], ◌∷◌, get_elem?, set, Run, ok, fatal, undefined, not_implemented, assert,
  ◌>>=◌, ◌>>◌,
}
use egos_project.Machine.{page_size, max_nprocess}
use egos_project.Machine.Memory.{Memory, load32, store32}
use egos_project.Earth.PageAlloc.{Pages, pmalloc}

-- FLAG_VALID_RWX and FLAG_NEXT_LEVEL
abbrev pub flag_valid_rwx : ℕ
flag_valid_rwx = 0xF

abbrev pub flag_next_level : ℕ
flag_next_level = 1

-- The pages, and pid_to_pagetable_base, where 0 is NULL.
pub record PageTables : Type 0 where
  pub pages : Pages
  pub bases : List ℕ

abbrev pub table_mem : PageTables → Memory
table_mem t = t.pages.mem

abbrev pub with_table_mem : PageTables → Memory → PageTables
with_table_mem t m = record t { pages = record { bitmap = t.pages.bitmap; mem = m } }

-- pid_to_pagetable_base[pid]
abbrev pub base_of : ℕ → PageTables → Run ℕ
base_of pid t = elim (get_elem? t.bases pid) [ none ↦ undefined | some base ↦ ok base ]

-- The address of entry `i` of a table.
abbrev pub entry_at : (table i : ℕ) → ℕ
entry_at table i = table + 4 * i

-- The table of the second level for an entry of the first: an old one, whose address loses what is
-- behind 32 bits, or a new page.
unfoldable pub second_level : (root_entry : ℕ) → PageTables → Run (ℕ × PageTables)
second_level root_entry t =
    let e = load32 (table_mem t) root_entry in
    if e % 2 == flag_next_level then ok (e / 0x400 * 0x1000 % 0x1_0000_0000, t) else (do
      (l2_pa, pages) ← pmalloc true t.pages
      let pte = l2_pa / 0x1000 * 0x400 + flag_next_level
      ok (
        l2_pa,
        record t {
          pages = record { bitmap = pages.bitmap; mem = store32 root_entry pte pages.mem };
        },
      ))

-- The entry for a page at `addr`: the address shifted by two, with the flags in its free bits.
abbrev pub leaf : ℕ → ℕ
leaf addr = addr % 0x1_0000_0000 / 4 + flag_valid_rwx

-- The loop over the pages from `i` on. An entry behind the table is undefined.
unfoldable pub map_pages : (left i l2_pa vpn0 addr : ℕ) → Memory → Run Memory
map_pages zero i l2_pa vpn0 addr m = ok m
map_pages (suc left) i l2_pa vpn0 addr m =
    if ltb (vpn0 + i) 1024
    then (do
      assert (load32 m (entry_at l2_pa (vpn0 + i)) == 0)
      map_pages left (i + 1) l2_pa vpn0 addr
          (store32 (entry_at l2_pa (vpn0 + i)) (leaf (addr + i * page_size)) m))
    else undefined

unfoldable pub setup_identity_region : (pid addr npages : ℕ) → PageTables → Run PageTables
setup_identity_region pid addr npages t = do
  assert (leb npages 1024)
  assert (addr % 0x1000 == 0)
  root ← base_of pid t
  assert (if root == 0 then false else true)
  (l2_pa, t1) ← second_level (entry_at root (addr / 0x40_0000)) t
  m ← map_pages npages 0 l2_pa (addr / 0x1000 % 0x400) addr (table_mem t1)
  ok (with_table_mem t1 m)

-- The last loop, over the 32MB of the ITIM memory.
itim_regions : (left i : ℕ) → PageTables → Run PageTables
itim_regions zero i t = ok t
itim_regions (suc left) i t = do
  t1 ← setup_identity_region 0 (0x0800_0000 + i * 0x0040_0000) 1024 t
  itim_regions left (i + 1) t1

unfoldable pub kernel_identity_mapping : PageTables → Run PageTables
unfolding itim_regions
kernel_identity_mapping t = do
  (kernel_root, pages) ← pmalloc true t.pages
  t1 ←
      setup_identity_region 0 0x0200_0000 16
        (record { pages = pages; bases = set t.bases 0 kernel_root })
  t2 ← setup_identity_region 0 0x1001_3000 1 t1
  t3 ← setup_identity_region 0 0x1002_4000 1 t2
  t4 ← setup_identity_region 0 0x2040_0000 1024 t3
  t5 ← setup_identity_region 0 0x2080_0000 1024 t4
  t6 ← setup_identity_region 0 0x8000_0000 1024 t5
  itim_regions 8 0 t6

-- The value that vm_init gives to the register satp: the kernel's root, with the mode bit.
unfoldable pub vm_init : PageTables → Run (ℕ × PageTables)
unfolding kernel_identity_mapping
vm_init t = do
  t1 ← kernel_identity_mapping t
  root ← base_of 0 t1
  ok (root / 0x1000 + 0x8000_0000, t1)

abbrev valid_table_pid : ℕ → Bool
valid_table_pid pid = leb pid max_nprocess

-- The exercises.
unfoldable pub walk : (root va : ℕ) → (alloc : Bool) → ℕ
walk root va alloc = 0

unfoldable pub page_table_map : (pid va pa : ℕ) → PageTables → Run PageTables
page_table_map pid va pa t = do
  assert (valid_table_pid pid)
  assert (va % page_size == 0 && pa % page_size == 0)
  root ← base_of pid t
  fatal not_implemented

unfoldable pub page_table_switch : ℕ → PageTables → Run PageTables
page_table_switch pid t = do assert (valid_table_pid pid); fatal not_implemented

unfoldable pub page_table_translate : (pid va : ℕ) → PageTables → Run ℕ
page_table_translate pid va t = fatal not_implemented

unfoldable pub page_table_free : ℕ → PageTables → Run PageTables
page_table_free pid t = do assert (valid_table_pid pid); fatal not_implemented
