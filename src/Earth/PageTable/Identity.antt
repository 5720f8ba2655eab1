-- ===== src/Earth/PageTable/Identity.antt =====
-- The regions that setup_identity_region maps are translated to themselves.
use egos_project.Prelude.{
  ℕ, ◌+◌, ◌*◌, ◌/◌, ◌%◌, ◌<◌, ◌≤◌, ◌≡◌, ◌⊎◌, true, ◌==◌, if◌then◌else◌, Option, none, some,
}
use egos_project.Machine.{page_size}
use egos_project.Machine.Memory.{Memory, load32}
use egos_project.Earth.PageAlloc.Laws.{IsMap, page_addr}
use egos_project.Bitmap.Laws.{bit_at}
use egos_project.Earth.PageTable.{PageTables, table_mem, entry_at, leaf}

-- What the hardware does with an address: two loads, and the page's number before the offset.
abbrev pub translate : (root va : ℕ) → Memory → Option ℕ
translate root va m =
    let e1 = load32 m (entry_at root (va / 0x40_0000)) in
    let e0 = load32 m (entry_at (e1 / 0x400 * 0x1000) (va / 0x1000 % 0x400)) in
    if e1 % 2 == 1
    then (if e0 % 2 == 1 then some (e0 / 0x400 * 0x1000 + va % 0x1000) else none)
    else none

-- The root table is a page in use, and a table that the entry already names is another page, in the
-- 4GB that an address of the kernel reaches.
pub record HasRoot (root_entry : ℕ) (t : PageTables) : Type 0 where
  pub page : ℕ
  pub in_use : bit_at t.pages.bitmap page ≡ true
  pub low : page_addr page ≤ root_entry
  pub high : root_entry + 4 ≤ page_addr page + page_size
  pub is_map : IsMap t.pages.bitmap
  pub old_reached : load32 (table_mem t) root_entry / 0x400 * 0x1000 < 0x1_0000_0000
  pub old_apart :
      let table = load32 (table_mem t) root_entry / 0x400 * 0x1000 in
      (root_entry + 4 ≤ table) ⊎ (table + page_size ≤ root_entry)

-- The entry of the root names the table of the second level, which does not overlap it.
record Names (root_entry l2_pa : ℕ) (m : Memory) : Type 0 where
  valid : load32 m root_entry % 2 ≡ 1
  table : load32 m root_entry / 0x400 * 0x1000 ≡ l2_pa
  apart : (root_entry + 4 ≤ l2_pa) ⊎ (l2_pa + page_size ≤ root_entry)

-- The parts of an address in the region, and the leaf for its page.
record Place (addr va vpn0 j : ℕ) : Type 0 where
  same_root : va / 0x40_0000 ≡ addr / 0x40_0000
  index : va / 0x1000 % 0x400 ≡ vpn0 + j
  valid : leaf (addr + j * page_size) % 2 ≡ 1
  back : leaf (addr + j * page_size) / 0x400 * 0x1000 + va % 0x1000 ≡ va
