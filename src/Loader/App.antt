-- ===== src/Loader/App.antt =====
-- load_app and elf_load of library/elf/elf.c: the pages of an application, its arguments and stack.
pub mod Size
use egos_project.Prelude.{
  ℕ, zero, suc, ◌+◌, ◌-◌, ◌*◌, ◌/◌, ◌%◌, Bool, true, false, ltb, leb, ◌==◌, if◌then◌else◌, Option,
  none, some, List, [], ◌∷◌, get_elem?, Run, ok, fatal, undefined, invalid_vaddr, assert, ◌>>=◌,
  ◌>>◌,
}
use egos_project.Machine.{page_size, apps_size, apps_arg, apps_entry, grass_entry}
use egos_project.Machine.Memory.{Memory, memset, paste, store32}
use egos_project.Earth.Disk.{block_size}
use egos_project.Earth.Mmu.{Mmu, mmu_alloc, soft_tlb_map, with_mem}
use egos_project.Apps.Shell.{cmd_nargs, cmd_arg_len}
use egos_project.Loader.{Reader, ProgramHeader, e_phnum, program_header, load_grass}

abbrev pub app_npages : ℕ
app_npages = apps_size / page_size

abbrev write_memory : (Memory → Memory) → Mmu → Mmu
write_memory f s = with_mem s (f s.mem)

-- A page is allocated and mapped at `addr`.
abbrev pub map_new_page : (pid addr : ℕ) → Mmu → Run (ℕ × Mmu)
map_new_page pid addr s = do
  (paddr, s1) ← mmu_alloc s
  s2 ← soft_tlb_map pid addr paddr s1
  ok (paddr, s2)

-- (1) The pages of code and data, from page `i` on, each cleared before it is mapped.
unfoldable pub alloc_pages : (left i pid : ℕ) → Mmu → Run (List ℕ × Mmu)
alloc_pages zero i pid s = ok ([], s)
alloc_pages (suc left) i pid s = do
  (paddr, s1) ← mmu_alloc s
  let s2 = write_memory (memset paddr 0 page_size) s1
  s3 ← soft_tlb_map pid (apps_entry + i * page_size) paddr s2
  (paddrs, s4) ← alloc_pages left (i + 1) pid s3
  ok (paddr ∷ paddrs, s4)

-- paddrs[page_idx], where `begun` is page_idx + 1.
abbrev pub page_at : List ℕ → ℕ → Run ℕ
page_at paddrs zero = undefined
page_at paddrs (suc page_idx) = elim (get_elem? paddrs page_idx) [
  | none ↦ undefined
  | some paddr ↦ ok paddr
]

-- page_idx++ at the start of a page, and then the assertion.
abbrev pub begun_at : (off begun : ℕ) → ℕ
begun_at off begun = if off % page_size == 0 then begun + 1 else begun

abbrev pub room_at : (off begun : ℕ) → Bool
room_at off begun = if off % page_size == 0 then leb begun app_npages else true

-- (2) The loop over the blocks of the file. A page is begun at each multiple of PAGE_SIZE; a block
-- is loaded in each round, so `filesz` rounds are enough.
unfoldable pub copy_blocks :
    (fuel off begun block_offset filesz : ℕ) → Reader → List ℕ → Mmu → Run (ℕ × Mmu)
copy_blocks zero off begun block_offset filesz reader paddrs s = ok (begun, s)
copy_blocks (suc fuel) off begun block_offset filesz reader paddrs s = elim (ltb off filesz) [
  | false ↦ ok (begun, s)
  | true ↦ do
    let begun' = begun_at off begun
    assert (room_at off begun')
    block ← reader block_offset
    paddr ← page_at paddrs begun'
    copy_blocks fuel (off + block_size) begun' (block_offset + 1) filesz reader paddrs
        (write_memory (paste (paddr + off % page_size) block_size block) s)
]

-- The memory behind the file on its last page.
unfoldable pub clear_last : (begun filesz : ℕ) → List ℕ → Mmu → Run Mmu
clear_last begun filesz paddrs s =
    let filled = filesz % page_size in
    if filled == 0 then ok s else do
      paddr ← page_at paddrs begun
      ok (write_memory (memset (paddr + filled) 0 (page_size - filled)) s)

-- argv[i] for the arguments from `i` on, as addresses in the application's space.
unfoldable pub store_argv : (left i argv_addr : ℕ) → Memory → Memory
store_argv zero i argv_addr m = m
store_argv (suc left) i argv_addr m =
    store_argv left (i + 1) argv_addr
      (store32 (argv_addr + 4 * i) (apps_arg + 4 + 4 * cmd_nargs + i * cmd_arg_len) m)

-- The argument page at `paddr`; `argv` is `none` for NULL, and else the bytes of its rows.
unfoldable pub store_args : (paddr argc : ℕ) → Option (ℕ → ℕ) → Memory → Memory
unfolding store_argv
store_args paddr argc argv m =
    let m1 = store32 paddr argc m in
    store_argv argc 0 (paddr + 4) (elim argv [
      | none ↦ m1
      | some rows ↦ paste (paddr + 4 + 4 * cmd_nargs) (argc * cmd_arg_len) rows m1
    ])

-- (3) The page of the arguments and the page of the system call and the stack.
unfoldable pub load_args : (pid argc : ℕ) → Option (ℕ → ℕ) → Mmu → Run Mmu
unfolding store_args
load_args pid argc argv s = do
  (paddr, s1) ← map_new_page pid apps_arg s
  (_, s2) ← map_new_page pid (apps_arg + page_size) (write_memory (store_args paddr argc argv) s1)
  ok s2

unfoldable pub load_app : (pid argc : ℕ) → Reader → Option (ℕ → ℕ) → ProgramHeader → Mmu → Run Mmu
load_app pid argc reader argv pheader s = do
  (paddrs, s1) ← alloc_pages app_npages 0 pid s
  (begun, s2) ←
      copy_blocks pheader.p_filesz 0 0 (pheader.p_offset / block_size) pheader.p_filesz reader
        paddrs s1
  s3 ← clear_last begun pheader.p_filesz paddrs s2
  load_args pid argc argv s3

unfoldable pub elf_load : (pid argc : ℕ) → Reader → Option (ℕ → ℕ) → Mmu → Run Mmu
unfolding load_app
elf_load pid argc reader argv s = do
  buf ← reader 0
  assert (e_phnum buf == 1)
  pheader ← program_header buf
  if pheader.p_vaddr == grass_entry
      then (do m ← load_grass reader pheader s.mem; ok (with_mem s m))
      else if pheader.p_vaddr == apps_entry
      then load_app pid argc reader argv pheader s
      else fatal invalid_vaddr
