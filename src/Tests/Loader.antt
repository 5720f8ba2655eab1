-- ===== src/Tests/Loader.antt =====
-- A kernel of 600 bytes, an application of 16,385 bytes, and a region of a page table.
use egos_project.Prelude.{ℕ, ◌+◌, ◌%◌, refl, arith, ◌∷◌, none, replicate, Run, ok, List, []}
use egos_project.Machine.{apps_entry, grass_entry}
use egos_project.Earth.PageAlloc.Laws.{page_addr}
use egos_project.Earth.Mmu.{Mmu}
use egos_project.Earth.PageTable.{PageTables}
use egos_project.Loader.{Reader, ProgramHeader, load_grass}
use egos_project.Loader.Grass.{GrassLoaded, load_grass-GrassLoaded}
use egos_project.Tests.Machine.{pages0}

abbrev file : (n k : ℕ) → ℕ
file n k = (n + k) % 0x100

abbrev reader : Reader
reader n = ok (file n)

abbrev kernel_header : ProgramHeader
kernel_header = record { p_offset = 0x1000; p_vaddr = grass_entry; p_filesz = 600 }

load_grass-GrassLoaded_example :
    GrassLoaded reader file (λ n. refl) 8 600 (λ a. 7) (load_grass reader kernel_header (λ a. 7))
load_grass-GrassLoaded_example =
    load_grass-GrassLoaded reader file (λ n. refl) 8 600 kernel_header (λ a. 7) refl refl
      (omega arith)

abbrev app_header : ProgramHeader
app_header = record { p_offset = 0x1000; p_vaddr = apps_entry; p_filesz = 0x4001 }

abbrev fresh_mmu : Mmu
fresh_mmu = record {
  pages = pages0;
  app_pages = replicate 16 (replicate 16 (record { private_addr = 0; exec_addr = 0 }));
  curr_vm_pid = none;
}

abbrev pages_of : Run (List ℕ × Mmu) → List ℕ × Mmu
pages_of (ok r) = r
pages_of _ = ([], fresh_mmu)

-- The root is the page 2, which is in use, and empty.
abbrev tables : PageTables
tables = record {
  pages = record { bitmap = pages0.bitmap; mem = λ a. 0 };
  bases = page_addr 2 ∷ replicate 15 0;
}

abbrev tables_of : Run PageTables → PageTables
tables_of (ok t) = t
tables_of _ = tables
