-- ===== src/Loader/App/Size.antt =====
-- Which applications load_app loads, by their size.
use egos_project.Prelude.{ℕ, ◌+◌, ◌-◌, ◌*◌, ◌/◌, ◌<◌, ◌≤◌, ◌≡◌, ◌⊎◌, Run, ok, fatal, assert_failed}
use egos_project.Machine.{page_size, apps_size}
use egos_project.Earth.Mmu.{Mmu}
use egos_project.Loader.App.{app_npages}

-- The pages begun before `off`.
abbrev pages_before : ℕ → ℕ
pages_before off = (off + (page_size - 1)) / page_size

-- What the loop ends in: the assertion, or the number of pages that the file takes.
abbrev Copied : (filesz : ℕ) → Run (ℕ × Mmu) → Type 0
Copied filesz r =
    ((apps_size < filesz) × (r ≡ fatal assert_failed))
    ⊎ ((filesz ≤ apps_size)
        × ((begun : ℕ) × (s' : Mmu) × (r ≡ ok (begun, s'))
            × (begun ≤ app_npages)
            × (filesz ≤ begun * page_size)))
