-- ===== src/Tests/Table.antt =====
-- The theorems on the process table and the scheduler, at the two processes of Tests/Kernel.
use egos_project.Prelude.{
  ℕ, ◌+◌, ◌<◌, ◌≡◌, ◌≢◌, refl, ◌⊎◌, arith, true, replicate, Run, ok, fatal, no_runnable_process,
  process_limit, ◌>>=◌,
}
use egos_project.Machine.{max_nprocess, pid2idx}
use egos_project.Bitmap.{bit_clear}
use egos_project.Earth.PageAlloc.{pfree, paddr2pageid}
use egos_project.Earth.Mmu.{soft_tlb_switch, soft_tlb_free}
use egos_project.Grass.Process.{unused, runnable, put, Kernel, proc_alloc, proc_free, proc_free_all}
use egos_project.Grass.Scheduler.{proc_yield}
use egos_project.Grass.Scheduler.RoundRobin.{FirstFrom, NoneFrom, serves, serves_in_turn}
use egos_project.Grass.Invariant.Yield.{handed_over, entry_of, proc_yield_lem}
use egos_project.Grass.Invariant.Rendezvous.{IsLive}
use egos_project.Grass.Invariant.System.{Taken, loaded, proc_alloc_lem}
use egos_project.Grass.Invariant.Free.{cleared, proc_free-IsLive, proc_free_all-IsLive}
use egos_project.Tests.Kernel.{kernel0, table0, mmu0, slot, kernel0-IsLive}

serves_in_turn_example : serves 3 0 (replicate 16 table0) ≡ true
serves_in_turn_example =
    serves_in_turn (replicate 16 table0) 3 0 (omega arith) (omega arith) (omega arith)
      (ground arith)

proc_yield_lem_example :
    ((proc_yield kernel0 ≡ fatal no_runnable_process) × NoneFrom table0 0 1)
    ⊎ ((n : ℕ) × FirstFrom table0 0 1 n
        × (proc_yield kernel0 ≡ (
            soft_tlb_switch (n + 1) mmu0 >>= λ s.
            ok (handed_over kernel0 n s, entry_of kernel0 n))))
proc_yield_lem_example = proc_yield_lem kernel0 kernel0-IsLive.0

proc_alloc_lem_example :
    ((proc_alloc kernel0 ≡ fatal process_limit)
      × ((j : ℕ) → j < max_nprocess → (table0 j).status ≢ unused))
    ⊎ ((i : ℕ) × Taken table0 i
        × (proc_alloc kernel0 ≡ ok (i + 1, record kernel0 { proc_set = loaded table0 i }))
        × IsLive (record kernel0 { proc_set = loaded table0 i }))
proc_alloc_lem_example = proc_alloc_lem kernel0 kernel0-IsLive

abbrev result : Run Kernel → Kernel
result (ok k) = k
result _ = kernel0

frees : proc_free 2 kernel0 ≡ ok (result (proc_free 2 kernel0))
unfolding proc_free soft_tlb_free pid2idx pfree paddr2pageid bit_clear
frees = refl

proc_free-IsLive_example :
    IsLive (result (proc_free 2 kernel0))
    × (((result (proc_free 2 kernel0)).proc_set 1).status ≡ unused)
    × ((j : ℕ) → j ≢ 1 → (result (proc_free 2 kernel0)).proc_set j ≡ table0 j)
proc_free-IsLive_example =
    proc_free-IsLive 2 kernel0 (result (proc_free 2 kernel0)) kernel0-IsLive (λ e. omega arith)
      frees

-- The same machine, with a user application in slot 5.
abbrev with_user : Kernel
with_user = record kernel0 { proc_set = put table0 5 (slot 6 runnable) }

with_user-IsLive : IsLive with_user
with_user-IsLive = (
  record {
    current = omega arith;
    pids = λ i hi. ground arith;
    one_running = λ i hi r. ground arith;
    no_missed = λ i j hi hj s. ground arith;
  },
  refl,
)

frees_all : proc_free_all with_user ≡ ok (result (proc_free_all with_user))
unfolding proc_free_all soft_tlb_free pid2idx pfree paddr2pageid bit_clear
frees_all = refl

proc_free_all-IsLive_example :
    IsLive (result (proc_free_all with_user))
    × ((j : ℕ)
        → j < max_nprocess
        → (result (proc_free_all with_user)).proc_set j ≡ cleared (with_user.proc_set j))
proc_free_all-IsLive_example =
    proc_free_all-IsLive with_user (result (proc_free_all with_user)) with_user-IsLive (omega arith)
      frees_all
