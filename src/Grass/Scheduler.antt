-- ===== src/Grass/Scheduler.antt =====
-- proc_yield of grass/scheduler.c under the default policy (no MLFQ), and the timer of
-- earth/cpu_timer.c that it sets.
pub mod RoundRobin
use egos_project.Prelude.{
  ℕ, zero, suc, ◌+◌, ◌-◌, ◌%◌, ◌<◌, ◌≡◌, Bool, true, false, ◌&&◌, ◌||◌, ◌==◌, ltb, leb,
  if◌then◌else◌, Option, none, some, Run, ok, fatal, no_runnable_process, assert, ◌>>=◌, ◌>>◌,
}
use egos_project.Machine.{max_nprocess, quantum}
use egos_project.Earth.Mmu.{soft_tlb_switch}
use egos_project.Grass.Process.{
  Status, ready, running, runnable, is_ready, is_running, Table, Kernel, curr_pid, curr_status,
  with_mmu, proc_set_running, proc_set_runnable,
}

-- timer_reset: mtimecmp_set(mtime_get() + QUANTUM), in 64 bits.
unfoldable pub timer_reset : Kernel → Kernel
timer_reset k = record k { mtimecmp = (k.mtime + quantum) % 0x1_0000_0000_0000_0000 }

abbrev pub schedulable : Status → Bool
schedulable ready = true
schedulable running = true
schedulable runnable = true
schedulable _ = false

-- The slot that the loop looks at in round `i`.
abbrev pub slot_after : ℕ → ℕ → ℕ
slot_after curr i = (curr + i) % max_nprocess

-- The loop from round `i`, with `left` rounds to go.
unfoldable pub find_next : ℕ → ℕ → ℕ → Table → Option ℕ
find_next zero i curr f = none
find_next (suc left) i curr f =
    let rest = find_next left (i + 1) curr f in
    if schedulable (f (slot_after curr i)).status then some (slot_after curr i) else rest

-- How the chosen process goes on: at its entry point, by `mret`, or behind its call of the kernel.
pub data Resume : Type 0 where
  enter resume : Resume

-- A running process becomes runnable.
unfoldable pub preempt : Kernel → Run Kernel
preempt k = if is_running (curr_status k) then proc_set_runnable (curr_pid k) k else ok k

-- The process in slot `next` takes the processor.
unfoldable pub run_slot : ℕ → Kernel → Run (Kernel × Resume)
unfolding timer_reset
run_slot next k = do
  let k1 = record k { proc_curr_idx = next }
  assert (ltb 0 (curr_pid k1) && leb (curr_pid k1) max_nprocess)
  s ← soft_tlb_switch (curr_pid k1) k1.mmu
  let k2 = timer_reset (with_mmu k1 s)
  k3 ← proc_set_running (curr_pid k2) k2
  ok (k3, if is_ready (curr_status k2) then enter else resume)

-- The switch to the slot that the loop found.
unfoldable pub switch_to : Option ℕ → Kernel → Run (Kernel × Resume)
unfolding preempt run_slot
switch_to none k = fatal no_runnable_process
switch_to (some next) k = do k1 ← preempt k; run_slot next k1

unfoldable pub proc_yield : Kernel → Run (Kernel × Resume)
unfolding find_next switch_to
proc_yield k = switch_to (find_next max_nprocess 1 k.proc_curr_idx k.proc_set) k
