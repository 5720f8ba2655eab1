-- ===== src/Machine.antt =====
-- library/egos.h: the memory layout and the limits, as the Makefile's default build has them
-- (CPU_TYPE=SIFIVE_U), and the two macros that translate between a pid and its slot.
pub mod Memory
use egos_project.Prelude.{
  ℕ, ◌+◌, ◌-◌, ◌≤◌, ◌<◌, ◌≡◌, arith, ltb, leb, ◌&&◌, if◌then◌else◌, Run, ok, fatal, invalid_pid,
  invalid_idx,
}

abbrev pub page_size : ℕ
page_size = 4096

abbrev pub grass_size : ℕ
grass_size = 0x0010_0000

abbrev pub apps_size : ℕ
apps_size = 0x4000

abbrev pub free_mem_end : ℕ
free_mem_end = 0x8100_0000

abbrev pub free_mem_start : ℕ
free_mem_start = 0x8080_0000

abbrev pub apps_stack_top : ℕ
apps_stack_top = 0x8080_0000

abbrev pub syscall_arg : ℕ
syscall_arg = 0x8060_1000

abbrev pub apps_arg : ℕ
apps_arg = 0x8060_0000

abbrev pub apps_entry : ℕ
apps_entry = 0x8040_0000

abbrev pub grass_entry : ℕ
grass_entry = 0x8010_0000

abbrev pub max_nprocess : ℕ
max_nprocess = 16

abbrev pub quantum : ℕ
quantum = 0x10_0000

-- A pid that is no positive `int` fails the same test, so the argument is a natural number.
unfoldable pub pid2idx : ℕ → Run ℕ
pid2idx pid = if leb 1 pid && leb pid max_nprocess then ok (pid - 1) else fatal invalid_pid

unfoldable pub idx2pid : ℕ → Run ℕ
idx2pid idx = if ltb idx max_nprocess then ok (idx + 1) else fatal invalid_idx

pub pid2idx-ok : (pid : ℕ) → 1 ≤ pid → pid ≤ max_nprocess → pid2idx pid ≡ ok (pid - 1)
unfolding pid2idx
pid2idx-ok pid h k = ground arith

pub idx2pid-ok : (idx : ℕ) → idx < max_nprocess → idx2pid idx ≡ ok (idx + 1)
unfolding idx2pid
idx2pid-ok idx h = ground arith
