-- ===== src/Grass/Process.antt =====
-- grass/process.h and grass/process.c: the process table. `proc_set` has MAX_NPROCESS slots; it
-- is a function of the slot's number, which each operation bounds (`pid2idx`, or its loop).
use egos_project.Prelude.{
  ℕ, zero, suc, ◌+◌, Bool, true, false, not, ◌&&◌, ◌==◌, leb, if◌then◌else◌, Option, none, some,
  Run, ok, fatal, process_limit, assert, ◌>>=◌, ◌>>◌,
}
use egos_project.Machine.{max_nprocess, pid2idx, idx2pid}
use egos_project.Earth.Mmu.{Mmu, soft_tlb_free}

pub data Status : Type 0 where
  unused loading ready running runnable wait_to_send wait_to_recv sleeping : Status

abbrev pub is_unused : Status → Bool
is_unused unused = true
is_unused _ = false

abbrev pub is_ready : Status → Bool
is_ready ready = true
is_ready _ = false

abbrev pub is_running : Status → Bool
is_running running = true
is_running _ = false

abbrev pub is_wait_to_send : Status → Bool
is_wait_to_send wait_to_send = true
is_wait_to_send _ = false

abbrev pub is_wait_to_recv : Status → Bool
is_wait_to_recv wait_to_recv = true
is_wait_to_recv _ = false

abbrev pub is_sleeping : Status → Bool
is_sleeping sleeping = true
is_sleeping _ = false

-- `schd_attr` is never read or written, and is left out.
pub record Process : Type 0 where
  pub pid : ℕ
  pub status : Status
  pub from_sender_pid : ℕ
  pub to_receiver_pid : ℕ
  pub sp : ℕ
  pub mepc : ℕ

abbrev pub Table : Type 0
Table = ℕ → Process

-- A write to one slot.
abbrev pub put : Table → ℕ → Process → Table
put f i p j = if i == j then p else f j

-- The kernel's variables, the state of the earth layer, and the two timer registers.
pub record Kernel : Type 0 where
  pub proc_set : Table
  pub proc_curr_idx : ℕ
  pub mmu : Mmu
  pub open mmu use *
  pub mtime : ℕ
  pub mtimecmp : ℕ

-- GPID_PROCESS to GPID_USER_START of library/servers/servers.h.
abbrev pub gpid_process : ℕ
gpid_process = 1

abbrev pub gpid_file : ℕ
gpid_file = 2

abbrev pub gpid_dir : ℕ
gpid_dir = 3

abbrev pub gpid_net : ℕ
gpid_net = 4

abbrev pub gpid_shell : ℕ
gpid_shell = 5

abbrev pub gpid_user_start : ℕ
gpid_user_start = 6

abbrev pub curr : Kernel → Process
curr k = k.proc_set k.proc_curr_idx

abbrev pub curr_pid : Kernel → ℕ
curr_pid k = (k.proc_set k.proc_curr_idx).pid

abbrev pub curr_status : Kernel → Status
curr_status k = (k.proc_set k.proc_curr_idx).status

-- proc_set[i].status = status
abbrev pub with_status : Kernel → ℕ → Status → Kernel
with_status k i status = record k {
  proc_set = put k.proc_set i (record (k.proc_set i) { status = status });
}

unfoldable pub proc_set_status : ℕ → Status → Kernel → Run Kernel
proc_set_status pid status k = do
  i ← pid2idx pid
  assert (pid == (k.proc_set i).pid)
  ok (with_status k i status)

unfoldable pub proc_set_ready : ℕ → Kernel → Run Kernel
unfolding proc_set_status
proc_set_ready pid k = proc_set_status pid ready k

unfoldable pub proc_set_running : ℕ → Kernel → Run Kernel
unfolding proc_set_status
proc_set_running pid k = proc_set_status pid running k

unfoldable pub proc_set_runnable : ℕ → Kernel → Run Kernel
unfolding proc_set_status
proc_set_runnable pid k = proc_set_status pid runnable k

-- The scheduler's call-backs of grass/scheduler.c, which check the status and print.
unfoldable pub proc_on_arrive : ℕ → Kernel → Run Kernel
proc_on_arrive pid k = ok k

unfoldable pub proc_on_stop : ℕ → Kernel → Run Kernel
proc_on_stop pid k = do i ← pid2idx pid; assert (is_unused (k.proc_set i).status); ok k

unfoldable pub proc_on_sleep : ℕ → ℕ → Kernel → Run Kernel
proc_on_sleep pid time_units k = do
  i ← pid2idx pid
  assert (not (is_sleeping (k.proc_set i).status))
  ok k

unfoldable pub proc_sleep : ℕ → ℕ → Kernel → Run Kernel
unfolding proc_on_sleep
proc_sleep pid time_units k = proc_on_sleep pid time_units k

-- The first unused slot from `i` on, with `left` slots to look at.
unfoldable pub find_unused : ℕ → ℕ → Table → Option ℕ
find_unused zero i f = none
find_unused (suc left) i f =
    let rest = find_unused left (i + 1) f in if is_unused (f i).status then some i else rest

-- The body of the loop of `proc_alloc` at an unused slot.
unfoldable pub take_slot : Option ℕ → Kernel → Run (ℕ × Kernel)
unfolding proc_on_arrive
take_slot none k = fatal process_limit
take_slot (some i) k = do
  pid ← idx2pid i
  let p = record (k.proc_set i) { pid = pid; status = loading }
  k' ← proc_on_arrive pid (record k { proc_set = put k.proc_set i p })
  ok (pid, k')

unfoldable pub proc_alloc : Kernel → Run (ℕ × Kernel)
unfolding find_unused take_slot
proc_alloc k = take_slot (find_unused max_nprocess 0 k.proc_set) k

abbrev pub with_mmu : Kernel → Mmu → Kernel
with_mmu k s = record k { mmu = s }

-- `proc_free(pid)` for a `pid` other than -1.
unfoldable pub proc_free : ℕ → Kernel → Run Kernel
unfolding proc_set_status proc_on_stop
proc_free pid k = do
  s ← soft_tlb_free pid k.mmu
  k' ← proc_set_status pid unused (with_mmu k s)
  proc_on_stop pid k'

-- The body of the loop of `proc_free(-1)`.
unfoldable pub free_user_slot : ℕ → Kernel → Run Kernel
unfolding proc_on_stop
free_user_slot i k =
    if leb gpid_user_start (k.proc_set i).pid && not (is_unused (k.proc_set i).status)
    then (do
      s ← soft_tlb_free (k.proc_set i).pid k.mmu
      proc_on_stop (k.proc_set i).pid (with_status (with_mmu k s) i unused))
    else ok k

unfoldable pub free_user_slots : ℕ → ℕ → Kernel → Run Kernel
unfolding free_user_slot
free_user_slots zero i k = ok k
free_user_slots (suc left) i k = do k' ← free_user_slot i k; free_user_slots left (i + 1) k'

-- `proc_free(-1)`: every user application is freed.
unfoldable pub proc_free_all : Kernel → Run Kernel
unfolding free_user_slots
proc_free_all k = free_user_slots max_nprocess 0 k
