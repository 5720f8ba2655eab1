-- ===== src/Tests/Kernel.antt =====
-- A machine with two processes: GPID_PROCESS runs and sends, GPID_FILE waits for a message.
use egos_project.Prelude.{
  ℕ, ◌+◌, ◌*◌, ◌<◌, ◌≤◌, ◌≡◌, refl, arith, true, false, List, [], ◌∷◌, some, if◌then◌else◌, ltb,
  replicate, Run, ok,
}
use egos_project.Machine.{page_size, free_mem_start, apps_entry, syscall_arg, pid2idx}
use egos_project.Machine.Memory.{Memory, Outside, load32, store32, paste, memcpy}
use egos_project.Earth.Mmu.{
  Mapping, Mmu, no_mapping, soft_tlb_switch, memcopy_helper, copy_row, copy_page, with_mem,
}
use egos_project.Earth.Mmu.Rows.{copied}
use egos_project.Earth.Mmu.Isolation.{HasRow, switch_isolates, switched, soft_tlb_switch-ok}
use egos_project.Grass.Process.{
  Status, unused, running, wait_to_recv, Process, Table, Kernel, put, proc_set_running,
  proc_set_runnable,
}
use egos_project.Grass.Scheduler.{Resume, proc_yield}
use egos_project.Grass.Syscall.{
  proc_syscall, msgcpy, sc_type, sc_receiver, sc_sender, sys_send_type, sys_msg_size,
}
use egos_project.Grass.Syscall.Message.{msgcpy-delivers}
use egos_project.Grass.Invariant.Rendezvous.{IsLive}
use egos_project.Grass.Invariant.System.{proc_syscall-IsLive}

abbrev pub page_of : ℕ → ℕ
page_of i = free_mem_start + i * page_size

abbrev pub row_one : List Mapping
row_one =
    record { private_addr = page_of 0; exec_addr = apps_entry }
    ∷ record { private_addr = page_of 1; exec_addr = syscall_arg }
    ∷ no_mapping
    ∷ []

abbrev pub row_two : List Mapping
row_two =
    record { private_addr = page_of 2; exec_addr = apps_entry }
    ∷ record { private_addr = page_of 3; exec_addr = syscall_arg }
    ∷ no_mapping
    ∷ []

abbrev pub request : Memory
request = store32 sc_type sys_send_type (store32 sc_receiver 2 (λ a. 0))

abbrev pub mmu0 : Mmu
mmu0 = record {
  pages = record { bitmap = 15 ∷ []; mem = request };
  app_pages = [] ∷ row_one ∷ row_two ∷ replicate 13 [];
  curr_vm_pid = some 1;
}

abbrev pub slot : ℕ → Status → Process
slot pid status = record {
  pid = pid;
  status = status;
  from_sender_pid = 0;
  to_receiver_pid = 0;
  sp = 0;
  mepc = 0;
}

abbrev pub table0 : Table
table0 = put (put (λ i. slot 0 unused) 0 (slot 1 running)) 1 (slot 2 wait_to_recv)

abbrev pub kernel0 : Kernel
kernel0 = record { proc_set = table0; proc_curr_idx = 0; mmu = mmu0; mtime = 5; mtimecmp = 0 }

row_one-HasRow : HasRow mmu0 1 row_one
row_one-HasRow = record {
  positive = omega arith;
  in_range = omega arith;
  found = refl;
  is_row = omega arith;
}

row_two-HasRow : HasRow mmu0 2 row_two
row_two-HasRow = record {
  positive = omega arith;
  in_range = omega arith;
  found = refl;
  is_row = omega arith;
}

pub kernel0-IsLive : IsLive kernel0
kernel0-IsLive = (
  record {
    current = omega arith;
    pids = λ i hi. ground arith;
    one_running = λ i hi r. ground arith;
    no_missed = λ i j hi hj s. ground arith;
  },
  refl,
)

abbrev after : Run (Kernel × Resume) → Kernel × Resume
after (ok r) = r
after _ = (kernel0, Resume.resume)

delivers : proc_syscall kernel0 ≡ ok ((after (proc_syscall kernel0)).0, Resume.resume)
unfolding proc_syscall msgcpy soft_tlb_switch memcopy_helper copy_row copy_page proc_yield pid2idx
    load32 store32 proc_set_running proc_set_runnable
delivers = refl

proc_syscall-IsLive_example : IsLive (after (proc_syscall kernel0)).0
proc_syscall-IsLive_example =
    proc_syscall-IsLive kernel0 (after (proc_syscall kernel0)).0 Resume.resume kernel0-IsLive
      delivers

-- The receiver goes on, with the request's bytes before it.
delivered_state :
    ((after (proc_syscall kernel0)).0.proc_curr_idx ≡ 1)
    × (load32 (after (proc_syscall kernel0)).0.mem sc_sender ≡ 1)
unfolding proc_syscall msgcpy soft_tlb_switch memcopy_helper copy_row copy_page proc_yield pid2idx
    load32 store32 proc_set_running proc_set_runnable paste memcpy
delivered_state = (refl, refl)

-- While GPID_FILE runs it fills the memory below the free pages with ones.
abbrev scribbled : Memory → Memory
scribbled m a = if ltb a free_mem_start then 1 else m a

switched0 : Mmu
switched0 = switched mmu0 row_one 2 row_two

abbrev second : Mapping
second = record { private_addr = page_of 1; exec_addr = syscall_arg }

scribbled-kept : (m : Memory) (a : ℕ) → free_mem_start ≤ a → scribbled m a ≡ m a
scribbled-kept m a h = ground arith

switch_isolates_example :
    (back : Mmu) × (soft_tlb_switch 1 (with_mem switched0 (scribbled switched0.mem)) ≡ ok back)
    × (back.mem (syscall_arg + 8) ≡ mmu0.mem (syscall_arg + 8))
unfolding switched0
switch_isolates_example =
    switch_isolates mmu0 1 2 row_one row_two refl (λ e. omega arith) row_one-HasRow row_two-HasRow
      (omega arith) switched0 (scribbled switched0.mem) 1 8 {x = second}
      (soft_tlb_switch-ok mmu0 1 2 row_one row_two refl (λ e. omega arith) row_one-HasRow
        row_two-HasRow)
      (scribbled-kept switched0.mem) refl (λ e. omega arith) (omega arith)

msgcpy-delivers_example :
    (s' : Mmu) × (msgcpy 1 2 sc_sender sc_sender sys_msg_size mmu0 ≡ ok s')
    × (s'.curr_vm_pid ≡ some 2)
    × ((i : ℕ) → i < sys_msg_size → s'.mem (sc_sender + i) ≡ mmu0.mem (sc_sender + i))
    × ((a : ℕ)
        → Outside sc_sender sys_msg_size a
        → s'.mem a ≡ copied true row_two (copied false row_one mmu0.mem) a)
msgcpy-delivers_example =
    msgcpy-delivers mmu0 1 2 sc_sender sc_sender sys_msg_size row_one row_two refl
      (λ e. omega arith) row_one-HasRow row_two-HasRow (omega arith) (omega arith)
