-- ===== src/Tests/Trap.antt =====
-- A software interrupt at the machine of Tests.Kernel, with 256 bytes on the stack.
use egos_project.Prelude.{◌≡◌, refl, arith, ◌≤◌, ◌%◌, false, Run, ok}
use egos_project.Machine.{pid2idx}
use egos_project.Machine.Memory.{load32, store32, paste, memcpy}
use egos_project.Earth.Mmu.{soft_tlb_switch, memcopy_helper, copy_row, copy_page}
use egos_project.Grass.Process.{Kernel, put, wait_to_recv, proc_set_running, proc_set_runnable}
use egos_project.Grass.Scheduler.{Resume, proc_yield}
use egos_project.Grass.Syscall.{proc_syscall, msgcpy}
use egos_project.Grass.Trap.{
  Trap, trap_handler, intr_entry, manage_userstack, handle, leave, word_mod,
}
use egos_project.Grass.Invariant.Rendezvous.{IsLive}
use egos_project.Grass.Invariant.Trapped.{trap_handler-IsLive}
use egos_project.Tests.Kernel.{kernel0, table0, slot}

-- The process that waits has 16 bytes on its stack.
abbrev kernel1 : Kernel
kernel1 = record kernel0 {
  proc_set = put table0 1 (record (slot 2 wait_to_recv) { sp = 0x807F_FFF0 });
}

kernel1-IsLive : IsLive kernel1
kernel1-IsLive = (
  record {
    current = omega arith;
    pids = λ i hi. ground arith;
    one_running = λ i hi r. ground arith;
    no_missed = λ i j hi hj s. ground arith;
  },
  refl,
)

abbrev trap0 : Trap
trap0 = record { kernel = kernel1; proc_stack = λ row i. 0 }

abbrev trapped : Run (Trap × Resume)
trapped = trap_handler 0x8000_0003 0x8040_0100 0x803F_0000 0x807F_FF00 false trap0

abbrev after_trap : Run (Trap × Resume) → Trap
after_trap (ok r) = r.0
after_trap _ = trap0

trap_returns : trapped ≡ ok (after_trap trapped, Resume.resume)
unfolding trap_handler intr_entry manage_userstack handle leave proc_syscall msgcpy soft_tlb_switch
    memcopy_helper copy_row copy_page proc_yield pid2idx load32 store32 proc_set_running
    proc_set_runnable paste memcpy
trap_returns = refl

trap_handler-IsLive_example :
    IsLive (after_trap trapped).kernel × (0x8000_0000 ≤ 0x8000_0003 % word_mod)
trap_handler-IsLive_example =
    trap_handler-IsLive 0x8000_0003 0x8040_0100 0x803F_0000 0x807F_FF00 false trap0
      (after_trap trapped) Resume.resume kernel1-IsLive trap_returns
