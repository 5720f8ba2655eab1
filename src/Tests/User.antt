-- ===== src/Tests/User.antt =====
-- A message of ten bytes on the stack, sent to GPID_FILE.
use egos_project.Prelude.{◌%◌, ◌<◌, ◌≤◌, ◌≡◌, ◌⊎◌, inr, arith, none, some}
use egos_project.Machine.Memory.{Memory}
use egos_project.Grass.Syscall.{syscall_msg_len}
use egos_project.Grass.Syscall.User.{sys_send, Requests, sys_send-Requests}

abbrev memory0 : Memory
memory0 a = a % 251

sys_send-Requests_example :
    ((syscall_msg_len < 10) × (sys_send 2 0x807F_FF00 10 memory0 ≡ none))
    ⊎ ((m' : Memory) × (10 ≤ syscall_msg_len)
        × (sys_send 2 0x807F_FF00 10 memory0 ≡ some m')
        × Requests 2 0x807F_FF00 10 memory0 m')
sys_send-Requests_example =
    sys_send-Requests 2 0x807F_FF00 10 memory0 (omega arith) (λ i h. inr (omega arith))
