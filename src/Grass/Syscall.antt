-- ===== src/Grass/Syscall.antt =====
-- grass/syscall.c, the half that runs in the kernel (neither ECALL nor VMON), and the request
-- that the user's half leaves at SYSCALL_ARG.
pub mod Message
pub mod User
use egos_project.Prelude.{
  ℕ, zero, suc, ◌+◌, ◌-◌, ◌%◌, ◌<◌, ◌≡◌, Bool, true, false, not, ◌&&◌, ◌||◌, ◌==◌, ltb, leb,
  if◌then◌else◌, Option, none, some, Run, ok, fatal, unknown_syscall, assert, ◌>>=◌, ◌>>◌,
}
use egos_project.Machine.{max_nprocess, page_size, syscall_arg, pid2idx}
use egos_project.Machine.Memory.{Memory, load32, store32, memcpy, paste}
use egos_project.Earth.Mmu.{Mmu, with_mem, soft_tlb_switch}
use egos_project.Grass.Process.{
  Status, wait_to_send, wait_to_recv, is_wait_to_send, is_wait_to_recv, Table, Process, put, Kernel,
  curr, curr_pid, with_mmu, proc_set_runnable,
}
use egos_project.Grass.Scheduler.{Resume, proc_yield}

-- SYSCALL_MSG_LEN
abbrev pub syscall_msg_len : ℕ
syscall_msg_len = 1024

-- enum syscall_type
abbrev pub sys_unused : ℕ
sys_unused = 0

abbrev pub sys_recv_type : ℕ
sys_recv_type = 1

abbrev pub sys_send_type : ℕ
sys_send_type = 2

abbrev pub sys_yield_type : ℕ
sys_yield_type = 3

-- struct syscall at SYSCALL_ARG: the fields' addresses, four bytes but for `content`.
abbrev pub sc_type : ℕ
sc_type = syscall_arg

abbrev pub sc_sender : ℕ
sc_sender = syscall_arg + 4

abbrev pub sc_receiver : ℕ
sc_receiver = syscall_arg + 8

abbrev pub sc_content : ℕ
sc_content = syscall_arg + 12

abbrev pub sc_retval : ℕ
sc_retval = syscall_arg + 12 + syscall_msg_len

-- sizeof(struct sys_msg); `msg` begins at `sender`.
abbrev pub sys_msg_size : ℕ
sys_msg_size = 8 + syscall_msg_len

-- The software-interrupt register of core 0.
abbrev pub msip : ℕ
msip = 0x200_0000

abbrev pub with_memory : Kernel → Memory → Kernel
with_memory k m = with_mmu k (with_mem k.mmu m)

unfoldable pub msgcpy : (src_pid dst_pid src_addr dst_addr size : ℕ) → Mmu → Run Mmu
msgcpy src_pid dst_pid src_addr dst_addr size s = do
  assert (ltb 0 size && ltb size page_size)
  s1 ← soft_tlb_switch src_pid s
  let buf = λ (i : ℕ). s1.mem (src_addr + i)
  s2 ← soft_tlb_switch dst_pid s1
  ok (with_mem s2 (paste dst_addr size buf s2.mem))

-- The receiver waits for this sender or for any.
abbrev pub accepts : Process → ℕ → Bool
accepts r sender =
    is_wait_to_recv r.status && (r.from_sender_pid == sender || r.from_sender_pid == 0)

-- `proc_send` with its receiver known, up to the final `proc_yield`.
unfoldable pub rendezvous_send : ℕ → Kernel → Run Kernel
rendezvous_send receiver k = do
  i ← pid2idx receiver
  assert ((k.proc_set i).pid == receiver)
  if accepts (k.proc_set i) (curr_pid k)
      then (do
        s ← msgcpy (curr_pid k) receiver sc_sender sc_sender sys_msg_size k.mmu
        proc_set_runnable receiver (with_mmu k s))
      else ok (record k {
        proc_set =
            put k.proc_set k.proc_curr_idx
              (record (curr k) { status = wait_to_send; to_receiver_pid = receiver });
      })

unfoldable pub proc_send : Kernel → Run (Kernel × Resume)
unfolding rendezvous_send
proc_send k = do
  let k1 = with_memory k (store32 sc_sender (curr_pid k) k.mem)
  k2 ← rendezvous_send (load32 k1.mem sc_receiver) k1
  proc_yield k2

-- The slot holds a process that waits to send to `receiver`.
abbrev pub sends_to : Process → ℕ → Bool
sends_to p receiver = is_wait_to_send p.status && p.to_receiver_pid == receiver

-- The loop of `proc_recv`: the last slot that matches wins.
unfoldable pub last_sender : ℕ → ℕ → Option ℕ → ℕ → Table → Option ℕ
last_sender zero i found receiver f = found
last_sender (suc left) i found receiver f =
    last_sender left (i + 1) (if sends_to (f i) receiver then some (f i).pid else found) receiver f

-- The sender that `proc_recv` chooses, where `none` is -1.
unfoldable pub choose_sender : ℕ → Kernel → Run (Option ℕ)
unfolding last_sender
choose_sender exp_sender k =
    if exp_sender == 0 then ok (last_sender max_nprocess 0 none (curr_pid k) k.proc_set) else (do
      i ← pid2idx exp_sender
      ok (if sends_to (k.proc_set i) (curr_pid k) then some exp_sender else none))

unfoldable pub rendezvous_recv : Option ℕ → Kernel → Run Kernel
rendezvous_recv none k = ok (record k {
  proc_set = put k.proc_set k.proc_curr_idx (record (curr k) { status = wait_to_recv });
})
rendezvous_recv (some sender) k = do
  s ← msgcpy sender (curr_pid k) sc_sender sc_sender sys_msg_size k.mmu
  proc_set_runnable sender (with_mmu k s)

unfoldable pub proc_recv : Kernel → Run (Kernel × Resume)
unfolding choose_sender rendezvous_recv
proc_recv k = do
  let exp_sender = load32 k.mem sc_sender
  assert (ltb exp_sender max_nprocess)
  let k1 = record k {
    proc_set = put k.proc_set k.proc_curr_idx (record (curr k) { from_sender_pid = exp_sender });
  }
  sender ← choose_sender exp_sender k1
  k2 ← rendezvous_recv sender k1
  proc_yield k2

-- The `switch` of `proc_syscall`.
unfoldable pub dispatch : ℕ → Kernel → Run (Kernel × Resume)
unfolding proc_send proc_recv
dispatch type k =
    if type == sys_recv_type
    then proc_recv k
    else if type == sys_send_type
    then proc_send k
    else if type == sys_yield_type
    then proc_yield k
    else fatal unknown_syscall

unfoldable pub proc_syscall : Kernel → Run (Kernel × Resume)
unfolding dispatch
proc_syscall k =
    let type = load32 k.mem sc_type in
    let m = store32 msip 0 (store32 sc_type sys_unused (store32 sc_retval 0 k.mem)) in
    dispatch type (with_memory k m)
