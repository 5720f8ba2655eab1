-- ===== src/Grass/Trap.antt =====
-- grass/kernel.c: what the kernel does between a trap and the return from it. The registers that
-- the hardware and the assembly leave are arguments: `mcause`, `mepc`, the stack pointer of the
-- handler, and the one that ctx_start saves. `ctrl_c` is the result of tty_intr.
use egos_project.Prelude.{
  ℕ, ◌+◌, ◌-◌, ◌*◌, ◌%◌, Bool, true, false, ◌&&◌, ◌==◌, ltb, leb, if◌then◌else◌, Run, ok, fatal,
  undefined, unknown_interrupt, fatal_exception, nested_trap, assert, ◌>>=◌, ◌>>◌,
}
use egos_project.Machine.{page_size, apps_stack_top, apps_entry, max_nprocess}
use egos_project.Machine.Memory.{paste}
use egos_project.Earth.Mmu.{with_mem}
use egos_project.Grass.Process.{
  Process, Kernel, put, curr, curr_pid, with_mmu, gpid_shell, gpid_user_start,
}
use egos_project.Grass.Scheduler.{Resume, timer_reset, proc_yield}
use egos_project.Grass.Syscall.{proc_syscall}

abbrev pub intr_id_soft : ℕ
intr_id_soft = 3

abbrev pub intr_id_timer : ℕ
intr_id_timer = 7

abbrev pub grass_stack_top : ℕ
grass_stack_top = 0x8040_0000

-- A pointer or an unsigned difference has 32 bits.
abbrev pub word_mod : ℕ
word_mod = 0x1_0000_0000

abbrev pub set_curr : Process → Kernel → Kernel
set_curr p k = record k { proc_set = put k.proc_set k.proc_curr_idx p }

-- The kernel and `proc_stack`, the saved stacks: a row of a page for each pid below MAX_NPROCESS.
pub record Trap : Type 0 where
  pub kernel : Kernel
  pub proc_stack : ℕ → ℕ → ℕ

unfoldable pub intr_entry : (id : ℕ) → (ctrl_c : Bool) → Kernel → Run (Kernel × Resume)
intr_entry id ctrl_c k =
    if id == intr_id_timer && ltb (curr_pid k) gpid_shell
    then ok (timer_reset k, Resume.resume)
    else if leb gpid_user_start (curr_pid k) && ctrl_c
    then ok (set_curr (record (curr k) { mepc = apps_entry + 0xC }) k, Resume.resume)
    else if id == intr_id_soft
    then proc_syscall k
    else if id == intr_id_timer
    then proc_yield k
    else fatal unknown_interrupt

unfoldable pub excp_entry : ℕ → Kernel → Run (Kernel × Resume)
excp_entry id k = fatal fatal_exception

unfoldable pub check_nested_trap : ℕ → Run (Unit {0})
check_nested_trap sp =
    if ltb ((grass_stack_top + word_mod - sp) % word_mod) (2 * page_size)
    then fatal nested_trap
    else ok tt

abbrev pub saved_stack : ℕ → Trap → Trap
saved_stack size t =
    let k = t.kernel in
    let sp = (curr k).sp in
    record t {
      proc_stack = λ row.
          if row == curr_pid k
          then paste 0 size (λ i. k.mem (sp + i)) (t.proc_stack row)
          else t.proc_stack row;
    }

abbrev pub restored_stack : ℕ → Trap → Trap
restored_stack size t =
    let k = t.kernel in
    record t {
      kernel =
          with_mmu k (with_mem k.mmu (paste (curr k).sp size (t.proc_stack (curr_pid k)) k.mem));
    }

-- A copy of no bytes does nothing; a row behind the array is no object.
abbrev pub copy_stack : Bool → ℕ → Trap → Run Trap
copy_stack save size t =
    if size == 0
    then ok t
    else if leb max_nprocess (curr_pid t.kernel)
    then undefined
    else ok (if save then saved_stack size t else restored_stack size t)

-- `stack_size` is an `int`: a stack pointer above the top makes it negative, which passes the
-- assertion, and the copy then runs out of every object.
unfoldable pub manage_userstack : Bool → Trap → Run Trap
manage_userstack save t =
    let size = (apps_stack_top + word_mod - (curr t.kernel).sp) % word_mod in
    if leb 0x8000_0000 size
    then undefined
    else do assert (leb size page_size); copy_stack save size t

-- An interrupt has the top bit of `mcause`; its number is in the low ten bits.
unfoldable pub handle : (mcause : ℕ) → (ctrl_c : Bool) → Kernel → Run (Kernel × Resume)
unfolding excp_entry
handle mcause ctrl_c k =
    if leb 0x8000_0000 (mcause % word_mod)
    then intr_entry (mcause % 1024) ctrl_c k
    else excp_entry (mcause % 1024) k

-- A process that starts is entered from `proc_yield`; otherwise the stack is put back.
unfoldable pub leave : Kernel × Resume → (ℕ → ℕ → ℕ) → Run (Trap × Resume)
leave (k, Resume.enter) stacks = ok (record { kernel = k; proc_stack = stacks }, Resume.enter)
leave (k, Resume.resume) stacks = do
  t ← manage_userstack false (record { kernel = k; proc_stack = stacks })
  ok (t, Resume.resume)

unfoldable pub ctx_entry : (mcause mepc : ℕ) → (ctrl_c : Bool) → Trap → Run (Trap × Resume)
ctx_entry mcause mepc ctrl_c t = do
  let k = set_curr (record (curr t.kernel) { mepc = mepc }) t.kernel
  t1 ← manage_userstack true (record t { kernel = k })
  out ← handle mcause ctrl_c t1.kernel
  leave out t1.proc_stack

-- `ctx_start` saves the process's stack pointer and goes on in `ctx_entry`.
unfoldable pub trap_handler :
    (mcause mepc handler_sp saved_sp : ℕ) → (ctrl_c : Bool) → Trap → Run (Trap × Resume)
unfolding check_nested_trap ctx_entry
trap_handler mcause mepc handler_sp saved_sp ctrl_c t = do
  check_nested_trap handler_sp
  let k = set_curr (record (curr t.kernel) { sp = saved_sp }) t.kernel
  ctx_entry mcause mepc ctrl_c (record t { kernel = k })
